-- ===== src/Migrations.antt =====
-- The operations that the Alembic scripts of alembic/versions call (`op.create_table` and so on), as
-- data, and what PostgreSQL makes of them: a catalog is the list of its tables, the newest first.
-- An operation that PostgreSQL refuses gives `none`. The rows of the tables are left out.
pub mod Columns
pub mod Accounts
pub mod Entries
pub mod Events
pub mod Revisions
pub mod Undo
pub mod Models
pub mod Head
use distributed_wallet_ledge.Base.{
  Bool, ℕ, true, false, not, ◌||◌, ◌&&◌, Option, none, some, List, [], ◌∷◌, ◌++◌, if◌then◌else◌,
}
use distributed_wallet_ledge.Base.Text.{Text, text_eq}
use distributed_wallet_ledge.Base.Rows.{exists, filter}
use mathlib.Core.Option as Option

-- `sa.UUID()`, `sa.BigInteger()`, `sa.DateTime(timezone=True)`, `JSONB`, `sa.String(length)`, and
-- `sa.Enum` with its values, its name and its length.
pub data ColumnType : Type 0 where
  uuid big_integer date_time jsonb : ColumnType
  string : ℕ → ColumnType
  enum : List Text → Text → ℕ → ColumnType

-- `sa.Column`
pub record Column : Type 0 where
  pub column_name : Text
  pub column_type : ColumnType
  pub nullable : Bool
  pub server_default : Option Text
  pub identity : Bool

-- A foreign key names its columns, the table, that table's columns and its `ondelete`; a check its
-- condition and its name; a unique constraint its columns and its name.
pub data Constraint : Type 0 where
  primary_key_constraint : List Text → Constraint
  foreign_key_constraint : List Text → Text → List Text → Text → Constraint
  check_constraint : Text → Text → Constraint
  unique_constraint : List Text → Text → Constraint

-- `op.create_index` less its table; `postgresql_where` is the condition of a partial index.
pub record Index : Type 0 where
  pub index_name : Text
  pub index_columns : List Text
  pub is_unique : Bool
  pub postgresql_where : Option Text

pub record Table : Type 0 where
  pub table_name : Text
  pub columns : List Column
  pub constraints : List Constraint
  pub indexes : List Index

pub data Operation : Type 0 where
  create_table : Text → List Column → List Constraint → Operation
  drop_table : Text → Operation
  create_index : Text → Index → Operation
  drop_index : Text → Text → Operation
  add_column : Text → Column → Operation
  drop_column : Text → Text → Operation

abbrev pub Catalog : Type 0
Catalog = List Table

abbrev pub table_is : Text → Table → Bool
table_is name t = text_eq t.table_name name

abbrev pub column_is : Text → Column → Bool
column_is name c = text_eq c.column_name name

abbrev pub index_is : Text → Index → Bool
index_is name i = text_eq i.index_name name

-- Whether a constraint, or a table by one of its constraints, refers to a table.
abbrev pub refers_to : Text → Constraint → Bool
refers_to name (foreign_key_constraint _ target _ _) = text_eq target name
refers_to name _ = false

abbrev pub table_refers_to : Text → Table → Bool
table_refers_to name t = exists (refers_to name) t.constraints

-- Whether the tables that the foreign keys name are there.
abbrev pub target_exists : Catalog → Constraint → Bool
target_exists c (foreign_key_constraint _ target _ _) = exists (table_is target) c
target_exists c _ = true

abbrev pub all {ℓ} : {A : Type ℓ} → (A → Bool) → List A → Bool
all p [] = true
all p (x ∷ xs) = p x && all p xs

-- Whether an index or a constraint is about a column.
abbrev pub index_uses : Text → Index → Bool
index_uses name i = exists (λ n. text_eq n name) i.index_columns

abbrev pub constraint_uses : Text → Constraint → Bool
constraint_uses name (primary_key_constraint cs) = exists (λ n. text_eq n name) cs
constraint_uses name (foreign_key_constraint cs _ _ _) = exists (λ n. text_eq n name) cs
constraint_uses name (check_constraint cs _) = false
constraint_uses name (unique_constraint cs _) = exists (λ n. text_eq n name) cs

-- Without the first element that passes the test.
abbrev pub remove {ℓ} : {A : Type ℓ} → (A → Bool) → List A → Option (List A)
remove p [] = none
remove p (x ∷ xs) = if p x then some xs else Option.map (λ ys. x ∷ ys) (remove p xs)

-- A change of the table of that name.
abbrev pub on_table : Text → (Table → Option Table) → Catalog → Option Catalog
on_table name f [] = none
on_table name f (t ∷ ts) =
    if table_is name t
    then Option.map (λ u. u ∷ ts) (f t)
    else Option.map (λ us. t ∷ us) (on_table name f ts)

-- That nothing refers yet to a table or a column that is not there is checked with its absence.
abbrev pub with_table : Table → Catalog → Option Catalog
with_table t c =
    if exists (table_is t.table_name) c || exists (table_refers_to t.table_name) c
    then none
    else if all (target_exists (t ∷ c)) t.constraints
    then some (t ∷ c)
    else none

abbrev pub unreferenced : Text → Catalog → Option Catalog
unreferenced name rest = if exists (table_refers_to name) rest then none else some rest

abbrev pub with_index : Index → Table → Option Table
with_index i t =
    if all (λ n. exists (column_is n) t.columns) i.index_columns
    then some (record t { indexes = i ∷ t.indexes })
    else none

abbrev pub without_index : Text → Table → Option Table
without_index name t =
    Option.map (λ is. record t { indexes = is }) (remove (index_is name) t.indexes)

abbrev pub with_column : Column → Table → Option Table
with_column c t =
    if exists (column_is c.column_name) t.columns
      || exists (index_uses c.column_name) t.indexes
      || exists (constraint_uses c.column_name) t.constraints
    then none
    else some (record t { columns = t.columns ++ (c ∷ []) })

-- The indexes and constraints of a column go with it.
abbrev pub without_column : Text → Table → Option Table
without_column name t =
    Option.map
      (λ cs. record t {
        columns = cs;
        constraints = filter (λ k. not (constraint_uses name k)) t.constraints;
        indexes = filter (λ i. not (index_uses name i)) t.indexes;
      })
      (remove (column_is name) t.columns)

infixl 20 ◌>>=◌
abbrev pub ◌>>=◌ {ℓ κ} : {A : Type ℓ} {B : Type κ} → Option A → (A → Option B) → Option B
none >>= f = none
some a >>= f = f a

unfoldable pub apply : Operation → Catalog → Option Catalog
apply (create_table name cs ks) c =
    with_table (record { table_name = name; columns = cs; constraints = ks; indexes = [] }) c
apply (drop_table name) c = do rest ← remove (table_is name) c; unreferenced name rest
apply (create_index name i) c =
    if exists (λ t. exists (index_is i.index_name) t.indexes) c
    then none
    else on_table name (with_index i) c
apply (drop_index name i) c = on_table name (without_index i) c
apply (add_column name col) c = on_table name (with_column col) c
apply (drop_column name col) c = on_table name (without_column col) c

-- The operations of a script, one after the other in one transaction.
unfoldable pub run : List Operation → Catalog → Option Catalog
run [] c = some c
run (o ∷ os) c = do d ← apply o c; run os d
