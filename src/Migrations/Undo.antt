-- ===== src/Migrations/Undo.antt =====
-- Every `downgrade` of alembic/versions takes back what its `upgrade` did, the last operation first.
pub mod Scripts
use distributed_wallet_ledge.Base.{
  ◌≡◌, refl, arith, subst, sym, Bool, true, false, not, ◌||◌, Option, none, some, List, [], ◌∷◌,
  ◌++◌, Option-cases, Bool-cases, inl, inr, if◌then◌else◌,
}
use distributed_wallet_ledge.Base.Text.{Text, text_eq_refl}
use distributed_wallet_ledge.Base.Rows.{exists, filter}
use mathlib.Core.Option as Option
use mathlib.Core.List.{append-nil, append_assoc}
use distributed_wallet_ledge.Migrations.{
  Operation, create_table, drop_table, create_index, drop_index, add_column, drop_column, apply,
  run, Catalog, Table, Column, Index, ◌>>=◌, remove, on_table, table_is, column_is, index_uses,
  constraint_uses, with_table, unreferenced, with_index, without_index, with_column, without_column,
  all, table_refers_to, target_exists,
}
use distributed_wallet_ledge.Migrations.Revisions.{
  Revision, upgrade, downgrade, upgrades, downgrades, upgrade_init, downgrade_init,
}
use distributed_wallet_ledge.Migrations.Accounts.{
  upgrade_users, downgrade_users, upgrade_wallets, downgrade_wallets,
}
use distributed_wallet_ledge.Migrations.Entries.{
  upgrade_ledger, downgrade_ledger, upgrade_idempotency_key, downgrade_idempotency_key, upgrade_seq,
  downgrade_seq,
}
use distributed_wallet_ledge.Migrations.Events.{
  upgrade_outbox, downgrade_outbox, upgrade_analytics, downgrade_analytics,
}

-- What takes an operation back.
unfoldable pub inverse : Operation → Option Operation
inverse (create_table name _ _) = some (drop_table name)
inverse (create_index name i) = some (drop_index name i.index_name)
inverse (add_column name c) = some (drop_column name c.column_name)
inverse _ = none

unfoldable pub undo : List Operation → Option (List Operation)
unfolding inverse
undo [] = some []
undo (o ∷ os) = undo os >>= λ rest. inverse o >>= λ p. some (rest ++ (p ∷ []))

pub >>=_some {ℓ κ} :
    {A : Type ℓ} {B : Type κ} (o : Option A) (f : A → Option B) (b : B)
    → (o >>= f) ≡ some b
    → (a : A) × (o ≡ some a) × (f a ≡ some b)
>>=_some none f b h = cc h
>>=_some (some a) f b h = (a, refl, h)

map-some {ℓ κ} :
    {A : Type ℓ} {B : Type κ} (g : A → B) (o : Option A) (b : B)
    → Option.map g o ≡ some b
    → (a : A) × (o ≡ some a) × (g a ≡ b)
map-some g none b h = cc h
map-some g (some a) b h = (a, refl, cc h)

filter_none {ℓ} :
    {A : Type ℓ} (p : A → Bool) (xs : List A)
    → exists p xs ≡ false
    → filter (λ x. not (p x)) xs ≡ xs
filter_none p [] h = refl
filter_none p (x ∷ xs) h = ground (arith, filter_none p xs)

remove_last :
    (c : Column) (cs : List Column)
    → exists (column_is c.column_name) cs ≡ false
    → remove (column_is c.column_name) (cs ++ (c ∷ [])) ≡ some cs
remove_last c [] h = rw (text_eq_refl c.column_name)
remove_last c (x ∷ xs) h = elim (Bool-cases (column_is c.column_name x)) [
  | inl e ↦ cc (h, e)
  | inr e ↦ rw (e, remove_last c xs (ground arith))
]

-- A change of one table is taken back when it keeps the table's name.
on_table_undone :
    (name : Text) (f g : Table → Option Table)
    → ((t u : Table) → f t ≡ some u → (table_is name u ≡ table_is name t) × (g u ≡ some t))
    → (c d : Catalog) → on_table name f c ≡ some d
    → on_table name g d ≡ some c
on_table_undone name f g k [] d h = cc h
on_table_undone name f g k (t ∷ ts) d h = elim (Bool-cases (table_is name t)) [
  | inl e ↦
      let (u, fu, eq) = map-some (λ u. u ∷ ts) (f t) d (rw e at h) in
      let (same, back) = k t u fu in
      subst (λ d. on_table name g d ≡ some (t ∷ ts)) eq (rw (same, e, back))
  | inr e ↦
      let (us, fus, eq) = map-some (λ us. t ∷ us) (on_table name f ts) d (rw e at h) in
      subst (λ d. on_table name g d ≡ some (t ∷ ts)) eq
        (rw (e, on_table_undone name f g k ts us fus))
]

-- A guard that refuses, passed.
not_refused {ℓ} :
    {A : Type ℓ} (b : Bool) (o : Option A) (a : A)
    → (if b then none else o) ≡ some a
    → (b ≡ false) × (o ≡ some a)
not_refused true o a h = cc h
not_refused false o a h = (refl, h)

allowed {ℓ} :
    {A : Type ℓ} (b : Bool) (o : Option A) (a : A) → (if b then o else none) ≡ some a → o ≡ some a
allowed true o a h = h
allowed false o a h = cc h

some_inj {ℓ} : {A : Type ℓ} {a b : A} → some a ≡ some b → a ≡ b
some_inj h = cc h

neither : (a b : Bool) → (a || b) ≡ false → (a ≡ false) × (b ≡ false)
neither a b h = ground arith

with_index_undone :
    (name : Text) (i : Index) (t u : Table)
    → with_index i t ≡ some u
    → (table_is name u ≡ table_is name t) × (without_index i.index_name u ≡ some t)
with_index_undone name i t u h =
    let eq =
      allowed (all (λ n. exists (column_is n) t.columns) i.index_columns)
        (some (record t { indexes = i ∷ t.indexes })) u h in
    subst (λ v. (table_is name v ≡ table_is name t) × (without_index i.index_name v ≡ some t))
      (some_inj eq) (refl, rw (text_eq_refl i.index_name))

with_column_undone :
    (name : Text) (c : Column) (t u : Table)
    → with_column c t ≡ some u
    → (table_is name u ≡ table_is name t) × (without_column c.column_name u ≡ some t)
with_column_undone name c t u h =
    let (free, eq) = not_refused _ (some (record t { columns = t.columns ++ (c ∷ []) })) u h in
    let (absent, unused) =
      neither
        (exists (column_is c.column_name) t.columns || exists (index_uses c.column_name) t.indexes)
        (exists (constraint_uses c.column_name) t.constraints) free in
    let (fresh, no_index) =
      neither (exists (column_is c.column_name) t.columns)
        (exists (index_uses c.column_name) t.indexes) absent in
    subst (λ v. (table_is name v ≡ table_is name t) × (without_column c.column_name v ≡ some t))
      (some_inj eq)
      (
        refl,
        rw (
          remove_last c t.columns fresh,
          filter_none (constraint_uses c.column_name) t.constraints unused,
          filter_none (index_uses c.column_name) t.indexes no_index,
        ),
      )

with_table_undone :
    (t : Table) (c d : Catalog)
    → with_table t c ≡ some d
    → (remove (table_is t.table_name) d >>= λ rest. unreferenced t.table_name rest) ≡ some c
with_table_undone t c d h =
    let (free, eq) = not_refused _ _ d h in
    let (absent, unreferred) =
      neither (exists (table_is t.table_name) c) (exists (table_refers_to t.table_name) c) free in
    subst
      (λ e. (remove (table_is t.table_name) e >>= λ rest. unreferenced t.table_name rest) ≡ some c)
      (some_inj (allowed (all (target_exists (t ∷ c)) t.constraints) (some (t ∷ c)) d eq))
      (rw (text_eq_refl t.table_name, unreferred))

-- A create or an add, taken back.
apply_undone :
    (o p : Operation) (c d : Catalog) → apply o c ≡ some d → inverse o ≡ some p → apply p d ≡ some c
unfolding apply inverse
apply_undone (create_table name cs ks) p c d h i =
    subst (λ q. apply q d ≡ some c) (some_inj i)
      (with_table_undone
        (record { table_name = name; columns = cs; constraints = ks; indexes = [] }) c d h)
apply_undone (create_index name x) p c d h i =
    subst (λ q. apply q d ≡ some c) (some_inj i)
      (on_table_undone name (with_index x) (without_index x.index_name) (with_index_undone name x) c
        d (not_refused _ (on_table name (with_index x) c) d h).1)
apply_undone (add_column name x) p c d h i =
    subst (λ q. apply q d ≡ some c) (some_inj i)
      (on_table_undone name (with_column x) (without_column x.column_name)
        (with_column_undone name x) c d h)
apply_undone (drop_table _) p c d h i = cc i
apply_undone (drop_index _ _) p c d h i = cc i
apply_undone (drop_column _ _) p c d h i = cc i
