-- ===== src/Migrations/Columns.antt =====
-- How the scripts of alembic/versions write a column and an index.
use distributed_wallet_ledge.Base.{Bool, false, none, some, [], ◌∷◌}
use distributed_wallet_ledge.Base.Text.{Text}
use distributed_wallet_ledge.Migrations.{ColumnType, Column, Index}

-- `sa.Column(name, type, nullable=…)`
abbrev pub column : Text → ColumnType → Bool → Column
column name type nullable = record {
  column_name = name;
  column_type = type;
  nullable = nullable;
  server_default = none;
  identity = false;
}

-- `server_default=…, nullable=False`
abbrev pub defaulted : Text → ColumnType → Text → Column
defaulted name type default = record (column name type false) { server_default = some default }

abbrev pub index_on : Text → Text → Bool → Index
index_on name col is_unique = record {
  index_name = name;
  index_columns = col ∷ [];
  is_unique = is_unique;
  postgresql_where = none;
}
