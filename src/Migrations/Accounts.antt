-- ===== src/Migrations/Accounts.antt =====
-- The scripts 03aeff243be4 and ace04db20b32 of alembic/versions: the tables of users and wallets.
use distributed_wallet_ledge.Base.{true, false, List, [], ◌∷◌}
use distributed_wallet_ledge.Base.Text.{codes}
use distributed_wallet_ledge.Migrations.{
  uuid, big_integer, date_time, string, Column, primary_key_constraint, foreign_key_constraint,
  check_constraint, unique_constraint, Operation, create_table, drop_table, create_index,
  drop_index,
}
use distributed_wallet_ledge.Migrations.Columns.{column, defaulted, index_on}

unfoldable pub users_columns : List Column
users_columns =
    column (codes "id") uuid false
    ∷ column (codes "name") (string 255) false
    ∷ column (codes "email") (string 255) false
    ∷ column (codes "password_hash") (string 255) false
    ∷ defaulted (codes "created_at") date_time (codes "now()")
    ∷ []

unfoldable pub upgrade_users : List Operation
upgrade_users =
    create_table (codes "users") users_columns (primary_key_constraint (codes "id" ∷ []) ∷ [])
    ∷ create_index (codes "users") (index_on (codes "ix_users_email") (codes "email") true)
    ∷ []

unfoldable pub downgrade_users : List Operation
downgrade_users =
    drop_index (codes "users") (codes "ix_users_email") ∷ drop_table (codes "users") ∷ []

unfoldable pub wallets_columns : List Column
wallets_columns =
    column (codes "id") uuid false
    ∷ column (codes "user_id") uuid false
    ∷ column (codes "currency") (string 3) false
    ∷ defaulted (codes "available_balance") big_integer (codes "0")
    ∷ defaulted (codes "locked_balance") big_integer (codes "0")
    ∷ defaulted (codes "created_at") date_time (codes "now()")
    ∷ defaulted (codes "updated_at") date_time (codes "now()")
    ∷ []

unfoldable pub upgrade_wallets : List Operation
upgrade_wallets =
    create_table (codes "wallets") wallets_columns (
      check_constraint (codes "available_balance >= 0") (codes "ck_wallet_available_nonneg")
      ∷ check_constraint (codes "locked_balance >= 0") (codes "ck_wallet_locked_nonneg")
      ∷ foreign_key_constraint (codes "user_id" ∷ []) (codes "users") (codes "id" ∷ [])
          (codes "CASCADE")
      ∷ primary_key_constraint (codes "id" ∷ [])
      ∷ unique_constraint (codes "user_id" ∷ codes "currency" ∷ [])
          (codes "uq_wallet_user_currency")
      ∷ [])
    ∷ create_index (codes "wallets") (index_on (codes "ix_wallets_user_id") (codes "user_id") false)
    ∷ []

unfoldable pub downgrade_wallets : List Operation
downgrade_wallets =
    drop_index (codes "wallets") (codes "ix_wallets_user_id") ∷ drop_table (codes "wallets") ∷ []
