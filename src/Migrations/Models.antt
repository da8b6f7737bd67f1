-- ===== src/Migrations/Models.antt =====
-- The tables that the models of app/db/models declare: `Base.metadata`, the other description of the
-- schema, which the scripts of alembic/versions are to agree with.
use distributed_wallet_ledge.Base.{true, false, some, [], ◌∷◌}
use distributed_wallet_ledge.Base.Text.{codes}
use distributed_wallet_ledge.Migrations.{
  uuid, big_integer, date_time, jsonb, string, enum, primary_key_constraint, foreign_key_constraint,
  check_constraint, unique_constraint, Table, Catalog,
}
use distributed_wallet_ledge.Migrations.Columns.{column, defaulted, index_on}

unfoldable pub users_model : Table
users_model = record {
  table_name = codes "users";
  columns =
      column (codes "id") uuid false
      ∷ column (codes "name") (string 255) false
      ∷ column (codes "email") (string 255) false
      ∷ column (codes "password_hash") (string 255) false
      ∷ defaulted (codes "created_at") date_time (codes "now()")
      ∷ [];
  constraints = primary_key_constraint (codes "id" ∷ []) ∷ [];
  indexes = index_on (codes "ix_users_email") (codes "email") true ∷ [];
}

unfoldable pub wallets_model : Table
wallets_model = record {
  table_name = codes "wallets";
  columns =
      column (codes "id") uuid false
      ∷ column (codes "user_id") uuid false
      ∷ column (codes "currency") (string 3) false
      ∷ defaulted (codes "available_balance") big_integer (codes "0")
      ∷ defaulted (codes "locked_balance") big_integer (codes "0")
      ∷ defaulted (codes "created_at") date_time (codes "now()")
      ∷ defaulted (codes "updated_at") date_time (codes "now()")
      ∷ [];
  constraints =
      unique_constraint (codes "user_id" ∷ codes "currency" ∷ []) (codes "uq_wallet_user_currency")
      ∷ check_constraint (codes "available_balance >= 0") (codes "ck_wallet_available_nonneg")
      ∷ check_constraint (codes "locked_balance >= 0") (codes "ck_wallet_locked_nonneg")
      ∷ primary_key_constraint (codes "id" ∷ [])
      ∷ foreign_key_constraint (codes "user_id" ∷ []) (codes "users") (codes "id" ∷ [])
          (codes "CASCADE")
      ∷ [];
  indexes = index_on (codes "ix_wallets_user_id") (codes "user_id") false ∷ [];
}

unfoldable pub transactions_model : Table
transactions_model = record {
  table_name = codes "transactions";
  columns =
      column (codes "id") uuid false
      ∷ column (codes "type")
          (enum (codes "DEPOSIT" ∷ codes "TRANSFER" ∷ codes "WITHDRAWAL" ∷ [])
            (codes "transaction_type") 20)
          false
      ∷ column (codes "status")
          (enum (codes "PENDING" ∷ codes "COMPLETED" ∷ codes "FAILED" ∷ [])
            (codes "transaction_status") 20)
          false
      ∷ column (codes "currency") (string 3) false
      ∷ column (codes "idempotency_key") (string 255) true
      ∷ defaulted (codes "created_at") date_time (codes "now()")
      ∷ [];
  constraints = primary_key_constraint (codes "id" ∷ []) ∷ [];
  indexes = index_on (codes "ix_transactions_idempotency_key") (codes "idempotency_key") true ∷ [];
}

unfoldable pub ledger_entries_model : Table
ledger_entries_model = record {
  table_name = codes "ledger_entries";
  columns =
      column (codes "id") uuid false
      ∷ record (column (codes "seq") big_integer false) { identity = true }
      ∷ column (codes "transaction_id") uuid false
      ∷ column (codes "entry_type")
          (enum (codes "CREDIT" ∷ codes "DEBIT" ∷ []) (codes "entry_type") 10) false
      ∷ column (codes "amount") big_integer false
      ∷ column (codes "currency") (string 3) false
      ∷ column (codes "wallet_id") uuid true
      ∷ column (codes "system_account") (string 50) true
      ∷ defaulted (codes "created_at") date_time (codes "now()")
      ∷ [];
  constraints =
      check_constraint (codes "amount > 0") (codes "ck_ledger_amount_positive")
      ∷ check_constraint
          (codes "(wallet_id IS NOT NULL)::int + (system_account IS NOT NULL)::int = 1")
          (codes "ck_ledger_exactly_one_side")
      ∷ primary_key_constraint (codes "id" ∷ [])
      ∷ foreign_key_constraint (codes "transaction_id" ∷ []) (codes "transactions")
          (codes "id" ∷ []) (codes "RESTRICT")
      ∷ foreign_key_constraint (codes "wallet_id" ∷ []) (codes "wallets") (codes "id" ∷ [])
          (codes "RESTRICT")
      ∷ [];
  indexes =
      index_on (codes "ix_ledger_entries_seq") (codes "seq") false
      ∷ index_on (codes "ix_ledger_entries_transaction_id") (codes "transaction_id") false
      ∷ index_on (codes "ix_ledger_entries_wallet_id") (codes "wallet_id") false
      ∷ [];
}

unfoldable pub outbox_events_model : Table
outbox_events_model = record {
  table_name = codes "outbox_events";
  columns =
      column (codes "id") uuid false
      ∷ column (codes "aggregate_type") (string 50) false
      ∷ column (codes "aggregate_id") uuid false
      ∷ column (codes "event_type") (string 100) false
      ∷ column (codes "payload") jsonb false
      ∷ defaulted (codes "created_at") date_time (codes "now()")
      ∷ column (codes "published_at") date_time true
      ∷ [];
  constraints = primary_key_constraint (codes "id" ∷ []) ∷ [];
  indexes =
      record (index_on (codes "ix_outbox_unpublished") (codes "created_at") false) {
        postgresql_where = some (codes "published_at IS NULL");
      }
      ∷ index_on (codes "ix_outbox_events_aggregate_id") (codes "aggregate_id") false
      ∷ [];
}

unfoldable pub transaction_stats_model : Table
transaction_stats_model = record {
  table_name = codes "transaction_stats";
  columns =
      column (codes "currency") (string 3) false
      ∷ column (codes "type") (string 20) false
      ∷ defaulted (codes "count") big_integer (codes "0")
      ∷ defaulted (codes "total_amount") big_integer (codes "0")
      ∷ defaulted (codes "updated_at") date_time (codes "now()")
      ∷ [];
  constraints = primary_key_constraint (codes "currency" ∷ codes "type" ∷ []) ∷ [];
  indexes = [];
}

unfoldable pub processed_events_model : Table
processed_events_model = record {
  table_name = codes "processed_events";
  columns =
      column (codes "consumer") (string 50) false
      ∷ column (codes "transaction_id") uuid false
      ∷ defaulted (codes "processed_at") date_time (codes "now()")
      ∷ [];
  constraints = primary_key_constraint (codes "consumer" ∷ codes "transaction_id" ∷ []) ∷ [];
  indexes = [];
}

-- The registry of app/db/models/__init__.py, the newest table first.
unfoldable pub metadata : Catalog
metadata =
    processed_events_model ∷ transaction_stats_model ∷ outbox_events_model ∷ ledger_entries_model
    ∷ transactions_model ∷ wallets_model ∷ users_model ∷ []
