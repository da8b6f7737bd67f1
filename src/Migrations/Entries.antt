-- ===== src/Migrations/Entries.antt =====
-- The scripts c3f9a1d72b40, a7b8c9d0e1f2 and e1f2a3b4c5d6 of alembic/versions: transactions and
-- ledger entries, the idempotency key and the insertion order.
use distributed_wallet_ledge.Base.{true, false, List, [], ◌∷◌}
use distributed_wallet_ledge.Base.Text.{codes}
use distributed_wallet_ledge.Migrations.{
  uuid, big_integer, date_time, string, enum, Column, primary_key_constraint,
  foreign_key_constraint, check_constraint, Operation, create_table, drop_table, create_index,
  drop_index, add_column, drop_column,
}
use distributed_wallet_ledge.Migrations.Columns.{column, defaulted, index_on}

unfoldable pub transactions_columns : List Column
transactions_columns =
    column (codes "id") uuid false
    ∷ column (codes "type")
        (enum (codes "DEPOSIT" ∷ codes "TRANSFER" ∷ codes "WITHDRAWAL" ∷ [])
          (codes "transaction_type") 20)
        false
    ∷ column (codes "status")
        (enum (codes "PENDING" ∷ codes "COMPLETED" ∷ codes "FAILED" ∷ [])
          (codes "transaction_status") 20)
        false
    ∷ column (codes "currency") (string 3) false
    ∷ defaulted (codes "created_at") date_time (codes "now()")
    ∷ []

unfoldable pub ledger_entries_columns : List Column
ledger_entries_columns =
    column (codes "id") uuid false
    ∷ column (codes "transaction_id") uuid false
    ∷ column (codes "entry_type")
        (enum (codes "CREDIT" ∷ codes "DEBIT" ∷ []) (codes "entry_type") 10) false
    ∷ column (codes "amount") big_integer false
    ∷ column (codes "currency") (string 3) false
    ∷ column (codes "wallet_id") uuid true
    ∷ column (codes "system_account") (string 50) true
    ∷ defaulted (codes "created_at") date_time (codes "now()")
    ∷ []

unfoldable pub upgrade_ledger : List Operation
upgrade_ledger =
    create_table (codes "transactions") transactions_columns
      (primary_key_constraint (codes "id" ∷ []) ∷ [])
    ∷ create_table (codes "ledger_entries") ledger_entries_columns (
        check_constraint (codes "amount > 0") (codes "ck_ledger_amount_positive")
        ∷ check_constraint
            (codes "(wallet_id IS NOT NULL)::int + (system_account IS NOT NULL)::int = 1")
            (codes "ck_ledger_exactly_one_side")
        ∷ foreign_key_constraint (codes "transaction_id" ∷ []) (codes "transactions")
            (codes "id" ∷ []) (codes "RESTRICT")
        ∷ foreign_key_constraint (codes "wallet_id" ∷ []) (codes "wallets") (codes "id" ∷ [])
            (codes "RESTRICT")
        ∷ primary_key_constraint (codes "id" ∷ [])
        ∷ [])
    ∷ create_index (codes "ledger_entries")
        (index_on (codes "ix_ledger_entries_transaction_id") (codes "transaction_id") false)
    ∷ create_index (codes "ledger_entries")
        (index_on (codes "ix_ledger_entries_wallet_id") (codes "wallet_id") false)
    ∷ []

unfoldable pub downgrade_ledger : List Operation
downgrade_ledger =
    drop_index (codes "ledger_entries") (codes "ix_ledger_entries_wallet_id")
    ∷ drop_index (codes "ledger_entries") (codes "ix_ledger_entries_transaction_id")
    ∷ drop_table (codes "ledger_entries")
    ∷ drop_table (codes "transactions")
    ∷ []

unfoldable pub upgrade_idempotency_key : List Operation
upgrade_idempotency_key =
    add_column (codes "transactions") (column (codes "idempotency_key") (string 255) true)
    ∷ create_index (codes "transactions")
        (index_on (codes "ix_transactions_idempotency_key") (codes "idempotency_key") true)
    ∷ []

unfoldable pub downgrade_idempotency_key : List Operation
downgrade_idempotency_key =
    drop_index (codes "transactions") (codes "ix_transactions_idempotency_key")
    ∷ drop_column (codes "transactions") (codes "idempotency_key")
    ∷ []

-- `sa.Column('seq', sa.BigInteger(), sa.Identity(always=False), nullable=False)`
abbrev pub seq_column : Column
seq_column = record (column (codes "seq") big_integer false) { identity = true }

unfoldable pub upgrade_seq : List Operation
upgrade_seq =
    add_column (codes "ledger_entries") seq_column
    ∷ create_index (codes "ledger_entries")
        (index_on (codes "ix_ledger_entries_seq") (codes "seq") false)
    ∷ []

unfoldable pub downgrade_seq : List Operation
downgrade_seq =
    drop_index (codes "ledger_entries") (codes "ix_ledger_entries_seq")
    ∷ drop_column (codes "ledger_entries") (codes "seq")
    ∷ []
