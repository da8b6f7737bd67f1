-- ===== src/Migrations/Revisions.antt =====
-- The revisions of alembic/versions: what each revises, and its `upgrade` and `downgrade`.
use distributed_wallet_ledge.Base.{Option, none, some, List, [], ◌∷◌, ◌++◌, ℕ, zero, suc}
use distributed_wallet_ledge.Migrations.{Operation}
use distributed_wallet_ledge.Migrations.Accounts.{
  upgrade_users, downgrade_users, upgrade_wallets, downgrade_wallets,
}
use distributed_wallet_ledge.Migrations.Entries.{
  upgrade_ledger, downgrade_ledger, upgrade_idempotency_key, downgrade_idempotency_key, upgrade_seq,
  downgrade_seq,
}
use distributed_wallet_ledge.Migrations.Events.{
  upgrade_outbox, downgrade_outbox, upgrade_analytics, downgrade_analytics,
}

-- The scripts by what their file names say, the oldest first.
pub data Revision : Type 0 where
  init create_users_table create_wallets_table create_transactions_and_ledger_entries : Revision
  add_idempotency_key_to_transactions create_outbox_events_table : Revision
  create_analytics_and_processed_events add_seq_to_ledger_entries : Revision

unfoldable pub down_revision : Revision → Option Revision
down_revision init = none
down_revision create_users_table = some init
down_revision create_wallets_table = some create_users_table
down_revision create_transactions_and_ledger_entries = some create_wallets_table
down_revision add_idempotency_key_to_transactions = some create_transactions_and_ledger_entries
down_revision create_outbox_events_table = some add_idempotency_key_to_transactions
down_revision create_analytics_and_processed_events = some create_outbox_events_table
down_revision add_seq_to_ledger_entries = some create_analytics_and_processed_events

unfoldable pub upgrade_init : List Operation
upgrade_init = []

unfoldable pub downgrade_init : List Operation
downgrade_init = []

unfoldable pub upgrade : Revision → List Operation
upgrade init = upgrade_init
upgrade create_users_table = upgrade_users
upgrade create_wallets_table = upgrade_wallets
upgrade create_transactions_and_ledger_entries = upgrade_ledger
upgrade add_idempotency_key_to_transactions = upgrade_idempotency_key
upgrade create_outbox_events_table = upgrade_outbox
upgrade create_analytics_and_processed_events = upgrade_analytics
upgrade add_seq_to_ledger_entries = upgrade_seq

unfoldable pub downgrade : Revision → List Operation
downgrade init = downgrade_init
downgrade create_users_table = downgrade_users
downgrade create_wallets_table = downgrade_wallets
downgrade create_transactions_and_ledger_entries = downgrade_ledger
downgrade add_idempotency_key_to_transactions = downgrade_idempotency_key
downgrade create_outbox_events_table = downgrade_outbox
downgrade create_analytics_and_processed_events = downgrade_analytics
downgrade add_seq_to_ledger_entries = downgrade_seq

-- The revisions from the first one up to `r`, found by following `down_revision` for at most `fuel`
-- steps: the scripts that `alembic upgrade r` runs on an empty database, in its order.
unfoldable pub lineage : ℕ → Revision → List Revision
unfolding down_revision
lineage zero r = []
lineage (suc fuel) r = elim (down_revision r) [
  | none ↦ r ∷ []
  | some p ↦ lineage fuel p ++ (r ∷ [])
]

-- The operations of several revisions, upwards, and back down.
unfoldable pub upgrades : List Revision → List Operation
unfolding upgrade
upgrades [] = []
upgrades (r ∷ rs) = upgrade r ++ upgrades rs

unfoldable pub downgrades : List Revision → List Operation
unfolding downgrade
downgrades [] = []
downgrades (r ∷ rs) = downgrades rs ++ downgrade r
