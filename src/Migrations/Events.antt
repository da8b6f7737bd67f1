-- ===== src/Migrations/Events.antt =====
-- The scripts b8c9d0e1f2a3 and d0e1f2a3b4c5 of alembic/versions: the outbox, the rollup and the inbox.
use distributed_wallet_ledge.Base.{true, false, some, List, [], ◌∷◌}
use distributed_wallet_ledge.Base.Text.{codes}
use distributed_wallet_ledge.Migrations.{
  uuid, big_integer, date_time, jsonb, string, Column, primary_key_constraint, Index, Operation,
  create_table, drop_table, create_index, drop_index,
}
use distributed_wallet_ledge.Migrations.Columns.{column, defaulted, index_on}

unfoldable pub outbox_events_columns : List Column
outbox_events_columns =
    column (codes "id") uuid false
    ∷ column (codes "aggregate_type") (string 50) false
    ∷ column (codes "aggregate_id") uuid false
    ∷ column (codes "event_type") (string 100) false
    ∷ column (codes "payload") jsonb false
    ∷ defaulted (codes "created_at") date_time (codes "now()")
    ∷ column (codes "published_at") date_time true
    ∷ []

-- The partial index of the rows that the publisher polls.
abbrev pub unpublished_index : Index
unpublished_index = record (index_on (codes "ix_outbox_unpublished") (codes "created_at") false) {
  postgresql_where = some (codes "published_at IS NULL");
}

unfoldable pub upgrade_outbox : List Operation
upgrade_outbox =
    create_table (codes "outbox_events") outbox_events_columns
      (primary_key_constraint (codes "id" ∷ []) ∷ [])
    ∷ create_index (codes "outbox_events")
        (index_on (codes "ix_outbox_events_aggregate_id") (codes "aggregate_id") false)
    ∷ create_index (codes "outbox_events") unpublished_index
    ∷ []

unfoldable pub downgrade_outbox : List Operation
downgrade_outbox =
    drop_index (codes "outbox_events") (codes "ix_outbox_unpublished")
    ∷ drop_index (codes "outbox_events") (codes "ix_outbox_events_aggregate_id")
    ∷ drop_table (codes "outbox_events")
    ∷ []

unfoldable pub transaction_stats_columns : List Column
transaction_stats_columns =
    column (codes "currency") (string 3) false
    ∷ column (codes "type") (string 20) false
    ∷ defaulted (codes "count") big_integer (codes "0")
    ∷ defaulted (codes "total_amount") big_integer (codes "0")
    ∷ defaulted (codes "updated_at") date_time (codes "now()")
    ∷ []

unfoldable pub processed_events_columns : List Column
processed_events_columns =
    column (codes "consumer") (string 50) false
    ∷ column (codes "transaction_id") uuid false
    ∷ defaulted (codes "processed_at") date_time (codes "now()")
    ∷ []

unfoldable pub upgrade_analytics : List Operation
upgrade_analytics =
    create_table (codes "transaction_stats") transaction_stats_columns
      (primary_key_constraint (codes "currency" ∷ codes "type" ∷ []) ∷ [])
    ∷ create_table (codes "processed_events") processed_events_columns
        (primary_key_constraint (codes "consumer" ∷ codes "transaction_id" ∷ []) ∷ [])
    ∷ []

unfoldable pub downgrade_analytics : List Operation
downgrade_analytics =
    drop_table (codes "processed_events") ∷ drop_table (codes "transaction_stats") ∷ []
