-- ===== src/Repositories/Processed.antt =====
-- `ProcessedEventRepository` (app/repositories/processed_event_repo.py): the inbox of the consumers.
use distributed_wallet_ledge.Base.{ℕ, Bool, not, ◌==◌, ◌&&◌, Option, some, none, ◌∷◌, if◌then◌else◌}
use distributed_wallet_ledge.Base.Text.{Text, text_eq}
use distributed_wallet_ledge.Base.Rows.{exists}
use distributed_wallet_ledge.Schema.{ProcessedEvent}
use distributed_wallet_ledge.Database.{Db, Violation, integrity, data_error, fits_varchar}
use distributed_wallet_ledge.Session.{Exec, pure, query, refuse, write, wait, flush, ◌>>=◌, ◌>>◌}

-- The composite primary key.
abbrev pub was_processed : Text → ℕ → Db → Bool
was_processed consumer transaction_id db =
    exists (λ r. r.transaction_id == transaction_id && text_eq r.consumer consumer)
      db.processed_events

unfoldable pub is_processed : Text → ℕ → Exec Bool
is_processed consumer transaction_id = query (was_processed consumer transaction_id)

abbrev pub inbox_row : Text → ℕ → ProcessedEvent
inbox_row consumer transaction_id = record { consumer = consumer; transaction_id = transaction_id }

-- INSERT INTO processed_events: `String(50)` and the primary key.
unfoldable pub inbox_violation : ProcessedEvent → Db → Option Violation
inbox_violation r db =
    if not (fits_varchar 50 (some r.consumer))
    then some data_error
    else if was_processed r.consumer r.transaction_id db
    then some integrity
    else none

abbrev pub add_processed : ProcessedEvent → Db → Db
add_processed r db = record db { processed_events = r ∷ db.processed_events }

-- The INSERT waits for another session that is inserting the same key.
unfoldable pub mark_processed : Text → ℕ → Exec ProcessedEvent
unfolding ◌>>=◌ flush wait
mark_processed consumer transaction_id = do
  flush
  wait
  let row = inbox_row consumer transaction_id
  violation ← query (inbox_violation row)
  refuse violation
  write (add_processed row)
  pure row
