-- ===== src/Repositories/Outbox.antt =====
-- `OutboxRepository` (app/repositories/outbox_repo.py).
pub mod Oldest
use distributed_wallet_ledge.Base.{
  ℕ, ⊤, Bool, true, false, ◌==◌, leb, if◌then◌else◌, some, none, List, [], ◌∷◌, map,
}
use distributed_wallet_ledge.Base.Rows.{filter, take}
use distributed_wallet_ledge.Base.Text.{Text}
use distributed_wallet_ledge.Schema.{OutboxEvent, Payload}
use distributed_wallet_ledge.Database.{Db, event_violation}
use distributed_wallet_ledge.Session.{Exec, ok, pure, query, refuse, write, flush, ◌>>=◌, ◌>>◌}

abbrev pub event_row : ℕ → Text → ℕ → Text → Payload → ℕ → OutboxEvent
event_row id aggregate_type aggregate_id event_type payload now = record {
  id = id;
  aggregate_type = aggregate_type;
  aggregate_id = aggregate_id;
  event_type = event_type;
  payload = payload;
  created_at = now;
  published_at = none;
}

abbrev pub append_event : OutboxEvent → Db → Db
append_event e db = record db { outbox_events = e ∷ db.outbox_events }

unfoldable pub add_event : ℕ → Text → ℕ → Text → Payload → Exec OutboxEvent
unfolding ◌>>=◌ flush
add_event id aggregate_type aggregate_id event_type payload = do
  flush
  event ← λ s. (ok (event_row id aggregate_type aggregate_id event_type payload s.now), s)
  violation ← query (event_violation event)
  refuse violation
  write (append_event event)
  pure event

-- `published_at IS NULL`
abbrev pub is_unpublished : OutboxEvent → Bool
is_unpublished e = elim e.published_at [ none ↦ true | some _ ↦ false ]

-- `ORDER BY created_at`. Rows of one time, whose order the statement leaves open, come in the order
-- of their insertion.
unfoldable pub insert_by_time : OutboxEvent → List OutboxEvent → List OutboxEvent
insert_by_time e [] = e ∷ []
insert_by_time e (f ∷ events) =
    let rest = insert_by_time e events in
    if leb f.created_at e.created_at then f ∷ rest else e ∷ f ∷ events

unfoldable pub order_by_time : List OutboxEvent → List OutboxEvent
unfolding insert_by_time
order_by_time [] = []
order_by_time (e ∷ events) = insert_by_time e (order_by_time events)

-- The first `limit` rows that are not published, the oldest first.
abbrev pub oldest_unpublished : ℕ → Db → List OutboxEvent
oldest_unpublished limit db = take limit (order_by_time (filter is_unpublished db.outbox_events))

unfoldable pub fetch_unpublished : ℕ → Exec (List OutboxEvent)
fetch_unpublished limit = query (oldest_unpublished limit)

-- UPDATE outbox_events SET published_at = … WHERE id = …
abbrev pub set_published : ℕ → ℕ → List OutboxEvent → List OutboxEvent
set_published id time [] = []
set_published id time (e ∷ events) =
    (if e.id == id then record e { published_at = some time } else e) ∷ set_published id time events

-- `mark_published`; `time` is `datetime.now`.
unfoldable pub mark_published : ℕ → OutboxEvent → Exec OutboxEvent
unfolding ◌>>=◌ flush
mark_published time event = do
  flush
  write (λ db. record db { outbox_events = set_published event.id time db.outbox_events })
  pure (record event { published_at = some time })
