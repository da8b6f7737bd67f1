-- ===== src/Publisher.antt =====
-- `OutboxPublisher` and its loop (app/events/publisher.py). The Kafka producer is a parameter: what
-- has become of each message when `producer.flush` returns. A message that is still queued when the
-- timeout ends has had no report yet.
pub mod Delivery
pub mod Drain
use distributed_wallet_ledge.Base.{ℕ, ⊤, Bool, true, false, ◌||◌, List, [], ◌∷◌, map}
use distributed_wallet_ledge.Base.Text.{Text, length}
use distributed_wallet_ledge.Base.Rows.{exists}
use distributed_wallet_ledge.Schema.{Payload, OutboxEvent}
use distributed_wallet_ledge.Session.{
  Exec, Result, ok, err, Error, delivery_failed, pure, raise_if, attempt, commit, rollback, ◌>>=◌,
  ◌>>◌,
}
use distributed_wallet_ledge.Repositories.Outbox.{fetch_unpublished, mark_published}

-- What is handed to `producer.produce`: the key, the payload before its JSON encoding, the header.
pub record Message : Type 0 where
  pub key : ℕ
  pub value : Payload
  pub event_type : Text

abbrev pub message : OutboxEvent → Message
message event = record {
  key = event.aggregate_id;
  value = event.payload;
  event_type = event.event_type;
}

pub data Report : Type 0 where
  delivered failed no_report : Report

-- `_on_delivery`: only a failure is noted.
abbrev pub is_failed : Report → Bool
is_failed failed = true
is_failed _ = false

abbrev pub delivery_errors : (Message → Report) → List OutboxEvent → Bool
delivery_errors deliver events = exists (λ event. is_failed (deliver (message event))) events

-- The loop that marks the batch.
unfoldable pub mark_all : ℕ → List OutboxEvent → Exec ⊤
unfolding mark_published ◌>>=◌
mark_all time [] = pure tt
mark_all time (event ∷ events) = do mark_published time event; mark_all time events

unfoldable pub publish : (Message → Report) → ℕ → List OutboxEvent → Exec ℕ
unfolding mark_all ◌>>=◌
publish deliver time [] = pure 0
publish deliver time (event ∷ events) = do
  raise_if (delivery_errors deliver (event ∷ events)) delivery_failed
  mark_all time (event ∷ events)
  pure (length (event ∷ events))

-- `publish_batch`; `time` is `datetime.now`.
unfoldable pub publish_batch : (Message → Report) → ℕ → ℕ → Exec ℕ
unfolding fetch_unpublished publish ◌>>=◌
publish_batch deliver batch_size time = do
  events ← fetch_unpublished batch_size
  publish deliver time events

-- The handler of the loop: `published` keeps the value of the batch if the commit is what raised.
abbrev after_failure : ℕ → Exec ℕ
after_failure published = do rollback; pure published

abbrev after_commit : ℕ → Result ⊤ → Exec ℕ
after_commit published (ok _) = pure published
after_commit published (err e) = after_failure published

unfoldable pub after_batch : Result ℕ → Exec ℕ
unfolding attempt commit rollback ◌>>=◌
after_batch (ok published) = do outcome ← attempt commit; after_commit published outcome
after_batch (err e) = after_failure 0

-- One round of `run_forever`: its result is `published`, which is zero when the loop sleeps next.
unfoldable pub publish_round : (Message → Report) → ℕ → ℕ → Exec ℕ
unfolding publish_batch after_batch attempt ◌>>=◌
publish_round deliver batch_size time = do
  outcome ← attempt (publish_batch deliver batch_size time)
  after_batch outcome
