-- ===== src/Notifications.antt =====
-- `NotificationConsumer` (app/events/consumer.py). The handler is a parameter: whether it returns
-- for a payload, or raises. The broker is the list of the messages that `poll` gives, without the
-- empty polls and the error reports, which the loop skips.
pub mod Once
pub mod Restarts
use distributed_wallet_ledge.Base.{ℕ, suc, Bool, true, false, ◌==◌, List, [], ◌∷◌, if◌then◌else◌}
use distributed_wallet_ledge.Base.Rows.{exists, drop}
use distributed_wallet_ledge.Schema.{Payload}

pub record NotificationConsumer : Type 0 where
  -- `self.seen`
  pub seen : List ℕ
  -- the payloads whose handler has returned, the latest first
  pub notified : List Payload
  -- how many offsets are committed
  pub committed : ℕ

-- `__init__` without a `dedupe_store`
abbrev pub new_consumer : NotificationConsumer
new_consumer = record { seen = []; notified = []; committed = 0 }

pub data Handled : Type 0 where
  -- `return True`, `return False`, and the exception of the handler
  handled duplicate raised : Handled

abbrev pub is_seen : ℕ → NotificationConsumer → Bool
is_seen id c = exists (λ k. k == id) c.seen

-- `handle_event`
unfoldable pub handle_event :
    (Payload → Bool) → Payload → NotificationConsumer → Handled × NotificationConsumer
handle_event returns payload c =
    if is_seen payload.transaction_id c
    then (duplicate, c)
    else if returns payload
    then (
      handled,
      record c { seen = payload.transaction_id ∷ c.seen; notified = payload ∷ c.notified },
    )
    else (raised, c)

-- `consumer.commit(msg)`
abbrev pub commit_offset : NotificationConsumer → NotificationConsumer
commit_offset c = record c { committed = suc c.committed }

abbrev pub goes_on : Handled → Bool
goes_on raised = false
goes_on _ = true

-- The loop of `run_forever` on the messages of one run: an exception leaves the loop before the
-- offset is committed.
unfoldable pub consume :
    (Payload → Bool) → List Payload → NotificationConsumer → NotificationConsumer
unfolding handle_event
consume returns [] c = c
consume returns (payload ∷ payloads) c =
    let (outcome, c') = handle_event returns payload c in
    let rest = consume returns payloads (commit_offset c') in if goes_on outcome then rest else c'

-- The process of app/events/run_consumer.py: it begins with nothing seen, whatever was notified
-- before, and the broker gives it the topic from the offset that is committed.
abbrev pub run_consumer :
    List Payload → (Payload → Bool) → NotificationConsumer → NotificationConsumer
run_consumer topic returns c =
    consume returns (drop c.committed topic) (record c { seen = new_consumer.seen })
