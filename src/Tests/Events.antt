-- ===== src/Tests/Events.antt =====
-- The outbox, its publisher, the consumers and the statement pages on the sample database.
use distributed_wallet_ledge.Base.{◌≡◌, ◌≤◌, ◌⊎◌, refl, Bool, true, not, ◌==◌, List, [], ◌∷◌, ◌++◌}
use distributed_wallet_ledge.Base.Text.{length}
use distributed_wallet_ledge.Base.Rows.{All, count, filter}
use distributed_wallet_ledge.Schema.{OutboxEvent, Payload}
use distributed_wallet_ledge.Database.{Db}
use distributed_wallet_ledge.Session.{ok, with_session}
use distributed_wallet_ledge.Repositories.Outbox.{oldest_unpublished, is_unpublished}
use distributed_wallet_ledge.Repositories.Outbox.Oldest.{IsOldestFirst, oldest_unpublished_lem}
use distributed_wallet_ledge.Publisher.{Message, Report, delivered, no_report, publish_round}
use distributed_wallet_ledge.Publisher.Delivery.{with_marked, publish_round_silent}
use distributed_wallet_ledge.Analytics.{handle_event}
use distributed_wallet_ledge.Analytics.Rollup.{Handling, handle_event_outcome}
use distributed_wallet_ledge.Analytics.Exact.{IsRollup}
use distributed_wallet_ledge.Notifications.{
  new_consumer, handle_event as notify, consume, run_consumer,
}
use distributed_wallet_ledge.Notifications.Once.{IsOnce}
use distributed_wallet_ledge.Notifications.Restarts.{
  restarts, IsNotified, EachOnce, IsBehind, restarts_lem,
}
use distributed_wallet_ledge.Tests.Sample.{sample, same, first_payload}

abbrev all_arrive : Message → Report
all_arrive m = delivered

abbrev broker_down : Message → Report
broker_down m = no_report

abbrev batch : List OutboxEvent
batch = oldest_unpublished 100 sample

oldest_unpublished_example :
    (length batch ≤ 100)
    × (rest : List OutboxEvent) × ((length batch ≡ 100) ⊎ (rest ≡ []))
    × IsOldestFirst (batch ++ rest)
    × ((p : OutboxEvent → Bool)
        → count p (batch ++ rest) ≡ count p (filter is_unpublished sample.outbox_events))
oldest_unpublished_example = oldest_unpublished_lem 100 sample

publish_round_silent_example :
    with_session same 9 (publish_round broker_down 100 8) sample
    ≡ (ok (length batch), with_marked 8 batch sample)
publish_round_silent_example = publish_round_silent broker_down 100 8 9 sample (λ m. refl)

handle_event_outcome_example :
    let (r, after) = with_session same 9 (handle_event first_payload) sample in
    Handling first_payload sample sample r after
handle_event_outcome_example = handle_event_outcome first_payload 9 same sample

abbrev counted_once : Db
counted_once = (with_session same 9 (handle_event first_payload) sample).1

nothing_counted : IsRollup [] sample
nothing_counted = record {
  distinct = tt;
  inbox = λ id. refl;
  counts = λ currency type. refl;
  totals = λ currency type. refl;
}

abbrev every : Payload → Bool
every p = true

-- The first process notifies the first event and raises on the second; the next one returns.
abbrev second_payload : Payload
second_payload = record first_payload { transaction_id = 11 }

abbrev all_but_second : Payload → Bool
all_but_second p = not (p.transaction_id == 11)

abbrev topic_of_three : List Payload
topic_of_three = first_payload ∷ second_payload ∷ first_payload ∷ []

restarts_example :
    let c = restarts topic_of_three (all_but_second ∷ []) new_consumer in
    let end = run_consumer topic_of_three every c in
    EachOnce topic_of_three (all_but_second ∷ []) new_consumer
    × IsBehind topic_of_three c
    × IsOnce c.notified end
    × All (IsNotified end) topic_of_three
restarts_example =
    restarts_lem topic_of_three (all_but_second ∷ []) every (refl, (refl, (refl, tt)))

-- The first event is notified by both processes.
notified_again :
    (restarts topic_of_three (all_but_second ∷ every ∷ []) new_consumer).notified
    ≡ first_payload ∷ second_payload ∷ first_payload ∷ []
unfolding restarts consume notify
notified_again = refl
