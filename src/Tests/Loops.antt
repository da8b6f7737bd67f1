-- ===== src/Tests/Loops.antt =====
-- The loops of the publisher and of the analytics consumer, and sessions that lock the same wallets.
use distributed_wallet_ledge.Base.{some, ◌+◌, ◌≡◌, ◌⊎◌, refl, arith, List, [], ◌∷◌, ◌++◌, true, map}
use mathlib.Core.List.{Memᴰ}
use distributed_wallet_ledge.Base.Rows.{All}
use distributed_wallet_ledge.Schema.{Payload}
use distributed_wallet_ledge.Repositories.Wallets.{sorted_set, insert_id}
use distributed_wallet_ledge.Repositories.Wallets.Deadlock.{
  Lockers, begin, Step, locks, Run, nobody, begins,
}
use distributed_wallet_ledge.Repositories.Wallets.Deadlock.Progress.{stop, go, work, Steps-end}
use distributed_wallet_ledge.Publisher.{Message, Report, delivered, failed}
use distributed_wallet_ledge.Publisher.Drain.{publish_rounds, waiting, publish_rounds_drain}
use distributed_wallet_ledge.Analytics.Exact.{IsRollup}
use distributed_wallet_ledge.Analytics.Loop.{Consumer, consume_analytics}
use distributed_wallet_ledge.Analytics.Loop.Counted.{
  Accounted, consume_analytics-Accounted, consume_analytics-IsRollup,
}
use distributed_wallet_ledge.Analytics.Rollup.{was_handled}
use distributed_wallet_ledge.Pipeline.{Pipe, send_rounds, read_topic}
use distributed_wallet_ledge.Pipeline.Rounds.{IsFed, send_rounds-IsFed}
use distributed_wallet_ledge.Pipeline.Delivered.{IsDropped, read_topic-send_rounds}
use distributed_wallet_ledge.Base.Int.{pos}
use distributed_wallet_ledge.Base.Text.{text_eq}
use distributed_wallet_ledge.Schema.{TransactionStat}
use distributed_wallet_ledge.Database.{Db}
use distributed_wallet_ledge.Repositories.Stats.{counted}
use distributed_wallet_ledge.Analytics.Overlap.{select_stat, write_stat, overlap_loses}
use distributed_wallet_ledge.Tests.Sample.{sample, first_payload}

abbrev always_arrive : Message → Report
always_arrive m = delivered

publish_rounds_drain_example : waiting (publish_rounds 1 always_arrive 100 8 9 sample) ≡ 0
publish_rounds_drain_example =
    publish_rounds_drain always_arrive (λ m. refl) 99 8 9 1 sample (omega arith)

-- The event of the deposit comes twice.
abbrev twice : List Payload
twice = first_payload ∷ first_payload ∷ []

abbrev worker : Consumer
worker = record { db = sample; committed = 0 }

consume_analytics-Accounted_example :
    ((consume_analytics 9 twice worker).committed ≡ 2 + 0)
    × Accounted 9 (consume_analytics 9 twice worker).db twice worker
consume_analytics-Accounted_example = consume_analytics-Accounted 9 twice worker

no_events : IsRollup [] sample
no_events = record {
  distinct = tt;
  inbox = λ id. refl;
  counts = λ currency type. refl;
  totals = λ currency type. refl;
}

consume_analytics-IsRollup_example :
    (counted : List Payload) × IsRollup (counted ++ []) (consume_analytics 9 twice worker).db
    × All (λ q. Memᴰ q twice) counted
consume_analytics-IsRollup_example = consume_analytics-IsRollup 9 twice [] worker no_events

-- Two transfers between the same wallets, in opposite directions, and the first lock of one of them.
abbrev both : Lockers
both = begin (1 ∷ 2 ∷ []) ∷ begin (2 ∷ 1 ∷ []) ∷ []

both-Run : Run both
both-Run = begins _ _ (begins _ _ nobody)

abbrev one_locked : Lockers
one_locked = record { held = 1 ∷ []; wanted = 2 ∷ [] } ∷ begin (2 ∷ 1 ∷ []) ∷ []

first_lock : Step both one_locked
unfolding sorted_set insert_id
first_lock = locks [] (begin (2 ∷ 1 ∷ []) ∷ []) [] 1 (2 ∷ []) refl

Steps-end_example :
    (1 + work one_locked ≡ work both) × ((one_locked ≡ []) ⊎ ((ns : Lockers) × Step one_locked ns))
Steps-end_example =
    Steps-end 1 both one_locked both-Run
      (go 0 both one_locked one_locked first_lock (stop one_locked))

-- The outbox of the sample, and an empty topic.
abbrev piped : Pipe
piped = record { db = sample; topic = [] }

piped-IsFed : IsFed piped
piped-IsFed = record { keyed = (refl, tt); backed = (λ e. cc e, tt) }

-- A round that fails, and one that goes through.
abbrev all_fail : Message → Report
all_fail m = failed

send_rounds-IsFed_example : IsFed (send_rounds 100 8 9 (all_fail ∷ always_arrive ∷ []) piped)
send_rounds-IsFed_example =
    send_rounds-IsFed 100 8 9 (all_fail ∷ always_arrive ∷ []) piped
      ((λ m e. cc e), ((λ m e. cc e), tt)) piped-IsFed

abbrev piped_on : Pipe
piped_on = send_rounds 100 8 9 (always_arrive ∷ []) piped

abbrev reader : Consumer
reader = record { db = piped_on.db; committed = 0 }

read_topic-send_rounds_example :
    (waiting piped_on.db ≡ 0)
    × All
        (λ e.
          (was_handled e.payload (read_topic 10 piped_on).db ≡ true)
          ⊎ IsDropped 10 (map (λ m. m.value) piped_on.topic) reader e.payload)
        piped_on.db.outbox_events
read_topic-send_rounds_example =
    read_topic-send_rounds 99 8 9 10 (always_arrive ∷ []) piped piped-IsFed ((λ m. refl), tt)
      (omega arith)

-- A second deposit in the currency, and a row of the rollup.
abbrev second_payload : Payload
second_payload = record first_payload { transaction_id = 20; amount = pos 7 }

abbrev stat : TransactionStat
stat = record {
  currency = first_payload.currency;
  type = first_payload.type;
  count = pos 3;
  total_amount = pos 90;
}

abbrev rolled_up : Db
rolled_up = record sample { transaction_stats = stat ∷ [] }

overlap_loses_example :
    let first = write_stat first_payload (select_stat first_payload rolled_up) rolled_up in
    (select_stat second_payload (write_stat second_payload (select_stat second_payload first) first)
      ≡ some (counted (pos 7) (counted (pos 100) stat)))
    × (select_stat second_payload
          (write_stat second_payload (select_stat second_payload rolled_up) first)
        ≡ some (counted (pos 7) stat))
unfolding select_stat text_eq
overlap_loses_example = overlap_loses first_payload second_payload stat rolled_up refl refl refl
