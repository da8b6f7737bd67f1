-- ===== src/Publisher/Delivery.antt =====
-- One round of the outbox publisher: what is marked, and what marked rows owe to the broker.
use distributed_wallet_ledge.Base.{
  ℕ, ◌≡◌, ◌≢◌, refl, sym, ap, ◌∙◌, ◌⊎◌, inl, inr, Bool, false, Bool-cases, ◌==◌, ◌||◌, some, List,
  [], ◌∷◌, map, if◌then◌else◌,
}
use distributed_wallet_ledge.Base.Text.{length}
use distributed_wallet_ledge.Base.Rows.{All, exists}
use distributed_wallet_ledge.Schema.{OutboxEvent}
use distributed_wallet_ledge.Database.{Db}
use distributed_wallet_ledge.Session.{Result, ok, attempt, commit, rollback, with_session, ◌>>=◌}
use distributed_wallet_ledge.Session.Rules.{clean}
use distributed_wallet_ledge.Repositories.Wallets.Locks.{same}
use distributed_wallet_ledge.Repositories.Outbox.{
  oldest_unpublished, set_published, fetch_unpublished,
}
use distributed_wallet_ledge.Publisher.{
  Message, message, Report, delivered, failed, no_report, is_failed, delivery_errors, mark_all,
  publish, publish_batch, publish_round, after_batch,
}

abbrev pub in_batch : ℕ → List OutboxEvent → Bool
in_batch id batch = exists (λ e. id == e.id) batch

-- The outbox with the rows of the batch marked, and no others.
abbrev pub marked : ℕ → List OutboxEvent → List OutboxEvent → List OutboxEvent
marked time batch events =
    map (λ e. if in_batch e.id batch then record e { published_at = some time } else e) events

abbrev pub with_marked : ℕ → List OutboxEvent → Db → Db
with_marked time batch db = record db { outbox_events = marked time batch db.outbox_events }

pub marked-nothing : (time : ℕ) (events : List OutboxEvent) → marked time [] events ≡ events
marked-nothing time [] = refl
marked-nothing time (e ∷ events) = ap (λ es. e ∷ es) (marked-nothing time events)

marked-set_published :
    (time : ℕ) (b : OutboxEvent) (batch events : List OutboxEvent)
    → marked time batch (set_published b.id time events) ≡ marked time (b ∷ batch) events
marked-set_published time b batch [] = refl
marked-set_published time b batch (e ∷ events) =
    ap (λ es. mark (set_one e) ∷ es) (marked-set_published time b batch events)
    ∙ ap (λ x. x ∷ marked time (b ∷ batch) events)
        (elim (Bool-cases (e.id == b.id)) [
          | inl h ↦ rw h (elim (Bool-cases (in_batch e.id batch)) [ inl k ↦ rw k | inr k ↦ rw k ])
          | inr h ↦ rw h
        ])
  where
    mark : OutboxEvent → OutboxEvent
    mark x = if in_batch x.id batch then record x { published_at = some time } else x

    set_one : OutboxEvent → OutboxEvent
    set_one x = if x.id == b.id then record x { published_at = some time } else x

mark_all_lem :
    (time : ℕ) (batch : List OutboxEvent) (c db : Db) (n : ℕ)
    → mark_all time batch (clean c db same n) ≡ (ok tt, clean c (with_marked time batch db) same n)
unfolding mark_all
mark_all_lem time [] c db n =
    ap (λ es. (ok tt, clean c (record db { outbox_events = es }) same n))
      (sym (marked-nothing time db.outbox_events))
mark_all_lem time (b ∷ batch) c db n =
    mark_all_lem time batch c
      (record db { outbox_events = set_published b.id time db.outbox_events }) n
    ∙ ap (λ es. (ok tt, clean c (record db { outbox_events = es }) same n))
        (marked-set_published time b batch db.outbox_events)

abbrev Round : (Message → Report) → ℕ → List OutboxEvent → Db → Result ℕ × Db
Round deliver time batch db =
    if delivery_errors deliver batch
    then (ok 0, db)
    else (ok (length batch), with_marked time batch db)

round_of :
    (deliver : Message → Report) (time : ℕ) (batch : List OutboxEvent) (db : Db) (n : ℕ)
    → let (r, s) = (attempt (publish deliver time batch) >>= after_batch) (clean db db same n) in
      (r, s.committed) ≡ Round deliver time batch db
unfolding publish after_batch attempt ◌>>=◌ commit rollback
round_of deliver time [] db n =
    ap (λ es. (ok 0, record db { outbox_events = es })) (sym (marked-nothing time db.outbox_events))
round_of deliver time (b ∷ batch) db n = elim (Bool-cases (delivery_errors deliver (b ∷ batch))) [
  | inl h ↦ rw h
  | inr h ↦ rw (h, mark_all_lem time (b ∷ batch) db db n)
]

-- One round of the publisher, with no other publisher at work: if a failure was reported for a
-- message of the batch, nothing is marked and the result is zero; otherwise the rows of the batch,
-- the oldest unpublished ones up to the batch size, and no others are marked with the time, and the
-- result is their number.
pub publish_round_lem :
    (deliver : Message → Report) (batch_size time now : ℕ) (db : Db)
    → let batch = oldest_unpublished batch_size db in
      with_session same now (publish_round deliver batch_size time) db ≡ (
        if delivery_errors deliver batch
        then (ok 0, db)
        else (ok (length batch), with_marked time batch db))
unfolding publish_round publish_batch fetch_unpublished with_session attempt ◌>>=◌
publish_round_lem deliver batch_size time now db =
    unfold after_batch in round_of deliver time (oldest_unpublished batch_size db) db now

abbrev pub IsDelivered : (Message → Report) → OutboxEvent → Type 0
IsDelivered deliver e = deliver (message e) ≡ delivered

report_split :
    (r : Report) (b : Bool)
    → r ≢ no_report
    → is_failed r || b ≡ false
    → (r ≡ delivered) × (b ≡ false)
report_split delivered b reported h = (refl, h)
report_split failed b reported h = cc h
report_split no_report b reported h = elim (reported refl) [ ]

All-IsDelivered :
    (deliver : Message → Report) (batch : List OutboxEvent)
    → ((m : Message) → deliver m ≢ no_report)
    → delivery_errors deliver batch ≡ false
    → All (IsDelivered deliver) batch
All-IsDelivered deliver [] reported h = tt
All-IsDelivered deliver (e ∷ batch) reported h =
    let (first, rest) = report_split (deliver (message e)) _ (reported (message e)) h in
    (first, All-IsDelivered deliver batch reported rest)

-- If the broker reports on every message before the timeout, a round either marks nothing, with the
-- result zero, or marks exactly the rows of the batch, and the broker has every one of them:
-- delivery at least once.
pub publish_round-IsDelivered :
    (deliver : Message → Report) (batch_size time now : ℕ) (db : Db)
    → ((m : Message) → deliver m ≢ no_report)
    → let batch = oldest_unpublished batch_size db in
      let (r, after) = with_session same now (publish_round deliver batch_size time) db in
      ((r ≡ ok 0) × (after ≡ db))
      ⊎ ((after ≡ with_marked time batch db) × All (IsDelivered deliver) batch)
publish_round-IsDelivered deliver batch_size time now db reported =
    let batch = oldest_unpublished batch_size db in
    let round = publish_round_lem deliver batch_size time now db in
    elim (Bool-cases (delivery_errors deliver batch)) [
      | inl h ↦ rw (round, h) (inl (refl, refl))
      | inr h ↦ rw (round, h) (inr (refl, All-IsDelivered deliver batch reported h))
    ]

none_failed :
    (deliver : Message → Report) (batch : List OutboxEvent)
    → ((m : Message) → deliver m ≡ no_report)
    → delivery_errors deliver batch ≡ false
none_failed deliver [] silent = refl
none_failed deliver (e ∷ batch) silent = rw (silent (message e)) (none_failed deliver batch silent)

-- If the timeout of the flush ends with no report on any message, as when the broker cannot be
-- reached, the round marks the whole batch as published and counts it.
pub publish_round_silent :
    (deliver : Message → Report) (batch_size time now : ℕ) (db : Db)
    → ((m : Message) → deliver m ≡ no_report)
    → let batch = oldest_unpublished batch_size db in
      with_session same now (publish_round deliver batch_size time) db
      ≡ (ok (length batch), with_marked time batch db)
publish_round_silent deliver batch_size time now db silent = rw (
  publish_round_lem deliver batch_size time now db,
  none_failed deliver (oldest_unpublished batch_size db) silent,
)
