-- ===== src/Publisher/Drain.antt =====
-- Rounds of `run_forever` (app/events/publisher.py), one after the other, empty the outbox.
use distributed_wallet_ledge.Base.{
  ℕ, zero, suc, ◌+◌, ◌≤◌, ◌≡◌, Option-cases, refl, sym, ap, ◌∙◌, subst, inl, inr, arith, true,
  false, Bool-cases, ◌==◌, ==_refl, ◌||◌, List, [], ◌∷◌,
}
use distributed_wallet_ledge.Base.Rows.{count, filter, take}
use distributed_wallet_ledge.Schema.{OutboxEvent}
use distributed_wallet_ledge.Database.{Db}
use distributed_wallet_ledge.Session.{Result, with_session}
use distributed_wallet_ledge.Repositories.Wallets.Locks.{same}
use distributed_wallet_ledge.Repositories.Outbox.{is_unpublished, order_by_time, oldest_unpublished}
use distributed_wallet_ledge.Repositories.Outbox.Oldest.{count-order}
use distributed_wallet_ledge.Publisher.{
  Message, message, Report, is_failed, delivery_errors, publish_round,
}
use distributed_wallet_ledge.Publisher.Delivery.{
  in_batch, marked, with_marked, marked-nothing, publish_round_lem,
}

-- The rows that wait.
abbrev pub waiting : Db → ℕ
waiting db = count is_unpublished db.outbox_events

-- Unpublished rows of one id.
abbrev waiting_id : ℕ → List OutboxEvent → ℕ
waiting_id id events = count (λ e. e.id == id) (filter is_unpublished events)

-- So many rounds of the loop, with no other publisher at work.
unfoldable pub publish_rounds : ℕ → (Message → Report) → ℕ → ℕ → ℕ → Db → Db
publish_rounds zero deliver batch_size time now db = db
publish_rounds (suc n) deliver batch_size time now db =
    publish_rounds n deliver batch_size time now
      (with_session same now (publish_round deliver batch_size time) db).1

-- Marking takes the rows of an id of the batch off those that wait.
marked_waiting :
    (time : ℕ) (b : OutboxEvent) (batch events : List OutboxEvent)
    → count is_unpublished (marked time (b ∷ batch) events) + waiting_id b.id events
      ≤ count is_unpublished events
marked_waiting time b batch [] = ground arith
marked_waiting time b batch (e ∷ events) = elim (Option-cases e.published_at) [
  | inr (t, p) ↦ elim (Bool-cases (e.id == b.id || in_batch e.id batch)) [
    | inl h ↦ rw (p, h) (marked_waiting time b batch events)
    | inr h ↦ rw (p, h) (marked_waiting time b batch events)
  ]
  | inl p ↦ elim (Bool-cases (e.id == b.id)) [
    | inl h ↦ rw (p, h) (omega (marked_waiting time b batch events, arith))
    | inr h ↦ elim (Bool-cases (in_batch e.id batch)) [
      | inl k ↦ rw (p, h, k) (omega (marked_waiting time b batch events, arith))
      | inr k ↦ rw (p, h, k) (omega (marked_waiting time b batch events, arith))
    ]
  ]
]

no_errors :
    (deliver : Message → Report) (batch : List OutboxEvent)
    → ((m : Message) → is_failed (deliver m) ≡ false)
    → delivery_errors deliver batch ≡ false
no_errors deliver [] fine = refl
no_errors deliver (e ∷ batch) fine = rw (fine (message e), no_errors deliver batch fine)

waits_for_id :
    (events : List OutboxEvent) (b : OutboxEvent) (rest : List OutboxEvent)
    → order_by_time (filter is_unpublished events) ≡ b ∷ rest
    → 1 ≤ waiting_id b.id events
waits_for_id events b rest e =
    subst (λ n. 1 ≤ n)
      (ap (count (λ f. f.id == b.id)) (sym e)
        ∙ count-order (λ f. f.id == b.id) (filter is_unpublished events))
      (first (==_refl b.id))
  where
    first : b.id == b.id ≡ true → 1 ≤ count (λ f. f.id == b.id) (b ∷ rest)
    first h = rw h (ground arith)

none_waits :
    (events : List OutboxEvent)
    → order_by_time (filter is_unpublished events) ≡ []
    → count is_unpublished events ≡ 0
none_waits events e =
    sym (all_pass events)
    ∙ sym (count-order is_unpublished (filter is_unpublished events))
    ∙ ap (count is_unpublished) e
  where
    all_pass :
        (events : List OutboxEvent)
        → count is_unpublished (filter is_unpublished events) ≡ count is_unpublished events
    all_pass [] = refl
    all_pass (f ∷ events) = elim (Bool-cases (is_unpublished f)) [
      | inl h ↦ rw (h, h, all_pass events)
      | inr h ↦ rw (h, all_pass events)
    ]

module _ (deliver : Message → Report) (fine : (m : Message) → is_failed (deliver m) ≡ false)
    (limit time now : ℕ) where
  abbrev round : Db → Db
  round db = (with_session same now (publish_round deliver (suc limit) time) db).1

  round_marks : (db : Db) → round db ≡ with_marked time (oldest_unpublished (suc limit) db) db
  round_marks db =
      ap (λ (o : Result ℕ × Db). o.1) (publish_round_lem deliver (suc limit) time now db)
      ∙ rw (no_errors deliver (oldest_unpublished (suc limit) db) fine)

  -- A round leaves fewer rows waiting, if any waits.
  pub waiting-round : (db : Db) (n : ℕ) → waiting db ≤ suc n → waiting (round db) ≤ n
  waiting-round db n h = subst (λ d. waiting d ≤ n) (sym (round_marks db)) (from _ refl)
    where
      none_left : {k : ℕ} → k ≡ 0 → k ≤ n
      none_left h = omega (h, arith)

      fewer : (k m w : ℕ) → w ≤ suc n → 1 ≤ m → k + m ≤ w → k ≤ n
      fewer k m w h i j = omega (h, i, j, arith)

      from :
          (rows : List OutboxEvent)
          → order_by_time (filter is_unpublished db.outbox_events) ≡ rows
          → count is_unpublished (
              marked time
                (take (suc limit) (order_by_time (filter is_unpublished db.outbox_events)))
                db.outbox_events)
            ≤ n
      from [] e = rw e (
          subst (λ es. count is_unpublished es ≤ n) (sym (marked-nothing time db.outbox_events))
            (none_left (none_waits db.outbox_events e)))
      from (b ∷ rest) e = rw e (
          fewer _ _ _ h (waits_for_id db.outbox_events b rest e)
            (marked_waiting time b (take limit rest) db.outbox_events))

  -- If the broker reports no failure and the batch size is not zero, then after as many rounds as
  -- rows wait, with no other publisher and no new event, none waits any more.
  pub publish_rounds_drain :
      (n : ℕ) (db : Db)
      → waiting db ≤ n
      → waiting (publish_rounds n deliver (suc limit) time now db) ≡ 0
  unfolding publish_rounds
  publish_rounds_drain zero db h = omega (h, arith)
  publish_rounds_drain (suc n) db h = publish_rounds_drain n (round db) (waiting-round db n h)
