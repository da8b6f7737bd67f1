-- ===== src/Pipeline/Delivered.antt =====
-- Every event of the outbox reaches the rollup.
use distributed_wallet_ledge.Base.{
  ℕ, suc, ◌≤◌, ◌≡◌, ◌≢◌, ◌⊎◌, sym, ap, subst, inl, inr, arith, Bool, true, false, Bool-cases, List,
  [], ◌∷◌, ◌++◌, map,
}
use mathlib.Core.List.{Memᴰ}
use mathlib.Core.List.Memᴰ.{head, tail}
use distributed_wallet_ledge.Base.Text.{length}
use distributed_wallet_ledge.Base.Rows.{All, count}
use distributed_wallet_ledge.Schema.{Payload, OutboxEvent}
use distributed_wallet_ledge.Database.{Db}
use distributed_wallet_ledge.Repositories.Outbox.{is_unpublished}
use distributed_wallet_ledge.Publisher.{Message, message, Report, delivered, no_report, is_failed}
use distributed_wallet_ledge.Publisher.Drain.{waiting, waiting-round}
use distributed_wallet_ledge.Analytics.Rollup.{was_handled}
use distributed_wallet_ledge.Analytics.Loop.{Consumer, consume_analytics, on_message, IsLost}
use distributed_wallet_ledge.Analytics.Loop.Counted.{Accounted, consume_analytics-Accounted}
use distributed_wallet_ledge.Pipeline.{Pipe, send_round, send_rounds, read_topic}
use distributed_wallet_ledge.Pipeline.Backed.{IsBacked, All-Mem, All-from_Mem}
use distributed_wallet_ledge.Pipeline.Rounds.{IsFed, send_rounds-IsFed}

-- A round in which the broker takes every message.
abbrev pub IsUp : (Message → Report) → Type 0
IsUp deliver = (m : Message) → deliver m ≡ delivered

up-fine :
    (deliver : Message → Report) → IsUp deliver → (m : Message) → is_failed (deliver m) ≡ false
up-fine deliver up m = rw (up m)

up-reported : (deliver : Message → Report) → IsUp deliver → (m : Message) → deliver m ≢ no_report
up-reported deliver up m h = cc (up m, h)

All-reported :
    (reports : List (Message → Report))
    → All IsUp reports
    → All (λ deliver. (m : Message) → deliver m ≢ no_report) reports
All-reported [] up = tt
All-reported (deliver ∷ reports) up = (up-reported deliver up.0, All-reported reports up.1)

module _ (limit time now : ℕ) where
  waiting-send_rounds :
      (reports : List (Message → Report)) (p : Pipe)
      → All IsUp reports
      → waiting p.db ≤ length reports
      → waiting (send_rounds (suc limit) time now reports p).db ≡ 0
  unfolding send_rounds send_round
  waiting-send_rounds [] p up h = omega (h, arith)
  waiting-send_rounds (deliver ∷ reports) p up h =
      waiting-send_rounds reports (send_round (suc limit) time now deliver p) up.1
        (waiting-round deliver (up-fine deliver up.0) limit time now p.db (length reports) h)

none_of_count :
    (p : OutboxEvent → Bool) (events : List OutboxEvent)
    → count p events ≡ 0
    → (e : OutboxEvent) → Memᴰ e events
    → p e ≡ false
none_of_count p [] h e m = elim m [ ]
none_of_count p (f ∷ events) h e m = elim (Bool-cases (p f)) [
  | inl k ↦ elim (positive (rw k at h)) [ ]
  | inr k ↦ found m k (λ n. none_of_count p events (rw k at h) e n)
]
  where
    positive : {n : ℕ} → suc n ≡ 0 → ⊥
    positive h = omega (h, arith)

    found : Memᴰ e (f ∷ events) → p f ≡ false → (Memᴰ e events → p e ≡ false) → p e ≡ false
    found (head same) k rest = subst (λ x. p x ≡ false) (sym same) k
    found (tail n) k rest = rest n

Mem-map : {A B : Type 0} (f : A → B) (x : A) (xs : List A) → Memᴰ x xs → Memᴰ (f x) (map f xs)
Mem-map f x [] h = elim h [ ]
Mem-map f x (y ∷ xs) (head e) = head (ap f e)
Mem-map f x (y ∷ xs) (tail h) = tail (Mem-map f x xs h)

-- One of the deliveries of the event was lost.
abbrev pub IsDropped : ℕ → List Payload → Consumer → Payload → Type 0
IsDropped now ps c p =
    (before : List Payload) × (after : List Payload) × (ps ≡ before ++ (p ∷ after))
    × IsLost now p (consume_analytics now before c)

accounted :
    (now : ℕ) (end : Db) (ps : List Payload) (c : Consumer) (p : Payload)
    → Accounted now end ps c
    → Memᴰ p ps
    → (was_handled p end ≡ true) ⊎ IsDropped now ps c p
unfolding consume_analytics
accounted now end [] c p h m = elim m [ ]
accounted now end (q ∷ ps) c p h (head e) = elim h.0 [
  | inl seen ↦ inl (subst (λ x. was_handled x end ≡ true) (sym e) seen)
  | inr bad ↦ inr ([], ps, ap (λ x. x ∷ ps) (sym e), subst (λ x. IsLost now x c) (sym e) bad)
]
accounted now end (q ∷ ps) c p h (tail m) =
    elim (accounted now end ps (on_message now q c) p h.1 m) [
      | inl seen ↦ inl seen
      | inr (before, after, split, bad) ↦ inr (q ∷ before, after, ap (λ xs. q ∷ xs) split, bad)
    ]

-- From an outbox whose rows have ids of their own, and whose marked rows each have their message on
-- the topic: if in every round the broker takes every message, the batch size is not zero, and
-- there are as many rounds as rows that wait, with no other publisher and no new event, then no row
-- waits any more; and when the analytics consumer has read the topic, every event of the outbox is
-- in the inbox, or at one of its deliveries it was not in the inbox and its row did not fit its
-- columns.
pub read_topic-send_rounds :
    (limit time now later : ℕ) (reports : List (Message → Report)) (p : Pipe)
    → IsFed p
    → All IsUp reports
    → waiting p.db ≤ length reports
    → let sent = send_rounds (suc limit) time now reports p in
      let start : Consumer = record { db = sent.db; committed = 0 } in
      (waiting sent.db ≡ 0)
      × All
          (λ e.
            (was_handled e.payload (read_topic later sent).db ≡ true)
            ⊎ IsDropped later (map (λ m. m.value) sent.topic) start e.payload)
          sent.db.outbox_events
unfolding read_topic
read_topic-send_rounds limit time now later reports p fed up enough =
    let sent = send_rounds (suc limit) time now reports p in
    let start : Consumer = record { db = sent.db; committed = 0 } in
    let none_left = waiting-send_rounds limit time now reports p up enough in
    let all_fed = send_rounds-IsFed (suc limit) time now reports p (All-reported reports up) fed in
    (
      none_left,
      All-from_Mem _ sent.db.outbox_events (λ e m.
          accounted later (read_topic later sent).db (map (λ m. m.value) sent.topic) start e.payload
            (consume_analytics-Accounted later (map (λ m. m.value) sent.topic) start).1
            (Mem-map (λ m. m.value) (message e) sent.topic
              (All-Mem (IsBacked sent.topic) sent.db.outbox_events all_fed.backed e m
                (none_of_count is_unpublished sent.db.outbox_events none_left e m)))),
    )
