-- ===== src/Pipeline/Rounds.antt =====
-- Rounds of the publisher mark only what the broker has.
use distributed_wallet_ledge.Base.{
  ℕ, ◌≡◌, ◌≢◌, refl, sym, ◌∙◌, subst, inl, inr, true, false, Bool-cases, ◌==◌, some, List, [], ◌∷◌,
  ◌++◌,
}
use mathlib.Core.List.{Memᴰ}
use distributed_wallet_ledge.Base.Rows.{All, exists}
use distributed_wallet_ledge.Schema.{OutboxEvent}
use distributed_wallet_ledge.Database.{Db}
use distributed_wallet_ledge.Session.{with_session}
use distributed_wallet_ledge.Repositories.Wallets.Locks.{same}
use distributed_wallet_ledge.Repositories.Outbox.{oldest_unpublished}
use distributed_wallet_ledge.Publisher.{Message, message, Report, no_report, publish_round}
use distributed_wallet_ledge.Publisher.Delivery.{
  in_batch, marked, IsDelivered, publish_round-IsDelivered,
}
use distributed_wallet_ledge.Pipeline.{Pipe, arrived, send_round, send_rounds}
use distributed_wallet_ledge.Pipeline.Backed.{
  IsKeyed, IsBacked, Mem-left, Mem-right, All-Mem, All-from_Mem, Mem-batch, one_row, in_batch_row,
  arrived-Mem,
}

exists-marked :
    (id time : ℕ) (batch events : List OutboxEvent)
    → exists (λ f. f.id == id) (marked time batch events) ≡ exists (λ f. f.id == id) events
exists-marked id time batch [] = refl
exists-marked id time batch (e ∷ events) = elim (Bool-cases (in_batch e.id batch)) [
  | inl h ↦ rw (h, exists-marked id time batch events)
  | inr h ↦ rw (h, exists-marked id time batch events)
]

marked-IsKeyed :
    (time : ℕ) (batch events : List OutboxEvent)
    → IsKeyed events
    → IsKeyed (marked time batch events)
marked-IsKeyed time batch [] h = tt
marked-IsKeyed time batch (e ∷ events) h = elim (Bool-cases (in_batch e.id batch)) [
  | inl k ↦ rw k (exists-marked e.id time batch events ∙ h.0, marked-IsKeyed time batch events h.1)
  | inr k ↦ rw k (exists-marked e.id time batch events ∙ h.0, marked-IsKeyed time batch events h.1)
]

-- The rows that a batch marks, one by one.
All-marked :
    (P : OutboxEvent → Type 0) (time : ℕ) (batch events : List OutboxEvent)
    → All
        (λ e.
          (in_batch e.id batch ≡ true → P (record e { published_at = some time }))
          × (in_batch e.id batch ≡ false → P e))
        events
    → All P (marked time batch events)
All-marked P time batch [] h = tt
All-marked P time batch (e ∷ events) h = elim (Bool-cases (in_batch e.id batch)) [
  | inl k ↦ rw k (h.0.0 k, All-marked P time batch events h.1)
  | inr k ↦ rw k (h.0.1 k, All-marked P time batch events h.1)
]

-- Each row has its own id, and what is marked is on the topic.
pub record IsFed (p : Pipe) : Type 0 where
  pub keyed : IsKeyed p.db.outbox_events
  pub backed : All (IsBacked p.topic) p.db.outbox_events

module _ (batch_size time now : ℕ) (deliver : Message → Report) (p : Pipe) (fed : IsFed p) where
  abbrev batch : List OutboxEvent
  batch = oldest_unpublished batch_size p.db

  abbrev longer : List Message
  longer = p.topic ++ arrived deliver batch

  still : (e : OutboxEvent) → IsBacked p.topic e → IsBacked longer e
  still e h k = Mem-left (message e) p.topic (arrived deliver batch) (h k)

  All-still : All (IsBacked longer) p.db.outbox_events
  All-still =
      All-from_Mem (IsBacked longer) p.db.outbox_events
        (λ e m. still e (All-Mem (IsBacked p.topic) p.db.outbox_events fed.backed e m))

  new_on_topic :
      All (IsDelivered deliver) batch
      → (e : OutboxEvent) → Memᴰ e p.db.outbox_events
      → in_batch e.id batch ≡ true
      → Memᴰ (message e) longer
  new_on_topic all e m h =
      let (b, in_it, same_id) = in_batch_row e.id batch h in
      let same_row =
        one_row b e p.db.outbox_events fed.keyed (Mem-batch b batch_size p.db in_it) m
          (sym same_id) in
      Mem-right (message e) p.topic (arrived deliver batch) (
        subst (λ x. Memᴰ (message x) (arrived deliver batch)) same_row
          (arrived-Mem deliver batch b all in_it))

  marked-IsBacked :
      All (IsDelivered deliver) batch → All (IsBacked longer) (marked time batch p.db.outbox_events)
  marked-IsBacked all = All-marked (IsBacked longer) time batch p.db.outbox_events (
      All-from_Mem _ p.db.outbox_events (λ e m. (
        λ h _. new_on_topic all e m h,
        λ _. still e (All-Mem (IsBacked p.topic) p.db.outbox_events fed.backed e m),
      )))

  send_round-IsFed :
      ((m : Message) → deliver m ≢ no_report) → IsFed (send_round batch_size time now deliver p)
  unfolding send_round
  send_round-IsFed reported =
      elim (publish_round-IsDelivered deliver batch_size time now p.db reported) [
        | inl (_, same_db) ↦ from _ (sym same_db) (record { keyed = fed.keyed; backed = All-still })
        | inr (marks, all) ↦ from _ (sym marks) (record {
          keyed = marked-IsKeyed time batch p.db.outbox_events fed.keyed;
          backed = marked-IsBacked all;
        })
      ]
    where
      from :
          (d : Db)
          → d ≡ (with_session same now (publish_round deliver batch_size time) p.db).1
          → IsFed (record { db = d; topic = longer })
          → IsFed (record {
            db = (with_session same now (publish_round deliver batch_size time) p.db).1;
            topic = longer;
          })
      from d e h = subst (λ x. IsFed (record { db = x; topic = longer })) e h

-- If the broker reports on every message before the timeout, then through any rounds, whichever fail,
-- a row that is marked has its message on the topic: no event is lost between the two.
pub send_rounds-IsFed :
    (batch_size time now : ℕ) (reports : List (Message → Report)) (p : Pipe)
    → All (λ deliver. (m : Message) → deliver m ≢ no_report) reports
    → IsFed p
    → IsFed (send_rounds batch_size time now reports p)
unfolding send_rounds
send_rounds-IsFed batch_size time now [] p reported fed = fed
send_rounds-IsFed batch_size time now (deliver ∷ reports) p reported fed =
    send_rounds-IsFed batch_size time now reports (send_round batch_size time now deliver p)
      reported.1 (send_round-IsFed batch_size time now deliver p fed reported.0)
