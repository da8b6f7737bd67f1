-- ===== src/Analytics/Loop/Counted.antt =====
-- What a run of the loop counts, and what it loses.
use distributed_wallet_ledge.Base.{
  ℕ, suc, ◌+◌, ◌≡◌, refl, sym, ◌∙◌, subst, ◌⊎◌, inl, inr, true, arith, List, [], ◌∷◌, ◌++◌,
}
use mathlib.Core.List.{append_assoc, Memᴰ}
use mathlib.Core.List.Memᴰ.{head, tail}
use distributed_wallet_ledge.Base.Text.{length}
use distributed_wallet_ledge.Base.Rows.{All, All-append}
use distributed_wallet_ledge.Schema.{Payload}
use distributed_wallet_ledge.Database.{Db}
use distributed_wallet_ledge.Analytics.Rollup.{was_handled}
use distributed_wallet_ledge.Analytics.Exact.{IsRollup, handle_event-IsRollup}
use distributed_wallet_ledge.Analytics.Loop.{
  Consumer, on_message, consume_analytics, on_message_again, consume_keeps, IsLost,
  counted_or_IsLost, offset,
}

-- Each message is in the inbox at the end, or it was lost when it was delivered.
abbrev pub Accounted : ℕ → Db → List Payload → Consumer → Type 0
Accounted now end [] c = Unit
Accounted now end (p ∷ ps) c =
    ((was_handled p end ≡ true) ⊎ IsLost now p c) × Accounted now end ps (on_message now p c)

-- A run of the loop, from any state: every offset is committed, and for every message the
-- transaction is in the inbox at the end, or at its delivery it was not in the inbox, its row did
-- not fit its columns, and the delivery changed neither the inbox nor the rollup.
pub consume_analytics-Accounted :
    (now : ℕ) (ps : List Payload) (c : Consumer)
    → let after = consume_analytics now ps c in
      (after.committed ≡ length ps + c.committed) × Accounted now after.db ps c
unfolding consume_analytics
consume_analytics-Accounted now [] c = (none_more c.committed, tt)
  where
    none_more : (n : ℕ) → n ≡ 0 + n
    none_more n = omega arith
consume_analytics-Accounted now (p ∷ ps) c =
    let (count, rest) = consume_analytics-Accounted now ps (on_message now p c) in
    (
      count ∙ one_more (length ps) (on_message now p c).committed c.committed (offset now p c),
      (kept (counted_or_IsLost now p c), rest),
    )
  where
    kept :
        (was_handled p (on_message now p c).db ≡ true) ⊎ IsLost now p c
        → (was_handled p (consume_analytics now ps (on_message now p c)).db ≡ true) ⊎ IsLost now p c
    kept (inl seen) = inl (consume_keeps now p ps (on_message now p c) seen)
    kept (inr bad) = inr bad

    one_more : (n m k : ℕ) → m ≡ suc k → n + m ≡ suc n + k
    one_more n m k e = omega (e, arith)

on_message-IsRollup :
    (now : ℕ) (p : Payload) (events : List Payload) (c : Consumer)
    → IsRollup events c.db
    → IsRollup events (on_message now p c).db ⊎ IsRollup (p ∷ events) (on_message now p c).db
unfolding on_message
on_message-IsRollup now p events c h = elim (handle_event-IsRollup p events now c.db h) [
  | inl same_events ↦ inl same_events
  | inr (_, _, more) ↦ inr more
]

All-tail :
    (p : Payload) (ps qs : List Payload) → All (λ q. Memᴰ q ps) qs → All (λ q. Memᴰ q (p ∷ ps)) qs
All-tail p ps [] h = tt
All-tail p ps (q ∷ qs) h = (tail h.0, All-tail p ps qs h.1)

-- A run of the loop, from an inbox and a rollup that are those of `events`, leaves them those of
-- `events` and of some of the messages, each transaction once.
pub consume_analytics-IsRollup :
    (now : ℕ) (ps events : List Payload) (c : Consumer)
    → IsRollup events c.db
    → (counted : List Payload) × IsRollup (counted ++ events) (consume_analytics now ps c).db
      × All (λ q. Memᴰ q ps) counted
unfolding consume_analytics
consume_analytics-IsRollup now [] events c h = ([], h, tt)
consume_analytics-IsRollup now (p ∷ ps) events c h = elim (on_message-IsRollup now p events c h) [
  | inl k ↦
      let (counted, rollup, among) =
        consume_analytics-IsRollup now ps events (on_message now p c) k in
      (counted, rollup, All-tail p ps counted among)
  | inr k ↦
      let (counted, rollup, among) =
        consume_analytics-IsRollup now ps (p ∷ events) (on_message now p c) k in
      (
        counted ++ (p ∷ []),
        subst (λ es. IsRollup es (consume_analytics now ps (on_message now p c)).db)
            (sym (append_assoc counted (p ∷ []) events)) rollup,
        All-append (λ q. Memᴰ q (p ∷ ps)) counted (p ∷ []) (All-tail p ps counted among)
            (head refl, tt),
      )
]

-- Deliveries of events that are all in the inbox change nothing but the offset.
pub consume_analytics_again :
    (now : ℕ) (ps : List Payload) (c : Consumer)
    → All (λ p. was_handled p c.db ≡ true) ps
    → (consume_analytics now ps c).db ≡ c.db
unfolding consume_analytics
consume_analytics_again now [] c h = refl
consume_analytics_again now (p ∷ ps) c h =
    consume_analytics_again now ps (on_message now p c)
      (subst (λ d. All (λ q. was_handled q d ≡ true) ps) (sym same_db) h.1)
    ∙ same_db
  where
    same_db : (on_message now p c).db ≡ c.db
    same_db = on_message_again now p c h.0
