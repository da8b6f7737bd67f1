-- ===== src/Analytics/Loop.antt =====
-- The loop of the analytics consumer (app/events/run_analytics_consumer.py) on the messages of one
-- run, without the empty polls and the error reports, which it skips. An exception of the handler is
-- logged, and the offset of the message is committed all the same.
pub mod Counted
use distributed_wallet_ledge.Base.{
  ℕ, suc, ◌+◌, ◌≡◌, ==_refl, refl, sym, ◌∙◌, subst, ◌⊎◌, inl, inr, Bool, true, false, ◌==◌, arith,
  Option, none, some, List, [], ◌∷◌, ◌++◌, ◌||◌, ◌&&◌,
}
use mathlib.Core.List.{append_assoc, Memᴰ}
use mathlib.Core.List.Memᴰ.{head, tail}
use distributed_wallet_ledge.Base.Text.{length, text_eq, text_eq_refl}
use distributed_wallet_ledge.Base.Rows.{All, All-append, exists}
use distributed_wallet_ledge.Schema.{Payload, TransactionStat}
use distributed_wallet_ledge.Database.{Db, Violation}
use distributed_wallet_ledge.Session.{with_session}
use distributed_wallet_ledge.Repositories.Wallets.Locks.{same}
use distributed_wallet_ledge.Repositories.Processed.{inbox_row, add_processed}
use distributed_wallet_ledge.Repositories.Stats.{find_stat, store, stat_violation}
use distributed_wallet_ledge.Analytics.{handle_event, consumer_name}
use distributed_wallet_ledge.Analytics.Rollup.{
  was_handled, next_stat, counted_in, Handling, duplicate, raced, too_large, applied,
  handle_event_outcome,
}
use distributed_wallet_ledge.Analytics.Exact.{IsRollup, handle_event-IsRollup}

pub record Consumer : Type 0 where
  pub db : Db
  -- how many offsets are committed
  pub committed : ℕ

-- One message: a session of its own around `handle_event`, the handler of `Exception`, and the
-- commit of the offset.
unfoldable pub on_message : ℕ → Payload → Consumer → Consumer
on_message now payload c = record {
  db = (with_session same now (handle_event payload) c.db).1;
  committed = suc c.committed;
}

-- The loop of `main`.
unfoldable pub consume_analytics : ℕ → List Payload → Consumer → Consumer
consume_analytics now [] c = c
consume_analytics now (payload ∷ payloads) c =
    consume_analytics now payloads (on_message now payload c)

-- What one message does.
abbrev Outcome : ℕ → Payload → Consumer → Type 0
Outcome now p c =
    Handling p c.db c.db (with_session same now (handle_event p) c.db).0 (on_message now p c).db

on_message-Outcome : (now : ℕ) (p : Payload) (c : Consumer) → Outcome now p c
unfolding on_message
on_message-Outcome now p c = handle_event_outcome p now same c.db

store-inbox :
    (o : Option TransactionStat) (s : TransactionStat) (db : Db)
    → (store o s db).processed_events ≡ db.processed_events
store-inbox none s db = refl
store-inbox (some _) s db = refl

handled_counted :
    (p q : Payload) (db : Db) → was_handled q db ≡ true → was_handled q (counted_in p db) ≡ true
handled_counted p q db h =
    subst
      (λ rows.
        exists (λ r. r.transaction_id == q.transaction_id && text_eq r.consumer consumer_name) rows
        ≡ true)
      (sym (
        store-inbox (find_stat p.currency p.type db) (next_stat p db)
          (add_processed (inbox_row consumer_name p.transaction_id) db)))
      (or_true _ h)
  where
    or_true : (a : Bool) {b : Bool} → b ≡ true → (a || b) ≡ true
    or_true a h = ground arith

-- An event that is in the inbox stays there, and a delivery of it changes nothing.
on_message_keeps :
    (now : ℕ) (p q : Payload) (c : Consumer)
    → was_handled q c.db ≡ true
    → was_handled q (on_message now p c).db ≡ true
on_message_keeps now p q c h = elim (on_message-Outcome now p c) [
  | duplicate _ _ e ↦ subst (λ d. was_handled q d ≡ true) (sym e) h
  | raced _ _ _ e ↦ subst (λ d. was_handled q d ≡ true) (sym e) h
  | too_large _ _ _ _ _ e ↦ subst (λ d. was_handled q d ≡ true) (sym e) h
  | applied _ _ _ _ e ↦ subst (λ d. was_handled q d ≡ true) (sym e) (handled_counted p q c.db h)
]

on_message_again :
    (now : ℕ) (p : Payload) (c : Consumer)
    → was_handled p c.db ≡ true
    → (on_message now p c).db ≡ c.db
on_message_again now p c h = elim (on_message-Outcome now p c) [
  | duplicate _ _ e ↦ e
  | raced _ _ _ e ↦ e
  | too_large _ _ _ _ _ e ↦ e
  | applied fresh _ _ _ e ↦ cc (h, fresh)
]

consume_keeps :
    (now : ℕ) (q : Payload) (ps : List Payload) (c : Consumer)
    → was_handled q c.db ≡ true
    → was_handled q (consume_analytics now ps c).db ≡ true
unfolding consume_analytics
consume_keeps now q [] c h = h
consume_keeps now q (p ∷ ps) c h =
    consume_keeps now q ps (on_message now p c) (on_message_keeps now p q c h)

-- The row of an event does not fit its columns.
abbrev pub DoesNotFit : Payload → Db → Type 0
DoesNotFit p db = (v : Violation) × (stat_violation (next_stat p db) ≡ some v)

-- A delivery of an event that was not in the inbox, whose row does not fit: nothing is changed.
pub record IsLost (now : ℕ) (p : Payload) (c : Consumer) : Type 0 where
  pub fresh : was_handled p c.db ≡ false
  pub misfit : DoesNotFit p c.db
  pub unchanged : (on_message now p c).db ≡ c.db

counted_or_IsLost :
    (now : ℕ) (p : Payload) (c : Consumer)
    → (was_handled p (on_message now p c).db ≡ true) ⊎ IsLost now p c
counted_or_IsLost now p c = elim (on_message-Outcome now p c) [
  | duplicate h _ e ↦ inl (subst (λ d. was_handled p d ≡ true) (sym e) h)
  | raced fresh seen _ e ↦ elim (clash fresh seen) [ ]
  | too_large v fresh _ bad _ e ↦ inr (record { fresh = fresh; misfit = (v, bad); unchanged = e })
  | applied _ _ _ _ e ↦ inl (subst (λ d. was_handled p d ≡ true) (sym e) (noted p c.db))
]
  where
    clash : {b : Bool} → b ≡ false → b ≡ true → ⊥
    clash h k = cc (h, k)

    noted : (p : Payload) (db : Db) → was_handled p (counted_in p db) ≡ true
    noted p db =
        subst
          (λ rows.
            exists (λ r. r.transaction_id == p.transaction_id && text_eq r.consumer consumer_name)
              rows
            ≡ true)
          (sym (
            store-inbox (find_stat p.currency p.type db) (next_stat p db)
              (add_processed (inbox_row consumer_name p.transaction_id) db)))
          (rw (==_refl p.transaction_id, text_eq_refl consumer_name))

offset : (now : ℕ) (p : Payload) (c : Consumer) → (on_message now p c).committed ≡ suc c.committed
unfolding on_message
offset now p c = refl
