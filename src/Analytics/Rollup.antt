-- ===== src/Analytics/Rollup.antt =====
-- `handle_event` on every branch, and the rollup after any deliveries.
use distributed_wallet_ledge.Base.{
  ℕ, ◌≡◌, ==_refl, refl, sym, ap, ◌∙◌, subst, inl, inr, Bool, true, false, Bool-cases, Option, none,
  some, Option-cases,
}
use distributed_wallet_ledge.Base.Text.{text_eq_refl}
use distributed_wallet_ledge.Schema.{Payload, TransactionStat}
use distributed_wallet_ledge.Database.{Db, Violation, integrity}
use distributed_wallet_ledge.Session.{
  Session, Result, ok, err, refused, with_session, attempt, commit, flush, wait, ◌>>=◌,
}
use distributed_wallet_ledge.Session.Rules.{clean}
use distributed_wallet_ledge.Repositories.Wallets.Locks.{same}
use distributed_wallet_ledge.Repositories.Processed.{
  was_processed, inbox_row, inbox_violation, add_processed, is_processed, mark_processed,
}
use distributed_wallet_ledge.Repositories.Stats.{
  find_stat, counted, stat_or_new, stat_violation, store, increment, get_stat,
}
use distributed_wallet_ledge.Analytics.{handle_event, consumer_name, after_commit}

abbrev pub was_handled : Payload → Db → Bool
was_handled payload db = was_processed consumer_name payload.transaction_id db

-- The row of the event's currency and type with the event counted.
abbrev pub next_stat : Payload → Db → TransactionStat
next_stat payload db =
    counted payload.amount
      (stat_or_new payload.currency payload.type (find_stat payload.currency payload.type db))

-- The database with the event counted and noted in the inbox.
abbrev pub counted_in : Payload → Db → Db
counted_in payload db =
    store (find_stat payload.currency payload.type db) (next_stat payload db)
      (add_processed (inbox_row consumer_name payload.transaction_id) db)

-- What one delivery does: to the database `db` at its start, and `db'` once the INSERT into the
-- inbox goes through.
pub data Handling (payload : Payload) (db db' : Db) (r : Result Bool) (after : Db) : Type 0 where
  duplicate :
      was_handled payload db ≡ true → r ≡ ok false → after ≡ db → Handling payload db db' r after
  raced :
      was_handled payload db ≡ false
      → was_handled payload db' ≡ true
      → r ≡ err (refused integrity)
      → after ≡ db'
      → Handling payload db db' r after
  too_large :
      (v : Violation)
      → was_handled payload db ≡ false
      → was_handled payload db' ≡ false
      → stat_violation (next_stat payload db') ≡ some v
      → r ≡ err (refused v)
      → after ≡ db'
      → Handling payload db db' r after
  applied :
      was_handled payload db ≡ false
      → was_handled payload db' ≡ false
      → stat_violation (next_stat payload db') ≡ none
      → r ≡ ok true
      → after ≡ counted_in payload db'
      → Handling payload db db' r after

module _ (payload : Payload) (now : ℕ) (others : Db → Db) (db : Db) where
  abbrev start : Session
  start = clean db db others now

  run_duplicate : was_handled payload db ≡ true → handle_event payload start ≡ (ok false, start)
  unfolding handle_event is_processed ◌>>=◌
  run_duplicate h = rw h

  run_raced :
      was_handled payload db ≡ false
      → was_handled payload (others db) ≡ true
      → handle_event payload start
        ≡ (err (refused integrity), clean (others db) (others db) same now)
  unfolding handle_event is_processed ◌>>=◌ mark_processed inbox_violation flush wait
  run_raced h k = rw (h, k)

  run_new :
      was_handled payload db ≡ false
      → was_handled payload (others db) ≡ false
      → handle_event payload start
        ≡ (increment payload.currency payload.type payload.amount >>= λ _.
              attempt commit >>= after_commit)
            (clean
              (others db)
              (add_processed (inbox_row consumer_name payload.transaction_id) (others db))
              same
              now)
  unfolding handle_event is_processed ◌>>=◌ mark_processed inbox_violation flush wait
  run_new h k = rw (h, k)

  run_counted :
      was_handled payload db ≡ false
      → was_handled payload (others db) ≡ false
      → stat_violation (next_stat payload (others db)) ≡ none
      → handle_event payload start ≡ (
        ok true,
        clean (counted_in payload (others db)) (counted_in payload (others db)) same now,
      )
  unfolding increment get_stat ◌>>=◌ attempt commit flush
  run_counted h k n = run_new h k ∙ rw n

  run_too_large :
      (v : Violation)
      → was_handled payload db ≡ false
      → was_handled payload (others db) ≡ false
      → stat_violation (next_stat payload (others db)) ≡ some v
      → handle_event payload start ≡ (
        err (refused v),
        clean
            (others db)
            (add_processed (inbox_row consumer_name payload.transaction_id) (others db))
            same
            now,
      )
  unfolding increment get_stat ◌>>=◌ attempt commit flush
  run_too_large v h k n = run_new h k ∙ rw n

  -- A delivery, whatever other sessions commit before its INSERT into the inbox goes through: a
  -- transaction that is in the inbox at the start is skipped; one that another session has put there
  -- meanwhile raises the integrity error, and does not count as a duplicate; a row that does not fit
  -- its columns raises, and nothing is written; any other event is counted once and noted in the
  -- inbox, in one commit.
  pub handle_event_outcome :
      let (r, after) = with_session others now (handle_event payload) db in
      Handling payload db (others db) r after
  unfolding with_session
  handle_event_outcome = elim (Bool-cases (was_handled payload db)) [
    | inl h ↦ from (run_duplicate h) (duplicate h refl refl)
    | inr h ↦ elim (Bool-cases (was_handled payload (others db))) [
      | inl k ↦ from (run_raced h k) (raced h k refl refl)
      | inr k ↦ elim (Option-cases (stat_violation (next_stat payload (others db)))) [
        | inl n ↦ from (run_counted h k n) (applied h k n refl refl)
        | inr (v, n) ↦ from (run_too_large v h k n) (too_large v h k n refl refl)
      ]
    ]
  ]
    where
      from :
          {o : Result Bool × Session}
          → handle_event payload start ≡ o
          → Handling payload db (others db) o.0 o.1.committed
          → Handling payload db
              (others db)
              (handle_event payload start).0
              (handle_event payload start).1.committed
      from e h =
          subst (λ (o : Result Bool × Session). Handling payload db (others db) o.0 o.1.committed)
            (sym e) h

handled_after :
    (payload : Payload) (db db' : Db) (b : Bool) (after : Db)
    → Handling payload db db' (ok b) after
    → was_handled payload after ≡ true
handled_after payload db db' b after (duplicate h _ e) = rw (e, h)
handled_after payload db db' b after (raced _ _ bad _) = cc bad
handled_after payload db db' b after (too_large _ _ _ _ bad _) = cc bad
handled_after payload db db' b after (applied _ _ _ _ e) =
    rw e (noted (find_stat payload.currency payload.type db'))
  where
    noted :
        (o : Option TransactionStat)
        → was_handled payload (
            store o
              (next_stat payload db')
              (add_processed (inbox_row consumer_name payload.transaction_id) db'))
          ≡ true
    noted none = rw (==_refl payload.transaction_id, text_eq_refl consumer_name)
    noted (some s) = rw (==_refl payload.transaction_id, text_eq_refl consumer_name)

-- After a delivery that did not raise, any later delivery of the same transaction, with no other
-- delivery between, is skipped and changes nothing.
pub handle_event_again :
    (payload again : Payload) (now later : ℕ) (others others' : Db → Db) (db : Db) (b : Bool)
    (after : Db)
    → with_session others now (handle_event payload) db ≡ (ok b, after)
    → again.transaction_id ≡ payload.transaction_id
    → with_session others' later (handle_event again) after ≡ (ok false, after)
unfolding with_session
handle_event_again payload again now later others others' db b after e same_id =
    let seen = handled_after payload db (others db) b after (
      subst (λ (o : Result Bool × Db). Handling payload db (others db) o.0 o.1) e
        (handle_event_outcome payload now others db)) in
    ap (λ (o : Result Bool × Session). (o.0, o.1.committed))
      (run_duplicate again later others' after
        (subst (λ i. was_processed consumer_name i after ≡ true) (sym same_id) seen))
