-- ===== src/Ledger/Withdraw.antt =====
-- `LedgerService.withdraw` on every branch.
use distributed_wallet_ledge.Base.{
  ℕ, ◌≡◌, ◌≢◌, refl, sym, subst, Option, none, some, [], ◌∷◌, inl, inr, guard_passed, guard_failed,
}
use distributed_wallet_ledge.Base.Int.{ℤ, ◌-ℤ◌, ◌≤ℤ◌, ◌<ℤ◌, covered, short_of}
use distributed_wallet_ledge.Base.Text.{Text, upper, text_guard_passed, text_guard_failed}
use distributed_wallet_ledge.Schema.{
  Wallet, Transaction, withdrawal as withdrawal_type, credit, debit,
}
use distributed_wallet_ledge.Schema.Requests.{WithdrawalRequest}
use distributed_wallet_ledge.Database.{Db, Violation, find_wallet, set_wallet}
use distributed_wallet_ledge.Session.{
  Error, Result, ok, err, refused, Session, wallet_not_found, wallet_access_denied,
  currency_mismatch, insufficient_funds, with_session,
}
use distributed_wallet_ledge.Session.Rules.{clean, or_raise_then, raise_if_then}
use distributed_wallet_ledge.Repositories.Transactions.{opened, completed_row}
use distributed_wallet_ledge.Repositories.Outbox.{append_event}
use distributed_wallet_ledge.Ledger.{
  Draws, withdraw_write, withdraw_locked, withdraw, given, system_account_funding,
}
use distributed_wallet_ledge.Repositories.Wallets.Locks.{same}
use distributed_wallet_ledge.Ledger.Steps.{get_with_lock_then, debit_balance_then}
use distributed_wallet_ledge.Ledger.Steps.Closing.{commit_or_replay_lem}
use distributed_wallet_ledge.Ledger.Writing.{legs_written, legs_then, close_one_then}
use distributed_wallet_ledge.Ledger.Posting.{
  Move, rows_of, posted, before_event, Refusal, IsAccepted, before_event-posted, find_completed,
  find-set_wallet_self, find_self,
}
use distributed_wallet_ledge.Ledger.Replay.{WithReplay, replay_then}

-- The wallet that a withdrawal leaves.
abbrev pub withdrawn_wallet : Wallet → ℤ → Wallet
withdrawn_wallet wallet amount = record wallet {
  available_balance = wallet.available_balance -ℤ amount;
}

-- What a withdrawal writes: money out of the wallet, back to the external funding account.
abbrev pub withdrawal_move : Wallet → ℤ → Option Text → Move
withdrawal_move wallet amount key = record {
  type = withdrawal_type;
  currency = wallet.currency;
  key = key;
  amount = amount;
  first_type = debit;
  first_wallet = some wallet.id;
  first_account = none;
  second_type = credit;
  second_wallet = none;
  second_account = some system_account_funding;
  owner = wallet.id;
  counterparty = none;
}

module _ (draws : Draws) (wallet_id requester_id : ℕ) (request : WithdrawalRequest)
    (key : Option Text) (now : ℕ) where
  -- The withdrawal goes through: what the guards found, and the new state.
  pub record Withdrawn (db : Db) (answer : Transaction × Option Wallet) (db' : Db) : Type 0 where
    pub wallet : Wallet
    pub found : find_wallet wallet_id db ≡ some wallet
    pub owned : wallet.user_id ≡ requester_id
    pub currency : wallet.currency ≡ upper request.currency
    pub funds : request.amount ≤ℤ wallet.available_balance
    pub accepted :
        IsAccepted
          (rows_of draws (withdrawal_move wallet request.amount key) db.next_seq now)
          ((wallet.available_balance -ℤ request.amount) ∷ [])
          db
    pub answered : answer ≡ (
      completed_row (opened draws.transaction_id withdrawal_type wallet.currency key now),
      some (withdrawn_wallet wallet request.amount),
    )
    pub state :
        db'
        ≡ posted
            (rows_of draws (withdrawal_move wallet request.amount key) db.next_seq now)
            (set_wallet (withdrawn_wallet wallet request.amount) db.wallets)
            db

  -- The withdrawal raises `e`: the first condition of the code that fails.
  pub data WithdrawalFailure (db : Db) (e : Error) : Type 0 where
    missing :
        find_wallet wallet_id db ≡ none → e ≡ wallet_not_found wallet_id → WithdrawalFailure db e
    foreign :
        (w : Wallet)
        → find_wallet wallet_id db ≡ some w
        → w.user_id ≢ requester_id
        → e ≡ wallet_access_denied wallet_id
        → WithdrawalFailure db e
    mismatch :
        (w : Wallet)
        → find_wallet wallet_id db ≡ some w
        → w.user_id ≡ requester_id
        → w.currency ≢ upper request.currency
        → e ≡ currency_mismatch
        → WithdrawalFailure db e
    short :
        (w : Wallet)
        → find_wallet wallet_id db ≡ some w
        → w.user_id ≡ requester_id
        → w.currency ≡ upper request.currency
        → w.available_balance <ℤ request.amount
        → e ≡ insufficient_funds wallet_id
        → WithdrawalFailure db e
    rejected :
        (w : Wallet) (v : Violation)
        → find_wallet wallet_id db ≡ some w
        → w.user_id ≡ requester_id
        → w.currency ≡ upper request.currency
        → request.amount ≤ℤ w.available_balance
        → Refusal
            (rows_of draws (withdrawal_move w request.amount key) db.next_seq now)
            ((w.available_balance -ℤ request.amount) ∷ [])
            db
            v
        → e ≡ refused v
        → WithdrawalFailure db e

  -- What the locked part of a withdrawal may do to the committed database `db`.
  abbrev pub WithdrawalOutcome : Db → Result (Transaction × Option Wallet) × Db → Type 0
  WithdrawalOutcome db (ok answer, db') = Withdrawn db answer db'
  WithdrawalOutcome db (err e, db') = (db' ≡ db) × WithdrawalFailure db e

  module _ (Q : Result (Transaction × Option Wallet) × Session → Type 0) (others : Db → Db)
      (db0 : Db)
      (fails : (e : Error) (s : Session)
        → s.committed ≡ others db0
        → WithdrawalFailure (others db0) e
        → Q (err e, s))
      (succeeds : (answer : Transaction × Option Wallet) (s : Session)
        → Withdrawn (others db0) answer s.committed
        → Q (ok answer, s)) where
    -- From the first INSERT on.
    module _ (w : Wallet) (found : find_wallet wallet_id (others db0) ≡ some w)
        (owned : w.user_id ≡ requester_id) (currency : w.currency ≡ upper request.currency)
        (funds : request.amount ≤ℤ w.available_balance) where
      withdraw_writes :
          Q (
            withdraw_write draws wallet_id request key w (clean (others db0) (others db0) same now))
      unfolding withdraw_write
      withdraw_writes =
          let db = others db0 in
          let move = withdrawal_move w request.amount key in
          let rows = rows_of draws move db.next_seq now in
          let changed = withdrawn_wallet w request.amount in
          let wallets = set_wallet changed db.wallets in
          let d = append_event rows.event (before_event rows wallets db) in
          let no =
            λ (v : Violation) (s : Session) (same_db : s.committed ≡ db)
                (why : Refusal rows (changed.available_balance ∷ []) db v).
              fails (refused v) s same_db (rejected w v found owned currency funds why refl) in
          legs_then Q draws move _ db now no _ λ written.
            debit_balance_then Q w request.amount _ [] db (legs_written Q draws move _ db now no)
              same now
              (close_one_then Q draws move changed db now no written _ λ a4 a5.
                subst Q
                  (sym (
                    commit_or_replay_lem key wallet_id changed changed _ _ db d same now
                      (find-set_wallet_self changed w db.wallets
                        (find_self wallet_id w db.wallets found))
                      (find_completed rows wallets db)))
                  (succeeds _ _ (record {
                    wallet = w;
                    found = found;
                    owned = owned;
                    currency = currency;
                    funds = funds;
                    accepted = record { written = written; balance = (a4, tt); event = a5 };
                    answered = refl;
                    state = before_event-posted rows wallets db written.transaction;
                  })))

    withdraw_run :
        Q (withdraw_locked draws wallet_id requester_id request key (clean db0 db0 others now))
    unfolding withdraw_locked
    withdraw_run =
        let db = others db0 in
        get_with_lock_then Q wallet_id _ db0 others now (
          or_raise_then Q (find_wallet wallet_id db) _ _ _ (λ e. fails _ _ refl (missing e refl))
            λ w found.
              raise_if_then Q _ _ _ _
                (λ e. fails _ _ refl (foreign w found (guard_failed w.user_id requester_id e) refl))
                λ e.
                  let owned = guard_passed w.user_id requester_id e in
                  raise_if_then Q _ _ _ _
                    (λ e. fails _ _ refl (
                      mismatch w found owned
                        (text_guard_failed w.currency (upper request.currency) e) refl))
                    λ e.
                      let currency = text_guard_passed w.currency (upper request.currency) e in
                      raise_if_then Q _ _ _ _
                        (λ e. fails _ _ refl (
                          short w found owned currency
                            (short_of w.available_balance request.amount e) refl))
                        λ e.
                          withdraw_writes w found owned currency
                            (covered w.available_balance request.amount e))

  -- A withdrawal, whatever other sessions commit while it waits for the row lock: a key that was
  -- recorded before answers from the record and changes nothing; otherwise the withdrawal does
  -- what `WithdrawalOutcome` says of the database that it finds once it holds the lock.
  pub withdraw_outcome :
      (others : Db → Db) (db : Db)
      → WithReplay
          (given key)
          wallet_id
          db
          (WithdrawalOutcome (others db))
          (with_session others now (withdraw draws wallet_id requester_id request key) db)
  unfolding with_session withdraw
  withdraw_outcome others db =
      let Goal = λ (o : Result (Transaction × Option Wallet) × Session).
        WithReplay (given key) wallet_id db (WithdrawalOutcome (others db)) (o.0, o.1.committed) in
      replay_then Goal (given key) wallet_id _ db db others now
        (λ absent.
          withdraw_run Goal others db (λ e s same_db why. inr (absent, (same_db, why)))
            (λ answer s done. inr (absent, done)))
        (λ t present. inl (t, present, refl, refl))
