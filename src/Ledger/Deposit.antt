-- ===== src/Ledger/Deposit.antt =====
-- `LedgerService.deposit` on every branch.
use distributed_wallet_ledge.Base.{
  ℕ, ◌≡◌, ◌≢◌, refl, guard_passed, guard_failed, none, some, [], ◌∷◌,
}
use distributed_wallet_ledge.Base.Int.{ℤ, ◌+ℤ◌}
use distributed_wallet_ledge.Base.Text.{upper, text_guard_passed, text_guard_failed}
use distributed_wallet_ledge.Schema.{Wallet, Transaction, deposit as deposit_type, credit, debit}
use distributed_wallet_ledge.Schema.Requests.{DepositRequest}
use distributed_wallet_ledge.Database.{Db, Violation, find_wallet, set_wallet}
use distributed_wallet_ledge.Session.{
  Error, Result, ok, err, refused, Session, wallet_not_found, wallet_access_denied,
  currency_mismatch, with_session,
}
use distributed_wallet_ledge.Session.Rules.{clean, or_raise_then, raise_if_then, commit_then}
use distributed_wallet_ledge.Repositories.Transactions.{opened, completed_row}
use distributed_wallet_ledge.Repositories.Outbox.{append_event}
use distributed_wallet_ledge.Ledger.{Draws, deposit_write, deposit, system_account_funding}
use distributed_wallet_ledge.Repositories.Wallets.Locks.{same}
use distributed_wallet_ledge.Ledger.Steps.{get_with_lock_then, credit_balance_then}
use distributed_wallet_ledge.Ledger.Steps.Closing.{refresh_wallet_then, refresh_transaction_then}
use distributed_wallet_ledge.Ledger.Writing.{legs_written, legs_then, close_one_then}
use distributed_wallet_ledge.Ledger.Posting.{
  Move, rows_of, posted, before_event, Refusal, IsAccepted, before_event-posted, find_completed,
  find-set_wallet_self, find_self,
}

-- The wallet that a deposit leaves.
abbrev pub deposited_wallet : Wallet → ℤ → Wallet
deposited_wallet wallet amount = record wallet {
  available_balance = wallet.available_balance +ℤ amount;
}

-- What a deposit writes: money into the wallet, out of the external funding account.
abbrev pub deposit_move : Wallet → ℤ → Move
deposit_move wallet amount = record {
  type = deposit_type;
  currency = wallet.currency;
  key = none;
  amount = amount;
  first_type = credit;
  first_wallet = some wallet.id;
  first_account = none;
  second_type = debit;
  second_wallet = none;
  second_account = some system_account_funding;
  owner = wallet.id;
  counterparty = none;
}

module _ (draws : Draws) (wallet_id requester_id : ℕ) (request : DepositRequest) (now : ℕ) where
  -- The deposit goes through: what the guards found, and the new state.
  pub record Deposited (db : Db) (answer : Transaction × Wallet) (db' : Db) : Type 0 where
    pub wallet : Wallet
    pub found : find_wallet wallet_id db ≡ some wallet
    pub owned : wallet.user_id ≡ requester_id
    pub currency : wallet.currency ≡ upper request.currency
    pub accepted :
        IsAccepted
          (rows_of draws (deposit_move wallet request.amount) db.next_seq now)
          ((wallet.available_balance +ℤ request.amount) ∷ [])
          db
    pub answered : answer ≡ (
      completed_row (opened draws.transaction_id deposit_type wallet.currency none now),
      deposited_wallet wallet request.amount,
    )
    pub state :
        db'
        ≡ posted
            (rows_of draws (deposit_move wallet request.amount) db.next_seq now)
            (set_wallet (deposited_wallet wallet request.amount) db.wallets)
            db

  -- The deposit raises `e`: the first condition of the code that fails.
  pub data DepositFailure (db : Db) (e : Error) : Type 0 where
    missing : find_wallet wallet_id db ≡ none → e ≡ wallet_not_found wallet_id → DepositFailure db e
    foreign :
        (w : Wallet)
        → find_wallet wallet_id db ≡ some w
        → w.user_id ≢ requester_id
        → e ≡ wallet_access_denied wallet_id
        → DepositFailure db e
    mismatch :
        (w : Wallet)
        → find_wallet wallet_id db ≡ some w
        → w.user_id ≡ requester_id
        → w.currency ≢ upper request.currency
        → e ≡ currency_mismatch
        → DepositFailure db e
    rejected :
        (w : Wallet) (v : Violation)
        → find_wallet wallet_id db ≡ some w
        → w.user_id ≡ requester_id
        → w.currency ≡ upper request.currency
        → Refusal
            (rows_of draws (deposit_move w request.amount) db.next_seq now)
            ((w.available_balance +ℤ request.amount) ∷ [])
            db
            v
        → e ≡ refused v
        → DepositFailure db e

  -- What a deposit may do to the committed database `db`.
  abbrev pub DepositOutcome : Db → Result (Transaction × Wallet) × Db → Type 0
  DepositOutcome db (ok answer, db') = Deposited db answer db'
  DepositOutcome db (err e, db') = (db' ≡ db) × DepositFailure db e

  -- Any statement `Q` of the outcome follows, if it holds of each failure with nothing committed
  -- and of each deposit that goes through.
  module _ (Q : Result (Transaction × Wallet) × Session → Type 0) (others : Db → Db) (db0 : Db)
      (fails : (e : Error) (s : Session)
        → s.committed ≡ others db0
        → DepositFailure (others db0) e
        → Q (err e, s))
      (succeeds : (answer : Transaction × Wallet) (s : Session)
        → Deposited (others db0) answer s.committed
        → Q (ok answer, s)) where
    -- From the first INSERT on.
    module _ (w : Wallet) (found : find_wallet wallet_id (others db0) ≡ some w)
        (owned : w.user_id ≡ requester_id) (currency : w.currency ≡ upper request.currency) where
      deposit_writes : Q (deposit_write draws request w (clean (others db0) (others db0) same now))
      unfolding deposit_write
      deposit_writes =
          let db = others db0 in
          let move = deposit_move w request.amount in
          let rows = rows_of draws move db.next_seq now in
          let changed = deposited_wallet w request.amount in
          let wallets = set_wallet changed db.wallets in
          let d = append_event rows.event (before_event rows wallets db) in
          let no =
            λ (v : Violation) (s : Session) (same_db : s.committed ≡ db)
                (why : Refusal rows (changed.available_balance ∷ []) db v).
              fails (refused v) s same_db (rejected w v found owned currency why refl) in
          legs_then Q draws move _ db now no _ λ written.
            credit_balance_then Q w request.amount _ [] db (legs_written Q draws move _ db now no)
              same now
              (close_one_then Q draws move changed db now no written _ λ a4 a5.
                commit_then Q _ db d same now (
                  refresh_wallet_then Q changed changed _ d d same now
                    (find-set_wallet_self changed w db.wallets
                      (find_self wallet_id w db.wallets found))
                    (refresh_transaction_then Q _ (completed_row rows.txn) _ d d same now
                      (find_completed rows wallets db)
                      (succeeds _ _ (record {
                        wallet = w;
                        found = found;
                        owned = owned;
                        currency = currency;
                        accepted = record { written = written; balance = (a4, tt); event = a5 };
                        answered = refl;
                        state = before_event-posted rows wallets db written.transaction;
                      })))))

    deposit_run : Q (deposit draws wallet_id requester_id request (clean db0 db0 others now))
    unfolding deposit
    deposit_run =
        let db = others db0 in
        get_with_lock_then Q wallet_id _ db0 others now (
          or_raise_then Q (find_wallet wallet_id db) _ _ _ (λ e. fails _ _ refl (missing e refl))
            λ w found.
              raise_if_then Q _ _ _ _
                (λ e. fails _ _ refl (foreign w found (guard_failed w.user_id requester_id e) refl))
                λ e.
                  let owned = guard_passed w.user_id requester_id e in
                  raise_if_then Q _ _ _ _
                    (λ e. fails _ _ refl (
                      mismatch w found owned
                        (text_guard_failed w.currency (upper request.currency) e) refl))
                    λ e.
                      deposit_writes w found owned
                        (text_guard_passed w.currency (upper request.currency) e))

  -- A deposit, whatever other sessions commit while it waits for the row lock, does what
  -- `DepositOutcome` says of the database that it then finds.
  pub deposit_outcome :
      (others : Db → Db) (db : Db)
      → DepositOutcome
          (others db)
          (with_session others now (deposit draws wallet_id requester_id request) db)
  unfolding with_session
  deposit_outcome others db =
      deposit_run (λ (r, s). DepositOutcome (others db) (r, s.committed)) others db
        (λ e s same_db why. (same_db, why)) (λ answer s done. done)
