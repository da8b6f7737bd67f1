-- ===== src/Ledger/Transfer.antt =====
-- `LedgerService.transfer` on every branch.
use distributed_wallet_ledge.Base.{
  ℕ, ◌≡◌, ◌≢◌, refl, sym, subst, ◌∙◌, ==_iff, ==_false, ◌⊎◌, Option, some, [], ◌∷◌, inl, inr,
  guard_passed, guard_failed,
}
use distributed_wallet_ledge.Base.Int.{◌≤ℤ◌, covered, short_of}
use distributed_wallet_ledge.Base.Text.{Text, upper, text_guard_passed, text_guard_failed}
use distributed_wallet_ledge.Schema.{Wallet, Transaction}
use distributed_wallet_ledge.Schema.Requests.{TransferRequest}
use distributed_wallet_ledge.Database.{Db, Violation, find_wallet}
use distributed_wallet_ledge.Session.{
  Error, Result, ok, err, refused, Session, same_wallet_transfer, with_session,
}
use distributed_wallet_ledge.Session.Rules.{clean, or_raise_then, or_raise_found, raise_if_then}
use distributed_wallet_ledge.Repositories.Outbox.{append_event}
use distributed_wallet_ledge.Ledger.{Draws, transfer_write, transfer_locked, transfer, given}
use distributed_wallet_ledge.Repositories.Wallets.Locks.{same}
use distributed_wallet_ledge.Ledger.Steps.{lock_two_then, debit_balance_then, credit_balance_then}
use distributed_wallet_ledge.Ledger.Steps.Closing.{commit_or_replay_lem}
use distributed_wallet_ledge.Ledger.Writing.{legs_written, legs_then, close_two_then}
use distributed_wallet_ledge.Ledger.Posting.{
  rows_of, before_event, Refusal, before_event-posted, find_completed, find-set_wallet_self,
  find_self, find-id, find-set_wallet_ne,
}
use distributed_wallet_ledge.Ledger.Replay.{WithReplay, replay_then}
use distributed_wallet_ledge.Ledger.Transferred.{
  debited_wallet, credited_wallet, transfer_move, transferred_wallets, Transferred, TransferFailure,
  LockedTransferOutcome, missing, foreign, no_recipient, mismatch, short, rejected,
}

module _ (draws : Draws) (sender_id requester_id : ℕ) (request : TransferRequest)
    (key : Option Text) (now : ℕ) where
  module _ (Q : Result (Transaction × Option Wallet) × Session → Type 0) (others : Db → Db)
      (db0 : Db) (distinct : sender_id ≢ request.recipient_wallet_id)
      (fails : (e : Error) (s : Session)
        → s.committed ≡ others db0
        → TransferFailure draws sender_id requester_id request key now (others db0) e
        → Q (err e, s))
      (succeeds : (answer : Transaction × Option Wallet) (s : Session)
        → Transferred draws sender_id requester_id request key now (others db0) answer s.committed
        → Q (ok answer, s)) where
    -- From the first INSERT on.
    module _ (w r : Wallet) (found : find_wallet sender_id (others db0) ≡ some w)
        (found_r : find_wallet request.recipient_wallet_id (others db0) ≡ some r)
        (owned : w.user_id ≡ requester_id) (currency : w.currency ≡ upper request.currency)
        (same_currency : r.currency ≡ w.currency)
        (funds : request.amount ≤ℤ w.available_balance) where
      different_ids : w.id ≢ r.id
      different_ids e = distinct (
          sym (find-id sender_id w (others db0).wallets found)
          ∙ e
          ∙ find-id request.recipient_wallet_id r (others db0).wallets found_r)

      find_sender :
          find_wallet w.id (record (others db0) {
            wallets = transferred_wallets w r request.amount (others db0).wallets;
          })
          ≡ some (debited_wallet w request.amount)
      find_sender =
          find-set_wallet_ne w.id (credited_wallet r request.amount) _ different_ids
          ∙ find-set_wallet_self (debited_wallet w request.amount) w (others db0).wallets
              (find_self sender_id w (others db0).wallets found)

      transfer_writes : Q (
          transfer_write draws sender_id request key w r (clean (others db0) (others db0) same now))
      unfolding transfer_write
      transfer_writes =
          let db = others db0 in
          let move = transfer_move w r request.amount key in
          let rows = rows_of draws move db.next_seq now in
          let x = debited_wallet w request.amount in
          let y = credited_wallet r request.amount in
          let wallets = transferred_wallets w r request.amount db.wallets in
          let d = append_event rows.event (before_event rows wallets db) in
          let no =
            λ (v : Violation) (s : Session) (same_db : s.committed ≡ db)
                (why : Refusal rows (x.available_balance ∷ y.available_balance ∷ []) db v).
              fails (refused v) s same_db
                (rejected w r v found owned found_r currency same_currency funds why refl) in
          legs_then Q draws move _ db now no _ λ written.
            debit_balance_then Q w request.amount _ [] db (legs_written Q draws move _ db now no)
              same now
              (credit_balance_then Q r request.amount _ (x ∷ []) db
                (legs_written Q draws move _ db now no) same now
                (close_two_then Q draws move x y db now no written _ λ a4 a5 a6.
                  subst Q
                    (sym (
                      commit_or_replay_lem key sender_id x x _ _ db d same now find_sender
                        (find_completed rows wallets db)))
                    (succeeds _ _ (record {
                      sender = w;
                      recipient = r;
                      found_sender = found;
                      found_recipient = found_r;
                      owned = owned;
                      currency = currency;
                      same_currency = same_currency;
                      funds = funds;
                      accepted = record { written = written; balance = (a4, (a5, tt)); event = a6 };
                      answered = refl;
                      state = before_event-posted rows wallets db written.transaction;
                    }))))

    transfer_run :
        Q (transfer_locked draws sender_id requester_id request key (clean db0 db0 others now))
    unfolding transfer_locked
    transfer_run =
        let db = others db0 in
        lock_two_then Q sender_id request.recipient_wallet_id _ db0 others now λ locked s_row r_row.
          or_raise_found Q _ _ _ _ _ s_row (
            or_raise_found Q _ _ _ _ _ r_row (
              or_raise_then Q (find_wallet sender_id db) _ _ _
                (λ e. fails _ _ refl (missing e refl))
                λ w found.
                  raise_if_then Q _ _ _ _
                    (λ e.
                      fails _ _ refl (foreign w found (guard_failed w.user_id requester_id e) refl))
                    λ e.
                      let owned = guard_passed w.user_id requester_id e in
                      or_raise_then Q (find_wallet request.recipient_wallet_id db) _ _ _
                        (λ e. fails _ _ refl (no_recipient w found owned e refl))
                        λ r found_r.
                          raise_if_then Q _ _ _ _
                            (λ e. fails _ _ refl (
                              mismatch w r found owned found_r
                                (inl (text_guard_failed w.currency (upper request.currency) e))
                                refl))
                            λ e.
                              let cur = text_guard_passed w.currency (upper request.currency) e in
                              raise_if_then Q _ _ _ _
                                (λ e. fails _ _ refl (
                                  mismatch w r found owned found_r
                                    (inr (text_guard_failed r.currency w.currency e)) refl))
                                λ e.
                                  let same_cur = text_guard_passed r.currency w.currency e in
                                  raise_if_then Q _ _ _ _
                                    (λ e. fails _ _ refl (
                                      short w r found owned found_r cur same_cur
                                        (short_of w.available_balance request.amount e) refl))
                                    λ e.
                                      transfer_writes w r found found_r owned cur same_cur
                                        (covered w.available_balance request.amount e)))

  -- What a transfer may do: refuse a transfer to the same wallet, answer from the record of its
  -- key, or go on to the locked part.
  abbrev pub TransferOutcome : (Db → Db) → Db → Result (Transaction × Option Wallet) × Db → Type 0
  TransferOutcome others db (r, db') =
      ((sender_id ≡ request.recipient_wallet_id)
        × (r ≡ err (same_wallet_transfer sender_id))
        × (db' ≡ db))
      ⊎ ((sender_id ≢ request.recipient_wallet_id)
          × WithReplay (given key) sender_id db
              (LockedTransferOutcome draws sender_id requester_id request key now (others db))
              (r, db'))

  -- A transfer, whatever other sessions commit while it waits for the row locks: to the same wallet
  -- it is refused; a key that was recorded before answers from the record and changes nothing;
  -- otherwise it does what `LockedTransferOutcome` says of the database that it finds once it holds
  -- the locks.
  pub transfer_outcome :
      (others : Db → Db) (db : Db)
      → TransferOutcome others db
          (with_session others now (transfer draws sender_id requester_id request key) db)
  unfolding with_session transfer
  transfer_outcome others db =
      let Goal = λ (o : Result (Transaction × Option Wallet) × Session).
        TransferOutcome others db (o.0, o.1.committed) in
      raise_if_then Goal _ _ _ _
        (λ e. inl ((==_iff sender_id request.recipient_wallet_id).0 e, refl, refl))
        λ e.
          let distinct = ==_false sender_id request.recipient_wallet_id e in
          replay_then Goal (given key) sender_id _ db db others now
            (λ absent.
              transfer_run Goal others db distinct
                (λ e s same_db why. inr (distinct, inr (absent, (same_db, why))))
                (λ answer s done. inr (distinct, inr (absent, done))))
            (λ t present. inr (distinct, inl (t, present, refl, refl)))
