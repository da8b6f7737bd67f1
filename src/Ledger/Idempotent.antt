-- ===== src/Ledger/Idempotent.antt =====
-- Idempotency keys of `transfer` and `withdraw`: what a key answers once it is recorded, and what
-- happens to the request that loses the race for it.
use distributed_wallet_ledge.Base.{
  ℕ, ◌≡◌, ◌≢◌, refl, subst, ◌∙◌, ap, inl, inr, Option, some, List, ◌∷◌,
}
use distributed_wallet_ledge.Base.Text.{Text, text_eq_refl}
use distributed_wallet_ledge.Schema.{Transaction, Wallet}
use distributed_wallet_ledge.Schema.Requests.{TransferRequest, WithdrawalRequest}
use distributed_wallet_ledge.Database.{Db, find_wallet, set_wallet}
use distributed_wallet_ledge.Session.{Result, ok, with_session}
use distributed_wallet_ledge.Repositories.Transactions.{completed_row}
use distributed_wallet_ledge.Ledger.{Draws, given, transfer, withdraw}
use distributed_wallet_ledge.Ledger.Posting.{Posting, posted, rows_of}
use distributed_wallet_ledge.Ledger.Replay.{recorded, WithReplay}
use distributed_wallet_ledge.Ledger.Withdraw.{
  WithdrawalOutcome, withdraw_outcome, withdrawn_wallet, withdrawal_move,
}
use distributed_wallet_ledge.Ledger.Transfer.{TransferOutcome, transfer_outcome}
use distributed_wallet_ledge.Ledger.Transferred.{
  LockedTransferOutcome, transfer_move, transferred_wallets,
}

abbrev Answer : Type 0
Answer = Result (Transaction × Option Wallet) × Db

answer_of :
    (key : Option Text) (id : ℕ) (db : Db) (Outcome : Answer → Type 0) (t : Transaction)
    (o : Answer)
    → recorded key db ≡ some t
    → WithReplay key id db Outcome o
    → o ≡ (ok (t, find_wallet id db), db)
answer_of key id db Outcome t (r, db') h (inl (t', h', er, ed)) = cc (h, h', er, ed)
answer_of key id db Outcome t (r, db') h (inr (h', _)) = cc (h, h')

-- The key is recorded with the transaction.
recorded-posted :
    (c : ℕ) (key : Text) (p : Posting) (wallets : List Wallet) (db : Db)
    → p.txn.idempotency_key ≡ some (c ∷ key)
    → recorded (given (some (c ∷ key))) (posted p wallets db) ≡ some (completed_row p.txn)
recorded-posted c key p wallets db e = rw (e, text_eq_refl (c ∷ key))

module _ (draws : Draws) (id requester_id : ℕ) (now : ℕ) (others : Db → Db) (db : Db) where
  -- A withdrawal with a key that is recorded, by a transfer or a withdrawal and by whomever, returns
  -- the recorded transaction with the row of the wallet in the path, if any, and changes nothing.
  pub withdraw_replays :
      (request : WithdrawalRequest) (key : Option Text) (t : Transaction)
      → recorded (given key) db ≡ some t
      → with_session others now (withdraw draws id requester_id request key) db
        ≡ (ok (t, find_wallet id db), db)
  withdraw_replays request key t h =
      answer_of (given key) id db
        (WithdrawalOutcome draws id requester_id request key now (others db)) t _ h
        (withdraw_outcome draws id requester_id request key now others db)

  -- A transfer between two different wallets with a key that is recorded, by a transfer or a
  -- withdrawal and by whomever, returns the recorded transaction with the row of the wallet in the
  -- path, if any, and changes nothing.
  pub transfer_replays :
      (request : TransferRequest) (key : Option Text) (t : Transaction)
      → recorded (given key) db ≡ some t
      → id ≢ request.recipient_wallet_id
      → with_session others now (transfer draws id requester_id request key) db
        ≡ (ok (t, find_wallet id db), db)
  transfer_replays request key t h distinct =
      from _ (transfer_outcome draws id requester_id request key now others db)
    where
      from :
          (o : Answer)
          → TransferOutcome draws id requester_id request key now others db o
          → o ≡ (ok (t, find_wallet id db), db)
      from (r, db') (inl (same, _, _)) = elim (distinct same) [ ]
      from (r, db') (inr (_, h')) =
          answer_of (given key) id db
            (LockedTransferOutcome draws id requester_id request key now (others db)) t (r, db') h
            h'

  -- A withdrawal that went through has recorded its key, unless the key is empty.
  pub withdraw_records :
      (request : WithdrawalRequest) (c : ℕ) (key : Text) (t : Transaction) (w : Option Wallet)
      (after : Db)
      → with_session others now (withdraw draws id requester_id request (some (c ∷ key))) db
        ≡ (ok (t, w), after)
      → recorded (given (some (c ∷ key))) after ≡ some t
  withdraw_records request c key t w after e = from (
      subst
        (WithReplay (some (c ∷ key)) id db
          (WithdrawalOutcome draws id requester_id request (some (c ∷ key)) now (others db)))
        e (withdraw_outcome draws id requester_id request (some (c ∷ key)) now others db))
    where
      from :
          WithReplay
            (some (c ∷ key))
            id
            db
            (WithdrawalOutcome draws id requester_id request (some (c ∷ key)) now (others db))
            (ok (t, w), after)
          → recorded (some (c ∷ key)) after ≡ some t
      from (inl (t', h, er, ed)) = rw (ed, h) (cc er)
      from (inr (_, d)) =
          let m = withdrawal_move d.wallet request.amount (some (c ∷ key)) in
          ap (recorded (some (c ∷ key))) d.state
          ∙ recorded-posted c key (rows_of draws m (others db).next_seq now)
              (set_wallet (withdrawn_wallet d.wallet request.amount) (others db).wallets)
              (others db) refl
          ∙ cc d.answered

  -- A transfer that went through has recorded its key, unless the key is empty.
  pub transfer_records :
      (request : TransferRequest) (c : ℕ) (key : Text) (t : Transaction) (w : Option Wallet)
      (after : Db)
      → with_session others now (transfer draws id requester_id request (some (c ∷ key))) db
        ≡ (ok (t, w), after)
      → recorded (given (some (c ∷ key))) after ≡ some t
  transfer_records request c key t w after e = from (
      subst (TransferOutcome draws id requester_id request (some (c ∷ key)) now others db) e
        (transfer_outcome draws id requester_id request (some (c ∷ key)) now others db))
    where
      from :
          TransferOutcome draws id requester_id request
            (some (c ∷ key))
            now
            others
            db
            (ok (t, w), after)
          → recorded (some (c ∷ key)) after ≡ some t
      from (inl (_, bad, _)) = cc bad
      from (inr (_, inl (t', h, er, ed))) = rw (ed, h) (cc er)
      from (inr (_, inr (_, d))) =
          let m = transfer_move d.sender d.recipient request.amount (some (c ∷ key)) in
          ap (recorded (some (c ∷ key))) d.state
          ∙ recorded-posted c key (rows_of draws m (others db).next_seq now)
              (transferred_wallets d.sender d.recipient request.amount (others db).wallets)
              (others db) refl
          ∙ cc d.answered
