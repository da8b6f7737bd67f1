-- ===== src/History/Keys.antt =====
-- Idempotency keys over histories: a recorded key stays recorded, so that a retry at any later time
-- gets the first answer.
use distributed_wallet_ledge.Base.{
  ℕ, ◌≡◌, ◌≢◌, refl, sym, subst, inl, inr, true, false, Bool-cases, Option, none, some, List, ◌∷◌,
  arith,
}
use distributed_wallet_ledge.Base.Text.{Text, text_eq, text_eq_sound}
use distributed_wallet_ledge.Base.Rows.{exists_of_find}
use distributed_wallet_ledge.Schema.{User, Transaction, Wallet}
use distributed_wallet_ledge.Schema.Requests.{
  TransferRequest, WithdrawalRequest, DepositRequest, WalletCreate, UserCreate,
}
use distributed_wallet_ledge.Database.{
  Db, find_wallet, find_key, key_is, key_taken, set_wallet, transaction_violation,
}
use distributed_wallet_ledge.Session.{Result, ok, err, with_session}
use distributed_wallet_ledge.WalletService.Creation.{
  Creation, taken, rejected, created, create_wallet_outcome,
}
use distributed_wallet_ledge.Users.Registration.{
  Registration, taken as registered_before, rejected as not_registered, registered,
  register_outcome,
}
use distributed_wallet_ledge.Ledger.{Draws, given, transfer, withdraw}
use distributed_wallet_ledge.Ledger.Posting.{Posting, posted, rows_of}
use distributed_wallet_ledge.Ledger.Deposit.{
  DepositOutcome, deposit_outcome, deposit_move, deposited_wallet,
}
use distributed_wallet_ledge.Ledger.Replay.{WithReplay}
use distributed_wallet_ledge.Ledger.Withdraw.{
  WithdrawalOutcome, withdraw_outcome, withdrawal_move, withdrawn_wallet,
}
use distributed_wallet_ledge.Ledger.Transfer.{TransferOutcome, transfer_outcome}
use distributed_wallet_ledge.Ledger.Transferred.{transfer_move, transferred_wallets}
use distributed_wallet_ledge.Ledger.Idempotent.{
  transfer_records, transfer_replays, withdraw_records, withdraw_replays,
}
use distributed_wallet_ledge.Invariant.Events.{
  publish_round_keeps, handle_event_keeps, counted_in_keeps,
}
use distributed_wallet_ledge.History.{
  Step, History, registers, opens, deposits, withdraws, transfers, publishes, counts, here, next,
}

key_is_free :
    (p : Posting) (db : Db)
    → transaction_violation p.txn db ≡ none
    → key_taken p.txn.idempotency_key db ≡ false
unfolding transaction_violation
key_is_free p db h = ground arith

module _ (key : Text) (t : Transaction) where
  other_key :
      (o : Option Text) (db : Db)
      → key_taken o db ≡ false
      → find_key key db ≡ some t
      → key_is key o ≡ false
  other_key none db h e = refl
  other_key (some k) db h e = elim (Bool-cases (text_eq k key)) [
    | inl same ↦ cc (
      h,
      subst (λ j. key_taken (some j) db ≡ true) (sym (text_eq_sound k key same))
          (exists_of_find _ db.transactions t e),
    )
    | inr ne ↦ ne
  ]

  -- A posting leaves the keys that are recorded.
  posted_keeps :
      (p : Posting) (wallets : List Wallet) (db : Db)
      → transaction_violation p.txn db ≡ none
      → find_key key db ≡ some t
      → find_key key (posted p wallets db) ≡ some t
  posted_keeps p wallets db h e = rw (other_key p.txn.idempotency_key db (key_is_free p db h) e, e)

  abbrev Kept : Db → Type 0
  Kept db = find_key key db ≡ some t

  module _ (id user now : ℕ) (others : Db → Db) (db : Db) (start : Kept db)
      (meanwhile : Kept (others db)) where
    Creation-keeps :
        (request : WalletCreate) (r : Result Wallet) (after : Db)
        → Creation id user request now db (others db) r after
        → Kept after
    Creation-keeps request r after (taken _ _ _ e) = subst Kept (sym e) start
    Creation-keeps request r after (rejected _ _ _ _ e) = subst Kept (sym e) meanwhile
    Creation-keeps request r after (created _ _ _ e) = subst Kept (sym e) meanwhile

    Registration-keeps :
        (hash : Text → Text) (request : UserCreate) (r : Result User) (after : Db)
        → Registration hash id request now db (others db) r after
        → Kept after
    Registration-keeps hash request r after (registered_before _ _ _ e) = subst Kept (sym e) start
    Registration-keeps hash request r after (not_registered _ _ _ _ e) =
        subst Kept (sym e) meanwhile
    Registration-keeps hash request r after (registered _ _ _ e) = subst Kept (sym e) meanwhile

  module _ (draws : Draws) (id user now : ℕ) (others : Db → Db) (db : Db) (start : Kept db)
      (meanwhile : Kept (others db)) where
    posting_keeps :
        (p : Posting) (wallets : List Wallet) (after : Db)
        → transaction_violation p.txn (others db) ≡ none
        → after ≡ posted p wallets (others db)
        → Kept after
    posting_keeps p wallets after h e =
        subst Kept (sym e) (posted_keeps p wallets (others db) h meanwhile)

    deposit_keeps :
        (request : DepositRequest) (o : Result (Transaction × Wallet) × Db)
        → DepositOutcome draws id user request now (others db) o
        → Kept o.1
    deposit_keeps request (ok a, after) d =
        posting_keeps
          (rows_of draws (deposit_move d.wallet request.amount) (others db).next_seq now)
          (set_wallet (deposited_wallet d.wallet request.amount) (others db).wallets) after
          d.accepted.written.transaction d.state
    deposit_keeps request (err e, after) h = subst Kept (sym h.0) meanwhile

    withdraw_keeps :
        (request : WithdrawalRequest) (k : Option Text)
        (o : Result (Transaction × Option Wallet) × Db)
        → WithReplay (given k) id db (WithdrawalOutcome draws id user request k now (others db)) o
        → Kept o.1
    withdraw_keeps request k (r, after) (inl (_, _, _, e)) = subst Kept (sym e) start
    withdraw_keeps request k (ok a, after) (inr (_, d)) =
        posting_keeps
          (rows_of draws (withdrawal_move d.wallet request.amount k) (others db).next_seq now)
          (set_wallet (withdrawn_wallet d.wallet request.amount) (others db).wallets) after
          d.accepted.written.transaction d.state
    withdraw_keeps request k (err e, after) (inr (_, h)) = subst Kept (sym h.0) meanwhile

    transfer_keeps :
        (request : TransferRequest) (k : Option Text)
        (o : Result (Transaction × Option Wallet) × Db)
        → TransferOutcome draws id user request k now others db o
        → Kept o.1
    transfer_keeps request k (r, after) (inl (_, _, e)) = subst Kept (sym e) start
    transfer_keeps request k (r, after) (inr (_, inl (_, _, _, e))) = subst Kept (sym e) start
    transfer_keeps request k (ok a, after) (inr (_, inr (_, d))) =
        posting_keeps
          (rows_of draws (transfer_move d.sender d.recipient request.amount k) (others db).next_seq
            now)
          (transferred_wallets d.sender d.recipient request.amount (others db).wallets) after
          d.accepted.written.transaction d.state
    transfer_keeps request k (err e, after) (inr (_, inr (_, h))) = subst Kept (sym h.0) meanwhile

  mutual
    Step-keeps : {db db' : Db} → Step db db' → Kept db → Kept db'
    Step-keeps {db} (registers others now hash id request h e) k = subst Kept (sym e) (
        Registration-keeps id 0 now others db k (History-keeps h k) hash request _ _
          (register_outcome hash id request now others db))
    Step-keeps {db} (opens others now id owner request h e) k = subst Kept (sym e) (
        Creation-keeps id owner now others db k (History-keeps h k) request _ _
          (create_wallet_outcome id owner request now others db))
    Step-keeps {db} (deposits others now draws id user request h e) k = subst Kept (sym e) (
        deposit_keeps draws id user now others db k (History-keeps h k) request _
          (deposit_outcome draws id user request now others db))
    Step-keeps {db} (withdraws others now draws id user request key' h e) k = subst Kept (sym e) (
        withdraw_keeps draws id user now others db k (History-keeps h k) request key' _
          (withdraw_outcome draws id user request key' now others db))
    Step-keeps {db} (transfers others now draws id user request key' h e) k = subst Kept (sym e) (
        transfer_keeps draws id user now others db k (History-keeps h k) request key' _
          (transfer_outcome draws id user request key' now others db))
    Step-keeps {db} (publishes deliver batch_size time now e) k =
        subst Kept (sym e) (publish_round_keeps Kept deliver batch_size time now db k (λ batch. k))
    Step-keeps {db} (counts others now payload h e) k = subst Kept (sym e) (
        handle_event_keeps Kept payload now others db k (History-keeps h k)
          (counted_in_keeps Kept payload (others db) (λ stats inbox. History-keeps h k)))

    History-keeps : {db db' : Db} → History db db' → Kept db → Kept db'
    History-keeps here k = k
    History-keeps (next h s) k = Step-keeps s (History-keeps h k)

module _ (c : ℕ) (rest : Text) where
  abbrev the_key : Option Text
  the_key = some (c ∷ rest)

  -- After a transfer with a non-empty key went through, and after any history, a
  -- transfer between different wallets with the same key returns the first transaction, together
  -- with the row of the wallet in its path, and changes nothing: the key moves money once.
  pub transfer_once :
      (draws draws' : Draws) (id user now id' user' now' : ℕ) (others others' : Db → Db)
      (request request' : TransferRequest) (t : Transaction) (w : Option Wallet) (db after db' : Db)
      → with_session others now (transfer draws id user request the_key) db ≡ (ok (t, w), after)
      → History after db'
      → id' ≢ request'.recipient_wallet_id
      → with_session others' now' (transfer draws' id' user' request' the_key) db'
        ≡ (ok (t, find_wallet id' db'), db')
  transfer_once draws draws' id user now id' user' now' others others' request request' t w db after
        db' e h ne =
      transfer_replays draws' id' user' now' others' db' request' the_key t
        (History-keeps (c ∷ rest) t h
          (transfer_records draws id user now others db request c rest t w after e))
        ne

  -- After a withdrawal with a non-empty key went through, and after any history, a
  -- withdrawal with the same key returns the first transaction, together with the row of the wallet
  -- in its path, and changes nothing.
  pub withdraw_once :
      (draws draws' : Draws) (id user now id' user' now' : ℕ) (others others' : Db → Db)
      (request request' : WithdrawalRequest) (t : Transaction) (w : Option Wallet)
      (db after db' : Db)
      → with_session others now (withdraw draws id user request the_key) db ≡ (ok (t, w), after)
      → History after db'
      → with_session others' now' (withdraw draws' id' user' request' the_key) db'
        ≡ (ok (t, find_wallet id' db'), db')
  withdraw_once draws draws' id user now id' user' now' others others' request request' t w db after
        db' e h =
      withdraw_replays draws' id' user' now' others' db' request' the_key t (
        History-keeps (c ∷ rest) t h
          (withdraw_records draws id user now others db request c rest t w after e))
