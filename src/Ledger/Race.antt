-- ===== src/Ledger/Race.antt =====
-- Two requests with one idempotency key at the same time: the request that loses the race. Its
-- INSERT is refused at the flush of `TransactionRepository.create`, before the `try` of the commit.
use distributed_wallet_ledge.Base.{
  ℕ, ◌≡◌, ◌≢◌, ◌==◌, Bool-cases, refl, sym, subst, ◌∙◌, ap, inl, inr, true, Option, none, some,
  List, ◌∷◌,
}
use distributed_wallet_ledge.Base.Int.{ℤ, not_both, ◌≤ℤ◌, ◌<ℤ◌}
use distributed_wallet_ledge.Base.Text.{Text, upper}
use distributed_wallet_ledge.Base.Rows.{exists, exists_of_find}
use distributed_wallet_ledge.Schema.{
  Transaction, Wallet, TransactionType, withdrawal, transfer as transfer_type,
}
use distributed_wallet_ledge.Schema.Requests.{TransferRequest, WithdrawalRequest}
use distributed_wallet_ledge.Database.{
  Db, Violation, integrity, find_wallet, find_key, key_is, fits_varchar, transaction_violation,
}
use distributed_wallet_ledge.Session.{Result, ok, err, with_session, Error, refused}
use distributed_wallet_ledge.Repositories.Transactions.{opened}
use distributed_wallet_ledge.Ledger.{Draws, transfer, withdraw}
use distributed_wallet_ledge.Ledger.Posting.{
  Posting, Refusal, rows_of, transaction, first_leg, second_leg, balance, event,
}
use distributed_wallet_ledge.Ledger.Replay.{recorded, WithReplay}
use distributed_wallet_ledge.Ledger.Withdraw.{
  WithdrawalOutcome, WithdrawalFailure, withdraw_outcome, withdrawal_move, missing, foreign,
  mismatch, short, rejected,
}
use distributed_wallet_ledge.Ledger.Transfer.{TransferOutcome, transfer_outcome}
use distributed_wallet_ledge.Ledger.Transferred.{
  TransferFailure, transfer_move, missing as no_sender, foreign as not_owner, no_recipient,
  mismatch as other_currency, short as overdrawn, rejected as not_written,
}

-- A transaction whose columns fit and whose key is recorded is refused for its key.
key_refused :
    (c : ℕ) (key : Text) (t txn : Transaction) (db : Db)
    → txn.idempotency_key ≡ some (c ∷ key)
    → fits_varchar 3 (some txn.currency) ≡ true
    → fits_varchar 255 (some (c ∷ key)) ≡ true
    → find_key (c ∷ key) db ≡ some t
    → transaction_violation txn db ≡ some integrity
unfolding transaction_violation
key_refused c key t txn db e cur len h =
    rw (e, cur, len, exists_of_find (λ r. key_is (c ∷ key) r.idempotency_key) db.transactions t h)
      (elim (Bool-cases (exists (λ r. r.id == txn.id) db.transactions)) [
        | inl x ↦ rw x
        | inr x ↦ rw x
      ])

Refusal-integrity :
    (p : Posting) (balances : List ℤ) (db : Db) (v : Violation)
    → transaction_violation p.txn db ≡ some integrity
    → Refusal p balances db v
    → v ≡ integrity
Refusal-integrity p balances db v h (transaction e) = cc (h, e)
Refusal-integrity p balances db v h (first_leg e _) = cc (h, e)
Refusal-integrity p balances db v h (second_leg e _ _) = cc (h, e)
Refusal-integrity p balances db v h (balance w _) = cc (h, w.transaction)
Refusal-integrity p balances db v h (event w _ _) = cc (h, w.transaction)

module _ (draws : Draws) (id user now : ℕ) (others : Db → Db) (db : Db) (c : ℕ) (rest : Text)
    (t : Transaction) (w : Wallet) (new : recorded (some (c ∷ rest)) db ≡ none)
    (won : recorded (some (c ∷ rest)) (others db) ≡ some t)
    (found : find_wallet id (others db) ≡ some w) (owned : w.user_id ≡ user)
    (fits : fits_varchar 3 (some w.currency) ≡ true)
    (key_fits : fits_varchar 255 (some (c ∷ rest)) ≡ true) where
  abbrev the_key : Option Text
  the_key = some (c ∷ rest)

  same_row : (w' : Wallet) → find_wallet id (others db) ≡ some w' → w ≡ w'
  same_row w' h = cc (found, h)

  refused_row :
      (type : TransactionType) (w' : Wallet)
      → w ≡ w'
      → transaction_violation (opened draws.transaction_id type w'.currency the_key now) (others db)
        ≡ some integrity
  refused_row type w' e =
      key_refused c rest t (opened draws.transaction_id type w'.currency the_key now) (others db)
        refl (subst (λ q. fits_varchar 3 (some q.currency) ≡ true) e fits) key_fits won

  lost_withdrawal :
      (request : WithdrawalRequest)
      → w.currency ≡ upper request.currency
      → request.amount ≤ℤ w.available_balance
      → (e : Error) → WithdrawalFailure draws id user request the_key now (others db) e
      → e ≡ refused integrity
  lost_withdrawal request currency funds e (missing h _) = cc (found, h)
  lost_withdrawal request currency funds e (foreign w' h n _) =
      elim (n (ap (λ (q : Wallet). q.user_id) (sym (same_row w' h)) ∙ owned)) [ ]
  lost_withdrawal request currency funds e (mismatch w' h _ n _) =
      elim (n (ap (λ (q : Wallet). q.currency) (sym (same_row w' h)) ∙ currency)) [ ]
  lost_withdrawal request currency funds e (short w' h _ _ less _) =
      elim (not_both w.available_balance request.amount funds
        (subst (λ q. q.available_balance <ℤ request.amount) (sym (same_row w' h)) less)) [ ]
  lost_withdrawal request currency funds e (rejected w' v h _ _ _ r f) =
      f
      ∙ ap refused (
          Refusal-integrity
            (rows_of draws (withdrawal_move w' request.amount the_key) (others db).next_seq now) _ _
            v (refused_row withdrawal w' (same_row w' h)) r)

  -- A withdrawal whose key is new at its start, and is recorded by another session while it waits
  -- for the row lock, with every guard passed, and a key and a currency that fit their columns: it raises the integrity error of the unique key, and
  -- does not answer with the transaction of the other session. Nothing is written.
  pub withdraw_race :
      (request : WithdrawalRequest)
      → w.currency ≡ upper request.currency
      → request.amount ≤ℤ w.available_balance
      → with_session others now (withdraw draws id user request the_key) db
        ≡ (err (refused integrity), others db)
  withdraw_race request currency funds =
      from _ (withdraw_outcome draws id user request the_key now others db)
    where
      from :
          (o : Result (Transaction × Option Wallet) × Db)
          → WithReplay the_key id db
              (WithdrawalOutcome draws id user request the_key now (others db))
              o
          → o ≡ (err (refused integrity), others db)
      from (r, db') (inl (t', h, _, _)) = cc (new, h)
      from (ok a, db') (inr (_, d)) = cc (
        d.accepted.written.transaction,
        refused_row withdrawal d.wallet (same_row d.wallet d.found),
      )
      from (err e, db') (inr (_, (same, why))) =
          rw (same, lost_withdrawal request currency funds e why)

  one_row :
      (id' : ℕ) (a b : Wallet)
      → find_wallet id' (others db) ≡ some a
      → find_wallet id' (others db) ≡ some b
      → a ≡ b
  one_row id' a b h k = cc (h, k)

  lost_transfer :
      (request : TransferRequest) (r : Wallet)
      → find_wallet request.recipient_wallet_id (others db) ≡ some r
      → w.currency ≡ upper request.currency
      → r.currency ≡ w.currency
      → request.amount ≤ℤ w.available_balance
      → (e : Error) → TransferFailure draws id user request the_key now (others db) e
      → e ≡ refused integrity
  lost_transfer request r found_r currency same_currency funds e (no_sender h _) = cc (found, h)
  lost_transfer request r found_r currency same_currency funds e (not_owner w' h n _) =
      elim (n (ap (λ (q : Wallet). q.user_id) (sym (same_row w' h)) ∙ owned)) [ ]
  lost_transfer request r found_r currency same_currency funds e (no_recipient w' h _ n _) =
      cc (found_r, n)
  lost_transfer request r found_r currency same_currency funds e (other_currency w' r' h _ k n _) =
      elim n [
        | inl n ↦ elim (n (ap (λ (q : Wallet). q.currency) (sym (same_row w' h)) ∙ currency)) [ ]
        | inr n ↦
            elim (n (
              ap (λ (q : Wallet). q.currency) (one_row request.recipient_wallet_id r' r k found_r)
              ∙ same_currency
              ∙ ap (λ (q : Wallet). q.currency) (same_row w' h))) [ ]
      ]
  lost_transfer request r found_r currency same_currency funds e
        (overdrawn w' r' h _ _ _ _ less _) =
      elim (not_both w.available_balance request.amount funds
        (subst (λ q. q.available_balance <ℤ request.amount) (sym (same_row w' h)) less)) [ ]
  lost_transfer request r found_r currency same_currency funds e
        (not_written w' r' v h _ _ _ _ _ f g) =
      g
      ∙ ap refused (
          Refusal-integrity
            (rows_of draws (transfer_move w' r' request.amount the_key) (others db).next_seq now) _
            _ v (refused_row transfer_type w' (same_row w' h)) f)

  -- A transfer between two different wallets whose key is new at its start, and is recorded by
  -- another session while it waits for the row locks, with every guard passed, and a key and
  -- a currency that fit their columns: it raises the integrity error of the unique key, and does not answer with the transaction of the other
  -- session. Nothing is written.
  pub transfer_race :
      (request : TransferRequest) (r : Wallet)
      → id ≢ request.recipient_wallet_id
      → find_wallet request.recipient_wallet_id (others db) ≡ some r
      → w.currency ≡ upper request.currency
      → r.currency ≡ w.currency
      → request.amount ≤ℤ w.available_balance
      → with_session others now (transfer draws id user request the_key) db
        ≡ (err (refused integrity), others db)
  transfer_race request r distinct found_r currency same_currency funds =
      from _ (transfer_outcome draws id user request the_key now others db)
    where
      from :
          (o : Result (Transaction × Option Wallet) × Db)
          → TransferOutcome draws id user request the_key now others db o
          → o ≡ (err (refused integrity), others db)
      from (q, db') (inl (same, _, _)) = elim (distinct same) [ ]
      from (q, db') (inr (_, inl (t', h, _, _))) = cc (new, h)
      from (ok a, db') (inr (_, inr (_, d))) = cc (
        d.accepted.written.transaction,
        refused_row transfer_type d.sender (same_row d.sender d.found_sender),
      )
      from (err e, db') (inr (_, inr (_, (same, why)))) =
          rw (same, lost_transfer request r found_r currency same_currency funds e why)
