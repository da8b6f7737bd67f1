-- ===== src/Ledger/Success/Deposit.antt =====
-- `LedgerService.deposit` goes through when its guards pass and its rows are new and fit: no branch of
-- the code refuses it.
use distributed_wallet_ledge.Base.{ℕ, ◌≡◌, refl, sym, subst, ◌∙◌, ap, true, none, some, [], ◌∷◌}
use distributed_wallet_ledge.Base.Int.{pos, ◌+ℤ◌, ltb_ℤ, fits_bigint}
use distributed_wallet_ledge.Base.Text.{upper}
use distributed_wallet_ledge.Schema.{Transaction, Wallet}
use distributed_wallet_ledge.Schema.Requests.{DepositRequest}
use distributed_wallet_ledge.Database.{Db, find_wallet, fits_varchar, balance_violation}
use distributed_wallet_ledge.Session.{Result, ok, err, with_session, Error}
use distributed_wallet_ledge.Ledger.{Draws, deposit}
use distributed_wallet_ledge.Ledger.Posting.{rows_of, IsAccepted, Refusal}
use distributed_wallet_ledge.Ledger.Deposit.{
  DepositOutcome, deposit_outcome, deposit_move, deposited_wallet, DepositFailure, missing, foreign,
  mismatch, rejected,
}
use distributed_wallet_ledge.Ledger.Success.{
  IsFresh, fresh-IsAccepted, accepted_not_refused, present,
}
use distributed_wallet_ledge.Ledger.Success.{the_row, not_missing, same_owner, same_code}

-- What the operation needs of the caller's wallet `w`, of the drawn uuids and of the currency.
module _ (draws : Draws) (id user now : ℕ) (others : Db → Db) (db : Db) (w : Wallet)
    (fresh : IsFresh draws (others db)) (found : find_wallet id (others db) ≡ some w)
    (owned : w.user_id ≡ user) (short_code : fits_varchar 3 (some w.currency) ≡ true) where
  module _ (request : DepositRequest) (currency : w.currency ≡ upper request.currency)
      (positive : ltb_ℤ (pos 0) request.amount ≡ true) (fits : fits_bigint request.amount ≡ true)
      (fine : balance_violation (w.available_balance +ℤ request.amount) ≡ none) where
    deposit-IsAccepted :
        IsAccepted
          (rows_of draws (deposit_move w request.amount) (others db).next_seq now)
          ((w.available_balance +ℤ request.amount) ∷ [])
          (others db)
    deposit-IsAccepted =
        fresh-IsAccepted draws (deposit_move w request.amount) (others db).next_seq now (others db)
          ((w.available_balance +ℤ request.amount) ∷ []) fresh
          (record {
            currency = short_code;
            key = refl;
            new_key = refl;
            amount = fits;
            positive = positive;
            first_account = refl;
            second_account = refl;
            first_side = refl;
            second_side = refl;
            first_wallet = present id w (others db) found;
            second_wallet = refl;
          })
          (fine, tt)

    deposit_cannot_fail : (e : Error) → DepositFailure draws id user request now (others db) e → ⊥
    deposit_cannot_fail e (missing h _) = not_missing id (others db) w found h
    deposit_cannot_fail e (foreign a h n _) = n (same_owner id user (others db) w found owned a h)
    deposit_cannot_fail e (mismatch a h _ n _) = n (same_code id (others db) w found _ a currency h)
    deposit_cannot_fail e (rejected a v h _ _ r _) =
        accepted_not_refused _ _ (others db) v deposit-IsAccepted (
          subst
            (λ (q : Wallet).
              Refusal (rows_of draws (deposit_move q request.amount) (others db).next_seq now)
                ((q.available_balance +ℤ request.amount) ∷ []) (others db) v)
            (sym (the_row id (others db) w found a h)) r)

    -- A deposit of a positive amount in the currency of one's own wallet goes through, if the drawn
    -- uuids are new, the currency has at most three characters, and the amount and the new balance
    -- fit a BIGINT: the answer shows the old balance plus the amount.
    pub deposit_succeeds :
        (t : Transaction) × (after : Db) × (with_session others now
            (deposit draws id user request)
            db
          ≡ (ok (t, deposited_wallet w request.amount), after))
    deposit_succeeds = from _ (deposit_outcome draws id user request now others db)
      where
        from :
            (o : Result (Transaction × Wallet) × Db)
            → DepositOutcome draws id user request now (others db) o
            → (t : Transaction) × (after : Db) × (o
                ≡ (ok (t, deposited_wallet w request.amount), after))
        from (ok (t, x), after) d = (
          t,
          after,
          ap (λ q. (ok (t, q), after))
              (ap (λ p. p.1) d.answered
                ∙ ap (λ q. deposited_wallet q request.amount)
                    (sym (the_row id (others db) w found d.wallet d.found))),
        )
        from (err e, after) (_, why) = elim (deposit_cannot_fail e why) [ ]
