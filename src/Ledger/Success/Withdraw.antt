-- ===== src/Ledger/Success/Withdraw.antt =====
-- `LedgerService.withdraw` goes through when its guards pass and its rows are new and fit: no branch of
-- the code refuses it.
use distributed_wallet_ledge.Base.{
  ℕ, ◌≡◌, refl, sym, subst, ◌∙◌, ap, inl, inr, true, false, Option, none, some, [], ◌∷◌,
}
use distributed_wallet_ledge.Base.Int.{pos, ◌-ℤ◌, ◌≤ℤ◌, ◌<ℤ◌, ltb_ℤ, not_both, fits_bigint}
use distributed_wallet_ledge.Base.Text.{Text, upper}
use distributed_wallet_ledge.Schema.{Transaction, Wallet}
use distributed_wallet_ledge.Schema.Requests.{WithdrawalRequest}
use distributed_wallet_ledge.Database.{Db, find_wallet, key_taken, fits_varchar, balance_violation}
use distributed_wallet_ledge.Session.{Result, ok, err, with_session, Error}
use distributed_wallet_ledge.Ledger.{Draws, given, withdraw}
use distributed_wallet_ledge.Ledger.Posting.{rows_of, IsAccepted, Refusal}
use distributed_wallet_ledge.Ledger.Replay.{recorded, WithReplay}
use distributed_wallet_ledge.Ledger.Withdraw.{
  WithdrawalOutcome, withdraw_outcome, withdrawal_move, withdrawn_wallet, WithdrawalFailure,
  missing as no_wallet, foreign as not_owner, mismatch as other_currency, short as overdrawn,
  rejected as not_written,
}
use distributed_wallet_ledge.Ledger.Success.{
  IsFresh, fresh-IsAccepted, accepted_not_refused, present,
}
use distributed_wallet_ledge.Ledger.Success.{
  the_row, not_missing, same_owner, same_code, unrecorded,
}

-- What the operation needs of the caller's wallet `w`, of the drawn uuids and of the currency.
module _ (draws : Draws) (id user now : ℕ) (others : Db → Db) (db : Db) (w : Wallet)
    (fresh : IsFresh draws (others db)) (found : find_wallet id (others db) ≡ some w)
    (owned : w.user_id ≡ user) (short_code : fits_varchar 3 (some w.currency) ≡ true) where
  module _ (request : WithdrawalRequest) (key : Option Text) (new : recorded (given key) db ≡ none)
      (new_key : key_taken key (others db) ≡ false) (key_fits : fits_varchar 255 key ≡ true)
      (currency : w.currency ≡ upper request.currency)
      (positive : ltb_ℤ (pos 0) request.amount ≡ true) (fits : fits_bigint request.amount ≡ true)
      (funds : request.amount ≤ℤ w.available_balance)
      (fine : balance_violation (w.available_balance -ℤ request.amount) ≡ none) where
    withdrawal-IsAccepted :
        IsAccepted
          (rows_of draws (withdrawal_move w request.amount key) (others db).next_seq now)
          ((w.available_balance -ℤ request.amount) ∷ [])
          (others db)
    withdrawal-IsAccepted =
        fresh-IsAccepted draws (withdrawal_move w request.amount key) (others db).next_seq now
          (others db) ((w.available_balance -ℤ request.amount) ∷ []) fresh
          (record {
            currency = short_code;
            key = key_fits;
            new_key = new_key;
            amount = fits;
            positive = positive;
            first_account = refl;
            second_account = refl;
            first_side = refl;
            second_side = refl;
            first_wallet = present id w (others db) found;
            second_wallet = refl;
          })
          (fine, tt)

    withdrawal_cannot_fail :
        (e : Error) → WithdrawalFailure draws id user request key now (others db) e → ⊥
    withdrawal_cannot_fail e (no_wallet h _) = not_missing id (others db) w found h
    withdrawal_cannot_fail e (not_owner a h n _) =
        n (same_owner id user (others db) w found owned a h)
    withdrawal_cannot_fail e (other_currency a h _ n _) =
        n (same_code id (others db) w found _ a currency h)
    withdrawal_cannot_fail e (overdrawn a h _ _ less _) =
        not_both w.available_balance request.amount funds (
          subst (λ q. q.available_balance <ℤ request.amount)
            (sym (the_row id (others db) w found a h)) less)
    withdrawal_cannot_fail e (not_written a v h _ _ _ r _) =
        accepted_not_refused _ _ (others db) v withdrawal-IsAccepted (
          subst
            (λ (q : Wallet).
              Refusal
                (rows_of draws (withdrawal_move q request.amount key) (others db).next_seq now)
                ((q.available_balance -ℤ request.amount) ∷ []) (others db) v)
            (sym (the_row id (others db) w found a h)) r)

    -- A withdrawal of a positive amount, which the wallet covers, in the currency of one's own
    -- wallet goes through, if its key is not recorded, the drawn uuids are new, and the key, the
    -- currency, the amount and the new balance fit their columns: the answer shows the old balance
    -- less the amount.
    pub withdraw_succeeds :
        (t : Transaction) × (after : Db) × (with_session others now
            (withdraw draws id user request key)
            db
          ≡ (ok (t, some (withdrawn_wallet w request.amount)), after))
    withdraw_succeeds = from _ (withdraw_outcome draws id user request key now others db)
      where
        from :
            (o : Result (Transaction × Option Wallet) × Db)
            → WithReplay
                (given key)
                id
                db
                (WithdrawalOutcome draws id user request key now (others db))
                o
            → (t : Transaction) × (after : Db) × (o
                ≡ (ok (t, some (withdrawn_wallet w request.amount)), after))
        from (r, after) (inl (t, h, _, _)) = elim (unrecorded new h) [ ]
        from (ok (t, x), after) (inr (_, d)) = (
          t,
          after,
          ap (λ q. (ok (t, q), after))
              (ap (λ p. p.1) d.answered
                ∙ ap (λ q. some (withdrawn_wallet q request.amount))
                    (sym (the_row id (others db) w found d.wallet d.found))),
        )
        from (err e, after) (inr (_, (_, why))) = elim (withdrawal_cannot_fail e why) [ ]
