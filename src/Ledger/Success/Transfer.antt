-- ===== src/Ledger/Success/Transfer.antt =====
-- `LedgerService.transfer` goes through when its guards pass and its rows are new and fit: no branch of
-- the code refuses it.
use distributed_wallet_ledge.Base.{
  ℕ, ◌≡◌, ◌≢◌, refl, sym, subst, ◌∙◌, ap, inl, inr, true, false, Option, none, some, [], ◌∷◌,
}
use distributed_wallet_ledge.Base.Int.{pos, ◌+ℤ◌, ◌-ℤ◌, ◌≤ℤ◌, ◌<ℤ◌, ltb_ℤ, not_both, fits_bigint}
use distributed_wallet_ledge.Base.Text.{Text, upper}
use distributed_wallet_ledge.Schema.{Transaction, Wallet}
use distributed_wallet_ledge.Schema.Requests.{TransferRequest}
use distributed_wallet_ledge.Database.{
  Db, Violation, find_wallet, key_taken, fits_varchar, balance_violation,
}
use distributed_wallet_ledge.Session.{Result, ok, err, with_session, Error}
use distributed_wallet_ledge.Ledger.{Draws, given, transfer}
use distributed_wallet_ledge.Ledger.Posting.{rows_of, IsAccepted, Refusal}
use distributed_wallet_ledge.Ledger.Replay.{recorded}
use distributed_wallet_ledge.Ledger.Transfer.{TransferOutcome, transfer_outcome}
use distributed_wallet_ledge.Ledger.Transferred.{
  transfer_move, debited_wallet, TransferFailure, missing as no_sender, foreign as not_sender,
  no_recipient, mismatch as mixed, short as too_little, rejected as not_moved,
}
use distributed_wallet_ledge.Ledger.Success.{
  IsFresh, fresh-IsAccepted, accepted_not_refused, present,
}
use distributed_wallet_ledge.Ledger.Success.{
  the_row, not_missing, same_owner, same_code, unrecorded, unfound,
}

-- What the operation needs of the caller's wallet `w`, of the drawn uuids and of the currency.
module _ (draws : Draws) (id user now : ℕ) (others : Db → Db) (db : Db) (w : Wallet)
    (fresh : IsFresh draws (others db)) (found : find_wallet id (others db) ≡ some w)
    (owned : w.user_id ≡ user) (short_code : fits_varchar 3 (some w.currency) ≡ true) where
  module _ (request : TransferRequest) (key : Option Text) (r : Wallet)
      (distinct : id ≢ request.recipient_wallet_id)
      (found_r : find_wallet request.recipient_wallet_id (others db) ≡ some r)
      (new : recorded (given key) db ≡ none) (new_key : key_taken key (others db) ≡ false)
      (key_fits : fits_varchar 255 key ≡ true) (currency : w.currency ≡ upper request.currency)
      (same_currency : r.currency ≡ w.currency) (positive : ltb_ℤ (pos 0) request.amount ≡ true)
      (fits : fits_bigint request.amount ≡ true) (funds : request.amount ≤ℤ w.available_balance)
      (fine : balance_violation (w.available_balance -ℤ request.amount) ≡ none)
      (fine_r : balance_violation (r.available_balance +ℤ request.amount) ≡ none) where
    the_recipient :
        (a : Wallet) → find_wallet request.recipient_wallet_id (others db) ≡ some a → r ≡ a
    the_recipient a h = cc (found_r, h)

    abbrev Refused : Violation → Wallet → Wallet → Type 0
    Refused v a b =
        Refusal (rows_of draws (transfer_move a b request.amount key) (others db).next_seq now)
          ((a.available_balance -ℤ request.amount) ∷ (b.available_balance +ℤ request.amount) ∷ [])
          (others db) v

    transfer-IsAccepted :
        IsAccepted
          (rows_of draws (transfer_move w r request.amount key) (others db).next_seq now)
          ((w.available_balance -ℤ request.amount) ∷ (r.available_balance +ℤ request.amount) ∷ [])
          (others db)
    transfer-IsAccepted =
        fresh-IsAccepted draws (transfer_move w r request.amount key) (others db).next_seq now
          (others db)
          ((w.available_balance -ℤ request.amount) ∷ (r.available_balance +ℤ request.amount) ∷ [])
          fresh
          (record {
            currency = short_code;
            key = key_fits;
            new_key = new_key;
            amount = fits;
            positive = positive;
            first_account = refl;
            second_account = refl;
            first_side = refl;
            second_side = refl;
            first_wallet = present id w (others db) found;
            second_wallet = present request.recipient_wallet_id r (others db) found_r;
          })
          (fine, (fine_r, tt))

    transfer_cannot_fail :
        (e : Error) → TransferFailure draws id user request key now (others db) e → ⊥
    transfer_cannot_fail e (no_sender h _) = not_missing id (others db) w found h
    transfer_cannot_fail e (not_sender a h n _) =
        n (same_owner id user (others db) w found owned a h)
    transfer_cannot_fail e (no_recipient a h _ n _) = unfound found_r n
    transfer_cannot_fail e (mixed a b h _ k n _) = elim n [
      | inl n ↦ n (same_code id (others db) w found _ a currency h)
      | inr n ↦ n (
          ap (λ (q : Wallet). q.currency) (sym (the_recipient b k))
          ∙ same_currency
          ∙ ap (λ (q : Wallet). q.currency) (the_row id (others db) w found a h))
    ]
    transfer_cannot_fail e (too_little a b h _ _ _ _ less _) =
        not_both w.available_balance request.amount funds (
          subst (λ q. q.available_balance <ℤ request.amount)
            (sym (the_row id (others db) w found a h)) less)
    transfer_cannot_fail e (not_moved a b v h _ k _ _ _ f _) =
        accepted_not_refused _ _ (others db) v transfer-IsAccepted (
          subst (λ q. Refused v q r) (sym (the_row id (others db) w found a h))
            (subst (Refused v a) (sym (the_recipient b k)) f))

    -- A transfer of a positive amount, which the sender covers, from one's own wallet to another of
    -- the same currency goes through, if its key is not recorded, the drawn uuids are new, and the
    -- key, the currency, the amount and both new balances fit their columns: the answer shows the
    -- sender's balance less the amount.
    pub transfer_succeeds :
        (t : Transaction) × (after : Db) × (with_session others now
            (transfer draws id user request key)
            db
          ≡ (ok (t, some (debited_wallet w request.amount)), after))
    transfer_succeeds = from _ (transfer_outcome draws id user request key now others db)
      where
        from :
            (o : Result (Transaction × Option Wallet) × Db)
            → TransferOutcome draws id user request key now others db o
            → (t : Transaction) × (after : Db) × (o
                ≡ (ok (t, some (debited_wallet w request.amount)), after))
        from (q, after) (inl (same, _, _)) = elim (distinct same) [ ]
        from (q, after) (inr (_, inl (t, h, _, _))) = elim (unrecorded new h) [ ]
        from (ok (t, x), after) (inr (_, inr (_, d))) = (
          t,
          after,
          ap (λ q. (ok (t, q), after))
              (ap (λ p. p.1) d.answered
                ∙ ap (λ q. some (debited_wallet q request.amount))
                    (sym (the_row id (others db) w found d.sender d.found_sender))),
        )
        from (err e, after) (inr (_, inr (_, (_, why)))) = elim (transfer_cannot_fail e why) [ ]
