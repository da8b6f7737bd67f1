-- ===== src/Ledger/Success.antt =====
-- When the database accepts what an operation writes: the drawn uuids are new, and the figures fit
-- their columns.
pub mod Deposit
pub mod Withdraw
pub mod Transfer
use distributed_wallet_ledge.Base.{
  ℕ, ◌≡◌, ◌≢◌, ==_ne, ==_refl, ◌==◌, ◌&&◌, Bool-cases, refl, sym, subst, ◌∙◌, ap, ◌⊎◌, inl, inr,
  Bool, true, false, Option, none, some, List, [], ◌∷◌, arith,
}
use distributed_wallet_ledge.Base.Int.{ℤ, pos, ◌+ℤ◌, ◌-ℤ◌, ◌≤ℤ◌, ◌<ℤ◌, ltb_ℤ, not_both, fits_bigint}
use distributed_wallet_ledge.Base.Text.{Text, codes, upper}
use distributed_wallet_ledge.Base.Rows.{find, exists, All, exists_of_find}
use distributed_wallet_ledge.Schema.{
  Transaction, Wallet, TransactionType, deposit as deposit_type, withdrawal,
  transfer as transfer_type,
}
use distributed_wallet_ledge.Schema.Requests.{DepositRequest, TransferRequest, WithdrawalRequest}
use distributed_wallet_ledge.Database.{
  Db, Violation, find_wallet, key_taken, fits_varchar, wallet_exists, exactly_one_side,
  transaction_violation, entry_violation, event_violation, balance_violation,
}
use distributed_wallet_ledge.Session.{Result, ok, err, with_session, Error}
use distributed_wallet_ledge.Repositories.Transactions.{opened, add_transaction}
use distributed_wallet_ledge.Ledger.{Draws, given, deposit, transfer, withdraw}
use distributed_wallet_ledge.Ledger.Posting.{
  Move, Posting, rows_of, half_posted, IsAccepted, IsWritten, Refusal, SomeRefused, transaction,
  first_leg, second_leg, balance, event, find_self,
}

-- No row of the database has one of the drawn uuids.
pub record IsFresh (draws : Draws) (db : Db) : Type 0 where
  pub transaction : exists (λ r. r.id == draws.transaction_id) db.transactions ≡ false
  pub first_entry : exists (λ r. r.id == draws.first_entry_id) db.ledger_entries ≡ false
  pub second_entry : exists (λ r. r.id == draws.second_entry_id) db.ledger_entries ≡ false
  pub two_entries : draws.first_entry_id ≢ draws.second_entry_id
  pub event : exists (λ r. r.id == draws.event_id) db.outbox_events ≡ false

-- What the move writes fits its columns, and its legs name one side each.
pub record Fits (m : Move) (db : Db) : Type 0 where
  pub currency : fits_varchar 3 (some m.currency) ≡ true
  pub key : fits_varchar 255 m.key ≡ true
  pub new_key : key_taken m.key db ≡ false
  pub amount : fits_bigint m.amount ≡ true
  pub positive : ltb_ℤ (pos 0) m.amount ≡ true
  pub first_account : fits_varchar 50 m.first_account ≡ true
  pub second_account : fits_varchar 50 m.second_account ≡ true
  pub first_side : exactly_one_side m.first_wallet m.first_account ≡ true
  pub second_side : exactly_one_side m.second_wallet m.second_account ≡ true
  pub first_wallet : wallet_exists m.first_wallet db ≡ true
  pub second_wallet : wallet_exists m.second_wallet db ≡ true

still_there :
    (o : Option ℕ) (db db' : Db)
    → db'.wallets ≡ db.wallets
    → wallet_exists o db ≡ true
    → wallet_exists o db' ≡ true
still_there none db db' e h = refl
still_there (some id) db db' e h = rw (e, h)

module _ (draws : Draws) (m : Move) (seq now : ℕ) (db : Db) where
  fresh-IsWritten : IsFresh draws db → Fits m db → IsWritten (rows_of draws m seq now) db
  unfolding transaction_violation entry_violation
  fresh-IsWritten fresh fits = record {
    transaction = rw (fits.currency, fits.key, fresh.transaction, fits.new_key);
    first_leg = rw (
      fits.amount,
      fits.currency,
      fits.first_account,
      fits.positive,
      fits.first_side,
      fresh.first_entry,
      ==_refl draws.transaction_id,
      still_there m.first_wallet db (add_transaction (rows_of draws m seq now).txn db) refl
          fits.first_wallet,
    );
    second_leg = rw (
      fits.amount,
      fits.currency,
      fits.second_account,
      fits.positive,
      fits.second_side,
      ==_ne draws.first_entry_id draws.second_entry_id fresh.two_entries,
      fresh.second_entry,
      ==_refl draws.transaction_id,
      still_there m.second_wallet db (half_posted (rows_of draws m seq now) db) refl
          fits.second_wallet,
    );
  }

  pub fresh-IsAccepted :
      (balances : List ℤ)
      → IsFresh draws db
      → Fits m db
      → All (λ b. balance_violation b ≡ none) balances
      → IsAccepted (rows_of draws m seq now) balances db
  unfolding event_violation
  fresh-IsAccepted balances fresh fits hold = record {
    written = fresh-IsWritten fresh fits;
    balance = hold;
    event = rw fresh.event;
  }

no_balance_refused :
    (bs : List ℤ) (v : Violation) → All (λ b. balance_violation b ≡ none) bs → SomeRefused bs v → ⊥
no_balance_refused [] v _ x = elim x [ ]
no_balance_refused (b ∷ bs) v (h, _) (inl e) = cc (h, e)
no_balance_refused (b ∷ bs) v (_, hs) (inr e) = no_balance_refused bs v hs e

pub accepted_not_refused :
    (p : Posting) (bs : List ℤ) (db : Db) (v : Violation)
    → IsAccepted p bs db
    → Refusal p bs db v
    → ⊥
accepted_not_refused p bs db v a (transaction e) = cc (a.written.transaction, e)
accepted_not_refused p bs db v a (first_leg _ e) = cc (a.written.first_leg, e)
accepted_not_refused p bs db v a (second_leg _ _ e) = cc (a.written.second_leg, e)
accepted_not_refused p bs db v a (balance _ r) = no_balance_refused bs v a.balance r
accepted_not_refused p bs db v a (event _ _ e) = cc (a.event, e)

pub present :
    (id : ℕ) (w : Wallet) (db : Db)
    → find_wallet id db ≡ some w
    → wallet_exists (some w.id) db ≡ true
present id w db h = exists_of_find (λ r. r.id == w.id) db.wallets w (find_self id w db.wallets h)

pub unrecorded : {o : Option Transaction} {t : Transaction} → o ≡ none → o ≡ some t → ⊥
unrecorded h k = cc (h, k)

pub unfound : {o : Option Wallet} {w : Wallet} → o ≡ some w → o ≡ none → ⊥
unfound h k = cc (h, k)

-- A wallet that was found is the one that the guards read.
pub the_row :
    (id : ℕ) (db : Db) (w : Wallet)
    → find_wallet id db ≡ some w
    → (a : Wallet) → find_wallet id db ≡ some a
    → w ≡ a
the_row id db w found a h = cc (found, h)

pub not_missing :
    (id : ℕ) (db : Db) (w : Wallet) → find_wallet id db ≡ some w → find_wallet id db ≡ none → ⊥
not_missing id db w found h = cc (found, h)

pub same_owner :
    (id user : ℕ) (db : Db) (w : Wallet)
    → find_wallet id db ≡ some w
    → w.user_id ≡ user
    → (a : Wallet) → find_wallet id db ≡ some a
    → a.user_id ≡ user
same_owner id user db w found owned a h =
    ap (λ (q : Wallet). q.user_id) (sym (the_row id db w found a h)) ∙ owned

pub same_code :
    (id : ℕ) (db : Db) (w : Wallet)
    → find_wallet id db ≡ some w
    → (code : Text) (a : Wallet) → w.currency ≡ code
    → find_wallet id db ≡ some a
    → a.currency ≡ code
same_code id db w found code a e h =
    ap (λ (q : Wallet). q.currency) (sym (the_row id db w found a h)) ∙ e
