-- ===== src/Api/Touches.antt =====
-- Which wallets' rows an operation of `LedgerService` may change.
use distributed_wallet_ledge.Base.{
  ℕ, ◌≡◌, ◌≢◌, refl, sym, ap, ◌∙◌, ◌==◌, ==_false, inl, inr, Bool, true, false, Bool-cases, Option,
  some, List, [], ◌∷◌, ◌||◌, arith,
}
use distributed_wallet_ledge.Base.Text.{Text}
use distributed_wallet_ledge.Base.Rows.{find}
use distributed_wallet_ledge.Schema.{Wallet, Transaction}
use distributed_wallet_ledge.Schema.Requests.{DepositRequest, WithdrawalRequest, TransferRequest}
use distributed_wallet_ledge.Database.{Db, find_wallet, set_wallet}
use distributed_wallet_ledge.Session.{Result, ok, err}
use distributed_wallet_ledge.Repositories.Wallets.Locks.{contains, same}
use distributed_wallet_ledge.Ledger.{Draws, given}
use distributed_wallet_ledge.Ledger.Posting.{find-id, find-set_wallet_ne}
use distributed_wallet_ledge.Ledger.Deposit.{DepositOutcome, deposited_wallet}
use distributed_wallet_ledge.Ledger.Replay.{WithReplay}
use distributed_wallet_ledge.Ledger.Withdraw.{WithdrawalOutcome, withdrawn_wallet}
use distributed_wallet_ledge.Ledger.Transfer.{TransferOutcome}
use distributed_wallet_ledge.Ledger.Transferred.{debited_wallet, credited_wallet}

-- An operation that raises changes nothing, and one that succeeds leaves the rows of all other
-- wallets than `ids` alone.
abbrev pub Touches : {A : Type 0} → List ℕ → Db → Result A × Db → Type 0
Touches ids db (err e, db') = db' ≡ db
Touches ids db (ok a, db') = (k : ℕ) → contains k ids ≡ false → find_wallet k db' ≡ find_wallet k db

untouched :
    {A : Type 0} (ids : List ℕ) (db : Db) (r : Result A) (db' : Db)
    → db' ≡ db
    → Touches ids db (r, db')
untouched ids db (ok a) db' e = λ k _. ap (find_wallet k) e
untouched ids db (err x) db' e = e

-- An UPDATE of the row that was found under `id`.
other_rows :
    (id k : ℕ) (x w : Wallet) (rows : List Wallet)
    → find (λ q. q.id == id) rows ≡ some w
    → x.id ≡ w.id
    → k ≢ id
    → find (λ q. q.id == k) (set_wallet x rows) ≡ find (λ q. q.id == k) rows
other_rows id k x w rows found same_id ne =
    find-set_wallet_ne k x rows (λ e. ne (e ∙ same_id ∙ find-id id w rows found))

not_in :
    (k id : ℕ) (ids : List ℕ) → contains k (id ∷ ids) ≡ false → (k ≢ id) × (contains k ids ≡ false)
not_in k id ids h = elim (Bool-cases (id == k)) [
  | inl e ↦ cc (clash (id == k) (contains k ids) e h)
  | inr e ↦ ((λ same. ==_false id k e (sym same)), rest (id == k) (contains k ids) e h)
]
  where
    clash : (a b : Bool) → a ≡ true → a || b ≡ false → true ≡ false
    clash a b e h = ground arith

    rest : (a b : Bool) → a ≡ false → a || b ≡ false → b ≡ false
    rest a b e h = ground arith

pub deposit-Touches :
    (draws : Draws) (id user now : ℕ) (request : DepositRequest) (db : Db)
    (o : Result (Transaction × Wallet) × Db)
    → DepositOutcome draws id user request now db o
    → Touches (id ∷ []) db o
deposit-Touches draws id user now request db (err e, db') h = h.0
deposit-Touches draws id user now request db (ok a, db') d = λ k h.
    ap (find_wallet k) d.state
    ∙ other_rows id k (deposited_wallet d.wallet request.amount) d.wallet db.wallets d.found refl
        (not_in k id [] h).0

pub withdraw-Touches :
    (draws : Draws) (id user now : ℕ) (request : WithdrawalRequest) (key : Option Text) (db : Db)
    (o : Result (Transaction × Option Wallet) × Db)
    → WithReplay (given key) id db (WithdrawalOutcome draws id user request key now db) o
    → Touches (id ∷ []) db o
withdraw-Touches draws id user now request key db (r, db') (inl (_, _, _, e)) =
    untouched (id ∷ []) db r db' e
withdraw-Touches draws id user now request key db (err e, db') (inr (_, h)) = h.0
withdraw-Touches draws id user now request key db (ok a, db') (inr (_, d)) = λ k h.
    ap (find_wallet k) d.state
    ∙ other_rows id k (withdrawn_wallet d.wallet request.amount) d.wallet db.wallets d.found refl
        (not_in k id [] h).0

pub transfer-Touches :
    (draws : Draws) (id user now : ℕ) (request : TransferRequest) (key : Option Text) (db : Db)
    (o : Result (Transaction × Option Wallet) × Db)
    → TransferOutcome draws id user request key now same db o
    → Touches (id ∷ request.recipient_wallet_id ∷ []) db o
transfer-Touches draws id user now request key db (r, db') (inl (_, _, e)) =
    untouched (id ∷ request.recipient_wallet_id ∷ []) db r db' e
transfer-Touches draws id user now request key db (r, db') (inr (_, inl (_, _, _, e))) =
    untouched (id ∷ request.recipient_wallet_id ∷ []) db r db' e
transfer-Touches draws id user now request key db (err e, db') (inr (_, inr (_, h))) = h.0
transfer-Touches draws id user now request key db (ok a, db') (inr (distinct, inr (_, d))) = λ k h.
    let (ne, h') = not_in k id (request.recipient_wallet_id ∷ []) h in
    let x = debited_wallet d.sender request.amount in
    let y = credited_wallet d.recipient request.amount in
    ap (find_wallet k) d.state
    ∙ find-set_wallet_ne k y (set_wallet x db.wallets) (λ e.
      (not_in k request.recipient_wallet_id [] h').0
        (e ∙ find-id request.recipient_wallet_id d.recipient db.wallets d.found_recipient))
    ∙ other_rows id k x d.sender db.wallets d.found_sender refl ne
