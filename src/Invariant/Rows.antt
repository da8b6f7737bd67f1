-- ===== src/Invariant/Rows.antt =====
-- How the parts of the invariant follow one UPDATE of a wallet or one new leg.
use distributed_wallet_ledge.Base.{
  ℕ, ◌≡◌, ◌≢◌, refl, sym, subst, ap, ◌∙◌, ◌==◌, ==_refl, ==_iff, ==_ne, ==_false, Bool, true, false,
  Bool-cases, inl, inr, none, some, List, [], ◌∷◌, arith,
}
use distributed_wallet_ledge.Base.Int.{◌+ℤ◌, +ℤ_comm, swap_ends, carry}
use distributed_wallet_ledge.Base.Rows.{All, find, exists}
use distributed_wallet_ledge.Schema.{Wallet, LedgerEntry}
use distributed_wallet_ledge.Database.{set_wallet}
use distributed_wallet_ledge.Invariant.{IsUnique, total_balance}
use distributed_wallet_ledge.Reconciliation.{signed_amount}
use distributed_wallet_ledge.Reconciliation.Correct.{ledger_balance, touches, IsBalanced}

pub All-map {ℓ κ} :
    {A : Type ℓ} (P P' : A → Type κ) (xs : List A) → ((x : A) → P x → P' x) → All P xs → All P' xs
All-map P P' [] f h = tt
All-map P P' (x ∷ xs) f h = (f x h.0, All-map P P' xs f h.1)

pub All-find {ℓ κ} :
    {A : Type ℓ} (P : A → Type κ) (p : A → Bool) (xs : List A) {x : A}
    → All P xs
    → find p xs ≡ some x
    → P x
All-find P p [] h e = cc e
All-find P p (y ∷ xs) {x} h e = elim (Bool-cases (p y)) [
  | inl t ↦ subst P (ground arith) h.0
  | inr t ↦ All-find P p xs h.1 (ground arith)
]

-- The changed row has to satisfy the new predicate, and the others keep theirs.
pub All-set_wallet :
    (P P' : Wallet → Type 0) (x : Wallet) (rows : List Wallet)
    → P' x
    → ((r : Wallet) → x.id ≢ r.id → P r → P' r)
    → All P rows
    → All P' (set_wallet x rows)
All-set_wallet P P' x [] new keep h = tt
All-set_wallet P P' x (r ∷ rows) new keep h = elim (Bool-cases (r.id == x.id)) [
  | inl e ↦ rw e (new, All-set_wallet P P' x rows new keep h.1)
  | inr e ↦ rw e (
    keep r (λ same. ==_false r.id x.id e (sym same)) h.0,
    All-set_wallet P P' x rows new keep h.1,
  )
]

pub exists-set_wallet :
    (k : ℕ) (x : Wallet) (rows : List Wallet)
    → exists (λ r. r.id == k) (set_wallet x rows) ≡ exists (λ r. r.id == k) rows
exists-set_wallet k x [] = refl
exists-set_wallet k x (r ∷ rows) = ground (arith, exists-set_wallet k x rows)

-- The balance of a wallet that a leg does not touch, and of the one that it does.
untouched :
    (id : ℕ) (e : LedgerEntry) (entries : List LedgerEntry)
    → touches id e.wallet_id ≡ false
    → ledger_balance id (e ∷ entries) ≡ ledger_balance id entries
untouched id e entries h = rw h

touched :
    (id : ℕ) (e : LedgerEntry) (entries : List LedgerEntry)
    → touches id e.wallet_id ≡ true
    → ledger_balance id (e ∷ entries) ≡ signed_amount e +ℤ ledger_balance id entries
touched id e entries h = rw h

-- A leg of a system account leaves all wallets in balance.
pub skip_leg :
    (e : LedgerEntry) (entries : List LedgerEntry) (rows : List Wallet)
    → e.wallet_id ≡ none
    → All (IsBalanced entries) rows
    → All (IsBalanced (e ∷ entries)) rows
skip_leg e entries rows system =
    All-map (IsBalanced entries) (IsBalanced (e ∷ entries)) rows
      λ r h. h ∙ sym (untouched r.id e entries (rw system))

-- A leg of a wallet, with the wallet's balance moved by the same amount, keeps all in balance.
pub settle_leg :
    (e : LedgerEntry) (entries : List LedgerEntry) (x old : Wallet) (rows : List Wallet)
    → e.wallet_id ≡ some x.id
    → old.id ≡ x.id
    → IsBalanced entries old
    → x.available_balance ≡ old.available_balance +ℤ signed_amount e
    → All (IsBalanced entries) rows
    → All (IsBalanced (e ∷ entries)) (set_wallet x rows)
settle_leg e entries x old rows wallet id old_balanced moved =
    All-set_wallet (IsBalanced entries) (IsBalanced (e ∷ entries)) x rows
      (moved
        ∙ +ℤ_comm old.available_balance (signed_amount e)
        ∙ ap (λ b. signed_amount e +ℤ b) (old_balanced ∙ ap (λ k. ledger_balance k entries) id)
        ∙ sym (touched x.id e entries (rw wallet (==_refl x.id))))
      λ r ne h. h ∙ sym (untouched r.id e entries (rw wallet (==_ne x.id r.id ne)))

absent_row :
    (k : ℕ) (x : Wallet) (rows : List Wallet)
    → x.id ≡ k
    → exists (λ r. r.id == k) rows ≡ false
    → total_balance (set_wallet x rows) ≡ total_balance rows
absent_row k x [] e h = refl
absent_row k x (r ∷ rows) e h = ground (arith, absent_row k x rows e)

-- An UPDATE moves the total by what it moves the one row that has the key.
pub total_balance-set_wallet :
    (x old : Wallet) (rows : List Wallet)
    → IsUnique rows
    → find (λ r. r.id == x.id) rows ≡ some old
    → total_balance (set_wallet x rows) +ℤ old.available_balance
      ≡ total_balance rows +ℤ x.available_balance
total_balance-set_wallet x old [] unique h = cc h
total_balance-set_wallet x old (r ∷ rows) unique h = elim (Bool-cases (r.id == x.id)) [
  | inl e ↦
      let same_row : r ≡ old = ground arith in
      rw
        (
          e,
          absent_row r.id x rows (sym ((==_iff r.id x.id).0 e)) unique.0,
          ap (λ (w : Wallet). w.available_balance) same_row,
        )
        (swap_ends x.available_balance (total_balance rows) old.available_balance)
  | inr e ↦
      let rest : find (λ q. q.id == x.id) rows ≡ some old = ground arith in
      rw e (
        carry r.available_balance (total_balance (set_wallet x rows)) old.available_balance
          (total_balance rows) x.available_balance
          (total_balance-set_wallet x old rows unique.1 rest))
]
