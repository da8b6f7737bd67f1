-- ===== src/Reconciliation/Correct.antt =====
-- The grouped sums are the balances of an independent reading of the ledger, wallet by wallet, and
-- the report is clean exactly when every row agrees with it.
use distributed_wallet_ledge.Base.{
  ℕ, ◌≡◌, ◌↔◌, refl, sym, ◌∙◌, ◌==◌, not, Bool, true, false, Bool-cases, inl, inr, Option, none,
  some, List, [], ◌∷◌, map, arith, not-true, not-false, if◌then◌else◌,
}
use distributed_wallet_ledge.Base.Int.{ℤ, pos, ◌+ℤ◌, eqb_ℤ, eqb_ℤ_iff, +ℤ_zero}
use distributed_wallet_ledge.Base.Rows.{All, filter}
use distributed_wallet_ledge.Schema.{Wallet, LedgerEntry}
use distributed_wallet_ledge.Reconciliation.{
  signed_amount, Balances, add_to_group, add_entry_to_group, ledger_balances, get_balance,
  Discrepancy, discrepancies, report_on, report_ok,
}

abbrev pub touches : ℕ → Option ℕ → Bool
touches id none = false
touches id (some k) = k == id

-- Credits minus debits of one wallet.
abbrev pub ledger_balance : ℕ → List LedgerEntry → ℤ
ledger_balance id [] = pos 0
ledger_balance id (e ∷ entries) =
    if touches id e.wallet_id
    then signed_amount e +ℤ ledger_balance id entries
    else ledger_balance id entries

get_balance-add_to_group :
    (id k : ℕ) (amount : ℤ) (groups : Balances)
    → get_balance id (add_to_group k amount groups)
      ≡ (if k == id then amount +ℤ get_balance id groups else get_balance id groups)
unfolding get_balance add_to_group
get_balance-add_to_group id k amount [] = ground (arith, +ℤ_zero amount)
get_balance-add_to_group id k amount ((j, sum) ∷ groups) =
    ground (arith, get_balance-add_to_group id k amount groups)

-- The grouped query gives each wallet the sum of its own entries.
pub get_balance-ledger_balances :
    (id : ℕ) (entries : List LedgerEntry)
    → get_balance id (ledger_balances entries) ≡ ledger_balance id entries
unfolding ledger_balances
get_balance-ledger_balances id [] = unfold get_balance in refl
get_balance-ledger_balances id (e ∷ entries) =
    add_one e.wallet_id (get_balance-ledger_balances id entries)
  where
    add_one :
        (o : Option ℕ)
        → get_balance id (ledger_balances entries) ≡ ledger_balance id entries
        → get_balance id (add_entry_to_group o (signed_amount e) (ledger_balances entries)) ≡ (
            if touches id o
            then signed_amount e +ℤ ledger_balance id entries
            else ledger_balance id entries)
    add_one none ih = ih
    add_one (some k) ih =
        get_balance-add_to_group id k (signed_amount e) (ledger_balances entries) ∙ rw ih

-- A wallet's row agrees with the ledger.
abbrev pub IsBalanced : List LedgerEntry → Wallet → Type 0
IsBalanced entries w = w.available_balance ≡ ledger_balance w.id entries

-- The row that the report gives a wallet.
abbrev pub discrepancy_of : List LedgerEntry → Wallet → Discrepancy
discrepancy_of entries w = record {
  wallet_id = w.id;
  cached_balance = w.available_balance;
  ledger_balance = ledger_balance w.id entries;
}

abbrev pub drifted : List LedgerEntry → Wallet → Bool
drifted entries w = not (eqb_ℤ w.available_balance (ledger_balance w.id entries))

-- The report lists exactly the wallets whose row differs from the sum of their own entries, in the
-- order of the wallets, with both figures.
pub discrepancies_exact :
    (entries : List LedgerEntry) (wallets : List Wallet)
    → discrepancies (ledger_balances entries) wallets
      ≡ map (discrepancy_of entries) (filter (drifted entries) wallets)
unfolding discrepancies
discrepancies_exact entries [] = refl
discrepancies_exact entries (w ∷ wallets) =
    rw (get_balance-ledger_balances w.id entries, discrepancies_exact entries wallets)
      (elim (Bool-cases (drifted entries w)) [ inl e ↦ rw e | inr e ↦ rw e ])

no_drift :
    (entries : List LedgerEntry) (wallets : List Wallet)
    → (filter (drifted entries) wallets ≡ []) ↔ All (IsBalanced entries) wallets
no_drift entries [] = (λ _. tt, λ _. refl)
no_drift entries (w ∷ wallets) =
    let same = eqb_ℤ_iff w.available_balance (ledger_balance w.id entries) in
    elim (Bool-cases (drifted entries w)) [
      | inl e ↦ rw e (λ bad. cc bad, λ h. cc (same.1 h.0, not-true _ e))
      | inr e ↦ rw e (
        λ clean. (same.0 (not-false _ e), (no_drift entries wallets).0 clean),
        λ h. (no_drift entries wallets).1 h.1,
      )
    ]

map-nil {ℓ κ} : {A : Type ℓ} {B : Type κ} (f : A → B) (xs : List A) → map f xs ≡ [] → xs ≡ []
map-nil f [] h = refl
map-nil f (x ∷ xs) h = cc h

nil_of_ok : (ds : List Discrepancy) → (elim ds [ [] ↦ true | d ∷ ds ↦ false ] ≡ true) → ds ≡ []
nil_of_ok [] h = refl
nil_of_ok (d ∷ ds) h = cc h

-- The report is clean exactly when every wallet's row is its credits minus its debits.
pub report_ok_iff :
    (entries : List LedgerEntry) (wallets : List Wallet)
    → (report_ok (report_on (ledger_balances entries) wallets) ≡ true)
      ↔ All (IsBalanced entries) wallets
unfolding report_on
report_ok_iff entries wallets =
    let exact = discrepancies_exact entries wallets in
    (
      λ fine. (no_drift entries wallets).0 (map-nil _ _ (sym exact ∙ nil_of_ok _ fine)),
      λ all. rw (exact, (no_drift entries wallets).1 all),
    )
