-- ===== src/Reconciliation.antt =====
-- `ReconciliationService` (app/services/reconciliation_service.py): the balances that the ledger
-- implies, and the wallets whose row says otherwise.
pub mod Correct
use distributed_wallet_ledge.Base.{
  ℕ, ◌==◌, not, Bool, true, false, Option, none, some, List, [], ◌∷◌, if◌then◌else◌,
}
use distributed_wallet_ledge.Base.Int.{ℤ, pos, ◌+ℤ◌, ◌-ℤ◌, eqb_ℤ}
use distributed_wallet_ledge.Base.Text.{length}
use distributed_wallet_ledge.Schema.{Wallet, LedgerEntry, EntryType, credit, debit}
use distributed_wallet_ledge.Database.{Db}
use distributed_wallet_ledge.Session.{Exec, Session, Result, ok, pure, query, wait, ◌>>=◌, ◌>>◌}

pub record Discrepancy : Type 0 where
  pub wallet_id : ℕ
  pub cached_balance : ℤ
  pub ledger_balance : ℤ

-- `Discrepancy.diff`
unfoldable pub diff : Discrepancy → ℤ
diff d = d.cached_balance -ℤ d.ledger_balance

pub record ReconciliationReport : Type 0 where
  pub wallets_checked : ℕ
  pub discrepancies : List Discrepancy

-- `ReconciliationReport.ok`
abbrev pub report_ok : ReconciliationReport → Bool
report_ok report = elim report.discrepancies [ [] ↦ true | d ∷ ds ↦ false ]

-- The `case` expression: a credit counts as its amount, a debit as its negative.
abbrev pub signed : EntryType → ℤ → ℤ
signed credit amount = amount
signed debit amount = pos 0 -ℤ amount

abbrev pub signed_amount : LedgerEntry → ℤ
signed_amount e = signed e.entry_type e.amount

abbrev pub Balances : Type 0
Balances = List (ℕ × ℤ)

-- One more row in its group.
unfoldable pub add_to_group : ℕ → ℤ → Balances → Balances
add_to_group id amount [] = (id, amount) ∷ []
add_to_group id amount ((k, sum) ∷ groups) =
    if k == id then (k, amount +ℤ sum) ∷ groups else (k, sum) ∷ add_to_group id amount groups

-- `WHERE wallet_id IS NOT NULL`
abbrev pub add_entry_to_group : Option ℕ → ℤ → Balances → Balances
add_entry_to_group none amount groups = groups
add_entry_to_group (some id) amount groups = add_to_group id amount groups

-- `_ledger_balances`: `SUM(signed_amount) … GROUP BY wallet_id`.
unfoldable pub ledger_balances : List LedgerEntry → Balances
unfolding add_to_group
ledger_balances [] = []
ledger_balances (e ∷ entries) =
    add_entry_to_group e.wallet_id (signed_amount e) (ledger_balances entries)

-- `ledger.get(wallet_id, 0)`
unfoldable pub get_balance : ℕ → Balances → ℤ
get_balance id [] = pos 0
get_balance id ((k, sum) ∷ groups) = if k == id then sum else get_balance id groups

-- The loop of `check`.
unfoldable pub discrepancies : Balances → List Wallet → List Discrepancy
unfolding get_balance
discrepancies ledger [] = []
discrepancies ledger (wallet ∷ wallets) =
    let ledger_balance = get_balance wallet.id ledger in
    let rest = discrepancies ledger wallets in
    if not (eqb_ℤ wallet.available_balance ledger_balance)
    then record {
      wallet_id = wallet.id;
      cached_balance = wallet.available_balance;
      ledger_balance = ledger_balance;
    }
      ∷ rest
    else rest

-- The report on the result of the first SELECT and on the wallets of the second.
unfoldable pub report_on : Balances → List Wallet → ReconciliationReport
unfolding discrepancies
report_on ledger wallets = record {
  wallets_checked = length wallets;
  discrepancies = discrepancies ledger wallets;
}

-- `ReconciliationService.check`. Each SELECT has a snapshot of its own: other sessions may commit
-- between the two.
unfoldable pub check : Exec ReconciliationReport
unfolding report_on ledger_balances wait ◌>>=◌
check = do
  ledger ← query (λ db. ledger_balances db.ledger_entries)
  wait
  wallets ← query (λ db. db.wallets)
  pure (report_on ledger wallets)
