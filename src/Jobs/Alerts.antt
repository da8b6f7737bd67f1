-- ===== src/Jobs/Alerts.antt =====
-- When the reconciliation job alerts, and with what.
use distributed_wallet_ledge.Base.{
  arith, ℕ, ◌≡◌, ◌↔◌, refl, sym, ◌∙◌, true, false, List, [], ◌∷◌, map,
}
use distributed_wallet_ledge.Base.Rows.{All, filter}
use distributed_wallet_ledge.Base.Text.{length, length-map}
use distributed_wallet_ledge.Database.{Db}
use distributed_wallet_ledge.Session.{ok, with_session, wait, ◌>>=◌}
use distributed_wallet_ledge.Schema.{Wallet, LedgerEntry}
use distributed_wallet_ledge.Reconciliation.{
  ReconciliationReport, report_ok, report_on, check, ledger_balances,
}
use distributed_wallet_ledge.Reconciliation.Correct as Correct
use distributed_wallet_ledge.Reconciliation.Correct.{
  IsBalanced, report_ok_iff, discrepancies_exact, discrepancy_of,
}
use distributed_wallet_ledge.Jobs.{
  failed, drift_line, reconciliation_lines, run_reconciliation, exit_code,
}
use distributed_wallet_ledge.History.{History, empty}
use distributed_wallet_ledge.History.Sound.{history-IsSound, History-IsSound}

exit_code_ok : (report : ReconciliationReport) → (exit_code report ≡ 0) ↔ (report_ok report ≡ true)
unfolding exit_code
exit_code_ok report = ground arith

lines_of_drift :
    (report : ReconciliationReport)
    → report_ok report ≡ false
    → reconciliation_lines report
      ≡ failed (length report.discrepancies) report.wallets_checked
        ∷ map drift_line report.discrepancies
unfolding reconciliation_lines
lines_of_drift report h = rw h

-- The job changes nothing, and exits with zero exactly when the row of every wallet, as its second
-- SELECT finds it, is the credits minus the debits of the ledger that its first SELECT found.
-- Otherwise its log names exactly the wallets for which this fails, in the order of the wallets,
-- each with both figures. `others` is what other sessions commit between the two.
pub run_reconciliation_lem :
    (others : Db → Db) (now : ℕ) (db : Db)
    → let wallets = (others db).wallets in
      let report = report_on (ledger_balances db.ledger_entries) wallets in
      (with_session others now run_reconciliation db
        ≡ (ok (report, reconciliation_lines report), others db))
      × ((exit_code report ≡ 0) ↔ All (IsBalanced db.ledger_entries) wallets)
      × (report_ok report ≡ false
          → reconciliation_lines report
            ≡ failed (length (filter (Correct.drifted db.ledger_entries) wallets)) (length wallets)
              ∷ map drift_line (
                  map
                    (discrepancy_of db.ledger_entries)
                    (filter (Correct.drifted db.ledger_entries) wallets)))
unfolding run_reconciliation with_session check ◌>>=◌ report_on wait
run_reconciliation_lem others now db =
    let wallets = (others db).wallets in
    let report = report_on (ledger_balances db.ledger_entries) wallets in
    let clean = report_ok_iff db.ledger_entries wallets in
    (
      refl,
      (λ z. clean.0 ((exit_code_ok report).0 z), λ all. (exit_code_ok report).1 (clean.1 all)),
      λ bad.
          lines_of_drift report bad
          ∙ rw (
            discrepancies_exact db.ledger_entries wallets,
            length-map (discrepancy_of db.ledger_entries)
                (filter (Correct.drifted db.ledger_entries) wallets),
          ),
    )

-- The ledger says the same of a wallet at both times.
abbrev pub IsStill : List LedgerEntry → List LedgerEntry → Wallet → Type 0
IsStill entries entries' w =
    Correct.ledger_balance w.id entries' ≡ Correct.ledger_balance w.id entries

IsStill-iff :
    (entries entries' : List LedgerEntry) (wallets : List Wallet)
    → All (IsBalanced entries') wallets
    → All (IsBalanced entries) wallets ↔ All (IsStill entries entries') wallets
IsStill-iff entries entries' [] h = (λ _. tt, λ _. tt)
IsStill-iff entries entries' (w ∷ wallets) h =
    let rest = IsStill-iff entries entries' wallets h.1 in
    (λ b. (sym h.0 ∙ b.0, rest.0 b.1), λ s. (h.0 ∙ s.0, rest.1 s.1))

-- Of the job between two times of any history of requests, publisher rounds and deliveries, its
-- first SELECT at the earlier and its second at the later: it returns its report and changes
-- nothing, and exits with zero exactly when the ledger gives every wallet the same balance at both
-- times; with nothing committed between the two it exits with zero.
pub history_exits :
    {db db' : Db} (now : ℕ)
    → History empty db
    → History db db'
    → let report = report_on (ledger_balances db.ledger_entries) db'.wallets in
      (with_session (λ _. db') now run_reconciliation db
        ≡ (ok (report, reconciliation_lines report), db'))
      × ((exit_code report ≡ 0) ↔ All (IsStill db.ledger_entries db'.ledger_entries) db'.wallets)
      × (exit_code (report_on (ledger_balances db.ledger_entries) db.wallets) ≡ 0)
history_exits {db} {db'} now h later =
    let run = run_reconciliation_lem (λ _. db') now db in
    let before = history-IsSound h in
    let after = History-IsSound later before in
    let still = IsStill-iff db.ledger_entries db'.ledger_entries db'.wallets after.balanced in
    (
      run.0,
      (λ z. still.0 (run.1.0 z), λ s. run.1.1 (still.1 s)),
      (run_reconciliation_lem (λ d. d) now db).1.1 before.balanced,
    )
