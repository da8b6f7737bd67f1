-- ===== src/Jobs.antt =====
-- The scheduled jobs (app/jobs): reconciliation, whose exit code tells of drift, and the snapshot of
-- the rollup. A log call is one line, with its arguments.
pub mod Alerts
use distributed_wallet_ledge.Base.{ℕ, Bool, true, false, List, [], ◌∷◌, map, if◌then◌else◌}
use distributed_wallet_ledge.Base.Int.{ℤ}
use distributed_wallet_ledge.Base.Text.{Text, length}
use distributed_wallet_ledge.Schema.{TransactionStat}
use distributed_wallet_ledge.Session.{Exec, pure, ◌>>=◌}
use distributed_wallet_ledge.Reconciliation.{
  Discrepancy, diff, ReconciliationReport, report_ok, check, report_on,
}
use distributed_wallet_ledge.Repositories.Stats.{all_stats}

pub data ReconciliationLine : Type 0 where
  balanced : ℕ → ReconciliationLine
  failed : ℕ → ℕ → ReconciliationLine
  -- wallet, cached, ledger, diff
  drifted : ℕ → ℤ → ℤ → ℤ → ReconciliationLine

abbrev pub drift_line : Discrepancy → ReconciliationLine
drift_line d = drifted d.wallet_id d.cached_balance d.ledger_balance (diff d)

-- The log of `run` on a report.
unfoldable pub reconciliation_lines : ReconciliationReport → List ReconciliationLine
unfolding diff
reconciliation_lines report =
    if report_ok report
    then balanced report.wallets_checked ∷ []
    else failed (length report.discrepancies) report.wallets_checked
      ∷ map drift_line report.discrepancies

-- `run`: the report, and what it has logged.
unfoldable pub run_reconciliation : Exec (ReconciliationReport × List ReconciliationLine)
unfolding check ◌>>=◌ reconciliation_lines
run_reconciliation = do report ← check; pure (report, reconciliation_lines report)

-- `SystemExit(0 if report.ok else 1)`
unfoldable pub exit_code : ReconciliationReport → ℕ
exit_code report = if report_ok report then 0 else 1

pub data SnapshotLine : Type 0 where
  nothing_yet : SnapshotLine
  -- currency, type, count, total
  rolled_up : Text → Text → ℤ → ℤ → SnapshotLine

abbrev pub stat_line : TransactionStat → SnapshotLine
stat_line s = rolled_up s.currency s.type s.count s.total_amount

abbrev pub snapshot_lines : List TransactionStat → List SnapshotLine
snapshot_lines [] = nothing_yet ∷ []
snapshot_lines (s ∷ stats) = map stat_line (s ∷ stats)

-- `run` of the snapshot.
unfoldable pub run_analytics_snapshot : Exec (List TransactionStat × List SnapshotLine)
unfolding all_stats ◌>>=◌
run_analytics_snapshot = do stats ← all_stats; pure (stats, snapshot_lines stats)
