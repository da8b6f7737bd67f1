-- ===== src/Tests/Accounts.antt =====
-- Wallets, users, reconciliation and whole histories on the sample database.
use distributed_wallet_ledge.Base.{◌≡◌, ◌↔◌, refl, Bool, false, ◌∷◌, map}
use distributed_wallet_ledge.Base.Text.{Text, codes, text_eq}
use distributed_wallet_ledge.Base.Rows.{All, filter}
use distributed_wallet_ledge.Schema.Requests.{UserCreate, WalletCreate}
use distributed_wallet_ledge.Database.{Db}
use distributed_wallet_ledge.Session.{ok, with_session}
use distributed_wallet_ledge.WalletService.{create_wallet}
use distributed_wallet_ledge.WalletService.Creation.{Creation, create_wallet_outcome}
use distributed_wallet_ledge.Users.{register}
use distributed_wallet_ledge.Users.Registration.{Registration, register_outcome}
use distributed_wallet_ledge.Reconciliation.{
  ReconciliationReport, report_ok, report_on, ledger_balances,
}
use distributed_wallet_ledge.Reconciliation.Correct.{IsBalanced, discrepancy_of, drifted}
use distributed_wallet_ledge.Invariant.{IsSound}
use distributed_wallet_ledge.History.{empty, History, here, next, registers}
use distributed_wallet_ledge.History.Sound.{history-IsSound}
use distributed_wallet_ledge.Base.Text.{length}
use distributed_wallet_ledge.Base.Int.{pos}
use distributed_wallet_ledge.Schema.Requests.{DepositRequest}
use distributed_wallet_ledge.Ledger.{deposit}
use distributed_wallet_ledge.Publisher.{publish_round, delivered}
use distributed_wallet_ledge.History.{opens, deposits, publishes}
use distributed_wallet_ledge.Jobs.{
  failed, drift_line, reconciliation_lines, run_reconciliation, exit_code,
}
use distributed_wallet_ledge.Jobs.Alerts.{IsStill, run_reconciliation_lem, history_exits}
use distributed_wallet_ledge.Tests.Sample.{draws, alice, sample, same}

abbrev pub usd_wallet : WalletCreate
usd_wallet = record { currency = codes "usd" }

abbrev carol : UserCreate
carol = record { name = codes "C"; email = codes "c@x"; password = codes "pw" }

-- A stand-in for the password hash, and its check.
abbrev marked : Text → Text
marked password = 36 ∷ password

abbrev verified : Text → Text → Bool
verified password hash = text_eq (marked password) hash

create_wallet_outcome_example :
    let (r, after) = with_session same 9 (create_wallet 3 alice usd_wallet) sample in
    Creation 3 alice usd_wallet 9 sample sample r after
create_wallet_outcome_example = create_wallet_outcome 3 alice usd_wallet 9 same sample

register_outcome_example :
    let (r, after) = with_session same 9 (register marked 9 carol) sample in
    Registration marked 9 carol 9 sample sample r after
register_outcome_example = register_outcome marked 9 carol 9 same sample

-- A history: a registration, a wallet, a deposit, and a round of the publisher.
abbrev registered : Db
registered = (with_session same 9 (register marked 9 carol) empty).1

abbrev opened_wallet : Db
opened_wallet = (with_session same 10 (create_wallet 3 9 usd_wallet) registered).1

abbrev usd_deposit : DepositRequest
usd_deposit = record { amount = pos 50; currency = codes "usd" }

abbrev paid_in : Db
paid_in = (with_session same 11 (deposit draws 3 9 usd_deposit) opened_wallet).1

abbrev sent : Db
sent = (with_session same 12 (publish_round (λ m. delivered) 100 12) paid_in).1

abbrev two_steps : History empty opened_wallet
two_steps =
    next (next here (registers same 9 marked 9 carol here refl))
      (opens same 10 3 9 usd_wallet here refl)

abbrev deposit_step : History opened_wallet paid_in
deposit_step = next here (deposits same 11 draws 3 9 usd_deposit here refl)

abbrev four_steps : History empty sent
four_steps =
    next (next two_steps (deposits same 11 draws 3 9 usd_deposit here refl))
      (publishes (λ m. delivered) 100 12 12 refl)

history-IsSound_example : IsSound sent
history-IsSound_example = history-IsSound four_steps

-- The wallets that were read after the deposit, and the ledger before it.
abbrev deposit_between : ReconciliationReport
deposit_between = report_on (ledger_balances opened_wallet.ledger_entries) paid_in.wallets

history_exits_example :
    (with_session (λ _. paid_in) 13 run_reconciliation opened_wallet
      ≡ (ok (deposit_between, reconciliation_lines deposit_between), paid_in))
    × ((exit_code deposit_between ≡ 0)
        ↔ All (IsStill opened_wallet.ledger_entries paid_in.ledger_entries) paid_in.wallets)
    × (exit_code (report_on (ledger_balances opened_wallet.ledger_entries) opened_wallet.wallets)
        ≡ 0)
history_exits_example = history_exits 13 two_steps deposit_step

run_reconciliation_example :
    let report = report_on (ledger_balances sample.ledger_entries) sample.wallets in
    (with_session same 9 run_reconciliation sample
      ≡ (ok (report, reconciliation_lines report), sample))
    × ((exit_code report ≡ 0) ↔ All (IsBalanced sample.ledger_entries) sample.wallets)
    × (report_ok report ≡ false
        → reconciliation_lines report
          ≡ failed (length (filter (drifted sample.ledger_entries) sample.wallets)) 2
            ∷ map drift_line (
                map
                  (discrepancy_of sample.ledger_entries)
                  (filter (drifted sample.ledger_entries) sample.wallets)))
run_reconciliation_example = run_reconciliation_lem same 9 sample
