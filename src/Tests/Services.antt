-- ===== src/Tests/Services.antt =====
-- Runs of the services on the sample database.
use distributed_wallet_ledge.Base.{◌≡◌, refl, List, [], ◌∷◌, map}
use distributed_wallet_ledge.Base.Int.{ℤ, pos, ◌+ℤ◌, ◌-ℤ◌}
use distributed_wallet_ledge.Base.Text.{text_eq, upper}
use distributed_wallet_ledge.Schema.{Wallet}
use distributed_wallet_ledge.Database.{
  Db, transaction_violation, entry_violation, balance_violation, event_violation,
}
use distributed_wallet_ledge.Session.{with_session, commit, flush, wait, assign_wallet, ◌>>=◌}
use distributed_wallet_ledge.Repositories.Wallets.{get_with_lock, refresh_wallet}
use distributed_wallet_ledge.Repositories.Transactions.{create, mark_completed, refresh_transaction}
use distributed_wallet_ledge.Repositories.Entries.{create_entry}
use distributed_wallet_ledge.Repositories.Outbox.{add_event}
use distributed_wallet_ledge.Reconciliation.{
  report_on, ledger_balances, discrepancies, add_to_group, get_balance,
}
use distributed_wallet_ledge.Jobs.{exit_code}
use distributed_wallet_ledge.Ledger.{
  deposit, deposit_write, credit_balance, record_event, withdraw, transfer, given,
}
use distributed_wallet_ledge.Ledger.Deposit.{DepositOutcome, deposit_outcome}
use distributed_wallet_ledge.Ledger.Replay.{WithReplay}
use distributed_wallet_ledge.Ledger.Withdraw.{WithdrawalOutcome, withdraw_outcome}
use distributed_wallet_ledge.Ledger.Transfer.{TransferOutcome, transfer_outcome}
use distributed_wallet_ledge.Ledger.Transferred.{transferred_wallets}
use distributed_wallet_ledge.Tests.Sample.{
  alice, draws, sample, sample-IsSound, same, funded_wallet, bob_wallet, deposit_50, withdraw_30,
  transfer_40, key,
}
use distributed_wallet_ledge.Invariant.{IsSound, total_balance}
use distributed_wallet_ledge.Invariant.Operations.{transfer-IsSound}
use distributed_wallet_ledge.Invariant.Totals.{transferred_total}

abbrev balances : Db → List ℤ
balances db = map (λ (w : Wallet). w.available_balance) db.wallets

deposit_run :
    balances (with_session same 9 (deposit draws 1 alice deposit_50) sample).1
    ≡ pos 150 ∷ pos 0 ∷ []
unfolding with_session deposit deposit_write ◌>>=◌ get_with_lock create create_entry credit_balance
    mark_completed record_event add_event commit flush wait assign_wallet refresh_wallet
    refresh_transaction text_eq upper transaction_violation entry_violation balance_violation
    event_violation ◌+ℤ◌ ◌-ℤ◌
deposit_run = refl

-- A deposit that commits between the two SELECTs of the reconciliation: no wallet has drifted, and
-- the job exits with one.
false_alarm :
    exit_code (
      report_on
        (ledger_balances sample.ledger_entries)
        (with_session same 9 (deposit draws 1 alice deposit_50) sample).1.wallets)
    ≡ 1
unfolding with_session deposit deposit_write ◌>>=◌ get_with_lock create create_entry credit_balance
    mark_completed record_event add_event commit flush wait assign_wallet refresh_wallet
    refresh_transaction text_eq upper transaction_violation entry_violation balance_violation
    event_violation ◌+ℤ◌ ◌-ℤ◌ exit_code report_on ledger_balances discrepancies add_to_group
    get_balance
false_alarm = refl

deposit_outcome_example :
    DepositOutcome draws 1 alice deposit_50 9 sample
      (with_session same 9 (deposit draws 1 alice deposit_50) sample)
deposit_outcome_example = deposit_outcome draws 1 alice deposit_50 9 same sample

withdraw_outcome_example :
    WithReplay
      (given key)
      1
      sample
      (WithdrawalOutcome draws 1 alice withdraw_30 key 9 sample)
      (with_session same 9 (withdraw draws 1 alice withdraw_30 key) sample)
withdraw_outcome_example = withdraw_outcome draws 1 alice withdraw_30 key 9 same sample

transfer_outcome_example :
    TransferOutcome draws 1 alice transfer_40 key 9 same sample
      (with_session same 9 (transfer draws 1 alice transfer_40 key) sample)
transfer_outcome_example = transfer_outcome draws 1 alice transfer_40 key 9 same sample

transfer-IsSound_example :
    IsSound (with_session same 9 (transfer draws 1 alice transfer_40 key) sample).1
transfer-IsSound_example =
    transfer-IsSound draws 1 alice 9 same sample sample-IsSound sample-IsSound transfer_40 key

transferred_total_example :
    total_balance (transferred_wallets funded_wallet bob_wallet (pos 40) sample.wallets)
    ≡ total_balance sample.wallets
transferred_total_example =
    transferred_total funded_wallet bob_wallet (pos 40) sample.wallets sample-IsSound.unique refl
      refl
