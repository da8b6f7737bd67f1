-- ===== src/Tests/Keys.antt =====
-- Operations that go through, retries with the same key, and the lost race, on the sample database.
use distributed_wallet_ledge.Base.{◌≡◌, ◌⊎◌, refl, some, ◌∷◌, arith}
use distributed_wallet_ledge.Base.Int.{pos, ◌+ℤ◌, ◌-ℤ◌}
use distributed_wallet_ledge.Base.Text.{codes, text_eq, upper}
use distributed_wallet_ledge.Schema.{Transaction, withdrawal}
use distributed_wallet_ledge.Database.{Db, find_wallet, balance_violation, integrity}
use distributed_wallet_ledge.Session.{ok, err, refused, with_session}
use distributed_wallet_ledge.Repositories.Transactions.{opened, completed_row}
use distributed_wallet_ledge.Ledger.{deposit, transfer, withdraw}
use distributed_wallet_ledge.Ledger.Deposit.{deposited_wallet}
use distributed_wallet_ledge.Ledger.Withdraw.{withdrawn_wallet}
use distributed_wallet_ledge.Ledger.Transferred.{debited_wallet}
use distributed_wallet_ledge.Ledger.Race.{transfer_race, withdraw_race}
use distributed_wallet_ledge.Ledger.Success.{IsFresh}
use distributed_wallet_ledge.Ledger.Success.Deposit.{deposit_succeeds}
use distributed_wallet_ledge.Ledger.Success.Withdraw.{withdraw_succeeds}
use distributed_wallet_ledge.Ledger.Success.Transfer.{transfer_succeeds}
use distributed_wallet_ledge.Invariant.{total_balance}
use distributed_wallet_ledge.Invariant.Conservation.{transfer_conserves}
use distributed_wallet_ledge.History.{here}
use distributed_wallet_ledge.History.Keys.{transfer_once, withdraw_once}
use distributed_wallet_ledge.Tests.Sample.{
  alice, draws, later_draws, sample, sample-IsSound, same, funded_wallet, bob_wallet, deposit_50,
  withdraw_30, transfer_40, key, inr_code,
}

sample-IsFresh : IsFresh draws sample
sample-IsFresh = record {
  transaction = refl;
  first_entry = refl;
  second_entry = refl;
  two_entries = λ e. omega (e, arith);
  event = refl;
}

deposit_succeeds_example :
    (t : Transaction) × (after : Db) × (with_session same 9
        (deposit draws 1 alice deposit_50)
        sample
      ≡ (ok (t, deposited_wallet funded_wallet (pos 50)), after))
unfolding upper balance_violation ◌+ℤ◌
deposit_succeeds_example =
    deposit_succeeds draws 1 alice 9 same sample funded_wallet sample-IsFresh refl refl refl
      deposit_50 refl refl refl refl

withdraw_succeeds_example :
    (t : Transaction) × (after : Db) × (with_session same 9
        (withdraw draws 1 alice withdraw_30 key)
        sample
      ≡ (ok (t, some (withdrawn_wallet funded_wallet (pos 30))), after))
unfolding upper balance_violation ◌-ℤ◌ text_eq
withdraw_succeeds_example =
    withdraw_succeeds draws 1 alice 9 same sample funded_wallet sample-IsFresh refl refl refl
      withdraw_30 key refl refl refl refl refl refl (omega arith) refl

transfer_succeeds_example :
    (t : Transaction) × (after : Db) × (with_session same 9
        (transfer draws 1 alice transfer_40 key)
        sample
      ≡ (ok (t, some (debited_wallet funded_wallet (pos 40))), after))
unfolding upper balance_violation ◌-ℤ◌ ◌+ℤ◌ text_eq
transfer_succeeds_example =
    transfer_succeeds draws 1 alice 9 same sample funded_wallet sample-IsFresh refl refl refl
      transfer_40 key bob_wallet (λ e. omega (e, arith)) refl refl refl refl refl refl refl refl
      (omega arith) refl refl

transfer_conserves_example :
    let after = (with_session same 9 (transfer draws 1 alice transfer_40 key) sample).1 in
    (total_balance after.wallets ≡ total_balance sample.wallets)
    ⊎ (total_balance after.wallets ≡ total_balance sample.wallets)
transfer_conserves_example =
    transfer_conserves draws 1 alice 9 same sample transfer_40 key sample-IsSound.unique

-- The row that a withdrawal with the key leaves.
abbrev first_answer : Transaction
first_answer = completed_row (opened 30 withdrawal inr_code key 8)

abbrev with_key : Db
with_key = record sample { transactions = first_answer ∷ sample.transactions }

abbrev rival : Db → Db
rival db = with_key

withdraw_race_example :
    with_session rival 9 (withdraw draws 1 alice withdraw_30 key) sample
    ≡ (err (refused integrity), with_key)
unfolding text_eq upper
withdraw_race_example =
    withdraw_race draws 1 alice 9 rival sample b'k' (codes "-1") first_answer funded_wallet refl
      refl refl refl refl refl withdraw_30 refl (omega arith)

transfer_race_example :
    with_session rival 9 (transfer draws 1 alice transfer_40 key) sample
    ≡ (err (refused integrity), with_key)
unfolding text_eq upper
transfer_race_example =
    transfer_race draws 1 alice 9 rival sample b'k' (codes "-1") first_answer funded_wallet refl
      refl refl refl refl refl transfer_40 bob_wallet (λ e. omega (e, arith)) refl refl refl
      (omega arith)

transfer_done :
    (t : Transaction) × (after : Db) × (with_session same 9
        (transfer draws 1 alice transfer_40 key)
        sample
      ≡ (ok (t, some (debited_wallet funded_wallet (pos 40))), after))
unfolding upper balance_violation ◌-ℤ◌ ◌+ℤ◌ text_eq
transfer_done =
    transfer_succeeds draws 1 alice 9 same sample funded_wallet sample-IsFresh refl refl refl
      transfer_40 key bob_wallet (λ e. omega (e, arith)) refl refl refl refl refl refl refl refl
      (omega arith) refl refl

abbrev moved : Db
moved = transfer_done.1

transfer_once_example :
    with_session same 12 (transfer later_draws 1 alice transfer_40 key) moved
    ≡ (ok (transfer_done.0, find_wallet 1 moved), moved)
transfer_once_example =
    transfer_once b'k' (codes "-1") draws later_draws 1 alice 9 1 alice 12 same same transfer_40
      transfer_40 transfer_done.0 (some (debited_wallet funded_wallet (pos 40))) sample moved moved
      transfer_done.2 here (λ e. omega (e, arith))

withdraw_done :
    (t : Transaction) × (after : Db) × (with_session same 9
        (withdraw draws 1 alice withdraw_30 key)
        sample
      ≡ (ok (t, some (withdrawn_wallet funded_wallet (pos 30))), after))
unfolding upper balance_violation ◌-ℤ◌ text_eq
withdraw_done =
    withdraw_succeeds draws 1 alice 9 same sample funded_wallet sample-IsFresh refl refl refl
      withdraw_30 key refl refl refl refl refl refl (omega arith) refl

abbrev paid_out : Db
paid_out = withdraw_done.1

withdraw_once_example :
    with_session same 12 (withdraw later_draws 1 alice withdraw_30 key) paid_out
    ≡ (ok (withdraw_done.0, find_wallet 1 paid_out), paid_out)
withdraw_once_example =
    withdraw_once b'k' (codes "-1") draws later_draws 1 alice 9 1 alice 12 same same withdraw_30
      withdraw_30 withdraw_done.0 (some (withdrawn_wallet funded_wallet (pos 30))) sample paid_out
      paid_out withdraw_done.2 here
