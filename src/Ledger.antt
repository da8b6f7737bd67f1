-- ===== src/Ledger.antt =====
-- `LedgerService` (app/services/ledger_service.py), statement by statement. The uuids and the time
-- that a call draws are its first argument.
pub mod Steps
pub mod Posting
pub mod Writing
pub mod Deposit
pub mod Replay
pub mod Withdraw
pub mod Transferred
pub mod Transfer
pub mod Idempotent
pub mod Race
pub mod Success
use distributed_wallet_ledge.Base.{
  ℕ, ⊤, not, ◌==◌, Bool, true, false, Option, none, some, List, [], ◌∷◌, if◌then◌else◌,
}
use distributed_wallet_ledge.Base.Int.{ℤ, ◌+ℤ◌, ◌-ℤ◌, ltb_ℤ}
use distributed_wallet_ledge.Base.Text.{Text, codes, text_eq, upper}
use distributed_wallet_ledge.Schema.{
  Wallet, Transaction, deposit as deposit_type, transfer as transfer_type,
  withdrawal as withdrawal_type, credit, debit, Payload, type_value, status_value,
}
use distributed_wallet_ledge.Schema.Requests.{DepositRequest, TransferRequest, WithdrawalRequest}
use distributed_wallet_ledge.Database.{integrity}
use distributed_wallet_ledge.Session.{
  Exec, Session, Result, ok, err, Error, pure, raise, raise_if, or_raise, attempt, commit, rollback,
  assign_wallet, wallet_not_found, wallet_access_denied, insufficient_funds, same_wallet_transfer,
  recipient_not_found, currency_mismatch, refused, key_error, ◌>>=◌, ◌>>◌,
}
use distributed_wallet_ledge.Repositories.Wallets.{
  Locked, lookup, get_by_id, get_with_lock, get_for_update_ordered, refresh_wallet,
}
use distributed_wallet_ledge.Repositories.Transactions.{
  create, mark_completed, get_by_idempotency_key, refresh_transaction,
}
use distributed_wallet_ledge.Repositories.Entries.{create_entry}
use distributed_wallet_ledge.Repositories.Outbox.{add_event}

-- What one call draws from `uuid.uuid4` and `datetime.now`.
pub record Draws : Type 0 where
  pub transaction_id : ℕ
  pub first_entry_id : ℕ
  pub second_entry_id : ℕ
  pub event_id : ℕ
  pub occurred_at : ℕ

-- `SYSTEM_ACCOUNT_FUNDING`
abbrev pub system_account_funding : Text
system_account_funding = codes "EXTERNAL_FUNDING"

abbrev pub event_payload : Draws → Transaction → ℤ → ℕ → Option ℕ → Payload
event_payload draws txn amount wallet_id counterparty_wallet_id = record {
  transaction_id = txn.id;
  type = type_value txn.type;
  status = status_value txn.status;
  currency = txn.currency;
  amount = amount;
  wallet_id = wallet_id;
  counterparty_wallet_id = counterparty_wallet_id;
  occurred_at = draws.occurred_at;
}

-- `_record_event`
unfoldable pub record_event : Draws → Transaction → ℤ → ℕ → Option ℕ → Exec ⊤
unfolding add_event ◌>>=◌
record_event draws txn amount wallet_id counterparty_wallet_id = do
  add_event draws.event_id (codes "transaction") txn.id (codes "transaction.completed")
      (event_payload draws txn amount wallet_id counterparty_wallet_id)
  pure tt

-- `wallet.available_balance += amount`
unfoldable pub credit_balance : Wallet → ℤ → Exec Wallet
unfolding assign_wallet ◌>>=◌
credit_balance w amount = do
  let changed = record w { available_balance = w.available_balance +ℤ amount }
  assign_wallet changed
  pure changed

-- `wallet.available_balance -= amount`
unfoldable pub debit_balance : Wallet → ℤ → Exec Wallet
unfolding assign_wallet ◌>>=◌
debit_balance w amount = do
  let changed = record w { available_balance = w.available_balance -ℤ amount }
  assign_wallet changed
  pure changed

-- Steps 2 to 5 of `deposit`, on the locked wallet.
unfoldable pub deposit_write : Draws → DepositRequest → Wallet → Exec (Transaction × Wallet)
deposit_write draws request wallet = do
  let amount = request.amount
  txn ← create draws.transaction_id deposit_type wallet.currency none
  create_entry draws.first_entry_id txn.id credit amount wallet.currency (some wallet.id) none
  create_entry draws.second_entry_id txn.id debit amount wallet.currency none
      (some system_account_funding)
  wallet' ← credit_balance wallet amount
  txn' ← mark_completed txn
  record_event draws txn' amount wallet'.id none
  commit
  wallet'' ← refresh_wallet wallet'
  txn'' ← refresh_transaction txn'
  pure (txn'', wallet'')

-- `LedgerService.deposit`
unfoldable pub deposit : Draws → ℕ → ℕ → DepositRequest → Exec (Transaction × Wallet)
deposit draws wallet_id requester_id request = do
  found ← get_with_lock wallet_id
  wallet ← or_raise found (wallet_not_found wallet_id)
  raise_if (not (wallet.user_id == requester_id)) (wallet_access_denied wallet_id)
  raise_if (not (text_eq wallet.currency (upper request.currency))) currency_mismatch
  deposit_write draws request wallet

-- `if idempotency_key:` — an empty key counts as none.
abbrev pub given : Option Text → Option Text
given none = none
given (some []) = none
given (some (c ∷ key)) = some (c ∷ key)

-- The answer to a key that was used before: the first transaction, and the wallet's row.
abbrev answer_with : ℕ → Option Transaction → Exec (Option (Transaction × Option Wallet))
answer_with wallet_id none = pure none
answer_with wallet_id (some existing) = do
  wallet ← get_by_id wallet_id
  pure (some (existing, wallet))

unfoldable pub replay : Option Text → ℕ → Exec (Option (Transaction × Option Wallet))
unfolding get_by_idempotency_key get_by_id ◌>>=◌
replay none wallet_id = pure none
replay (some key) wallet_id = do
  existing ← get_by_idempotency_key key
  answer_with wallet_id existing

abbrev or_raise_integrity :
    Option (Transaction × Option Wallet) → Exec (Transaction × Option Wallet)
or_raise_integrity none = raise (refused integrity)
or_raise_integrity (some answer) = pure answer

-- The end of `transfer` and `withdraw`: commit, with the handler of `IntegrityError`, and refresh.
abbrev after_commit :
    Option Text → ℕ → Wallet → Transaction → Result ⊤ → Exec (Transaction × Option Wallet)
after_commit key wallet_id wallet txn (ok _) = do
  wallet' ← refresh_wallet wallet
  txn' ← refresh_transaction txn
  pure (txn', some wallet')
after_commit key wallet_id wallet txn (err (refused integrity)) = do
  rollback
  answer ← replay (given key) wallet_id
  or_raise_integrity answer
after_commit key wallet_id wallet txn (err e) = raise e

unfoldable pub commit_or_replay :
    Option Text → ℕ → Wallet → Transaction → Exec (Transaction × Option Wallet)
unfolding replay attempt commit rollback refresh_wallet refresh_transaction ◌>>=◌
commit_or_replay key wallet_id wallet txn = do
  outcome ← attempt commit
  after_commit key wallet_id wallet txn outcome

-- Steps 3 to 6 of `transfer`, on the locked wallets.
unfoldable pub transfer_write :
    Draws → ℕ → TransferRequest → Option Text → Wallet → Wallet → Exec (Transaction × Option Wallet)
transfer_write draws sender_wallet_id request idempotency_key sender recipient = do
  let amount = request.amount
  txn ← create draws.transaction_id transfer_type sender.currency idempotency_key
  create_entry draws.first_entry_id txn.id debit amount sender.currency (some sender.id) none
  create_entry draws.second_entry_id txn.id credit amount sender.currency (some recipient.id) none
  sender' ← debit_balance sender amount
  recipient' ← credit_balance recipient amount
  txn' ← mark_completed txn
  record_event draws txn' amount sender'.id (some recipient'.id)
  commit_or_replay idempotency_key sender_wallet_id sender' txn'

-- Steps 1 to 6 of `transfer`.
unfoldable pub transfer_locked :
    Draws → ℕ → ℕ → TransferRequest → Option Text → Exec (Transaction × Option Wallet)
transfer_locked draws sender_wallet_id requester_id request idempotency_key = do
  let recipient_wallet_id = request.recipient_wallet_id
  locked ← get_for_update_ordered (sender_wallet_id ∷ recipient_wallet_id ∷ [])
  sender_row ← or_raise (lookup sender_wallet_id locked) (key_error sender_wallet_id)
  recipient_row ← or_raise (lookup recipient_wallet_id locked) (key_error recipient_wallet_id)
  sender ← or_raise sender_row (wallet_not_found sender_wallet_id)
  raise_if (not (sender.user_id == requester_id)) (wallet_access_denied sender_wallet_id)
  recipient ← or_raise recipient_row (recipient_not_found recipient_wallet_id)
  raise_if (not (text_eq sender.currency (upper request.currency))) currency_mismatch
  raise_if (not (text_eq recipient.currency sender.currency)) currency_mismatch
  raise_if (ltb_ℤ sender.available_balance request.amount) (insufficient_funds sender_wallet_id)
  transfer_write draws sender_wallet_id request idempotency_key sender recipient

abbrev or_else :
    Exec (Transaction × Option Wallet)
    → Option (Transaction × Option Wallet)
    → Exec (Transaction × Option Wallet)
or_else m none = m
or_else m (some answer) = pure answer

-- `LedgerService.transfer`
unfoldable pub transfer :
    Draws → ℕ → ℕ → TransferRequest → Option Text → Exec (Transaction × Option Wallet)
transfer draws sender_wallet_id requester_id request idempotency_key = do
  raise_if (sender_wallet_id == request.recipient_wallet_id) (same_wallet_transfer sender_wallet_id)
  answer ← replay (given idempotency_key) sender_wallet_id
  or_else (transfer_locked draws sender_wallet_id requester_id request idempotency_key) answer

-- Steps 2 to 5 of `withdraw`, on the locked wallet.
unfoldable pub withdraw_write :
    Draws → ℕ → WithdrawalRequest → Option Text → Wallet → Exec (Transaction × Option Wallet)
withdraw_write draws wallet_id request idempotency_key wallet = do
  let amount = request.amount
  txn ← create draws.transaction_id withdrawal_type wallet.currency idempotency_key
  create_entry draws.first_entry_id txn.id debit amount wallet.currency (some wallet.id) none
  create_entry draws.second_entry_id txn.id credit amount wallet.currency none
      (some system_account_funding)
  wallet' ← debit_balance wallet amount
  txn' ← mark_completed txn
  record_event draws txn' amount wallet'.id none
  commit_or_replay idempotency_key wallet_id wallet' txn'

-- Steps 1 to 5 of `withdraw`.
unfoldable pub withdraw_locked :
    Draws → ℕ → ℕ → WithdrawalRequest → Option Text → Exec (Transaction × Option Wallet)
withdraw_locked draws wallet_id requester_id request idempotency_key = do
  found ← get_with_lock wallet_id
  wallet ← or_raise found (wallet_not_found wallet_id)
  raise_if (not (wallet.user_id == requester_id)) (wallet_access_denied wallet_id)
  raise_if (not (text_eq wallet.currency (upper request.currency))) currency_mismatch
  raise_if (ltb_ℤ wallet.available_balance request.amount) (insufficient_funds wallet_id)
  withdraw_write draws wallet_id request idempotency_key wallet

-- `LedgerService.withdraw`
unfoldable pub withdraw :
    Draws → ℕ → ℕ → WithdrawalRequest → Option Text → Exec (Transaction × Option Wallet)
withdraw draws wallet_id requester_id request idempotency_key = do
  answer ← replay (given idempotency_key) wallet_id
  or_else (withdraw_locked draws wallet_id requester_id request idempotency_key) answer
