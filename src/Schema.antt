-- ===== src/Schema.antt =====
-- The rows of the database (app/db/models): one record for each mapped class, one data type for
-- each enum. A UUID is a number: ids are only compared and sorted. The wallet's
-- `updated_at`, which only the balance answer shows, is left out, and so are the times that no code
-- reads.
pub mod Requests
pub mod Responses
use distributed_wallet_ledge.Base.{ℕ, Option, Bool, true, false}
use distributed_wallet_ledge.Base.Int.{ℤ}
use distributed_wallet_ledge.Base.Text.{Text, codes}

-- `User`
pub record User : Type 0 where
  pub id : ℕ
  pub name : Text
  pub email : Text
  pub password_hash : Text
  pub created_at : ℕ

-- `Wallet`
pub record Wallet : Type 0 where
  pub id : ℕ
  pub user_id : ℕ
  pub currency : Text
  pub available_balance : ℤ
  pub locked_balance : ℤ
  pub created_at : ℕ

pub data TransactionType : Type 0 where
  deposit transfer withdrawal : TransactionType

pub data TransactionStatus : Type 0 where
  pending completed failed : TransactionStatus

-- `TransactionType.value`
abbrev pub type_value : TransactionType → Text
type_value deposit = codes "DEPOSIT"
type_value transfer = codes "TRANSFER"
type_value withdrawal = codes "WITHDRAWAL"

-- `TransactionStatus.value`
abbrev pub status_value : TransactionStatus → Text
status_value pending = codes "PENDING"
status_value completed = codes "COMPLETED"
status_value failed = codes "FAILED"

-- `Transaction`
pub record Transaction : Type 0 where
  pub id : ℕ
  pub type : TransactionType
  pub status : TransactionStatus
  pub currency : Text
  pub idempotency_key : Option Text
  pub created_at : ℕ

pub data EntryType : Type 0 where
  credit debit : EntryType

-- `EntryType.value`
abbrev pub entry_type_value : EntryType → Text
entry_type_value credit = codes "CREDIT"
entry_type_value debit = codes "DEBIT"

abbrev pub is_credit : EntryType → Bool
is_credit credit = true
is_credit debit = false

-- `LedgerEntry`; `seq` is given by the database.
pub record LedgerEntry : Type 0 where
  pub id : ℕ
  pub seq : ℕ
  pub transaction_id : ℕ
  pub entry_type : EntryType
  pub amount : ℤ
  pub currency : Text
  pub wallet_id : Option ℕ
  pub system_account : Option Text
  pub created_at : ℕ

-- The payload that `_record_event` builds. It holds ids as numbers, where the source writes
-- `str(id)` and the consumer reads it back by `uuid.UUID`.
pub record Payload : Type 0 where
  pub transaction_id : ℕ
  pub type : Text
  pub status : Text
  pub currency : Text
  pub amount : ℤ
  pub wallet_id : ℕ
  pub counterparty_wallet_id : Option ℕ
  pub occurred_at : ℕ

-- `OutboxEvent`
pub record OutboxEvent : Type 0 where
  pub id : ℕ
  pub aggregate_type : Text
  pub aggregate_id : ℕ
  pub event_type : Text
  pub payload : Payload
  pub created_at : ℕ
  pub published_at : Option ℕ

-- `TransactionStat`
pub record TransactionStat : Type 0 where
  pub currency : Text
  pub type : Text
  pub count : ℤ
  pub total_amount : ℤ

-- `ProcessedEvent`
pub record ProcessedEvent : Type 0 where
  pub consumer : Text
  pub transaction_id : ℕ
