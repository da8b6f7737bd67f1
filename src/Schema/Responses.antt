-- ===== src/Schema/Responses.antt =====
-- The response bodies (app/schemas), and the answers that Pydantic makes of a row or of a payload of
-- the cache.
use distributed_wallet_ledge.Base.{ℕ, Option, List, map}
use distributed_wallet_ledge.Base.Int.{ℤ}
use distributed_wallet_ledge.Base.Text.{Text}
use distributed_wallet_ledge.Schema.{Wallet, LedgerEntry, entry_type_value}
use distributed_wallet_ledge.Cache.{Cached}

-- `WalletRead`
pub record WalletRead : Type 0 where
  pub id : ℕ
  pub user_id : ℕ
  pub currency : Text
  pub available_balance : ℤ
  pub locked_balance : ℤ
  pub created_at : ℕ

abbrev pub wallet_read : Wallet → WalletRead
wallet_read w = record {
  id = w.id;
  user_id = w.user_id;
  currency = w.currency;
  available_balance = w.available_balance;
  locked_balance = w.locked_balance;
  created_at = w.created_at;
}

-- `BalanceRead`, without `updated_at`; the owner is not in it.
pub record BalanceRead : Type 0 where
  pub id : ℕ
  pub currency : Text
  pub available_balance : ℤ
  pub locked_balance : ℤ

-- Of a hit: `BalanceRead(id=cached["id"], …)`.
abbrev pub balance_of_cached : Cached → BalanceRead
balance_of_cached cached = record {
  id = cached.id;
  currency = cached.currency;
  available_balance = cached.available_balance;
  locked_balance = cached.locked_balance;
}

-- Of the row, by `from_attributes`.
abbrev pub balance_read : Wallet → BalanceRead
balance_read w = record {
  id = w.id;
  currency = w.currency;
  available_balance = w.available_balance;
  locked_balance = w.locked_balance;
}

-- `DepositResponse`, `TransferResponse` and `WithdrawalResponse`; a deposit has no status.
pub record MoneyResponse : Type 0 where
  pub transaction_id : ℕ
  pub status : Option Text
  pub available_balance : ℤ
  pub currency : Text

-- `TransactionHistoryItem`
pub record TransactionHistoryItem : Type 0 where
  pub transaction_id : ℕ
  pub entry_type : Text
  pub amount : ℤ
  pub currency : Text
  pub created_at : ℕ

-- One leg of a page.
abbrev pub history_item : LedgerEntry → TransactionHistoryItem
history_item e = record {
  transaction_id = e.transaction_id;
  entry_type = entry_type_value e.entry_type;
  amount = e.amount;
  currency = e.currency;
  created_at = e.created_at;
}

-- `TransactionHistory`
pub record TransactionHistory : Type 0 where
  pub items : List TransactionHistoryItem
  pub limit : ℕ
  pub offset : ℕ

abbrev pub history_of : ℕ → ℕ → List LedgerEntry → TransactionHistory
history_of limit offset entries = record {
  items = map history_item entries;
  limit = limit;
  offset = offset;
}
