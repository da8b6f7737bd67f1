-- ===== src/Schema/Requests.antt =====
-- The request bodies (app/schemas) and the validation that they state.
use distributed_wallet_ledge.Base.{ℕ, Bool, ◌&&◌, ◌==◌}
use distributed_wallet_ledge.Base.Int.{ℤ, pos, ltb_ℤ}
use distributed_wallet_ledge.Base.Text.{Text, length}

-- `DepositRequest`
pub record DepositRequest : Type 0 where
  pub amount : ℤ
  pub currency : Text

-- `WithdrawalRequest`
pub record WithdrawalRequest : Type 0 where
  pub amount : ℤ
  pub currency : Text

-- `TransferRequest`
pub record TransferRequest : Type 0 where
  pub recipient_wallet_id : ℕ
  pub amount : ℤ
  pub currency : Text

-- `WalletCreate`
pub record WalletCreate : Type 0 where
  pub currency : Text

-- `UserCreate`
pub record UserCreate : Type 0 where
  pub name : Text
  pub email : Text
  pub password : Text

-- `Field(gt=0)` on an amount and `Field(min_length=3, max_length=3)` on a currency.
abbrev valid_amount : ℤ → Bool
valid_amount amount = ltb_ℤ (pos 0) amount

abbrev valid_currency : Text → Bool
valid_currency currency = length currency == 3

unfoldable pub valid_deposit : DepositRequest → Bool
valid_deposit request = valid_amount request.amount && valid_currency request.currency

unfoldable pub valid_withdrawal : WithdrawalRequest → Bool
valid_withdrawal request = valid_amount request.amount && valid_currency request.currency

unfoldable pub valid_transfer : TransferRequest → Bool
valid_transfer request = valid_amount request.amount && valid_currency request.currency

unfoldable pub valid_wallet : WalletCreate → Bool
valid_wallet request = valid_currency request.currency
