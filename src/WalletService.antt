-- ===== src/WalletService.antt =====
-- `WalletService` (app/services/wallet_service.py).
pub mod Creation
use distributed_wallet_ledge.Base.{ℕ, ⊤, not, ◌==◌, Option, none, some}
use distributed_wallet_ledge.Base.Text.{Text, upper}
use distributed_wallet_ledge.Schema.{Wallet}
use distributed_wallet_ledge.Schema.Requests.{WalletCreate}
use distributed_wallet_ledge.Database.{integrity}
use distributed_wallet_ledge.Session.{
  Exec, Error, Result, ok, err, pure, raise, raise_if, raise_if_some, or_raise, attempt, commit,
  rollback, refused, wallet_already_exists, wallet_not_found, wallet_access_denied, ◌>>=◌, ◌>>◌,
}
use distributed_wallet_ledge.Repositories.Wallets.{
  create, get_by_id, get_by_user_and_currency, refresh_wallet,
}

-- The end of `create_wallet`: the handler of `IntegrityError`, or the refresh.
abbrev after_commit : Text → Wallet → Result ⊤ → Exec Wallet
after_commit currency wallet (ok _) = refresh_wallet wallet
after_commit currency wallet (err (refused integrity)) =
    rollback >> raise (wallet_already_exists currency)
after_commit currency wallet (err e) = raise e

-- `WalletService.create_wallet`; `id` is the new wallet's uuid.
unfoldable pub create_wallet : ℕ → ℕ → WalletCreate → Exec Wallet
create_wallet id owner_id request = do
  let currency = upper request.currency
  existing ← get_by_user_and_currency owner_id currency
  raise_if_some existing (wallet_already_exists currency)
  wallet ← create id owner_id currency
  outcome ← attempt commit
  after_commit currency wallet outcome

-- `WalletService.get_balance`
unfoldable pub get_balance : ℕ → ℕ → Exec Wallet
unfolding ◌>>=◌ get_by_id
get_balance wallet_id requester_id = do
  found ← get_by_id wallet_id
  wallet ← or_raise found (wallet_not_found wallet_id)
  raise_if (not (wallet.user_id == requester_id)) (wallet_access_denied wallet_id)
  pure wallet
