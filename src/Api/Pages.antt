-- ===== src/Api/Pages.antt =====
-- GET /wallets/{wallet_id}/transactions on every branch.
use distributed_wallet_ledge.Base.{ℕ, ◌≡◌, ◌≢◌, ◌≤◌, false, some}
use distributed_wallet_ledge.Base.Int.{ℤ}
use distributed_wallet_ledge.Base.Text.{length}
use distributed_wallet_ledge.Base.Rows.{take, drop}
use distributed_wallet_ledge.Schema.{Wallet}
use distributed_wallet_ledge.Database.{Db, find_wallet}
use distributed_wallet_ledge.Session.{Session, Result, ok}
use distributed_wallet_ledge.Session.Rules.{clean}
use distributed_wallet_ledge.Repositories.Wallets.Locks.{same}
use distributed_wallet_ledge.Repositories.Entries.Pages.{statement}
use distributed_wallet_ledge.Schema.Responses.{TransactionHistory, history_of}
use distributed_wallet_ledge.Api.{
  Response, answer, http_error, valid_page, natural, list_transactions,
}

module _ (wallet_id : ℕ) (limit offset : ℤ) (user : ℕ) where
  abbrev pub history : Db → TransactionHistory
  history db =
      history_of (natural limit) (natural offset)
        (take (natural limit) (drop (natural offset) (statement wallet_id db)))

  pub data Listing (db : Db) (r : Result (Response TransactionHistory)) : Type 0 where
    refused : valid_page limit offset ≡ false → r ≡ ok (http_error 422) → Listing db r
    hidden :
        ((w : Wallet) → find_wallet wallet_id db ≡ some w → w.user_id ≢ user)
        → r ≡ ok (http_error 404)
        → Listing db r
    listed :
        (w : Wallet)
        → find_wallet wallet_id db ≡ some w
        → w.user_id ≡ user
        → r ≡ ok (answer 200 (history db))
        → length (history db).items ≤ 100
        → Listing db r

  module _ (db : Db) (now : ℕ) where
    abbrev start : Session
    start = clean db db same now

    abbrev run : Result (Response TransactionHistory) × Session
    run = list_transactions wallet_id limit offset user start
