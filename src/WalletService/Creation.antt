-- ===== src/WalletService/Creation.antt =====
-- `WalletService.create_wallet` on every branch.
use distributed_wallet_ledge.Base.{ℕ, sym, subst, ◌≡◌, refl, ==_refl, none, some}
use distributed_wallet_ledge.Base.Text.{upper}
use distributed_wallet_ledge.Schema.{Wallet}
use distributed_wallet_ledge.Schema.Requests.{WalletCreate}
use distributed_wallet_ledge.Database.{Db, Violation, wallet_violation}
use distributed_wallet_ledge.Session.{
  Result, ok, err, Session, refused, wallet_already_exists, with_session,
}
use distributed_wallet_ledge.Session.Rules.{raise_if_some_then, attempt_commit_then}
use distributed_wallet_ledge.Repositories.Wallets.{wallet_row, add_wallet, wallet_of}
use distributed_wallet_ledge.Repositories.Wallets.Locks.{same}
use distributed_wallet_ledge.Repositories.Wallets.Rules.{
  get_by_user_and_currency_then, create_then, refresh_wallet_lem,
}
use distributed_wallet_ledge.WalletService.{create_wallet}

module _ (id owner_id : ℕ) (request : WalletCreate) (now : ℕ) where
  abbrev pub new_wallet : Wallet
  new_wallet = wallet_row id owner_id (upper request.currency) now

  -- Creation on the database `db` at the start, and on `db'` that it finds at the INSERT.
  pub data Creation (db db' : Db) (r : Result Wallet) (after : Db) : Type 0 where
    taken :
        (w : Wallet)
        → wallet_of owner_id (upper request.currency) db ≡ some w
        → r ≡ err (wallet_already_exists (upper request.currency))
        → after ≡ db
        → Creation db db' r after
    rejected :
        (v : Violation)
        → wallet_of owner_id (upper request.currency) db ≡ none
        → wallet_violation new_wallet db' ≡ some v
        → r ≡ err (refused v)
        → after ≡ db'
        → Creation db db' r after
    created :
        wallet_of owner_id (upper request.currency) db ≡ none
        → wallet_violation new_wallet db' ≡ none
        → r ≡ ok new_wallet
        → after ≡ add_wallet new_wallet db'
        → Creation db db' r after

  -- Whatever other sessions commit before the INSERT goes through: an owner who has a wallet in the
  -- currency at the start is refused; a row that the database then refuses is not written; any
  -- other is written, with balance zero, and returned.
  pub create_wallet_outcome :
      (others : Db → Db) (db : Db)
      → let (r, after) = with_session others now (create_wallet id owner_id request) db in
        Creation db (others db) r after
  unfolding create_wallet with_session
  create_wallet_outcome others db =
      let currency = upper request.currency in
      let Goal = λ (o : Result Wallet × Session). Creation db (others db) o.0 o.1.committed in
      let d = add_wallet new_wallet (others db) in
      get_by_user_and_currency_then Goal owner_id currency _ db db others now (
        raise_if_some_then Goal (wallet_of owner_id currency db) _ _ _ (λ w e. taken w e refl refl)
          λ free.
            create_then Goal id owner_id currency _ db others now
              (λ v e. rejected v free e refl refl)
              λ e. attempt_commit_then Goal _ (others db) d same now (
                subst Goal
                  (sym (refresh_wallet_lem new_wallet new_wallet d d same now (rw (==_refl id))))
                  (created free e refl refl)))
