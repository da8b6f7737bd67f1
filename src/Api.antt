-- ===== src/Api.antt =====
-- The wallet routes (app/api/routes/wallets.py): the services, the status codes of their errors, and
-- the balance cache. `user` is the id of `current_user`. A body that its schema refuses is answered
-- with 422 before the route runs.
pub mod Touches
pub mod Coherent
pub mod Pages
pub mod Opened
use distributed_wallet_ledge.Base.{
  ℕ, ◌==◌, ◌&&◌, not, Bool, true, false, Option, some, none, List, [], ◌∷◌, map, if◌then◌else◌,
}
use distributed_wallet_ledge.Base.Int.{ℤ, pos, negsuc, leb_ℤ}
use distributed_wallet_ledge.Base.Text.{Text}
use distributed_wallet_ledge.Schema.{
  Wallet, Transaction, LedgerEntry, status_value, entry_type_value,
}
use distributed_wallet_ledge.Schema.Requests.{
  DepositRequest, WithdrawalRequest, TransferRequest, WalletCreate, valid_deposit, valid_withdrawal,
  valid_transfer, valid_wallet,
}
use distributed_wallet_ledge.Schema.Responses.{
  WalletRead, wallet_read, BalanceRead, balance_of_cached, balance_read, MoneyResponse,
  TransactionHistory, history_of,
}
use distributed_wallet_ledge.Database.{Db}
use distributed_wallet_ledge.Session.{
  Exec, pure, ◌>>=◌, Error, Result, ok, err, with_session, wallet_not_found, wallet_access_denied,
  currency_mismatch, recipient_not_found, same_wallet_transfer, insufficient_funds,
  wallet_already_exists,
}
use distributed_wallet_ledge.Cache.{Client, Cached, cached_of, get, set, invalidate}
use distributed_wallet_ledge.Repositories.Wallets.{get_by_id}
use distributed_wallet_ledge.Repositories.Entries.{get_entries_for_wallet}
use distributed_wallet_ledge.WalletService.{create_wallet, get_balance}
use distributed_wallet_ledge.Ledger.{Draws, deposit, withdraw, transfer}

-- An answer with its status code, an `HTTPException`, or an exception that the route lets through:
-- one of the services, or the `AttributeError` of a missing wallet.
pub data Response (A : Type 0) : Type 0 where
  answer : ℕ → A → Response A
  http_error : ℕ → Response A
  unhandled : Error → Response A
  attribute_error : Response A

-- The `except` clauses of the routes: the code of a service's error, if there is a clause for it.
abbrev pub deposit_code : Error → Option ℕ
deposit_code (wallet_not_found _) = some 404
deposit_code (wallet_access_denied _) = some 404
deposit_code currency_mismatch = some 409
deposit_code _ = none

abbrev pub transfer_code : Error → Option ℕ
transfer_code (wallet_not_found _) = some 404
transfer_code (wallet_access_denied _) = some 404
transfer_code (recipient_not_found _) = some 404
transfer_code currency_mismatch = some 409
transfer_code (same_wallet_transfer _) = some 422
transfer_code (insufficient_funds _) = some 422
transfer_code _ = none

abbrev pub withdraw_code : Error → Option ℕ
withdraw_code (wallet_not_found _) = some 404
withdraw_code (wallet_access_denied _) = some 404
withdraw_code currency_mismatch = some 409
withdraw_code (insufficient_funds _) = some 422
withdraw_code _ = none

abbrev pub create_code : Error → Option ℕ
create_code (wallet_already_exists _) = some 409
create_code _ = none

abbrev pub balance_code : Error → Option ℕ
balance_code (wallet_not_found _) = some 404
balance_code (wallet_access_denied _) = some 404
balance_code _ = none

abbrev pub failure : {A : Type 0} → (Error → Option ℕ) → Error → Response A
failure code e = elim (code e) [ some n ↦ http_error n | none ↦ unhandled e ]

abbrev pub deposited : Transaction × Wallet → Response MoneyResponse
deposited (txn, w) = answer 200 (record {
  transaction_id = txn.id;
  status = none;
  available_balance = w.available_balance;
  currency = w.currency;
})

-- A replay may come without a wallet.
abbrev pub moved : Transaction × Option Wallet → Response MoneyResponse
moved (txn, none) = attribute_error
moved (txn, some w) = answer 200 (record {
  transaction_id = txn.id;
  status = some (status_value txn.status);
  available_balance = w.available_balance;
  currency = w.currency;
})

-- POST /wallets
unfoldable pub create_wallet_route :
    (Db → Db) → ℕ → ℕ → ℕ → WalletCreate → Db → Response WalletRead × Db
create_wallet_route others now id user request db =
    if valid_wallet request
    then (let (r, db') = with_session others now (create_wallet id user request) db in
        (elim r [ ok w ↦ answer 201 (wallet_read w) | err e ↦ failure create_code e ], db'))
    else (http_error 422, db)

module _ {S : Type 0} (client : Client S) where
  -- The end of a route that moves money: the caches of `ids` go, whatever the answer then is.
  abbrev pub finish :
      {A : Type 0}
      → (Error → Option ℕ)
      → (A → Response MoneyResponse)
      → List ℕ
      → Result A × Db
      → S
      → Response MoneyResponse × Db × S
  finish code respond ids (ok a, db) s = (respond a, db, invalidate client ids s)
  finish code respond ids (err e, db) s = (failure code e, db, s)

  -- POST /wallets/{wallet_id}/deposit
  unfoldable pub deposit_route :
      (Db → Db) → ℕ → Draws → ℕ → ℕ → DepositRequest → Db → S → Response MoneyResponse × Db × S
  deposit_route others now draws wallet_id user request db s =
      if valid_deposit request
      then finish deposit_code deposited (wallet_id ∷ [])
          (with_session others now (deposit draws wallet_id user request) db) s
      else (http_error 422, db, s)

  -- POST /wallets/{wallet_id}/transfer
  unfoldable pub transfer_route :
      (Db → Db)
      → ℕ
      → Draws
      → ℕ
      → ℕ
      → TransferRequest
      → Option Text
      → Db
      → S
      → Response MoneyResponse × Db × S
  transfer_route others now draws wallet_id user request key db s =
      if valid_transfer request
      then finish transfer_code moved (wallet_id ∷ request.recipient_wallet_id ∷ [])
          (with_session others now (transfer draws wallet_id user request key) db) s
      else (http_error 422, db, s)

  -- POST /wallets/{wallet_id}/withdraw
  unfoldable pub withdraw_route :
      (Db → Db)
      → ℕ
      → Draws
      → ℕ
      → ℕ
      → WithdrawalRequest
      → Option Text
      → Db
      → S
      → Response MoneyResponse × Db × S
  withdraw_route others now draws wallet_id user request key db s =
      if valid_withdrawal request
      then finish withdraw_code moved (wallet_id ∷ [])
          (with_session others now (withdraw draws wallet_id user request key) db) s
      else (http_error 422, db, s)

  -- The part of the balance route after a miss.
  abbrev pub on_miss : ℕ → ℕ → Result Wallet × Db → S → Response BalanceRead × Db × S
  on_miss ttl wallet_id (ok w, db) s =
      (answer 200 (balance_read w), db, set client ttl wallet_id (cached_of w) s)
  on_miss ttl wallet_id (err e, db) s = (failure balance_code e, db, s)

  abbrev pub on_lookup :
      (Db → Db) → ℕ → ℕ → ℕ → ℕ → Db → S → Option Cached → Response BalanceRead × Db × S
  on_lookup others now ttl wallet_id user db s (some cached) = (
    (if not (cached.user_id == user)
        then http_error 404
        else answer 200 (balance_of_cached cached)),
    db,
    s,
  )
  on_lookup others now ttl wallet_id user db s none =
      on_miss ttl wallet_id (with_session others now (get_balance wallet_id user) db) s

  -- GET /wallets/{wallet_id}/balance
  unfoldable pub get_balance_route :
      (Db → Db) → ℕ → ℕ → ℕ → ℕ → Db → S → Response BalanceRead × Db × S
  get_balance_route others now ttl wallet_id user db s =
      on_lookup others now ttl wallet_id user db s (get client wallet_id s)

-- `Query(20, ge=1, le=100)` and `Query(0, ge=0)`
abbrev pub valid_page : ℤ → ℤ → Bool
valid_page limit offset = leb_ℤ (pos 1) limit && leb_ℤ limit (pos 100) && leb_ℤ (pos 0) offset

-- The number of an integer that is not negative.
abbrev pub natural : ℤ → ℕ
natural (pos n) = n
natural (negsuc n) = 0

-- `list_transactions` on the wallet that it found: one answer for a wallet that is missing and for
-- one of another user.
abbrev pub list_for : ℕ → ℕ → ℕ → ℕ → Option Wallet → Exec (Response TransactionHistory)
list_for wallet_id limit offset user none = pure (http_error 404)
list_for wallet_id limit offset user (some w) =
    if not (w.user_id == user) then pure (http_error 404) else (do
      entries ← get_entries_for_wallet wallet_id limit offset
      pure (answer 200 (history_of limit offset entries)))

-- GET /wallets/{wallet_id}/transactions
unfoldable pub list_transactions : ℕ → ℤ → ℤ → ℕ → Exec (Response TransactionHistory)
unfolding get_by_id get_entries_for_wallet ◌>>=◌
list_transactions wallet_id limit offset user =
    if not (valid_page limit offset) then pure (http_error 422) else (do
      wallet ← get_by_id wallet_id
      list_for wallet_id (natural limit) (natural offset) user wallet)
