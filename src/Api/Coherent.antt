-- ===== src/Api/Coherent.antt =====
-- The balance cache and the database: requests that follow one another keep the cache a copy of the
-- rows, and a read answers as if there were no cache.
pub mod Balance
use distributed_wallet_ledge.Base.{
  ℕ, ◌≡◌, ◌≢◌, refl, sym, ap, subst, ◌∙◌, ◌==◌, inl, inr, not, true, false, Bool-cases, Option,
  some, none, Option-cases, List, [], ◌∷◌, if◌then◌else◌,
}
use distributed_wallet_ledge.Base.Text.{Text}
use distributed_wallet_ledge.Schema.{Wallet}
use distributed_wallet_ledge.Schema.Requests.{
  DepositRequest, WithdrawalRequest, TransferRequest, valid_deposit, valid_withdrawal,
  valid_transfer,
}
use distributed_wallet_ledge.Database.{Db, find_wallet}
use distributed_wallet_ledge.Session.{
  Error, Result, ok, err, with_session, wallet_not_found, wallet_access_denied, ◌>>=◌,
}
use distributed_wallet_ledge.Repositories.Wallets.{get_by_id}
use distributed_wallet_ledge.WalletService.{get_balance}
use distributed_wallet_ledge.Cache.{Client, Cached, cached_of, IsRedis, get, set, invalidate}
use distributed_wallet_ledge.Repositories.Wallets.Locks.{contains, same}
use distributed_wallet_ledge.Ledger.{Draws}
use distributed_wallet_ledge.Ledger.Deposit.{deposit_outcome}
use distributed_wallet_ledge.Ledger.Withdraw.{withdraw_outcome}
use distributed_wallet_ledge.Ledger.Transfer.{transfer_outcome}
use distributed_wallet_ledge.Schema.Responses.{
  BalanceRead, balance_of_cached, balance_read, MoneyResponse,
}
use distributed_wallet_ledge.Api.{
  Response, answer, http_error, finish, deposit_route, withdraw_route, transfer_route,
  get_balance_route, on_miss, on_lookup,
}
use distributed_wallet_ledge.Api.Touches.{
  Touches, deposit-Touches, withdraw-Touches, transfer-Touches,
}

module _ {S : Type 0} (client : Client S) where
  -- Every balance that the cache holds is the one of the wallet's row.
  abbrev pub IsCoherent : Db → S → Type 0
  IsCoherent db s =
      (k : ℕ) (p : Cached)
      → client.get k s ≡ some (some p)
      → (w : Wallet) × (find_wallet k db ≡ some w) × (p ≡ cached_of w)

  module _ (redis : IsRedis client)
      (reached : (ids : List ℕ) (s : S) → client.delete ids s ≢ none) where
    after_invalidate :
        (id : ℕ) (ids : List ℕ) (s : S) (k : ℕ) (p : Cached)
        → client.get k (invalidate client (id ∷ ids) s) ≡ some (some p)
        → (client.get k s ≡ some (some p)) × (contains k (id ∷ ids) ≡ false)
    unfolding invalidate
    after_invalidate id ids s k p h = elim (Option-cases (client.delete (id ∷ ids) s)) [
      | inl e ↦ elim (reached (id ∷ ids) s e) [ ]
      | inr (s', e) ↦ redis.get-delete (id ∷ ids) k p s s' e (deleted s' e h)
    ]
      where
        deleted :
            (s' : S)
            → client.delete (id ∷ ids) s ≡ some s'
            → client.get k (elim (client.delete (id ∷ ids) s) [ none ↦ s | some t ↦ t ])
              ≡ some (some p)
            → client.get k s' ≡ some (some p)
        deleted s' e h =
            subst (λ q. client.get k (elim q [ none ↦ s | some t ↦ t ]) ≡ some (some p)) e h

    finish-IsCoherent :
        {A : Type 0} (code : Error → Option ℕ) (respond : A → Response MoneyResponse) (id : ℕ)
        (ids : List ℕ) (db : Db) (s : S) (o : Result A × Db)
        → IsCoherent db s
        → Touches (id ∷ ids) db o
        → let (_, db', s') = finish client code respond (id ∷ ids) o s in IsCoherent db' s'
    finish-IsCoherent code respond id ids db s (err e, db') h t =
        subst (λ d. IsCoherent d s) (sym t) h
    finish-IsCoherent code respond id ids db s (ok a, db') h t = λ k p hit.
        let (was, other) = after_invalidate id ids s k p hit in
        let (w, found, copy) = h k p was in (w, t k other ∙ found, copy)

    -- If Redis answers the deletions, a deposit with no other request between leaves the cache a
    -- copy of the rows, as it was.
    pub deposit_route-IsCoherent :
        (draws : Draws) (id user now : ℕ) (request : DepositRequest) (db : Db) (s : S)
        → IsCoherent db s
        → let (_, db', s') = deposit_route client same now draws id user request db s in
          IsCoherent db' s'
    unfolding deposit_route
    deposit_route-IsCoherent draws id user now request db s h =
        elim (Bool-cases (valid_deposit request)) [
          | inl valid ↦ rw valid (
              finish-IsCoherent _ _ id [] db s _ h (
                deposit-Touches draws id user now request db _
                  (deposit_outcome draws id user request now same db)))
          | inr invalid ↦ rw invalid h
        ]

    -- If Redis answers the deletions, a withdrawal with no other request between leaves the cache a
    -- copy of the rows, as it was.
    pub withdraw_route-IsCoherent :
        (draws : Draws) (id user now : ℕ) (request : WithdrawalRequest) (key : Option Text)
        (db : Db) (s : S)
        → IsCoherent db s
        → let (_, db', s') = withdraw_route client same now draws id user request key db s in
          IsCoherent db' s'
    unfolding withdraw_route
    withdraw_route-IsCoherent draws id user now request key db s h =
        elim (Bool-cases (valid_withdrawal request)) [
          | inl valid ↦ rw valid (
              finish-IsCoherent _ _ id [] db s _ h (
                withdraw-Touches draws id user now request key db _
                  (withdraw_outcome draws id user request key now same db)))
          | inr invalid ↦ rw invalid h
        ]

    -- If Redis answers the deletions, a transfer with no other request between leaves the cache a
    -- copy of the rows, the recipient's included, as it was.
    pub transfer_route-IsCoherent :
        (draws : Draws) (id user now : ℕ) (request : TransferRequest) (key : Option Text) (db : Db)
        (s : S)
        → IsCoherent db s
        → let (_, db', s') = transfer_route client same now draws id user request key db s in
          IsCoherent db' s'
    unfolding transfer_route
    transfer_route-IsCoherent draws id user now request key db s h =
        elim (Bool-cases (valid_transfer request)) [
          | inl valid ↦ rw valid (
              finish-IsCoherent _ _ id (request.recipient_wallet_id ∷ []) db s _ h (
                transfer-Touches draws id user now request key db _
                  (transfer_outcome draws id user request key now same db)))
          | inr invalid ↦ rw invalid h
        ]
