-- ===== src/Cache.antt =====
-- `BalanceCache` (app/cache/redis_cache.py). The Redis client is a parameter, of which every call
-- may raise; the key of a wallet is its id, and a payload stands for its JSON text.
use distributed_wallet_ledge.Base.{ℕ, ◌≡◌, ◌⊎◌, false, Option, some, none, List, [], ◌∷◌}
use distributed_wallet_ledge.Base.Int.{ℤ}
use distributed_wallet_ledge.Base.Text.{Text}
use distributed_wallet_ledge.Schema.{Wallet}
use distributed_wallet_ledge.Repositories.Wallets.Locks.{contains}

-- The payload that the balance route stores, without `updated_at`.
pub record Cached : Type 0 where
  pub id : ℕ
  pub user_id : ℕ
  pub currency : Text
  pub available_balance : ℤ
  pub locked_balance : ℤ

abbrev pub cached_of : Wallet → Cached
cached_of w = record {
  id = w.id;
  user_id = w.user_id;
  currency = w.currency;
  available_balance = w.available_balance;
  locked_balance = w.locked_balance;
}

-- The client's calls on the server's state `S`: `none` where the call raises.
pub record Client (S : Type 0) : Type 0 where
  pub get : ℕ → S → Option (Option Cached)
  pub setex : ℕ → ℕ → Cached → S → Option S
  pub delete : List ℕ → S → Option S

-- What Redis documents: a key is gone once it is deleted, and what a key holds is the last value that
-- was set, if it has not expired.
pub record IsRedis {S : Type 0} (client : Client S) : Type 0 where
  pub get-delete :
      (ids : List ℕ) (k : ℕ) (p : Cached) (s s' : S)
      → client.delete ids s ≡ some s'
      → client.get k s' ≡ some (some p)
      → (client.get k s ≡ some (some p)) × (contains k ids ≡ false)
  pub get-setex :
      (j ttl k : ℕ) (p q : Cached) (s s' : S)
      → client.setex j ttl p s ≡ some s'
      → client.get k s' ≡ some (some q)
      → ((k ≡ j) × (q ≡ p)) ⊎ (client.get k s ≡ some (some q))

module _ {S : Type 0} (client : Client S) where
  -- `get`: an exception counts as a miss.
  unfoldable pub get : ℕ → S → Option Cached
  get wallet_id s = elim (client.get wallet_id s) [ none ↦ none | some raw ↦ raw ]

  -- `set`, with `ttl_seconds`
  unfoldable pub set : ℕ → ℕ → Cached → S → S
  set ttl_seconds wallet_id payload s = elim (client.setex wallet_id ttl_seconds payload s) [
    | none ↦ s
    | some s' ↦ s'
  ]

  -- `invalidate`
  unfoldable pub invalidate : List ℕ → S → S
  invalidate [] s = s
  invalidate (id ∷ ids) s = elim (client.delete (id ∷ ids) s) [ none ↦ s | some s' ↦ s' ]
