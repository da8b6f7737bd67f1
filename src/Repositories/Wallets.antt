-- ===== src/Repositories/Wallets.antt =====
-- `WalletRepository` (app/repositories/wallet_repo.py).
pub mod Locks
pub mod Deadlock
pub mod Rules
use distributed_wallet_ledge.Base.{
  ℕ, ◌==◌, ◌&&◌, ltb, Option, some, none, List, [], ◌∷◌, if◌then◌else◌,
}
use distributed_wallet_ledge.Base.Int.{pos}
use distributed_wallet_ledge.Base.Text.{Text, text_eq}
use distributed_wallet_ledge.Base.Rows.{find}
use distributed_wallet_ledge.Schema.{Wallet}
use distributed_wallet_ledge.Database.{Db, find_wallet, wallet_violation}
use distributed_wallet_ledge.Session.{
  Exec, Session, ok, pure, query, or_raise, refuse, write, wait, flush, instance_gone, ◌>>=◌, ◌>>◌,
}

-- `db.refresh(wallet)`
unfoldable pub refresh_wallet : Wallet → Exec Wallet
unfolding ◌>>=◌
refresh_wallet w = do row ← query (find_wallet w.id); or_raise row (instance_gone w.id)

abbrev pub wallet_row : ℕ → ℕ → Text → ℕ → Wallet
wallet_row id user_id currency now = record {
  id = id;
  user_id = user_id;
  currency = currency;
  available_balance = pos 0;
  locked_balance = pos 0;
  created_at = now;
}

abbrev pub add_wallet : Wallet → Db → Db
add_wallet w db = record db { wallets = w ∷ db.wallets }

-- The INSERT waits for another session that is inserting the same key.
unfoldable pub create : ℕ → ℕ → Text → Exec Wallet
unfolding ◌>>=◌ flush wait refresh_wallet
create id user_id currency = do
  flush
  wait
  wallet ← λ s. (ok (wallet_row id user_id currency s.now), s)
  violation ← query (wallet_violation wallet)
  refuse violation
  write (add_wallet wallet)
  refresh_wallet wallet

unfoldable pub get_by_id : ℕ → Exec (Option Wallet)
get_by_id wallet_id = query (find_wallet wallet_id)

-- `SELECT … FOR UPDATE`
unfoldable pub get_with_lock : ℕ → Exec (Option Wallet)
unfolding wait ◌>>=◌
get_with_lock wallet_id = do wait; query (find_wallet wallet_id)

-- `sorted(set(ids))`
unfoldable pub insert_id : ℕ → List ℕ → List ℕ
insert_id k [] = k ∷ []
insert_id k (j ∷ ids) =
    let rest = insert_id k ids in
    if ltb k j then k ∷ j ∷ ids else if k == j then j ∷ ids else j ∷ rest

unfoldable pub sorted_set : List ℕ → List ℕ
unfolding insert_id
sorted_set [] = []
sorted_set (k ∷ ids) = insert_id k (sorted_set ids)

-- A `dict` from ids to rows, `None` for a missing row. The last assignment to a key counts.
abbrev pub Locked : Type 0
Locked = List (ℕ × Option Wallet)

abbrev pub lookup : ℕ → Locked → Option (Option Wallet)
lookup k [] = none
lookup k ((j, row) ∷ rows) = if j == k then some row else lookup k rows

-- The loop of `get_for_update_ordered`.
unfoldable pub lock_rows : List ℕ → Locked → Exec Locked
unfolding get_with_lock ◌>>=◌
lock_rows [] result = pure result
lock_rows (id ∷ ids) result = do row ← get_with_lock id; lock_rows ids ((id, row) ∷ result)

unfoldable pub get_for_update_ordered : List ℕ → Exec Locked
unfolding sorted_set lock_rows
get_for_update_ordered wallet_ids = lock_rows (sorted_set wallet_ids) []

abbrev pub wallet_of : ℕ → Text → Db → Option Wallet
wallet_of user_id currency db =
    find (λ w. w.user_id == user_id && text_eq w.currency currency) db.wallets

unfoldable pub get_by_user_and_currency : ℕ → Text → Exec (Option Wallet)
get_by_user_and_currency user_id currency = query (wallet_of user_id currency)
