-- ===== src/Repositories/Users.antt =====
-- `UserRepository` (app/repositories/user_repo.py).
use distributed_wallet_ledge.Base.{ℕ, Option, ◌∷◌}
use distributed_wallet_ledge.Base.Text.{Text, text_eq}
use distributed_wallet_ledge.Base.Rows.{find}
use distributed_wallet_ledge.Schema.{User}
use distributed_wallet_ledge.Database.{Db, find_user, user_violation}
use distributed_wallet_ledge.Session.{
  Exec, ok, query, or_raise, refuse, write, wait, flush, instance_gone, ◌>>=◌, ◌>>◌,
}

-- `db.refresh(user)`
unfoldable pub refresh_user : User → Exec User
unfolding ◌>>=◌
refresh_user u = do row ← query (find_user u.id); or_raise row (instance_gone u.id)

abbrev pub user_row : ℕ → Text → Text → Text → ℕ → User
user_row id name email password_hash now = record {
  id = id;
  name = name;
  email = email;
  password_hash = password_hash;
  created_at = now;
}

abbrev pub add_user : User → Db → Db
add_user u db = record db { users = u ∷ db.users }

-- The INSERT waits for another session that is inserting the same email.
unfoldable pub create : ℕ → Text → Text → Text → Exec User
unfolding ◌>>=◌ flush wait refresh_user
create id name email password_hash = do
  flush
  wait
  user ← λ s. (ok (user_row id name email password_hash s.now), s)
  violation ← query (user_violation user)
  refuse violation
  write (add_user user)
  refresh_user user

abbrev pub user_with_email : Text → Db → Option User
user_with_email email db = find (λ u. text_eq u.email email) db.users

unfoldable pub get_by_email : Text → Exec (Option User)
get_by_email email = query (user_with_email email)

unfoldable pub get_by_id : ℕ → Exec (Option User)
get_by_id id = query (find_user id)
