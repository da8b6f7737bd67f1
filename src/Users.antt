-- ===== src/Users.antt =====
-- `UserService` (app/services/user_service.py). Password hashing is pwdlib's: `hash_password` is
-- one hash with the salt that it draws, `verify_password` the check of a password against a hash.
pub mod Registration
use distributed_wallet_ledge.Base.{ℕ, ⊤, not, Bool, true, false, Option, none, some, if◌then◌else◌}
use distributed_wallet_ledge.Base.Text.{Text}
use distributed_wallet_ledge.Schema.{User}
use distributed_wallet_ledge.Schema.Requests.{UserCreate}
use distributed_wallet_ledge.Database.{integrity}
use distributed_wallet_ledge.Session.{
  Exec, Error, Result, ok, err, pure, raise, raise_if_some, attempt, commit, rollback, refused,
  email_already_exists, ◌>>=◌, ◌>>◌,
}
use distributed_wallet_ledge.Repositories.Users.{create, get_by_email, refresh_user}

-- The end of `register`: the handler of `IntegrityError`, or the refresh.
abbrev after_commit : Text → User → Result ⊤ → Exec User
after_commit email user (ok _) = refresh_user user
after_commit email user (err (refused integrity)) = rollback >> raise (email_already_exists email)
after_commit email user (err e) = raise e

-- `UserService.register`; `id` is the new user's uuid.
unfoldable pub register : (Text → Text) → ℕ → UserCreate → Exec User
register hash_password id request = do
  existing ← get_by_email request.email
  raise_if_some existing (email_already_exists request.email)
  user ← create id request.name request.email (hash_password request.password)
  outcome ← attempt commit
  after_commit request.email user outcome

abbrev checked : (Text → Text → Bool) → Text → Option User → Option User
checked verify_password password none = none
checked verify_password password (some user) =
    if not (verify_password password user.password_hash) then none else some user

-- `UserService.authenticate`
unfoldable pub authenticate : (Text → Text → Bool) → Text → Text → Exec (Option User)
unfolding get_by_email ◌>>=◌
authenticate verify_password email password = do
  user ← get_by_email email
  pure (checked verify_password password user)
