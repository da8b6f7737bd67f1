-- ===== src/Tests/Login.antt =====
-- A registration and the login after it, with tokens that carry their subject and expiry in plain text.
use distributed_wallet_ledge.Base.{
  ℕ, ◌≡◌, refl, ltb, ◌<◌, Bool, true, arith, Option, some, none, [], ◌∷◌, if◌then◌else◌,
}
use distributed_wallet_ledge.Base.Text.{Text, codes, text_eq, text_eq_refl}
use distributed_wallet_ledge.Session.{ok, with_session, flush, wait, commit, attempt, ◌>>=◌}
use distributed_wallet_ledge.Api.{answer}
use distributed_wallet_ledge.Auth.{Tokens, create_access_token, login}
use distributed_wallet_ledge.Auth.Login.{IsJwt}
use distributed_wallet_ledge.Schema.{User}
use distributed_wallet_ledge.Schema.Requests.{UserCreate}
use distributed_wallet_ledge.Database.{user_violation}
use distributed_wallet_ledge.Repositories.Users.{
  user_row, add_user, create, get_by_email, refresh_user,
}
use distributed_wallet_ledge.Users.{register}
use distributed_wallet_ledge.Accounts.{UserRead, valid_user, user_read, register_user, read_me}
use distributed_wallet_ledge.Accounts.Joined.{read_me-login-register_user}
use distributed_wallet_ledge.Tests.Sample.{sample, same}

abbrev open_token : ℕ → Text → Option (Option Text)
open_token time [] = none
open_token time (expiry ∷ subject) = if ltb time expiry then some (some subject) else none

abbrev read_id : Text → Option ℕ
read_id (id ∷ []) = some id
read_id _ = none

abbrev plain : Tokens
plain = record {
  jwt_encode = λ subject expiry. expiry ∷ subject;
  jwt_decode = open_token;
  uuid_text = λ id. id ∷ [];
  parse_uuid = read_id;
}

plain-IsJwt : IsJwt plain
plain-IsJwt = record {
  decode-encode = λ subject expiry time early. rw (before time expiry early);
  parse-text = λ id. refl;
}
  where
    before : (m n : ℕ) → m < n → ltb m n ≡ true
    before m n h = ground arith

abbrev matches : Text → Text → Bool
matches password hash = text_eq password hash

abbrev carol : UserCreate
carol = record { name = codes "C"; email = codes "c@x"; password = codes "password" }

abbrev any_address : Text → Option Text
any_address address = some address

-- A stand-in for the password hash, and its check.
abbrev hashed : Text → Text
hashed password = 36 ∷ password

abbrev verified : Text → Text → Bool
verified password hash = text_eq (hashed password) hash

hashed-verified : (password : Text) → verified password (hashed password) ≡ true
hashed-verified password = text_eq_refl (hashed password)

abbrev carol_row : User
carol_row = user_row 9 (codes "C") (codes "c@x") (hashed (codes "password")) 9

abbrev shown : UserRead
shown = record { id = 9; name = codes "C"; email = codes "c@x"; created_at = 9 }

read_me-login-register_user_example :
    let token = create_access_token plain 100 30 (plain.uuid_text 9) none in
    (with_session same 100
        (login plain verified 100 30 (codes "c@x") (codes "password"))
        (add_user carol_row sample)
      ≡ (ok (answer 200 token), add_user carol_row sample))
    × (read_me plain 200 token (add_user carol_row sample)
        ≡ (answer 200 shown, add_user carol_row sample))
unfolding register_user valid_user user_read register get_by_email create flush wait user_violation
    refresh_user commit attempt ◌>>=◌ text_eq with_session
read_me-login-register_user_example =
    read_me-login-register_user any_address hashed verified plain plain-IsJwt hashed-verified same 9
      9 100 30 200 carol carol shown sample (add_user carol_row sample) refl refl (omega arith)
