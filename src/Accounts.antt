-- ===== src/Accounts.antt =====
-- The user routes (app/api/routes/users.py) and their schemas (app/schemas/user.py). Pydantic's check
-- of an address is a parameter: the address in its normal form, or `none`.
pub mod Joined
use distributed_wallet_ledge.Base.{ℕ, Bool, ◌&&◌, leb, Option, some, none, if◌then◌else◌}
use distributed_wallet_ledge.Base.Text.{Text, length}
use distributed_wallet_ledge.Schema.{User}
use distributed_wallet_ledge.Schema.Requests.{UserCreate}
use distributed_wallet_ledge.Database.{Db}
use distributed_wallet_ledge.Session.{Result, ok, err, Error, email_already_exists, with_session}
use distributed_wallet_ledge.Users.{register}
use distributed_wallet_ledge.Api.{Response, answer, http_error, failure}
use distributed_wallet_ledge.Auth.{Tokens, get_current_user}

-- `UserRead`: what a response shows of a user. Its own check of the address, which the stored address
-- has passed already, is left out.
pub record UserRead : Type 0 where
  pub id : ℕ
  pub name : Text
  pub email : Text
  pub created_at : ℕ

unfoldable pub user_read : User → UserRead
user_read u = record { id = u.id; name = u.name; email = u.email; created_at = u.created_at }

-- `Field(min_length=…, max_length=…)`
abbrev pub has_length : ℕ → ℕ → Text → Bool
has_length least most text = leb least (length text) && leb (length text) most

-- A request body as `UserCreate`, or `none` for a 422.
unfoldable pub valid_user : (Text → Option Text) → UserCreate → Option UserCreate
valid_user check_email body =
    if has_length 1 255 body.name && has_length 8 120 body.password
    then elim (check_email body.email) [
      | none ↦ none
      | some email ↦ some (record body { email = email })
    ]
    else none

-- The `except` clause of `register_user`.
abbrev pub register_code : Error → Option ℕ
register_code (email_already_exists _) = some 409
register_code _ = none

abbrev pub registered : Result User → Response UserRead
registered (ok u) = answer 201 (user_read u)
registered (err e) = failure register_code e

-- POST /users
unfoldable pub register_user :
    (Text → Option Text)
    → (Text → Text)
    → (Db → Db)
    → ℕ
    → ℕ
    → UserCreate
    → Db
    → Response UserRead × Db
unfolding valid_user user_read
register_user check_email hash_password others now id body db = elim (valid_user check_email body) [
  | none ↦ (http_error 422, db)
  | some request ↦
      let (r, db') = with_session others now (register hash_password id request) db in
      (registered r, db')
]

abbrev pub profile : Result (Option User) → Response UserRead
profile (ok (some u)) = answer 200 (user_read u)
profile (ok none) = http_error 401
profile (err e) = failure (λ _. none) e

-- GET /users/me
unfoldable pub read_me : Tokens → ℕ → Text → Db → Response UserRead × Db
unfolding user_read
read_me tokens time token db =
    let (r, db') = with_session (λ d. d) time (get_current_user tokens time token) db in
    (profile r, db')
