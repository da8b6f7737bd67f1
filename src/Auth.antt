-- ===== src/Auth.antt =====
-- Tokens, the login route and `get_current_user` (app/core/security.py, app/api/routes/auth.py,
-- app/api/deps.py). PyJWT and the text form of a uuid are parameters. Times are in seconds.
pub mod Login
use distributed_wallet_ledge.Base.{ℕ, zero, suc, ◌+◌, ◌*◌, Bool, Option, some, none}
use distributed_wallet_ledge.Base.Text.{Text}
use distributed_wallet_ledge.Schema.{User}
use distributed_wallet_ledge.Session.{Exec, pure, ◌>>=◌}
use distributed_wallet_ledge.Repositories.Users.{get_by_id}
use distributed_wallet_ledge.Users.{authenticate}
use distributed_wallet_ledge.Api.{Response, answer, http_error}

-- The third-party calls: a token for a subject and an expiry, the subject of a token that is valid at
-- a time (`none` where PyJWT raises), and `str` and `uuid.UUID` on ids.
pub record Tokens : Type 0 where
  pub jwt_encode : Text → ℕ → Text
  pub jwt_decode : ℕ → Text → Option (Option Text)
  pub uuid_text : ℕ → Text
  pub parse_uuid : Text → Option ℕ

-- `expires_minutes or settings.access_token_expiry_minutes`
abbrev pub expiry_minutes : Option ℕ → ℕ → ℕ
expiry_minutes none default = default
expiry_minutes (some zero) default = default
expiry_minutes (some (suc n)) default = suc n

module _ (tokens : Tokens) where
  abbrev pub create_access_token : ℕ → ℕ → Text → Option ℕ → Text
  create_access_token time default subject minutes =
      tokens.jwt_encode subject (time + 60 * expiry_minutes minutes default)

  abbrev pub decode_access_token : ℕ → Text → Option Text
  decode_access_token time token = elim (tokens.jwt_decode time token) [
    | none ↦ none
    | some subject ↦ subject
  ]

  abbrev pub logged_in : ℕ → ℕ → Option User → Response Text
  logged_in time default none = http_error 401
  logged_in time default (some user) =
      answer 200 (create_access_token time default (tokens.uuid_text user.id) none)

  -- POST /auth/login
  unfoldable pub login : (Text → Text → Bool) → ℕ → ℕ → Text → Text → Exec (Response Text)
  unfolding authenticate ◌>>=◌
  login verify_password time default username password = do
    user ← authenticate verify_password username password
    pure (logged_in time default user)

  abbrev pub user_of : Option ℕ → Exec (Option User)
  user_of none = pure none
  user_of (some id) = get_by_id id

  abbrev pub subject_id : Option Text → Option ℕ
  subject_id none = none
  subject_id (some subject) = tokens.parse_uuid subject

  -- `get_current_user`: `none` is the 401 of `credentials_exc`.
  unfoldable pub get_current_user : ℕ → Text → Exec (Option User)
  unfolding get_by_id
  get_current_user time token = user_of (subject_id (decode_access_token time token))
