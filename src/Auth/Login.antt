-- ===== src/Auth/Login.antt =====
-- A login gives a token that identifies the user until it expires.
use distributed_wallet_ledge.Base.{ℕ, ◌≡◌, ◌<◌, ◌+◌, ◌*◌, Bool, true, sym, subst, some, none}
use distributed_wallet_ledge.Base.Text.{Text}
use distributed_wallet_ledge.Schema.{User}
use distributed_wallet_ledge.Database.{Db, find_user}
use distributed_wallet_ledge.Session.{ok, with_session, ◌>>=◌}
use distributed_wallet_ledge.Repositories.Wallets.Locks.{same}
use distributed_wallet_ledge.Repositories.Users.{user_with_email, get_by_id, get_by_email}
use distributed_wallet_ledge.Users.{authenticate}
use distributed_wallet_ledge.Api.{answer}
use distributed_wallet_ledge.Auth.{
  Tokens, create_access_token, decode_access_token, subject_id, user_of, login, get_current_user,
}

-- What PyJWT and `uuid` document: a token gives back its subject before its expiry, and a uuid is
-- read back from its text.
pub record IsJwt (tokens : Tokens) : Type 0 where
  pub decode-encode :
      (subject : Text) (expiry time : ℕ)
      → time < expiry
      → tokens.jwt_decode time (tokens.jwt_encode subject expiry) ≡ some (some subject)
  pub parse-text : (id : ℕ) → tokens.parse_uuid (tokens.uuid_text id) ≡ some id

token_subject :
    (tokens : Tokens)
    → IsJwt tokens
    → (id expiry later : ℕ) → later < expiry
    → subject_id tokens
        (decode_access_token tokens later (tokens.jwt_encode (tokens.uuid_text id) expiry))
      ≡ some id
token_subject tokens jwt id expiry later early =
    subst (λ o. subject_id tokens (elim o [ none ↦ none | some subject ↦ subject ]) ≡ some id)
      (sym (jwt.decode-encode (tokens.uuid_text id) expiry later early)) (jwt.parse-text id)

-- A user whose password verifies logs in with 200 and a token, and the token identifies this user,
-- at any time before it expires, on any database that still has the row; neither changes anything.
pub get_current_user-login :
    (tokens : Tokens)
    → IsJwt tokens
    → (verify_password : Text → Text → Bool) (time default later : ℕ) (email password : Text)
      (u : User) (db db' : Db)
    → user_with_email email db ≡ some u
    → verify_password password u.password_hash ≡ true
    → find_user u.id db' ≡ some u
    → later < time + 60 * default
    → let token = create_access_token tokens time default (tokens.uuid_text u.id) none in
      (with_session same time (login tokens verify_password time default email password) db
        ≡ (ok (answer 200 token), db))
      × (with_session same later (get_current_user tokens later token) db' ≡ (ok (some u), db'))
unfolding with_session login authenticate get_current_user get_by_email get_by_id ◌>>=◌
get_current_user-login tokens jwt verify_password time default later email password u db db' found
      good there early =
    (
      rw (found, good),
      subst (λ o. with_session same later (user_of tokens o) db' ≡ (ok (some u), db'))
          (sym (token_subject tokens jwt u.id (time + 60 * default) later early)) (rw there),
    )
