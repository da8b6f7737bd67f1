-- ===== src/Accounts/Joined.antt =====
-- A user who registers can log in, and reads the same profile that the registration showed.
use distributed_wallet_ledge.Base.{
  ℕ, ◌≡◌, ◌<◌, ◌+◌, ◌*◌, refl, sym, ap, ◌∙◌, subst, Bool, true, Option, some, none, ==_refl,
}
use distributed_wallet_ledge.Base.Text.{Text, text_eq_refl}
use distributed_wallet_ledge.Schema.{User}
use distributed_wallet_ledge.Schema.Requests.{UserCreate}
use distributed_wallet_ledge.Database.{Db, find_user}
use distributed_wallet_ledge.Session.{Result, ok, err, with_session}
use distributed_wallet_ledge.Repositories.Wallets.Locks.{same}
use distributed_wallet_ledge.Repositories.Users.{add_user, user_with_email}
use distributed_wallet_ledge.Users.{register}
use distributed_wallet_ledge.Users.Registration.{new_user, registered_row, register_outcome}
use distributed_wallet_ledge.Api.{Response, answer, http_error, unhandled}
use distributed_wallet_ledge.Auth.{Tokens, create_access_token, login}
use distributed_wallet_ledge.Auth.Login.{IsJwt, get_current_user-login}
use distributed_wallet_ledge.Accounts.{
  UserRead, user_read, valid_user, registered, register_code, register_user, profile, read_me,
}

answered :
    (r : Result User) (shown : UserRead)
    → registered r ≡ answer 201 shown
    → (u : User) × (r ≡ ok u) × (user_read u ≡ shown)
answered (ok u) shown h = (u, refl, cc h)
answered (err e) shown h = elim (not_answered (register_code e) h) [ ]
  where
    not_answered :
        (code : Option ℕ)
        → elim code [ some n ↦ http_error n | none ↦ unhandled e ] ≡ answer 201 shown
        → ⊥
    not_answered none h = cc h
    not_answered (some n) h = cc h

module _ (verify_password : Text → Text → Bool) (tokens : Tokens) (time default later : ℕ)
    (email password : Text) (id : ℕ) where
  abbrev token : Text
  token = create_access_token tokens time default (tokens.uuid_text id) none

  abbrev LogsIn : UserRead → Db → Type 0
  LogsIn shown db =
      (with_session same time (login tokens verify_password time default email password) db
        ≡ (ok (answer 200 token), db))
      × (read_me tokens later token db ≡ (answer 200 shown, db))

  -- On a table whose newest row is the user's.
  newest-LogsIn :
      IsJwt tokens
      → (u : User) (db : Db) → u.email ≡ email
      → u.id ≡ id
      → verify_password password u.password_hash ≡ true
      → later < time + 60 * default
      → LogsIn (user_read u) (add_user u db)
  unfolding read_me
  newest-LogsIn jwt u db same_email same_id good early =
      let first : user_with_email email (add_user u db) ≡ some u =
        subst (λ e. user_with_email e (add_user u db) ≡ some u) same_email
          (rw (text_eq_refl u.email)) in
      let there : find_user u.id (add_user u db) ≡ some u = rw (==_refl u.id) in
      let (logged, me) =
        get_current_user-login tokens jwt verify_password time default later email password u
          (add_user u db) (add_user u db) first good there early in
      subst
        (λ i.
          (with_session same time (login tokens verify_password time default email password)
              (add_user u db)
            ≡ (
              ok (answer 200 (create_access_token tokens time default (tokens.uuid_text i) none)),
              add_user u db,
            ))
          × (read_me tokens later
                (create_access_token tokens time default (tokens.uuid_text i) none) (add_user u db)
              ≡ (answer 200 (user_read u), add_user u db)))
        same_id (logged, ap (λ (o : Result (Option User) × Db). (profile o.0, o.1)) me)

-- After a registration that was answered with 201, with no other session between: the address in its
-- normal form and the password log in with 200 and a token, and at any time before the token expires
-- `/users/me` answers it with 200 and the profile that the registration showed. Neither request
-- changes anything.
pub read_me-login-register_user :
    (check_email : Text → Option Text) (hash_password : Text → Text)
    (verify_password : Text → Text → Bool) (tokens : Tokens)
    → IsJwt tokens
    → ((password : Text) → verify_password password (hash_password password) ≡ true)
    → (others : Db → Db) (now id time default later : ℕ) (body request : UserCreate)
      (shown : UserRead) (db after : Db)
    → valid_user check_email body ≡ some request
    → register_user check_email hash_password others now id body db ≡ (answer 201 shown, after)
    → later < time + 60 * default
    → let token = create_access_token tokens time default (tokens.uuid_text id) none in
      (with_session same time
          (login tokens verify_password time default request.email request.password)
          after
        ≡ (ok (answer 200 token), after))
      × (read_me tokens later token after ≡ (answer 200 shown, after))
unfolding register_user read_me
read_me-login-register_user check_email hash_password verify_password tokens jwt verifies others now
      id time default later body request shown db after valid done early =
    let o = with_session others now (register hash_password id request) db in
    let e : (registered o.0, o.1) ≡ (answer 201 shown, after) = rw (valid, register_user) at done in
    let (u, is_ok, is_shown) = answered o.0 shown (ap (λ (x : Response UserRead × Db). x.0) e) in
    let (same_user, same_db) =
      registered_row hash_password id request now db (others db) o.0 o.1 u
        (register_outcome hash_password id request now others db) is_ok in
    let row = new_user hash_password id request now in
    subst (LogsIn verify_password tokens time default later request.email request.password id shown)
      (sym same_db ∙ ap (λ (x : Response UserRead × Db). x.1) e)
      (subst
        (λ s.
          LogsIn verify_password tokens time default later request.email request.password id s
            (add_user row (others db)))
        (ap user_read (sym same_user) ∙ is_shown)
        (newest-LogsIn verify_password tokens time default later request.email request.password id
          jwt row (others db) refl refl (verifies request.password) early))
