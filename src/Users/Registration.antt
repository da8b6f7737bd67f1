-- ===== src/Users/Registration.antt =====
-- `UserService.register` on every branch, and a login after it.
use distributed_wallet_ledge.Base.{
  ℕ, ◌≡◌, refl, ap, sym, subst, Bool-cases, ==_refl, Bool, Option, none, some, Option-cases, inl,
  inr, if◌then◌else◌,
}
use distributed_wallet_ledge.Base.Text.{Text, text_eq_refl}
use distributed_wallet_ledge.Schema.{User}
use distributed_wallet_ledge.Schema.Requests.{UserCreate}
use distributed_wallet_ledge.Database.{Db, Violation, find_user, user_violation}
use distributed_wallet_ledge.Session.{
  Result, ok, err, Exec, Session, ◌>>=◌, refused, email_already_exists, with_session,
}
use distributed_wallet_ledge.Session.Rules.{clean, raise_if_some_then, attempt_commit_then}
use distributed_wallet_ledge.Repositories.Users.{
  user_row, add_user, create, get_by_email, refresh_user, user_with_email,
}
use distributed_wallet_ledge.Repositories.Wallets.Locks.{same}
use distributed_wallet_ledge.Users.{register, authenticate}

module _ {B : Type 0} (Q : Result B × Session → Type 0) where
  get_by_email_then :
      (email : Text) (f : Option User → Exec B) (c w : Db) (o : Db → Db) (n : ℕ)
      → Q (f (user_with_email email w) (clean c w o n))
      → Q ((get_by_email email >>= f) (clean c w o n))
  unfolding get_by_email ◌>>=◌
  get_by_email_then email f c w o n h = h

  create_then :
      (id : ℕ) (name email hash : Text) (f : User → Exec B) (db : Db) (others : Db → Db) (n : ℕ)
      → let row = user_row id name email hash n in
        let found = others db in
        ((v : Violation)
          → user_violation row found ≡ some v
          → Q (err (refused v), clean found found same n))
        → (user_violation row found ≡ none → Q (f row (clean found (add_user row found) same n)))
        → Q ((create id name email hash >>= f) (clean db db others n))
  unfolding create ◌>>=◌
  create_then id name email hash f db others n fail go =
      elim (Option-cases (user_violation (user_row id name email hash n) (others db))) [
        | inl e ↦ rw (e, ==_refl id) (go e)
        | inr (v, e) ↦ rw e (fail v e)
      ]

refresh_user_lem :
    (user row : User) (c w : Db) (o : Db → Db) (n : ℕ)
    → find_user user.id w ≡ some row
    → refresh_user user (clean c w o n) ≡ (ok row, clean c w o n)
unfolding refresh_user ◌>>=◌
refresh_user_lem user row c w o n e = rw e

module _ (hash_password : Text → Text) (id : ℕ) (request : UserCreate) (now : ℕ) where
  abbrev pub new_user : User
  new_user = user_row id request.name request.email (hash_password request.password) now

  -- Registration on the database `db` at the start, and on `db'` that it finds at the INSERT.
  pub data Registration (db db' : Db) (r : Result User) (after : Db) : Type 0 where
    taken :
        (u : User)
        → user_with_email request.email db ≡ some u
        → r ≡ err (email_already_exists request.email)
        → after ≡ db
        → Registration db db' r after
    rejected :
        (v : Violation)
        → user_with_email request.email db ≡ none
        → user_violation new_user db' ≡ some v
        → r ≡ err (refused v)
        → after ≡ db'
        → Registration db db' r after
    registered :
        user_with_email request.email db ≡ none
        → user_violation new_user db' ≡ none
        → r ≡ ok new_user
        → after ≡ add_user new_user db'
        → Registration db db' r after

  -- Whatever other sessions commit before the INSERT goes through: an email that is registered at
  -- the start is refused; a row that the database then refuses is not written; any other is
  -- written and returned.
  pub register_outcome :
      (others : Db → Db) (db : Db)
      → let (r, after) = with_session others now (register hash_password id request) db in
        Registration db (others db) r after
  unfolding register with_session
  register_outcome others db =
      let Goal = λ (o : Result User × Session). Registration db (others db) o.0 o.1.committed in
      let d = add_user new_user (others db) in
      get_by_email_then Goal request.email _ db db others now (
        raise_if_some_then Goal (user_with_email request.email db) _ _ _
          (λ u e. taken u e refl refl)
          λ free.
            create_then Goal id request.name request.email (hash_password request.password) _ db
              others now (λ v e. rejected v free e refl refl)
              λ e. attempt_commit_then Goal _ (others db) d same now (
                subst Goal (sym (refresh_user_lem new_user new_user d d same now (rw (==_refl id))))
                  (registered free e refl refl)))

pub registered_row :
    (hash_password : Text → Text) (id : ℕ) (request : UserCreate) (now : ℕ) (db db' : Db)
    (r : Result User) (after : Db) (u : User)
    → Registration hash_password id request now db db' r after
    → r ≡ ok u
    → (u ≡ new_user hash_password id request now)
      × (after ≡ add_user (new_user hash_password id request now) db')
registered_row hash_password id request now db db' r after u (taken _ _ e _) p = cc
registered_row hash_password id request now db db' r after u (rejected _ _ _ e _) p = cc
registered_row hash_password id request now db db' r after u (registered _ _ e done) p = (cc, done)

-- A login against a table whose newest row has the email.
authenticate-add_user :
    (verify_password : Text → Text → Bool) (password : Text) (later : ℕ) (u : User) (db : Db)
    → with_session same later (authenticate verify_password u.email password) (add_user u db)
      ≡ (ok (if verify_password password u.password_hash then some u else none), add_user u db)
unfolding authenticate with_session
authenticate-add_user verify_password password later u db =
    rw (text_eq_refl u.email)
      (elim (Bool-cases (verify_password password u.password_hash)) [ inl e ↦ rw e | inr e ↦ rw e ])

-- After a registration that went through, with no other session between, the email and a password
-- log in as the new user if the password verifies against the new hash, and not otherwise; a login
-- changes nothing.
pub authenticate-register :
    (hash_password : Text → Text) (verify_password : Text → Text → Bool) (id : ℕ)
    (request : UserCreate) (password : Text) (now later : ℕ) (others : Db → Db) (db : Db) (u : User)
    (after : Db)
    → with_session others now (register hash_password id request) db ≡ (ok u, after)
    → with_session same later (authenticate verify_password request.email password) after ≡ (
      ok (if verify_password password (hash_password request.password) then some u else none),
      after,
    )
authenticate-register hash_password verify_password id request password now later others db u after
      e =
    let outcome = register_outcome hash_password id request now others db in
    let o = with_session others now (register hash_password id request) db in
    let (same_user, same_db) =
      registered_row hash_password id request now db (others db) o.0 o.1 u outcome
        (ap (λ (x : Result User × Db). x.0) e) in
    rw (same_user, ← ap (λ (x : Result User × Db). x.1) e, same_db)
      (authenticate-add_user verify_password password later (new_user hash_password id request now)
        (others db))
