-- ===== src/Session/Rules.antt =====
-- Running the calls of a session. A rule proves a statement `Q` of the outcome of `m >>= f` from
-- the outcomes of the ways that `m` can go.
use distributed_wallet_ledge.Base.{ℕ, ⊤, ◌≡◌, refl, Bool, true, false, Option, none, some, []}
use distributed_wallet_ledge.Database.{Db}
use distributed_wallet_ledge.Session.{
  Error, Result, ok, err, Session, Exec, or_raise, raise_if, raise_if_some, commit, attempt, ◌>>=◌,
}

-- A session that has nothing to flush.
abbrev pub clean : Db → Db → (Db → Db) → ℕ → Session
clean committed work others now = record {
  committed = committed;
  work = work;
  dirty = [];
  others = others;
  now = now;
}

pub raise_if_some_then :
    {A B : Type 0} (Q : Result B × Session → Type 0) (o : Option A) (e : Error) (f : ⊤ → Exec B)
    (s : Session)
    → ((a : A) → o ≡ some a → Q (err e, s))
    → (o ≡ none → Q (f tt s))
    → Q ((raise_if_some o e >>= f) s)
unfolding ◌>>=◌
raise_if_some_then Q none e f s hs hn = hn refl
raise_if_some_then Q (some a) e f s hs hn = hs a refl

module _ {A B : Type 0} (Q : Result B × Session → Type 0) where
  pub or_raise_then :
      (o : Option A) (e : Error) (f : A → Exec B) (s : Session)
      → (o ≡ none → Q (err e, s))
      → ((a : A) → o ≡ some a → Q (f a s))
      → Q ((or_raise o e >>= f) s)
  unfolding ◌>>=◌
  or_raise_then none e f s hn hs = hn refl
  or_raise_then (some a) e f s hn hs = hs a refl

  pub or_raise_found :
      (o : Option A) (a : A) (e : Error) (f : A → Exec B) (s : Session)
      → o ≡ some a
      → Q (f a s)
      → Q ((or_raise o e >>= f) s)
  unfolding ◌>>=◌
  or_raise_found o a e f s found h = rw found h

module _ {B : Type 0} (Q : Result B × Session → Type 0) where
  pub raise_if_then :
      (test : Bool) (e : Error) (f : ⊤ → Exec B) (s : Session)
      → (test ≡ true → Q (err e, s))
      → (test ≡ false → Q (f tt s))
      → Q ((raise_if test e >>= f) s)
  unfolding ◌>>=◌
  raise_if_then true e f s ht hf = ht refl
  raise_if_then false e f s ht hf = hf refl

  pub commit_then :
      (f : ⊤ → Exec B) (c w : Db) (o : Db → Db) (n : ℕ)
      → Q (f tt (clean w w o n))
      → Q ((commit >>= f) (clean c w o n))
  unfolding ◌>>=◌ commit
  commit_then f c w o n h = h

  pub attempt_commit_then :
      (f : Result ⊤ → Exec B) (c w : Db) (o : Db → Db) (n : ℕ)
      → Q (f (ok tt) (clean w w o n))
      → Q ((attempt commit >>= f) (clean c w o n))
  unfolding ◌>>=◌ commit attempt
  attempt_commit_then f c w o n h = h
