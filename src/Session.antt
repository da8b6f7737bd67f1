-- ===== src/Session.antt =====
-- A SQLAlchemy session on PostgreSQL at READ COMMITTED (app/db/session.py and the session calls of
-- the services), as a monad with state and exceptions.
-- `committed` is what every session sees. `work` is this session's transaction on top of it:
-- statements change `work` only, and a constraint is checked by the statement, at `flush`.
-- `dirty` holds the mapped wallets that the code has changed and not yet flushed.
-- `others` is what other sessions commit while this one waits: for a row lock, or at an INSERT for
-- a session that is inserting the same key; or between two SELECTs. It takes effect at the first
-- wait, where this session has written nothing yet: what commits between two locks cannot touch a
-- row that is locked already, and the second row is not read before it is locked.
pub mod Rules
use distributed_wallet_ledge.Base.{
  ℕ, ⊤, Bool, Option, none, some, List, [], ◌∷◌, ◌++◌, if◌then◌else◌,
}
use distributed_wallet_ledge.Base.Text.{Text}
use distributed_wallet_ledge.Schema.{Wallet}
use distributed_wallet_ledge.Database.{Db, Violation, integrity, balance_violation, set_wallet}

-- The exceptions of app/services, those of the database driver (`refused`), and those that Python
-- and SQLAlchemy raise on a missing key or row.
pub data Error : Type 0 where
  wallet_not_found wallet_access_denied insufficient_funds : ℕ → Error
  same_wallet_transfer recipient_not_found : ℕ → Error
  currency_mismatch : Error
  wallet_already_exists email_already_exists : Text → Error
  refused : Violation → Error
  key_error instance_gone : ℕ → Error
  -- the `RuntimeError` of the outbox publisher
  delivery_failed : Error

pub data Result {ℓ} (A : Type ℓ) : Type ℓ where
  ok : A → Result A
  err : Error → Result A

pub record Session : Type 0 where
  pub committed : Db
  pub work : Db
  pub dirty : List Wallet
  pub others : Db → Db
  -- `now()` of the database, the time at which its transaction began
  pub now : ℕ

abbrev pub Exec : Type 0 → Type 0
Exec A = Session → Result A × Session

module _ {A : Type 0} where
  abbrev pub pure : A → Exec A
  pure a s = (ok a, s)

  abbrev pub raise : Error → Exec A
  raise e s = (err e, s)

  -- A SELECT.
  abbrev pub query : (Db → A) → Exec A
  query f s = (ok (f s.work), s)

  abbrev pub or_raise : Option A → Error → Exec A
  or_raise none e s = (err e, s)
  or_raise (some a) e s = (ok a, s)

  -- The result of a call as a value, for `try`.
  unfoldable pub attempt : Exec A → Exec (Result A)
  attempt m s = let (r, s') = m s in (ok r, s')

module _ {A B : Type 0} where
  abbrev continue : Result A → (A → Exec B) → Exec B
  continue (ok a) f s = f a s
  continue (err e) f s = (err e, s)

  infixl 5 ◌>>=◌ ◌>>◌
  unfoldable pub ◌>>=◌ : Exec A → (A → Exec B) → Exec B
  ◌>>=◌ m f s = let (r, s') = m s in continue r f s'

  abbrev pub ◌>>◌ : Exec A → Exec B → Exec B
  m >> n = m >>= λ _. n

abbrev pub raise_if : Bool → Error → Exec ⊤
raise_if test e s = (if test then err e else ok tt, s)

-- `if … is not None: raise`
abbrev pub raise_if_some : {A : Type 0} → Option A → Error → Exec ⊤
raise_if_some none e s = (ok tt, s)
raise_if_some (some a) e s = (err e, s)

abbrev pub refuse : Option Violation → Exec ⊤
refuse none s = (ok tt, s)
refuse (some v) s = (err (refused v), s)

abbrev pub write : (Db → Db) → Exec ⊤
write f s = (ok tt, record s { work = f s.work })

-- Wait for a row lock, or for the entry of a unique index; or begin a second SELECT, whose snapshot
-- is a new one.
unfoldable pub wait : Exec ⊤
wait s = (
  ok tt,
  record s { committed = s.others s.committed; work = s.others s.work; others = λ db. db },
)

-- Assign to a field of a mapped wallet.
unfoldable pub assign_wallet : Wallet → Exec ⊤
assign_wallet w s = (ok tt, record s { dirty = s.dirty ++ w ∷ [] })

-- The UPDATEs of a flush.
abbrev pub flush_wallets : List Wallet → Db → Result Db
flush_wallets [] db = ok db
flush_wallets (w ∷ ws) db =
    let rest = flush_wallets ws (record db { wallets = set_wallet w db.wallets }) in
    elim (balance_violation w.available_balance) [ none ↦ rest | some v ↦ err (refused v) ]

abbrev flushed : Result Db → Exec ⊤
flushed (ok db) s = (ok tt, record s { work = db; dirty = [] })
flushed (err e) s = (err e, s)

-- `db.flush()`
unfoldable pub flush : Exec ⊤
flush s = flushed (flush_wallets s.dirty s.work) s

-- `db.commit()`
unfoldable pub commit : Exec ⊤
unfolding flush ◌>>=◌
commit = do flush; λ s. (ok tt, record s { committed = s.work })

-- `db.rollback()`
unfoldable pub rollback : Exec ⊤
rollback s = (ok tt, record s { work = s.committed; dirty = [] })

-- `get_db`: a request has a session of its own, which is closed at its end whether it raised or
-- not; what was not committed is gone.
unfoldable pub with_session : {A : Type 0} → (Db → Db) → ℕ → Exec A → Db → Result A × Db
with_session others now m db =
    let (r, s) = m (record { committed = db; work = db; dirty = []; others = others; now = now }) in
    (r, s.committed)
