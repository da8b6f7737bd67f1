-- ===== src/Ledger/Replay.antt =====
-- The idempotency replay of `transfer` and `withdraw`.
use distributed_wallet_ledge.Base.{ℕ, ◌≡◌, refl, ◌⊎◌, inl, inr, Option, none, some, Option-cases}
use distributed_wallet_ledge.Base.Text.{Text}
use distributed_wallet_ledge.Schema.{Wallet, Transaction}
use distributed_wallet_ledge.Database.{Db, find_wallet, find_key}
use distributed_wallet_ledge.Session.{Result, ok, Session, Exec, ◌>>=◌}
use distributed_wallet_ledge.Session.Rules.{clean}
use distributed_wallet_ledge.Ledger.{replay}

-- The transaction that was recorded under a key.
abbrev pub recorded : Option Text → Db → Option Transaction
recorded none db = none
recorded (some key) db = find_key key db

module _ {B : Type 0} (Q : Result B × Session → Type 0) where
  pub replay_then :
      (key : Option Text) (id : ℕ) (f : Option (Transaction × Option Wallet) → Exec B) (c w : Db)
      (o : Db → Db) (n : ℕ)
      → (recorded key w ≡ none → Q (f none (clean c w o n)))
      → ((t : Transaction)
          → recorded key w ≡ some t
          → Q (f (some (t, find_wallet id w)) (clean c w o n)))
      → Q ((replay key id >>= f) (clean c w o n))
  unfolding replay ◌>>=◌
  replay_then none id f c w o n absent present = absent refl
  replay_then (some key) id f c w o n absent present = elim (Option-cases (find_key key w)) [
    | inl e ↦ rw e (absent e)
    | inr (t, e) ↦ rw e (present t e)
  ]

-- What an operation with a key does to the committed database `db`: it answers from the record and
-- changes nothing, or the key is new and the operation is carried out.
abbrev pub WithReplay :
    Option Text
    → ℕ
    → Db
    → (Result (Transaction × Option Wallet) × Db → Type 0)
    → Result (Transaction × Option Wallet) × Db
    → Type 0
WithReplay key id db Outcome (r, db') =
    ((t : Transaction) × (recorded key db ≡ some t) × (r ≡ ok (t, find_wallet id db)) × (db' ≡ db))
    ⊎ ((recorded key db ≡ none) × Outcome (r, db'))
