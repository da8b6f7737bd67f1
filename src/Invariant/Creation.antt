-- ===== src/Invariant/Creation.antt =====
-- Creating a wallet and registering a user keep the invariant.
use distributed_wallet_ledge.Base.{
  ℕ, ◌≡◌, refl, sym, subst, ap, ◌∙◌, ◌==◌, ==_iff, true, false, Bool-cases, inl, inr, Option, none,
  some, List, [], ◌∷◌, arith,
}
use distributed_wallet_ledge.Base.Int.{pos, +ℤ_zero_left}
use distributed_wallet_ledge.Base.Text.{Text}
use distributed_wallet_ledge.Base.Rows.{All, exists}
use distributed_wallet_ledge.Schema.{User, Wallet, LedgerEntry}
use distributed_wallet_ledge.Schema.Requests.{WalletCreate, UserCreate}
use distributed_wallet_ledge.Database.{Db, wallet_exists, wallet_violation}
use distributed_wallet_ledge.Session.{Result, with_session}
use distributed_wallet_ledge.Repositories.Wallets.{add_wallet}
use distributed_wallet_ledge.Repositories.Users.{add_user}
use distributed_wallet_ledge.WalletService.{create_wallet}
use distributed_wallet_ledge.WalletService.Creation.{
  Creation, taken, rejected, created, new_wallet, create_wallet_outcome,
}
use distributed_wallet_ledge.Users.{register}
use distributed_wallet_ledge.Users.Registration.{
  Registration, taken as email_taken, rejected as user_rejected, registered, register_outcome,
  new_user,
}
use distributed_wallet_ledge.Reconciliation.Correct.{ledger_balance, touches}
use distributed_wallet_ledge.Invariant.{IsSound, total_balance, system_balance}
use distributed_wallet_ledge.Invariant.Rows.{All-map}

pub id_is_new :
    (w : Wallet) (db : Db)
    → wallet_violation w db ≡ none
    → exists (λ r. r.id == w.id) db.wallets ≡ false
unfolding wallet_violation
id_is_new w db h = ground arith

-- A wallet that is not there yet has no leg.
untouched_by :
    (k : ℕ) (o : Option ℕ) (db : Db)
    → exists (λ r. r.id == k) db.wallets ≡ false
    → wallet_exists o db ≡ true
    → touches k o ≡ false
untouched_by k none db new h = refl
untouched_by k (some j) db new h = elim (Bool-cases (j == k)) [
  | inl e ↦ cc (ap (λ i. exists (λ r. r.id == i) db.wallets) ((==_iff j k).0 e), new, h)
  | inr e ↦ e
]

no_legs :
    (k : ℕ) (db : Db) (entries : List LedgerEntry)
    → exists (λ r. r.id == k) db.wallets ≡ false
    → All (λ e. wallet_exists e.wallet_id db ≡ true) entries
    → ledger_balance k entries ≡ pos 0
no_legs k db [] new h = refl
no_legs k db (e ∷ entries) new h =
    rw (untouched_by k e.wallet_id db new h.0) (no_legs k db entries new h.1)

still_there :
    (w : Wallet) (db : Db) (o : Option ℕ)
    → wallet_exists o db ≡ true
    → wallet_exists o (add_wallet w db) ≡ true
still_there w db none h = refl
still_there w db (some k) h = ground arith

module _ (id owner_id : ℕ) (request : WalletCreate) (now : ℕ) where
  abbrev w : Wallet
  w = new_wallet id owner_id request now

  added : (db : Db) → IsSound db → wallet_violation w db ≡ none → IsSound (add_wallet w db)
  added db sound ok = record {
    balanced = (
      sym (no_legs id db db.ledger_entries (id_is_new w db ok) sound.references),
      sound.balanced,
    );
    nonneg = (omega arith, sound.nonneg);
    funded =
        +ℤ_zero_left (total_balance db.wallets) (system_balance db.ledger_entries) ∙ sound.funded;
    unique = (id_is_new w db ok, sound.unique);
    double_entry = sound.double_entry;
    references =
        All-map _ _ db.ledger_entries (λ e h. still_there w db e.wallet_id h) sound.references;
    positive = sound.positive;
    sequenced = sound.sequenced;
    completed = sound.completed;
    announced = sound.announced;
    founded = sound.founded;
  }

  Creation-IsSound :
      (db db' : Db) (r : Result Wallet) (after : Db)
      → IsSound db
      → IsSound db'
      → Creation id owner_id request now db db' r after
      → IsSound after
  Creation-IsSound db db' r after sound sound' (taken _ _ _ e) = subst IsSound (sym e) sound
  Creation-IsSound db db' r after sound sound' (rejected _ _ _ _ e) = subst IsSound (sym e) sound'
  Creation-IsSound db db' r after sound sound' (created _ ok _ e) =
      subst IsSound (sym e) (added db' sound' ok)

  -- Creating a wallet keeps the invariant on every branch, if what other sessions commit meanwhile
  -- does.
  pub create_wallet-IsSound :
      (others : Db → Db) (db : Db)
      → IsSound db
      → IsSound (others db)
      → IsSound (with_session others now (create_wallet id owner_id request) db).1
  create_wallet-IsSound others db sound sound' =
      Creation-IsSound db (others db) _ _ sound sound'
        (create_wallet_outcome id owner_id request now others db)

module _ (hash_password : Text → Text) (id : ℕ) (request : UserCreate) (now : ℕ) where
  Registration-IsSound :
      (db db' : Db) (r : Result User) (after : Db)
      → IsSound db
      → IsSound db'
      → Registration hash_password id request now db db' r after
      → IsSound after
  Registration-IsSound db db' r after sound sound' (email_taken _ _ _ e) =
      subst IsSound (sym e) sound
  Registration-IsSound db db' r after sound sound' (user_rejected _ _ _ _ e) =
      subst IsSound (sym e) sound'
  Registration-IsSound db db' r after sound sound' (registered _ _ _ e) =
      subst IsSound (sym e) (record {
        balanced = sound'.balanced;
        nonneg = sound'.nonneg;
        funded = sound'.funded;
        unique = sound'.unique;
        double_entry = sound'.double_entry;
        references =
            All-map _ _ db'.ledger_entries (λ e h. same_wallets e.wallet_id h) sound'.references;
        positive = sound'.positive;
        sequenced = sound'.sequenced;
        completed = sound'.completed;
        announced = sound'.announced;
        founded = sound'.founded;
      })
    where
      same_wallets :
          (o : Option ℕ)
          → wallet_exists o db' ≡ true
          → wallet_exists o (add_user (new_user hash_password id request now) db') ≡ true
      same_wallets none h = refl
      same_wallets (some k) h = h

  -- Registering a user keeps the invariant on every branch, if what other sessions commit meanwhile
  -- does.
  pub register-IsSound :
      (others : Db → Db) (db : Db)
      → IsSound db
      → IsSound (others db)
      → IsSound (with_session others now (register hash_password id request) db).1
  register-IsSound others db sound sound' =
      Registration-IsSound db (others db) _ _ sound sound'
        (register_outcome hash_password id request now others db)
