-- ===== src/Ledger/Steps.antt =====
-- The rules of Session/Rules for the repository calls that the ledger service makes.
pub mod Closing
use distributed_wallet_ledge.Base.{
  ℕ, ⊤, arith, ◌≡◌, ◌==◌, ==_refl, Option, none, some, inl, inr, List, [], ◌∷◌, ◌++◌, ◌∙◌,
  Option-cases, ◌⊎◌,
}
use distributed_wallet_ledge.Base.Int.{ℤ, ◌+ℤ◌, ◌-ℤ◌}
use distributed_wallet_ledge.Base.Text.{Text}
use distributed_wallet_ledge.Base.Rows.{find}
use distributed_wallet_ledge.Schema.{Wallet, Transaction, TransactionType, LedgerEntry, EntryType}
use distributed_wallet_ledge.Database.{
  Db, Violation, find_wallet, transaction_violation, entry_violation, event_violation,
  set_transaction, set_wallet, balance_violation,
}
use distributed_wallet_ledge.Session.{
  Error, Result, ok, err, refused, Session, Exec, flush_wallets, ◌>>=◌,
}
use distributed_wallet_ledge.Session.Rules.{clean}
use distributed_wallet_ledge.Repositories.Wallets.{
  Locked, lookup, get_for_update_ordered, get_with_lock, refresh_wallet,
}
use distributed_wallet_ledge.Repositories.Wallets.Locks.{same, get_for_update_ordered_lem}
use distributed_wallet_ledge.Repositories.Transactions.{
  opened, add_transaction, create, completed_row, mark_completed, refresh_transaction,
}
use distributed_wallet_ledge.Repositories.Entries.{entry_row, add_entry, create_entry}
use distributed_wallet_ledge.Repositories.Outbox.{append_event}
use distributed_wallet_ledge.Ledger.Posting.{event_of}
use distributed_wallet_ledge.Ledger.{
  Draws, record_event, credit_balance, debit_balance, commit_or_replay,
}

-- A session that is about to flush some wallets.
abbrev pub holding : List Wallet → Db → Db → (Db → Db) → ℕ → Session
holding dirty committed work others now = record {
  committed = committed;
  work = work;
  dirty = dirty;
  others = others;
  now = now;
}

flush_accepted :
    (x : Wallet) (ws : List Wallet) (w : Db)
    → balance_violation x.available_balance ≡ none
    → flush_wallets (x ∷ ws) w ≡ flush_wallets ws (record w { wallets = set_wallet x w.wallets })
flush_accepted x ws w e = rw (e, flush_wallets)

flush_refused :
    (x : Wallet) (ws : List Wallet) (w : Db) (v : Violation)
    → balance_violation x.available_balance ≡ some v
    → flush_wallets (x ∷ ws) w ≡ err (refused v)
flush_refused x ws w v e = rw (e, flush_wallets)

module _ {B : Type 0} (Q : Result B × Session → Type 0) where
  pub get_with_lock_then :
      (id : ℕ) (f : Option Wallet → Exec B) (db : Db) (others : Db → Db) (n : ℕ)
      → Q (f (find_wallet id (others db)) (clean (others db) (others db) same n))
      → Q ((get_with_lock id >>= f) (clean db db others n))
  unfolding get_with_lock ◌>>=◌
  get_with_lock_then id f db others n h = h

  pub lock_two_then :
      (a b : ℕ) (f : Locked → Exec B) (db : Db) (others : Db → Db) (n : ℕ)
      → ((rows : Locked)
          → lookup a rows ≡ some (find_wallet a (others db))
          → lookup b rows ≡ some (find_wallet b (others db))
          → Q (f rows (clean (others db) (others db) same n)))
      → Q ((get_for_update_ordered (a ∷ b ∷ []) >>= f) (clean db db others n))
  unfolding ◌>>=◌
  lock_two_then a b f db others n go =
      let (rows, e, at) = get_for_update_ordered_lem a (b ∷ []) db others n in
      rw e (go rows (at a (rw (==_refl a))) (at b (ground (arith, ==_refl b))))

  pub create_then :
      (id : ℕ) (type : TransactionType) (currency : Text) (key : Option Text)
      (f : Transaction → Exec B) (c w : Db) (o : Db → Db) (n : ℕ)
      → let txn = opened id type currency key n in
        ((v : Violation)
          → transaction_violation txn w ≡ some v
          → Q (err (refused v), clean c w o n))
        → (transaction_violation txn w ≡ none → Q (f txn (clean c (add_transaction txn w) o n)))
        → Q ((create id type currency key >>= f) (clean c w o n))
  unfolding create ◌>>=◌
  create_then id type currency key f c w o n fail go =
      elim (Option-cases (transaction_violation (opened id type currency key n) w)) [
        | inl e ↦ rw (e, ==_refl id) (go e)
        | inr (v, e) ↦ rw e (fail v e)
      ]

  pub create_entry_then :
      (id transaction_id : ℕ) (entry_type : EntryType) (amount : ℤ) (currency : Text)
      (wallet_id : Option ℕ) (account : Option Text) (f : LedgerEntry → Exec B) (c w : Db)
      (o : Db → Db) (n : ℕ)
      → let e =
          entry_row id transaction_id entry_type amount currency wallet_id account w.next_seq n in
        ((v : Violation) → entry_violation e w ≡ some v → Q (err (refused v), clean c w o n))
        → (entry_violation e w ≡ none → Q (f e (clean c (add_entry e w) o n)))
        → Q (
            (create_entry id transaction_id entry_type amount currency wallet_id account >>= f)
              (clean c w o n))
  unfolding create_entry ◌>>=◌
  create_entry_then id transaction_id entry_type amount currency wallet_id account f c w o n fail
        go =
      let e =
        entry_row id transaction_id entry_type amount currency wallet_id account w.next_seq n in
      elim (Option-cases (entry_violation e w)) [
        | inl p ↦ rw p (go p)
        | inr (v, p) ↦ rw p (fail v p)
      ]

  pub credit_balance_then :
      (wallet : Wallet) (amount : ℤ) (f : Wallet → Exec B) (d : List Wallet) (c w : Db)
      (o : Db → Db) (n : ℕ)
      → let changed = record wallet { available_balance = wallet.available_balance +ℤ amount } in
        Q (f changed (holding (d ++ changed ∷ []) c w o n))
        → Q ((credit_balance wallet amount >>= f) (holding d c w o n))
  unfolding credit_balance ◌>>=◌
  credit_balance_then wallet amount f d c w o n h = h

  pub debit_balance_then :
      (wallet : Wallet) (amount : ℤ) (f : Wallet → Exec B) (d : List Wallet) (c w : Db)
      (o : Db → Db) (n : ℕ)
      → let changed = record wallet { available_balance = wallet.available_balance -ℤ amount } in
        Q (f changed (holding (d ++ changed ∷ []) c w o n))
        → Q ((debit_balance wallet amount >>= f) (holding d c w o n))
  unfolding debit_balance ◌>>=◌
  debit_balance_then wallet amount f d c w o n h = h
