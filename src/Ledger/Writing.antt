-- ===== src/Ledger/Writing.antt =====
-- The statements that `deposit`, `transfer` and `withdraw` share: open the transaction, write the
-- two legs, flush the balances, complete the transaction and record its event.
use distributed_wallet_ledge.Base.{ℕ, ⊤, ◌≡◌, refl, ◌∙◌, ◌⊎◌, inl, inr, none, some, List, [], ◌∷◌}
use distributed_wallet_ledge.Base.Int.{ℤ}
use distributed_wallet_ledge.Base.Rows.{All}
use distributed_wallet_ledge.Schema.{Wallet, Transaction}
use distributed_wallet_ledge.Database.{
  Db, Violation, set_wallet, event_violation, balance_violation,
}
use distributed_wallet_ledge.Session.{Result, err, refused, Session, Exec, ◌>>=◌, ◌>>◌}
use distributed_wallet_ledge.Session.Rules.{clean}
use distributed_wallet_ledge.Repositories.Transactions.{
  create, mark_completed, add_transaction, completed_row,
}
use distributed_wallet_ledge.Repositories.Entries.{create_entry, add_entry}
use distributed_wallet_ledge.Repositories.Outbox.{append_event}
use distributed_wallet_ledge.Ledger.{Draws, record_event}
use distributed_wallet_ledge.Ledger.Posting.{
  Move, Posting, rows_of, half_posted, before_event, Refusal, IsWritten,
  event_violation-before_event,
}
use distributed_wallet_ledge.Repositories.Wallets.Locks.{same}
use distributed_wallet_ledge.Ledger.Steps.{holding, create_then, create_entry_then}
use distributed_wallet_ledge.Ledger.Steps.Closing.{
  complete_one_then, complete_two_then, record_event_then,
}

module _ {B : Type 0} (Q : Result B × Session → Type 0) (draws : Draws) (m : Move)
    (balances : List ℤ) (db : Db) (now : ℕ)
    (fails : (v : Violation) (s : Session)
      → s.committed ≡ db
      → Refusal (rows_of draws m db.next_seq now) balances db v
      → Q (err (refused v), s)) where
  abbrev rows : Posting
  rows = rows_of draws m db.next_seq now

  abbrev pub legs_written : Db
  legs_written = add_entry rows.second (half_posted rows db)

  pub legs_then :
      (f : Transaction → Exec B)
      → (IsWritten rows db → Q (f rows.txn (clean db legs_written same now)))
      → Q (
          (create draws.transaction_id m.type m.currency m.key >>= λ txn.
          create_entry draws.first_entry_id txn.id m.first_type m.amount m.currency m.first_wallet
            m.first_account
          >> (create_entry draws.second_entry_id txn.id m.second_type m.amount m.currency
                m.second_wallet m.second_account
              >> f txn))
            (clean db db same now))
  legs_then f go =
      create_then Q _ _ _ _ _ db db same now (λ v e. fails v _ refl (Refusal.transaction e))
        λ a1.
          create_entry_then Q _ _ _ _ _ _ _ _ db (add_transaction rows.txn db) same now
            (λ v e. fails v _ refl (Refusal.first_leg a1 e))
            λ a2.
              create_entry_then Q _ _ _ _ _ _ _ _ db (half_posted rows db) same now
                (λ v e. fails v _ refl (Refusal.second_leg a1 a2 e))
                λ a3. go (record { transaction = a1; first_leg = a2; second_leg = a3 })

  pub event_then :
      IsWritten rows db
      → All (λ b. balance_violation b ≡ none) balances
      → (wallets : List Wallet) (f : ⊤ → Exec B)
      → (event_violation rows.event db ≡ none
          → Q (f tt (clean db (append_event rows.event (before_event rows wallets db)) same now)))
      → Q (
          (record_event draws (completed_row rows.txn) m.amount m.owner m.counterparty >>= f)
            (clean db (before_event rows wallets db) same now))
  event_then written ok wallets f go =
      let same_outbox = event_violation-before_event rows wallets db in
      record_event_then Q draws (completed_row rows.txn) m.amount m.owner m.counterparty f db
        (before_event rows wallets db) same now
        (λ v e. fails v _ refl (Refusal.event written ok (same_outbox ∙ e)))
        λ e. go (same_outbox ∙ e)

module _ {B : Type 0} (Q : Result B × Session → Type 0) (draws : Draws) (m : Move) (x : Wallet)
    (db : Db) (now : ℕ)
    (fails : (v : Violation) (s : Session)
      → s.committed ≡ db
      → Refusal (rows_of draws m db.next_seq now) (x.available_balance ∷ []) db v
      → Q (err (refused v), s)) where
  -- One balance: flush it, complete the transaction, record the event.
  pub close_one_then :
      IsWritten (rows_of draws m db.next_seq now) db
      → (f : Transaction → Exec B)
      → let p = rows_of draws m db.next_seq now in
        (balance_violation x.available_balance ≡ none
          → event_violation p.event db ≡ none
          → Q (
              f (completed_row p.txn) (
                clean db
                  (append_event p.event (before_event p (set_wallet x db.wallets) db))
                  same
                  now)))
        → Q (
            (mark_completed p.txn >>= λ txn.
            record_event draws txn m.amount m.owner m.counterparty >> f txn)
              (holding (x ∷ []) db (add_entry p.second (half_posted p db)) same now))
  close_one_then written f go =
      let p = rows_of draws m db.next_seq now in
      complete_one_then Q _ _ x db (add_entry p.second (half_posted p db)) same now
        (λ v e. fails v _ refl (Refusal.balance written (inl e)))
        λ a. event_then Q draws m (x.available_balance ∷ []) db now fails written (a, tt) _ _ (go a)

module _ {B : Type 0} (Q : Result B × Session → Type 0) (draws : Draws) (m : Move) (x y : Wallet)
    (db : Db) (now : ℕ)
    (fails : (v : Violation) (s : Session)
      → s.committed ≡ db
      → Refusal
          (rows_of draws m db.next_seq now)
          (x.available_balance ∷ y.available_balance ∷ [])
          db
          v
      → Q (err (refused v), s)) where
  refused_balance :
      IsWritten (rows_of draws m db.next_seq now) db
      → (v : Violation)
      → (balance_violation x.available_balance ≡ some v)
        ⊎ (balance_violation y.available_balance ≡ some v)
      → Refusal
          (rows_of draws m db.next_seq now)
          (x.available_balance ∷ y.available_balance ∷ [])
          db
          v
  refused_balance written v (inl e) = Refusal.balance written (inl e)
  refused_balance written v (inr e) = Refusal.balance written (inr (inl e))

  -- Two balances.
  pub close_two_then :
      IsWritten (rows_of draws m db.next_seq now) db
      → (f : Transaction → Exec B)
      → let p = rows_of draws m db.next_seq now in
        (balance_violation x.available_balance ≡ none
          → balance_violation y.available_balance ≡ none
          → event_violation p.event db ≡ none
          → Q (
              f (completed_row p.txn) (
                clean db
                  (append_event p.event
                    (before_event p (set_wallet y (set_wallet x db.wallets)) db))
                  same
                  now)))
        → Q (
            (mark_completed p.txn >>= λ txn.
            record_event draws txn m.amount m.owner m.counterparty >> f txn)
              (holding (x ∷ y ∷ []) db (add_entry p.second (half_posted p db)) same now))
  close_two_then written f go =
      let p = rows_of draws m db.next_seq now in
      complete_two_then Q _ _ x y db (add_entry p.second (half_posted p db)) same now
        (λ v e. fails v _ refl (refused_balance written v e))
        λ a b.
          event_then Q draws m (x.available_balance ∷ y.available_balance ∷ []) db now fails written
            (a, (b, tt)) _ _ (go a b)
