-- ===== src/Ledger/Steps/Closing.antt =====
-- The rules for the end of an operation: the header, the event, the refreshes and the commit.
use distributed_wallet_ledge.Base.{
  ℕ, ⊤, ◌≡◌, ◌==◌, Option, none, some, inl, inr, List, [], ◌∷◌, ◌∙◌, Option-cases, ◌⊎◌,
}
use distributed_wallet_ledge.Base.Int.{ℤ}
use distributed_wallet_ledge.Base.Text.{Text}
use distributed_wallet_ledge.Base.Rows.{find}
use distributed_wallet_ledge.Schema.{Wallet, Transaction}
use distributed_wallet_ledge.Database.{
  Db, Violation, find_wallet, event_violation, set_transaction, set_wallet, balance_violation,
}
use distributed_wallet_ledge.Session.{
  Error, Result, ok, err, refused, Session, Exec, flush_wallets, ◌>>=◌,
}
use distributed_wallet_ledge.Session.Rules.{clean}
use distributed_wallet_ledge.Repositories.Wallets.{refresh_wallet}
use distributed_wallet_ledge.Repositories.Transactions.{
  completed_row, mark_completed, refresh_transaction,
}
use distributed_wallet_ledge.Repositories.Outbox.{append_event}
use distributed_wallet_ledge.Ledger.Posting.{event_of}
use distributed_wallet_ledge.Ledger.{Draws, record_event, commit_or_replay}
use distributed_wallet_ledge.Ledger.Steps.{holding, flush_accepted, flush_refused}

-- The end of an operation: the header, the event, the refreshes and the commit.
module _ {B : Type 0} (Q : Result B × Session → Type 0) where
  mark_completed_ok :
      (txn : Transaction) (f : Transaction → Exec B) (d : List Wallet) (c w w' : Db) (o : Db → Db)
      (n : ℕ)
      → flush_wallets d w ≡ ok w'
      → Q (
          f (completed_row txn) (
            clean c
              (record w' { transactions = set_transaction (completed_row txn) w'.transactions })
              o
              n))
      → Q ((mark_completed txn >>= f) (holding d c w o n))
  unfolding mark_completed ◌>>=◌
  mark_completed_ok txn f d c w w' o n e h = rw e h

  mark_completed_err :
      (txn : Transaction) (f : Transaction → Exec B) (d : List Wallet) (c w : Db) (o : Db → Db)
      (n : ℕ) (x : Error)
      → flush_wallets d w ≡ err x
      → Q (err x, holding d c w o n)
      → Q ((mark_completed txn >>= f) (holding d c w o n))
  unfolding mark_completed ◌>>=◌
  mark_completed_err txn f d c w o n x e h = rw e h

  -- One wallet to flush: its UPDATE is accepted or not.
  pub complete_one_then :
      (txn : Transaction) (f : Transaction → Exec B) (x : Wallet) (c w : Db) (o : Db → Db) (n : ℕ)
      → ((v : Violation)
          → balance_violation x.available_balance ≡ some v
          → Q (err (refused v), holding (x ∷ []) c w o n))
      → (balance_violation x.available_balance ≡ none
          → Q (
              f (completed_row txn) (
                clean c
                  (record w {
                    wallets = set_wallet x w.wallets;
                    transactions = set_transaction (completed_row txn) w.transactions;
                  })
                  o
                  n)))
      → Q ((mark_completed txn >>= f) (holding (x ∷ []) c w o n))
  complete_one_then txn f x c w o n fail go =
      elim (Option-cases (balance_violation x.available_balance)) [
        | inl e ↦ mark_completed_ok txn f _ c w _ o n (flush_accepted x [] w e) (go e)
        | inr (v, e) ↦ mark_completed_err txn f _ c w o n _ (flush_refused x [] w v e) (fail v e)
      ]

  -- Two wallets to flush.
  pub complete_two_then :
      (txn : Transaction) (f : Transaction → Exec B) (x y : Wallet) (c w : Db) (o : Db → Db) (n : ℕ)
      → ((v : Violation)
          → (balance_violation x.available_balance ≡ some v)
            ⊎ (balance_violation y.available_balance ≡ some v)
          → Q (err (refused v), holding (x ∷ y ∷ []) c w o n))
      → (balance_violation x.available_balance ≡ none
          → balance_violation y.available_balance ≡ none
          → Q (
              f (completed_row txn) (
                clean c
                  (record w {
                    wallets = set_wallet y (set_wallet x w.wallets);
                    transactions = set_transaction (completed_row txn) w.transactions;
                  })
                  o
                  n)))
      → Q ((mark_completed txn >>= f) (holding (x ∷ y ∷ []) c w o n))
  complete_two_then txn f x y c w o n fail go =
      let w' = record w { wallets = set_wallet x w.wallets } in
      elim (Option-cases (balance_violation x.available_balance)) [
        | inl e ↦ elim (Option-cases (balance_violation y.available_balance)) [
          | inl e' ↦
              mark_completed_ok txn f _ c w _ o n
                (flush_accepted x (y ∷ []) w e ∙ flush_accepted y [] w' e') (go e e')
          | inr (v, e') ↦
              mark_completed_err txn f _ c w o n _
                (flush_accepted x (y ∷ []) w e ∙ flush_refused y [] w' v e') (fail v (inr e'))
        ]
        | inr (v, e) ↦
            mark_completed_err txn f _ c w o n _ (flush_refused x (y ∷ []) w v e) (fail v (inl e))
      ]

  pub record_event_then :
      (draws : Draws) (txn : Transaction) (amount : ℤ) (id : ℕ) (other : Option ℕ) (f : ⊤ → Exec B)
      (c w : Db) (o : Db → Db) (n : ℕ)
      → let event = event_of draws txn amount id other n in
        ((v : Violation) → event_violation event w ≡ some v → Q (err (refused v), clean c w o n))
        → (event_violation event w ≡ none → Q (f tt (clean c (append_event event w) o n)))
        → Q ((record_event draws txn amount id other >>= f) (clean c w o n))
  unfolding record_event ◌>>=◌
  record_event_then draws txn amount id other f c w o n fail go =
      elim (Option-cases (event_violation (event_of draws txn amount id other n) w)) [
        | inl e ↦ rw e (go e)
        | inr (v, e) ↦ rw e (fail v e)
      ]

  pub refresh_wallet_then :
      (wallet row : Wallet) (f : Wallet → Exec B) (c w : Db) (o : Db → Db) (n : ℕ)
      → find_wallet wallet.id w ≡ some row
      → Q (f row (clean c w o n))
      → Q ((refresh_wallet wallet >>= f) (clean c w o n))
  unfolding refresh_wallet ◌>>=◌
  refresh_wallet_then wallet row f c w o n e h = rw e h

  pub refresh_transaction_then :
      (txn row : Transaction) (f : Transaction → Exec B) (c w : Db) (o : Db → Db) (n : ℕ)
      → find (λ t. t.id == txn.id) w.transactions ≡ some row
      → Q (f row (clean c w o n))
      → Q ((refresh_transaction txn >>= f) (clean c w o n))
  unfolding refresh_transaction ◌>>=◌
  refresh_transaction_then txn row f c w o n e h = rw e h

-- With nothing left to flush the commit succeeds, and the handler is not entered.
pub commit_or_replay_lem :
    (key : Option Text) (id : ℕ) (wallet row : Wallet) (txn t : Transaction) (c w : Db)
    (o : Db → Db) (n : ℕ)
    → find_wallet wallet.id w ≡ some row
    → find (λ r. r.id == txn.id) w.transactions ≡ some t
    → commit_or_replay key id wallet txn (clean c w o n) ≡ (ok (t, some row), clean w w o n)
unfolding commit_or_replay ◌>>=◌
commit_or_replay_lem key id wallet row txn t c w o n ew et = rw (ew, et)
