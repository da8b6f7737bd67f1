-- ===== src/Invariant.antt =====
-- What holds of the committed database between requests.
pub mod Rows
pub mod Posted
pub mod Totals
pub mod Operations
pub mod Creation
pub mod Conservation
pub mod Events
use distributed_wallet_ledge.Base.{
  ℕ, ◌<◌, ◌≡◌, ◌==◌, Bool, true, false, none, some, List, [], ◌∷◌, if◌then◌else◌,
}
use distributed_wallet_ledge.Base.Int.{ℤ, pos, ◌+ℤ◌, ◌≤ℤ◌, ◌<ℤ◌}
use distributed_wallet_ledge.Base.Rows.{All, exists}
use distributed_wallet_ledge.Schema.{Wallet, Transaction, completed, LedgerEntry, OutboxEvent}
use distributed_wallet_ledge.Database.{Db, wallet_exists}
use distributed_wallet_ledge.Reconciliation.{signed_amount}
use distributed_wallet_ledge.Reconciliation.Correct.{IsBalanced}

-- Credits minus debits of one transaction, over all its legs.
abbrev pub transaction_net : ℕ → List LedgerEntry → ℤ
transaction_net t [] = pos 0
transaction_net t (e ∷ entries) =
    if e.transaction_id == t
    then signed_amount e +ℤ transaction_net t entries
    else transaction_net t entries

-- The money in all wallets.
abbrev pub total_balance : List Wallet → ℤ
total_balance [] = pos 0
total_balance (w ∷ wallets) = w.available_balance +ℤ total_balance wallets

-- Credits minus debits of the system accounts, over all legs that touch no wallet.
abbrev pub system_balance : List LedgerEntry → ℤ
system_balance [] = pos 0
system_balance (e ∷ entries) = elim e.wallet_id [
  | none ↦ signed_amount e +ℤ system_balance entries
  | some _ ↦ system_balance entries
]

abbrev pub IsUnique : List Wallet → Type 0
IsUnique [] = Unit
IsUnique (w ∷ wallets) = (exists (λ r. r.id == w.id) wallets ≡ false) × IsUnique wallets

-- `seq` is a strict order, the newest entry first, and below the next number.
abbrev pub IsSequenced : ℕ → List LedgerEntry → Type 0
IsSequenced next [] = Unit
IsSequenced next (e ∷ entries) = (e.seq < next) × IsSequenced e.seq entries

abbrev pub HasEvent : List OutboxEvent → Transaction → Type 0
HasEvent events t = exists (λ e. e.aggregate_id == t.id) events ≡ true

abbrev pub HasTransaction : List Transaction → OutboxEvent → Type 0
HasTransaction transactions e = exists (λ t. t.id == e.aggregate_id) transactions ≡ true

pub record IsSound (db : Db) : Type 0 where
  -- each balance is the credits minus the debits of its wallet
  pub balanced : All (IsBalanced db.ledger_entries) db.wallets
  -- no wallet is overdrawn
  pub nonneg : All (λ w. pos 0 ≤ℤ w.available_balance) db.wallets
  pub unique : IsUnique db.wallets
  -- the legs of every transaction cancel
  pub double_entry : (t : ℕ) → transaction_net t db.ledger_entries ≡ pos 0
  -- the wallets hold what external funding has put in
  pub funded : total_balance db.wallets +ℤ system_balance db.ledger_entries ≡ pos 0
  -- a leg refers to a wallet that is there, and moves a positive amount
  pub references : All (λ e. wallet_exists e.wallet_id db ≡ true) db.ledger_entries
  pub positive : All (λ e. pos 0 <ℤ e.amount) db.ledger_entries
  pub sequenced : IsSequenced db.next_seq db.ledger_entries
  -- what is committed is completed, and has its event; no event is without its transaction
  pub completed : All (λ t. t.status ≡ completed) db.transactions
  pub announced : All (HasEvent db.outbox_events) db.transactions
  pub founded : All (HasTransaction db.transactions) db.outbox_events
