-- ===== src/Ledger/Posting.antt =====
-- What a money operation adds to the database when it succeeds, and for which of its statements
-- the database can refuse it.
use distributed_wallet_ledge.Base.{
  ℕ, suc, ◌≡◌, ◌≢◌, ◌⊎◌, refl, ap, sym, subst, ◌==◌, ==_refl, false, Option, none, some, List, [],
  ◌∷◌, arith,
}
use distributed_wallet_ledge.Base.Int.{ℤ}
use distributed_wallet_ledge.Base.Text.{Text, codes}
use distributed_wallet_ledge.Base.Rows.{find, exists, All}
use distributed_wallet_ledge.Schema.{
  Wallet, Transaction, TransactionType, LedgerEntry, EntryType, OutboxEvent,
}
use distributed_wallet_ledge.Database.{
  Db, Violation, transaction_violation, entry_violation, event_violation, balance_violation,
  set_wallet, set_transaction,
}
use distributed_wallet_ledge.Repositories.Transactions.{opened, add_transaction, completed_row}
use distributed_wallet_ledge.Repositories.Entries.{entry_row, add_entry}
use distributed_wallet_ledge.Repositories.Outbox.{event_row, append_event}
use distributed_wallet_ledge.Ledger.{Draws, event_payload}

-- A movement of money: what a successful operation writes into its rows.
pub record Move : Type 0 where
  pub type : TransactionType
  pub currency : Text
  pub key : Option Text
  pub amount : ℤ
  pub first_type : EntryType
  pub first_wallet : Option ℕ
  pub first_account : Option Text
  pub second_type : EntryType
  pub second_wallet : Option ℕ
  pub second_account : Option Text
  pub owner : ℕ
  pub counterparty : Option ℕ

-- The event of a transaction.
abbrev pub event_of : Draws → Transaction → ℤ → ℕ → Option ℕ → ℕ → OutboxEvent
event_of draws txn amount wallet_id counterparty now =
    event_row draws.event_id (codes "transaction") txn.id (codes "transaction.completed")
      (event_payload draws txn amount wallet_id counterparty) now

-- The rows of one operation: its transaction as it is opened, the two legs, the event.
pub record Posting : Type 0 where
  pub txn : Transaction
  pub first : LedgerEntry
  pub second : LedgerEntry
  pub event : OutboxEvent

abbrev pub rows_of : Draws → Move → ℕ → ℕ → Posting
rows_of draws m seq now =
    let txn = opened draws.transaction_id m.type m.currency m.key now in
    record {
      txn = txn;
      first =
          entry_row draws.first_entry_id txn.id m.first_type m.amount m.currency m.first_wallet
            m.first_account seq now;
      second =
          entry_row draws.second_entry_id txn.id m.second_type m.amount m.currency m.second_wallet
            m.second_account (suc seq) now;
      event = event_of draws (completed_row txn) m.amount m.owner m.counterparty now;
    }

-- The database after the operation, with the wallets that it leaves.
abbrev pub posted : Posting → List Wallet → Db → Db
posted p wallets db = record db {
  wallets = wallets;
  transactions = completed_row p.txn ∷ db.transactions;
  ledger_entries = p.second ∷ p.first ∷ db.ledger_entries;
  outbox_events = p.event ∷ db.outbox_events;
  next_seq = suc (suc db.next_seq);
}

-- The database just before the second leg.
abbrev pub half_posted : Posting → Db → Db
half_posted p db = add_entry p.first (add_transaction p.txn db)

-- The database when the event is added.
abbrev pub before_event : Posting → List Wallet → Db → Db
before_event p wallets db =
    let legs = add_entry p.second (half_posted p db) in
    record legs {
      wallets = wallets;
      transactions = set_transaction (completed_row p.txn) legs.transactions;
    }

-- One of the balances is refused in this way.
abbrev pub SomeRefused : List ℤ → Violation → Type 0
SomeRefused [] v = ⊥
SomeRefused (b ∷ bs) v = (balance_violation b ≡ some v) ⊎ SomeRefused bs v

-- The three INSERTs before the balances are accepted.
pub record IsWritten (p : Posting) (db : Db) : Type 0 where
  pub transaction : transaction_violation p.txn db ≡ none
  pub first_leg : entry_violation p.first (add_transaction p.txn db) ≡ none
  pub second_leg : entry_violation p.second (half_posted p db) ≡ none

-- The first statement that the database refused.
pub data Refusal (p : Posting) (balances : List ℤ) (db : Db) (v : Violation) : Type 0 where
  transaction : transaction_violation p.txn db ≡ some v → Refusal p balances db v
  first_leg :
      transaction_violation p.txn db ≡ none
      → entry_violation p.first (add_transaction p.txn db) ≡ some v
      → Refusal p balances db v
  second_leg :
      transaction_violation p.txn db ≡ none
      → entry_violation p.first (add_transaction p.txn db) ≡ none
      → entry_violation p.second (half_posted p db) ≡ some v
      → Refusal p balances db v
  balance : IsWritten p db → SomeRefused balances v → Refusal p balances db v
  event :
      IsWritten p db
      → All (λ b. balance_violation b ≡ none) balances
      → event_violation p.event db ≡ some v
      → Refusal p balances db v

-- Every statement is accepted.
pub record IsAccepted (p : Posting) (balances : List ℤ) (db : Db) : Type 0 where
  pub written : IsWritten p db
  pub balance : All (λ b. balance_violation b ≡ none) balances
  pub event : event_violation p.event db ≡ none

pub set_transaction_absent :
    (t : Transaction) (ts : List Transaction)
    → exists (λ r. r.id == t.id) ts ≡ false
    → set_transaction t ts ≡ ts
set_transaction_absent t [] h = refl
set_transaction_absent t (r ∷ ts) h = ground (arith, set_transaction_absent t ts)

pub transaction_is_new :
    (t : Transaction) (db : Db)
    → transaction_violation t db ≡ none
    → exists (λ r. r.id == t.id) db.transactions ≡ false
unfolding transaction_violation
transaction_is_new t db h = ground arith

-- Completing the row that was just added leaves the older rows alone.
pub complete_new :
    (t : Transaction) (db : Db)
    → transaction_violation t db ≡ none
    → set_transaction (completed_row t) (t ∷ db.transactions) ≡ completed_row t ∷ db.transactions
complete_new t db h = rw (
  ==_refl t.id,
  set_transaction_absent (completed_row t) db.transactions (transaction_is_new t db h),
)

-- The last state that an operation reaches, in its plain form.
pub before_event-posted :
    (p : Posting) (wallets : List Wallet) (db : Db)
    → transaction_violation p.txn db ≡ none
    → append_event p.event (before_event p wallets db) ≡ posted p wallets db
before_event-posted p wallets db h =
    ap (λ ts. record (posted p wallets db) { transactions = ts }) (complete_new p.txn db h)

-- The transaction is read back as completed.
pub find_completed :
    (p : Posting) (wallets : List Wallet) (db : Db)
    → find (λ r. r.id == p.txn.id) (before_event p wallets db).transactions
      ≡ some (completed_row p.txn)
find_completed p wallets db = ground (arith, ==_refl p.txn.id)

-- A row that the table has is found under its key after the UPDATE.
pub find-set_wallet_self :
    (w old : Wallet) (rows : List Wallet)
    → find (λ r. r.id == w.id) rows ≡ some old
    → find (λ r. r.id == w.id) (set_wallet w rows) ≡ some w
find-set_wallet_self w old [] h = cc
find-set_wallet_self w old (r ∷ rows) h = ground (arith, find-set_wallet_self w old rows)

pub find-set_wallet_ne :
    (k : ℕ) (w : Wallet) (rows : List Wallet)
    → k ≢ w.id
    → find (λ r. r.id == k) (set_wallet w rows) ≡ find (λ r. r.id == k) rows
find-set_wallet_ne k w [] h = refl
find-set_wallet_ne k w (r ∷ rows) h = ground (arith, find-set_wallet_ne k w rows h)

pub find-id :
    (k : ℕ) (w : Wallet) (rows : List Wallet) → find (λ r. r.id == k) rows ≡ some w → w.id ≡ k
find-id k w [] h = cc
find-id k w (r ∷ rows) h = ground (arith, find-id k w rows)

-- A row that was found is found under its own id.
pub find_self :
    (k : ℕ) (w : Wallet) (rows : List Wallet)
    → find (λ r. r.id == k) rows ≡ some w
    → find (λ r. r.id == w.id) rows ≡ some w
find_self k w rows h = subst (λ j. find (λ r. r.id == j) rows ≡ some w) (sym (find-id k w rows h)) h

-- The outbox is as it was before the operation.
pub event_violation-before_event :
    (p : Posting) (wallets : List Wallet) (db : Db)
    → event_violation p.event db ≡ event_violation p.event (before_event p wallets db)
unfolding event_violation
event_violation-before_event p wallets db = refl
