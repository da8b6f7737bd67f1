-- ===== src/Database.antt =====
-- The PostgreSQL tables and what their constraints (app/db/models, `__table_args__` and the column
-- definitions) make of an INSERT or an UPDATE. A table is the list of its rows, the newest first.
-- A statement that a constraint refuses raises: `integrity` for a key, a foreign key or a CHECK,
-- `data_error` for a value that its column cannot hold.
use distributed_wallet_ledge.Base.{
  ℕ, Bool, true, false, not, ◌&&◌, ◌||◌, Option, none, some, List, [], ◌∷◌, ◌==◌, leb,
  if◌then◌else◌,
}
use distributed_wallet_ledge.Base.Int.{ℤ, pos, ltb_ℤ, leb_ℤ, fits_bigint}
use distributed_wallet_ledge.Base.Text.{Text, length, text_eq}
use distributed_wallet_ledge.Base.Rows.{find, exists}
use distributed_wallet_ledge.Schema.{
  User, Wallet, Transaction, LedgerEntry, OutboxEvent, TransactionStat, ProcessedEvent,
}

pub record Db : Type 0 where
  pub users : List User
  pub wallets : List Wallet
  pub transactions : List Transaction
  pub ledger_entries : List LedgerEntry
  pub outbox_events : List OutboxEvent
  pub transaction_stats : List TransactionStat
  pub processed_events : List ProcessedEvent
  -- the sequence behind `ledger_entries.seq`, without the gaps that failed sessions leave
  pub next_seq : ℕ

-- What the statements raise.
pub data Violation : Type 0 where
  integrity data_error : Violation

-- SELECTs by key.
abbrev pub find_user : ℕ → Db → Option User
find_user id db = find (λ u. u.id == id) db.users

abbrev pub find_wallet : ℕ → Db → Option Wallet
find_wallet id db = find (λ w. w.id == id) db.wallets

abbrev pub key_is : Text → Option Text → Bool
key_is key none = false
key_is key (some k) = text_eq k key

abbrev pub find_key : Text → Db → Option Transaction
find_key key db = find (λ t. key_is key t.idempotency_key) db.transactions

-- Whether a nullable unique column holds the key already: NULLs do not clash.
abbrev pub key_taken : Option Text → Db → Bool
key_taken none db = false
key_taken (some key) db = exists (λ t. key_is key t.idempotency_key) db.transactions

abbrev pub fits_varchar : ℕ → Option Text → Bool
fits_varchar n none = true
fits_varchar n (some text) = leb (length text) n

-- INSERT INTO transactions: `String(3)`, `String(255)`, the primary key, the unique key.
unfoldable pub transaction_violation : Transaction → Db → Option Violation
transaction_violation t db =
    if not (fits_varchar 3 (some t.currency) && fits_varchar 255 t.idempotency_key)
    then some data_error
    else if exists (λ r. r.id == t.id) db.transactions || key_taken t.idempotency_key db
    then some integrity
    else none

-- `(wallet_id IS NOT NULL)::int + (system_account IS NOT NULL)::int = 1`
abbrev pub exactly_one_side : Option ℕ → Option Text → Bool
exactly_one_side (some _) none = true
exactly_one_side none (some _) = true
exactly_one_side _ _ = false

-- The foreign key to wallets; NULL refers to nothing.
abbrev pub wallet_exists : Option ℕ → Db → Bool
wallet_exists none db = true
wallet_exists (some id) db = exists (λ w. w.id == id) db.wallets

-- INSERT INTO ledger_entries: the columns, `ck_ledger_amount_positive`,
-- `ck_ledger_exactly_one_side`, the primary key and the two foreign keys.
unfoldable pub entry_violation : LedgerEntry → Db → Option Violation
entry_violation e db =
    if not
      (fits_bigint e.amount && fits_varchar 3 (some e.currency) && fits_varchar 50 e.system_account)
    then some data_error
    else if not (ltb_ℤ (pos 0) e.amount && exactly_one_side e.wallet_id e.system_account)
    then some integrity
    else if exists (λ r. r.id == e.id) db.ledger_entries
    then some integrity
    else if exists (λ t. t.id == e.transaction_id) db.transactions
    then (if wallet_exists e.wallet_id db then none else some integrity)
    else some integrity

-- INSERT INTO wallets: `String(3)`, `ck_wallet_available_nonneg`, `ck_wallet_locked_nonneg`, the
-- primary key, `uq_wallet_user_currency` and the foreign key to users.
unfoldable pub wallet_violation : Wallet → Db → Option Violation
wallet_violation w db =
    if not (
      fits_bigint w.available_balance
      && fits_bigint w.locked_balance
      && fits_varchar 3 (some w.currency))
    then some data_error
    else if not (leb_ℤ (pos 0) w.available_balance && leb_ℤ (pos 0) w.locked_balance)
    then some integrity
    else if exists (λ r. r.id == w.id) db.wallets
        || exists (λ r. r.user_id == w.user_id && text_eq r.currency w.currency) db.wallets
    then some integrity
    else if exists (λ u. u.id == w.user_id) db.users
    then none
    else some integrity

-- UPDATE wallets SET available_balance: the column and the CHECK constraint.
unfoldable pub balance_violation : ℤ → Option Violation
balance_violation balance =
    if not (fits_bigint balance)
    then some data_error
    else if leb_ℤ (pos 0) balance
    then none
    else some integrity

-- INSERT INTO users: `String(255)` three times, the primary key, the unique email.
unfoldable pub user_violation : User → Db → Option Violation
user_violation u db =
    if not (
      fits_varchar 255 (some u.name)
      && fits_varchar 255 (some u.email)
      && fits_varchar 255 (some u.password_hash))
    then some data_error
    else if exists (λ r. r.id == u.id) db.users || exists (λ r. text_eq r.email u.email) db.users
    then some integrity
    else none

-- INSERT INTO outbox_events: the columns and the primary key.
unfoldable pub event_violation : OutboxEvent → Db → Option Violation
event_violation e db =
    if not (fits_varchar 50 (some e.aggregate_type) && fits_varchar 100 (some e.event_type))
    then some data_error
    else if exists (λ r. r.id == e.id) db.outbox_events
    then some integrity
    else none

-- UPDATE … WHERE id = …: every row with the key is replaced.
abbrev pub set_wallet : Wallet → List Wallet → List Wallet
set_wallet w [] = []
set_wallet w (r ∷ rows) = (if r.id == w.id then w else r) ∷ set_wallet w rows

abbrev pub set_transaction : Transaction → List Transaction → List Transaction
set_transaction t [] = []
set_transaction t (r ∷ rows) = (if r.id == t.id then t else r) ∷ set_transaction t rows
