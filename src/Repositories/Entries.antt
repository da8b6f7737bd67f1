-- ===== src/Repositories/Entries.antt =====
-- `LedgerRepository` (app/repositories/ledger_repo.py).
pub mod Pages
use distributed_wallet_ledge.Base.{
  ℕ, suc, Bool, true, false, ◌==◌, leb, if◌then◌else◌, Option, some, none, List, [], ◌∷◌,
}
use distributed_wallet_ledge.Base.Int.{ℤ}
use distributed_wallet_ledge.Base.Text.{Text}
use distributed_wallet_ledge.Base.Rows.{filter, take, drop}
use distributed_wallet_ledge.Schema.{LedgerEntry, EntryType}
use distributed_wallet_ledge.Database.{Db, entry_violation}
use distributed_wallet_ledge.Session.{Exec, ok, pure, query, refuse, write, flush, ◌>>=◌, ◌>>◌}

abbrev pub entry_row : ℕ → ℕ → EntryType → ℤ → Text → Option ℕ → Option Text → ℕ → ℕ → LedgerEntry
entry_row id transaction_id entry_type amount currency wallet_id system_account seq now = record {
  id = id;
  seq = seq;
  transaction_id = transaction_id;
  entry_type = entry_type;
  amount = amount;
  currency = currency;
  wallet_id = wallet_id;
  system_account = system_account;
  created_at = now;
}

abbrev pub add_entry : LedgerEntry → Db → Db
add_entry e db = record db { ledger_entries = e ∷ db.ledger_entries; next_seq = suc db.next_seq }

unfoldable pub create_entry :
    ℕ → ℕ → EntryType → ℤ → Text → Option ℕ → Option Text → Exec LedgerEntry
unfolding ◌>>=◌ flush
create_entry id transaction_id entry_type amount currency wallet_id system_account = do
  flush
  e ← λ s. (
    ok (
        entry_row id transaction_id entry_type amount currency wallet_id system_account
          s.work.next_seq s.now),
    s,
  )
  violation ← query (entry_violation e)
  refuse violation
  write (add_entry e)
  pure e

unfoldable pub get_entries_for_transaction : ℕ → Exec (List LedgerEntry)
get_entries_for_transaction transaction_id =
    query (λ db. filter (λ e. e.transaction_id == transaction_id) db.ledger_entries)

-- `LedgerEntry.wallet_id == wallet_id`; NULL equals nothing.
abbrev pub is_of_wallet : ℕ → LedgerEntry → Bool
is_of_wallet wallet_id e = elim e.wallet_id [ none ↦ false | some k ↦ k == wallet_id ]

-- `ORDER BY seq DESC`
unfoldable pub insert_by_seq : LedgerEntry → List LedgerEntry → List LedgerEntry
insert_by_seq e [] = e ∷ []
insert_by_seq e (f ∷ entries) =
    let rest = insert_by_seq e entries in if leb f.seq e.seq then e ∷ f ∷ entries else f ∷ rest

unfoldable pub order_by_seq : List LedgerEntry → List LedgerEntry
unfolding insert_by_seq
order_by_seq [] = []
order_by_seq (e ∷ entries) = insert_by_seq e (order_by_seq entries)

-- `get_entries_for_wallet`
unfoldable pub get_entries_for_wallet : ℕ → ℕ → ℕ → Exec (List LedgerEntry)
get_entries_for_wallet wallet_id limit offset = query (λ db.
    take limit (drop offset (order_by_seq (filter (is_of_wallet wallet_id) db.ledger_entries))))
