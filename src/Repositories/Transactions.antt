-- ===== src/Repositories/Transactions.antt =====
-- `TransactionRepository` (app/repositories/transaction_repo.py).
use distributed_wallet_ledge.Base.{ℕ, ◌==◌, Option, ◌∷◌}
use distributed_wallet_ledge.Base.Text.{Text}
use distributed_wallet_ledge.Base.Rows.{find}
use distributed_wallet_ledge.Schema.{Transaction, TransactionType, pending, completed}
use distributed_wallet_ledge.Database.{Db, find_key, transaction_violation, set_transaction}
use distributed_wallet_ledge.Session.{
  Exec, ok, pure, query, or_raise, refuse, write, flush, instance_gone, ◌>>=◌, ◌>>◌,
}

-- `db.refresh(txn)`
unfoldable pub refresh_transaction : Transaction → Exec Transaction
unfolding ◌>>=◌
refresh_transaction t = do
  row ← query (λ db. find (λ r. r.id == t.id) db.transactions)
  or_raise row (instance_gone t.id)

-- The row that `create` adds.
abbrev pub opened : ℕ → TransactionType → Text → Option Text → ℕ → Transaction
opened id type currency key now = record {
  id = id;
  type = type;
  status = pending;
  currency = currency;
  idempotency_key = key;
  created_at = now;
}

abbrev pub add_transaction : Transaction → Db → Db
add_transaction txn db = record db { transactions = txn ∷ db.transactions }

unfoldable pub create : ℕ → TransactionType → Text → Option Text → Exec Transaction
unfolding ◌>>=◌ flush refresh_transaction
create id type currency key = do
  flush
  txn ← λ s. (ok (opened id type currency key s.now), s)
  violation ← query (transaction_violation txn)
  refuse violation
  write (add_transaction txn)
  refresh_transaction txn

abbrev pub completed_row : Transaction → Transaction
completed_row txn = record txn { status = completed }

unfoldable pub mark_completed : Transaction → Exec Transaction
unfolding ◌>>=◌ flush
mark_completed txn = do
  flush
  write (λ db. record db { transactions = set_transaction (completed_row txn) db.transactions })
  pure (completed_row txn)

unfoldable pub get_by_idempotency_key : Text → Exec (Option Transaction)
get_by_idempotency_key key = query (find_key key)
