-- ===== src/Repositories/Stats.antt =====
-- `TransactionStatRepository` (app/repositories/stats_repo.py).
use distributed_wallet_ledge.Base.{Bool, ◌&&◌, Option, some, none, List, [], ◌∷◌, if◌then◌else◌}
use distributed_wallet_ledge.Base.Int.{ℤ, pos, ◌+ℤ◌, fits_bigint}
use distributed_wallet_ledge.Base.Text.{Text, text_eq}
use distributed_wallet_ledge.Base.Rows.{find}
use distributed_wallet_ledge.Schema.{TransactionStat}
use distributed_wallet_ledge.Database.{Db, Violation, data_error, fits_varchar}
use distributed_wallet_ledge.Session.{Exec, pure, query, refuse, write, flush, ◌>>=◌, ◌>>◌}

abbrev pub is_stat : Text → Text → TransactionStat → Bool
is_stat currency type s = text_eq s.currency currency && text_eq s.type type

abbrev pub find_stat : Text → Text → Db → Option TransactionStat
find_stat currency type db = find (is_stat currency type) db.transaction_stats

-- `get`
unfoldable pub get_stat : Text → Text → Exec (Option TransactionStat)
get_stat currency type = query (find_stat currency type)

-- `all`
unfoldable pub all_stats : Exec (List TransactionStat)
all_stats = query (λ db. db.transaction_stats)

-- One transaction more in a row.
abbrev pub counted : ℤ → TransactionStat → TransactionStat
counted amount s = record s { count = s.count +ℤ pos 1; total_amount = s.total_amount +ℤ amount }

-- INSERT or UPDATE of a row: `String(3)`, `String(20)` and the two BIGINTs.
unfoldable pub stat_violation : TransactionStat → Option Violation
stat_violation s =
    if fits_varchar 3 (some s.currency)
      && fits_varchar 20 (some s.type)
      && fits_bigint s.count
      && fits_bigint s.total_amount
    then none
    else some data_error

abbrev pub set_stat : TransactionStat → List TransactionStat → List TransactionStat
set_stat s [] = []
set_stat s (r ∷ rows) = (if is_stat s.currency s.type r then s else r) ∷ set_stat s rows

-- The flush: an UPDATE of the row that was found, or the INSERT of a new one.
abbrev pub store : Option TransactionStat → TransactionStat → Db → Db
store none s db = record db { transaction_stats = s ∷ db.transaction_stats }
store (some _) s db = record db { transaction_stats = set_stat s db.transaction_stats }

-- The row that `increment` changes: the one that is there, or a new one with zeros.
abbrev pub stat_or_new : Text → Text → Option TransactionStat → TransactionStat
stat_or_new currency type (some s) = s
stat_or_new currency type none = record {
  currency = currency;
  type = type;
  count = pos 0;
  total_amount = pos 0;
}

unfoldable pub increment : Text → Text → ℤ → Exec TransactionStat
unfolding ◌>>=◌ flush get_stat
increment currency type amount = do
  stat ← get_stat currency type
  let changed = counted amount (stat_or_new currency type stat)
  flush
  refuse (stat_violation changed)
  write (store stat changed)
  pure changed
