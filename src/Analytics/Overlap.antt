-- ===== src/Analytics/Overlap.antt =====
-- Two consumers in `increment` (app/repositories/stats_repo.py) at once: both have done the SELECT
-- before either does its UPDATE. At READ COMMITTED the second UPDATE waits for the row, if it must,
-- and then writes the values that its session has computed from its own SELECT.
use distributed_wallet_ledge.Base.{ℕ, ◌≡◌, true, Option, some, none}
use distributed_wallet_ledge.Schema.{Payload, TransactionStat}
use distributed_wallet_ledge.Database.{Db}
use distributed_wallet_ledge.Session.{ok, ◌>>=◌, flush}
use distributed_wallet_ledge.Session.Rules.{clean}
use distributed_wallet_ledge.Repositories.Wallets.Locks.{same}
use distributed_wallet_ledge.Analytics.Rows.{find-set_stat, found_keys}
use distributed_wallet_ledge.Repositories.Stats.{
  is_stat, find_stat, counted, stat_or_new, stat_violation, store, increment, get_stat,
}

-- The SELECT of `increment`, and its write, which computes from what the SELECT gave.
unfoldable pub select_stat : Payload → Db → Option TransactionStat
select_stat p db = find_stat p.currency p.type db

unfoldable pub write_stat : Payload → Option TransactionStat → Db → Db
write_stat p stat db = store stat (counted p.amount (stat_or_new p.currency p.type stat)) db

-- Alone, the two are `increment`.
increment-write_stat :
    (p : Payload) (db c : Db) (n : ℕ)
    → stat_violation (counted p.amount (stat_or_new p.currency p.type (select_stat p db))) ≡ none
    → increment p.currency p.type p.amount (clean c db same n) ≡ (
      ok (counted p.amount (stat_or_new p.currency p.type (select_stat p db))),
      clean c (write_stat p (select_stat p db) db) same n,
    )
unfolding increment get_stat flush ◌>>=◌ select_stat write_stat
increment-write_stat p db c n h = rw h

-- A write of a row that is there is what the next SELECT finds.
select_stat-write_stat :
    (p : Payload) (stat old : TransactionStat) (db : Db)
    → select_stat p db ≡ some old
    → is_stat p.currency p.type stat ≡ true
    → select_stat p (write_stat p (some stat) db) ≡ some (counted p.amount stat)
unfolding select_stat write_stat
select_stat-write_stat p stat old db found mine =
    find-set_stat p.currency p.type (counted p.amount stat) old db.transaction_stats mine found

-- Two events of one currency and type, whose row is there. One after the other they count both. If
-- both SELECTs come before the UPDATEs, the second UPDATE overwrites the first: the row counts the
-- second event alone, and the count and the amount of the first are lost.
pub overlap_loses :
    (p q : Payload) (old : TransactionStat) (db : Db)
    → q.currency ≡ p.currency
    → q.type ≡ p.type
    → select_stat p db ≡ some old
    → let first = write_stat p (select_stat p db) db in
      (select_stat q (write_stat q (select_stat q first) first)
        ≡ some (counted q.amount (counted p.amount old)))
      × (select_stat q (write_stat q (select_stat q db) first) ≡ some (counted q.amount old))
unfolding select_stat
overlap_loses p q old db same_currency same_type found =
    let mine = found_keys p.currency p.type old _ found in
    let found_q : select_stat q db ≡ some old = rw (same_currency, same_type) found in
    let mine_q : is_stat q.currency q.type old ≡ true = rw (same_currency, same_type) mine in
    let first = write_stat p (some old) db in
    let first_q : select_stat q first ≡ some (counted p.amount old) =
      rw (same_currency, same_type) (select_stat-write_stat p old old db found mine) in
    rw (found, found_q, first_q)
      (
        select_stat-write_stat q (counted p.amount old) (counted p.amount old) first first_q mine_q,
        select_stat-write_stat q old (counted p.amount old) first first_q mine_q,
      )
