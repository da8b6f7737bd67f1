-- ===== src/Repositories/Entries/Pages.antt =====
-- The pages of a wallet's statement: together they are the wallet's legs, the newest first.
use distributed_wallet_ledge.Base.{
  ℕ, ◌≡◌, refl, ap, ◌∙◌, ◌<◌, ◌+◌, inl, inr, Bool, true, Bool-cases, leb, List, [], ◌∷◌, ◌++◌,
  arith,
}
use distributed_wallet_ledge.Base.Rows.{filter, take, drop, take-add}
use distributed_wallet_ledge.Schema.{LedgerEntry}
use distributed_wallet_ledge.Database.{Db}
use distributed_wallet_ledge.Session.{ok}
use distributed_wallet_ledge.Session.Rules.{clean}
use distributed_wallet_ledge.Invariant.{IsSequenced}
use distributed_wallet_ledge.Repositories.Entries.{
  is_of_wallet, insert_by_seq, order_by_seq, get_entries_for_wallet,
}

weaker :
    (n k : ℕ) (entries : List LedgerEntry) → n < k → IsSequenced n entries → IsSequenced k entries
weaker n k [] h s = tt
weaker n k (e ∷ entries) h s = (omega (h, s.0, arith), s.1)

pub IsSequenced-filter :
    (p : LedgerEntry → Bool) (next : ℕ) (entries : List LedgerEntry)
    → IsSequenced next entries
    → IsSequenced next (filter p entries)
IsSequenced-filter p next [] s = tt
IsSequenced-filter p next (e ∷ entries) s = elim (Bool-cases (p e)) [
  | inl h ↦ rw h (s.0, IsSequenced-filter p e.seq entries s.1)
  | inr h ↦ rw h (weaker e.seq next (filter p entries) s.0 (IsSequenced-filter p e.seq entries s.1))
]

-- Rows that are in the order already.
insert_newest :
    (e : LedgerEntry) (entries : List LedgerEntry)
    → IsSequenced e.seq entries
    → insert_by_seq e entries ≡ e ∷ entries
unfolding insert_by_seq
insert_newest e [] s = refl
insert_newest e (f ∷ entries) s = rw (below f.seq e.seq s.0)
  where
    below : (m n : ℕ) → m < n → leb m n ≡ true
    below m n h = ground arith

pub order_by_seq_lem :
    (next : ℕ) (entries : List LedgerEntry)
    → IsSequenced next entries
    → order_by_seq entries ≡ entries
unfolding order_by_seq
order_by_seq_lem next [] s = refl
order_by_seq_lem next (e ∷ entries) s =
    ap (insert_by_seq e) (order_by_seq_lem e.seq entries s.1) ∙ insert_newest e entries s.1

-- The legs of a wallet, the newest first.
abbrev pub statement : ℕ → Db → List LedgerEntry
statement wallet_id db = filter (is_of_wallet wallet_id) db.ledger_entries

-- On a table whose `seq` runs with the insertions, a page is the part of the statement of the
-- wallet, the newest leg first, from `offset` on, at most `limit` long; with the legs before the
-- offset it makes the first `offset + limit` legs of the statement, so that pages that follow each
-- other leave out and repeat nothing. The call changes nothing.
get_entries_for_wallet_lem :
    (wallet_id limit offset : ℕ) (db c : Db) (others : Db → Db) (now : ℕ)
    → IsSequenced db.next_seq db.ledger_entries
    → let page = take limit (drop offset (statement wallet_id db)) in
      (get_entries_for_wallet wallet_id limit offset (clean c db others now)
        ≡ (ok page, clean c db others now))
      × (take offset (statement wallet_id db) ++ page
          ≡ take (offset + limit) (statement wallet_id db))
unfolding get_entries_for_wallet
get_entries_for_wallet_lem wallet_id limit offset db c others now s = (
  ap (λ es. (ok (take limit (drop offset es)), clean c db others now))
      (order_by_seq_lem db.next_seq (statement wallet_id db)
        (IsSequenced-filter (is_of_wallet wallet_id) db.next_seq db.ledger_entries s)),
  take-add offset limit (statement wallet_id db),
)
