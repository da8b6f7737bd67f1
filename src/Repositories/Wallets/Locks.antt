-- ===== src/Repositories/Wallets/Locks.antt =====
-- `get_for_update_ordered`: the order in which it locks, and the rows that it finds.
use distributed_wallet_ledge.Base.{
  ℕ, ◌<◌, ◌≡◌, refl, ◌∙◌, ◌==◌, ==_iff, ==_refl, Bool-cases, inl, inr, ◌||◌, Bool, true, false,
  some, List, [], ◌∷◌, arith, if◌then◌else◌,
}
use distributed_wallet_ledge.Database.{Db, find_wallet}
use distributed_wallet_ledge.Session.{ok}
use distributed_wallet_ledge.Session.Rules.{clean}
use distributed_wallet_ledge.Repositories.Wallets.{
  insert_id, sorted_set, Locked, lookup, lock_rows, get_for_update_ordered,
}

-- Every id comes before greater ones only, so none comes twice.
abbrev pub IsAscending : List ℕ → Type 0
IsAscending [] = Unit
IsAscending (k ∷ []) = Unit
IsAscending (k ∷ j ∷ ids) = (k < j) × IsAscending (j ∷ ids)

abbrev pub contains : ℕ → List ℕ → Bool
contains k [] = false
contains k (j ∷ ids) = j == k || contains k ids

insert_id-IsAscending : (k : ℕ) (ids : List ℕ) → IsAscending ids → IsAscending (insert_id k ids)
unfolding insert_id
insert_id-IsAscending k [] h = tt
insert_id-IsAscending k (j ∷ []) h = ground arith
insert_id-IsAscending k (j ∷ i ∷ ids) h = ground (arith, insert_id-IsAscending k (i ∷ ids) h.1)

contains-insert_id :
    (k j : ℕ) (ids : List ℕ) → contains k (insert_id j ids) ≡ (j == k || contains k ids)
unfolding insert_id
contains-insert_id k j [] = refl
contains-insert_id k j (i ∷ ids) = ground (arith, contains-insert_id k j ids)

sorted_set-IsAscending : (ids : List ℕ) → IsAscending (sorted_set ids)
unfolding sorted_set
sorted_set-IsAscending [] = tt
sorted_set-IsAscending (k ∷ ids) =
    insert_id-IsAscending k (sorted_set ids) (sorted_set-IsAscending ids)

contains-sorted_set : (k : ℕ) (ids : List ℕ) → contains k (sorted_set ids) ≡ contains k ids
unfolding sorted_set
contains-sorted_set k [] = refl
contains-sorted_set k (j ∷ ids) = rw (contains-insert_id, contains-sorted_set k ids)

-- `sorted(set(ids))` holds exactly the given ids, each once, in ascending order.
pub sorted_set_lem :
    (ids : List ℕ)
    → IsAscending (sorted_set ids) × ((k : ℕ) → contains k (sorted_set ids) ≡ contains k ids)
sorted_set_lem ids = (sorted_set-IsAscending ids, λ k. contains-sorted_set k ids)

-- What the loop finds in the database `db`.
abbrev pub locked_rows : List ℕ → Locked → Db → Locked
locked_rows [] result db = result
locked_rows (id ∷ ids) result db = locked_rows ids ((id, find_wallet id db) ∷ result) db

lookup-locked_rows :
    (k : ℕ) (ids : List ℕ) (result : Locked) (db : Db)
    → lookup k (locked_rows ids result db)
      ≡ (if contains k ids then some (find_wallet k db) else lookup k result)
lookup-locked_rows k [] result db = refl
lookup-locked_rows k (id ∷ ids) result db =
    rw (lookup-locked_rows k ids ((id, find_wallet id db) ∷ result) db)
      (elim (Bool-cases (id == k)) [ inl e ↦ rw ((==_iff id k).0 e) (ground arith) | inr e ↦ rw e ])

abbrev pub same : Db → Db
same db = db

lock_rows_lem :
    (ids : List ℕ) (result : Locked) (db : Db) (n : ℕ)
    → lock_rows ids result (clean db db same n)
      ≡ (ok (locked_rows ids result db), clean db db same n)
unfolding lock_rows
lock_rows_lem [] result db n = refl
lock_rows_lem (id ∷ ids) result db n = lock_rows_lem ids ((id, find_wallet id db) ∷ result) db n

-- The first lock waits, and the others find the same database.
lock_rows_waits :
    (ids : List ℕ) (k : ℕ) (db : Db) (others : Db → Db) (n : ℕ)
    → contains k ids ≡ true
    → lock_rows ids [] (clean db db others n)
      ≡ (ok (locked_rows ids [] (others db)), clean (others db) (others db) same n)
unfolding lock_rows
lock_rows_waits [] k db others n h = cc
lock_rows_waits (id ∷ ids) k db others n h =
    lock_rows_lem ids ((id, find_wallet id (others db)) ∷ []) (others db) n

-- Every requested id is in the result, with the row that is committed once all locks are held.
pub get_for_update_ordered_lem :
    (id : ℕ) (ids : List ℕ) (db : Db) (others : Db → Db) (n : ℕ)
    → (rows : Locked) × (get_for_update_ordered (id ∷ ids) (clean db db others n)
        ≡ (ok rows, clean (others db) (others db) same n))
      × ((k : ℕ) → contains k (id ∷ ids) ≡ true → lookup k rows ≡ some (find_wallet k (others db)))
unfolding get_for_update_ordered
get_for_update_ordered_lem id ids db others n = (
  locked_rows (sorted_set (id ∷ ids)) [] (others db),
  lock_rows_waits (sorted_set (id ∷ ids)) id db others n
      (contains-sorted_set id (id ∷ ids) ∙ rw (==_refl id)),
  λ k h.
      lookup-locked_rows k (sorted_set (id ∷ ids)) [] (others db)
      ∙ rw (contains-sorted_set k (id ∷ ids), h),
)
