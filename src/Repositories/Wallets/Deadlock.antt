-- ===== src/Repositories/Wallets/Deadlock.antt =====
-- Several sessions that lock wallet rows at once (app/repositories/wallet_repo.py): whichever takes
-- its next lock first, they never wait for each other in a circle.
pub mod Progress
use distributed_wallet_ledge.Base.{
  ℕ, zero, suc, ◌+◌, ◌<◌, ◌≤◌, ◌≡◌, refl, sym, ap, subst, ◌⊎◌, inl, inr, ◌==◌, ==_iff, Bool, true,
  false, Bool-cases, List, [], ◌∷◌, ◌++◌, arith,
}
use distributed_wallet_ledge.Base.Text.{length}
use distributed_wallet_ledge.Base.Rows.{All, All-append, exists}
use distributed_wallet_ledge.Repositories.Wallets.{sorted_set}
use distributed_wallet_ledge.Repositories.Wallets.Locks.{IsAscending, sorted_set_lem, contains}

-- A session in `get_for_update_ordered`, or after it: the rows that it has locked, and the rows that
-- its loop has still to lock. Row locks are kept until the transaction ends.
pub record Locker : Type 0 where
  pub held : List ℕ
  pub wanted : List ℕ

abbrev pub Lockers : Type 0
Lockers = List Locker

abbrev pub holds : ℕ → Locker → Bool
holds id l = contains id l.held

abbrev pub begin : List ℕ → Locker
begin wallet_ids = record { held = []; wanted = sorted_set wallet_ids }

-- One session gets the lock of its next row, which no other session holds, or, with all its locks,
-- ends its transaction and frees them.
pub data Step : Lockers → Lockers → Type 0 where
  locks :
      (before after : Lockers) (held : List ℕ) (id : ℕ) (wanted : List ℕ)
      → exists (holds id) (before ++ after) ≡ false
      → Step
          (before ++ (record { held = held; wanted = id ∷ wanted } ∷ after))
          (before ++ (record { held = id ∷ held; wanted = wanted } ∷ after))
  ends :
      (before after : Lockers) (held : List ℕ)
      → Step (before ++ (record { held = held; wanted = [] } ∷ after)) (before ++ after)

-- Sessions come, with any ids to lock, and take their steps in any order.
pub data Run : Lockers → Type 0 where
  nobody : Run []
  begins : (ls : Lockers) (wallet_ids : List ℕ) → Run ls → Run (begin wallet_ids ∷ ls)
  steps : (ls ms : Lockers) → Run ls → Step ls ms → Run ms

-- What a session wants is in ascending order, and above what it holds.
record IsOrdered (l : Locker) : Type 0 where
  ascending : IsAscending l.wanted
  above : All (λ k. All (λ j. k < j) l.wanted) l.held

All-split {ℓ κ} :
    {A : Type ℓ} (P : A → Type κ) (xs ys : List A) → All P (xs ++ ys) → All P xs × All P ys
All-split P [] ys h = (tt, h)
All-split P (x ∷ xs) ys h = let (l, r) = All-split P xs ys h.1 in ((h.0, l), r)

first_below : (id : ℕ) (ids : List ℕ) → IsAscending (id ∷ ids) → All (λ j. id < j) ids
first_below id [] h = tt
first_below id (j ∷ ids) h = (h.0, lower j h.0 ids (first_below j ids h.1))
  where
    lower : (j : ℕ) → id < j → (ks : List ℕ) → All (λ k. j < k) ks → All (λ k. id < k) ks
    lower j l [] all = tt
    lower j l (k ∷ ks) all = (omega (l, all.0, arith), lower j l ks all.1)

IsAscending-tail : (id : ℕ) (ids : List ℕ) → IsAscending (id ∷ ids) → IsAscending ids
IsAscending-tail id [] h = tt
IsAscending-tail id (j ∷ ids) h = h.1

above_tail :
    (id : ℕ) (held wanted : List ℕ)
    → All (λ k. All (λ j. k < j) (id ∷ wanted)) held
    → All (λ k. All (λ j. k < j) wanted) held
above_tail id [] wanted h = tt
above_tail id (k ∷ held) wanted h = (h.0.1, above_tail id held wanted h.1)

Step-keeps : (ls ms : Lockers) → Step ls ms → All IsOrdered ls → All IsOrdered ms
Step-keeps _ _ (locks before after held id wanted free) h =
    let (b, (o, a)) =
      All-split IsOrdered before (record { held = held; wanted = id ∷ wanted } ∷ after) h in
    All-append IsOrdered before (record { held = id ∷ held; wanted = wanted } ∷ after) b (
      record {
        ascending = IsAscending-tail id wanted o.ascending;
        above = (first_below id wanted o.ascending, above_tail id held wanted o.above);
      },
      a,
    )
Step-keeps _ _ (ends before after held) h =
    let (b, (o, a)) = All-split IsOrdered before (record { held = held; wanted = [] } ∷ after) h in
    All-append IsOrdered before after b a

Run-IsOrdered : (ls : Lockers) → Run ls → All IsOrdered ls
Run-IsOrdered _ nobody = tt
Run-IsOrdered _ (begins ls ids run) =
    (record { ascending = (sorted_set_lem ids).0; above = tt }, Run-IsOrdered ls run)
Run-IsOrdered _ (steps ls ms run s) = Step-keeps ls ms s (Run-IsOrdered ls run)
