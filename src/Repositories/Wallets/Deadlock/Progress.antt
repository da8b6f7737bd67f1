-- ===== src/Repositories/Wallets/Deadlock/Progress.antt =====
-- Some session can always go on, and each step leaves less to do.
use distributed_wallet_ledge.Base.{
  ℕ, zero, suc, ◌+◌, ◌<◌, ◌≤◌, ◌≡◌, refl, sym, ap, subst, ◌⊎◌, inl, inr, ◌==◌, ==_iff, Bool, true,
  false, Bool-cases, List, [], ◌∷◌, ◌++◌, arith,
}
use distributed_wallet_ledge.Base.Text.{length}
use distributed_wallet_ledge.Base.Rows.{All, exists}
use distributed_wallet_ledge.Repositories.Wallets.Locks.{contains}
use distributed_wallet_ledge.Repositories.Wallets.Deadlock.{
  Locker, Lockers, holds, Step, Run, IsOrdered, All-split, Run-IsOrdered, locks, ends, steps,
}

All-contains : (P : ℕ → Type 0) (id : ℕ) (ids : List ℕ) → contains id ids ≡ true → All P ids → P id
All-contains P id [] h all = cc h
All-contains P id (j ∷ ids) h all = elim (Bool-cases (j == id)) [
  | inl e ↦ subst P ((==_iff j id).0 e) all.0
  | inr e ↦ All-contains P id ids (rw e at h) all.1
]

exists-without :
    {A : Type 0} (p : A → Bool) (xs : List A) (y : A) (ys : List A)
    → exists p (xs ++ (y ∷ ys)) ≡ false
    → exists p (xs ++ ys) ≡ false
exists-without p [] y ys h = ground arith
exists-without p (x ∷ xs) y ys h = ground (arith, exists-without p xs y ys)

-- The sessions before and after one that passes a test.
find_split :
    {A : Type 0} (p : A → Bool) (xs : List A)
    → exists p xs ≡ true
    → (before : List A) × (x : A) × (after : List A) × (xs ≡ before ++ (x ∷ after)) × (p x ≡ true)
find_split p [] h = cc h
find_split p (x ∷ xs) h = elim (Bool-cases (p x)) [
  | inl e ↦ ([], x, xs, refl, e)
  | inr e ↦
      let (before, y, after, eq, py) = find_split p xs (rw e at h) in
      (x ∷ before, y, after, ap (λ zs. x ∷ zs) eq, py)
]

-- The row that a session waits for, or a bound where it waits for none.
abbrev next : ℕ → List ℕ → ℕ
next bound [] = bound
next bound (id ∷ ids) = id

abbrev IsBounded : ℕ → Locker → Type 0
IsBounded bound l = All (λ j. j < bound) l.wanted

above-next :
    (id bound : ℕ) (wanted : List ℕ)
    → id < bound
    → All (λ j. id < j) wanted
    → id < next bound wanted
above-next id bound [] h all = h
above-next id bound (j ∷ wanted) h all = all.0

bound_of :
    (bound : ℕ) (ls before after : Lockers) (held : List ℕ) (id : ℕ) (wanted : List ℕ)
    → ls ≡ before ++ (record { held = held; wanted = id ∷ wanted } ∷ after)
    → All (IsBounded bound) ls
    → id < bound
bound_of bound ls before after held id wanted e bounded =
    (All-split (IsBounded bound) before _ (subst (All (IsBounded bound)) e bounded)).1.0.0

-- From any session: it can step, or one that holds its next row waits for a later row.
advance :
    (fuel bound : ℕ) (ls before after : Lockers) (held wanted : List ℕ)
    → ls ≡ before ++ (record { held = held; wanted = wanted } ∷ after)
    → All IsOrdered ls
    → All (IsBounded bound) ls
    → bound ≤ fuel + next bound wanted
    → (ms : Lockers) × Step ls ms
advance fuel bound ls before after held [] e ordered bounded enough =
    subst (λ xs. (ms : Lockers) × Step xs ms) (sym e) (before ++ after, ends before after held)
advance zero bound ls before after held (id ∷ wanted) e ordered bounded enough =
    elim (too_far (bound_of bound ls before after held id wanted e bounded) enough) [ ]
  where
    too_far : id < bound → bound ≤ 0 + id → ⊥
    too_far h k = omega (h, k, arith)
advance (suc fuel) bound ls before after held (id ∷ wanted) e ordered bounded enough =
    elim (Bool-cases (exists (holds id) ls)) [
      | inl h ↦
          let (before', l, after', e', held_id) = find_split (holds id) ls h in
          let above =
            (All-split IsOrdered before' (l ∷ after')
              (subst (All IsOrdered) e' ordered)).1.0.above in
          let later =
            above-next id bound l.wanted (bound_of bound ls before after held id wanted e bounded)
              (All-contains (λ k. All (λ j. k < j) l.wanted) id l.held held_id above) in
          advance fuel bound ls before' after' l.held l.wanted e' ordered bounded
            (further (next bound l.wanted) later enough)
      | inr h ↦
          subst (λ xs. (ms : Lockers) × Step xs ms) (sym e)
            (
              before ++ (record { held = id ∷ held; wanted = wanted } ∷ after),
              locks before after held id wanted (
                  exists-without (holds id) before _ after
                    (subst (λ xs. exists (holds id) xs ≡ false) e h)),
            )
    ]
  where
    further : (n : ℕ) → id < n → bound ≤ suc fuel + id → bound ≤ fuel + n
    further n h k = omega (h, k, arith)

-- A bound of all ids that are wanted.
weaken : (n m : ℕ) (ids : List ℕ) → n ≤ m → All (λ j. j < n) ids → All (λ j. j < m) ids
weaken n m [] h all = tt
weaken n m (j ∷ ids) h all = (omega (h, all.0, arith), weaken n m ids h all.1)

bound_ids : (ids : List ℕ) → (n : ℕ) × All (λ j. j < n) ids
bound_ids [] = (0, tt)
bound_ids (j ∷ ids) =
    let (n, all) = bound_ids ids in
    (suc (j + n), (omega arith, weaken n (suc (j + n)) ids (omega arith) all))

weaken-All : (n m : ℕ) (ls : Lockers) → n ≤ m → All (IsBounded n) ls → All (IsBounded m) ls
weaken-All n m [] h all = tt
weaken-All n m (l ∷ ls) h all = (weaken n m l.wanted h all.0, weaken-All n m ls h all.1)

bound-All : (ls : Lockers) → (n : ℕ) × All (IsBounded n) ls
bound-All [] = (0, tt)
bound-All (l ∷ ls) =
    let (n, all) = bound_ids l.wanted in
    let (m, rest) = bound-All ls in
    (
      n + m,
      (weaken n (n + m) l.wanted (omega arith) all, weaken-All m (n + m) ls (omega arith) rest),
    )

-- As long as a session is there, one can get its next lock or end.
Run-steps : (l : Locker) (ls : Lockers) → Run (l ∷ ls) → (ms : Lockers) × Step (l ∷ ls) ms
Run-steps l ls run =
    let (bound, bounded) = bound-All (l ∷ ls) in
    advance bound bound (l ∷ ls) [] ls l.held l.wanted refl (Run-IsOrdered (l ∷ ls) run) bounded
      (omega arith)

-- What is still to be done: the locks to take and the sessions to end.
abbrev pub work : Lockers → ℕ
work [] = 0
work (l ∷ ls) = suc (length l.wanted + work ls)

work-append : (ls ms : Lockers) → work (ls ++ ms) ≡ work ls + work ms
work-append [] ms = omega arith
work-append (l ∷ ls) ms = omega (work-append ls ms, arith)

Step-work : (ls ms : Lockers) → Step ls ms → work ls ≡ suc (work ms)
Step-work _ _ (locks before after held id wanted free) = omega (
  work-append before (record { held = held; wanted = id ∷ wanted } ∷ after),
  work-append before (record { held = id ∷ held; wanted = wanted } ∷ after),
  arith,
)
Step-work _ _ (ends before after held) = omega (
  work-append before (record { held = held; wanted = [] } ∷ after),
  work-append before after,
  arith,
)

-- A schedule of so many steps, with no new session.
pub data Steps : ℕ → Lockers → Lockers → Type 0 where
  stop : (ls : Lockers) → Steps 0 ls ls
  go : (n : ℕ) (ls ms ns : Lockers) → Step ls ms → Steps n ms ns → Steps (suc n) ls ns

-- However sessions have come and taken their steps, each locking its rows by `sorted(set(…))`: in
-- every schedule of their further steps, each step takes one from the locks still to be taken and
-- the sessions still to end, and as long as a session is left, one of those left can get its next
-- lock or end. So they never all wait for each other, and every schedule ends with all of them done.
pub Steps-end :
    (n : ℕ) (ls ms : Lockers)
    → Run ls
    → Steps n ls ms
    → (n + work ms ≡ work ls) × ((ms ≡ []) ⊎ ((ns : Lockers) × Step ms ns))
Steps-end _ ls _ run (stop _) = (omega arith, left ls run)
  where
    left : (ls : Lockers) → Run ls → (ls ≡ []) ⊎ ((ns : Lockers) × Step ls ns)
    left [] run = inl refl
    left (l ∷ ls) run = inr (Run-steps l ls run)
Steps-end _ ls ms run (go n _ ls' _ step rest) =
    let (count, end) = Steps-end n ls' ms (steps ls ls' run step) rest in
    (omega (count, Step-work ls ls' step, arith), end)
