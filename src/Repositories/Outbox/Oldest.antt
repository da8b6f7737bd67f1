-- ===== src/Repositories/Outbox/Oldest.antt =====
-- What `fetch_unpublished` selects: unpublished rows only, the oldest first, and none that is newer
-- than one left out.
use distributed_wallet_ledge.Base.{
  ℕ, zero, suc, ◌≡◌, ◌⊎◌, refl, sym, ap, subst, ◌∙◌, ◌≤◌, Bool, false, Bool-cases, inl, inr, leb,
  List, [], ◌∷◌, ◌++◌, arith,
}
use distributed_wallet_ledge.Base.Text.{length}
use distributed_wallet_ledge.Base.Rows.{All, filter, take, drop, take-drop, count}
use distributed_wallet_ledge.Schema.{OutboxEvent}
use distributed_wallet_ledge.Database.{Db}
use distributed_wallet_ledge.Repositories.Outbox.{
  is_unpublished, insert_by_time, order_by_time, oldest_unpublished,
}

-- Every row is at most as old as the rows before it.
abbrev pub IsOldestFirst : List OutboxEvent → Type 0
IsOldestFirst [] = Unit
IsOldestFirst (e ∷ events) = All (λ f. e.created_at ≤ f.created_at) events × IsOldestFirst events

All-insert :
    (P : OutboxEvent → Type 0) (e : OutboxEvent) (events : List OutboxEvent)
    → P e
    → All P events
    → All P (insert_by_time e events)
unfolding insert_by_time
All-insert P e [] h all = (h, tt)
All-insert P e (f ∷ events) h all = elim (Bool-cases (leb f.created_at e.created_at)) [
  | inl t ↦ rw t (all.0, All-insert P e events h all.1)
  | inr t ↦ rw t (h, all)
]

older :
    (n k : ℕ) (events : List OutboxEvent)
    → n ≤ k
    → All (λ f. k ≤ f.created_at) events
    → All (λ f. n ≤ f.created_at) events
older n k [] h all = tt
older n k (e ∷ events) h all = (omega (h, all.0, arith), older n k events h all.1)

insert-IsOldestFirst :
    (e : OutboxEvent) (events : List OutboxEvent)
    → IsOldestFirst events
    → IsOldestFirst (insert_by_time e events)
unfolding insert_by_time
insert-IsOldestFirst e [] h = (tt, tt)
insert-IsOldestFirst e (f ∷ events) h = elim (Bool-cases (leb f.created_at e.created_at)) [
  | inl t ↦ rw t (
    All-insert (λ g. f.created_at ≤ g.created_at) e events (ground arith) h.0,
    insert-IsOldestFirst e events h.1,
  )
  | inr t ↦ rw t (let le = later e f t in ((le, older e.created_at f.created_at events le h.0), h))
]
  where
    later :
        (e f : OutboxEvent) → leb f.created_at e.created_at ≡ false → e.created_at ≤ f.created_at
    later e f t = ground arith

order-IsOldestFirst : (events : List OutboxEvent) → IsOldestFirst (order_by_time events)
unfolding order_by_time
order-IsOldestFirst [] = tt
order-IsOldestFirst (e ∷ events) = insert-IsOldestFirst e _ (order-IsOldestFirst events)

count-insert :
    (p : OutboxEvent → Bool) (e : OutboxEvent) (events : List OutboxEvent)
    → count p (insert_by_time e events) ≡ count p (e ∷ events)
unfolding insert_by_time
count-insert p e [] = refl
count-insert p e (f ∷ events) = ground (arith, count-insert p e events)

pub count-order :
    (p : OutboxEvent → Bool) (events : List OutboxEvent)
    → count p (order_by_time events) ≡ count p events
unfolding order_by_time
count-order p [] = refl
count-order p (e ∷ events) = count-insert p e (order_by_time events) ∙ rw (count-order p events)

-- How many rows a LIMIT gives: as many as it says, or all.
length-take :
    (n : ℕ) (events : List OutboxEvent)
    → (length (take n events) ≤ n) × ((length (take n events) ≡ n) ⊎ (drop n events ≡ []))
length-take n [] = (omega arith, inr refl)
length-take zero (e ∷ events) = (omega arith, inl refl)
length-take (suc n) (e ∷ events) =
    let (most, full) = length-take n events in
    (omega (most, arith), elim full [ inl k ↦ inl (ap suc k) | inr k ↦ inr k ])

-- At most `limit` rows are fetched, and fewer only if no unpublished row is left out. The rows that
-- are fetched, and then the unpublished rows that are left out, are together in the order of their
-- age, and are the unpublished rows of the table, each as often.
pub oldest_unpublished_lem :
    (limit : ℕ) (db : Db)
    → let fetched = oldest_unpublished limit db in
      (length fetched ≤ limit)
      × (rest : List OutboxEvent) × ((length fetched ≡ limit) ⊎ (rest ≡ []))
      × IsOldestFirst (fetched ++ rest)
      × ((p : OutboxEvent → Bool)
          → count p (fetched ++ rest) ≡ count p (filter is_unpublished db.outbox_events))
oldest_unpublished_lem limit db =
    let all = order_by_time (filter is_unpublished db.outbox_events) in
    let (most, full) = length-take limit all in
    (
      most,
      drop limit all,
      full,
      subst IsOldestFirst (take-drop limit all)
          (order-IsOldestFirst (filter is_unpublished db.outbox_events)),
      λ p.
          ap (count p) (sym (take-drop limit all))
          ∙ count-order p (filter is_unpublished db.outbox_events),
    )
