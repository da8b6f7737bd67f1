-- ===== src/Pipeline/Backed.antt =====
-- What is marked as published is on the topic.
use distributed_wallet_ledge.Base.{
  ℕ, zero, suc, ◌≡◌, ◌⊎◌, leb, refl, sym, ap, ◌∙◌, subst, inl, inr, arith, Bool, true, false,
  Bool-cases, ◌==◌, ==_iff, ◌||◌, List, [], ◌∷◌, ◌++◌,
}
use mathlib.Core.List.{Memᴰ}
use mathlib.Core.List.Memᴰ.{head, tail}
use distributed_wallet_ledge.Base.Rows.{All, exists, filter, take}
use distributed_wallet_ledge.Schema.{OutboxEvent}
use distributed_wallet_ledge.Database.{Db}
use distributed_wallet_ledge.Repositories.Wallets.Locks.{same}
use distributed_wallet_ledge.Repositories.Outbox.{
  is_unpublished, insert_by_time, order_by_time, oldest_unpublished,
}
use distributed_wallet_ledge.Publisher.{Message, message, Report}
use distributed_wallet_ledge.Publisher.Delivery.{in_batch, IsDelivered}
use distributed_wallet_ledge.Pipeline.{arrived}

-- The primary key of the outbox.
abbrev pub IsKeyed : List OutboxEvent → Type 0
IsKeyed [] = Unit
IsKeyed (e ∷ events) = (exists (λ f. f.id == e.id) events ≡ false) × IsKeyed events

-- A row that is marked has its message on the topic.
abbrev pub IsBacked : List Message → OutboxEvent → Type 0
IsBacked topic e = is_unpublished e ≡ false → Memᴰ (message e) topic

module _ {A : Type 0} where
  first_or_rest : (x y : A) (xs : List A) → Memᴰ x (y ∷ xs) → (x ≡ y) ⊎ Memᴰ x xs
  first_or_rest x y xs (head e) = inl e
  first_or_rest x y xs (tail h) = inr h

  pub Mem-left : (x : A) (xs ys : List A) → Memᴰ x xs → Memᴰ x (xs ++ ys)
  Mem-left x [] ys h = elim h [ ]
  Mem-left x (y ∷ xs) ys (head e) = head e
  Mem-left x (y ∷ xs) ys (tail h) = tail (Mem-left x xs ys h)

  pub Mem-right : (x : A) (xs ys : List A) → Memᴰ x ys → Memᴰ x (xs ++ ys)
  Mem-right x [] ys h = h
  Mem-right x (y ∷ xs) ys h = tail (Mem-right x xs ys h)

  Mem-take : (x : A) (n : ℕ) (xs : List A) → Memᴰ x (take n xs) → Memᴰ x xs
  Mem-take x n [] h = h
  Mem-take x zero (y ∷ xs) h = elim h [ ]
  Mem-take x (suc n) (y ∷ xs) (head e) = head e
  Mem-take x (suc n) (y ∷ xs) (tail h) = tail (Mem-take x n xs h)

  Mem-filter : (x : A) (p : A → Bool) (xs : List A) → Memᴰ x (filter p xs) → Memᴰ x xs
  Mem-filter x p [] h = h
  Mem-filter x p (y ∷ xs) h = elim (Bool-cases (p y)) [
    | inl e ↦ elim (first_or_rest x y (filter p xs) (rw e at h)) [
      | inl same ↦ head same
      | inr k ↦ tail (Mem-filter x p xs k)
    ]
    | inr e ↦ tail (Mem-filter x p xs (rw e at h))
  ]

  pub All-Mem : (P : A → Type 0) (xs : List A) → All P xs → (x : A) → Memᴰ x xs → P x
  All-Mem P [] all x h = elim h [ ]
  All-Mem P (y ∷ xs) all x (head e) = subst P (sym e) all.0
  All-Mem P (y ∷ xs) all x (tail h) = All-Mem P xs all.1 x h

  pub All-from_Mem : (P : A → Type 0) (xs : List A) → ((x : A) → Memᴰ x xs → P x) → All P xs
  All-from_Mem P [] f = tt
  All-from_Mem P (x ∷ xs) f = (f x (head refl), All-from_Mem P xs (λ y h. f y (tail h)))

Mem-insert :
    (x e : OutboxEvent) (events : List OutboxEvent)
    → Memᴰ x (insert_by_time e events)
    → Memᴰ x (e ∷ events)
unfolding insert_by_time
Mem-insert x e [] h = h
Mem-insert x e (f ∷ events) h = elim (Bool-cases (leb f.created_at e.created_at)) [
  | inl t ↦ elim (first_or_rest x f (insert_by_time e events) (rw t at h)) [
    | inl same ↦ tail (head same)
    | inr k ↦ elim (first_or_rest x e events (Mem-insert x e events k)) [
      | inl same ↦ head same
      | inr m ↦ tail (tail m)
    ]
  ]
  | inr t ↦ rw t at h
]

Mem-order :
    (x : OutboxEvent) (events : List OutboxEvent) → Memᴰ x (order_by_time events) → Memᴰ x events
unfolding order_by_time
Mem-order x [] h = h
Mem-order x (e ∷ events) h =
    elim (first_or_rest x e (order_by_time events) (Mem-insert x e (order_by_time events) h)) [
      | inl same ↦ head same
      | inr k ↦ tail (Mem-order x events k)
    ]

-- The rows of a batch are rows of the table.
pub Mem-batch :
    (x : OutboxEvent) (limit : ℕ) (db : Db)
    → Memᴰ x (oldest_unpublished limit db)
    → Memᴰ x db.outbox_events
Mem-batch x limit db h = Mem-filter x is_unpublished db.outbox_events (
    Mem-order x (filter is_unpublished db.outbox_events)
      (Mem-take x limit (order_by_time (filter is_unpublished db.outbox_events)) h))

other_key :
    (e f : OutboxEvent) (events : List OutboxEvent)
    → exists (λ g. g.id == e.id) events ≡ false
    → Memᴰ f events
    → f.id ≡ e.id
    → ⊥
other_key e f [] absent h same = elim h [ ]
other_key e f (g ∷ events) absent h same = elim (first_or_rest f g events h) [
  | inl e' ↦ cc (
    (==_iff g.id e.id).1 (sym (ap (λ (x : OutboxEvent). x.id) e') ∙ same),
    or_left (g.id == e.id) _ absent,
  )
  | inr k ↦ other_key e f events (or_right (g.id == e.id) _ absent) k same
]
  where
    or_left : (a b : Bool) → (a || b) ≡ false → a ≡ false
    or_left a b h = ground arith

    or_right : (a b : Bool) → (a || b) ≡ false → b ≡ false
    or_right a b h = ground arith

pub one_row :
    (e f : OutboxEvent) (events : List OutboxEvent)
    → IsKeyed events
    → Memᴰ e events
    → Memᴰ f events
    → e.id ≡ f.id
    → e ≡ f
one_row e f [] keyed h k same = elim h [ ]
one_row e f (g ∷ events) keyed h k same = elim (first_or_rest e g events h) [
  | inl eg ↦ elim (first_or_rest f g events k) [
    | inl fg ↦ eg ∙ sym fg
    | inr kf ↦
        elim (other_key g f events keyed.0 kf (sym same ∙ ap (λ (x : OutboxEvent). x.id) eg)) [ ]
  ]
  | inr he ↦ elim (first_or_rest f g events k) [
    | inl fg ↦ elim (other_key g e events keyed.0 he (same ∙ ap (λ (x : OutboxEvent). x.id) fg)) [ ]
    | inr kf ↦ one_row e f events keyed.1 he kf same
  ]
]

pub in_batch_row :
    (id : ℕ) (batch : List OutboxEvent)
    → in_batch id batch ≡ true
    → (b : OutboxEvent) × Memᴰ b batch × (id ≡ b.id)
in_batch_row id [] h = cc h
in_batch_row id (b ∷ batch) h = elim (Bool-cases (id == b.id)) [
  | inl e ↦ (b, head refl, (==_iff id b.id).0 e)
  | inr e ↦ let (c, m, same) = in_batch_row id batch (rw e at h) in (c, tail m, same)
]

-- The broker has taken every message of a batch that it reports as delivered.
pub arrived-Mem :
    (deliver : Message → Report) (batch : List OutboxEvent) (b : OutboxEvent)
    → All (IsDelivered deliver) batch
    → Memᴰ b batch
    → Memᴰ (message b) (arrived deliver batch)
unfolding arrived
arrived-Mem deliver [] b all h = elim h [ ]
arrived-Mem deliver (e ∷ batch) b all h = rw all.0 (elim (first_or_rest b e batch h) [
  | inl same ↦ head (ap message same)
  | inr k ↦ tail (arrived-Mem deliver batch b all.1 k)
])
