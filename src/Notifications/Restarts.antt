-- ===== src/Notifications/Restarts.antt =====
-- Runs of the notification process one after the other: what was seen is in memory and is lost with
-- the process, what was notified and the committed offset are not.
use distributed_wallet_ledge.Base.{
  ℕ, zero, suc, ◌≡◌, refl, ap, ◌∙◌, sym, subst, ◌==◌, ◌||◌, ◌+◌, inl, inr, Bool, true, Bool-cases,
  List, [], ◌∷◌, ◌++◌, map, arith,
}
use distributed_wallet_ledge.Base.Rows.{exists, All, All-append, take, drop, take-add, take-drop}
use distributed_wallet_ledge.Invariant.Rows.{All-map}
use distributed_wallet_ledge.Schema.{Payload}
use distributed_wallet_ledge.Notifications.{
  NotificationConsumer, new_consumer, is_seen, handle_event, commit_offset, goes_on, consume,
  run_consumer,
}
use distributed_wallet_ledge.Notifications.Once.{
  IsOnce, consume_lem, consume_keeps, handled-is_seen,
}

-- The processes, each with what its handler does.
unfoldable pub restarts :
    List Payload → List (Payload → Bool) → NotificationConsumer → NotificationConsumer
restarts topic [] c = c
restarts topic (returns ∷ runs) c = restarts topic runs (run_consumer topic returns c)

abbrev IsSeen : NotificationConsumer → Payload → Type 0
IsSeen c p = is_seen p.transaction_id c ≡ true

-- The transaction of the message was notified, by some process.
abbrev pub IsNotified : NotificationConsumer → Payload → Type 0
IsNotified c p = exists (λ q. q.transaction_id == p.transaction_id) c.notified ≡ true

-- Each process notifies no transaction twice.
abbrev pub EachOnce : List Payload → List (Payload → Bool) → NotificationConsumer → Type 0
EachOnce topic [] c = Unit
EachOnce topic (returns ∷ runs) c =
    let end = run_consumer topic returns c in IsOnce c.notified end × EachOnce topic runs end

module _ {A : Type 0} (f : A → Bool) where
  exists-left : (xs ys : List A) → exists f xs ≡ true → exists f (xs ++ ys) ≡ true
  exists-left [] ys h = cc h
  exists-left (x ∷ xs) ys h = elim (Bool-cases (f x)) [
    | inl e ↦ rw e
    | inr e ↦ rw e (exists-left xs ys (rw e at h))
  ]

  exists-right : (xs ys : List A) → exists f ys ≡ true → exists f (xs ++ ys) ≡ true
  exists-right [] ys h = h
  exists-right (x ∷ xs) ys h = or_true (f x) (exists-right xs ys h)
    where
      or_true : (a : Bool) {b : Bool} → b ≡ true → (a || b) ≡ true
      or_true a h = ground arith

exists-map :
    (f : ℕ → Bool) (ps : List Payload)
    → exists f (map (λ p. p.transaction_id) ps) ≡ exists (λ p. f p.transaction_id) ps
exists-map f [] = refl
exists-map f (p ∷ ps) = ap (λ b. f p.transaction_id || b) (exists-map f ps)

module _ (before : List Payload) (c : NotificationConsumer) (once : IsOnce before c)
    (p : Payload) where
  abbrev its : Payload → Bool
  its q = q.transaction_id == p.transaction_id

  seen-IsNotified : IsSeen c p → IsNotified c p
  seen-IsNotified h =
      ap (exists its) once.split
      ∙ exists-left its once.own before (
          sym (exists-map (λ k. k == p.transaction_id) once.own)
          ∙ sym (ap (exists (λ k. k == p.transaction_id)) once.accounted)
          ∙ h)

  before-IsNotified : exists its before ≡ true → IsNotified c p
  before-IsNotified h = ap (exists its) once.split ∙ exists-right its once.own before h

-- The transactions before the committed offset were notified.
abbrev pub IsBehind : List Payload → NotificationConsumer → Type 0
IsBehind topic c = All (IsNotified c) (take c.committed topic)

module _ (topic : List Payload) (returns : Payload → Bool) (c : NotificationConsumer) where
  abbrev start : NotificationConsumer
  start = record c { seen = [] }

  abbrev end : NotificationConsumer
  end = run_consumer topic returns c

  start-IsOnce : IsOnce c.notified start
  start-IsOnce = record { own = []; split = refl; accounted = refl; distinct = tt }

  run_consumer-IsOnce : IsOnce c.notified end
  run_consumer-IsOnce =
      (consume_lem returns (drop c.committed topic) c.notified start start-IsOnce).0

  still-IsNotified : (ps : List Payload) → All (IsNotified c) ps → All (IsNotified end) ps
  still-IsNotified ps =
      All-map (IsNotified c) (IsNotified end) ps
        (λ p h. before-IsNotified c.notified end run_consumer-IsOnce p h)

  All-IsNotified : (ps : List Payload) → All (IsSeen end) ps → All (IsNotified end) ps
  All-IsNotified ps =
      All-map (IsSeen end) (IsNotified end) ps
        (λ p h. seen-IsNotified c.notified end run_consumer-IsOnce p h)

  run_consumer-IsBehind : IsBehind topic c → IsBehind topic end
  run_consumer-IsBehind h =
      let (once, n, count, seen) =
        consume_lem returns (drop c.committed topic) c.notified start start-IsOnce in
      subst (All (IsNotified end))
        (take-add c.committed n topic
          ∙ ap (λ k. take k topic) (swapped n c.committed end.committed count))
        (All-append (IsNotified end) (take c.committed topic) (take n (drop c.committed topic))
          (still-IsNotified (take c.committed topic) h)
          (All-IsNotified (take n (drop c.committed topic)) seen))
    where
      swapped : (n m k : ℕ) → k ≡ n + m → m + n ≡ k
      swapped n m k e = omega (e, arith)

restarts-IsBehind :
    (topic : List Payload) (runs : List (Payload → Bool)) (c : NotificationConsumer)
    → IsBehind topic c
    → IsBehind topic (restarts topic runs c) × EachOnce topic runs c
unfolding restarts
restarts-IsBehind topic [] c h = (h, tt)
restarts-IsBehind topic (returns ∷ runs) c h =
    let (behind, once) =
      restarts-IsBehind topic runs (run_consumer topic returns c)
        (run_consumer-IsBehind topic returns c h) in
    (behind, (run_consumer-IsOnce topic returns c, once))

-- A handler that returns for each message sees them all.
goes_on_when :
    (returns : Payload → Bool) (p : Payload) (c : NotificationConsumer)
    → returns p ≡ true
    → goes_on (handle_event returns p c).0 ≡ true
unfolding handle_event
goes_on_when returns p c r = elim (Bool-cases (is_seen p.transaction_id c)) [
  | inl e ↦ rw e
  | inr e ↦ rw (e, r)
]

consume_sees :
    (returns : Payload → Bool) (payloads : List Payload) (c : NotificationConsumer)
    → All (λ p. returns p ≡ true) payloads
    → All (IsSeen (consume returns payloads c)) payloads
unfolding consume
consume_sees returns [] c h = tt
consume_sees returns (p ∷ payloads) c h =
    let c' = commit_offset (handle_event returns p c).1 in
    let on = goes_on_when returns p c h.0 in
    let went_on : consume returns payloads c' ≡ consume returns (p ∷ payloads) c = rw on refl in
    subst (λ end. All (IsSeen end) (p ∷ payloads)) went_on
      (
        consume_keeps returns p.transaction_id payloads c' (handled-is_seen returns p c on),
        consume_sees returns payloads c' h.1,
      )

All-drop :
    (P : Payload → Type 0) (n : ℕ) (payloads : List Payload)
    → All P payloads
    → All P (drop n payloads)
All-drop P n [] h = tt
All-drop P zero (p ∷ payloads) h = h
All-drop P (suc n) (p ∷ payloads) h = All-drop P n payloads h.1

-- Of any number of processes one after the other, whatever their handlers raise on: each notifies no
-- transaction twice, and the transaction of every message before the committed offset was notified
-- by one of them. After one more, whose handler returns for every message, every transaction of the
-- topic was notified, and that process notified none twice. What one process notified, a later one
-- may notify again, since it begins with nothing seen.
pub restarts_lem :
    (topic : List Payload) (runs : List (Payload → Bool)) (returns : Payload → Bool)
    → All (λ p. returns p ≡ true) topic
    → let c = restarts topic runs new_consumer in
      let end = run_consumer topic returns c in
      EachOnce topic runs new_consumer
      × IsBehind topic c
      × IsOnce c.notified end
      × All (IsNotified end) topic
restarts_lem topic runs returns h =
    let c = restarts topic runs new_consumer in
    let end = run_consumer topic returns c in
    let (behind, once) = restarts-IsBehind topic runs new_consumer (nothing_before _ topic) in
    (
      once,
      behind,
      run_consumer-IsOnce topic returns c,
      subst (All (IsNotified end)) (sym (take-drop c.committed topic)) (
          All-append (IsNotified end) (take c.committed topic) (drop c.committed topic)
            (still-IsNotified topic returns c (take c.committed topic) behind)
            (All-IsNotified topic returns c (drop c.committed topic) (
              consume_sees returns (drop c.committed topic) (record c { seen = [] })
                (All-drop _ c.committed topic h)))),
    )
  where
    nothing_before : (P : Payload → Type 0) (topic : List Payload) → All P (take 0 topic)
    nothing_before P [] = tt
    nothing_before P (p ∷ topic) = tt
