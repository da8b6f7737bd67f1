-- ===== src/Notifications/Once.antt =====
-- The notifications of a run: no transaction twice, none left out before the committed offset.
use distributed_wallet_ledge.Base.{
  ℕ, suc, ◌≡◌, refl, ap, ◌∙◌, ◌+◌, inl, inr, Bool, true, false, Bool-cases, ◌==◌, ==_refl, List, [],
  ◌∷◌, ◌++◌, map, arith,
}
use distributed_wallet_ledge.Base.Rows.{exists, All, take}
use distributed_wallet_ledge.Schema.{Payload}
use distributed_wallet_ledge.Notifications.{
  NotificationConsumer, is_seen, handle_event, commit_offset, goes_on, consume,
}

abbrev pub IsDistinct : List ℕ → Type 0
IsDistinct [] = Unit
IsDistinct (k ∷ ids) = (exists (λ j. j == k) ids ≡ false) × IsDistinct ids

-- What a run has notified, on top of what was notified `before` it: the ids that it has seen are
-- those of its own notifications, and no two are the same.
pub record IsOnce (before : List Payload) (c : NotificationConsumer) : Type 0 where
  pub own : List Payload
  pub split : c.notified ≡ own ++ before
  pub accounted : c.seen ≡ map (λ p. p.transaction_id) own
  pub distinct : IsDistinct c.seen

handle_event-IsOnce :
    (returns : Payload → Bool) (p : Payload) (before : List Payload) (c : NotificationConsumer)
    → IsOnce before c
    → IsOnce before (handle_event returns p c).1
unfolding handle_event
handle_event-IsOnce returns p before c h = elim (Bool-cases (is_seen p.transaction_id c)) [
  | inl e ↦ rw e h
  | inr e ↦ elim (Bool-cases (returns p)) [
    | inl r ↦
        rw (e, r)
          (record {
            own = p ∷ h.own;
            split = ap (λ ps. p ∷ ps) h.split;
            accounted = ap (λ ids. p.transaction_id ∷ ids) h.accounted;
            distinct = (e, h.distinct);
          })
    | inr r ↦ rw (e, r) h
  ]
]

-- What was seen stays seen.
handle_event_keeps :
    (returns : Payload → Bool) (p : Payload) (id : ℕ) (c : NotificationConsumer)
    → is_seen id c ≡ true
    → is_seen id (handle_event returns p c).1 ≡ true
unfolding handle_event
handle_event_keeps returns p id c h = elim (Bool-cases (is_seen p.transaction_id c)) [
  | inl e ↦ rw e h
  | inr e ↦ elim (Bool-cases (returns p)) [
    | inl r ↦
        rw (e, r, h) (elim (Bool-cases (p.transaction_id == id)) [ inl k ↦ rw k | inr k ↦ rw k ])
    | inr r ↦ rw (e, r) h
  ]
]

-- An event after which the loop goes on is seen.
pub handled-is_seen :
    (returns : Payload → Bool) (p : Payload) (c : NotificationConsumer)
    → goes_on (handle_event returns p c).0 ≡ true
    → is_seen p.transaction_id (handle_event returns p c).1 ≡ true
unfolding handle_event
handled-is_seen returns p c = elim (Bool-cases (is_seen p.transaction_id c)) [
  | inl e ↦ rw e (λ _. e)
  | inr e ↦ elim (Bool-cases (returns p)) [
    | inl r ↦ rw (e, r) (λ _. rw (==_refl p.transaction_id))
    | inr r ↦ rw (e, r) (λ bad. cc bad)
  ]
]

handle_event-committed :
    (returns : Payload → Bool) (p : Payload) (c : NotificationConsumer)
    → (handle_event returns p c).1.committed ≡ c.committed
unfolding handle_event
handle_event-committed returns p c = elim (Bool-cases (is_seen p.transaction_id c)) [
  | inl e ↦ rw e
  | inr e ↦ elim (Bool-cases (returns p)) [ inl r ↦ rw (e, r) | inr r ↦ rw (e, r) ]
]

pub consume_keeps :
    (returns : Payload → Bool) (id : ℕ) (payloads : List Payload) (c : NotificationConsumer)
    → is_seen id c ≡ true
    → is_seen id (consume returns payloads c) ≡ true
unfolding consume
consume_keeps returns id [] c h = h
consume_keeps returns id (p ∷ payloads) c h =
    let c' = (handle_event returns p c).1 in
    let kept = handle_event_keeps returns p id c h in
    elim (Bool-cases (goes_on (handle_event returns p c).0)) [
      | inl e ↦ rw e (consume_keeps returns id payloads (commit_offset c') kept)
      | inr e ↦ rw e kept
    ]

none_more : (k m : ℕ) → k ≡ m → k ≡ 0 + m
none_more k m e = omega (e, arith)

-- A run of the loop, from a state in which it has notified no transaction twice, ends in such a
-- state; the offsets that it commits are those of a prefix of the messages, and the transaction of
-- each of these has been seen.
pub consume_lem :
    (returns : Payload → Bool) (payloads before : List Payload) (c : NotificationConsumer)
    → IsOnce before c
    → IsOnce before (consume returns payloads c)
      × (n : ℕ) × ((consume returns payloads c).committed ≡ n + c.committed)
      × All (λ p. is_seen p.transaction_id (consume returns payloads c) ≡ true) (take n payloads)
unfolding consume
consume_lem returns [] before c h = (h, 0, none_more c.committed c.committed refl, tt)
consume_lem returns (p ∷ payloads) before c h =
    let c' = (handle_event returns p c).1 in
    let once = handle_event-IsOnce returns p before c h in
    elim (Bool-cases (goes_on (handle_event returns p c).0)) [
      | inl e ↦
          let (rest, n, count, seen) =
            consume_lem returns payloads before (commit_offset c') (record {
              own = once.own;
              split = once.split;
              accounted = once.accounted;
              distinct = once.distinct;
            }) in
          rw e (
            rest,
            suc n,
            count ∙ one_more n c'.committed c.committed (handle_event-committed returns p c),
            (
              consume_keeps returns p.transaction_id payloads (commit_offset c')
                  (handled-is_seen returns p c e),
              seen,
            ),
          )
      | inr e ↦
          rw e
            (once, 0, none_more c'.committed c.committed (handle_event-committed returns p c), tt)
    ]
  where
    one_more : (n k m : ℕ) → k ≡ m → n + suc k ≡ suc n + m
    one_more n k m e = omega (e, arith)
