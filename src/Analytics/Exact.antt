-- ===== src/Analytics/Exact.antt =====
-- The rollup counts every transaction once: against an independent recount of the events that were
-- applied.
use distributed_wallet_ledge.Base.{
  ℕ, ◌≡◌, refl, sym, ap, ◌∙◌, subst, ◌⊎◌, inl, inr, Bool, true, false, Bool-cases, ◌==◌, Option,
  none, some, List, [], ◌∷◌, if◌then◌else◌,
}
use distributed_wallet_ledge.Base.Int.{ℤ, pos, ◌+ℤ◌}
use distributed_wallet_ledge.Base.Text.{Text, text_eq_refl, text_eq_sound}
use distributed_wallet_ledge.Base.Rows.{exists}
use distributed_wallet_ledge.Schema.{Payload, TransactionStat}
use distributed_wallet_ledge.Database.{Db}
use distributed_wallet_ledge.Session.{Result, ok, with_session}
use distributed_wallet_ledge.Repositories.Wallets.Locks.{same}
use distributed_wallet_ledge.Repositories.Processed.{was_processed, inbox_row, add_processed}
use distributed_wallet_ledge.Repositories.Stats.{find_stat, store}
use distributed_wallet_ledge.Analytics.{handle_event, consumer_name}
use distributed_wallet_ledge.Analytics.Rollup.{
  was_handled, next_stat, counted_in, Handling, duplicate, raced, too_large, applied,
  handle_event_outcome,
}
use distributed_wallet_ledge.Analytics.Rows.{both, counts_for, find_stat-counted_in}

-- What a row says, with zeros where there is none.
abbrev pub count_of : Option TransactionStat → ℤ
count_of none = pos 0
count_of (some s) = s.count

abbrev pub total_of : Option TransactionStat → ℤ
total_of none = pos 0
total_of (some s) = s.total_amount

-- The events of a currency and type, and their amounts, counted over the events themselves.
abbrev pub recount : Text → Text → List Payload → ℤ
recount currency type [] = pos 0
recount currency type (p ∷ events) =
    if counts_for currency type p
    then recount currency type events +ℤ pos 1
    else recount currency type events

abbrev pub retotal : Text → Text → List Payload → ℤ
retotal currency type [] = pos 0
retotal currency type (p ∷ events) =
    if counts_for currency type p
    then retotal currency type events +ℤ p.amount
    else retotal currency type events

abbrev pub in_log : ℕ → List Payload → Bool
in_log id events = exists (λ p. p.transaction_id == id) events

abbrev pub IsDistinct : List Payload → Type 0
IsDistinct [] = Unit
IsDistinct (p ∷ events) = (in_log p.transaction_id events ≡ false) × IsDistinct events

-- The inbox and the rollup are those of a list of events, of which no two have one transaction.
pub record IsRollup (events : List Payload) (db : Db) : Type 0 where
  pub distinct : IsDistinct events
  pub inbox : (id : ℕ) → was_processed consumer_name id db ≡ in_log id events
  pub counts :
      (currency type : Text) → count_of (find_stat currency type db) ≡ recount currency type events
  pub totals :
      (currency type : Text) → total_of (find_stat currency type db) ≡ retotal currency type events

next_of :
    (p : Payload) (db : Db) (o : Option TransactionStat)
    → find_stat p.currency p.type db ≡ o
    → (count_of (some (next_stat p db)) ≡ count_of o +ℤ pos 1)
      × (total_of (some (next_stat p db)) ≡ total_of o +ℤ p.amount)
next_of p db none e = rw e (refl, refl)
next_of p db (some s) e = rw e (refl, refl)

counted_in-IsRollup :
    (p : Payload) (events : List Payload) (db : Db)
    → IsRollup events db
    → was_handled p db ≡ false
    → IsRollup (p ∷ events) (counted_in p db)
counted_in-IsRollup p events db h new = record {
  distinct = (sym (h.inbox p.transaction_id) ∙ new, h.distinct);
  inbox = λ id. inbox_of id (find_stat p.currency p.type db);
  counts = λ currency type.
      ap count_of (find_stat-counted_in currency type p db) ∙ one_more currency type;
  totals = λ currency type.
      ap total_of (find_stat-counted_in currency type p db) ∙ amount_more currency type;
}
  where
    noted :
        (id : ℕ)
        → was_processed consumer_name id
            (add_processed (inbox_row consumer_name p.transaction_id) db)
          ≡ in_log id (p ∷ events)
    noted id =
        rw (text_eq_refl consumer_name, h.inbox id)
          (elim (Bool-cases (p.transaction_id == id)) [ inl e ↦ rw e | inr e ↦ rw e ])

    inbox_of :
        (id : ℕ) (o : Option TransactionStat)
        → was_processed consumer_name id
            (store o (next_stat p db) (add_processed (inbox_row consumer_name p.transaction_id) db))
          ≡ in_log id (p ∷ events)
    inbox_of id none = noted id
    inbox_of id (some s) = noted id

    moved :
        (P : Text → Text → Type 0) (currency type : Text)
        → counts_for currency type p ≡ true
        → P p.currency p.type
        → P currency type
    moved P currency type mine base =
        let (c, t) = both _ _ mine in
        subst (λ x. P x type) (text_eq_sound p.currency currency c)
          (subst (P p.currency) (text_eq_sound p.type type t) base)

    one_more :
        (currency type : Text)
        → count_of (
            if counts_for currency type p
            then some (next_stat p db)
            else find_stat currency type db)
          ≡ recount currency type (p ∷ events)
    one_more currency type = elim (Bool-cases (counts_for currency type p)) [
      | inl mine ↦ rw mine (
          moved (λ x y. count_of (some (next_stat p db)) ≡ recount x y events +ℤ pos 1) currency
            type mine ((next_of p db _ refl).0 ∙ ap (λ z. z +ℤ pos 1) (h.counts p.currency p.type)))
      | inr other ↦ rw other (h.counts currency type)
    ]

    amount_more :
        (currency type : Text)
        → total_of (
            if counts_for currency type p
            then some (next_stat p db)
            else find_stat currency type db)
          ≡ retotal currency type (p ∷ events)
    amount_more currency type = elim (Bool-cases (counts_for currency type p)) [
      | inl mine ↦ rw mine (
          moved (λ x y. total_of (some (next_stat p db)) ≡ retotal x y events +ℤ p.amount) currency
            type mine
            ((next_of p db _ refl).1 ∙ ap (λ z. z +ℤ p.amount) (h.totals p.currency p.type)))
      | inr other ↦ rw other (h.totals currency type)
    ]

-- From an inbox and a rollup that are those of `events`, in the database that a delivery finds, the
-- delivery leaves them so, or, with the result true, makes them those of `events` and of its own,
-- whose transaction is not among them: each transaction counts once in its currency and type,
-- with its amount.
pub handle_event-IsRollup :
    (p : Payload) (events : List Payload) (now : ℕ) (db : Db)
    → IsRollup events db
    → let (r, after) = with_session same now (handle_event p) db in
      IsRollup events after
      ⊎ ((r ≡ ok true) × (in_log p.transaction_id events ≡ false) × IsRollup (p ∷ events) after)
handle_event-IsRollup p events now db h =
    from (with_session same now (handle_event p) db) (handle_event_outcome p now same db)
  where
    from :
        (o : Result Bool × Db)
        → Handling p db db o.0 o.1
        → IsRollup events o.1
          ⊎ ((o.0 ≡ ok true) × (in_log p.transaction_id events ≡ false) × IsRollup (p ∷ events) o.1)
    from (r, after) (duplicate _ _ e) = inl (subst (IsRollup events) (sym e) h)
    from (r, after) (raced _ _ _ e) = inl (subst (IsRollup events) (sym e) h)
    from (r, after) (too_large _ _ _ _ _ e) = inl (subst (IsRollup events) (sym e) h)
    from (r, after) (applied _ new _ er e) = inr (
      er,
      sym (h.inbox p.transaction_id) ∙ new,
      subst (IsRollup (p ∷ events)) (sym e) (counted_in-IsRollup p events db h new),
    )
