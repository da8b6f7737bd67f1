-- ===== src/Analytics/Rows.antt =====
-- The rows of the rollup: what counting an event does to each of them.
use distributed_wallet_ledge.Base.{
  ◌≡◌, refl, ◌∙◌, subst, inl, inr, Bool, true, false, Bool-cases, ◌&&◌, Option, some, Option-cases,
  List, [], ◌∷◌, if◌then◌else◌, arith,
}
use distributed_wallet_ledge.Base.Text.{Text, text_eq, text_eq_refl, text_eq_sound}
use distributed_wallet_ledge.Base.Rows.{find}
use distributed_wallet_ledge.Schema.{Payload, TransactionStat}
use distributed_wallet_ledge.Database.{Db}
use distributed_wallet_ledge.Repositories.Stats.{is_stat, find_stat, counted, set_stat}
use distributed_wallet_ledge.Analytics.Rollup.{next_stat, counted_in}

abbrev pub counts_for : Text → Text → Payload → Bool
counts_for currency type p = text_eq p.currency currency && text_eq p.type type

pub both : (a b : Bool) → a && b ≡ true → (a ≡ true) × (b ≡ true)
both true b h = (refl, h)
both false b h = cc h

pub same_keys :
    (currency type : Text) (s : TransactionStat)
    → is_stat currency type s ≡ true
    → (s.currency ≡ currency) × (s.type ≡ type)
same_keys currency type s h =
    let (c, t) = both _ _ h in (text_eq_sound s.currency currency c, text_eq_sound s.type type t)

-- Two rows with one key answer every search alike.
same_row_keys :
    (currency type : Text) (s r : TransactionStat)
    → is_stat s.currency s.type r ≡ true
    → is_stat currency type r ≡ is_stat currency type s
same_row_keys currency type s r h = let (c, t) = same_keys s.currency s.type r h in rw (c, t)

pub find-set_stat :
    (currency type : Text) (s old : TransactionStat) (rows : List TransactionStat)
    → is_stat currency type s ≡ true
    → find (is_stat currency type) rows ≡ some old
    → find (is_stat currency type) (set_stat s rows) ≡ some s
find-set_stat currency type s old [] mine h = cc h
find-set_stat currency type s old (r ∷ rows) mine h =
    elim (Bool-cases (is_stat s.currency s.type r)) [
      | inl e ↦ rw (e, mine)
      | inr e ↦ elim (Bool-cases (is_stat currency type r)) [
        | inl k ↦ cc (e, other_way currency type s r mine k)
        | inr k ↦ rw (e, k) (find-set_stat currency type s old rows mine (skip k h))
      ]
    ]
  where
    skip :
        {b : Bool} {o : Option TransactionStat}
        → b ≡ false
        → (if b then some r else o) ≡ some old
        → o ≡ some old
    skip e h = ground arith

    other_way :
        (currency type : Text) (s r : TransactionStat)
        → is_stat currency type s ≡ true
        → is_stat currency type r ≡ true
        → is_stat s.currency s.type r ≡ true
    other_way currency type s r mine k =
        let (c, t) = same_keys currency type s mine in
        let (c', t') = same_keys currency type r k in
        rw (c, t, c', t', text_eq_refl currency, text_eq_refl type)

find-set_stat_other :
    (currency type : Text) (s : TransactionStat) (rows : List TransactionStat)
    → is_stat currency type s ≡ false
    → find (is_stat currency type) (set_stat s rows) ≡ find (is_stat currency type) rows
find-set_stat_other currency type s [] h = refl
find-set_stat_other currency type s (r ∷ rows) h = elim (Bool-cases (is_stat s.currency s.type r)) [
  | inl e ↦
      rw (e, h, same_row_keys currency type s r e ∙ h, find-set_stat_other currency type s rows h)
  | inr e ↦ rw (e, find-set_stat_other currency type s rows h)
]

pub found_keys :
    (currency type : Text) (s : TransactionStat) (rows : List TransactionStat)
    → find (is_stat currency type) rows ≡ some s
    → is_stat currency type s ≡ true
found_keys currency type s [] h = cc h
found_keys currency type s (r ∷ rows) h = elim (Bool-cases (is_stat currency type r)) [
  | inl e ↦ subst (λ q. is_stat currency type q ≡ true) (hit _ _ e h) e
  | inr e ↦ found_keys currency type s rows (miss e h)
]
  where
    hit :
        (b : Bool) (o : Option TransactionStat)
        → b ≡ true
        → (if b then some r else o) ≡ some s
        → r ≡ s
    hit b o e h = ground arith

    miss :
        {b : Bool} {o : Option TransactionStat}
        → b ≡ false
        → (if b then some r else o) ≡ some s
        → o ≡ some s
    miss e h = ground arith

-- Counting an event changes the row of its currency and type, and no other.
pub find_stat-counted_in :
    (currency type : Text) (p : Payload) (db : Db)
    → find_stat currency type (counted_in p db)
      ≡ (if counts_for currency type p then some (next_stat p db) else find_stat currency type db)
find_stat-counted_in currency type p db = elim (Option-cases (find_stat p.currency p.type db)) [
  | inl e ↦ rw e
  | inr (old, e) ↦
      let (c, t) = same_keys p.currency p.type old (found_keys p.currency p.type old _ e) in
      rw e (update old e (rw (c, t)))
]
  where
    update :
        (old : TransactionStat)
        → find_stat p.currency p.type db ≡ some old
        → is_stat currency type (counted p.amount old) ≡ counts_for currency type p
        → find (is_stat currency type) (set_stat (counted p.amount old) db.transaction_stats) ≡ (
            if counts_for currency type p
            then some (counted p.amount old)
            else find_stat currency type db)
    update old e keys = elim (Bool-cases (counts_for currency type p)) [
      | inl h ↦
          let (c, t) = both _ _ h in
          let there =
            subst (λ x. find_stat x type db ≡ some old) (text_eq_sound p.currency currency c)
              (subst (λ x. find_stat p.currency x db ≡ some old) (text_eq_sound p.type type t) e) in
          rw (
            h,
            find-set_stat currency type (counted p.amount old) old db.transaction_stats (keys ∙ h)
                there,
          )
      | inr h ↦ rw (
        h,
        find-set_stat_other currency type (counted p.amount old) db.transaction_stats (keys ∙ h),
      )
    ]
