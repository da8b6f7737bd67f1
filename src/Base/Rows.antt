-- ===== src/Base/Rows.antt =====
-- Tables as lists of rows: search by a test, and predicates over all rows.
use distributed_wallet_ledge.Base.{
  ℕ, zero, suc, refl, ap, ◌∙◌, ◌+◌, Bool, true, false, ◌≡◌, Bool-cases, inl, inr, arith, Option,
  none, some, List, [], ◌∷◌, ◌++◌, ◌||◌, if◌then◌else◌,
}

module _ {ℓ} {A : Type ℓ} where
  -- The first row that passes the test: `db.scalar(select(…).where(…))`.
  abbrev pub find : (A → Bool) → List A → Option A
  find p [] = none
  find p (x ∷ xs) = if p x then some x else find p xs

  abbrev pub exists : (A → Bool) → List A → Bool
  exists p [] = false
  exists p (x ∷ xs) = p x || exists p xs

  abbrev pub filter : (A → Bool) → List A → List A
  filter p [] = []
  filter p (x ∷ xs) = if p x then x ∷ filter p xs else filter p xs

  abbrev pub All {κ} : (A → Type κ) → List A → Type κ
  All P [] = Unit
  All P (x ∷ xs) = P x × All P xs

  pub All-append {κ} : (P : A → Type κ) (xs ys : List A) → All P xs → All P ys → All P (xs ++ ys)
  All-append P [] ys hx hy = hy
  All-append P (x ∷ xs) ys hx hy = (hx.0, All-append P xs ys hx.1 hy)

  pub exists_of_find :
      (f : A → Bool) (xs : List A) (t : A) → find f xs ≡ some t → exists f xs ≡ true
  exists_of_find f [] t h = cc h
  exists_of_find f (x ∷ xs) t h = elim (Bool-cases (f x)) [
    | inl e ↦ rw e
    | inr e ↦ rw (e, exists_of_find f xs t (ground arith))
  ]

  -- `LIMIT n`, and the rest after it.
  abbrev pub take : ℕ → List A → List A
  take n [] = []
  take zero (x ∷ xs) = []
  take (suc n) (x ∷ xs) = x ∷ take n xs

  abbrev pub drop : ℕ → List A → List A
  drop n [] = []
  drop zero (x ∷ xs) = x ∷ xs
  drop (suc n) (x ∷ xs) = drop n xs

  pub take-drop : (n : ℕ) (xs : List A) → xs ≡ take n xs ++ drop n xs
  take-drop n [] = refl
  take-drop zero (x ∷ xs) = refl
  take-drop (suc n) (x ∷ xs) = ap (λ ys. x ∷ ys) (take-drop n xs)

  pub take-add : (m n : ℕ) (xs : List A) → take m xs ++ take n (drop m xs) ≡ take (m + n) xs
  take-add m n [] = refl
  take-add zero n (x ∷ xs) = ap (λ k. take k (x ∷ xs)) (zero_left n)
    where
      zero_left : (n : ℕ) → n ≡ 0 + n
      zero_left n = omega arith
  take-add (suc m) n (x ∷ xs) =
      ap (λ ys. x ∷ ys) (take-add m n xs) ∙ ap (λ k. take k (x ∷ xs)) (suc_left m n)
    where
      suc_left : (m n : ℕ) → suc (m + n) ≡ suc m + n
      suc_left m n = omega arith

  -- How many rows pass the test.
  abbrev pub count : (A → Bool) → List A → ℕ
  count p [] = 0
  count p (x ∷ xs) = if p x then suc (count p xs) else count p xs
