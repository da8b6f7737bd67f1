-- ===== src/Base/Text.antt =====
-- Python's `str`, as its list of code points.
use Prim.Native.Char.{code}
use Prim.Native.String.{String}
use distributed_wallet_ledge.Base.{
  ℕ, suc, ◌-◌, ◌≡◌, ◌≢◌, not, not-true, not-false, ◌↔◌, refl, ap, Bool, true, false, List, [], ◌∷◌,
  map, arith, leb, ◌==◌, ◌&&◌, if◌then◌else◌,
}

abbrev pub Text : Type 0
Text = List ℕ

-- The code points of a literal.
abbrev pub codes : String → Text
codes String.[] = []
codes (String.◌∷◌ c s) = code c ∷ codes s

abbrev pub length {ℓ} : {A : Type ℓ} → List A → ℕ
length [] = 0
length (x ∷ xs) = suc (length xs)

pub length-map : {A B : Type 0} (f : A → B) (xs : List A) → length (map f xs) ≡ length xs
length-map f [] = refl
length-map f (x ∷ xs) = ap suc (length-map f xs)

-- `a == b` on texts.
unfoldable pub text_eq : Text → Text → Bool
text_eq [] [] = true
text_eq (c ∷ s) (d ∷ t) = c == d && text_eq s t
text_eq _ _ = false

pub text_eq_refl : (s : Text) → text_eq s s ≡ true
unfolding text_eq
text_eq_refl [] = refl
text_eq_refl (c ∷ s) = ground (arith, text_eq_refl s)

pub text_eq_sound : (s t : Text) → text_eq s t ≡ true → s ≡ t
unfolding text_eq
text_eq_sound [] [] h = refl
text_eq_sound (c ∷ s) (d ∷ t) h = ground (arith, text_eq_sound s t)
text_eq_sound _ _ h = cc

pub text_eq_iff : (s t : Text) → (text_eq s t ≡ true) ↔ (s ≡ t)
text_eq_iff s t = (text_eq_sound s t, λ e. rw e (text_eq_refl t))

-- A guard `if s != t: raise`, passed or not.
pub text_guard_passed : (s t : Text) → not (text_eq s t) ≡ false → s ≡ t
text_guard_passed s t h = text_eq_sound s t (not-false (text_eq s t) h)

pub text_guard_failed : (s t : Text) → not (text_eq s t) ≡ true → s ≢ t
text_guard_failed s t h e = cc ((text_eq_iff s t).1 e, not-true (text_eq s t) h)

-- `str.upper` on the ASCII letters; the other code points stay as they are.
upper_code : ℕ → ℕ
upper_code c = if leb b'a' c && leb c b'z' then c - 32 else c

unfoldable pub upper : Text → Text
unfolding upper_code
upper [] = []
upper (c ∷ s) = upper_code c ∷ upper s

upper_code-upper_code : (c : ℕ) → upper_code (upper_code c) ≡ upper_code c
unfolding upper_code
upper_code-upper_code c = ground arith

pub upper-upper : (s : Text) → upper (upper s) ≡ upper s
unfolding upper
upper-upper [] = refl
upper-upper (c ∷ s) = rw (upper_code-upper_code c, upper-upper s)

pub length-upper : (s : Text) → length (upper s) ≡ length s
unfolding upper
length-upper [] = refl
length-upper (c ∷ s) = ap suc (length-upper s)
