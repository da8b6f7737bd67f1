-- ===== src/Base/Int.antt =====
-- Python's `int` and the database's signed columns, as integers over the native numbers.
use distributed_wallet_ledge.Base.{
  ℕ, suc, ◌+◌, ◌-◌, ◌^◌, ◌≤◌, ◌≡◌, ◌↔◌, ap, Bool, true, false, arith, ltb, leb, ◌==◌, ◌&&◌,
  if◌then◌else◌,
}

-- `negsuc n` is -(n + 1).
pub data ℤ : Type 0 where
  pos : ℕ → ℤ
  negsuc : ℕ → ℤ

abbrev pub pos_part : ℤ → ℕ
pos_part (pos n) = n
pos_part (negsuc n) = 0

abbrev pub neg_part : ℤ → ℕ
neg_part (pos n) = 0
neg_part (negsuc n) = suc n

-- a - b, as an integer.
abbrev pub sub_ℕ : ℕ → ℕ → ℤ
sub_ℕ a b = if leb b a then pos (a - b) else negsuc (b - a - 1)

infixl 65 ◌+ℤ◌ ◌-ℤ◌
infix 50 ◌≤ℤ◌ ◌<ℤ◌
unfoldable pub ◌+ℤ◌ : ℤ → ℤ → ℤ
a +ℤ b = sub_ℕ (pos_part a + pos_part b) (neg_part a + neg_part b)

unfoldable pub ◌-ℤ◌ : ℤ → ℤ → ℤ
a -ℤ b = sub_ℕ (pos_part a + neg_part b) (neg_part a + pos_part b)

abbrev pub ◌≤ℤ◌ : ℤ → ℤ → Type 0
a ≤ℤ b = pos_part a + neg_part b ≤ pos_part b + neg_part a

abbrev pub ◌<ℤ◌ : ℤ → ℤ → Type 0
a <ℤ b = suc (pos_part a + neg_part b) ≤ pos_part b + neg_part a

abbrev pub ltb_ℤ : ℤ → ℤ → Bool
ltb_ℤ a b = ltb (pos_part a + neg_part b) (pos_part b + neg_part a)

abbrev pub leb_ℤ : ℤ → ℤ → Bool
leb_ℤ a b = leb (pos_part a + neg_part b) (pos_part b + neg_part a)

abbrev pub eqb_ℤ : ℤ → ℤ → Bool
eqb_ℤ a b = (pos_part a + neg_part b) == (pos_part b + neg_part a)

-- One lemma for each operation lets `omega` work with the operations shut.
pub +ℤ_parts :
    (a b : ℤ)
    → pos_part (a +ℤ b) + neg_part a + neg_part b ≡ neg_part (a +ℤ b) + pos_part a + pos_part b
unfolding ◌+ℤ◌
+ℤ_parts a b = ground arith

pub -ℤ_parts :
    (a b : ℤ)
    → pos_part (a -ℤ b) + neg_part a + pos_part b ≡ neg_part (a -ℤ b) + pos_part a + neg_part b
unfolding ◌-ℤ◌
-ℤ_parts a b = ground arith

pub eq_of_parts : (a b : ℤ) → pos_part a + neg_part b ≡ pos_part b + neg_part a → a ≡ b
eq_of_parts a b h = ground arith

pub ruleset int_laws = (arith, +ℤ_parts, -ℤ_parts, eq_of_parts)

pub +ℤ_comm : (a b : ℤ) → a +ℤ b ≡ b +ℤ a
+ℤ_comm a b = omega int_laws

-- Adding the negative is subtracting.
pub +ℤ_neg : (a b : ℤ) → a +ℤ (pos 0 -ℤ b) ≡ a -ℤ b
+ℤ_neg a b = omega int_laws

-- Two amounts that cancel change no sum.
pub cancels : (a b c : ℤ) → a +ℤ b ≡ pos 0 → b +ℤ (a +ℤ c) ≡ c
cancels a b c h = omega (int_laws, ap pos_part h, ap neg_part h)

pub swap_ends : (a b c : ℤ) → a +ℤ b +ℤ c ≡ c +ℤ b +ℤ a
swap_ends a b c = omega int_laws

-- A term put in front of both sides.
pub carry : (r a b c d : ℤ) → a +ℤ b ≡ c +ℤ d → r +ℤ a +ℤ b ≡ r +ℤ c +ℤ d
carry r a b c d h = omega (int_laws, ap pos_part h, ap neg_part h)

pub +ℤ_zero_left : (a b : ℤ) → pos 0 +ℤ a +ℤ b ≡ a +ℤ b
+ℤ_zero_left a b = omega int_laws

pub +ℤ_zero : (a : ℤ) → a +ℤ pos 0 ≡ a
+ℤ_zero a = omega int_laws

pub eqb_ℤ_iff : (a b : ℤ) → (eqb_ℤ a b ≡ true) ↔ (a ≡ b)
eqb_ℤ_iff a b = ground (arith, eq_of_parts a b)

-- A guard `if a < b: raise`, passed or not.
pub covered : (a b : ℤ) → ltb_ℤ a b ≡ false → b ≤ℤ a
covered a b h = ground arith

pub short_of : (a b : ℤ) → ltb_ℤ a b ≡ true → a <ℤ b
short_of a b h = ground arith

-- A `BigInteger` column holds 64-bit two's complement numbers.
abbrev pub max_bigint : ℤ
max_bigint = pos (2 ^ 63 - 1)

abbrev pub min_bigint : ℤ
min_bigint = negsuc (2 ^ 63 - 1)

abbrev pub fits_bigint : ℤ → Bool
fits_bigint n = leb_ℤ min_bigint n && leb_ℤ n max_bigint

pub not_both : (a b : ℤ) → b ≤ℤ a → a <ℤ b → ⊥
not_both a b h l = omega arith
