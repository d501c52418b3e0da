-- ===== src/Prelude/Int.antt =====
-- Signed machine integers as far as the program compares them: file descriptors, slots and
-- return codes.
use Prim.Native.Nat.{ℕ, compare, Ordering}
use mathlib.Core.Path.{◌≡◌}
use mathlib.Core.Bool.{Bool, true, false}
use native.Mathlib.Omega.{arith}

-- `negsuc n` is -(n + 1).
pub data ℤ : Type 0 where
  pos : ℕ → ℤ
  negsuc : ℕ → ℤ

-- -1, the descriptor of an unused slot and the common error code
abbrev pub minus_one : ℤ
minus_one = negsuc 0

-- `x < 0`
abbrev pub is_neg : ℤ → Bool
is_neg (pos n) = false
is_neg (negsuc n) = true

-- `x == y`
abbrev pub eqℤ : ℤ → ℤ → Bool
eqℤ (pos a) (pos b) = elim (compare a b) [ Ordering.eq ↦ true | _ ↦ false ]
eqℤ (pos a) (negsuc b) = false
eqℤ (negsuc a) (pos b) = false
eqℤ (negsuc a) (negsuc b) = elim (compare a b) [ Ordering.eq ↦ true | _ ↦ false ]

pub eqℤ→eq : (x y : ℤ) → eqℤ x y ≡ true → x ≡ y
eqℤ→eq (pos a) (pos b) h = ground arith
eqℤ→eq (pos a) (negsuc b) h = cc
eqℤ→eq (negsuc a) (pos b) h = cc
eqℤ→eq (negsuc a) (negsuc b) h = ground arith

pub eqℤ_refl : (x : ℤ) → eqℤ x x ≡ true
eqℤ_refl (pos a) = ground arith
eqℤ_refl (negsuc a) = ground arith
