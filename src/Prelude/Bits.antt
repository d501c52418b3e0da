-- ===== src/Prelude/Bits.antt =====
-- `|` and `^` on machine words at variables: the law of the lowest digit, then what the protocol
-- and the checksum need of them.
use Prim.Native.Nat.{
  ℕ, zero, suc, ◌+◌, ◌-◌, ◌*◌, ◌/◌, ◌%◌, ◌^◌, ◌≤◌, ◌<◌, max, digits, bitwise, differ, bit_or,
  bit_xor, bit_or-bitwise, bit_xor-bitwise,
}
use mathlib.Core.Path.{◌≡◌, refl, ap, sym, ◌∙◌}
use native.Mathlib.Nat.{le_refl, pow-suc}
use native.Mathlib.Omega.{arith}

-- The digits of a number need no more fuel than the number itself.
module _ (tail : ℕ → ℕ) (digit : ℕ → ℕ → ℕ) where
  no_digits : (fuel b : ℕ) → digits tail digit fuel 0 b ≡ tail b
  no_digits zero b = refl
  no_digits (suc fuel) b = refl

  spare_fuel :
      (fuel a b : ℕ) → a ≤ fuel → digits tail digit (suc fuel) a b ≡ digits tail digit fuel a b
  spare_fuel fuel zero b le = no_digits (suc fuel) b ∙ sym (no_digits fuel b)
  spare_fuel zero (suc a) b le = absurd (omega arith)
  spare_fuel (suc fuel) (suc a) b le =
      ap (λ (t : ℕ). t * 2 + digit (suc a % 2) (b % 2))
        (spare_fuel fuel (suc a / 2) (b / 2) (omega arith))

  spare_fuels :
      (gap fuel a b : ℕ) → fuel ≡ gap + a → digits tail digit fuel a b ≡ digits tail digit a a b
  spare_fuels zero fuel a b e = ap (λ (t : ℕ). digits tail digit t a b) (omega arith)
  spare_fuels (suc gap) fuel a b e =
      let one_less : fuel ≡ suc (gap + a) = omega arith in
      ap (λ (t : ℕ). digits tail digit t a b) one_less
      ∙ spare_fuel (gap + a) a b (omega arith)
      ∙ spare_fuels gap (gap + a) a b refl

  lowest_digit :
      (a b : ℕ)
      → bitwise tail digit (suc a) b
        ≡ digit (suc a % 2) (b % 2) + bitwise tail digit (suc a / 2) (b / 2) * 2
  lowest_digit a b =
      let half : ℕ = suc a / 2 in omega (arith, spare_fuels (a - half) a half (b / 2) (omega arith))

-- The lowest digit of an inclusive or.
pub bit_or_step : (x y : ℕ) → bit_or x y ≡ max (x % 2) (y % 2) + bit_or (x / 2) (y / 2) * 2
bit_or_step zero y = simp bit_or-bitwise (omega arith)
bit_or_step (suc x) y = simp bit_or-bitwise (lowest_digit (λ d. d) max x y)

differ-mod : (x y : ℕ) → x < 2 → y < 2 → differ x y ≡ (x + y) % 2
differ-mod zero zero p q = refl
differ-mod zero (suc zero) p q = refl
differ-mod (suc zero) zero p q = refl
differ-mod (suc zero) (suc zero) p q = refl
differ-mod zero (suc (suc y)) p q = absurd (omega arith)
differ-mod (suc zero) (suc (suc y)) p q = absurd (omega arith)
differ-mod (suc (suc x)) y p q = absurd (omega arith)

-- The lowest digit of an exclusive or.
pub bit_xor_step : (a b : ℕ) → bit_xor a b ≡ bit_xor (a / 2) (b / 2) * 2 + (a % 2 + b % 2) % 2
bit_xor_step zero b = simp bit_xor-bitwise (omega arith)
bit_xor_step (suc a) b =
    rw (← differ-mod (suc a % 2) (b % 2) (omega arith) (omega arith))
      (simp bit_xor-bitwise (omega (arith, lowest_digit (λ x. x) differ a b)))

bit_or-zero_fuel : (n a : ℕ) → a ≤ n → bit_or a 0 ≡ a
bit_or-zero_fuel n zero h = refl
bit_or-zero_fuel zero (suc a) h = absurd (omega arith)
bit_or-zero_fuel (suc n) (suc a) h =
    omega (arith, bit_or_step (suc a) 0, bit_or-zero_fuel n (suc a / 2) (omega arith))

pub bit_or-zero : (a : ℕ) → bit_or a 0 ≡ a
bit_or-zero a = bit_or-zero_fuel a a (le_refl a)

bit_xor-zero_fuel : (n a : ℕ) → a ≤ n → bit_xor a 0 ≡ a
bit_xor-zero_fuel n zero h = refl
bit_xor-zero_fuel zero (suc a) h = absurd (omega arith)
bit_xor-zero_fuel (suc n) (suc a) h =
    omega (arith, bit_xor_step (suc a) 0, bit_xor-zero_fuel n (suc a / 2) (omega arith))

pub bit_xor-zero : (a : ℕ) → bit_xor a 0 ≡ a
bit_xor-zero a = bit_xor-zero_fuel a a (le_refl a)

pub zero-bit_xor : (b : ℕ) → bit_xor 0 b ≡ b
zero-bit_xor b = bit_xor-bitwise 0 b

-- `(a << k) | b` is a sum when `b` has at most `k` digits.
pub bit_or_disjoint : (k a b : ℕ) → b < 2 ^ k → bit_or (a * 2 ^ k) b ≡ a * 2 ^ k + b
bit_or_disjoint zero a b h = ground (arith, bit_or-zero a)
bit_or_disjoint (suc k) a b h =
    let twice = ap (λ (t : ℕ). a * t) (pow-suc 2 k) in
    ground (arith, twice, pow-suc 2 k, bit_or_step (a * 2 ^ suc k) b, bit_or_disjoint k a (b / 2))

-- `(a << k) ^ b` is the same sum.
pub bit_xor_disjoint : (k a b : ℕ) → b < 2 ^ k → bit_xor (a * 2 ^ k) b ≡ a * 2 ^ k + b
bit_xor_disjoint zero a b h = ground (arith, bit_xor-zero a)
bit_xor_disjoint (suc k) a b h =
    let twice = ap (λ (t : ℕ). a * t) (pow-suc 2 k) in
    ground (arith, twice, pow-suc 2 k, bit_xor_step (a * 2 ^ suc k) b, bit_xor_disjoint k a (b / 2))

pub bit_xor-half : (a b : ℕ) → bit_xor a b / 2 ≡ bit_xor (a / 2) (b / 2)
bit_xor-half a b = omega (arith, bit_xor_step a b)

pub bit_xor-parity : (a b : ℕ) → bit_xor a b % 2 ≡ (a % 2 + b % 2) % 2
bit_xor-parity a b = omega (arith, bit_xor_step a b)

bit_xor_assoc_fuel : (n a b c : ℕ) → a ≤ n → bit_xor (bit_xor a b) c ≡ bit_xor a (bit_xor b c)
bit_xor_assoc_fuel n zero b c h = rw (zero-bit_xor b, zero-bit_xor (bit_xor b c))
bit_xor_assoc_fuel zero (suc a) b c h = absurd (omega arith)
bit_xor_assoc_fuel (suc n) (suc a) b c h =
    let ih = bit_xor_assoc_fuel n (suc a / 2) (b / 2) (c / 2) (omega arith) in
    omega (
      arith,
      bit_xor_step (bit_xor (suc a) b) c,
      bit_xor_step (suc a) (bit_xor b c),
      ap (λ (x : ℕ). bit_xor x (c / 2)) (bit_xor-half (suc a) b),
      ap (λ (x : ℕ). bit_xor (suc a / 2) x) (bit_xor-half b c),
      bit_xor-parity (suc a) b,
      bit_xor-parity b c,
      ih,
    )

pub bit_xor_assoc : (a b c : ℕ) → bit_xor (bit_xor a b) c ≡ bit_xor a (bit_xor b c)
bit_xor_assoc a b c = bit_xor_assoc_fuel a a b c (le_refl a)

bit_xor_comm_fuel : (n a b : ℕ) → a ≤ n → bit_xor a b ≡ bit_xor b a
bit_xor_comm_fuel n zero b h = rw (zero-bit_xor b, bit_xor-zero b)
bit_xor_comm_fuel zero (suc a) b h = absurd (omega arith)
bit_xor_comm_fuel (suc n) (suc a) b h = omega (
  arith,
  bit_xor_step (suc a) b,
  bit_xor_step b (suc a),
  bit_xor_comm_fuel n (suc a / 2) (b / 2) (omega arith),
)

pub bit_xor_comm : (a b : ℕ) → bit_xor a b ≡ bit_xor b a
bit_xor_comm a b = bit_xor_comm_fuel a a b (le_refl a)

-- `x >> k`, one digit at a time
abbrev pub halve : ℕ → ℕ → ℕ
halve zero x = x
halve (suc k) x = halve k (x / 2)

pub halve-bit_xor : (k a b : ℕ) → halve k (bit_xor a b) ≡ bit_xor (halve k a) (halve k b)
halve-bit_xor zero a b = refl
halve-bit_xor (suc k) a b = ap (halve k) (bit_xor-half a b) ∙ halve-bit_xor k (a / 2) (b / 2)

-- An exclusive or has no more digits than its arguments.
pub bit_xor-lt : (k a b : ℕ) → a < 2 ^ k → b < 2 ^ k → bit_xor a b < 2 ^ k
bit_xor-lt zero a b ha hb =
    let za : a ≡ 0 = omega arith in let zb : b ≡ 0 = omega arith in rw (za, zb) (omega arith)
bit_xor-lt (suc k) a b ha hb = omega (
  arith,
  pow-suc 2 k,
  bit_xor_step a b,
  bit_xor-lt k (a / 2) (b / 2) (omega (arith, pow-suc 2 k)) (omega (arith, pow-suc 2 k)),
)

pub bit_xor_self_cancel : (a b c : ℕ) → bit_xor a b ≡ bit_xor a c → b ≡ c
bit_xor_self_cancel a b c e = sym (undo a b) ∙ ap (bit_xor a) e ∙ undo a c
  where
    zero_fuel : (n x : ℕ) → x ≤ n → bit_xor x x ≡ 0
    zero_fuel n zero h = refl
    zero_fuel zero (suc x) h = absurd (omega arith)
    zero_fuel (suc n) (suc x) h =
        omega (arith, bit_xor_step (suc x) (suc x), zero_fuel n (suc x / 2) (omega arith))

    undo : (x y : ℕ) → bit_xor x (bit_xor x y) ≡ y
    undo x y =
        sym (bit_xor_assoc x x y)
        ∙ ap (λ (t : ℕ). bit_xor t y) (zero_fuel x x (le_refl x))
        ∙ zero-bit_xor y
