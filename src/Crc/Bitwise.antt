-- ===== src/Crc/Bitwise.antt =====
-- About the table of gateway/src/crc.c, beside the checksum that shifts one bit at a time.
use mini_project_of_linux_pr.Prelude.{
  ℕ, zero, suc, ◌+◌, ◌*◌, ◌/◌, ◌%◌, ◌^◌, ◌<◌, List, [], ◌∷◌, ◌==◌, bit_xor, get_or, ◌≡◌, refl, sym,
  ap, ap₂, ◌∙◌, arith, Bool-cases, inl, inr,
}
use native.Mathlib.Nat.{pow-suc}
use mini_project_of_linux_pr.Prelude.Bits.{
  halve, halve-bit_xor, bit_xor_step, bit_xor_assoc, bit_xor_comm, bit_xor-zero, bit_xor-parity,
  bit_xor_disjoint,
}
use mini_project_of_linux_pr.Crc.{
  polynomial, round, rounds, build_table, crc_table, crc_update, crc_loop,
}

-- the checksum without a table: each byte takes eight rounds
abbrev pub AllBytes : List ℕ → Type 0
AllBytes [] = Unit
AllBytes (b ∷ bs) = (b < 256) × AllBytes bs

unfoldable pub crc_bits : ℕ → List ℕ → ℕ
crc_bits crc [] = crc
crc_bits crc (byte ∷ bytes) = crc_bits (rounds 8 (bit_xor crc byte)) bytes

-- Rounds act on the low digits and only shift what stands above them.
round-above : (y z : ℕ) → round (bit_xor y (z * 2)) ≡ bit_xor (round y) z
unfolding round
round-above y z =
    let half : bit_xor y (z * 2) / 2 ≡ bit_xor (y / 2) z =
      omega (arith, bit_xor_step y (z * 2), ap (λ (t : ℕ). bit_xor (y / 2) t) (twice z)) in
    elim (Bool-cases (y % 2 == 1)) [
      | inl odd ↦ rw (odd, half, parity y z, odd) (sym (bit_xor_assoc polynomial (y / 2) z))
      | inr even ↦ rw (even, half, parity y z, even) refl
    ]
  where
    twice : (z : ℕ) → z * 2 / 2 ≡ z
    twice z = omega arith

    parity : (y z : ℕ) → bit_xor y (z * 2) % 2 ≡ y % 2
    parity y z = omega (arith, bit_xor-parity y (z * 2))

rounds-above : (k y q : ℕ) → rounds k (bit_xor y (q * 2 ^ k)) ≡ bit_xor (rounds k y) q
unfolding rounds
rounds-above zero y q = ap (bit_xor y) (omega arith)
rounds-above (suc k) y q =
    ap (λ (t : ℕ). rounds k (round (bit_xor y t)))
      (omega (arith, ap (λ (t : ℕ). q * t) (pow-suc 2 k)))
    ∙ ap (rounds k) (round-above y (q * 2 ^ k))
    ∙ rounds-above k (round y) q

-- Eight rounds of a word: the table entry of its low byte, and the rest shifted down.
rounds_split : (x : ℕ) → rounds 8 x ≡ bit_xor (rounds 8 (x % 256)) (x / 256)
rounds_split x = ap (rounds 8) whole ∙ rounds-above 8 (x % 256) (x / 256)
  where
    whole : x ≡ bit_xor (x % 256) (x / 256 * 2 ^ 8)
    whole = omega (
      arith,
      bit_xor_disjoint 8 (x / 256) (x % 256) (omega arith),
      bit_xor_comm (x % 256) (x / 256 * 2 ^ 8),
    )

get_or-build_table : (n i k : ℕ) → k < n → get_or (build_table n i) k 0 ≡ rounds 8 (i + k)
unfolding build_table
get_or-build_table zero i k h = absurd (omega arith)
get_or-build_table (suc n) i zero h = ap (rounds 8) (omega arith)
get_or-build_table (suc n) i (suc k) h =
    get_or-build_table n (suc i) k (omega arith) ∙ ap (rounds 8) (omega arith)

get_or-crc_table : (k : ℕ) → k < 256 → get_or crc_table k 0 ≡ rounds 8 k
unfolding crc_table
get_or-crc_table k h = get_or-build_table 256 0 k h ∙ ap (rounds 8) (omega arith)

pub crc_update-rounds :
    (crc byte : ℕ) → byte < 256 → crc_update crc byte ≡ rounds 8 (bit_xor crc byte)
unfolding crc_update
crc_update-rounds crc byte h =
    ap₂ bit_xor (get_or-crc_table (x % 256) (omega arith)) (sym high) ∙ sym (rounds_split x)
  where
    x : ℕ
    x = bit_xor crc byte

    high : bit_xor crc byte / 256 ≡ crc / 256
    high = omega (
      arith,
      halve-bit_xor 8 crc byte,
      ap (bit_xor (halve 8 crc)) gone,
      bit_xor-zero (halve 8 crc),
    )
      where
        gone : halve 8 byte ≡ 0
        gone = omega arith

-- The table-driven checksum is the one that shifts a bit at a time.
pub crc_loop-crc_bits :
    (crc : ℕ) (bytes : List ℕ) → AllBytes bytes → crc_loop crc bytes ≡ crc_bits crc bytes
unfolding crc_loop crc_bits
crc_loop-crc_bits crc [] h = refl
crc_loop-crc_bits crc (b ∷ bs) h =
    ap (λ (t : ℕ). crc_loop t bs) (crc_update-rounds crc b h.0)
    ∙ crc_loop-crc_bits (rounds 8 (bit_xor crc b)) bs h.1
