-- ===== src/Crc/Detects.antt =====
-- About `crc_calculate` (gateway/src/crc.c): its range and changed messages.
use mini_project_of_linux_pr.Prelude.{
  ℕ, zero, suc, ◌/◌, ◌^◌, ◌<◌, ◌≤◌, List, [], ◌∷◌, ◌++◌, bit_xor, ◌≡◌, ◌≢◌, sym, ◌∙◌, arith,
}
use mini_project_of_linux_pr.Prelude.Bits.{
  bit_xor_assoc, bit_xor_disjoint, bit_xor-lt, bit_xor_self_cancel, bit_xor_comm,
}
use mini_project_of_linux_pr.Crc.{polynomial, all_ones, round, rounds, crc_loop, crc_calculate}
use mini_project_of_linux_pr.Crc.Bitwise.{AllBytes, crc_bits, crc_loop-crc_bits}

round-lt : (c : ℕ) → c < 2 ^ 32 → round c < 2 ^ 32
unfolding round
round-lt c h = ground (arith, bit_xor-lt 32 polynomial (c / 2))

rounds-lt : (k c : ℕ) → c < 2 ^ 32 → rounds k c < 2 ^ 32
unfolding rounds
rounds-lt zero c h = h
rounds-lt (suc k) c h = rounds-lt k (round c) (round-lt c h)

crc_bits-lt : (c : ℕ) (bytes : List ℕ) → c < 2 ^ 32 → AllBytes bytes → crc_bits c bytes < 2 ^ 32
unfolding crc_bits
crc_bits-lt c [] h k = h
crc_bits-lt c (b ∷ bs) h k =
    crc_bits-lt (rounds 8 (bit_xor c b)) bs
      (rounds-lt 8 (bit_xor c b) (bit_xor-lt 32 c b h (omega arith))) k.1

-- The checksum is a 32-bit word.
pub crc_calculate-lt : (bytes : List ℕ) → AllBytes bytes → crc_calculate bytes < 2 ^ 32
unfolding crc_calculate
crc_calculate-lt bytes k =
    bit_xor-lt 32 (crc_loop all_ones bytes) all_ones
      (rw (crc_loop-crc_bits all_ones bytes k) (crc_bits-lt all_ones bytes (omega arith) k))
      (omega arith)

-- The polynomial sets the top bit, which a shifted word never has.
top_set : (y : ℕ) → y < 2 ^ 31 → 2 ^ 31 ≤ bit_xor polynomial y
top_set y h =
    let low : ℕ = 0x6DB88320 in
    omega (
      arith,
      bit_xor_disjoint 31 1 (bit_xor low y) (bit_xor-lt 31 low y (omega arith) h),
      bit_xor_assoc (2 ^ 31) low y,
    )

round_injective : (a b : ℕ) → a < 2 ^ 32 → b < 2 ^ 32 → round a ≡ round b → a ≡ b
unfolding round
round_injective a b ha hb e =
    ground (arith, top_set (a / 2), top_set (b / 2), bit_xor_self_cancel polynomial (a / 2) (b / 2))

rounds_injective : (k a b : ℕ) → a < 2 ^ 32 → b < 2 ^ 32 → rounds k a ≡ rounds k b → a ≡ b
unfolding rounds
rounds_injective zero a b ha hb e = e
rounds_injective (suc k) a b ha hb e =
    round_injective a b ha hb
      (rounds_injective k (round a) (round b) (round-lt a ha) (round-lt b hb) e)

crc_bits_injective :
    (bytes : List ℕ) (a b : ℕ)
    → AllBytes bytes
    → a < 2 ^ 32
    → b < 2 ^ 32
    → crc_bits a bytes ≡ crc_bits b bytes
    → a ≡ b
unfolding crc_bits
crc_bits_injective [] a b k ha hb e = e
crc_bits_injective (c ∷ cs) a b k ha hb e =
    let la = bit_xor-lt 32 a c ha (omega arith) in
    let lb = bit_xor-lt 32 b c hb (omega arith) in
    let same = rounds_injective 8 (bit_xor a c) (bit_xor b c) la lb (
      crc_bits_injective cs (rounds 8 (bit_xor a c)) (rounds 8 (bit_xor b c)) k.1
        (rounds-lt 8 (bit_xor a c) la) (rounds-lt 8 (bit_xor b c) lb) e) in
    bit_xor_self_cancel c a b (bit_xor_comm c a ∙ same ∙ bit_xor_comm b c)

crc_bits-differ :
    (c : ℕ) (xs ys : List ℕ) (a b : ℕ)
    → c < 2 ^ 32
    → AllBytes (xs ++ a ∷ ys)
    → b < 256
    → crc_bits c (xs ++ a ∷ ys) ≡ crc_bits c (xs ++ b ∷ ys)
    → a ≡ b
unfolding crc_bits
crc_bits-differ c [] ys a b hc k hb e =
    let la = bit_xor-lt 32 c a hc (omega arith) in
    let lb = bit_xor-lt 32 c b hc (omega arith) in
    bit_xor_self_cancel c a b (
      rounds_injective 8 (bit_xor c a) (bit_xor c b) la lb (
        crc_bits_injective ys (rounds 8 (bit_xor c a)) (rounds 8 (bit_xor c b)) k.1
          (rounds-lt 8 (bit_xor c a) la) (rounds-lt 8 (bit_xor c b) lb) e))
crc_bits-differ c (x ∷ xs) ys a b hc k hb e =
    crc_bits-differ (rounds 8 (bit_xor c x)) xs ys a b
      (rounds-lt 8 (bit_xor c x) (bit_xor-lt 32 c x hc (omega arith))) k.1 hb e

AllBytes-replace :
    (xs ys : List ℕ) (a b : ℕ) → AllBytes (xs ++ a ∷ ys) → b < 256 → AllBytes (xs ++ b ∷ ys)
AllBytes-replace [] ys a b k hb = (hb, k.1)
AllBytes-replace (x ∷ xs) ys a b k hb = (k.0, AllBytes-replace xs ys a b k.1 hb)

-- A message in which one byte was replaced by another one has another checksum.
pub crc_detects_one_byte :
    (xs ys : List ℕ) (a b : ℕ)
    → AllBytes (xs ++ a ∷ ys)
    → b < 256
    → a ≢ b
    → crc_calculate (xs ++ a ∷ ys) ≢ crc_calculate (xs ++ b ∷ ys)
unfolding crc_calculate
crc_detects_one_byte xs ys a b k hb ne e =
    ne (crc_bits-differ all_ones xs ys a b (omega arith) k hb bits)
  where
    l : ℕ
    l = crc_loop all_ones (xs ++ a ∷ ys)

    m : ℕ
    m = crc_loop all_ones (xs ++ b ∷ ys)

    bits : crc_bits all_ones (xs ++ a ∷ ys) ≡ crc_bits all_ones (xs ++ b ∷ ys)
    bits =
        sym (crc_loop-crc_bits all_ones (xs ++ a ∷ ys) k)
        ∙ bit_xor_self_cancel all_ones l m (bit_xor_comm all_ones l ∙ e ∙ bit_xor_comm m all_ones)
        ∙ crc_loop-crc_bits all_ones (xs ++ b ∷ ys) (AllBytes-replace xs ys a b k hb)
