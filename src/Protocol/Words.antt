-- ===== src/Protocol/Words.antt =====
-- About the words of gateway/src/protocol_message.c.
use mini_project_of_linux_pr.Prelude.{
  ℕ, ◌+◌, ◌*◌, ◌/◌, ◌%◌, ◌^◌, ◌<◌, ◌≤◌, bit_or, ◌≡◌, refl, ap, ap₂, ◌∙◌, arith, ◌⊎◌,
}
use mini_project_of_linux_pr.Prelude.Bits.{bit_or_disjoint}
use mini_project_of_linux_pr.Types.{Buffer}
use mini_project_of_linux_pr.Protocol.{encode_16_bit, encode_32_bit, decode_16_bit, decode_32_bit}

or_two : (a b : ℕ) → b < 256 → bit_or (a * 2 ^ 8) b ≡ a * 256 + b
or_two a b h = bit_or_disjoint 8 a b (omega arith)

-- What the decoders make of bytes.
pub decode_16_value :
    (f : Buffer) (o : ℕ) → f o < 256 → f (o + 1) < 256 → decode_16_bit f o ≡ f o * 256 + f (o + 1)
unfolding decode_16_bit
decode_16_value f o h k =
    ap (λ (t : ℕ). bit_or t (f (o + 1))) (omega arith)
    ∙ bit_or_disjoint 8 (f o) (f (o + 1)) (omega arith)

pub decode_32_value :
    (f : Buffer) (o : ℕ)
    → f o < 256
    → f (o + 1) < 256
    → f (o + 2) < 256
    → f (o + 3) < 256
    → decode_32_bit f o ≡ f o * 2 ^ 24 + f (o + 1) * 2 ^ 16 + f (o + 2) * 2 ^ 8 + f (o + 3)
unfolding decode_32_bit
decode_32_value f o h0 h1 h2 h3 = or_words (f o) (f (o + 1)) (f (o + 2)) (f (o + 3)) h0 h1 h2 h3
  where
    or_words :
        (a b c d : ℕ)
        → a < 256
        → b < 256
        → c < 256
        → d < 256
        → bit_or
            (bit_or (bit_or (a * 2 ^ 24 % 2 ^ 32) (b * 2 ^ 16 % 2 ^ 32)) (c * 2 ^ 8 % 2 ^ 32))
            d
          ≡ a * 2 ^ 24 + b * 2 ^ 16 + c * 2 ^ 8 + d
    or_words a b c d h0 h1 h2 h3 =
        let e1 : bit_or (a * 2 ^ 24 % 2 ^ 32) (b * 2 ^ 16 % 2 ^ 32) ≡ (a * 256 + b) * 2 ^ 16 =
          ap₂ bit_or (omega arith) (omega arith)
          ∙ bit_or_disjoint 24 a (b * 2 ^ 16) (omega arith)
          ∙ omega arith in
        let e2 : bit_or ((a * 256 + b) * 2 ^ 16) (c * 2 ^ 8 % 2 ^ 32)
            ≡ ((a * 256 + b) * 256 + c) * 2 ^ 8 =
          ap (bit_or ((a * 256 + b) * 2 ^ 16)) (omega arith)
          ∙ bit_or_disjoint 16 (a * 256 + b) (c * 2 ^ 8) (omega arith)
          ∙ omega arith in
        ap (λ (t : ℕ). bit_or (bit_or t (c * 2 ^ 8 % 2 ^ 32)) d) e1
        ∙ ap (λ (t : ℕ). bit_or t d) e2
        ∙ bit_or_disjoint 8 ((a * 256 + b) * 256 + c) d (omega arith)
        ∙ omega arith

-- A decoder reads its own bytes only.
pub decode_16_local :
    (f g : Buffer) (o : ℕ)
    → ((j : ℕ) → o ≤ j → j < o + 2 → f j ≡ g j)
    → decode_16_bit f o ≡ decode_16_bit g o
unfolding decode_16_bit
decode_16_local f g o e =
    ap₂ (λ (a b : ℕ). bit_or (a * 2 ^ 8 % 2 ^ 16) b) (e o (omega arith) (omega arith))
      (e (o + 1) (omega arith) (omega arith))

pub decode_32_local :
    (f g : Buffer) (o : ℕ)
    → ((j : ℕ) → o ≤ j → j < o + 4 → f j ≡ g j)
    → decode_32_bit f o ≡ decode_32_bit g o
unfolding decode_32_bit
decode_32_local f g o e =
    rw
      (
        e o (omega arith) (omega arith),
        e (o + 1) (omega arith) (omega arith),
        e (o + 2) (omega arith) (omega arith),
        e (o + 3) (omega arith) (omega arith),
      )
      refl

-- An encoder writes its own bytes only.
pub encode_16_outside :
    (f : Buffer) (o v j : ℕ) → (j < o) ⊎ (o + 2 ≤ j) → encode_16_bit f o v j ≡ f j
unfolding encode_16_bit
encode_16_outside f o v j h = ground arith

pub encode_32_outside :
    (f : Buffer) (o v j : ℕ) → (j < o) ⊎ (o + 4 ≤ j) → encode_32_bit f o v j ≡ f j
unfolding encode_32_bit
encode_32_outside f o v j h = ground arith

-- Decoding undoes encoding.
pub decode_16-encode_16 :
    (f : Buffer) (o v : ℕ) → v < 2 ^ 16 → decode_16_bit (encode_16_bit f o v) o ≡ v
decode_16-encode_16 f o v h =
    let (b0, b1) = bytes in decode_16_value g o (omega arith) (omega arith) ∙ omega arith
  where
    g : Buffer
    g = encode_16_bit f o v

    bytes : (g o ≡ v / 2 ^ 8 % 256) × (g (o + 1) ≡ v % 256)
    bytes = unfold encode_16_bit in (ground arith, ground arith)

-- A 32-bit word that was written is read back.
pub decode_32-encode_32 :
    (f : Buffer) (o v : ℕ) → v < 2 ^ 32 → decode_32_bit (encode_32_bit f o v) o ≡ v
decode_32-encode_32 f o v h =
    let (b0, b1, b2, b3) = bytes in
    decode_32_value g o (omega arith) (omega arith) (omega arith) (omega arith) ∙ omega arith
  where
    g : Buffer
    g = encode_32_bit f o v

    bytes :
        (g o ≡ v / 2 ^ 24 % 256)
        × (g (o + 1) ≡ v / 2 ^ 16 % 256)
        × (g (o + 2) ≡ v / 2 ^ 8 % 256)
        × (g (o + 3) ≡ v % 256)
    bytes = unfold encode_32_bit in (ground arith, ground arith, ground arith, ground arith)
