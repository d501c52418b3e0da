-- ===== src/Protocol/Packet.antt =====
-- About `packet_encode` (gateway/src/protocol_message.c), and what a packet is to the side that
-- reads it.
use mini_project_of_linux_pr.Prelude.{
  ℕ, zero, suc, ◌+◌, ◌-◌, ◌^◌, ◌<◌, ◌≤◌, none, some, ◌∷◌, ltb, if◌then◌else◌, ◌≡◌, refl, ap, ap₂,
  subst, ◌∙◌, arith, ◌⊎◌, ◌↔◌, inl, inr,
}
use mini_project_of_linux_pr.Types.{Buffer, max_payload}
use mini_project_of_linux_pr.Crc.{crc_calculate}
use mini_project_of_linux_pr.Crc.Bitwise.{AllBytes}
use mini_project_of_linux_pr.Crc.Detects.{crc_calculate-lt}
use mini_project_of_linux_pr.Protocol.{
  protocol_magic, protocol_version, header_size, crc_size, copy, slice, encode_16_bit,
  encode_32_bit, decode_16_bit, decode_32_bit, encode_header, packet_encode,
}
use mini_project_of_linux_pr.Protocol.Words.{
  decode_16_local, decode_32_local, encode_16_outside, encode_32_outside, decode_16-encode_16,
  decode_32-encode_32,
}

pub record IsHeader (out : Buffer) (type length request_id : ℕ) : Type 0 where
  pub magic : decode_32_bit out 0 ≡ protocol_magic
  pub version : decode_16_bit out 4 ≡ protocol_version
  pub type_is : decode_16_bit out 6 ≡ type
  pub length_is : decode_32_bit out 8 ≡ length
  pub request : decode_32_bit out 12 ≡ request_id

-- The bytes of a packet, and the check that its reader makes.
pub record IsPacket (out : Buffer) (type request_id : ℕ) (payload : Buffer) (length : ℕ)
    : Type 0 where
  pub header : IsHeader out type length request_id
  pub body : (i : ℕ) → i < length → out (header_size + i) ≡ payload i
  pub checksum : decode_32_bit out (header_size + length) ≡ crc_calculate (slice payload 0 length)

pub IsHeader-local :
    (f g : Buffer) (t l r : ℕ)
    → ((j : ℕ) → j < 16 → f j ≡ g j)
    → IsHeader g t l r
    → IsHeader f t l r
IsHeader-local f g t l r e h = record {
  magic = decode_32_local f g 0 (λ j a b. e j (omega arith)) ∙ h.magic;
  version = decode_16_local f g 4 (λ j a b. e j (omega arith)) ∙ h.version;
  type_is = decode_16_local f g 6 (λ j a b. e j (omega arith)) ∙ h.type_is;
  length_is = decode_32_local f g 8 (λ j a b. e j (omega arith)) ∙ h.length_is;
  request = decode_32_local f g 12 (λ j a b. e j (omega arith)) ∙ h.request;
}

encode_header-IsHeader :
    (buffer : Buffer) (t l r : ℕ)
    → t < 2 ^ 16
    → l < 2 ^ 32
    → r < 2 ^ 32
    → IsHeader (encode_header buffer t l r) t l r
unfolding encode_header
encode_header-IsHeader buffer t l r ht hl hr =
    let b1 = encode_32_bit buffer 0 protocol_magic in
    let b2 = encode_16_bit b1 4 protocol_version in
    let b3 = encode_16_bit b2 6 t in
    let b4 = encode_32_bit b3 8 l in
    let b5 = encode_32_bit b4 12 r in
    let s5 : (j : ℕ) → j < 12 → b5 j ≡ b4 j = λ j h. encode_32_outside b4 12 r j (inl h) in
    let s4 : (j : ℕ) → j < 8 → b4 j ≡ b3 j = λ j h. encode_32_outside b3 8 l j (inl h) in
    let s3 : (j : ℕ) → j < 6 → b3 j ≡ b2 j = λ j h. encode_16_outside b2 6 t j (inl h) in
    let s2 : (j : ℕ) → j < 4 → b2 j ≡ b1 j =
      λ j h. encode_16_outside b1 4 protocol_version j (inl h) in
    record {
      magic =
          decode_32_local b5 b1 0
            (λ j a b. s5 j (omega arith) ∙ s4 j (omega arith) ∙ s3 j (omega arith) ∙ s2 j b)
          ∙ decode_32-encode_32 buffer 0 protocol_magic (omega arith);
      version =
          decode_16_local b5 b2 4 (λ j a b. s5 j (omega arith) ∙ s4 j (omega arith) ∙ s3 j b)
          ∙ decode_16-encode_16 b1 4 protocol_version (omega arith);
      type_is =
          decode_16_local b5 b3 6 (λ j a b. s5 j (omega arith) ∙ s4 j b)
          ∙ decode_16-encode_16 b2 6 t ht;
      length_is = decode_32_local b5 b4 8 (λ j a b. s5 j b) ∙ decode_32-encode_32 b3 8 l hl;
      request = decode_32-encode_32 b4 12 r hr;
    }

encode_header-outside :
    (buffer : Buffer) (t l r j : ℕ) → 16 ≤ j → encode_header buffer t l r j ≡ buffer j
unfolding encode_header
encode_header-outside buffer t l r j h =
    let b1 = encode_32_bit buffer 0 protocol_magic in
    let b2 = encode_16_bit b1 4 protocol_version in
    let b3 = encode_16_bit b2 6 t in
    let b4 = encode_32_bit b3 8 l in
    encode_32_outside b4 12 r j (inr h)
    ∙ encode_32_outside b3 8 l j (inr (omega arith))
    ∙ encode_16_outside b2 6 t j (inr (omega arith))
    ∙ encode_16_outside b1 4 protocol_version j (inr (omega arith))
    ∙ encode_32_outside buffer 0 protocol_magic j (inr (omega arith))

pub slice_local :
    (f g : Buffer) (a b n : ℕ)
    → ((i : ℕ) → i < n → f (a + i) ≡ g (b + i))
    → slice f a n ≡ slice g b n
slice_local f g a b zero e = refl
slice_local f g a b (suc n) e =
    ap₂ ◌∷◌ (ap f (omega arith) ∙ e 0 (omega arith) ∙ ap g (omega arith)) (
      slice_local f g (a + 1) (b + 1) n
        (λ i h. ap f (omega arith) ∙ e (suc i) (omega arith) ∙ ap g (omega arith)))

-- the payload consists of bytes
abbrev pub IsBytes : Buffer → ℕ → Type 0
IsBytes payload n = (i : ℕ) → i < n → payload i < 256

pub slice-AllBytes :
    (f : Buffer) (a n : ℕ) → ((i : ℕ) → i < n → f (a + i) < 256) → AllBytes (slice f a n)
slice-AllBytes f a zero h = tt
slice-AllBytes f a (suc n) h = (
  subst (λ (t : ℕ). f t < 256) (omega arith) (h 0 (omega arith)),
  slice-AllBytes f (a + 1) n
      (λ i k. subst (λ (t : ℕ). f t < 256) (omega arith) (h (suc i) (omega arith))),
)

copy-if :
    (b p : Buffer) (n j : ℕ)
    → (if ltb 0 n then copy b header_size p 0 n else b) j ≡ copy b header_size p 0 n j
copy-if b p n j = ground arith

copy-inside : (b p : Buffer) (n i : ℕ) → i < n → copy b header_size p 0 n (header_size + i) ≡ p i
copy-inside b p n i h = ground (arith, ap p (shift i))
  where
    shift : (i : ℕ) → 0 + (header_size + i - header_size) ≡ i
    shift i = omega arith

copy-outside : (b p : Buffer) (n j : ℕ) → (j < 16) ⊎ (16 + n ≤ j) → copy b header_size p 0 n j ≡ b j
copy-outside b p n j h = ground arith

-- A payload of at most 4096 bytes that fits is written as a packet of its type and request, and no
-- byte behind the packet is touched.
pub packet_encode-IsPacket :
    (buffer payload : Buffer) (size type request_id length : ℕ)
    → type < 2 ^ 16
    → request_id < 2 ^ 32
    → length ≤ max_payload
    → length + header_size + crc_size ≤ size
    → IsBytes payload length
    → (out : Buffer) × (packet_encode (some buffer) size type request_id payload length ≡ some out)
      × IsPacket out type request_id payload length
      × ((j : ℕ) → length + header_size + crc_size ≤ j → out j ≡ buffer j)
unfolding packet_encode
packet_encode-IsPacket buffer payload size type request_id length ht hr hl fits bytes =
    let b5 = encode_header buffer type length request_id in
    let b6 : Buffer = if ltb 0 length then copy b5 header_size payload 0 length else b5 in
    let crc = crc_calculate (slice b6 header_size length) in
    let out = encode_32_bit b6 (header_size + length) crc in
    let body6 : (i : ℕ) → i < length → b6 (header_size + i) ≡ payload i =
      λ i h. copy-if b5 payload length (header_size + i) ∙ copy-inside b5 payload length i h in
    let same : slice b6 header_size length ≡ slice payload 0 length =
      slice_local b6 payload header_size 0 length (λ i h. body6 i h ∙ ap payload (omega arith)) in
    let small : crc < 2 ^ 32 =
      crc_calculate-lt (slice b6 header_size length)
        (slice-AllBytes b6 header_size length (λ i h. rw (body6 i h) (bytes i h))) in
    (
      out,
      ground arith,
      record {
        header =
            IsHeader-local out b5 type length request_id
              (λ j h.
                encode_32_outside b6 (header_size + length) crc j (inl (omega arith))
                ∙ copy-if b5 payload length j
                ∙ copy-outside b5 payload length j (inl h))
              (encode_header-IsHeader buffer type length request_id ht (omega arith) hr);
        body = λ i h.
            encode_32_outside b6 (header_size + length) crc (header_size + i) (inl (omega arith))
            ∙ body6 i h;
        checksum = decode_32-encode_32 b6 (header_size + length) crc small ∙ ap crc_calculate same;
      },
      λ j h.
          encode_32_outside b6 (header_size + length) crc j (inr (omega arith))
          ∙ copy-if b5 payload length j
          ∙ copy-outside b5 payload length j (inr (omega arith))
          ∙ encode_header-outside buffer type length request_id j (omega arith),
    )

-- With a buffer and a 32-bit length, `packet_encode` refuses exactly a payload that is too long or does not fit.
pub packet_encode-refuses :
    (buffer payload : Buffer) (size type request_id length : ℕ)
    → length < 2 ^ 32
    → (packet_encode (some buffer) size type request_id payload length ≡ none)
      ↔ ((max_payload < length) ⊎ (size < length + header_size + crc_size))
unfolding packet_encode
packet_encode-refuses buffer payload size type request_id length h = ground arith
