-- ===== src/Control/Checksum.antt =====
-- About `calculate_checksum` (unix-domain-socket-control-plane/common/common.h).
use mini_project_of_linux_pr.Prelude.{
  ℕ, zero, suc, ◌+◌, ◌-◌, ◌*◌, ◌/◌, ◌%◌, ◌^◌, ◌≤◌, ◌<◌, List, [], ◌∷◌, ◌++◌, length, ◌≡◌, ◌≢◌,
  Bool-cases, ltb, ltb→lt, inl, inr, refl, arith, length-append, ap, sym, ◌∙◌,
}
use mini_project_of_linux_pr.Control.{
  max_payload_size, Header, bytes_of, raw_header, add_bytes, fold, calculate_checksum,
}

abbrev pub AllBytes : List ℕ → Type 0
AllBytes [] = Unit
AllBytes (b ∷ s) = (b < 256) × AllBytes s

-- The sum of the bytes, without any bound.
abbrev pub sum_of : List ℕ → ℕ
sum_of [] = 0
sum_of (b ∷ s) = b + sum_of s

-- The sum in ones' complement of 16 bits.
abbrev pub ones_complement : ℕ → ℕ
ones_complement zero = 0
ones_complement (suc n) = suc (n % 65535)

fold-ones_complement : (s : ℕ) → s < 2 ^ 32 → fold 3 s ≡ ones_complement s
unfolding fold
fold-ones_complement zero h = refl
fold-ones_complement (suc n) h = ground arith

add_bytes-sum_of :
    (acc : ℕ) (s : List ℕ)
    → AllBytes s
    → acc + 256 * length s < 2 ^ 32
    → add_bytes acc s ≡ acc + sum_of s
unfolding add_bytes
add_bytes-sum_of acc [] k h = omega arith
add_bytes-sum_of acc (b ∷ s) k h =
    let small : (acc + b) % 2 ^ 32 ≡ acc + b = omega arith in
    ap (λ (t : ℕ). add_bytes t s) small
    ∙ add_bytes-sum_of (acc + b) s k.1 (omega arith)
    ∙ omega arith

sum_of-le : (s : List ℕ) → AllBytes s → sum_of s ≤ 255 * length s
sum_of-le [] k = omega arith
sum_of-le (b ∷ s) k = omega (arith, sum_of-le s k.1)

pub AllBytes-append : (xs ys : List ℕ) → AllBytes xs → AllBytes ys → AllBytes (xs ++ ys)
AllBytes-append [] ys h k = k
AllBytes-append (x ∷ xs) ys h k = (h.0, AllBytes-append xs ys h.1 k)

pub AllBytes-bytes_of : (k n : ℕ) → AllBytes (bytes_of k n)
AllBytes-bytes_of zero n = tt
AllBytes-bytes_of (suc k) n = (omega arith, AllBytes-bytes_of k (n / 256))

pub length-bytes_of : (k n : ℕ) → length (bytes_of k n) ≡ k
length-bytes_of zero n = refl
length-bytes_of (suc k) n = ap suc (length-bytes_of k (n / 256))

pub AllBytes-raw_header : (h : Header) → AllBytes (raw_header h)
unfolding raw_header
AllBytes-raw_header h = omega arith

pub length-raw_header : (h : Header) → length (raw_header h) ≡ 24
unfolding raw_header
length-raw_header h = refl

-- The checksum of a message of at most 2048 bytes is the complement, in 32 bits, of the sum of the
-- bytes of the header and of the message in ones' complement of 16 bits: the loop that adds the
-- carries ends within its three rounds, and no addition overflows.
pub calculate_checksum-ones_complement :
    (h : Header) (message : List ℕ)
    → AllBytes message
    → length message ≤ max_payload_size
    → calculate_checksum h message
      ≡ 2 ^ 32 - 1 - ones_complement (sum_of (raw_header h) + sum_of message)
unfolding calculate_checksum
calculate_checksum-ones_complement h message k short =
    let first =
      add_bytes-sum_of 0 (raw_header h) (AllBytes-raw_header h)
        (omega (arith, length-raw_header h)) in
    let bound = sum_of-le (raw_header h) (AllBytes-raw_header h) in
    let both : add_bytes (add_bytes 0 (raw_header h)) message
        ≡ sum_of (raw_header h) + sum_of message =
      ap (λ (t : ℕ). add_bytes t message) first
      ∙ add_bytes-sum_of (0 + sum_of (raw_header h)) message k
          (omega (arith, bound, length-raw_header h))
      ∙ omega arith in
    ap (λ (t : ℕ). 2 ^ 32 - 1 - fold 3 t) both
    ∙ ap (λ (t : ℕ). 2 ^ 32 - 1 - t)
        (fold-ones_complement (sum_of (raw_header h) + sum_of message)
          (omega (arith, bound, length-raw_header h, sum_of-le message k)))

sum_of-append : (xs ys : List ℕ) → sum_of (xs ++ ys) ≡ sum_of xs + sum_of ys
sum_of-append [] ys = omega arith
sum_of-append (x ∷ xs) ys = omega (arith, sum_of-append xs ys)

apart :
    (s t : ℕ)
    → s < t
    → t < s + 256
    → t < 2 ^ 32
    → 2 ^ 32 - 1 - ones_complement s ≢ 2 ^ 32 - 1 - ones_complement t
apart zero zero lt near small e = absurd (omega arith)
apart zero (suc t) lt near small e = absurd (omega arith)
apart (suc s) zero lt near small e = absurd (omega arith)
apart (suc s) (suc t) lt near small e = absurd (omega arith)

middle-lt : (xs : List ℕ) (a : ℕ) (ys : List ℕ) → AllBytes (xs ++ a ∷ ys) → a < 256
middle-lt [] a ys k = k.0
middle-lt (x ∷ xs) a ys k = middle-lt xs a ys k.1

-- A message of which one byte was replaced by another one has another checksum.
pub calculate_checksum_detects :
    (h : Header) (xs ys : List ℕ) (a b : ℕ)
    → AllBytes (xs ++ a ∷ ys)
    → AllBytes (xs ++ b ∷ ys)
    → length (xs ++ a ∷ ys) ≤ max_payload_size
    → a ≢ b
    → calculate_checksum h (xs ++ a ∷ ys) ≢ calculate_checksum h (xs ++ b ∷ ys)
calculate_checksum_detects h xs ys a b ka kb short ne e =
    let base : ℕ = sum_of (raw_header h) + (sum_of xs + sum_of ys) in
    let at : (c : ℕ) → sum_of (raw_header h) + sum_of (xs ++ c ∷ ys) ≡ base + c =
      λ c. omega (arith, sum_of-append xs (c ∷ ys)) in
    let la = middle-lt xs a ys ka in
    let lb = middle-lt xs b ys kb in
    let as_long : length (xs ++ b ∷ ys) ≤ max_payload_size =
      omega (arith, length-append xs (a ∷ ys), length-append xs (b ∷ ys)) in
    let small : base + 256 < 2 ^ 32 = omega (
      arith,
      at a,
      sum_of-le (raw_header h) (AllBytes-raw_header h),
      sum_of-le (xs ++ a ∷ ys) ka,
      length-raw_header h,
    ) in
    let same : 2 ^ 32 - 1 - ones_complement (base + a) ≡ 2 ^ 32 - 1 - ones_complement (base + b) =
      ap (λ (t : ℕ). 2 ^ 32 - 1 - ones_complement t) (sym (at a))
      ∙ sym (calculate_checksum-ones_complement h (xs ++ a ∷ ys) ka short)
      ∙ e
      ∙ calculate_checksum-ones_complement h (xs ++ b ∷ ys) kb as_long
      ∙ ap (λ (t : ℕ). 2 ^ 32 - 1 - ones_complement t) (at b) in
    elim (Bool-cases (ltb a b)) [
      | inl less ↦
          apart (base + a) (base + b) (omega (arith, ltb→lt a b less)) (omega arith) (omega arith)
            same
      | inr more ↦
          (let greater : b < a = ground arith in
            apart (base + b) (base + a) (omega arith) (omega arith) (omega arith) (sym same))
    ]
