-- ===== src/Prelude/Ring.antt =====
-- Arrays used as rings: `size` cells, the oldest item at `first`, the next free cell `count` cells on.
use Prim.Native.Nat.{ℕ, zero, suc, ◌+◌, ◌-◌, ◌%◌, ◌≤◌, ◌<◌}
use mathlib.Core.Path.{◌≡◌, refl, ap, sym, ◌∙◌}
use mathlib.Core.Logic.{inl, inr}
use mathlib.Core.Bool.{false}
use mathlib.Core.List.{List, [], ◌∷◌, ◌++◌}
use native.Mathlib.Omega.{arith}
use native.Mathlib.Nat.{mod-eq_of_lt, mod-eq-sub-mod}
use mini_project_of_linux_pr.Prelude.Tests.{
  ltb, ltb→lt, ◌==◌, ==_ne, ==_refl, if◌then◌else◌, Bool-cases,
}
use mini_project_of_linux_pr.Prelude.Lists.{length}

-- An index that went round at most once.
abbrev wrap : ℕ → ℕ → ℕ
wrap size x = if ltb x size then x else x - size

mod-wrap : (size x : ℕ) → x < size + size → x % size ≡ wrap size x
mod-wrap size x h = elim (Bool-cases (ltb x size)) [
  | inl below ↦ rw below (mod-eq_of_lt (ltb→lt x size below))
  | inr above ↦
      (let past : size ≤ x = ground arith in
        rw above (mod-eq-sub-mod past ∙ mod-eq_of_lt (omega arith)))
]

-- What a queue keeps of its indices.
pub first-next :
    (size first n : ℕ)
    → first < size
    → suc n ≤ size
    → ((first + 1) % size < size) × ((first + suc n) % size ≡ ((first + 1) % size + n) % size)
first-next size first n h k =
    let step = mod-wrap size (first + 1) (omega arith) in
    let far = mod-wrap size (first + suc n) (omega arith) in
    let next : (first + 1) % size < size = ground arith in
    let near = mod-wrap size ((first + 1) % size + n) (omega arith) in (next, ground arith)

pub free-next :
    (size first n : ℕ)
    → first < size
    → n < size
    → ((first + n) % size + 1) % size ≡ (first + suc n) % size
free-next size first n h k =
    let at = mod-wrap size (first + n) (omega arith) in
    let bound : (first + n) % size < size = ground arith in
    let more = mod-wrap size ((first + n) % size + 1) (omega arith) in
    let far = mod-wrap size (first + suc n) (omega arith) in ground arith

module _ {ℓ} {A : Type ℓ} where
  -- An assignment to one cell.
  abbrev pub store : (ℕ → A) → ℕ → A → ℕ → A
  store cells i a j = if i == j then a else cells j

  abbrev pub ring_items : ℕ → (ℕ → A) → ℕ → ℕ → List A
  ring_items size cells first zero = []
  ring_items size cells first (suc n) = cells first ∷ ring_items size cells ((first + 1) % size) n

  pub length-ring_items :
      (size : ℕ) (cells : ℕ → A) (first n : ℕ) → length (ring_items size cells first n) ≡ n
  length-ring_items size cells first zero = refl
  length-ring_items size cells first (suc n) =
      ap suc (length-ring_items size cells ((first + 1) % size) n)

  -- A write behind the last item appends it.
  pub ring_items-store :
      (size : ℕ) (cells : ℕ → A) (first n free : ℕ) (a : A)
      → first < size
      → n < size
      → free ≡ (first + n) % size
      → ring_items size (store cells free a) first (suc n) ≡ ring_items size cells first n ++ a ∷ []
  ring_items-store size cells first zero free a h k e =
      let here : free ≡ first = e ∙ ap (λ (t : ℕ). t % size) (omega arith) ∙ mod-eq_of_lt h in
      rw (here, ==_refl first) refl
  ring_items-store size cells first (suc n) free a h k e =
      let (next, shift) = first-next size first n h (omega arith) in
      let same : free ≡ ((first + 1) % size + n) % size = e ∙ shift in
      let far = mod-wrap size (first + suc n) (omega arith) in
      let apart : (free == first) ≡ false = ==_ne free first (λ (q : free ≡ first). ground arith) in
      rw (apart, ring_items-store size cells ((first + 1) % size) n free a next (omega arith) same)
        refl

  -- A write to a cell that holds none of the items.
  pub ring_items-store_free :
      (size : ℕ) (cells : ℕ → A) (first n m free : ℕ) (a : A)
      → first < size
      → n ≤ m
      → m < size
      → free ≡ (first + m) % size
      → ring_items size (store cells free a) first n ≡ ring_items size cells first n
  ring_items-store_free size cells first zero m free a h k l e = refl
  ring_items-store_free size cells first (suc n) zero free a h k l e = absurd (omega arith)
  ring_items-store_free size cells first (suc n) (suc m) free a h k l e =
      let (next, shift) = first-next size first m h (omega arith) in
      let far = mod-wrap size (first + suc m) (omega arith) in
      let apart : (free == first) ≡ false = ==_ne free first (λ (q : free ≡ first). ground arith) in
      rw
        (
          apart,
          ring_items-store_free size cells ((first + 1) % size) n m free a next (omega arith)
              (omega arith) (e ∙ shift),
        )
        refl

  -- A write to the first cell keeps the items behind it.
  pub ring_items-store_first :
      (size : ℕ) (cells : ℕ → A) (first n : ℕ) (a : A)
      → first < size
      → n < size
      → ring_items size (store cells first a) ((first + 1) % size) n
        ≡ ring_items size cells ((first + 1) % size) n
  ring_items-store_first size cells first n a h k =
      let (next, shift) = first-next size first (size - 1) h (omega arith) in
      let around : (first + size) % size ≡ first =
        mod-wrap size (first + size) (omega arith) ∙ ground arith in
      ring_items-store_free size cells ((first + 1) % size) n (size - 1) first a next (omega arith)
        (omega arith) (sym around ∙ ap (λ (t : ℕ). (first + t) % size) (omega arith) ∙ shift)
