-- ===== src/Control/Outgoing/Bytes.antt =====
-- About the bytes that go to a client (unix-domain-socket-control-plane/gatewayd/server.h).
use mini_project_of_linux_pr.Prelude.{
  ◌%◌, ◌+◌, subst, sym, ap, ◌∙◌, ℕ, zero, suc, ◌≤◌, ◌<◌, ltb, Bool-cases, List, [], ◌∷◌, ◌++◌,
  append_assoc, length, length-append, take, drop, take-append-drop, ◌≡◌, refl, ◌⊎◌, inl, inr,
  arith,
}
use mini_project_of_linux_pr.Prelude.Ring.{ring_items}
use mini_project_of_linux_pr.Control.{
  MessageControl, wire, raw_header, bytes_of, header_bytes, checksum_bytes,
}
use mini_project_of_linux_pr.Control.Checksum.{length-raw_header, length-bytes_of}
use mini_project_of_linux_pr.Control.Structs.{Outgoing, Client}
use mini_project_of_linux_pr.Control.Outgoing.{
  Sent, accepted, full, interrupted, refused, all_sent, send_loop, framed,
}

-- The messages that wait, the oldest first.
abbrev pub waiting : Client → List Outgoing
waiting c = ring_items 16 c.send_queue c.send_tail c.send_count

-- The bytes that are still to be sent.
abbrev pub pending : List Outgoing → List ℕ
pending [] = []
pending (o ∷ os) = drop o.bytes_sent (wire o.msg) ++ pending os

-- The buffer of a message that has been begun holds its frame.
abbrev pub IsFramed : Outgoing → Type 0
IsFramed o = (o.bytes_sent ≡ 0) ⊎ (o.wire_buf ≡ wire o.msg)

abbrev pub AllFramed : List Outgoing → Type 0
AllFramed [] = Unit
AllFramed (o ∷ os) = IsFramed o × AllFramed os

pub record IsSending (c : Client) : Type 0 where
  pub inside : c.send_tail < 16
  pub fits : c.send_count ≤ 16
  pub free : c.send_head ≡ (c.send_tail + c.send_count) % 16
  pub framed_all : AllFramed (waiting c)

-- The ring of `c'` is that of `c`.
abbrev pub SameRing : Client → Client → Type 0
SameRing c c' =
    (c'.send_queue ≡ c.send_queue)
    × (c'.send_head ≡ c.send_head)
    × (c'.send_tail ≡ c.send_tail)
    × (c'.send_count ≡ c.send_count)

pub SameRing-IsSending : (c c' : Client) → SameRing c c' → IsSending c → IsSending c'
SameRing-IsSending c c' (queue, head, tail, count) v =
    let same : waiting c' ≡ waiting c = rw (queue, tail, count) refl in
    record {
      inside = omega (arith, v.inside);
      fits = omega (arith, v.fits);
      free = head ∙ v.free ∙ ap (λ (t : ℕ). t % 16) (omega arith);
      framed_all = subst AllFramed (sym same) v.framed_all;
    }

drop-nil : (n : ℕ) → drop {A = ℕ} n [] ≡ []
drop-nil zero = refl
drop-nil (suc n) = refl

drop-drop : (m n : ℕ) (s : List ℕ) → drop n (drop m s) ≡ drop (m + n) s
drop-drop zero n s = ap (λ (t : ℕ). drop t s) (omega arith)
drop-drop (suc m) n [] = drop-nil n ∙ sym (drop-nil (suc m + n))
drop-drop (suc m) n (b ∷ s) =
    let shift : suc m + n ≡ suc (m + n) = omega arith in
    drop-drop m n s ∙ ap (λ (t : ℕ). drop t (b ∷ s)) (sym shift)

pub drop-all : (n : ℕ) (s : List ℕ) → length s ≤ n → drop n s ≡ []
drop-all n [] h = drop-nil n
drop-all zero (b ∷ s) h = absurd (omega arith)
drop-all (suc n) (b ∷ s) h = drop-all n s (omega arith)

-- However `send` cuts it up, what goes out is the buffer from one offset to the other.
pub send_loop-drop :
    (total : ℕ) (buf : List ℕ) (answers : List Sent) (offset : ℕ)
    → (send_loop total buf offset answers).2 ++ drop (send_loop total buf offset answers).1 buf
      ≡ drop offset buf
unfolding send_loop
send_loop-drop total buf [] offset = refl
send_loop-drop total buf (full ∷ answers) offset = refl
send_loop-drop total buf (refused ∷ answers) offset = refl
send_loop-drop total buf (interrupted ∷ answers) offset = elim (Bool-cases (ltb offset total)) [
  | inl more ↦ rw more (send_loop-drop total buf answers offset)
  | inr done ↦ rw done refl
]
send_loop-drop total buf (accepted n ∷ answers) offset = elim (Bool-cases (ltb offset total)) [
  | inl more ↦ rw more (
      append_assoc (take n (drop offset buf)) (send_loop total buf (offset + n) answers).2
        (drop (send_loop total buf (offset + n) answers).1 buf)
      ∙ ap (λ (t : List ℕ). take n (drop offset buf) ++ t)
          (send_loop-drop total buf answers (offset + n) ∙ sym (drop-drop offset n buf))
      ∙ take-append-drop n (drop offset buf))
  | inr done ↦ rw done refl
]

-- It ends with 1 only at the end of the buffer.
pub send_loop-end :
    (total : ℕ) (buf : List ℕ) (answers : List Sent) (offset : ℕ)
    → (send_loop total buf offset answers).0 ≡ all_sent
    → total ≤ (send_loop total buf offset answers).1
unfolding send_loop
send_loop-end total buf [] offset e = ground arith
send_loop-end total buf (full ∷ answers) offset e = ground arith
send_loop-end total buf (refused ∷ answers) offset e = ground arith
send_loop-end total buf (interrupted ∷ answers) offset e =
    ground (arith, send_loop-end total buf answers offset)
send_loop-end total buf (accepted n ∷ answers) offset e =
    ground (arith, send_loop-end total buf answers (offset + n))

pub framed_lem :
    (o : Outgoing)
    → IsFramed o
    → ((framed o).wire_buf ≡ wire o.msg)
      × ((framed o).bytes_sent ≡ o.bytes_sent)
      × ((framed o).msg ≡ o.msg)
framed_lem o (inl fresh) = ground arith
framed_lem o (inr there) = ground arith

pub length-wire :
    (m : MessageControl) → length (wire m) ≡ header_bytes + length m.message + checksum_bytes
unfolding wire
length-wire m = omega (
  arith,
  length-append (raw_header m.header) (m.message ++ bytes_of 4 m.checksum),
  length-append m.message (bytes_of 4 m.checksum),
  length-raw_header m.header,
  length-bytes_of 4 m.checksum,
)
