-- ===== src/Control/Outgoing/Streams.antt =====
-- About `send_message_chunk` (unix-domain-socket-control-plane/gatewayd/server.h).
use mini_project_of_linux_pr.Prelude.{
  ℕ, zero, suc, ◌+◌, ◌%◌, ◌≤◌, Bool, false, ◌==◌, ==_refl, if◌then◌else◌, List, [], ◌∷◌, ◌++◌,
  append_assoc, append-nil, length, drop, ◌≡◌, ◌≢◌, refl, sym, ap, subst, ◌∙◌, inr, arith,
}
use mini_project_of_linux_pr.Prelude.Ring.{store, ring_items, ring_items-store_first, first-next}
use mini_project_of_linux_pr.Control.{wire, header_bytes, checksum_bytes}
use mini_project_of_linux_pr.Control.Structs.{Outgoing, Client}
use mini_project_of_linux_pr.Control.Outgoing.{
  advance_send_queue, Sent, Status, all_sent, later, send_failed, send_loop, left_at, after_send,
  framed, send_oldest, send_message_chunk,
}
use mini_project_of_linux_pr.Control.Outgoing.Bytes.{
  waiting, pending, IsFramed, AllFramed, IsSending, drop-all, send_loop-drop, send_loop-end,
  framed_lem, length-wire,
}

-- What a call that does not fail does.
abbrev Streams : Client → Status × Client × List ℕ → Type 0
Streams c (st, c', out) =
    st ≢ send_failed → (out ++ pending (waiting c') ≡ pending (waiting c)) × IsSending c'

module _ (c : Client) (v : IsSending c) (k : ℕ) (some_waiting : c.send_count ≡ suc k) where
  oldest : Outgoing
  oldest = c.send_queue c.send_tail

  next : ℕ
  next = (c.send_tail + 1) % 16

  behind : List Outgoing
  behind = ring_items 16 c.send_queue next k

  waiting_lem : waiting c ≡ oldest ∷ behind
  unfolding oldest behind next
  waiting_lem = ap (ring_items 16 c.send_queue c.send_tail) some_waiting

  abbrev with_oldest : Outgoing → Client
  with_oldest o = record c { send_queue = store c.send_queue c.send_tail o }

  kept : (o : Outgoing) → ring_items 16 (store c.send_queue c.send_tail o) next k ≡ behind
  unfolding behind next
  kept o = ring_items-store_first 16 c.send_queue c.send_tail k o v.inside (omega (arith, v.fits))

  with_oldest-waiting : (o : Outgoing) → waiting (with_oldest o) ≡ o ∷ behind
  unfolding next behind
  with_oldest-waiting o =
      ap (ring_items 16 (store c.send_queue c.send_tail o) c.send_tail) some_waiting
      ∙ ap (λ (os : List Outgoing). store c.send_queue c.send_tail o c.send_tail ∷ os) (kept o)
      ∙ ap (λ (b : Bool). (if b then o else c.send_queue c.send_tail) ∷ behind)
          (==_refl c.send_tail)

  advance-waiting : (o : Outgoing) → waiting (advance_send_queue (with_oldest o)) ≡ behind
  unfolding advance_send_queue next behind
  advance-waiting o =
      ap (ring_items 16 (store c.send_queue c.send_tail o) next) (omega arith) ∙ kept o

  behind_lem : IsFramed oldest × AllFramed behind
  behind_lem = subst AllFramed waiting_lem v.framed_all

  with_oldest-IsSending : (o : Outgoing) → IsFramed o → IsSending (with_oldest o)
  with_oldest-IsSending o f = record {
    inside = v.inside;
    fits = v.fits;
    free = v.free;
    framed_all = subst AllFramed (sym (with_oldest-waiting o)) (f, behind_lem.1);
  }

  advance-IsSending : (o : Outgoing) → IsSending (advance_send_queue (with_oldest o))
  unfolding advance_send_queue
  advance-IsSending o =
      let (inside', shift) = first-next 16 c.send_tail k v.inside (omega (arith, v.fits)) in
      record {
        inside = inside';
        fits = omega (arith, v.fits);
        free =
            v.free
            ∙ ap (λ (t : ℕ). (c.send_tail + t) % 16) some_waiting
            ∙ shift
            ∙ ap (λ (t : ℕ). ((c.send_tail + 1) % 16 + t) % 16) (omega arith);
        framed_all = subst AllFramed (sym (advance-waiting o)) behind_lem.1;
      }

  whole :
      drop (framed oldest).bytes_sent (framed oldest).wire_buf
      ≡ drop oldest.bytes_sent (wire oldest.msg)
  whole =
      let (buf, at, _) = framed_lem oldest behind_lem.0 in
      ap (λ (n : ℕ). drop n (framed oldest).wire_buf) at ∙ ap (drop oldest.bytes_sent) buf

  -- The call, once the loop has ended with `st` at `offset` after `out`.
  sent :
      (st : Status) (offset : ℕ) (out : List ℕ)
      → out ++ drop offset (framed oldest).wire_buf
        ≡ drop (framed oldest).bytes_sent (framed oldest).wire_buf
      → (st ≡ all_sent → length (framed oldest).wire_buf ≤ offset)
      → Streams c (st, after_send st (with_oldest (left_at st (framed oldest) offset)), out)
  sent all_sent offset out e over ok =
      let gone = drop-all offset (framed oldest).wire_buf (over refl) in
      let all_out : out ≡ drop oldest.bytes_sent (wire oldest.msg) =
        sym (append-nil out) ∙ ap (λ (t : List ℕ). out ++ t) (sym gone) ∙ e ∙ whole in
      (
        ap (λ (os : List Outgoing). out ++ pending os) (advance-waiting (framed oldest))
            ∙ ap (λ (t : List ℕ). t ++ pending behind) all_out
            ∙ sym (ap pending waiting_lem),
        advance-IsSending (framed oldest),
      )
  sent later offset out e over ok =
      let (buf, _, msg') = framed_lem oldest behind_lem.0 in
      let o : Outgoing = record (framed oldest) { bytes_sent = offset } in
      (
        ap (λ (os : List Outgoing). out ++ pending os) (with_oldest-waiting o)
            ∙ ap (λ (t : List ℕ). out ++ (drop offset t ++ pending behind)) (ap wire msg' ∙ sym buf)
            ∙ sym (append_assoc out (drop offset (framed oldest).wire_buf) (pending behind))
            ∙ ap (λ (t : List ℕ). t ++ pending behind) (e ∙ whole)
            ∙ sym (ap pending waiting_lem),
        with_oldest-IsSending o (inr (buf ∙ ap wire (sym msg'))),
      )
  sent send_failed offset out e over ok = absurd (ok refl)

  wrote :
      (st : Status) (offset : ℕ)
      → IsSending (after_send st (with_oldest (left_at st (framed oldest) offset)))
        × (st ≡ send_failed
            → IsSending (
                advance_send_queue
                  (after_send st (with_oldest (left_at st (framed oldest) offset)))))
  wrote all_sent offset = (advance-IsSending (framed oldest), λ e. absurd (not_failed e))
    where
      not_failed : all_sent ≢ send_failed
      not_failed e = cc
  wrote later offset =
      let (buf, _, msg') = framed_lem oldest behind_lem.0 in
      let o : Outgoing = record (framed oldest) { bytes_sent = offset } in
      (with_oldest-IsSending o (inr (buf ∙ ap wire (sym msg'))), λ e. absurd (not_failed e))
    where
      not_failed : later ≢ send_failed
      not_failed e = cc
  wrote send_failed offset =
      let (buf, _, msg') = framed_lem oldest behind_lem.0 in
      (
        with_oldest-IsSending (framed oldest) (inr (buf ∙ ap wire (sym msg'))),
        λ e. advance-IsSending (framed oldest),
      )

send_oldest-streams :
    (answers : List Sent) (c : Client)
    → IsSending c
    → (k : ℕ) → c.send_count ≡ suc k
    → Streams c (send_oldest answers c)
unfolding send_oldest oldest
send_oldest-streams answers c v k e =
    let o : Outgoing = framed (c.send_queue c.send_tail) in
    let total : ℕ = header_bytes + length o.msg.message + checksum_bytes in
    let (buf, _, msg') = framed_lem (c.send_queue c.send_tail) (behind_lem c v k e).0 in
    let end_ : length o.wire_buf ≡ total =
      ap (length {0}) (buf ∙ ap wire (sym msg')) ∙ length-wire o.msg in
    sent c v k e (send_loop total o.wire_buf o.bytes_sent answers).0
      (send_loop total o.wire_buf o.bytes_sent answers).1
      (send_loop total o.wire_buf o.bytes_sent answers).2
      (send_loop-drop total o.wire_buf answers o.bytes_sent)
      (λ all. omega (arith, end_, send_loop-end total o.wire_buf answers o.bytes_sent all))

streams :
    (answers : List Sent) (c : Client) → IsSending c → Streams c (send_message_chunk answers c)
unfolding send_message_chunk
streams answers c v = by_count c.send_count refl
  where
    by_count : (n : ℕ) → c.send_count ≡ n → Streams c (send_message_chunk answers c)
    by_count zero e =
        subst (Streams c)
          (ap (λ (n : ℕ). if n == 0 then (all_sent, c, []) else send_oldest answers c) (sym e))
          (λ ok. (refl, v))
    by_count (suc k) e =
        let some_there : (c.send_count == 0) ≡ false = ground (arith, e) in
        subst (Streams c)
          (ap (λ (b : Bool). if b then (all_sent, c, []) else send_oldest answers c)
            (sym some_there))
          (send_oldest-streams answers c v k e)

-- Unless `send` fails, the bytes that a call of `send_message_chunk` hands to `send`, followed by
-- those that then wait, are the bytes that waited before it, message for message and in order, however
-- `send` cuts them up; and the queue stays well formed.
pub send_message_chunk_streams :
    (answers : List Sent) (c : Client)
    → IsSending c
    → (send_message_chunk answers c).0 ≢ send_failed
    → ((send_message_chunk answers c).2 ++ pending (waiting (send_message_chunk answers c).1)
        ≡ pending (waiting c))
      × IsSending (send_message_chunk answers c).1
send_message_chunk_streams answers c v ok = streams answers c v ok

-- A call keeps the ring, and when `send` fails its oldest message can be dropped.
pub send_oldest-IsSending :
    (answers : List Sent) (c : Client)
    → IsSending c
    → (k : ℕ) → c.send_count ≡ suc k
    → IsSending (send_oldest answers c).1
      × ((send_oldest answers c).0 ≡ send_failed
          → IsSending (advance_send_queue (send_oldest answers c).1))
unfolding send_oldest oldest
send_oldest-IsSending answers c v k e =
    let o : Outgoing = framed (c.send_queue c.send_tail) in
    let total : ℕ = header_bytes + length o.msg.message + checksum_bytes in
    wrote c v k e (send_loop total o.wire_buf o.bytes_sent answers).0
      (send_loop total o.wire_buf o.bytes_sent answers).1
