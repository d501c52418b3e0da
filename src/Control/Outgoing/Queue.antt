-- ===== src/Control/Outgoing/Queue.antt =====
-- About `queue_client` (unix-domain-socket-control-plane/gatewayd/server.h).
use mini_project_of_linux_pr.Prelude.{
  ℕ, suc, ◌+◌, ◌-◌, ◌%◌, ◌<◌, Bool, ◌==◌, if◌then◌else◌, Bool-cases, List, [], ◌∷◌, ◌++◌,
  append_assoc, append-nil, drop, ◌≡◌, refl, sym, ap, subst, ◌∙◌, inl, inr, arith,
}
use mini_project_of_linux_pr.Prelude.Ring.{
  store, ring_items, ring_items-store, first-next, free-next,
}
use mini_project_of_linux_pr.Control.{MessageControl, wire}
use mini_project_of_linux_pr.Control.Structs.{Outgoing, Client}
use mini_project_of_linux_pr.Control.Outgoing.{advance_send_queue, queue_client}
use mini_project_of_linux_pr.Control.Outgoing.Bytes.{waiting, pending, AllFramed, IsSending}

pending-append : (xs ys : List Outgoing) → pending (xs ++ ys) ≡ pending xs ++ pending ys
pending-append [] ys = refl
pending-append (o ∷ os) ys =
    ap (λ (t : List ℕ). drop o.bytes_sent (wire o.msg) ++ t) (pending-append os ys)
    ∙ sym (append_assoc (drop o.bytes_sent (wire o.msg)) (pending os) (pending ys))

AllFramed-append : (xs ys : List Outgoing) → AllFramed xs → AllFramed ys → AllFramed (xs ++ ys)
AllFramed-append [] ys h k = k
AllFramed-append (o ∷ os) ys h k = (h.0, AllFramed-append os ys h.1 k)

-- The cell that takes a new message.
abbrev cell : Client → MessageControl → Outgoing
cell c m = record (c.send_queue c.send_head) { msg = m; bytes_sent = 0 }

abbrev put : Client → MessageControl → Client
put c m = record c {
  send_queue = store c.send_queue c.send_head (cell c m);
  send_head = (c.send_head + 1) % 16;
  send_count = c.send_count + 1;
}

put_lem :
    (c : Client) (m : MessageControl)
    → IsSending c
    → c.send_count < 16
    → (waiting (put c m) ≡ waiting c ++ cell c m ∷ []) × IsSending (put c m)
put_lem c m v room = (
  appended,
  record {
    inside = v.inside;
    fits = omega arith;
    free =
        ap (λ (t : ℕ). (t + 1) % 16) v.free
        ∙ free-next 16 c.send_tail c.send_count v.inside room
        ∙ ap (λ (t : ℕ). (c.send_tail + t) % 16) (omega arith);
    framed_all =
        subst AllFramed (sym appended)
          (AllFramed-append (waiting c) (cell c m ∷ []) v.framed_all (inl refl, tt));
  },
)
  where
    one_more : c.send_count + 1 ≡ suc c.send_count
    one_more = omega arith

    appended : waiting (put c m) ≡ waiting c ++ cell c m ∷ []
    appended =
        ap (ring_items 16 (store c.send_queue c.send_head (cell c m)) c.send_tail) one_more
        ∙ ring_items-store 16 c.send_queue c.send_tail c.send_count c.send_head (cell c m) v.inside
            room v.free

advance_lem :
    (c : Client) (k : ℕ)
    → IsSending c
    → c.send_count ≡ suc k
    → (waiting c ≡ c.send_queue c.send_tail ∷ waiting (advance_send_queue c))
      × IsSending (advance_send_queue c)
unfolding advance_send_queue
advance_lem c k v e =
    let (inside', shift) = first-next 16 c.send_tail k v.inside (omega (arith, v.fits)) in
    let less : c.send_count - 1 ≡ k = omega arith in
    let split : waiting c ≡ c.send_queue c.send_tail ∷ waiting (advance_send_queue c) =
      ap (ring_items 16 c.send_queue c.send_tail) e
      ∙ ap
          (λ (n : ℕ).
            c.send_queue c.send_tail ∷ ring_items 16 c.send_queue ((c.send_tail + 1) % 16) n)
          (sym less) in
    let all : AllFramed (c.send_queue c.send_tail ∷ waiting (advance_send_queue c)) =
      subst AllFramed split v.framed_all in
    (
      split,
      record {
        inside = inside';
        fits = omega (arith, v.fits);
        free =
            v.free
            ∙ ap (λ (t : ℕ). (c.send_tail + t) % 16) e
            ∙ shift
            ∙ ap (λ (t : ℕ). ((c.send_tail + 1) % 16 + t) % 16) (sym less);
        framed_all = all.1;
      },
    )

put-pending :
    (c : Client) (m : MessageControl)
    → IsSending c
    → c.send_count < 16
    → pending (waiting (put c m)) ≡ pending (waiting c) ++ wire m
put-pending c m v room =
    ap pending (put_lem c m v room).0
    ∙ pending-append (waiting c) (cell c m ∷ [])
    ∙ ap (λ (t : List ℕ). pending (waiting c) ++ t) (append-nil (wire m))

tails : (o p : Outgoing) (os ps : List Outgoing) → o ∷ os ≡ p ∷ ps → ps ≡ os
tails o p os ps e = cc

-- The bytes behind a call, from whether the queue was full.
abbrev left : Client → MessageControl → Bool → List ℕ
left c m full = pending (if full then drop 1 (waiting c) else waiting c) ++ wire m

-- The client that `queue_client` leaves.
abbrev pub Queued : Client → MessageControl → Client → Type 0
Queued c m c' =
    IsSending c'
    × (c.send_count < 16 → pending (waiting c') ≡ pending (waiting c) ++ wire m)
    × ((o : Outgoing) (os : List Outgoing)
        → waiting c ≡ o ∷ os
        → c.send_count ≡ 16
        → pending (waiting c') ≡ pending os ++ wire m)

pub queue_client_lem :
    (c : Client) (m : MessageControl) → IsSending c → Queued c m (queue_client c m)
unfolding queue_client
queue_client_lem c m v = elim (Bool-cases (c.send_count == 16)) [
  | inl full ↦
      (let count : c.send_count ≡ suc 15 = ground arith in
        let (front, v') = advance_lem c 15 v count in
        let room : (advance_send_queue c).send_count < 16 =
          unfold advance_send_queue in omega arith in
        subst (Queued c m)
          (ap (λ (b : Bool). put (if b then advance_send_queue c else c) m) (sym full))
          (
            (put_lem (advance_send_queue c) m v' room).1,
            λ small. absurd (omega arith),
            λ o os there n.
                put-pending (advance_send_queue c) m v' room
                ∙ ap (λ (q : List Outgoing). pending q ++ wire m)
                    (tails o (c.send_queue c.send_tail) os (waiting (advance_send_queue c))
                      (sym there ∙ front)),
          ))
  | inr room ↦
      (let small : c.send_count < 16 = ground (arith, v.fits) in
        subst (Queued c m)
          (ap (λ (b : Bool). put (if b then advance_send_queue c else c) m) (sym room))
          (
            (put_lem c m v small).1,
            λ _. put-pending c m v small,
            λ o os there n. absurd (omega arith),
          ))
]

-- On a well-formed queue `queue_client` keeps it well formed. With room it puts the whole message
-- behind the bytes that wait. On a full queue the rest of the oldest message is gone, also when a part
-- of it has been sent, and the next bytes that go out are those of the message behind it.
pub queue_client_bytes :
    (c : Client) (m : MessageControl)
    → IsSending c
    → IsSending (queue_client c m)
      × (pending (waiting (queue_client c m))
          ≡ pending (if c.send_count == 16 then drop 1 (waiting c) else waiting c) ++ wire m)
queue_client_bytes c m v = elim (Bool-cases (c.send_count == 16)) [
  | inl full ↦
      (let count : c.send_count ≡ suc 15 = ground arith in
        let (front, _) = advance_lem c 15 v count in
        (
          (queue_client_lem c m v).0,
          (queue_client_lem c m v).2 (c.send_queue c.send_tail) (waiting (advance_send_queue c))
                front count
              ∙ ap (λ (os : List Outgoing). pending os ++ wire m) (sym (ap (drop 1) front))
              ∙ ap (left c m) (sym full),
        ))
  | inr room ↦
      (let small : c.send_count < 16 = ground (arith, v.fits) in
        ((queue_client_lem c m v).0, (queue_client_lem c m v).1 small ∙ ap (left c m) (sym room)))
]
