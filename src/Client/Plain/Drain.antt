-- ===== src/Client/Plain/Drain.antt =====
-- About `flush_message_from_queue` (gateway/src/client.c) and the messages that wait.
use mini_project_of_linux_pr.Prelude.{
  ℕ, zero, suc, ◌+◌, ◌<◌, false, Option, none, some, List, [], ◌∷◌, ◌==◌, ◌>>=◌, ℤ, pos, negsuc,
  minus_one, is_neg, ◌≡◌, ◌≢◌, refl, ap, ◌∙◌, arith, length, ==_ne,
}
use mini_project_of_linux_pr.Heap.{
  Ptr, null, Heap, Node, node, write, Cells, has, Links-write, load_lem, free_lem, write_self,
}
use mini_project_of_linux_pr.Client.{Client, Transmit, dequeue_message}
use mini_project_of_linux_pr.Client.Outbox.{IsOutbox, dequeued, dequeue_message_takes}
use mini_project_of_linux_pr.Client.Plain.{
  SocketSend, took, would_block, send_from, send_data_to_client, paid, plain_loop,
  flush_message_from_queue,
}

-- Each message has more than one byte.
abbrev pub AllLong : Cells Transmit → Type 0
AllLong [] = Unit
AllLong ((p, m) ∷ xs) = (1 < m.len) × AllLong xs

-- The socket takes each message whole, and then answers `rest`.
abbrev pub takes : Cells Transmit → List SocketSend → List SocketSend
takes [] rest = rest
takes ((p, m) ∷ xs) rest = took m.len ∷ takes xs rest

send_whole :
    (fd : ℤ) (len : ℕ) (rest : List SocketSend)
    → is_neg fd ≡ false
    → 1 < len
    → send_data_to_client fd (took len ∷ rest) len ≡ some (pos len, rest)
unfolding send_data_to_client send_from
send_whole fd len [] good long = ground (arith, good)
send_whole fd len (a ∷ rest) good long = ground (arith, good)

send_blocked :
    (fd : ℤ) (len : ℕ) (rest : List SocketSend)
    → is_neg fd ≡ false
    → 0 < len
    → send_data_to_client fd (would_block ∷ rest) len ≡ some (negsuc 1, rest)
unfolding send_data_to_client send_from
send_blocked fd len rest good long = ground (arith, good)

module _ {R : Type 0} where
  IsOutbox-write :
      (h : Heap Transmit) (c : Client R) (xs : Cells Transmit) (p : Ptr)
      (n : Option (Node Transmit)) (len now : ℕ)
      → IsOutbox h c xs
      → has p xs ≡ false
      → IsOutbox (write h p n) (paid c len now) xs
  IsOutbox-write h c xs p n len now v out = record {
    links = Links-write h p n xs out v.links;
    head = v.head;
    tail = v.tail;
  }

  dequeue_nothing :
      (c : Client R) (h : Heap Transmit) → c.head ≡ null → dequeue_message c h ≡ some (null, c, h)
  unfolding dequeue_message
  dequeue_nothing c h e = rw e refl

  loop_ends :
      (k now : ℕ) (c : Client R) (h : Heap Transmit) (rest : List SocketSend)
      → plain_loop (suc k) now null c h rest
        ≡ some (pos 0, record c { last_active_ms = now }, h, rest)
  unfolding plain_loop
  loop_ends k now c h rest = refl

  -- A message that goes out whole, and what follows.
  loop_next :
      (k now : ℕ) (p : Ptr) (m : Transmit) (c : Client R) (h : Heap Transmit)
      (rest : List SocketSend)
      → p ≢ null
      → h p ≡ some (node m null)
      → 1 < m.len
      → is_neg c.fd ≡ false
      → plain_loop (suc k) now p c h (took m.len ∷ rest) ≡ (do
        (p1, c1, h2) ← dequeue_message (paid c m.len now) (write h p none)
        plain_loop k now p1 c1 h2 rest)
  unfolding plain_loop
  loop_next k now p m c h rest ne e long good =
      let not_one : (m.len == 1) ≡ false = ground arith in
      rw
        (
          ==_ne p null ne,
          load_lem h p (node m null) ne e,
          send_whole c.fd m.len rest good long,
          free_lem h p (node m null) ne e,
          not_one,
        )
        refl

  plain_loop-IsOutbox :
      (k now : ℕ) (p : Ptr) (m : Transmit) (ys : Cells Transmit) (c : Client R) (h : Heap Transmit)
      (rest : List SocketSend)
      → p ≢ null
      → h p ≡ some (node m null)
      → has p ys ≡ false
      → IsOutbox h c ys
      → AllLong ((p, m) ∷ ys)
      → is_neg c.fd ≡ false
      → length ys + 1 < k
      → (c' : Client R) × (g : Heap Transmit) × (plain_loop k now p c h (takes ((p, m) ∷ ys) rest)
          ≡ some (pos 0, c', g, rest))
        × IsOutbox g c' []
  plain_loop-IsOutbox zero now p m ys c h rest ne e out v long good fuel = absurd (omega arith)
  plain_loop-IsOutbox (suc zero) now p m ys c h rest ne e out v long good fuel =
      absurd (omega arith)
  plain_loop-IsOutbox (suc (suc k)) now p m [] c h rest ne e out v long good fuel =
      let c1 = paid c m.len now in
      let g : Heap Transmit = write h p none in
      (
        record c1 { last_active_ms = now },
        g,
        loop_next (suc k) now p m c h rest ne e long.0 good
            ∙ rw (dequeue_nothing c1 g v.head) (loop_ends k now c1 g rest),
        record { links = tt; head = v.head; tail = v.tail },
      )
  plain_loop-IsOutbox (suc k) now p m ((q, b) ∷ ys) c h rest ne e out v long good fuel =
      let v1 = IsOutbox-write h c ((q, b) ∷ ys) p none m.len now v out in
      let (h2, taken, v2, there) = dequeue_message_takes q b ys v1 in
      let (c', g, e', v') =
        plain_loop-IsOutbox k now q b ys (dequeued (paid c m.len now) ys) h2 rest v1.links.0 there
          v1.links.2 v2 long.1 good (omega arith) in
      (c', g, loop_next k now p m c h (takes ((q, b) ∷ ys) rest) ne e long.0 good ∙ rw taken e', v')

  -- When the socket takes each waiting message whole and each has more than one byte, the call sends
  -- them all in order, with fuel for one round more than there are messages: it returns 0, nothing
  -- waits, and it made exactly one `send` for each message.
  pub flush_message_from_queue_drains :
      (k now : ℕ) (p : Ptr) (m : Transmit) (ys : Cells Transmit) (c : Client R) (h : Heap Transmit)
      (rest : List SocketSend)
      → IsOutbox h c ((p, m) ∷ ys)
      → AllLong ((p, m) ∷ ys)
      → is_neg c.fd ≡ false
      → length ys + 1 < k
      → (c' : Client R) × (g : Heap Transmit) × (flush_message_from_queue k now c h
            (takes ((p, m) ∷ ys) rest)
          ≡ some (pos 0, c', g, rest))
        × IsOutbox g c' []
  unfolding flush_message_from_queue
  flush_message_from_queue_drains k now p m ys c h rest v long good fuel =
      let busy = ap (λ (t : Ptr). t == null) v.head ∙ ==_ne p null v.links.0 in
      let (h1, taken, v1, there) = dequeue_message_takes p m ys v in
      let (c', g, e, v') =
        plain_loop-IsOutbox k now p m ys (dequeued c ys) h1 rest v.links.0 there v.links.2 v1 long
          good fuel in
      (c', g, rw (busy, taken) e, v')

  loop_blocked :
      (k now : ℕ) (p : Ptr) (m : Transmit) (c : Client R) (h : Heap Transmit)
      (rest : List SocketSend)
      → p ≢ null
      → h p ≡ some (node m null)
      → 0 < m.len
      → is_neg c.fd ≡ false
      → plain_loop (suc k) now p c h (would_block ∷ rest)
        ≡ some (minus_one, c, write h p none, rest)
  unfolding plain_loop
  loop_blocked k now p m c h rest ne e some' good =
      rw
        (
          ==_ne p null ne,
          load_lem h p (node m null) ne e,
          send_blocked c.fd m.len rest good some',
          free_lem h p (node m null) ne e,
        )
        refl

  -- When the socket takes nothing of the first message for now, the call returns -1 and has freed that
  -- message; the others wait.
  pub flush_message_from_queue_drops :
      (k now : ℕ) (p : Ptr) (m : Transmit) (ys : Cells Transmit) (c : Client R) (h : Heap Transmit)
      (rest : List SocketSend)
      → IsOutbox h c ((p, m) ∷ ys)
      → 0 < m.len
      → is_neg c.fd ≡ false
      → (g : Heap Transmit) × (flush_message_from_queue (suc k) now c h (would_block ∷ rest)
          ≡ some (minus_one, dequeued c ys, g, rest))
        × (g p ≡ none)
        × IsOutbox g (dequeued c ys) ys
  unfolding flush_message_from_queue
  flush_message_from_queue_drops k now p m ys c h rest v some' good =
      let busy = ap (λ (t : Ptr). t == null) v.head ∙ ==_ne p null v.links.0 in
      let (h1, taken, v1, there) = dequeue_message_takes p m ys v in
      (
        write h1 p none,
        rw (busy, taken)
            (loop_blocked k now p m (dequeued c ys) h1 rest v.links.0 there some' good),
        write_self h1 p none,
        record {
          links = Links-write h1 p none ys v.links.2 v1.links;
          head = v1.head;
          tail = v1.tail;
        },
      )
