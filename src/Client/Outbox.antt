-- ===== src/Client/Outbox.antt =====
-- About `enqueue_message` and `dequeue_message` (gateway/src/client.c).
use mini_project_of_linux_pr.Prelude.{
  ℕ, ◌+◌, ◌%◌, ◌^◌, Bool, false, some, [], ◌∷◌, ◌++◌, ◌==◌, if◌then◌else◌, ◌≡◌, ◌≢◌, refl, sym, ap,
  ◌∙◌, arith, ==_ne,
}
use mini_project_of_linux_pr.Heap.{
  Ptr, null, Heap, node, write, Cells, first, last, last_from, has, Links, Links-write, Links-snoc,
  Links-last, Links-tail, last-ne-null, last_rest, last_from-snoc, has-last, ne_of_has, write_ne,
  write_self, load_lem, set_next_lem,
}
use mini_project_of_linux_pr.Types.{Buffer, ok}
use mini_project_of_linux_pr.Client.{Client, Transmit, enqueue_message, dequeue_message}

abbrev pub message : Buffer → ℕ → Transmit
message bytes len = record { bytes = bytes; len = len; offset = 0 }

module _ {R : Type 0} where
  -- Exactly the messages `xs` wait, oldest first.
  pub record IsOutbox (h : Heap Transmit) (c : Client R) (xs : Cells Transmit) : Type 0 where
    pub links : Links h xs
    pub head : c.head ≡ first xs
    pub tail : c.tail ≡ last xs

  -- The client after `enqueue_message`.
  abbrev pub enqueued : Client R → ℕ → Ptr → Client R
  enqueued c len p = record c {
    head = if c.tail == null then p else c.head;
    tail = p;
    bytes_need_to_send = (c.bytes_need_to_send + len) % 2 ^ 64;
  }

  -- A new message goes behind the ones that wait.
  pub enqueue_message_appends :
      {h : Heap Transmit} {c : Client R} {xs : Cells Transmit} (bytes : Buffer) (len : ℕ) (p : Ptr)
      → IsOutbox h c xs
      → p ≢ null
      → has p xs ≡ false
      → (g : Heap Transmit) × (enqueue_message c (some bytes) len p h
          ≡ some (ok, enqueued c len p, g))
        × IsOutbox g (enqueued c len p) (xs ++ (p, message bytes len) ∷ [])
        × ((a : Ptr) → a ≢ p → has a xs ≡ false → g a ≡ h a)
  unfolding enqueue_message
  enqueue_message_appends {h} {c} {xs = []} bytes len p v ne out =
      let m = message bytes len in
      (
        write h p (some (node m null)),
        ground arith,
        record {
          links = (ne, write_self h p (some (node m null)), refl, tt);
          head = ground arith;
          tail = refl;
        },
        λ b apart out'. write_ne h p (some (node m null)) b apart,
      )
  enqueue_message_appends {h} {c} {xs = (q, a) ∷ xs} bytes len p v ne out =
      let m = message bytes len in
      let h1 : Heap Transmit = write h p (some (node m null)) in
      let z = last_from q xs in
      let (b, el) = Links-last h q a xs v.links in
      let nz = last-ne-null h q a xs v.links in
      let apart : p ≢ z = ne_of_has p z ((q, a) ∷ xs) out (has-last q a xs) in
      let el1 : h1 z ≡ some (node b null) =
        write_ne h p (some (node m null)) z (λ i. apart (sym i)) ∙ el in
      let l1 = Links-write h p (some (node m null)) ((q, a) ∷ xs) out v.links in
      (
        write h1 z (some (node b p)),
        ground (arith, set_next_lem h1 z p b null nz el1),
        record {
          links = Links-snoc h1 q a xs p m b l1 ne out (write_self h p (some (node m null))) el1;
          head =
              ap (λ (t : Bool). if t then p else c.head)
                (ap (λ (t : Ptr). t == null) v.tail ∙ ==_ne z null nz)
              ∙ v.head;
          tail = sym (last_from-snoc q xs p m);
        },
        λ d apart' out'.
            write_ne h1 z (some (node b p)) d (ne_of_has d z ((q, a) ∷ xs) out' (has-last q a xs))
            ∙ write_ne h p (some (node m null)) d apart',
      )

  -- The client after `dequeue_message` took the message in front of `xs`.
  abbrev pub dequeued : Client R → Cells Transmit → Client R
  dequeued c xs = record c { head = first xs; tail = if first xs == null then null else c.tail }

  -- The oldest message is taken out, with no link left in it.
  pub dequeue_message_takes :
      {h : Heap Transmit} {c : Client R} (p : Ptr) (m : Transmit) (xs : Cells Transmit)
      → IsOutbox h c ((p, m) ∷ xs)
      → (g : Heap Transmit) × (dequeue_message c h ≡ some (p, dequeued c xs, g))
        × IsOutbox g (dequeued c xs) xs
        × (g p ≡ some (node m null))
  unfolding dequeue_message
  dequeue_message_takes {h} {c} p m xs v = (
    write h p (some (node m null)),
    ground (
      arith,
      load_lem h p (node m (first xs)) v.links.0 v.links.1,
      set_next_lem h p null m (first xs) v.links.0 v.links.1,
    ),
    record {
      links = Links-tail h p m xs (some (node m null)) v.links;
      head = refl;
      tail = rw v.tail (last_rest h p xs v.links.3);
    },
    write_self h p (some (node m null)),
  )
