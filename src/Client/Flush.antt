-- ===== src/Client/Flush.antt =====
-- About `client_flush_tx_tls` (gateway/src/client.c) and the messages that wait.
use mini_project_of_linux_pr.Prelude.{
  ℕ, suc, ◌+◌, ◌-◌, ◌^◌, ◌<◌, false, none, some, List, [], ◌∷◌, ◌==◌, ltb, ◌≡◌, ◌≢◌, refl, ap, ◌∙◌,
  arith, ==_ne, pos,
}
use mini_project_of_linux_pr.Heap.{
  free_lem, Ptr, null, Heap, node, write, load, set_item, Cells, write_self, load_lem,
}
use mini_project_of_linux_pr.Client.{Client, Transmit}
use mini_project_of_linux_pr.Client.Outbox.{IsOutbox, dequeued, dequeue_message_takes}
use mini_project_of_linux_pr.Client.Send.{
  SslError, want_write, SslWrite, wrote, refused, refused_code, send_data_to_client_tls, input,
  input_output, advance, account, sent_message, flush_loop, client_flush_tx_tls,
}

send_all :
    (answers : List SslWrite) (len : ℕ)
    → 0 < len
    → send_data_to_client_tls (wrote len ∷ answers) 0 len ≡ some (pos len, answers)
unfolding send_data_to_client_tls
send_all [] len h = ground arith
send_all (a ∷ answers) len h = ground arith

send_refused :
    (answers : List SslWrite) (len : ℕ) (e : SslError)
    → 0 < len
    → send_data_to_client_tls (refused e ∷ answers) 0 len ≡ some (refused_code e 0, answers)
unfolding send_data_to_client_tls
send_refused answers len e h = ground arith

item_lem :
    (h : Heap Transmit) (p : Ptr) (m m' : Transmit) (q : Ptr)
    → p ≢ null
    → h p ≡ some (node m q)
    → set_item h p m' ≡ some (write h p (some (node m' q)))
unfolding set_item load
item_lem h p m m' q ne e = ground arith

module _ {R : Type 0} where
  loop_refused :
      (k now : ℕ) (p : Ptr) (c : Client R) (h : Heap Transmit) (m : Transmit) (q : Ptr)
      (answers : List SslWrite)
      → p ≢ null
      → h p ≡ some (node m q)
      → m.offset < m.len
      → flush_loop (suc k) now p c h (refused want_write ∷ answers)
        ≡ some (pos 1, some input_output, c, h, answers)
  unfolding flush_loop sent_message
  loop_refused k now p c h m q answers ne e lt =
      rw
        (
          ==_ne p null ne,
          load_lem h p (node m q) ne e,
          send_refused answers (m.len - m.offset) want_write (omega arith),
        )
        refl

  -- `r` is one less than the number of bytes that are left of the message
  loop_sent :
      (k now : ℕ) (p : Ptr) (c : Client R) (h : Heap Transmit) (m : Transmit) (r : ℕ)
      (answers : List SslWrite)
      → p ≢ null
      → h p ≡ some (node m null)
      → m.len ≡ m.offset + suc r
      → m.len < 2 ^ 64
      → (g : Heap Transmit) × (flush_loop
            (suc (suc k))
            now
            p
            c
            h
            (wrote (m.len - m.offset) ∷ answers)
          ≡ some (
            pos 0,
            some input,
            record (account c (suc r) now) { head = null; tail = null; last_active_ms = now },
            g,
            answers,
          ))
  unfolding flush_loop sent_message
  loop_sent k now p c h m r answers ne e sum small =
      let rest : m.len - m.offset ≡ suc r = omega arith in
      let m' = advance m (suc r) in
      let done : ltb m'.offset m.len ≡ false = ground arith in
      let h1 : Heap Transmit = write h p (some (node m' null)) in
      (
        write h1 p none,
        rw
            (
              ==_ne p null ne,
              load_lem h p (node m null) ne e,
              rest,
              send_all answers (suc r) (omega arith),
              item_lem h p m m' null ne e,
              done,
              free_lem h1 p (node m' null) ne (write_self h p (some (node m' null))),
            )
            refl,
      )

module _ {R : Type 0} {h : Heap Transmit} {c : Client R} (p : Ptr) (m : Transmit)
    (xs : Cells Transmit) (v : IsOutbox h c ((p, m) ∷ xs)) (left : m.offset < m.len) where
  -- the client after the first message has gone out
  abbrev pub drained : ℕ → Client R
  drained now = record (account (dequeued c xs) (m.len - m.offset) now) {
    head = null;
    tail = null;
    last_active_ms = now;
  }

  busy : (c.head == null) ≡ false
  busy = ap (λ (t : Ptr). t == null) v.head ∙ ==_ne p null v.links.0

  -- When the library takes the whole first message, the call returns 0, everything sent, and leaves
  -- the queue empty, whatever waited behind that message.
  pub flush_empties :
      (k now : ℕ) (answers : List SslWrite)
      → m.len < 2 ^ 64
      → (g : Heap Transmit) × (client_flush_tx_tls
            (suc (suc k))
            now
            c
            h
            (wrote (m.len - m.offset) ∷ answers)
          ≡ some (pos 0, some input, drained now, g, answers))
  unfolding client_flush_tx_tls
  flush_empties k now answers small =
      let (h1, e1, v1, e2) = dequeue_message_takes p m xs v in
      let r = m.len - m.offset - 1 in
      let (g, sent) =
        loop_sent k now p (dequeued c xs) h1 m r answers v.links.0 e2 (omega arith) small in
      (
        g,
        rw (busy, e1)
            (sent
              ∙ ap
                  (λ (n : ℕ). some (
                    pos 0,
                    some input,
                    record (account (dequeued c xs) n now) {
                      head = null;
                      tail = null;
                      last_active_ms = now;
                    },
                    g,
                    answers,
                  ))
                  (omega arith)),
      )

  -- When the library takes nothing for now, the first message is gone from the queue all the same.
  pub flush_drops_first :
      (k now : ℕ) (answers : List SslWrite)
      → (g : Heap Transmit) × (client_flush_tx_tls (suc k) now c h (refused want_write ∷ answers)
          ≡ some (pos 1, some input_output, dequeued c xs, g, answers))
        × IsOutbox g (dequeued c xs) xs
  unfolding client_flush_tx_tls
  flush_drops_first k now answers =
      let (h1, e1, v1, e2) = dequeue_message_takes p m xs v in
      (
        h1,
        rw (busy, e1) (loop_refused k now p (dequeued c xs) h1 m null answers v.links.0 e2 left),
        v1,
      )
