-- ===== src/Client/Plain.antt =====
-- Sending the waiting messages without TLS: `send_data_to_client` and `flush_message_from_queue`
-- (gateway/src/client.c). What `send` answers to the calls is a list; `none` is a fault, the end of
-- that list or the end of the fuel. Message lengths are below 2^31, so the casts to `int` keep them.
pub mod Drain
use mini_project_of_linux_pr.Prelude.{
  ℕ, zero, suc, ◌+◌, ◌-◌, ◌%◌, ◌^◌, Bool, true, false, Option, none, some, List, [], ◌∷◌, ◌==◌, ltb,
  if◌then◌else◌, ◌>>=◌, ℤ, pos, negsuc, minus_one, is_neg,
}
use mini_project_of_linux_pr.Heap.{Ptr, null, Heap, load, free}
use mini_project_of_linux_pr.Client.{Client, Transmit, dequeue_message}

-- One answer of `send`: a number of bytes, 0, or a negative result with its `errno`.
pub data SocketSend : Type 0 where
  took : ℕ → SocketSend
  shut : SocketSend
  interrupted : SocketSend
  would_block : SocketSend
  broken : SocketSend

-- The loop of `send_data_to_client` when `sent_total` bytes are out.
unfoldable pub send_from : List SocketSend → ℕ → ℕ → Option (ℤ × List SocketSend)
send_from [] sent_total len = if ltb sent_total len then none else some (pos sent_total, [])
send_from (a ∷ answers) sent_total len = elim (ltb sent_total len) [
  | false ↦ some (pos sent_total, a ∷ answers)
  | true ↦ elim a [
    | took n ↦ send_from answers (sent_total + n) len
    | shut ↦ some (pos 1, answers)
    | interrupted ↦ send_from answers sent_total len
    | would_block ↦ some (if ltb 0 sent_total then pos sent_total else negsuc 1, answers)
    | broken ↦ some (minus_one, answers)
  ]
]

unfoldable pub send_data_to_client : ℤ → List SocketSend → ℕ → Option (ℤ × List SocketSend)
unfolding send_from
send_data_to_client client_fd answers len =
    if is_neg client_fd then some (minus_one, answers) else send_from answers 0 len

-- What the flush returns: its code, the client, the heap and the answers left.
abbrev pub PlainFlushed : Type 0 → Type 0
PlainFlushed R = ℤ × Client R × Heap Transmit × List SocketSend

module _ {R : Type 0} where
  -- The client once a message of `len` bytes counts as sent.
  abbrev pub paid : Client R → ℕ → ℕ → Client R
  paid c len now = record c {
    last_active_ms = now;
    bytes_need_to_send = (c.bytes_need_to_send + 2 ^ 64 - len) % 2 ^ 64;
  }

  -- The loop of `flush_message_from_queue` at the message `p`, on fuel. The clock is read as one value
  -- for the whole call. The branch for -2 comes after the one for negative codes, which takes it.
  unfoldable pub plain_loop :
      ℕ → ℕ → Ptr → Client R → Heap Transmit → List SocketSend → Option (PlainFlushed R)
  plain_loop zero now p c h answers = none
  plain_loop (suc k) now p c h answers =
      let body = do
        n ← load h p
        (ret, rest) ← send_data_to_client c.fd answers n.item.len
        h1 ← free h p
        let closed : Option (PlainFlushed R) = some (pos 2, record c { alive = false }, h1, rest)
        let next = do
          (p1, c1, h2) ← dequeue_message (paid c n.item.len now) h1
          plain_loop k now p1 c1 h2 rest
        elim ret [
          | negsuc m ↦ some (minus_one, c, h1, rest)
          | pos r ↦ if r == 1 then closed else next
        ]
      in if p == null then some (pos 0, record c { last_active_ms = now }, h, answers) else body

  -- `flush_message_from_queue` with fuel `k` for its loop.
  unfoldable pub flush_message_from_queue :
      ℕ → ℕ → Client R → Heap Transmit → List SocketSend → Option (PlainFlushed R)
  flush_message_from_queue k now c h answers =
      if c.head == null
      then some (pos 1, c, h, answers)
      else do (p, c1, h1) ← dequeue_message c h; plain_loop k now p c1 h1 answers
