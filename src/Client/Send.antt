-- ===== src/Client/Send.antt =====
-- Sending the waiting messages with ENABLE_TLS: `send_data_to_client_tls` and `client_flush_tx_tls`
-- (gateway/src/client.c). What the TLS library answers to the calls is a list; `none` is a fault, the
-- end of that list or the end of the fuel. Message lengths are below 2^31, so the casts to `int` keep
-- them.
pub mod Keeps
use mini_project_of_linux_pr.Prelude.{
  ℕ, zero, suc, ◌+◌, ◌-◌, ◌%◌, ◌^◌, true, false, Option, none, some, List, [], ◌∷◌, ◌==◌, ltb,
  if◌then◌else◌, ◌>>=◌, ℤ, pos, negsuc, minus_one,
}
use mini_project_of_linux_pr.Heap.{Ptr, null, Node, Heap, load, set_item, free}
use mini_project_of_linux_pr.Client.{Client, Transmit, dequeue_message}

-- `SSL_get_error` after a negative result
pub data SslError : Type 0 where
  want_read : SslError
  want_write : SslError
  zero_return : SslError
  other_error : SslError

-- One answer of `SSL_write` or `send`: a number of bytes, 0, or a negative result.
pub data SslWrite : Type 0 where
  wrote : ℕ → SslWrite
  shut : SslWrite
  refused : SslError → SslWrite

-- What a negative result makes of the call when `sent_total` bytes are out.
abbrev pub refused_code : SslError → ℕ → ℤ
refused_code e sent_total = if ltb 0 sent_total then pos sent_total else elim e [
  | want_write ↦ negsuc 1
  | want_read ↦ negsuc 2
  | zero_return ↦ pos 0
  | other_error ↦ minus_one
]

-- The loop of `send_data_to_client_tls`.
unfoldable pub send_data_to_client_tls : List SslWrite → ℕ → ℕ → Option (ℤ × List SslWrite)
send_data_to_client_tls [] sent_total len =
    if ltb sent_total len then none else some (pos sent_total, [])
send_data_to_client_tls (a ∷ answers) sent_total len = elim (ltb sent_total len) [
  | false ↦ some (pos sent_total, a ∷ answers)
  | true ↦ elim a [
    | wrote n ↦ send_data_to_client_tls answers (sent_total + n) len
    | shut ↦ some (pos 1, answers)
    | refused e ↦ some (refused_code e sent_total, answers)
  ]
]

-- The events that the last `epoll_mod` of a call asks for.
pub data Interest : Type 0 where
  input : Interest
  input_output : Interest

-- What a flush returns: its code, its `epoll_mod`, the client, the heap and the answers left.
abbrev pub Flushed : Type 0 → Type 0
Flushed R = ℤ × Option Interest × Client R × Heap Transmit × List SslWrite

-- `send_data->offset += ret`
abbrev pub advance : Transmit → ℕ → Transmit
advance m n = record m { offset = (m.offset + n) % 2 ^ 64 }

-- How a round of the flush ends: with the result of the call, or at the next message.
pub data FlushStep (R : Type 0) : Type 0 where
  returns : Flushed R → FlushStep R
  goes_on : Ptr → Client R → Heap Transmit → List SslWrite → FlushStep R

module _ {R : Type 0} where
  -- the counters of the client after `n` bytes went out
  abbrev pub account : Client R → ℕ → ℕ → Client R
  account c n now = record c {
    bytes_need_to_send = (c.bytes_need_to_send + 2 ^ 64 - n) % 2 ^ 64;
    last_active_ms = now;
  }

  -- What follows the sending of the message `n` at `p`, by the code of the sender: the call returns, or
  -- the loop goes on at a message. The sender returns no code below -3.
  unfoldable pub sent_message :
      ℕ → Ptr → Node Transmit → Client R → Heap Transmit → ℤ × List SslWrite → Option (FlushStep R)
  sent_message now p n c h (negsuc zero, rest) = do
    h1 ← free h p
    some (returns (minus_one, none, c, h1, rest))
  sent_message now p n c h (negsuc (suc zero), rest) =
      some (returns (pos 1, some input_output, c, h, rest))
  sent_message now p n c h (negsuc (suc (suc zero)), rest) =
      some (returns (pos 1, some input, c, h, rest))
  sent_message now p n c h (negsuc (suc (suc (suc m))), rest) = some (goes_on p c h rest)
  sent_message now p n c h (pos zero, rest) = do
    h1 ← free h p
    some (returns (pos 2, none, c, h1, rest))
  sent_message now p n c h (pos (suc m), rest) = do
    let item = advance n.item (suc m)
    let c1 = account c (suc m) now
    h1 ← set_item h p item
    if ltb item.offset item.len then some (returns (pos 1, some input_output, c1, h1, rest)) else do
      let c2 = record c1 { head = n.next }
      let c3 = if c2.head == null then record c2 { tail = null } else c2
      h2 ← free h1 p
      some (goes_on c3.head c3 h2 rest)

  -- The loop of `client_flush_tx_tls` at the message `p`, on fuel. The clock is read as one value
  -- for the whole call.
  unfoldable pub flush_loop :
      ℕ → ℕ → Ptr → Client R → Heap Transmit → List SslWrite → Option (Flushed R)
  flush_loop zero now p c h answers = none
  flush_loop (suc k) now p c h answers =
      let body = do
        n ← load h p
        sent ← send_data_to_client_tls answers 0 (n.item.len - n.item.offset)
        step ← sent_message now p n c h sent
        elim step [
          | returns result ↦ some result
          | goes_on p1 c1 h1 rest ↦ flush_loop k now p1 c1 h1 rest
        ]
      in if p == null
        then some (pos 0, some input, record c { last_active_ms = now }, h, answers)
        else body

  -- `client_flush_tx_tls` with fuel `k` for its loop.
  unfoldable pub client_flush_tx_tls :
      ℕ → ℕ → Client R → Heap Transmit → List SslWrite → Option (Flushed R)
  client_flush_tx_tls k now c h answers =
      if c.head == null
      then some (pos 0, none, c, h, answers)
      else do (p, c1, h1) ← dequeue_message c h; flush_loop k now p c1 h1 answers
