-- ===== src/Client.antt =====
-- gateway/src/client.c and gateway/include/client.h: the slots of the connected clients and the
-- messages that wait to be sent to each. `R` is the type of a client's rate limiter. The array is
-- the list of its slots; `none` is a fault, an access outside the array or through a bad pointer.
pub mod Slots
pub mod Outbox
pub mod Close
pub mod Send
pub mod Plain
pub mod Flush
use mini_project_of_linux_pr.Prelude.{
  ℕ, zero, suc, ◌+◌, ◌-◌, ◌%◌, ◌^◌, Bool, true, false, Option, none, some, List, [], ◌∷◌, ◌++◌,
  ◌==◌, ltb, leb, ◌&&◌, ◌||◌, not, if◌then◌else◌, ◌>>=◌, ℤ, pos, negsuc, minus_one, is_neg, eqℤ,
  get_elem?, set, length, map,
}
use mini_project_of_linux_pr.Heap.{Ptr, null, Node, Heap, node, write, load, set_next, free}
use mini_project_of_linux_pr.Types.{
  Buffer, Status, ok, failed, again, Task, Response, max_payload, request_timeout_ms,
}
use mini_project_of_linux_pr.Protocol.{
  ReadStage, read_header, HeaderPacket, header_size, crc_size, copy, packet_encode,
}

-- `struct data_transmit`, without its link
pub record Transmit : Type 0 where
  pub bytes : Buffer
  pub len : ℕ
  pub offset : ℕ

-- `struct client`, with ENABLE_TLS, without its mutex. A TLS session is a number.
pub record Client (R : Type 0) : Type 0 where
  pub fd : ℤ
  pub generation : ℕ
  pub alive : Bool
  pub rate : R
  pub stage : ReadStage
  pub data_receive : Buffer
  pub rx_len : ℕ
  pub tail : Ptr
  pub head : Ptr
  pub bytes_need_to_send : ℕ
  pub addr : ℕ
  pub last_active_ms : ℕ
  pub ssl : Option ℕ
  pub tls_handshake_done : Bool
  pub tls_read_pending : Bool

-- The loop of `close_client` over the waiting messages, on fuel; `none` is a fault or the end of
-- the fuel.
unfoldable pub free_messages : ℕ → Ptr → Heap Transmit → Option (Heap Transmit)
free_messages zero p h = none
free_messages (suc k) p h =
    let rest = do n ← load h p; h1 ← free h p; free_messages k n.next h1
    in if p == null then some h else rest

module _ {R : Type 0} where
  -- The body of the loop of `clients_init`.
  abbrev pub blank : Client R → Client R
  blank c = record c {
    fd = minus_one;
    generation = 0;
    tail = null;
    head = null;
    alive = false;
    bytes_need_to_send = 0;
    rx_len = 0;
    stage = read_header;
    ssl = none;
    tls_handshake_done = false;
    tls_read_pending = false;
  }

  unfoldable pub clients_init : List (Client R) → Status × List (Client R)
  clients_init clients =
      if ltb (length clients) 1 then (failed, clients) else (ok, map blank clients)

  -- The search of `client_alloc`, from slot `i` on.
  unfoldable pub find_free : List (Client R) → ℕ → ℤ
  find_free [] i = minus_one
  find_free (c ∷ cs) i =
      let rest = find_free cs (suc i) in if eqℤ c.fd minus_one then pos i else rest

  -- What `client_alloc` makes of the slot that it found. `now` is the clock; `rate` is the limiter
  -- that `rate_limit_init` sets up.
  abbrev pub occupy : Client R → ℤ → ℕ → ℕ → R → Client R
  occupy c fd addr now rate = record c {
    fd = fd;
    addr = addr;
    last_active_ms = now;
    generation = (c.generation + 1) % 2 ^ 64;
    rx_len = 0;
    stage = read_header;
    tail = null;
    head = null;
    bytes_need_to_send = 0;
    ssl = none;
    tls_handshake_done = false;
    tls_read_pending = false;
    rate = rate;
    alive = true;
  }

  -- The slot, or -1, and the array.
  unfoldable pub client_alloc : List (Client R) → ℤ → ℕ → ℕ → R → ℤ × List (Client R)
  unfolding find_free
  client_alloc clients fd addr now rate =
      if ltb (length clients) 1 || is_neg fd
      then (minus_one, clients)
      else elim (find_free clients 0) [
        | negsuc n ↦ (minus_one, clients)
        | pos slot ↦ elim (get_elem? clients slot) [
          | none ↦ (minus_one, clients)
          | some c ↦ (pos slot, set clients slot (occupy c fd addr now rate))
        ]
      ]

  -- The search of `fd_to_slot`, from slot `i` on.
  unfoldable pub find_fd : List (Client R) → ℤ → ℕ → ℤ
  find_fd [] fd i = minus_one
  find_fd (c ∷ cs) fd i =
      let rest = find_fd cs fd (suc i) in if c.alive && eqℤ c.fd fd then pos i else rest

  unfoldable pub fd_to_slot : List (Client R) → ℤ → ℤ
  unfolding find_fd
  fd_to_slot clients fd = if is_neg fd then minus_one else find_fd clients fd 0

  -- `data_send` is what `malloc` returned, and `message` the data pointer that the caller passes.
  unfoldable pub enqueue_message :
      Client R
      → Option Buffer
      → ℕ
      → Ptr
      → Heap Transmit
      → Option (Status × Client R × Heap Transmit)
  enqueue_message c none len data_send h = some (failed, c, h)
  enqueue_message c (some bytes) len data_send h =
      if data_send == null then some (failed, c, h) else do
        let h1 =
            write h data_send (some (node (record { bytes = bytes; len = len; offset = 0 }) null))
        (c1, h2) ←
            if c.tail == null
            then some (record c { head = data_send }, h1)
            else do h2 ← set_next h1 c.tail data_send; some (c, h2)
        some (
          ok,
          record c1 {
            tail = data_send;
            bytes_need_to_send = (c1.bytes_need_to_send + len) % 2 ^ 64;
          },
          h2,
        )

  unfoldable pub dequeue_message :
      Client R → Heap Transmit → Option (Ptr × Client R × Heap Transmit)
  dequeue_message c h = if c.head == null then some (null, c, h) else do
    n ← load h c.head
    let c1 = record c { head = n.next }
    let c2 = if c1.head == null then record c1 { tail = null } else c1
    h1 ← set_next h c.head null
    some (c.head, c2, h1)

  unfoldable pub check_response_message : Response → Client R → Bool
  check_response_message response c = c.generation == response.generation

  -- What `close_client` leaves in the slot.
  abbrev pub vacate : Client R → Client R
  vacate c = record c {
    fd = if is_neg c.fd then c.fd else minus_one;
    ssl = none;
    alive = false;
    head = null;
    tail = null;
    bytes_need_to_send = 0;
    rx_len = 0;
  }

  -- The status, the descriptor that was closed if there is one, the array and the heap. The fuel
  -- `k` bounds the number of waiting messages.
  unfoldable pub close_client :
      ℕ
      → List (Client R)
      → ℤ
      → Heap Transmit
      → Option (Status × Option ℤ × List (Client R) × Heap Transmit)
  close_client k clients (negsuc n) h = some (failed, none, clients, h)
  close_client k clients (pos slot) h = do
    c ← get_elem? clients slot
    h1 ← free_messages k c.head h
    some (ok, if is_neg c.fd then none else some c.fd, set clients slot (vacate c), h1)

  -- `t` is what `malloc` returned and `raw` what the memory held; `now` is the clock.
  unfoldable pub build_task :
      Client R → HeaderPacket → ℤ → Ptr → Task → ℕ → Heap Task → Ptr × Heap Task
  build_task c header slot t raw now h =
      if is_neg slot || t == null
      then (null, h)
      else (let payload =
            if ltb 0 header.length && leb header.length max_payload
            then copy raw.payload 0 c.data_receive header_size header.length
            else raw.payload in
          (
            t,
            write h t (
                some (
                  node
                    (record raw {
                      slot = slot;
                      generation = c.generation;
                      type = header.type;
                      request_id = header.request_id;
                      timeout_ms = (now + request_timeout_ms) % 2 ^ 64;
                      length = header.length;
                      payload = payload;
                    })
                    null)),
          ))

-- `buffer` is what `malloc` returned for the packet.
unfoldable pub packet_response_message : Response → Option Buffer → Option Buffer
unfolding packet_encode
packet_response_message response buffer =
    packet_encode buffer (header_size + response.length + crc_size) response.type
      response.request_id response.payload response.length
