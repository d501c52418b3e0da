-- ===== src/Server/Respond.antt =====
-- `handle_response_to_client` (gateway/src/server.c): the responses of the workers go to the clients
-- that still wait for them. Neither the read of the event descriptor nor `epoll_mod` changes the state.
pub mod Stale
pub mod Current
use mini_project_of_linux_pr.Prelude.{
  ℕ, zero, suc, ◌+◌, Bool, true, false, Option, none, some, List, [], ◌∷◌, ◌==◌, leb, ◌&&◌,
  if◌then◌else◌, ◌>>=◌, ℤ, pos, negsuc, get_elem?, set,
}
use mini_project_of_linux_pr.Heap.{Ptr, null, Heap, load, free}
use mini_project_of_linux_pr.Types.{Buffer, Response, max_clients}
use mini_project_of_linux_pr.Queue.Response.{response_queue_pop}
use mini_project_of_linux_pr.Protocol.{header_size, crc_size}
use mini_project_of_linux_pr.Client.{
  Client, check_response_message, packet_response_message, enqueue_message,
}
use mini_project_of_linux_pr.Server.Defs.{Server}

-- What `malloc` returns for one response: memory for its packet, and a `struct data_transmit`.
abbrev pub Memory : Type 0
Memory = Option Buffer × Ptr

module _ {R : Type 0} where
  -- The packet of one response, to the client `c` in slot `slot`.
  unfoldable pub deliver_packet :
      Server R → ℕ → Client R → Response → Ptr → Option Buffer → Option (Server R)
  deliver_packet sv slot c rp data_send none = some sv
  deliver_packet sv slot c rp data_send (some packet) = do
    (s, c1, h) ←
        enqueue_message c (some packet) (rp.length + crc_size + header_size) data_send
          sv.transmit_heap
    some (record sv { clients = set sv.clients slot c1; transmit_heap = h })

  -- One response, to the client in its slot.
  unfoldable pub deliver_slot : Server R → ℕ → Response → Memory → Option (Server R)
  deliver_slot sv slot rp (buffer, data_send) = if leb max_clients slot then some sv else do
    c ← get_elem? sv.clients slot
    let sent = deliver_packet sv slot c rp data_send (packet_response_message rp buffer)
    if c.alive && check_response_message rp c then sent else some sv

  unfoldable pub deliver : Server R → Response → Memory → Option (Server R)
  deliver sv rp memory = elim rp.slot [
    | negsuc n ↦ some sv
    | pos slot ↦ deliver_slot sv slot rp memory
  ]

  -- The loop of `handle_response_to_client`, on fuel; `memory k` is for the round with fuel `k`.
  unfoldable pub respond_loop : ℕ → (ℕ → Memory) → Server R → Option (Server R)
  respond_loop zero memory sv = none
  respond_loop (suc k) memory sv = do
    (p, q, h) ← response_queue_pop sv.response sv.response_heap
    let sv1 = record sv { response = q; response_heap = h }
    let round = do
      n ← load h p
      sv2 ← deliver sv1 n.item (memory k)
      h2 ← free h p
      respond_loop k memory (record sv2 { response_heap = h2 })
    if p == null then some sv1 else round

  -- The fuel is one more than the number of responses that wait.
  unfoldable pub handle_response_to_client : (ℕ → Memory) → Server R → Option (Server R)
  handle_response_to_client memory sv = respond_loop (sv.response.size + 1) memory sv
