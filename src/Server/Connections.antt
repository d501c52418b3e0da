-- ===== src/Server/Connections.antt =====
-- gateway/src/server.c: the handlers that open, serve and close connections, `tls_try_handshake`,
-- `handle_accept_client`, `handle_request_client`, `handle_client_sendable`, `reap_client` and
-- `server_shutdown`. The fuel `k` bounds the number of messages that wait for one client.
pub mod Accept
pub mod Loop
pub mod Reap
use mini_project_of_linux_pr.Prelude.{
  ℕ, zero, suc, ◌+◌, ◌-◌, ◌/◌, ◌%◌, ◌^◌, Bool, true, false, not, Option, none, some, List, [], ◌∷◌,
  ◌++◌, ◌==◌, ltb, ◌&&◌, if◌then◌else◌, ◌>>=◌, ℤ, pos, negsuc, minus_one, is_neg, get_elem?, set,
}
use mini_project_of_linux_pr.Types.{max_clients, idle_timeout_sec}
use mini_project_of_linux_pr.Queue.Task.{task_queue_shutdown}
use mini_project_of_linux_pr.Client.{Client, client_alloc, fd_to_slot, close_client}
use mini_project_of_linux_pr.Client.Send.{
  SslError, want_read, want_write, SslWrite, Interest, input, input_output, client_flush_tx_tls,
}
use mini_project_of_linux_pr.Reader.{Read}
use mini_project_of_linux_pr.Server.Defs.{Server, Given, set_client}
use mini_project_of_linux_pr.Server.Read.{client_read_message}

-- What `SSL_do_handshake` comes to.
pub data Handshake : Type 0 where
  finished : Handshake
  unfinished : SslError → Handshake

-- A new connection, and what the calls made for it answer: its descriptor and address, the clock,
-- its limiter, whether `epoll_add` succeeds, the session of `SSL_new`, whether `SSL_set_fd` succeeds
-- and the first step of the handshake.
pub record Connection (R : Type 0) : Type 0 where
  pub fd : ℤ
  pub addr : ℕ
  pub now : ℕ
  pub rate : R
  pub watched : Bool
  pub session : Option ℕ
  pub bound : Bool
  pub handshake : Handshake

-- What `accept4` comes to.
pub data Accepted (R : Type 0) : Type 0 where
  connected : Connection R → Accepted R
  would_block : Accepted R
  interrupted : Accepted R
  broken : Accepted R

-- The descriptors that a call closed, and the server.
abbrev pub Closing : Type 0 → Type 0
Closing R = List ℤ × Server R

-- What a handler returns: its code, the descriptors that it closed, and the server.
abbrev pub Handled : Type 0 → Type 0
Handled R = ℤ × List ℤ × Server R

module _ {R : Type 0} where
  -- `close_client(sv->clients, slot)`
  unfoldable pub close_slot : ℕ → Server R → ℕ → Option (Closing R)
  close_slot k sv slot = do
    (s, fd, clients, h) ← close_client k sv.clients (pos slot) sv.transmit_heap
    some (
      elim fd [ none ↦ [] | some d ↦ d ∷ [] ],
      record sv { clients = clients; transmit_heap = h },
    )

  -- The slot is closed and the handler returns -1.
  unfoldable pub give_up : ℕ → Server R → ℕ → Option (Handled R)
  give_up k sv slot = do (fds, sv1) ← close_slot k sv slot; some (minus_one, fds, sv1)

  unfoldable pub tls_try_handshake : ℕ → Server R → ℕ → Handshake → Option (Handled R)
  tls_try_handshake k sv slot finished = do
    c ← get_elem? sv.clients slot
    some (pos 0, [], set_client sv slot (record c { tls_handshake_done = true }))
  tls_try_handshake k sv slot (unfinished want_read) = some (pos 1, [], sv)
  tls_try_handshake k sv slot (unfinished want_write) = some (pos 1, [], sv)
  tls_try_handshake k sv slot (unfinished _) = give_up k sv slot

  -- `handle_accept_client` from `SSL_new` on. The result of the handshake is dropped.
  unfoldable pub open_session : ℕ → Server R → ℕ → Connection R → Option ℕ → Option (Handled R)
  open_session k sv slot x none = give_up k sv slot
  open_session k sv slot x (some session) =
      let shake = do
        (ret, fds, sv1) ← tls_try_handshake k sv slot x.handshake
        some (pos 0, fds, sv1)
      in if x.bound then shake else give_up k sv slot

  -- `handle_accept_client` once the connection has its slot.
  unfoldable pub open_slot : ℕ → Server R → ℕ → Connection R → Option (Handled R)
  open_slot k sv slot x = if not x.watched then give_up k sv slot else do
    c ← get_elem? sv.clients slot
    open_session k (set_client sv slot (record c { ssl = x.session })) slot x x.session

  -- `handle_accept_client` after `client_alloc`.
  unfoldable pub take_slot : ℕ → Server R → Connection R → ℤ × List (Client R) → Option (Handled R)
  take_slot k sv x (negsuc n, clients) =
      some (minus_one, x.fd ∷ [], record sv { clients = clients })
  take_slot k sv x (pos slot, clients) = open_slot k (record sv { clients = clients }) slot x

  unfoldable pub handle_accept_client : ℕ → Server R → Accepted R → Option (Handled R)
  handle_accept_client k sv would_block = some (pos 0, [], sv)
  handle_accept_client k sv interrupted = some (pos 0, [], sv)
  handle_accept_client k sv broken = some (minus_one, [], sv)
  handle_accept_client k sv (connected x) =
      take_slot k sv x (client_alloc sv.clients x.fd x.addr x.now x.rate)

  -- The slot of a live client whose descriptor is `fd`.
  abbrev pub live_slot : Server R → ℤ → Option (ℕ × Client R)
  live_slot sv fd = elim (fd_to_slot sv.clients fd) [
    | negsuc n ↦ none
    | pos slot ↦ do c ← get_elem? sv.clients slot; if c.alive then some (slot, c) else none
  ]

  -- A step of the handshake outside `handle_accept_client`: 1 becomes 0.
  unfoldable pub shake_hands : ℕ → Server R → ℕ → Handshake → Option (Handled R)
  shake_hands k sv slot handshake = do
    (ret, fds, sv2) ← tls_try_handshake k sv slot handshake
    some (if is_neg ret then minus_one else pos 0, fds, sv2)

  -- The reading of one request, and what its code makes of the slot.
  unfoldable pub read_request : ℕ → Server R → ℕ → List Read → Given → Option (Handled R)
  read_request k sv slot answers given = do
    (code, sv1, left) ← client_read_message sv slot answers given
    elim code [
      | negsuc n ↦ give_up k sv1 slot
      | pos ret ↦ if ret == 1 then give_up k sv1 slot else some (pos 0, [], sv1)
    ]

  -- `allow` is `request_allow`, with the limiter that it leaves. What a client over its limit sent is
  -- read and dropped.
  unfoldable pub handle_request_client :
      ℕ → (R → Bool × R) → Server R → ℤ → Handshake → List Read → Given → Option (Handled R)
  handle_request_client k allow sv client_fd handshake answers given =
      elim (live_slot sv client_fd) [
        | none ↦ some (minus_one, [], sv)
        | some (slot, c) ↦
            let (allowed, rate) = allow c.rate in
            let sv1 = set_client sv slot (record c { rate = rate }) in
            let shake = shake_hands k sv slot handshake in
            let request = read_request k sv1 slot answers given in
            if not c.tls_handshake_done
            then shake
            else if not allowed
            then some (pos 1, [], sv1)
            else request
      ]

  -- What the code of a flush makes of the slot. `watched` says whether the last `epoll_mod` succeeds.
  unfoldable pub after_flush : ℕ → Server R → ℕ → ℤ → Bool → Option (Handled R)
  after_flush k sv slot (negsuc n) watched = give_up k sv slot
  after_flush k sv slot (pos ret) watched =
      let closed = give_up k sv slot in
      if ret == 2
      then closed
      else if ret == 1
      then some (pos 0, [], sv)
      else if watched
      then some (pos 0, [], sv)
      else some (minus_one, [], sv)

  unfoldable pub handle_client_sendable :
      ℕ → Server R → ℤ → Handshake → ℕ → List SslWrite → Bool → Option (Handled R)
  handle_client_sendable k sv client_fd handshake now answers watched =
      elim (live_slot sv client_fd) [
        | none ↦ some (minus_one, [], sv)
        | some (slot, c) ↦
            let shake = shake_hands k sv slot handshake in
            let flush = do
              (ret, interest, c1, h, left) ← client_flush_tx_tls k now c sv.transmit_heap answers
              after_flush k (record sv { clients = set sv.clients slot c1; transmit_heap = h }) slot
                  ret watched
            in if c.tls_handshake_done then flush else shake
      ]

  -- Whether `reap_client` closes the slot: it is in use, and dead or idle for more than a minute.
  abbrev pub is_reaped : ℕ → Client R → Bool
  is_reaped now c =
      not (is_neg c.fd)
      && (if c.alive
          then ltb idle_timeout_sec ((now + 2 ^ 64 - c.last_active_ms) % 2 ^ 64 / 1000)
          else true)

  -- The loop of `reap_client`, with `n` slots left from slot `i` on.
  unfoldable pub reap_from : ℕ → ℕ → ℕ → ℕ → Server R → Option (Closing R)
  reap_from k now zero i sv = some ([], sv)
  reap_from k now (suc n) i sv = do
    c ← get_elem? sv.clients i
    let skip : Option (Closing R) = some ([], sv)
    (fds, sv1) ← if is_reaped now c then close_slot k sv i else skip
    (more, sv2) ← reap_from k now n (suc i) sv1
    some (fds ++ more, sv2)

  unfoldable pub reap_client : ℕ → ℕ → Server R → Option (Closing R)
  reap_client k now sv = reap_from k now max_clients 0 sv

  unfoldable pub server_shutdown : Server R → Server R
  server_shutdown sv = record sv { shutdown = true; tasks = task_queue_shutdown sv.tasks }
