-- ===== src/Server/Events.antt =====
-- `main_thread` (gateway/src/worker_thread.c): the network thread takes the events of `epoll_wait` to
-- the handlers. `handle_discovery` answers a datagram and changes no state. `k` bounds the number of
-- messages that wait for one client, and `allow` is `request_allow`.
use mini_project_of_linux_pr.Prelude.{
  ℕ, Bool, Option, some, List, [], ◌∷◌, ◌++◌, ◌&&◌, not, if◌then◌else◌, ◌>>=◌, ℤ, pos, negsuc,
  is_neg, eqℤ, get_elem?,
}
use mini_project_of_linux_pr.Client.{fd_to_slot}
use mini_project_of_linux_pr.Client.Send.{SslWrite}
use mini_project_of_linux_pr.Reader.{Read}
use mini_project_of_linux_pr.Server.Defs.{Server, Given}
use mini_project_of_linux_pr.Server.Respond.{Memory, handle_response_to_client}
use mini_project_of_linux_pr.Server.Connections.{
  Accepted, Handshake, Closing, close_slot, handle_accept_client, handle_request_client,
  handle_client_sendable, reap_client,
}

-- An event, and what the calls made for it answer.
pub record Event (R : Type 0) : Type 0 where
  pub fd : ℤ
  pub readable : Bool
  pub writable : Bool
  pub hung_up : Bool
  pub accepted : Accepted R
  pub memory : ℕ → Memory
  pub handshake : Handshake
  pub reads : List Read
  pub given : Given
  pub later_handshake : Handshake
  pub now : ℕ
  pub writes : List SslWrite
  pub watched : Bool

module _ {R : Type 0} (k : ℕ) (allow : R → Bool × R) where
  -- `handle_request_client`, if the event says so and the slot still has the descriptor
  unfoldable pub on_readable : Server R → ℕ → Event R → Option (Closing R)
  on_readable sv slot e = do
    c ← get_elem? sv.clients slot
    let serve = do
      (code, fds, sv1) ← handle_request_client k allow sv e.fd e.handshake e.reads e.given
      some (fds, sv1)
    if eqℤ e.fd c.fd && e.readable then serve else some ([], sv)

  -- `handle_client_sendable`, in the same way
  unfoldable pub on_writable : Server R → ℕ → Event R → Option (Closing R)
  on_writable sv slot e = do
    c ← get_elem? sv.clients slot
    let serve = do
      (code, fds, sv1) ← handle_client_sendable k sv e.fd e.later_handshake e.now e.writes e.watched
      some (fds, sv1)
    if eqℤ e.fd c.fd && e.writable && not (is_neg c.fd) then serve else some ([], sv)

  -- The event of a client's slot.
  unfoldable pub on_client : Server R → ℕ → Event R → Option (Closing R)
  on_client sv slot e = do
    c ← get_elem? sv.clients slot
    let close = close_slot k sv slot
    let serve = do
      (fds, sv1) ← on_readable sv slot e
      (more, sv2) ← on_writable sv1 slot e
      some (fds ++ more, sv2)
    if eqℤ e.fd c.fd && e.hung_up then close else serve

  unfoldable pub handle_event : Server R → Event R → Option (Closing R)
  handle_event sv e =
      let accept = do (code, fds, sv1) ← handle_accept_client k sv e.accepted; some (fds, sv1)
      in let respond = do sv1 ← handle_response_to_client e.memory sv; some ([], sv1)
        in let serve : Option (Closing R) = elim (fd_to_slot sv.clients e.fd) [
          | negsuc n ↦ some ([], sv)
          | pos slot ↦ on_client sv slot e
        ] in
          if eqℤ sv.listen_fd e.fd && e.readable
          then accept
          else if eqℤ sv.broadcast_fd e.fd && e.readable
          then some ([], sv)
          else if eqℤ sv.event_fd e.fd && e.readable
          then respond
          else serve

  -- The events of one `epoll_wait`, in order.
  unfoldable pub handle_events : Server R → List (Event R) → Option (Closing R)
  handle_events sv [] = some ([], sv)
  handle_events sv (e ∷ es) = do
    (fds, sv1) ← handle_event sv e
    (more, sv2) ← handle_events sv1 es
    some (fds ++ more, sv2)

  -- One round of the loop: the events, then the idle clients. The flag says whether the loop stops.
  unfoldable pub main_round : ℕ → Server R → List (Event R) → Option (Bool × Closing R)
  main_round now sv es = do
    (fds, sv1) ← handle_events sv es
    (more, sv2) ← reap_client k now sv1
    some (sv2.shutdown, (fds ++ more, sv2))
