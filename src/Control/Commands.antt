-- ===== src/Control/Commands.antt =====
-- unix-domain-socket-control-plane/gatewayd/server.h: the work on a task. An array that is indexed by
-- descriptors is a function, and `now` is the clock.
pub mod Replies
pub mod Sending
use mini_project_of_linux_pr.Prelude.{
  ℕ, zero, suc, ◌+◌, ◌-◌, ◌%◌, ◌^◌, Bool, true, false, not, ◌&&◌, ltb, ◌==◌, if◌then◌else◌, negsuc,
  ℤ, Option, none, some, ◌>>=◌, List, [], ◌∷◌, ◌++◌, length, take, get_elem?, set, pos, minus_one,
  eqℤ, is_neg,
}
use mini_project_of_linux_pr.Prelude.Ring.{store}
use mini_project_of_linux_pr.Prelude.Text.{codes, decimal}
use mini_project_of_linux_pr.Control.{
  session_token_len, get_status, set_status, get_data, get_config, set_config, send_control,
  shutdown_peer, ack, nack, identify, low, medium, high, Header, MessageControl, build_message,
}
use mini_project_of_linux_pr.Control.Structs.{
  fd_setsize, fd_setsize, Session, SessionTable, in_header, Outgoing, Client, Task, MessageQueue,
  Server,
}
use mini_project_of_linux_pr.Control.Reader.{
  Stopped, Recv, unfinished, complete, corrupt, broken, read_stage,
}
use mini_project_of_linux_pr.Control.Outgoing.{
  queue_client, advance_send_queue, Sent, all_sent, later, send_failed, send_message_chunk,
}
use mini_project_of_linux_pr.Control.Tasks.{try_enqueue_task}
use mini_project_of_linux_pr.Control.Sessions.{session_lookup_or_create}
use mini_project_of_linux_pr.Control.Server.{set_client, build_ack}

-- `%s client_id=%lu reconnect=%d`, in an array of 128 bytes.
unfoldable pub welcome : Bool → ℕ → ℕ → List ℕ
welcome was_resumed client_id reconnect = take 127 (
    (if was_resumed then codes "RESUMED" else codes "NEW")
    ++ (codes " client_id="
        ++ (decimal 20 client_id ++ (codes " reconnect=" ++ decimal 10 reconnect))))

-- The token that a message holds, up to its NUL.
abbrev pub token_in : List ℕ → List ℕ
token_in [] = []
token_in (b ∷ s) = if b == 0 then [] else b ∷ token_in s

-- What is answered to a client that got this session.
abbrev pub greet : Server → ℕ → Client → ℕ → Option (ℕ × Bool × SessionTable) → Server
greet sv fd c n none =
    set_client sv fd (queue_client c (build_message (codes "session table full") nack low n))
greet sv fd c n (some (i, was_resumed, t)) = elim (get_elem? t.sessions i) [
  | none ↦ sv
  | some s ↦
      set_client (record sv { table = t }) fd
        (queue_client (record c { session = some i })
          (build_message (welcome was_resumed s.client_id s.reconnect_count) ack low n))
]

unfoldable pub identify_task : Server → ℕ → ℕ → Client → MessageControl → Server
unfolding queue_client session_lookup_or_create welcome
identify_task sv now fd c m =
    let text = take (session_token_len - 1) m.message in
    let n = m.header.number_packet in
    if length text == 0
    then set_client sv fd
        (queue_client c (build_message (codes "IDENTITY requires a non-empty token") nack low n))
    else greet sv fd c n (session_lookup_or_create (token_in text) now sv.table)

-- The tasks that only queue a reply; `none` for those that queue none.
unfoldable pub reply_to : MessageControl → Option MessageControl
reply_to m =
    let n = m.header.number_packet in
    if m.header.cmd == get_status
    then some (build_message (codes "STATUS OK") ack low n)
    else if m.header.cmd == set_status
    then some (build_ack n)
    else if m.header.cmd == get_data
    then some (build_message (codes "DATA") ack low n)
    else if m.header.cmd == get_config
    then some (build_message (codes "CONFIG") ack low n)
    else if m.header.cmd == set_config
    then some (build_ack n)
    else if m.header.cmd == send_control
    then some (build_ack n)
    else none

abbrev pub with_reply : Client → Option MessageControl → Client
with_reply c none = c
with_reply c (some m) = queue_client c m

-- The switch of `process_task`.
unfoldable pub run_command : Server → ℕ → ℕ → Client → MessageControl → Server
unfolding queue_client identify_task reply_to
run_command sv now fd c m =
    if m.header.cmd == identify
    then identify_task sv now fd c m
    else if m.header.cmd == shutdown_peer
    then set_client sv fd (record c { pending_close = true })
    else set_client sv fd (with_reply c (reply_to m))

-- `packets_in_total` of a client's session.
abbrev pub count_in : SessionTable → ℕ → Option ℕ → SessionTable
count_in t now none = t
count_in t now (some i) = elim (get_elem? t.sessions i) [
  | none ↦ t
  | some s ↦ record t {
    sessions =
        set t.sessions i
          (record s { packets_in_total = s.packets_in_total + 1; last_seen_ms = now });
  }
]

-- The connection that a task came from is still there.
abbrev pub is_current : Client → ℕ → Task → Bool
is_current c fd t = eqℤ c.fd (pos fd) && c.generation == t.client_generation

abbrev pub finish_task : Server → ℕ → Task → Server
finish_task sv fd t =
    let c = sv.clients fd in
    if is_current c fd t
    then set_client sv fd (record c { pending_task = c.pending_task - 1 })
    else sv

-- A task of the slot `fd`.
unfoldable pub process_on : Server → ℕ → ℕ → Task → Server
unfolding run_command
process_on sv now fd t =
    let c = sv.clients fd in
    let sv1 = run_command sv now fd c t.message in
    let sv2 : Server = record sv1 { table = count_in sv1.table now (sv1.clients fd).session } in
    if is_current c fd t && c.connected then finish_task sv2 fd t else finish_task sv fd t

-- `fd < 0 || fd >= FD_SETSIZE`
abbrev pub on_slot : Server → ℕ → ℤ → Task → Server
on_slot sv now (negsuc n) t = sv
on_slot sv now (pos fd) t = if ltb fd fd_setsize then process_on sv now fd t else sv

unfoldable pub process_task : Server → ℕ → Task → Server
unfolding process_on
process_task sv now t = on_slot sv now t.fd t
