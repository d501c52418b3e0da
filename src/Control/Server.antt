-- ===== src/Control/Server.antt =====
-- unix-domain-socket-control-plane/gatewayd/server.h: the handlers of the I/O thread. What the kernel answers and the clock are arguments; an array that is indexed by descriptors is
-- a function, and descriptors from the kernel are below FD_SETSIZE once `handle_accept` let them in.
pub mod Frames
pub mod Reaping
pub mod Sending
use mini_project_of_linux_pr.Prelude.{
  ℕ, zero, suc, ◌+◌, ◌-◌, ◌%◌, ◌^◌, Bool, true, false, not, ◌&&◌, ltb, ◌==◌, if◌then◌else◌, Option,
  none, some, ◌>>=◌, List, [], ◌∷◌, ◌++◌, length, take, get_elem?, set, ℤ, pos, minus_one, eqℤ,
  is_neg,
}
use mini_project_of_linux_pr.Prelude.Ring.{store}
use mini_project_of_linux_pr.Prelude.Text.{codes, decimal}
use mini_project_of_linux_pr.Control.{
  session_token_len, get_status, set_status, get_data, get_config, set_config, send_control,
  shutdown_peer, ack, nack, identify, low, medium, high, Header, MessageControl, build_message,
}
use mini_project_of_linux_pr.Control.Structs.{
  fd_setsize, Session, SessionTable, in_header, Outgoing, Client, Task, MessageQueue, Server,
}
use mini_project_of_linux_pr.Control.Reader.{
  Stopped, Recv, unfinished, complete, corrupt, broken, read_stage,
}
use mini_project_of_linux_pr.Control.Outgoing.{
  queue_client, advance_send_queue, Sent, all_sent, later, send_failed, send_message_chunk,
}
use mini_project_of_linux_pr.Control.Tasks.{try_enqueue_task}
use mini_project_of_linux_pr.Control.Sessions.{session_lookup_or_create}

abbrev pub set_client : Server → ℕ → Client → Server
set_client sv fd c = record sv { clients = store sv.clients fd c }

abbrev pub build_ack : ℕ → MessageControl
build_ack n = build_message (codes "ACK") ack low n

abbrev pub build_nack : ℕ → MessageControl
build_nack n = build_message (codes "NACK") nack low n

abbrev zero_message : MessageControl
zero_message = record {
  header = record { cmd = 0; pri = 0; number_packet = 0; length = 0; padding = 0 };
  message = [];
  checksum = 0;
}

unfoldable pub init_client : ℕ → ℕ → ℕ → Client
init_client connection_id generation now = record {
  fd = pos 0;
  connected = false;
  connection_id = connection_id;
  generation = generation;
  session = none;
  stage = in_header;
  message = zero_message;
  part = [];
  pending_close = false;
  pending_task = 0;
  last_active = now;
  connected_at = now;
  packet_sent = 0;
  packet_received = 0;
  send_queue = λ i. record { msg = zero_message; wire_buf = []; bytes_sent = 0 };
  send_head = 0;
  send_tail = 0;
  send_count = 0;
}

-- What `accept4` returned: a descriptor and whether `epoll_ctl` adds it, or nothing, or an error.
pub data Accepted : Type 0 where
  new_fd : ℕ → Bool → Accepted
  try_later : Accepted
  accept_failed : Accepted

-- One connection: the server and the descriptors that are closed.
unfoldable pub take_connection : Server → ℕ → ℕ → Bool → Server × List ℕ
unfolding init_client
take_connection sv now fd watched = if not (ltb fd fd_setsize) then (sv, fd ∷ []) else (
  record sv {
    clients =
        store sv.clients fd
          (record (init_client ((sv.next_client_id + 1) % 2 ^ 64)
            (((sv.clients fd).generation + 1) % 2 ^ 64) now) { fd = pos fd; connected = true });
    next_client_id = (sv.next_client_id + 1) % 2 ^ 64;
    num_clients = sv.num_clients + 1;
  },
  if watched then [] else fd ∷ [],
)

-- The loop over the answers of `accept4`; the end of the list is EAGAIN.
unfoldable pub handle_accept : Server → ℕ → List Accepted → Server × List ℕ
unfolding take_connection
handle_accept sv now [] = (sv, [])
handle_accept sv now (try_later ∷ answers) = (sv, [])
handle_accept sv now (accept_failed ∷ answers) = (sv, [])
handle_accept sv now (new_fd fd watched ∷ answers) =
    let (sv1, shut) = take_connection sv now fd watched in
    let (sv2, rest) = handle_accept sv1 now answers in (sv2, shut ++ rest)

-- The queue of a priority; `none` is the NULL of a priority that there is not.
abbrev pub queue_of : Server → ℕ → Option MessageQueue
queue_of sv pri =
    if pri == high
    then some sv.high_priority_queue
    else if pri == medium
    then some sv.medium_priority_queue
    else if pri == low
    then some sv.low_priority_queue
    else none

abbrev pub set_queue : Server → ℕ → Option MessageQueue → Server
set_queue sv pri none = sv
set_queue sv pri (some q) =
    if pri == high
    then record sv { high_priority_queue = q }
    else if pri == medium
    then record sv { medium_priority_queue = q }
    else record sv { low_priority_queue = q }

abbrev pub busy : ℕ → MessageControl
busy n = build_message (codes "SERVER BUSY") nack low n

-- Whether the task was taken, and its queue.
abbrev pub placed : Server → ℕ → ℕ → Client → Client → Bool × Option MessageQueue → Server
placed sv fd pri c turned_away (true, q) = set_client (set_queue sv pri q) fd c
placed sv fd pri c turned_away (false, q) = set_client sv fd turned_away

-- A whole frame becomes a task of its priority; `none` is a fault.
unfoldable pub queue_frame : Server → ℕ → Client → Option Server
unfolding try_enqueue_task
queue_frame sv fd c =
    let t : Task = record {
      fd = pos fd;
      client_generation = c.generation;
      connection_id = c.connection_id;
      message = c.message;
    } in
    let pri = c.message.header.pri in
    let turned_away =
      queue_client (record c { pending_task = c.pending_task - 1 })
        (busy c.message.header.number_packet) in
    do r ← try_enqueue_task sv.shutdown (queue_of sv pri) t; some (placed sv fd pri c turned_away r)

-- An event of `epoll_wait`.
pub record Event : Type 0 where
  pub fd : ℕ
  pub readable : Bool
  pub reads : List Recv

-- What is made of the result of `read_stage`.
abbrev pub on_result : Server → ℕ → Stopped → Option Server
on_result sv fd (unfinished, c, _) = some (set_client sv fd c)
on_result sv fd (broken, c, _) = some (set_client sv fd c)
on_result sv fd (corrupt, c, _) =
    some (set_client sv fd (queue_client c (build_nack c.message.header.number_packet)))
on_result sv fd (complete, c, _) = queue_frame sv fd c

unfoldable pub on_readable : Server → Event → Option Server
unfolding queue_frame
on_readable sv e =
    let c = sv.clients e.fd in
    if c.connected && (eqℤ c.fd (pos e.fd) && e.readable)
    then on_result sv e.fd (read_stage e.reads c)
    else some sv

unfoldable pub handle_client_readable : Server → List Event → Option Server
unfolding on_readable
handle_client_readable sv [] = some sv
handle_client_readable sv (e ∷ es) = do sv1 ← on_readable sv e; handle_client_readable sv1 es

-- `packets_out_total` of a client's session.
abbrev pub count_out : SessionTable → Option ℕ → SessionTable
count_out t none = t
count_out t (some i) = elim (get_elem? t.sessions i) [
  | none ↦ t
  | some s ↦ record t {
    sessions = set t.sessions i (record s { packets_out_total = s.packets_out_total + 1 });
  }
]

-- The server, and the bytes that went out.
unfoldable pub handle_client_writable : Server → ℕ → List Sent → Server × List ℕ
unfolding send_message_chunk advance_send_queue
handle_client_writable sv fd answers =
    let c = sv.clients fd in
    let (st, c1, out) = send_message_chunk answers c in
    if c.send_count == 0 then (sv, []) else elim st [
      | later ↦ (set_client sv fd c1, out)
      | send_failed ↦
          (set_client sv fd (advance_send_queue (record c1 { pending_close = true })), out)
      | all_sent ↦ (
        record (set_client sv fd (record c1 { packet_sent = c1.packet_sent + 1 })) {
          table = count_out sv.table c1.session;
        },
        out,
      )
    ]

abbrev pub is_reaped : Client → Bool
is_reaped c = c.pending_close && (c.pending_task == 0 && c.send_count == 0)

abbrev pub vacate : Client → Client
vacate c = record c { fd = minus_one; connected = false; pending_close = false; session = none }

abbrev pub reap_one : ℕ → Server → Server
reap_one fd sv =
    if is_reaped (sv.clients fd)
    then record (set_client sv fd (vacate (sv.clients fd))) { num_clients = sv.num_clients - 1 }
    else sv

-- `close`, when there is a descriptor.
abbrev pub shuts : Client → List ℤ
shuts c = if is_reaped c && not (is_neg c.fd) then c.fd ∷ [] else []

-- The loop from a descriptor on: the server and the descriptors that are closed.
unfoldable pub reap_from : ℕ → ℕ → Server → Server × List ℤ
reap_from zero fd sv = (sv, [])
reap_from (suc rest) fd sv =
    let (sv1, shut) = reap_from rest (fd + 1) (reap_one fd sv) in
    (sv1, shuts (sv.clients fd) ++ shut)

unfoldable pub reap_closed_clients : Server → Server × List ℤ
unfolding reap_from
reap_closed_clients sv = reap_from fd_setsize 0 sv
