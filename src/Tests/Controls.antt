-- ===== src/Tests/Controls.antt =====
-- The control plane (unix-domain-socket-control-plane) at concrete inputs.
use mini_project_of_linux_pr.Prelude.{
  ℕ, ◌+◌, ◌-◌, ◌^◌, true, false, ◌==◌, if◌then◌else◌, none, some, List, [], ◌∷◌, ◌++◌, take, drop,
  take-append-drop, length, ap, sym, pos, get_elem?, ◌≡◌, ◌≢◌, refl, inl, inr, arith,
}
use mini_project_of_linux_pr.Prelude.Ring.{store}
use mini_project_of_linux_pr.Prelude.Text.{codes, same_text}
use mini_project_of_linux_pr.Control.{
  Header, MessageControl, raw_header, read_header, bytes_of, add_bytes, fold, calculate_checksum,
  wire, build_message, get_status, get_data, ack, low, high,
}
use mini_project_of_linux_pr.Control.Checksum.{
  sum_of, ones_complement, calculate_checksum-ones_complement,
}
use mini_project_of_linux_pr.Control.Wire.{IsMessage}
use mini_project_of_linux_pr.Control.Structs.{
  Session, SessionTable, in_header, Outgoing, Client, Task, MessageQueue, Server,
}
use mini_project_of_linux_pr.Control.Reader.{
  Recv, got, would_block, interrupted, complete, on_recv, read_stage,
}
use mini_project_of_linux_pr.Control.Reader.Feed.{Delivers, last, more, wait, retry, called_again}
use mini_project_of_linux_pr.Control.Reader.Frames.{received, read_stage_receives}
use mini_project_of_linux_pr.Control.Outgoing.{
  Sent, accepted, full, send_failed, send_loop, send_oldest, send_message_chunk, queue_client,
}
use mini_project_of_linux_pr.Control.Outgoing.Bytes.{waiting, pending, IsSending}
use mini_project_of_linux_pr.Control.Outgoing.Streams.{send_message_chunk_streams}
use mini_project_of_linux_pr.Control.Outgoing.Queue.{queue_client_bytes}
use mini_project_of_linux_pr.Control.Tasks.{
  try_enqueue_task, high_pri_worker, low_pri_worker, worker_loop, Crew, after_turn, round, here,
  next,
}
use mini_project_of_linux_pr.Control.Tasks.Picks.{
  shown, promised, waiting as tasks_waiting, worker_loop-promised,
}
use mini_project_of_linux_pr.Control.Tasks.Starving.{high_task_starves}
use mini_project_of_linux_pr.Control.Sessions.{search_token, fresh, session_lookup_or_create}
use mini_project_of_linux_pr.Control.Sessions.Resumes.{OneMore, session_resumes}
use mini_project_of_linux_pr.Control.Runs.{
  init_server, accepts, writes, works, Reached, at_first, step_on, Reached-IsSending,
}
use mini_project_of_linux_pr.Control.Server.{
  init_client, new_fd, take_connection, handle_accept, handle_client_writable,
  handle_client_readable, reap_closed_clients,
}
use mini_project_of_linux_pr.Control.Server.Frames.{unknown_priority_faults}
use mini_project_of_linux_pr.Control.Server.Reaping.{Outcome, Shut, reap_closed_clients_empties}
use mini_project_of_linux_pr.Control.Commands.{process_on, run_command, reply_to, process_task}
use mini_project_of_linux_pr.Control.Commands.Replies.{process_task_replies}

abbrev header : ℕ → ℕ → Header
header cmd pri = record { cmd = cmd; pri = pri; number_packet = 7; length = 2; padding = 0 }

abbrev ok_text : List ℕ
ok_text = 79 ∷ 75 ∷ []

abbrev message : ℕ → ℕ → MessageControl
message cmd pri = record {
  header = header cmd pri;
  message = ok_text;
  checksum = calculate_checksum (header cmd pri) ok_text;
}

calculate_checksum-ones_complement_example :
    calculate_checksum (header get_data high) ok_text
    ≡ 2 ^ 32 - 1 - ones_complement (sum_of (raw_header (header get_data high)) + sum_of ok_text)
calculate_checksum-ones_complement_example =
    calculate_checksum-ones_complement (header get_data high) ok_text
      (omega arith, (omega arith, tt)) (omega arith)

message-IsMessage : IsMessage (message get_data high)
message-IsMessage = record {
  header = record {
    cmd = omega arith;
    pri = omega arith;
    number_packet = omega arith;
    length = omega arith;
    padding = omega arith;
  };
  counted = refl;
  short = omega arith;
  bytes = (omega arith, (omega arith, tt));
  checked = refl;
}

-- A client that has just connected.
abbrev cells : ℕ → Outgoing
cells i = record { msg = message get_data high; wire_buf = []; bytes_sent = 0 }

abbrev conn : Client
conn = record {
  fd = pos 4;
  connected = true;
  connection_id = 1;
  generation = 1;
  session = none;
  stage = in_header;
  message = message 0 0;
  part = [];
  pending_close = false;
  pending_task = 0;
  last_active = 0;
  connected_at = 0;
  packet_sent = 0;
  packet_received = 0;
  send_queue = cells;
  send_head = 0;
  send_tail = 0;
  send_count = 0;
}

abbrev head_bytes : List ℕ
head_bytes = raw_header (header get_data high)

abbrev head_answers : List Recv
head_answers = got (take 5 head_bytes) ∷ would_block ∷ interrupted ∷ got (drop 5 head_bytes) ∷ []

head_Delivers : Delivers head_bytes head_answers
unfolding raw_header
head_Delivers =
    more head_bytes (take 5 head_bytes) (drop 5 head_bytes) _ (sym (take-append-drop 5 head_bytes))
      (omega arith) (wait _ _ (retry _ _ (last _)))

abbrev sum_bytes : List ℕ
sum_bytes = bytes_of 4 (calculate_checksum (header get_data high) ok_text)

abbrev behind : List Recv
behind = got (9 ∷ []) ∷ []

read_stage_receives_example :
    called_again
      (read_stage (head_answers ++ ((got ok_text ∷ []) ++ ((got sum_bytes ∷ []) ++ behind))) conn)
    ≡ (complete, received conn (message get_data high), behind)
read_stage_receives_example =
    read_stage_receives (message get_data high) message-IsMessage head_answers (got ok_text ∷ [])
      (got sum_bytes ∷ []) behind conn refl refl refl head_Delivers
      (inr (λ e. absurd (omega (arith, ap (length {0}) e)), last _)) (last _)

-- A client with two messages that wait, the first of which has been begun.
abbrev begun : Outgoing
begun = record {
  msg = message get_data high;
  wire_buf = wire (message get_data high);
  bytes_sent = 5;
}

abbrev sender : Client
sender = record conn {
  send_queue = store cells 15 begun;
  send_tail = 15;
  send_head = 1;
  send_count = 2;
}

sender-IsSending : IsSending sender
sender-IsSending = record {
  inside = omega arith;
  fits = omega arith;
  free = refl;
  framed_all = (inr refl, (inl refl, tt));
}

abbrev answers : List Sent
answers = accepted 7 ∷ accepted 4 ∷ full ∷ []

not_failed : (send_message_chunk answers sender).0 ≢ send_failed
unfolding send_message_chunk send_oldest send_loop
not_failed e = cc

send_message_chunk_streams_example :
    ((send_message_chunk answers sender).2
        ++ pending (waiting (send_message_chunk answers sender).1)
      ≡ pending (waiting sender))
    × IsSending (send_message_chunk answers sender).1
send_message_chunk_streams_example =
    send_message_chunk_streams answers sender sender-IsSending not_failed

-- A client whose queue is full, with an oldest message that has been begun.
abbrev busy_client : Client
busy_client = record conn {
  send_queue = store cells 3 begun;
  send_tail = 3;
  send_head = 3;
  send_count = 16;
}

busy-IsSending : IsSending busy_client
busy-IsSending = record {
  inside = omega arith;
  fits = omega arith;
  free = refl;
  framed_all = (
    inr refl,
    (
      inl refl,
      (
        inl refl,
        (
          inl refl,
          (
            inl refl,
            (
              inl refl,
              (
                inl refl,
                (
                  inl refl,
                  (
                    inl refl,
                    (
                      inl refl,
                      (inl refl, (inl refl, (inl refl, (inl refl, (inl refl, (inl refl, tt)))))),
                    ),
                  ),
                ),
              ),
            ),
          ),
        ),
      ),
    ),
  );
}

queue_client_bytes_example :
    IsSending (queue_client busy_client (message get_status low))
    × (pending (waiting (queue_client busy_client (message get_status low)))
        ≡ pending (if 16 == 16 then drop 1 (waiting busy_client) else waiting busy_client)
          ++ wire (message get_status low))
queue_client_bytes_example = queue_client_bytes busy_client (message get_status low) busy-IsSending

abbrev task : ℕ → ℕ → Task
task cmd generation = record {
  fd = pos 4;
  client_generation = generation;
  connection_id = 1;
  message = message cmd low;
}

abbrev no_tasks : MessageQueue
no_tasks = record { tasks = λ i. task 0 0; head = 0; tail = 0; count = 0 }

abbrev one_task : MessageQueue
one_task = record {
  tasks = store (λ i. task 0 0) 0 (task get_data 1);
  head = 1;
  tail = 0;
  count = 1;
}

abbrev no_session : Session
no_session = record {
  in_use = false;
  token = [];
  client_id = 0;
  packets_in_total = 0;
  packets_out_total = 0;
  first_seen_ms = 0;
  last_seen_ms = 0;
  reconnect_count = 0;
}

abbrev table : SessionTable
table = record { sessions = fresh (codes "pump") 3 1 ∷ no_session ∷ []; next_persistent_id = 1 }

abbrev server : Server
server = record {
  clients = λ i. conn;
  table = table;
  next_client_id = 1;
  num_clients = 1;
  high_priority_queue = no_tasks;
  medium_priority_queue = no_tasks;
  low_priority_queue = no_tasks;
  shutdown = false;
}

abbrev loaded : Server
loaded = record server { high_priority_queue = one_task }

worker_loop-promised_example :
    shown (worker_loop high_pri_worker loaded)
    ≡ promised high_pri_worker false (tasks_waiting loaded)
worker_loop-promised_example = worker_loop-promised high_pri_worker loaded

abbrev run_task : Server → Task → Server
run_task sv t = process_task sv 9 t

abbrev crew : Crew
crew = record {
  server = loaded;
  threads =
      record { kind = high_pri_worker; asleep = true }
      ∷ record { kind = low_pri_worker; asleep = false }
      ∷ [];
}

abbrev crew_later : Crew
crew_later =
    after_turn run_task crew 1 (record { kind = low_pri_worker; asleep = false })
      (worker_loop low_pri_worker loaded)

put_in : try_enqueue_task false (some no_tasks) (task get_data 1) ≡ some (true, some one_task)
unfolding try_enqueue_task
put_in = refl

high_task_starves_example : crew_later ≡ crew
high_task_starves_example =
    high_task_starves run_task server one_task (task get_data 1) crew.threads refl refl put_in
      (λ e. absurd (true_ne e), (λ e. refl, tt)) (next here (round 1 _ refl refl))
  where
    true_ne : true ≢ false
    true_ne e = cc

abbrev seen_table : SessionTable
seen_table = record {
  sessions = fresh (codes "pump") 3 1 ∷ fresh (codes "fan") 5 2 ∷ [];
  next_persistent_id = 2;
}

first_seen : session_lookup_or_create (codes "fan") 5 table ≡ some (1, false, seen_table)
unfolding session_lookup_or_create search_token same_text
first_seen = refl

session_resumes_example :
    (s : Session) × (s' : Session) × (t2 : SessionTable) × (get_elem? seen_table.sessions 1
      ≡ some s)
    × (session_lookup_or_create (codes "fan") 8 seen_table ≡ some (1, true, t2))
    × (get_elem? t2.sessions 1 ≡ some s')
    × OneMore 8 s s'
    × (get_elem? t2.sessions 0 ≡ get_elem? seen_table.sessions 0)
    × (t2.next_persistent_id ≡ 2)
session_resumes_example =
    session_resumes (codes "fan") 5 8 1 0 false table seen_table (omega arith) first_seen
      (λ e. absurd (omega arith))

abbrev status_ok : MessageControl
status_ok = build_message (codes "STATUS OK") ack low 7

answered : reply_to (message get_status low) ≡ some status_ok
unfolding reply_to
answered = refl

abbrev sending : Server
sending = record server { clients = store server.clients 4 sender }

process_task_replies_example :
    (status_ok.header.number_packet ≡ 7)
    × (pending (waiting ((process_task sending 9 (task get_status 1)).clients 4))
        ≡ pending (waiting sender) ++ wire status_ok)
    × (((process_task sending 9 (task get_status 1)).clients 4).pending_task ≡ 0 - 1)
    × ((process_task sending 9 (task get_status 1)).clients 5 ≡ conn)
process_task_replies_example =
    process_task_replies sending 9 4 (task get_status 1) status_ok 5 refl (omega arith) refl refl
      refl (λ e. absurd (omega arith)) (λ e. absurd (omega arith)) answered sender-IsSending
      (omega arith) (λ e. absurd (omega arith))

-- A whole frame with the priority 5.
abbrev frame : List Recv
frame =
    got (raw_header (header get_data 5))
    ∷ got ok_text
    ∷ got (bytes_of 4 (calculate_checksum (header get_data 5) ok_text))
    ∷ []

frame_read : read_stage frame conn ≡ (complete, received conn (message get_data 5), [])
unfolding read_stage on_recv raw_header read_header calculate_checksum add_bytes fold
frame_read = refl

unknown_priority_faults_example :
    handle_client_readable server (record { fd = 4; readable = true; reads = frame } ∷ []) ≡ none
unknown_priority_faults_example =
    unknown_priority_faults server (record { fd = 4; readable = true; reads = frame }) []
      (received conn (message get_data 5)) [] refl refl refl refl frame_read (omega arith)

abbrev closing : Server
closing = record server { clients = store server.clients 6 (record conn { pending_close = true }) }

reap_closed_clients_empties_example :
    Outcome (record conn { pending_close = true }) ((reap_closed_clients closing).0.clients 6)
    × Shut closing.clients 1024 0 (reap_closed_clients closing).1
reap_closed_clients_empties_example = reap_closed_clients_empties closing 6 (omega arith)

-- A client connects, its task is done, and a part of the reply goes out.
abbrev joined : Server
joined = (handle_accept init_server 0 (new_fd 4 true ∷ [])).0

abbrev replied : Server
replied = process_task joined 9 (task get_status 1)

abbrev first_bytes : Server
first_bytes = (handle_client_writable replied 4 answers).0

to_first_bytes : Reached first_bytes
to_first_bytes =
    step_on
      (step_on (step_on at_first (accepts 0 (new_fd 4 true ∷ []))) (works 9 (task get_status 1)))
      (writes 4 answers)

Reached-IsSending_example : IsSending (first_bytes.clients 4)
Reached-IsSending_example = Reached-IsSending to_first_bytes 4

replies_in_part : (first_bytes.clients 4).send_count ≡ 1
unfolding handle_accept take_connection process_task process_on run_command reply_to queue_client
    handle_client_writable send_message_chunk send_oldest send_loop init_server init_client
    build_message
replies_in_part = refl
