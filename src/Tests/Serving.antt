-- ===== src/Tests/Serving.antt =====
-- Connections (gateway/src/server.c) and workers (gateway/src/worker_thread.c) at concrete inputs.
use mini_project_of_linux_pr.Prelude.{
  ℕ, Bool, true, false, none, some, ◌≡◌, ◌⊎◌, refl, ap, arith, List, [], ◌∷◌, ◌++◌, ℤ, pos,
  minus_one, eqℤ, get_elem?, if◌then◌else◌, ◌==◌, ◌&&◌, zero, suc,
}
use mini_project_of_linux_pr.Heap.{Ptr, null, Heap, node, write, Cells}
use mini_project_of_linux_pr.Types.{Buffer, Task, Response}
use mini_project_of_linux_pr.Queue.Response.{ResponseQueue}
use mini_project_of_linux_pr.Queue.Response.Refines.{IsQueue}
use mini_project_of_linux_pr.Protocol.{read_header}
use mini_project_of_linux_pr.Client.{Client, Transmit, fd_to_slot}
use mini_project_of_linux_pr.Client.Slots.{Nowhere, serves}
use mini_project_of_linux_pr.Client.Send.{other_error}
use mini_project_of_linux_pr.Server.{Server}
use mini_project_of_linux_pr.Server.Connections.{
  Connection, connected, unfinished, handle_accept_client, reap_client,
}
use mini_project_of_linux_pr.Server.Connections.Accept.{handle_accept_client_keeps}
use mini_project_of_linux_pr.Server.Connections.Reap.{
  overdue_fds, InPast, Outcome, reap_client_closes,
}
use mini_project_of_linux_pr.Server.Connections.Loop.{Boxes}
use mini_project_of_linux_pr.Worker.{Payloads, Devices, Turn, finished, serve_task}
use mini_project_of_linux_pr.Worker.Answer.{Answers, CanRefuse}
use mini_project_of_linux_pr.Worker.Loop.{due, serve_task-Answers}

abbrev letters : Buffer
letters i = 97

abbrev unused : Client ℕ
unused = record {
  fd = minus_one;
  generation = 0;
  alive = false;
  rate = 0;
  stage = read_header;
  data_receive = letters;
  rx_len = 0;
  tail = null;
  head = null;
  bytes_need_to_send = 0;
  addr = 0;
  last_active_ms = 0;
  ssl = none;
  tls_handshake_done = false;
  tls_read_pending = false;
}

-- a client that closed its side
abbrev dead : Client ℕ
dead = record unused { fd = pos 9 }

abbrev copies : ℕ → List (Client ℕ)
copies zero = []
copies (suc n) = unused ∷ copies n

abbrev rsp : ℕ → Response
rsp n = record {
  slot = pos 0;
  generation = 1;
  type = 0x8001;
  request_id = n;
  length = 1;
  payload = letters;
}

abbrev job : Task
job = record {
  slot = pos 0;
  task_id = 0;
  generation = 4;
  type = 1;
  request_id = 7;
  payload = letters;
  timeout_ms = 5000;
  length = 2;
}

abbrev server : Server ℕ
server = record {
  listen_fd = pos 3;
  broadcast_fd = pos 4;
  event_fd = pos 5;
  epoll_fd = pos 6;
  clients = dead ∷ copies 127;
  tasks = record { head = null; tail = null; size = 0; max_size = 1024; shutdown = false };
  response = record { head = 1; tail = 1; size = 1; max_size = 1024 };
  shutdown = false;
  task_heap = λ p. if p == 1 then some (node job null) else none;
  response_heap = λ p. if p == 1 then some (node (rsp 5) null) else none;
  transmit_heap = λ p. none;
}

copies-unused : (n i : ℕ) (c : Client ℕ) → get_elem? (copies n) i ≡ some c → some unused ≡ some c
copies-unused zero i c e = cc
copies-unused (suc n) zero c e = e
copies-unused (suc n) (suc i) c e = copies-unused n i c e

server-quiet :
    (i : ℕ) (c : Client ℕ)
    → get_elem? server.clients i ≡ some c
    → (c.alive ≡ false) × (c.head ≡ null) × (c.tail ≡ null)
server-quiet zero c e = (ground (arith, e), ground (arith, e), ground (arith, e))
server-quiet (suc i) c e =
    let it = copies-unused 127 i c e in (ground (arith, it), ground (arith, it), ground (arith, it))

-- the handshake fails at once
abbrev newcomer : Connection ℕ
newcomer = record {
  fd = pos 12;
  addr = 1;
  now = 100;
  rate = 0;
  watched = true;
  session = some 3;
  bound = true;
  handshake = unfinished other_error;
}

handle_accept_client_keeps_example :
    (code : ℤ) × (fds : List ℤ) × (sv' : Server ℕ) × (handle_accept_client 1 server
        (connected newcomer)
      ≡ some (code, fds, sv'))
    × (((fds ≡ pos 12 ∷ []) × Nowhere (serves (pos 12)) sv'.clients)
        ⊎ ((fds ≡ []) × (slot : ℕ) × (fd_to_slot sv'.clients (pos 12) ≡ pos slot)))
handle_accept_client_keeps_example =
    handle_accept_client_keeps 0 server newcomer refl nowhere (omega arith)
  where
    nowhere : Nowhere (serves (pos 12)) server.clients
    nowhere j d e = ap (λ (t : Bool). t && eqℤ d.fd (pos 12)) (server-quiet j d e).0

abbrev no_messages : ℕ → Cells Transmit
no_messages i = []

server-Boxes : Boxes 1 server.transmit_heap server.clients no_messages
server-Boxes = record {
  box =
      λ i c e. record { links = tt; head = (server-quiet i c e).1; tail = (server-quiet i c e).2 };
  small = λ i. omega arith;
  apart = λ i j a ne held. refl;
}

copies-InPast : (n : ℕ) → InPast 70000 (copies n)
copies-InPast zero = tt
copies-InPast (suc n) = (omega arith, copies-InPast n)

reap_client_closes_example :
    (sv' : Server ℕ) × (c' : Client ℕ) × (reap_client 1 70000 server
      ≡ some (overdue_fds 70000 server.clients, sv'))
    × (get_elem? sv'.clients 0 ≡ some c')
    × Outcome 70000 dead c'
reap_client_closes_example =
    reap_client_closes 1 70000 server no_messages 0 dead server-Boxes refl (omega arith)
      (omega arith, copies-InPast 127) refl

-- each document is two letters
abbrev js : Payloads ℕ
js = record {
  parse_echo_req = λ b n. some b;
  parse_get_sensor_req = λ b n. some (pos 1);
  parse_set_actuator_req = λ b n. none;
  build_echo_resp = λ b. some (b, 2);
  build_status_resp = λ a b. some (letters, 2);
  build_sensor_aht30_resp = λ a b. some (letters, 2);
  build_sensor_bh1750_resp = λ a. some (letters, 2);
  build_actuator_resp = some (letters, 2);
  build_error_resp = λ c m. some (letters, 2);
}

abbrev dev : Devices ℕ
dev = record {
  aht30 = some (20, 50);
  bh1750 = none;
  ac_ready = true;
  set_ac = λ s v. true;
  led_ready = true;
  set_led = λ s v. false;
  fan_ready = false;
  set_fan = λ s v. true;
}

js-CanRefuse : CanRefuse js
js-CanRefuse code message e = cc

-- the deadline passes during the work
abbrev turn : Turn
turn = record { now = 10; during = 20; later = 6000; first = 2; second = 3; raw = rsp 0 }

abbrev queued : Cells Response
queued = (1, rsp 5) ∷ []

queued-IsQueue : IsQueue server.response_heap server.response queued
queued-IsQueue = record {
  links = (omega arith, refl, refl, tt);
  head = refl;
  tail = refl;
  size = refl;
  fits = omega arith;
}

serve_task-Answers_example :
    (p : Ptr) × (rp : Response) × (q : ResponseQueue) × (h : Heap Response) × Answers js job
      (due js dev turn job)
      rp
    × IsQueue h q (queued ++ (p, rp) ∷ [])
    × (serve_task js dev turn server 1
        ≡ some (
          finished true,
          record server {
            response = q;
            response_heap = h;
            task_heap = write server.task_heap 1 none;
          },
        ))
serve_task-Answers_example =
    serve_task-Answers js dev turn server 1 null job queued js-CanRefuse (omega arith) refl
      (omega arith) queued-IsQueue (omega arith) (omega arith) (omega arith) refl refl
