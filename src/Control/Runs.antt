-- ===== src/Control/Runs.antt =====
-- unix-domain-socket-control-plane/gatewayd: the server as steps of the I/O thread and of the workers,
-- in any order. A handler is one step here: what another thread does between the locks that one handler
-- takes is left out.
use mini_project_of_linux_pr.Prelude.{
  ℕ, zero, suc, false, Option, none, some, List, [], ◌∷◌, ◌≡◌, refl, sym, ap, subst, ◌∙◌, arith,
}
use mini_project_of_linux_pr.Control.Structs.{Session, Client, Task, MessageQueue, Server}
use mini_project_of_linux_pr.Control.Outgoing.{Sent}
use mini_project_of_linux_pr.Control.Outgoing.Bytes.{IsSending}
use mini_project_of_linux_pr.Control.Tasks.{
  try_dequeue_task_locked, Kind, high_pri_worker, mid_pri_worker, low_pri_worker, or_else,
  taken_high, taken_medium, taken_low, take_task,
}
use mini_project_of_linux_pr.Control.Server.{
  init_client, Accepted, handle_accept, Event, handle_client_readable, handle_client_writable,
  reap_closed_clients,
}
use mini_project_of_linux_pr.Control.Server.Sending.{
  AllSending, handle_accept-AllSending, handle_client_readable-Kept, reap_closed_clients-AllSending,
}
use mini_project_of_linux_pr.Control.Commands.{process_task}
use mini_project_of_linux_pr.Control.Commands.Sending.{
  process_task-AllSending, handle_client_writable-AllSending,
}

abbrev pub empty_slot : Session
empty_slot = record {
  in_use = false;
  token = [];
  client_id = 0;
  packets_in_total = 0;
  packets_out_total = 0;
  first_seen_ms = 0;
  last_seen_ms = 0;
  reconnect_count = 0;
}

abbrev empty_slots : ℕ → List Session
empty_slots zero = []
empty_slots (suc n) = empty_slot ∷ empty_slots n

-- Memory from `calloc` is a client that nobody has connected to.
abbrev pub zero_client : Client
zero_client = init_client 0 0 0

unfoldable pub init_message_queue : MessageQueue
init_message_queue = record {
  tasks = λ i. record {
    fd = zero_client.fd;
    client_generation = 0;
    connection_id = 0;
    message = zero_client.message;
  };
  head = 0;
  tail = 0;
  count = 0;
}

unfoldable pub init_server : Server
init_server = record {
  clients = λ i. zero_client;
  table = record { sessions = empty_slots 256; next_persistent_id = 0 };
  next_client_id = 0;
  num_clients = 0;
  high_priority_queue = init_message_queue;
  medium_priority_queue = init_message_queue;
  low_priority_queue = init_message_queue;
  shutdown = false;
}

pub data ServerStep (sv : Server) : Server → Type 0 where
  accepts : (now : ℕ) (answers : List Accepted) → ServerStep sv (handle_accept sv now answers).0
  reads :
      (es : List Event) (sv1 : Server) → handle_client_readable sv es ≡ some sv1 → ServerStep sv sv1
  writes : (fd : ℕ) (answers : List Sent) → ServerStep sv (handle_client_writable sv fd answers).0
  reaps : ServerStep sv (reap_closed_clients sv).0
  takes :
      (kind : Kind) (t : Task) (sv1 : Server)
      → take_task kind sv ≡ some (t, sv1)
      → ServerStep sv sv1
  works : (now : ℕ) (t : Task) → ServerStep sv (process_task sv now t)

pub data Reached : Server → Type 0 where
  at_first : Reached init_server
  step_on : {sv sv1 : Server} → Reached sv → ServerStep sv sv1 → Reached sv1

-- The clients that a worker sees behind its queues.
abbrev clients_of : Server → Option (Task × Server) → ℕ → Client
clients_of sv none = sv.clients
clients_of sv (some (t, sv1)) = sv1.clients

or_else-clients :
    (sv : Server) (x y : Option (Task × Server))
    → clients_of sv x ≡ sv.clients
    → clients_of sv y ≡ sv.clients
    → clients_of sv (or_else x y) ≡ sv.clients
or_else-clients sv none y h k = k
or_else-clients sv (some r) y h k = h

taken_high-clients :
    (sv : Server) (r : Option (Task × MessageQueue)) → clients_of sv (taken_high sv r) ≡ sv.clients
taken_high-clients sv none = refl
taken_high-clients sv (some r) = refl

taken_medium-clients :
    (sv : Server) (r : Option (Task × MessageQueue))
    → clients_of sv (taken_medium sv r) ≡ sv.clients
taken_medium-clients sv none = refl
taken_medium-clients sv (some r) = refl

taken_low-clients :
    (sv : Server) (r : Option (Task × MessageQueue)) → clients_of sv (taken_low sv r) ≡ sv.clients
taken_low-clients sv none = refl
taken_low-clients sv (some r) = refl

module _ (sv : Server) where
  from_high : Option (Task × Server)
  from_high = taken_high sv (try_dequeue_task_locked sv.high_priority_queue)

  from_medium : Option (Task × Server)
  from_medium = taken_medium sv (try_dequeue_task_locked sv.medium_priority_queue)

  from_low : Option (Task × Server)
  from_low = taken_low sv (try_dequeue_task_locked sv.low_priority_queue)

  low_lem : clients_of sv from_low ≡ sv.clients
  unfolding from_low
  low_lem = taken_low-clients sv (try_dequeue_task_locked sv.low_priority_queue)

  medium_lem : clients_of sv (or_else from_medium from_low) ≡ sv.clients
  unfolding from_medium
  medium_lem =
      or_else-clients sv from_medium from_low
        (taken_medium-clients sv (try_dequeue_task_locked sv.medium_priority_queue)) low_lem

  high_lem : clients_of sv (or_else from_high (or_else from_medium from_low)) ≡ sv.clients
  unfolding from_high
  high_lem =
      or_else-clients sv from_high (or_else from_medium from_low)
        (taken_high-clients sv (try_dequeue_task_locked sv.high_priority_queue)) medium_lem

take_task-clients : (kind : Kind) (sv : Server) → clients_of sv (take_task kind sv) ≡ sv.clients
unfolding take_task from_high from_medium from_low
take_task-clients high_pri_worker sv = high_lem sv
take_task-clients mid_pri_worker sv = medium_lem sv
take_task-clients low_pri_worker sv = low_lem sv

ServerStep-AllSending :
    (sv : Server) {sv1 : Server} → ServerStep sv sv1 → AllSending sv → AllSending sv1
ServerStep-AllSending sv (accepts now answers) all = handle_accept-AllSending now answers sv all
ServerStep-AllSending sv (reads es sv1 e) all = handle_client_readable-Kept es sv all sv1 e
ServerStep-AllSending sv (writes fd answers) all =
    handle_client_writable-AllSending sv fd answers all
ServerStep-AllSending sv reaps all = reap_closed_clients-AllSending sv all
ServerStep-AllSending sv (takes kind t sv1 e) all =
    let same : sv1.clients ≡ sv.clients = sym (ap (clients_of sv) e) ∙ take_task-clients kind sv in
    λ j. subst (λ (cs : ℕ → Client). IsSending (cs j)) (sym same) (all j)
ServerStep-AllSending sv (works now t) all = process_task-AllSending sv now t all

init_server-AllSending : AllSending init_server
unfolding init_server init_client
init_server-AllSending j = record {
  inside = omega arith;
  fits = omega arith;
  free = refl;
  framed_all = tt;
}

Reached-AllSending : {sv : Server} → Reached sv → AllSending sv
Reached-AllSending at_first = init_server-AllSending
Reached-AllSending (step_on {sv} r step) = ServerStep-AllSending sv step (Reached-AllSending r)

-- In every state of the server that the handlers of the I/O thread and the workers reach, in any order
-- as whole steps and whatever the kernel and the clients do, the ring of waiting messages of every client is well
-- formed: its indices lie inside the array and agree with the count, and the buffer of each message that
-- was begun holds its frame.
pub Reached-IsSending : {sv : Server} → Reached sv → (j : ℕ) → IsSending (sv.clients j)
Reached-IsSending r j = Reached-AllSending r j
