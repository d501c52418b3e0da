-- ===== src/Tests/Reading.antt =====
-- The reader and the handlers of gateway/src/server.c at concrete inputs.
use mini_project_of_linux_pr.Prelude.{
  ℕ, ◌+◌, ◌≤◌, ◌<◌, true, false, none, some, ◌≡◌, ◌≢◌, false, refl, arith, inl, List, [], ◌∷◌, pos,
  set,
}
use mini_project_of_linux_pr.Heap.{Ptr, has, null, Heap, node, write}
use mini_project_of_linux_pr.Types.{Buffer, ok, Task, Response}
use mini_project_of_linux_pr.Queue.Task.{TaskQueue, push}
use mini_project_of_linux_pr.Protocol.{read_header, packet_encode, slice}
use mini_project_of_linux_pr.Protocol.Packet.{IsPacket, packet_encode-IsPacket}
use mini_project_of_linux_pr.Client.{Client, occupy, vacate, fd_to_slot}
use mini_project_of_linux_pr.Reader.{
  Read, got, interrupted, packet_ready, remain, read_round, read_loop, rx_buf_cap,
}
use mini_project_of_linux_pr.Reader.Bounds.{Asks, at_once, again, remain_fits}
use mini_project_of_linux_pr.Reader.Stream.{Feeds, HasPrefix, SameClient, read_loop_reads}
use mini_project_of_linux_pr.Server.{Server, Given}
use mini_project_of_linux_pr.Server.Read.{client_read_message}
use mini_project_of_linux_pr.Server.Read.Served.{IsTaskOf, client_read_message_queues}
use mini_project_of_linux_pr.Server.Respond.{deliver}
use mini_project_of_linux_pr.Client.Outbox.{IsOutbox, message}
use mini_project_of_linux_pr.Client.{Transmit}
use mini_project_of_linux_pr.Server.Respond.Current.{SameButOutbox, deliver_appends}
use mini_project_of_linux_pr.Server.Respond.Stale.{start, accept, close, stale_response_dropped}

abbrev zeros : Buffer
zeros i = 0

abbrev letters : Buffer
letters i = 97

abbrev reader : Client ℕ
reader = record {
  fd = pos 9;
  generation = 4;
  alive = true;
  rate = 0;
  stage = read_header;
  data_receive = zeros;
  rx_len = 0;
  tail = null;
  head = null;
  bytes_need_to_send = 0;
  addr = 0;
  last_active_ms = 0;
  ssl = some 1;
  tls_handshake_done = true;
  tls_read_pending = false;
}

-- an echo request of two bytes
abbrev request :
    (out : Buffer) × (packet_encode (some zeros) 22 1 7 letters 2 ≡ some out)
    × IsPacket out 1 7 letters 2
    × ((j : ℕ) → 22 ≤ j → out j ≡ zeros j)
request =
    packet_encode-IsPacket zeros letters 22 1 7 2 (omega arith) (omega arith) (omega arith)
      (omega arith) (λ i h. omega arith)

-- the header in one piece, an interruption, and the rest
abbrev pieces : List Read
pieces = got (slice request.0 0 16) ∷ interrupted ∷ got (slice request.0 16 6) ∷ []

pieces-Feeds : Feeds request.0 22 0 pieces
pieces-Feeds = (omega arith, omega arith, refl, (omega arith, omega arith, refl, refl))

-- the reader once the first bytes of a header are there, and after an interruption
abbrev first_bytes : List ℕ
first_bytes = 0xFF ∷ 0xAA ∷ 0xBB ∷ 0xCC ∷ 0 ∷ []

abbrev behind_first : Client ℕ
behind_first = (read_round (read_round reader (got first_bytes)).0 interrupted).0

behind_first-Asks : Asks reader behind_first
unfolding read_round
behind_first-Asks =
    again interrupted (again (got first_bytes) at_once (omega arith, omega arith) refl) tt refl

remain_fits_example :
    (0 < remain behind_first) × (behind_first.rx_len + remain behind_first ≤ rx_buf_cap)
remain_fits_example = remain_fits reader behind_first refl refl behind_first-Asks

reader-HasPrefix : HasPrefix request.0 0 reader
reader-HasPrefix = record { count = refl; same = λ j h. absurd (omega arith); stage = refl }

read_loop_reads_example :
    (c' : Client ℕ) × (left : List Read) × (read_loop pieces reader ≡ some (c', packet_ready, left))
    × ((j : ℕ) → j < 22 → c'.data_receive j ≡ request.0 j)
    × SameClient reader c'
read_loop_reads_example =
    read_loop_reads request.2 (inl refl) (omega arith) pieces 0 reader reader-HasPrefix
      (omega arith) pieces-Feeds

abbrev raw : Task
raw = record {
  slot = pos 0;
  task_id = 0;
  generation = 0;
  type = 0;
  request_id = 0;
  payload = zeros;
  timeout_ms = 0;
  length = 0;
}

abbrev server : Server ℕ
server = record {
  listen_fd = pos 3;
  broadcast_fd = pos 4;
  event_fd = pos 5;
  epoll_fd = pos 6;
  clients = reader ∷ [];
  tasks = record { head = null; tail = null; size = 0; max_size = 1024; shutdown = false };
  response = record { head = null; tail = null; size = 0; max_size = 1024 };
  shutdown = false;
  task_heap = λ p. none;
  response_heap = λ p. none;
  transmit_heap = λ p. none;
}

abbrev given : Given
given = record { packet_buf = none; data_send = null; task = 1; raw = raw; now = 10; later = 11 }

client_read_message_queues_example :
    (t : Task) × (q : TaskQueue) × (h : Heap Task) × (c' : Client ℕ) × (left : List Read) × IsTaskOf
      reader 0 1 7 2 letters 10 t
    × (push server.tasks 1 (write server.task_heap 1 (some (node t null))) ≡ some (ok, q, h))
    × (client_read_message server 0 pieces given
        ≡ some (
          pos 0,
          record server { clients = set server.clients 0 c'; tasks = q; task_heap = h },
          left,
        ))
    × (c'.rx_len ≡ 0)
    × (c'.stage ≡ read_header)
    × (c'.last_active_ms ≡ 11)
unfolding fd_to_slot
client_read_message_queues_example =
    client_read_message_queues request.2 (inl refl) (omega arith) server 0 reader pieces given refl
      refl reader-HasPrefix pieces-Feeds (omega arith) refl (omega arith) (inl refl) (omega arith)

abbrev next : Client ℕ
next = occupy (vacate reader) (pos 9) 1 20 0

abbrev late : Response
late = record {
  slot = pos 0;
  generation = 4;
  type = 0x8001;
  request_id = 7;
  length = 2;
  payload = letters;
}

stale_response_dropped_example :
    deliver (record server { clients = next ∷ [] }) late (some zeros, 3)
    ≡ some (record server { clients = next ∷ [] })
stale_response_dropped_example =
    stale_response_dropped (record server { clients = next ∷ [] }) 0 late (some zeros, 3) reader
      next 1 (accept (pos 9) 1 20 0 (close start)) (omega arith) (omega arith) (omega arith) refl
      refl refl

deliver_appends_example :
    (out : Buffer) × (g : Heap Transmit) × (c' : Client ℕ) × IsPacket out 0x8001 7 letters 2
    × (deliver server late (some zeros, 3)
        ≡ some (record server { clients = set server.clients 0 c'; transmit_heap = g }))
    × IsOutbox g c' ((3, message out 22) ∷ [])
    × SameButOutbox 22 reader c'
    × ((a : Ptr) → a ≢ 3 → has {A = Transmit} a [] ≡ false → g a ≡ server.transmit_heap a)
deliver_appends_example =
    deliver_appends server 0 late zeros 3 reader [] (omega arith) refl refl refl refl (omega arith)
      (omega arith) (omega arith) (λ i h. omega arith)
      (record { links = tt; head = refl; tail = refl }) (omega arith) refl
