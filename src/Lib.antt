-- ===== src/Lib.antt =====
-- A model of four programs of the repository: the IoT gateway in gateway/, a TCP server with TLS that
-- reads framed requests, queues them as tasks for worker threads, and sends the workers' responses back
-- to the clients; the daemon in signal-aware-multithreaded-daemon/, whose signal thread queues jobs for
-- workers; the server of unix-domain-socket-control-plane/, which reads framed commands over a local
-- socket, puts them into three queues by priority, and answers through a queue for each client; and the
-- supervisor in process-supervisor/, which starts a command again and again.
--
-- In the gateway one network thread owns the slots of the clients. It reads packets
-- (`client_read_message`), turns each into a task and pushes it on the task queue. Workers pop
-- tasks, ask the hardware, and push responses on the response queue. The network thread takes those
-- and puts each on the list of messages of the client that still waits for it, and sends the lists
-- when a socket is writable.
--
-- Files:
--   Prelude   Boolean tests, lists, texts (Text), arrays used as rings (Ring), the signed integers of
--             the program, bitwise operations
--   Heap      C memory for one type of linked node, and the lists that are built in it
--   Types     constants and structures (gateway/include/common.h, gateway/include/queue.h)
--   Queue     gateway/src/queue.c: `push`, `pop` and the rest keep their names; Fifo is what a
--             bounded queue promises
--   Crc       gateway/src/crc.c; Bitwise has the checksum by polynomial division
--   Protocol  gateway/src/protocol_message.c and gateway/include/protocol_message.h
--   Client    gateway/src/client.c: the slots, the waiting messages (Outbox), the sender with TLS (Send)
--             and the one without (Plain)
--   Reader    gateway/src/server.c: `check_header` and the read loop of `client_read_message`
--   Server    gateway/src/server.c: the rest of `client_read_message` (Read), the delivery of
--             responses (Respond), and the handlers that open, serve and close connections
--             (Connections); gateway/src/worker_thread.c: `main_thread` (Events)
--   Worker    gateway/src/worker_thread.c: what a worker makes of a task
--   Daemon    signal-aware-multithreaded-daemon/main.c: the ring of jobs (Ring), the configuration file
--             (Settings), the worker and signal threads as steps on a shared state (Threads)
--   Control   unix-domain-socket-control-plane/common/common.h: messages, checksum (Checksum) and layout
--             (Wire); gatewayd/server.h: the structures (Structs), `read_stage` (Reader), the waiting
--             messages (Outgoing), the sessions (Sessions), the handlers of the I/O thread (Server) and
--             `process_task` (Commands); gatewayd/server.c: the worker threads (Tasks), and all handlers
--             as steps (Runs)
--   Supervisor  process-supervisor/supervisor.c: the arguments (Words) and the restarts (Restarts)
--   Tests     the theorems at concrete inputs
--
-- How the code is translated. A pointer is a number, 0 is NULL, and a heap maps pointers to nodes;
-- `none` stands for a fault, an access through NULL, through freed memory or outside an array. A
-- byte buffer is a function from the index to the byte. `size_t` and `uint32_t` arithmetic keeps
-- its wrap-around; the lengths that are added to `rx_len` are bounded by the buffer. Calls under a
-- mutex are one step. What the kernel, OpenSSL, `malloc` and the clock answer is an argument: a
-- list of answers for a loop of calls, a field of a record for a single one. The gateway is read
-- with ENABLE_TLS, as gateway/include/common.h sets it, and the sender of the other build is
-- modelled beside it; the control plane is read with epoll.
--
-- Bounds and fuel. The loops over waiting messages run on fuel: it must exceed the number of
-- messages, and the theorems that give a result assume no more than that. The loop of
-- `handle_response_to_client` has one more round than the response queue counts. The read loop runs
-- on the list of answers, and `none` means that they ran out. The loop of the control plane's
-- `calculate_checksum` has three rounds, which are enough for any sum of 32 bits.
--
-- Not modelled: gateway/src/payload_json.c and gateway/src/task_execute.c are the records
-- `Payloads` and `Devices` that a worker takes; gateway/src/rate_limit.c is the argument `allow` of
-- `handle_request_client`, since it computes in doubles. Of the daemon the inotify thread and
-- `main`, of the control plane `IO_thread`, `sig_thread`, `main` and the command line client.
-- Sockets, epoll, signals, the log, and the programs in gateway-core-posix/, ipc-cmd-pipeline/,
-- safe-config-tool/ and system-V-ipc-sensorhub/.
pub mod Prelude
pub mod Heap
pub mod Types
pub mod Queue
pub mod Crc
pub mod Protocol
pub mod Client
pub mod Reader
pub mod Server
pub mod Supervisor
pub mod Worker
pub mod Daemon
pub mod Control
pub mod Tests
