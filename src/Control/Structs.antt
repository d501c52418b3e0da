-- ===== src/Control/Structs.antt =====
-- unix-domain-socket-control-plane/gatewayd/server.h: its structures. The locks are in the steps: what
-- a function does under a lock is one step.
use mini_project_of_linux_pr.Prelude.{ℕ, Bool, Option, List, ℤ}
use mini_project_of_linux_pr.Control.{MessageControl}

abbrev pub capacity : ℕ
capacity = 1024

abbrev pub num_packet_to_send : ℕ
num_packet_to_send = 16

abbrev pub fd_setsize : ℕ
fd_setsize = 1024

-- `struct client_session`; `token` is the text in the array.
pub record Session : Type 0 where
  pub in_use : Bool
  pub token : List ℕ
  pub client_id : ℕ
  pub packets_in_total : ℕ
  pub packets_out_total : ℕ
  pub first_seen_ms : ℕ
  pub last_seen_ms : ℕ
  pub reconnect_count : ℕ

pub record SessionTable : Type 0 where
  pub sessions : List Session
  pub next_persistent_id : ℕ

-- `enum read_stage`
pub data Stage : Type 0 where
  in_header : Stage
  in_payload : Stage
  in_checksum : Stage

pub record Outgoing : Type 0 where
  pub msg : MessageControl
  pub wire_buf : List ℕ
  pub bytes_sent : ℕ

-- `struct client`; `part` holds the bytes of the header, the payload or the checksum that have been
-- read, so that `bytes_read` is its length, and `session` is an index of the table.
pub record Client : Type 0 where
  pub fd : ℤ
  pub connected : Bool
  pub connection_id : ℕ
  pub generation : ℕ
  pub session : Option ℕ
  pub stage : Stage
  pub message : MessageControl
  pub part : List ℕ
  pub pending_close : Bool
  pub pending_task : ℕ
  pub last_active : ℕ
  pub connected_at : ℕ
  pub packet_sent : ℕ
  pub packet_received : ℕ
  pub send_queue : ℕ → Outgoing
  pub send_head : ℕ
  pub send_tail : ℕ
  pub send_count : ℕ

pub record Task : Type 0 where
  pub fd : ℤ
  pub client_generation : ℕ
  pub connection_id : ℕ
  pub message : MessageControl

pub record MessageQueue : Type 0 where
  pub tasks : ℕ → Task
  pub head : ℕ
  pub tail : ℕ
  pub count : ℕ

pub record Server : Type 0 where
  pub clients : ℕ → Client
  pub table : SessionTable
  pub next_client_id : ℕ
  pub num_clients : ℕ
  pub high_priority_queue : MessageQueue
  pub medium_priority_queue : MessageQueue
  pub low_priority_queue : MessageQueue
  pub shutdown : Bool
