-- ===== src/Server/Read.antt =====
-- The rest of `client_read_message` (gateway/src/server.c): the error packets and the task that a
-- request becomes.
pub mod Served
use mini_project_of_linux_pr.Prelude.{
  ℕ, ◌+◌, Bool, true, false, Option, none, some, List, [], ◌∷◌, ◌==◌, if◌then◌else◌, ◌>>=◌, ℤ, pos,
  minus_one, get_elem?, set,
}
use mini_project_of_linux_pr.Heap.{Ptr, null, Heap, free}
use mini_project_of_linux_pr.Types.{Status, ok, failed, again, Task, Buffer}
use mini_project_of_linux_pr.Queue.Task.{TaskQueue, push}
use mini_project_of_linux_pr.Protocol.{
  read_header, HeaderPacket, ErrCode, err_number, err_crc_mismatch, build_error_packet,
  decode_16_bit, decode_32_bit,
}
use mini_project_of_linux_pr.Client.{Client, enqueue_message, fd_to_slot, build_task}
use mini_project_of_linux_pr.Reader.{
  Read, Outcome, code_failed, code_closed, code_again, bad_header, bad_crc, packet_ready, read_loop,
  decode_header,
}
use mini_project_of_linux_pr.Server.Defs.{Server, Given, set_client}

-- `push(&sv->tasks, t)`, and the task freed if the queue refuses it
unfoldable pub queue_task : TaskQueue → Ptr → Heap Task → Option (TaskQueue × Heap Task)
queue_task q t h = if t == null then some (q, h) else do
  (s, q1, h1) ← push q t h
  elim s [ ok ↦ some (q1, h1) | _ ↦ do h2 ← free h1 t; some (q1, h2) ]

module _ {R : Type 0} where
  -- `client->stage = READ_HEADER; client->rx_len = 0;`
  abbrev pub restart : Client R → Client R
  restart c = record c { stage = read_header; rx_len = 0 }

  -- `enqueue_message(client, err_packet, size)`, whose result the caller drops
  unfoldable pub queue_packet :
      Server R → ℕ → Client R → Option Buffer → ℕ → Given → Option (Server R)
  queue_packet sv slot c packet size given = do
    (s, c1, h) ← enqueue_message c packet size given.data_send sv.transmit_heap
    some (record sv { clients = set sv.clients slot c1; transmit_heap = h })

  -- The header was refused.
  unfoldable pub answer_header :
      Server R → ℕ → Client R → HeaderPacket → ErrCode → Given → Option (ℤ × Server R)
  answer_header sv slot c header e given =
      elim (build_error_packet given.packet_buf header.request_id (err_number e)) [
        | none ↦ some (minus_one, set_client sv slot c)
        | some (packet, size) ↦ do
          sv1 ← queue_packet sv slot (restart c) (some packet) size given
          some (pos 2, sv1)
      ]

  -- The checksum was wrong.
  unfoldable pub answer_crc : Server R → ℕ → Client R → Given → Option (ℤ × Server R)
  answer_crc sv slot c given =
      elim (build_error_packet given.packet_buf (decode_32_bit c.data_receive 12)
        (err_number err_crc_mismatch)) [
          | none ↦ some (pos 2, set_client sv slot (restart c))
          | some (packet, size) ↦ do
            sv1 ← queue_packet sv slot (restart c) (some packet) size given
            some (pos 2, sv1)
        ]

  -- The packet is whole and sound.
  unfoldable pub accept_packet : Server R → ℕ → Client R → Given → Option (ℤ × Server R)
  accept_packet sv slot c given = do
    let header = decode_header c.data_receive
    let owner = fd_to_slot (set sv.clients slot c) c.fd
    let (t, h) = build_task c header owner given.task given.raw given.now sv.task_heap
    (q, h1) ← queue_task sv.tasks t h
    some (
      pos 0,
      record sv {
        clients = set sv.clients slot (record (restart c) { last_active_ms = given.later });
        tasks = q;
        task_heap = h1;
      },
    )

  unfoldable pub client_read_message :
      Server R → ℕ → List Read → Given → Option (ℤ × Server R × List Read)
  unfolding answer_header answer_crc accept_packet
  client_read_message sv slot answers given = do
    c ← get_elem? sv.clients slot
    (c1, out, left) ← read_loop answers c
    (code, sv1) ← elim out [
      | code_failed ↦ some (minus_one, set_client sv slot c1)
      | code_closed ↦ some (pos 1, set_client sv slot c1)
      | code_again ↦ some (pos 3, set_client sv slot c1)
      | bad_header header e ↦ answer_header sv slot c1 header e given
      | bad_crc ↦ answer_crc sv slot c1 given
      | packet_ready ↦ accept_packet sv slot c1 given
    ]
    some (code, sv1, left)
