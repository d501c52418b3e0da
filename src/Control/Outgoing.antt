-- ===== src/Control/Outgoing.antt =====
-- unix-domain-socket-control-plane/gatewayd/server.h: the messages that wait for a client, a ring of
-- 16 cells with the oldest at `send_tail`. What the calls of `send` return is a list of answers; an
-- empty list is a socket that takes nothing more. Pointers are never NULL here.
pub mod Bytes
pub mod Streams
pub mod Queue
use mini_project_of_linux_pr.Prelude.{
  ℕ, ◌+◌, ◌-◌, ◌%◌, Bool, true, false, ltb, ◌==◌, if◌then◌else◌, Option, none, some, List, [], ◌∷◌,
  ◌++◌, length, take, drop,
}
use mini_project_of_linux_pr.Prelude.Ring.{store}
use mini_project_of_linux_pr.Control.{MessageControl, wire, header_bytes, checksum_bytes}
use mini_project_of_linux_pr.Control.Structs.{num_packet_to_send, Outgoing, Client}

unfoldable pub advance_send_queue : Client → Client
advance_send_queue c = record c {
  send_tail = (c.send_tail + 1) % num_packet_to_send;
  send_count = c.send_count - 1;
}

-- A full queue loses its oldest message.
unfoldable pub queue_client : Client → MessageControl → Client
unfolding advance_send_queue
queue_client c m =
    let c1 = if c.send_count == 16 then advance_send_queue c else c in
    record c1 {
      send_queue =
          store c1.send_queue c1.send_head
            (record (c1.send_queue c1.send_head) { msg = m; bytes_sent = 0 });
      send_head = (c1.send_head + 1) % 16;
      send_count = c1.send_count + 1;
    }

unfoldable pub dequeue_client : Client → Option (MessageControl × Client)
dequeue_client c =
    if c.send_count == 0 then none else some ((c.send_queue c.send_tail).msg, advance_send_queue c)

-- What `send` returned: a number of bytes, EAGAIN, EINTR, or an error or 0.
pub data Sent : Type 0 where
  accepted : ℕ → Sent
  full : Sent
  interrupted : Sent
  refused : Sent

-- `1`, `0` and `-1`.
pub data Status : Type 0 where
  all_sent : Status
  later : Status
  send_failed : Status

-- The loop, from an offset of the buffer: how it ends, at which offset, and the bytes that went out.
unfoldable pub send_loop : ℕ → List ℕ → ℕ → List Sent → Status × ℕ × List ℕ
send_loop total buf offset [] = (if ltb offset total then later else all_sent, offset, [])
send_loop total buf offset (accepted n ∷ answers) =
    let (st, stop, out) = send_loop total buf (offset + n) answers in
    if ltb offset total then (st, stop, take n (drop offset buf) ++ out) else (all_sent, offset, [])
send_loop total buf offset (full ∷ answers) =
    (if ltb offset total then later else all_sent, offset, [])
send_loop total buf offset (interrupted ∷ answers) =
    let rest = send_loop total buf offset answers in
    if ltb offset total then rest else (all_sent, offset, [])
send_loop total buf offset (refused ∷ answers) =
    (if ltb offset total then send_failed else all_sent, offset, [])

-- The oldest message as the loop leaves it: the offset is kept only when the rest is for later.
abbrev pub left_at : Status → Outgoing → ℕ → Outgoing
left_at later out offset = record out { bytes_sent = offset }
left_at all_sent out offset = out
left_at send_failed out offset = out

abbrev pub after_send : Status → Client → Client
after_send all_sent c = advance_send_queue c
after_send later c = c
after_send send_failed c = c

-- The frame is put together when the first of its bytes is sent.
abbrev pub framed : Outgoing → Outgoing
framed out = if out.bytes_sent == 0 then record out { wire_buf = wire out.msg } else out

-- The call when a message waits.
unfoldable pub send_oldest : List Sent → Client → Status × Client × List ℕ
unfolding send_loop
send_oldest answers c =
    let out = framed (c.send_queue c.send_tail) in
    let total = header_bytes + length out.msg.message + checksum_bytes in
    let (st, offset, bytes) = send_loop total out.wire_buf out.bytes_sent answers in
    (
      st,
      after_send st
          (record c { send_queue = store c.send_queue c.send_tail (left_at st out offset) }),
      bytes,
    )

unfoldable pub send_message_chunk : List Sent → Client → Status × Client × List ℕ
send_message_chunk answers c =
    if c.send_count == 0 then (all_sent, c, []) else send_oldest answers c
