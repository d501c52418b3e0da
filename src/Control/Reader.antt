-- ===== src/Control/Reader.antt =====
-- unix-domain-socket-control-plane/gatewayd/server.h: `read_stage`. What the calls of `recv` return is
-- a list of answers; an empty list is a socket with no more bytes.
pub mod Feed
pub mod Frames
use mini_project_of_linux_pr.Prelude.{
  ℕ, ◌+◌, Bool, true, false, ltb, ◌==◌, if◌then◌else◌, List, [], ◌∷◌, ◌++◌, length,
}
use mini_project_of_linux_pr.Control.{
  max_payload_size, header_bytes, checksum_bytes, MessageControl, word_of, read_header,
  calculate_checksum,
}
use mini_project_of_linux_pr.Control.Structs.{Stage, in_header, in_payload, in_checksum, Client}

-- What `recv` returned: bytes, EAGAIN, EINTR, another error, or the end of the stream.
pub data Recv : Type 0 where
  got : List ℕ → Recv
  would_block : Recv
  interrupted : Recv
  failed : Recv
  closed : Recv

-- `0`, `1`, `2` and `-1`.
pub data Result : Type 0 where
  unfinished : Result
  complete : Result
  corrupt : Result
  broken : Result

-- Whether the loop goes on.
pub data Progress : Type 0 where
  go_on : Progress
  returns : Result → Progress

abbrev pub to_close : Client → Client
to_close c = record c { pending_close = true }

-- The bytes of the current part that have been read, and those that were missing.
abbrev pub on_header : Client → List ℕ → Progress × Client
on_header c part =
    let h = read_header part in
    if ltb (length part) header_bytes
    then (returns unfinished, record c { part = part })
    else if ltb max_payload_size h.length
    then (
      returns broken,
      to_close
          (record c { part = part; message = record { header = h; message = []; checksum = 0 } }),
    )
    else (
      go_on,
      record c {
        part = [];
        message = record { header = h; message = []; checksum = 0 };
        stage = if h.length == 0 then in_checksum else in_payload;
      },
    )

abbrev pub on_payload : Client → List ℕ → Progress × Client
on_payload c part =
    let m = c.message in
    if ltb (length part) m.header.length
    then (returns unfinished, record c { part = part })
    else (go_on, record c { part = []; message = record m { message = part }; stage = in_checksum })

abbrev pub on_checksum : Client → List ℕ → Progress × Client
on_checksum c part =
    let m : MessageControl = record c.message { checksum = word_of part } in
    let next : Client = record c { part = []; message = m; stage = in_header } in
    if ltb (length part) checksum_bytes
    then (returns unfinished, record c { part = part })
    else if calculate_checksum m.header m.message == word_of part
    then (
      returns complete,
      record next { pending_task = c.pending_task + 1; packet_received = c.packet_received + 1 },
    )
    else (returns corrupt, next)

abbrev pub on_part : Stage → Client → List ℕ → Progress × Client
on_part in_header c part = on_header c part
on_part in_payload c part = on_payload c part
on_part in_checksum c part = on_checksum c part

unfoldable pub on_recv : Client → Recv → Progress × Client
on_recv c (got s) = on_part c.stage c (c.part ++ s)
on_recv c would_block = (returns unfinished, c)
on_recv c interrupted = (go_on, c)
on_recv c failed = (returns broken, to_close c)
on_recv c closed = (returns broken, to_close c)

-- The result, the client, and the answers that are left.
abbrev pub Stopped : Type 0
Stopped = Result × Client × List Recv

-- A round of the loop; `rest` is the rounds that follow.
abbrev pub after_recv : Progress × Client → List Recv → (Client → Stopped) → Stopped
after_recv (go_on, c) answers rest = rest c
after_recv (returns r, c) answers rest = (r, c, answers)

-- The loop ends with the first frame, so that its limit of frames is never met.
unfoldable pub read_stage : List Recv → Client → Stopped
unfolding on_recv
read_stage [] c = if c.pending_close then (broken, c, []) else (unfinished, c, [])
read_stage (a ∷ answers) c =
    if c.pending_close
    then (broken, c, a ∷ answers)
    else after_recv (on_recv c a) answers (read_stage answers)
