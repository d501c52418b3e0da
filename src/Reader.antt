-- ===== src/Reader.antt =====
-- Reading requests: `check_header` and `client_read_message` (gateway/src/server.c), with ENABLE_TLS.
-- What `SSL_read` answers to the calls is a list; each round of the loop takes one. The loop stands
-- apart from what follows it: `read_loop` reads until the packet is complete or wrong, and the rest
-- of the function acts on the server.
pub mod Bounds
pub mod Stream
pub mod Keeps
use mini_project_of_linux_pr.Prelude.{
  ℕ, zero, suc, ◌+◌, ◌-◌, ◌%◌, ◌^◌, Bool, true, false, Option, none, some, List, [], ◌∷◌, ◌==◌, ltb,
  leb, ◌&&◌, ◌||◌, not, if◌then◌else◌, ◌>>=◌, length,
}
use mini_project_of_linux_pr.Types.{Buffer, max_payload}
use mini_project_of_linux_pr.Crc.{crc_calculate}
use mini_project_of_linux_pr.Protocol.{
  ReadStage, read_header, read_payload, read_crc, HeaderPacket, ErrCode, err_unknown_type,
  err_bad_magic, err_bad_version, err_payload_too_large, err_crc_mismatch, protocol_magic,
  protocol_version, header_size, crc_size, msg_echo, msg_status, msg_get_sensor, msg_set_actuator,
  put, slice, decode_16_bit, decode_32_bit,
}
use mini_project_of_linux_pr.Client.{Client}

-- RX_BUF_CAP, the size of `data_receive`
abbrev pub rx_buf_cap : ℕ
rx_buf_cap = 8192

-- `none` is 0, a header that is accepted.
unfoldable pub check_header : HeaderPacket → Option ErrCode
check_header h =
    if not (h.magic == protocol_magic)
    then some err_bad_magic
    else if not (h.version == protocol_version)
    then some err_bad_version
    else if ltb max_payload h.length
    then some err_payload_too_large
    else if not (h.type == msg_echo)
        && not (h.type == msg_status)
        && not (h.type == msg_get_sensor)
        && not (h.type == msg_set_actuator)
    then some err_unknown_type
    else none

-- The header that the function decodes from the first 16 bytes.
unfoldable pub decode_header : Buffer → HeaderPacket
decode_header buffer = record {
  magic = decode_32_bit buffer 0;
  version = decode_16_bit buffer 4;
  type = decode_16_bit buffer 6;
  length = decode_32_bit buffer 8;
  request_id = decode_32_bit buffer 12;
}

-- One answer of `SSL_read`: bytes, 0, or a negative result with its `errno`.
pub data Read : Type 0 where
  got : List ℕ → Read
  closed : Read
  interrupted : Read
  would_block : Read
  broken : Read

-- The bytes are written from offset `o` on.
abbrev pub receive : Buffer → ℕ → List ℕ → Buffer
receive buffer o [] = buffer
receive buffer o (b ∷ bs) = receive (put buffer o b) (o + 1) bs

-- How the loop ends: with a return code, or with a packet that is to be answered or queued.
pub data Outcome : Type 0 where
  code_failed : Outcome
  code_closed : Outcome
  code_again : Outcome
  bad_header : HeaderPacket → ErrCode → Outcome
  bad_crc : Outcome
  packet_ready : Outcome

module _ {R : Type 0} where
  -- `total_needed` of the payload stage
  abbrev pub total_needed : Client R → ℕ
  total_needed c = decode_32_bit c.data_receive 8 + header_size + crc_size

  -- The number of bytes that the loop asks `SSL_read` for; `size_t` subtraction wraps.
  abbrev pub remain : Client R → ℕ
  remain c = elim c.stage [
    | read_header ↦ (2 ^ 64 + header_size - c.rx_len) % 2 ^ 64
    | read_payload ↦ (2 ^ 64 + total_needed c - c.rx_len) % 2 ^ 64
    | read_crc ↦ 0
  ]

  abbrev pub received : Client R → List ℕ → Client R
  received c bytes = record c {
    data_receive = receive c.data_receive c.rx_len bytes;
    rx_len = c.rx_len + length bytes;
  }

  -- What follows once the 16 bytes of a header are there.
  unfoldable pub header_done : Client R → Client R × Option Outcome
  header_done c =
      let header = decode_header c.data_receive in
      elim (check_header header) [
        | some e ↦ (c, some (bad_header header e))
        | none ↦ (record c { stage = read_payload }, none)
      ]

  -- What follows once the whole packet is there.
  unfoldable pub payload_done : Client R → Outcome
  payload_done c =
      let length = decode_32_bit c.data_receive 8 in
      let crc_rev = decode_32_bit c.data_receive (header_size + length) in
      let crc_cal = crc_calculate (slice c.data_receive header_size length) in
      if crc_rev == crc_cal then packet_ready else bad_crc

  -- One round of the loop on what `SSL_read` answered; `none` goes round again.
  unfoldable pub read_round : Client R → Read → Client R × Option Outcome
  read_round c interrupted = (c, none)
  read_round c would_block = (c, some code_again)
  read_round c broken = (c, some code_failed)
  read_round c closed = (record c { alive = false }, some code_closed)
  read_round c (got bytes) =
      let c1 = received c bytes in
      elim c.stage [
        | read_header ↦ if ltb c1.rx_len header_size then (c1, none) else header_done c1
        | read_payload ↦
            if ltb c1.rx_len (total_needed c1) then (c1, none) else (c1, some (payload_done c1))
        | read_crc ↦ (c, some code_failed)
      ]

  -- The loop, and the answers that it leaves. It is still reading when they run out. In the stage
  -- READ_CRC it fails before it reads.
  unfoldable pub read_loop : List Read → Client R → Option (Client R × Outcome × List Read)
  read_loop [] c = none
  read_loop (r ∷ rs) c =
      let (c1, out) = read_round c r in
      let stuck : Option (Client R × Outcome × List Read) = some (c, code_failed, r ∷ rs) in
      let next : Option (Client R × Outcome × List Read) = elim out [
        | none ↦ read_loop rs c1
        | some o ↦ some (c1, o, rs)
      ] in
      elim c.stage [ read_crc ↦ stuck | _ ↦ next ]
