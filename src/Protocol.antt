-- ===== src/Protocol.antt =====
-- gateway/src/protocol_message.c and gateway/include/protocol_message.h: the byte order of the
-- protocol, its packets and its error packets. A pointer `buffer + k` is a buffer and an offset.
pub mod Words
pub mod Packet
use mini_project_of_linux_pr.Prelude.{
  ℕ, zero, suc, ◌+◌, ◌-◌, ◌*◌, ◌/◌, ◌%◌, ◌^◌, Bool, true, false, Option, none, some, List, [], ◌∷◌,
  ◌==◌, ltb, leb, ◌&&◌, ◌||◌, if◌then◌else◌, ◌>>=◌, bit_or,
}
use mini_project_of_linux_pr.Types.{Buffer, max_payload}
use mini_project_of_linux_pr.Crc.{crc_calculate}

abbrev pub protocol_magic : ℕ
protocol_magic = 0xFFAABBCC

abbrev pub protocol_version : ℕ
protocol_version = 1

abbrev pub crc_size : ℕ
crc_size = 4

abbrev pub header_size : ℕ
header_size = 16

-- `enum read_stage`
pub data ReadStage : Type 0 where
  read_header : ReadStage
  read_payload : ReadStage
  read_crc : ReadStage

pub record HeaderPacket : Type 0 where
  pub magic : ℕ
  pub version : ℕ
  pub type : ℕ
  pub length : ℕ
  pub request_id : ℕ

-- `enum err_code`
pub data ErrCode : Type 0 where
  err_unknown_type : ErrCode
  err_bad_magic : ErrCode
  err_bad_version : ErrCode
  err_payload_too_large : ErrCode
  err_crc_mismatch : ErrCode
  err_rate_limit : ErrCode
  err_server_busy : ErrCode
  err_server_full : ErrCode
  err_timeout : ErrCode
  err_bad_json : ErrCode

abbrev pub err_number : ErrCode → ℕ
err_number err_unknown_type = 1
err_number err_bad_magic = 2
err_number err_bad_version = 3
err_number err_payload_too_large = 4
err_number err_crc_mismatch = 5
err_number err_rate_limit = 6
err_number err_server_busy = 7
err_number err_server_full = 8
err_number err_timeout = 9
err_number err_bad_json = 10

-- `enum message_type`
abbrev pub msg_echo : ℕ
msg_echo = 1

abbrev pub msg_status : ℕ
msg_status = 2

abbrev pub msg_get_sensor : ℕ
msg_get_sensor = 4

abbrev pub msg_set_actuator : ℕ
msg_set_actuator = 0x10

abbrev pub msg_response : ℕ
msg_response = 0x8001

abbrev pub msg_error : ℕ
msg_error = 0x8002

-- `buffer[i] = v`
abbrev pub put : Buffer → ℕ → ℕ → Buffer
put buffer i v j = if j == i then v else buffer j

-- `memcpy(dst + d, src + s, n)`
abbrev pub copy : Buffer → ℕ → Buffer → ℕ → ℕ → Buffer
copy dst d src s n j = if leb d j && ltb j (d + n) then src (s + (j - d)) else dst j

-- the `n` bytes from offset `off` on
abbrev pub slice : Buffer → ℕ → ℕ → List ℕ
slice buffer off zero = []
slice buffer off (suc n) = buffer off ∷ slice buffer (off + 1) n

-- A value stored in a `uint8_t` is taken modulo 256.
unfoldable pub encode_16_bit : Buffer → ℕ → ℕ → Buffer
encode_16_bit buffer off v = put (put buffer off (v / 2 ^ 8 % 256)) (off + 1) (v % 256)

unfoldable pub encode_32_bit : Buffer → ℕ → ℕ → Buffer
encode_32_bit buffer off v =
    put
      (put (put (put buffer off (v / 2 ^ 24 % 256)) (off + 1) (v / 2 ^ 16 % 256)) (off + 2)
        (v / 2 ^ 8 % 256))
      (off + 3) (v % 256)

unfoldable pub decode_16_bit : Buffer → ℕ → ℕ
decode_16_bit buffer off = bit_or (buffer off * 2 ^ 8 % 2 ^ 16) (buffer (off + 1))

unfoldable pub decode_32_bit : Buffer → ℕ → ℕ
decode_32_bit buffer off =
    bit_or
      (bit_or (bit_or (buffer off * 2 ^ 24 % 2 ^ 32) (buffer (off + 1) * 2 ^ 16 % 2 ^ 32))
        (buffer (off + 2) * 2 ^ 8 % 2 ^ 32))
      (buffer (off + 3))

-- The header that `packet_encode` writes.
unfoldable pub encode_header : Buffer → ℕ → ℕ → ℕ → Buffer
encode_header buffer type length request_id =
    let b1 = encode_32_bit buffer 0 protocol_magic in
    let b2 = encode_16_bit b1 4 protocol_version in
    let b3 = encode_16_bit b2 6 type in
    let b4 = encode_32_bit b3 8 length in encode_32_bit b4 12 request_id

-- `none` is -1, with nothing written. The total length is a sum of 32-bit words.
unfoldable pub packet_encode : Option Buffer → ℕ → ℕ → ℕ → Buffer → ℕ → Option Buffer
unfolding encode_header
packet_encode none size type request_id payload length = none
packet_encode (some buffer) size type request_id payload length =
    let total_len = (length + header_size + crc_size) % 2 ^ 32 in
    if ltb size total_len || ltb max_payload length
    then none
    else (let b5 = encode_header buffer type length request_id in
        let b6 = if ltb 0 length then copy b5 header_size payload 0 length else b5 in
        let crc = crc_calculate (slice b6 header_size length) in
        some (encode_32_bit b6 (header_size + length) crc))

-- `packet_buf` is what `malloc` returned; the result is the packet and its size.
unfoldable pub build_error_packet : Option Buffer → ℕ → ℕ → Option (Buffer × ℕ)
unfolding packet_encode
build_error_packet packet_buf request_id err_code =
    let payload_len : ℕ = 1 in
    let total_size = header_size + payload_len + crc_size in
    do
      packet ←
          packet_encode packet_buf total_size msg_error request_id (λ _. err_code % 256) payload_len
      some (packet, total_size)
