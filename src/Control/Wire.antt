-- ===== src/Control/Wire.antt =====
-- About the layout of messages (unix-domain-socket-control-plane/common/common.h).
use mini_project_of_linux_pr.Prelude.{ℕ, ◌^◌, ◌≤◌, ◌<◌, length, ◌≡◌, refl, arith}
use mini_project_of_linux_pr.Control.{
  max_payload_size, Header, MessageControl, bytes_of, word_of, raw_header, read_header,
  calculate_checksum,
}
use mini_project_of_linux_pr.Control.Checksum.{AllBytes}

-- What the words of a header hold.
pub record IsHeader (h : Header) : Type 0 where
  pub cmd : h.cmd < 2 ^ 32
  pub pri : h.pri < 2 ^ 32
  pub number_packet : h.number_packet < 2 ^ 64
  pub length : h.length < 2 ^ 32
  pub padding : h.padding < 2 ^ 32

pub word_of-bytes_of_4 : (n : ℕ) → n < 2 ^ 32 → word_of (bytes_of 4 n) ≡ n
word_of-bytes_of_4 n h = omega arith

word_of-bytes_of_8 : (n : ℕ) → n < 2 ^ 64 → word_of (bytes_of 8 n) ≡ n
word_of-bytes_of_8 n h = omega arith

pub read_header-raw_header : (h : Header) → IsHeader h → read_header (raw_header h) ≡ h
unfolding read_header raw_header
read_header-raw_header h v =
    rw
      (
        word_of-bytes_of_4 h.cmd v.cmd,
        word_of-bytes_of_4 h.pri v.pri,
        word_of-bytes_of_8 h.number_packet v.number_packet,
        word_of-bytes_of_4 h.length v.length,
        word_of-bytes_of_4 h.padding v.padding,
      )
      refl

-- A message that the receiver accepts.
pub record IsMessage (m : MessageControl) : Type 0 where
  pub header : IsHeader m.header
  pub counted : m.header.length ≡ length m.message
  pub short : length m.message ≤ max_payload_size
  pub bytes : AllBytes m.message
  pub checked : m.checksum ≡ calculate_checksum m.header m.message
