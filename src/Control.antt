-- ===== src/Control.antt =====
-- unix-domain-socket-control-plane/common/common.h: the messages of the control plane, as the x86-64
-- ABI lays them out: the words of the header are little-endian and four bytes of padding follow the
-- length. `message` is the part of the array that the length counts.
pub mod Checksum
pub mod Wire
pub mod Structs
pub mod Reader
pub mod Outgoing
pub mod Tasks
pub mod Sessions
pub mod Server
pub mod Commands
pub mod Runs
use mini_project_of_linux_pr.Prelude.{
  ℕ, zero, suc, ◌+◌, ◌-◌, ◌*◌, ◌/◌, ◌%◌, ◌^◌, List, [], ◌∷◌, ◌++◌, length, take, drop, ◌==◌,
  if◌then◌else◌,
}

abbrev pub max_payload_size : ℕ
max_payload_size = 2048

abbrev pub session_token_len : ℕ
session_token_len = 64

-- `enum command`
abbrev pub get_status : ℕ
get_status = 0

abbrev pub set_status : ℕ
set_status = 1

abbrev pub get_data : ℕ
get_data = 2

abbrev pub get_config : ℕ
get_config = 3

abbrev pub set_config : ℕ
set_config = 4

abbrev pub send_control : ℕ
send_control = 5

abbrev pub shutdown_peer : ℕ
shutdown_peer = 6

abbrev pub ack : ℕ
ack = 7

abbrev pub nack : ℕ
nack = 8

abbrev pub identify : ℕ
identify = 9

-- `enum priority`
abbrev pub low : ℕ
low = 0

abbrev pub medium : ℕ
medium = 1

abbrev pub high : ℕ
high = 2

-- `struct header_message`; an `int` that is negative is a word of 2^31 or more.
pub record Header : Type 0 where
  pub cmd : ℕ
  pub pri : ℕ
  pub number_packet : ℕ
  pub length : ℕ
  pub padding : ℕ

pub record MessageControl : Type 0 where
  pub header : Header
  pub message : List ℕ
  pub checksum : ℕ

-- The bytes of a word, the lowest first, and the word that bytes are.
abbrev pub bytes_of : ℕ → ℕ → List ℕ
bytes_of zero n = []
bytes_of (suc k) n = (n % 256) ∷ bytes_of k (n / 256)

abbrev pub word_of : List ℕ → ℕ
word_of [] = 0
word_of (b ∷ s) = b + 256 * word_of s

-- `sizeof(struct header_message)` and `sizeof(uint32_t)`
abbrev pub header_bytes : ℕ
header_bytes = 24

abbrev pub checksum_bytes : ℕ
checksum_bytes = 4

unfoldable pub raw_header : Header → List ℕ
raw_header h =
    bytes_of 4 h.cmd
    ++ (bytes_of 4 h.pri
        ++ (bytes_of 8 h.number_packet ++ (bytes_of 4 h.length ++ bytes_of 4 h.padding)))

-- The header that 24 bytes in memory are.
unfoldable pub read_header : List ℕ → Header
read_header s = record {
  cmd = word_of (take 4 s);
  pri = word_of (take 4 (drop 4 s));
  number_packet = word_of (take 8 (drop 8 s));
  length = word_of (take 4 (drop 16 s));
  padding = word_of (take 4 (drop 20 s));
}

-- `sum += b[i]` over the bytes
unfoldable pub add_bytes : ℕ → List ℕ → ℕ
add_bytes sum [] = sum
add_bytes sum (b ∷ s) = add_bytes ((sum + b) % 2 ^ 32) s

-- `while (sum >> 16)`, for at most as many rounds as the fuel.
unfoldable pub fold : ℕ → ℕ → ℕ
fold zero sum = sum
fold (suc fuel) sum =
    let rest = fold fuel ((sum % 2 ^ 16 + sum / 2 ^ 16) % 2 ^ 32) in
    if sum / 2 ^ 16 == 0 then sum else rest

unfoldable pub calculate_checksum : Header → List ℕ → ℕ
unfolding raw_header add_bytes fold
calculate_checksum h message = 2 ^ 32 - 1 - fold 3 (add_bytes (add_bytes 0 (raw_header h)) message)

-- `payload` is a text without NUL.
unfoldable pub build_message : List ℕ → ℕ → ℕ → ℕ → MessageControl
build_message payload cmd pri num_packet =
    let text = take (max_payload_size - 1) payload in
    let h : Header = record {
      cmd = cmd;
      pri = pri;
      number_packet = num_packet;
      length = length text;
      padding = 0;
    } in
    record { header = h; message = text; checksum = calculate_checksum h text }

-- What goes over the socket.
unfoldable pub wire : MessageControl → List ℕ
wire m = raw_header m.header ++ (m.message ++ bytes_of 4 m.checksum)
