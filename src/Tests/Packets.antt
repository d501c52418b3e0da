-- ===== src/Tests/Packets.antt =====
-- The checksum (gateway/src/crc.c) and the packets (gateway/src/protocol_message.c) at concrete
-- inputs.
use mini_project_of_linux_pr.Prelude.{ℕ, ◌+◌, ◌≤◌, some, ◌≡◌, ◌≢◌, arith, List, [], ◌∷◌}
use mini_project_of_linux_pr.Types.{Buffer}
use mini_project_of_linux_pr.Crc.{crc_loop, crc_calculate, all_ones}
use mini_project_of_linux_pr.Crc.Bitwise.{AllBytes, crc_bits, crc_loop-crc_bits}
use mini_project_of_linux_pr.Crc.Detects.{crc_detects_one_byte}
use mini_project_of_linux_pr.Protocol.{packet_encode, header_size, crc_size}
use mini_project_of_linux_pr.Protocol.Packet.{IsPacket, packet_encode-IsPacket}

-- "ab"
abbrev text : List ℕ
text = 97 ∷ 98 ∷ []

text-AllBytes : AllBytes text
text-AllBytes = (omega arith, (omega arith, tt))

crc_loop-crc_bits_example : crc_loop all_ones text ≡ crc_bits all_ones text
crc_loop-crc_bits_example = crc_loop-crc_bits all_ones text text-AllBytes

crc_detects_one_byte_example : crc_calculate (97 ∷ 98 ∷ []) ≢ crc_calculate (97 ∷ 99 ∷ [])
crc_detects_one_byte_example =
    crc_detects_one_byte (97 ∷ []) [] 98 99 text-AllBytes (omega arith) (omega arith)

abbrev zeros : Buffer
zeros i = 0

abbrev letters : Buffer
letters i = 97

packet_encode-IsPacket_example :
    (out : Buffer) × (packet_encode (some zeros) 22 0x8001 7 letters 2 ≡ some out)
    × IsPacket out 0x8001 7 letters 2
    × ((j : ℕ) → 2 + header_size + crc_size ≤ j → out j ≡ zeros j)
packet_encode-IsPacket_example =
    packet_encode-IsPacket zeros letters 22 0x8001 7 2 (omega arith) (omega arith) (omega arith)
      (omega arith) (λ i h. omega arith)
