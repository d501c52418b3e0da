-- ===== src/Crc.antt =====
-- gateway/src/crc.c: the table-driven CRC-32 of the protocol. `table_rd` makes `crc_calculate` build
-- the table on its first call only; the table is a constant here.
pub mod Bitwise
pub mod Detects
use mini_project_of_linux_pr.Prelude.{
  ℕ, zero, suc, ◌/◌, ◌%◌, List, [], ◌∷◌, ◌==◌, if◌then◌else◌, bit_xor, get_or,
}

-- 0xEDB88320, the reflected polynomial
abbrev pub polynomial : ℕ
polynomial = 0xEDB88320

abbrev pub all_ones : ℕ
all_ones = 0xFFFFFFFF

-- One round of the inner loop of `build_table`: `c & 1` is `c % 2`, `c >> 1` is `c / 2`.
unfoldable pub round : ℕ → ℕ
round c = if c % 2 == 1 then bit_xor polynomial (c / 2) else c / 2

-- The inner loop of `build_table` with `j` rounds left.
unfoldable pub rounds : ℕ → ℕ → ℕ
unfolding round
rounds zero c = c
rounds (suc j) c = rounds j (round c)

-- The outer loop of `build_table`: the entries from `i` on, `n` of them.
unfoldable pub build_table : ℕ → ℕ → List ℕ
unfolding rounds
build_table zero i = []
build_table (suc n) i = rounds 8 i ∷ build_table n (suc i)

unfoldable pub crc_table : List ℕ
unfolding build_table
crc_table = build_table 256 0

-- One turn of the loop of `crc_calculate`: `& 0xFF` is `% 256`, `>> 8` is `/ 256`.
unfoldable pub crc_update : ℕ → ℕ → ℕ
unfolding crc_table
crc_update crc byte = bit_xor (get_or crc_table (bit_xor crc byte % 256) 0) (crc / 256)

unfoldable pub crc_loop : ℕ → List ℕ → ℕ
unfolding crc_update
crc_loop crc [] = crc
crc_loop crc (byte ∷ bytes) = crc_loop (crc_update crc byte) bytes

unfoldable pub crc_calculate : List ℕ → ℕ
unfolding crc_loop
crc_calculate bytes = bit_xor (crc_loop all_ones bytes) all_ones
