-- ===== src/Daemon/Settings.antt =====
-- signal-aware-multithreaded-daemon/main.c: reading the configuration file. A text in memory is the
-- list of its bytes without the closing NUL; an array is the list of all its bytes. Opening, locking
-- and reading the file are the environment's.
pub mod Lines
use mini_project_of_linux_pr.Prelude.{
  ℕ, zero, suc, ◌+◌, ◌-◌, ◌*◌, ◌^◌, Bool, true, false, ◌&&◌, ◌||◌, ◌==◌, ltb, leb, if◌then◌else◌,
  Option, none, some, ◌>>=◌, List, [], ◌∷◌, ℤ, pos, negsuc, take,
}
use mini_project_of_linux_pr.Daemon.{Config}
use mini_project_of_linux_pr.Prelude.Text.{codes, same_text}

abbrev pub buffer_size : ℕ
buffer_size = 256

abbrev pub newline : ℕ
newline = 10

abbrev pub carriage_return : ℕ
carriage_return = 13

-- The text that starts an array, up to its NUL.
unfoldable pub c_string : List ℕ → List ℕ
c_string [] = []
c_string (b ∷ s) = if b == 0 then [] else b ∷ c_string s

-- `strncpy`: exactly `n` bytes, the missing ones NUL.
unfoldable pub strncpy : ℕ → List ℕ → List ℕ
strncpy zero s = []
strncpy (suc n) [] = 0 ∷ strncpy n []
strncpy (suc n) (b ∷ s) = b ∷ strncpy n s

-- A byte before the tokens of what follows it.
abbrev pub attach : ℕ → List ℕ → List (List ℕ) → List (List ℕ)
attach b (c ∷ s) (t ∷ ts) = if c == newline then (b ∷ []) ∷ t ∷ ts else (b ∷ t) ∷ ts
attach b s ts = (b ∷ []) ∷ ts

-- What the calls of `strtok_r(..., "\n", ...)` find one after the other: the lines that are not
-- empty.
unfoldable pub tokens : List ℕ → List (List ℕ)
tokens [] = []
tokens (b ∷ s) = if b == newline then tokens s else attach b s (tokens s)

-- `if (len > 0 && p[len-1] == '\r') p[len-1] = '\0'`
unfoldable pub drop_return : List ℕ → List ℕ
drop_return [] = []
drop_return (b ∷ []) = if b == carriage_return then [] else b ∷ []
drop_return (b ∷ c ∷ s) = b ∷ drop_return (c ∷ s)

-- `strchr(p, '=')`: what stands before and behind it.
unfoldable pub split_equals : List ℕ → Option (List ℕ × List ℕ)
split_equals [] = none
split_equals (b ∷ s) =
    if b == b'=' then some ([], s) else do (name, value) ← split_equals s; some (b ∷ name, value)

abbrev pub skipped : List ℕ → Bool
skipped [] = true
skipped (b ∷ s) = b == b'#'

-- The name and the value of a line.
unfoldable pub entry : List ℕ → Option (List ℕ × List ℕ)
unfolding drop_return split_equals
entry line = let p = drop_return line in if skipped p then none else split_equals p

-- `-1`, `0`, or `1` with the value.
pub data Param : Type 0 where
  failed : Param
  missing : Param
  found : List ℕ → Param

-- What a line makes of the search in the lines behind it.
abbrev pub chosen : List ℕ → Option (List ℕ × List ℕ) → Param → Param
chosen param none rest = rest
chosen param (some (name, value)) rest = if same_text param name then found value else rest

-- The loop over the lines.
unfoldable pub find_param : List ℕ → List (List ℕ) → Param
find_param param [] = missing
find_param param (line ∷ lines) = chosen param (entry line) (find_param param lines)

abbrev pub copied : ℕ → Param → Param
copied max_len (found value) = found (strncpy max_len value)
copied max_len missing = missing
copied max_len failed = failed

-- What the file holds; `none` when it cannot be opened, locked or read.
abbrev pub File : Type 0
File = Option (List ℕ)

-- `found` gives the array `out_value`, `max_len` bytes of it.
unfoldable pub read_param_config : File → List ℕ → ℕ → Param
unfolding c_string tokens entry same_text find_param strncpy
read_param_config none param max_len = failed
read_param_config (some []) param max_len = failed
read_param_config (some (b ∷ s)) param max_len =
    copied max_len (find_param param (tokens (c_string (take (buffer_size - 1) (b ∷ s)))))

abbrev pub is_digit : ℕ → Bool
is_digit b = leb b'0' b && leb b b'9'

abbrev pub is_space : ℕ → Bool
is_space b = b == b' ' || leb 9 b && leb b 13

unfoldable pub skip_space : List ℕ → List ℕ
skip_space [] = []
skip_space (b ∷ s) = if is_space b then skip_space s else b ∷ s

-- `none` when the digits run over the end of the array.
unfoldable pub read_digits : ℕ → List ℕ → Option ℕ
read_digits value [] = none
read_digits value (b ∷ s) =
    if is_digit b then read_digits (value * 10 + (b - b'0')) s else some value

-- The value of type `int`, if it has one.
abbrev pub to_int : Bool → ℕ → Option ℤ
to_int true zero = some (pos 0)
to_int true (suc n) = if ltb n (2 ^ 31) then some (negsuc n) else none
to_int false n = if ltb n (2 ^ 31) then some (pos n) else none

abbrev pub signed : List ℕ → Option ℤ
signed [] = none
signed (b ∷ s) =
    if b == b'-'
    then read_digits 0 s >>= to_int true
    else read_digits 0 (if b == b'+' then s else b ∷ s) >>= to_int false

-- `atoi` on an array; `none` where C leaves the result undefined: no end of the number inside the
-- array, or a number that is no `int`.
unfoldable pub atoi : List ℕ → Option ℤ
unfolding skip_space read_digits
atoi s = signed (skip_space s)

abbrev pub sample_rate_param : List ℕ
sample_rate_param = codes "sample_rate"

abbrev pub delay_param : List ℕ
delay_param = codes "delay"

abbrev pub log_level_param : List ℕ
log_level_param = codes "log_level"

-- `sizeof(val)` and `sizeof(log_level)`
abbrev pub val_size : ℕ
val_size = 64

abbrev pub log_level_size : ℕ
log_level_size = 32

-- A number from the file, or the default.
abbrev pub number_or : ℤ → Param → Option ℤ
number_or default (found val) = atoi val
number_or default failed = some default
number_or default missing = some default

-- `strncpy` into `log_level`, which ends in a NUL that is written last.
abbrev pub level_or : List ℕ → Param → List ℕ
level_or default (found val) = take (log_level_size - 1) (c_string val)
level_or default failed = default
level_or default missing = default

-- `get_file_config`: the file is read three times, and may have changed in between.
unfoldable pub get_file_config : File → File → File → Option Config
unfolding read_param_config atoi c_string
get_file_config f g h = do
  sample_rate ← number_or (pos 1000) (read_param_config f sample_rate_param val_size)
  woker_delay ← number_or (pos 500) (read_param_config g delay_param val_size)
  some (record {
    sample_rate = sample_rate;
    woker_delay = woker_delay;
    log_level = level_or (codes "INFO") (read_param_config h log_level_param val_size);
  })
