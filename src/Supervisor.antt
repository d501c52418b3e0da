-- ===== src/Supervisor.antt =====
-- process-supervisor/supervisor.c. What `pipe`, `fork`, `pselect` and `waitpid` give is an argument: a
-- list of attempts, each with the list of what `pselect` and `read` report, and whether the child
-- ends. The signals are blocked outside `pselect`, so that `is_running` changes only where it returns
-- with EINTR. `restart_time` has no bound here; the `int` holds it unless `restart_val` is INT_MAX.
pub mod Words
pub mod Restarts
use mini_project_of_linux_pr.Prelude.{
  ℕ, zero, suc, ◌+◌, ◌-◌, ◌*◌, ◌%◌, ◌^◌, Bool, true, false, not, ◌&&◌, ◌||◌, ltb, leb, ◌==◌,
  if◌then◌else◌, Option, none, some, List, [], ◌∷◌, ◌++◌, drop, ℤ, pos, negsuc,
}
use mini_project_of_linux_pr.Prelude.Text.{codes, same_text}

abbrev pub timeout_default : ℕ
timeout_default = 5

abbrev is_digit : ℕ → Bool
is_digit b = leb 48 b && leb b 57

abbrev is_space : ℕ → Bool
is_space b = b == 32 || leb 9 b && leb b 13

unfoldable pub skip_space : List ℕ → List ℕ
skip_space [] = []
skip_space (b ∷ s) = if is_space b then skip_space s else b ∷ s

unfoldable pub digits : ℕ → List ℕ → ℕ
digits value [] = value
digits value (b ∷ s) =
    let rest = digits (value * 10 + (b - 48)) s in if is_digit b then rest else value

-- A `long`, with what is out of its range cut off, of a sign and an amount.
abbrev pub as_long : Bool → ℕ → ℤ
as_long true zero = pos 0
as_long true (suc n) = if ltb n (2 ^ 63) then negsuc n else negsuc (2 ^ 63 - 1)
as_long false n = if ltb n (2 ^ 63) then pos n else pos (2 ^ 63 - 1)

abbrev pub signed : List ℕ → ℤ
signed [] = pos 0
signed (b ∷ s) =
    if b == 45
    then as_long true (digits 0 s)
    else as_long false (digits 0 (if b == 43 then s else b ∷ s))

-- `strtol(s, NULL, 10)`
unfoldable pub strtol : List ℕ → ℤ
unfolding skip_space digits
strtol s = signed (skip_space s)

-- The `int` of a word of 32 bits, and that of a `long`.
abbrev pub of_word : ℕ → ℤ
of_word w = if ltb w (2 ^ 31) then pos w else negsuc (2 ^ 32 - 1 - w)

abbrev pub to_int : ℤ → ℤ
to_int (pos n) = of_word (n % 2 ^ 32)
to_int (negsuc n) = of_word (2 ^ 32 - 1 - n % 2 ^ 32)

pub record Options : Type 0 where
  pub restart_val : ℤ
  pub time_val : ℤ
  pub kill_group : Bool
  pub capture_out : Bool

-- What an argument is.
pub data Word : Type 0 where
  restart : Word
  timeout : Word
  group : Word
  capture : Word
  command : Word

abbrev pub restart_word : List ℕ
restart_word = codes "--restart"

abbrev pub timeout_word : List ℕ
timeout_word = codes "--timeout"

abbrev pub group_word : List ℕ
group_word = codes "-g"

abbrev pub capture_word : List ℕ
capture_word = codes "-c"

unfoldable pub word_of : List ℕ → Word
unfolding same_text
word_of a =
    if same_text a restart_word
    then restart
    else if same_text a timeout_word
    then timeout
    else if same_text a group_word
    then group
    else if same_text a capture_word
    then capture
    else command

-- The loop over the arguments: the options, and the command with its arguments, if there is one.
unfoldable pub parse : Options → List (List ℕ) → Options × Option (List (List ℕ))
unfolding word_of strtol
parse o [] = (o, none)
parse o (a ∷ []) = elim (word_of a) [
  | group ↦ (record o { kill_group = true }, none)
  | capture ↦ (record o { capture_out = true }, none)
  | restart ↦ (o, some (a ∷ []))
  | timeout ↦ (o, some (a ∷ []))
  | command ↦ (o, some (a ∷ []))
]
parse o (a ∷ v ∷ args) = elim (word_of a) [
  | restart ↦ parse (record o { restart_val = to_int (strtol v) }) args
  | timeout ↦ parse (record o { time_val = strtol v }) args
  | group ↦ parse (record o { kill_group = true }) (v ∷ args)
  | capture ↦ parse (record o { capture_out = true }) (v ∷ args)
  | command ↦ (o, some (a ∷ v ∷ args))
]

abbrev pub defaults : Options
defaults = record { restart_val = pos 0; time_val = pos 0; kill_group = false; capture_out = false }

-- The loop starts at `argv[2]`.
unfoldable pub parse_arguments : List (List ℕ) → Options × Option (List (List ℕ))
unfolding parse
parse_arguments argv = parse defaults (drop 2 argv)

-- The seconds that `pselect` waits.
abbrev pub seconds : Options → ℤ
seconds o = elim o.time_val [
  | pos zero ↦ pos timeout_default
  | pos (suc n) ↦ pos (suc n)
  | negsuc n ↦ pos timeout_default
]

-- What a round of the inner loop meets: the time is up; bytes, the end of the pipe or an error from
-- `read`; a signal, which stops the supervisor or does not; another error of `pselect`.
pub data Event : Type 0 where
  expired : Event
  output : List ℕ → Event
  pipe_end : Event
  read_failed : Event
  interrupted : Bool → Event
  select_failed : Event

-- Whom `kill` is sent to.
abbrev pub victim : Options → ℕ → ℤ
victim o zero = pos 0
victim o (suc n) = if o.kill_group then negsuc n else pos (suc n)

-- How the inner loop ends: the victims of SIGKILL, and `is_running`.
pub record Watched : Type 0 where
  pub killed : List ℤ
  pub running : Bool

abbrev pub and_killed : ℤ → Option Watched → Option Watched
and_killed x none = none
and_killed x (some w) = some (record w { killed = x ∷ w.killed })

-- `none` is a loop that has not ended.
unfoldable pub watch : Options → ℕ → List Event → Option Watched
watch o pid [] = none
watch o pid (expired ∷ events) = and_killed (victim o pid) (watch o pid events)
watch o pid (output s ∷ events) = watch o pid events
watch o pid (pipe_end ∷ events) = some (record { killed = []; running = true })
watch o pid (read_failed ∷ events) = watch o pid events
watch o pid (interrupted stop ∷ events) =
    some (record { killed = if stop then victim o pid ∷ [] else []; running = not stop })
watch o pid (select_failed ∷ events) = watch o pid events

-- Whether `pipe` gives a pipe, the child of `fork`, the events of the child, and whether it ends when
-- it is not killed: without that `waitpid` waits for ever.
pub record Attempt : Type 0 where
  pub piped : Bool
  pub child : Option ℕ
  pub events : List Event
  pub exits : Bool

-- The children that were started and have ended, the victims of SIGKILL, and the calls of `sleep`.
pub record Outcome : Type 0 where
  pub children : List ℕ
  pub killed : List ℤ
  pub sleeps : ℕ

abbrev pub nothing_more : Outcome
nothing_more = record { children = []; killed = []; sleeps = 0 }

-- `restart_time <= restart_val`
abbrev pub within : ℕ → ℤ → Bool
within n (pos r) = leb n r
within n (negsuc r) = false

abbrev pub and_then : ℕ → Watched → ℕ → Option Outcome → Option Outcome
and_then pid w slept none = none
and_then pid w slept (some out) = some (record {
  children = pid ∷ out.children;
  killed = w.killed ++ out.killed;
  sleeps = slept + out.sleeps;
})

-- Whether `waitpid` returns: the child ends, or was sent SIGKILL.
abbrev pub reaped : Bool → List ℤ → Bool
reaped exits [] = exits
reaped exits (x ∷ killed) = true

-- A round of the outer loop with a child; `rest` is the rounds that follow.
abbrev pub after_child :
    Options → ℕ → ℕ → Bool → Option Watched → (ℕ → Bool → Option Outcome) → Option Outcome
after_child o n pid exits none rest = none
after_child o n pid exits (some w) rest =
    let slept = if within (n + 1) o.restart_val && w.running then 1 else 0 in
    let later = and_then pid w slept (rest (n + 1) w.running) in
    if reaped exits w.killed then later else none

abbrev pub on_attempt :
    Options → ℕ → Attempt → Option ℕ → (ℕ → Bool → Option Outcome) → Option Outcome
on_attempt o n a none rest = some nothing_more
on_attempt o n a (some pid) rest =
    if o.capture_out && not a.piped
    then some nothing_more
    else after_child o n pid a.exits (watch o pid a.events) rest

-- The outer loop, from a `restart_time` and `is_running`; `none` when it has not ended.
unfoldable pub supervise : Options → ℕ → Bool → List Attempt → Option Outcome
unfolding watch
supervise o n running [] = if within n o.restart_val && running then none else some nothing_more
supervise o n running (a ∷ attempts) =
    if within n o.restart_val && running
    then on_attempt o n a a.child (λ m b. supervise o m b attempts)
    else some nothing_more
