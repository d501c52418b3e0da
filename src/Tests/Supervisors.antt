-- ===== src/Tests/Supervisors.antt =====
-- The supervisor (process-supervisor/supervisor.c) at concrete inputs.
use mini_project_of_linux_pr.Prelude.{
  none, inl, inr, ◌+◌, ◌≤◌, true, false, some, List, [], ◌∷◌, ◌++◌, length, pos, negsuc, ◌≡◌, refl,
  arith,
}
use mini_project_of_linux_pr.Prelude.Text.{codes, same_text}
use mini_project_of_linux_pr.Supervisor.{
  Options, command, word_of, skip_space, digits, strtol, to_int, defaults, parse_arguments, expired,
  output, pipe_end, interrupted, victim, watch, Attempt, Outcome, supervise,
}
use mini_project_of_linux_pr.Supervisor.Words.{
  Setting, restarts, seconds, whole_group, words, applied, parse_arguments-words,
}
use mini_project_of_linux_pr.Supervisor.Restarts.{
  wrote_and_closed, closed_pipe_hangs, AllEnd, supervise_terminates,
}

numbers :
    (strtol (codes " 12x") ≡ pos 12)
    × (strtol (codes "-3") ≡ negsuc 2)
    × (to_int (strtol (codes "4294967298")) ≡ pos 2)
    × (strtol (codes "-g") ≡ pos 0)
unfolding strtol skip_space digits
numbers = (refl, refl, refl, refl)

abbrev settings : List Setting
settings = restarts (codes "3") ∷ whole_group ∷ seconds (codes "-g") ∷ []

a_command : word_of (codes "ls") ≡ command
unfolding word_of same_text
a_command = refl

parse_arguments-words_example :
    parse_arguments
      (codes "supervisor" ∷ codes "run" ∷ (words settings ++ codes "ls" ∷ codes "-c" ∷ []))
    ≡ (applied defaults settings, some (codes "ls" ∷ codes "-c" ∷ []))
parse_arguments-words_example =
    parse_arguments-words (codes "supervisor") (codes "run") settings (codes "ls") (codes "-c" ∷ [])
      a_command

-- A child that is killed when its time is up, and one that closes its end of the pipe.
abbrev options : Options
options = record { restart_val = pos 1; time_val = pos 0; kill_group = true; capture_out = true }

abbrev attempts : List Attempt
attempts =
    record {
      piped = true;
      child = some 5;
      events = expired ∷ interrupted false ∷ [];
      exits = false;
    }
    ∷ record {
      piped = true;
      child = some 6;
      events = output (codes "hi") ∷ pipe_end ∷ [];
      exits = true;
    }
    ∷ []

attempts-AllEnd : AllEnd options attempts
unfolding watch
attempts-AllEnd = (
  λ pid e. (record { killed = victim options pid ∷ []; running = true }, refl, inr (λ n. cc)),
  (λ pid e. (record { killed = []; running = true }, refl, inl refl), tt),
)

both_children :
    supervise options 0 true attempts
    ≡ some (record { children = 5 ∷ 6 ∷ []; killed = negsuc 4 ∷ []; sleeps = 1 })
unfolding supervise watch
both_children = refl

supervise_terminates_example :
    (out : Outcome) × (supervise options 0 true attempts ≡ some out)
    × (length out.children ≤ 1 + 1)
    × (out.sleeps ≤ 1)
supervise_terminates_example =
    supervise_terminates options 1 attempts refl (omega arith) attempts-AllEnd

abbrev runs_on : Attempt
runs_on = record {
  piped = true;
  child = some 7;
  events = wrote_and_closed (codes "bye" ∷ []) (expired ∷ []);
  exits = false;
}

closed_pipe_hangs_example : supervise options 0 true (runs_on ∷ attempts) ≡ none
closed_pipe_hangs_example =
    closed_pipe_hangs options 0 7 (codes "bye" ∷ []) (expired ∷ []) attempts refl
