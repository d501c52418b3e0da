-- ===== src/Supervisor/Words.antt =====
-- About the arguments of process-supervisor/supervisor.c.
use mini_project_of_linux_pr.Prelude.{ℕ, true, some, List, [], ◌∷◌, ◌++◌, ◌≡◌, refl, ◌∙◌}
use mini_project_of_linux_pr.Prelude.Text.{same_text}
use mini_project_of_linux_pr.Supervisor.{
  to_int, strtol, Options, command, restart_word, timeout_word, group_word, capture_word, word_of,
  parse, defaults, parse_arguments,
}

-- An option of the command line.
pub data Setting : Type 0 where
  restarts : List ℕ → Setting
  seconds : List ℕ → Setting
  whole_group : Setting
  captured : Setting

abbrev pub words : List Setting → List (List ℕ)
words [] = []
words (restarts v ∷ ss) = restart_word ∷ v ∷ words ss
words (seconds v ∷ ss) = timeout_word ∷ v ∷ words ss
words (whole_group ∷ ss) = group_word ∷ words ss
words (captured ∷ ss) = capture_word ∷ words ss

-- The last option of a kind counts.
abbrev pub applied : Options → List Setting → Options
applied o [] = o
applied o (restarts v ∷ ss) = applied (record o { restart_val = to_int (strtol v) }) ss
applied o (seconds v ∷ ss) = applied (record o { time_val = strtol v }) ss
applied o (whole_group ∷ ss) = applied (record o { kill_group = true }) ss
applied o (captured ∷ ss) = applied (record o { capture_out = true }) ss

parse_group :
    (o : Options) (args : List (List ℕ))
    → parse o (group_word ∷ args) ≡ parse (record o { kill_group = true }) args
unfolding parse word_of same_text
parse_group o [] = refl
parse_group o (v ∷ args) = refl

parse_capture :
    (o : Options) (args : List (List ℕ))
    → parse o (capture_word ∷ args) ≡ parse (record o { capture_out = true }) args
unfolding parse word_of same_text
parse_capture o [] = refl
parse_capture o (v ∷ args) = refl

parse_command :
    (o : Options) (name : List ℕ) (args : List (List ℕ))
    → word_of name ≡ command
    → parse o (name ∷ args) ≡ (o, some (name ∷ args))
unfolding parse
parse_command o name [] h = rw (h, parse) refl
parse_command o name (v ∷ args) h = rw (h, parse) refl

parse-words :
    (o : Options) (ss : List Setting) (name : List ℕ) (args : List (List ℕ))
    → word_of name ≡ command
    → parse o (words ss ++ name ∷ args) ≡ (applied o ss, some (name ∷ args))
unfolding parse word_of same_text
parse-words o [] name args h = parse_command o name args h
parse-words o (restarts v ∷ ss) name args h =
    parse-words (record o { restart_val = to_int (strtol v) }) ss name args h
parse-words o (seconds v ∷ ss) name args h =
    parse-words (record o { time_val = strtol v }) ss name args h
parse-words o (whole_group ∷ ss) name args h =
    parse_group o (words ss ++ name ∷ args)
    ∙ parse-words (record o { kill_group = true }) ss name args h
parse-words o (captured ∷ ss) name args h =
    parse_capture o (words ss ++ name ∷ args)
    ∙ parse-words (record o { capture_out = true }) ss name args h

-- Options in any number and order, written behind the first two words of the command line and followed
-- by a command whose name is no option, are read back with the last value of each, whatever text a
-- value is, and the command keeps all its arguments, also those that look like options.
pub parse_arguments-words :
    (program mode : List ℕ) (ss : List Setting) (name : List ℕ) (args : List (List ℕ))
    → word_of name ≡ command
    → parse_arguments (program ∷ mode ∷ (words ss ++ name ∷ args))
      ≡ (applied defaults ss, some (name ∷ args))
unfolding parse_arguments
parse_arguments-words program mode ss name args h = parse-words defaults ss name args h
