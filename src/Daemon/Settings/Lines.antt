-- ===== src/Daemon/Settings/Lines.antt =====
-- About `read_param_config` (signal-aware-multithreaded-daemon/main.c) on files of lines.
use mini_project_of_linux_pr.Prelude.{
  ℕ, zero, suc, ◌-◌, ◌≤◌, ◌<◌, Bool, true, false, ◌==◌, if◌then◌else◌, Bool-cases, Option, none,
  some, List, [], ◌∷◌, ◌++◌, append-nil, length, take, ◌≡◌, ◌≢◌, refl, ap, ◌∙◌, inl, inr, arith,
}
use mini_project_of_linux_pr.Daemon.Settings.{
  buffer_size, newline, carriage_return, c_string, attach, tokens, drop_return, split_equals,
  skipped, entry, Param, missing, found, find_param, chosen, copied, read_param_config,
}
use mini_project_of_linux_pr.Prelude.Text.{same_text}

-- A line of a configuration file, without its end.
pub data Line : Type 0 where
  setting : List ℕ → List ℕ → Line
  comment : List ℕ → Line
  blank : Line

abbrev pub content : Line → List ℕ
content (setting name value) = name ++ b'=' ∷ value
content (comment text) = b'#' ∷ text
content blank = []

-- Lines end with a line feed, or with a carriage return and a line feed.
abbrev pub return_of : Bool → List ℕ
return_of true = carriage_return ∷ []
return_of false = []

abbrev pub print : List (Line × Bool) → List ℕ
print [] = []
print ((l, crlf) ∷ ls) = (content l ++ return_of crlf) ++ newline ∷ print ls

-- The byte does not occur.
abbrev pub Avoids : ℕ → List ℕ → Type 0
Avoids c [] = Unit
Avoids c (b ∷ s) = ((b == c) ≡ false) × Avoids c s

-- No NUL and no end of line, as a text of one line has it.
abbrev pub IsPlain : List ℕ → Type 0
IsPlain s = Avoids 0 s × Avoids newline s × Avoids carriage_return s

abbrev pub IsLine : Line → Type 0
IsLine (setting name value) =
    IsPlain name × IsPlain value × Avoids b'=' name × (skipped (name ++ b'=' ∷ value) ≡ false)
IsLine (comment text) = IsPlain text
IsLine blank = Unit

abbrev pub AllLines : List (Line × Bool) → Type 0
AllLines [] = Unit
AllLines ((l, crlf) ∷ ls) = IsLine l × AllLines ls

-- The value of the first setting with that name.
abbrev pub value_of : List ℕ → List (Line × Bool) → Option (List ℕ)
value_of param [] = none
value_of param ((setting name value, crlf) ∷ ls) =
    if same_text param name then some value else value_of param ls
value_of param ((comment text, crlf) ∷ ls) = value_of param ls
value_of param ((blank, crlf) ∷ ls) = value_of param ls

Avoids-append : (c : ℕ) (xs ys : List ℕ) → Avoids c xs → Avoids c ys → Avoids c (xs ++ ys)
Avoids-append c [] ys h k = k
Avoids-append c (x ∷ xs) ys h k = (h.0, Avoids-append c xs ys h.1 k)

c_string-whole : (s : List ℕ) → Avoids 0 s → c_string s ≡ s
unfolding c_string
c_string-whole [] h = refl
c_string-whole (b ∷ s) h = rw (h.0, c_string-whole s h.1) refl

take-whole : (n : ℕ) (s : List ℕ) → length s ≤ n → take n s ≡ s
take-whole zero [] h = refl
take-whole zero (b ∷ s) h = absurd (omega arith)
take-whole (suc n) [] h = refl
take-whole (suc n) (b ∷ s) h = ap (λ t. b ∷ t) (take-whole n s (omega arith))

-- A text of one line is one token, if it is not empty.
token-line :
    (b : ℕ) (s rest : List ℕ)
    → Avoids newline (b ∷ s)
    → tokens ((b ∷ s) ++ newline ∷ rest) ≡ (b ∷ s) ∷ tokens rest
unfolding tokens
token-line b [] rest h = rw h.0 (alone (tokens rest))
  where
    alone : (ts : List (List ℕ)) → attach b (newline ∷ rest) ts ≡ (b ∷ []) ∷ ts
    alone [] = refl
    alone (t ∷ ts) = refl
token-line b (c ∷ s) rest h = rw (h.0, token-line c s rest h.1, h.1.0) refl

drop_return-append : (s : List ℕ) → drop_return (s ++ carriage_return ∷ []) ≡ s
unfolding drop_return
drop_return-append [] = refl
drop_return-append (b ∷ []) = refl
drop_return-append (b ∷ c ∷ s) = ap (λ t. b ∷ t) (drop_return-append (c ∷ s))

drop_return-none : (s : List ℕ) → Avoids carriage_return s → drop_return s ≡ s
unfolding drop_return
drop_return-none [] h = refl
drop_return-none (b ∷ []) h = rw h.0 refl
drop_return-none (b ∷ c ∷ s) h = ap (λ t. b ∷ t) (drop_return-none (c ∷ s) h.1)

split_equals-append :
    (name value : List ℕ)
    → Avoids b'=' name
    → split_equals (name ++ b'=' ∷ value) ≡ some (name, value)
unfolding split_equals
split_equals-append [] value h = refl
split_equals-append (b ∷ name) value h = rw (h.0, split_equals-append name value h.1) refl

IsPlain-append : (xs ys : List ℕ) → IsPlain xs → IsPlain ys → IsPlain (xs ++ ys)
IsPlain-append xs ys h k = (
  Avoids-append 0 xs ys h.0 k.0,
  Avoids-append newline xs ys h.1 k.1,
  Avoids-append carriage_return xs ys h.2 k.2,
)

content-IsPlain : (l : Line) → IsLine l → IsPlain (content l)
content-IsPlain (setting name value) h =
    IsPlain-append name (b'=' ∷ value) h.0 ((refl, h.1.0), (refl, h.1.1), (refl, h.1.2))
content-IsPlain (comment text) h = ((refl, h.0), (refl, h.1), (refl, h.2))
content-IsPlain blank h = (tt, tt, tt)

return_of-Avoids :
    (c : ℕ) (crlf : Bool) → (carriage_return == c) ≡ false → Avoids c (return_of crlf)
return_of-Avoids c true h = (h, tt)
return_of-Avoids c false h = tt

stripped :
    (l : Line) (crlf : Bool) → IsLine l → drop_return (content l ++ return_of crlf) ≡ content l
stripped l true h = drop_return-append (content l)
stripped l false h =
    let (_, _, none_inside) = content-IsPlain l h in
    rw append-nil (drop_return-none (content l) none_inside)

abbrev pub as_param : Option (List ℕ) → Param
as_param none = missing
as_param (some value) = found value

token-text :
    (s rest : List ℕ) → Avoids newline s → s ≢ [] → tokens (s ++ newline ∷ rest) ≡ s ∷ tokens rest
token-text [] rest h ne = absurd (ne refl)
token-text (b ∷ s) rest h ne = token-line b s rest h

entry-line :
    (l : Line) (crlf : Bool)
    → IsLine l
    → entry (content l ++ return_of crlf)
      ≡ (if skipped (content l) then none else split_equals (content l))
unfolding entry
entry-line l crlf h = rw (stripped l crlf h) refl

append-eq-nil : (xs ys : List ℕ) → xs ++ ys ≡ [] → xs ≡ []
append-eq-nil [] ys e = refl
append-eq-nil (x ∷ xs) ys e = cc

-- A line that is not empty is one token.
token-content :
    (l : Line) (crlf : Bool) (rest : List ℕ)
    → IsLine l
    → content l ≢ []
    → tokens ((content l ++ return_of crlf) ++ newline ∷ rest)
      ≡ (content l ++ return_of crlf) ∷ tokens rest
token-content l crlf rest h ne =
    let (_, one_line, _) = content-IsPlain l h in
    token-text (content l ++ return_of crlf) rest
      (Avoids-append newline (content l) (return_of crlf) one_line
        (return_of-Avoids newline crlf refl))
      (λ e. ne (append-eq-nil (content l) (return_of crlf) e))

module _ (param : List ℕ) where
  find_param-none :
      (line : List ℕ) (lines : List (List ℕ))
      → entry line ≡ none
      → find_param param (line ∷ lines) ≡ find_param param lines
  unfolding find_param
  find_param-none line lines e =
      ap (λ (o : Option (List ℕ × List ℕ)). chosen param o (find_param param lines)) e

  find_param-some :
      (line : List ℕ) (lines : List (List ℕ)) (name value : List ℕ) (o : Option (List ℕ))
      → entry line ≡ some (name, value)
      → find_param param lines ≡ as_param o
      → find_param param (line ∷ lines) ≡ as_param (if same_text param name then some value else o)
  unfolding find_param
  find_param-some line lines name value o e ih =
      ap (λ (r : Option (List ℕ × List ℕ)). chosen param r (find_param param lines)) e
      ∙ elim (Bool-cases (same_text param name)) [
        | inl same ↦ rw same refl
        | inr other ↦ rw other ih
      ]

  find_param-line :
      (l : Line) (crlf : Bool) (rest : List ℕ) (ls : List (Line × Bool))
      → IsLine l
      → find_param param (tokens rest) ≡ as_param (value_of param ls)
      → find_param param (tokens ((content l ++ return_of crlf) ++ newline ∷ rest))
        ≡ as_param (value_of param ((l, crlf) ∷ ls))
  find_param-line (setting name value) crlf rest ls h ih =
      let l : Line = setting name value in
      let full : content l ≢ [] = λ e. cc h.3 in
      let got : entry (content l ++ return_of crlf) ≡ some (name, value) =
        entry-line l crlf h
        ∙ ap (λ (b : Bool). if b then none else split_equals (content l)) h.3
        ∙ split_equals-append name value h.2 in
      ap (find_param param) (token-content l crlf rest h full)
      ∙ find_param-some (content l ++ return_of crlf) (tokens rest) name value (value_of param ls)
          got ih
  find_param-line (comment text) crlf rest ls h ih =
      let l : Line = comment text in
      ap (find_param param) (token-content l crlf rest h (λ e. cc))
      ∙ find_param-none (content l ++ return_of crlf) (tokens rest) (entry-line l crlf h)
      ∙ ih
  find_param-line blank true rest ls h ih =
      ap (find_param param) (token-line carriage_return [] rest (refl, tt))
      ∙ find_param-none (carriage_return ∷ []) (tokens rest) (entry-line blank true tt)
      ∙ ih
  find_param-line blank false rest ls h ih = unfold tokens in ih

  find_param-print :
      (ls : List (Line × Bool))
      → AllLines ls
      → find_param param (tokens (print ls)) ≡ as_param (value_of param ls)
  unfolding find_param tokens
  find_param-print [] h = refl
  find_param-print ((l, crlf) ∷ ls) h =
      find_param-line l crlf (print ls) ls h.0 (find_param-print ls h.1)

print-Avoids : (ls : List (Line × Bool)) → AllLines ls → Avoids 0 (print ls)
print-Avoids [] h = tt
print-Avoids ((l, crlf) ∷ ls) h =
    let (text, _, _) = content-IsPlain l h.0 in
    Avoids-append 0 (content l ++ return_of crlf) (newline ∷ print ls)
      (Avoids-append 0 (content l) (return_of crlf) text (return_of-Avoids 0 crlf refl))
      (refl, print-Avoids ls h.1)

read_param_config-text :
    (param : List ℕ) (max_len : ℕ) (s : List ℕ) (o : Option (List ℕ))
    → s ≢ []
    → length s < buffer_size
    → Avoids 0 s
    → find_param param (tokens s) ≡ as_param o
    → read_param_config (some s) param max_len ≡ copied max_len (as_param o)
unfolding read_param_config
read_param_config-text param max_len [] o full short text e = absurd (full refl)
read_param_config-text param max_len (b ∷ s) o full short text e =
    let all : take (buffer_size - 1) (b ∷ s) ≡ b ∷ s = take-whole 255 (b ∷ s) (omega arith) in
    let reads : c_string (take (buffer_size - 1) (b ∷ s)) ≡ b ∷ s =
      ap c_string all ∙ c_string-whole (b ∷ s) text in
    ap (λ (t : List ℕ). copied max_len (find_param param (tokens t))) reads ∙ ap (copied max_len) e

print-full : (s rest : List ℕ) → s ++ newline ∷ rest ≢ []
print-full [] rest e = cc
print-full (b ∷ s) rest e = cc

-- On a file of at least one line and at most 255 bytes, of settings, comments and blank lines that end
-- in a line feed or in a carriage return and a line feed, `read_param_config` finds the first setting
-- of that name, and copies its value without the line's end; it finds nothing when no setting has
-- the name.
pub read_param_config-print :
    (param : List ℕ) (max_len : ℕ) (l : Line) (crlf : Bool) (ls : List (Line × Bool))
    → AllLines ((l, crlf) ∷ ls)
    → length (print ((l, crlf) ∷ ls)) < buffer_size
    → read_param_config (some (print ((l, crlf) ∷ ls))) param max_len
      ≡ copied max_len (as_param (value_of param ((l, crlf) ∷ ls)))
read_param_config-print param max_len l crlf ls h short =
    let ls1 : List (Line × Bool) = (l, crlf) ∷ ls in
    read_param_config-text param max_len (print ls1) (value_of param ls1)
      (print-full (content l ++ return_of crlf) (print ls)) (omega arith) (print-Avoids ls1 h)
      (find_param-print param ls1 h)
