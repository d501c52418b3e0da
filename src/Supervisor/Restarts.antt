-- ===== src/Supervisor/Restarts.antt =====
-- About the restarts of process-supervisor/supervisor.c.
use mini_project_of_linux_pr.Prelude.{
  ℤ, ◌≢◌, ◌⊎◌, ℕ, suc, ◌+◌, ◌≤◌, ◌<◌, Bool, true, false, not, ◌&&◌, if◌then◌else◌, Bool-cases,
  Option, none, some, List, [], ◌∷◌, ◌++◌, length, pos, ◌≡◌, refl, sym, ap, subst, ◌∙◌, inl, inr,
  arith,
}
use mini_project_of_linux_pr.Supervisor.{
  reaped, Event, output, pipe_end, Options, Watched, watch, Attempt, Outcome, nothing_more, within,
  and_then, after_child, on_attempt, supervise,
}

-- The inner loop of an attempt ends, and so does its child, by itself or because it was killed.
abbrev pub Ends : Options → Attempt → Type 0
Ends o a =
    (pid : ℕ)
    → a.child ≡ some pid
    → (w : Watched) × (watch o pid a.events ≡ some w) × ((a.exits ≡ true) ⊎ (w.killed ≢ []))

abbrev pub AllEnd : Options → List Attempt → Type 0
AllEnd o [] = Unit
AllEnd o (a ∷ attempts) = Ends o a × AllEnd o attempts

-- What is left of `r` restarts when `n` children have ended.
abbrev Bounded : ℕ → ℕ → Option Outcome → Type 0
Bounded r n x =
    (out : Outcome) × (x ≡ some out) × (length out.children + n ≤ suc r) × (out.sleeps + n ≤ r)

module _ (o : Options) (r : ℕ) (val : o.restart_val ≡ pos r) where
  and_then-Bounded :
      (n pid : ℕ) (w : Watched) (rest : ℕ → Bool → Option Outcome)
      → n ≤ r
      → (within (n + 1) o.restart_val ≡ false → (b : Bool) → rest (n + 1) b ≡ some nothing_more)
      → (n + 1 ≤ r → (b : Bool) → Bounded r (n + 1) (rest (n + 1) b))
      → Bounded r n (
          and_then pid w
            (if within (n + 1) o.restart_val && w.running then 1 else 0)
            (rest (n + 1) w.running))
  and_then-Bounded n pid w rest le over more = elim (Bool-cases (within (n + 1) o.restart_val)) [
    | inl again ↦
        (let left : n + 1 ≤ r = ground (arith, val, again) in
          let (out, e, children, sleeps) = more left w.running in
          (
            record {
              children = pid ∷ out.children;
              killed = w.killed ++ out.killed;
              sleeps = (if within (n + 1) o.restart_val && w.running then 1 else 0) + out.sleeps;
            },
            ap (and_then pid w (if within (n + 1) o.restart_val && w.running then 1 else 0)) e,
            omega arith,
            ground arith,
          ))
    | inr last ↦ (
      record {
        children = pid ∷ [];
        killed = w.killed ++ [];
        sleeps = (if within (n + 1) o.restart_val && w.running then 1 else 0) + 0;
      },
      ap (and_then pid w (if within (n + 1) o.restart_val && w.running then 1 else 0))
          (over last w.running),
      omega arith,
      ground arith,
    )
  ]

  reaped_lem :
      (exits : Bool) (killed : List ℤ) → (exits ≡ true) ⊎ (killed ≢ []) → reaped exits killed ≡ true
  reaped_lem exits [] (inl e) = e
  reaped_lem exits [] (inr ne) = absurd (ne refl)
  reaped_lem exits (x ∷ killed) ends = refl

  after_child-Bounded :
      (n pid : ℕ) (exits : Bool) (w : Watched) (rest : ℕ → Bool → Option Outcome)
      → n ≤ r
      → (exits ≡ true) ⊎ (w.killed ≢ [])
      → (within (n + 1) o.restart_val ≡ false → (b : Bool) → rest (n + 1) b ≡ some nothing_more)
      → (n + 1 ≤ r → (b : Bool) → Bounded r (n + 1) (rest (n + 1) b))
      → Bounded r n (after_child o n pid exits (some w) rest)
  after_child-Bounded n pid exits w rest le ends over more =
      subst
        (λ (b : Bool). Bounded r n (
          if b
          then and_then pid w (if within (n + 1) o.restart_val && w.running then 1 else 0)
              (rest (n + 1) w.running)
          else none))
        (sym (reaped_lem exits w.killed ends)) (and_then-Bounded n pid w rest le over more)

  over_lem :
      (n : ℕ) (b : Bool) (attempts : List Attempt)
      → within n o.restart_val ≡ false
      → supervise o n b attempts ≡ some nothing_more
  unfolding supervise
  over_lem n b [] h = rw h refl
  over_lem n b (a ∷ attempts) h = rw h refl

  on_attempt-Bounded :
      (n : ℕ) (a : Attempt) (rest : ℕ → Bool → Option Outcome)
      → n ≤ r
      → Ends o a
      → (within (n + 1) o.restart_val ≡ false → (b : Bool) → rest (n + 1) b ≡ some nothing_more)
      → (n + 1 ≤ r → (b : Bool) → Bounded r (n + 1) (rest (n + 1) b))
      → (c : Option ℕ) → a.child ≡ c
      → Bounded r n (on_attempt o n a c rest)
  on_attempt-Bounded n a rest le ends over more none e =
      (nothing_more, refl, omega arith, omega arith)
  on_attempt-Bounded n a rest le ends over more (some pid) e =
      elim (Bool-cases (o.capture_out && not a.piped)) [
        | inl lost ↦
            subst (Bounded r n) (ap (λ (t : Bool). with_pipe t (watch o pid a.events)) (sym lost))
              (nothing_more, refl, omega arith, omega arith)
        | inr there ↦
            (let (w, ended, gone) = ends pid e in
              subst (Bounded r n)
                (ap (with_pipe false) (sym ended)
                  ∙ ap (λ (t : Bool). with_pipe t (watch o pid a.events)) (sym there))
                (after_child-Bounded n pid a.exits w rest le gone over more))
      ]
    where
      with_pipe : Bool → Option Watched → Option Outcome
      with_pipe t x = if t then some nothing_more else after_child o n pid a.exits x rest

  supervise-Bounded :
      (attempts : List Attempt) (n : ℕ) (b : Bool)
      → n ≤ r
      → r < n + length attempts
      → AllEnd o attempts
      → Bounded r n (supervise o n b attempts)
  unfolding supervise
  supervise-Bounded [] n b le enough all = absurd (omega arith)
  supervise-Bounded (a ∷ attempts) n b le enough all =
      let round : Bool → Option Outcome = λ t.
        if t
        then on_attempt o n a a.child (λ m c. supervise o m c attempts)
        else some nothing_more in
      elim (Bool-cases (within n o.restart_val && b)) [
        | inl on ↦ subst (Bounded r n) (ap round (sym on)) (
            on_attempt-Bounded n a (λ m c. supervise o m c attempts) le all.0
              (λ h c. over_lem (n + 1) c attempts h)
              (λ left c. supervise-Bounded attempts (n + 1) c left (omega arith) all.1) a.child
              refl)
        | inr off ↦
            subst (Bounded r n) (ap round (sym off)) (nothing_more, refl, omega arith, omega arith)
      ]

-- With `restart_val` not negative, when the inner loop of every attempt ends and every child ends too, by
-- itself or because the inner loop killed it, the supervisor ends, after at most one child more than
-- `restart_val` and at most `restart_val` pauses, whatever `pipe`, `fork` and the signals do; as many
-- attempts as that are enough.
pub supervise_terminates :
    (o : Options) (r : ℕ) (attempts : List Attempt)
    → o.restart_val ≡ pos r
    → r < length attempts
    → AllEnd o attempts
    → (out : Outcome) × (supervise o 0 true attempts ≡ some out)
      × (length out.children ≤ r + 1)
      × (out.sleeps ≤ r)
supervise_terminates o r attempts val enough all =
    let (out, e, children, sleeps) =
      supervise-Bounded o r val attempts 0 true (omega arith) (omega (arith, enough)) all in
    (out, e, omega arith, omega arith)

-- Bytes from the child, again and again, until its end of the pipe is closed.
abbrev pub wrote_and_closed : List (List ℕ) → List Event → List Event
wrote_and_closed [] later = pipe_end ∷ later
wrote_and_closed (s ∷ ss) later = output s ∷ wrote_and_closed ss later

watch_closed :
    (o : Options) (pid : ℕ) (ss : List (List ℕ)) (later : List Event)
    → watch o pid (wrote_and_closed ss later) ≡ some (record { killed = []; running = true })
unfolding watch
watch_closed o pid [] later = refl
watch_closed o pid (s ∷ ss) later = watch_closed o pid ss later

-- A child that writes what it likes in time, closes its end of the pipe and runs on is never killed, and
-- the supervisor waits for it without end, whatever the timeout is, whatever would happen later, and
-- however many restarts are left.
pub closed_pipe_hangs :
    (o : Options) (n pid : ℕ) (ss : List (List ℕ)) (later : List Event) (attempts : List Attempt)
    → within n o.restart_val ≡ true
    → supervise o n true (
        record { piped = true; child = some pid; events = wrote_and_closed ss later; exits = false }
        ∷ attempts)
      ≡ none
unfolding supervise
closed_pipe_hangs o n pid ss later attempts on =
    let rest : ℕ → Bool → Option Outcome = λ m b. supervise o m b attempts in
    let quiet : (o.capture_out && false) ≡ false = ground arith in
    let a : Attempt = record {
      piped = true;
      child = some pid;
      events = wrote_and_closed ss later;
      exits = false;
    } in
    ap (λ (t : Bool). if t && true then on_attempt o n a (some pid) rest else some nothing_more) on
    ∙ ap
        (λ (t : Bool).
          if t
          then some nothing_more
          else after_child o n pid false (watch o pid (wrote_and_closed ss later)) rest)
        quiet
    ∙ ap (λ (x : Option Watched). after_child o n pid false x rest) (watch_closed o pid ss later)
