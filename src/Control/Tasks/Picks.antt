-- ===== src/Control/Tasks/Picks.antt =====
-- About the rounds of the worker threads (unix-domain-socket-control-plane/gatewayd/server.c).
use mini_project_of_linux_pr.Prelude.{
  ℕ, zero, suc, ◌+◌, ◌-◌, ◌%◌, ◌≤◌, ◌<◌, Bool, true, false, not, ◌&&◌, ◌==◌, ==_ne, if◌then◌else◌,
  Option, none, some, List, [], ◌∷◌, ◌≡◌, refl, sym, ap, ◌∙◌, ◌⊎◌, inl, inr, arith,
}
use mini_project_of_linux_pr.Prelude.Ring.{ring_items}
use mini_project_of_linux_pr.Control.Structs.{capacity, Task, MessageQueue, Server}
use mini_project_of_linux_pr.Control.Tasks.{
  try_dequeue_task_locked, all_queues_empty_locked, Kind, high_pri_worker, mid_pri_worker,
  low_pri_worker, or_else, taken_high, taken_medium, taken_low, take_task, Turn, sleeps, leaves,
  goes_round, runs, found, worker_loop,
}

abbrev pub tasks_in : MessageQueue → List Task
tasks_in q = ring_items capacity q.tasks q.tail q.count

pub record IsQueue (q : MessageQueue) : Type 0 where
  pub inside : q.tail < capacity
  pub fits : q.count ≤ capacity
  pub free : q.head ≡ (q.tail + q.count) % capacity

-- The tasks of the three queues, the oldest first.
pub record Waiting : Type 0 where
  pub high : List Task
  pub medium : List Task
  pub low : List Task

abbrev pub waiting : Server → Waiting
waiting sv = record {
  high = tasks_in sv.high_priority_queue;
  medium = tasks_in sv.medium_priority_queue;
  low = tasks_in sv.low_priority_queue;
}

-- The first task of the first list that is not empty, and what is left.
abbrev pub from_low : List Task → List Task → List Task → Option (Task × Waiting)
from_low hs ms [] = none
from_low hs ms (t ∷ ls) = some (t, record { high = hs; medium = ms; low = ls })

abbrev pub from_medium : List Task → List Task → List Task → Option (Task × Waiting)
from_medium hs [] ls = from_low hs [] ls
from_medium hs (t ∷ ms) ls = some (t, record { high = hs; medium = ms; low = ls })

abbrev pub from_high : List Task → List Task → List Task → Option (Task × Waiting)
from_high [] ms ls = from_medium [] ms ls
from_high (t ∷ hs) ms ls = some (t, record { high = hs; medium = ms; low = ls })

abbrev pub first_of : Kind → Waiting → Option (Task × Waiting)
first_of high_pri_worker w = from_high w.high w.medium w.low
first_of mid_pri_worker w = from_medium w.high w.medium w.low
first_of low_pri_worker w = from_low w.high w.medium w.low

abbrev pub seen : Option (Task × Server) → Option (Task × Waiting)
seen none = none
seen (some (t, sv)) = some (t, waiting sv)

-- What a dequeue does to the list.
dequeued :
    (q : MessageQueue)
    → ((tasks_in q ≡ []) × (try_dequeue_task_locked q ≡ none))
      ⊎ ((t : Task) × (q' : MessageQueue) × (try_dequeue_task_locked q ≡ some (t, q'))
          × (tasks_in q ≡ t ∷ tasks_in q'))
unfolding try_dequeue_task_locked
dequeued q = split q.count refl
  where
    split :
        (n : ℕ)
        → q.count ≡ n
        → ((tasks_in q ≡ []) × (try_dequeue_task_locked q ≡ none))
          ⊎ ((t : Task) × (q' : MessageQueue) × (try_dequeue_task_locked q ≡ some (t, q'))
              × (tasks_in q ≡ t ∷ tasks_in q'))
    split zero e = inl (ap (ring_items capacity q.tasks q.tail) e, ground arith)
    split (suc n) e =
        let left : q.count - 1 ≡ n = omega arith in
        inr (
          q.tasks q.tail,
          record q { tail = (q.tail + 1) % capacity; count = q.count - 1 },
          ground arith,
          ap (ring_items capacity q.tasks q.tail) e
              ∙ ap
                  (λ (k : ℕ).
                    q.tasks q.tail ∷ ring_items capacity q.tasks ((q.tail + 1) % capacity) k)
                  (sym left),
        )

low_lem :
    (sv : Server)
    → seen (taken_low sv (try_dequeue_task_locked sv.low_priority_queue))
      ≡ from_low (waiting sv).high (waiting sv).medium (waiting sv).low
low_lem sv = elim (dequeued sv.low_priority_queue) [
  | inl (empty, fails) ↦ rw (fails, empty) refl
  | inr (t, q, takes, front) ↦ rw (takes, front) refl
]

medium_lem :
    (sv : Server)
    → seen (
        or_else
          (taken_medium sv (try_dequeue_task_locked sv.medium_priority_queue))
          (taken_low sv (try_dequeue_task_locked sv.low_priority_queue)))
      ≡ from_medium (waiting sv).high (waiting sv).medium (waiting sv).low
medium_lem sv = elim (dequeued sv.medium_priority_queue) [
  | inl (empty, fails) ↦
      (ap
          (λ (r : Option (Task × MessageQueue)). seen (
            or_else (taken_medium sv r)
              (taken_low sv (try_dequeue_task_locked sv.low_priority_queue))))
          fails
        ∙ low_lem sv
        ∙ ap (λ (ms : List Task). from_low (waiting sv).high ms (waiting sv).low) empty
        ∙ ap (λ (ms : List Task). from_medium (waiting sv).high ms (waiting sv).low) (sym empty))
  | inr (t, q, takes, front) ↦ rw (takes, front) refl
]

high_lem :
    (sv : Server)
    → seen (take_task high_pri_worker sv)
      ≡ from_high (waiting sv).high (waiting sv).medium (waiting sv).low
unfolding take_task
high_lem sv = elim (dequeued sv.high_priority_queue) [
  | inl (empty, fails) ↦
      (ap
          (λ (r : Option (Task × MessageQueue)). seen (
            or_else (taken_high sv r) (
              or_else (taken_medium sv (try_dequeue_task_locked sv.medium_priority_queue))
                (taken_low sv (try_dequeue_task_locked sv.low_priority_queue)))))
          fails
        ∙ medium_lem sv
        ∙ ap (λ (hs : List Task). from_medium hs (waiting sv).medium (waiting sv).low) empty
        ∙ ap (λ (hs : List Task). from_high hs (waiting sv).medium (waiting sv).low) (sym empty))
  | inr (t, q, takes, front) ↦ rw (takes, front) refl
]

take_task-first_of :
    (kind : Kind) (sv : Server) → seen (take_task kind sv) ≡ first_of kind (waiting sv)
unfolding take_task
take_task-first_of high_pri_worker sv = high_lem sv
take_task-first_of mid_pri_worker sv = medium_lem sv
take_task-first_of low_pri_worker sv = low_lem sv

-- What the rounds of a worker promise.
pub data Promise : Type 0 where
  sleep : Promise
  leave : Promise
  once_more : Promise
  run : Task → Waiting → Promise

abbrev pub of_first : Option (Task × Waiting) → Promise
of_first none = once_more
of_first (some (t, w)) = run t w

abbrev pub is_nil : List Task → Bool
is_nil [] = true
is_nil (t ∷ ts) = false

abbrev pub nothing_waits : Waiting → Bool
nothing_waits w = is_nil w.high && (is_nil w.medium && is_nil w.low)

unfoldable pub promised : Kind → Bool → Waiting → Promise
promised kind true w = leave
promised kind false w = if nothing_waits w then sleep else of_first (first_of kind w)

abbrev pub shown : Turn → Promise
shown sleeps = sleep
shown leaves = leave
shown goes_round = once_more
shown (runs t sv) = run t (waiting sv)

is_nil-tasks : (q : MessageQueue) → (q.count == 0) ≡ is_nil (tasks_in q)
is_nil-tasks q = split q.count refl
  where
    split : (n : ℕ) → q.count ≡ n → (q.count == 0) ≡ is_nil (tasks_in q)
    split zero e =
        ap (λ (k : ℕ). k == 0) e
        ∙ ap (λ (k : ℕ). is_nil (ring_items capacity q.tasks q.tail k)) (sym e)
    split (suc n) e =
        ap (λ (k : ℕ). k == 0) e
        ∙ ==_ne (suc n) 0 (λ z. absurd (omega arith))
        ∙ ap (λ (k : ℕ). is_nil (ring_items capacity q.tasks q.tail k)) (sym e)

nothing_lem : (sv : Server) → all_queues_empty_locked sv ≡ nothing_waits (waiting sv)
unfolding all_queues_empty_locked
nothing_lem sv =
    rw
      (
        is_nil-tasks sv.high_priority_queue,
        is_nil-tasks sv.medium_priority_queue,
        is_nil-tasks sv.low_priority_queue,
      )
      refl

-- A round, from what the flag and the queues say.
abbrev begin : Kind → Server → Bool → Bool → Turn
begin kind sv down empty =
    if not down && empty then sleeps else if down then leaves else found (take_task kind sv)

shown-found : (r : Option (Task × Server)) → shown (found r) ≡ of_first (seen r)
shown-found none = refl
shown-found (some (t, sv)) = refl

begin-promised :
    (kind : Kind) (sv : Server) (b empty : Bool)
    → nothing_waits (waiting sv) ≡ empty
    → shown (begin kind sv b empty) ≡ promised kind b (waiting sv)
unfolding promised
begin-promised kind sv true empty e = refl
begin-promised kind sv false true e = rw e refl
begin-promised kind sv false false e =
    shown-found (take_task kind sv)
    ∙ ap of_first (take_task-first_of kind sv)
    ∙ ap (λ (t : Bool). if t then sleep else of_first (first_of kind (waiting sv))) (sym e)

-- What each worker does in a round, for every state of the three queues: after the shutdown it leaves;
-- while no task waits at all it sleeps; else it runs the oldest task of the first queue that is not
-- empty among those it serves, in the order high, medium, low, and the other tasks keep their order; and
-- when only queues that it does not serve hold tasks it goes round without sleeping.
pub worker_loop-promised :
    (kind : Kind) (sv : Server)
    → shown (worker_loop kind sv) ≡ promised kind sv.shutdown (waiting sv)
unfolding worker_loop
worker_loop-promised kind sv = by_flag sv.shutdown refl
  where
    by_flag :
        (b : Bool)
        → sv.shutdown ≡ b
        → shown (worker_loop kind sv) ≡ promised kind sv.shutdown (waiting sv)
    by_flag b e =
        ap (λ (t : Bool). shown (begin kind sv t (all_queues_empty_locked sv))) e
        ∙ ap (λ (t : Bool). shown (begin kind sv b t)) (nothing_lem sv)
        ∙ begin-promised kind sv b (nothing_waits (waiting sv)) refl
        ∙ ap (λ (t : Bool). promised kind t (waiting sv)) (sym e)
