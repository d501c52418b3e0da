-- ===== src/Control/Tasks.antt =====
-- unix-domain-socket-control-plane/gatewayd: the three queues of tasks (server.h) and the worker
-- threads that serve them (server.c). A queue is a ring of 1024 cells with the oldest task at `tail`;
-- what is done under `queue_lock` is one step.
pub mod Picks
pub mod Starving
use mini_project_of_linux_pr.Prelude.{
  ℕ, ◌+◌, ◌-◌, ◌%◌, Bool, true, false, not, ◌&&◌, ◌||◌, ltb, ◌==◌, if◌then◌else◌, Option, none,
  some, List, [], ◌∷◌, get_elem?, set, ◌≡◌,
}
use mini_project_of_linux_pr.Prelude.Ring.{store}
use mini_project_of_linux_pr.Control.Structs.{capacity, Task, MessageQueue, Server}

-- `queue` is NULL as `none`, and the result `none` is an access through it.
unfoldable pub try_enqueue_task :
    Bool → Option MessageQueue → Task → Option (Bool × Option MessageQueue)
try_enqueue_task shutdown none task = if shutdown then some (false, none) else none
try_enqueue_task shutdown (some queue) task =
    if shutdown || not (ltb queue.count capacity)
    then some (false, some queue)
    else some (
      true,
      some (record {
        tasks = store queue.tasks queue.head task;
        head = (queue.head + 1) % capacity;
        tail = queue.tail;
        count = queue.count + 1;
      }),
    )

unfoldable pub try_dequeue_task_locked : MessageQueue → Option (Task × MessageQueue)
try_dequeue_task_locked queue =
    if queue.count == 0
    then none
    else some (
      queue.tasks queue.tail,
      record queue { tail = (queue.tail + 1) % capacity; count = queue.count - 1 },
    )

unfoldable pub all_queues_empty_locked : Server → Bool
all_queues_empty_locked sv =
    sv.high_priority_queue.count == 0
    && (sv.medium_priority_queue.count == 0 && sv.low_priority_queue.count == 0)

pub data Kind : Type 0 where
  high_pri_worker : Kind
  mid_pri_worker : Kind
  low_pri_worker : Kind

abbrev pub or_else {ℓ} : {A : Type ℓ} → Option A → Option A → Option A
or_else (some a) other = some a
or_else none other = other

abbrev pub taken_high : Server → Option (Task × MessageQueue) → Option (Task × Server)
taken_high sv none = none
taken_high sv (some (t, q)) = some (t, record sv { high_priority_queue = q })

abbrev pub taken_medium : Server → Option (Task × MessageQueue) → Option (Task × Server)
taken_medium sv none = none
taken_medium sv (some (t, q)) = some (t, record sv { medium_priority_queue = q })

abbrev pub taken_low : Server → Option (Task × MessageQueue) → Option (Task × Server)
taken_low sv none = none
taken_low sv (some (t, q)) = some (t, record sv { low_priority_queue = q })

-- The queues that a worker tries, in their order.
unfoldable pub take_task : Kind → Server → Option (Task × Server)
unfolding try_dequeue_task_locked
take_task high_pri_worker sv =
    or_else (taken_high sv (try_dequeue_task_locked sv.high_priority_queue)) (
      or_else (taken_medium sv (try_dequeue_task_locked sv.medium_priority_queue))
        (taken_low sv (try_dequeue_task_locked sv.low_priority_queue)))
take_task mid_pri_worker sv =
    or_else (taken_medium sv (try_dequeue_task_locked sv.medium_priority_queue))
      (taken_low sv (try_dequeue_task_locked sv.low_priority_queue))
take_task low_pri_worker sv = taken_low sv (try_dequeue_task_locked sv.low_priority_queue)

-- How a round of a worker's loop begins.
pub data Turn : Type 0 where
  sleeps : Turn
  leaves : Turn
  goes_round : Turn
  runs : Task → Server → Turn

abbrev pub found : Option (Task × Server) → Turn
found none = goes_round
found (some (t, sv)) = runs t sv

-- `high_pri_worker_thread`, `mid_pri_worker_thread` and `low_pri_worker_thread`.
unfoldable pub worker_loop : Kind → Server → Turn
unfolding all_queues_empty_locked take_task
worker_loop kind sv =
    if not sv.shutdown && all_queues_empty_locked sv
    then sleeps
    else if sv.shutdown
    then leaves
    else found (take_task kind sv)

-- A worker thread, and whether it sleeps on `queue_wakeup`.
pub record Thread : Type 0 where
  pub kind : Kind
  pub asleep : Bool

pub record Crew : Type 0 where
  pub server : Server
  pub threads : List Thread

module _ (process_task : Server → Task → Server) where
  abbrev pub after_turn : Crew → ℕ → Thread → Turn → Crew
  after_turn c i th sleeps = record c { threads = set c.threads i (record th { asleep = true }) }
  after_turn c i th leaves = c
  after_turn c i th goes_round = c
  after_turn c i th (runs t sv) = record c { server = process_task sv t }

  -- A round of a worker that is awake, while no task arrives.
  pub data Step (c : Crew) : Crew → Type 0 where
    round :
        (i : ℕ) (th : Thread)
        → get_elem? c.threads i ≡ some th
        → th.asleep ≡ false
        → Step c (after_turn c i th (worker_loop th.kind c.server))

  pub data Steps (c : Crew) : Crew → Type 0 where
    here : Steps c c
    next : {d e : Crew} → Steps c d → Step d e → Steps c e
