-- ===== src/Queue/Task.antt =====
-- `struct task_queue` and its operations (gateway/src/queue.c). The mutex makes each operation one
-- step; `pop` that would wait on the condition variable is a step that changes nothing and is made
-- again after a signal. The queue is a member of `struct server`, so its address is never NULL.
pub mod Order
pub mod Loss
pub mod Destroy
use mini_project_of_linux_pr.Prelude.{
  ℕ, suc, zero, ◌+◌, ◌-◌, Bool, true, false, Option, none, some, ◌==◌, leb, if◌then◌else◌, ◌>>=◌,
  ◌&&◌, not,
}
use mini_project_of_linux_pr.Heap.{Ptr, null, Node, Heap, load, set_next, free}
use mini_project_of_linux_pr.Types.{Status, ok, failed, again, Task}

pub record TaskQueue : Type 0 where
  pub head : Ptr
  pub tail : Ptr
  pub size : ℕ
  pub max_size : ℕ
  pub shutdown : Bool

-- A size of 0 leaves the structure as it was.
unfoldable pub task_queue_init : TaskQueue → ℕ → TaskQueue
task_queue_init q size =
    if size == 0
    then q
    else record { head = null; tail = null; size = 0; max_size = size; shutdown = false }

-- The branch of `push` on an empty or non-empty queue. The tail is set in the first one only.
unfoldable pub link : TaskQueue → Ptr → Heap Task → Option (TaskQueue × Heap Task)
link q task h =
    if q.tail == null
    then some (record q { head = task; tail = task }, h)
    else do h1 ← set_next h q.tail task; some (q, h1)

unfoldable pub push : TaskQueue → Ptr → Heap Task → Option (Status × TaskQueue × Heap Task)
unfolding link
push q task h =
    if task == null
    then some (failed, q, h)
    else if q.shutdown
    then some (failed, q, h)
    else if leb q.max_size q.size
    then some (again, q, h)
    else do
      (q1, h1) ← link q task h
      h2 ← set_next h1 task null
      some (ok, record q1 { size = q1.size + 1 }, h2)

-- What one attempt of `pop` comes to.
pub data Popped : Type 0 where
  waiting : Popped
  stopped : Popped
  taken : Ptr → Popped

unfoldable pub pop : TaskQueue → Heap Task → Option (Popped × TaskQueue × Heap Task)
pop q h =
    if q.size == 0 && not q.shutdown
    then some (waiting, q, h)
    else if q.shutdown && q.size == 0
    then some (stopped, q, h)
    else do
      n ← load h q.head
      let q1 = record q { head = n.next }
      let q2 = if q1.head == null then record q1 { tail = null } else q1
      h1 ← set_next h q.head null
      some (taken q.head, record q2 { size = q2.size - 1 }, h1)

unfoldable pub task_queue_shutdown : TaskQueue → TaskQueue
task_queue_shutdown q = record q { shutdown = true }

-- The loop of `task_queue_destroy`, on fuel; `none` is a fault or the end of the fuel.
free_tasks : ℕ → Ptr → Heap Task → Option (Heap Task)
free_tasks zero task h = none
free_tasks (suc k) task h =
    let rest = do
      n ← load h task
      h1 ← set_next h task null
      h2 ← free h1 task
      free_tasks k n.next h2
    in if task == null then some h else rest

-- The fuel is one more than the number of nodes that the queue counts.
unfoldable pub task_queue_destroy : TaskQueue → Heap Task → Option (TaskQueue × Heap Task)
unfolding free_tasks
task_queue_destroy q h = do
  h1 ← free_tasks (q.size + 1) q.head h
  some (record q { head = null; tail = null; size = 0 }, h1)
