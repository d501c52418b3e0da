-- ===== src/Queue/Response.antt =====
-- `struct response_queue` and its operations (gateway/src/queue.c). The mutex makes each operation
-- one step, and the queue is a member of `struct server`, so its own address is never NULL.
pub mod Refines
use mini_project_of_linux_pr.Prelude.{
  ℕ, ◌+◌, ◌-◌, Bool, true, false, Option, none, some, ◌==◌, leb, if◌then◌else◌, ◌>>=◌,
}
use mini_project_of_linux_pr.Heap.{Ptr, null, Node, Heap, load, set_next}
use mini_project_of_linux_pr.Types.{Status, ok, failed, again, Response}

pub record ResponseQueue : Type 0 where
  pub head : Ptr
  pub tail : Ptr
  pub size : ℕ
  pub max_size : ℕ

-- A size of 0 leaves the structure as it was.
unfoldable pub response_queue_init : ResponseQueue → ℕ → ResponseQueue
response_queue_init q size =
    if size == 0 then q else record { head = null; tail = null; size = 0; max_size = size }

-- The branch of `response_queue_push` on an empty or non-empty queue.
link : ResponseQueue → Ptr → Heap Response → Option (ResponseQueue × Heap Response)
link q rp h =
    if q.tail == null
    then some (record q { head = rp; tail = rp }, h)
    else do h1 ← set_next h q.tail rp; some (record q { tail = rp }, h1)

unfoldable pub response_queue_push :
    ResponseQueue → Ptr → Heap Response → Option (Status × ResponseQueue × Heap Response)
unfolding link
response_queue_push q rp h =
    if rp == null
    then some (failed, q, h)
    else if leb q.max_size q.size
    then some (again, q, h)
    else do
      (q1, h1) ← link q rp h
      let q2 = record q1 { size = q1.size + 1 }
      h2 ← set_next h1 q2.tail null
      some (ok, q2, h2)

-- The pointer is NULL on an empty queue. The size is not 0 where it is decremented.
unfoldable pub response_queue_pop :
    ResponseQueue → Heap Response → Option (Ptr × ResponseQueue × Heap Response)
response_queue_pop q h = if q.size == 0 then some (null, q, h) else do
  n ← load h q.head
  let q1 = record q { head = n.next }
  let q2 = if q1.head == null then record q1 { tail = null } else q1
  h1 ← set_next h q.head null
  some (q.head, record q2 { size = q2.size - 1 }, h1)
