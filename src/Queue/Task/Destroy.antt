-- ===== src/Queue/Task/Destroy.antt =====
-- About `task_queue_destroy` (gateway/src/queue.c).
use mini_project_of_linux_pr.Prelude.{
  ℕ, suc, zero, ◌+◌, ◌≤◌, ◌<◌, none, some, ◌≡◌, refl, ◌∙◌, arith, [], ◌∷◌, if◌then◌else◌, length,
  ==_ne,
}
use mini_project_of_linux_pr.Heap.{
  free_lem, Ptr, null, Heap, node, write, write_self, Links, Links-write, Cells, first, has,
  load_lem, set_next_lem,
}
use mini_project_of_linux_pr.Types.{Task}
use mini_project_of_linux_pr.Queue.Task.{TaskQueue, free_tasks, task_queue_destroy}

-- the heap without the nodes `xs`
abbrev without : Heap Task → Cells Task → Heap Task
without h xs a = if has a xs then none else h a

free_tasks_lem :
    (k : ℕ) (h : Heap Task) (xs : Cells Task)
    → Links h xs
    → length xs < k
    → (g : Heap Task) × (free_tasks k (first xs) h ≡ some g) × ((a : Ptr) → g a ≡ without h xs a)
unfolding free_tasks
free_tasks_lem zero h xs l lt = absurd (omega arith)
free_tasks_lem (suc k) h [] l lt = (h, refl, λ a. refl)
free_tasks_lem (suc k) h ((p, b) ∷ xs) l lt =
    let h1 : Heap Task = write h p (some (node b null)) in
    let h2 : Heap Task = write h1 p none in
    let (g, e, same) =
      free_tasks_lem k h2 xs
        (Links-write h1 p none xs l.2 (Links-write h p (some (node b null)) xs l.2 l.3))
        (omega arith) in
    (
      g,
      rw
          (
            ==_ne p null l.0,
            load_lem h p (node b (first xs)) l.0 l.1,
            set_next_lem h p null b (first xs) l.0 l.1,
            free_lem h1 p (node b null) l.0 (write_self h p (some (node b null))),
          )
          e,
      λ a. same a ∙ ground arith,
    )

-- Destroying a queue, shut down or not, whose links lead from the head through the tasks `xs`, no more
-- than it counts, frees each of those tasks and nothing else, and leaves the queue empty.
pub task_queue_destroy_frees :
    (h : Heap Task) (q : TaskQueue) (xs : Cells Task)
    → Links h xs
    → q.head ≡ first xs
    → length xs ≤ q.size
    → (g : Heap Task) × (task_queue_destroy q h
        ≡ some (record q { head = null; tail = null; size = 0 }, g))
      × ((a : Ptr) → g a ≡ (if has a xs then none else h a))
unfolding task_queue_destroy
task_queue_destroy_frees h q xs links head le =
    let (g, e, same) = free_tasks_lem (q.size + 1) h xs links (omega arith) in
    (g, rw (head, e), same)
