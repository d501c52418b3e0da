-- ===== src/Tests/Queues.antt =====
-- The queues of gateway/src/queue.c at concrete inputs.
use mini_project_of_linux_pr.Prelude.{
  ℕ, true, false, none, some, ◌≡◌, refl, arith, [], ◌∷◌, pos, if◌then◌else◌, ◌==◌,
}
use mini_project_of_linux_pr.Heap.{Ptr, null, Heap, node, write, Cells, has}
use mini_project_of_linux_pr.Types.{Task, Response}
use mini_project_of_linux_pr.Queue.Fifo.{fifo_push, fifo_pop}
use mini_project_of_linux_pr.Queue.Response.{ResponseQueue, response_queue_push, response_queue_pop}
use mini_project_of_linux_pr.Queue.Response.Refines.{
  IsQueue, response_queue_push_refines, response_queue_pop_refines,
}
use mini_project_of_linux_pr.Queue.Task.{TaskQueue, taken, task_queue_destroy}
use mini_project_of_linux_pr.Queue.Task.Order.{Chained, IsTask}
use mini_project_of_linux_pr.Queue.Task.Loss.{
  put, get, release, run, third_push_loses, push_after_free,
}
use mini_project_of_linux_pr.Queue.Task.Destroy.{task_queue_destroy_frees}

abbrev rsp : ℕ → Response
rsp n = record {
  slot = pos 0;
  generation = 1;
  type = 0x8001;
  request_id = n;
  length = 1;
  payload = λ i. n;
}

abbrev rsp_heap : Heap Response
rsp_heap p =
    if p == 1 then some (node (rsp 5) null) else if p == 2 then some (node (rsp 6) 9) else none

abbrev rsp_queue : ResponseQueue
rsp_queue = record { head = 1; tail = 1; size = 1; max_size = 2 }

abbrev rsp_cells : Cells Response
rsp_cells = (1, rsp 5) ∷ []

rsp_queue-IsQueue : IsQueue rsp_heap rsp_queue rsp_cells
rsp_queue-IsQueue = record {
  links = (omega arith, refl, refl, tt);
  head = refl;
  tail = refl;
  size = refl;
  fits = omega arith;
}

response_queue_push_refines_example :
    (g : Heap Response) × (q' : ResponseQueue) × (response_queue_push rsp_queue 2 rsp_heap
      ≡ some ((fifo_push 2 rsp_cells (2, rsp 6)).0, q', g))
    × IsQueue g q' (fifo_push 2 rsp_cells (2, rsp 6)).1
    × (q'.max_size ≡ 2)
response_queue_push_refines_example =
    response_queue_push_refines 2 (rsp 6) 9 rsp_queue-IsQueue (omega arith) refl refl

response_queue_pop_refines_example :
    (g : Heap Response) × (q' : ResponseQueue) × (response_queue_pop rsp_queue rsp_heap
      ≡ some ((fifo_pop rsp_cells).0, q', g))
    × IsQueue g q' (fifo_pop rsp_cells).1
    × (q'.max_size ≡ 2)
response_queue_pop_refines_example = response_queue_pop_refines rsp_queue-IsQueue

abbrev job : ℕ → Task
job n = record {
  slot = pos 0;
  task_id = 0;
  generation = 1;
  type = 1;
  request_id = n;
  payload = λ i. n;
  timeout_ms = 5000;
  length = 1;
}

abbrev job_heap : Heap Task
job_heap p =
    if p == 1
    then some (node (job 1) 7)
    else if p == 2
    then some (node (job 2) 8)
    else if p == 3
    then some (node (job 3) 9)
    else none

abbrev no_jobs : TaskQueue
no_jobs = record { head = null; tail = null; size = 0; max_size = 3; shutdown = false }

abbrev one_job : TaskQueue
one_job = record { head = 1; tail = 1; size = 1; max_size = 3; shutdown = false }

abbrev one_heap : Heap Task
one_heap = write job_heap 1 (some (node (job 1) null))

no_jobs-Chained : Chained job_heap no_jobs [] 0 null
no_jobs-Chained = record { links = tt; head = refl; tail = refl; size = refl; shutdown = refl }

one_job-Chained : Chained one_heap one_job ((1, job 1) ∷ []) 1 1
one_job-Chained = record {
  links = (omega arith, refl, refl, tt);
  head = refl;
  tail = refl;
  size = refl;
  shutdown = refl;
}

job-IsTask_1 : IsTask job_heap 1 (job 1)
job-IsTask_1 = (omega arith, 7, refl)

job-IsTask_2 : IsTask job_heap 2 (job 2)
job-IsTask_2 = (omega arith, 8, refl)

job-IsTask_3 : IsTask job_heap 3 (job 3)
job-IsTask_3 = (omega arith, 9, refl)

job-IsTask_one : IsTask one_heap 2 (job 2)
job-IsTask_one = (omega arith, 8, refl)

third_push_loses_example :
    run (put 1 ∷ put 2 ∷ put 3 ∷ get ∷ get ∷ get ∷ []) no_jobs job_heap
    ≡ record { popped = taken 1 ∷ taken 3 ∷ []; faulted = true }
third_push_loses_example =
    third_push_loses 1 2 (job 1) (job 2) no_jobs-Chained job-IsTask_1 job-IsTask_2 (omega arith) 3
      (job 3) job-IsTask_3 (omega arith) (omega arith) (omega arith)

push_after_free_example :
    run (put 1 ∷ put 2 ∷ get ∷ release 1 ∷ put 3 ∷ []) no_jobs job_heap
    ≡ record { popped = taken 1 ∷ []; faulted = true }
push_after_free_example =
    push_after_free 1 2 (job 1) (job 2) no_jobs-Chained job-IsTask_1 job-IsTask_2 (omega arith) 3
      (omega arith) (omega arith)

-- a queue that was shut down with two tasks in it
abbrev two_heap : Heap Task
two_heap = write (write job_heap 1 (some (node (job 1) 2))) 2 (some (node (job 2) null))

abbrev two_jobs : TaskQueue
two_jobs = record { head = 1; tail = 1; size = 2; max_size = 3; shutdown = true }

task_queue_destroy_frees_example :
    (g : Heap Task) × (task_queue_destroy two_jobs two_heap
      ≡ some (record { head = null; tail = null; size = 0; max_size = 3; shutdown = true }, g))
    × ((a : Ptr) → g a ≡ (if has a ((1, job 1) ∷ (2, job 2) ∷ []) then none else two_heap a))
task_queue_destroy_frees_example =
    task_queue_destroy_frees two_heap two_jobs ((1, job 1) ∷ (2, job 2) ∷ [])
      (omega arith, refl, refl, (omega arith, refl, refl, tt)) refl (omega arith)
