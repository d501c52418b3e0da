-- ===== src/Daemon/Threads/Carried.antt =====
-- About the jobs in one turn of a worker (signal-aware-multithreaded-daemon/main.c).
use mini_project_of_linux_pr.Prelude.{
  ℕ, ◌+◌, Bool, true, false, List, [], ◌∷◌, ◌++◌, some, map, ◌≡◌, refl, sym, ap, ◌∙◌, arith,
}
use mini_project_of_linux_pr.Daemon.{
  WorkType, job_none, job_reload_config, job_print_status, job_do_work, job_shutdown, Workqueue,
  Data, DaemonState, enqueue_work, Dequeued, waits, fails, takes, dequeueu_work,
}
use mini_project_of_linux_pr.Daemon.Ring.{
  IsRing, jobs, bounded_push, bounded_pop, job, queued, seen, work_queue_refines,
}
use mini_project_of_linux_pr.Daemon.Threads.{
  Place, at_queue, asleep, refused, holding, doing, exited, Files, do_work, dequeued, worker_turn,
  World, wake, Signalled, nobody, one,
}
use mini_project_of_linux_pr.Daemon.Threads.Counting.{total, total-set}
use mini_project_of_linux_pr.Daemon.Threads.Turns.{do_work-keeps}

-- 1 for a job of work.
abbrev pub if_work : WorkType → ℕ
if_work job_do_work = 1
if_work job_none = 0
if_work job_reload_config = 0
if_work job_print_status = 0
if_work job_shutdown = 0

abbrev pub work_in : List Workqueue → ℕ
work_in [] = 0
work_in (j ∷ xs) = if_work j.type + work_in xs

-- 1 for a worker with a job of work in its hands.
abbrev pub carried : Place → ℕ
carried (holding j) = if_work j.type
carried (doing j) = if_work j.type
carried at_queue = 0
carried asleep = 0
carried refused = 0
carried exited = 0

-- The same once the worker has decided to do it.
abbrev pub begun : Place → ℕ
begun (doing j) = if_work j.type
begun (holding j) = 0
begun at_queue = 0
begun asleep = 0
begun refused = 0
begun exited = 0

abbrev pub known : World → ℕ
known w = w.state.work_done_count + work_in (jobs w.state.daemon_data) + total carried w.workers

do_work-counts :
    (f : Files) (st st' : DaemonState) (t : WorkType) (q : Place)
    → do_work f st t ≡ some (q, st')
    → (st'.work_done_count ≡ st.work_done_count + if_work t) × (carried q ≡ 0) × (begun q ≡ 0)
unfolding do_work
do_work-counts f st st' job_none q e = ground arith
do_work-counts f st st' job_reload_config q e = ground arith
do_work-counts f st st' job_print_status q e = ground arith
do_work-counts f st st' job_do_work q e = ground arith
do_work-counts f st st' job_shutdown q e = ground arith

popped-head :
    (b : Bool) (xs ys : List Workqueue) (j : Workqueue) → job j ys ≡ bounded_pop b xs → xs ≡ j ∷ ys
unfolding bounded_pop
popped-head true [] ys j e = cc
popped-head false [] ys j e = cc
popped-head b (x ∷ xs) ys j e = cc

-- A job that leaves the queue was its first one.
took :
    (b : Bool) (d d' : Data) (j : Workqueue)
    → IsRing d
    → dequeueu_work b d ≡ takes j d'
    → jobs d ≡ j ∷ jobs d'
took b d d' j v e =
    popped-head b (jobs d) (jobs d') j (sym (ap seen e) ∙ (work_queue_refines j b d v).2)

work_in-append :
    (xs : List Workqueue) (j : Workqueue) → work_in (xs ++ j ∷ []) ≡ work_in xs + if_work j.type
work_in-append [] j = omega arith
work_in-append (x ∷ xs) j = omega (arith, work_in-append xs j)

pushed-last :
    (j : Workqueue) (xs ys : List Workqueue) → some ys ≡ bounded_push j xs → ys ≡ xs ++ j ∷ []
unfolding bounded_push
pushed-last j xs ys e = ground arith

pub put :
    (d d' : Data) (j : Workqueue)
    → IsRing d
    → enqueue_work j d ≡ some d'
    → work_in (jobs d') ≡ work_in (jobs d) + if_work j.type
put d d' j v e =
    let last =
      pushed-last j (jobs d) (jobs d') (sym (ap queued e) ∙ (work_queue_refines j true d v).0) in
    rw last (work_in-append (jobs d) j)

-- While the flag is down, a worker that goes on loses no job.
pub turn-known :
    (f : Files) (st st' : DaemonState) (p q : Place)
    → IsRing st.daemon_data
    → st.shutting_down ≡ false
    → worker_turn f st p ≡ some (q, st')
    → st'.work_done_count + work_in (jobs st'.daemon_data) + carried q
      ≡ st.work_done_count + work_in (jobs st.daemon_data) + carried p
unfolding worker_turn
turn-known f st st' asleep q v down e = cc
turn-known f st st' exited q v down e = cc
turn-known f st st' refused q v down e = ground arith
turn-known f st st' (holding j) q v down e = ground arith
turn-known f st st' (doing j) q v down e =
    let counts = do_work-counts f st st' j.type q e in
    let same = (do_work-keeps f st st' j.type q e).0 in
    omega (arith, counts.0, counts.1, ap (λ (d : Data). work_in (jobs d)) same)
turn-known f st st' at_queue q v down e =
    taken (dequeueu_work st.shutting_down st.daemon_data) refl e
  where
    taken :
        (r : Dequeued)
        → dequeueu_work st.shutting_down st.daemon_data ≡ r
        → dequeued st r ≡ some (q, st')
        → st'.work_done_count + work_in (jobs st'.daemon_data) + carried q
          ≡ st.work_done_count + work_in (jobs st.daemon_data) + 0
    taken waits r e = ground arith
    taken fails r e = ground arith
    taken (takes j d) r e =
        ground (arith, ap work_in (took st.shutting_down st.daemon_data d j v r))

pub total-unchanged :
    (g : Place → ℕ) (ws : List Place)
    → ((p : Place) → g (wake p) ≡ g p)
    → total g (map wake ws) ≡ total g ws
total-unchanged g [] h = refl
total-unchanged g (p ∷ ws) h = omega (arith, h p, total-unchanged g ws h)

pub carried-wake : (p : Place) → carried (wake p) ≡ carried p
carried-wake asleep = refl
carried-wake at_queue = refl
carried-wake refused = refl
carried-wake (holding j) = refl
carried-wake (doing j) = refl
carried-wake exited = refl

pub begun-wake : (p : Place) → begun (wake p) ≡ begun p
begun-wake asleep = refl
begun-wake at_queue = refl
begun-wake refused = refl
begun-wake (holding j) = refl
begun-wake (doing j) = refl
begun-wake exited = refl

-- A signal to `not_empty` moves no job.
pub Signalled-same :
    (g : Place → ℕ) {ws us : List Place}
    → g asleep ≡ g at_queue
    → Signalled ws us
    → total g us ≡ total g ws
Signalled-same g h (nobody out) = refl
Signalled-same g {ws} h (one i there) = omega (arith, h, total-set g ws i asleep at_queue there)

-- With the flag up, a worker does only the job that it has begun.
pub turn-begun :
    (f : Files) (st st' : DaemonState) (p q : Place)
    → st.shutting_down ≡ true
    → worker_turn f st p ≡ some (q, st')
    → st'.work_done_count + begun q ≡ st.work_done_count + begun p
unfolding worker_turn
turn-begun f st st' asleep q up e = cc
turn-begun f st st' exited q up e = cc
turn-begun f st st' refused q up e = ground arith
turn-begun f st st' (holding j) q up e = ground arith
turn-begun f st st' (doing j) q up e = omega (arith, do_work-counts f st st' j.type q e)
turn-begun f st st' at_queue q up e = unfold dequeueu_work in ground arith
