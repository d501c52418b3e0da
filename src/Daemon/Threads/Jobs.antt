-- ===== src/Daemon/Threads/Jobs.antt =====
-- About the jobs of the daemon (signal-aware-multithreaded-daemon/main.c).
use mini_project_of_linux_pr.Prelude.{ℕ, zero, suc, ◌+◌, true, false, ◌≡◌, refl, sym, ◌∙◌, arith}
use mini_project_of_linux_pr.Daemon.{Config, data_config}
use mini_project_of_linux_pr.Daemon.Ring.{jobs}
use mini_project_of_linux_pr.Daemon.Threads.{
  at_queue, asleep, World, Step, worker, spurious, receive, block, retry, enqueue, raise, broadcast,
  Run, here, next, starting,
}
use mini_project_of_linux_pr.Daemon.Threads.Counting.{total, total-set}
use mini_project_of_linux_pr.Daemon.Threads.Wakeups.{IsAwake, started, Run-IsAwake}
use mini_project_of_linux_pr.Daemon.Threads.Turns.{turn-flag}
use mini_project_of_linux_pr.Daemon.Threads.Carried.{
  if_work, work_in, carried, begun, known, put, turn-known, total-unchanged, carried-wake,
  begun-wake, Signalled-same, turn-begun,
}

-- The jobs of work that the signal thread has put into the queue.
abbrev pub accepts : {w u : World} → Step w u → ℕ
accepts (enqueue w j d ws at e s) = if_work j.type
accepts (worker w f i p q st h e) = 0
accepts (spurious w i h) = 0
accepts (receive w n at) = 0
accepts (block w j at e) = 0
accepts (retry w j at) = 0
accepts (raise w at) = 0
accepts (broadcast w at) = 0

abbrev pub accepted : {w : World} {k : ℕ} {u : World} → Run w k u → ℕ
accepted here = 0
accepted (next n r s) = accepted r + accepts s

Step-known :
    {w u : World} (s : Step w u)
    → IsAwake w
    → u.state.shutting_down ≡ false
    → (w.state.shutting_down ≡ false) × (known u ≡ known w + accepts s)
Step-known (worker w f i p q st h e) v down =
    let before = sym (turn-flag f w.state st p q e) ∙ down in
    (
      before,
      omega
          (arith, turn-known f w.state st p q v.ring before e, total-set carried w.workers i p q h),
    )
Step-known (spurious w i h) v down =
    (down, omega (arith, total-set carried w.workers i asleep at_queue h))
Step-known (receive w n at) v down = (down, omega arith)
Step-known (block w j at e) v down = (down, omega arith)
Step-known (retry w j at) v down = (down, omega arith)
Step-known (enqueue w j d ws at e s) v down =
    (down, omega (arith, put w.state.daemon_data d j v.ring e, Signalled-same carried refl s))
Step-known (raise w at) v down = cc
Step-known (broadcast w at) v down =
    (down, omega (arith, total-unchanged carried w.workers carried-wake))

starting-carried : (n : ℕ) → total carried (starting n) ≡ 0
starting-carried zero = refl
starting-carried (suc n) = omega (arith, starting-carried n)

module _ (workers : ℕ) (config : Config) where
  -- No job of work is lost or done twice before the flag is set: the jobs that the signal thread has
  -- put into the queue are as many as those done, those in the queue and those in a worker's hands.
  pub jobs_conserved :
      (k : ℕ) {w : World} (r : Run (started workers config) k w)
      → w.state.shutting_down ≡ false
      → accepted r
        ≡ w.state.work_done_count + work_in (jobs w.state.daemon_data) + total carried w.workers
  unfolding data_config
  jobs_conserved k here down = omega (arith, starting-carried workers)
  jobs_conserved k (next m r s) down =
      let (before, more) = Step-known s (Run-IsAwake workers config m r) down in
      omega (arith, more, jobs_conserved m r before)

Step-begun :
    {w u : World}
    → Step w u
    → w.state.shutting_down ≡ true
    → (u.state.shutting_down ≡ true)
      × (u.state.work_done_count + total begun u.workers
          ≡ w.state.work_done_count + total begun w.workers)
Step-begun (worker w f i p q st h e) up = (
  turn-flag f w.state st p q e ∙ up,
  omega (arith, turn-begun f w.state st p q up e, total-set begun w.workers i p q h),
)
Step-begun (spurious w i h) up = (up, omega (arith, total-set begun w.workers i asleep at_queue h))
Step-begun (receive w n at) up = (up, refl)
Step-begun (block w j at e) up = (up, refl)
Step-begun (retry w j at) up = (up, refl)
Step-begun (enqueue w j d ws at e s) up = (up, omega (arith, Signalled-same begun refl s))
Step-begun (raise w at) up = (refl, refl)
Step-begun (broadcast w at) up = (up, omega (arith, total-unchanged begun w.workers begun-wake))

-- Once the flag is set, the jobs of work that are done or begun stay the same for the rest of the run:
-- a job that is still in the queue, or that a worker has taken without looking at the flag, is never
-- done.
pub shutdown_drops_jobs :
    {w : World} {k : ℕ} {u : World}
    → Run w k u
    → w.state.shutting_down ≡ true
    → (u.state.shutting_down ≡ true)
      × (u.state.work_done_count + total begun u.workers
          ≡ w.state.work_done_count + total begun w.workers)
shutdown_drops_jobs here up = (up, refl)
shutdown_drops_jobs (next n r s) up =
    let (up1, same) = shutdown_drops_jobs r up in
    let (up2, more) = Step-begun s up1 in (up2, omega arith)
