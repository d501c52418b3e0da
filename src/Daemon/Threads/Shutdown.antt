-- ===== src/Daemon/Threads/Shutdown.antt =====
-- About the end of the threads (signal-aware-multithreaded-daemon/main.c).
use mini_project_of_linux_pr.Prelude.{
  ℕ, suc, ◌+◌, ◌*◌, ◌≤◌, true, List, [], ◌∷◌, none, some, get_elem?, length, ◌≡◌, ◌≢◌, refl, subst,
  ◌⊎◌, inl, inr, arith, pos, if◌then◌else◌,
}
use mini_project_of_linux_pr.Daemon.{
  WorkType, job_none, job_reload_config, job_print_status, job_do_work, job_shutdown, DaemonState,
  Dequeued, waits, fails, takes, dequeueu_work, Config,
}
use mini_project_of_linux_pr.Daemon.Settings.{get_file_config, read_param_config}
use mini_project_of_linux_pr.Prelude.Text.{codes}
use mini_project_of_linux_pr.Daemon.Threads.{
  Place, at_queue, asleep, refused, holding, doing, exited, SigPlace, listening, enqueueing,
  blocked, stopping, waking, ended, Files, do_work, dequeued, worker_turn, World, Step, worker,
  broadcast, Run, here, next,
}
use mini_project_of_linux_pr.Daemon.Threads.Counting.{total}
use mini_project_of_linux_pr.Daemon.Threads.Wakeups.{
  IsAwake, AtSig, if_asleep, Step-IsAwake, started, Run-IsAwake,
}
use mini_project_of_linux_pr.Daemon.Threads.Ending.{
  rank, sig_rank, IsLate, IsEnding, Run-IsEnding, IsStaffed, Run-IsStaffed,
}

total-rank-le : (ws : List Place) → total rank ws ≤ 3 * length ws
total-rank-le [] = omega arith
total-rank-le (p ∷ ws) = omega (arith, most p, total-rank-le ws)
  where
    most : (p : Place) → rank p ≤ 3
    most asleep = omega arith
    most at_queue = omega arith
    most refused = omega arith
    most (holding work) = omega arith
    most (doing work) = omega arith
    most exited = omega arith

abbrev pub AllExited : List Place → Type 0
AllExited [] = Unit
AllExited (p ∷ ws) = (p ≡ exited) × AllExited ws

-- A worker that can go on, when none sleeps.
pick :
    (ws : List Place)
    → total if_asleep ws ≡ 0
    → AllExited ws
      ⊎ ((i : ℕ) × (p : Place) × (get_elem? ws i ≡ some p) × (if_asleep p ≡ 0) × (p ≢ exited))
pick [] h = inl tt
pick (exited ∷ ws) h = elim (pick ws (omega arith)) [
  | inl all ↦ inl (refl, all)
  | inr (i, p, at, ne, out) ↦ inr (suc i, p, at, ne, out)
]
pick (asleep ∷ ws) h = absurd (omega arith)
pick (at_queue ∷ ws) h = inr (0, at_queue, refl, refl, λ e. cc)
pick (refused ∷ ws) h = inr (0, refused, refl, refl, λ e. cc)
pick (holding work ∷ ws) h = inr (0, holding work, refl, refl, λ e. cc)
pick (doing work ∷ ws) h = inr (0, doing work, refl, refl, λ e. cc)

abbrev no_files : Files
no_files = record { first = none; second = none; third = none }

-- What a file that cannot be read sets.
abbrev default_config : Config
default_config = record { sample_rate = pos 1000; woker_delay = pos 500; log_level = codes "INFO" }

do_work_exists :
    (st : DaemonState) (t : WorkType)
    → (q : Place) × (st' : DaemonState) × (do_work no_files st t ≡ some (q, st'))
unfolding do_work get_file_config read_param_config
do_work_exists st job_none = (at_queue, st, refl)
do_work_exists st job_reload_config = (
  at_queue,
  record st { daemon_config = default_config; reload_config_count = st.reload_config_count + 1 },
  refl,
)
do_work_exists st job_print_status = (at_queue, st, refl)
do_work_exists st job_do_work =
    (at_queue, record st { work_done_count = st.work_done_count + 1 }, refl)
do_work_exists st job_shutdown = (exited, st, refl)

turn_exists :
    (st : DaemonState) (p : Place)
    → if_asleep p ≡ 0
    → p ≢ exited
    → (q : Place) × (st' : DaemonState) × (worker_turn no_files st p ≡ some (q, st'))
unfolding worker_turn
turn_exists st exited ne out = absurd (out refl)
turn_exists st asleep ne out = absurd (omega arith)
turn_exists st refused ne out = (if st.shutting_down then exited else at_queue, st, refl)
turn_exists st (holding work) ne out = (if st.shutting_down then exited else doing work, st, refl)
turn_exists st (doing work) ne out = do_work_exists st work.type
turn_exists st at_queue ne out = taken (dequeueu_work st.shutting_down st.daemon_data)
  where
    taken : (r : Dequeued) → (q : Place) × (st' : DaemonState) × (dequeued st r ≡ some (q, st'))
    taken waits = (asleep, st, refl)
    taken fails = (refused, st, refl)
    taken (takes work d) = (holding work, record st { daemon_data = d }, refl)

-- The daemon is over, or a thread can go on.
progress :
    (w : World)
    → IsEnding w
    → IsAwake w
    → ((w.sig ≡ ended) × AllExited w.workers) ⊎ ((u : World) × Step w u)
progress w e v = go w.sig refl
  where
    go :
        (s : SigPlace)
        → w.sig ≡ s
        → ((w.sig ≡ ended) × AllExited w.workers) ⊎ ((u : World) × Step w u)
    go waking at = inr (_, broadcast w at)
    go ended at =
        elim (pick w.workers
          (subst (AtSig w.state.daemon_data.count w.state.shutting_down (total if_asleep w.workers))
            at v.at_sig).1) [
              | inl all ↦ inl (at, all)
              | inr (i, p, there, ne, out) ↦
                  (let (q, st, t) = turn_exists w.state p ne out in
                    inr (_, worker w no_files i p q st there t))
            ]
    go listening at = absurd (subst IsLate at e.late)
    go (enqueueing work) at = absurd (subst IsLate at e.late)
    go (blocked work) at = absurd (subst IsLate at e.late)
    go stopping at = absurd (subst IsLate at e.late)

Run-keeps : {w : World} {k : ℕ} {u : World} → Run w k u → IsAwake w → IsAwake u
Run-keeps here v = v
Run-keeps (next n r s) v = Step-IsAwake s (Run-keeps r v)

module _ (workers m : ℕ) (config : Config) {w : World}
    (before : Run (started workers config) m w) where
  -- Once `shutting_down` is set, a run has at most three more steps for each worker and one for the
  -- signal thread, in any order of the threads, and it can stop only when the signal thread has ended
  -- and every worker has exited.
  pub shutdown_terminates :
      (k : ℕ) {u : World}
      → w.state.shutting_down ≡ true
      → Run w k u
      → (k ≤ 3 * workers + 1) × (((u.sig ≡ ended) × AllExited u.workers) ⊎ ((v : World) × Step u v))
  shutdown_terminates k up r =
      let (ending, le) = Run-IsEnding r (record { flag = up; late = late }) in
      (
        omega (arith, total-rank-le w.workers, staffed.staff, at_most w.sig),
        progress _ ending (Run-keeps r (Run-IsAwake workers config m before)),
      )
    where
      staffed : IsStaffed workers w
      staffed = Run-IsStaffed workers config m before

      late : IsLate w.sig
      late = elim staffed.last [ inl down ↦ cc | inr l ↦ l ]

      at_most : (s : SigPlace) → sig_rank s ≤ 1
      at_most waking = omega arith
      at_most ended = omega arith
      at_most listening = omega arith
      at_most (enqueueing work) = omega arith
      at_most (blocked work) = omega arith
      at_most stopping = omega arith
