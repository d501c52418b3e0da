-- ===== src/Tests/Daemons.antt =====
-- The daemon (signal-aware-multithreaded-daemon/main.c) at concrete inputs.
use mini_project_of_linux_pr.Prelude.{
  ℕ, ◌+◌, ◌*◌, ◌≤◌, Bool, true, false, none, some, List, [], ◌∷◌, pos, negsuc, get_elem?, ◌≡◌, ◌≢◌,
  refl, ◌⊎◌, arith, zero, suc,
}
use mini_project_of_linux_pr.Daemon.{
  Workqueue, Data, Config, job_do_work, job_shutdown, data_config, store, enqueue_work,
  dequeueu_work, takes, convert_signal_to_string,
}
use mini_project_of_linux_pr.Daemon.Ring.{
  IsRing, jobs, queued, seen, bounded_push, bounded_pop, work_queue_refines,
}
use mini_project_of_linux_pr.Daemon.Settings.{
  sample_rate_param, val_size, read_param_config, get_file_config, copied,
}
use mini_project_of_linux_pr.Prelude.Text.{codes}
use mini_project_of_linux_pr.Daemon.Settings.Lines.{
  Line, setting, comment, blank, print, value_of, as_param, read_param_config-print,
}
use mini_project_of_linux_pr.Daemon.Threads.{
  Place, at_queue, asleep, holding, exited, SigPlace, listening, enqueueing, stopping, waking,
  ended, World, worker_turn, Files, nobody, Step, worker, receive, enqueue, raise, broadcast, Run,
  here, next,
}
use mini_project_of_linux_pr.Daemon.Threads.Counting.{total}
use mini_project_of_linux_pr.Daemon.Threads.Wakeups.{started, IsAwake, Run-IsAwake}
use mini_project_of_linux_pr.Daemon.Threads.Carried.{carried, begun, work_in}
use mini_project_of_linux_pr.Daemon.Threads.Jobs.{accepted, jobs_conserved, shutdown_drops_jobs}
use mini_project_of_linux_pr.Daemon.Threads.Shutdown.{AllExited, shutdown_terminates}

abbrev usr1 : Workqueue
usr1 = record { type = job_do_work; signal = 10 }

abbrev term : Workqueue
term = record { type = job_shutdown; signal = 15 }

abbrev wrapped : Data
wrapped = record { queue = λ i. usr1; head = 31; tail = 1; count = 2 }

work_queue_refines_example :
    (queued (enqueue_work term wrapped) ≡ bounded_push term (jobs wrapped))
    × ((d' : Data) → enqueue_work term wrapped ≡ some d' → IsRing d')
    × (seen (dequeueu_work false wrapped) ≡ bounded_pop false (jobs wrapped))
    × ((w : Workqueue) (d' : Data) → dequeueu_work false wrapped ≡ takes w d' → IsRing d')
work_queue_refines_example = work_queue_refines term false wrapped (omega arith)

-- A file with a comment, an empty line and two settings.
abbrev more_lines : List (Line × Bool)
more_lines =
    (blank, false)
    ∷ (setting (codes "sample_rate") (codes "250"), true)
    ∷ (setting (codes "delay") (codes "7"), false)
    ∷ []

read_param_config-print_example :
    read_param_config
      (some (print ((comment (codes " rates"), true) ∷ more_lines)))
      sample_rate_param
      val_size
    ≡ copied val_size
        (as_param (value_of sample_rate_param ((comment (codes " rates"), true) ∷ more_lines)))
read_param_config-print_example =
    read_param_config-print sample_rate_param val_size (comment (codes " rates")) true more_lines
      (ground arith) (omega arith)

settings_of_a_file :
    get_file_config (some (print more_lines)) (some (print more_lines)) none
    ≡ some (record { sample_rate = pos 250; woker_delay = pos 7; log_level = codes "INFO" })
unfolding get_file_config
settings_of_a_file = refl

negative_with_text_behind :
    get_file_config (some (codes "sample_rate= -40ms\n")) none (some (codes "#\nlog_level=DEBUG"))
    ≡ some (record { sample_rate = negsuc 39; woker_delay = pos 500; log_level = codes "DEBUG" })
unfolding get_file_config
negative_with_text_behind = refl

-- A run with one worker: a job of work is queued and taken, and the daemon is told to stop before
-- the worker has looked at the flag.
abbrev config : Config
config = record { sample_rate = pos 1; woker_delay = pos 1; log_level = [] }

abbrev w0 : World
w0 = started 1 config

abbrev at : Data → List Place → SigPlace → Bool → World
at d ws s b = record {
  state = record {
    daemon_data = d;
    daemon_config = config;
    reload_config_count = 0;
    work_done_count = 0;
    shutting_down = b;
  };
  workers = ws;
  sig = s;
}

-- the queue after the jobs that were put into it and taken from it
abbrev one_in : Data
one_in = record { queue = store data_config.queue 0 usr1; head = 0; tail = 1; count = 1 }

abbrev one_out : Data
one_out = record { queue = store data_config.queue 0 usr1; head = 1; tail = 1; count = 0 }

abbrev both : Data
both = record {
  queue = store (store data_config.queue 0 usr1) 1 term;
  head = 1;
  tail = 2;
  count = 1;
}

nobody_asleep : (p : Place) → p ≢ asleep → (i : ℕ) → get_elem? (p ∷ []) i ≢ some asleep
nobody_asleep p ne zero e = ne (some_injective e)
  where
    some_injective : some p ≡ some asleep → p ≡ asleep
    some_injective h = cc
nobody_asleep p ne (suc i) e = cc

abbrev nothing : Files
nothing = record { first = none; second = none; third = none }

-- SIGUSR1 arrives, its job is queued, and the worker takes it.
abbrev taken : World
taken = at one_out (holding usr1 ∷ []) listening false

first_steps : Run w0 (0 + 1 + 1 + 1) taken
unfolding convert_signal_to_string enqueue_work dequeueu_work worker_turn data_config
first_steps = next 2 (next 1 (next 0 here r1) r2) r3
  where
    r1 : Step w0 (at data_config (at_queue ∷ []) (enqueueing usr1) false)
    r1 = receive w0 10 refl

    r2 :
        Step
          (at data_config (at_queue ∷ []) (enqueueing usr1) false)
          (at one_in (at_queue ∷ []) listening false)
    r2 = enqueue _ usr1 one_in (at_queue ∷ []) refl refl (nobody (nobody_asleep at_queue (λ e. cc)))

    r3 : Step (at one_in (at_queue ∷ []) listening false) taken
    r3 = worker _ nothing 0 at_queue (holding usr1) _ refl refl

-- SIGTERM arrives, and the flag is set before the worker goes on.
abbrev flagged : World
flagged = at both (holding usr1 ∷ []) waking true

to_flag : Run w0 (0 + 1 + 1 + 1 + 1 + 1 + 1) flagged
unfolding convert_signal_to_string enqueue_work
to_flag = next 5 (next 4 (next 3 first_steps r1) r2) r3
  where
    r1 : Step taken (at one_out (holding usr1 ∷ []) (enqueueing term) false)
    r1 = receive taken 15 refl

    r2 :
        Step
          (at one_out (holding usr1 ∷ []) (enqueueing term) false)
          (at both (holding usr1 ∷ []) stopping false)
    r2 =
        enqueue _ term both (holding usr1 ∷ []) refl refl
          (nobody (nobody_asleep (holding usr1) (λ e. cc)))

    r3 : Step (at both (holding usr1 ∷ []) stopping false) flagged
    r3 = raise _ refl

-- The worker leaves with the job undone, and another job in the queue.
abbrev over : World
over = at both (exited ∷ []) ended true

to_end : Run flagged (0 + 1 + 1) over
unfolding worker_turn
to_end = next 1 (next 0 here r1) r2
  where
    r1 : Step flagged (at both (holding usr1 ∷ []) ended true)
    r1 = broadcast flagged refl

    r2 : Step (at both (holding usr1 ∷ []) ended true) over
    r2 = worker _ nothing 0 (holding usr1) exited _ refl refl

Run-IsAwake_example : IsAwake flagged
Run-IsAwake_example = Run-IsAwake 1 config 6 to_flag

jobs_conserved_example :
    accepted first_steps
    ≡ taken.state.work_done_count
      + work_in (jobs taken.state.daemon_data)
      + total carried taken.workers
jobs_conserved_example = jobs_conserved 1 config 3 first_steps refl

shutdown_drops_jobs_example :
    (over.state.shutting_down ≡ true)
    × (over.state.work_done_count + total begun over.workers
        ≡ flagged.state.work_done_count + total begun flagged.workers)
shutdown_drops_jobs_example = shutdown_drops_jobs to_end refl

shutdown_terminates_example :
    (2 ≤ 3 * 1 + 1) × (((over.sig ≡ ended) × AllExited over.workers) ⊎ ((v : World) × Step over v))
shutdown_terminates_example = shutdown_terminates 1 6 config to_flag 2 refl to_end
