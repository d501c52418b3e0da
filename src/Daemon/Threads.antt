-- ===== src/Daemon/Threads.antt =====
-- signal-aware-multithreaded-daemon/main.c: `worker_thread` and `sig_thread` as steps between two
-- locks of a mutex, over the shared state. A wait on a condition variable ends by a signal to it, or
-- without one, as POSIX allows.
pub mod Counting
pub mod Wakeups
pub mod Shutdown
pub mod Jobs
pub mod Turns
pub mod Ending
pub mod Carried
use mini_project_of_linux_pr.Prelude.{
  ℕ, ◌+◌, Bool, true, false, Option, none, some, ◌>>=◌, List, [], ◌∷◌, map, get_elem?, set, ◌≡◌,
  ◌≢◌, zero, suc, if◌then◌else◌,
}
use mini_project_of_linux_pr.Daemon.{
  WorkType, job_none, job_reload_config, job_print_status, job_do_work, job_shutdown, Workqueue,
  Data, DaemonState, enqueue_work, Dequeued, waits, fails, takes, dequeueu_work,
  convert_signal_to_string,
}
use mini_project_of_linux_pr.Daemon.Settings.{File, get_file_config}

-- Where a worker is: about to lock the queue, asleep on `not_empty`, or back from
-- `dequeueu_work` without and with a job, at work on it, or gone.
pub data Place : Type 0 where
  at_queue : Place
  asleep : Place
  refused : Place
  holding : Workqueue → Place
  doing : Workqueue → Place
  exited : Place

-- Where the signal thread is: in `sigwaitinfo`, about to lock the queue, asleep on `not_full`, about
-- to set the flag, about to wake the workers, or gone.
pub data SigPlace : Type 0 where
  listening : SigPlace
  enqueueing : Workqueue → SigPlace
  blocked : Workqueue → SigPlace
  stopping : SigPlace
  waking : SigPlace
  ended : SigPlace

-- What the configuration file holds when a worker reads it.
pub record Files : Type 0 where
  pub first : File
  pub second : File
  pub third : File

-- The switch of `worker_thread`; `none` when a number of the file is none.
unfoldable pub do_work : Files → DaemonState → WorkType → Option (Place × DaemonState)
do_work f st job_do_work = some (at_queue, record st { work_done_count = st.work_done_count + 1 })
do_work f st job_print_status = some (at_queue, st)
do_work f st job_reload_config = do
  config ← get_file_config f.first f.second f.third
  some (
    at_queue,
    record st { daemon_config = config; reload_config_count = st.reload_config_count + 1 },
  )
do_work f st job_shutdown = some (exited, st)
do_work f st job_none = some (at_queue, st)

-- What `dequeueu_work` makes of the worker and the state.
abbrev pub dequeued : DaemonState → Dequeued → Option (Place × DaemonState)
dequeued st waits = some (asleep, st)
dequeued st fails = some (refused, st)
dequeued st (takes work d) = some (holding work, record st { daemon_data = d })

-- A worker goes on; one that sleeps or is gone does not.
unfoldable pub worker_turn : Files → DaemonState → Place → Option (Place × DaemonState)
unfolding do_work
worker_turn f st at_queue = dequeued st (dequeueu_work st.shutting_down st.daemon_data)
worker_turn f st refused = some (if st.shutting_down then exited else at_queue, st)
worker_turn f st (holding work) = some (if st.shutting_down then exited else doing work, st)
worker_turn f st (doing work) = do_work f st work.type
worker_turn f st asleep = none
worker_turn f st exited = none

pub record World : Type 0 where
  pub state : DaemonState
  pub workers : List Place
  pub sig : SigPlace

-- `pthread_cond_signal(&not_full)`: only the signal thread waits on it.
abbrev pub room_made : SigPlace → SigPlace
room_made (blocked work) = enqueueing work
room_made listening = listening
room_made (enqueueing work) = enqueueing work
room_made stopping = stopping
room_made waking = waking
room_made ended = ended

-- A job was taken.
abbrev pub after_turn : Place → SigPlace → SigPlace
after_turn (holding work) s = room_made s
after_turn at_queue s = s
after_turn asleep s = s
after_turn refused s = s
after_turn (doing work) s = s
after_turn exited s = s

abbrev pub wake : Place → Place
wake asleep = at_queue
wake at_queue = at_queue
wake refused = refused
wake (holding work) = holding work
wake (doing work) = doing work
wake exited = exited

-- `if (type == JOB_SHUTDOWN)`, after the job was queued.
abbrev pub after_enqueue : WorkType → SigPlace
after_enqueue job_shutdown = stopping
after_enqueue job_none = listening
after_enqueue job_reload_config = listening
after_enqueue job_print_status = listening
after_enqueue job_do_work = listening

-- `pthread_cond_signal(&not_empty)`: a worker that sleeps is woken, if there is one.
pub data Signalled (ws : List Place) : List Place → Type 0 where
  nobody : ((i : ℕ) → get_elem? ws i ≢ some asleep) → Signalled ws ws
  one : (i : ℕ) → get_elem? ws i ≡ some asleep → Signalled ws (set ws i at_queue)

pub data Step : World → World → Type 0 where
  worker :
      (w : World) (f : Files) (i : ℕ) (p q : Place) (st : DaemonState)
      → get_elem? w.workers i ≡ some p
      → worker_turn f w.state p ≡ some (q, st)
      → Step w (record { state = st; workers = set w.workers i q; sig = after_turn q w.sig })
  -- a worker wakes without a signal
  spurious :
      (w : World) (i : ℕ)
      → get_elem? w.workers i ≡ some asleep
      → Step w (record w { workers = set w.workers i at_queue })
  receive :
      (w : World) (signal : ℕ)
      → w.sig ≡ listening
      → Step w (record w {
        sig = enqueueing (record { type = convert_signal_to_string signal; signal = signal });
      })
  block :
      (w : World) (work : Workqueue)
      → w.sig ≡ enqueueing work
      → enqueue_work work w.state.daemon_data ≡ none
      → Step w (record w { sig = blocked work })
  -- the signal thread wakes without a signal
  retry :
      (w : World) (work : Workqueue)
      → w.sig ≡ blocked work
      → Step w (record w { sig = enqueueing work })
  enqueue :
      (w : World) (work : Workqueue) (d : Data) (ws : List Place)
      → w.sig ≡ enqueueing work
      → enqueue_work work w.state.daemon_data ≡ some d
      → Signalled w.workers ws
      → Step w (record {
        state = record w.state { daemon_data = d };
        workers = ws;
        sig = after_enqueue work.type;
      })
  raise :
      (w : World)
      → w.sig ≡ stopping
      → Step w (record w { state = record w.state { shutting_down = true }; sig = waking })
  broadcast :
      (w : World) → w.sig ≡ waking → Step w (record w { workers = map wake w.workers; sig = ended })

-- A run of the daemon, and how many steps it has.
pub data Run (w : World) : ℕ → World → Type 0 where
  here : Run w 0 w
  next : (n : ℕ) {u v : World} → Run w n u → Step u v → Run w (n + 1) v

-- `thread_create`: `n` workers and the signal thread.
abbrev pub starting : ℕ → List Place
starting zero = []
starting (suc n) = at_queue ∷ starting n
