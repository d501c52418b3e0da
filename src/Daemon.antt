-- ===== src/Daemon.antt =====
-- signal-aware-multithreaded-daemon/main.c: the jobs, the daemon's state and its queue of jobs, an
-- array of `queue_cap` cells used as a ring. The operations of the queue are what the C functions do
-- while they hold the queue's mutex; their pointers are never NULL here.
pub mod Ring
pub mod Settings
pub mod Threads
use mini_project_of_linux_pr.Prelude.{
  ℕ, ◌+◌, ◌-◌, ◌%◌, Bool, true, false, not, ◌&&◌, ◌==◌, if◌then◌else◌, Option, none, some, List, ℤ,
}

abbrev pub queue_cap : ℕ
queue_cap = 32

-- `work_type`
pub data WorkType : Type 0 where
  job_none : WorkType
  job_reload_config : WorkType
  job_print_status : WorkType
  job_do_work : WorkType
  job_shutdown : WorkType

-- `struct workqueue`: one job, and the number of its signal.
pub record Workqueue : Type 0 where
  pub type : WorkType
  pub signal : ℕ

-- `struct data`: the mutex and the condition variables are in the steps of the threads.
pub record Data : Type 0 where
  pub queue : ℕ → Workqueue
  pub head : ℕ
  pub tail : ℕ
  pub count : ℕ

-- `struct config`; `log_level` is the text in the array.
pub record Config : Type 0 where
  pub sample_rate : ℤ
  pub woker_delay : ℤ
  pub log_level : List ℕ

pub record DaemonState : Type 0 where
  pub daemon_data : Data
  pub daemon_config : Config
  pub reload_config_count : ℕ
  pub work_done_count : ℕ
  pub shutting_down : Bool

-- `data_config`; `zeroed` is the job that `memset` leaves in each cell.
unfoldable pub data_config : Data
data_config = record {
  queue = λ i. record { type = job_none; signal = 0 };
  head = 0;
  tail = 0;
  count = 0;
}

-- An assignment to one cell of the array.
abbrev pub store : (ℕ → Workqueue) → ℕ → Workqueue → ℕ → Workqueue
store q i w j = if i == j then w else q j

-- `enqueue_work` from the lock of the mutex on; `none` when it waits on `not_full`.
unfoldable pub enqueue_work : Workqueue → Data → Option Data
enqueue_work work d =
    if d.count == queue_cap
    then none
    else some (record d {
      queue = store d.queue d.tail work;
      tail = (d.tail + 1) % queue_cap;
      count = d.count + 1;
    })

-- How `dequeueu_work` goes on once it holds the mutex.
pub data Dequeued : Type 0 where
  waits : Dequeued
  fails : Dequeued
  takes : Workqueue → Data → Dequeued

unfoldable pub dequeueu_work : Bool → Data → Dequeued
dequeueu_work shutting_down d =
    if d.count == 0 && not shutting_down
    then waits
    else if shutting_down && d.count == 0
    then fails
    else takes (d.queue d.head) (record d { head = (d.head + 1) % queue_cap; count = d.count - 1 })

-- The signals that `system_config` blocks for the signal thread.
abbrev pub sighup : ℕ
sighup = 1

abbrev pub sigint : ℕ
sigint = 2

abbrev pub sigusr1 : ℕ
sigusr1 = 10

abbrev pub sigterm : ℕ
sigterm = 15

-- `convert_signal_to_string`: the job of a signal. The text is for a log that is not written.
unfoldable pub convert_signal_to_string : ℕ → WorkType
convert_signal_to_string sig_num =
    if sig_num == sigterm
    then job_shutdown
    else if sig_num == sigusr1
    then job_do_work
    else if sig_num == sighup
    then job_reload_config
    else if sig_num == sigint
    then job_shutdown
    else job_none
