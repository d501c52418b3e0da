-- ===== src/Types.antt =====
-- The structures that the parts of the gateway hand to one another (gateway/include/queue.h,
-- gateway/include/common.h). A byte array is a function from the index to the byte.
use mini_project_of_linux_pr.Prelude.{ℕ, ℤ}

abbrev pub Buffer : Type 0
Buffer = ℕ → ℕ

abbrev pub max_payload : ℕ
max_payload = 4096

abbrev pub max_clients : ℕ
max_clients = 128

abbrev pub task_queue_max : ℕ
task_queue_max = 1024

abbrev pub num_workers : ℕ
num_workers = 4

abbrev pub request_timeout_ms : ℕ
request_timeout_ms = 5000

abbrev pub idle_timeout_sec : ℕ
idle_timeout_sec = 60

-- What an `int` function of the gateway returns: 0, -1 or -EAGAIN.
pub data Status : Type 0 where
  ok : Status
  failed : Status
  again : Status

-- `struct task`, without the link that the queue keeps in it
pub record Task : Type 0 where
  pub slot : ℤ
  pub task_id : ℕ
  pub generation : ℕ
  pub type : ℕ
  pub request_id : ℕ
  pub payload : Buffer
  pub timeout_ms : ℕ
  pub length : ℕ

-- `struct response`, without its link
pub record Response : Type 0 where
  pub slot : ℤ
  pub generation : ℕ
  pub type : ℕ
  pub request_id : ℕ
  pub length : ℕ
  pub payload : Buffer
