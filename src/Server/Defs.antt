-- ===== src/Server/Defs.antt =====
-- `struct server`, and what the handlers need of the world around them.
use mini_project_of_linux_pr.Prelude.{ℕ, List, ℤ, Bool, Option, set}
use mini_project_of_linux_pr.Heap.{Ptr, Heap}
use mini_project_of_linux_pr.Types.{Buffer, Task, Response}
use mini_project_of_linux_pr.Queue.Task.{TaskQueue}
use mini_project_of_linux_pr.Queue.Response.{ResponseQueue}
use mini_project_of_linux_pr.Client.{Client, Transmit}

pub record Server (R : Type 0) : Type 0 where
  pub listen_fd : ℤ
  pub broadcast_fd : ℤ
  pub event_fd : ℤ
  pub epoll_fd : ℤ
  pub clients : List (Client R)
  pub tasks : TaskQueue
  pub response : ResponseQueue
  pub shutdown : Bool
  pub task_heap : Heap Task
  pub response_heap : Heap Response
  pub transmit_heap : Heap Transmit

-- What the allocator and the clock give to one call: memory for a packet, a `struct data_transmit`
-- and a `struct task` with what that memory holds, and two readings of the clock.
pub record Given : Type 0 where
  pub packet_buf : Option Buffer
  pub data_send : Ptr
  pub task : Ptr
  pub raw : Task
  pub now : ℕ
  pub later : ℕ

module _ {R : Type 0} where
  abbrev pub set_client : Server R → ℕ → Client R → Server R
  set_client sv slot c = record sv { clients = set sv.clients slot c }
