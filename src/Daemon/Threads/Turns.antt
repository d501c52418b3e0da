-- ===== src/Daemon/Threads/Turns.antt =====
-- About one turn of a worker (signal-aware-multithreaded-daemon/main.c).
use mini_project_of_linux_pr.Prelude.{some, ◌≡◌, ◌⊎◌, arith}
use mini_project_of_linux_pr.Daemon.{
  WorkType, job_none, job_reload_config, job_print_status, job_do_work, job_shutdown, DaemonState,
  dequeueu_work,
}
use mini_project_of_linux_pr.Daemon.Threads.{
  Place, at_queue, asleep, refused, holding, doing, exited, Files, do_work, worker_turn,
}

pub do_work-keeps :
    (f : Files) (st st' : DaemonState) (t : WorkType) (q : Place)
    → do_work f st t ≡ some (q, st')
    → (st'.daemon_data ≡ st.daemon_data)
      × (st'.shutting_down ≡ st.shutting_down)
      × ((q ≡ at_queue) ⊎ (q ≡ exited))
unfolding do_work
do_work-keeps f st st' job_none q e = ground arith
do_work-keeps f st st' job_reload_config q e = ground arith
do_work-keeps f st st' job_print_status q e = ground arith
do_work-keeps f st st' job_do_work q e = ground arith
do_work-keeps f st st' job_shutdown q e = ground arith

pub turn-flag :
    (f : Files) (st st' : DaemonState) (p q : Place)
    → worker_turn f st p ≡ some (q, st')
    → st'.shutting_down ≡ st.shutting_down
unfolding worker_turn
turn-flag f st st' asleep q e = cc
turn-flag f st st' exited q e = cc
turn-flag f st st' refused q e = ground arith
turn-flag f st st' (holding work) q e = ground arith
turn-flag f st st' (doing work) q e = ground (arith, do_work-keeps f st st' work.type q)
turn-flag f st st' at_queue q e = unfold dequeueu_work in ground arith
