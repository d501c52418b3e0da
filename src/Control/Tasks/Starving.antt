-- ===== src/Control/Tasks/Starving.antt =====
-- About the wait on `queue_wakeup` (unix-domain-socket-control-plane/gatewayd/server.c).
use mini_project_of_linux_pr.Prelude.{
  ℕ, zero, suc, Bool, true, false, some, List, [], ◌∷◌, get_elem?, ◌≡◌, ◌≢◌, refl, sym, ap, subst,
  ◌∙◌, arith,
}
use mini_project_of_linux_pr.Control.Structs.{Task, MessageQueue, Server}
use mini_project_of_linux_pr.Control.Tasks.{
  try_enqueue_task, Kind, low_pri_worker, goes_round, worker_loop, Thread, Crew, round, Steps, here,
  next, after_turn,
}

-- Every worker that is awake serves only the low queue.
abbrev pub OnlyLow : List Thread → Type 0
OnlyLow [] = Unit
OnlyLow (th ∷ ths) = (th.asleep ≡ false → th.kind ≡ low_pri_worker) × OnlyLow ths

OnlyLow-get :
    (ths : List Thread) (i : ℕ) (th : Thread)
    → OnlyLow ths
    → get_elem? ths i ≡ some th
    → th.asleep ≡ false
    → th.kind ≡ low_pri_worker
OnlyLow-get [] i th h e up = cc
OnlyLow-get (t ∷ ths) zero th h e up =
    let same : t ≡ th = cc in
    subst (λ (x : Thread). x.asleep ≡ false → x.kind ≡ low_pri_worker) same h.0 up
OnlyLow-get (t ∷ ths) (suc i) th h e up = OnlyLow-get ths i th h.1 e up

low_goes_round :
    (sv : Server)
    → sv.shutdown ≡ false
    → sv.low_priority_queue.count ≡ 0
    → sv.high_priority_queue.count ≢ 0
    → worker_loop low_pri_worker sv ≡ goes_round
unfolding worker_loop
low_goes_round sv up empty some_there = ground arith

enqueued_count :
    (q q' : MessageQueue) (t : Task)
    → try_enqueue_task false (some q) t ≡ some (true, some q')
    → q'.count ≢ 0
unfolding try_enqueue_task
enqueued_count q q' t e = ground arith

module _ (process_task : Server → Task → Server) where
  Steps-stay :
      (c : Crew)
      → ((th : Thread) (i : ℕ)
          → get_elem? c.threads i ≡ some th
          → th.asleep ≡ false
          → worker_loop th.kind c.server ≡ goes_round)
      → {d : Crew} → Steps process_task c d
      → d ≡ c
  Steps-stay c stay here = refl
  Steps-stay c stay (next {d} r (round i th there awake)) =
      let same = Steps-stay c stay r in
      let at : get_elem? c.threads i ≡ some th =
        ap (λ (x : Crew). get_elem? x.threads i) (sym same) ∙ there in
      let turn : worker_loop th.kind d.server ≡ goes_round =
        ap (λ (x : Crew). worker_loop th.kind x.server) same ∙ stay th i at awake in
      ap (after_turn process_task d i th) turn ∙ same

  -- A task that was put into the high queue of an open server is never taken, when the workers that are
  -- awake are those of the low queue, which is empty: whatever rounds they make, no worker takes a
  -- task, none of them sleeps, and none of the others is woken, as long as no other signal comes.
  pub high_task_starves :
      (sv : Server) (q : MessageQueue) (t : Task) (threads : List Thread)
      → sv.shutdown ≡ false
      → sv.low_priority_queue.count ≡ 0
      → try_enqueue_task sv.shutdown (some sv.high_priority_queue) t ≡ some (true, some q)
      → OnlyLow threads
      → {d : Crew}
      → Steps process_task
          (record { server = record sv { high_priority_queue = q }; threads = threads })
          d
      → d ≡ record { server = record sv { high_priority_queue = q }; threads = threads }
  high_task_starves sv q t threads up empty put low steps =
      let sv1 : Server = record sv { high_priority_queue = q } in
      let some_there =
        enqueued_count sv.high_priority_queue q t
          (ap (λ (b : Bool). try_enqueue_task b (some sv.high_priority_queue) t) (sym up) ∙ put) in
      Steps-stay (record { server = sv1; threads = threads })
        (λ th i at awake.
          ap (λ (k : Kind). worker_loop k sv1) (OnlyLow-get threads i th low at awake)
          ∙ low_goes_round sv1 up empty some_there)
        steps
