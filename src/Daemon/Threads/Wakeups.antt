-- ===== src/Daemon/Threads/Wakeups.antt =====
-- About the waits of the threads (signal-aware-multithreaded-daemon/main.c).
use mini_project_of_linux_pr.Prelude.{
  ℕ, suc, ◌+◌, ◌≤◌, Bool, true, false, List, [], ◌∷◌, none, some, get_elem?, set, ◌≡◌, ◌≢◌, refl,
  ◌⊎◌, inl, inr, arith,
}
use mini_project_of_linux_pr.Daemon.{
  queue_cap, WorkType, job_none, job_reload_config, job_print_status, job_do_work, job_shutdown,
  Workqueue, Data, DaemonState, enqueue_work, dequeueu_work, Config, data_config,
}
use mini_project_of_linux_pr.Daemon.Ring.{IsRing, work_queue_refines}
use mini_project_of_linux_pr.Daemon.Threads.{
  Place, at_queue, asleep, refused, holding, doing, exited, SigPlace, listening, enqueueing,
  blocked, stopping, waking, ended, Files, worker_turn, World, after_turn, wake, after_enqueue,
  Signalled, nobody, one, Step, worker, spurious, receive, block, retry, enqueue, raise, broadcast,
  Run, here, next, starting,
}
use mini_project_of_linux_pr.Daemon.Threads.Turns.{do_work-keeps}
use mini_project_of_linux_pr.Daemon.Threads.Counting.{total, total-set, total-wake}

abbrev pub if_asleep : Place → ℕ
if_asleep asleep = 1
if_asleep at_queue = 0
if_asleep refused = 0
if_asleep (holding work) = 0
if_asleep (doing work) = 0
if_asleep exited = 0

abbrev pub if_at_queue : Place → ℕ
if_at_queue at_queue = 1
if_at_queue asleep = 0
if_at_queue refused = 0
if_at_queue (holding work) = 0
if_at_queue (doing work) = 0
if_at_queue exited = 0

-- What the signal thread's place says of the number of jobs, the flag and the workers asleep.
abbrev pub AtSig : ℕ → Bool → ℕ → SigPlace → Type 0
AtSig count flag sleepers (blocked work) = count ≡ queue_cap
AtSig count flag sleepers waking = flag ≡ true
AtSig count flag sleepers ended = (flag ≡ true) × (sleepers ≡ 0)
AtSig count flag sleepers listening = Unit
AtSig count flag sleepers (enqueueing work) = Unit
AtSig count flag sleepers stopping = Unit

pub record IsAwake (w : World) : Type 0 where
  pub ring : IsRing w.state.daemon_data
  pub served :
      (total if_asleep w.workers ≡ 0) ⊎ (w.state.daemon_data.count ≤ total if_at_queue w.workers)
  pub at_sig :
      AtSig w.state.daemon_data.count w.state.shutting_down (total if_asleep w.workers) w.sig

module _ (w : World) (f : Files) (i : ℕ) (st : DaemonState) (v : IsAwake w) where
  abbrev after : Place → World
  after q = record { state = st; workers = set w.workers i q; sig = after_turn q w.sig }

  sums :
      (p q : Place)
      → get_elem? w.workers i ≡ some p
      → (total if_asleep (set w.workers i q) + if_asleep p
          ≡ total if_asleep w.workers + if_asleep q)
        × (total if_at_queue (set w.workers i q) + if_at_queue p
            ≡ total if_at_queue w.workers + if_at_queue q)
  sums p q h = (total-set if_asleep w.workers i p q h, total-set if_at_queue w.workers i p q h)

  at_queue-IsAwake :
      (q : Place)
      → get_elem? w.workers i ≡ some at_queue
      → worker_turn f w.state at_queue ≡ some (q, st)
      → IsAwake (after q)
  unfolding worker_turn dequeueu_work
  at_queue-IsAwake q h e = ground (arith, sums at_queue q h)

  doing-IsAwake :
      (work : Workqueue) (q : Place)
      → get_elem? w.workers i ≡ some (doing work)
      → worker_turn f w.state (doing work) ≡ some (q, st)
      → IsAwake (after q)
  unfolding worker_turn
  doing-IsAwake work q h e =
      ground (arith, sums (doing work) q h, do_work-keeps f w.state st work.type q)

  worker-IsAwake :
      (p q : Place)
      → get_elem? w.workers i ≡ some p
      → worker_turn f w.state p ≡ some (q, st)
      → IsAwake (after q)
  unfolding worker_turn
  worker-IsAwake at_queue q h e = at_queue-IsAwake q h e
  worker-IsAwake asleep q h e = cc
  worker-IsAwake refused q h e = ground (arith, sums refused q h)
  worker-IsAwake (holding work) q h e = ground (arith, sums (holding work) q h)
  worker-IsAwake (doing work) q h e = doing-IsAwake work q h e
  worker-IsAwake exited q h e = cc

no_sleepers : (ws : List Place) → ((i : ℕ) → get_elem? ws i ≢ some asleep) → total if_asleep ws ≡ 0
no_sleepers [] h = refl
no_sleepers (asleep ∷ ws) h = absurd (h 0 refl)
no_sleepers (at_queue ∷ ws) h = omega (arith, no_sleepers ws (λ i. h (suc i)))
no_sleepers (refused ∷ ws) h = omega (arith, no_sleepers ws (λ i. h (suc i)))
no_sleepers (holding work ∷ ws) h = omega (arith, no_sleepers ws (λ i. h (suc i)))
no_sleepers (doing work ∷ ws) h = omega (arith, no_sleepers ws (λ i. h (suc i)))
no_sleepers (exited ∷ ws) h = omega (arith, no_sleepers ws (λ i. h (suc i)))

-- A signal to `not_empty` leaves no sleeper, or one more worker on its way to the queue.
Signalled-sums :
    {ws us : List Place}
    → Signalled ws us
    → (total if_asleep us ≡ 0)
      ⊎ ((total if_at_queue us ≡ total if_at_queue ws + 1)
          × (total if_asleep us + 1 ≡ total if_asleep ws))
Signalled-sums {ws} (nobody h) = inl (no_sleepers ws h)
Signalled-sums {ws} (one i h) = inr (
  omega (arith, total-set if_at_queue ws i asleep at_queue h),
  omega (arith, total-set if_asleep ws i asleep at_queue h),
)

none_asleep : (p : Place) → if_asleep (wake p) ≤ 0
none_asleep asleep = omega arith
none_asleep at_queue = omega arith
none_asleep refused = omega arith
none_asleep (holding work) = omega arith
none_asleep (doing work) = omega arith
none_asleep exited = omega arith

total-nothing : (ws : List Place) → total (λ p. 0) ws ≡ 0
total-nothing [] = refl
total-nothing (p ∷ ws) = omega (arith, total-nothing ws)

enqueue-IsAwake :
    (w : World) (work : Workqueue) (d : Data) (ws : List Place)
    → w.sig ≡ enqueueing work
    → enqueue_work work w.state.daemon_data ≡ some d
    → Signalled w.workers ws
    → IsAwake w
    → IsAwake (record {
      state = record w.state { daemon_data = d };
      workers = ws;
      sig = after_enqueue work.type;
    })
unfolding enqueue_work
enqueue-IsAwake w work d ws at e s v =
    let kept = (work_queue_refines work true w.state.daemon_data v.ring).1 in
    queued (kept d e) (Signalled-sums s) (ground arith) work.type
  where
    queued :
        IsRing d
        → ((total if_asleep ws ≡ 0)
            ⊎ ((total if_at_queue ws ≡ total if_at_queue w.workers + 1)
                × (total if_asleep ws + 1 ≡ total if_asleep w.workers)))
        → d.count ≡ w.state.daemon_data.count + 1
        → (t : WorkType)
        → IsAwake (record {
          state = record w.state { daemon_data = d };
          workers = ws;
          sig = after_enqueue t;
        })
    queued r by one_more t = record {
      ring = r;
      served = ground (arith, v.served);
      at_sig = ready t;
    }
      where
        ready :
            (t : WorkType)
            → AtSig d.count w.state.shutting_down (total if_asleep ws) (after_enqueue t)
        ready job_none = tt
        ready job_reload_config = tt
        ready job_print_status = tt
        ready job_do_work = tt
        ready job_shutdown = tt

block-full : (work : Workqueue) (d : Data) → enqueue_work work d ≡ none → d.count ≡ queue_cap
unfolding enqueue_work
block-full work d e = ground arith

pub Step-IsAwake : {w u : World} → Step w u → IsAwake w → IsAwake u
Step-IsAwake (worker w f i p q st h e) v = worker-IsAwake w f i st v p q h e
Step-IsAwake (spurious w i h) v = ground (
  arith,
  total-set if_asleep w.workers i asleep at_queue h,
  total-set if_at_queue w.workers i asleep at_queue h,
)
Step-IsAwake (receive w n at) v = ground arith
Step-IsAwake (block w work at full) v = ground (arith, block-full work w.state.daemon_data full)
Step-IsAwake (retry w work at) v = ground arith
Step-IsAwake (enqueue w work d ws at e s) v = enqueue-IsAwake w work d ws at e s v
Step-IsAwake (raise w at) v = ground arith
Step-IsAwake (broadcast w at) v =
    ground (arith, total-wake if_asleep (λ p. 0) w.workers none_asleep, total-nothing w.workers)

-- The daemon starts with an empty queue, the flag down, the workers on their way to the queue and
-- the signal thread listening.
abbrev pub started : ℕ → Config → World
started n config = record {
  state = record {
    daemon_data = data_config;
    daemon_config = config;
    reload_config_count = 0;
    work_done_count = 0;
    shutting_down = false;
  };
  workers = starting n;
  sig = listening;
}

started-IsAwake : (n : ℕ) (config : Config) → IsAwake (started n config)
unfolding data_config
started-IsAwake n config = record { ring = omega arith; served = inr (omega arith); at_sig = tt }

module _ (workers : ℕ) (config : Config) where
  -- At every point of every run of the daemon: the queue is a well-formed ring, a worker that sleeps
  -- on `not_empty` leaves no job behind, since each job in the queue has a worker that is on its way
  -- to the queue, the signal thread sleeps on `not_full` only while the queue is full, and no worker
  -- sleeps once the signal thread has ended.
  pub Run-IsAwake : (k : ℕ) {w : World} → Run (started workers config) k w → IsAwake w
  Run-IsAwake k here = started-IsAwake workers config
  Run-IsAwake k (next m r s) = Step-IsAwake s (Run-IsAwake m r)
