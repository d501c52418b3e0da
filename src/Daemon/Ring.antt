-- ===== src/Daemon/Ring.antt =====
-- About `enqueue_work` and `dequeueu_work` (signal-aware-multithreaded-daemon/main.c).
use mini_project_of_linux_pr.Prelude.{
  ℕ, zero, suc, ◌+◌, ◌%◌, ◌≤◌, ◌<◌, Bool, true, false, ◌==◌, ==_ne, Bool-cases, inl, inr,
  if◌then◌else◌, Option, none, some, List, [], ◌∷◌, ◌++◌, length, ◌≡◌, ◌≢◌, refl, ap, arith, ltb,
}
use mini_project_of_linux_pr.Daemon.{
  queue_cap, Workqueue, Data, store, enqueue_work, Dequeued, waits, fails, takes, dequeueu_work,
}

-- The jobs in the ring, the oldest first.
abbrev items : (ℕ → Workqueue) → ℕ → ℕ → List Workqueue
items q head zero = []
items q head (suc n) = q head ∷ items q ((head + 1) % queue_cap) n

abbrev pub jobs : Data → List Workqueue
jobs d = items d.queue d.head d.count

pub record IsRing (d : Data) : Type 0 where
  pub inside : d.head < queue_cap
  pub fits : d.count ≤ queue_cap
  pub ends : d.tail ≡ (d.head + d.count) % queue_cap

-- A queue of at most `queue_cap` jobs, and what a reader of an empty one meets.
unfoldable pub bounded_push : Workqueue → List Workqueue → Option (List Workqueue)
bounded_push work xs = if ltb (length xs) queue_cap then some (xs ++ work ∷ []) else none

pub data Taken : Type 0 where
  sleep : Taken
  give_up : Taken
  job : Workqueue → List Workqueue → Taken

unfoldable pub bounded_pop : Bool → List Workqueue → Taken
bounded_pop shutting_down [] = if shutting_down then give_up else sleep
bounded_pop shutting_down (w ∷ xs) = job w xs

length-items : (q : ℕ → Workqueue) (head n : ℕ) → length (items q head n) ≡ n
length-items q head zero = refl
length-items q head (suc n) = ap suc (length-items q ((head + 1) % queue_cap) n)

-- A write behind the last job appends it.
items-store :
    (q : ℕ → Workqueue) (head n tail : ℕ) (w : Workqueue)
    → head < queue_cap
    → n < queue_cap
    → tail ≡ (head + n) % queue_cap
    → items (store q tail w) head (suc n) ≡ items q head n ++ w ∷ []
items-store q head zero tail w h k e = let here : tail ≡ head = omega arith in ground arith
items-store q head (suc n) tail w h k e =
    let next : ℕ = (head + 1) % queue_cap in
    let rest = items-store q next n tail w (omega arith) (omega arith) (omega arith) in
    let apart : (tail == head) ≡ false = ==_ne tail head (λ same. absurd (omega arith)) in
    rw (apart, rest) refl

-- What `enqueue_work` means for a bounded queue.
abbrev pub queued : Option Data → Option (List Workqueue)
queued none = none
queued (some d) = some (jobs d)

enqueue_work_refines :
    (work : Workqueue) (d : Data)
    → IsRing d
    → (queued (enqueue_work work d) ≡ bounded_push work (jobs d))
      × ((d' : Data) → enqueue_work work d ≡ some d' → IsRing d')
unfolding enqueue_work bounded_push
enqueue_work_refines work d v =
    let size = length-items d.queue d.head d.count in
    let put = items-store d.queue d.head d.count d.tail work v.inside in
    elim (Bool-cases (d.count == queue_cap)) [
      | inl full ↦ (rw full (ground (arith, size)), λ d' e. ground arith)
      | inr room ↦ (
        rw (room, size) (ground (arith, put, v.fits, v.ends)),
        λ d' e. ground (arith, v.inside, v.fits, v.ends),
      )
    ]

-- What `dequeueu_work` means for a bounded queue.
abbrev pub seen : Dequeued → Taken
seen waits = sleep
seen fails = give_up
seen (takes w d) = job w (jobs d)

dequeueu_work-seen :
    (b : Bool) (q : ℕ → Workqueue) (h t n : ℕ)
    → seen (dequeueu_work b (record { queue = q; head = h; tail = t; count = n }))
      ≡ bounded_pop b (items q h n)
unfolding dequeueu_work bounded_pop
dequeueu_work-seen true q h t zero = refl
dequeueu_work-seen false q h t zero = refl
dequeueu_work-seen true q h t (suc n) = ground arith
dequeueu_work-seen false q h t (suc n) = ground arith

dequeueu_work_refines :
    (shutting_down : Bool) (d : Data)
    → IsRing d
    → (seen (dequeueu_work shutting_down d) ≡ bounded_pop shutting_down (jobs d))
      × ((w : Workqueue) (d' : Data) → dequeueu_work shutting_down d ≡ takes w d' → IsRing d')
unfolding dequeueu_work
dequeueu_work_refines b d v =
    (dequeueu_work-seen b d.queue d.head d.tail d.count, λ w d' e. kept w d' (ground arith) e)
  where
    kept : (w : Workqueue) (d' : Data) → d.count ≢ 0 → dequeueu_work b d ≡ takes w d' → IsRing d'
    kept w d' ne e = ground (arith, v.inside, v.fits, v.ends)

-- On a well-formed ring `enqueue_work` and `dequeueu_work` are the operations of a first-in first-out
-- queue of at most 32 jobs, and keep the ring well formed: the caller of `enqueue_work` waits exactly
-- when the queue is full and else puts its job last; that of `dequeueu_work` takes the oldest job, and
-- on an empty queue waits, or gives up when the daemon shuts down.
pub work_queue_refines :
    (work : Workqueue) (shutting_down : Bool) (d : Data)
    → IsRing d
    → (queued (enqueue_work work d) ≡ bounded_push work (jobs d))
      × ((d' : Data) → enqueue_work work d ≡ some d' → IsRing d')
      × (seen (dequeueu_work shutting_down d) ≡ bounded_pop shutting_down (jobs d))
      × ((w : Workqueue) (d' : Data) → dequeueu_work shutting_down d ≡ takes w d' → IsRing d')
work_queue_refines work b d v =
    let put = enqueue_work_refines work d v in
    let got = dequeueu_work_refines b d v in (put.0, put.1, got.0, got.1)
