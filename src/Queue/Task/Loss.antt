-- ===== src/Queue/Task/Loss.antt =====
-- About whole sessions of the task queue (gateway/src/queue.c).
use mini_project_of_linux_pr.Prelude.{
  ℕ, suc, ◌≤◌, Bool, true, false, none, some, ◌≡◌, ◌≢◌, sym, ap, ◌∙◌, arith, ◌==◌, List, [], ◌∷◌,
  if◌then◌else◌, ==_ne,
}
use mini_project_of_linux_pr.Heap.{
  Ptr, null, Heap, Node, node, write, free, load, write_ne, write_self,
}
use mini_project_of_linux_pr.Heap.{Links-write}
use mini_project_of_linux_pr.Types.{Status, ok, Task}
use mini_project_of_linux_pr.Queue.Task.{TaskQueue, Popped, taken, push, pop}
use mini_project_of_linux_pr.Queue.Task.Order.{
  Chained, IsTask, push_first, push_next, pop_head, pop_lost, push_dangling,
}

-- A call of the queue, or the `free` of a task that a worker has finished.
pub data Call : Type 0 where
  put : Ptr → Call
  get : Call
  release : Ptr → Call

-- What the calls of a session return, and whether the last one made faulted.
pub record Session : Type 0 where
  pub popped : List Popped
  pub faulted : Bool

abbrev prepend : Popped → Session → Session
prepend r s = record s { popped = r ∷ s.popped }

unfoldable pub run : List Call → TaskQueue → Heap Task → Session
run [] q h = record { popped = []; faulted = false }
run (put p ∷ cs) q h = elim (push q p h) [
  | none ↦ record { popped = []; faulted = true }
  | some (s, q', h') ↦ run cs q' h'
]
run (get ∷ cs) q h = elim (pop q h) [
  | none ↦ record { popped = []; faulted = true }
  | some (r, q', h') ↦ prepend r (run cs q' h')
]
run (release p ∷ cs) q h = elim (free h p) [
  | none ↦ record { popped = []; faulted = true }
  | some h' ↦ run cs q h'
]

abbrev fault : Session
fault = record { popped = []; faulted = true }

module _ (cs : List Call) (q : TaskQueue) (h : Heap Task) where
  run-put :
      (p : Ptr) (s : Status) (q' : TaskQueue) (h' : Heap Task)
      → push q p h ≡ some (s, q', h')
      → run (put p ∷ cs) q h ≡ run cs q' h'
  unfolding run
  run-put p s q' h' e = rw (e, run)

  run-get :
      (r : Popped) (q' : TaskQueue) (h' : Heap Task)
      → pop q h ≡ some (r, q', h')
      → run (get ∷ cs) q h ≡ prepend r (run cs q' h')
  unfolding run
  run-get r q' h' e = rw (e, run)

  run-release :
      (p : Ptr) (n : Node Task)
      → p ≢ null
      → h p ≡ some n
      → run (release p ∷ cs) q h ≡ run cs q (write h p none)
  unfolding run free load
  run-release p n ne e = ground arith

  run-get-fault : pop q h ≡ none → run (get ∷ cs) q h ≡ fault
  unfolding run
  run-get-fault e = rw (e, run)

  run-put-fault : (p : Ptr) → push q p h ≡ none → run (put p ∷ cs) q h ≡ fault
  unfolding run
  run-put-fault p e = rw (e, run)

IsTask-frame : (h g : Heap Task) (p : Ptr) (a : Task) → IsTask h p a → g p ≡ h p → IsTask g p a
IsTask-frame h g p a t e = (t.0, t.1, e ∙ t.2)

-- Two tasks pushed on an empty queue.
record Two (h : Heap Task) (q : TaskQueue) (a b : Ptr) (x y : Task) (cs : List Call) : Type 0 where
  queue : TaskQueue
  heap : Heap Task
  runs : run (put a ∷ put b ∷ cs) q h ≡ run cs queue heap
  chained : Chained heap queue ((a, x) ∷ (b, y) ∷ []) 2 a
  room : queue.max_size ≡ q.max_size
  frame : (d : Ptr) → d ≢ a → d ≢ b → heap d ≡ h d

put-Two :
    (h : Heap Task) (q : TaskQueue) (a b : Ptr) (x y : Task) (cs : List Call)
    → Chained h q [] 0 null
    → IsTask h a x
    → IsTask h b y
    → a ≢ b
    → 2 ≤ q.max_size
    → Two h q a b x y cs
put-Two h q a b x y cs empty ta tb ab room =
    let (q1, h1, e1, c1, m1, w1) = push_first a x ta empty (omega arith) in
    let tb1 =
      IsTask-frame h h1 b y tb
        (ap (λ (g : Heap Task). g b) w1 ∙ write_ne h a (some (node x null)) b (λ i. ab (sym i))) in
    let (q2, h2, e2, c2, m2, w2) = push_next b y tb1 a x [] 1 c1 (omega arith) ab in
    record {
      queue = q2;
      heap = h2;
      runs = run-put (put b ∷ cs) q h a ok q1 h1 e1 ∙ run-put cs q1 h1 b ok q2 h2 e2;
      chained = c2;
      room = m2 ∙ m1;
      frame = λ d na nb.
          ap (λ (g : Heap Task). g d) w2
          ∙ write_ne (write h1 a (some (node x b))) b (some (node y null)) d nb
          ∙ write_ne h1 a (some (node x b)) d na
          ∙ ap (λ (g : Heap Task). g d) w1
          ∙ write_ne h a (some (node x null)) d na;
    }

-- Both tasks of such a list leave it in order.
get_two :
    (h : Heap Task) (q : TaskQueue) (a b : Ptr) (x y : Task) (n : ℕ) (t : Ptr) (cs : List Call)
    → Chained h q ((a, x) ∷ (b, y) ∷ []) (suc (suc n)) t
    → (q' : TaskQueue) × (h' : Heap Task) × (run (get ∷ get ∷ cs) q h
        ≡ prepend (taken a) (prepend (taken b) (run cs q' h')))
      × Chained h' q' [] n null
get_two h q a b x y n t cs c =
    let (q1, h1, e1, c1, m1, w1) = pop_head a x ((b, y) ∷ []) (suc n) t c in
    let (q2, h2, e2, c2, m2, w2) = pop_head b y [] n (if b == null then null else t) c1 in
    (
      q2,
      h2,
      run-get (get ∷ cs) q h (taken a) q1 h1 e1
          ∙ ap (prepend (taken a)) (run-get cs q1 h1 (taken b) q2 h2 e2),
      c2,
    )

module _ {q : TaskQueue} {h : Heap Task} (a b : Ptr) (x y : Task) (empty : Chained h q [] 0 null)
    (ta : IsTask h a x) (tb : IsTask h b y) (ab : a ≢ b) where
  -- Two tasks pushed on an empty open queue with room for two come out in order.
  pub two_in_order :
      2 ≤ q.max_size
      → run (put a ∷ put b ∷ get ∷ get ∷ []) q h
        ≡ record { popped = taken a ∷ taken b ∷ []; faulted = false }
  unfolding run
  two_in_order room =
      let two = put-Two h q a b x y (get ∷ get ∷ []) empty ta tb ab room in
      let (q3, h3, e3, c3) = get_two two.heap two.queue a b x y 0 a [] two.chained in two.runs ∙ e3

  -- Of three tasks pushed on an empty open queue with room for three the second never comes out:
  -- `pop` returns the first, then the third, and then reads through NULL.
  pub third_push_loses :
      (c : Ptr) (z : Task)
      → IsTask h c z
      → a ≢ c
      → b ≢ c
      → 3 ≤ q.max_size
      → run (put a ∷ put b ∷ put c ∷ get ∷ get ∷ get ∷ []) q h
        ≡ record { popped = taken a ∷ taken c ∷ []; faulted = true }
  third_push_loses c z tc ac bc room =
      let two = put-Two h q a b x y (put c ∷ get ∷ get ∷ get ∷ []) empty ta tb ab (omega arith) in
      let tc2 = IsTask-frame h two.heap c z tc (two.frame c (λ i. ac (sym i)) (λ i. bc (sym i))) in
      let (q3, h3, e3, c3, m3, w3) =
        push_next c z tc2 a x ((b, y) ∷ []) 2 two.chained (omega (arith, two.room)) ac in
      let (q4, h4, e4, c4) = get_two h3 q3 a c x z 1 a (get ∷ []) c3 in
      two.runs
      ∙ run-put (get ∷ get ∷ get ∷ []) two.queue two.heap c ok q3 h3 e3
      ∙ e4
      ∙ ap (λ (s : Session). prepend (taken a) (prepend (taken c) s))
          (run-get-fault [] q4 h4 (pop_lost 0 null c4))

  -- Once the first of two tasks has been popped and freed by its worker, the next `push` writes to
  -- it.
  pub push_after_free :
      (c : Ptr)
      → c ≢ null
      → 2 ≤ q.max_size
      → run (put a ∷ put b ∷ get ∷ release a ∷ put c ∷ []) q h
        ≡ record { popped = taken a ∷ []; faulted = true }
  push_after_free c nc room =
      let two = put-Two h q a b x y (get ∷ release a ∷ put c ∷ []) empty ta tb ab room in
      let (q3, h3, e3, c3, m3, w3) = pop_head a x ((b, y) ∷ []) 1 a two.chained in
      let h4 : Heap Task = write h3 a none in
      let c4 : Chained h4 q3 ((b, y) ∷ []) 1 a = record {
        links = Links-write h3 a none ((b, y) ∷ []) (ground arith) c3.links;
        head = c3.head;
        tail = c3.tail ∙ ap (λ (t : Bool). if t then null else a) (==_ne b null tb.0);
        size = c3.size;
        shutdown = c3.shutdown;
      } in
      two.runs
      ∙ run-get (release a ∷ put c ∷ []) two.queue two.heap (taken a) q3 h3 e3
      ∙ ap (prepend (taken a)) (
          run-release (put c ∷ []) q3 h3 a (node x null) ta.0
            (ap (λ (g : Heap Task). g a) w3 ∙ write_self two.heap a (some (node x null)))
          ∙ run-put-fault [] q3 h4 c (
              push_dangling c a ((b, y) ∷ []) 1 c4 (omega (arith, two.room, m3)) nc ta.0
                (write_self h3 a none)))
