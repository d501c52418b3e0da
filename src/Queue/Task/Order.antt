-- ===== src/Queue/Task/Order.antt =====
-- About the list of tasks that `push` and `pop` (gateway/src/queue.c) work on.
use mini_project_of_linux_pr.Prelude.{
  Bool-cases, inl, inr, ◌⊎◌, ℕ, suc, ◌+◌, ◌<◌, false, none, some, ◌≡◌, ◌≢◌, refl, sym, ◌∙◌, arith,
  ◌==◌, [], ◌∷◌, if◌then◌else◌,
}
use mini_project_of_linux_pr.Heap.{
  Ptr, null, Heap, node, write, load, set_next, Links, Cells, first, write_ne, write_self,
  Links-tail, set_next_lem, load_lem,
}
use mini_project_of_linux_pr.Types.{ok, Task}
use mini_project_of_linux_pr.Queue.Task.{TaskQueue, taken, push, pop, link}

-- From the head of the open queue `q` the links lead through the tasks `xs`; it counts `n` tasks,
-- and its tail is `t`.
pub record Chained (h : Heap Task) (q : TaskQueue) (xs : Cells Task) (n : ℕ) (t : Ptr)
    : Type 0 where
  pub links : Links h xs
  pub head : q.head ≡ first xs
  pub tail : q.tail ≡ t
  pub size : q.size ≡ n
  pub shutdown : q.shutdown ≡ false

-- a task that the caller has allocated
abbrev pub IsTask : Heap Task → Ptr → Task → Type 0
IsTask h p a = (p ≢ null) × (r : Ptr) × (h p ≡ some (node a r))

module _ {h : Heap Task} {q : TaskQueue} (p : Ptr) (a : Task) (task : IsTask h p a) where
  -- The first task of a queue is its head and its tail.
  pub push_first :
      Chained h q [] 0 null
      → 0 < q.max_size
      → (q' : TaskQueue) × (g : Heap Task) × (push q p h ≡ some (ok, q', g))
        × Chained g q' ((p, a) ∷ []) 1 p
        × (q'.max_size ≡ q.max_size)
        × (g ≡ write h p (some (node a null)))
  unfolding push link
  push_first c room = (
    record q { head = p; tail = p; size = q.size + 1 },
    write h p (some (node a null)),
    ground (arith, set_next_lem h p null a task.1 task.0 task.2),
    record {
      links = (task.0, write_self h p (some (node a null)), refl, tt);
      head = refl;
      tail = refl;
      size = omega arith;
      shutdown = c.shutdown;
    },
    refl,
    refl,
  )

  -- A task pushed while the tail is still the first task takes the place of all that stood behind it.
  pub push_next :
      (x : Ptr) (b : Task) (xs : Cells Task) (n : ℕ)
      → Chained h q ((x, b) ∷ xs) n x
      → n < q.max_size
      → x ≢ p
      → (q' : TaskQueue) × (g : Heap Task) × (push q p h ≡ some (ok, q', g))
        × Chained g q' ((x, b) ∷ (p, a) ∷ []) (suc n) x
        × (q'.max_size ≡ q.max_size)
        × (g ≡ write (write h x (some (node b p))) p (some (node a null)))
  unfolding push link
  push_next x b xs n c room ne =
      let h1 : Heap Task = write h x (some (node b p)) in
      let g : Heap Task = write h1 p (some (node a null)) in
      let e = set_next_lem h x p b (first xs) c.links.0 c.links.1 in
      let e' =
        set_next_lem h1 p null a task.1 task.0
          (write_ne h x (some (node b p)) p (λ i. ne (sym i)) ∙ task.2) in
      (
        record q { size = q.size + 1 },
        g,
        ground (arith, e, e'),
        record {
          links = (
            c.links.0,
            write_ne h1 p (some (node a null)) x ne ∙ write_self h x (some (node b p)),
            ground arith,
            (task.0, write_self h1 p (some (node a null)), refl, tt),
          );
          head = c.head;
          tail = c.tail;
          size = omega (arith, c.size);
          shutdown = c.shutdown;
        },
        refl,
        refl,
      )

module _ {h : Heap Task} {q : TaskQueue} where
  -- `pop` takes the head.
  pub pop_head :
      (x : Ptr) (b : Task) (xs : Cells Task) (n : ℕ) (t : Ptr)
      → Chained h q ((x, b) ∷ xs) (suc n) t
      → (q' : TaskQueue) × (g : Heap Task) × (pop q h ≡ some (taken x, q', g))
        × Chained g q' xs n (if first xs == null then null else t)
        × (q'.max_size ≡ q.max_size)
        × (g ≡ write h x (some (node b null)))
  unfolding pop
  pop_head x b xs n t c = (
    record q { head = first xs; tail = if first xs == null then null else t; size = n },
    write h x (some (node b null)),
    ground (
      arith,
      load_lem h x (node b (first xs)) c.links.0 c.links.1,
      set_next_lem h x null b (first xs) c.links.0 c.links.1,
    ),
    record {
      links = Links-tail h x b xs (some (node b null)) c.links;
      head = refl;
      tail = refl;
      size = refl;
      shutdown = c.shutdown;
    },
    refl,
    refl,
  )

  -- A queue that counts a task that is not in its list makes `pop` read through NULL.
  pub pop_lost : (n : ℕ) (t : Ptr) → Chained h q [] (suc n) t → pop q h ≡ none
  unfolding pop load
  pop_lost n t c = ground arith

  -- A task pushed behind a tail that has been freed writes through a dangling pointer.
  pub push_dangling :
      (p t : Ptr) (xs : Cells Task) (n : ℕ)
      → Chained h q xs n t
      → n < q.max_size
      → p ≢ null
      → t ≢ null
      → h t ≡ none
      → push q p h ≡ none
  unfolding push link set_next load
  push_dangling p t xs n c room np nt e = ground arith

-- the tail of a queue is NULL or a task
abbrev pub HasTail : Heap Task → TaskQueue → Type 0
HasTail h q = (q.tail ≡ null) ⊎ ((a : Task) × (r : Ptr) × (h q.tail ≡ some (node a r)))

still_there :
    (h : Heap Task) (z t : Ptr) (a b : Task) (r q : Ptr)
    → h t ≡ some (node a r)
    → (a' : Task) × (r' : Ptr) × (write h z (some (node b q)) t ≡ some (node a' r'))
still_there h z t a b r q e = elim (Bool-cases (t == z)) [
  | inl same ↦ (b, q, ground arith)
  | inr other ↦ (a, r, ground arith)
]

-- An open queue with room whose tail is NULL or a task takes a task.
pub push_goes :
    (q : TaskQueue) (t : Ptr) (h : Heap Task) (a : Task) (r : Ptr)
    → q.shutdown ≡ false
    → q.size < q.max_size
    → t ≢ null
    → h t ≡ some (node a r)
    → HasTail h q
    → (q' : TaskQueue) × (h' : Heap Task) × (push q t h ≡ some (ok, q', h'))
unfolding push link
push_goes q t h a r open' room ne e (inl empty) = (
  record q { head = t; tail = t; size = q.size + 1 },
  write h t (some (node a null)),
  ground (arith, set_next_lem h t null a r ne e),
)
push_goes q t h a r open' room ne e (inr (b, s, en)) = elim (Bool-cases (q.tail == null)) [
  | inl empty ↦ (
    record q { head = t; tail = t; size = q.size + 1 },
    write h t (some (node a null)),
    ground (arith, set_next_lem h t null a r ne e),
  )
  | inr full ↦
      let h1 : Heap Task = write h q.tail (some (node b t)) in
      let (a', r', e') = still_there h q.tail t a b r t e in
      let nt : q.tail ≢ null = ground arith in
      (
        record q { size = q.size + 1 },
        write h1 t (some (node a' null)),
        ground (arith, set_next_lem h q.tail t b s nt en, set_next_lem h1 t null a' r' ne e'),
      )
]
