-- ===== src/Heap/Defs.antt =====
-- Nodes, and the reads and writes of the program's linked lists.
use mini_project_of_linux_pr.Prelude.{ℕ, Option, none, some, ◌==◌, if◌then◌else◌, ◌>>=◌}

abbrev pub Ptr : Type 0
Ptr = ℕ

abbrev pub null : Ptr
null = 0

pub record Node (A : Type 0) : Type 0 where
  pub item : A
  pub next : Ptr

abbrev pub Heap : Type 0 → Type 0
Heap A = Ptr → Option (Node A)

module _ {A : Type 0} where
  abbrev pub node : A → Ptr → Node A
  node a q = record { item = a; next = q }

  -- the heap with address `p` filled or given back
  abbrev pub write : Heap A → Ptr → Option (Node A) → Heap A
  write h p c a = if a == p then c else h a

  -- `*p`
  unfoldable pub load : Heap A → Ptr → Option (Node A)
  load h p = if p == null then none else h p

  -- `p->next = q`
  unfoldable pub set_next : Heap A → Ptr → Ptr → Option (Heap A)
  unfolding load
  set_next h p q = do n ← load h p; some (write h p (some (record n { next = q })))

  -- `p->... = ...` on the other fields
  unfoldable pub set_item : Heap A → Ptr → A → Option (Heap A)
  unfolding load
  set_item h p a = do n ← load h p; some (write h p (some (record n { item = a })))

  -- `free(p)`: nothing at NULL, a fault at a pointer that holds no node
  unfoldable pub free : Heap A → Ptr → Option (Heap A)
  unfolding load
  free h p = if p == null then some h else do n ← load h p; some (write h p none)
