-- ===== src/Queue/Fifo.antt =====
-- What a bounded queue promises: items leave in the order in which they came, and a full queue
-- takes none.
use mini_project_of_linux_pr.Prelude.{ℕ, [], ◌∷◌, ◌++◌, leb, if◌then◌else◌, length}
use mini_project_of_linux_pr.Heap.{Ptr, null, Cells}
use mini_project_of_linux_pr.Types.{Status, ok, again}

module _ {A : Type 0} where
  abbrev pub fifo_push : ℕ → Cells A → Ptr × A → Status × Cells A
  fifo_push max xs c = if leb max (length xs) then (again, xs) else (ok, xs ++ c ∷ [])

  abbrev pub fifo_pop : Cells A → Ptr × Cells A
  fifo_pop [] = (null, [])
  fifo_pop ((p, _) ∷ xs) = (p, xs)
