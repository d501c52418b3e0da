-- ===== src/Daemon/Threads/Counting.antt =====
-- About the list of the workers (signal-aware-multithreaded-daemon/main.c).
use mini_project_of_linux_pr.Prelude.{
  ℕ, zero, suc, ◌+◌, ◌≤◌, List, [], ◌∷◌, some, map, get_elem?, set, ◌≡◌, arith,
}
use mini_project_of_linux_pr.Daemon.Threads.{Place, wake}

-- The sum of a weight over the workers.
abbrev pub total : (Place → ℕ) → List Place → ℕ
total f [] = 0
total f (p ∷ ps) = f p + total f ps

pub total-set :
    (f : Place → ℕ) (ws : List Place) (i : ℕ) (p q : Place)
    → get_elem? ws i ≡ some p
    → total f (set ws i q) + f p ≡ total f ws + f q
total-set f [] i p q h = ground arith
total-set f (x ∷ ws) zero p q h = ground arith
total-set f (x ∷ ws) (suc i) p q h = omega (arith, total-set f ws i p q h)

pub total-wake :
    (f g : Place → ℕ) (ws : List Place)
    → ((p : Place) → f (wake p) ≤ g p)
    → total f (map wake ws) ≤ total g ws
total-wake f g [] h = omega arith
total-wake f g (p ∷ ws) h = omega (arith, h p, total-wake f g ws h)
