-- ===== src/Server/Connections/Reap.antt =====
-- About `reap_client` (gateway/src/server.c).
use mini_project_of_linux_pr.Prelude.{
  ℕ, zero, suc, ◌+◌, ◌≤◌, ◌<◌, Bool, true, false, some, List, [], ◌∷◌, ◌≡◌, refl, sym, ap, ◌∙◌,
  arith, inl, inr, if◌then◌else◌, ℤ, is_neg, get_elem?, length, subst, Bool-cases, ◌^◌, not, ◌&&◌,
  ◌||◌, leb, ◌⊎◌,
}
use mini_project_of_linux_pr.Heap.{Cells}
use mini_project_of_linux_pr.Types.{max_clients}
use mini_project_of_linux_pr.Client.{Client, Transmit, vacate}
use mini_project_of_linux_pr.Client.Close.{Emptied, vacate-Emptied}
use mini_project_of_linux_pr.Server.{Server}
use mini_project_of_linux_pr.Server.Connections.{is_reaped, reap_client}
use mini_project_of_linux_pr.Server.Connections.Loop.{
  Boxes, reaped, reaped_fds, reaped_in_use, reap_from-Reaps,
}

module _ {R : Type 0} where
  -- A slot in use whose client is dead, or has sent nothing for 61 seconds: the code drops the
  -- milliseconds before it asks for more than 60 seconds.
  abbrev pub overdue : ℕ → Client R → Bool
  overdue now c = not (is_neg c.fd) && (not c.alive || leb (c.last_active_ms + 61000) now)

  is_reaped-overdue :
      (now : ℕ) (c : Client R)
      → now < 2 ^ 64
      → c.last_active_ms ≤ now
      → is_reaped now c ≡ overdue now c
  is_reaped-overdue now c small past = ground arith

  -- The last activity of no client lies in the future.
  abbrev pub InPast : ℕ → List (Client R) → Type 0
  InPast now [] = Unit
  InPast now (c ∷ cs) = (c.last_active_ms ≤ now) × InPast now cs

  InPast-get :
      (now : ℕ) (cs : List (Client R)) (j : ℕ) (c : Client R)
      → InPast now cs
      → get_elem? cs j ≡ some c
      → c.last_active_ms ≤ now
  InPast-get now [] j c past e = cc
  InPast-get now (d ∷ cs) zero c past e =
      let same : d ≡ c = cc in subst (λ (x : Client R). x.last_active_ms ≤ now) same past.0
  InPast-get now (d ∷ cs) (suc j) c past e = InPast-get now cs j c past.1 e

  -- The descriptors of the clients that are overdue.
  abbrev pub overdue_fds : ℕ → List (Client R) → List ℤ
  overdue_fds now [] = []
  overdue_fds now (c ∷ cs) =
      let rest = overdue_fds now cs in if overdue now c then c.fd ∷ rest else rest

  reaped_fds-overdue :
      (now : ℕ) (cs : List (Client R))
      → now < 2 ^ 64
      → InPast now cs
      → reaped_fds now cs ≡ overdue_fds now cs
  reaped_fds-overdue now [] small past = refl
  reaped_fds-overdue now (c ∷ cs) small past =
      let rest = reaped_fds-overdue now cs small past.1 in
      ap (λ (l : List ℤ). if is_reaped now c then c.fd ∷ l else l) rest
      ∙ ap (λ (b : Bool). if b then c.fd ∷ overdue_fds now cs else overdue_fds now cs)
          (is_reaped-overdue now c small past.0)

  -- What becomes of a slot: emptied when its client was overdue, and else as it was.
  abbrev pub Outcome : ℕ → Client R → Client R → Type 0
  Outcome now c c' = ((overdue now c ≡ true) × Emptied c c') ⊎ ((overdue now c ≡ false) × (c' ≡ c))

  reaped-Outcome :
      (now : ℕ) (c : Client R) → is_reaped now c ≡ overdue now c → Outcome now c (reaped now c)
  reaped-Outcome now c same = elim (Bool-cases (is_reaped now c)) [
    | inl stale ↦ inl (
      sym same ∙ stale,
      subst (λ (b : Bool). Emptied c (if b then vacate c else c)) (sym stale)
          (vacate-Emptied c (reaped_in_use now c stale)),
    )
    | inr fresh ↦ inr (sym same ∙ fresh, ap (λ (b : Bool). if b then vacate c else c) fresh)
  ]

  -- With fewer than `k` messages waiting in each of the 128 slots, none of them in two, and a clock that
  -- is not behind any client's last activity: `reap_client` empties exactly the slots in use whose
  -- client is dead or has been idle for 61 seconds, and leaves the others as they were; the
  -- descriptors of those slots are the ones that it closes, each once and in order.
  pub reap_client_closes :
      (k now : ℕ) (sv : Server R) (xs : ℕ → Cells Transmit) (j : ℕ) (c : Client R)
      → Boxes k sv.transmit_heap sv.clients xs
      → length sv.clients ≡ max_clients
      → now < 2 ^ 64
      → InPast now sv.clients
      → get_elem? sv.clients j ≡ some c
      → (sv' : Server R) × (c' : Client R) × (reap_client k now sv
          ≡ some (overdue_fds now sv.clients, sv'))
        × (get_elem? sv'.clients j ≡ some c')
        × Outcome now c c'
  unfolding reap_client
  reap_client_closes k now sv xs j c v full small past there =
      let r = reap_from-Reaps k now max_clients 0 sv xs v (omega (arith, full)) in
      (
        r.server,
        reaped now c,
        r.done
            ∙ ap (λ (t : List ℤ). some (t, r.server))
                (r.closed ∙ reaped_fds-overdue now sv.clients small past),
        r.after j c (omega arith) there,
        reaped-Outcome now c
            (is_reaped-overdue now c small (InPast-get now sv.clients j c past there)),
      )
