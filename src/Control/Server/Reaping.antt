-- ===== src/Control/Server/Reaping.antt =====
-- About `reap_closed_clients` (unix-domain-socket-control-plane/gatewayd/server.h).
use mini_project_of_linux_pr.Prelude.{
  true, false, none, ◌&&◌, not, pos, negsuc, minus_one, is_neg, ◌∷◌, ◌⊎◌, subst, ℕ, zero, suc, ◌+◌,
  ◌-◌, ◌≤◌, ◌<◌, Bool, ==_refl, ==_ne, if◌then◌else◌, Bool-cases, List, [], ◌++◌, ℤ, ◌≡◌, ◌≢◌, refl,
  sym, ap, ◌∙◌, inl, inr, arith,
}
use mini_project_of_linux_pr.Control.Structs.{fd_setsize, Client, Server}
use native.Mathlib.Decide.{dec_lt}
use mini_project_of_linux_pr.Control.Server.{
  set_client, is_reaped, vacate, reap_one, shuts, reap_from, reap_closed_clients,
}

-- The client of a slot after the loop.
abbrev pub after_reap : Client → Client
after_reap c = if is_reaped c then vacate c else c

-- The descriptors that a pass over the slots closes.
abbrev pub shut_from : ℕ → ℕ → (ℕ → Client) → List ℤ
shut_from zero fd clients = []
shut_from (suc rest) fd clients = shuts (clients fd) ++ shut_from rest (fd + 1) clients

module _ (fd : ℕ) (sv : Server) where
  abbrev swept : Bool → Server
  swept b =
      if b
      then record (set_client sv fd (vacate (sv.clients fd))) { num_clients = sv.num_clients - 1 }
      else sv

  reap_one_self : (reap_one fd sv).clients fd ≡ after_reap (sv.clients fd)
  reap_one_self = elim (Bool-cases (is_reaped (sv.clients fd))) [
    | inl h ↦
        ap (λ (b : Bool). (swept b).clients fd) h
        ∙ ap (λ (b : Bool). if b then vacate (sv.clients fd) else sv.clients fd) (==_refl fd)
        ∙ ap (λ (b : Bool). if b then vacate (sv.clients fd) else sv.clients fd) (sym h)
    | inr h ↦
        ap (λ (b : Bool). (swept b).clients fd) h
        ∙ ap (λ (b : Bool). if b then vacate (sv.clients fd) else sv.clients fd) (sym h)
  ]

  reap_one_other : (j : ℕ) → fd ≢ j → (reap_one fd sv).clients j ≡ sv.clients j
  reap_one_other j ne = elim (Bool-cases (is_reaped (sv.clients fd))) [
    | inl h ↦
        ap (λ (b : Bool). (swept b).clients j) h
        ∙ ap (λ (b : Bool). if b then vacate (sv.clients fd) else sv.clients j) (==_ne fd j ne)
    | inr h ↦ ap (λ (b : Bool). (swept b).clients j) h
  ]

reap_from-before :
    (rest fd j : ℕ) (sv : Server) → j < fd → (reap_from rest fd sv).0.clients j ≡ sv.clients j
unfolding reap_from
reap_from-before zero fd j sv h = refl
reap_from-before (suc rest) fd j sv h =
    reap_from-before rest (fd + 1) j (reap_one fd sv) (omega arith)
    ∙ reap_one_other fd sv j (λ e. absurd (omega arith))

reap_from-inside :
    (rest fd j : ℕ) (sv : Server)
    → fd ≤ j
    → j < fd + rest
    → (reap_from rest fd sv).0.clients j ≡ after_reap (sv.clients j)
unfolding reap_from
reap_from-inside zero fd j sv h k = absurd (omega arith)
reap_from-inside (suc rest) fd j sv h k = elim (dec_lt fd j) [
  | yes less ↦
      reap_from-inside rest (fd + 1) j (reap_one fd sv) (omega arith) (omega arith)
      ∙ ap after_reap (reap_one_other fd sv j (λ e. absurd (omega arith)))
  | no more ↦
      (let here : fd ≡ j = omega arith in
        reap_from-before rest (fd + 1) j (reap_one fd sv) (omega arith)
        ∙ subst (λ (k : ℕ). (reap_one fd sv).clients k ≡ after_reap (sv.clients k)) here
            (reap_one_self fd sv))
]

-- The loop looks at each slot once.
reap_from-shuts :
    (rest fd : ℕ) (sv : Server) (clients : ℕ → Client)
    → ((j : ℕ) → fd ≤ j → sv.clients j ≡ clients j)
    → (reap_from rest fd sv).1 ≡ shut_from rest fd clients
unfolding reap_from
reap_from-shuts zero fd sv clients same = refl
reap_from-shuts (suc rest) fd sv clients same =
    ap (λ (c : Client). shuts c ++ (reap_from rest (fd + 1) (reap_one fd sv)).1)
      (same fd (omega arith))
    ∙ ap (λ (l : List ℤ). shuts (clients fd) ++ l)
        (reap_from-shuts rest (fd + 1) (reap_one fd sv) clients
          (λ j h. reap_one_other fd sv j (λ e. absurd (omega arith)) ∙ same j (omega arith)))

-- A client that asked to be closed, with no task that is pending and no message that waits.
abbrev pub IsFinished : Client → Type 0
IsFinished c = (c.pending_close ≡ true) × (c.pending_task ≡ 0) × (c.send_count ≡ 0)

-- What such a slot holds afterwards; its generation and its empty ring stay.
pub record Vacated (c c' : Client) : Type 0 where
  pub fd : c'.fd ≡ minus_one
  pub connected : c'.connected ≡ false
  pub pending_close : c'.pending_close ≡ false
  pub session : c'.session ≡ none
  pub generation : c'.generation ≡ c.generation
  pub send_count : c'.send_count ≡ c.send_count

-- What becomes of a slot.
abbrev pub Outcome : Client → Client → Type 0
Outcome c c' = (IsFinished c × Vacated c c') ⊎ (¬ IsFinished c × (c' ≡ c))

vacate-Vacated : (c : Client) → Vacated c (vacate c)
vacate-Vacated c = record {
  fd = refl;
  connected = refl;
  pending_close = refl;
  session = refl;
  generation = refl;
  send_count = refl;
}

is_reaped-IsFinished_to : (c : Client) → is_reaped c ≡ true → IsFinished c
is_reaped-IsFinished_to c e = ground arith

is_reaped-IsFinished_of : (c : Client) → is_reaped c ≡ false → ¬ IsFinished c
is_reaped-IsFinished_of c e (closing, tasks, messages) = ground arith

after_reap-Outcome : (c : Client) → Outcome c (after_reap c)
after_reap-Outcome c = elim (Bool-cases (is_reaped c)) [
  | inl yes' ↦ inl (
    is_reaped-IsFinished_to c yes',
    subst (λ (b : Bool). Vacated c (if b then vacate c else c)) (sym yes') (vacate-Vacated c),
  )
  | inr no' ↦ inr (is_reaped-IsFinished_of c no', ap (λ (b : Bool). if b then vacate c else c) no')
]

-- The descriptors of the clients, from the slot `fd` on, that are finished.
pub data Shut (clients : ℕ → Client) : ℕ → ℕ → List ℤ → Type 0 where
  shut_none : (fd : ℕ) → Shut clients zero fd []
  shut_one :
      (rest fd : ℕ) (n : ℕ) (fds : List ℤ)
      → IsFinished (clients fd)
      → (clients fd).fd ≡ pos n
      → Shut clients rest (fd + 1) fds
      → Shut clients (suc rest) fd (pos n ∷ fds)
  shut_gone :
      (rest fd : ℕ) (n : ℕ) (fds : List ℤ)
      → (clients fd).fd ≡ negsuc n
      → Shut clients rest (fd + 1) fds
      → Shut clients (suc rest) fd fds
  shut_not :
      (rest fd : ℕ) (fds : List ℤ)
      → ¬ IsFinished (clients fd)
      → Shut clients rest (fd + 1) fds
      → Shut clients (suc rest) fd fds

shut_from-Shut :
    (rest fd : ℕ) (clients : ℕ → Client) → Shut clients rest fd (shut_from rest fd clients)
shut_from-Shut zero fd clients = shut_none fd
shut_from-Shut (suc rest) fd clients =
    by_slot (clients fd).fd refl (is_reaped (clients fd)) refl
      (shut_from-Shut rest (fd + 1) clients)
  where
    closing : Bool → ℤ → List ℤ
    closing b z = if b && not (is_neg z) then z ∷ [] else []

    tail : List ℤ
    tail = shut_from rest (fd + 1) clients

    by_slot :
        (z : ℤ)
        → (clients fd).fd ≡ z
        → (b : Bool) → is_reaped (clients fd) ≡ b
        → Shut clients rest (fd + 1) tail
        → Shut clients (suc rest) fd (closing (is_reaped (clients fd)) (clients fd).fd ++ tail)
    by_slot z at false e more =
        subst (λ (b : Bool). Shut clients (suc rest) fd (closing b (clients fd).fd ++ tail)) (sym e)
          (shut_not rest fd tail (is_reaped-IsFinished_of (clients fd) e) more)
    by_slot (pos n) at true e more =
        subst (λ (b : Bool). Shut clients (suc rest) fd (closing b (clients fd).fd ++ tail)) (sym e)
          (subst (λ (x : ℤ). Shut clients (suc rest) fd (closing true x ++ tail)) (sym at)
            (shut_one rest fd n tail (is_reaped-IsFinished_to (clients fd) e) at more))
    by_slot (negsuc n) at true e more =
        subst (λ (b : Bool). Shut clients (suc rest) fd (closing b (clients fd).fd ++ tail)) (sym e)
          (subst (λ (x : ℤ). Shut clients (suc rest) fd (closing true x ++ tail)) (sym at)
            (shut_gone rest fd n tail at more))

-- `reap_closed_clients` empties exactly the slots below 1024 whose client is to be closed, with no
-- pending task and no message that waits, and leaves all other clients as they were; it closes the
-- descriptors that those slots hold, each once and in order, and no other.
pub reap_closed_clients_empties :
    (sv : Server) (j : ℕ)
    → j < fd_setsize
    → Outcome (sv.clients j) ((reap_closed_clients sv).0.clients j)
      × Shut sv.clients fd_setsize 0 (reap_closed_clients sv).1
unfolding reap_closed_clients
reap_closed_clients_empties sv j h = (
  subst (Outcome (sv.clients j))
      (sym (reap_from-inside fd_setsize 0 j sv (omega arith) (omega arith)))
      (after_reap-Outcome (sv.clients j)),
  subst (Shut sv.clients fd_setsize 0)
      (sym (reap_from-shuts fd_setsize 0 sv sv.clients (λ k below. refl)))
      (shut_from-Shut fd_setsize 0 sv.clients),
)
