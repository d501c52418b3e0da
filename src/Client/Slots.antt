-- ===== src/Client/Slots.antt =====
-- About `client_alloc` and `fd_to_slot` (gateway/src/client.c).
use mini_project_of_linux_pr.Prelude.{
  ℕ, zero, suc, ◌+◌, ◌<◌, ◌≤◌, Bool, true, false, some, List, [], ◌∷◌, ◌==◌, ◌&&◌, if◌then◌else◌, ℤ,
  pos, minus_one, is_neg, eqℤ, eqℤ_refl, get_elem?, set, length, ◌≡◌, ◌≢◌, refl, sym, ap, ◌∙◌,
  arith, ◌⊎◌, inl, inr, Bool-cases, get_elem?-set_self, get_elem?-set_ne,
}
use mini_project_of_linux_pr.Client.{Client, occupy, find_free, client_alloc, find_fd, fd_to_slot}

module _ {R : Type 0} where
  -- slot `k` holds `c`, which passes the test, and no slot before it does
  pub record First (test : Client R → Bool) (cs : List (Client R)) (k : ℕ) : Type 0 where
    pub at : Client R
    pub there : get_elem? cs k ≡ some at
    pub passes : test at ≡ true
    pub earlier : (j : ℕ) (d : Client R) → j < k → get_elem? cs j ≡ some d → test d ≡ false

  -- no slot passes the test
  abbrev pub Nowhere : (Client R → Bool) → List (Client R) → Type 0
  Nowhere test cs = (j : ℕ) (d : Client R) → get_elem? cs j ≡ some d → test d ≡ false

  abbrev pub is_free : Client R → Bool
  is_free c = eqℤ c.fd minus_one

  abbrev pub serves : ℤ → Client R → Bool
  serves fd c = c.alive && eqℤ c.fd fd

  First-here :
      (test : Client R → Bool) (c : Client R) (cs : List (Client R))
      → test c ≡ true
      → First test (c ∷ cs) 0
  First-here test c cs t = record {
    at = c;
    there = refl;
    passes = t;
    earlier = λ j d h. absurd (omega arith);
  }

  First-later :
      (test : Client R → Bool) (c : Client R) (cs : List (Client R)) (k : ℕ)
      → test c ≡ false
      → First test cs k
      → First test (c ∷ cs) (suc k)
  First-later test c cs k t f = record {
    at = f.at;
    there = f.there;
    passes = f.passes;
    earlier = before;
  }
    where
      before : (j : ℕ) (d : Client R) → j < suc k → get_elem? (c ∷ cs) j ≡ some d → test d ≡ false
      before zero d h e = ground arith
      before (suc j) d h e = f.earlier j d (omega arith) e

  Nowhere-cons :
      (test : Client R → Bool) (c : Client R) (cs : List (Client R))
      → test c ≡ false
      → Nowhere test cs
      → Nowhere test (c ∷ cs)
  Nowhere-cons test c cs t n zero d e = ground arith
  Nowhere-cons test c cs t n (suc j) d e = n j d e

  -- What a search returns: the first slot that passes, counted from `i`, or -1.
  data Found (test : Client R → Bool) (cs : List (Client R)) (i : ℕ) (r : ℤ) : Type 0 where
    hit : (k : ℕ) → r ≡ pos (i + k) → First test cs k → Found test cs i r
    miss : r ≡ minus_one → Nowhere test cs → Found test cs i r

  Found-later :
      (test : Client R → Bool) (c : Client R) (cs : List (Client R)) (i : ℕ) (r : ℤ)
      → test c ≡ false
      → Found test cs (suc i) r
      → Found test (c ∷ cs) i r
  Found-later test c cs i r t (hit k e f) =
      hit (suc k) (e ∙ ap pos (omega arith)) (First-later test c cs k t f)
  Found-later test c cs i r t (miss e n) = miss e (Nowhere-cons test c cs t n)

  find_free-Found : (cs : List (Client R)) (i : ℕ) → Found is_free cs i (find_free cs i)
  unfolding find_free
  find_free-Found [] i = miss refl (λ j d e. cc)
  find_free-Found (c ∷ cs) i = elim (Bool-cases (is_free c)) [
    | inl yes' ↦ rw yes' (hit 0 (ap pos (omega arith)) (First-here is_free c cs yes'))
    | inr no' ↦
        rw no' (Found-later is_free c cs i (find_free cs (suc i)) no' (find_free-Found cs (suc i)))
  ]

  find_fd-Found : (cs : List (Client R)) (fd : ℤ) (i : ℕ) → Found (serves fd) cs i (find_fd cs fd i)
  unfolding find_fd
  find_fd-Found [] fd i = miss refl (λ j d e. cc)
  find_fd-Found (c ∷ cs) fd i = elim (Bool-cases (serves fd c)) [
    | inl yes' ↦ rw yes' (hit 0 (ap pos (omega arith)) (First-here (serves fd) c cs yes'))
    | inr no' ↦
        rw no'
          (Found-later (serves fd) c cs i (find_fd cs fd (suc i)) no' (find_fd-Found cs fd (suc i)))
  ]

  -- `fd_to_slot` returns the first slot that is alive and has the descriptor, or -1 if none has.
  pub fd_to_slot_finds :
      (cs : List (Client R)) (fd : ℤ)
      → is_neg fd ≡ false
      → ((k : ℕ) × (fd_to_slot cs fd ≡ pos k) × First (serves fd) cs k)
        ⊎ ((fd_to_slot cs fd ≡ minus_one) × Nowhere (serves fd) cs)
  unfolding fd_to_slot
  fd_to_slot_finds cs fd ok' = rw ok' (pick (find_fd-Found cs fd 0))
    where
      pick :
          Found (serves fd) cs 0 (find_fd cs fd 0)
          → ((k : ℕ) × (find_fd cs fd 0 ≡ pos k) × First (serves fd) cs k)
            ⊎ ((find_fd cs fd 0 ≡ minus_one) × Nowhere (serves fd) cs)
      pick (hit k e f) = inl (k, e ∙ ap pos (omega arith), f)
      pick (miss e n) = inr (e, n)

  -- A connection gets the first free slot, and no other slot changes; without one nothing does.
  pub client_alloc_takes :
      (cs : List (Client R)) (fd : ℤ) (addr now : ℕ) (rate : R)
      → is_neg fd ≡ false
      → 1 ≤ length cs
      → ((k : ℕ) × (f : First is_free cs k) × (client_alloc cs fd addr now rate
            ≡ (pos k, set cs k (occupy f.at fd addr now rate))))
        ⊎ (Nowhere is_free cs × (client_alloc cs fd addr now rate ≡ (minus_one, cs)))
  unfolding client_alloc
  client_alloc_takes cs fd addr now rate ok' some' = pick (find_free-Found cs 0)
    where
      pick :
          Found is_free cs 0 (find_free cs 0)
          → ((k : ℕ) × (f : First is_free cs k) × (client_alloc cs fd addr now rate
                ≡ (pos k, set cs k (occupy f.at fd addr now rate))))
            ⊎ (Nowhere is_free cs × (client_alloc cs fd addr now rate ≡ (minus_one, cs)))
      pick (hit k e f) = inl (k, f, ground (arith, e, f.there))
      pick (miss e n) = inr (n, ground (arith, e))

  -- A slot that keeps its descriptor and its life is found as before.
  find_fd-set :
      (cs : List (Client R)) (k : ℕ) (c c' : Client R) (fd : ℤ) (i : ℕ)
      → get_elem? cs k ≡ some c
      → c'.fd ≡ c.fd
      → c'.alive ≡ c.alive
      → find_fd (set cs k c') fd i ≡ find_fd cs fd i
  unfolding find_fd
  find_fd-set [] k c c' fd i e ef ea = refl
  find_fd-set (d ∷ cs) zero c c' fd i e ef ea = ground (arith, ef, ea, e)
  find_fd-set (d ∷ cs) (suc k) c c' fd i e ef ea =
      ap (λ (r : ℤ). if d.alive && eqℤ d.fd fd then pos i else r)
        (find_fd-set cs k c c' fd (suc i) e ef ea)

  pub fd_to_slot-set :
      (cs : List (Client R)) (k : ℕ) (c c' : Client R) (fd : ℤ)
      → get_elem? cs k ≡ some c
      → c'.fd ≡ c.fd
      → c'.alive ≡ c.alive
      → fd_to_slot (set cs k c') fd ≡ fd_to_slot cs fd
  unfolding fd_to_slot
  fd_to_slot-set cs k c c' fd e ef ea =
      ap (λ (r : ℤ). if is_neg fd then minus_one else r) (find_fd-set cs k c c' fd 0 e ef ea)

  length_pos :
      (cs : List (Client R)) (fd : ℤ) (addr now : ℕ) (rate : R) (k : ℕ) (cs' : List (Client R))
      → client_alloc cs fd addr now rate ≡ (pos k, cs')
      → 1 ≤ length cs
  unfolding client_alloc
  length_pos [] fd addr now rate k cs' e = cc
  length_pos (c ∷ cs) fd addr now rate k cs' e = omega arith

  -- the slots other than `k` are as before
  abbrev pub OnlyAt : ℕ → List (Client R) → List (Client R) → Type 0
  OnlyAt k cs cs' = (j : ℕ) → k ≢ j → get_elem? cs' j ≡ get_elem? cs j

  pub served_at :
      (cs cs' : List (Client R)) (fd : ℤ) (k : ℕ) (c : Client R)
      → Nowhere (serves fd) cs
      → is_neg fd ≡ false
      → OnlyAt k cs cs'
      → get_elem? cs' k ≡ some c
      → serves fd c ≡ true
      → fd_to_slot cs' fd ≡ pos k
  served_at cs cs' fd k c none' good others there yes' = elim (fd_to_slot_finds cs' fd good) [
    | inr (_, nowhere) ↦ cc (nowhere k c there)
    | inl (j, e, f) ↦ elim (Bool-cases (k == j)) [
      | inl same ↦ e ∙ ap pos (ground arith)
      | inr other ↦ cc (none' j f.at (sym (others j (ground arith)) ∙ f.there), f.passes)
    ]
  ]

  pub served-Nowhere :
      (cs cs' : List (Client R)) (fd : ℤ) (k : ℕ) (c : Client R)
      → Nowhere (serves fd) cs
      → OnlyAt k cs cs'
      → get_elem? cs' k ≡ some c
      → c.alive ≡ false
      → Nowhere (serves fd) cs'
  served-Nowhere cs cs' fd k c none' others there dead j d e = elim (Bool-cases (k == j)) [
    | inl same ↦
        (let same' : k ≡ j = ground arith in
          let here : some c ≡ some d = sym there ∙ ap (get_elem? cs') same' ∙ e in
          ground (arith, here))
    | inr other ↦ none' j d (sym (others j (ground arith)) ∙ e)
  ]

  -- The slot that `client_alloc` gives to a descriptor that no live slot has is the one that
  -- `fd_to_slot` then finds.
  pub fd_to_slot-client_alloc :
      (cs cs' : List (Client R)) (fd : ℤ) (addr now : ℕ) (rate : R) (k : ℕ)
      → is_neg fd ≡ false
      → Nowhere (serves fd) cs
      → client_alloc cs fd addr now rate ≡ (pos k, cs')
      → fd_to_slot cs' fd ≡ pos k
  fd_to_slot-client_alloc cs cs' fd addr now rate k good none' e =
      elim (client_alloc_takes cs fd addr now rate good (length_pos cs fd addr now rate k cs' e)) [
        | inr (_, full) ↦ cc
        | inl (j, f, taken) ↦
            let c = occupy f.at fd addr now rate in
            let arrays : set cs j c ≡ cs' = cc in
            let slots : pos j ≡ pos k = cc in
            ap (λ (x : List (Client R)). fd_to_slot x fd) (sym arrays)
            ∙ served_at cs (set cs j c) fd j c none' good (λ i ne. get_elem?-set_ne cs j i c ne)
                (get_elem?-set_self cs j c f.at f.there) (eqℤ_refl fd)
            ∙ slots
      ]
