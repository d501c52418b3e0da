-- ===== src/Server/Connections/Loop.antt =====
-- About the loop of `reap_client` (gateway/src/server.c) over the slots.
use mini_project_of_linux_pr.Prelude.{
  ℕ, zero, suc, ◌+◌, ◌≤◌, ◌<◌, Bool, true, false, Option, none, some, List, [], ◌∷◌, ◌++◌, ◌≡◌, ◌≢◌,
  refl, sym, ap, ◌∙◌, arith, inl, inr, ◌==◌, if◌then◌else◌, ◌>>=◌, ℤ, is_neg, get_elem?, set,
  get_elem?-set_self, get_elem?-set_ne, length, length-set, drop, get_elem?-lt, subst, Bool-cases,
}
use mathlib.Core.Option
use mini_project_of_linux_pr.Heap.{Ptr, null, Heap, Cells, has, Links-frame}
use mini_project_of_linux_pr.Client.{Client, Transmit, vacate}
use mini_project_of_linux_pr.Client.Outbox.{IsOutbox}
use mini_project_of_linux_pr.Client.Close.{close_client_lem}
use mini_project_of_linux_pr.Server.{Server}
use mini_project_of_linux_pr.Server.Connections.{Closing, close_slot, is_reaped, reap_from}

-- nothing waits for slot `i` any more
abbrev emptied : ℕ → (ℕ → Cells Transmit) → ℕ → Cells Transmit
emptied i xs j = if j == i then [] else xs j

emptied_other : (i j : ℕ) (xs : ℕ → Cells Transmit) → i ≢ j → emptied i xs j ≡ xs j
emptied_other i j xs ne = ground arith

emptied_here : (i : ℕ) (xs : ℕ → Cells Transmit) → emptied i xs i ≡ []
emptied_here i xs = ground arith

module _ {R : Type 0} where
  -- The messages `xs i` wait for slot `i`, fewer than `k`, and no two slots share one.
  pub record Boxes (k : ℕ) (h : Heap Transmit) (cs : List (Client R)) (xs : ℕ → Cells Transmit)
      : Type 0 where
    pub box : (i : ℕ) (c : Client R) → get_elem? cs i ≡ some c → IsOutbox h c (xs i)
    pub small : (i : ℕ) → length (xs i) < k
    pub apart : (i j : ℕ) (a : Ptr) → i ≢ j → has a (xs j) ≡ true → has a (xs i) ≡ false

  -- What becomes of a slot, and the descriptors that are closed, slot by slot.
  abbrev pub reaped : ℕ → Client R → Client R
  reaped now c = if is_reaped now c then vacate c else c

  abbrev pub reaped_fds : ℕ → List (Client R) → List ℤ
  reaped_fds now [] = []
  reaped_fds now (c ∷ cs) =
      let rest = reaped_fds now cs in if is_reaped now c then c.fd ∷ rest else rest

  drop-get :
      (cs : List (Client R)) (i : ℕ) (c : Client R)
      → get_elem? cs i ≡ some c
      → drop i cs ≡ c ∷ drop (suc i) cs
  drop-get [] i c e = cc
  drop-get (d ∷ cs) zero c e = ground (arith, e)
  drop-get (d ∷ cs) (suc i) c e = drop-get cs i c e

  drop-set :
      (cs : List (Client R)) (i : ℕ) (c : Client R) → drop (suc i) (set cs i c) ≡ drop (suc i) cs
  drop-set [] i c = refl
  drop-set (d ∷ cs) zero c = refl
  drop-set (d ∷ cs) (suc i) c = drop-set cs i c

  get-below :
      (cs : List (Client R)) (i : ℕ) → i < length cs → (c : Client R) × (get_elem? cs i ≡ some c)
  get-below [] i lt = absurd (omega arith)
  get-below (d ∷ cs) zero lt = (d, refl)
  get-below (d ∷ cs) (suc i) lt = get-below cs i (omega arith)

  pub reaped_in_use : (now : ℕ) (c : Client R) → is_reaped now c ≡ true → is_neg c.fd ≡ false
  reaped_in_use now c e = ground (arith, e)

  Boxes-close :
      (k i : ℕ) (h g : Heap Transmit) (cs : List (Client R)) (xs : ℕ → Cells Transmit)
      (c : Client R)
      → Boxes k h cs xs
      → get_elem? cs i ≡ some c
      → ((a : Ptr) → g a ≡ (if has a (xs i) then none else h a))
      → Boxes k g (set cs i (vacate c)) (emptied i xs)
  Boxes-close k i h g cs xs c v there same = record {
    box = box';
    small = λ j. elim (Bool-cases (j == i)) [
      | inl here ↦ rw here (omega (arith, v.small i))
      | inr other ↦ rw other (v.small j)
    ];
    apart = λ a b p ne held. elim (Bool-cases (a == i)) [
      | inl here ↦ rw here refl
      | inr other ↦ elim (Bool-cases (b == i)) [
        | inl there' ↦ cc (subst (λ (t : Bool). has p (if t then [] else xs b) ≡ true) there' held)
        | inr other' ↦ rw other (
            v.apart a b p ne
              (subst (λ (t : Bool). has p (if t then [] else xs b) ≡ true) other' held))
      ]
    ];
  }
    where
      box' :
          (j : ℕ) (d : Client R)
          → get_elem? (set cs i (vacate c)) j ≡ some d
          → IsOutbox g d (emptied i xs j)
      box' j d e = elim (Bool-cases (j == i)) [
        | inl here ↦
            (let same' : i ≡ j = ground arith in
              let it : some (vacate c) ≡ some d =
                sym (get_elem?-set_self cs i (vacate c) c there)
                ∙ ap (get_elem? (set cs i (vacate c))) same'
                ∙ e in
              let eh : d.head ≡ null = ground (arith, it) in
              let et : d.tail ≡ null = ground (arith, it) in
              rw here (record { links = tt; head = eh; tail = et }))
        | inr other ↦
            (let ne : i ≢ j = ground arith in
              let b = v.box j d (sym (get_elem?-set_ne cs i j (vacate c) ne) ∙ e) in
              rw other (record {
                links =
                    Links-frame g h (xs j)
                      (λ a held.
                        same a ∙ ap (λ (t : Bool). if t then none else h a) (v.apart i j a ne held))
                      b.links;
                head = b.head;
                tail = b.tail;
              }))
      ]

  close_slot_lem :
      (k i : ℕ) (sv : Server R) (xs : ℕ → Cells Transmit) (c : Client R)
      → Boxes k sv.transmit_heap sv.clients xs
      → get_elem? sv.clients i ≡ some c
      → is_neg c.fd ≡ false
      → (g : Heap Transmit) × (close_slot k sv i
          ≡ some
              (c.fd ∷ [], record sv { clients = set sv.clients i (vacate c); transmit_heap = g }))
        × Boxes k g (set sv.clients i (vacate c)) (emptied i xs)
  unfolding close_slot
  close_slot_lem k i sv xs c v there used =
      let (g, e, same, _, _, _) =
        close_client_lem k i sv.clients there (v.box i c there) (v.small i) used in
      (g, rw e refl, Boxes-close k i sv.transmit_heap g sv.clients xs c v there same)

  -- What the loop does from slot `i` on.
  pub record Reaps (now i : ℕ) (cs : List (Client R)) (out : Option (Closing R)) : Type 0 where
    pub fds : List ℤ
    pub server : Server R
    pub done : out ≡ some (fds, server)
    pub closed : fds ≡ reaped_fds now (drop i cs)
    pub before : (j : ℕ) → j < i → get_elem? server.clients j ≡ get_elem? cs j
    pub after :
        (j : ℕ) (c : Client R)
        → i ≤ j
        → get_elem? cs j ≡ some c
        → get_elem? server.clients j ≡ some (reaped now c)

  drop-all : (cs : List (Client R)) (i : ℕ) → length cs ≤ i → drop i cs ≡ []
  drop-all [] zero le = refl
  drop-all [] (suc i) le = refl
  drop-all (c ∷ cs) zero le = absurd (omega arith)
  drop-all (c ∷ cs) (suc i) le = drop-all cs i (omega arith)

  -- The slot in front of the rest was kept or closed.
  Reaps-step :
      (now i : ℕ) (cs cs1 : List (Client R)) (c : Client R) (fds : List ℤ)
      (out : Option (Closing R))
      → get_elem? cs i ≡ some c
      → get_elem? cs1 i ≡ some (reaped now c)
      → ((j : ℕ) → i ≢ j → get_elem? cs1 j ≡ get_elem? cs j)
      → drop (suc i) cs1 ≡ drop (suc i) cs
      → reaped_fds now (c ∷ drop (suc i) cs) ≡ fds ++ reaped_fds now (drop (suc i) cs)
      → Reaps now (suc i) cs1 out
      → Reaps now i cs (do (more, sv2) ← out; some (fds ++ more, sv2))
  Reaps-step now i cs cs1 c fds out there here others same front r = record {
    fds = fds ++ r.fds;
    server = r.server;
    done = rw r.done refl;
    closed =
        ap (λ (t : List ℤ). fds ++ t) (r.closed ∙ ap (reaped_fds now) same)
        ∙ sym front
        ∙ ap (reaped_fds now) (sym (drop-get cs i c there));
    before = λ j lt. r.before j (omega arith) ∙ others j (λ e. omega (arith, e));
    after = after';
  }
    where
      after' :
          (j : ℕ) (d : Client R)
          → i ≤ j
          → get_elem? cs j ≡ some d
          → get_elem? r.server.clients j ≡ some (reaped now d)
      after' j d le e = elim (Bool-cases (j == i)) [
        | inl same' ↦
            (let eq : i ≡ j = ground arith in
              let it : some c ≡ some d = sym there ∙ ap (get_elem? cs) eq ∙ e in
              ap (get_elem? r.server.clients) (sym eq)
              ∙ r.before i (omega arith)
              ∙ here
              ∙ ap (Option.map (reaped now)) it)
        | inr other ↦
            (let ne : i ≢ j = ground arith in r.after j d (ground arith) (others j ne ∙ e))
      ]

  reap_from-closes :
      (k now n i : ℕ) (sv sv1 : Server R) (c : Client R) (fds : List ℤ)
      → get_elem? sv.clients i ≡ some c
      → is_reaped now c ≡ true
      → close_slot k sv i ≡ some (fds, sv1)
      → reap_from k now (suc n) i sv
        ≡ (do (more, sv2) ← reap_from k now n (suc i) sv1; some (fds ++ more, sv2))
  unfolding reap_from
  reap_from-closes k now n i sv sv1 c fds there stale e = rw (there, stale, e) refl

  reap_from-skips :
      (k now n i : ℕ) (sv : Server R) (c : Client R)
      → get_elem? sv.clients i ≡ some c
      → is_reaped now c ≡ false
      → reap_from k now (suc n) i sv
        ≡ (do (more, sv2) ← reap_from k now n (suc i) sv; some ([] ++ more, sv2))
  unfolding reap_from
  reap_from-skips k now n i sv c there fresh = rw (there, fresh) refl

  pub reap_from-Reaps :
      (k now n i : ℕ) (sv : Server R) (xs : ℕ → Cells Transmit)
      → Boxes k sv.transmit_heap sv.clients xs
      → i + n ≡ length sv.clients
      → Reaps now i sv.clients (reap_from k now n i sv)
  unfolding reap_from
  reap_from-Reaps k now zero i sv xs v all = record {
    fds = [];
    server = sv;
    done = refl;
    closed = rw (drop-all sv.clients i (omega arith)) refl;
    before = λ j lt. refl;
    after = λ j c le e. absurd (omega (arith, get_elem?-lt sv.clients j c e));
  }
  reap_from-Reaps k now (suc n) i sv xs v all =
      let (c, there) = get-below sv.clients i (omega arith) in
      elim (Bool-cases (is_reaped now c)) [
        | inl stale ↦
            (let cs = sv.clients in
              let cs1 = set cs i (vacate c) in
              let (g, e, v1) = close_slot_lem k i sv xs c v there (reaped_in_use now c stale) in
              let sv1 : Server R = record sv { clients = cs1; transmit_heap = g } in
              let r =
                reap_from-Reaps k now n (suc i) sv1 (emptied i xs) v1
                  (omega (arith, length-set cs i (vacate c))) in
              subst (Reaps now i cs)
                (sym (reap_from-closes k now n i sv sv1 c (c.fd ∷ []) there stale e))
                (Reaps-step now i cs cs1 c (c.fd ∷ []) (reap_from k now n (suc i) sv1) there
                  (rw stale (get_elem?-set_self cs i (vacate c) c there))
                  (λ j ne. get_elem?-set_ne cs i j (vacate c) ne) (drop-set cs i (vacate c))
                  (rw stale refl) r))
        | inr fresh ↦
            (let cs = sv.clients in
              let r = reap_from-Reaps k now n (suc i) sv xs v (omega arith) in
              subst (Reaps now i cs) (sym (reap_from-skips k now n i sv c there fresh)) (
                Reaps-step now i cs cs c [] (reap_from k now n (suc i) sv) there (rw fresh there)
                  (λ j ne. refl) refl (rw fresh refl) r))
      ]
