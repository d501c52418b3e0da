-- ===== src/Client/Close.antt =====
-- About `close_client` (gateway/src/client.c).
use mini_project_of_linux_pr.Prelude.{
  ℕ, zero, suc, ◌<◌, Bool, false, none, some, List, [], ◌∷◌, if◌then◌else◌, ◌≡◌, ◌≢◌, refl, ap, ◌∙◌,
  arith, length, ==_ne, pos, minus_one, is_neg, get_elem?, set, get_elem?-set_self,
  get_elem?-set_ne,
}
use mini_project_of_linux_pr.Heap.{
  free_lem, Ptr, null, Heap, node, write, Cells, first, has, Links, Links-write, load_lem,
}
use mini_project_of_linux_pr.Types.{ok}
use mini_project_of_linux_pr.Client.{Client, Transmit, free_messages, close_client, vacate}
use mini_project_of_linux_pr.Client.Outbox.{IsOutbox}

free_messages_lem :
    (k : ℕ) (h : Heap Transmit) (xs : Cells Transmit)
    → Links h xs
    → length xs < k
    → (g : Heap Transmit) × (free_messages k (first xs) h ≡ some g)
      × ((a : Ptr) → g a ≡ (if has a xs then none else h a))
unfolding free_messages
free_messages_lem zero h xs l lt = absurd (omega arith)
free_messages_lem (suc k) h [] l lt = (h, refl, λ a. refl)
free_messages_lem (suc k) h ((p, b) ∷ xs) l lt =
    let h1 : Heap Transmit = write h p none in
    let (g, e, same) = free_messages_lem k h1 xs (Links-write h p none xs l.2 l.3) (omega arith) in
    (
      g,
      rw
          (
            ==_ne p null l.0,
            load_lem h p (node b (first xs)) l.0 l.1,
            free_lem h p (node b (first xs)) l.0 l.1,
          )
          e,
      λ a. same a ∙ ground arith,
    )

module _ {R : Type 0} where
  -- What a slot without a connection holds; it keeps the generation that it had.
  pub record Emptied (c c' : Client R) : Type 0 where
    pub fd : c'.fd ≡ minus_one
    pub alive : c'.alive ≡ false
    pub ssl : c'.ssl ≡ none
    pub head : c'.head ≡ null
    pub tail : c'.tail ≡ null
    pub bytes_need_to_send : c'.bytes_need_to_send ≡ 0
    pub rx_len : c'.rx_len ≡ 0
    pub generation : c'.generation ≡ c.generation

  pub vacate-Emptied : (c : Client R) → is_neg c.fd ≡ false → Emptied c (vacate c)
  vacate-Emptied c live = record {
    fd = ap (λ (t : Bool). if t then c.fd else minus_one) live;
    alive = refl;
    ssl = refl;
    head = refl;
    tail = refl;
    bytes_need_to_send = refl;
    rx_len = refl;
    generation = refl;
  }

  -- The call, by the slot that it leaves.
  pub close_client_lem :
      {h : Heap Transmit} {c : Client R} {xs : Cells Transmit} (k slot : ℕ) (cs : List (Client R))
      → get_elem? cs slot ≡ some c
      → IsOutbox h c xs
      → length xs < k
      → is_neg c.fd ≡ false
      → (g : Heap Transmit) × (close_client k cs (pos slot) h
          ≡ some (ok, some c.fd, set cs slot (vacate c), g))
        × ((a : Ptr) → g a ≡ (if has a xs then none else h a))
        × (get_elem? (set cs slot (vacate c)) slot ≡ some (vacate c))
        × ((vacate c).fd ≡ minus_one)
        × ((j : ℕ) → slot ≢ j → get_elem? (set cs slot (vacate c)) j ≡ get_elem? cs j)
  unfolding close_client
  close_client_lem {h} {c} {xs} k slot cs there v lt live =
      let (g, e, same) = free_messages_lem k h xs v.links lt in
      (
        g,
        rw (there, v.head, e, live) refl,
        same,
        get_elem?-set_self cs slot (vacate c) c there,
        ap (λ (t : Bool). if t then c.fd else minus_one) live,
        λ j ne. get_elem?-set_ne cs slot j (vacate c) ne,
      )

  -- With fuel for the messages `xs` that wait, closing a slot in use closes its descriptor and frees
  -- exactly those messages. The slot then has no descriptor, no session, no bytes that were read and
  -- no messages, it is not alive, and it keeps its generation; the others are as they were.
  pub close_client_vacates :
      {h : Heap Transmit} {c : Client R} {xs : Cells Transmit} (k slot : ℕ) (cs : List (Client R))
      → get_elem? cs slot ≡ some c
      → IsOutbox h c xs
      → length xs < k
      → is_neg c.fd ≡ false
      → (cs' : List (Client R)) × (g : Heap Transmit) × (c' : Client R) × (close_client k cs
            (pos slot)
            h
          ≡ some (ok, some c.fd, cs', g))
        × ((a : Ptr) → g a ≡ (if has a xs then none else h a))
        × (get_elem? cs' slot ≡ some c')
        × Emptied c c'
        × ((j : ℕ) → slot ≢ j → get_elem? cs' j ≡ get_elem? cs j)
  close_client_vacates {h} {c} {xs} k slot cs there v lt live =
      let (g, e, frees, here, _, others) = close_client_lem k slot cs there v lt live in
      (set cs slot (vacate c), g, vacate c, e, frees, here, vacate-Emptied c live, others)
