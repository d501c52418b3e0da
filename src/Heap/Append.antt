-- ===== src/Heap/Append.antt =====
-- Linking a node behind the tail and unlinking the head, as the queues of the gateway do it.
use mini_project_of_linux_pr.Prelude.{
  false, Option, none, some, [], ◌∷◌, ◌++◌, ◌≡◌, ◌≢◌, refl, sym, ◌∙◌, arith, ◌==◌, if◌then◌else◌,
  ◌>>=◌, ==_ne,
}
use mini_project_of_linux_pr.Heap.Defs.{Ptr, null, Node, Heap, node, write, load, set_next, free}
use mini_project_of_linux_pr.Heap.Chain.{
  Cells, first, last_from, last, has, Links, Links-frame, Links-write, has-last, Links-last,
  last-ne-null, Links-snoc, write_ne, write_self, ne_of_has,
}

module _ {A : Type 0} where
  pub load_lem : (h : Heap A) (p : Ptr) (n : Node A) → p ≢ null → h p ≡ some n → load h p ≡ some n
  unfolding load
  load_lem h p n ne e = ground arith

  pub set_next_lem :
      (h : Heap A) (p q : Ptr) (a : A) (r : Ptr)
      → p ≢ null
      → h p ≡ some (node a r)
      → set_next h p q ≡ some (write h p (some (node a q)))
  unfolding set_next load
  set_next_lem h p q a r ne e = ground arith

  pub free_lem :
      (h : Heap A) (p : Ptr) (n : Node A)
      → p ≢ null
      → h p ≡ some n
      → free h p ≡ some (write h p none)
  unfolding free load
  free_lem h p n ne e = ground arith

  -- two writes at different addresses
  write_swap :
      (h : Heap A) (p q : Ptr) (c d : Option (Node A)) (a : Ptr)
      → p ≢ q
      → write (write h p c) q d a ≡ write (write h q d) p c a
  write_swap h p q c d a ne = ground arith

  pub Links-last_link :
      (h : Heap A) (p : Ptr) (a : A) (xs : Cells A) (q : Ptr) (b c : A) (r : Ptr)
      → Links h ((p, a) ∷ xs)
      → q ≢ null
      → has q ((p, a) ∷ xs) ≡ false
      → h q ≡ some (node b r)
      → h (last_from p xs) ≡ some (node c null)
      → Links
          (write (write h (last_from p xs) (some (node c q))) q (some (node b null)))
          ((p, a) ∷ xs ++ (q, b) ∷ [])
  Links-last_link h p a xs q b c r l ne out e el =
      let z = last_from p xs in
      let apart : q ≢ z = ne_of_has q z ((p, a) ∷ xs) out (has-last p a xs) in
      let apart' : z ≢ q = λ i. apart (sym i) in
      let h' : Heap A = write h q (some (node b null)) in
      Links-frame (write (write h z (some (node c q))) q (some (node b null)))
        (write h' z (some (node c q))) ((p, a) ∷ xs ++ (q, b) ∷ [])
        (λ t i. write_swap h z q (some (node c q)) (some (node b null)) t apart')
        (Links-snoc h' p a xs q b c (Links-write h q (some (node b null)) ((p, a) ∷ xs) out l) ne
          out (write_self h q (some (node b null)))
          (write_ne h q (some (node b null)) z apart' ∙ el))

  -- `tail->next = q` if there is a tail, then `q->next = NULL`
  unfoldable pub append : Heap A → Ptr → Ptr → Option (Heap A)
  append h tail q = do h1 ← if tail == null then some h else set_next h tail q; set_next h1 q null

  pub append-Links :
      (h : Heap A) (xs : Cells A) (q : Ptr) (b : A) (r : Ptr)
      → Links h xs
      → q ≢ null
      → has q xs ≡ false
      → h q ≡ some (node b r)
      → (g : Heap A) × (append h (last xs) q ≡ some g) × Links g (xs ++ (q, b) ∷ [])
  unfolding append
  append-Links h [] q b r l ne out e = (
    write h q (some (node b null)),
    set_next_lem h q null b r ne e,
    (ne, write_self h q (some (node b null)), refl, tt),
  )
  append-Links h ((p, a) ∷ xs) q b r l ne out e =
      let z = last_from p xs in
      let (c, el) = Links-last h p a xs l in
      let nz = last-ne-null h p a xs l in
      let apart : q ≢ z = ne_of_has q z ((p, a) ∷ xs) out (has-last p a xs) in
      let h1 : Heap A = write h z (some (node c q)) in
      (
        write h1 q (some (node b null)),
        rw (==_ne z null nz, set_next_lem h z q c null nz el)
            (set_next_lem h1 q null b r ne (write_ne h z (some (node c q)) q apart ∙ e)),
        Links-last_link h p a xs q b c r l ne out e el,
      )

  -- Unlinking the head leaves the rest of the list.
  pub Links-tail :
      (h : Heap A) (p : Ptr) (a : A) (xs : Cells A) (c : Option (Node A))
      → Links h ((p, a) ∷ xs)
      → Links (write h p c) xs
  Links-tail h p a xs c l = Links-write h p c xs l.2 l.3

  pub first-snoc_or :
      (h : Heap A) (xs : Cells A) (q : Ptr) (b : A)
      → Links h xs
      → (if last xs == null then q else first xs) ≡ first (xs ++ (q, b) ∷ [])
  first-snoc_or h [] q b l = refl
  first-snoc_or h ((p, a) ∷ xs) q b l = rw (==_ne (last_from p xs) null (last-ne-null h p a xs l))

  pub last_rest :
      (h : Heap A) (p : Ptr) (xs : Cells A)
      → Links h xs
      → (if first xs == null then null else last_from p xs) ≡ last xs
  last_rest h p [] l = refl
  last_rest h p ((q, b) ∷ xs) l = rw (==_ne q null l.0)
