-- ===== src/Heap/Chain.antt =====
-- What a well-formed singly linked list with a head and a tail pointer is, and the two steps every
-- queue of the gateway takes on one: link a node behind the tail, unlink the head.
use mini_project_of_linux_pr.Prelude.{
  ◌+◌, Bool, true, false, Option, some, List, [], ◌∷◌, ◌++◌, ◌≡◌, ◌≢◌, refl, sym, ap, ◌∙◌, arith,
  ◌==◌, ◌||◌, length,
}
use mini_project_of_linux_pr.Heap.Defs.{Ptr, null, Node, Heap, node, write}

-- what a list stands for: address and contents of each node, in order
abbrev pub Cells : Type 0 → Type 0
Cells A = List (Ptr × A)

module _ {A : Type 0} where
  abbrev pub first : Cells A → Ptr
  first [] = null
  first ((p, _) ∷ xs) = p

  abbrev pub last_from : Ptr → Cells A → Ptr
  last_from p [] = p
  last_from p ((q, _) ∷ xs) = last_from q xs

  abbrev pub last : Cells A → Ptr
  last xs = last_from null xs

  abbrev pub items : Cells A → List A
  items [] = []
  items ((_, a) ∷ xs) = a ∷ items xs

  abbrev pub has : Ptr → Cells A → Bool
  has a [] = false
  has a ((p, _) ∷ xs) = (a == p) || has a xs

  -- Each node points to the next one, the last to NULL; no address is NULL or stands twice.
  abbrev pub Links : Heap A → Cells A → Type 0
  Links h [] = Unit
  Links h ((p, a) ∷ xs) =
      (p ≢ null) × (h p ≡ some (node a (first xs))) × (has p xs ≡ false) × Links h xs

  -- a list survives any change that spares its own addresses
  pub Links-frame :
      (g h : Heap A) (xs : Cells A)
      → ((a : Ptr) → has a xs ≡ true → g a ≡ h a)
      → Links h xs
      → Links g xs
  Links-frame g h [] same l = tt
  Links-frame g h ((p, a) ∷ xs) same l =
      (l.0, ground (arith, same p), l.2, Links-frame g h xs (λ b i. same b (ground arith)) l.3)

  pub Links-write :
      (h : Heap A) (q : Ptr) (c : Option (Node A)) (xs : Cells A)
      → has q xs ≡ false
      → Links h xs
      → Links (write h q c) xs
  Links-write h q c xs out l = Links-frame (write h q c) h xs (λ a i. ground arith) l

  pub length-snoc : (xs : Cells A) (c : Ptr × A) → length (xs ++ c ∷ []) ≡ length xs + 1
  length-snoc [] c = refl
  length-snoc (x ∷ xs) c = omega (arith, length-snoc xs c)

  pub last_from-snoc :
      (p : Ptr) (xs : Cells A) (q : Ptr) (b : A) → last_from p (xs ++ (q, b) ∷ []) ≡ q
  last_from-snoc p [] q b = refl
  last_from-snoc p ((r, _) ∷ xs) q b = last_from-snoc r xs q b

  pub first-snoc :
      (p : Ptr) (a : A) (xs : Cells A) (c : Ptr × A) → first ((p, a) ∷ xs ++ c ∷ []) ≡ p
  first-snoc p a xs c = refl

  pub items-snoc : (xs : Cells A) (q : Ptr) (b : A) → items (xs ++ (q, b) ∷ []) ≡ items xs ++ b ∷ []
  items-snoc [] q b = refl
  items-snoc ((p, a) ∷ xs) q b = ground (arith, items-snoc xs q b)

  pub has-snoc :
      (a : Ptr) (xs : Cells A) (q : Ptr) (b : A)
      → has a xs ≡ false
      → a ≢ q
      → has a (xs ++ (q, b) ∷ []) ≡ false
  has-snoc a [] q b out ne = ground arith
  has-snoc a ((p, _) ∷ xs) q b out ne = ground (arith, has-snoc a xs q b)

  -- the last node of a list that has one is a node of it
  pub has-last : (p : Ptr) (a : A) (xs : Cells A) → has (last_from p xs) ((p, a) ∷ xs) ≡ true
  has-last p a [] = ground arith
  has-last p a ((q, b) ∷ xs) = ground (arith, has-last q b xs)

  pub last-ne-null :
      (h : Heap A) (p : Ptr) (a : A) (xs : Cells A) → Links h ((p, a) ∷ xs) → last_from p xs ≢ null
  last-ne-null h p a [] l = l.0
  last-ne-null h p a ((q, b) ∷ xs) l = last-ne-null h q b xs l.3

  -- reading the last node: its `next` is NULL
  pub Links-last :
      (h : Heap A) (p : Ptr) (a : A) (xs : Cells A)
      → Links h ((p, a) ∷ xs)
      → (b : A) × (h (last_from p xs) ≡ some (node b null))
  Links-last h p a [] l = (a, l.1)
  Links-last h p a ((q, b) ∷ xs) l = Links-last h q b xs l.3

  pub ne_of_has : (a q : Ptr) (xs : Cells A) → has a xs ≡ false → has q xs ≡ true → a ≢ q
  ne_of_has a q xs out is e = cc (ap (λ (t : Ptr). has t xs) e)

  pub write_ne :
      (h : Heap A) (q : Ptr) (c : Option (Node A)) (a : Ptr) → a ≢ q → write h q c a ≡ h a
  write_ne h q c a ne = ground arith

  pub write_self : (h : Heap A) (q : Ptr) (c : Option (Node A)) → write h q c q ≡ c
  write_self h q c = ground arith

  pub ne_of_out : (a q : Ptr) (b : A) (xs : Cells A) → has a ((q, b) ∷ xs) ≡ false → a ≢ q
  ne_of_out a q b xs out = ground arith

  pub out_of_out :
      (a q : Ptr) (b : A) (xs : Cells A) → has a ((q, b) ∷ xs) ≡ false → has a xs ≡ false
  out_of_out a q b xs out = ground arith

  -- A node whose `next` is NULL, outside the list, once linked behind the last node.
  pub Links-snoc :
      (h : Heap A) (p : Ptr) (a : A) (xs : Cells A) (q : Ptr) (b c : A)
      → Links h ((p, a) ∷ xs)
      → q ≢ null
      → has q ((p, a) ∷ xs) ≡ false
      → h q ≡ some (node b null)
      → h (last_from p xs) ≡ some (node c null)
      → Links (write h (last_from p xs) (some (node c q))) ((p, a) ∷ xs ++ (q, b) ∷ [])
  Links-snoc h p a [] q b c l ne out e el = ground arith
  Links-snoc h p a ((r, d) ∷ xs) q b c l ne out e el =
      let z = last_from r xs in
      (
        l.0,
        write_ne h z (some (node c q)) p (ne_of_has p z ((r, d) ∷ xs) l.2 (has-last r d xs)) ∙ l.1,
        has-snoc p ((r, d) ∷ xs) q b l.2 (λ e. ne_of_out q p a ((r, d) ∷ xs) out (sym e)),
        Links-snoc h r d xs q b c l.3 ne (out_of_out q p a ((r, d) ∷ xs) out) e el,
      )
