-- ===== src/Client/Send/Keeps.antt =====
-- About `client_flush_tx_tls` (gateway/src/client.c) and the fields of a client.
use mini_project_of_linux_pr.Prelude.{
  ℕ, zero, suc, ◌-◌, Bool, true, false, Option, none, some, List, ◌==◌, ltb, if◌then◌else◌, ◌>>=◌,
  ℤ, pos, negsuc, ◌≡◌, refl, ◌∙◌, arith, subst,
}
use mini_project_of_linux_pr.Heap.{Ptr, null, Heap, Node, load, set_item, free}
use mini_project_of_linux_pr.Client.{Client, Transmit, dequeue_message}
use mini_project_of_linux_pr.Client.Send.{
  SslWrite, Interest, Flushed, advance, account, FlushStep, returns, goes_on, sent_message,
  send_data_to_client_tls, flush_loop, client_flush_tx_tls,
}

module _ {R : Type 0} where
  -- The descriptor, the generation, the session and the state of the reader are the same.
  pub record KeepsPeer (c c' : Client R) : Type 0 where
    pub fd : c'.fd ≡ c.fd
    pub generation : c'.generation ≡ c.generation
    pub alive : c'.alive ≡ c.alive
    pub rx_len : c'.rx_len ≡ c.rx_len

  KeepsPeer-refl : (c : Client R) → KeepsPeer c c
  KeepsPeer-refl c = record { fd = refl; generation = refl; alive = refl; rx_len = refl }

  abbrev Kept : Client R → Option (Flushed R) → Type 0
  Kept c none = Unit
  Kept c (some (code, interest, c', h, left)) = KeepsPeer c c'

  Kept-bind :
      {A : Type 0} (c : Client R) (o : Option A) (f : A → Option (Flushed R))
      → ((a : A) → Kept c (f a))
      → Kept c (o >>= f)
  Kept-bind c none f all = tt
  Kept-bind c (some a) f all = all a

  Kept-if :
      (c : Client R) (b : Bool) (x y : Option (Flushed R))
      → Kept c x
      → Kept c y
      → Kept c (if b then x else y)
  Kept-if c true x y kx ky = kx
  Kept-if c false x y kx ky = ky

  Kept-trans : (b c : Client R) (o : Option (Flushed R)) → KeepsPeer b c → Kept c o → Kept b o
  Kept-trans b c none k kept = tt
  Kept-trans b c (some (code, interest, c', h, left)) k kept = record {
    fd = kept.fd ∙ k.fd;
    generation = kept.generation ∙ k.generation;
    alive = kept.alive ∙ k.alive;
    rx_len = kept.rx_len ∙ k.rx_len;
  }

  abbrev KeptStep : Client R → Option (FlushStep R) → Type 0
  KeptStep c none = Unit
  KeptStep c (some (returns (code, interest, c', h, left))) = KeepsPeer c c'
  KeptStep c (some (goes_on p c' h left)) = KeepsPeer c c'

  KeptStep-bind :
      {A : Type 0} (c : Client R) (o : Option A) (f : A → Option (FlushStep R))
      → ((a : A) → KeptStep c (f a))
      → KeptStep c (o >>= f)
  KeptStep-bind c none f all = tt
  KeptStep-bind c (some a) f all = all a

  KeptStep-if :
      (c : Client R) (b : Bool) (x y : Option (FlushStep R))
      → KeptStep c x
      → KeptStep c y
      → KeptStep c (if b then x else y)
  KeptStep-if c true x y kx ky = kx
  KeptStep-if c false x y kx ky = ky

  Kept-step :
      (c : Client R) (o : Option (FlushStep R))
      (loop : Ptr → Client R → Heap Transmit → List SslWrite → Option (Flushed R))
      → KeptStep c o
      → ((p : Ptr) (d : Client R) (h : Heap Transmit) (rest : List SslWrite)
          → Kept d (loop p d h rest))
      → Kept c (do
        step ← o
        elim step [ returns result ↦ some result | goes_on p1 c1 h1 rest ↦ loop p1 c1 h1 rest ])
  Kept-step c none loop kept all = tt
  Kept-step c (some (returns (code, interest, c', h, left))) loop kept all = kept
  Kept-step c (some (goes_on p c' h left)) loop kept all =
      Kept-trans c c' (loop p c' h left) kept (all p c' h left)

  KeepsPeer-if :
      (b : Bool) (c c2 : Client R)
      → KeepsPeer c c2
      → KeepsPeer c (if b then record c2 { tail = null } else c2)
  KeepsPeer-if true c c2 k = record {
    fd = k.fd;
    generation = k.generation;
    alive = k.alive;
    rx_len = k.rx_len;
  }
  KeepsPeer-if false c c2 k = k

  sent_message-KeptStep :
      (now : ℕ) (p : Ptr) (n : Node Transmit) (c : Client R) (h : Heap Transmit)
      (sent : ℤ × List SslWrite)
      → KeptStep c (sent_message now p n c h sent)
  unfolding sent_message
  sent_message-KeptStep now p n c h (negsuc zero, rest) =
      KeptStep-bind c (free h p) _ (λ h1. KeepsPeer-refl c)
  sent_message-KeptStep now p n c h (negsuc (suc zero), rest) = KeepsPeer-refl c
  sent_message-KeptStep now p n c h (negsuc (suc (suc zero)), rest) = KeepsPeer-refl c
  sent_message-KeptStep now p n c h (negsuc (suc (suc (suc m))), rest) = KeepsPeer-refl c
  sent_message-KeptStep now p n c h (pos zero, rest) =
      KeptStep-bind c (free h p) _ (λ h1. KeepsPeer-refl c)
  sent_message-KeptStep now p n c h (pos (suc m), rest) =
      let c1 = account c (suc m) now in
      let c2 = record c1 { head = n.next } in
      let k1 : KeepsPeer c c1 = record {
        fd = refl;
        generation = refl;
        alive = refl;
        rx_len = refl;
      } in
      let k2 : KeepsPeer c c2 = record {
        fd = refl;
        generation = refl;
        alive = refl;
        rx_len = refl;
      } in
      KeptStep-bind c (set_item h p (advance n.item (suc m))) _ (λ h1.
        KeptStep-if c (ltb (advance n.item (suc m)).offset n.item.len) _ _ k1
          (KeptStep-bind c (free h1 p) _ (λ h2. KeepsPeer-if (c2.head == null) c c2 k2)))

  flush_loop-Kept :
      (k now : ℕ) (p : Ptr) (c : Client R) (h : Heap Transmit) (answers : List SslWrite)
      → Kept c (flush_loop k now p c h answers)
  unfolding flush_loop
  flush_loop-Kept zero now p c h answers = tt
  flush_loop-Kept (suc k) now p c h answers =
      Kept-if c (p == null) _ _
        (record { fd = refl; generation = refl; alive = refl; rx_len = refl })
        (Kept-bind c (load h p) _ (λ n.
          Kept-bind c (send_data_to_client_tls answers 0 (n.item.len - n.item.offset)) _ (λ sent.
            Kept-step c (sent_message now p n c h sent) (flush_loop k now)
              (sent_message-KeptStep now p n c h sent) (flush_loop-Kept k now))))

  dequeue_message-KeepsPeer :
      (c c1 : Client R) (p : Ptr) (h h1 : Heap Transmit)
      → dequeue_message c h ≡ some (p, c1, h1)
      → KeepsPeer c c1
  unfolding dequeue_message
  dequeue_message-KeepsPeer c c1 p h h1 e = record {
    fd = ground arith;
    generation = ground arith;
    alive = ground arith;
    rx_len = ground arith;
  }

  client_flush_tx_tls-Kept :
      (k now : ℕ) (c : Client R) (h : Heap Transmit) (answers : List SslWrite)
      → Kept c (client_flush_tx_tls k now c h answers)
  unfolding client_flush_tx_tls
  client_flush_tx_tls-Kept k now c h answers =
      Kept-if c (c.head == null) _ _ (KeepsPeer-refl c)
        (taken (dequeue_message c h) (λ p c1 h1 e. dequeue_message-KeepsPeer c c1 p h h1 e))
    where
      taken :
          (o : Option (Ptr × Client R × Heap Transmit))
          → ((p : Ptr) (c1 : Client R) (h1 : Heap Transmit) → o ≡ some (p, c1, h1) → KeepsPeer c c1)
          → Kept c (do (p, c1, h1) ← o; flush_loop k now p c1 h1 answers)
      taken none keeps = tt
      taken (some (p, c1, h1)) keeps =
          Kept-trans c c1 (flush_loop k now p c1 h1 answers) (keeps p c1 h1 refl)
            (flush_loop-Kept k now p c1 h1 answers)

  -- Whatever the TLS library answers and however the call ends, `client_flush_tx_tls` leaves the
  -- client's descriptor, generation, life and reader alone.
  pub client_flush_tx_tls-KeepsPeer :
      (k now : ℕ) (c c' : Client R) (h h' : Heap Transmit) (answers left : List SslWrite) (code : ℤ)
      (interest : Option Interest)
      → client_flush_tx_tls k now c h answers ≡ some (code, interest, c', h', left)
      → KeepsPeer c c'
  client_flush_tx_tls-KeepsPeer k now c c' h h' answers left code interest e =
      subst (Kept c) e (client_flush_tx_tls-Kept k now c h answers)
