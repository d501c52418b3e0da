-- ===== src/Reader/Keeps.antt =====
-- About the read loop of `client_read_message` (gateway/src/server.c) and the fields of a client.
use mini_project_of_linux_pr.Prelude.{
  Option, none, some, List, [], ◌∷◌, ◌≡◌, refl, ◌∙◌, arith, subst,
}
use mini_project_of_linux_pr.Protocol.{ReadStage, read_header, read_payload, read_crc}
use mini_project_of_linux_pr.Client.{Client}
use mini_project_of_linux_pr.Reader.{
  Read, got, closed, interrupted, would_block, broken, Outcome, code_failed, received, header_done,
  read_round, read_loop,
}

module _ {R : Type 0} where
  -- The descriptor, the generation, the session and the waiting messages are the same.
  pub record KeepsIdentity (c c' : Client R) : Type 0 where
    pub fd : c'.fd ≡ c.fd
    pub generation : c'.generation ≡ c.generation
    pub ssl : c'.ssl ≡ c.ssl
    pub head : c'.head ≡ c.head
    pub tail : c'.tail ≡ c.tail

  KeepsIdentity-refl : (c : Client R) → KeepsIdentity c c
  KeepsIdentity-refl c = record {
    fd = refl;
    generation = refl;
    ssl = refl;
    head = refl;
    tail = refl;
  }

  KeepsIdentity-trans :
      (a b c : Client R) → KeepsIdentity a b → KeepsIdentity b c → KeepsIdentity a c
  KeepsIdentity-trans a b c x y = record {
    fd = y.fd ∙ x.fd;
    generation = y.generation ∙ x.generation;
    ssl = y.ssl ∙ x.ssl;
    head = y.head ∙ x.head;
    tail = y.tail ∙ x.tail;
  }

  header_done-KeepsIdentity : (c : Client R) → KeepsIdentity c (header_done c).0
  unfolding header_done
  header_done-KeepsIdentity c = record {
    fd = ground arith;
    generation = ground arith;
    ssl = ground arith;
    head = ground arith;
    tail = ground arith;
  }

  read_round-KeepsIdentity : (c : Client R) (r : Read) → KeepsIdentity c (read_round c r).0
  unfolding read_round
  read_round-KeepsIdentity c interrupted = KeepsIdentity-refl c
  read_round-KeepsIdentity c would_block = KeepsIdentity-refl c
  read_round-KeepsIdentity c broken = KeepsIdentity-refl c
  read_round-KeepsIdentity c closed = record {
    fd = refl;
    generation = refl;
    ssl = refl;
    head = refl;
    tail = refl;
  }
  read_round-KeepsIdentity c (got bytes) =
      let k = header_done-KeepsIdentity (received c bytes) in
      record {
        fd = ground (arith, k.fd);
        generation = ground (arith, k.generation);
        ssl = ground (arith, k.ssl);
        head = ground (arith, k.head);
        tail = ground (arith, k.tail);
      }

  -- However the call on a client ends, and whatever arrived, the reader has left the client's
  -- descriptor, generation, session and waiting messages alone.
  pub read_loop-KeepsIdentity :
      (rs left : List Read) (c c' : Client R) (out : Outcome)
      → read_loop rs c ≡ some (c', out, left)
      → KeepsIdentity c c'
  unfolding read_loop
  read_loop-KeepsIdentity [] left c c' out e = cc
  read_loop-KeepsIdentity (r ∷ rs) left c c' out e =
      after c.stage (read_round c r) (read_round-KeepsIdentity c r)
        (λ d. read_loop-KeepsIdentity rs left d c' out) e
    where
      after :
          (s : ReadStage) (round : Client R × Option Outcome)
          → KeepsIdentity c round.0
          → ((d : Client R) → read_loop rs d ≡ some (c', out, left) → KeepsIdentity d c')
          → elim s [
            | read_crc ↦ some (c, code_failed, r ∷ rs)
            | _ ↦ elim round.1 [ none ↦ read_loop rs round.0 | some o ↦ some (round.0, o, rs) ]
          ]
            ≡ some (c', out, left)
          → KeepsIdentity c c'
      after read_crc (c1, o) k later e' =
          let same : c ≡ c' = cc in subst (KeepsIdentity c) same (KeepsIdentity-refl c)
      after read_header (c1, none) k later e' = KeepsIdentity-trans c c1 c' k (later c1 e')
      after read_header (c1, some o) k later e' =
          let same : c1 ≡ c' = cc in subst (KeepsIdentity c) same k
      after read_payload (c1, none) k later e' = KeepsIdentity-trans c c1 c' k (later c1 e')
      after read_payload (c1, some o) k later e' =
          let same : c1 ≡ c' = cc in subst (KeepsIdentity c) same k
