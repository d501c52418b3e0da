-- ===== src/Server/Connections/Accept.antt =====
-- About `handle_accept_client` (gateway/src/server.c).
use mini_project_of_linux_pr.Prelude.{
  ℕ, suc, ◌≤◌, true, false, Option, none, some, List, [], ◌∷◌, ◌≡◌, refl, sym, ap, ◌∙◌, ◌⊎◌, inl,
  inr, ◌>>=◌, ℤ, pos, minus_one, is_neg, eqℤ_refl, get_elem?, set, get_elem?-set_self,
  get_elem?-set_ne, length, subst, Bool-cases,
}
use mini_project_of_linux_pr.Heap.{null}
use mini_project_of_linux_pr.Client.{
  Client, occupy, vacate, fd_to_slot, free_messages, close_client,
}
use mini_project_of_linux_pr.Client.Send.{want_read, want_write, zero_return, other_error}
use mini_project_of_linux_pr.Client.Slots.{
  Nowhere, OnlyAt, serves, client_alloc_takes, served_at, served-Nowhere,
}
use mini_project_of_linux_pr.Server.{Server, set_client}
use mini_project_of_linux_pr.Server.Connections.{
  Connection, connected, Handshake, finished, unfinished, Handled, close_slot, give_up,
  tls_try_handshake, open_session, open_slot, take_slot, handle_accept_client,
}

module _ {R : Type 0} where
  -- How a call on the slot `j` of a new connection ends, when that slot was `c`: the slots beside it
  -- are as before, and its descriptor is closed and the slot dead, or it lives on with it.
  record Opened (cs : List (Client R)) (j : ℕ) (c : Client R) (out : Option (Handled R))
      : Type 0 where
    code : ℤ
    fds : List ℤ
    server : Server R
    at : Client R
    done : out ≡ some (code, fds, server)
    others : OnlyAt j cs server.clients
    there : get_elem? server.clients j ≡ some at
    fate :
        ((fds ≡ c.fd ∷ []) × (at.alive ≡ false)) ⊎ ((fds ≡ []) × (at.alive ≡ true) × (at.fd ≡ c.fd))

  -- Closing a slot where nothing waits.
  give_up_lem :
      (k : ℕ) (sv : Server R) (j : ℕ) (c : Client R)
      → get_elem? sv.clients j ≡ some c
      → c.head ≡ null
      → is_neg c.fd ≡ false
      → give_up (suc k) sv j ≡ some (minus_one, c.fd ∷ [], set_client sv j (vacate c))
  unfolding give_up close_slot close_client free_messages
  give_up_lem k sv j c there empty good = rw (there, empty, good) refl

  gave_up :
      (k : ℕ) (sv : Server R) (cs : List (Client R)) (j : ℕ) (c d : Client R)
      → OnlyAt j cs sv.clients
      → get_elem? sv.clients j ≡ some d
      → d.head ≡ null
      → d.fd ≡ c.fd
      → is_neg c.fd ≡ false
      → Opened cs j c (give_up (suc k) sv j)
  gave_up k sv cs j c d others there empty same good = record {
    code = minus_one;
    fds = d.fd ∷ [];
    server = set_client sv j (vacate d);
    at = vacate d;
    done = give_up_lem k sv j d there empty (ap is_neg same ∙ good);
    others = λ i ne. get_elem?-set_ne sv.clients j i (vacate d) ne ∙ others i ne;
    there = get_elem?-set_self sv.clients j (vacate d) d there;
    fate = inl (ap (λ (x : ℤ). x ∷ []) same, refl);
  }

  keep :
      (sv : Server R) (cs : List (Client R)) (j : ℕ) (c d : Client R) (code : ℤ)
      → OnlyAt j cs sv.clients
      → get_elem? sv.clients j ≡ some d
      → d.alive ≡ true
      → d.fd ≡ c.fd
      → Opened cs j c (some (code, [], sv))
  keep sv cs j c d code others there live same = record {
    code = code;
    fds = [];
    server = sv;
    at = d;
    done = refl;
    others = others;
    there = there;
    fate = inr (refl, live, same);
  }

  shaken :
      (k : ℕ) (sv : Server R) (cs : List (Client R)) (j : ℕ) (c d : Client R) (hs : Handshake)
      → OnlyAt j cs sv.clients
      → get_elem? sv.clients j ≡ some d
      → d.head ≡ null
      → d.fd ≡ c.fd
      → d.alive ≡ true
      → is_neg c.fd ≡ false
      → Opened cs j c (tls_try_handshake (suc k) sv j hs)
  unfolding tls_try_handshake
  shaken k sv cs j c d finished others there empty same live good =
      let e = record d { tls_handshake_done = true } in
      rw there (
        keep (set_client sv j e) cs j c e (pos 0)
          (λ i ne. get_elem?-set_ne sv.clients j i e ne ∙ others i ne)
          (get_elem?-set_self sv.clients j e d there) live same)
  shaken k sv cs j c d (unfinished want_read) others there empty same live good =
      keep sv cs j c d (pos 1) others there live same
  shaken k sv cs j c d (unfinished want_write) others there empty same live good =
      keep sv cs j c d (pos 1) others there live same
  shaken k sv cs j c d (unfinished zero_return) others there empty same live good =
      gave_up k sv cs j c d others there empty same good
  shaken k sv cs j c d (unfinished other_error) others there empty same live good =
      gave_up k sv cs j c d others there empty same good

  recode :
      (cs : List (Client R)) (j : ℕ) (c : Client R) (out : Option (Handled R))
      → Opened cs j c out
      → Opened cs j c (do (ret, fds, sv2) ← out; some (pos 0, fds, sv2))
  recode cs j c out o = record {
    code = pos 0;
    fds = o.fds;
    server = o.server;
    at = o.at;
    done = rw o.done refl;
    others = o.others;
    there = o.there;
    fate = o.fate;
  }

  open_session-Opened :
      (k : ℕ) (sv : Server R) (cs : List (Client R)) (j : ℕ) (c d : Client R) (x : Connection R)
      (session : Option ℕ)
      → OnlyAt j cs sv.clients
      → get_elem? sv.clients j ≡ some d
      → d.head ≡ null
      → d.fd ≡ c.fd
      → d.alive ≡ true
      → is_neg c.fd ≡ false
      → Opened cs j c (open_session (suc k) sv j x session)
  unfolding open_session
  open_session-Opened k sv cs j c d x none others there empty same live good =
      gave_up k sv cs j c d others there empty same good
  open_session-Opened k sv cs j c d x (some session) others there empty same live good =
      elim (Bool-cases x.bound) [
        | inr unbound ↦ rw unbound (gave_up k sv cs j c d others there empty same good)
        | inl bound ↦ rw bound (
            recode cs j c (tls_try_handshake (suc k) sv j x.handshake)
              (shaken k sv cs j c d x.handshake others there empty same live good))
      ]

  open_slot-Opened :
      (k : ℕ) (sv : Server R) (cs : List (Client R)) (j : ℕ) (c : Client R) (x : Connection R)
      → OnlyAt j cs sv.clients
      → get_elem? sv.clients j ≡ some c
      → c.head ≡ null
      → c.alive ≡ true
      → is_neg c.fd ≡ false
      → Opened cs j c (open_slot (suc k) sv j x)
  unfolding open_slot
  open_slot-Opened k sv cs j c x others there empty live good = elim (Bool-cases x.watched) [
    | inr unwatched ↦ rw unwatched (gave_up k sv cs j c c others there empty refl good)
    | inl watched ↦
        subst (Opened cs j c) (sym (reaches watched))
          (open_session-Opened k sv1 cs j c d x x.session others1 there1 empty refl live good)
  ]
    where
      d : Client R
      d = record c { ssl = x.session }

      sv1 : Server R
      sv1 = set_client sv j d

      others1 : OnlyAt j cs sv1.clients
      others1 i ne = get_elem?-set_ne sv.clients j i d ne ∙ others i ne

      there1 : get_elem? sv1.clients j ≡ some d
      there1 = get_elem?-set_self sv.clients j d c there

      reaches : x.watched ≡ true → open_slot (suc k) sv j x ≡ open_session (suc k) sv1 j x x.session
      reaches w = rw (w, there) refl

  -- With a descriptor that is not negative and that no live slot has, a non-empty array and fuel for
  -- one round, the call ends in one of two ways, whatever `epoll_add`, the TLS library and the
  -- handshake say: it has closed the descriptor and no live slot has it, or it has closed nothing and
  -- a live slot has it.
  pub handle_accept_client_keeps :
      (k : ℕ) (sv : Server R) (x : Connection R)
      → is_neg x.fd ≡ false
      → Nowhere (serves x.fd) sv.clients
      → 1 ≤ length sv.clients
      → (code : ℤ) × (fds : List ℤ) × (sv' : Server R) × (handle_accept_client
            (suc k)
            sv
            (connected x)
          ≡ some (code, fds, sv'))
        × (((fds ≡ x.fd ∷ []) × Nowhere (serves x.fd) sv'.clients)
            ⊎ ((fds ≡ []) × (slot : ℕ) × (fd_to_slot sv'.clients x.fd ≡ pos slot)))
  unfolding handle_accept_client take_slot
  handle_accept_client_keeps k sv x good new some' =
      elim (client_alloc_takes sv.clients x.fd x.addr x.now x.rate good some') [
        | inr (nowhere, taken) ↦
            (minus_one, x.fd ∷ [], sv, ap (take_slot (suc k) sv x) taken, inl (refl, new))
        | inl (j, f, taken) ↦
            (let c = occupy f.at x.fd x.addr x.now x.rate in
              let cs = set sv.clients j c in
              let o =
                open_slot-Opened k (record sv { clients = cs }) sv.clients j c x
                  (λ i ne. get_elem?-set_ne sv.clients j i c ne)
                  (get_elem?-set_self sv.clients j c f.at f.there) refl refl good in
              (
                o.code,
                o.fds,
                o.server,
                ap (take_slot (suc k) sv x) taken ∙ o.done,
                elim o.fate [
                  | inl (closed, dead) ↦ inl (
                    closed,
                    served-Nowhere sv.clients o.server.clients x.fd j o.at new o.others o.there
                        dead,
                  )
                  | inr (kept, live, same) ↦ inr (
                    kept,
                    j,
                    served_at sv.clients o.server.clients x.fd j o.at new good o.others o.there
                        (rw (live, same) (eqℤ_refl x.fd)),
                  )
                ],
              ))
      ]
