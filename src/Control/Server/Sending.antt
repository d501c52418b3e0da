-- ===== src/Control/Server/Sending.antt =====
-- The waiting messages of all clients (unix-domain-socket-control-plane/gatewayd/server.h).
use mini_project_of_linux_pr.Prelude.{
  ℕ, zero, suc, ◌+◌, ◌-◌, Bool, true, false, ltb, ◌==◌, if◌then◌else◌, Bool-cases, ◌&&◌, Option,
  none, some, ◌>>=◌, List, [], ◌∷◌, ◌++◌, ◌≡◌, refl, sym, subst, inl, inr, arith, ℤ, pos, eqℤ,
}
use mini_project_of_linux_pr.Control.Structs.{
  Stage, in_header, in_payload, in_checksum, Client, MessageQueue, Server, fd_setsize,
}
use mini_project_of_linux_pr.Control.Reader.{
  Recv, got, would_block, interrupted, failed, closed, Progress, go_on, returns, Stopped, on_part,
  on_recv, after_recv, read_stage, unfinished, complete, corrupt, broken,
}
use mini_project_of_linux_pr.Control.Outgoing.{queue_client}
use mini_project_of_linux_pr.Control.Outgoing.Bytes.{IsSending, SameRing, SameRing-IsSending}
use mini_project_of_linux_pr.Control.Outgoing.Queue.{queue_client_lem}
use mini_project_of_linux_pr.Control.Tasks.{try_enqueue_task}
use mini_project_of_linux_pr.Control.Server.{
  busy, set_client, init_client, Accepted, new_fd, try_later, accept_failed, take_connection,
  handle_accept, set_queue, placed, queue_frame, on_result, Event, on_readable,
  handle_client_readable, is_reaped, vacate, reap_one, reap_from, reap_closed_clients,
}

-- The ring of messages of every client is well formed.
abbrev pub AllSending : Server → Type 0
AllSending sv = (j : ℕ) → IsSending (sv.clients j)

pub set_client-AllSending :
    (sv : Server) (fd : ℕ) (c : Client)
    → AllSending sv
    → IsSending c
    → AllSending (set_client sv fd c)
set_client-AllSending sv fd c all v j = elim (Bool-cases (fd == j)) [
  | inl here ↦ subst (λ (b : Bool). IsSending (if b then c else sv.clients j)) (sym here) v
  | inr there ↦ subst (λ (b : Bool). IsSending (if b then c else sv.clients j)) (sym there) (all j)
]

init_client-IsSending :
    (a b now : ℕ) (fd : ℤ) → IsSending (record (init_client a b now) { fd = fd; connected = true })
unfolding init_client
init_client-IsSending a b now fd = record {
  inside = omega arith;
  fits = omega arith;
  free = refl;
  framed_all = tt;
}

take_connection-AllSending :
    (sv : Server) (now fd : ℕ) (watched : Bool)
    → AllSending sv
    → AllSending (take_connection sv now fd watched).0
unfolding take_connection
take_connection-AllSending sv now fd watched all = elim (Bool-cases (ltb fd fd_setsize)) [
  | inl fits ↦ rw fits (set_client-AllSending sv fd _ all (init_client-IsSending _ _ now (pos fd)))
  | inr over ↦ rw over all
]

pub handle_accept-AllSending :
    (now : ℕ) (answers : List Accepted) (sv : Server)
    → AllSending sv
    → AllSending (handle_accept sv now answers).0
unfolding handle_accept
handle_accept-AllSending now [] sv all = all
handle_accept-AllSending now (try_later ∷ answers) sv all = all
handle_accept-AllSending now (accept_failed ∷ answers) sv all = all
handle_accept-AllSending now (new_fd fd watched ∷ answers) sv all =
    handle_accept-AllSending now answers (take_connection sv now fd watched).0
      (take_connection-AllSending sv now fd watched all)

-- A part of a message touches nothing of the ring.
on_part-SameRing : (st : Stage) (c : Client) (p : List ℕ) → SameRing c (on_part st c p).1
on_part-SameRing in_header c p = ground arith
on_part-SameRing in_payload c p = ground arith
on_part-SameRing in_checksum c p = ground arith

on_recv-SameRing : (c : Client) (a : Recv) → SameRing c (on_recv c a).1
unfolding on_recv
on_recv-SameRing c (got s) = on_part-SameRing c.stage c (c.part ++ s)
on_recv-SameRing c would_block = (refl, refl, refl, refl)
on_recv-SameRing c interrupted = (refl, refl, refl, refl)
on_recv-SameRing c failed = (refl, refl, refl, refl)
on_recv-SameRing c closed = (refl, refl, refl, refl)

after_recv-IsSending :
    (r : Progress × Client) (answers : List Recv)
    → IsSending r.1
    → ((c : Client) → IsSending c → IsSending (read_stage answers c).1)
    → IsSending (after_recv r answers (read_stage answers)).1
after_recv-IsSending (go_on, c) answers v again = again c v
after_recv-IsSending (returns x, c) answers v again = v

either-IsSending :
    (b : Bool) (x y : Stopped) → IsSending x.1 → IsSending y.1 → IsSending (if b then x else y).1
either-IsSending true x y v w = v
either-IsSending false x y v w = w

read_stage-IsSending :
    (answers : List Recv) (c : Client) → IsSending c → IsSending (read_stage answers c).1
unfolding read_stage
read_stage-IsSending [] c v =
    either-IsSending c.pending_close (broken, c, []) (unfinished, c, []) v v
read_stage-IsSending (a ∷ answers) c v =
    either-IsSending c.pending_close (broken, c, a ∷ answers)
      (after_recv (on_recv c a) answers (read_stage answers)) v
      (after_recv-IsSending (on_recv c a) answers
        (SameRing-IsSending c (on_recv c a).1 (on_recv-SameRing c a) v)
        (read_stage-IsSending answers))

-- A handler that does not fault keeps the rings.
abbrev pub Kept : Option Server → Type 0
Kept o = (sv : Server) → o ≡ some sv → AllSending sv

none-Kept : Kept none
none-Kept sv e = cc

some-Kept : (sv : Server) → AllSending sv → Kept (some sv)
some-Kept sv all sv' e = let same : sv ≡ sv' = cc in subst AllSending same all

set_queue-clients :
    (sv : Server) (pri : ℕ) (q : Option MessageQueue) → (set_queue sv pri q).clients ≡ sv.clients
set_queue-clients sv pri none = refl
set_queue-clients sv pri (some q) = ground arith

placed-AllSending :
    (sv : Server) (fd pri : ℕ) (c away : Client) (r : Bool × Option MessageQueue)
    → AllSending sv
    → IsSending c
    → IsSending away
    → AllSending (placed sv fd pri c away r)
placed-AllSending sv fd pri c away (true, q) all v w =
    set_client-AllSending (set_queue sv pri q) fd c
      (λ j.
        subst (λ (cs : ℕ → Client). IsSending (cs j)) (sym (set_queue-clients sv pri q)) (all j))
      v
placed-AllSending sv fd pri c away (false, q) all v w = set_client-AllSending sv fd away all w

queue_frame-Kept :
    (sv : Server) (fd : ℕ) (c : Client) → AllSending sv → IsSending c → Kept (queue_frame sv fd c)
unfolding queue_frame
queue_frame-Kept sv fd c all v = after (try_enqueue_task sv.shutdown _ _)
  where
    turned_away : Client
    turned_away =
        queue_client (record c { pending_task = c.pending_task - 1 })
          (busy c.message.header.number_packet)

    after :
        (r : Option (Bool × Option MessageQueue))
        → Kept (
            r >>= λ (x : Bool × Option MessageQueue).
            some (placed sv fd c.message.header.pri c turned_away x))
    after none = none-Kept
    after (some x) = some-Kept _ (
        placed-AllSending sv fd c.message.header.pri c turned_away x all v
          (queue_client_lem (record c { pending_task = c.pending_task - 1 }) _
            (SameRing-IsSending c (record c { pending_task = c.pending_task - 1 })
              (refl, refl, refl, refl) v)).0)

on_result-Kept :
    (sv : Server) (fd : ℕ) (x : Stopped) → AllSending sv → IsSending x.1 → Kept (on_result sv fd x)
on_result-Kept sv fd (unfinished, c, _) all v = some-Kept _ (set_client-AllSending sv fd c all v)
on_result-Kept sv fd (broken, c, _) all v = some-Kept _ (set_client-AllSending sv fd c all v)
on_result-Kept sv fd (corrupt, c, _) all v =
    some-Kept _ (set_client-AllSending sv fd _ all (queue_client_lem c _ v).0)
on_result-Kept sv fd (complete, c, _) all v = queue_frame-Kept sv fd c all v

on_readable-Kept : (sv : Server) (e : Event) → AllSending sv → Kept (on_readable sv e)
unfolding on_readable
on_readable-Kept sv e all =
    either ((sv.clients e.fd).connected && (eqℤ (sv.clients e.fd).fd (pos e.fd) && e.readable))
  where
    either :
        (b : Bool)
        → Kept (if b then on_result sv e.fd (read_stage e.reads (sv.clients e.fd)) else some sv)
    either true =
        on_result-Kept sv e.fd (read_stage e.reads (sv.clients e.fd)) all
          (read_stage-IsSending e.reads (sv.clients e.fd) (all e.fd))
    either false = some-Kept sv all

pub handle_client_readable-Kept :
    (es : List Event) (sv : Server) → AllSending sv → Kept (handle_client_readable sv es)
unfolding handle_client_readable
handle_client_readable-Kept [] sv all = some-Kept sv all
handle_client_readable-Kept (e ∷ es) sv all =
    after (on_readable sv e) (on_readable-Kept sv e all) (handle_client_readable-Kept es)
  where
    after :
        (o : Option Server)
        → Kept o
        → ((s : Server) → AllSending s → Kept (handle_client_readable s es))
        → Kept (o >>= λ (s : Server). handle_client_readable s es)
    after none kept again = none-Kept
    after (some s) kept again = again s (kept s refl)

reap_one-AllSending : (fd : ℕ) (sv : Server) → AllSending sv → AllSending (reap_one fd sv)
reap_one-AllSending fd sv all = either (is_reaped (sv.clients fd))
  where
    either :
        (b : Bool)
        → AllSending (
            if b
            then record (set_client sv fd (vacate (sv.clients fd))) {
              num_clients = sv.num_clients - 1;
            }
            else sv)
    either true = set_client-AllSending sv fd (vacate (sv.clients fd)) all (
        SameRing-IsSending (sv.clients fd) (vacate (sv.clients fd)) (refl, refl, refl, refl)
          (all fd))
    either false = all

reap_from-AllSending :
    (rest fd : ℕ) (sv : Server) → AllSending sv → AllSending (reap_from rest fd sv).0
unfolding reap_from
reap_from-AllSending zero fd sv all = all
reap_from-AllSending (suc rest) fd sv all =
    reap_from-AllSending rest (fd + 1) (reap_one fd sv) (reap_one-AllSending fd sv all)

pub reap_closed_clients-AllSending :
    (sv : Server) → AllSending sv → AllSending (reap_closed_clients sv).0
unfolding reap_closed_clients
reap_closed_clients-AllSending sv all = reap_from-AllSending fd_setsize 0 sv all
