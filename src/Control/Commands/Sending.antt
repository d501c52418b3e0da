-- ===== src/Control/Commands/Sending.antt =====
-- `process_task` and `handle_client_writable` keep the waiting messages of all clients well formed
-- (unix-domain-socket-control-plane/gatewayd/server.h).
use mini_project_of_linux_pr.Prelude.{
  ℕ, zero, suc, ◌-◌, ◌+◌, Bool, true, false, ltb, ◌==◌, if◌then◌else◌, ◌&&◌, Option, none, some,
  List, [], take, length, get_elem?, ℤ, pos, negsuc, ◌≡◌, refl, sym, subst, arith,
}
use mini_project_of_linux_pr.Prelude.Text.{codes}
use mini_project_of_linux_pr.Control.{
  MessageControl, session_token_len, build_message, ack, nack, low, identify, shutdown_peer,
}
use mini_project_of_linux_pr.Control.Structs.{
  Session, SessionTable, Client, Task, Server, fd_setsize,
}
use mini_project_of_linux_pr.Control.Outgoing.{
  queue_client, advance_send_queue, Sent, Status, all_sent, later, send_failed, send_message_chunk,
  send_oldest,
}
use mini_project_of_linux_pr.Control.Outgoing.Bytes.{IsSending, SameRing-IsSending}
use mini_project_of_linux_pr.Control.Outgoing.Streams.{send_oldest-IsSending}
use mini_project_of_linux_pr.Control.Outgoing.Queue.{queue_client_lem}
use mini_project_of_linux_pr.Control.Sessions.{session_lookup_or_create}
use mini_project_of_linux_pr.Control.Server.{set_client, count_out, handle_client_writable}
use mini_project_of_linux_pr.Control.Server.Sending.{AllSending, set_client-AllSending}
use mini_project_of_linux_pr.Control.Commands.{
  welcome, token_in, greet, identify_task, reply_to, with_reply, run_command, count_in, is_current,
  finish_task, process_on, on_slot, process_task,
}

either-AllSending :
    (b : Bool) (x y : Server) → AllSending x → AllSending y → AllSending (if b then x else y)
either-AllSending true x y v w = v
either-AllSending false x y v w = w

greet-AllSending :
    (sv : Server) (fd : ℕ) (c : Client) (n : ℕ) (r : Option (ℕ × Bool × SessionTable))
    → AllSending sv
    → IsSending c
    → AllSending (greet sv fd c n r)
greet-AllSending sv fd c n none all v = set_client-AllSending sv fd _ all (queue_client_lem c _ v).0
greet-AllSending sv fd c n (some (i, was, t)) all v = found (get_elem? t.sessions i)
  where
    found :
        (x : Option Session)
        → AllSending (elim x [
          | none ↦ sv
          | some s ↦
              set_client
                (record sv { table = t })
                fd
                (queue_client
                  (record c { session = some i })
                  (build_message (welcome was s.client_id s.reconnect_count) ack low n))
        ])
    found none = all
    found (some s) =
        set_client-AllSending (record sv { table = t }) fd _ all
          (queue_client_lem (record c { session = some i }) _
            (SameRing-IsSending c (record c { session = some i }) (refl, refl, refl, refl) v)).0

identify_task-AllSending :
    (sv : Server) (now fd : ℕ) (c : Client) (m : MessageControl)
    → AllSending sv
    → IsSending c
    → AllSending (identify_task sv now fd c m)
unfolding identify_task
identify_task-AllSending sv now fd c m all v =
    let text : List ℕ = take (session_token_len - 1) m.message in
    let n : ℕ = m.header.number_packet in
    let no_token : MessageControl =
      build_message (codes "IDENTITY requires a non-empty token") nack low n in
    let known : Option (ℕ × Bool × SessionTable) =
      session_lookup_or_create (token_in text) now sv.table in
    either-AllSending (length text == 0) (set_client sv fd (queue_client c no_token))
      (greet sv fd c n known)
      (set_client-AllSending sv fd (queue_client c no_token) all (queue_client_lem c no_token v).0)
      (greet-AllSending sv fd c n known all v)

with_reply-IsSending :
    (c : Client) (r : Option MessageControl) → IsSending c → IsSending (with_reply c r)
with_reply-IsSending c none v = v
with_reply-IsSending c (some m) v = (queue_client_lem c m v).0

run_command-AllSending :
    (sv : Server) (now fd : ℕ) (c : Client) (m : MessageControl)
    → AllSending sv
    → IsSending c
    → AllSending (run_command sv now fd c m)
unfolding run_command
run_command-AllSending sv now fd c m all v =
    let closing : Client = record c { pending_close = true } in
    let replied : Client = with_reply c (reply_to m) in
    let other : Server =
      if m.header.cmd == shutdown_peer
      then set_client sv fd closing
      else set_client sv fd replied in
    either-AllSending (m.header.cmd == identify) (identify_task sv now fd c m) other
      (identify_task-AllSending sv now fd c m all v)
      (either-AllSending (m.header.cmd == shutdown_peer) (set_client sv fd closing)
        (set_client sv fd replied)
        (set_client-AllSending sv fd closing all
          (SameRing-IsSending c closing (refl, refl, refl, refl) v))
        (set_client-AllSending sv fd replied all (with_reply-IsSending c (reply_to m) v)))

finish_task-AllSending :
    (sv : Server) (fd : ℕ) (t : Task) → AllSending sv → AllSending (finish_task sv fd t)
finish_task-AllSending sv fd t all =
    let c : Client = sv.clients fd in
    let done : Client = record c { pending_task = c.pending_task - 1 } in
    either-AllSending (is_current c fd t) (set_client sv fd done) sv
      (set_client-AllSending sv fd done all
        (SameRing-IsSending c done (refl, refl, refl, refl) (all fd)))
      all

process_on-AllSending :
    (sv : Server) (now fd : ℕ) (t : Task) → AllSending sv → AllSending (process_on sv now fd t)
unfolding process_on
process_on-AllSending sv now fd t all =
    let c : Client = sv.clients fd in
    let sv1 : Server = run_command sv now fd c t.message in
    let sv2 : Server = record sv1 { table = count_in sv1.table now (sv1.clients fd).session } in
    either-AllSending (is_current c fd t && c.connected) (finish_task sv2 fd t)
      (finish_task sv fd t)
      (finish_task-AllSending sv2 fd t (run_command-AllSending sv now fd c t.message all (all fd)))
      (finish_task-AllSending sv fd t all)

pub process_task-AllSending :
    (sv : Server) (now : ℕ) (t : Task) → AllSending sv → AllSending (process_task sv now t)
unfolding process_task
process_task-AllSending sv now t all = by_slot t.fd
  where
    by_slot : (z : ℤ) → AllSending (on_slot sv now z t)
    by_slot (negsuc n) = all
    by_slot (pos fd) =
        either-AllSending (ltb fd fd_setsize) (process_on sv now fd t) sv
          (process_on-AllSending sv now fd t all) all

-- `handle_client_writable` when messages wait.
abbrev wrote : Server → ℕ → Status × Client × List ℕ → Server × List ℕ
wrote sv fd (st, c1, out) = elim st [
  | later ↦ (set_client sv fd c1, out)
  | send_failed ↦ (set_client sv fd (advance_send_queue (record c1 { pending_close = true })), out)
  | all_sent ↦ (
    record (set_client sv fd (record c1 { packet_sent = c1.packet_sent + 1 })) {
      table = count_out sv.table c1.session;
    },
    out,
  )
]

wrote-AllSending :
    (sv : Server) (fd : ℕ) (r : Status × Client × List ℕ)
    → AllSending sv
    → IsSending r.1 × (r.0 ≡ send_failed → IsSending (advance_send_queue r.1))
    → AllSending (wrote sv fd r).0
unfolding advance_send_queue
wrote-AllSending sv fd (later, c1, out) all (v, w) = set_client-AllSending sv fd c1 all v
wrote-AllSending sv fd (send_failed, c1, out) all (v, w) = set_client-AllSending sv fd _ all (
    SameRing-IsSending (advance_send_queue c1)
      (advance_send_queue (record c1 { pending_close = true })) (refl, refl, refl, refl) (w refl))
wrote-AllSending sv fd (all_sent, c1, out) all (v, w) =
    set_client-AllSending sv fd (record c1 { packet_sent = c1.packet_sent + 1 }) all
      (SameRing-IsSending c1 (record c1 { packet_sent = c1.packet_sent + 1 })
        (refl, refl, refl, refl) v)

pub handle_client_writable-AllSending :
    (sv : Server) (fd : ℕ) (answers : List Sent)
    → AllSending sv
    → AllSending (handle_client_writable sv fd answers).0
unfolding handle_client_writable send_message_chunk
handle_client_writable-AllSending sv fd answers all = by_count (sv.clients fd).send_count refl
  where
    view : Bool → Server
    view b =
        (if b
          then (sv, [])
          else wrote sv fd
              (if b then (all_sent, sv.clients fd, []) else send_oldest answers (sv.clients fd))).0

    by_count :
        (n : ℕ)
        → (sv.clients fd).send_count ≡ n
        → AllSending (view ((sv.clients fd).send_count == 0))
    by_count zero e =
        let none_there : ((sv.clients fd).send_count == 0) ≡ true = ground (arith, e) in
        subst (λ (b : Bool). AllSending (view b)) (sym none_there) all
    by_count (suc k) e =
        let some_there : ((sv.clients fd).send_count == 0) ≡ false = ground (arith, e) in
        subst (λ (b : Bool). AllSending (view b)) (sym some_there)
          (wrote-AllSending sv fd (send_oldest answers (sv.clients fd)) all
            (send_oldest-IsSending answers (sv.clients fd) (all fd) k e))
