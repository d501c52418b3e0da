-- ===== src/Control/Commands/Replies.antt =====
-- About `process_task` (unix-domain-socket-control-plane/gatewayd/server.h).
use mini_project_of_linux_pr.Prelude.{
  ℕ, ◌-◌, ◌<◌, Bool, true, false, ◌&&◌, ◌==◌, ==_refl, ==_ne, if◌then◌else◌, ltb, lt→ltb,
  Bool-cases, inl, inr, some, ◌++◌, ℤ, pos, eqℤ, eqℤ_refl, ◌≡◌, ◌≢◌, refl, ap, ◌∙◌, arith,
}
use mini_project_of_linux_pr.Prelude.Ring.{store}
use mini_project_of_linux_pr.Control.{identify, shutdown_peer, MessageControl, build_message, wire}
use mini_project_of_linux_pr.Control.Structs.{fd_setsize, Client, Task, Server}
use mini_project_of_linux_pr.Control.Outgoing.{queue_client}
use mini_project_of_linux_pr.Control.Outgoing.Bytes.{waiting, pending, IsSending}
use mini_project_of_linux_pr.Control.Outgoing.Queue.{queue_client_lem}
use mini_project_of_linux_pr.Control.Server.{set_client}
use mini_project_of_linux_pr.Control.Commands.{
  reply_to, run_command, count_in, is_current, finish_task, process_on, on_slot, process_task,
}

and_false : (b : Bool) → (b && false) ≡ false
and_false true = refl
and_false false = refl

process_on-stale :
    (sv : Server) (now fd : ℕ) (t : Task)
    → (sv.clients fd).generation ≢ t.client_generation
    → process_on sv now fd t ≡ sv
unfolding process_on
process_on-stale sv now fd t old =
    let other : ((sv.clients fd).generation == t.client_generation) ≡ false = ==_ne _ _ old in
    let stale : is_current (sv.clients fd) fd t ≡ false =
      ap (λ (b : Bool). eqℤ (sv.clients fd).fd (pos fd) && b) other
      ∙ and_false (eqℤ (sv.clients fd).fd (pos fd)) in
    rw stale refl

queue_client-keeps :
    (c : Client) (m : MessageControl)
    → ((queue_client c m).fd ≡ c.fd)
      × ((queue_client c m).generation ≡ c.generation)
      × ((queue_client c m).session ≡ c.session)
      × ((queue_client c m).pending_task ≡ c.pending_task)
unfolding queue_client
queue_client-keeps c m = ground arith

reply_to-number :
    (m r : MessageControl) → reply_to m ≡ some r → r.header.number_packet ≡ m.header.number_packet
unfolding reply_to build_message
reply_to-number m r e = ground arith

module _ (sv : Server) (now fd : ℕ) (t : Task) where
  abbrev counted : Server → Server
  counted s = record s { table = count_in s.table now (s.clients fd).session }

  abbrev finished : Client → Server → Server
  finished c s =
      if is_current c fd t
      then set_client s fd (record c { pending_task = c.pending_task - 1 })
      else s

  is_current_lem :
      (c : Client) → c.fd ≡ pos fd → c.generation ≡ t.client_generation → is_current c fd t ≡ true
  is_current_lem c at same =
      let here : eqℤ c.fd (pos fd) ≡ true = ap (λ (x : ℤ). eqℤ x (pos fd)) at ∙ eqℤ_refl (pos fd) in
      let now_too : (c.generation == t.client_generation) ≡ true =
        ap (λ (g : ℕ). g == t.client_generation) same ∙ ==_refl t.client_generation in
      rw (here, now_too) refl

  -- The server after a command that only queues a reply.
  process_on-reply :
      (r : MessageControl)
      → (sv.clients fd).fd ≡ pos fd
      → (sv.clients fd).generation ≡ t.client_generation
      → (sv.clients fd).connected ≡ true
      → t.message.header.cmd ≢ identify
      → t.message.header.cmd ≢ shutdown_peer
      → reply_to t.message ≡ some r
      → process_on sv now fd t
        ≡ set_client
            (counted (set_client sv fd (queue_client (sv.clients fd) r)))
            fd
            (record (queue_client (sv.clients fd) r) {
              pending_task = (queue_client (sv.clients fd) r).pending_task - 1;
            })
  unfolding process_on run_command
  process_on-reply r at same up n1 n2 answer =
      let c : Client = sv.clients fd in
      let c1 : Client = queue_client c r in
      let s1 : Server = set_client sv fd c1 in
      let keeps = queue_client-keeps c r in
      let valid : (is_current c fd t && c.connected) ≡ true =
        ap (λ (b : Bool). b && c.connected) (is_current_lem c at same) ∙ up in
      let run : run_command sv now fd c t.message ≡ s1 =
        rw (==_ne _ _ n1, ==_ne _ _ n2, answer) refl in
      let here : s1.clients fd ≡ c1 =
        ap (λ (b : Bool). if b then c1 else sv.clients fd) (==_refl fd) in
      ap
        (λ (b : Bool).
          if b
          then finish_task (counted (run_command sv now fd c t.message)) fd t
          else finish_task sv fd t)
        valid
      ∙ ap (λ (s : Server). finish_task (counted s) fd t) run
      ∙ ap (λ (x : Client). finished x (counted s1)) here
      ∙ ap
          (λ (b : Bool).
            if b
            then set_client (counted s1) fd (record c1 { pending_task = c1.pending_task - 1 })
            else counted s1)
          (is_current_lem c1 (keeps.0 ∙ at) (keeps.1 ∙ same))

process_on_replies :
    (sv : Server) (now fd : ℕ) (t : Task) (r : MessageControl) (j : ℕ)
    → (sv.clients fd).fd ≡ pos fd
    → (sv.clients fd).generation ≡ t.client_generation
    → (sv.clients fd).connected ≡ true
    → t.message.header.cmd ≢ identify
    → t.message.header.cmd ≢ shutdown_peer
    → reply_to t.message ≡ some r
    → IsSending (sv.clients fd)
    → (sv.clients fd).send_count < 16
    → fd ≢ j
    → (r.header.number_packet ≡ t.message.header.number_packet)
      × (pending (waiting ((process_on sv now fd t).clients fd))
          ≡ pending (waiting (sv.clients fd)) ++ wire r)
      × (((process_on sv now fd t).clients fd).pending_task ≡ (sv.clients fd).pending_task - 1)
      × ((process_on sv now fd t).clients j ≡ sv.clients j)
process_on_replies sv now fd t r j at same up n1 n2 answer v room ne =
    let c1 : Client = queue_client (sv.clients fd) r in
    let c2 : Client = record c1 { pending_task = c1.pending_task - 1 } in
    let whole = process_on-reply sv now fd t r at same up n1 n2 answer in
    let at_fd : (process_on sv now fd t).clients fd ≡ c2 =
      ap (λ (s : Server). s.clients fd) whole
      ∙ ap (λ (b : Bool). if b then c2 else store sv.clients fd c1 fd) (==_refl fd) in
    (
      reply_to-number t.message r answer,
      ap (λ (x : Client). pending (waiting x)) at_fd
          ∙ (queue_client_lem (sv.clients fd) r v).1 room,
      ap (λ (x : Client). x.pending_task) at_fd
          ∙ ap (λ (n : ℕ). n - 1) (queue_client-keeps (sv.clients fd) r).3,
      ap (λ (s : Server). s.clients j) whole
          ∙ ap (λ (b : Bool). if b then c2 else store sv.clients fd c1 j) (==_ne fd j ne)
          ∙ ap (λ (b : Bool). if b then c1 else sv.clients j) (==_ne fd j ne),
    )

process_task-on :
    (sv : Server) (now fd : ℕ) (t : Task)
    → t.fd ≡ pos fd
    → fd < fd_setsize
    → process_task sv now t ≡ process_on sv now fd t
unfolding process_task
process_task-on sv now fd t at below =
    ap (λ (z : ℤ). on_slot sv now z t) at
    ∙ ap (λ (b : Bool). if b then process_on sv now fd t else sv) (lt→ltb fd fd_setsize below)

-- A task of an earlier connection of its descriptor changes nothing in the server.
pub stale_task_ignored :
    (sv : Server) (now fd : ℕ) (t : Task)
    → t.fd ≡ pos fd
    → (sv.clients fd).generation ≢ t.client_generation
    → process_task sv now t ≡ sv
unfolding process_task
stale_task_ignored sv now fd t at old =
    ap (λ (z : ℤ). on_slot sv now z t) at ∙ elim (Bool-cases (ltb fd fd_setsize)) [
      | inl below ↦ rw below (process_on-stale sv now fd t old)
      | inr above ↦ rw above refl
    ]

-- A task of the connection that is there, with a command that only queues a reply: the reply carries
-- the number of the request, all its bytes go behind those that wait for the client, which has one
-- pending task less, and no other client changes. The client's queue is well formed and has room.
pub process_task_replies :
    (sv : Server) (now fd : ℕ) (t : Task) (r : MessageControl) (j : ℕ)
    → t.fd ≡ pos fd
    → fd < fd_setsize
    → (sv.clients fd).fd ≡ pos fd
    → (sv.clients fd).generation ≡ t.client_generation
    → (sv.clients fd).connected ≡ true
    → t.message.header.cmd ≢ identify
    → t.message.header.cmd ≢ shutdown_peer
    → reply_to t.message ≡ some r
    → IsSending (sv.clients fd)
    → (sv.clients fd).send_count < 16
    → fd ≢ j
    → (r.header.number_packet ≡ t.message.header.number_packet)
      × (pending (waiting ((process_task sv now t).clients fd))
          ≡ pending (waiting (sv.clients fd)) ++ wire r)
      × (((process_task sv now t).clients fd).pending_task ≡ (sv.clients fd).pending_task - 1)
      × ((process_task sv now t).clients j ≡ sv.clients j)
process_task_replies sv now fd t r j of_fd below at same up n1 n2 answer v room ne =
    let whole = process_task-on sv now fd t of_fd below in
    let (number, bytes, left, others) =
      process_on_replies sv now fd t r j at same up n1 n2 answer v room ne in
    (
      number,
      ap (λ (s : Server). pending (waiting (s.clients fd))) whole ∙ bytes,
      ap (λ (s : Server). (s.clients fd).pending_task) whole ∙ left,
      ap (λ (s : Server). s.clients j) whole ∙ others,
    )
