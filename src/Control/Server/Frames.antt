-- ===== src/Control/Server/Frames.antt =====
-- About frames and their priorities (unix-domain-socket-control-plane/gatewayd/server.h).
use mini_project_of_linux_pr.Prelude.{
  ℕ, ◌<◌, Bool, true, false, ◌&&◌, if◌then◌else◌, Option, none, some, ◌>>=◌, List, ◌∷◌, ℤ, pos, eqℤ,
  eqℤ_refl, ◌≡◌, refl, ap, ◌∙◌, arith,
}
use mini_project_of_linux_pr.Control.{high}
use mini_project_of_linux_pr.Control.Structs.{Client, Task, Server}
use mini_project_of_linux_pr.Control.Reader.{Recv, complete, Stopped, read_stage}
use mini_project_of_linux_pr.Control.Tasks.{try_enqueue_task}
use mini_project_of_linux_pr.Control.Server.{
  queue_of, queue_frame, on_result, Event, on_readable, handle_client_readable,
}

and_true : (a b c : Bool) → a ≡ true → b ≡ true → c ≡ true → (a && (b && c)) ≡ true
and_true a b c h k l = rw (h, k, l) refl

no_queue :
    (sv : Server) (b : Bool) (t : Task) (pri : ℕ)
    → b ≡ false
    → high < pri
    → try_enqueue_task b (queue_of sv pri) t ≡ none
unfolding try_enqueue_task
no_queue sv b t pri running unknown =
    let none_there : queue_of sv pri ≡ none = ground arith in rw (none_there, running) refl

queue_frame-none :
    (sv : Server) (fd : ℕ) (c : Client)
    → sv.shutdown ≡ false
    → high < c.message.header.pri
    → queue_frame sv fd c ≡ none
unfolding queue_frame
queue_frame-none sv fd c running unknown =
    let t : Task = record {
      fd = pos fd;
      client_generation = c.generation;
      connection_id = c.connection_id;
      message = c.message;
    } in
    let fault = no_queue sv sv.shutdown t c.message.header.pri running unknown in rw fault refl

-- A frame with a priority that there is not makes the server read through a NULL queue: the I/O thread
-- ends in a fault, for every client that is connected and every server that is open.
pub unknown_priority_faults :
    (sv : Server) (e : Event) (es : List Event) (c1 : Client) (rest : List Recv)
    → (sv.clients e.fd).connected ≡ true
    → (sv.clients e.fd).fd ≡ pos e.fd
    → e.readable ≡ true
    → sv.shutdown ≡ false
    → read_stage e.reads (sv.clients e.fd) ≡ (complete, c1, rest)
    → high < c1.message.header.pri
    → handle_client_readable sv (e ∷ es) ≡ none
unfolding handle_client_readable on_readable
unknown_priority_faults sv e es c1 rest up same readable running read unknown =
    let c : Client = sv.clients e.fd in
    let at : eqℤ c.fd (pos e.fd) ≡ true =
      ap (λ (x : ℤ). eqℤ x (pos e.fd)) same ∙ eqℤ_refl (pos e.fd) in
    let meant = and_true c.connected (eqℤ c.fd (pos e.fd)) e.readable up at readable in
    ap
      (λ (b : Bool).
        (if b then on_result sv e.fd (read_stage e.reads c) else some sv) >>= λ (s : Server).
        handle_client_readable s es)
      meant
    ∙ ap (λ (x : Stopped). on_result sv e.fd x >>= λ (s : Server). handle_client_readable s es) read
    ∙ ap (λ (o : Option Server). o >>= λ (s : Server). handle_client_readable s es)
        (queue_frame-none sv e.fd c1 running unknown)
