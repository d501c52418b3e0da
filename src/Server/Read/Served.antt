-- ===== src/Server/Read/Served.antt =====
-- About requests that `client_read_message` (gateway/src/server.c) takes.
use mini_project_of_linux_pr.Prelude.{
  ℕ, ◌+◌, ◌-◌, ◌%◌, ◌^◌, ◌<◌, ◌≤◌, false, Option, some, List, ltb, leb, ◌&&◌, if◌then◌else◌, pos,
  get_elem?, set, ◌≡◌, ◌≢◌, refl, ap, ◌∙◌, arith, inl, inr, ==_ne,
}
use mini_project_of_linux_pr.Heap.{Ptr, null, Heap, Node, node, write, write_self}
use mini_project_of_linux_pr.Heap.{write_ne}
use mini_project_of_linux_pr.Types.{Buffer, ok, Task, max_payload, request_timeout_ms}
use mini_project_of_linux_pr.Queue.Task.{TaskQueue, push}
use mini_project_of_linux_pr.Queue.Task.Order.{HasTail, push_goes}
use mini_project_of_linux_pr.Protocol.{read_header, header_size, copy}
use mini_project_of_linux_pr.Protocol.Packet.{IsPacket, IsHeader-local}
use mini_project_of_linux_pr.Client.{Client, fd_to_slot, build_task}
use mini_project_of_linux_pr.Client.Slots.{fd_to_slot-set}
use mini_project_of_linux_pr.Reader.{Read, decode_header}
use mini_project_of_linux_pr.Reader.Stream.{
  IsRequest, Feeds, HasPrefix, packet_size, read_loop_reads,
}
use mini_project_of_linux_pr.Server.{Server, Given}
use mini_project_of_linux_pr.Server.Read.{restart, queue_task, accept_packet, client_read_message}

-- the task that a request of the client `c` in `slot` becomes
pub record IsTaskOf {R : Type 0} (c : Client R) (slot type request_id length : ℕ) (payload : Buffer)
    (now : ℕ) (t : Task) : Type 0 where
  pub owner : t.slot ≡ pos slot
  pub generation : t.generation ≡ c.generation
  pub type_is : t.type ≡ type
  pub request : t.request_id ≡ request_id
  pub length_is : t.length ≡ length
  pub deadline : t.timeout_ms ≡ (now + request_timeout_ms) % 2 ^ 64
  pub body : (i : ℕ) → i < length → t.payload i ≡ payload i

queue_task_ok :
    (q q' : TaskQueue) (t : Ptr) (h h' : Heap Task)
    → t ≢ null
    → push q t h ≡ some (ok, q', h')
    → queue_task q t h ≡ some (q', h')
unfolding queue_task
queue_task_ok q q' t h h' ne e = rw (==_ne t null ne, e) refl

copied :
    (f raw : Buffer) (n i : ℕ)
    → i < n
    → n ≤ max_payload
    → (if ltb 0 n && leb n max_payload then copy raw 0 f header_size n else raw) i ≡ f (16 + i)
copied f raw n i lt le =
    let shift : header_size + (i - 0) ≡ 16 + i = omega arith in ground (arith, ap f shift)

HasTail-write :
    (h : Heap Task) (q : TaskQueue) (t : Ptr) (n : Option (Node Task))
    → HasTail h q
    → q.tail ≢ t
    → HasTail (write h t n) q
HasTail-write h q t n (inl e) ne = inl e
HasTail-write h q t n (inr (a, r, e)) ne = inr (a, r, write_ne h t n q.tail ne ∙ e)

module _ {R : Type 0} {out : Buffer} {type request_id length : ℕ} {payload : Buffer}
    (packet : IsPacket out type request_id payload length) (request : IsRequest type)
    (short : length ≤ max_payload) where
  -- `build_task` on a buffer that holds the packet
  build_task_of :
      (c : Client R) (slot : ℕ) (given : Given) (h : Heap Task)
      → ((j : ℕ) → j < packet_size length → c.data_receive j ≡ out j)
      → given.task ≢ null
      → (t : Task) × (build_task c
            (decode_header c.data_receive)
            (pos slot)
            given.task
            given.raw
            given.now
            h
          ≡ (given.task, write h given.task (some (node t null))))
        × IsTaskOf c slot type request_id length payload given.now t
  unfolding build_task decode_header
  build_task_of c slot given h same ne =
      let hd =
        IsHeader-local c.data_receive out type length request_id (λ j k. same j (omega arith))
          packet.header in
      let header = decode_header c.data_receive in
      let raw = given.raw in
      let bytes : Buffer =
        if ltb 0 header.length && leb header.length max_payload
        then copy raw.payload 0 c.data_receive header_size header.length
        else raw.payload in
      (
        record raw {
          slot = pos slot;
          generation = c.generation;
          type = header.type;
          request_id = header.request_id;
          timeout_ms = (given.now + request_timeout_ms) % 2 ^ 64;
          length = header.length;
          payload = bytes;
        },
        rw (==_ne given.task null ne) refl,
        record {
          owner = refl;
          generation = refl;
          type_is = hd.type_is;
          request = hd.request;
          length_is = hd.length_is;
          deadline = refl;
          body = λ i k.
              copied c.data_receive raw.payload header.length i (omega (arith, hd.length_is))
                (omega (arith, hd.length_is))
              ∙ same (16 + i) (omega arith)
              ∙ packet.body i k;
        },
      )

  accept_lem :
      (sv : Server R) (slot : ℕ) (c : Client R) (given : Given) (t : Ptr) (h1 : Heap Task)
      (q : TaskQueue) (h : Heap Task)
      → fd_to_slot (set sv.clients slot c) c.fd ≡ pos slot
      → build_task c
          (decode_header c.data_receive)
          (pos slot)
          given.task
          given.raw
          given.now
          sv.task_heap
        ≡ (t, h1)
      → queue_task sv.tasks t h1 ≡ some (q, h)
      → accept_packet sv slot c given
        ≡ some (
          pos 0,
          record sv {
            clients = set sv.clients slot (record (restart c) { last_active_ms = given.later });
            tasks = q;
            task_heap = h;
          },
        )
  unfolding accept_packet
  accept_lem sv slot c given t h1 q h eo eb eq = rw (eo, eb, eq) refl

  -- In a slot of its own, and with room in the task queue, a client whose packet of a served type
  -- arrives in any pieces gets its request queued: one task goes to the queue, with the packet's
  -- contents, the client's slot and generation, and the deadline, and the reader starts anew.
  pub client_read_message_queues :
      (sv : Server R) (slot : ℕ) (c : Client R) (answers : List Read) (given : Given)
      → get_elem? sv.clients slot ≡ some c
      → fd_to_slot sv.clients c.fd ≡ pos slot
      → HasPrefix out 0 c
      → Feeds out (packet_size length) 0 answers
      → given.task ≢ null
      → sv.tasks.shutdown ≡ false
      → sv.tasks.size < sv.tasks.max_size
      → HasTail sv.task_heap sv.tasks
      → sv.tasks.tail ≢ given.task
      → (t : Task) × (q : TaskQueue) × (h : Heap Task) × (c' : Client R) × (left : List Read)
        × IsTaskOf c slot type request_id length payload given.now t
        × (push sv.tasks given.task (write sv.task_heap given.task (some (node t null)))
            ≡ some (ok, q, h))
        × (client_read_message sv slot answers given
            ≡ some (
              pos 0,
              record sv { clients = set sv.clients slot c'; tasks = q; task_heap = h },
              left,
            ))
        × (c'.rx_len ≡ 0)
        × (c'.stage ≡ read_header)
        × (c'.last_active_ms ≡ given.later)
  unfolding client_read_message
  client_read_message_queues sv slot c answers given there mine fresh feeds ne open' room tail
        apart =
      let (c1, left, e, same, k) =
        read_loop_reads packet request short answers 0 c fresh (omega arith) feeds in
      let owner =
        ap (fd_to_slot (set sv.clients slot c1)) k.fd
        ∙ fd_to_slot-set sv.clients slot c c1 c.fd there k.fd k.alive
        ∙ mine in
      let (t, eb, is) = build_task_of c1 slot given sv.task_heap same ne in
      let h1 : Heap Task = write sv.task_heap given.task (some (node t null)) in
      let (q, h, ep) =
        push_goes sv.tasks given.task h1 t null open' room ne
          (write_self sv.task_heap given.task (some (node t null)))
          (HasTail-write sv.task_heap sv.tasks given.task (some (node t null)) tail apart) in
      let c' = record (restart c1) { last_active_ms = given.later } in
      (
        t,
        q,
        h,
        c',
        left,
        record {
          owner = is.owner;
          generation = is.generation ∙ k.generation;
          type_is = is.type_is;
          request = is.request;
          length_is = is.length_is;
          deadline = is.deadline;
          body = is.body;
        },
        ep,
        rw
            (
              there,
              e,
              accept_lem sv slot c1 given given.task h1 q h owner eb
                  (queue_task_ok sv.tasks q given.task h1 h ne ep),
            )
            refl,
        refl,
        refl,
        refl,
      )
