-- ===== src/Worker/Loop.antt =====
-- About the loop of `worker_thread` (gateway/src/worker_thread.c) on one task.
use mini_project_of_linux_pr.Prelude.{
  ℕ, ◌≤◌, ◌<◌, true, false, Option, none, some, ltb, ◌≡◌, ◌≢◌, refl, arith, inl, inr, if◌then◌else◌,
  ==_ne, Bool, sym, Bool-cases, ◌∙◌, [], ◌∷◌, ◌++◌, length, subst, ap,
}
use mini_project_of_linux_pr.Heap.{
  Ptr, null, Heap, Node, node, write, write_self, Cells, has, Links-write, free_lem, load_lem,
}
use mini_project_of_linux_pr.Types.{Status, ok, Task, Response}
use mini_project_of_linux_pr.Queue.Fifo.{fifo_push}
use mini_project_of_linux_pr.Queue.Response.{ResponseQueue}
use mini_project_of_linux_pr.Queue.Response.Refines.{IsQueue, response_queue_push_refines}
use mini_project_of_linux_pr.Protocol.{err_timeout}
use mini_project_of_linux_pr.Server.{Server}
use mini_project_of_linux_pr.Worker.{
  Reply, refuse, reply_to, Payloads, Devices, Turn, finished, processing_timeout, hand_over, work,
  serve_task,
}
use mini_project_of_linux_pr.Worker.Answer.{
  Answers, CanRefuse, make_error_response-Filled, process_hardware_task-Filled,
}

IsQueue-write :
    (h : Heap Response) (q : ResponseQueue) (xs : Cells Response) (p : Ptr)
    (c : Option (Node Response))
    → IsQueue h q xs
    → has p xs ≡ false
    → IsQueue (write h p c) q xs
IsQueue-write h q xs p c v out = record {
  links = Links-write h p c xs out v.links;
  head = v.head;
  tail = v.tail;
  size = v.size;
  fits = v.fits;
}

fifo_push-room :
    (m : ℕ) (xs : Cells Response) (c : Ptr × Response)
    → length xs < m
    → fifo_push m xs c ≡ (ok, xs ++ c ∷ [])
fifo_push-room m xs c room = ground arith

hand_over_appends :
    (p : Ptr) (b : Response) (q : ResponseQueue) (h : Heap Response) (xs : Cells Response)
    → IsQueue h q xs
    → p ≢ null
    → has p xs ≡ false
    → h p ≡ some (node b null)
    → length xs < q.max_size
    → (g : Heap Response) × (q' : ResponseQueue) × (hand_over p q h ≡ some (true, q', g))
      × IsQueue g q' (xs ++ (p, b) ∷ [])
unfolding hand_over
hand_over_appends p b q h xs v ne out there room =
    let (g, q', pushed, v', m) = response_queue_push_refines p b null v ne out there in
    let roomy = fifo_push-room q.max_size xs (p, b) room in
    (
      g,
      q',
      rw (==_ne p null ne, pushed ∙ ap (λ (t : Status × Cells Response). some (t.0, q', g)) roomy)
          refl,
      subst (λ (t : Status × Cells Response). IsQueue g q' t.1) roomy v',
    )

-- The response that leaves the work, in memory outside the queue.
record Worked {D : Type 0} (js : Payloads D) (q : ResponseQueue) (xs : Cells Response) (task : Task)
    (r : Reply) (out : Option (Ptr × Heap Response)) : Type 0 where
  at : Ptr
  rp : Response
  heap : Heap Response
  done : out ≡ some (at, heap)
  real : at ≢ null
  outside : has at xs ≡ false
  there : heap at ≡ some (node rp null)
  answers : Answers js task r rp
  queue : IsQueue heap q xs

module _ {D : Type 0} where
  -- What the work replies, or the error when the deadline has passed meanwhile.
  abbrev pub due : Payloads D → Devices D → Turn → Task → Reply
  due js dev x task =
      if ltb task.timeout_ms x.later
      then refuse err_timeout processing_timeout
      else reply_to js dev x.during task

  work-Worked :
      (js : Payloads D) (dev : Devices D) (x : Turn) (task : Task) (h : Heap Response)
      (q : ResponseQueue) (xs : Cells Response)
      → CanRefuse js
      → IsQueue h q xs
      → x.first ≢ null
      → x.second ≢ null
      → has x.first xs ≡ false
      → has x.second xs ≡ false
      → Worked js q xs task (due js dev x task) (work js dev x task h)
  unfolding work
  work-Worked js dev x task h q xs can v n1 n2 o1 o2 =
      let (rp, a, e) = process_hardware_task-Filled js dev x.during x.first x.raw task h can n1 in
      let h1 : Heap Response = write h x.first (some (node rp null)) in
      let v1 = IsQueue-write h q xs x.first (some (node rp null)) v o1 in
      elim (Bool-cases (ltb task.timeout_ms x.later)) [
        | inl late ↦
            (let h2 : Heap Response = write h1 x.first none in
              let v2 = IsQueue-write h1 q xs x.first none v1 o1 in
              let (rp', a', e') =
                make_error_response-Filled js x.second x.raw task err_timeout processing_timeout h2
                  can n2 in
              record {
                at = x.second;
                rp = rp';
                heap = write h2 x.second (some (node rp' null));
                done =
                    rw
                      (
                        late,
                        e,
                        free_lem h1 x.first (node rp null) n1
                            (write_self h x.first (some (node rp null))),
                        e',
                      )
                      refl;
                real = n2;
                outside = o2;
                there = write_self h2 x.second (some (node rp' null));
                answers =
                    subst
                      (λ (b : Bool).
                        Answers js task
                          (if b
                            then refuse err_timeout processing_timeout
                            else reply_to js dev x.during task)
                          rp')
                      (sym late) a';
                queue = IsQueue-write h2 q xs x.second (some (node rp' null)) v2 o2;
              })
        | inr punctual ↦ record {
          at = x.first;
          rp = rp;
          heap = h1;
          done = rw (punctual, e) refl;
          real = n1;
          outside = o1;
          there = write_self h x.first (some (node rp null));
          answers =
              subst
                (λ (b : Bool).
                  Answers js task
                    (if b
                      then refuse err_timeout processing_timeout
                      else reply_to js dev x.during task)
                    rp)
                (sym punctual) a;
          queue = v1;
        }
      ]

module _ {R D : Type 0} where
  -- A task whose deadline has not passed when the worker takes it gets exactly one response, behind
  -- those that wait, and is freed. The response has the task's slot, generation and request number, and
  -- the first 4096 bytes of the document that the work replies with, or of the text that the JSON
  -- library writes for the error that it replies with; when the deadline passes meanwhile it has the
  -- text for the timeout. The type is MSG_RESPONSE with a document and MSG_ERROR with an error. The
  -- memory for both responses is there and outside the queue, which has room, and the JSON library can
  -- write an error.
  pub serve_task-Answers :
      (js : Payloads D) (dev : Devices D) (x : Turn) (sv : Server R) (t r : Ptr) (task : Task)
      (xs : Cells Response)
      → CanRefuse js
      → t ≢ null
      → sv.task_heap t ≡ some (node task r)
      → x.now ≤ task.timeout_ms
      → IsQueue sv.response_heap sv.response xs
      → length xs < sv.response.max_size
      → x.first ≢ null
      → x.second ≢ null
      → has x.first xs ≡ false
      → has x.second xs ≡ false
      → (p : Ptr) × (rp : Response) × (q : ResponseQueue) × (h : Heap Response) × Answers js task
          (due js dev x task)
          rp
        × IsQueue h q (xs ++ (p, rp) ∷ [])
        × (serve_task js dev x sv t
            ≡ some (
              finished true,
              record sv { response = q; response_heap = h; task_heap = write sv.task_heap t none },
            ))
  unfolding serve_task
  serve_task-Answers js dev x sv t r task xs can nt there timely v room n1 n2 o1 o2 =
      let w = work-Worked js dev x task sv.response_heap sv.response xs can v n1 n2 o1 o2 in
      let (g, q, told, v') =
        hand_over_appends w.at w.rp sv.response w.heap xs w.queue w.real w.outside w.there room in
      let open' : ltb task.timeout_ms x.now ≡ false = ground arith in
      (
        w.at,
        w.rp,
        q,
        g,
        w.answers,
        v',
        rw
            (
              load_lem sv.task_heap t (node task r) nt there,
              open',
              w.done,
              told,
              free_lem sv.task_heap t (node task r) nt there,
            )
            refl,
      )
