-- ===== src/Queue/Response/Refines.antt =====
-- About the response queue (gateway/src/queue.c) beside a bounded queue.
use mini_project_of_linux_pr.Prelude.{
  ◌+◌, ◌-◌, ◌<◌, ◌≤◌, true, false, some, [], ◌∷◌, ◌≡◌, ◌≢◌, refl, sym, ◌∙◌, arith, ◌==◌, leb,
  if◌then◌else◌, ◌>>=◌, length, Bool-cases, inl, inr,
}
use mini_project_of_linux_pr.Heap.{
  Ptr, null, Heap, node, write, Cells, first, last, has, Links, append, append-Links, first-snoc_or,
  last_rest, length-snoc, last_from-snoc, load_lem, set_next_lem, Links-tail,
}
use mini_project_of_linux_pr.Types.{ok, again, Response}
use mini_project_of_linux_pr.Queue.Fifo.{fifo_push, fifo_pop}
use mini_project_of_linux_pr.Queue.Response.{
  ResponseQueue, link, response_queue_push, response_queue_pop,
}

-- The queue holds exactly the nodes `xs`, oldest first.
pub record IsQueue (h : Heap Response) (q : ResponseQueue) (xs : Cells Response) : Type 0 where
  pub links : Links h xs
  pub head : q.head ≡ first xs
  pub tail : q.tail ≡ last xs
  pub size : q.size ≡ length xs
  pub fits : length xs ≤ q.max_size

push-append :
    (q : ResponseQueue) (rp : Ptr) (h : Heap Response)
    → rp ≢ null
    → q.size < q.max_size
    → response_queue_push q rp h ≡ (do
      g ← append h q.tail rp
      some (
        ok,
        record q { head = if q.tail == null then rp else q.head; tail = rp; size = q.size + 1 },
        g,
      ))
unfolding response_queue_push link append
push-append q rp h ne room = ground arith

push-full :
    (q : ResponseQueue) (rp : Ptr) (h : Heap Response)
    → rp ≢ null
    → leb q.max_size q.size ≡ true
    → response_queue_push q rp h ≡ some (again, q, h)
unfolding response_queue_push
push-full q rp h ne full = ground arith

-- A node that the caller owns is pushed behind the last one if the queue has room, and refused
-- otherwise; the queue then holds what the bounded queue holds.
pub response_queue_push_refines :
    {h : Heap Response} {q : ResponseQueue} {xs : Cells Response} (rp : Ptr) (b : Response)
    (r : Ptr)
    → IsQueue h q xs
    → rp ≢ null
    → has rp xs ≡ false
    → h rp ≡ some (node b r)
    → (g : Heap Response) × (q' : ResponseQueue) × (response_queue_push q rp h
        ≡ some ((fifo_push q.max_size xs (rp, b)).0, q', g))
      × IsQueue g q' (fifo_push q.max_size xs (rp, b)).1
      × (q'.max_size ≡ q.max_size)
response_queue_push_refines {h} {q} {xs} rp b r v ne out e =
    elim (Bool-cases (leb q.max_size (length xs))) [
      | inl full ↦ (h, q, rw full (push-full q rp h ne (rw v.size full)), rw full v, refl)
      | inr room ↦
          (let (g, done, l) = append-Links h xs rp b r v.links ne out e in
            let q' : ResponseQueue = record q {
              head = if q.tail == null then rp else q.head;
              tail = rp;
              size = q.size + 1;
            } in
            (
              g,
              q',
              rw room (push-append q rp h ne (ground arith) ∙ rw (v.tail, done)),
              rw room (record {
                links = l;
                head = rw (v.tail, v.head) (first-snoc_or h xs rp b v.links);
                tail = sym (last_from-snoc null xs rp b);
                size = omega (arith, length-snoc xs (rp, b));
                fits = ground (arith, length-snoc xs (rp, b));
              }),
              refl,
            ))
    ]

-- The oldest node is popped, or NULL from an empty queue; the queue then holds the rest.
pub response_queue_pop_refines :
    {h : Heap Response} {q : ResponseQueue} {xs : Cells Response}
    → IsQueue h q xs
    → (g : Heap Response) × (q' : ResponseQueue) × (response_queue_pop q h
        ≡ some ((fifo_pop xs).0, q', g))
      × IsQueue g q' (fifo_pop xs).1
      × (q'.max_size ≡ q.max_size)
unfolding response_queue_pop
response_queue_pop_refines {h} {q} {xs = []} v = (h, q, ground arith, v, refl)
response_queue_pop_refines {h} {q} {xs = (p, a) ∷ xs} v =
    let q' : ResponseQueue = record {
      head = first xs;
      tail = if first xs == null then null else q.tail;
      size = q.size - 1;
      max_size = q.max_size;
    } in
    (
      write h p (some (node a null)),
      q',
      ground (
        arith,
        load_lem h p (node a (first xs)) v.links.0 v.links.1,
        set_next_lem h p null a (first xs) v.links.0 v.links.1,
      ),
      record {
        links = Links-tail h p a xs (some (node a null)) v.links;
        head = refl;
        tail = rw v.tail (last_rest h p xs v.links.3);
        size = omega arith;
        fits = omega arith;
      },
      refl,
    )
