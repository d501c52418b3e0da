-- ===== src/Worker/Answer.antt =====
-- About `process_hardware_task` (gateway/src/worker_thread.c).
use mini_project_of_linux_pr.Prelude.{
  ℕ, ◌+◌, ◌-◌, ◌≤◌, ◌<◌, ◌⊎◌, ap, none, some, ltb, ◌≡◌, ◌≢◌, refl, arith, if◌then◌else◌, ==_ne,
}
use mini_project_of_linux_pr.Heap.{Ptr, null, Heap, node, write}
use mini_project_of_linux_pr.Types.{Buffer, max_payload, Task, Response}
use mini_project_of_linux_pr.Protocol.{ErrCode, msg_response, msg_error, copy}
use mini_project_of_linux_pr.Worker.{
  internal_error, Message, Json, Payloads, Devices, Reply, document, refuse, reply_to,
  make_response, error_text, make_error_response, process_hardware_task,
}

-- `rp` is a response to the task, of the type `type`, with the first 4096 of the `n` bytes of `text`.
pub record Carries (task : Task) (type : ℕ) (text : Buffer) (n : ℕ) (rp : Response) : Type 0 where
  pub slot : rp.slot ≡ task.slot
  pub generation : rp.generation ≡ task.generation
  pub request : rp.request_id ≡ task.request_id
  pub type_is : rp.type ≡ type
  pub short : rp.length ≤ max_payload
  pub length_is : (rp.length ≡ n) ⊎ ((max_payload < n) × (rp.length ≡ max_payload))
  pub body : (i : ℕ) → i < rp.length → rp.payload i ≡ text i

kept_of : ℕ → ℕ
kept_of n = if ltb max_payload n then max_payload else n

make_response-Carries :
    (p : Ptr) (raw : Response) (task : Task) (type : ℕ) (text : Buffer) (n : ℕ) (h : Heap Response)
    → p ≢ null
    → (rp : Response) × Carries task type text n rp
      × (make_response p raw task.slot task.generation type task.request_id text n h
          ≡ (p, write h p (some (node rp null))))
unfolding make_response kept_of
make_response-Carries p raw task type text n h ne =
    let kept = kept_of n in
    (
      record {
        slot = task.slot;
        generation = task.generation;
        type = type;
        request_id = task.request_id;
        length = kept;
        payload = if ltb 0 kept then copy raw.payload 0 text 0 kept else raw.payload;
      },
      record {
        slot = refl;
        generation = refl;
        request = refl;
        type_is = refl;
        short = ground arith;
        length_is = ground arith;
        body = λ i lt. copied_body raw.payload text kept i lt;
      },
      rw (==_ne p null ne) refl,
    )
  where
    copied_body :
        (old text : Buffer) (m i : ℕ)
        → i < m
        → (if ltb 0 m then copy old 0 text 0 m else old) i ≡ text i
    copied_body old text m i lt =
        let shift : 0 + (i - 0) ≡ i = omega arith in ground (arith, ap text shift)

module _ {D : Type 0} where
  -- The JSON library can write each error, at least with its second text.
  abbrev pub CanRefuse : Payloads D → Type 0
  CanRefuse js = (code : ErrCode) (message : Message) → error_text js code message ≢ none

  -- The text of a document, or the one that the JSON library writes for an error; when it cannot write
  -- the error with its own text, the one with "internal error".
  pub data Says (js : Payloads D) (type : ℕ) (text : Buffer) (n : ℕ) : Reply → Type 0 where
    says_document : type ≡ msg_response → Says js type text n (document text n)
    says_error :
        (code : ErrCode) (message : Message)
        → type ≡ msg_error
        → js.build_error_resp code message ≡ some (text, n)
        → Says js type text n (refuse code message)
    says_internal :
        (code : ErrCode) (message : Message)
        → type ≡ msg_error
        → js.build_error_resp code message ≡ none
        → js.build_error_resp code internal_error ≡ some (text, n)
        → Says js type text n (refuse code message)

  -- `rp` is the response to the task that a reply asks for.
  pub record Answers (js : Payloads D) (task : Task) (r : Reply) (rp : Response) : Type 0 where
    pub type : ℕ
    pub text : Buffer
    pub size : ℕ
    pub carries : Carries task type text size rp
    pub says : Says js type text size r

  -- The memory at `p` has become such a response, with no link.
  abbrev pub Filled : Payloads D → Heap Response → Ptr → Task → Reply → Ptr × Heap Response → Type 0
  Filled js h p task r out =
      (rp : Response) × Answers js task r rp × (out ≡ (p, write h p (some (node rp null))))

  filled :
      (js : Payloads D) (p : Ptr) (raw : Response) (task : Task) (type : ℕ) (text : Buffer) (n : ℕ)
      (h : Heap Response) (r : Reply)
      → p ≢ null
      → Says js type text n r
      → Filled js h p task r
          (make_response p raw task.slot task.generation type task.request_id text n h)
  filled js p raw task type text n h r ne says =
      let (rp, carries, e) = make_response-Carries p raw task type text n h ne in
      (rp, record { type = type; text = text; size = n; carries = carries; says = says }, e)

  pub make_error_response-Filled :
      (js : Payloads D) (p : Ptr) (raw : Response) (task : Task) (code : ErrCode)
      (message : Message) (h : Heap Response)
      → CanRefuse js
      → p ≢ null
      → Filled js h p task (refuse code message) (make_error_response js p raw task code message h)
  unfolding make_error_response
  make_error_response-Filled js p raw task code message h can ne =
      first (js.build_error_resp code message) refl (can code message)
    where
      made : Json → Ptr × Heap Response
      made j = elim j [
        | none ↦ (null, h)
        | some (text, n) ↦
            make_response p raw task.slot task.generation msg_error task.request_id text n h
      ]

      second :
          (j : Json)
          → js.build_error_resp code message ≡ none
          → js.build_error_resp code internal_error ≡ j
          → j ≢ none
          → Filled js h p task (refuse code message) (made j)
      second none e e' ne' = absurd (ne' refl)
      second (some (text, n)) e e' ne' =
          filled js p raw task msg_error text n h (refuse code message) ne
            (says_internal code message refl e e')

      first :
          (j : Json)
          → js.build_error_resp code message ≡ j
          → (elim j [ none ↦ js.build_error_resp code internal_error | some text ↦ some text ])
            ≢ none
          → Filled js h p task (refuse code message) (
              made
                (elim j [ none ↦ js.build_error_resp code internal_error | some text ↦ some text ]))
      first none e ne' = second (js.build_error_resp code internal_error) e refl ne'
      first (some (text, n)) e ne' =
          filled js p raw task msg_error text n h (refuse code message) ne
            (says_error code message refl e)

  -- With memory for the response, and a JSON library that can write an error, every task gets the
  -- response that its reply asks for.
  pub process_hardware_task-Filled :
      (js : Payloads D) (dev : Devices D) (now : ℕ) (p : Ptr) (raw : Response) (task : Task)
      (h : Heap Response)
      → CanRefuse js
      → p ≢ null
      → Filled js h p task
          (reply_to js dev now task)
          (process_hardware_task js dev now p raw task h)
  unfolding process_hardware_task
  process_hardware_task-Filled js dev now p raw task h can ne = pick (reply_to js dev now task)
    where
      pick :
          (r : Reply)
          → Filled js h p task r (elim r [
            | refuse code message ↦ make_error_response js p raw task code message h
            | document text len ↦
                make_response p raw task.slot task.generation msg_response task.request_id text len
                  h
          ])
      pick (refuse code message) = make_error_response-Filled js p raw task code message h can ne
      pick (document text n) =
          filled js p raw task msg_response text n h (document text n) ne (says_document refl)
