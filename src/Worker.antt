-- ===== src/Worker.antt =====
-- gateway/src/worker_thread.c: what a worker makes of a task. The functions of payload_json.c and
-- task_execute.c are parameters, in the records `Payloads` and `Devices`; the text of a JSON document
-- is a buffer and its length, and `none` is a negative result.
pub mod Answer
pub mod Loop
use mini_project_of_linux_pr.Prelude.{
  ℕ, Bool, true, false, Option, none, some, ◌==◌, ltb, ◌&&◌, if◌then◌else◌, ◌>>=◌, ℤ, pos, eqℤ,
}
use mini_project_of_linux_pr.Heap.{Ptr, null, Heap, node, write, load, free}
use mini_project_of_linux_pr.Types.{Buffer, max_payload, num_workers, ok, Task, Response}
use mini_project_of_linux_pr.Queue.Task.{Popped, waiting, stopped, taken, pop}
use mini_project_of_linux_pr.Queue.Response.{ResponseQueue, response_queue_push}
use mini_project_of_linux_pr.Protocol.{
  ErrCode, err_unknown_type, err_timeout, err_bad_json, msg_echo, msg_status, msg_get_sensor,
  msg_set_actuator, msg_response, msg_error, copy,
}
use mini_project_of_linux_pr.Server.{Server}

-- The texts that go with an error code.
pub data Message : Type 0 where
  missing_or_invalid_field_msg : Message
  response_too_large : Message
  missing_or_invalid_field_sensor_id : Message
  aht30_hardware_init_fail : Message
  bh1750_hardware_init_fail : Message
  unknown_sensor_id : Message
  missing_or_invalid_field_device_id_state_value : Message
  unknown_device_id : Message
  actuator_hardware_control_fail : Message
  unsupported_message_type : Message
  processing_timeout : Message
  internal_error : Message

abbrev pub Json : Type 0
Json = Option (Buffer × ℕ)

-- payload_json.c; `D` is the type of a measured number.
pub record Payloads (D : Type 0) : Type 0 where
  pub parse_echo_req : Buffer → ℕ → Option Buffer
  pub parse_get_sensor_req : Buffer → ℕ → Option ℤ
  pub parse_set_actuator_req : Buffer → ℕ → Option (ℤ × ℤ × ℤ)
  pub build_echo_resp : Buffer → Json
  pub build_status_resp : ℕ → ℕ → Json
  pub build_sensor_aht30_resp : D → D → Json
  pub build_sensor_bh1750_resp : D → Json
  pub build_actuator_resp : Json
  pub build_error_resp : ErrCode → Message → Json

-- task_execute.c: what a sensor measures once it is set up, and whether an actuator is set up and
-- takes a state and a value.
pub record Devices (D : Type 0) : Type 0 where
  pub aht30 : Option (D × D)
  pub bh1750 : Option D
  pub ac_ready : Bool
  pub set_ac : ℤ → ℤ → Bool
  pub led_ready : Bool
  pub set_led : ℤ → ℤ → Bool
  pub fan_ready : Bool
  pub set_fan : ℤ → ℤ → Bool

-- gateway/include/task_execute.h
abbrev pub aht30_sensor_id : ℤ
aht30_sensor_id = pos 1

abbrev pub bh1750_sensor_id : ℤ
bh1750_sensor_id = pos 2

abbrev pub ac_actuator_id : ℤ
ac_actuator_id = pos 1

abbrev pub led_actuator_id : ℤ
led_actuator_id = pos 2

abbrev pub fan_actuator_id : ℤ
fan_actuator_id = pos 3

-- What `process_hardware_task` decides to send: a document, or an error.
pub data Reply : Type 0 where
  document : Buffer → ℕ → Reply
  refuse : ErrCode → Message → Reply

-- `resp_len < 0` is answered with an error.
abbrev pub reply : Json → Reply
reply none = refuse err_bad_json response_too_large
reply (some (text, len)) = document text len

module _ {D : Type 0} where
  unfoldable pub reply_to_echo : Payloads D → Task → Reply
  reply_to_echo js task = elim (js.parse_echo_req task.payload task.length) [
    | none ↦ refuse err_bad_json missing_or_invalid_field_msg
    | some msg_in ↦ reply (js.build_echo_resp msg_in)
  ]

  unfoldable pub reply_to_get_sensor : Payloads D → Devices D → Task → Reply
  reply_to_get_sensor js dev task = elim (js.parse_get_sensor_req task.payload task.length) [
    | none ↦ refuse err_bad_json missing_or_invalid_field_sensor_id
    | some sensor_id ↦
        if eqℤ sensor_id aht30_sensor_id
        then elim dev.aht30 [
          | none ↦ refuse err_unknown_type aht30_hardware_init_fail
          | some (temperature, humidity) ↦ reply (js.build_sensor_aht30_resp temperature humidity)
        ]
        else if eqℤ sensor_id bh1750_sensor_id
        then elim dev.bh1750 [
          | none ↦ refuse err_unknown_type bh1750_hardware_init_fail
          | some lux ↦ reply (js.build_sensor_bh1750_resp lux)
        ]
        else refuse err_unknown_type unknown_sensor_id
  ]

  -- Whether the actuator took the state and the value; `none` for an unknown device.
  unfoldable pub control : Devices D → ℤ → ℤ → ℤ → Option Bool
  control dev device_id state value =
      if eqℤ device_id ac_actuator_id
      then some (dev.ac_ready && dev.set_ac state value)
      else if eqℤ device_id led_actuator_id
      then some (dev.led_ready && dev.set_led state value)
      else if eqℤ device_id fan_actuator_id
      then some (dev.fan_ready && dev.set_fan state value)
      else none

  unfoldable pub reply_to_set_actuator : Payloads D → Devices D → Task → Reply
  reply_to_set_actuator js dev task = elim (js.parse_set_actuator_req task.payload task.length) [
    | none ↦ refuse err_bad_json missing_or_invalid_field_device_id_state_value
    | some (device_id, state, value) ↦ elim (control dev device_id state value) [
      | none ↦ refuse err_unknown_type unknown_device_id
      | some done ↦
          if done
          then reply js.build_actuator_resp
          else refuse err_unknown_type actuator_hardware_control_fail
    ]
  ]

  -- The switch of `process_hardware_task`; `now` is the clock.
  unfoldable pub reply_to : Payloads D → Devices D → ℕ → Task → Reply
  reply_to js dev now task =
      if task.type == msg_echo
      then reply_to_echo js task
      else if task.type == msg_status
      then reply (js.build_status_resp now num_workers)
      else if task.type == msg_get_sensor
      then reply_to_get_sensor js dev task
      else if task.type == msg_set_actuator
      then reply_to_set_actuator js dev task
      else refuse err_unknown_type unsupported_message_type

-- `rp` is what `malloc` returned and `raw` what the memory held. A payload is never NULL here.
unfoldable pub make_response :
    Ptr → Response → ℤ → ℕ → ℕ → ℕ → Buffer → ℕ → Heap Response → Ptr × Heap Response
make_response rp raw slot generation type request_id payload length h =
    let kept = if ltb max_payload length then max_payload else length in
    let bytes : Buffer = if ltb 0 kept then copy raw.payload 0 payload 0 kept else raw.payload in
    if rp == null then (null, h) else (
      rp,
      write h rp (
          some (
            node
              (record {
                slot = slot;
                generation = generation;
                type = type;
                request_id = request_id;
                length = kept;
                payload = bytes;
              })
              null)),
    )

module _ {D : Type 0} where
  -- The second attempt has another text.
  abbrev pub error_text : Payloads D → ErrCode → Message → Json
  error_text js code message = elim (js.build_error_resp code message) [
    | none ↦ js.build_error_resp code internal_error
    | some text ↦ some text
  ]

  unfoldable pub make_error_response :
      Payloads D → Ptr → Response → Task → ErrCode → Message → Heap Response → Ptr × Heap Response
  unfolding make_response
  make_error_response js rp raw task code message h = elim (error_text js code message) [
    | none ↦ (null, h)
    | some (text, n) ↦
        make_response rp raw task.slot task.generation msg_error task.request_id text n h
  ]

  unfoldable pub process_hardware_task :
      Payloads D → Devices D → ℕ → Ptr → Response → Task → Heap Response → Ptr × Heap Response
  process_hardware_task js dev now rp raw task h = elim (reply_to js dev now task) [
    | refuse code message ↦ make_error_response js rp raw task code message h
    | document text len ↦
        make_response rp raw task.slot task.generation msg_response task.request_id text len h
  ]

-- What a worker meets during one task: the clock before, during and after the work, and the memory
-- for the response and for the one that replaces it.
pub record Turn : Type 0 where
  pub now : ℕ
  pub during : ℕ
  pub later : ℕ
  pub first : Ptr
  pub second : Ptr
  pub raw : Response

-- How a round of the worker's loop ends.
pub data Round : Type 0 where
  waits : Round
  stops : Round
  expired : Round
  finished : Bool → Round

-- The response goes to the queue; the flag says whether the network thread is notified.
unfoldable pub hand_over :
    Ptr → ResponseQueue → Heap Response → Option (Bool × ResponseQueue × Heap Response)
hand_over resp q h = if resp == null then some (false, q, h) else do
  (s, q1, h1) ← response_queue_push q resp h
  elim s [ ok ↦ some (true, q1, h1) | _ ↦ do h2 ← free h1 resp; some (false, q1, h2) ]

module _ {D : Type 0} where
  -- The response of the work, or the error that replaces it when the deadline has passed.
  unfoldable pub work :
      Payloads D → Devices D → Turn → Task → Heap Response → Option (Ptr × Heap Response)
  work js dev x task h =
      let (resp, h1) = process_hardware_task js dev x.during x.first x.raw task h in
      let replaced = do
        h2 ← free h1 resp
        some (make_error_response js x.second x.raw task err_timeout processing_timeout h2)
      in if ltb task.timeout_ms x.later then replaced else some (resp, h1)

module _ {R D : Type 0} where
  -- The loop's body on the task at `t`.
  unfoldable pub serve_task :
      Payloads D → Devices D → Turn → Server R → Ptr → Option (Round × Server R)
  serve_task js dev x sv t = do
    n ← load sv.task_heap t
    let drop = do h ← free sv.task_heap t; some (expired, record sv { task_heap = h })
    let serve = do
      (resp, h1) ← work js dev x n.item sv.response_heap
      (told, q, h2) ← hand_over resp sv.response h1
      h ← free sv.task_heap t
      some (finished told, record sv { response = q; response_heap = h2; task_heap = h })
    if ltb n.item.timeout_ms x.now then drop else serve

  -- One round of the loop of `worker_thread`.
  unfoldable pub worker_round : Payloads D → Devices D → Turn → Server R → Option (Round × Server R)
  worker_round js dev x sv = do
    (popped, q, h) ← pop sv.tasks sv.task_heap
    let sv1 = record sv { tasks = q; task_heap = h }
    elim popped [
      | waiting ↦ some (waits, sv1)
      | stopped ↦ some (stops, sv1)
      | taken t ↦ serve_task js dev x sv1 t
    ]
