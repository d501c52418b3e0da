-- ===== src/Reader/Stream.antt =====
-- About packets that reach `client_read_message` (gateway/src/server.c) in pieces.
use mini_project_of_linux_pr.Prelude.{
  ℕ, ◌+◌, ◌<◌, ◌≤◌, none, some, List, [], ◌∷◌, ◌==◌, ltb, if◌then◌else◌, length, ◌≡◌, refl, sym, ap,
  ◌∙◌, arith, ◌⊎◌, inl, inr, Bool-cases, ltb→lt, ==_refl,
}
use mini_project_of_linux_pr.Types.{Buffer, max_payload}
use mini_project_of_linux_pr.Crc.{crc_calculate}
use mini_project_of_linux_pr.Protocol.{
  ReadStage, read_header, read_payload, header_size, crc_size, decode_32_bit, put, slice, msg_echo,
  msg_status, msg_get_sensor, msg_set_actuator,
}
use mini_project_of_linux_pr.Protocol.Words.{decode_32_local}
use mini_project_of_linux_pr.Protocol.Packet.{IsPacket, IsHeader-local, slice_local}
use mini_project_of_linux_pr.Client.{Client}
use mini_project_of_linux_pr.Reader.{
  check_header, decode_header, Read, got, closed, interrupted, would_block, broken, receive,
  packet_ready, received, header_done, payload_done, read_round, read_loop,
}
use mini_project_of_linux_pr.Reader.Bounds.{check_header-IsAccepted_of, receive_before}

-- the messages that the gateway serves
abbrev pub IsRequest : ℕ → Type 0
IsRequest t = (t ≡ msg_echo) ⊎ (t ≡ msg_status) ⊎ (t ≡ msg_get_sensor) ⊎ (t ≡ msg_set_actuator)

-- where a reader that has `o` bytes of a packet stops asking
abbrev pub boundary : ℕ → ℕ → ℕ
boundary total o = if ltb o header_size then header_size else total

-- The answers bring the bytes of `out` from `o` up to `total` in order, at least one at a time and
-- never past a boundary, with any number of interruptions.
abbrev pub Feeds : Buffer → ℕ → ℕ → List Read → Type 0
Feeds out total o [] = o ≡ total
Feeds out total o (got bs ∷ rs) =
    (0 < length bs)
    × (o + length bs ≤ boundary total o)
    × (bs ≡ slice out o (length bs))
    × Feeds out total (o + length bs) rs
Feeds out total o (interrupted ∷ rs) = Feeds out total o rs
Feeds out total o (closed ∷ rs) = ⊥
Feeds out total o (would_block ∷ rs) = ⊥
Feeds out total o (broken ∷ rs) = ⊥

receive-slice :
    (out f : Buffer) (o : ℕ) (bs : List ℕ) (j : ℕ)
    → bs ≡ slice out o (length bs)
    → o ≤ j
    → j < o + length bs
    → receive f o bs j ≡ out j
receive-slice out f o [] j e lo hi = absurd (omega arith)
receive-slice out f o (b ∷ bs) j e lo hi = elim (Bool-cases (j == o)) [
  | inl here ↦ receive_before (put f o b) (o + 1) bs j (ground arith) ∙ ground arith
  | inr later ↦ receive-slice out (put f o b) (o + 1) bs j (cc) (ground arith) (omega arith)
]

module _ {R : Type 0} where
  -- The first `o` bytes of `out` have been read.
  pub record HasPrefix (out : Buffer) (o : ℕ) (c : Client R) : Type 0 where
    pub count : c.rx_len ≡ o
    pub same : (j : ℕ) → j < o → c.data_receive j ≡ out j
    pub stage : c.stage ≡ (if ltb o header_size then read_header else read_payload)

  -- What a reading leaves alone: all but the stage, the buffer and its count.
  pub record SameClient (c c' : Client R) : Type 0 where
    pub fd : c'.fd ≡ c.fd
    pub generation : c'.generation ≡ c.generation
    pub alive : c'.alive ≡ c.alive
    pub rate : c'.rate ≡ c.rate
    pub head : c'.head ≡ c.head
    pub tail : c'.tail ≡ c.tail
    pub bytes_need_to_send : c'.bytes_need_to_send ≡ c.bytes_need_to_send
    pub addr : c'.addr ≡ c.addr
    pub last_active_ms : c'.last_active_ms ≡ c.last_active_ms
    pub ssl : c'.ssl ≡ c.ssl
    pub tls_handshake_done : c'.tls_handshake_done ≡ c.tls_handshake_done
    pub tls_read_pending : c'.tls_read_pending ≡ c.tls_read_pending

  SameClient-reading :
      (c : Client R) (stage : ReadStage) (buffer : Buffer) (n : ℕ)
      → SameClient c (record c { stage = stage; data_receive = buffer; rx_len = n })
  SameClient-reading c stage buffer n = record {
    fd = refl;
    generation = refl;
    alive = refl;
    rate = refl;
    head = refl;
    tail = refl;
    bytes_need_to_send = refl;
    addr = refl;
    last_active_ms = refl;
    ssl = refl;
    tls_handshake_done = refl;
    tls_read_pending = refl;
  }

  received_same :
      (out : Buffer) (o : ℕ) (c : Client R) (bs : List ℕ)
      → HasPrefix out o c
      → bs ≡ slice out o (length bs)
      → (j : ℕ) → j < o + length bs
      → (received c bs).data_receive j ≡ out j
  received_same out o c bs v e j h = elim (Bool-cases (ltb j o)) [
    | inl old ↦
        receive_before c.data_receive c.rx_len bs j (omega (arith, ltb→lt j o old, v.count))
        ∙ v.same j (ltb→lt j o old)
    | inr new ↦
        receive-slice out c.data_receive c.rx_len bs j
          (e ∙ ap (λ (t : ℕ). slice out t (length bs)) (sym v.count)) (ground (arith, v.count))
          (omega (arith, v.count))
  ]

abbrev pub packet_size : ℕ → ℕ
packet_size length' = length' + header_size + crc_size

module _ {out : Buffer} {type request_id length' : ℕ} {payload : Buffer}
    (packet : IsPacket out type request_id payload length') (request : IsRequest type)
    (short : length' ≤ max_payload) where
  accepted : (f : Buffer) → ((j : ℕ) → j < 16 → f j ≡ out j) → check_header (decode_header f) ≡ none
  accepted f same =
      let h = IsHeader-local f out type length' request_id same packet.header in
      check_header-IsAccepted_of (decode_header f) (
        unfold decode_header in
        (h.magic, h.version, omega (arith, h.length_is), ground (arith, h.type_is)))

  length_read : (f : Buffer) → ((j : ℕ) → j < 16 → f j ≡ out j) → decode_32_bit f 8 ≡ length'
  length_read f same = (IsHeader-local f out type length' request_id same packet.header).length_is

module _ {R : Type 0} {out : Buffer} {type request_id length' : ℕ} {payload : Buffer}
    (packet : IsPacket out type request_id payload length') (request : IsRequest type)
    (short : length' ≤ max_payload) where
  header_round :
      (o : ℕ) (c : Client R) (bs : List ℕ)
      → HasPrefix out o c
      → o < 16
      → o + length bs ≤ 16
      → bs ≡ slice out o (length bs)
      → (c1 : Client R) × (read_round c (got bs) ≡ (c1, none))
        × HasPrefix out (o + length bs) c1
        × SameClient c c1
  unfolding read_round header_done
  header_round o c bs v lt fits e =
      let st : c.stage ≡ read_header = ground (arith, v.stage) in
      let same = received_same out o c bs v e in
      elim (Bool-cases (ltb (o + length bs) 16)) [
        | inl more ↦ (
          received c bs,
          ground (arith, v.count),
          record { count = omega (arith, v.count); same = same; stage = rw more st },
          SameClient-reading c c.stage (received c bs).data_receive (received c bs).rx_len,
        )
        | inr full ↦ (
          record (received c bs) { stage = read_payload },
          ground (
            arith,
            v.count,
            accepted packet request short (received c bs).data_receive
                (λ j h. same j (ground arith)),
          ),
          record { count = omega (arith, v.count); same = same; stage = rw full refl },
          SameClient-reading c read_payload (received c bs).data_receive (received c bs).rx_len,
        )
      ]

  payload_done_ready :
      (c : Client R)
      → ((j : ℕ) → j < packet_size length' → c.data_receive j ≡ out j)
      → payload_done c ≡ packet_ready
  unfolding payload_done
  payload_done_ready c same =
      let len = length_read packet request short c.data_receive (λ j h. same j (omega arith)) in
      let crc =
        decode_32_local c.data_receive out (16 + length') (λ j lo hi. same j (omega arith))
        ∙ packet.checksum in
      let body = slice_local payload c.data_receive 0 16 length' (λ i h.
        ap payload (omega arith) ∙ sym (packet.body i h) ∙ sym (same (16 + i) (omega arith))) in
      rw (len, crc, body, ==_refl (crc_calculate (slice c.data_receive 16 length'))) refl

  payload_round :
      (o : ℕ) (c : Client R) (bs : List ℕ)
      → HasPrefix out o c
      → 16 ≤ o
      → o + length bs ≤ packet_size length'
      → bs ≡ slice out o (length bs)
      → read_round c (got bs) ≡ (
        received c bs,
        if ltb (o + length bs) (packet_size length') then none else some packet_ready,
      )
  unfolding read_round
  payload_round o c bs v ge fits e =
      let st : c.stage ≡ read_payload = ground (arith, v.stage) in
      let same = received_same out o c bs v e in
      let len =
        length_read packet request short (received c bs).data_receive
          (λ j h. same j (omega arith)) in
      elim (Bool-cases (ltb (o + length bs) (packet_size length'))) [
        | inl more ↦ rw more (ground (arith, v.count, len))
        | inr full ↦ rw full (
            ground (
              arith,
              v.count,
              len,
              payload_done_ready (received c bs) (λ j h. same j (ground arith)),
            ))
      ]

  -- The stage of a reader with a prefix is never READ_CRC, so a round decides.
  loop_next :
      (c c1 : Client R) (r : Read) (rs : List Read) (o : ℕ)
      → HasPrefix out o c
      → read_round c r ≡ (c1, none)
      → read_loop (r ∷ rs) c ≡ read_loop rs c1
  unfolding read_loop
  loop_next c c1 r rs o v e = ground (arith, v.stage)

  loop_stop :
      (c c1 : Client R) (r : Read) (rs : List Read) (o : ℕ)
      → HasPrefix out o c
      → read_round c r ≡ (c1, some packet_ready)
      → read_loop (r ∷ rs) c ≡ some (c1, packet_ready, rs)
  unfolding read_loop
  loop_stop c c1 r rs o v e = ground (arith, v.stage)

  round_interrupted : (c : Client R) → read_round c interrupted ≡ (c, none)
  unfolding read_round
  round_interrupted c = refl

  SameClient-trans : (a b c : Client R) → SameClient a b → SameClient b c → SameClient a c
  SameClient-trans a b c s t = record {
    fd = t.fd ∙ s.fd;
    generation = t.generation ∙ s.generation;
    alive = t.alive ∙ s.alive;
    rate = t.rate ∙ s.rate;
    head = t.head ∙ s.head;
    tail = t.tail ∙ s.tail;
    bytes_need_to_send = t.bytes_need_to_send ∙ s.bytes_need_to_send;
    addr = t.addr ∙ s.addr;
    last_active_ms = t.last_active_ms ∙ s.last_active_ms;
    ssl = t.ssl ∙ s.ssl;
    tls_handshake_done = t.tls_handshake_done ∙ s.tls_handshake_done;
    tls_read_pending = t.tls_read_pending ∙ s.tls_read_pending;
  }

  -- However a packet of a served type is cut up, the loop reads it whole: it ends with the packet
  -- ready and its bytes in the buffer, and of the client only the stage, the buffer and the count of
  -- the reader have changed.
  pub read_loop_reads :
      (rs : List Read) (o : ℕ) (c : Client R)
      → HasPrefix out o c
      → o < packet_size length'
      → Feeds out (packet_size length') o rs
      → (c' : Client R) × (left : List Read) × (read_loop rs c ≡ some (c', packet_ready, left))
        × ((j : ℕ) → j < packet_size length' → c'.data_receive j ≡ out j)
        × SameClient c c'
  read_loop_reads [] o c v lt f = absurd (omega arith)
  read_loop_reads (interrupted ∷ rs) o c v lt f =
      let (c', left, e, same, k) = read_loop_reads rs o c v lt f in
      (c', left, loop_next c c interrupted rs o v (round_interrupted c) ∙ e, same, k)
  read_loop_reads (closed ∷ rs) o c v lt f = absurd f
  read_loop_reads (would_block ∷ rs) o c v lt f = absurd f
  read_loop_reads (broken ∷ rs) o c v lt f = absurd f
  read_loop_reads (got bs ∷ rs) o c v lt f = elim (Bool-cases (ltb o 16)) [
    | inl header ↦
        let (c1, e1, v1, k1) = header_round o c bs v (ltb→lt o 16 header) (ground arith) f.2 in
        let (c', left, e, same, k) = read_loop_reads rs (o + length bs) c1 v1 (ground arith) f.3 in
        (c', left, loop_next c c1 (got bs) rs o v e1 ∙ e, same, SameClient-trans c c1 c' k1 k)
    | inr body ↦
        let round = payload_round o c bs v (ground arith) (ground arith) f.2 in
        let c1 = received c bs in
        let same1 = received_same out o c bs v f.2 in
        let k1 : SameClient c c1 = SameClient-reading c c.stage c1.data_receive c1.rx_len in
        elim (Bool-cases (ltb (o + length bs) (packet_size length'))) [
          | inl more ↦
              let v1 : HasPrefix out (o + length bs) c1 = record {
                count = omega (arith, v.count);
                same = same1;
                stage = ground (arith, v.stage);
              } in
              let (c', left, e, same, k) =
                read_loop_reads rs (o + length bs) c1 v1
                  (ltb→lt (o + length bs) (packet_size length') more) f.3 in
              (
                c',
                left,
                loop_next c c1 (got bs) rs o v (rw more at round) ∙ e,
                same,
                SameClient-trans c c1 c' k1 k,
              )
          | inr full ↦ (
            c1,
            rs,
            loop_stop c c1 (got bs) rs o v (rw full at round),
            λ j h. same1 j (ground arith),
            k1,
          )
        ]
  ]
