-- ===== src/Reader/Bounds.antt =====
-- About the receive buffer in `client_read_message` (gateway/src/server.c).
use mini_project_of_linux_pr.Prelude.{
  ℕ, ◌+◌, ◌<◌, ◌≤◌, none, List, [], ◌∷◌, length, ◌≡◌, ◌≢◌, refl, sym, ◌∙◌, arith, ◌⊎◌, inl, inr,
}
use mini_project_of_linux_pr.Types.{Buffer, max_payload}
use mini_project_of_linux_pr.Protocol.{
  ReadStage, read_header, read_payload, read_crc, HeaderPacket, header_size, decode_32_bit, put,
  protocol_magic, protocol_version, msg_echo, msg_status, msg_get_sensor, msg_set_actuator,
}
use mini_project_of_linux_pr.Protocol.Words.{decode_32_local}
use mini_project_of_linux_pr.Client.{Client}
use mini_project_of_linux_pr.Reader.{
  rx_buf_cap, check_header, decode_header, Read, got, closed, interrupted, would_block, broken,
  receive, total_needed, remain, received, header_done, read_round,
}

-- a header that `check_header` accepts
abbrev pub IsAccepted : HeaderPacket → Type 0
IsAccepted h =
    (h.magic ≡ protocol_magic)
    × (h.version ≡ protocol_version)
    × (h.length ≤ max_payload)
    × ((h.type ≡ msg_echo)
        ⊎ (h.type ≡ msg_status)
        ⊎ (h.type ≡ msg_get_sensor)
        ⊎ (h.type ≡ msg_set_actuator))

pub check_header-IsAccepted_to : (h : HeaderPacket) → check_header h ≡ none → IsAccepted h
unfolding check_header
check_header-IsAccepted_to h e = ground arith

pub check_header-IsAccepted_of : (h : HeaderPacket) → IsAccepted h → check_header h ≡ none
unfolding check_header
check_header-IsAccepted_of h a = ground arith

-- writing bytes leaves what stands before them
pub receive_before : (f : Buffer) (o : ℕ) (bs : List ℕ) (j : ℕ) → j < o → receive f o bs j ≡ f j
receive_before f o [] j h = refl
receive_before f o (b ∷ bs) j h =
    receive_before (put f o b) (o + 1) bs j (omega arith) ∙ ground arith

pub stage_cases : (s : ReadStage) → (s ≡ read_header) ⊎ (s ≡ read_payload) ⊎ (s ≡ read_crc)
stage_cases read_header = ground arith
stage_cases read_payload = ground arith
stage_cases read_crc = ground arith

module _ {R : Type 0} where
  -- What holds of a client's reader between two calls of `SSL_read`.
  pub record IsReading (c : Client R) : Type 0 where
    pub no_crc : c.stage ≢ read_crc
    pub in_header : c.stage ≡ read_header → c.rx_len < header_size
    pub in_payload :
        c.stage ≡ read_payload
        → (header_size ≤ c.rx_len)
          × (c.rx_len < total_needed c)
          × (decode_32_bit c.data_receive 8 ≤ max_payload)

  -- `SSL_read` returns at least one byte and no more than it was asked for.
  abbrev pub Obeys : Client R → Read → Type 0
  Obeys c (got bytes) = (0 < length bytes) × (length bytes ≤ remain c)
  Obeys c _ = Unit

  asks_in_bounds :
      (c : Client R) → IsReading c → (0 < remain c) × (c.rx_len + remain c ≤ rx_buf_cap)
  asks_in_bounds c v = ground arith

  -- The bytes of the length field are behind a payload's reader.
  pub length_kept :
      (c : Client R) (bytes : List ℕ)
      → header_size ≤ c.rx_len
      → decode_32_bit (received c bytes).data_receive 8 ≡ decode_32_bit c.data_receive 8
  length_kept c bytes h =
      decode_32_local (received c bytes).data_receive c.data_receive 8
        (λ j lo hi. receive_before c.data_receive c.rx_len bytes j (omega arith))

  header_round :
      (c : Client R) (bytes : List ℕ)
      → IsReading c
      → Obeys c (got bytes)
      → c.stage ≡ read_header
      → (read_round c (got bytes)).1 ≡ none
      → IsReading (read_round c (got bytes)).0
  unfolding read_round header_done decode_header
  header_round c bytes v o st e =
      ground (arith, check_header-IsAccepted_to (decode_header (received c bytes).data_receive))

  payload_round :
      (c : Client R) (bytes : List ℕ)
      → IsReading c
      → Obeys c (got bytes)
      → c.stage ≡ read_payload
      → (read_round c (got bytes)).1 ≡ none
      → IsReading (read_round c (got bytes)).0
  unfolding read_round
  payload_round c bytes v o st e = ground (arith, length_kept c bytes)

  -- Unless it ends the call, a round leaves the reader as the next round needs it.
  pub read_round-IsReading :
      (c : Client R) (r : Read)
      → IsReading c
      → Obeys c r
      → (read_round c r).1 ≡ none
      → IsReading (read_round c r).0
  unfolding read_round
  read_round-IsReading c interrupted v o e = v
  read_round-IsReading c would_block v o e = cc
  read_round-IsReading c broken v o e = cc
  read_round-IsReading c closed v o e = cc
  read_round-IsReading c (got bytes) v o e = elim (stage_cases c.stage) [
    | inl h ↦ header_round c bytes v o h e
    | inr (inl h) ↦ payload_round c bytes v o h e
    | inr (inr h) ↦ absurd (v.no_crc h)
  ]

  -- The states in which the loop asks `SSL_read` for bytes, from `c` on, as long as `SSL_read` obeys
  -- and no round ends the call.
  pub data Asks (c : Client R) : Client R → Type 0 where
    at_once : Asks c c
    again :
        {d : Client R} (r : Read)
        → Asks c d
        → Obeys d r
        → (read_round d r).1 ≡ none
        → Asks c (read_round d r).0

  Asks-IsReading : {c d : Client R} → IsReading c → Asks c d → IsReading d
  Asks-IsReading v at_once = v
  Asks-IsReading v (again {d} r asks obeys goes_on) =
      read_round-IsReading d r (Asks-IsReading v asks) obeys goes_on

  -- From a reader that starts anew on, whatever bytes the peer sends and however they are cut up, each
  -- time that the loop calls `SSL_read` it asks for at least one byte and for no more than the
  -- 8192-byte buffer has room for behind the bytes that are there. `SSL_read` returns at least one
  -- byte and no more than it was asked for.
  pub remain_fits :
      (c d : Client R)
      → c.stage ≡ read_header
      → c.rx_len ≡ 0
      → Asks c d
      → (0 < remain d) × (d.rx_len + remain d ≤ rx_buf_cap)
  remain_fits c d stage none_read asks =
      let fresh : IsReading c = record {
        no_crc = λ e. read_header_ne (sym stage ∙ e);
        in_header = λ e. omega arith;
        in_payload = λ e. cc (sym stage ∙ e);
      } in
      asks_in_bounds d (Asks-IsReading fresh asks)
    where
      read_header_ne : read_header ≢ read_crc
      read_header_ne e = cc
