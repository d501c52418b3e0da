-- ===== src/Control/Reader/Frames.antt =====
-- About `read_stage` (unix-domain-socket-control-plane/gatewayd/server.h) on the bytes of a message.
use mini_project_of_linux_pr.Prelude.{
  ℕ, ◌+◌, ◌^◌, ◌<◌, Bool, true, false, ltb, ◌==◌, ==_refl, ==_ne, if◌then◌else◌, List, [], ◌∷◌,
  ◌++◌, length, ◌≡◌, ◌≢◌, refl, sym, ap, ◌∙◌, ◌⊎◌, inl, inr, arith,
}
use mini_project_of_linux_pr.Control.{
  max_payload_size, header_bytes, Header, MessageControl, bytes_of, raw_header, calculate_checksum,
}
use mini_project_of_linux_pr.Control.Checksum.{length-raw_header, length-bytes_of}
use mini_project_of_linux_pr.Control.Wire.{IsMessage, read_header-raw_header, word_of-bytes_of_4}
use mini_project_of_linux_pr.Control.Structs.{in_header, in_payload, in_checksum, Client}
use mini_project_of_linux_pr.Control.Reader.{
  Recv, complete, Progress, go_on, returns, on_part, read_stage,
}
use mini_project_of_linux_pr.Control.Reader.Feed.{
  Delivers, resume, feed, called_again, feed-Delivers, read_stage-feed,
}

-- The answers that hand over a payload, which may be empty.
abbrev pub DeliversPayload : List ℕ → List Recv → Type 0
DeliversPayload message answers =
    ((message ≡ []) × (answers ≡ [])) ⊎ ((message ≢ []) × Delivers message answers)

-- The client after a whole message.
abbrev pub received : Client → MessageControl → Client
received c m = record c {
  stage = in_header;
  part = [];
  message = m;
  pending_task = c.pending_task + 1;
  packet_received = c.packet_received + 1;
}

calculate_checksum-lt : (h : Header) (message : List ℕ) → calculate_checksum h message < 2 ^ 32
unfolding calculate_checksum
calculate_checksum-lt h message = omega arith

no_bytes : (s : List ℕ) → length s ≡ 0 → s ≡ []
no_bytes [] e = refl
no_bytes (b ∷ s) e = absurd (omega arith)

module _ (m : MessageControl) (v : IsMessage m) where
  abbrev begun : Client → Client
  begun c = record c {
    part = [];
    message = record { header = m.header; message = []; checksum = 0 };
    stage = if m.header.length == 0 then in_checksum else in_payload;
  }

  header_lem : (c : Client) → on_part in_header c (raw_header m.header) ≡ (go_on, begun c)
  header_lem c =
      let full : ltb (length (raw_header m.header)) header_bytes ≡ false =
        ground (arith, length-raw_header m.header) in
      let fits : ltb max_payload_size m.header.length ≡ false =
        ground (arith, v.counted, v.short) in
      rw (full, read_header-raw_header m.header v.header, fits) refl

  abbrev filled : Client → Client
  filled c = record c {
    part = [];
    message = record { header = m.header; message = m.message; checksum = 0 };
    stage = in_checksum;
  }

  checksum_lem :
      (c : Client)
      → on_part in_checksum (filled c) (bytes_of 4 m.checksum) ≡ (returns complete, received c m)
  checksum_lem c =
      let word =
        word_of-bytes_of_4 m.checksum
          (omega (arith, v.checked, calculate_checksum-lt m.header m.message)) in
      let right : (calculate_checksum m.header m.message == m.checksum) ≡ true =
        ap (λ (t : ℕ). t == m.checksum) (sym v.checked) ∙ ==_refl m.checksum in
      rw (word, right) refl

  -- `begun` and `filled` are two of these.
  abbrev shape : Client → Bool → List ℕ → Client
  shape c empty message = record c {
    part = [];
    message = record { header = m.header; message = message; checksum = 0 };
    stage = if empty then in_checksum else in_payload;
  }

  payload_lem :
      (c : Client) (ps rest : List Recv)
      → DeliversPayload m.message ps
      → feed (ps ++ rest) (begun c) ≡ feed rest (filled c)
  payload_lem c ps rest (inl (none_there, no_answers)) =
      let none_counted : (m.header.length == 0) ≡ true =
        ground (arith, v.counted, ap (length {0}) none_there) in
      ap (λ (t : List Recv). feed (t ++ rest) (begun c)) no_answers
      ∙ ap (λ (t : Bool). feed rest (shape c t [])) none_counted
      ∙ ap (λ (t : List ℕ). feed rest (shape c true t)) (sym none_there)
  payload_lem c ps rest (inr (some_there, d)) =
      let some_counted : (m.header.length == 0) ≡ false =
        ==_ne m.header.length 0 (λ e. some_there (no_bytes m.message (sym v.counted ∙ e))) in
      let full : ltb (length m.message) m.header.length ≡ false = ground (arith, v.counted) in
      ap (λ (t : Bool). feed (ps ++ rest) (shape c t [])) some_counted
      ∙ feed-Delivers in_payload rest d (shape c false []) refl (omega (arith, v.counted))
      ∙ rw full refl

  feed_receives :
      (hs ps cs rest : List Recv) (c : Client)
      → c.stage ≡ in_header
      → c.part ≡ []
      → Delivers (raw_header m.header) hs
      → DeliversPayload m.message ps
      → Delivers (bytes_of 4 m.checksum) cs
      → feed (hs ++ (ps ++ (cs ++ rest))) c ≡ (complete, received c m, rest)
  feed_receives hs ps cs rest c at start dh dp dc =
      feed-Delivers in_header (ps ++ (cs ++ rest)) dh c at
        (omega (arith, ap (length {0}) start, length-raw_header m.header))
      ∙ ap
          (λ (t : List ℕ).
            resume (on_part in_header c (t ++ raw_header m.header)) (ps ++ (cs ++ rest))
              (feed (ps ++ (cs ++ rest))))
          start
      ∙ ap (λ (t : Progress × Client). resume t (ps ++ (cs ++ rest)) (feed (ps ++ (cs ++ rest))))
          (header_lem c)
      ∙ payload_lem c ps (cs ++ rest) dp
      ∙ feed-Delivers in_checksum rest dc (filled c) refl (length-bytes_of 4 m.checksum)
      ∙ ap (λ (t : Progress × Client). resume t rest (feed rest)) (checksum_lem c)

  -- However the header, the payload and the checksum of a message with a correct checksum and at most
  -- 2048 bytes are cut up by `recv` and its interruptions, calling `read_stage` again while it returns
  -- 0 ends with 1 and that message, for a client that is not to be closed and waits for a header; the
  -- client then waits for the next header with one more pending task, and the answers behind the
  -- message are not read.
  pub read_stage_receives :
      (hs ps cs rest : List Recv) (c : Client)
      → c.pending_close ≡ false
      → c.stage ≡ in_header
      → c.part ≡ []
      → Delivers (raw_header m.header) hs
      → DeliversPayload m.message ps
      → Delivers (bytes_of 4 m.checksum) cs
      → called_again (read_stage (hs ++ (ps ++ (cs ++ rest))) c) ≡ (complete, received c m, rest)
  read_stage_receives hs ps cs rest c still_open at start dh dp dc =
      sym (read_stage-feed (hs ++ (ps ++ (cs ++ rest))) c still_open)
      ∙ feed_receives hs ps cs rest c at start dh dp dc
