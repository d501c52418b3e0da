-- ===== src/Control/Reader/Feed.antt =====
-- About `read_stage` (unix-domain-socket-control-plane/gatewayd/server.h) called again and again.
use mini_project_of_linux_pr.Prelude.{
  ℕ, ◌+◌, ◌<◌, Bool, false, lt→ltb, if◌then◌else◌, List, [], ◌∷◌, ◌++◌, append_assoc, length,
  length-append, ◌≡◌, refl, sym, ap, ◌∙◌, arith,
}
use mini_project_of_linux_pr.Control.{header_bytes, checksum_bytes}
use mini_project_of_linux_pr.Control.Structs.{Stage, in_header, in_payload, in_checksum, Client}
use mini_project_of_linux_pr.Control.Reader.{
  Recv, got, would_block, interrupted, failed, closed, unfinished, complete, corrupt, broken,
  Progress, go_on, returns, on_part, on_recv, Stopped, after_recv, read_stage,
}

-- The answers that hand over these bytes, up to the one that brings the last of them.
pub data Delivers : List ℕ → List Recv → Type 0 where
  last : (s : List ℕ) → Delivers s (got s ∷ [])
  more :
      (bytes s rest : List ℕ) (answers : List Recv)
      → bytes ≡ s ++ rest
      → length s < length bytes
      → Delivers rest answers
      → Delivers bytes (got s ∷ answers)
  wait :
      (bytes : List ℕ) (answers : List Recv)
      → Delivers bytes answers
      → Delivers bytes (would_block ∷ answers)
  retry :
      (bytes : List ℕ) (answers : List Recv)
      → Delivers bytes answers
      → Delivers bytes (interrupted ∷ answers)

abbrev pub resume : Progress × Client → List Recv → (Client → Stopped) → Stopped
resume (go_on, c) answers rest = rest c
resume (returns unfinished, c) answers rest = rest c
resume (returns complete, c) answers rest = (complete, c, answers)
resume (returns corrupt, c) answers rest = (corrupt, c, answers)
resume (returns broken, c) answers rest = (broken, c, answers)

-- `read_stage`, called again as long as it returns 0 and there are answers.
unfoldable pub feed : List Recv → Client → Stopped
feed [] c = (unfinished, c, [])
feed (a ∷ answers) c = resume (on_recv c a) answers (feed answers)

abbrev pub called_again : Stopped → Stopped
called_again (unfinished, c, answers) = feed answers c
called_again (complete, c, answers) = (complete, c, answers)
called_again (corrupt, c, answers) = (corrupt, c, answers)
called_again (broken, c, answers) = (broken, c, answers)

-- How many bytes the current part has.
abbrev pub need : Stage → Client → ℕ
need in_header c = header_bytes
need in_payload c = c.message.header.length
need in_checksum c = checksum_bytes

on_part-short :
    (st : Stage) (c : Client) (p : List ℕ)
    → length p < need st c
    → on_part st c p ≡ (returns unfinished, record c { part = p })
on_part-short in_header c p h = rw (lt→ltb (length p) 24 h) refl
on_part-short in_payload c p h = rw (lt→ltb (length p) c.message.header.length h) refl
on_part-short in_checksum c p h = rw (lt→ltb (length p) 4 h) refl

on_part-part :
    (st : Stage) (c : Client) (p q : List ℕ) → on_part st (record c { part = p }) q ≡ on_part st c q
on_part-part in_header c p q = refl
on_part-part in_payload c p q = refl
on_part-part in_checksum c p q = refl

need-part :
    (st : Stage) (c : Client) (p : List ℕ) {k : ℕ}
    → k ≡ need st c
    → k ≡ need st (record c { part = p })
need-part in_header c p e = e
need-part in_payload c p e = e
need-part in_checksum c p e = e

pub feed-Delivers :
    (st : Stage) (more_answers : List Recv) {bytes : List ℕ} {answers : List Recv}
    → Delivers bytes answers
    → (c : Client) → c.stage ≡ st
    → length c.part + length bytes ≡ need st c
    → feed (answers ++ more_answers) c
      ≡ resume (on_part st c (c.part ++ bytes)) more_answers (feed more_answers)
unfolding feed on_recv
feed-Delivers st ms (last s) c at n =
    ap (λ (t : Stage). resume (on_part t c (c.part ++ s)) ms (feed ms)) at
feed-Delivers st ms (more bytes s rest answers e lt d) c at n =
    let c1 : Client = record c { part = c.part ++ s } in
    let size = ap (length {0}) e in
    let short = on_part-short st c (c.part ++ s) (omega (arith, length-append c.part s, n)) in
    let joined : (c.part ++ s) ++ rest ≡ c.part ++ bytes =
      append_assoc c.part s rest ∙ ap (λ (t : List ℕ). c.part ++ t) (sym e) in
    ap (λ (t : Stage). resume (on_part t c (c.part ++ s)) (answers ++ ms) (feed (answers ++ ms))) at
    ∙ ap (λ (t : Progress × Client). resume t (answers ++ ms) (feed (answers ++ ms))) short
    ∙ feed-Delivers st ms d c1 at (
        need-part st c (c.part ++ s)
          (omega (arith, length-append c.part s, length-append s rest, size, n)))
    ∙ ap (λ (t : Progress × Client). resume t ms (feed ms))
        (on_part-part st c (c.part ++ s) ((c.part ++ s) ++ rest))
    ∙ ap (λ (t : List ℕ). resume (on_part st c t) ms (feed ms)) joined
feed-Delivers st ms (wait bytes answers d) c at n = feed-Delivers st ms d c at n
feed-Delivers st ms (retry bytes answers d) c at n = feed-Delivers st ms d c at n

on_recv-open :
    (c c' : Client) (a : Recv) → on_recv c a ≡ (go_on, c') → c'.pending_close ≡ c.pending_close
unfolding on_recv
on_recv-open c c' (got s) e = on_part-open c.stage c c' (c.part ++ s) e
  where
    on_part-open :
        (st : Stage) (c c' : Client) (p : List ℕ)
        → on_part st c p ≡ (go_on, c')
        → c'.pending_close ≡ c.pending_close
    on_part-open in_header c c' p e = ground arith
    on_part-open in_payload c c' p e = ground arith
    on_part-open in_checksum c c' p e = ground arith
on_recv-open c c' would_block e = cc
on_recv-open c c' interrupted e = ground arith
on_recv-open c c' failed e = cc
on_recv-open c c' closed e = cc

-- While the client is not to be closed, `feed` is `read_stage` called again.
pub read_stage-feed :
    (answers : List Recv) (c : Client)
    → c.pending_close ≡ false
    → feed answers c ≡ called_again (read_stage answers c)
unfolding feed read_stage
read_stage-feed [] c h = rw h refl
read_stage-feed (a ∷ answers) c h =
    after (on_recv c a) (λ c' e. read_stage-feed answers c' (on_recv-open c c' a e ∙ h))
    ∙ ap
        (λ (closing : Bool). called_again (
          if closing
          then (broken, c, a ∷ answers)
          else after_recv (on_recv c a) answers (read_stage answers)))
        (sym h)
  where
    after :
        (r : Progress × Client)
        → ((c' : Client) → r ≡ (go_on, c') → feed answers c' ≡ called_again (read_stage answers c'))
        → resume r answers (feed answers) ≡ called_again (after_recv r answers (read_stage answers))
    after (go_on, c') again = again c' refl
    after (returns unfinished, c') again = refl
    after (returns complete, c') again = refl
    after (returns corrupt, c') again = refl
    after (returns broken, c') again = refl
