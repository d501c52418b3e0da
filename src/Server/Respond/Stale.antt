-- ===== src/Server/Respond/Stale.antt =====
-- About `handle_response_to_client` (gateway/src/server.c) and earlier connections of a slot.
use mini_project_of_linux_pr.Prelude.{
  ℕ, suc, ◌+◌, ◌%◌, ◌^◌, ◌<◌, false, some, ℤ, pos, get_elem?, ◌≡◌, ◌∙◌, arith, ==_ne,
}
use mini_project_of_linux_pr.Types.{Response}
use mini_project_of_linux_pr.Client.{Client, occupy, vacate, check_response_message}
use mini_project_of_linux_pr.Server.{Server}
use mini_project_of_linux_pr.Server.Respond.{Memory, deliver_slot, deliver}

module _ {R : Type 0} where
  -- What happens to one slot over time: connections come and go, and what a connection does keeps
  -- its generation. The number counts the connections accepted on the way.
  pub data History (c : Client R) : ℕ → Client R → Type 0 where
    start : History c 0 c
    accept :
        {n : ℕ} {d : Client R} (fd : ℤ) (addr now : ℕ) (rate : R)
        → History c n d
        → History c (suc n) (occupy d fd addr now rate)
    close : {n : ℕ} {d : Client R} → History c n d → History c n (vacate d)
    serve :
        {n : ℕ} {d : Client R} (d' : Client R)
        → d'.generation ≡ d.generation
        → History c n d
        → History c n d'

  generation-History :
      {c d : Client R} (n : ℕ)
      → History c n d
      → c.generation < 2 ^ 64
      → d.generation ≡ (c.generation + n) % 2 ^ 64
  generation-History n start h = omega arith
  generation-History _ (accept {n} fd addr now rate y) h = omega (arith, generation-History n y h)
  generation-History n (close y) h = generation-History n y h
  generation-History n (serve d' e y) h = e ∙ generation-History n y h

  unchanged_of_mismatch :
      (sv : Server R) (slot : ℕ) (rp : Response) (memory : Memory) (c : Client R)
      → get_elem? sv.clients slot ≡ some c
      → check_response_message rp c ≡ false
      → deliver_slot sv slot rp memory ≡ some sv
  unfolding deliver_slot
  unchanged_of_mismatch sv slot rp (buffer, p) c e m = ground (arith, e, m)

  pub deliver-pos :
      (sv : Server R) (slot : ℕ) (rp : Response) (memory : Memory)
      → rp.slot ≡ pos slot
      → deliver sv rp memory ≡ deliver_slot sv slot rp memory
  unfolding deliver
  deliver-pos sv slot rp memory e = ground (arith, e)

  -- A response to a request of an earlier connection of its slot changes nothing, unless 2^64
  -- connections came in between.
  pub stale_response_dropped :
      (sv : Server R) (slot : ℕ) (rp : Response) (memory : Memory) (c d : Client R) (n : ℕ)
      → History c n d
      → 0 < n
      → n < 2 ^ 64
      → c.generation < 2 ^ 64
      → rp.slot ≡ pos slot
      → rp.generation ≡ c.generation
      → get_elem? sv.clients slot ≡ some d
      → deliver sv rp memory ≡ some sv
  unfolding check_response_message
  stale_response_dropped sv slot rp memory c d n y lo hi small es eg there =
      deliver-pos sv slot rp memory es
      ∙ unchanged_of_mismatch sv slot rp memory d there (
          ==_ne d.generation rp.generation
            (λ e. omega (arith, generation-History n y small, e, eg)))
