-- ===== src/Control/Sessions/Resumes.antt =====
-- About `session_lookup_or_create` (unix-domain-socket-control-plane/gatewayd/server.h).
use mini_project_of_linux_pr.Prelude.{
  ℕ, ◌+◌, ◌≢◌, get_elem?-set_ne, get_elem?-set_self, zero, suc, ◌≤◌, ◌<◌, Bool, true, false,
  if◌then◌else◌, Option, none, some, List, [], ◌∷◌, get_elem?, set, take, length, ◌≡◌, refl, sym,
  ap, subst, ◌∙◌, arith,
}
use mini_project_of_linux_pr.Prelude.Text.{same_text, same_text_refl}
use mini_project_of_linux_pr.Control.{session_token_len}
use mini_project_of_linux_pr.Control.Structs.{Session, SessionTable}
use mini_project_of_linux_pr.Control.Sessions.{
  Search, resumed, vacant, no_slot, later, or_here, search_token, seen_again, fresh, next_id,
  granted, session_lookup_or_create,
}

-- A session of the token, in use.
record Has (token : List ℕ) (s : Session) : Type 0 where
  used : s.in_use ≡ true
  named : same_text token s.token ≡ true

-- The session that a search or its slot gives, once it is written back.
abbrev LandsAt : ℕ → Search → Type 0
LandsAt i (resumed j s) = i ≡ j
LandsAt i (vacant j) = i ≡ j
LandsAt i no_slot = ⊥

-- What a slot makes of the search behind it.
abbrev step : Bool → Bool → Session → Search → Search
step used same x rest = if used then if same then resumed 0 x else later rest else or_here rest

lands_behind :
    (i : ℕ) (u m : Bool) (x : Session) (r : Search)
    → LandsAt (suc i) (step u m x r)
    → LandsAt i r × ((t : Session) → step u m x (resumed i t) ≡ resumed (suc i) t)
lands_behind i true true x r h = absurd (omega arith)
lands_behind i true false x (resumed j t) h = (omega arith, λ t. refl)
lands_behind i true false x (vacant j) h = (omega arith, λ t. refl)
lands_behind i true false x no_slot h = absurd h
lands_behind i false m x (resumed j t) h = (omega arith, λ t. refl)
lands_behind i false m x (vacant j) h = absurd (omega arith)
lands_behind i false m x no_slot h = absurd (omega arith)

search_token-set :
    (token : List ℕ) (s : Session)
    → Has token s
    → (ss : List Session) (i : ℕ) → LandsAt i (search_token token ss)
    → (search_token token (set ss i s) ≡ resumed i s) × (get_elem? (set ss i s) i ≡ some s)
unfolding search_token
search_token-set token s h [] i at = absurd at
search_token-set token s h (x ∷ ss) zero at = (
  ap (λ (u : Bool). step u (same_text token s.token) s (search_token token ss)) h.used
      ∙ ap (λ (m : Bool). step true m s (search_token token ss)) h.named,
  refl,
)
search_token-set token s h (x ∷ ss) (suc i) at =
    let (behind, found) =
      lands_behind i x.in_use (same_text token x.token) x (search_token token ss) at in
    let (rest, there) = search_token-set token s h ss i behind in
    (ap (λ (r : Search). step x.in_use (same_text token x.token) x r) rest ∙ found s, there)

-- A session that a search returns is one of the token, in use.
resumed-Has :
    (token : List ℕ) (ss : List Session) (i : ℕ) (s : Session)
    → search_token token ss ≡ resumed i s
    → Has token s
unfolding search_token
resumed-Has token [] i s e = cc
resumed-Has token (x ∷ ss) i s e =
    by_cases x.in_use (same_text token x.token) (search_token token ss) refl refl
      (λ j. resumed-Has token ss j s) e
  where
    by_cases :
        (u m : Bool) (r : Search)
        → x.in_use ≡ u
        → same_text token x.token ≡ m
        → ((j : ℕ) → r ≡ resumed j s → Has token s)
        → step u m x r ≡ resumed i s
        → Has token s
    by_cases true true r used named ih e =
        let same : x ≡ s = cc in subst (Has token) same (record { used = used; named = named })
    by_cases true false (resumed j t) used named ih e =
        ih j (ap (λ (y : Session). resumed j y) (cc))
    by_cases true false (vacant j) used named ih e = cc
    by_cases true false no_slot used named ih e = cc
    by_cases false m (resumed j t) used named ih e = ih j (ap (λ (y : Session). resumed j y) (cc))
    by_cases false m (vacant j) used named ih e = cc
    by_cases false m no_slot used named ih e = cc

take-short : (n : ℕ) (s : List ℕ) → length s ≤ n → take n s ≡ s
take-short zero [] h = refl
take-short zero (b ∷ s) h = absurd (omega arith)
take-short (suc n) [] h = refl
take-short (suc n) (b ∷ s) h = ap (λ t. b ∷ t) (take-short n s (omega arith))

abbrev written : Option (ℕ × Bool × SessionTable) → List Session
written none = []
written (some (i, was, t)) = t.sessions

resumes_lem :
    (token : List ℕ) (now now' i : ℕ) (was : Bool) (t t1 : SessionTable)
    → length token < session_token_len
    → session_lookup_or_create token now t ≡ some (i, was, t1)
    → (s : Session) × (get_elem? t1.sessions i ≡ some s)
      × (session_lookup_or_create token now' t1
          ≡ some (i, true, record t1 { sessions = set t1.sessions i (seen_again now' s) }))
unfolding session_lookup_or_create
resumes_lem token now now' i was t t1 short e = by_search (search_token token t.sessions) refl e
  where
    again :
        (s : Session)
        → Has token s
        → (u : SessionTable) → LandsAt i (search_token token t.sessions)
        → u.sessions ≡ set t.sessions i s
        → (s : Session) × (get_elem? u.sessions i ≡ some s)
          × (granted token now' u (search_token token u.sessions)
              ≡ some (i, true, record u { sessions = set u.sessions i (seen_again now' s) }))
    again s h u at e =
        let (found, there) = search_token-set token s h t.sessions i at in
        (
          s,
          ap (λ (ss : List Session). get_elem? ss i) e ∙ there,
          ap (λ (r : Search). granted token now' u r) (ap (search_token token) e ∙ found),
        )

    by_search :
        (r : Search)
        → search_token token t.sessions ≡ r
        → granted token now t r ≡ some (i, was, t1)
        → (s : Session) × (get_elem? t1.sessions i ≡ some s)
          × (granted token now' t1 (search_token token t1.sessions)
              ≡ some (i, true, record t1 { sessions = set t1.sessions i (seen_again now' s) }))
    by_search (resumed j s) at e =
        let h = resumed-Has token t.sessions j s at in
        let same : j ≡ i = cc in
        again (seen_again now s) (record { used = h.used; named = h.named }) t1
          (subst (LandsAt i) (sym at) (sym same))
          (sym (ap written e) ∙ ap (λ (k : ℕ). set t.sessions k (seen_again now s)) same)
    by_search (vacant j) at e =
        let same : j ≡ i = cc in
        again (fresh token now (next_id t))
          (record {
            used = refl;
            named = ap (same_text token) (take-short 63 token (omega arith)) ∙ same_text_refl token;
          })
          t1 (subst (LandsAt i) (sym at) (sym same))
          (sym (ap written e) ∙ ap (λ (k : ℕ). set t.sessions k (fresh token now (next_id t))) same)
    by_search no_slot at e = cc

-- The session of the same client, one connection later.
pub record OneMore (now : ℕ) (s s' : Session) : Type 0 where
  pub in_use : s'.in_use ≡ s.in_use
  pub token : s'.token ≡ s.token
  pub client_id : s'.client_id ≡ s.client_id
  pub packets_in_total : s'.packets_in_total ≡ s.packets_in_total
  pub packets_out_total : s'.packets_out_total ≡ s.packets_out_total
  pub first_seen_ms : s'.first_seen_ms ≡ s.first_seen_ms
  pub last_seen_ms : s'.last_seen_ms ≡ now
  pub reconnect_count : s'.reconnect_count ≡ s.reconnect_count + 1

-- When a client has identified itself by a token of at most 63 bytes and was given the slot `i`, the
-- next client with the same token is given the same slot, as resumed: the session there keeps its
-- number, its token, its counts of packets and its first time, was seen last at the new time, and
-- counts one more connection; the other sessions and the next number are as they were.
pub session_resumes :
    (token : List ℕ) (now now' i j : ℕ) (was : Bool) (t t1 : SessionTable)
    → length token < session_token_len
    → session_lookup_or_create token now t ≡ some (i, was, t1)
    → i ≢ j
    → (s : Session) × (s' : Session) × (t2 : SessionTable) × (get_elem? t1.sessions i ≡ some s)
      × (session_lookup_or_create token now' t1 ≡ some (i, true, t2))
      × (get_elem? t2.sessions i ≡ some s')
      × OneMore now' s s'
      × (get_elem? t2.sessions j ≡ get_elem? t1.sessions j)
      × (t2.next_persistent_id ≡ t1.next_persistent_id)
session_resumes token now now' i j was t t1 short e ne =
    let (s, there, again) = resumes_lem token now now' i was t t1 short e in
    let s' : Session = seen_again now' s in
    (
      s,
      s',
      record t1 { sessions = set t1.sessions i s' },
      there,
      again,
      get_elem?-set_self t1.sessions i s' s there,
      record {
        in_use = refl;
        token = refl;
        client_id = refl;
        packets_in_total = refl;
        packets_out_total = refl;
        first_seen_ms = refl;
        last_seen_ms = refl;
        reconnect_count = refl;
      },
      get_elem?-set_ne t1.sessions i j s' ne,
      refl,
    )
