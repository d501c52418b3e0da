-- ===== src/Control/Sessions.antt =====
-- unix-domain-socket-control-plane/gatewayd/server.h: the table of sessions. Its lock makes a lookup
-- one step; `now` is the clock.
pub mod Resumes
use mini_project_of_linux_pr.Prelude.{
  ℕ, suc, ◌+◌, ◌-◌, ◌%◌, ◌^◌, Bool, true, false, if◌then◌else◌, Option, none, some, List, [], ◌∷◌,
  set, take,
}
use mini_project_of_linux_pr.Prelude.Text.{same_text}
use mini_project_of_linux_pr.Control.{session_token_len}
use mini_project_of_linux_pr.Control.Structs.{Session, SessionTable}

-- What the loop finds: the session of the token, or else the first slot that is not in use.
pub data Search : Type 0 where
  resumed : ℕ → Session → Search
  vacant : ℕ → Search
  no_slot : Search

abbrev pub later : Search → Search
later (resumed i s) = resumed (suc i) s
later (vacant i) = vacant (suc i)
later no_slot = no_slot

abbrev pub or_here : Search → Search
or_here (resumed i s) = resumed (suc i) s
or_here (vacant i) = vacant 0
or_here no_slot = vacant 0

unfoldable pub search_token : List ℕ → List Session → Search
search_token token [] = no_slot
search_token token (s ∷ ss) =
    let rest = search_token token ss in
    if s.in_use then if same_text token s.token then resumed 0 s else later rest else or_here rest

abbrev pub seen_again : ℕ → Session → Session
seen_again now s = record s { last_seen_ms = now; reconnect_count = s.reconnect_count + 1 }

abbrev pub fresh : List ℕ → ℕ → ℕ → Session
fresh token now id = record {
  in_use = true;
  token = take (session_token_len - 1) token;
  client_id = id;
  packets_in_total = 0;
  packets_out_total = 0;
  first_seen_ms = now;
  last_seen_ms = now;
  reconnect_count = 1;
}

-- `++table->next_persistent_id`, a 64-bit word.
abbrev pub next_id : SessionTable → ℕ
next_id t = (t.next_persistent_id + 1) % 2 ^ 64

abbrev pub granted : List ℕ → ℕ → SessionTable → Search → Option (ℕ × Bool × SessionTable)
granted token now t (resumed i s) =
    some (i, true, record t { sessions = set t.sessions i (seen_again now s) })
granted token now t (vacant i) = some (
  i,
  false,
  record {
    sessions = set t.sessions i (fresh token now (next_id t));
    next_persistent_id = next_id t;
  },
)
granted token now t no_slot = none

-- The index of the session and whether it was there; `none` when the table is full.
unfoldable pub session_lookup_or_create :
    List ℕ → ℕ → SessionTable → Option (ℕ × Bool × SessionTable)
unfolding search_token
session_lookup_or_create token now t = granted token now t (search_token token t.sessions)
