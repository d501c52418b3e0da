-- ===== src/Daemon/Threads/Ending.antt =====
-- About the end of the threads (signal-aware-multithreaded-daemon/main.c).
use mini_project_of_linux_pr.Prelude.{
  ℕ, zero, suc, ◌+◌, ◌≤◌, ◌<◌, true, false, List, [], ◌∷◌, some, map, length, length-set, ◌≡◌, refl,
  sym, subst, ◌∙◌, ◌⊎◌, inl, inr, arith,
}
use mini_project_of_linux_pr.Daemon.{DaemonState, dequeueu_work, Config}
use mini_project_of_linux_pr.Daemon.Threads.{
  Place, at_queue, asleep, refused, holding, doing, exited, SigPlace, listening, enqueueing,
  blocked, stopping, waking, ended, Files, worker_turn, World, after_turn, wake, Signalled, nobody,
  one, Step, worker, spurious, receive, block, retry, enqueue, raise, broadcast, Run, here, next,
  starting,
}
use mini_project_of_linux_pr.Daemon.Threads.Counting.{total, total-set, total-wake}
use mini_project_of_linux_pr.Daemon.Threads.Wakeups.{started}
use mini_project_of_linux_pr.Daemon.Threads.Turns.{do_work-keeps, turn-flag}

-- The steps that a worker has left once the flag is set.
abbrev pub rank : Place → ℕ
rank exited = 0
rank refused = 1
rank (holding work) = 1
rank at_queue = 2
rank (doing work) = 3
rank asleep = 3

abbrev pub sig_rank : SigPlace → ℕ
sig_rank waking = 1
sig_rank ended = 0
sig_rank listening = 0
sig_rank (enqueueing work) = 0
sig_rank (blocked work) = 0
sig_rank stopping = 0

-- The flag is set, and the signal thread takes no more signals.
abbrev pub IsLate : SigPlace → Type 0
IsLate waking = Unit
IsLate ended = Unit
IsLate listening = ⊥
IsLate (enqueueing work) = ⊥
IsLate (blocked work) = ⊥
IsLate stopping = ⊥

pub record IsEnding (w : World) : Type 0 where
  pub flag : w.state.shutting_down ≡ true
  pub late : IsLate w.sig

after_turn-late : (q : Place) (s : SigPlace) → IsLate s → after_turn q s ≡ s
after_turn-late at_queue s h = refl
after_turn-late asleep s h = refl
after_turn-late refused s h = refl
after_turn-late (doing work) s h = refl
after_turn-late exited s h = refl
after_turn-late (holding work) waking h = refl
after_turn-late (holding work) ended h = refl
after_turn-late (holding work) listening h = absurd h
after_turn-late (holding work) (enqueueing j) h = absurd h
after_turn-late (holding work) (blocked j) h = absurd h
after_turn-late (holding work) stopping h = absurd h

-- With the flag set a worker that goes on comes closer to its end.
turn-rank :
    (f : Files) (st st' : DaemonState) (p q : Place)
    → st.shutting_down ≡ true
    → worker_turn f st p ≡ some (q, st')
    → (rank q < rank p) × (st'.shutting_down ≡ true)
unfolding worker_turn
turn-rank f st st' asleep q up e = cc
turn-rank f st st' exited q up e = cc
turn-rank f st st' refused q up e = ground arith
turn-rank f st st' (holding work) q up e = ground arith
turn-rank f st st' (doing work) q up e = ground (arith, do_work-keeps f st st' work.type q)
turn-rank f st st' at_queue q up e = unfold dequeueu_work in ground arith

abbrev pub world_rank : World → ℕ
world_rank w = total rank w.workers + sig_rank w.sig

rank-wake : (p : Place) → rank (wake p) ≤ rank p
rank-wake asleep = omega arith
rank-wake at_queue = omega arith
rank-wake refused = omega arith
rank-wake (holding work) = omega arith
rank-wake (doing work) = omega arith
rank-wake exited = omega arith

Step-IsEnding : {w u : World} → Step w u → IsEnding w → IsEnding u × (world_rank u < world_rank w)
Step-IsEnding (worker w f i p q st h e) v =
    let t = turn-rank f w.state st p q v.flag e in
    let same = after_turn-late q w.sig v.late in
    (
      record { flag = t.1; late = subst IsLate (sym same) v.late },
      rw same (omega (arith, total-set rank w.workers i p q h, t.0)),
    )
Step-IsEnding (spurious w i h) v = (
  record { flag = v.flag; late = v.late },
  omega (arith, total-set rank w.workers i asleep at_queue h),
)
Step-IsEnding (receive w n at) v = absurd (subst IsLate at v.late)
Step-IsEnding (block w work at full) v = absurd (subst IsLate at v.late)
Step-IsEnding (retry w work at) v = absurd (subst IsLate at v.late)
Step-IsEnding (enqueue w work d ws at e s) v = absurd (subst IsLate at v.late)
Step-IsEnding (raise w at) v = absurd (subst IsLate at v.late)
Step-IsEnding (broadcast w at) v =
    (record { flag = v.flag; late = tt }, ground (arith, total-wake rank rank w.workers rank-wake))

pub Run-IsEnding :
    {w : World} {k : ℕ} {u : World}
    → Run w k u
    → IsEnding w
    → IsEnding u × (world_rank u + k ≤ world_rank w)
Run-IsEnding here v = (v, omega arith)
Run-IsEnding (next n r s) v =
    let (v1, le) = Run-IsEnding r v in let (v2, lt) = Step-IsEnding s v1 in (v2, omega arith)

-- What a run keeps from its start: the number of workers, and that the flag is set last.
pub record IsStaffed (n : ℕ) (w : World) : Type 0 where
  pub staff : length w.workers ≡ n
  pub last : (w.state.shutting_down ≡ false) ⊎ IsLate w.sig

length-map : (f : Place → Place) (ws : List Place) → length (map f ws) ≡ length ws
length-map f [] = refl
length-map f (p ∷ ws) = omega (arith, length-map f ws)

length-Signalled : {ws us : List Place} → Signalled ws us → length us ≡ length ws
length-Signalled (nobody h) = refl
length-Signalled {ws} (one i h) = length-set ws i at_queue

-- Before its last two steps the signal thread finds the flag down.
earlier :
    (w : World) {s : SigPlace}
    → (w.state.shutting_down ≡ false) ⊎ IsLate w.sig
    → w.sig ≡ s
    → (IsLate s → ⊥)
    → w.state.shutting_down ≡ false
earlier w (inl down) at h = down
earlier w (inr late) at h = absurd (h (subst IsLate at late))

Step-IsStaffed : (n : ℕ) {w u : World} → Step w u → IsStaffed n w → IsStaffed n u
Step-IsStaffed n (worker w f i p q st h e) v = record {
  staff = length-set w.workers i q ∙ v.staff;
  last = elim v.last [
    | inl down ↦ inl (turn-flag f w.state st p q e ∙ down)
    | inr late ↦ inr (subst IsLate (sym (after_turn-late q w.sig late)) late)
  ];
}
Step-IsStaffed n (spurious w i h) v = record {
  staff = length-set w.workers i at_queue ∙ v.staff;
  last = v.last;
}
Step-IsStaffed n (receive w m at) v = record {
  staff = v.staff;
  last = inl (earlier w v.last at (λ x. x));
}
Step-IsStaffed n (block w work at full) v = record {
  staff = v.staff;
  last = inl (earlier w v.last at (λ x. x));
}
Step-IsStaffed n (retry w work at) v = record {
  staff = v.staff;
  last = inl (earlier w v.last at (λ x. x));
}
Step-IsStaffed n (enqueue w work d ws at e s) v = record {
  staff = length-Signalled s ∙ v.staff;
  last = inl (earlier w v.last at (λ x. x));
}
Step-IsStaffed n (raise w at) v = record { staff = v.staff; last = inr tt }
Step-IsStaffed n (broadcast w at) v = record {
  staff = length-map wake w.workers ∙ v.staff;
  last = inr tt;
}

starting-length : (n : ℕ) → length (starting n) ≡ n
starting-length zero = refl
starting-length (suc n) = omega (arith, starting-length n)

pub Run-IsStaffed :
    (n : ℕ) (config : Config) (k : ℕ) {w : World} → Run (started n config) k w → IsStaffed n w
Run-IsStaffed n config k here = record { staff = starting-length n; last = inl refl }
Run-IsStaffed n config k (next m r s) = Step-IsStaffed n s (Run-IsStaffed n config m r)
