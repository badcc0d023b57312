-- ===== src/Selector/Hysteresis.antt =====
-- Steps 6 to 8 of `Evaluate` (src/collect/target_selector.cpp): which processes are members.
use e_trace_diag.Prelude.{
  ℕ, suc, ◌+◌, ◌/◌, Bool, true, false, not, ◌&&◌, ◌||◌, List, [], ◌∷◌, leb, ltb, if◌then◌else◌, u32,
  sub64, seconds_ns,
}
use e_trace_diag.Config.{TargetsTunables}
use e_trace_diag.Selector.Maps.{adjust, find_or, has, keys, store}
use e_trace_diag.Selector.Budget.{or_default}

pub record ProcState : Type 0 where
  pub tgid : ℕ
  pub member : Bool
  pub pinned_proc : Bool
  pub good_streak : ℕ
  pub bad_streak : ℕ
  pub joined_ns : ℕ

-- Step 6.
abbrev pub fresh : ℕ → ProcState
fresh tgid = record {
  tgid = tgid;
  member = false;
  pinned_proc = false;
  good_streak = 0;
  bad_streak = 0;
  joined_ns = 0;
}

unfoldable pub ensure_states : List ℕ → List (ℕ × ProcState) → List (ℕ × ProcState)
unfolding store
ensure_states [] m = m
ensure_states (tgid ∷ tgids) m =
    ensure_states tgids (if has tgid (keys m) then m else store tgid (fresh tgid) m)

-- The streak of ranks for which a test holds: one more, or none.
abbrev pub streak : Bool → ℕ → ℕ
streak holds n = if holds then u32 (n + 1) else 0

module _ {Double : Type 0} (t : TargetsTunables Double) where
  -- What a rank does to the streaks of a process.
  unfoldable pub note_rank : ℕ → ProcState → ProcState
  note_rank r st =
      if st.pinned_proc
      then st
      else if st.member
      then record st { bad_streak = streak (ltb t.leave_rank r) st.bad_streak }
      else record st { good_streak = streak (leb r t.enter_rank) st.good_streak }

  -- Who stands in `leave_list` and in `join_list`, by the state after `note_rank`.
  unfoldable pub leaves : ℕ → ProcState → Bool
  leaves now_ns st =
      not st.pinned_proc
      && st.member
      && leb t.hold_periods st.bad_streak
      && leb (seconds_ns t.min_residency_seconds) (sub64 now_ns st.joined_ns)

  unfoldable pub joins : ProcState → Bool
  joins st = not st.pinned_proc && not st.member && leb t.hold_periods st.good_streak

  -- Step 7, where a process without a rank has the last one.
  unfoldable pub note_ranks : List (ℕ × ℕ) → List (ℕ × ProcState) → List (ℕ × ProcState)
  unfolding note_rank find_or
  note_ranks rank [] = []
  note_ranks rank ((tgid, st) ∷ m) =
      (tgid, note_rank (find_or 4294967295 tgid rank) st) ∷ note_ranks rank m

  unfoldable pub leave_list : ℕ → List (ℕ × ProcState) → List ℕ
  unfolding leaves
  leave_list now_ns [] = []
  leave_list now_ns ((tgid, st) ∷ m) =
      if leaves now_ns st then tgid ∷ leave_list now_ns m else leave_list now_ns m

  unfoldable pub join_list : List (ℕ × ProcState) → List ℕ
  unfolding joins
  join_list [] = []
  join_list ((tgid, st) ∷ m) = if joins st then tgid ∷ join_list m else join_list m

  -- Step 8: `proc_budget`.
  unfoldable pub process_budget : ℕ → ℕ
  process_budget thread_budget =
      let b = thread_budget / or_default t.per_proc_threads 1 in if ltb b 1 then 1 else b

abbrev pub left : ProcState → ProcState
left st = record st { member = false; bad_streak = 0 }

unfoldable pub leave_all : List ℕ → List (ℕ × ProcState) → List (ℕ × ProcState)
unfolding adjust
leave_all [] m = m
leave_all (tgid ∷ tgids) m = leave_all tgids (adjust tgid left m)

-- `member_proc`. Process ids are distinct 32-bit numbers, so the count does not wrap.
unfoldable pub count_members : List (ℕ × ProcState) → ℕ
count_members [] = 0
count_members ((tgid, st) ∷ m) =
    if st.member || st.pinned_proc then suc (count_members m) else count_members m

abbrev pub joined : ℕ → ProcState → ProcState
joined now_ns st = record st { member = true; good_streak = 0; joined_ns = now_ns }

-- The loop over `join_list`, which stops at the budget.
unfoldable pub join_all : ℕ → ℕ → ℕ → List ℕ → List (ℕ × ProcState) → List (ℕ × ProcState)
unfolding adjust
join_all budget now_ns member_proc [] m = m
join_all budget now_ns member_proc (tgid ∷ tgids) m =
    let rest = join_all budget now_ns (suc member_proc) tgids (adjust tgid (joined now_ns) m) in
    if leb budget member_proc then m else rest
