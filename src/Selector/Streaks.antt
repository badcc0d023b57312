-- ===== src/Selector/Streaks.antt =====
-- What the hysteresis of `Evaluate` (src/collect/target_selector.cpp) asks of a process before it
-- leaves or joins, and how many processes join.
use e_trace_diag.Prelude.{
  ℕ, zero, suc, ◌+◌, ◌≤◌, ◌≡◌, ◌⊎◌, inl, inr, Bool, true, false, List, [], ◌∷◌, arith, ltb, leb,
  refl, Bool-cases, All, take, length, u32, seconds_ns, sub64, subst, ap, ◌∙◌,
}
use e_trace_diag.Config.{TargetsTunables}
use e_trace_diag.Selector.Maps.{adjust}
use e_trace_diag.Selector.Hysteresis.{
  ProcState, streak, note_rank, leaves, joins, joined, count_members, join_all,
}

-- The streak of a test over ranks, the latest first.
abbrev pub streak_of : (ℕ → Bool) → List ℕ → ℕ
streak_of test [] = 0
streak_of test (r ∷ rs) = streak (test r) (streak_of test rs)

-- The test holds of the latest ranks, as many as the streak counts.
streak_holds :
    (test : ℕ → Bool) (n : ℕ) (rs : List ℕ)
    → n ≤ streak_of test rs
    → (length (take n rs) ≡ n) × All (λ r. test r ≡ true) (take n rs)
streak_holds test zero rs h = (refl, tt)
streak_holds test (suc n) [] h = absurd (omega (arith, h))
streak_holds test (suc n) (r ∷ rs) h = elim (Bool-cases (test r)) [
  | inl e ↦
      let h1 : suc n ≤ u32 (streak_of test rs + 1) =
        subst (λ b. suc n ≤ streak b (streak_of test rs)) e h in
      let (a, b) = streak_holds test n rs (omega (arith, h1)) in (omega (arith, a), (e, b))
  | inr e ↦
      let h1 : suc n ≤ 0 = subst (λ b. suc n ≤ streak b (streak_of test rs)) e h in
      absurd (omega (arith, h1))
]

module _ {Double : Type 0} (t : TargetsTunables Double) where
  -- A process after evaluations that gave it these ranks, the latest first.
  abbrev pub noted : List ℕ → ProcState → ProcState
  noted [] st = st
  noted (r ∷ rs) st = note_rank t r (noted rs st)

  note_rank-member :
      (r : ℕ) (st : ProcState)
      → st.pinned_proc ≡ false
      → st.member ≡ true
      → note_rank t r st ≡ record st { bad_streak = streak (ltb t.leave_rank r) st.bad_streak }
  unfolding note_rank
  note_rank-member r st p m = rw (p, m) refl

  note_rank-candidate :
      (r : ℕ) (st : ProcState)
      → st.pinned_proc ≡ false
      → st.member ≡ false
      → note_rank t r st ≡ record st { good_streak = streak (leb r t.enter_rank) st.good_streak }
  unfolding note_rank
  note_rank-candidate r st p m = rw (p, m) refl

  noted-member :
      (rs : List ℕ) (st : ProcState)
      → st.pinned_proc ≡ false
      → st.member ≡ true
      → st.bad_streak ≡ 0
      → noted rs st ≡ record st { bad_streak = streak_of (ltb t.leave_rank) rs }
  noted-member [] st p m b = ap (λ n. record st { bad_streak = n }) b
  noted-member (r ∷ rs) st p m b =
      ap (note_rank t r) (noted-member rs st p m b)
      ∙ note_rank-member r (record st { bad_streak = streak_of (ltb t.leave_rank) rs }) p m

  noted-candidate :
      (rs : List ℕ) (st : ProcState)
      → st.pinned_proc ≡ false
      → st.member ≡ false
      → st.good_streak ≡ 0
      → noted rs st ≡ record st { good_streak = streak_of (λ r. leb r t.enter_rank) rs }
  noted-candidate [] st p m b = ap (λ n. record st { good_streak = n }) b
  noted-candidate (r ∷ rs) st p m b =
      ap (note_rank t r) (noted-candidate rs st p m b)
      ∙ note_rank-candidate r (record st { good_streak = streak_of (λ r. leb r t.enter_rank) rs }) p
          m

  leaves_cases :
      (now_ns : ℕ) (st : ProcState)
      → leaves t now_ns st ≡ true
      → (t.hold_periods ≤ st.bad_streak)
        × (seconds_ns t.min_residency_seconds ≤ sub64 now_ns st.joined_ns)
  unfolding leaves
  leaves_cases now_ns st h = ground arith

  joins_cases : (st : ProcState) → joins t st ≡ true → t.hold_periods ≤ st.good_streak
  unfolding joins
  joins_cases st h = ground arith

  -- A member that is not pinned and starts without a bad streak leaves only when each of its last
  -- `hold_periods` evaluations gave it a rank beyond `leave_rank` and it has been a member for
  -- `min_residency_seconds`.
  pub leaves_lem :
      (now_ns : ℕ) (rs : List ℕ) (st : ProcState)
      → st.pinned_proc ≡ false
      → st.member ≡ true
      → st.bad_streak ≡ 0
      → leaves t now_ns (noted rs st) ≡ true
      → (length (take t.hold_periods rs) ≡ t.hold_periods)
        × All (λ r. ltb t.leave_rank r ≡ true) (take t.hold_periods rs)
        × (seconds_ns t.min_residency_seconds ≤ sub64 now_ns st.joined_ns)
  leaves_lem now_ns rs st p m b h =
      let (long, old) =
        leaves_cases now_ns (record st { bad_streak = streak_of (ltb t.leave_rank) rs })
          (subst (λ s. leaves t now_ns s ≡ true) (noted-member rs st p m b) h) in
      let (count, all) = streak_holds (ltb t.leave_rank) t.hold_periods rs long in (count, all, old)

  -- A process that is no member and starts without a good streak joins only when each of its last
  -- `hold_periods` evaluations gave it a rank within `enter_rank`.
  joins_lem :
      (rs : List ℕ) (st : ProcState)
      → st.pinned_proc ≡ false
      → st.member ≡ false
      → st.good_streak ≡ 0
      → joins t (noted rs st) ≡ true
      → (length (take t.hold_periods rs) ≡ t.hold_periods)
        × All (λ r. leb r t.enter_rank ≡ true) (take t.hold_periods rs)
  joins_lem rs st p m b h =
      streak_holds (λ r. leb r t.enter_rank) t.hold_periods rs
        (joins_cases (record st { good_streak = streak_of (λ r. leb r t.enter_rank) rs })
          (subst (λ s. joins t s ≡ true) (noted-candidate rs st p m b) h))

count_adjust :
    (k : ℕ) (g : ProcState → ProcState) (m : List (ℕ × ProcState))
    → count_members (adjust k g m) ≤ suc (count_members m)
unfolding adjust count_members
count_adjust k g [] = omega arith
count_adjust k g ((j, st) ∷ m) = ground (arith, count_adjust k g m)

-- Joining stops at the process budget: there are no more members than before, or than the budget.
pub join_all-count :
    (budget now_ns n : ℕ) (tgids : List ℕ) (m : List (ℕ × ProcState))
    → count_members m ≤ n
    → (count_members (join_all budget now_ns n tgids m) ≤ n)
      ⊎ (count_members (join_all budget now_ns n tgids m) ≤ budget)
unfolding join_all
join_all-count budget now_ns n [] m h = inl h
join_all-count budget now_ns n (tgid ∷ tgids) m h = ground (
  arith,
  count_adjust tgid (joined now_ns) m,
  join_all-count budget now_ns (suc n) tgids (adjust tgid (joined now_ns) m),
)
