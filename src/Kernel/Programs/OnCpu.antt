-- ===== src/Kernel/Programs/OnCpu.antt =====
-- The on-CPU time that `on_switch` of bpf/etrace.bpf.c attributes over a run of switches.
use e_trace_diag.Prelude.{
  ℕ, ◌+◌, ◌-◌, ◌^◌, ◌<◌, ◌≡◌, refl, ap, ap₂, subst, ◌∙◌, arith, true, false, not, ◌&&◌, List, [],
  ◌∷◌, some, ◌==◌, if◌then◌else◌, u64, Bool-cases, inl, inr, if_cases, ==_iff,
}
use e_trace_diag.Kernel.Programs.Tables.{lookup, value_or, lookup-count_at, lookup-count_at_other}
use e_trace_diag.Kernel.Programs.State.{Cpu}
use e_trace_diag.Kernel.Programs.Sched.{may_attribute, attribute, on_switch}
use e_trace_diag.Kernel.Programs.SchedKeeps.{on_switch_keeps}

-- One call of `on_switch`.
pub record Switch : Type 0 where
  pub now : ℕ
  pub prev_pid : ℕ
  pub prev_state : ℕ
  pub next_pid : ℕ

abbrev pub run_switches : List Switch → Cpu → Cpu
run_switches [] s = s
run_switches (e ∷ es) s = run_switches es (on_switch e.now e.prev_pid e.prev_state e.next_pid s)

-- The time that `tid` runs until the last switch, where `cur` runs since `last`. A switch at time 0
-- counts as none.
abbrev pub time_on_cpu : ℕ → ℕ → ℕ → List Switch → ℕ
time_on_cpu tid cur last [] = 0
time_on_cpu tid cur last (e ∷ es) =
    (if cur == tid && not (last == 0) then e.now - last else 0)
    + time_on_cpu tid e.next_pid e.now es

-- What the first section adds to the time of the thread that ran.
abbrev added : ℕ → Cpu → ℕ
added now s = if not (s.last_run_ts == 0) then now - s.last_run_ts else 0

attribute-other :
    (tid now : ℕ) (s : Cpu)
    → (s.cur_tid == tid) ≡ false
    → lookup (attribute now s).on_cpu_ns tid ≡ lookup s.on_cpu_ns tid
unfolding attribute
attribute-other tid now s e =
    if_cases (λ (a : Cpu). lookup a.on_cpu_ns tid ≡ lookup s.on_cpu_ns tid) (may_attribute now s)
      (λ f.
        lookup-count_at_other s.on_cpu_ns s.cur_tid tid 0 (λ v. u64 (v + (now - s.last_run_ts))) e)
      (λ f. refl)

nothing : (v n : ℕ) → v < 2 ^ 64 → n ≡ 0 → v ≡ u64 (v + n)
nothing v n h e = omega (arith, h, e)

attribute-cur :
    (now v : ℕ) (s : Cpu)
    → (s.cur_tid == 0) ≡ false
    → s.targets s.cur_tid ≡ true
    → v < 2 ^ 64
    → lookup s.on_cpu_ns s.cur_tid ≡ some v
    → lookup (attribute now s).on_cpu_ns s.cur_tid ≡ some (u64 (v + added now s))
unfolding attribute lookup
attribute-cur now v s pos target small h =
    if_cases (λ (a : Cpu). lookup a.on_cpu_ns s.cur_tid ≡ some (u64 (v + added now s)))
      (may_attribute now s)
      (λ f.
        lookup-count_at s.on_cpu_ns s.cur_tid 0 (λ n. u64 (n + (now - s.last_run_ts)))
          (λ e. ground (arith, h, e))
        ∙ ap (λ o. some (u64 (value_or 0 o + (now - s.last_run_ts)))) h
        ∙ ground (arith, f))
      (λ f. h ∙ ap some (nothing v (added now s) small (ground (arith, f, pos, target))))

attribute-targets : (now : ℕ) (s : Cpu) → (attribute now s).targets ≡ s.targets
unfolding attribute
attribute-targets now s =
    if_cases (λ (a : Cpu). a.targets ≡ s.targets) (may_attribute now s) (λ e. refl) (λ e. refl)

attribute-on_cpu :
    (tid now v : ℕ) (s : Cpu)
    → (tid == 0) ≡ false
    → s.targets tid ≡ true
    → v < 2 ^ 64
    → lookup s.on_cpu_ns tid ≡ some v
    → lookup (attribute now s).on_cpu_ns tid
      ≡ some (
          u64
            (v + (if s.cur_tid == tid && not (s.last_run_ts == 0) then now - s.last_run_ts else 0)))
attribute-on_cpu tid now v s pos target small h = elim (Bool-cases (s.cur_tid == tid)) [
  | inl e ↦ rw e (
      subst
        (λ k.
          (k == 0) ≡ false
          → s.targets k ≡ true
          → lookup s.on_cpu_ns k ≡ some v
          → lookup (attribute now s).on_cpu_ns k ≡ some (u64 (v + added now s)))
        ((==_iff s.cur_tid tid).0 e) (λ p t l. attribute-cur now v s p t small l) pos target h)
  | inr e ↦ rw e (attribute-other tid now s e ∙ h ∙ ap some (nothing v 0 small refl))
]

sum_wraps : (v a b : ℕ) → u64 (u64 (v + a) + b) ≡ u64 (v + (a + b))
sum_wraps v a b = omega arith

wraps : (n : ℕ) → u64 n < 2 ^ 64
wraps n = omega arith

-- Let user space have made `tid`, which is not 0, a target, with a counter that stands at `v` on a
-- processor. After any calls of `on_switch` on that processor, at any times and also where other
-- threads find their maps full, the counter stands at `v` and the time in which `tid` ran, up to the
-- last switch, modulo 2 ^ 64: for each switch to `tid` the time until the next switch, and the time
-- from the last switch before the first call, if `tid` was running then.
pub run_switches-on_cpu :
    (tid v : ℕ) (es : List Switch) (s : Cpu)
    → (tid == 0) ≡ false
    → s.targets tid ≡ true
    → v < 2 ^ 64
    → lookup s.on_cpu_ns tid ≡ some v
    → lookup (run_switches es s).on_cpu_ns tid
      ≡ some (u64 (v + time_on_cpu tid s.cur_tid s.last_run_ts es))
run_switches-on_cpu tid v [] s pos target small h = h ∙ ap some (nothing v 0 small refl)
run_switches-on_cpu tid v (e ∷ es) s pos target small h =
    let after = on_switch e.now e.prev_pid e.prev_state e.next_pid s in
    let same = on_switch_keeps e.now e.prev_pid e.prev_state e.next_pid s in
    run_switches-on_cpu tid (u64 (v + ran)) es after pos
      (ap (λ f. f tid) (same.targets ∙ attribute-targets e.now s) ∙ target) (wraps (v + ran))
      (ap (λ t. lookup t tid) same.on_cpu ∙ attribute-on_cpu tid e.now v s pos target small h)
    ∙ ap₂ (λ cur last. some (u64 (u64 (v + ran) + time_on_cpu tid cur last es))) same.tid same.last
    ∙ ap some (sum_wraps v ran (time_on_cpu tid e.next_pid e.now es))
  where
    ran : ℕ
    ran = if s.cur_tid == tid && not (s.last_run_ts == 0) then e.now - s.last_run_ts else 0
