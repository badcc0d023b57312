-- ===== src/Kernel/Programs/SchedKeeps.antt =====
-- The on-CPU time that the scheduler's programs of bpf/etrace.bpf.c attribute.
use e_trace_diag.Prelude.{
  ℕ, ◌≡◌, refl, ◌∙◌, not, ◌&&◌, Option, some, none, ◌==◌, Option-cases, inl, inr, if_cases,
}
use e_trace_diag.Kernel.Programs.Tables.{lookup}
use e_trace_diag.Kernel.Programs.State.{Cpu, deep_mode}
use e_trace_diag.Kernel.Programs.Sched.{
  attribute, count_switch, is_due, stash_last, may_stash, stash_fallback, complete_offcpu,
  complete_runq, complete, on_switch,
}

-- What the sections after the first leave alone.
pub record SameClock (a b : Cpu) : Type 0 where
  pub on_cpu : a.on_cpu_ns ≡ b.on_cpu_ns
  pub tid : a.cur_tid ≡ b.cur_tid
  pub last : a.last_run_ts ≡ b.last_run_ts
  pub targets : a.targets ≡ b.targets

same : (a : Cpu) → SameClock a a
same a = record { on_cpu = refl; tid = refl; last = refl; targets = refl }

SameClock-trans : {a b c : Cpu} → SameClock a b → SameClock b c → SameClock a c
SameClock-trans p q = record {
  on_cpu = p.on_cpu ∙ q.on_cpu;
  tid = p.tid ∙ q.tid;
  last = p.last ∙ q.last;
  targets = p.targets ∙ q.targets;
}

count_switch_keeps : (p st : ℕ) (s : Cpu) → SameClock (count_switch p st s) s
unfolding count_switch
count_switch_keeps p st s =
    if_cases (λ (a : Cpu). SameClock a s) (not (p == 0) && s.targets p)
      (λ e. record { on_cpu = refl; tid = refl; last = refl; targets = refl }) (λ e. same s)

complete_runq_keeps : (now pid : ℕ) (s : Cpu) → SameClock (complete_runq now pid s) s
unfolding complete_runq
complete_runq_keeps now pid s = elim (Option-cases (lookup s.wakeup_ts pid)) [
  | inl e ↦ rw (complete_runq, e) (same s)
  | inr (w, e) ↦
      rw (complete_runq, e) (record { on_cpu = refl; tid = refl; last = refl; targets = refl })
]

complete_offcpu_keeps : (now pid : ℕ) (s : Cpu) → SameClock (complete_offcpu now pid s) s
unfolding complete_offcpu
complete_offcpu_keeps now pid s = elim (Option-cases (lookup s.offcpu_stash pid)) [
  | inl e ↦ rw (complete_offcpu, e) (same s)
  | inr (st, e) ↦
      rw (complete_offcpu, e)
        (if_cases (λ (a : Cpu). SameClock a s) (not (st.stack_available == 0))
          (λ f. record { on_cpu = refl; tid = refl; last = refl; targets = refl })
          (λ f. record { on_cpu = refl; tid = refl; last = refl; targets = refl }))
]

complete_keeps : (now pid : ℕ) (s : Cpu) → SameClock (complete now pid s) s
unfolding complete
complete_keeps now pid s =
    if_cases (λ (a : Cpu). SameClock a s) (deep_mode s && s.targets pid)
      (λ e.
        SameClock-trans (complete_runq_keeps now pid (complete_offcpu now pid s))
          (complete_offcpu_keeps now pid s))
      (λ e. same s)

stash_last_keeps :
    (now pid : ℕ) (last : Option ℕ) (s : Cpu) → SameClock (stash_last now pid last s) s
unfolding stash_last
stash_last_keeps now pid none s = same s
stash_last_keeps now pid (some last) s =
    if_cases (λ (a : Cpu). SameClock a s)
      (not (s.offcpu_rate == 0) && is_due now s.offcpu_rate last)
      (λ e. record { on_cpu = refl; tid = refl; last = refl; targets = refl }) (λ e. same s)

stash_fallback_keeps : (now pid st : ℕ) (s : Cpu) → SameClock (stash_fallback now pid st s) s
unfolding stash_fallback
stash_fallback_keeps now pid st s =
    if_cases (λ (a : Cpu). SameClock a s) (may_stash pid st s)
      (λ e. stash_last_keeps now pid (lookup s.offcpu_last_ts pid) s) (λ e. same s)

-- The state after the first section.
abbrev pub attributed : ℕ → ℕ → Cpu → Cpu
attributed now next_pid s = record (attribute now s) { cur_tid = next_pid; last_run_ts = now }

-- After a switch the thread and the time are those of the switch, and only the first section has
-- changed the on-CPU times.
pub on_switch_keeps :
    (now prev_pid prev_state next_pid : ℕ) (s : Cpu)
    → SameClock (on_switch now prev_pid prev_state next_pid s) (attributed now next_pid s)
unfolding on_switch
on_switch_keeps now prev_pid prev_state next_pid s =
    SameClock-trans (complete_keeps now next_pid _) (
      SameClock-trans (stash_fallback_keeps now prev_pid prev_state _)
        (count_switch_keeps prev_pid prev_state _))
