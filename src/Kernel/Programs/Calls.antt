-- ===== src/Kernel/Programs/Calls.antt =====
-- What the programs for the begin and the end of a system call in bpf/etrace.bpf.c count.
use e_trace_diag.Prelude.{
  ℕ, ◌^◌, ◌<◌, ◌≡◌, refl, subst, arith, Bool, true, false, ◌&&◌, some, none, if◌then◌else◌, sub64,
  u32, ◌==◌,
}
use e_trace_diag.Kernel.Programs.Tables.{
  lookup, update_any, HasRoom, value_or, lookup-update_any, lookup-count_at, lookup-delete,
}
use e_trace_diag.Kernel.Programs.Stats.{add_lat, add_sys, pair_key}
use e_trace_diag.Kernel.Programs.Counted.{
  Has, LatCounted, SysCounted, add_lat-LatCounted, add_sys-SysCounted, waits, is_futex_wait_lem,
}
use e_trace_diag.Kernel.Programs.State.{Cpu, SysStart}
use e_trace_diag.Kernel.Programs.Events.{
  start_call, end_call, on_sys_enter, on_sys_exit, is_futex_wait, syslat_account,
}

word32 : (id : ℕ) → id < 2 ^ 32 → u32 id ≡ id
word32 id h = omega (arith, h)

-- What the end of a system call leaves: the counters of a wait on a futex, or those of the call and
-- of all calls.
abbrev pub EndsCall : ℕ → ℕ → Bool → Bool → ℕ → Cpu → Cpu → Type 0
EndsCall tid id futex failed lat s after =
    (if futex
      then Has (lookup after.futex_st tid)
          (LatCounted lat (value_or s.locals.lat (lookup s.futex_st tid)))
      else (Has (lookup after.sys_lat (pair_key tid id))
            (SysCounted lat failed (value_or s.locals.sys (lookup s.sys_lat (pair_key tid id))))
          × Has (lookup after.sys_st tid)
              (LatCounted lat (value_or s.locals.lat (lookup s.sys_st tid)))))
    × (lookup after.sys_start tid ≡ none)

end_call_lem :
    (now tid : ℕ) (failed futex : Bool) (st : SysStart) (s : Cpu)
    → st.futex_wait ≡ futex
    → HasRoom s.futex_st tid
    → HasRoom s.sys_lat (pair_key tid st.id)
    → HasRoom s.sys_st tid
    → EndsCall tid st.id futex failed (sub64 now st.ts) s (end_call now tid failed st s)
unfolding end_call syslat_account
end_call_lem now tid failed true st s e f l t = rw e (
  (
    _,
    lookup-count_at s.futex_st tid s.locals.lat (add_lat (sub64 now st.ts)) f,
    add_lat-LatCounted (sub64 now st.ts) _,
  ),
  lookup-delete s.sys_start tid,
)
end_call_lem now tid failed false st s e f l t = rw e (
  (
    (
      _,
      lookup-count_at s.sys_lat (pair_key tid st.id) s.locals.sys (add_sys (sub64 now st.ts) failed)
          l,
      add_sys-SysCounted (sub64 now st.ts) failed _,
    ),
    (
      _,
      lookup-count_at s.sys_st tid s.locals.lat (add_lat (sub64 now st.ts)) t,
      add_lat-LatCounted (sub64 now st.ts) _,
    ),
  ),
  lookup-delete s.sys_start tid,
)

on_sys_exit_lem :
    (now tid : ℕ) (failed futex : Bool) (st : SysStart) (s : Cpu)
    → s.targets tid ≡ true
    → lookup s.sys_start tid ≡ some st
    → st.futex_wait ≡ futex
    → HasRoom s.futex_st tid
    → HasRoom s.sys_lat (pair_key tid st.id)
    → HasRoom s.sys_st tid
    → EndsCall tid st.id futex failed (sub64 now st.ts) s (on_sys_exit now tid failed s)
unfolding on_sys_exit
on_sys_exit_lem now tid failed futex st s target e g f l t =
    rw (on_sys_exit, target, e) (end_call_lem now tid failed futex st s g f l t)

enter_exit :
    (nr_futex t1 t2 tid id arg1 : ℕ) (failed : Bool) (s : Cpu)
    → id < 2 ^ 32
    → s.targets tid ≡ true
    → HasRoom s.sys_start tid
    → HasRoom s.futex_st tid
    → HasRoom s.sys_lat (pair_key tid id)
    → HasRoom s.sys_st tid
    → EndsCall tid id
        (is_futex_wait nr_futex id arg1)
        failed
        (sub64 t2 t1)
        s
        (on_sys_exit t2 tid failed (on_sys_enter nr_futex t1 tid (some id) arg1 s))
unfolding on_sys_enter start_call
enter_exit nr_futex t1 t2 tid id arg1 failed s small target start f l t = rw target (
    subst
      (λ n.
        HasRoom s.sys_lat (pair_key tid n)
        → EndsCall tid n (is_futex_wait nr_futex id arg1) failed (sub64 t2 t1) s
            (on_sys_exit t2 tid failed started))
      (word32 id small)
      (λ room.
        on_sys_exit_lem t2 tid failed (is_futex_wait nr_futex id arg1) begun started target
          (lookup-update_any s.sys_start tid begun start) refl f room t)
      l)
  where
    begun : SysStart
    begun = record { id = u32 id; ts = t1; futex_wait = is_futex_wait nr_futex id arg1 }

    started : Cpu
    started = record s { sys_start = update_any s.sys_start tid begun }

-- Where the maps have room, a target's system call `id`, of 32 bits, from `t1` to `t2` is counted
-- once, with its length modulo 2 ^ 64. If it is the call futex with an operation below 512 that waits,
-- with or without its flags, it is counted as a wait of the thread; else under its number, with an
-- error if it failed, and with all calls of the thread. The note of its begin is gone.
pub sys_enter_exit_lem :
    (nr_futex t1 t2 tid id op : ℕ) (failed : Bool) (s : Cpu)
    → id < 2 ^ 32
    → op < 512
    → s.targets tid ≡ true
    → HasRoom s.sys_start tid
    → HasRoom s.futex_st tid
    → HasRoom s.sys_lat (pair_key tid id)
    → HasRoom s.sys_st tid
    → EndsCall tid id
        (id == nr_futex && waits op)
        failed
        (sub64 t2 t1)
        s
        (on_sys_exit t2 tid failed (on_sys_enter nr_futex t1 tid (some id) op s))
sys_enter_exit_lem nr_futex t1 t2 tid id op failed s small known target start f l t =
    subst
      (λ futex.
        EndsCall tid id futex failed (sub64 t2 t1) s
          (on_sys_exit t2 tid failed (on_sys_enter nr_futex t1 tid (some id) op s)))
      (is_futex_wait_lem nr_futex id op known)
      (enter_exit nr_futex t1 t2 tid id op failed s small target start f l t)
