-- ===== src/Kernel/Programs/Pairs.antt =====
-- What the pairs of programs of bpf/etrace.bpf.c count that take the time of an event: the begin and
-- the end of a wait for a lock, the issue and the completion of a request.
use e_trace_diag.Prelude.{
  ℕ, ◌-◌, ◌^◌, ◌<◌, ◌≡◌, ap, subst, ◌∙◌, arith, not, ◌&&◌, some, none, ltb, if◌then◌else◌, u32, ◌*◌,
  ◌==◌, bit_and, bit_or,
}
use e_trace_diag.Kernel.Programs.Tables.{
  lookup, update_any, HasRoom, value_or, option_map, lookup-update_any, lookup-count_at,
  lookup-delete, lookup-modify,
}
use e_trace_diag.Kernel.Programs.Stats.{add_lat, add_blk, add_hot}
use e_trace_diag.Kernel.Programs.Counted.{
  Has, LatCounted, BlkCounted, HotCounted, add_lat-LatCounted, add_blk-BlkCounted,
  add_hot-HotCounted,
}
use e_trace_diag.Kernel.Programs.State.{Cpu, LockWait, BlkReq}
use e_trace_diag.Kernel.Programs.Events.{
  on_contention_begin, on_contention_end, wait_time, end_wait, on_rq_insert, on_rq_issue,
  on_rq_complete, issue_latency,
}

-- The length of a wait.
wait_lem : (t1 t2 : ℕ) → (if ltb t1 t2 then t2 - t1 else 0) ≡ t2 - t1
wait_lem t1 t2 = ground arith

-- What the end of a wait leaves of the two counters and of the note of the begin.
abbrev pub EndsWait : ℕ → ℕ → ℕ → Cpu → Cpu → Type 0
EndsWait wait tid addr s after =
    Has (lookup after.lock_st tid) (LatCounted wait (value_or s.locals.lat (lookup s.lock_st tid)))
    × Has (lookup after.lock_hot addr)
        (HotCounted wait (value_or s.locals.lock (lookup s.lock_hot addr)))
    × (lookup after.lock_wait tid ≡ none)

on_contention_end_lem :
    (now tid addr : ℕ) (w : LockWait) (s : Cpu)
    → HasRoom s.lock_st tid
    → HasRoom s.lock_hot addr
    → lookup s.lock_wait tid ≡ some w
    → EndsWait (wait_time now w) tid addr s (on_contention_end now tid addr s)
unfolding on_contention_end end_wait
on_contention_end_lem now tid addr w s st hot e =
    rw (on_contention_end, e)
      (
        (
          _,
          lookup-count_at s.lock_st tid s.locals.lat (add_lat (wait_time now w)) st,
          add_lat-LatCounted (wait_time now w) _,
        ),
        (
          _,
          lookup-count_at s.lock_hot addr s.locals.lock (add_hot (wait_time now w)) hot,
          add_hot-HotCounted (wait_time now w) _,
        ),
        lookup-delete s.lock_wait tid,
      )

-- Where the maps have room, a wait for the lock at `addr` from `t1` to `t2` is counted once, with its
-- length, for the thread, there also in the bin of that length, and for the lock, and the note of its begin is gone.
pub contention_lem :
    (t1 t2 tid addr flags : ℕ) (s : Cpu)
    → HasRoom s.lock_wait tid
    → HasRoom s.lock_st tid
    → HasRoom s.lock_hot addr
    → EndsWait
        (t2 - t1)
        tid
        addr
        s
        (on_contention_end t2 tid addr (on_contention_begin t1 tid addr flags s))
unfolding on_contention_begin
contention_lem t1 t2 tid addr flags s wait st hot =
    subst
      (λ n.
        EndsWait n tid addr s
          (on_contention_end t2 tid addr (on_contention_begin t1 tid addr flags s)))
      (wait_lem t1 t2)
      (on_contention_end_lem t2 tid addr (record { lock_addr = addr; ts = t1; flags = flags })
        (on_contention_begin t1 tid addr flags s) st hot (lookup-update_any s.lock_wait tid _ wait))

-- What the completion of a request leaves of the two counters and of the note of the request.
abbrev pub EndsRequest : ℕ → ℕ → ℕ → ℕ → ℕ → Cpu → Cpu → Type 0
EndsRequest lat nr_bytes pid dev rq s after =
    Has (lookup after.block_io pid)
      (BlkCounted nr_bytes lat (value_or s.locals.blk (lookup s.block_io pid)))
    × Has (lookup after.dev_io dev)
        (BlkCounted nr_bytes lat (value_or s.locals.blk (lookup s.dev_io dev)))
    × (lookup after.blk_req rq ≡ none)

on_rq_complete_lem :
    (now rq nr_bytes : ℕ) (e : BlkReq) (s : Cpu)
    → HasRoom s.block_io e.pid
    → HasRoom s.dev_io e.dev
    → lookup s.blk_req rq ≡ some e
    → EndsRequest (issue_latency now e) nr_bytes e.pid e.dev rq s (on_rq_complete now rq nr_bytes s)
unfolding on_rq_complete
on_rq_complete_lem now rq nr_bytes e s b d h =
    rw (on_rq_complete, h)
      (
        (
          _,
          lookup-count_at s.block_io e.pid s.locals.blk (add_blk nr_bytes (issue_latency now e)) b,
          add_blk-BlkCounted nr_bytes (issue_latency now e) _,
        ),
        (
          _,
          lookup-count_at s.dev_io e.dev s.locals.blk (add_blk nr_bytes (issue_latency now e)) d,
          add_blk-BlkCounted nr_bytes (issue_latency now e) _,
        ),
        lookup-delete s.blk_req rq,
      )

-- The device of a request.
abbrev pub device : ℕ → ℕ → ℕ
device major first_minor = bit_or (u32 (major * 2 ^ 20)) first_minor

issue_lem : (t1 t2 : ℕ) → 0 < t1 → (if not (t1 == 0) && ltb t1 t2 then t2 - t1 else 0) ≡ t2 - t1
issue_lem t1 t2 h = ground (arith, h)

-- Where the maps have room, a request that is inserted at any time, issued at `t1`, which is not 0,
-- and completed at `t2` is counted once, with its bytes, the time from its issue and the bin of that
-- time, for the thread that inserted it and for its device, and its note is gone. What the note's `issue_ts` held before
-- the issue does not matter.
pub request_lem :
    (junk t0 t1 t2 rq major first_minor pid cmd_flags nr_bytes : ℕ) (s : Cpu)
    → 0 < t1
    → HasRoom s.blk_req rq
    → HasRoom s.block_io pid
    → HasRoom s.dev_io (device major first_minor)
    → EndsRequest (t2 - t1) nr_bytes pid (device major first_minor) rq s (
        on_rq_complete t2 rq nr_bytes
          (on_rq_issue t1 rq (on_rq_insert junk t0 rq major first_minor pid cmd_flags s)))
unfolding on_rq_issue on_rq_insert
request_lem junk t0 t1 t2 rq major first_minor pid cmd_flags nr_bytes s h room b d =
    subst
      (λ n. EndsRequest n nr_bytes pid (device major first_minor) rq s (
        on_rq_complete t2 rq nr_bytes
          (on_rq_issue t1 rq (on_rq_insert junk t0 rq major first_minor pid cmd_flags s))))
      (issue_lem t1 t2 h)
      (on_rq_complete_lem t2 rq nr_bytes (record noted { issue_ts = t1 })
        (on_rq_issue t1 rq (on_rq_insert junk t0 rq major first_minor pid cmd_flags s)) b d
        (lookup-modify (update_any s.blk_req rq noted) rq (λ e. record e { issue_ts = t1 })
          ∙ ap (option_map (λ e. record e { issue_ts = t1 }))
              (lookup-update_any s.blk_req rq noted room)))
  where
    noted : BlkReq
    noted = record {
      insert_ts = t0;
      issue_ts = junk;
      dev = device major first_minor;
      pid = pid;
      rw = bit_and cmd_flags 255;
    }
