-- ===== src/Kernel/Programs/Stats.antt =====
-- The counters of bpf/etrace.bpf.c: `struct switch_t`, `struct lat_stat` and their kin, and how an
-- event adds to one.
use e_trace_diag.Prelude.{ℕ, ◌+◌, ◌*◌, ◌^◌, List, Bool, not, ◌==◌, if◌then◌else◌, bit_and, u32, u64}
use e_trace_diag.Kernel.Histogram.Bins.{add_hist13, add_hist64}

pub record SwitchCount : Type 0 where
  pub vol : ℕ
  pub invol : ℕ

pub record BlkIo : Type 0 where
  pub ops : ℕ
  pub bytes : ℕ
  pub lat_sum : ℕ
  pub hist : List ℕ

pub record FaultCount : Type 0 where
  pub minor : ℕ
  pub major : ℕ

pub record LatStat : Type 0 where
  pub count : ℕ
  pub lat_sum : ℕ
  pub hist : List ℕ

pub record SysLat : Type 0 where
  pub count : ℕ
  pub lat_sum : ℕ
  pub error_count : ℕ
  pub hist : List ℕ

pub record LockHot : Type 0 where
  pub count : ℕ
  pub lat_sum : ℕ

-- What the locals `z` of the helpers `h_sw` to `h_lock` hold, which start a new entry and are not
-- initialised.
pub record Locals : Type 0 where
  pub switch : SwitchCount
  pub blk : BlkIo
  pub faults : FaultCount
  pub lat : LatStat
  pub sys : SysLat
  pub lock : LockHot

-- `count++; lat_sum += lat; add_hist13(hist, lat)`.
unfoldable pub add_lat : ℕ → LatStat → LatStat
unfolding add_hist13
add_lat lat v = record {
  count = u64 (v.count + 1);
  lat_sum = u64 (v.lat_sum + lat);
  hist = add_hist13 v.hist lat;
}

unfoldable pub add_blk : ℕ → ℕ → BlkIo → BlkIo
unfolding add_hist13
add_blk nr_bytes lat v = record {
  ops = u64 (v.ops + 1);
  bytes = u64 (v.bytes + nr_bytes);
  lat_sum = u64 (v.lat_sum + lat);
  hist = add_hist13 v.hist lat;
}

unfoldable pub add_hot : ℕ → LockHot → LockHot
add_hot wait v = record { count = u64 (v.count + 1); lat_sum = u64 (v.lat_sum + wait) }

unfoldable pub add_sys : ℕ → Bool → SysLat → SysLat
unfolding add_hist64
add_sys lat failed v = record {
  count = u64 (v.count + 1);
  lat_sum = u64 (v.lat_sum + lat);
  hist = add_hist64 v.hist lat;
  error_count = if failed then u64 (v.error_count + 1) else v.error_count;
}

-- Section 2 of `on_switch`: preempted while running, or blocked.
unfoldable pub add_switch : ℕ → SwitchCount → SwitchCount
add_switch prev_state v =
    if prev_state == 0
    then record v { invol = u32 (v.invol + 1) }
    else if not (bit_and prev_state 127 == 0)
    then record v { vol = u32 (v.vol + 1) }
    else v

-- `fault_ret`: VM_FAULT_MAJOR is 4.
unfoldable pub add_fault : ℕ → FaultCount → FaultCount
add_fault ret v =
    if not (bit_and ret 4 == 0)
    then record v { major = u32 (v.major + 1) }
    else record v { minor = u32 (v.minor + 1) }

-- The 8 bytes of a key of two fields of 32 bits.
abbrev pub pair_key : ℕ → ℕ → ℕ
pair_key a b = a * 2 ^ 32 + b
