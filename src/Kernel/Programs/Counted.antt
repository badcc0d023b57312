-- ===== src/Kernel/Programs/Counted.antt =====
-- What it means that an event is counted once in a counter of bpf/etrace.bpf.c, field by field, and
-- which operations of the system call futex are waits.
use e_trace_diag.Prelude.{
  passes, passes_at, ℕ, true, ◌+◌, ◌%◌, ◌^◌, ◌<◌, ◌≡◌, refl, ap, Bool, ◌&&◌, ◌||◌, Option, some,
  ◌==◌, bit_and, if◌then◌else◌, arith, u64, not, ◌-◌,
}
use e_trace_diag.Kernel.Histogram.Bins.{base4_bin, log2l_bin, count_in, add_hist13, add_hist64}
use e_trace_diag.Kernel.Programs.Stats.{
  LatStat, BlkIo, LockHot, SysLat, add_lat, add_blk, add_hot, add_sys,
}
use e_trace_diag.Kernel.Programs.Events.{is_futex_wait}

-- There is an entry, and this holds of it.
abbrev pub Has : {V : Type 0} → Option V → (V → Type 0) → Type 0
Has {V} o P = (v : V) × (o ≡ some v) × P v

-- One more event, of length `lat`, which is in one bin of the histogram.
pub record LatCounted (lat : ℕ) (old new : LatStat) : Type 0 where
  pub count : new.count ≡ u64 (old.count + 1)
  pub lat_sum : new.lat_sum ≡ u64 (old.lat_sum + lat)
  pub hist : new.hist ≡ count_in (base4_bin lat) old.hist

-- One more request, with its bytes and its length.
pub record BlkCounted (nr_bytes lat : ℕ) (old new : BlkIo) : Type 0 where
  pub ops : new.ops ≡ u64 (old.ops + 1)
  pub bytes : new.bytes ≡ u64 (old.bytes + nr_bytes)
  pub lat_sum : new.lat_sum ≡ u64 (old.lat_sum + lat)
  pub hist : new.hist ≡ count_in (base4_bin lat) old.hist

-- One more wait for a lock.
pub record HotCounted (wait : ℕ) (old new : LockHot) : Type 0 where
  pub count : new.count ≡ u64 (old.count + 1)
  pub lat_sum : new.lat_sum ≡ u64 (old.lat_sum + wait)

-- One more call, and one more error if it failed.
pub record SysCounted (lat : ℕ) (failed : Bool) (old new : SysLat) : Type 0 where
  pub count : new.count ≡ u64 (old.count + 1)
  pub lat_sum : new.lat_sum ≡ u64 (old.lat_sum + lat)
  pub error_count :
      new.error_count ≡ (if failed then u64 (old.error_count + 1) else old.error_count)
  pub hist : new.hist ≡ count_in (log2l_bin lat) old.hist

pub add_lat-LatCounted : (lat : ℕ) (v : LatStat) → LatCounted lat v (add_lat lat v)
unfolding add_lat add_hist13
add_lat-LatCounted lat v = record { count = refl; lat_sum = refl; hist = refl }

pub add_blk-BlkCounted : (n lat : ℕ) (v : BlkIo) → BlkCounted n lat v (add_blk n lat v)
unfolding add_blk add_hist13
add_blk-BlkCounted n lat v = record { ops = refl; bytes = refl; lat_sum = refl; hist = refl }

pub add_hot-HotCounted : (wait : ℕ) (v : LockHot) → HotCounted wait v (add_hot wait v)
unfolding add_hot
add_hot-HotCounted wait v = record { count = refl; lat_sum = refl }

pub add_sys-SysCounted :
    (lat : ℕ) (failed : Bool) (v : SysLat) → SysCounted lat failed v (add_sys lat failed v)
unfolding add_sys add_hist64
add_sys-SysCounted lat failed v = record {
  count = refl;
  lat_sum = refl;
  error_count = refl;
  hist = refl;
}

-- FUTEX_WAIT is 0 and FUTEX_WAIT_BITSET is 9; the two flags of an operation, FUTEX_PRIVATE_FLAG and
-- FUTEX_CLOCK_REALTIME, are the bits 128 and 256.
abbrev pub waits : ℕ → Bool
waits op = op % 128 == 0 || op % 128 == 9

-- The test of the command that the source makes.
abbrev is_wait_command : ℕ → Bool
is_wait_command op = let cmd = bit_and op (2 ^ 64 - 1 - 384) in cmd == 0 || cmd == 9

operations :
    passes
      (λ op. (is_wait_command op && waits op) || (not (is_wait_command op) && not (waits op)))
      512
    ≡ true
operations = refl

agree : (a b : Bool) → ((a && b) || (not a && not b)) ≡ true → a ≡ b
agree a b h = ground (arith, h)

pub is_futex_wait_lem :
    (nr_futex id op : ℕ) → op < 512 → is_futex_wait nr_futex id op ≡ (id == nr_futex && waits op)
unfolding is_futex_wait
is_futex_wait_lem nr_futex id op h =
    ap (λ b. id == nr_futex && b)
      (agree _ _ (
        passes_at
          (λ op. (is_wait_command op && waits op) || (not (is_wait_command op) && not (waits op)))
          op 512 operations h))
