-- ===== src/Tests/Kernels.antt =====
-- Latencies, and writers of the flight recorder that are caught in the middle (bpf/etrace.bpf.c).
use e_trace_diag.Prelude.{
  ℕ, zero, suc, ◌-◌, ◌*◌, ◌≡◌, ◌↔◌, refl, List, [], ◌∷◌, arith, map, length, true, false,
}
use e_trace_diag.Tests.Floats.{thousandths}
use e_trace_diag.Recorder.Percentile.{percentile_us, rank_of}
use e_trace_diag.Recorder.Ring.{slot, checked, read_record, pre_records}
use e_trace_diag.Recorder.Drains.{numbers}
use e_trace_diag.Kernel.Histogram.Bins.{base4_bin}
use e_trace_diag.Kernel.Histogram.BinRanges.{pow4, InBin, base4_bin_iff}
use e_trace_diag.Kernel.Histogram.Samples.{histogram}
use e_trace_diag.Kernel.Histogram.Quantile.{HasRank, percentile_us-HasRank}
use e_trace_diag.Kernel.Flight.Commit.{
  ring_cap, put, fetch_add, stamp, copy_record, settle, commit_seq, waiting, claimed, copied,
  finished, System, claim, copy, finish, Reach, here, next, IsStart, view,
}
use e_trace_diag.Kernel.Flight.Committed.{
  log, IsQuiet, not_before, read_record-committed, pre_records-log,
}
use e_trace_diag.Kernel.Producers.Snapshot.{zeroed}

base4_bin_iff_example : (base4_bin 5000 ≡ 2) ↔ InBin 2 5000
base4_bin_iff_example = base4_bin_iff 5000 2 (omega arith)

abbrev latencies : List ℕ
latencies = 300 ∷ 5000 ∷ 70000 ∷ []

percentile_us-HasRank_example :
    (i : ℕ) × (percentile_us thousandths (histogram latencies) 256 4 500
      ≡ thousandths.div (thousandths.of_nat (256 * pow4 i)) (thousandths.of_nat 1000))
    × HasRank (rank_of thousandths (length latencies) 500) i latencies
unfolding rank_of
percentile_us-HasRank_example =
    percentile_us-HasRank thousandths 500 latencies (omega arith, (omega arith, (omega arith, tt)))
      (omega arith) (omega arith) (omega arith)

-- Nothing is written yet.
abbrev empty_ring : System
empty_ring = record { flight = record { head = 0; ring = λ ix. zeroed }; stage = λ k. waiting }

empty_ring-IsStart : IsStart empty_ring
empty_ring-IsStart = record { head = refl; zeroed = λ ix. refl; idle = λ k. refl }

-- One call has its number, then two have.
abbrev claimed_one : System
claimed_one = record {
  flight = fetch_add empty_ring.flight;
  stage = put empty_ring.stage 0 (claimed (stamp zeroed 5 false 0));
}

abbrev claimed_two : System
claimed_two = record {
  flight = fetch_add claimed_one.flight;
  stage = put claimed_one.stage 1 (claimed (stamp zeroed 7 true 1));
}

abbrev copied_second : System
copied_second = record {
  flight = copy_record claimed_two.flight 1 (stamp zeroed 7 true 1);
  stage = put claimed_two.stage 1 (copied (stamp zeroed 7 true 1));
}

abbrev finished_second : System
finished_second = record {
  flight = commit_seq copied_second.flight 1;
  stage = put copied_second.stage 1 (finished (settle 1 (stamp zeroed 7 true 1)));
}

claimed_two-Reach : Reach empty_ring claimed_two
unfolding fetch_add
claimed_two-Reach =
    next (next here (claim zeroed 5 false (omega arith) (λ k e. absurd (omega (arith, e)))))
      (claim zeroed 7 true (omega arith) (λ k e. absurd (omega (arith, e))))

finished_second-Reach : Reach empty_ring finished_second
unfolding fetch_add copy_record
finished_second-Reach =
    next (next claimed_two-Reach (copy 1 (stamp zeroed 7 true 1) refl))
      (finish 1 (stamp zeroed 7 true 1) refl)

read_record-committed_example :
    finished_second.stage 1 ≡ finished (settle 1 (stamp zeroed 7 true 1))
unfolding fetch_add copy_record commit_seq read_record checked slot settle stamp
read_record-committed_example =
    read_record-committed empty_ring finished_second (view finished_second) 1
      (settle 1 (stamp zeroed 7 true 1)) empty_ring-IsStart finished_second-Reach (omega arith)
      (omega arith) (omega arith) refl refl

-- One call has ended, and no other has begun.
abbrev copied_one : System
copied_one = record {
  flight = copy_record claimed_one.flight 0 (stamp zeroed 5 false 0);
  stage = put claimed_one.stage 0 (copied (stamp zeroed 5 false 0));
}

abbrev finished_one : System
finished_one = record {
  flight = commit_seq copied_one.flight 0;
  stage = put copied_one.stage 0 (finished (settle 0 (stamp zeroed 5 false 0)));
}

finished_one-Reach : Reach empty_ring finished_one
unfolding fetch_add copy_record
finished_one-Reach =
    next
      (next (next here (claim zeroed 5 false (omega arith) (λ k e. absurd (omega (arith, e)))))
        (copy 0 (stamp zeroed 5 false 0) refl))
      (finish 0 (stamp zeroed 5 false 0) refl)

finished_one-IsQuiet : IsQuiet finished_one
unfolding fetch_add copy_record commit_seq
finished_one-IsQuiet zero h = (settle 0 (stamp zeroed 5 false 0), refl)
finished_one-IsQuiet (suc k) h = absurd (omega (arith, h))

pre_records-log_example :
    pre_records (view finished_one) ring_cap finished_one.flight.head 0
    ≡ not_before 0 (
        map (log finished_one) (
          numbers
            (finished_one.flight.head - ring_cap)
            (finished_one.flight.head - (finished_one.flight.head - ring_cap))))
pre_records-log_example =
    pre_records-log empty_ring finished_one 0 empty_ring-IsStart finished_one-Reach
      finished_one-IsQuiet
