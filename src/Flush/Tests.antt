-- ===== src/Flush/Tests.antt =====
-- driver/vflush.c: flushes of a concrete context.
use fdlvling.Base.{◌≡◌, refl, true, false, none, arith}
use fdlvling.Store.Sample.{sample, whole_sample, sample_flash, sample-WellFormed}
use fdlvling.Chunk.{purge_place}
use fdlvling.Flush.{Layout, flush_rounds, execute_flush}
use fdlvling.Flush.Flushable.{Flushable, Flushes}
use fdlvling.Flush.Finish.{execute_flush-done, flush_rounds-stuck}

abbrev layout : Layout
layout = record { purge_ctl = λ c. c.scn; chunk_ctl = λ s i. i }

sample-Flushable : Flushable sample
unfolding purge_place
sample-Flushable = record {
  well_formed = sample-WellFormed 10 (omega arith);
  mapped = λ p lt. omega arith;
  map_small = omega arith;
  newest = λ c. ground arith;
  chunk_small = omega arith;
  has_room = omega arith;
  unused = λ j n. ground (arith, n);
  words = λ j n. ground (arith, n);
  off_tail = λ j n. ground (arith, n);
  dirty = λ e. absurd (ground (arith, e));
}

execute_flush_example :
    Flushes true sample sample_flash (execute_flush 4 layout (λ _. true) true sample sample_flash)
execute_flush_example = execute_flush-done layout true sample sample_flash sample-Flushable

flush_rounds-stuck_example : flush_rounds 3 0 layout (λ _. false) whole_sample sample_flash ≡ none
flush_rounds-stuck_example = flush_rounds-stuck 3 0 layout whole_sample sample_flash refl refl
