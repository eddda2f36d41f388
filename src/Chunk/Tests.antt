-- ===== src/Chunk/Tests.antt =====
-- driver/vscsi.c: the log of chunks, on a concrete context.
use fdlvling.Base.{◌*◌, ◌≡◌, refl, arith}
use fdlvling.Store.{view}
use fdlvling.Store.Sample.{sample, whole_sample, sample_flash, sample-WellFormed}
use fdlvling.Chunk.{
  purge_place, execute_purge_cache, purge_flash, purge_cache_completion, update_map,
  find_next_chunk,
}
use fdlvling.Chunk.Usage.{Counted, placed, update_map-Counted}
use fdlvling.Chunk.Purge.{CanPurge, view-execute_purge_cache}
use fdlvling.Chunk.Choice.{Chosen, find_next_chunk-best}

whole_sample-CanPurge : CanPurge whole_sample
unfolding purge_place
whole_sample-CanPurge = record {
  whole = refl;
  mapped = λ p lt. omega arith;
  newest = λ c. ground arith;
  chunk_small = omega arith;
  has_room = omega arith;
  unused = λ j n. ground (arith, n);
}

execute_purge_cache_example :
    let t = execute_purge_cache (λ c. c.scn) whole_sample in
    (view (purge_cache_completion t) (purge_flash t sample_flash) 20
      ≡ view whole_sample sample_flash 20)
    × ((purge_cache_completion t).cache_pos ≡ 0)
execute_purge_cache_example =
    view-execute_purge_cache (λ c. c.scn) whole_sample sample_flash 20
      (sample-WellFormed 16 (omega arith)) whole_sample-CanPurge

sample-Counted : Counted sample
unfolding placed
sample-Counted = record { short = omega arith; right = λ c. ground arith }

update_map_example : Counted (update_map sample (λ k. 8 * k) 24 0x400)
update_map_example =
    update_map-Counted sample (λ k. 8 * k) 24 0x400 sample-Counted (omega arith) (omega arith)

find_next_chunk_example : Chosen sample (find_next_chunk sample).next_chunk_no
find_next_chunk_example = find_next_chunk-best sample (omega arith)
