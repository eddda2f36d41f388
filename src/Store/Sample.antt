-- ===== src/Store/Sample.antt =====
-- driver/vscsi.h: a concrete context for the tests. Its cache holds the sectors 16 .. 25, block 1
-- lies on the drive in chunk 2, block 3 in chunk 0, and chunk 0 is the current one.
use fdlvling.Base.{ℕ, ◌+◌, ◌≤◌, true, false, arith, ◌==◌, if◌then◌else◌}
use fdlvling.Store.{Store, Flash, ChunkInfo, not_mapped}
use fdlvling.Store.Lookup.{WellFormed}

abbrev pub sample_map : ℕ → ℕ
sample_map b = if b == 1 then 0x80000 else if b == 3 then 0x200 else not_mapped

abbrev pub sample_chunks : ℕ → ChunkInfo
sample_chunks c =
    if c == 0
    then record { scn = 5; wcn = 1; used = 1 }
    else if c == 2
    then record { scn = 4; wcn = 2; used = 1 }
    else record { scn = 0; wcn = 0; used = 0 }

abbrev pub sample : Store
sample = record {
  size_of_map = 8;
  max_chunks = 3;
  weight_life = 1;
  weight_speed = 1;
  map = sample_map;
  chunk_info = sample_chunks;
  chunk_no = 0;
  next_chunk_no = 1;
  chunk_lba = λ _. not_mapped;
  next_chunk_lba = λ _. not_mapped;
  finalized_pos = 0x200;
  purge_pos = 0x400;
  cache_pos = 10;
  cache_lba = λ i. 16 + i;
  cache_mem = λ i. 100 + i;
  relocate_mem = λ _. 0;
  relocate_pos = 0;
  relocate_window_start = 0;
  relocate_window_end = 0;
  relocate_target = 32576;
  relocate_source = 0;
  flushing = false;
  finalizing = false;
  relocation_prepared = true;
  relocation_done = true;
  cache_dirty = true;
}

-- The same with the 16 sectors 16 .. 31 in the cache.
abbrev pub whole_sample : Store
whole_sample = record sample { cache_pos = 16 }

abbrev pub sample_flash : Flash
sample_flash place = place + 1

pub sample-WellFormed : (pos : ℕ) → pos ≤ 0x1f8 → WellFormed (λ i. 16 + i) pos
sample-WellFormed pos h = record {
  fits = h;
  aligned = λ b lt. omega arith;
  runs = λ b r small lt. omega arith;
  distinct = λ b c lt lt' e. omega arith;
}
