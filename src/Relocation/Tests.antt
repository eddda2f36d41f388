-- ===== src/Relocation/Tests.antt =====
-- driver/vrelocation.c: a window of a concrete context.
use fdlvling.Base.{◌+◌, ◌*◌, ◌/◌, ◌<◌, ◌≡◌, true, false, refl, arith, ℕ_discrete as dec_eq}
use fdlvling.Store.{Store, last_purge_pos, get_cached_pos}
use fdlvling.Store.Lookup.{WellFormed}
use fdlvling.Store.Sample.{sample, sample_flash}
use fdlvling.Chunk.Usage.{placed}
use fdlvling.WriteRequest.Remaining.{waiting-le, progress_of, Fits}
use fdlvling.WriteRequest.Enough.{execute_relocate_cached-Fits}
use fdlvling.Relocation.{in_use, execute_relocate, execute_relocate_cached}
use fdlvling.Relocation.Blocks.{Relocating, Relocated}
use fdlvling.Relocation.Contents.{Stopped, execute_relocate_cached-Relocated}
use fdlvling.Relocation.Window.{WindowEnd, execute_relocate-window}

-- The next chunk is chunk 2, where block 1 lies first.
abbrev relocating : Store
relocating = record sample { next_chunk_no = 2; next_chunk_lba = λ i. 8 + 8 * i }

execute_relocate-window_example :
    let t = execute_relocate relocating in
    WindowEnd relocating t.relocate_window_start 0 t.relocate_window_start t.relocate_window_end
    × (t.relocate_window_start ≡ 0)
    × (0 < last_purge_pos → in_use relocating 0 ≡ true → 0 < t.relocate_window_end)
execute_relocate-window_example = execute_relocate-window relocating refl (omega arith)

-- Block 3 is in the cache, and the first 8 sectors of chunk 2 are the window.
abbrev half_way : Store
half_way = record relocating {
  cache_lba = λ i. 24 + i;
  cache_pos = 8;
  relocation_done = false;
  relocate_target = 0x40;
  relocate_source = 1;
  relocate_mem = λ i. sample_flash (0x80000 + i);
  relocate_window_end = 8;
}

half_way-WellFormed : WellFormed half_way.cache_lba 8
half_way-WellFormed = record {
  fits = omega arith;
  aligned = λ b lt. omega arith;
  runs = λ b r small lt. omega arith;
  distinct = λ b c lt lt' e. omega arith;
}

half_way-Relocating : Relocating half_way sample_flash
unfolding in_use
half_way-Relocating = record {
  well_formed = half_way-WellFormed;
  whole = refl;
  map_small = omega arith;
  next_small = omega arith;
  pos_whole = refl;
  pos_in = omega arith;
  start_whole = refl;
  end_whole = refl;
  window_fits = omega arith;
  window_read = λ k h. omega arith;
  starts = λ i h u. omega arith;
  before = λ p h. let e : (24 + p) / 8 ≡ 3 = omega arith in rw e (omega arith);
  mapped = λ p h. omega arith;
}

execute_relocate_cached_example :
    let t = execute_relocate_cached half_way in
    Relocated half_way t sample_flash × Stopped t t.relocation_done
execute_relocate_cached_example =
    execute_relocate_cached-Relocated half_way sample_flash half_way-Relocating refl

-- The start of the relocation, with the window read: block 1 is in use in chunk 2, and chunk 0 has room
-- for 509 purges.
abbrev at_start : Store
at_start = record half_way { cache_pos = 0; relocate_target = 32576 }

at_start-Relocating : Relocating at_start sample_flash
unfolding in_use
at_start-Relocating = record {
  well_formed = record {
    fits = omega arith;
    aligned = λ b lt. absurd (omega (arith, lt));
    runs = λ b r small lt. absurd (omega (arith, lt));
    distinct = λ b c lt lt' e. absurd (omega (arith, lt));
  };
  whole = refl;
  map_small = omega arith;
  next_small = omega arith;
  pos_whole = refl;
  pos_in = omega arith;
  start_whole = refl;
  end_whole = refl;
  window_fits = omega arith;
  window_read = λ k h. omega arith;
  starts = λ i h u. omega arith;
  before = λ p h. absurd (omega (arith, h));
  mapped = λ p h. absurd (omega (arith, h));
}

at_start-Fits : Fits (progress_of at_start)
unfolding placed
at_start-Fits = record {
  fresh = λ _. refl;
  room = λ _. omega arith;
  share = λ _ _. omega (arith, waiting-le 8 at_start.map 2 (get_cached_pos at_start));
  enough = λ _ e. absurd (ground (arith, e));
  ready = λ _. record {
    from = 509;
    from_in = omega arith;
    target = refl;
    source = omega arith;
    fewer = omega arith;
    named = λ j there own. elim (dec_eq j 1) [
      | yes e ↦ rw e refl
      | no other ↦ absurd (ground (arith, there, own, other))
    ];
    joined = λ j there own below. absurd (omega (arith, below));
  };
}

execute_relocate_cached-Fits_example : Fits (progress_of (execute_relocate_cached at_start))
execute_relocate_cached-Fits_example =
    execute_relocate_cached-Fits at_start sample_flash at_start-Relocating at_start-Fits refl refl
      refl (omega arith)
      (λ j there. elim (dec_eq j 1) [
        | yes e ↦ rw e (omega arith, refl, omega arith)
        | no other ↦ ground (arith, there, other)
      ])
