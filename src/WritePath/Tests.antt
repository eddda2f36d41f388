-- ===== src/WritePath/Tests.antt =====
-- driver/vscsi.c: a round of a write, on a concrete context.
use fdlvling.Base.{ℕ, ◌+◌, ◌≡◌, refl, inl, inr, if_cases, if◌then◌else◌, ◌==◌}
use fdlvling.Store.{Store, not_mapped, view}
use fdlvling.Chunk.Usage.{placed}
use fdlvling.Chunk.Purge.{CanPurge}
use fdlvling.Recovery.Sound.{Sound, InData}
use fdlvling.WritePath.Switch.{CanSwitch, switch_chunk, switch_chunk-CanPurge}
use fdlvling.Base.{arith}
use fdlvling.WritePath.{write_place}
use fdlvling.WritePath.Outcome.{PlacedRight}
use fdlvling.WritePath.Place.{write_place-right}
use fdlvling.Store.Sample.{sample, sample_flash, sample-WellFormed}

write_place_example :
    PlacedRight sample sample_flash 26 9 (λ k. 7 + k) (write_place sample 26 9 (λ k. 7 + k))
write_place_example =
    write_place-right sample sample_flash 26 9 (λ k. 7 + k) (sample-WellFormed 10 (omega arith))
      (λ p lt. omega arith) (omega arith) (omega arith)

-- The sample with an empty cache and a full chunk 0, before chunk 1.
abbrev full_chunk : Store
full_chunk = record sample { cache_pos = 0; purge_pos = 0x3fe00; finalized_pos = 0x3fe00 }

full_chunk-CanSwitch : CanSwitch full_chunk
unfolding placed
full_chunk-CanSwitch = record {
  sound = record {
    counted = record { short = omega arith; right = λ c. ground arith };
    places = λ j.
        if_cases (InData full_chunk j) (j == 1) 0x80000 (if j == 3 then 0x200 else not_mapped)
          (λ e. inr (ground (arith, e), refl, omega arith, omega arith))
          (λ _.
            if_cases (InData full_chunk j) (j == 3) 0x200 not_mapped
              (λ e. inr (ground (arith, e), refl, omega arith, omega arith)) (λ _. inl refl));
  };
  newest = λ c. ground arith;
  not_last = omega arith;
  few = omega arith;
  next_in = omega arith;
  next_unused = refl;
  empty = refl;
}

switch_chunk-CanPurge_example :
    let t = switch_chunk full_chunk in
    (CanPurge t × Sound t) × ((x : ℕ) → view t sample_flash x ≡ view full_chunk sample_flash x)
switch_chunk-CanPurge_example = switch_chunk-CanPurge full_chunk sample_flash full_chunk-CanSwitch
