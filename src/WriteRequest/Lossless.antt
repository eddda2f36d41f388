-- ===== src/WriteRequest/Lossless.antt =====
-- driver/vscsi.c: a request to the drive that fails in a write request loses nothing.
use fdlvling.Base.{
  ℕ, ◌+◌, ◌*◌, ◌≤◌, ◌<◌, ◌≡◌, ◌∙◌, true, false, not, Option, none, some, arith, leb, ltb, ◌==◌,
  if_cases,
}
use fdlvling.Store.{Store, Flash, last_purge_pos, view}
use fdlvling.Flush.{Layout}
use fdlvling.Relocation.{execute_relocate_cached}
use fdlvling.Relocation.Prepared.{view-execute_relocate}
use fdlvling.WritePath.{Placed, go_on, purge_cache, fill_read, write_place}
use fdlvling.WritePath.Outcome.{PlacedRight}
use fdlvling.WritePath.Place.{write_place-right}
use fdlvling.WritePath.Switch.{switch_chunk}
use fdlvling.WriteRequest.{
  WriteStep, all_done, awaits_chunk, placed_step, place_round, relocated_round, relocate_round,
  prepare_round, write_round, failed,
}
use fdlvling.WriteRequest.Invariant.{Sane, Log-CanPurge}
use fdlvling.WriteRequest.Chunks.{MaySwitch, switch_chunk-Kept}
use fdlvling.WriteRequest.Relocate.{relocate_cached-Kept, relocate_cached-ready}
use fdlvling.WriteRequest.Cache.{cache_word}
use fdlvling.WriteRequest.Failure.{fill-failed, cache-failed, chunk-failed, prepare-failed}

-- The contents are as they were.
abbrev pub Unchanged : Store → Flash → Option (Store × Flash) → Type 0
Unchanged s flash none = Unit {0}
Unchanged s flash (some (t, g)) = (x : ℕ) → view t g x ≡ view s flash x

Unchanged-after :
    (s t : Store) (flash : Flash) (o : Option (Store × Flash))
    → ((x : ℕ) → view t flash x ≡ view s flash x)
    → Unchanged t flash o
    → Unchanged s flash o
Unchanged-after s t flash none same u = tt
Unchanged-after s t flash (some (v, g)) same u = λ x. u x ∙ same x

module _ (lay : Layout) (left : ℕ → ℕ) (flash : Flash) (lba len : ℕ) (source : ℕ → ℕ) where
  Loses : Store → WriteStep → Type 0
  Loses s r = Unchanged s flash (failed lay left flash r)

  placed-failed :
      (s : Store)
      → Sane s flash
      → s.purge_pos < last_purge_pos
      → (p : Placed) → PlacedRight s flash lba len source p
      → Loses s (placed_step s p)
  unfolding Loses failed placed_step
  placed-failed s v inside (go_on t n) r = tt
  placed-failed s v inside purge_cache full = λ x.
      cache-failed s flash left x lay.purge_ctl v.well_formed
        (Log-CanPurge s flash v inside (omega (arith, full)))
  placed-failed s v inside (fill_read start n) r =
      λ x. fill-failed s flash left x start n v.well_formed

  module _ (some_len : 0 < len) where
    place-failed :
        (s : Store)
        → Sane s flash
        → lba + len ≤ 8 * s.size_of_map
        → s.purge_pos < last_purge_pos
        → Loses s (place_round s lba len source)
    unfolding place_round
    place-failed s v on_map inside = placed-failed s v inside (write_place s lba len source) (
        write_place-right s flash lba len source v.well_formed (cache_word s flash v) some_len
          (omega (arith, on_map, v.log.map_small)))

    relocate-failed :
        (s : Store)
        → Sane s flash
        → lba + len ≤ 8 * s.size_of_map
        → s.purge_pos < last_purge_pos
        → s.relocation_prepared ≡ true
        → Loses s (relocate_round s lba len source)
    unfolding Loses relocate_round relocated_round failed
    relocate-failed s v on_map inside prepared =
        if_cases (Loses s) (not s.relocation_done) _ (place_round s lba len source)
          (λ e.
            let going : s.relocation_done ≡ false = ground (arith, e) in
            let t = execute_relocate_cached s in
            let k = relocate_cached-Kept s flash v inside prepared going in
            let (inside', prepared') = relocate_cached-ready s flash v inside prepared going in
            if_cases (Loses s) (not t.relocation_done) _ (place_round t lba len source)
              (λ _ x. view-execute_relocate t flash _ x ∙ k.same_view x)
              (λ _.
                Unchanged-after s t flash (failed lay left flash (place_round t lba len source))
                  k.same_view (place-failed t k.sane (omega (arith, on_map, k.same_size)) inside')))
          (λ _. place-failed s v on_map inside)

    prepare-round-failed :
        (s : Store)
        → Sane s flash
        → lba + len ≤ 8 * s.size_of_map
        → s.purge_pos < last_purge_pos
        → Loses s (prepare_round s lba len source)
    unfolding Loses prepare_round failed
    prepare-round-failed s v on_map inside =
        if_cases (Loses s) (not s.relocation_prepared) _ (relocate_round s lba len source)
          (λ e x. prepare-failed s flash left x (v.unprepared (ground (arith, e))))
          (λ e. relocate-failed s v on_map inside (ground (arith, e)))

  -- In a state that satisfies the invariant `Sane`, for a request on the map, if a round of a write waits
  -- for a request to the drive and this fails, then whatever it leaves in the memory that it was to read
  -- to, or on the drive where it was to write, every sector has, by the context in the memory and the
  -- drive, the contents that it had before the round. If the round begins a chunk, SCN + 1 is below 2 ^ 32
  -- and the chunk that FindNextChunk chooses then has no more blocks in use than 63 for each purge that
  -- the new chunk has room for. What becomes of the context afterwards, in the mode ERROR, and
  -- whether a recovery finds the same on the drive, is not stated.
  pub write_round-failed :
      (s : Store)
      → Sane s flash
      → lba + len ≤ 8 * s.size_of_map
      → (last_purge_pos ≤ s.purge_pos → last_purge_pos ≤ s.finalized_pos → MaySwitch s)
      → Unchanged s flash (failed lay left flash (write_round s lba len source))
  unfolding Loses write_round failed switch_chunk
  write_round-failed s v on_map may =
      if_cases (Loses s) (len == 0) (all_done s) _ (λ _. tt)
        (λ more.
          let some_len : 0 < len = ground (arith, more) in
          if_cases (Loses s) (leb last_purge_pos s.purge_pos) _ (prepare_round s lba len source)
            (λ e.
              let ended : last_purge_pos ≤ s.purge_pos = ground (arith, e) in
              if_cases (Loses s) (ltb s.finalized_pos last_purge_pos) (awaits_chunk s)
                (prepare_round (switch_chunk s) lba len source)
                (λ _ x. chunk-failed s flash left x lay.chunk_ctl v.log (v.full ended))
                (λ final.
                  let t = switch_chunk s in
                  let k = switch_chunk-Kept s flash v ended (may ended (ground (arith, final))) in
                  Unchanged-after s t flash (failed lay left flash (prepare_round t lba len source))
                    k.same_view
                    (prepare-round-failed some_len t k.sane (omega (arith, on_map, k.same_size))
                      (ground arith))))
            (λ e. prepare-round-failed some_len s v on_map (ground (arith, e))))
