-- ===== src/Flush/Finish.antt =====
-- driver/vflush.c: a flush ends, shows the clients nothing and leaves the contents on the drive.
use fdlvling.Base.{
  ℕ, zero, suc, ◌+◌, ◌-◌, ◌/◌, ◌%◌, ◌^◌, ◌<◌, ◌≡◌, ◌≢◌, refl, sym, ◌∙◌, Bool, true, false, not,
  arith, none, if-true, if-false, add32, ◌==◌, ℕ_discrete as dec_eq,
}
use fdlvling.Store.{
  Store, Flash, not_mapped, get_cached_pos, append_run, cache_fill_read_zero, cache_fill_read, view,
}
use fdlvling.Store.Cache.{view-cache_fill_read_zero, view-cache_fill_read}
use fdlvling.WritePath.Place.{rest_of_block}
use fdlvling.Chunk.{purge_place, execute_purge_cache}
use fdlvling.Flush.{
  wait_fill, wait_cache, flush_blocks, flush_handler, Layout, flush_wait, flush_rounds,
  execute_flush,
}
use fdlvling.Flush.Flushable.{
  Flushable, Flushes, Flushes-before, good, handler-whole, handler-dirty, round_lem,
}
use fdlvling.Flush.Rounds.{Flushable-append, whole_rounds}

-- A write of the cache that fails each time is tried again without end, since ExecuteFlushHandler
-- does not look at the mode: the flush is at no fuel at its end.
pub flush_rounds-stuck :
    (fuel i : ℕ) (lay : Layout) (s : Store) (flash : Flash)
    → s.cache_pos % 8 ≡ 0
    → s.cache_dirty ≡ true
    → flush_rounds fuel i lay (λ _. false) s flash ≡ none
unfolding flush_rounds flush_wait execute_purge_cache
flush_rounds-stuck zero i lay s flash whole dirty = refl
flush_rounds-stuck (suc fuel) i lay s flash whole dirty =
    round_lem fuel i lay (λ _. false) s flash (wait_cache s) (handler-dirty s whole dirty)
    ∙ flush_rounds-stuck fuel (i + 1) lay (execute_purge_cache lay.purge_ctl s) flash whole dirty

module _ (lay : Layout) (n i : ℕ) (s : Store) (flash : Flash) (v : Flushable s) where
  -- A block that is begun is filled first.
  begun_rounds :
      s.cache_pos % 8 ≢ 0
      → Flushes s.finalizing s flash (flush_rounds (suc (suc (suc (suc n)))) i lay good s flash)
  unfolding flush_wait flush_handler cache_fill_read_zero cache_fill_read append_run
  begun_rounds begun =
      let lba = add32 (s.cache_lba (s.cache_pos - 1)) 1 in
      let len = 8 - s.cache_pos % 8 in
      let fits : s.cache_pos < 0x1f8 = omega (arith, v.well_formed.fits) in
      let word : s.cache_lba (s.cache_pos - 1) < 2 ^ 32 =
        omega (arith, v.mapped (s.cache_pos - 1) (omega arith), v.map_small) in
      let (a, o) = rest_of_block s flash v.well_formed fits begun word in
      let t : (s.cache_pos % 8 == 0) ≡ false = ground arith in
      elim (dec_eq (s.map (lba / 8)) not_mapped) [
        | yes free ↦
            let s' = cache_fill_read_zero s lba len in
            let v' : Flushable s' = Flushable-append s lba len (λ _. 0) v a begun refl in
            let whole : s'.cache_pos % 8 ≡ 0 = omega (arith, a.room) in
            let e : flush_handler s ≡ flush_blocks s' =
              if-false (s.cache_pos % 8 == 0) _ _ t
              ∙ if-false (not (s.map (lba / 8) == not_mapped)) _ _ (ground arith) in
            rw
              (round_lem (suc (suc (suc n))) i lay good s flash (flush_blocks s') e
                ∙ sym (
                    round_lem (suc (suc (suc n))) i lay good s' flash (flush_blocks s')
                      (handler-whole s' whole)))
              (Flushes-before s.finalizing s s' flash flash _
                (view-cache_fill_read_zero s flash lba len v.well_formed a o free)
                (whole_rounds lay (suc n) i s' flash v' whole))
        | no there ↦
            let s' = cache_fill_read s flash lba len in
            let v' : Flushable s' =
              Flushable-append s lba len (λ k. flash (add32 (add32 (s.map (lba / 8)) (lba % 8)) k))
                v a begun refl in
            let whole : s'.cache_pos % 8 ≡ 0 = omega (arith, a.room) in
            let e : flush_handler s ≡ wait_fill s lba len =
              if-false (s.cache_pos % 8 == 0) _ _ t
              ∙ if-true (not (s.map (lba / 8) == not_mapped)) _ _ (ground arith) in
            rw (round_lem (suc (suc (suc n))) i lay good s flash (wait_fill s lba len) e) (
              Flushes-before s.finalizing s s' flash flash _
                (view-cache_fill_read s flash lba len v.well_formed a o (v.words (lba / 8) there)
                  there)
                (whole_rounds lay n (i + 1) s' flash v' whole))
      ]

  any_rounds :
      Flushes s.finalizing s flash (flush_rounds (suc (suc (suc (suc n)))) i lay good s flash)
  any_rounds = elim (dec_eq (s.cache_pos % 8) 0) [
    | yes whole ↦ whole_rounds lay (suc n) i s flash v whole
    | no begun ↦ begun_rounds begun
  ]

-- For a store that is `Flushable`, a flush whose requests to the drive succeed ends within four rounds,
-- whatever the layout of the control structures is. Every sector has the contents that it had, the cache
-- is empty, so the contents are on the drive, CacheDirty and Flushing are FALSE, and where the flush
-- finalizes the chunk is finalized up to PurgePos. `Flushable` is: CacheDirty is TRUE unless the cache is
-- empty, which the driver does not guarantee; the cache is well-formed and on the map; the current chunk
-- is the newest and has room for a purge; and no block is placed where the cache or CHUNK_CTL go.
pub execute_flush-done :
    (lay : Layout) (finalize : Bool) (s : Store) (flash : Flash)
    → Flushable s
    → Flushes finalize s flash (execute_flush 4 lay (λ _. true) finalize s flash)
unfolding execute_flush view get_cached_pos purge_place
execute_flush-done lay finalize s flash v =
    let start = record s { flushing = true; finalizing = finalize } in
    let v' : Flushable start = record {
      well_formed = v.well_formed;
      mapped = v.mapped;
      map_small = v.map_small;
      newest = v.newest;
      chunk_small = v.chunk_small;
      has_room = v.has_room;
      unused = v.unused;
      words = v.words;
      off_tail = v.off_tail;
      dirty = v.dirty;
    } in
    Flushes-before finalize s start flash flash _ (λ x. refl) (any_rounds lay 0 0 start flash v')
