-- ===== src/Flush/Rounds.antt =====
-- driver/vflush.c: the rounds of a flush.
use fdlvling.Base.{
  ℕ, suc, ◌+◌, ◌-◌, ◌*◌, ◌/◌, ◌%◌, ◌≤◌, ◌<◌, ◌≡◌, ◌≢◌, refl, ◌∙◌, false, ◌&&◌, ◌⊎◌, inl, inr, arith,
  if-true, if-false, ltb, Bool-cases, ℕ_discrete as dec_eq,
}
use fdlvling.Store.{
  Store, Flash, not_mapped, size_of_chunk, last_purge_pos, get_cached_pos, cached_scan,
  copy_sectors, append_run, view,
}
use fdlvling.Store.Lookup.{entry}
use fdlvling.Store.Append.{Appends, append_run-WellFormed, lba-old, pos-append}
use fdlvling.Chunk.{
  purge_place, execute_purge_cache, purge_flash, purge_cache_completion, execute_purge_chunk,
  purge_chunk_flash, purge_chunk_completion,
}
use fdlvling.Chunk.Purge.{CanPurge, sealed-CanPurge, view-execute_purge_cache}
use fdlvling.Flush.{
  wait_cache, wait_chunk, flushed, flush_blocks, flush_handler, Layout, flush_wait, flush_rounds,
}
use fdlvling.Flush.Flushable.{
  Flushable, Flushes, Flushes-before, Flushes-flag, good, handler-whole, handler-dirty, purged-kept,
  purged_off_tail, round_lem,
}

module _ (lay : Layout) where
  -- The last round.
  pub finish_round :
      (n i : ℕ) (s : Store) (flash : Flash)
      → s.cache_pos ≡ 0
      → s.cache_dirty ≡ false
      → (s.finalizing && ltb s.finalized_pos s.purge_pos) ≡ false
      → Flushes s.finalizing s flash (flush_rounds (suc n) i lay good s flash)
  unfolding flush_wait flush_blocks view get_cached_pos
  finish_round n i s flash empty clean final = (
    record s { flushing = false },
    flash,
    round_lem n i lay good s flash (flushed (record s { flushing = false })) (
        handler-whole s (omega arith)
        ∙ if-false s.cache_dirty _ _ clean
        ∙ if-false (s.finalizing && ltb s.finalized_pos s.purge_pos) _ _ final),
    record {
      same_view = λ x. refl;
      empty = empty;
      clean = clean;
      over = refl;
      final = λ e. ground (arith, final, e);
    },
  )

  -- Where CHUNK_CTL goes there is no block, and nothing is in the cache.
  pub chunk_view :
      (s : Store) (flash : Flash)
      → s.cache_pos ≡ 0
      → s.chunk_no < 500
      → ((j : ℕ)
          → s.map j ≢ not_mapped
          → (s.map j + 8 ≤ s.chunk_no * size_of_chunk + last_purge_pos)
            ⊎ ((s.chunk_no + 1) * size_of_chunk ≤ s.map j))
      → (x : ℕ)
      → let t = execute_purge_chunk lay.chunk_ctl s in
        view (purge_chunk_completion t) (purge_chunk_flash t flash) x ≡ view s flash x
  unfolding view get_cached_pos execute_purge_chunk purge_chunk_completion purge_chunk_flash
      copy_sectors cached_scan
  chunk_view s flash empty small off_tail x =
      let none_scanned : (s.cache_pos + 7) / 8 ≡ 0 = omega arith in
      elim (dec_eq (s.map (x / 8)) not_mapped) [
        | yes free ↦ rw none_scanned (ground (arith, free))
        | no there ↦ rw none_scanned (ground (arith, there, off_tail (x / 8) there))
      ]

  -- With the cache empty: CHUNK_CTL is written where the flush finalizes.
  pub empty_rounds :
      (n i : ℕ) (s : Store) (flash : Flash)
      → s.cache_pos ≡ 0
      → s.cache_dirty ≡ false
      → s.chunk_no < 500
      → ((j : ℕ)
          → s.map j ≢ not_mapped
          → (s.map j + 8 ≤ s.chunk_no * size_of_chunk + last_purge_pos)
            ⊎ ((s.chunk_no + 1) * size_of_chunk ≤ s.map j))
      → Flushes s.finalizing s flash (flush_rounds (suc (suc n)) i lay good s flash)
  unfolding flush_wait flush_blocks execute_purge_chunk purge_chunk_completion
  empty_rounds n i s flash empty clean small off_tail =
      elim (Bool-cases (s.finalizing && ltb s.finalized_pos s.purge_pos)) [
        | inr f ↦ finish_round (suc n) i s flash empty clean f
        | inl t ↦
            let chunk = execute_purge_chunk lay.chunk_ctl s in
            let e : flush_handler s ≡ wait_chunk s =
              handler-whole s (omega arith)
              ∙ if-false s.cache_dirty _ _ clean
              ∙ if-true (s.finalizing && ltb s.finalized_pos s.purge_pos) _ _ t in
            rw (round_lem (suc n) i lay good s flash (wait_chunk s) e) (
              Flushes-before s.finalizing s (purge_chunk_completion chunk) flash
                (purge_chunk_flash chunk flash) _ (chunk_view s flash empty small off_tail)
                (finish_round n (i + 1) (purge_chunk_completion chunk)
                  (purge_chunk_flash chunk flash) empty clean (ground arith)))
      ]

  -- With whole blocks in the cache: it is purged where it is dirty.
  pub whole_rounds :
      (n i : ℕ) (s : Store) (flash : Flash)
      → Flushable s
      → s.cache_pos % 8 ≡ 0
      → Flushes s.finalizing s flash (flush_rounds (suc (suc (suc n))) i lay good s flash)
  unfolding flush_wait execute_purge_cache purge_cache_completion
  whole_rounds n i s flash v whole = elim (Bool-cases s.cache_dirty) [
    | inr clean ↦ empty_rounds (suc n) i s flash (v.dirty clean) clean v.chunk_small v.off_tail
    | inl dirty ↦
        let c : CanPurge s = record {
          whole = whole;
          mapped = v.mapped;
          newest = v.newest;
          chunk_small = v.chunk_small;
          has_room = v.has_room;
          unused = v.unused;
        } in
        let t = execute_purge_cache lay.purge_ctl s in
        let c' : CanPurge t = sealed-CanPurge lay.purge_ctl s c in
        let (chunk, finalizing) = purged-kept t in
        let off = purged_off_tail t v.well_formed c' v.off_tail in
        let rest =
          empty_rounds n (i + 1) (purge_cache_completion t) (purge_flash t flash) refl refl
            (omega (arith, chunk, v.chunk_small)) (λ j there. rw chunk (off j there)) in
        rw (round_lem (suc (suc n)) i lay good s flash (wait_cache s) (handler-dirty s whole dirty))
          (Flushes-before s.finalizing s (purge_cache_completion t) flash (purge_flash t flash) _
            (λ x. (view-execute_purge_cache lay.purge_ctl s flash x v.well_formed c).0)
            (Flushes-flag _ s.finalizing (purge_cache_completion t) (purge_flash t flash) _
              finalizing rest))
  ]

-- The rest of the last block joins a cache that may be flushed.
pub Flushable-append :
    (s : Store) (lba len : ℕ) (source : ℕ → ℕ)
    → Flushable s
    → Appends s lba len
    → s.cache_pos % 8 ≢ 0
    → len ≡ 8 - s.cache_pos % 8
    → Flushable (append_run s lba len source)
unfolding append_run purge_place
Flushable-append s lba len source v a begun rest =
    let w' = append_run-WellFormed s lba len source v.well_formed a in
    let pos = pos-append s lba len source v.well_formed a in
    record {
      well_formed = w';
      mapped = λ p lt.
          let (own, start) =
            entry (append_run s lba len source).cache_lba (append_run s lba len source).cache_pos w'
              p lt in
          let old : 8 * (p / 8) < s.cache_pos = omega (arith, pos) in
          let head = lba-old s lba len source v.well_formed a (8 * (p / 8)) old in
          omega (arith, own, start, head, v.mapped (8 * (p / 8)) old);
      map_small = v.map_small;
      newest = v.newest;
      chunk_small = v.chunk_small;
      has_room = v.has_room;
      unused = v.unused;
      words = v.words;
      off_tail = v.off_tail;
      dirty = λ e. absurd (begun (omega (arith, v.dirty e)));
    }
