-- ===== src/Relocation/Blocks.antt =====
-- driver/vrelocation.c: the invariant of the relocation, and the blocks that it passes over or joins.
use fdlvling.Base.{
  ℕ, ◌+◌, ◌-◌, ◌*◌, ◌/◌, ◌%◌, ◌^◌, ◌≤◌, ◌<◌, ◌≡◌, refl, ap, ◌∙◌, true, inl, inr, arith, dec_lt,
}
use fdlvling.Store.{
  Store, Flash, ChunkInfo, size_of_chunk, last_purge_pos, last_cache_pos, get_cached_pos,
  append_run, view,
}
use fdlvling.Store.Lookup.{WellFormed}
use fdlvling.Store.Append.{
  Appends, append_run-WellFormed, Appends-uncached, view-append_run, lba-old, lba-new', pos-append,
}
use fdlvling.Store.Cache.{in_run}
use fdlvling.Relocation.{next_place, in_use, join_block, next_block}

-- The part of the context that the log of chunks is about.
pub record LogState : Type 0 where
  pub size_of_map : ℕ
  pub max_chunks : ℕ
  pub map : ℕ → ℕ
  pub chunk_info : ℕ → ChunkInfo
  pub chunk_no : ℕ
  pub next_chunk_no : ℕ
  pub finalized_pos : ℕ
  pub purge_pos : ℕ

abbrev pub log_of : Store → LogState
log_of s = record {
  size_of_map = s.size_of_map;
  max_chunks = s.max_chunks;
  map = s.map;
  chunk_info = s.chunk_info;
  chunk_no = s.chunk_no;
  next_chunk_no = s.next_chunk_no;
  finalized_pos = s.finalized_pos;
  purge_pos = s.purge_pos;
}

-- While blocks are relocated: the cache has whole blocks, all of them relocated from positions
-- before RelocatePos; RelocateMem has the sectors of the window; and CHUNK_CTL of the next chunk
-- names the start of each block that is in use there.
pub record Relocating (s : Store) (flash : Flash) : Type 0 where
  pub well_formed : WellFormed s.cache_lba s.cache_pos
  pub whole : s.cache_pos % 8 ≡ 0
  pub map_small : s.size_of_map ≤ 2 ^ 29
  pub next_small : s.next_chunk_no < 500
  pub pos_whole : s.relocate_pos % 8 ≡ 0
  pub pos_in : s.relocate_pos ≤ last_purge_pos
  pub start_whole : s.relocate_window_start % 8 ≡ 0
  pub end_whole : s.relocate_window_end % 8 ≡ 0
  pub window_fits : s.relocate_window_end ≤ last_purge_pos
  pub window_read :
      (k : ℕ)
      → s.relocate_window_start + k < s.relocate_window_end
      → s.relocate_mem k ≡ flash (s.next_chunk_no * size_of_chunk + s.relocate_window_start + k)
  pub starts :
      (i : ℕ) → 8 * i < last_purge_pos → in_use s (8 * i) ≡ true → s.next_chunk_lba i % 8 ≡ 0
  pub before :
      (p : ℕ)
      → p < s.cache_pos
      → s.map (s.cache_lba p / 8) < s.next_chunk_no * size_of_chunk + s.relocate_pos
  pub mapped : (p : ℕ) → p < s.cache_pos → s.cache_lba p / 8 < s.size_of_map

-- The relocation so far: the contents and the log are as they were.
pub record Relocated (s t : Store) (flash : Flash) : Type 0 where
  pub relocating : Relocating t flash
  pub same_view : (x : ℕ) → view t flash x ≡ view s flash x
  pub same_log : log_of t ≡ log_of s

pub Relocated-trans :
    (s t u : Store) (flash : Flash)
    → Relocated s t flash
    → Relocated t u flash
    → Relocated s u flash
Relocated-trans s t u flash a b = record {
  relocating = b.relocating;
  same_view = λ x. b.same_view x ∙ a.same_view x;
  same_log = b.same_log ∙ a.same_log;
}

module _ (s : Store) (flash : Flash) (v : Relocating s flash)
    (inside : s.relocate_pos < last_purge_pos) where
  -- A block that is passed over.
  pub pass-Relocated : Relocated s (next_block s) flash
  unfolding next_block view get_cached_pos in_use
  pass-Relocated = record {
    relocating = record {
      well_formed = v.well_formed;
      whole = v.whole;
      map_small = v.map_small;
      next_small = v.next_small;
      pos_whole = omega (arith, v.pos_whole);
      pos_in = omega (arith, inside, v.pos_whole);
      start_whole = v.start_whole;
      end_whole = v.end_whole;
      window_fits = v.window_fits;
      window_read = v.window_read;
      starts = v.starts;
      before = λ p h. omega (arith, v.before p h);
      mapped = v.mapped;
    };
    same_view = λ x. refl;
    same_log = refl;
  }

  module _ (used : in_use s s.relocate_pos ≡ true) where
    pub in_use_block :
        (s.next_chunk_lba (s.relocate_pos / 8) / 8 < s.size_of_map)
        × (s.map (s.next_chunk_lba (s.relocate_pos / 8) / 8)
            ≡ s.next_chunk_no * size_of_chunk + s.relocate_pos)
        × (s.next_chunk_lba (s.relocate_pos / 8) % 8 ≡ 0)
    unfolding in_use next_place
    in_use_block =
        let e : 8 * (s.relocate_pos / 8) ≡ s.relocate_pos = omega (arith, v.pos_whole) in
        (
          ground (arith, used),
          ground (arith, used, v.next_small),
          v.starts (s.relocate_pos / 8) (omega arith) (ap (in_use s) e ∙ used),
        )

    module _ (room : s.cache_pos < last_cache_pos) where
      pub block-Appends : Appends s (s.next_chunk_lba (s.relocate_pos / 8)) 8
      block-Appends =
          let (small, place, start) = in_use_block in
          record {
            some_len = omega arith;
            room = omega (arith, v.whole);
            place = omega (arith, v.whole);
            next = λ z. absurd (z v.whole);
            new = λ k p h z lt e.
                let same : s.cache_lba p / 8 ≡ s.next_chunk_lba (s.relocate_pos / 8) / 8 =
                  omega arith in
                omega (arith, v.before p lt, ap s.map same);
            word = omega (arith, v.map_small);
          }

      -- A block in the window joins the cache.
      pub join-Relocated :
          s.relocate_window_start ≤ s.relocate_pos
          → s.relocate_pos < s.relocate_window_end
          → Relocated s (next_block (join_block s)) flash
      unfolding next_block join_block append_run in_use view get_cached_pos
      join-Relocated lo hi =
          let lba = s.next_chunk_lba (s.relocate_pos / 8) in
          let source = λ (i : ℕ). s.relocate_mem (s.relocate_pos - s.relocate_window_start + i) in
          let a = block-Appends in
          let (small, place, start) = in_use_block in
          let pos = pos-append s lba 8 source v.well_formed a in
          record {
            relocating = record {
              well_formed = append_run-WellFormed s lba 8 source v.well_formed a;
              whole = omega (arith, pos, v.whole);
              map_small = v.map_small;
              next_small = v.next_small;
              pos_whole = omega (arith, v.pos_whole);
              pos_in = omega (arith, inside, v.pos_whole);
              start_whole = v.start_whole;
              end_whole = v.end_whole;
              window_fits = v.window_fits;
              window_read = v.window_read;
              starts = v.starts;
              before = λ p h. elim (dec_lt p s.cache_pos) [
                | yes old ↦
                    let e =
                      ap (λ x. s.map (x / 8)) (lba-old s lba 8 source v.well_formed a p old) in
                    omega (arith, e, v.before p old)
                | no new ↦
                    let at =
                      lba-new' s lba 8 source v.well_formed a p (omega arith)
                        (omega (arith, pos)) in
                    let same : (append_run s lba 8 source).cache_lba p / 8 ≡ lba / 8 =
                      omega (arith, pos) in
                    omega (arith, ap s.map same, place)
              ];
              mapped = λ p h. elim (dec_lt p s.cache_pos) [
                | yes old ↦
                    omega (arith, lba-old s lba 8 source v.well_formed a p old, v.mapped p old)
                | no new ↦ omega (
                  arith,
                  pos,
                  lba-new' s lba 8 source v.well_formed a p (omega arith) (omega (arith, pos)),
                )
              ];
            };
            same_view = λ x. elim (in_run x lba 8) [
              | inl (k, h, e) ↦
                  let same : x / 8 ≡ lba / 8 = omega arith in
                  let gone = Appends-uncached s lba 8 source v.well_formed a k h in
                  let there : s.next_chunk_no * size_of_chunk
                        + s.relocate_window_start
                        + (s.relocate_pos - s.relocate_window_start + k)
                      ≡ s.map (x / 8) + x % 8 =
                    omega (arith, ap s.map same, place) in
                  (view-append_run s lba 8 source v.well_formed a flash x).0 k h e
                  ∙ v.window_read (s.relocate_pos - s.relocate_window_start + k)
                      (omega (arith, v.pos_whole, v.end_whole))
                  ∙ ap flash there
                  ∙ ground
                      (arith, ap (get_cached_pos s) e ∙ gone, ap s.map same, place, v.next_small)
              | inr other ↦ (view-append_run s lba 8 source v.well_formed a flash x).1 other
            ];
            same_log = refl;
          }
