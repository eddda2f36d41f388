-- ===== src/WriteRequest/Joining.antt =====
-- driver/vrelocation.c: ExecuteRelocateCached leaves no more blocks in the next chunk than the purges
-- after this one have room for.
use fdlvling.Base.{
  ℕ, zero, suc, ◌+◌, ◌-◌, ◌*◌, ◌/◌, ◌%◌, ◌≤◌, ◌<◌, ◌≡◌, ◌≢◌, refl, sym, ap, ◌∙◌, ◌⊎◌, inl, inr,
  Bool, true, false, not, ◌&&◌, arith, ltb, leb, if_cases, dec_lt,
}
use fdlvling.Store.{
  Store, Flash, not_mapped, size_of_chunk, last_purge_pos, last_cache_pos, get_cached_pos,
  append_run,
}
use fdlvling.Store.Lookup.{cached}
use fdlvling.Store.Append.{Appends-uncached, append_run-WellFormed, lba-old, lba-new', pos-append}
use fdlvling.Chunk.Usage.{in_chunk}
use fdlvling.Relocation.{
  next_place, in_use, Round, goes_on, ends, join_block, next_block, relocate_block, after_block,
  relocate_blocks,
}
use fdlvling.Relocation.Blocks.{Relocating, in_use_block, block-Appends}
use fdlvling.Relocation.Contents.{RoundRight, relocate_block-right}
use fdlvling.WriteRequest.Remaining.{
  waiting-one, progress_of, remaining, NamesAll, Finds, KeepsEntries-Finds,
}

-- What holds from one block to the next, with the target and the source of the relocation.
pub record Going (target source : ℕ) (s : Store) : Type 0 where
  pub same_target : s.relocate_target ≡ target
  pub same_source : s.relocate_source ≡ source
  pub places : (j : ℕ) → s.map j ≢ not_mapped → (j < s.size_of_map) × (s.map j % 8 ≡ 0)
  pub share : remaining (progress_of s) + s.cache_pos / 8 ≤ (s.chunk_info s.next_chunk_no).used
  pub named : NamesAll s.map s.next_chunk_no s.next_chunk_lba
  pub joined :
      (j : ℕ)
      → s.map j ≢ not_mapped
      → s.map j / size_of_chunk ≡ s.next_chunk_no
      → s.map j % size_of_chunk < s.relocate_pos
      → get_cached_pos s (8 * j) ≢ not_mapped

module _ (target source : ℕ) (s : Store) (flash : Flash) (v : Relocating s flash)
    (g : Going target source s) (inside : s.relocate_pos < last_purge_pos) where
  -- A block that is placed at RelocatePos is in use there.
  named_in_use :
      (j : ℕ)
      → s.map j ≢ not_mapped
      → s.map j / size_of_chunk ≡ s.next_chunk_no
      → s.map j % size_of_chunk ≡ s.relocate_pos
      → (in_use s s.relocate_pos ≡ true) × (s.next_chunk_lba (s.relocate_pos / 8) ≡ 8 * j)
  unfolding in_use next_place
  named_in_use j there own at =
      let name : s.next_chunk_lba (s.relocate_pos / 8) ≡ 8 * j =
        ap (λ p. s.next_chunk_lba (p / 8)) (sym at) ∙ g.named j there own in
      let block : s.next_chunk_lba (s.relocate_pos / 8) / 8 ≡ j = omega (arith, name) in
      let (small, whole) = g.places j there in
      (rw block (ground (arith, small, v.next_small, own, at)), name)

  pass-Going : in_use s s.relocate_pos ≡ false → Going target source (next_block s)
  unfolding next_block get_cached_pos
  pass-Going unused = record {
    same_target = g.same_target;
    same_source = g.same_source;
    places = g.places;
    share = g.share;
    named = g.named;
    joined = λ j there own below. elim (dec_lt (s.map j % size_of_chunk) s.relocate_pos) [
      | yes before ↦ g.joined j there own before
      | no after ↦
          let (small, whole) = g.places j there in
          let at : s.map j % size_of_chunk ≡ s.relocate_pos =
            omega (arith, whole, v.pos_whole, below) in
          absurd (cc ((named_in_use j there own at).0, unused))
    ];
  }

  module _ (used : in_use s s.relocate_pos ≡ true) (room : s.cache_pos < last_cache_pos) where
    -- The block that joins is found, and every other that was.
    join-found :
        let lba = s.next_chunk_lba (s.relocate_pos / 8) in
        Finds (get_cached_pos s) (get_cached_pos (join_block s))
        × (get_cached_pos (join_block s) (8 * (lba / 8)) ≢ not_mapped)
        × (get_cached_pos s (8 * (lba / 8)) ≡ not_mapped)
    unfolding join_block
    join-found =
        let lba = s.next_chunk_lba (s.relocate_pos / 8) in
        let mem = λ (i : ℕ). s.relocate_mem (s.relocate_pos - s.relocate_window_start + i) in
        let a = block-Appends s flash v inside used room in
        let (small, place, start) = in_use_block s flash v inside used in
        let w' = append_run-WellFormed s lba 8 mem v.well_formed a in
        let pos = pos-append s lba 8 mem v.well_formed a in
        let at : 8 * (lba / 8) ≡ lba + 0 = omega (arith, start) in
        (
          KeepsEntries-Finds s (join_block s) v.well_formed w'
              (omega (arith, pos), lba-old s lba 8 mem v.well_formed a),
          λ z. absurd (
              omega (
                arith,
                z,
                room,
                cached (append_run s lba 8 mem) (8 * (lba / 8)) s.cache_pos w' (omega (arith, pos))
                    (lba-new' s lba 8 mem v.well_formed a s.cache_pos (omega arith) (omega arith)
                      ∙ omega (arith, start)),
              )),
          ap (get_cached_pos s) at ∙ Appends-uncached s lba 8 mem v.well_formed a 0 (omega arith),
        )

    join-Going : Going target source (next_block (join_block s))
    unfolding next_block join_block append_run get_cached_pos
    join-Going =
        let lba = s.next_chunk_lba (s.relocate_pos / 8) in
        let (small, place, start) = in_use_block s flash v inside used in
        let (finds, there', gone) = join-found in
        let one : in_chunk s.next_chunk_no (s.map (lba / 8)) ≡ 1 =
          ground (arith, place, v.next_small, inside) in
        let step =
          waiting-one s.size_of_map s.map s.next_chunk_no (get_cached_pos s)
            (get_cached_pos (join_block s)) (lba / 8) finds small one gone there' in
        record {
          same_target = g.same_target;
          same_source = g.same_source;
          places = g.places;
          share = omega (arith, step, g.share, room);
          named = g.named;
          joined = λ j there own below z. elim (dec_lt (s.map j % size_of_chunk) s.relocate_pos) [
            | yes before ↦ g.joined j there own before (finds (8 * j) z)
            | no after ↦
                let (small', whole) = g.places j there in
                let at : s.map j % size_of_chunk ≡ s.relocate_pos =
                  omega (arith, whole, v.pos_whole, below) in
                let name = (named_in_use j there own at).1 in
                let same : 8 * j ≡ 8 * (lba / 8) = omega (arith, name) in
                there' (ap (get_cached_pos (join_block s)) (sym same) ∙ z)
          ];
        }

-- Where the loop ends at `done`: behind the last block, or with a full cache.
abbrev pub LoopEnds : Store → Type 0
LoopEnds s = (last_purge_pos ≤ s.relocate_pos) ⊎ (last_cache_pos ≤ s.cache_pos)

abbrev RoundGoing : ℕ → ℕ → Store → Round → Type 0
RoundGoing target source s (ends at_done) = at_done ≡ true → LoopEnds s
RoundGoing target source s (goes_on t) =
    Going target source t × (t.relocate_pos ≡ s.relocate_pos + 8)

relocate_block-Going :
    (target source : ℕ) (s : Store) (flash : Flash)
    → Relocating s flash
    → Going target source s
    → RoundGoing target source s (relocate_block s)
unfolding relocate_block next_block join_block append_run
relocate_block-Going target source s flash v g =
    let X = RoundGoing target source s in
    if_cases X (leb last_purge_pos s.relocate_pos) _ _ (λ e _. inl (ground (arith, e)))
      (λ more.
        let inside : s.relocate_pos < last_purge_pos = ground (arith, more) in
        if_cases X (not (in_use s s.relocate_pos)) _ _
          (λ unused. (pass-Going target source s flash v g inside (ground (arith, unused)), refl))
          (λ used.
            let used' : in_use s s.relocate_pos ≡ true = ground (arith, used) in
            if_cases X (leb last_cache_pos s.cache_pos) _ _ (λ e _. inr (ground (arith, e)))
              (λ room.
                if_cases X
                  (not (
                    leb s.relocate_window_start s.relocate_pos
                    && ltb s.relocate_pos s.relocate_window_end))
                  _ _ (λ _ e. absurd (ground (arith, e)))
                  (λ _. (
                    join-Going target source s flash v g inside used' (ground (arith, room)),
                    refl,
                  )))))

abbrev pub LoopGoing : ℕ → ℕ → Store × Bool → Type 0
LoopGoing target source r = Going target source r.0 × (r.1 ≡ true → LoopEnds r.0)

after_block-Going :
    (target source : ℕ) (s : Store) (flash : Flash) (r : Round) (next : Store → Store × Bool)
    → Going target source s
    → RoundGoing target source s r
    → RoundRight s flash r
    → ((t : Store)
        → Relocating t flash
        → Going target source t
        → t.relocate_pos ≡ s.relocate_pos + 8
        → LoopGoing target source (next t))
    → LoopGoing target source (after_block r s next)
unfolding after_block
after_block-Going target source s flash (ends at_done) next g over right ih = (g, over)
after_block-Going target source s flash (goes_on t) next g (g', pos) (right, same) ih =
    ih t right.relocating g' pos

-- The loop, with enough rounds left for the blocks of the chunk.
pub relocate_blocks-Going :
    (target source n : ℕ) (s : Store) (flash : Flash)
    → Relocating s flash
    → Going target source s
    → last_purge_pos ≤ s.relocate_pos + 8 * n
    → LoopGoing target source (relocate_blocks n s)
unfolding relocate_blocks
relocate_blocks-Going target source zero s flash v g enough = (g, λ _. inl (omega (arith, enough)))
relocate_blocks-Going target source (suc n) s flash v g enough =
    after_block-Going target source s flash (relocate_block s) (relocate_blocks n) g
      (relocate_block-Going target source s flash v g) (relocate_block-right s flash v)
      (λ t w g' pos.
        relocate_blocks-Going target source n t flash w g' (omega (arith, enough, pos)))
