-- ===== src/WriteRequest/Purge.antt =====
-- driver/vscsi.c: the purge of a full cache in a write request keeps the invariant.
use fdlvling.Base.{
  ℕ, ◌+◌, ◌*◌, ◌/◌, ◌%◌, ◌≤◌, ◌<◌, ◌≡◌, ◌≢◌, refl, sym, ap, ◌∙◌, ◌⊎◌, inl, inr, true, false, arith,
  add32,
}
use std.Path.{subst}
use fdlvling.Store.{
  Store, Flash, ChunkInfo, size_of_chunk, size_of_cache, last_purge_pos, copy_sectors,
  get_cached_pos,
}
use fdlvling.Chunk.{
  PurgeCtl, purge_lba, purge_place, execute_purge_cache, purge_flash, purge_cache_completion,
  update_map,
}
use fdlvling.Chunk.Placement.{map_blocks-places, map_blocks-scn}
use fdlvling.Chunk.Purge.{view-execute_purge_cache}
use fdlvling.Recovery.Sound.{Sound, update_map-only, update_map-Sound}
use fdlvling.Relocation.{in_use, next_place}
use fdlvling.WriteRequest.Remaining.{progress_of}
use fdlvling.WriteRequest.Emptied.{StillThere, purge-StillThere, emptied-Fits}
use fdlvling.WriteRequest.Invariant.{Log, Sane, Kept, same-Log, Log-CanPurge}

-- A sector of the next chunk is not where the cache goes.
purge_flash-next :
    (s : Store) (flash : Flash) (x : ℕ)
    → s.chunk_no < 500
    → s.next_chunk_no < 500
    → s.next_chunk_no ≢ s.chunk_no
    → s.purge_pos + size_of_cache ≤ last_purge_pos
    → x < last_purge_pos
    → purge_flash s flash (s.next_chunk_no * size_of_chunk + x)
      ≡ flash (s.next_chunk_no * size_of_chunk + x)
unfolding purge_flash copy_sectors purge_place
purge_flash-next s flash x chunk_in next_in other room h =
    ground (arith, chunk_in, next_in, other, room)

-- The context that the purge leaves, with the new map and the new use of the chunks.
purged : Store → (ℕ → ℕ) → (ℕ → ChunkInfo) → Store
purged s map info = record s {
  map = map;
  chunk_info = info;
  cache_pos = 0;
  purge_pos = add32 s.purge_pos size_of_cache;
  relocation_done = false;
  cache_dirty = false;
}

-- What UpdateMap guarantees of them.
record Updates (s : Store) (map : ℕ → ℕ) (info : ℕ → ChunkInfo) : Type 0 where
  sound : Sound (record s { map = map; chunk_info = info })
  same_scn : (c : ℕ) → (info c).scn ≡ (s.chunk_info c).scn
  moved :
      (j : ℕ)
      → (map j ≡ s.map j)
        ⊎ ((map j / size_of_chunk ≡ s.chunk_no)
            × (map j % size_of_chunk + 8 ≤ s.purge_pos + size_of_cache))

updates :
    (s : Store) (flash : Flash)
    → Sane s flash
    → s.purge_pos < last_purge_pos
    → s.cache_pos % 8 ≡ 0
    → let u = update_map s (purge_lba s) s.cache_pos (purge_place s) in Updates s u.map u.chunk_info
unfolding purge_place update_map
updates s flash v inside whole =
    let l = v.log in
    let u = update_map s (purge_lba s) s.cache_pos (purge_place s) in
    let fits = v.well_formed.fits in
    let room : s.purge_pos + size_of_cache ≤ last_purge_pos = omega (arith, l.pos_whole, inside) in
    let place : purge_place s ≡ s.chunk_no * size_of_chunk + s.purge_pos =
      omega (arith, l.chunk_in, l.few, l.pos_in) in
    let kept =
      update_map-Sound s (purge_lba s) s.cache_pos s.chunk_no s.purge_pos l.sound l.few l.chunk_in
        (omega (arith, l.pos_whole)) whole (omega (arith, room, fits)) in
    let e = update_map-only s (purge_lba s) s.cache_pos (purge_place s) in
    record {
      sound = subst Sound e kept;
      same_scn = λ c. map_blocks-scn ((s.cache_pos + 7) / 8) 0 s _ (purge_lba s) (purge_place s) c;
      moved =
          map_blocks-places
            (λ j p.
              (p ≡ s.map j)
              ⊎ ((p / size_of_chunk ≡ s.chunk_no)
                  × (p % size_of_chunk + 8 ≤ s.purge_pos + size_of_cache)))
            ((s.cache_pos + 7) / 8) 0 s (purge_place s / size_of_chunk) (purge_lba s)
            (purge_place s) (λ j. inl refl)
            (λ j i small lt.
              inr (omega (arith, place, room, fits), omega (arith, place, room, fits)))
            (omega (arith, place, room, fits, l.chunk_in, l.few));
    }

purged-Log :
    (s : Store) (map : ℕ → ℕ) (info : ℕ → ChunkInfo)
    → Log s
    → s.purge_pos < last_purge_pos
    → Updates s map info
    → Log (purged s map info)
unfolding purged
purged-Log s map info l inside d = record {
  sound = record {
    counted = record { short = d.sound.counted.short; right = d.sound.counted.right };
    places = d.sound.places;
  };
  map_small = l.map_small;
  few = l.few;
  chunk_in = l.chunk_in;
  next_in = l.next_in;
  other = l.other;
  newest = λ c. omega (arith, l.newest c, d.same_scn c, d.same_scn s.chunk_no);
  pos_whole = omega (arith, l.pos_whole, inside);
  pos_in = omega (arith, l.pos_whole, inside);
  behind = λ j there own. elim (d.moved j) [
    | inl same ↦ omega (
      arith,
      same,
      l.pos_whole,
      inside,
      own,
      l.behind j (λ e. there (same ∙ e)) (ap (λ p. p / size_of_chunk) (sym same) ∙ own),
    )
    | inr (chunk, below) ↦ omega (arith, l.pos_whole, inside, below)
  ];
}

-- A block that is in use in the next chunk was so before.
purged-in_use :
    (s : Store) (map : ℕ → ℕ) (info : ℕ → ChunkInfo) (pos : ℕ)
    → Log s
    → Updates s map info
    → pos < last_purge_pos
    → in_use (purged s map info) pos ≡ true
    → in_use s pos ≡ true
unfolding purged in_use next_place
purged-in_use s map info pos l d h used = elim (d.moved (s.next_chunk_lba (pos / 8) / 8)) [
  | inl same ↦ ground (arith, used, same)
  | inr (chunk, below) ↦ absurd (ground (arith, used, chunk, below, l.other, l.next_in, l.few))
]

purged-Sane :
    (s : Store) (flash : Flash) (map : ℕ → ℕ) (info : ℕ → ChunkInfo)
    → Sane s flash
    → s.purge_pos < last_purge_pos
    → s.relocation_prepared ≡ true
    → s.relocation_done ≡ true
    → Updates s map info
    → StillThere s.map map s.next_chunk_no (get_cached_pos s)
    → Sane (purged s map info) (purge_flash s flash)
unfolding purged
purged-Sane s flash map info v inside prepared done d still =
    let l = v.log in
    let room : s.purge_pos + size_of_cache ≤ last_purge_pos = omega (arith, l.pos_whole, inside) in
    record {
      log = purged-Log s map info l inside d;
      well_formed = record {
        fits = omega arith;
        aligned = λ i h. absurd (omega (arith, h));
        runs = λ i k h h'. absurd (omega (arith, h'));
        distinct = λ i j h h'. absurd (omega (arith, h'));
      };
      mapped = λ p h. absurd (omega (arith, h));
      full = λ _. refl;
      unprepared = λ _. refl;
      window = λ e.
          let w = v.window e in
          record {
            pos_whole = w.pos_whole;
            pos_in = w.pos_in;
            start_whole = w.start_whole;
            end_whole = w.end_whole;
            window_fits = w.window_fits;
            window_read = λ k h.
                w.window_read k h
                ∙ ap flash (omega arith)
                ∙ sym (
                    purge_flash-next s flash (s.relocate_window_start + k)
                      (omega (arith, l.chunk_in, l.few)) (omega (arith, l.next_in, l.few)) l.other
                      room (omega (arith, w.window_fits, h)))
                ∙ ap (purge_flash s flash) (omega arith);
            starts = λ i h used. w.starts i h (purged-in_use s map info (8 * i) l d h used);
          };
      opened = λ _ _. record { whole = refl; before = λ p h. absurd (omega (arith, h)) };
      fits =
          emptied-Fits (progress_of s) map (info s.next_chunk_no).used
            (add32 s.purge_pos size_of_cache) (get_cached_pos (purged s map info)) v.fits prepared
            done (d.sound.counted.right s.next_chunk_no) still (omega (arith, room))
            (omega (arith, room));
    }

completion-purged :
    (s : Store)
    → let u = update_map s (purge_lba s) s.cache_pos (purge_place s) in
      purge_cache_completion s ≡ purged s u.map u.chunk_info
unfolding purge_cache_completion purged
completion-purged s =
    ap
      (λ (u : Store). record u {
        cache_pos = 0;
        purge_pos = add32 s.purge_pos size_of_cache;
        relocation_done = false;
        cache_dirty = false;
      })
      (update_map-only s (purge_lba s) s.cache_pos (purge_place s))

-- PURGE_CTL in the cache.
sealed-Sane :
    (seal : PurgeCtl → ℕ) (s : Store) (flash : Flash)
    → Sane s flash
    → Sane (execute_purge_cache seal s) flash
unfolding execute_purge_cache in_use get_cached_pos
sealed-Sane seal s flash v = record {
  log = same-Log s (execute_purge_cache seal s) refl v.log;
  well_formed = v.well_formed;
  mapped = v.mapped;
  full = v.full;
  unprepared = v.unprepared;
  window = λ e.
      let w = v.window e in
      record {
        pos_whole = w.pos_whole;
        pos_in = w.pos_in;
        start_whole = w.start_whole;
        end_whole = w.end_whole;
        window_fits = w.window_fits;
        window_read = w.window_read;
        starts = w.starts;
      };
  opened = λ e d. let o = v.opened e d in record { whole = o.whole; before = o.before };
  fits = v.fits;
}

-- ExecutePurgeCache, its write and PurgeCacheCompletion.
pub purge_cache-Kept :
    (seal : PurgeCtl → ℕ) (s : Store) (flash : Flash)
    → Sane s flash
    → s.purge_pos < last_purge_pos
    → s.relocation_prepared ≡ true
    → s.relocation_done ≡ true
    → s.cache_pos % 8 ≡ 0
    → let t = execute_purge_cache seal s in
      Kept s flash (purge_cache_completion t) (purge_flash t flash)
unfolding execute_purge_cache purged
purge_cache-Kept seal s flash v inside prepared done whole =
    let t = execute_purge_cache seal s in
    let v' = sealed-Sane seal s flash v in
    let d = updates t flash v' inside whole in
    let u = update_map t (purge_lba t) t.cache_pos (purge_place t) in
    let still =
      purge-StillThere t v'.well_formed (Log-CanPurge t flash v' inside whole) v.log.other in
    record {
      sane =
          subst (λ (r : Store). Sane r (purge_flash t flash)) (sym (completion-purged t))
            (purged-Sane t flash u.map u.chunk_info v' inside prepared done d (
              subst (λ (r : Store). StillThere t.map r.map t.next_chunk_no (get_cached_pos t))
                (completion-purged t) still));
      same_view = λ x.
          (view-execute_purge_cache seal s flash x v.well_formed
            (Log-CanPurge s flash v inside whole)).0;
      same_size = ap (λ (r : Store). r.size_of_map) (completion-purged t);
    }
