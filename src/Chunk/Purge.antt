-- ===== src/Chunk/Purge.antt =====
-- driver/vscsi.c: purging the cache to the drive shows the clients nothing.
use fdlvling.Base.{
  ℕ, ◌+◌, ◌-◌, ◌*◌, ◌/◌, ◌%◌, ◌≤◌, ◌<◌, ◌≡◌, ◌≢◌, refl, ap, ◌∙◌, sym, ◌⊎◌, arith,
  ℕ_discrete as dec_eq,
}
use fdlvling.Store.{
  Store, Flash, not_mapped, size_of_chunk, size_of_cache, last_purge_pos, cached_scan,
  get_cached_pos, copy_sectors, view,
}
use fdlvling.Store.Lookup.{WellFormed, entry, get_cached_pos_lem, missing}
use fdlvling.Chunk.{
  PurgeCtl, purge_lba, purge_place, execute_purge_cache, purge_flash, purge_cache_completion,
  update_map,
}
use fdlvling.Chunk.Placement.{Newest, map_blocks-other, map_blocks-last}

-- When the cache may be purged: it ends with a whole block, its sectors are on the map, the
-- current chunk is the newest, it has room, and no block is placed where the cache goes.
pub record CanPurge (s : Store) : Type 0 where
  pub whole : s.cache_pos % 8 ≡ 0
  pub mapped : (p : ℕ) → p < s.cache_pos → s.cache_lba p / 8 < s.size_of_map
  pub newest : Newest s s.chunk_no
  pub chunk_small : s.chunk_no < 500
  pub has_room : s.purge_pos + size_of_cache ≤ last_purge_pos
  pub unused :
      (j : ℕ)
      → s.map j ≢ not_mapped
      → (s.map j + 8 ≤ purge_place s) ⊎ (purge_place s + size_of_cache ≤ s.map j)

sub-add : (k p : ℕ) → p + k - p ≡ k
sub-add k p = omega arith

module _ (s : Store) (w : WellFormed s.cache_lba s.cache_pos) (c : CanPurge s) where
  pub place_lem : purge_place s ≡ s.chunk_no * size_of_chunk + s.purge_pos
  unfolding purge_place
  place_lem = omega (arith, c.chunk_small, c.has_room)

  entry_lba : (b : ℕ) → 8 * b < s.cache_pos → purge_lba s b ≡ s.cache_lba (8 * b)
  unfolding purge_lba
  entry_lba b h = ground arith

  same_chunk : purge_place s / size_of_chunk ≡ s.chunk_no
  same_chunk = omega (arith, place_lem, c.has_room)

  newest : Newest s (purge_place s / size_of_chunk)
  newest = rw same_chunk c.newest

  -- A block of the cache is placed at its place in the cache.
  pub placed-cached :
      (p : ℕ)
      → p < s.cache_pos
      → (purge_cache_completion s).map (s.cache_lba p / 8) ≡ purge_place s + 8 * (p / 8)
  unfolding purge_cache_completion update_map
  placed-cached p h =
      let (own, start) = entry s.cache_lba s.cache_pos w p h in
      let head = entry_lba (p / 8) (omega arith) in
      let key : purge_lba s (p / 8) / 8 ≡ s.cache_lba p / 8 = omega arith in
      ap (update_map s (purge_lba s) s.cache_pos (purge_place s)).map (sym key)
      ∙ map_blocks-last ((s.cache_pos + 7) / 8) 0 s _ (purge_lba s) (purge_place s) (p / 8) newest
          (omega arith) (omega (arith, c.whole)) (omega (arith, c.mapped p h))
          (omega (arith, place_lem, c.chunk_small, c.has_room, w.fits))
          (λ i lo hi e.
            let (own', start') = entry s.cache_lba s.cache_pos w (8 * i) (omega (arith, c.whole)) in
            omega (
              arith,
              entry_lba i (omega (arith, c.whole)),
              w.aligned i (omega (arith, c.whole)),
              w.distinct i (p / 8) (omega (arith, c.whole)) (omega arith),
            ))
      ∙ omega arith

  -- A block that is not in the cache stays.
  pub placed-other :
      (x : ℕ)
      → get_cached_pos s x ≡ not_mapped
      → (purge_cache_completion s).map (x / 8) ≡ s.map (x / 8)
  unfolding purge_cache_completion update_map
  placed-other x gone =
      map_blocks-other ((s.cache_pos + 7) / 8) 0 s _ (purge_lba s) (purge_place s) (x / 8) newest
        (λ i lo hi e.
          let inside : 8 * i < s.cache_pos = omega (arith, c.whole) in
          missing s x (8 * i + x % 8) w gone (omega (arith, c.whole)) (
            omega (
              arith,
              entry_lba i inside,
              w.aligned i inside,
              w.runs i (x % 8) (omega arith) (omega (arith, c.whole)),
            )))

  pub empty-cache : (x : ℕ) → get_cached_pos (purge_cache_completion s) x ≡ not_mapped
  unfolding purge_cache_completion get_cached_pos cached_scan
  empty-cache x = refl

  -- The new contents of the drive, in the region that is written and elsewhere.
  flash-new :
      (flash : Flash) (k : ℕ)
      → k < size_of_cache
      → purge_flash s flash (purge_place s + k) ≡ s.cache_mem k
  unfolding purge_flash copy_sectors
  flash-new flash k h = ground (arith, ap s.cache_mem (sub-add k (purge_place s)))

  flash-old :
      (flash : Flash) (a : ℕ)
      → (a < purge_place s) ⊎ (purge_place s + size_of_cache ≤ a)
      → purge_flash s flash a ≡ flash a
  unfolding purge_flash copy_sectors
  flash-old flash a h = ground arith

  -- After the write and PurgeCacheCompletion every sector has the contents that it had.
  view-purge :
      (flash : Flash) (x : ℕ)
      → view (purge_cache_completion s) (purge_flash s flash) x ≡ view s flash x
  unfolding view
  view-purge flash x = elim (dec_eq (get_cached_pos s x) not_mapped) [
    | yes gone ↦ elim (dec_eq (s.map (x / 8)) not_mapped) [
      | yes zero_block ↦ ground (arith, empty-cache x, placed-other x gone)
      | no there ↦
          let far = c.unused (x / 8) there in
          ground
            (arith, empty-cache x, placed-other x gone, flash-old flash (s.map (x / 8) + x % 8))
    ]
    | no there ↦
        let (lt, at) = (get_cached_pos_lem s x w).1 there in
        let p : ℕ = get_cached_pos s x in
        let (own, start) = entry s.cache_lba s.cache_pos w p lt in
        let block : (purge_cache_completion s).map (x / 8) ≡ purge_place s + 8 * (p / 8) =
          ap (λ t. (purge_cache_completion s).map (t / 8)) (sym at) ∙ placed-cached p lt in
        let there' : purge_place s + 8 * (p / 8) + x % 8 ≡ purge_place s + p = omega arith in
        ground (
          arith,
          empty-cache x,
          block,
          place_lem,
          w.fits,
          ap (purge_flash s flash) there',
          flash-new flash p,
        )
  ]

-- PURGE_CTL goes to a sector of CacheMem that holds no cached sector.
pub sealed-view :
    (seal : PurgeCtl → ℕ) (s : Store) (flash : Flash) (x : ℕ)
    → WellFormed s.cache_lba s.cache_pos
    → view (execute_purge_cache seal s) flash x ≡ view s flash x
unfolding view execute_purge_cache get_cached_pos
sealed-view seal s flash x w = elim (dec_eq (get_cached_pos s x) not_mapped) [
  | yes gone ↦ unfold get_cached_pos in ground (arith, gone)
  | no there ↦ unfold get_cached_pos in ground (arith, (get_cached_pos_lem s x w).1 there, w.fits)
]

pub sealed-CanPurge :
    (seal : PurgeCtl → ℕ) (s : Store) → CanPurge s → CanPurge (execute_purge_cache seal s)
unfolding execute_purge_cache purge_place
sealed-CanPurge seal s c = record {
  whole = c.whole;
  mapped = c.mapped;
  newest = c.newest;
  chunk_small = c.chunk_small;
  has_room = c.has_room;
  unused = c.unused;
}

-- Where the cache is well-formed and may be purged, for every layout of PURGE_CTL: after
-- ExecutePurgeCache, its write to the drive and PurgeCacheCompletion, every sector has the
-- contents that it had, and the cache is empty.
pub view-execute_purge_cache :
    (seal : PurgeCtl → ℕ) (s : Store) (flash : Flash) (x : ℕ)
    → WellFormed s.cache_lba s.cache_pos
    → CanPurge s
    → let t = execute_purge_cache seal s in
      (view (purge_cache_completion t) (purge_flash t flash) x ≡ view s flash x)
      × ((purge_cache_completion t).cache_pos ≡ 0)
unfolding execute_purge_cache purge_cache_completion
view-execute_purge_cache seal s flash x w c = (
  view-purge (execute_purge_cache seal s) w (sealed-CanPurge seal s c) flash x
      ∙ sealed-view seal s flash x w,
  refl,
)
