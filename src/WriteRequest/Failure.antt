-- ===== src/WriteRequest/Failure.antt =====
-- driver/vscsi.c: a request to the drive that fails in a write request.
use fdlvling.Base.{
  ℕ, zero, suc, ◌+◌, ◌*◌, ◌/◌, ◌<◌, ◌≡◌, refl, ◌∙◌, arith, add32, mul32, ℕ_discrete as dec_eq,
}
use fdlvling.Store.{
  Store, Flash, not_mapped, size_of_ctl, size_of_cache, size_of_chunk, last_purge_pos, cached_scan,
  get_cached_pos, copy_sectors, fill_lba, view,
}
use fdlvling.Store.Lookup.{WellFormed, get_cached_pos_lem}
use fdlvling.Store.Append.{fill_lba-old}
use fdlvling.Chunk.{PurgeCtl, purge_place, execute_purge_cache, execute_purge_chunk}
use fdlvling.Chunk.Purge.{CanPurge, sealed-view}
use fdlvling.WriteRequest.Invariant.{Log, off_tail}

-- The scan looks at the entries in use only.
scan-same :
    (n i : ℕ) (lbas lbas' : ℕ → ℕ) (pos lba : ℕ)
    → i + 8 * n < pos + 8
    → ((j : ℕ) → j < pos → lbas' j ≡ lbas j)
    → cached_scan n i lbas' pos lba ≡ cached_scan n i lbas pos lba
unfolding cached_scan
scan-same zero i lbas lbas' pos lba h same = refl
scan-same (suc n) i lbas lbas' pos lba h same =
    let rest = scan-same n (i + 8) lbas lbas' pos lba (omega (arith, h)) same in
    let here = same i (omega (arith, h)) in rw (here, rest) refl

module _ (s : Store) (flash : Flash) (left : ℕ → ℕ) (x : ℕ) where
  -- CacheFillReadCompletion.
  pub fill-failed :
      (start n : ℕ)
      → WellFormed s.cache_lba s.cache_pos
      → view
          (record s {
            cache_lba = fill_lba n 0 s.cache_lba s.cache_pos start;
            cache_mem = copy_sectors s.cache_mem s.cache_pos n left;
          })
          flash
          x
        ≡ view s flash x
  unfolding view get_cached_pos copy_sectors
  fill-failed start n w =
      let same =
        scan-same ((s.cache_pos + 7) / 8) 0 s.cache_lba (fill_lba n 0 s.cache_lba s.cache_pos start)
          s.cache_pos x (omega arith)
          (λ j h. fill_lba-old n 0 s.cache_lba s.cache_pos start j (omega (arith, h))) in
      elim (dec_eq (get_cached_pos s x) not_mapped) [
        | yes gone ↦ unfold get_cached_pos in ground (arith, same, gone)
        | no there ↦
            unfold get_cached_pos in
            rw same (ground (arith, (get_cached_pos_lem s x w).1 there, w.fits))
      ]

  -- PurgeCacheCompletion.
  pub cache-failed :
      (seal : PurgeCtl → ℕ)
      → WellFormed s.cache_lba s.cache_pos
      → CanPurge s
      → view (execute_purge_cache seal s) (copy_sectors flash (purge_place s) size_of_cache left) x
        ≡ view s flash x
  unfolding view copy_sectors
  cache-failed seal w c =
      sealed-view seal s (copy_sectors flash (purge_place s) size_of_cache left) x w
      ∙ elim (dec_eq (get_cached_pos s x) not_mapped) [
        | yes gone ↦ elim (dec_eq (s.map (x / 8)) not_mapped) [
          | yes free ↦ ground (arith, gone, free)
          | no there ↦ ground (arith, gone, there, c.unused (x / 8) there)
        ]
        | no there ↦ ground (arith, there)
      ]

  -- PurgeChunkCompletion and PrepareRelocateCompletion find the cache empty.
  pub chunk-failed :
      (layout : Store → ℕ → ℕ)
      → Log s
      → s.cache_pos ≡ 0
      → view
          (execute_purge_chunk layout s)
          (copy_sectors flash
            (add32 (mul32 s.chunk_no size_of_chunk) last_purge_pos)
            size_of_cache
            left)
          x
        ≡ view s flash x
  unfolding view get_cached_pos cached_scan copy_sectors execute_purge_chunk
  chunk-failed layout l empty =
      let none_scanned : (s.cache_pos + 7) / 8 ≡ 0 = omega (arith, empty) in
      elim (dec_eq (s.map (x / 8)) not_mapped) [
        | yes free ↦ rw none_scanned (ground (arith, free))
        | no there ↦
            rw none_scanned (ground (arith, there, off_tail s l (x / 8) there, l.chunk_in, l.few))
      ]

  pub prepare-failed :
      s.cache_pos ≡ 0
      → view (record s { cache_mem = copy_sectors s.cache_mem 0 size_of_ctl left }) flash x
        ≡ view s flash x
  unfolding view get_cached_pos cached_scan
  prepare-failed empty =
      let none_scanned : (s.cache_pos + 7) / 8 ≡ 0 = omega (arith, empty) in rw none_scanned refl
