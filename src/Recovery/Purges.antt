-- ===== src/Recovery/Purges.antt =====
-- driver/vscsi.c: purges of the cache into the current chunk, and what they leave on the drive.
use fdlvling.Base.{ℕ, zero, suc, ◌+◌, ◌-◌, ◌*◌, ◌/◌, ◌≤◌, ◌<◌, ◌≡◌, refl, sym, ap, ◌∙◌, true, arith}
use fdlvling.Store.{
  Store, Flash, size_of_cache, size_of_chunk, last_purge_pos, last_cache_pos, copy_sectors,
}
use fdlvling.Chunk.{
  PurgeCtl, purge_lba, purge_place, execute_purge_cache, purge_flash, purge_cache_completion,
  update_map,
}
use fdlvling.Chunk.Placement.{Newest, map_blocks-only}
use fdlvling.Recovery.{Layout, Identity}

-- The two contexts have the same log: the same map, current chunk and place of the next purge, and
-- the same sequence numbers of the chunks.
pub record Agrees (s r : Store) : Type 0 where
  pub same_size : s.size_of_map ≡ r.size_of_map
  pub same_map : (j : ℕ) → s.map j ≡ r.map j
  pub same_scn : (c : ℕ) → (s.chunk_info c).scn ≡ (r.chunk_info c).scn
  pub same_chunk : s.chunk_no ≡ r.chunk_no
  pub same_pos : s.purge_pos ≡ r.purge_pos

pub Agrees-trans : (s t u : Store) → Agrees s t → Agrees t u → Agrees s u
Agrees-trans s t u a b = record {
  same_size = a.same_size ∙ b.same_size;
  same_map = λ j. a.same_map j ∙ b.same_map j;
  same_scn = λ c. a.same_scn c ∙ b.same_scn c;
  same_chunk = a.same_chunk ∙ b.same_chunk;
  same_pos = a.same_pos ∙ b.same_pos;
}

pub Agrees-sym : (s t : Store) → Agrees s t → Agrees t s
Agrees-sym s t a = record {
  same_size = sym a.same_size;
  same_map = λ j. sym (a.same_map j);
  same_scn = λ c. sym (a.same_scn c);
  same_chunk = sym a.same_chunk;
  same_pos = sym a.same_pos;
}

pub add_zero : (n : ℕ) → n + 0 ≡ n
add_zero n = omega arith

-- The PURGE_CTL of the cache.
abbrev pub purge_ctl_of : Store → PurgeCtl
purge_ctl_of s = record {
  scn = (s.chunk_info s.chunk_no).scn;
  chunk_no = s.chunk_no;
  purge_pos = s.purge_pos;
  lba = purge_lba s;
}

module _ (lay : Layout) (me : Identity) (seal : PurgeCtl → ℕ) where
  -- The sector that ExecutePurgeCache writes for `c` is read back as it was written.
  pub record Sealed (c : PurgeCtl) : Type 0 where
    pub verified : (lay.purge_ctl (seal c)).verified ≡ true
    pub version : (lay.purge_ctl (seal c)).version ≡ me.version
    pub ccn : (lay.purge_ctl (seal c)).ccn ≡ me.ccn
    pub magic : (lay.purge_ctl (seal c)).magic ≡ me.magic
    pub scn : (lay.purge_ctl (seal c)).ctl.scn ≡ c.scn
    pub chunk_no : (lay.purge_ctl (seal c)).ctl.chunk_no ≡ c.chunk_no
    pub purge_pos : (lay.purge_ctl (seal c)).ctl.purge_pos ≡ c.purge_pos
    pub lba : (i : ℕ) → i < 64 → (lay.purge_ctl (seal c)).ctl.lba i ≡ c.lba i

  -- When the cache is purged: the current chunk is the newest and has room, the cache is not longer
  -- than its array, and the number NOT_MAPPED is past the map.
  pub record Purging (s : Store) : Type 0 where
    pub newest : Newest s s.chunk_no
    pub chunk_small : s.chunk_no < 500
    pub has_room : s.purge_pos + size_of_cache ≤ last_purge_pos
    pub cache_small : s.cache_pos ≤ last_cache_pos
    pub map_small : s.size_of_map ≤ 0x1fffffff
    pub sealed : Sealed (purge_ctl_of s)

  abbrev pub after_purge : Store → Store
  after_purge s = purge_cache_completion (execute_purge_cache seal s)

  -- `n` purges lead from the one context and drive to the other. Between them everything may change
  -- but the log: the cache, and the drive from the place of the next purge on and in other chunks.
  pub data Purges : ℕ → Store → Flash → Store → Flash → Type 0 where
    stop : {s : Store} {f : Flash} → Purges zero s f s f
    between :
        {n : ℕ} {s : Store} {f : Flash} {s' : Store} {f' : Flash} {t : Store} {g : Flash}
        → Agrees s s'
        → ((x : ℕ)
            → x < s.purge_pos
            → f' (s.chunk_no * size_of_chunk + x) ≡ f (s.chunk_no * size_of_chunk + x))
        → Purges n s' f' t g
        → Purges n s f t g
    purges :
        {n : ℕ} {s : Store} {f : Flash} {t : Store} {g : Flash}
        → Purging s
        → Purges n (after_purge s) (purge_flash (execute_purge_cache seal s) f) t g
        → Purges (suc n) s f t g

  -- What a purge leaves of the log.
  pub after_purge-chunk : (s : Store) → (after_purge s).chunk_no ≡ s.chunk_no
  unfolding execute_purge_cache purge_cache_completion update_map
  after_purge-chunk s =
      let t = execute_purge_cache seal s in
      ap (λ (u : Store). u.chunk_no)
        (map_blocks-only ((t.cache_pos + 7) / 8) 0 t (purge_place t / size_of_chunk) (purge_lba t)
          (purge_place t))

  pub after_purge-pos :
      (s : Store) → Purging s → (after_purge s).purge_pos ≡ s.purge_pos + size_of_cache
  unfolding execute_purge_cache purge_cache_completion
  after_purge-pos s v = omega (arith, v.has_room)

  pub place_lem : (s : Store) → Purging s → purge_place s ≡ s.chunk_no * size_of_chunk + s.purge_pos
  unfolding purge_place
  place_lem s v = omega (arith, v.chunk_small, v.has_room)

  -- A purge writes no sector of the chunk before its place.
  pub purge-old :
      (s : Store) (f : Flash) (x : ℕ)
      → Purging s
      → x < s.purge_pos
      → purge_flash (execute_purge_cache seal s) f (s.chunk_no * size_of_chunk + x)
        ≡ f (s.chunk_no * size_of_chunk + x)
  unfolding purge_flash execute_purge_cache copy_sectors purge_place
  purge-old s f x v h = ground (arith, v.chunk_small, v.has_room)

  -- The last sector that it writes is its PURGE_CTL.
  pub purge-record :
      (s : Store) (f : Flash)
      → Purging s
      → purge_flash
          (execute_purge_cache seal s)
          f
          (s.chunk_no * size_of_chunk + s.purge_pos + last_cache_pos)
        ≡ seal (purge_ctl_of s)
  unfolding purge_flash execute_purge_cache copy_sectors purge_place
  purge-record s f v =
      let at : s.chunk_no * size_of_chunk + s.purge_pos + last_cache_pos - purge_place s
          ≡ last_cache_pos =
        omega (arith, place_lem s v) in
      ground (arith, v.chunk_small, v.has_room, at, ap (execute_purge_cache seal s).cache_mem at)

  -- What is in the chunk before the place of the next purge stays.
  pub Purges-old :
      {n : ℕ} {s : Store} {f : Flash} {t : Store} {g : Flash}
      → Purges n s f t g
      → (x : ℕ) → x < s.purge_pos
      → g (s.chunk_no * size_of_chunk + x) ≡ f (s.chunk_no * size_of_chunk + x)
  Purges-old stop x h = refl
  Purges-old {s = s} {f = f} {g = g} (between {f' = f'} a same rest) x h =
      let e = a.same_chunk in
      ap g (omega (arith, e))
      ∙ Purges-old rest x (omega (arith, a.same_pos))
      ∙ ap f' (omega (arith, e))
      ∙ same x h
  Purges-old {s = s} {f = f} {g = g} (purges v rest) x h =
      let e = after_purge-chunk s in
      ap g (omega (arith, e))
      ∙ Purges-old rest x (omega (arith, after_purge-pos s v))
      ∙ ap (purge_flash (execute_purge_cache seal s) f) (omega (arith, e))
      ∙ purge-old s f x v h
