-- ===== src/Recovery/Rounds.antt =====
-- driver/recovery.c: a round of the second loop of DoRecovery1 over the record of a purge.
use fdlvling.Base.{
  ℕ, suc, ◌+◌, ◌-◌, ◌*◌, ◌/◌, ◌≤◌, ◌<◌, ◌≡◌, sym, ap, ◌∙◌, true, ◌&&◌, arith, add32, mul32, ltb,
  leb, ◌==◌, if◌then◌else◌, if-true, if-false,
}
use fdlvling.Store.{
  Store, Flash, not_mapped, size_of_cache, size_of_chunk, last_purge_pos, last_cache_pos,
  copy_sectors,
}
use fdlvling.Chunk.{
  PurgeCtl, purge_lba, purge_place, execute_purge_cache, purge_cache_completion, update_map,
}
use fdlvling.Chunk.Placement.{map_blocks-scn}
use fdlvling.Chunk.Agreement.{map_blocks-agree}
use fdlvling.Recovery.Sound.{update_map-only}
use fdlvling.Recovery.{
  PurgeSector, Layout, Drive, Identity, finished, read_failed, and_then, sync_read, is_next_record,
  record_place, replay_record, replay,
}
use fdlvling.Recovery.Purges.{
  stop, between, purges, Agrees, Purges, Purging, Sealed, add_zero, after_purge, after_purge-pos,
  place_lem, purge_ctl_of,
}

module _ (lay : Layout) (me : Identity) (drive : Drive) (seal : PurgeCtl → ℕ) where
  -- A round of the second loop over the record of the purge: both contexts have the log after it.
  pub record-Agrees :
      (s r : Store) (c : PurgeCtl)
      → Agrees s r
      → Purging lay me seal s
      → ((i : ℕ) → i < 64 → c.lba i ≡ purge_lba s i)
      → Agrees (after_purge lay me seal s) (replay_record lay me drive r c)
  unfolding replay_record execute_purge_cache purge_cache_completion update_map purge_lba
  record-Agrees s r c a v same =
      let t = execute_purge_cache seal s in
      let plba = purge_place s in
      let plba' = add32 (mul32 r.chunk_no size_of_chunk) r.purge_pos in
      let first = r.purge_pos / 8 in
      let u = record r {
        chunk_lba = λ i.
            if leb first i && ltb i (first + 64)
            then if leb r.size_of_map (c.lba (i - first) / 8) then not_mapped else c.lba (i - first)
            else r.chunk_lba i;
      } in
      let place : plba ≡ plba' =
        omega
          (arith, place_lem lay me seal s v, v.chunk_small, v.has_room, a.same_chunk, a.same_pos) in
      let es = update_map-only t (purge_lba t) t.cache_pos plba in
      let er = update_map-only u c.lba size_of_cache plba' in
      let own : plba / size_of_chunk ≡ s.chunk_no =
        omega (arith, place_lem lay me seal s v, v.has_room) in
      record {
        same_size =
            ap (λ (w : Store). w.size_of_map) es
            ∙ a.same_size
            ∙ sym (ap (λ (w : Store). w.size_of_map) er);
        same_map = λ j.
            map_blocks-agree 64 ((s.cache_pos + 7) / 8) 0 t u (plba / size_of_chunk) (purge_lba t)
              c.lba plba j (λ x. omega (arith, v.newest x, ap (λ y. (s.chunk_info y).scn) own))
              (λ x. omega (
                arith,
                v.newest x,
                a.same_scn x,
                a.same_scn (plba / size_of_chunk),
                ap (λ y. (s.chunk_info y).scn) own,
              ))
              a.same_size a.same_map (omega (arith, v.cache_small))
              (λ i lo hi. sym (same i (omega (arith, v.cache_small))))
              (λ i lo hi. ground (arith, same i, v.map_small))
            ∙ ap (λ (p : ℕ). (update_map u c.lba size_of_cache p).map j) place;
        same_scn = λ x.
            map_blocks-scn ((s.cache_pos + 7) / 8) 0 t (plba / size_of_chunk) (purge_lba t) plba x
            ∙ a.same_scn x
            ∙ sym (map_blocks-scn 64 0 u (plba' / size_of_chunk) c.lba plba' x);
        same_chunk =
            ap (λ (w : Store). w.chunk_no) es
            ∙ a.same_chunk
            ∙ sym (ap (λ (w : Store). w.chunk_no) er);
        same_pos = omega (arith, a.same_pos);
      }

  -- What a read of the drive leaves, where it succeeds.
  pub read_back : Store → ℕ → Store
  read_back r place = record r {
    cache_mem = copy_sectors r.cache_mem 0 1 (λ i. drive.flash (place + i));
  }

  -- A round of the second loop that finds the next record, and one that does not.
  pub replay-round :
      (m : ℕ) (r : Store)
      → r.purge_pos < last_purge_pos
      → drive.reads (record_place lay me drive r) ≡ true
      → let t = read_back r (record_place lay me drive r) in
        let c = lay.purge_ctl (t.cache_mem 0) in
        replay lay me drive (suc m) r ≡ (
          if is_next_record lay me drive t c
          then replay lay me drive m (replay_record lay me drive t c.ctl)
          else finished t)
  unfolding replay sync_read and_then read_back
  replay-round m r more ok =
      let place = record_place lay me drive r in
      let next = λ (t : Store).
        let c = lay.purge_ctl (t.cache_mem 0) in
        if is_next_record lay me drive t c
        then replay lay me drive m (replay_record lay me drive t c.ctl)
        else finished t in
      if-false (leb last_purge_pos r.purge_pos) (finished r)
        (and_then (sync_read lay me drive r place 1) next) (ground arith)
      ∙ ap (λ o. and_then o next)
          (if-true (drive.reads place) (finished (read_back r place)) (read_failed place) ok)

  pub read_back-sector :
      (r : Store) (place : ℕ) → (read_back r place).cache_mem 0 ≡ drive.flash place
  unfolding read_back copy_sectors
  read_back-sector r place = ground (arith, ap drive.flash (add_zero place))

  pub read_back-Agrees : (s r : Store) (place : ℕ) → Agrees s r → Agrees s (read_back r place)
  unfolding read_back
  read_back-Agrees s r place a = record {
    same_size = a.same_size;
    same_map = a.same_map;
    same_scn = a.same_scn;
    same_chunk = a.same_chunk;
    same_pos = a.same_pos;
  }

  pub next-Sealed :
      (s r : Store)
      → Agrees s r
      → Sealed lay me seal (purge_ctl_of s)
      → is_next_record lay me drive r (lay.purge_ctl (seal (purge_ctl_of s))) ≡ true
  unfolding is_next_record
  next-Sealed s r a v = ground (
    arith,
    v.verified,
    v.version,
    v.ccn,
    v.magic,
    v.scn,
    v.chunk_no,
    v.purge_pos,
    a.same_chunk,
    a.same_pos,
    a.same_scn s.chunk_no,
    ap (λ c. (r.chunk_info c).scn) a.same_chunk,
  )

  pub record_place-lem :
      (s r : Store)
      → Agrees s r
      → Purging lay me seal s
      → record_place lay me drive r ≡ s.chunk_no * size_of_chunk + s.purge_pos + last_cache_pos
  unfolding record_place
  record_place-lem s r a v = omega (arith, a.same_chunk, a.same_pos, v.chunk_small, v.has_room)

  pub next-same :
      (t u : Store) (c : PurgeSector)
      → Agrees t u
      → is_next_record lay me drive t c ≡ is_next_record lay me drive u c
  unfolding is_next_record
  next-same t u c a =
      let scn : (t.chunk_info t.chunk_no).scn ≡ (u.chunk_info u.chunk_no).scn =
        a.same_scn t.chunk_no ∙ ap (λ x. (u.chunk_info x).scn) a.same_chunk in
      ap
        (λ x.
          (c.verified && (c.version == me.version))
          && (((c.ccn == me.ccn) && (c.magic == me.magic))
              && ((c.ctl.scn == x)
                  && ((c.ctl.chunk_no == t.chunk_no) && (c.ctl.purge_pos == t.purge_pos)))))
        scn
      ∙ ap
          (λ x.
            (c.verified && (c.version == me.version))
            && (((c.ccn == me.ccn) && (c.magic == me.magic))
                && ((c.ctl.scn == (u.chunk_info u.chunk_no).scn)
                    && ((c.ctl.chunk_no == x) && (c.ctl.purge_pos == t.purge_pos)))))
          a.same_chunk
      ∙ ap
          (λ x.
            (c.verified && (c.version == me.version))
            && (((c.ccn == me.ccn) && (c.magic == me.magic))
                && ((c.ctl.scn == (u.chunk_info u.chunk_no).scn)
                    && ((c.ctl.chunk_no == u.chunk_no) && (c.ctl.purge_pos == x)))))
          a.same_pos

  -- Each purge takes its place in the chunk.
  pub Purges-pos :
      {n : ℕ} {s : Store} {f : Flash} {t : Store} {g : Flash}
      → Purges lay me seal n s f t g
      → s.purge_pos ≤ last_purge_pos
      → (t.purge_pos ≡ s.purge_pos + size_of_cache * n) × (t.purge_pos ≤ last_purge_pos)
  Purges-pos stop h = (omega arith, h)
  Purges-pos (between a same rest) h =
      let (e, le) = Purges-pos rest (omega (arith, a.same_pos)) in (omega (arith, a.same_pos), le)
  Purges-pos {s = s} (purges v rest) h =
      let (e, le) = Purges-pos rest (omega (arith, v.has_room, after_purge-pos lay me seal s v)) in
      (omega (arith, after_purge-pos lay me seal s v), le)
