-- ===== src/Recovery/Bounds.antt =====
-- driver/recovery.c: what DoRecovery1 leaves, whatever the drive has.
use fdlvling.Base.{
  ℕ, zero, suc, ◌+◌, ◌-◌, ◌*◌, ◌/◌, ◌%◌, ◌^◌, ◌≤◌, ◌<◌, ◌≡◌, refl, sym, ap, ◌∙◌, false, ◌&&◌, ◌⊎◌,
  inl, inr, arith, add32, mul32, ltb, leb, ◌==◌, if◌then◌else◌, if_cases,
}
use fdlvling.Store.{Store, not_mapped, size_of_cache, size_of_chunk, last_purge_pos}
use fdlvling.Chunk.{PurgeCtl, find_next_chunk}
use fdlvling.Recovery.{
  ChunkCtl, Layout, Drive, Identity, Scan, finished, raise_wcn, set_scn, sync_read, scan_chunks,
  is_next_record, record_place, replay_record, replay, start_position, resume, replay_rounds,
  do_recovery,
}
use fdlvling.Chunk.Usage.{placed}
use fdlvling.Recovery.Sound.{
  Sound, update_map-only, update_map-Sound, infos-Sound, raise_wcn-used, set_scn-used,
}
use fdlvling.Recovery.Chunks.{
  Scanned, Holds, Read, and_then-Holds, sync_read-Holds, scan_chunks-Scanned,
}

-- What DoRecovery1 leaves: a sound map of the chunks, with the place of the next purge in the
-- current chunk.
pub record Recovered (max : ℕ) (s : Store) : Type 0 where
  pub sound : Sound s
  pub same_max : s.max_chunks ≡ max
  pub chunk_in : s.chunk_no < max
  pub pos_whole : s.purge_pos % size_of_cache ≡ 0
  pub pos_in : s.purge_pos ≤ last_purge_pos

pub resume-Recovered : (max : ℕ) (t : Scan) → Scanned max t → Recovered max (resume t)
unfolding resume start_position
resume-Recovered max t v =
    let next = t.ctl.next_chunk_no in
    let raised = raise_wcn t.store.chunk_info next t.ctl.next_chunk_wcn in
    let infos = set_scn raised next (add32 (raised t.store.chunk_no).scn 1) in
    let used = λ (c : ℕ).
      set_scn-used raised next (add32 (raised t.store.chunk_no).scn 1) c
      ∙ raise_wcn-used t.store.chunk_info next t.ctl.next_chunk_wcn c in
    let moved = infos-Sound t.store infos used v.sound in
    if_cases (Recovered max) (t.ctl.end == last_purge_pos) _ _
      (λ _. record {
        sound = record {
          counted = record { short = moved.counted.short; right = moved.counted.right };
          places = moved.places;
        };
        same_max = v.same_max;
        chunk_in = v.next_in;
        pos_whole = ground arith;
        pos_in = ground arith;
      })
      (λ _. record {
        sound = record {
          counted = record { short = v.sound.counted.short; right = v.sound.counted.right };
          places = v.sound.places;
        };
        same_max = v.same_max;
        chunk_in = v.chunk_in;
        pos_whole = v.end_whole;
        pos_in = v.end_in;
      })

module _ (lay : Layout) (me : Identity) (drive : Drive) where
  -- Why the second loop ends: the chunk is full, or what is at the next place is not its record.
  abbrev pub Ended : Store → Type 0
  Ended s =
      (s.purge_pos ≡ last_purge_pos)
      ⊎ (is_next_record lay me drive s (lay.purge_ctl (drive.flash (record_place lay me drive s)))
          ≡ false)

  Read-Ended :
      (s t : Store)
      → Read drive s (record_place lay me drive s) t
      → is_next_record lay me drive t (lay.purge_ctl (t.cache_mem 0)) ≡ false
      → Ended t
  unfolding record_place
  Read-Ended s t (e, at) h =
      let place : record_place lay me drive t ≡ record_place lay me drive s =
        ap (record_place lay me drive) e in
      let same : t.cache_mem 0 ≡ drive.flash (record_place lay me drive t) =
        at ∙ ap drive.flash (omega (arith, place)) in
      inr (sym (ap (λ x. is_next_record lay me drive t (lay.purge_ctl x)) same) ∙ h)

module _ (lay : Layout) (me : Identity) (drive : Drive) (max : ℕ) (few : max ≤ 500) where
  Read-Recovered :
      (s : Store) (place : ℕ) (t : Store) → Read drive s place t → Recovered max s → Recovered max t
  Read-Recovered s place t (e, at) v = rw e (record {
    sound = record {
      counted = record { short = v.sound.counted.short; right = v.sound.counted.right };
      places = v.sound.places;
    };
    same_max = v.same_max;
    chunk_in = v.chunk_in;
    pos_whole = v.pos_whole;
    pos_in = v.pos_in;
  })

  replay_record-Recovered :
      (s : Store) (c : PurgeCtl)
      → Recovered max s
      → s.purge_pos < last_purge_pos
      → Recovered max (replay_record lay me drive s c)
        × ((replay_record lay me drive s c).purge_pos ≡ s.purge_pos + size_of_cache)
  unfolding replay_record
  replay_record-Recovered s c v h =
      let first = s.purge_pos / 8 in
      let lbas = λ (i : ℕ).
        if leb first i && ltb i (first + 64)
        then if leb s.size_of_map (c.lba (i - first) / 8) then not_mapped else c.lba (i - first)
        else s.chunk_lba i in
      let t = record s { chunk_lba = lbas } in
      let sound : Sound t = record {
        counted = record { short = v.sound.counted.short; right = v.sound.counted.right };
        places = v.sound.places;
      } in
      let plba = add32 (mul32 s.chunk_no size_of_chunk) s.purge_pos in
      let e = update_map-only t c.lba size_of_cache plba in
      let new =
        update_map-Sound t c.lba size_of_cache s.chunk_no s.purge_pos sound
          (omega (arith, v.same_max)) (omega (arith, v.same_max, v.chunk_in))
          (omega (arith, v.pos_whole)) refl (omega (arith, v.pos_whole)) in
      (
        record {
          sound = record {
            counted = record { short = new.counted.short; right = new.counted.right };
            places = new.places;
          };
          same_max = ap (λ (u : Store). u.max_chunks) e ∙ v.same_max;
          chunk_in = omega (arith, ap (λ (u : Store). u.chunk_no) e, v.chunk_in);
          pos_whole = omega (arith, v.pos_whole);
          pos_in = omega (arith, v.pos_whole);
        },
        omega arith,
      )

  pub replay-Recovered :
      (n : ℕ) (s : Store)
      → Recovered max s
      → last_purge_pos < s.purge_pos + size_of_cache * n
      → Holds drive (λ t. Recovered max t × Ended lay me drive t) (replay lay me drive n s)
  unfolding replay
  replay-Recovered zero s v h = absurd (omega (arith, v.pos_in))
  replay-Recovered (suc n) s v h =
      let X = λ (t : Store). Recovered max t × Ended lay me drive t in
      let place = record_place lay me drive s in
      if_cases (Holds drive X) (leb last_purge_pos s.purge_pos) (finished s) _
        (λ full. (v, inl (ground (arith, full, v.pos_in))))
        (λ more.
          and_then-Holds drive (Read drive s place) X (sync_read lay me drive s place 1) _
            (sync_read-Holds lay me drive s place 1 (omega arith))
            (λ t r.
              let c = lay.purge_ctl (t.cache_mem 0) in
              let w = Read-Recovered s place t r v in
              let pos : t.purge_pos ≡ s.purge_pos = ap (λ (u : Store). u.purge_pos) (r.0) in
              if_cases (Holds drive X) (is_next_record lay me drive t c) _ (finished t)
                (λ _.
                  let (next, at) = replay_record-Recovered t c.ctl w (ground (arith, more, pos)) in
                  replay-Recovered n (replay_record lay me drive t c.ctl) next (omega arith))
                (λ stop. (w, Read-Ended lay me drive s t r stop))))

  -- What a context is before its recovery.
  chosen-Recovered :
      (s : Store)
      → Recovered max s × Ended lay me drive s
      → Recovered max (find_next_chunk s) × Ended lay me drive (find_next_chunk s)
  unfolding find_next_chunk is_next_record record_place
  chosen-Recovered s (v, e) = (
    record {
      sound = record {
        counted = record { short = v.sound.counted.short; right = v.sound.counted.right };
        places = v.sound.places;
      };
      same_max = v.same_max;
      chunk_in = v.chunk_in;
      pos_whole = v.pos_whole;
      pos_in = v.pos_in;
    },
    e,
  )

-- What InitializeLevelingCtx leaves: nothing is on the map, no chunk is in use, and Ctx->ChunkCtl
-- is zero.
pub record Fresh (s : Store) (ctl : ChunkCtl) : Type 0 where
  pub short : s.size_of_map < 2 ^ 32
  pub empty : (j : ℕ) → s.map j ≡ not_mapped
  pub unused : (c : ℕ) → (s.chunk_info c).used ≡ 0
  pub no_end : ctl.end ≡ 0
  pub no_next : ctl.next_chunk_no ≡ 0

placed-empty : (n : ℕ) (map : ℕ → ℕ) (c : ℕ) → ((j : ℕ) → map j ≡ not_mapped) → placed n map c ≡ 0
unfolding placed
placed-empty zero map c h = refl
placed-empty (suc n) map c h = ground (arith, h n, placed-empty n map c h)

-- The state before the loop over the chunks.
pub Fresh-Scanned :
    (s : Store) (ctl : ChunkCtl)
    → Fresh s ctl
    → 2 ≤ s.max_chunks
    → Scanned s.max_chunks (record { store = record s { chunk_no = 1 }; ctl = ctl; max_scn = 0 })
Fresh-Scanned s ctl v two = record {
  sound = record {
    counted = record {
      short = v.short;
      right = λ c. v.unused c ∙ sym (placed-empty s.size_of_map s.map c v.empty);
    };
    places = λ j. inl (v.empty j);
  };
  same_max = refl;
  chunk_in = omega arith;
  next_in = omega (arith, v.no_next);
  end_whole = omega (arith, v.no_end);
  end_in = omega (arith, v.no_end);
}

-- Whatever the drive has: for a fresh context of 2 .. 500 chunks, DoRecovery1 ends with a read that
-- the drive fails, or with the current chunk and the place of the next purge in range, a map
-- whose places are whole blocks in the data of a chunk, and the use of each chunk counted right;
-- and then the chunk is full, or the next place has no record of the log.
pub do_recovery-Recovered :
    (lay : Layout) (me : Identity) (drive : Drive) (s : Store) (ctl : ChunkCtl)
    → Fresh s ctl
    → 2 ≤ s.max_chunks
    → s.max_chunks ≤ 500
    → Holds drive
        (λ t. Recovered s.max_chunks t × Ended lay me drive t)
        (do_recovery lay me drive s ctl)
unfolding do_recovery
do_recovery-Recovered lay me drive s ctl v two few =
    let max = s.max_chunks in
    let X = λ (t : Store). Recovered max t × Ended lay me drive t in
    let start : Scan = record { store = record s { chunk_no = 1 }; ctl = ctl; max_scn = 0 } in
    let first : Scanned max start = Fresh-Scanned s ctl v two in
    and_then-Holds drive (Scanned max) X (scan_chunks lay me drive max 0 start) _
      (scan_chunks-Scanned lay me drive max 0 max start few (omega arith) first)
      (λ t w.
        let r = resume-Recovered max t w in
        and_then-Holds drive X X (replay lay me drive replay_rounds (resume t)) _
          (replay-Recovered lay me drive max few replay_rounds (resume t) r (omega arith))
          (λ u h. chosen-Recovered lay me drive max few u h))
