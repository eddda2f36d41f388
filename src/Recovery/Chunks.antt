-- ===== src/Recovery/Chunks.antt =====
-- driver/recovery.c: the loop over the chunks.
use fdlvling.Base.{
  ℕ, zero, suc, ◌+◌, ◌-◌, ◌/◌, ◌%◌, ◌≤◌, ◌<◌, ◌≡◌, refl, sym, ap, ◌∙◌, true, false, not, ◌||◌,
  arith, add32, mul32, leb, ◌==◌, if_cases,
}
use fdlvling.Store.{Store, size_of_ctl, size_of_cache, size_of_chunk, last_purge_pos, copy_sectors}
use fdlvling.Recovery.{
  ChunkCtl, Layout, Drive, Identity, Scan, Outcome, read_failed, finished, fits, raise_wcn, set_scn,
  map_chunk, choose_newest, scan_ctl, and_then, sync_read, scan_chunks,
}
use fdlvling.Recovery.Sound.{
  Sound, update_map-only, update_map-Sound, infos-Sound, raise_wcn-used, set_scn-used,
}

-- The loop over the chunks: what holds between its rounds, for `max` chunks.
pub record Scanned (max : ℕ) (t : Scan) : Type 0 where
  pub sound : Sound t.store
  pub same_max : t.store.max_chunks ≡ max
  pub chunk_in : t.store.chunk_no < max
  pub next_in : t.ctl.next_chunk_no < max
  pub end_whole : t.ctl.end % size_of_cache ≡ 0
  pub end_in : t.ctl.end ≤ last_purge_pos

-- What FITS says.
fits-lem :
    (c : ChunkCtl) (max : ℕ)
    → fits c max ≡ true
    → (c.start % size_of_cache ≡ 0)
      × (c.end % size_of_cache ≡ 0)
      × (c.start ≤ c.end)
      × (c.end ≤ last_purge_pos)
      × (c.next_chunk_no < max)
unfolding fits
fits-lem c max e =
    (ground (arith, e), ground (arith, e), ground (arith, e), ground (arith, e), ground (arith, e))

module _ (max : ℕ) (few : max ≤ 500) where
  map_chunk-Sound :
      (s : Store) (chunk : ℕ) (c : ChunkCtl)
      → Sound s
      → s.max_chunks ≡ max
      → chunk < max
      → fits c max ≡ true
      → Sound (map_chunk s chunk c)
        × ((map_chunk s chunk c).max_chunks ≡ max)
        × ((map_chunk s chunk c).chunk_no ≡ s.chunk_no)
  unfolding map_chunk
  map_chunk-Sound s chunk c v m h f =
      let (sw, ew, le, last, next) = fits-lem c max f in
      let infos = set_scn s.chunk_info chunk c.scn in
      let t = record s { chunk_info = infos } in
      let e =
        update_map-only t (λ k. c.lba (c.start / 8 + k)) (c.end - c.start)
          (add32 (mul32 chunk size_of_chunk) c.start) in
      (
        update_map-Sound t (λ k. c.lba (c.start / 8 + k)) (c.end - c.start) chunk c.start
            (infos-Sound s infos (set_scn-used s.chunk_info chunk c.scn) v) (omega arith)
            (omega arith) (omega arith) (omega arith) (omega arith),
        ap (λ (u : Store). u.max_chunks) e ∙ m,
        ap (λ (u : Store). u.chunk_no) e,
      )

  choose_newest-Scanned :
      (t : Scan) (s : Store) (chunk : ℕ) (c : ChunkCtl)
      → Scanned max t
      → Sound s
      → s.max_chunks ≡ max
      → s.chunk_no ≡ t.store.chunk_no
      → chunk < max
      → fits c max ≡ true
      → Scanned max (choose_newest t s chunk c)
  unfolding choose_newest
  choose_newest-Scanned t s chunk c v sound m own h f =
      let (sw, ew, le, last, next) = fits-lem c max f in
      if_cases (Scanned max) (leb t.max_scn c.scn) _ _
        (λ _. record {
          sound = record {
            counted = record { short = sound.counted.short; right = sound.counted.right };
            places = sound.places;
          };
          same_max = m;
          chunk_in = h;
          next_in = next;
          end_whole = ew;
          end_in = last;
        })
        (λ _. record {
          sound = sound;
          same_max = m;
          chunk_in = omega (arith, v.chunk_in);
          next_in = v.next_in;
          end_whole = v.end_whole;
          end_in = v.end_in;
        })

  scan_ctl-Scanned :
      (me : Identity) (t : Scan) (chunk : ℕ) (c : ChunkCtl)
      → Scanned max t
      → chunk < max
      → Scanned max (scan_ctl me t chunk c)
  unfolding scan_ctl
  scan_ctl-Scanned me t chunk c v h =
      let infos = raise_wcn t.store.chunk_info chunk c.wcn in
      let s = record t.store { chunk_info = infos } in
      let sound =
        infos-Sound t.store infos (raise_wcn-used t.store.chunk_info chunk c.wcn) v.sound in
      if_cases (Scanned max) (not c.verified || not (c.version == me.version)) t _ (λ _. v)
        (λ _.
          if_cases (Scanned max) (not (c.ccn == me.ccn) || not (fits c t.store.max_chunks))
            (record t { store = s }) _
            (λ _. record {
              sound = sound;
              same_max = v.same_max;
              chunk_in = v.chunk_in;
              next_in = v.next_in;
              end_whole = v.end_whole;
              end_in = v.end_in;
            })
            (λ good.
              let f : fits c t.store.max_chunks ≡ true = ground (arith, good) in
              let f' : fits c max ≡ true = ap (fits c) (sym v.same_max) ∙ f in
              let (mapped, m, own) = map_chunk-Sound s chunk c sound v.same_max h f' in
              choose_newest-Scanned t (map_chunk s chunk c) chunk c v mapped m own h f'))

-- What a part of the recovery leaves; a read that failed is one that the drive fails.
abbrev pub Holds {ℓ} : {A : Type ℓ} → Drive → (A → Type 0) → Outcome A → Type 0
Holds drive P (read_failed place) = drive.reads place ≡ false
Holds drive P (finished a) = P a

pub and_then-Holds {ℓ κ} :
    {A : Type ℓ} {B : Type κ} (drive : Drive) (P : A → Type 0) (Q : B → Type 0) (o : Outcome A)
    (f : A → Outcome B)
    → Holds drive P o
    → ((a : A) → P a → Holds drive Q (f a))
    → Holds drive Q (and_then o f)
unfolding and_then
and_then-Holds drive P Q (read_failed place) f h g = h
and_then-Holds drive P Q (finished a) f h g = g a h

-- A read changes CacheMem only.
abbrev pub Read : Drive → Store → ℕ → Store → Type 0
Read drive s place t =
    (t ≡ record s { cache_mem = t.cache_mem }) × (t.cache_mem 0 ≡ drive.flash (place + 0))

module _ (lay : Layout) (me : Identity) (drive : Drive) where
  pub sync_read-Holds :
      (s : Store) (place len : ℕ)
      → 0 < len
      → Holds drive (Read drive s place) (sync_read lay me drive s place len)
  unfolding sync_read copy_sectors
  sync_read-Holds s place len h =
      if_cases (Holds drive (Read drive s place)) (drive.reads place) _ (read_failed place)
        (λ _. (refl, ground arith)) (λ e. e)

  Read-Scanned :
      (max : ℕ) (t : Scan) (place : ℕ) (s : Store)
      → Read drive t.store place s
      → Scanned max t
      → Scanned max (record t { store = s })
  Read-Scanned max t place s (e, at) v = record {
    sound = rw e (record {
      counted = record { short = v.sound.counted.short; right = v.sound.counted.right };
      places = v.sound.places;
    });
    same_max = ap (λ (u : Store). u.max_chunks) e ∙ v.same_max;
    chunk_in = omega (arith, ap (λ (u : Store). u.chunk_no) e, v.chunk_in);
    next_in = v.next_in;
    end_whole = v.end_whole;
    end_in = v.end_in;
  }

  pub scan_chunks-Scanned :
      (n chunk max : ℕ) (t : Scan)
      → max ≤ 500
      → chunk + n ≤ max
      → Scanned max t
      → Holds drive (Scanned max) (scan_chunks lay me drive n chunk t)
  unfolding scan_chunks
  scan_chunks-Scanned zero chunk max t few h v = v
  scan_chunks-Scanned (suc n) chunk max t few h v =
      let place = add32 (mul32 chunk size_of_chunk) last_purge_pos in
      and_then-Holds drive (Read drive t.store place) (Scanned max)
        (sync_read lay me drive t.store place size_of_ctl) _
        (sync_read-Holds t.store place size_of_ctl (omega arith))
        (λ s r. scan_chunks-Scanned n (chunk + 1) max _ few (omega arith) (
          scan_ctl-Scanned max few me (record t { store = s }) chunk (lay.chunk_ctl s.cache_mem)
            (Read-Scanned max t place s r v) (omega arith)))
