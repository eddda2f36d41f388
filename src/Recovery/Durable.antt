-- ===== src/Recovery/Durable.antt =====
-- driver/recovery.c and driver/vscsi.c: what was purged is there after a recovery.
use std.Path.{subst}
use fdlvling.Base.{
  ℕ, zero, suc, ◌+◌, ◌/◌, ◌%◌, ◌≤◌, ◌≡◌, refl, sym, ap, ◌∙◌, true, false, ◌⊎◌, arith, leb, if_cases,
  if◌then◌else◌, ◌==◌,
}
use fdlvling.Store.{
  Store, Flash, not_mapped, size_of_cache, last_purge_pos, cached_scan, get_cached_pos, view,
}
use fdlvling.Chunk.{PurgeCtl, find_next_chunk}
use fdlvling.Recovery.{
  Layout, Drive, Identity, finished, sync_read, is_next_record, record_place, replay_record, replay,
  replay_rounds,
}
use fdlvling.Recovery.Sound.{update_map-only}
use fdlvling.Recovery.Chunks.{Holds, Read, and_then-Holds, sync_read-Holds}
use fdlvling.Recovery.Purges.{Agrees, Purges}
use fdlvling.Recovery.Replay.{replay-Purges}

-- With an empty cache a sector has the contents of its place on the map.
view-empty :
    (s : Store) (flash : Flash) (x : ℕ)
    → s.cache_pos ≡ 0
    → view s flash x ≡ (if s.map (x / 8) == not_mapped then 0 else flash (s.map (x / 8) + x % 8))
unfolding view get_cached_pos cached_scan
view-empty s flash x empty =
    let none_scanned : (s.cache_pos + 7) / 8 ≡ 0 = omega (arith, empty) in rw none_scanned refl

module _ (lay : Layout) (me : Identity) (drive : Drive) where
  abbrev pub Empty : Store → Type 0
  Empty t = t.cache_pos ≡ 0

  replay_record-Empty :
      (s : Store) (c : PurgeCtl) → Empty s → Empty (replay_record lay me drive s c)
  unfolding replay_record
  replay_record-Empty s c e =
      ap (λ (u : Store). u.cache_pos) (update_map-only _ c.lba size_of_cache _) ∙ e

  -- The second loop of DoRecovery1 puts nothing into the cache.
  pub replay-Empty : (n : ℕ) (s : Store) → Empty s → Holds drive Empty (replay lay me drive n s)
  unfolding replay
  replay-Empty zero s e = e
  replay-Empty (suc n) s e =
      let place = record_place lay me drive s in
      if_cases (Holds drive Empty) (leb last_purge_pos s.purge_pos) (finished s) _ (λ _. e)
        (λ _.
          and_then-Holds drive (Read drive s place) Empty (sync_read lay me drive s place 1) _
            (sync_read-Holds lay me drive s place 1 (omega arith))
            (λ t r.
              let c = lay.purge_ctl (t.cache_mem 0) in
              let e' : Empty t = ap (λ (u : Store). u.cache_pos) r.0 ∙ e in
              if_cases (Holds drive Empty) (is_next_record lay me drive t c) _ (finished t)
                (λ _.
                  replay-Empty n (replay_record lay me drive t c.ctl)
                    (replay_record-Empty t c.ctl e'))
                (λ _. e')))

  -- Two contexts with the same log and an empty cache show the same contents.
  view-Agrees :
      (s r : Store) (flash : Flash) (x : ℕ)
      → Agrees s r
      → Empty s
      → Empty r
      → view s flash x ≡ view r flash x
  view-Agrees s r flash x a e e' =
      view-empty s flash x e
      ∙ ap (λ p. if p == not_mapped then 0 else flash (p + x % 8)) (a.same_map (x / 8))
      ∙ sym (view-empty r flash x e')

  -- What is purged survives the second loop of DoRecovery1: where the drive fails no read, PURGE_CTL is
  -- read back as it was written, and nothing at the next place is a record of the log, then after any
  -- purges into the current chunk that leave the cache empty, the second loop, from a context with an empty
  -- cache and the map, the sequence numbers and the place of the log before these purges, succeeds within
  -- its rounds; and with the drive as it is and the context that the loop and FindNextChunk leave, every
  -- sector has the contents that it had when the driver stopped. The first loop, which is to make that
  -- context, is not in the statement.
  pub recovery-durable :
      (seal : PurgeCtl → ℕ)
      → ((place : ℕ) → drive.reads place ≡ true)
      → {n : ℕ} {s : Store} {f : Flash} {t : Store} → Purges lay me seal n s f t drive.flash
      → s.purge_pos ≤ last_purge_pos
      → (t.purge_pos ≡ last_purge_pos)
        ⊎ (is_next_record lay me drive t (lay.purge_ctl (drive.flash (record_place lay me drive t)))
            ≡ false)
      → (r : Store) → Agrees s r
      → t.cache_pos ≡ 0
      → r.cache_pos ≡ 0
      → (r' : Store) × (replay lay me drive replay_rounds r ≡ finished r')
        × ((x : ℕ) → view (find_next_chunk r') drive.flash x ≡ view t drive.flash x)
  unfolding find_next_chunk view get_cached_pos
  recovery-durable seal good {t = t} p h full r a empty empty' =
      let (r', (all, agrees)) = replay-Purges lay me drive seal good p (λ x. refl) h full r a in
      let e : Empty r' = subst (Holds drive Empty) all (replay-Empty replay_rounds r empty') in
      (r', all, λ x. sym (view-Agrees t r' drive.flash x agrees empty e))
