-- ===== src/WriteRequest/Relocate.antt =====
-- driver/vscsi.c: the relocation in a write request keeps the invariant.
use fdlvling.Base.{◌<◌, ◌≡◌, ap, ◌∙◌, arith, true, false}
use fdlvling.Store.{Store, Flash, last_purge_pos}
use fdlvling.Relocation.{execute_relocate_cached, execute_relocate, relocate_read}
use fdlvling.Relocation.Blocks.{LogState, Relocated-trans}
use fdlvling.Relocation.Contents.{execute_relocate_cached-Relocated, execute_relocate-Relocated}
use fdlvling.Relocation.Prepared.{execute_relocate_cached-prepared, relocate_read-prepared}
use fdlvling.WriteRequest.Invariant.{Sane, Kept, Sane-Relocating, Relocated-Kept, Sane-places}
use fdlvling.WriteRequest.Remaining.{progress_of, Fits}
use fdlvling.WriteRequest.Enough.{execute_relocate_cached-Fits, execute_relocate-Fits}

module _ (s : Store) (flash : Flash) (v : Sane s flash) (inside : s.purge_pos < last_purge_pos)
    (prepared : s.relocation_prepared ≡ true) (going : s.relocation_done ≡ false) where
  relocate_cached-Fits : Fits (progress_of (execute_relocate_cached s))
  relocate_cached-Fits =
      execute_relocate_cached-Fits s flash (Sane-Relocating s flash v prepared going) v.fits
        prepared going v.log.pos_whole inside (Sane-places s flash v)

  -- ExecuteRelocateCached.
  pub relocate_cached-Kept : Kept s flash (execute_relocate_cached s) flash
  relocate_cached-Kept =
      Relocated-Kept s (execute_relocate_cached s) flash v inside
        (execute_relocate_cached-prepared s ∙ prepared)
        (execute_relocate_cached-Relocated s flash (Sane-Relocating s flash v prepared going)
          going).0
        relocate_cached-Fits

  -- It leaves the place of the next purge and RelocationPrepared.
  pub relocate_cached-ready :
      let t = execute_relocate_cached s in
      (t.purge_pos < last_purge_pos) × (t.relocation_prepared ≡ true)
  relocate_cached-ready =
      let r =
        (execute_relocate_cached-Relocated s flash (Sane-Relocating s flash v prepared going)
          going).0 in
      (
        omega (arith, inside, ap (λ (l : LogState). l.purge_pos) r.same_log),
        execute_relocate_cached-prepared s ∙ prepared,
      )

  -- ExecuteRelocateCached, then ExecuteRelocate and its read.
  pub relocate_window-Kept :
      let t = execute_relocate_cached s in
      Kept s flash (relocate_read (execute_relocate t) flash) flash
  relocate_window-Kept =
      let t = execute_relocate_cached s in
      let r =
        (execute_relocate_cached-Relocated s flash (Sane-Relocating s flash v prepared going)
          going).0 in
      Relocated-Kept s (relocate_read (execute_relocate t) flash) flash v inside
        (relocate_read-prepared t flash ∙ execute_relocate_cached-prepared s ∙ prepared)
        (Relocated-trans s t (relocate_read (execute_relocate t) flash) flash r
          (execute_relocate-Relocated t flash r.relocating))
        (execute_relocate-Fits t flash relocate_cached-Fits)
