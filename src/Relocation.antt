-- ===== src/Relocation.antt =====
-- driver/vrelocation.c: before a new chunk is begun, the blocks that are still in use in the next
-- one are read in windows and join the cache.
pub mod Window
pub mod Blocks
pub mod Contents
pub mod Prepared
mod Tests
use fdlvling.Base.{
  ℕ, zero, suc, ◌+◌, ◌-◌, ◌*◌, ◌/◌, ◌%◌, ◌^◌, Bool, true, false, not, ◌&&◌, Option, none, some,
  add32, sub32, mul32, ltb, leb, ◌==◌, if◌then◌else◌,
}
use fdlvling.Store.{
  Store, Flash, not_mapped, size_of_ctl, size_of_cache, size_of_chunk, last_purge_pos,
  last_cache_pos, update, copy_sectors, append_run,
}

-- RELOCATION_READ_MAX_GAP.
abbrev pub relocation_read_max_gap : ℕ
relocation_read_max_gap = 32

-- The place of position `pos` of the next chunk, and whether the map still has the block there.
unfoldable pub next_place : Store → ℕ → ℕ
next_place s pos = add32 (mul32 s.next_chunk_no size_of_chunk) pos

unfoldable pub in_use : Store → ℕ → Bool
unfolding next_place
in_use s pos =
    let block = s.next_chunk_lba (pos / 8) / 8 in
    ltb block s.size_of_map && (s.map block == next_place s pos)

-- The read of PrepareRelocate, which goes to CacheMem.
unfoldable pub prepare_relocate_read : Store → Flash → Store
unfolding next_place copy_sectors
prepare_relocate_read s flash = record s {
  cache_mem = copy_sectors s.cache_mem 0 size_of_ctl (λ i. flash (next_place s last_purge_pos + i));
}

-- PrepareRelocateCompletion of a read that succeeded; `decode` reads the LBA array of the CHUNK_CTL in
-- the sectors of CacheMem.
unfoldable pub prepare_relocate_completion : ((ℕ → ℕ) → ℕ → ℕ) → Store → Store
prepare_relocate_completion decode s = record s {
  next_chunk_lba = decode s.cache_mem;
  relocate_target = sub32 last_purge_pos s.purge_pos / 8;
  relocate_source = (s.chunk_info s.next_chunk_no).used;
  relocate_window_start = 0;
  relocate_window_end = 0;
  relocate_pos = 0;
  relocation_prepared = true;
}

-- A round of the loop of ExecuteRelocateCached: it goes on, or ends at `done` or at `exit`.
pub data Round : Type 0 where
  goes_on : Store → Round
  ends : Bool → Round

-- The block at RelocatePos joins the cache.
unfoldable pub join_block : Store → Store
join_block s =
    let lba = s.next_chunk_lba (s.relocate_pos / 8) in
    append_run s lba 8 (λ i. s.relocate_mem (s.relocate_pos - s.relocate_window_start + i))

-- `Ctx->RelocatePos += 8`.
unfoldable pub next_block : Store → Store
next_block s = record s { relocate_pos = s.relocate_pos + 8 }

unfoldable pub relocate_block : Store → Round
unfolding in_use join_block next_block
relocate_block s =
    if leb last_purge_pos s.relocate_pos
    then ends true
    else if not (in_use s s.relocate_pos)
    then goes_on (next_block s)
    else if leb last_cache_pos s.cache_pos
    then ends true
    else if not
        (leb s.relocate_window_start s.relocate_pos && ltb s.relocate_pos s.relocate_window_end)
    then ends false
    else goes_on (next_block (join_block s))

-- The loop, by the rounds left; the flag says that it ends at `done`.
unfoldable pub after_block : Round → Store → (Store → Store × Bool) → Store × Bool
after_block (ends at_done) s next = (s, at_done)
after_block (goes_on t) s next = next t

unfoldable pub relocate_blocks : ℕ → Store → Store × Bool
unfolding relocate_block after_block
relocate_blocks zero s = (s, true)
relocate_blocks (suc n) s = after_block (relocate_block s) s (relocate_blocks n)

-- The test of ExecuteRelocateCached that enough is relocated for now.
unfoldable pub enough_relocated : Store → Bool
enough_relocated s =
    leb (mul32 s.relocate_target (sub32 (s.chunk_info s.next_chunk_no).used (s.cache_pos / 8)))
      (mul32 s.relocate_source (sub32 (sub32 last_purge_pos size_of_cache) s.purge_pos / 8))

-- ExecuteRelocateCached.
unfoldable pub execute_relocate_cached : Store → Store
unfolding enough_relocated relocate_blocks
execute_relocate_cached s =
    if enough_relocated s
    then record s { relocation_done = true }
    else let (t, done) = relocate_blocks (last_purge_pos / 8 + 1 - s.relocate_pos / 8) s in
      if done then record t { relocation_done = true } else t

-- The loop of ExecuteRelocate from position `i` on, by the rounds left: where the window ends.
pub window_end : ℕ → ℕ → Store → ℕ → ℕ → ℕ
unfolding in_use
window_end zero i s start last = last
window_end (suc n) i s start last =
    let rest = window_end n (i + 8) s start (if in_use s i then i + 8 else last) in
    if ltb i last_purge_pos
      && (ltb i (start + size_of_cache) && ltb i (last + relocation_read_max_gap))
    then rest
    else last

-- ExecuteRelocate up to its read.
unfoldable pub execute_relocate : Store → Store
unfolding window_end
execute_relocate s = record s {
  relocate_window_start = s.relocate_pos;
  relocate_window_end =
      window_end (size_of_cache / 8) s.relocate_pos s s.relocate_pos s.relocate_pos;
}

-- The read of ExecuteRelocate, which goes to RelocateMem.
unfoldable pub relocate_read : Store → Flash → Store
unfolding next_place copy_sectors
relocate_read s flash = record s {
  relocate_mem =
      copy_sectors s.relocate_mem 0 (s.relocate_window_end - s.relocate_window_start)
        (λ i. flash (next_place s s.relocate_window_start + i));
}
