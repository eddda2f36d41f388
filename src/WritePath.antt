-- ===== src/WritePath.antt =====
-- driver/vscsi.c: how ExecuteWriteHandler puts the sectors of a write into the cache.
pub mod Switch
pub mod Lengths
pub mod Outcome
pub mod Place
mod Tests
use fdlvling.Base.{
  ℕ, zero, suc, ◌+◌, ◌-◌, ◌*◌, ◌/◌, ◌%◌, ◌^◌, Bool, true, false, not, ◌&&◌, add32, sub32, ltb, leb,
  ◌==◌, if◌then◌else◌,
}
use fdlvling.Store.{
  Store, not_mapped, last_cache_pos, block_start, get_cached_pos, copy_sectors, append_run,
  cache_fill_read_zero,
}

-- `for(len = 1; len < LEN && pos + len < CachePos; len++) { if(CacheLBA[pos + len] != LBA + len) break; }`
-- from `len` on, by the rounds left.
unfoldable pub hit_len : ℕ → ℕ → Store → ℕ → ℕ → ℕ
hit_len zero len s pos lba = len
hit_len (suc n) len s pos lba =
    let rest = hit_len n (len + 1) s pos lba in
    if ltb (pos + len) s.cache_pos && (s.cache_lba (pos + len) == add32 lba len) then rest else len

-- `for(len = 1; len < LEN && pos + len < LAST_CACHE_POS; len++) {
--    if((LBA + len) & 7) continue; if(GetCachedPos(Ctx, LBA + len) != NOT_MAPPED) break; }`
pub write_len : ℕ → ℕ → Store → ℕ → ℕ → ℕ
write_len zero len s pos lba = len
write_len (suc n) len s pos lba =
    let rest = write_len n (len + 1) s pos lba in
    if not (ltb (pos + len) last_cache_pos)
    then len
    else if not (add32 lba len % 8 == 0)
    then rest
    else if not (get_cached_pos s (add32 lba len) == not_mapped)
    then len
    else rest

-- How one round of the loop of ExecuteWriteHandler ends, from the search in the cache on: it went
-- on with `done` more sectors transferred, or it waits for ExecutePurgeCache or for
-- ExecuteCacheFillRead.
pub data Placed : Type 0 where
  go_on : Store → ℕ → Placed
  purge_cache : Placed
  fill_read : ℕ → ℕ → Placed

-- A write to sectors that the cache holds.
pub cache_hit : Store → ℕ → ℕ → ℕ → (ℕ → ℕ) → Placed
unfolding hit_len copy_sectors
cache_hit s pos lba len source =
    let n = hit_len (len - 1) 1 s pos lba in
    go_on (record s { cache_mem = copy_sectors s.cache_mem pos n source }) n

-- The label cache_write.
pub cache_write : Store → ℕ → ℕ → (ℕ → ℕ) → Placed
unfolding write_len
cache_write s lba len source =
    let n = write_len (len - 1) 1 s s.cache_pos lba in
    go_on (record (append_run s lba n source) { cache_dirty = true }) n

-- The label cache_fill_read.
pub fill_block : Store → ℕ → ℕ → Placed
fill_block s lba len =
    if not (s.map (lba / 8) == not_mapped)
    then fill_read lba len
    else go_on (cache_fill_read_zero s lba len) 0

-- A round of ExecuteWriteHandler from `pos = GetCachedPos(Ctx, LBA)` on, with `len` sectors left of
-- the request; `source` gives the data that is left.
unfoldable pub write_place : Store → ℕ → ℕ → (ℕ → ℕ) → Placed
unfolding cache_hit cache_write fill_block
write_place s lba len source =
    if not (get_cached_pos s lba == not_mapped)
    then cache_hit s (get_cached_pos s lba) lba len source
    else if leb last_cache_pos s.cache_pos
    then purge_cache
    else if not (s.cache_pos % 8 == 0)
    then (if add32 (s.cache_lba (s.cache_pos - 1)) 1 == lba
        then cache_write s lba len source
        else fill_block s (add32 (s.cache_lba (s.cache_pos - 1)) 1) (8 - s.cache_pos % 8))
    else if not (lba % 8 == 0)
    then fill_block s (block_start lba)
        (if block_start lba == block_start (add32 lba len) then 8 else lba % 8)
    else cache_write s lba len source
