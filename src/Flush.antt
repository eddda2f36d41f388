-- ===== src/Flush.antt =====
-- driver/vflush.c: ExecuteFlush and ExecuteFlushHandler, which WriteCompleteHandler runs again
-- after each of the reads and writes that it waits for.
pub mod Flushable
pub mod Rounds
pub mod Finish
mod Tests
use fdlvling.Base.{
  ℕ, zero, suc, ◌+◌, ◌-◌, ◌*◌, ◌/◌, ◌%◌, ◌^◌, Bool, true, false, not, ◌&&◌, Option, none, some,
  add32, ltb, ◌==◌, if◌then◌else◌,
}
use fdlvling.Store.{Store, Flash, not_mapped, cache_fill_read_zero, cache_fill_read}
use fdlvling.Chunk.{
  PurgeCtl, execute_purge_cache, purge_flash, purge_cache_completion, execute_purge_chunk,
  purge_chunk_flash, purge_chunk_completion,
}

-- How ExecuteFlushHandler ends: waiting for a read that fills the last block of the cache, for the
-- write of the cache, for the write of CHUNK_CTL, or done.
pub data FlushStep : Type 0 where
  wait_fill : Store → ℕ → ℕ → FlushStep
  wait_cache : Store → FlushStep
  wait_chunk : Store → FlushStep
  flushed : Store → FlushStep

-- The handler from `if(Ctx->CacheDirty)` on.
pub flush_blocks : Store → FlushStep
flush_blocks s =
    if s.cache_dirty
    then wait_cache s
    else if s.finalizing && ltb s.finalized_pos s.purge_pos
    then wait_chunk s
    else flushed (record s { flushing = false })

-- ExecuteFlushHandler.
pub flush_handler : Store → FlushStep
unfolding flush_blocks
flush_handler s =
    let lba = add32 (s.cache_lba (s.cache_pos - 1)) 1 in
    let len = 8 - s.cache_pos % 8 in
    if s.cache_pos % 8 == 0
    then flush_blocks s
    else if not (s.map (lba / 8) == not_mapped)
    then wait_fill s lba len
    else flush_blocks (cache_fill_read_zero s lba len)

-- How PURGE_CTL and CHUNK_CTL are laid out in sectors.
pub record Layout : Type 0 where
  pub purge_ctl : PurgeCtl → ℕ
  pub chunk_ctl : Store → ℕ → ℕ

-- What is waited for, then the completion of the request, and WriteCompleteHandler, which is
-- `next`. A request that fails changes the mode, which is not looked at, and
-- where it was to fill the cache, CacheLBA behind CachePos, which is not in use.
pub flush_wait :
    Layout
    → Bool
    → FlushStep
    → Flash
    → (Store → Flash → Option (Store × Flash))
    → Option (Store × Flash)
flush_wait lay ok (wait_fill s lba len) flash next =
    if ok then next (cache_fill_read s flash lba len) flash else next s flash
flush_wait lay ok (wait_cache s) flash next =
    let t = execute_purge_cache lay.purge_ctl s in
    if ok then next (purge_cache_completion t) (purge_flash t flash) else next t flash
flush_wait lay ok (wait_chunk s) flash next =
    let t = execute_purge_chunk lay.chunk_ctl s in
    if ok then next (purge_chunk_completion t) (purge_chunk_flash t flash) else next t flash
flush_wait lay ok (flushed s) flash next = some (s, flash)

-- The rounds of a flush; `ok i` says that the request of round `i` succeeds, and `none` that the
-- flush is not at its end after `fuel` rounds.
pub flush_rounds : ℕ → ℕ → Layout → (ℕ → Bool) → Store → Flash → Option (Store × Flash)
unfolding flush_handler flush_wait
flush_rounds zero i lay ok s flash = none
flush_rounds (suc fuel) i lay ok s flash =
    flush_wait lay (ok i) (flush_handler s) flash (λ t f. flush_rounds fuel (i + 1) lay ok t f)

-- ExecuteFlush.
pub execute_flush : ℕ → Layout → (ℕ → Bool) → Bool → Store → Flash → Option (Store × Flash)
unfolding flush_rounds
execute_flush fuel lay ok finalize s flash =
    flush_rounds fuel 0 lay ok (record s { flushing = true; finalizing = finalize }) flash
