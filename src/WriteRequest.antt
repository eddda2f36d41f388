-- ===== src/WriteRequest.antt =====
-- driver/vscsi.c: a write request as a whole. ExecuteWriteHandler runs rounds until it waits for a
-- request to the drive; the completion of that request runs it again (WriteCompleteHandler).
pub mod Remaining
pub mod Joining
pub mod Enough
pub mod Emptied
pub mod Invariant
pub mod Chunks
pub mod Purge
pub mod Relocate
pub mod Cache
pub mod Rounds
pub mod Reach
pub mod Clients
pub mod Failure
pub mod Lossless
pub mod Handler
pub mod Placing
pub mod Returns
mod Tests
use fdlvling.Base.{
  ℕ, zero, suc, ◌+◌, ◌-◌, Bool, true, false, not, Option, none, some, ltb, leb, ◌==◌, if◌then◌else◌,
  add32, mul32,
}
use fdlvling.Store.{
  Store, Flash, last_purge_pos, size_of_ctl, size_of_cache, size_of_chunk, copy_sectors, fill_lba,
  cache_fill_read,
}
use fdlvling.Chunk.{
  purge_place, execute_purge_cache, purge_flash, purge_cache_completion, execute_purge_chunk,
  purge_chunk_flash, purge_chunk_completion,
}
use fdlvling.Flush.{Layout}
use fdlvling.Relocation.{
  prepare_relocate_read, prepare_relocate_completion, execute_relocate_cached, execute_relocate,
  relocate_read,
}
use fdlvling.WritePath.{Placed, go_on, purge_cache, fill_read, write_place}
use fdlvling.WritePath.Switch.{switch_chunk}

-- The test of ExecuteRW on the range of a request, which a request has to pass; `SIZE_OF_MAP << 3` and
-- `LBA + LEN` are of 32 bits.
unfoldable pub in_range : Store → ℕ → ℕ → Bool
in_range s lba len = not (ltb (mul32 s.size_of_map 8) (add32 lba len))

-- How a round of the loop of ExecuteWriteHandler ends: there is no system address for the data; the
-- mode is not ACTIVE; all sectors are transferred; it waits for
-- ExecutePurgeChunk, PrepareRelocate, the read of ExecuteRelocate, ExecutePurgeCache or
-- ExecuteCacheFillRead; or it went on with more sectors transferred. The store is the context before
-- the request to the drive is made.
pub data WriteStep : Type 0 where
  no_resources : Store → WriteStep
  not_ready : Store → WriteStep
  all_done : Store → WriteStep
  awaits_chunk : Store → WriteStep
  awaits_prepare : Store → WriteStep
  awaits_window : Store → WriteStep
  awaits_cache : Store → WriteStep
  awaits_fill : Store → ℕ → ℕ → WriteStep
  went_on : Store → ℕ → WriteStep

-- The round from the search in the cache on.
pub placed_step : Store → Placed → WriteStep
placed_step s (go_on t n) = went_on t n
placed_step s purge_cache = awaits_cache s
placed_step s (fill_read start n) = awaits_fill s start n

pub place_round : Store → ℕ → ℕ → (ℕ → ℕ) → WriteStep
unfolding placed_step
place_round s lba len source = placed_step s (write_place s lba len source)

-- `if(!Ctx->RelocationDone) { ... }`, and what follows.
pub relocated_round : Store → ℕ → ℕ → (ℕ → ℕ) → WriteStep
unfolding place_round
relocated_round t lba len source =
    if not t.relocation_done
    then awaits_window (execute_relocate t)
    else place_round t lba len source

pub relocate_round : Store → ℕ → ℕ → (ℕ → ℕ) → WriteStep
unfolding relocated_round place_round
relocate_round s lba len source =
    if not s.relocation_done
    then relocated_round (execute_relocate_cached s) lba len source
    else place_round s lba len source

-- `if(!Ctx->RelocationPrepared) { ... }`, and what follows.
pub prepare_round : Store → ℕ → ℕ → (ℕ → ℕ) → WriteStep
unfolding relocate_round
prepare_round s lba len source =
    if not s.relocation_prepared then awaits_prepare s else relocate_round s lba len source

-- A round of the loop while the mode is ACTIVE, with `len` sectors from `lba` on left to transfer.
pub write_round : Store → ℕ → ℕ → (ℕ → ℕ) → WriteStep
unfolding prepare_round
write_round s lba len source =
    if len == 0
    then all_done s
    else if leb last_purge_pos s.purge_pos
    then if ltb s.finalized_pos last_purge_pos
      then awaits_chunk s
      else prepare_round (switch_chunk s) lba len source
    else prepare_round s lba len source

-- What a round that went on is followed by.
pub next_round : WriteStep → (Store → ℕ → Option (WriteStep × ℕ)) → Option (WriteStep × ℕ)
next_round (went_on t n) next = next t n
next_round (no_resources s) next = some (no_resources s, 0)
next_round (not_ready s) next = some (not_ready s, 0)
next_round (all_done s) next = some (all_done s, 0)
next_round (awaits_chunk s) next = some (awaits_chunk s, 0)
next_round (awaits_prepare s) next = some (awaits_prepare s, 0)
next_round (awaits_window s) next = some (awaits_window s, 0)
next_round (awaits_cache s) next = some (awaits_cache s, 0)
next_round (awaits_fill s start n) next = some (awaits_fill s start n, 0)

abbrev add_done : ℕ → Option (WriteStep × ℕ) → Option (WriteStep × ℕ)
add_done n none = none
add_done n (some (e, k)) = some (e, n + k)

-- ExecuteWriteHandler from the label loop on, by the rounds left: how its last round ends, and how
-- many sectors it has transferred. `active n` says that the mode is ACTIVE when `n` rounds are left.
pub write_handler : ℕ → (ℕ → Bool) → Store → ℕ → ℕ → (ℕ → ℕ) → Option (WriteStep × ℕ)
unfolding write_round next_round
write_handler zero active s lba len source = none
write_handler (suc n) active s lba len source =
    if not (active n)
    then some (not_ready s, 0)
    else next_round (write_round s lba len source)
        (λ t k. add_done k (write_handler n active t (lba + k) (len - k) (λ i. source (k + i))))

-- ExecuteWriteHandler; `addressable` says that the thread has a system address for the data, or that
-- GetDataSystemAddress gives one.
pub execute_write_handler : Bool → ℕ → (ℕ → Bool) → Store → ℕ → ℕ → (ℕ → ℕ) → Option (WriteStep × ℕ)
unfolding write_handler
execute_write_handler addressable fuel active s lba len source =
    if not addressable then some (no_resources s, 0) else write_handler fuel active s lba len source

-- The request to the drive, where it succeeds, and its completion: the context, the drive and the
-- sectors transferred when the next round begins. `lay` lays out the control structures, and
-- `decode` reads the LBA array of a CHUNK_CTL.
pub answered : Layout → ((ℕ → ℕ) → ℕ → ℕ) → Flash → WriteStep → Option (Store × Flash × ℕ)
answered lay decode flash (no_resources s) = none
answered lay decode flash (not_ready s) = none
answered lay decode flash (all_done s) = none
answered lay decode flash (went_on t n) = some (t, flash, n)
answered lay decode flash (awaits_chunk s) =
    let t = execute_purge_chunk lay.chunk_ctl s in
    some (purge_chunk_completion t, purge_chunk_flash t flash, 0)
answered lay decode flash (awaits_prepare s) =
    some (prepare_relocate_completion decode (prepare_relocate_read s flash), flash, 0)
answered lay decode flash (awaits_window s) = some (relocate_read s flash, flash, 0)
answered lay decode flash (awaits_cache s) =
    let t = execute_purge_cache lay.purge_ctl s in
    some (purge_cache_completion t, purge_flash t flash, 0)
answered lay decode flash (awaits_fill s start n) = some (cache_fill_read s flash start n, flash, 0)

-- From one round to the next.
pub write_step :
    Layout → ((ℕ → ℕ) → ℕ → ℕ) → Store → Flash → ℕ → ℕ → (ℕ → ℕ) → Option (Store × Flash × ℕ)
unfolding write_round answered
write_step lay decode s flash lba len source =
    answered lay decode flash (write_round s lba len source)

-- The request to the drive, where it fails, and its completion, which changes the mode to ERROR: the
-- context and the drive. `left i` is what the request leaves in its sector `i`, of the memory that it
-- was to read to or of the drive that it was to write.
pub failed : Layout → (ℕ → ℕ) → Flash → WriteStep → Option (Store × Flash)
failed lay left flash (no_resources s) = none
failed lay left flash (not_ready s) = none
failed lay left flash (all_done s) = none
failed lay left flash (went_on t n) = none
failed lay left flash (awaits_chunk s) =
    let place = add32 (mul32 s.chunk_no size_of_chunk) last_purge_pos in
    some (execute_purge_chunk lay.chunk_ctl s, copy_sectors flash place size_of_cache left)
failed lay left flash (awaits_prepare s) =
    some (record s { cache_mem = copy_sectors s.cache_mem 0 size_of_ctl left }, flash)
failed lay left flash (awaits_window s) =
    let len = s.relocate_window_end - s.relocate_window_start in
    some (record s { relocate_mem = copy_sectors s.relocate_mem 0 len left }, flash)
failed lay left flash (awaits_cache s) =
    some
      (execute_purge_cache lay.purge_ctl s, copy_sectors flash (purge_place s) size_of_cache left)
failed lay left flash (awaits_fill s start n) = some (
  record s {
    cache_lba = fill_lba n 0 s.cache_lba s.cache_pos start;
    cache_mem = copy_sectors s.cache_mem s.cache_pos n left;
  },
  flash,
)
