-- ===== src/ReadPath.antt =====
-- driver/vscsi.c: how ExecuteReadHandler and ExecuteReadCompletion collect the sectors of a read.
pub mod Lengths
pub mod Served
mod Tests
use fdlvling.Base.{
  ℕ, zero, suc, ◌+◌, ◌-◌, ◌*◌, ◌/◌, ◌%◌, ◌^◌, Bool, true, false, not, ◌&&◌, add32, sub32, ltb, leb,
  ◌==◌, if◌then◌else◌,
}
use fdlvling.Store.{Store, Flash, not_mapped, get_cached_pos, copy_sectors}
use fdlvling.WritePath.{hit_len}

-- `for(len = 1; len < LEN; len++) { if((LBA + len) & 7) continue;
--    if(PLBA + len != Map[(LBA + len) >> 3]) break; if(GetCachedPos(Ctx, LBA + len) != NOT_MAPPED) break; }`
-- from `len` on, by the rounds left.
pub flash_len : ℕ → ℕ → Store → ℕ → ℕ → ℕ
flash_len zero len s plba lba = len
flash_len (suc n) len s plba lba =
    let rest = flash_len n (len + 1) s plba lba in
    if not (add32 lba len % 8 == 0)
    then rest
    else if not (add32 plba len == s.map (add32 lba len / 8))
    then len
    else if not (get_cached_pos s (add32 lba len) == not_mapped)
    then len
    else rest

-- Where a round of the loop takes its sectors from.
pub data Source : Type 0 where
  from_cache : ℕ → ℕ → Source
  zeros : Source
  from_drive : ℕ → ℕ → Source

-- A round of ExecuteReadHandler from `pos = GetCachedPos(Ctx, LBA)` on.
pub read_source : Store → ℕ → ℕ → Source
unfolding hit_len flash_len
read_source s lba len =
    let pos = get_cached_pos s lba in
    let plba = add32 (s.map (lba / 8)) (lba % 8) in
    if not (pos == not_mapped)
    then from_cache pos (hit_len (len - 1) 1 s pos lba)
    else if s.map (lba / 8) == not_mapped
    then zeros
    else from_drive plba (flash_len (len - 1) 1 s plba lba)

-- How a read ends: complete with its data, refused since the mode is not ACTIVE, without a system
-- address for its buffer, with the error of the drive after some sectors, or, for want of fuel, not
-- yet.
pub data ReadEnd : Type 0 where
  complete : (ℕ → ℕ) → ReadEnd
  not_ready : ℕ → ReadEnd
  no_resources : ReadEnd
  drive_error : ℕ → ℕ → ReadEnd
  running : ReadEnd

-- What the read relies on outside the translation: the mode is ACTIVE when `n` sectors are
-- transferred, GetDataSystemAddress gives an address, and ScsiCallRW reads `len` sectors at `plba`.
pub record Surroundings : Type 0 where
  pub active : ℕ → Bool
  pub addressable : Bool
  pub drive_reads : ℕ → ℕ → Bool

-- What the round does with its source; `next` is the rest of the loop, after ExecuteReadCompletion
-- where the drive is read.
pub take_source :
    Surroundings → Store → Flash → Source → ℕ → (ℕ → ℕ) → (ℕ → (ℕ → ℕ) → ReadEnd) → ReadEnd
unfolding copy_sectors
take_source env s flash (from_cache pos n) done buffer next =
    if env.addressable
    then next (done + n) (copy_sectors buffer done n (λ i. s.cache_mem (pos + i)))
    else no_resources
take_source env s flash zeros done buffer next =
    if env.addressable then next (done + 1) (copy_sectors buffer done 1 (λ _. 0)) else no_resources
take_source env s flash (from_drive plba n) done buffer next =
    if env.drive_reads plba n
    then next (done + n) (copy_sectors buffer done n (λ i. flash (plba + i)))
    else drive_error plba n

-- The loop of ExecuteReadHandler, carried on by ExecuteReadCompletion, of a read of `len` sectors at
-- `lba` with `done` of them transferred; every round takes one unit of fuel.
unfoldable pub read_loop : ℕ → Surroundings → Store → Flash → ℕ → ℕ → ℕ → (ℕ → ℕ) → ReadEnd
unfolding read_source take_source
read_loop zero env s flash lba len done buffer = running
read_loop (suc fuel) env s flash lba len done buffer =
    if not (env.active done)
    then not_ready done
    else if len - done == 0
    then complete buffer
    else take_source env s flash (read_source s (add32 lba done) (len - done)) done buffer
        (λ t b. read_loop fuel env s flash lba len t b)
