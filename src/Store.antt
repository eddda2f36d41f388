-- ===== src/Store.antt =====
-- driver/vscsi.h and driver/vscsi.c: the state that translates logical sectors to the flash drive.
-- CacheMem holds sectors that are not on the drive yet, CacheLBA says which; Map gives the place
-- of each block of 8 sectors on the drive, ChunkInfo the use of each chunk of 2^18 sectors.
-- An array is a function of its index (the bounds of the indices are theorems), a sector's
-- contents are a number, 0 for 512 zero bytes, and the drive is a function from its sectors.
pub mod Lookup
pub mod Append
pub mod Cache
pub mod Sample
mod Tests
use fdlvling.Base.{
  ℕ, zero, suc, ◌+◌, ◌-◌, ◌*◌, ◌/◌, ◌%◌, ◌^◌, Bool, true, false, ◌&&◌, add32, mul32, ltb, leb, ◌==◌,
  if◌then◌else◌,
}

-- NOT_MAPPED, SIZE_OF_CTL, SIZE_OF_CACHE, SIZE_OF_CHUNK, LAST_PURGE_POS, LAST_CACHE_POS.
abbrev pub not_mapped : ℕ
not_mapped = 0xffffffff

abbrev pub size_of_ctl : ℕ
size_of_ctl = 0x100

abbrev pub size_of_cache : ℕ
size_of_cache = 0x200

abbrev pub size_of_chunk : ℕ
size_of_chunk = 0x40000

abbrev pub last_purge_pos : ℕ
last_purge_pos = 0x3fe00

abbrev pub last_cache_pos : ℕ
last_cache_pos = 0x1f8

-- `struct _CHUNK_INFO`.
pub record ChunkInfo : Type 0 where
  pub scn : ℕ
  pub wcn : ℕ
  pub used : ℕ

-- The fields of `struct _LEVELING_CTX` that the translation uses; `chunk_lba` is ChunkCtl->LBA and
-- `next_chunk_lba` is NextChunkCtl->LBA.
pub record Store : Type 0 where
  pub size_of_map : ℕ
  pub max_chunks : ℕ
  pub weight_life : ℕ
  pub weight_speed : ℕ
  pub map : ℕ → ℕ
  pub chunk_info : ℕ → ChunkInfo
  pub chunk_no : ℕ
  pub next_chunk_no : ℕ
  pub chunk_lba : ℕ → ℕ
  pub next_chunk_lba : ℕ → ℕ
  pub finalized_pos : ℕ
  pub purge_pos : ℕ
  pub cache_pos : ℕ
  pub cache_lba : ℕ → ℕ
  pub cache_mem : ℕ → ℕ
  pub relocate_mem : ℕ → ℕ
  pub relocate_pos : ℕ
  pub relocate_window_start : ℕ
  pub relocate_window_end : ℕ
  pub relocate_target : ℕ
  pub relocate_source : ℕ
  pub flushing : Bool
  pub finalizing : Bool
  pub relocation_prepared : Bool
  pub relocation_done : Bool
  pub cache_dirty : Bool

-- The sectors of the drive.
abbrev pub Flash : Type 0
Flash = ℕ → ℕ

-- `x & -8`.
abbrev pub block_start : ℕ → ℕ
block_start x = x - x % 8

abbrev pub update {ℓ} : {A : Type ℓ} → (ℕ → A) → ℕ → A → ℕ → A
update f i v j = if i == j then v else f j

-- The loop of GetCachedPos from index `i` on, by the rounds left.
unfoldable pub cached_scan : ℕ → ℕ → (ℕ → ℕ) → ℕ → ℕ → ℕ
cached_scan zero i lbas cache_pos lba = not_mapped
cached_scan (suc n) i lbas cache_pos lba =
    let rest = cached_scan n (i + 8) lbas cache_pos lba in
    if (lbas i == block_start lba) && ltb (i + lba % 8) cache_pos then i + lba % 8 else rest

-- GetCachedPos.
unfoldable pub get_cached_pos : Store → ℕ → ℕ
unfolding cached_scan
get_cached_pos s lba = cached_scan ((s.cache_pos + 7) / 8) 0 s.cache_lba s.cache_pos lba

-- `for(i = 0; i < len; i++) CacheLBA[pos + i] = LBA + i;`, by the rounds left.
unfoldable pub fill_lba : ℕ → ℕ → (ℕ → ℕ) → ℕ → ℕ → ℕ → ℕ
fill_lba zero i lbas pos lba = lbas
fill_lba (suc n) i lbas pos lba = fill_lba n (i + 1) (update lbas (pos + i) (add32 lba i)) pos lba

-- RtlCopyMemory of `len` sectors to sector `pos` of a buffer; `source` is indexed from 0.
unfoldable pub copy_sectors : (ℕ → ℕ) → ℕ → ℕ → (ℕ → ℕ) → ℕ → ℕ
copy_sectors mem pos len source j =
    if leb pos j && ltb j (pos + len) then source (j - pos) else mem j

-- The sectors `lba` .. `lba + len - 1` go to the end of the cache: the statements that the label
-- cache_write of ExecuteWriteHandler, CacheFillReadZero, ExecuteCacheFillRead with its completion,
-- and ExecuteRelocateCached share.
unfoldable pub append_run : Store → ℕ → ℕ → (ℕ → ℕ) → Store
unfolding fill_lba copy_sectors
append_run s lba len source = record s {
  cache_lba = fill_lba len 0 s.cache_lba s.cache_pos lba;
  cache_mem = copy_sectors s.cache_mem s.cache_pos len source;
  cache_pos = add32 s.cache_pos len;
}

-- CacheFillReadZero.
unfoldable pub cache_fill_read_zero : Store → ℕ → ℕ → Store
cache_fill_read_zero s lba len = append_run s lba len (λ _. 0)

-- ExecuteCacheFillRead and CacheFillReadCompletion of a read that succeeds.
unfoldable pub cache_fill_read : Store → Flash → ℕ → ℕ → Store
cache_fill_read s flash lba len =
    append_run s lba len (λ i. flash (add32 (add32 (s.map (lba / 8)) (lba % 8)) i))

-- What a logical sector contains: the cached copy, else the mapped sector, else zeros.
unfoldable pub view : Store → Flash → ℕ → ℕ
view s flash lba =
    if get_cached_pos s lba == not_mapped
    then if s.map (lba / 8) == not_mapped then 0 else flash (s.map (lba / 8) + lba % 8)
    else s.cache_mem (get_cached_pos s lba)
