-- ===== src/Chunk.antt =====
-- driver/vscsi.c: the map from logical blocks to places on the drive, the log of chunks that the
-- cache is purged to, and the choice of the chunk to write next.
pub mod Usage
pub mod Placement
pub mod Agreement
pub mod Purge
pub mod Choice
mod Tests
use fdlvling.Base.{
  ℕ, zero, suc, ◌+◌, ◌-◌, ◌*◌, ◌/◌, ◌%◌, ◌^◌, Bool, true, false, not, ◌&&◌, ◌||◌, add32, sub32,
  mul32, ltb, leb, ◌==◌, if◌then◌else◌,
}
use fdlvling.Store.{
  Store, Flash, ChunkInfo, not_mapped, size_of_ctl, size_of_cache, size_of_chunk, last_purge_pos,
  last_cache_pos, update, copy_sectors,
}

-- Used-- and Used++ of a chunk.
unfoldable pub use_less : (ℕ → ChunkInfo) → ℕ → ℕ → ChunkInfo
use_less info c = update info c (record (info c) { used = sub32 (info c).used 1 })

unfoldable pub use_more : (ℕ → ChunkInfo) → ℕ → ℕ → ChunkInfo
use_more info c = update info c (record (info c) { used = add32 (info c).used 1 })

-- The body of the loop of UpdateMap for the entry `lba` and the place `plba` in chunk `chunk`.
unfoldable pub map_block : Store → ℕ → ℕ → ℕ → Store
unfolding use_less use_more
map_block s chunk lba plba =
    let j = lba / 8 in
    let old = s.map j in
    if leb s.size_of_map j
    then s
    else if old == not_mapped
    then record s { map = update s.map j plba; chunk_info = use_more s.chunk_info chunk }
    else if ltb (s.chunk_info chunk).scn (s.chunk_info (old / size_of_chunk)).scn
    then s
    else record s {
      map = update s.map j plba;
      chunk_info = use_more (use_less s.chunk_info (old / size_of_chunk)) chunk;
    }

-- The loop of UpdateMap from entry `k` on, by the rounds left.
unfoldable pub map_blocks : ℕ → ℕ → Store → ℕ → (ℕ → ℕ) → ℕ → Store
map_blocks zero k s chunk lbas plba = s
map_blocks (suc n) k s chunk lbas plba =
    map_blocks n (k + 1) (map_block s chunk (lbas k) plba) chunk lbas (add32 plba 8)

-- UpdateMap(Ctx, LBA, Sectors, PLBA).
unfoldable pub update_map : Store → (ℕ → ℕ) → ℕ → ℕ → Store
unfolding map_blocks
update_map s lbas sectors plba = map_blocks ((sectors + 7) / 8) 0 s (plba / size_of_chunk) lbas plba

-- `struct _PURGE_CTL`, the last sector of a purged cache; Magic and the checksum are added by
-- the function that lays the structure out.
pub record PurgeCtl : Type 0 where
  pub scn : ℕ
  pub chunk_no : ℕ
  pub purge_pos : ℕ
  pub lba : ℕ → ℕ

-- The sector numbers that ExecutePurgeCache records for block `k` of the cache.
unfoldable pub purge_lba : Store → ℕ → ℕ
purge_lba s k = if leb s.cache_pos (8 * k) then not_mapped else s.cache_lba (8 * k)

-- Where the cache goes on the drive.
unfoldable pub purge_place : Store → ℕ
purge_place s = add32 (mul32 s.chunk_no size_of_chunk) s.purge_pos

-- ExecutePurgeCache up to its write, without the timer, which is no part of the Store: ChunkCtl->LBA takes the 64 blocks of the cache, and the
-- sector LAST_CACHE_POS of CacheMem takes PURGE_CTL, laid out by `seal`.
unfoldable pub execute_purge_cache : (PurgeCtl → ℕ) → Store → Store
unfolding purge_lba
execute_purge_cache seal s =
    let first = s.purge_pos / 8 in
    record s {
      chunk_lba =
          λ i. if leb first i && ltb i (first + 64) then purge_lba s (i - first) else s.chunk_lba i;
      cache_mem = update s.cache_mem last_cache_pos (
          seal (record {
            scn = (s.chunk_info s.chunk_no).scn;
            chunk_no = s.chunk_no;
            purge_pos = s.purge_pos;
            lba = purge_lba s;
          }));
    }

-- The drive after the write of ExecutePurgeCache.
unfoldable pub purge_flash : Store → Flash → Flash
unfolding purge_place copy_sectors
purge_flash s flash = copy_sectors flash (purge_place s) size_of_cache s.cache_mem

-- PurgeCacheCompletion of a write that succeeded.
unfoldable pub purge_cache_completion : Store → Store
unfolding update_map purge_lba purge_place
purge_cache_completion s = record (update_map s (purge_lba s) s.cache_pos (purge_place s)) {
  cache_pos = 0;
  purge_pos = add32 s.purge_pos size_of_cache;
  relocation_done = false;
  cache_dirty = false;
}

-- ExecutePurgeChunk up to its write: it counts the wear of the chunk, and CHUNK_CTL, laid out by
-- `layout`, goes to the start of CacheMem.
unfoldable pub execute_purge_chunk : (Store → ℕ → ℕ) → Store → Store
unfolding copy_sectors
execute_purge_chunk layout s =
    let info = s.chunk_info s.chunk_no in
    let t = record s {
      chunk_info = update s.chunk_info s.chunk_no (record info { wcn = add32 info.wcn 1 });
    } in
    record t { cache_mem = copy_sectors s.cache_mem 0 size_of_ctl (layout t) }

-- The drive after the write of ExecutePurgeChunk.
unfoldable pub purge_chunk_flash : Store → Flash → Flash
unfolding copy_sectors
purge_chunk_flash s flash =
    copy_sectors flash (add32 (mul32 s.chunk_no size_of_chunk) last_purge_pos) size_of_cache
      s.cache_mem

-- PurgeChunkCompletion of a write that succeeded.
unfoldable pub purge_chunk_completion : Store → Store
purge_chunk_completion s = record s { finalized_pos = s.purge_pos }

-- RELOCATION_LIMIT_PERCENTAGE.
abbrev relocation_limit_percentage : ℕ
relocation_limit_percentage = 90

-- The chunk that a loop of FindNextChunk has chosen so far, and its score.
pub record Best : Type 0 where
  pub next : ℕ
  pub min_score : ℕ

-- `if(Ctx->ChunkNo == next || min_score > s) { min_score = s; next = i; }`
pub better : Store → Best → ℕ → ℕ → Best
better s b i score =
    if (s.chunk_no == b.next) || ltb score b.min_score
    then record { next = i; min_score = score }
    else b

-- The chunk has few enough blocks in use to be relocated.
pub eligible : Store → ℕ → Bool
eligible s i = not (
    leb (mul32 (sub32 last_purge_pos s.purge_pos / 8) relocation_limit_percentage)
      (mul32 (s.chunk_info i).used 100))

pub score : Store → ℕ → ℕ
score s i =
    let wcn = (s.chunk_info s.chunk_no).wcn in
    let own = (s.chunk_info i).wcn in
    let life = if ltb own wcn then mul32 2 own else add32 wcn own in
    add32 (mul32 (s.chunk_info i).used (add32 1 s.weight_speed) / 32)
      (mul32 life (add32 1 s.weight_life))

-- The two loops of FindNextChunk, from chunk `i` on.
pub find_eligible : ℕ → ℕ → Store → Best → Best
unfolding better
find_eligible zero i s b = b
find_eligible (suc n) i s b =
    find_eligible n (i + 1) s
      (if (i == s.chunk_no) || not (eligible s i) then b else better s b i (score s i))

pub find_least_used : ℕ → ℕ → Store → Best → Best
unfolding better
find_least_used zero i s b = b
find_least_used (suc n) i s b =
    find_least_used n (i + 1) s (if i == s.chunk_no then b else better s b i (s.chunk_info i).used)

pub best_chunk : Store → Best
unfolding find_eligible find_least_used
best_chunk s =
    let first = find_eligible s.max_chunks 0 s (record { next = s.chunk_no; min_score = 0 }) in
    if s.chunk_no == first.next then find_least_used s.max_chunks 0 s first else first

-- FindNextChunk.
unfoldable pub find_next_chunk : Store → Store
unfolding best_chunk
find_next_chunk s = record s {
  next_chunk_no = (best_chunk s).next;
  relocation_done = false;
  relocation_prepared = false;
}
