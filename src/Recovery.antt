-- ===== src/Recovery.antt =====
-- driver/recovery.c: DoRecovery1 rebuilds Map, ChunkInfo and the place of the next purge from the
-- structures CHUNK_CTL and PURGE_CTL (driver/config.h) on the drive.
-- How the structures are laid out in sectors is a parameter (`Layout`); so are the reads that the
-- drive fails (`Drive`), named by their first sector.
pub mod Sound
pub mod Chunks
pub mod Bounds
pub mod Purges
pub mod Rounds
pub mod Replay
pub mod Durable
mod Tests
use fdlvling.Base.{
  ℕ, zero, suc, ◌+◌, ◌-◌, ◌*◌, ◌/◌, ◌%◌, ◌^◌, Bool, true, false, not, ◌&&◌, ◌||◌, add32, mul32, ltb,
  leb, ◌==◌, if◌then◌else◌,
}
use fdlvling.Store.{
  Store, Flash, ChunkInfo, not_mapped, size_of_ctl, size_of_cache, size_of_chunk, last_purge_pos,
  last_cache_pos, update, copy_sectors,
}
use fdlvling.Chunk.{PurgeCtl, update_map, find_next_chunk}

-- `struct _CHUNK_CTL`; the flag is the answer of VerifyChecksum128.
pub record ChunkCtl : Type 0 where
  pub verified : Bool
  pub version : ℕ
  pub ccn : ℕ
  pub scn : ℕ
  pub wcn : ℕ
  pub next_chunk_no : ℕ
  pub next_chunk_wcn : ℕ
  pub start : ℕ
  pub end : ℕ
  pub lba : ℕ → ℕ

-- `struct _PURGE_CTL` with the same flag; the fields that ExecutePurgeCache takes from the log are
-- those of PurgeCtl.
pub record PurgeSector : Type 0 where
  pub verified : Bool
  pub version : ℕ
  pub ccn : ℕ
  pub magic : ℕ
  pub ctl : PurgeCtl

-- How the structures lie in the sectors of a buffer.
pub record Layout : Type 0 where
  pub chunk_ctl : (ℕ → ℕ) → ChunkCtl
  pub purge_ctl : ℕ → PurgeSector

-- The drive: its sectors, and whether a read that starts at a sector succeeds.
pub record Drive : Type 0 where
  pub flash : Flash
  pub reads : ℕ → Bool

-- Ctx->Version, Ctx->CCN, Ctx->Magic.
pub record Identity : Type 0 where
  pub version : ℕ
  pub ccn : ℕ
  pub magic : ℕ

-- The state of the loop over the chunks: the context, Ctx->ChunkCtl and MaxSCN.
pub record Scan : Type 0 where
  pub store : Store
  pub ctl : ChunkCtl
  pub max_scn : ℕ

-- The test of the positions of a CHUNK_CTL.
pub fits : ChunkCtl → ℕ → Bool
fits c max_chunks =
    (c.start % size_of_cache == 0)
    && ((c.end % size_of_cache == 0)
        && (leb c.start c.end && (leb c.end last_purge_pos && ltb c.next_chunk_no max_chunks)))

-- `if(Ctx->ChunkInfo[c].WCN < wcn) Ctx->ChunkInfo[c].WCN = wcn;`
pub raise_wcn : (ℕ → ChunkInfo) → ℕ → ℕ → ℕ → ChunkInfo
raise_wcn infos c wcn =
    if ltb (infos c).wcn wcn then update infos c (record (infos c) { wcn = wcn }) else infos

pub set_scn : (ℕ → ChunkInfo) → ℕ → ℕ → ℕ → ChunkInfo
set_scn infos c scn = update infos c (record (infos c) { scn = scn })

-- The blocks of a CHUNK_CTL go on the map.
pub map_chunk : Store → ℕ → ChunkCtl → Store
unfolding update_map set_scn
map_chunk s chunk c =
    update_map (record s { chunk_info = set_scn s.chunk_info chunk c.scn })
      (λ k. c.lba (c.start / 8 + k)) (c.end - c.start) (add32 (mul32 chunk size_of_chunk) c.start)

-- `if(MaxSCN <= ChunkCtl->SCN) { ... }`
pub choose_newest : Scan → Store → ℕ → ChunkCtl → Scan
choose_newest t s chunk c =
    if leb t.max_scn c.scn
    then record {
      store = record s { chunk_no = chunk; chunk_lba = c.lba };
      ctl = c;
      max_scn = c.scn;
    }
    else record t { store = s }

-- A round of the loop over the chunks, once the structure is read.
pub scan_ctl : Identity → Scan → ℕ → ChunkCtl → Scan
unfolding raise_wcn map_chunk choose_newest fits
scan_ctl me t chunk c =
    if not c.verified || not (c.version == me.version)
    then t
    else let s = record t.store { chunk_info = raise_wcn t.store.chunk_info chunk c.wcn } in
      if not (c.ccn == me.ccn) || not (fits c s.max_chunks)
      then record t { store = s }
      else choose_newest t (map_chunk s chunk c) chunk c

-- How a part of the recovery ends: a read failed, or with what it leaves.
pub data Outcome {ℓ} (A : Type ℓ) : Type ℓ where
  read_failed : ℕ → Outcome A
  finished : A → Outcome A

unfoldable pub and_then {ℓ κ} : {A : Type ℓ} {B : Type κ} → Outcome A → (A → Outcome B) → Outcome B
and_then (read_failed place) f = read_failed place
and_then (finished a) f = f a

module _ (lay : Layout) (me : Identity) (drive : Drive) where
  -- SyncScsiCallRW_AssociatedMem of `len` sectors to the start of CacheMem.
  pub sync_read : Store → ℕ → ℕ → Outcome Store
  unfolding copy_sectors
  sync_read s place len =
      if drive.reads place
      then finished
          (record s { cache_mem = copy_sectors s.cache_mem 0 len (λ i. drive.flash (place + i)) })
      else read_failed place

  -- The loop over the chunks from `chunk` on, by the rounds left.
  pub scan_chunks : ℕ → ℕ → Scan → Outcome Scan
  unfolding sync_read and_then scan_ctl
  scan_chunks zero chunk t = finished t
  scan_chunks (suc n) chunk t =
      and_then (sync_read t.store (add32 (mul32 chunk size_of_chunk) last_purge_pos) size_of_ctl)
        (λ s.
          scan_chunks n (chunk + 1)
            (scan_ctl me (record t { store = s }) chunk (lay.chunk_ctl s.cache_mem)))

  -- The tests of a PURGE_CTL.
  pub is_next_record : Store → PurgeSector → Bool
  is_next_record s c =
      (c.verified && (c.version == me.version))
      && (((c.ccn == me.ccn) && (c.magic == me.magic))
          && ((c.ctl.scn == (s.chunk_info s.chunk_no).scn)
              && ((c.ctl.chunk_no == s.chunk_no) && (c.ctl.purge_pos == s.purge_pos))))

  -- The blocks of a PURGE_CTL go to ChunkCtl->LBA and on the map.
  pub replay_record : Store → PurgeCtl → Store
  unfolding update_map
  replay_record s c =
      let first = s.purge_pos / 8 in
      let t = record s {
        chunk_lba = λ i.
            if leb first i && ltb i (first + 64)
            then if leb s.size_of_map (c.lba (i - first) / 8) then not_mapped else c.lba (i - first)
            else s.chunk_lba i;
      } in
      record (update_map t c.lba size_of_cache
        (add32 (mul32 s.chunk_no size_of_chunk) s.purge_pos)) {
          purge_pos = add32 s.purge_pos size_of_cache;
        }

  -- Where the next PURGE_CTL is.
  pub record_place : Store → ℕ
  record_place s = add32 (add32 (mul32 s.chunk_no size_of_chunk) s.purge_pos) last_cache_pos

  -- `while(Ctx->PurgePos < LAST_PURGE_POS)`, by the rounds left.
  pub replay : ℕ → Store → Outcome Store
  unfolding sync_read and_then is_next_record record_place replay_record
  replay zero s = finished s
  replay (suc n) s =
      if leb last_purge_pos s.purge_pos
      then finished s
      else and_then (sync_read s (record_place s) 1) (λ t.
        let c = lay.purge_ctl (t.cache_mem 0) in
        if is_next_record t c then replay n (replay_record t c.ctl) else finished t)

-- What comes between the two loops.
pub start_position : ℕ → ℕ
start_position chunk_no = if 0 == chunk_no then size_of_cache else 0

pub resume : Scan → Store
unfolding raise_wcn set_scn start_position
resume t =
    let s = record t.store { cache_pos = 0; purge_pos = t.ctl.end; finalized_pos = t.ctl.end } in
    let next = t.ctl.next_chunk_no in
    let infos = raise_wcn s.chunk_info next t.ctl.next_chunk_wcn in
    if t.ctl.end == last_purge_pos
    then record s {
      chunk_info = set_scn infos next (add32 (infos s.chunk_no).scn 1);
      chunk_no = next;
      purge_pos = start_position next;
      finalized_pos = start_position next;
    }
    else s

-- The rounds that the second loop makes at most.
abbrev pub replay_rounds : ℕ
replay_rounds = 512

-- DoRecovery1, for a context whose Ctx->ChunkCtl is `ctl`; where a read failed the mode becomes
-- ERROR, else ACTIVE.
pub do_recovery : Layout → Identity → Drive → Store → ChunkCtl → Outcome Store
unfolding scan_chunks replay resume and_then
do_recovery lay me drive s ctl =
    and_then
      (scan_chunks lay me drive s.max_chunks 0
        (record { store = record s { chunk_no = 1 }; ctl = ctl; max_scn = 0 }))
      (λ t.
        and_then (replay lay me drive replay_rounds (resume t)) (λ u. finished (find_next_chunk u)))
