-- ===== src/Config/Format.antt =====
-- driver/config.c: SetLevelingConfig changes the settings of a device or formats it.
-- How the structures are laid out in sectors is left to the reader of the writes; `Layout` reads the
-- CHUNK_CTL that is there already. Whether a write succeeds is a function of its first sector.
pub mod Outcomes
use fdlvling.Base.{
  ℕ, ◌+◌, ◌-◌, ◌*◌, ◌%◌, ◌^◌, Bool, true, false, not, ◌&&◌, ◌||◌, List, [], ◌∷◌, ◌++◌, Option, none,
  some, add32, sub32, mul32, ltb, ◌==◌, if◌then◌else◌,
}
use fdlvling.Store.{not_mapped, size_of_chunk, size_of_cache, last_purge_pos}
use fdlvling.Device.{Extension, mode_error, mode_completed, change_mode_atomic}
use fdlvling.Chunk.{PurgeCtl}
use fdlvling.Recovery.{ChunkCtl, PurgeSector, Layout, Drive, Outcome, read_failed, finished}
use fdlvling.Config.{Settings, mode_format, set_format_mode, get_max_chunks, get_new_ccn}

-- LEVELING_VERSION, DRIVER_VERSION, DRIVER_REVISION, VLTL_MODE_CONFIG.
abbrev pub leveling_version : ℕ
leveling_version = 1000

abbrev pub driver_version : ℕ
driver_version = 1

abbrev pub driver_revision : ℕ
driver_revision = 1

abbrev pub mode_config : ℕ
mode_config = 7

-- The fields of the MODE_BUFFER that SetLevelingConfig takes.
pub record Wanted : Type 0 where
  pub version : ℕ
  pub revision : ℕ
  pub mode : ℕ
  pub size_of_map : ℕ
  pub weight_life : ℕ
  pub weight_speed : ℕ
  pub signature : ℕ
  pub magic : ℕ
  pub cache_timeout : ℕ
  pub flush_faithfully : ℕ

-- `struct _LEVELING_CONF`; the flag is the answer of VerifyChecksum128.
pub record Conf : Type 0 where
  pub verified : Bool
  pub version : ℕ
  pub ccn : ℕ
  pub size_of_map : ℕ
  pub weight_life : ℕ
  pub weight_speed : ℕ
  pub magic : ℕ
  pub cache_timeout : ℕ
  pub flush_faithfully : ℕ

-- The first sectors of the drive: a configuration with the signature, a partition table with the
-- signature and the length of the partition, or zeros.
pub data Head : Type 0 where
  conf_head : Conf → ℕ → Head
  table_head : ℕ → ℕ → Head
  zero_head : Head

-- The writes of SetLevelingConfig: CHUNK_CTL of chunk 1; the first cache of chunk 1, with the
-- signature and the length of the partition; the first sectors; the first sector as it was but for its
-- configuration.
pub data Write : Type 0 where
  writes_chunk : ChunkCtl → Write
  writes_cache : ℕ → ℕ → PurgeSector → Write
  writes_head : Head → Write
  writes_conf : Conf → Write

-- The settings that the request wants, in a configuration and in the context.
pub set_conf : Conf → Wanted → Conf
set_conf c b = record c {
  verified = true;
  weight_life = b.weight_life;
  weight_speed = b.weight_speed;
  cache_timeout = b.cache_timeout;
  flush_faithfully = b.flush_faithfully;
}

pub set_settings : Settings → Wanted → Settings
set_settings c b = record c {
  weight_life = b.weight_life;
  weight_speed = b.weight_speed;
  cache_timeout = b.cache_timeout;
  flush_faithfully = b.flush_faithfully;
}

-- The CHUNK_CTL of chunk 1 that a format writes, from the one that is there.
unfoldable pub format_ctl : Bool → ℕ → ChunkCtl → ChunkCtl
format_ctl removable ccn old = record {
  verified = true;
  version = leveling_version;
  ccn = ccn;
  scn = 1;
  wcn = add32 (if old.verified then old.wcn else 0) 1;
  next_chunk_no = 1;
  next_chunk_wcn = 0;
  start = 0;
  end = if removable then 0 else size_of_cache;
  lba = λ i.
      if removable
      then old.lba i
      else if i == 0
      then 0
      else if ltb i 64
      then not_mapped
      else old.lba i;
}

-- The PURGE_CTL of the first cache.
pub format_purge : ℕ → Wanted → PurgeSector
format_purge ccn b = record {
  verified = true;
  version = leveling_version;
  ccn = ccn;
  magic = b.magic;
  ctl = record {
    scn = 1;
    chunk_no = 1;
    purge_pos = 0;
    lba = λ i. if i == 0 then 0 else not_mapped;
  };
}

pub format_head : Extension → Wanted → ℕ → Head
format_head d b ccn =
    if not (b.size_of_map == 0)
    then conf_head
        (record {
          verified = true;
          version = leveling_version;
          ccn = ccn;
          size_of_map = b.size_of_map;
          weight_life = b.weight_life;
          weight_speed = b.weight_speed;
          magic = b.magic;
          cache_timeout = b.cache_timeout;
          flush_faithfully = b.flush_faithfully;
        })
        b.signature
    else if d.removable_media
    then zero_head
    else table_head b.signature (sub32 d.last_lba 63)

-- The writes that succeeded, and whether none has failed.
abbrev pub Written : Type 0
Written = List Write × Bool

-- One part after the other, as long as none fails.
abbrev pub both : Written → Written → Written
both (xs, false) next = (xs, false)
both (xs, true) (ys, good) = (xs ++ ys, good)

module _ (lay : Layout) (ccn_of : ℕ → ℕ) (drive : Drive) (writes : ℕ → Bool) where
  -- A write.
  pub write : ℕ → Write → Written
  write place w = if writes place then (w ∷ [], true) else ([], false)

  -- The three parts of a format.
  pub format_chunk : Extension → Wanted → ℕ → Written
  unfolding write format_ctl
  format_chunk d b ccn =
      let place = size_of_chunk + last_purge_pos in
      if b.size_of_map == 0
      then ([], true)
      else if not (drive.reads place)
      then ([], false)
      else write place (
          writes_chunk
            (format_ctl d.removable_media ccn (lay.chunk_ctl (λ i. drive.flash (place + i)))))

  pub format_cache : Extension → Wanted → ℕ → Written
  unfolding write format_purge
  format_cache d b ccn =
      if (b.size_of_map == 0) || d.removable_media
      then ([], true)
      else write size_of_chunk
          (writes_cache b.signature (sub32 (mul32 b.size_of_map 8) 64) (format_purge ccn b))

  pub format_media : Extension → Wanted → ℕ → Written
  unfolding write format_chunk format_cache format_head
  format_media d b ccn =
      both (both (format_chunk d b ccn) (format_cache d b ccn))
        (write 0 (writes_head (format_head d b ccn)))

  -- What SetLevelingConfig leaves: the device, the settings of the context, its result, and the writes
  -- to the drive that succeeded, whatever the result is.
  pub record SetEnd : Type 0 where
    pub extension : Extension
    pub settings : Option Settings
    pub written : List Write
    pub ok : Bool

  abbrev pub refuse : Extension → Option Settings → SetEnd
  refuse d c = record { extension = d; settings = c; written = []; ok = false }

  -- The branch of the mode CONFIG; `conf` reads the first sector.
  pub change_settings : (ℕ → Conf) → Extension → Option Settings → Wanted → SetEnd
  unfolding set_conf set_settings
  change_settings conf d none b = refuse d none
  change_settings conf d (some c) b =
      let old = conf (drive.flash 0) in
      if not (drive.reads 0) || not old.verified
      then refuse d (some c)
      else if writes 0
      then record {
        extension = d;
        settings = some (set_settings c b);
        written = writes_conf (set_conf old b) ∷ [];
        ok = true;
      }
      else refuse d (some (set_settings c b))

  -- The end of a format: the mode is ERROR where a part failed, else COMPLETED.
  pub finish_format : Extension → Option Settings → Written → SetEnd
  unfolding change_mode_atomic
  finish_format e c (ws, good) = record {
    extension = change_mode_atomic e mode_format (if good then mode_completed else mode_error);
    settings = c;
    written = ws;
    ok = good;
  }

  -- What follows GetNewCCN.
  pub format_device : Extension → Option Settings → Wanted → ℕ → SetEnd
  unfolding set_format_mode format_media finish_format
  format_device d c b ccn =
      let (e, formats) = set_format_mode d in
      if not formats then refuse d c else finish_format e c (format_media e b ccn)

  pub format_with : Extension → Option Settings → Wanted → Outcome (Option ℕ) → SetEnd
  unfolding format_device
  format_with d c b (read_failed place) = refuse d c
  format_with d c b (finished none) = refuse d c
  format_with d c b (finished (some ccn)) = format_device d c b ccn

  -- SetLevelingConfig, where the request is allocated.
  pub set_leveling_config : (ℕ → Conf) → Extension → Option Settings → Wanted → SetEnd
  unfolding change_settings format_with
  set_leveling_config conf d c b =
      if not (b.version == driver_version) || not (b.revision == driver_revision)
      then refuse d c
      else if b.mode == mode_config
      then change_settings conf d c b
      else if not (b.mode == mode_format)
      then refuse d c
      else format_with d c b (get_new_ccn ccn_of drive (get_max_chunks d.last_lba))
