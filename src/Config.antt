-- ===== src/Config.antt =====
-- driver/config.c: the configuration of a device, and the requests that read and change it.
-- The memory of a CHUNK_CTL is a parameter, the CCN that its first sector has; the drive and its
-- failures are those of Recovery.
pub mod NewCcn
pub mod Format
pub mod Requests
mod Tests
use fdlvling.Base.{
  ℕ, zero, suc, ◌+◌, ◌-◌, ◌*◌, ◌/◌, ◌%◌, ◌^◌, Bool, true, false, not, ◌&&◌, ◌||◌, List, [], ◌∷◌,
  Option, none, some, add32, mul32, min, ltb, leb, ◌==◌, if◌then◌else◌,
}
use fdlvling.Store.{size_of_chunk, last_purge_pos}
use fdlvling.Device.{Extension, mode_direct, mode_active, mode_error, change_mode}
use fdlvling.Recovery.{Drive, Outcome, read_failed, finished, and_then}

-- GetMaxChunks.
pub get_max_chunks : ℕ → ℕ
get_max_chunks last_lba = min (add32 last_lba 1 / size_of_chunk) 500

-- VLTL_MODE_FORMAT.
abbrev pub mode_format : ℕ
mode_format = 4

-- SetFormatMode.
unfoldable pub set_format_mode : Extension → Extension × Bool
unfolding change_mode
set_format_mode d =
    if (d.mode == mode_direct) || ((d.mode == mode_active) || (d.mode == mode_error))
    then (change_mode d mode_format, true)
    else (d, false)

-- Whether the number is in the array.
pub member : ℕ → List ℕ → Bool
member c [] = false
member c (x ∷ xs) = (c == x) || member c xs

module _ (ccn_of : ℕ → ℕ) (drive : Drive) where
  -- The loop of GetNewCCN that reads the CCN of each chunk, from chunk `i` on.
  pub read_ccns : ℕ → ℕ → Outcome (List ℕ)
  unfolding and_then
  read_ccns zero i = finished []
  read_ccns (suc n) i =
      let place = add32 (mul32 i size_of_chunk) last_purge_pos in
      if drive.reads place
      then and_then (read_ccns n (i + 1)) (λ rest. finished (ccn_of (drive.flash place) ∷ rest))
      else read_failed place

-- `if(CCN < PCCN[i]) CCN = PCCN[i];` over the array.
pub greatest : ℕ → List ℕ → ℕ
greatest ccn [] = ccn
greatest ccn (x ∷ xs) = greatest (if ltb ccn x then x else ccn) xs

-- From the label retry2 on, by the rounds left.
pub retry : ℕ → ℕ → List ℕ → Option ℕ
unfolding member
retry zero ccn ccns = none
retry (suc n) ccn ccns =
    let next = add32 ccn 1 in
    let again = retry n next ccns in if member next ccns then again else some next

-- GetNewCCN, where the array PCCN is allocated (without it the result is FALSE, like a failed read), for a device with `max` chunks; a round for each
-- chunk and one more.
pub get_new_ccn : (ℕ → ℕ) → Drive → ℕ → Outcome (Option ℕ)
unfolding read_ccns and_then greatest retry
get_new_ccn ccn_of drive max =
    and_then (read_ccns ccn_of drive max 0)
      (λ ccns. finished (retry (max + 1) (greatest 0 ccns) ccns))

-- The fields of `struct _MODE_BUFFER` (lib/common.h) that GetLevelingConfig takes from the device.
pub record ModeBuffer : Type 0 where
  pub mode : ℕ
  pub max_map : ℕ
  pub size_of_map : ℕ
  pub weight_life : ℕ
  pub weight_speed : ℕ
  pub cache_timeout : ℕ
  pub flush_faithfully : ℕ

-- The fields of the context that it takes.
pub record Settings : Type 0 where
  pub max_chunks : ℕ
  pub size_of_map : ℕ
  pub weight_life : ℕ
  pub weight_speed : ℕ
  pub cache_timeout : ℕ
  pub flush_faithfully : ℕ

-- GetLevelingConfig; `none` where the device has no context.
pub get_leveling_config : Extension → Option Settings → ModeBuffer
unfolding get_max_chunks
get_leveling_config d (some c) = record {
  mode = d.mode;
  max_map = mul32 c.max_chunks size_of_chunk / 10;
  size_of_map = c.size_of_map;
  weight_life = c.weight_life;
  weight_speed = c.weight_speed;
  cache_timeout = c.cache_timeout;
  flush_faithfully = c.flush_faithfully;
}
get_leveling_config d none =
    let max_map = mul32 (get_max_chunks d.last_lba) size_of_chunk / 10 in
    record {
      mode = d.mode;
      max_map = max_map;
      size_of_map = max_map / 2;
      weight_life = 50;
      weight_speed = 50;
      cache_timeout = 30;
      flush_faithfully = 0;
    }

-- The test of InitializeLevelingCtx (driver/vgate.c) of the size of the map, and the one before.
pub accepts_map : ℕ → ℕ → Bool
accepts_map size_of_map max_chunks =
    not (size_of_map == 0) && not (ltb (mul32 max_chunks size_of_chunk) (mul32 size_of_map 10))

-- The fields of SCSI_PASS_THROUGH that LevelingControl reads.
pub record PassThrough : Type 0 where
  pub cdb : ℕ → ℕ
  pub transfer_length : ℕ
  pub buffer_offset : ℕ

-- What LevelingControl does.
pub data Control : Type 0 where
  not_supported : Control
  reads_config : Control
  writes_config : Control

-- sizeof(MODE_BUFFER), SCSIOP_MODE_SENSE, SCSIOP_MODE_SELECT.
abbrev pub size_of_mode_buffer : ℕ
size_of_mode_buffer = 52

abbrev pub op_mode_sense : ℕ
op_mode_sense = 0x1a

abbrev pub op_mode_select : ℕ
op_mode_select = 0x15

-- The end of the MODE_BUFFER in the system buffer; a ULONG_PTR has `bits` bits, 32 or 64.
abbrev pub buffer_end : ℕ → PassThrough → ℕ
buffer_end bits p = (p.buffer_offset + p.transfer_length) % 2 ^ bits

-- LevelingControl on a machine with `bits` bits, with the lengths of the input and of the output; the last two arguments are
-- the tests of the MODE_BUFFER: of its fields BlockDescriptorLength and PageCode, and of its checksum.
pub leveling_control : ℕ → PassThrough → ℕ → ℕ → Bool → Bool → Control
leveling_control bits p input output page_ok verified =
    if p.cdb 0 == op_mode_sense
    then if not (p.transfer_length == size_of_mode_buffer)
        || (not (output == buffer_end bits p)
            || not ((p.cdb 1 == 8) && ((p.cdb 2 == 40) && (p.cdb 3 == 41))))
      then not_supported
      else reads_config
    else if p.cdb 0 == op_mode_select
    then if not (p.transfer_length == size_of_mode_buffer)
        || (ltb input (buffer_end bits p) || (not page_ok || not verified))
      then not_supported
      else writes_config
    else not_supported
