-- ===== src/Config/Tests.antt =====
-- driver/config.c, on concrete devices and requests.
use fdlvling.Base.{ℕ, ◌+◌, ◌/◌, ◌≤◌, ◌<◌, ◌≡◌, true, false, not, ◌==◌, none, arith}
use fdlvling.Recovery.{Drive}
use fdlvling.Recovery.Chunks.{Holds}
use fdlvling.Device.{Extension}
use fdlvling.Config.{get_new_ccn, get_leveling_config, get_max_chunks, accepts_map}
use fdlvling.Config.NewCcn.{Fresh, get_new_ccn-Fresh}
use fdlvling.Config.Requests.{get_leveling_config-accepted}
use fdlvling.Recovery.{ChunkCtl, Layout}
use fdlvling.Config.Format.{Wanted, Conf, set_leveling_config}
use fdlvling.Config.Format.Outcomes.{Ends, set_leveling_config-Ends}

-- A drive whose chunk 2 has the greatest word for its CCN.
abbrev drive : Drive
drive = record { flash = λ place. place / 0x40000; reads = λ _. true }

abbrev ccn_of : ℕ → ℕ
ccn_of x = 0xfffffffd + x

get_new_ccn-Fresh_example : Holds drive (Fresh ccn_of drive 3) (get_new_ccn ccn_of drive 3)
get_new_ccn-Fresh_example = get_new_ccn-Fresh ccn_of drive 3 (omega arith)

abbrev device : Extension
device = record {
  is_control_device = true;
  allow_always = true;
  mode = 1;
  removable_media = true;
  leveling_capable = true;
  maximum_transfer_length = 0x10000;
  last_lba = 0x1fffff;
  tur_errors = 0;
}

abbrev no_ctl : ChunkCtl
no_ctl = record {
  verified = false;
  version = 0;
  ccn = 0;
  scn = 0;
  wcn = 0;
  next_chunk_no = 0;
  next_chunk_wcn = 0;
  start = 0;
  end = 0;
  lba = λ _. 0;
}

abbrev lay : Layout
lay = record {
  chunk_ctl = λ _. no_ctl;
  purge_ctl = λ _. record {
    verified = false;
    version = 0;
    ccn = 0;
    magic = 0;
    ctl = record { scn = 0; chunk_no = 0; purge_pos = 0; lba = λ _. 0 };
  };
}

abbrev conf : ℕ → Conf
conf _ = record {
  verified = true;
  version = 1000;
  ccn = 1;
  size_of_map = 0;
  weight_life = 1;
  weight_speed = 1;
  magic = 1;
  cache_timeout = 1;
  flush_faithfully = 0;
}

-- A format of a fixed device, whose write of the first cache fails.
abbrev wanted : Wanted
wanted = record {
  version = 1;
  revision = 1;
  mode = 4;
  size_of_map = 8;
  weight_life = 50;
  weight_speed = 50;
  signature = 5;
  magic = 6;
  cache_timeout = 30;
  flush_faithfully = 0;
}

abbrev active_device : Extension
active_device = record device { mode = 2; removable_media = false }

set_leveling_config-Ends_example :
    Ends lay ccn_of drive
      (λ place. not (place == 0x40000))
      active_device
      4
      (set_leveling_config lay ccn_of drive
        (λ place. not (place == 0x40000))
        conf
        active_device
        none
        wanted)
set_leveling_config-Ends_example =
    set_leveling_config-Ends lay ccn_of drive (λ place. not (place == 0x40000)) conf active_device
      none wanted

get_leveling_config-accepted_example :
    (accepts_map (get_leveling_config device none).size_of_map (get_max_chunks device.last_lba)
      ≡ true)
    × (0 < 100
        → 100 ≤ (get_leveling_config device none).max_map
        → accepts_map 100 (get_max_chunks device.last_lba) ≡ true)
get_leveling_config-accepted_example =
    get_leveling_config-accepted device 100 (omega arith) (omega arith)
