-- ===== src/Recovery/Tests.antt =====
-- driver/recovery.c, on concrete drives.
use fdlvling.Base.{ℕ, ◌≡◌, refl, true, false, inr, arith, ◌==◌}
use fdlvling.Store.{Store, Flash, not_mapped, copy_sectors, view}
use fdlvling.Store.Sample.{whole_sample, sample_flash}
use fdlvling.Chunk.{
  PurgeCtl, execute_purge_cache, purge_flash, purge_cache_completion, update_map, map_blocks,
  map_block, find_next_chunk, use_less, use_more, purge_place,
}
use fdlvling.Recovery.{
  ChunkCtl, Layout, Drive, Identity, finished, is_next_record, record_place, replay, replay_rounds,
  do_recovery,
}
use fdlvling.Recovery.Purges.{Agrees, Purging, Purges, purge_ctl_of, after_purge}
use fdlvling.Recovery.Replay.{replay-Purges}
use fdlvling.Recovery.Durable.{recovery-durable}
use fdlvling.Recovery.Bounds.{Recovered, Ended, Fresh, do_recovery-Recovered}
use fdlvling.Recovery.Chunks.{Holds}

-- The sector 777 is the PURGE_CTL of the sample's cache; no other sector is one, and nothing is a
-- CHUNK_CTL.
abbrev no_chunk_ctl : ChunkCtl
no_chunk_ctl = record {
  verified = false;
  version = 0;
  ccn = 0;
  scn = 0;
  wcn = 0;
  next_chunk_no = 0;
  next_chunk_wcn = 0;
  start = 0;
  end = 0;
  lba = λ _. 0;
}

abbrev lay : Layout
lay = record {
  chunk_ctl = λ _. no_chunk_ctl;
  purge_ctl = λ x. record {
    verified = x == 777;
    version = 1;
    ccn = 7;
    magic = 9;
    ctl = purge_ctl_of whole_sample;
  };
}

abbrev me : Identity
me = record { version = 1; ccn = 7; magic = 9 }

abbrev seal : PurgeCtl → ℕ
seal _ = 777

abbrev purged_flash : Flash
purged_flash = purge_flash (execute_purge_cache seal whole_sample) sample_flash

abbrev drive : Drive
drive = record { flash = purged_flash; reads = λ _. true }

whole_sample-Purging : Purging lay me seal whole_sample
whole_sample-Purging = record {
  newest = λ c. ground arith;
  chunk_small = omega arith;
  has_room = omega arith;
  cache_small = omega arith;
  map_small = omega arith;
  sealed = record {
    verified = refl;
    version = refl;
    ccn = refl;
    magic = refl;
    scn = refl;
    chunk_no = refl;
    purge_pos = refl;
    lba = λ i h. refl;
  };
}

sample-Agrees : Agrees whole_sample whole_sample
sample-Agrees = record {
  same_size = refl;
  same_map = λ j. refl;
  same_scn = λ c. refl;
  same_chunk = refl;
  same_pos = refl;
}

-- The context before the purge as a recovery has it, with an empty cache.
abbrev whole_empty : Store
whole_empty = record whole_sample { cache_pos = 0 }

empty-Agrees : Agrees whole_sample whole_empty
empty-Agrees = record {
  same_size = refl;
  same_map = λ j. refl;
  same_scn = λ c. refl;
  same_chunk = refl;
  same_pos = refl;
}

-- The next place has no record.
no_record :
    is_next_record lay me drive (after_purge lay me seal whole_sample) (
      lay.purge_ctl
        (drive.flash (record_place lay me drive (after_purge lay me seal whole_sample))))
    ≡ false
unfolding is_next_record purge_flash execute_purge_cache record_place purge_cache_completion
    update_map map_blocks map_block use_less use_more purge_place copy_sectors
no_record = refl

replay-Purges_example :
    (r' : Store) × ((replay lay me drive replay_rounds whole_sample ≡ finished r')
      × Agrees (after_purge lay me seal whole_sample) r')
replay-Purges_example =
    replay-Purges lay me drive seal (λ _. refl) (Purges.purges whole_sample-Purging Purges.stop)
      (λ _. refl) (omega arith) (inr no_record) whole_sample sample-Agrees

-- A context as InitializeLevelingCtx leaves it.
abbrev fresh : Store
fresh = record whole_sample {
  map = λ _. not_mapped;
  chunk_info = λ _. record { scn = 0; wcn = 0; used = 0 };
}

fresh-Fresh : Fresh fresh no_chunk_ctl
fresh-Fresh = record {
  short = omega arith;
  empty = λ j. refl;
  unused = λ c. refl;
  no_end = refl;
  no_next = refl;
}

do_recovery_example :
    Holds drive
      (λ t. Recovered 3 t × Ended lay me drive t)
      (do_recovery lay me drive fresh no_chunk_ctl)
do_recovery_example =
    do_recovery-Recovered lay me drive fresh no_chunk_ctl fresh-Fresh (omega arith) (omega arith)

recovery-durable_example :
    (r' : Store) × (replay lay me drive replay_rounds whole_empty ≡ finished r')
    × ((x : ℕ)
        → view (find_next_chunk r') purged_flash x
          ≡ view (after_purge lay me seal whole_sample) purged_flash x)
unfolding purge_cache_completion
recovery-durable_example =
    recovery-durable lay me drive seal (λ _. refl) (Purges.purges whole_sample-Purging Purges.stop)
      (omega arith) (inr no_record) whole_empty empty-Agrees refl refl
