-- ===== src/Config/Requests.antt =====
-- driver/config.c and driver/vgate.c: the map that the configuration offers.
use fdlvling.Base.{ℕ, ◌-◌, ◌^◌, ◌≤◌, ◌<◌, ◌≡◌, true, none, arith}
use fdlvling.Device.{Extension}
use fdlvling.Config.{get_max_chunks, get_leveling_config, accepts_map}

-- The size of the map that GetLevelingConfig offers for a device without a context passes the tests of
-- InitializeLevelingCtx, for every drive of 0x1c0000 sectors or more but one of 2 ^ 32; and so does every
-- size that is not 0 and not greater than MAX_MAP.
pub get_leveling_config-accepted :
    (d : Extension) (size : ℕ)
    → 0x1bffff ≤ d.last_lba
    → d.last_lba < 2 ^ 32 - 1
    → let b = get_leveling_config d none in
      let max = get_max_chunks d.last_lba in
      (accepts_map b.size_of_map max ≡ true)
      × (0 < size → size ≤ b.max_map → accepts_map size max ≡ true)
unfolding get_leveling_config get_max_chunks accepts_map
get_leveling_config-accepted d size lo hi =
    (ground arith, λ some_size fits. ground (arith, some_size, fits))
