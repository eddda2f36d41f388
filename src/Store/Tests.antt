-- ===== src/Store/Tests.antt =====
-- driver/vscsi.c: lookup in the cache and filling it, on a concrete context.
use fdlvling.Base.{ℕ, ◌+◌, ◌<◌, ◌≡◌, ◌≢◌, arith, ◌↔◌}
use fdlvling.Store.{not_mapped, get_cached_pos}
use fdlvling.Store.Lookup.{get_cached_pos_lem}
use fdlvling.Store.Sample.{sample, sample-WellFormed}

get_cached_pos_example :
    ((p : ℕ) → p < 10 → (16 + p ≡ 24 ↔ get_cached_pos sample 24 ≡ p))
    × (get_cached_pos sample 24 ≢ not_mapped
        → (get_cached_pos sample 24 < 10) × (16 + get_cached_pos sample 24 ≡ 24))
get_cached_pos_example = get_cached_pos_lem sample 24 (sample-WellFormed 10 (omega arith))
