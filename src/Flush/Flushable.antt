-- ===== src/Flush/Flushable.antt =====
-- driver/vflush.c: what a flush has to find, and what the rounds before its end may do.
use fdlvling.Base.{
  ℕ, suc, ◌+◌, ◌*◌, ◌/◌, ◌%◌, ◌^◌, ◌≤◌, ◌<◌, ◌≡◌, ◌≢◌, sym, ap, ◌∙◌, Bool, true, false, ◌⊎◌, inl,
  arith, Option, some, if-true, ◌==◌, ℕ_discrete as dec_eq,
}
use fdlvling.Store.{
  Store, Flash, not_mapped, size_of_chunk, size_of_cache, last_purge_pos, get_cached_pos, view,
}
use fdlvling.Store.Lookup.{WellFormed, get_cached_pos_lem}
use fdlvling.Chunk.{purge_lba, purge_place, update_map, purge_cache_completion}
use fdlvling.Chunk.Placement.{map_blocks-kept}
use fdlvling.Chunk.Purge.{CanPurge, place_lem, placed-cached, placed-other}
use fdlvling.Flush.{
  FlushStep, wait_cache, flush_blocks, flush_handler, Layout, flush_wait, flush_rounds,
}

-- What a flush has to find: a well-formed cache of sectors on the map, room in the current chunk,
-- the newest, for a purge, no block placed where the cache or CHUNK_CTL go, and CacheDirty set
-- unless the cache is empty.
pub record Flushable (s : Store) : Type 0 where
  pub well_formed : WellFormed s.cache_lba s.cache_pos
  pub mapped : (p : ℕ) → p < s.cache_pos → s.cache_lba p / 8 < s.size_of_map
  pub map_small : s.size_of_map ≤ 2 ^ 29
  pub newest : (c : ℕ) → (s.chunk_info c).scn ≤ (s.chunk_info s.chunk_no).scn
  pub chunk_small : s.chunk_no < 500
  pub has_room : s.purge_pos + size_of_cache ≤ last_purge_pos
  pub unused :
      (j : ℕ)
      → s.map j ≢ not_mapped
      → (s.map j + 8 ≤ purge_place s) ⊎ (purge_place s + size_of_cache ≤ s.map j)
  pub words : (j : ℕ) → s.map j ≢ not_mapped → s.map j + 8 ≤ 2 ^ 32
  pub off_tail :
      (j : ℕ)
      → s.map j ≢ not_mapped
      → (s.map j + 8 ≤ s.chunk_no * size_of_chunk + last_purge_pos)
        ⊎ ((s.chunk_no + 1) * size_of_chunk ≤ s.map j)
  pub dirty : s.cache_dirty ≡ false → s.cache_pos ≡ 0

-- How a flush ends that was asked for with `finalize`.
pub record FlushDone (finalize : Bool) (s : Store) (flash : Flash) (t : Store) (flash' : Flash)
    : Type 0 where
  pub same_view : (x : ℕ) → view t flash' x ≡ view s flash x
  pub empty : t.cache_pos ≡ 0
  pub clean : t.cache_dirty ≡ false
  pub over : t.flushing ≡ false
  pub final : finalize ≡ true → t.purge_pos ≤ t.finalized_pos

abbrev pub Flushes : Bool → Store → Flash → Option (Store × Flash) → Type 0
Flushes finalize s flash r =
    (t : Store) × (flash' : Flash) × (r ≡ some (t, flash')) × FlushDone finalize s flash t flash'

-- Rounds before that keep the contents do not matter.
pub Flushes-before :
    (finalize : Bool) (s s' : Store) (flash flash' : Flash) (r : Option (Store × Flash))
    → ((x : ℕ) → view s' flash' x ≡ view s flash x)
    → Flushes finalize s' flash' r
    → Flushes finalize s flash r
Flushes-before finalize s s' flash flash' r same (t, f, e, d) = (
  t,
  f,
  e,
  record {
    same_view = λ x. d.same_view x ∙ same x;
    empty = d.empty;
    clean = d.clean;
    over = d.over;
    final = d.final;
  },
)

-- A round of the flush by what the handler ends with.
pub round_lem :
    (n i : ℕ) (lay : Layout) (ok : ℕ → Bool) (s : Store) (flash : Flash) (step : FlushStep)
    → flush_handler s ≡ step
    → flush_rounds (suc n) i lay ok s flash
      ≡ flush_wait lay (ok i) step flash (λ t f. flush_rounds n (i + 1) lay ok t f)
unfolding flush_rounds
round_lem n i lay ok s flash step e =
    ap (λ (x : FlushStep). flush_wait lay (ok i) x flash (λ t f. flush_rounds n (i + 1) lay ok t f))
      e

pub handler-whole : (s : Store) → s.cache_pos % 8 ≡ 0 → flush_handler s ≡ flush_blocks s
unfolding flush_handler
handler-whole s whole = if-true (s.cache_pos % 8 == 0) _ _ (ground arith)

pub Flushes-flag :
    (a b : Bool) (s : Store) (flash : Flash) (r : Option (Store × Flash))
    → a ≡ b
    → Flushes a s flash r
    → Flushes b s flash r
Flushes-flag a b s flash r e h = rw e at h

-- After the cache is purged there is still no block where CHUNK_CTL goes.
pub purged_off_tail :
    (s : Store)
    → WellFormed s.cache_lba s.cache_pos
    → CanPurge s
    → ((j : ℕ)
        → s.map j ≢ not_mapped
        → (s.map j + 8 ≤ s.chunk_no * size_of_chunk + last_purge_pos)
          ⊎ ((s.chunk_no + 1) * size_of_chunk ≤ s.map j))
    → (j : ℕ) → (purge_cache_completion s).map j ≢ not_mapped
    → ((purge_cache_completion s).map j + 8 ≤ s.chunk_no * size_of_chunk + last_purge_pos)
      ⊎ ((s.chunk_no + 1) * size_of_chunk ≤ (purge_cache_completion s).map j)
purged_off_tail s w c off_tail j there =
    let m = (purge_cache_completion s).map in
    let same : 8 * j / 8 ≡ j = omega arith in
    elim (dec_eq (get_cached_pos s (8 * j)) not_mapped) [
      | yes gone ↦
          let e : m j ≡ s.map j =
            ap m (sym same) ∙ placed-other s w c (8 * j) gone ∙ ap s.map same in
          rw e (off_tail j (λ u. there (e ∙ u)))
      | no found ↦
          let (lt, at) = (get_cached_pos_lem s (8 * j) w).1 found in
          let p : ℕ = get_cached_pos s (8 * j) in
          let e : m j ≡ purge_place s + 8 * (p / 8) =
            ap m (sym same) ∙ ap (λ x. m (x / 8)) (sym at) ∙ placed-cached s w c p lt in
          inl (omega (arith, e, place_lem s w c, c.has_room, w.fits))
    ]

-- What the write of the cache leaves of the store.
pub purged-kept :
    (s : Store)
    → ((purge_cache_completion s).chunk_no ≡ s.chunk_no)
      × ((purge_cache_completion s).finalizing ≡ s.finalizing)
unfolding purge_cache_completion update_map
purged-kept s = map_blocks-kept ((s.cache_pos + 7) / 8) 0 s _ (purge_lba s) (purge_place s)

abbrev pub good : ℕ → Bool
good i = true

pub handler-dirty :
    (s : Store) → s.cache_pos % 8 ≡ 0 → s.cache_dirty ≡ true → flush_handler s ≡ wait_cache s
unfolding flush_blocks
handler-dirty s whole dirty = handler-whole s whole ∙ if-true s.cache_dirty _ _ dirty
