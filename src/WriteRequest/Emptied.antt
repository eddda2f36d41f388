-- ===== src/WriteRequest/Emptied.antt =====
-- driver/vscsi.c: the purge of the cache takes its blocks out of the next chunk.
use fdlvling.Base.{
  ℕ, ◌+◌, ◌*◌, ◌/◌, ◌%◌, ◌≤◌, ◌≡◌, ◌≢◌, refl, sym, ap, ◌∙◌, true, false, arith,
  ℕ_discrete as dec_eq,
}
use fdlvling.Store.{Store, not_mapped, size_of_chunk, size_of_cache, last_purge_pos, get_cached_pos}
use fdlvling.Store.Lookup.{WellFormed, get_cached_pos_lem}
use fdlvling.Chunk.{purge_place, purge_cache_completion}
use fdlvling.Chunk.Usage.{placed}
use fdlvling.Chunk.Purge.{CanPurge, place_lem, placed-cached, placed-other}
use fdlvling.WriteRequest.Remaining.{waiting-le, placed-le-waiting, Progress, Fits}

-- With the new map each block of the chunk was there before, and was not in the cache.
abbrev pub StillThere : (ℕ → ℕ) → (ℕ → ℕ) → ℕ → (ℕ → ℕ) → Type 0
StillThere map map' chunk found =
    (j : ℕ)
    → map' j ≢ not_mapped
    → map' j / size_of_chunk ≡ chunk
    → (map j ≡ map' j) × (found (8 * j) ≡ not_mapped)

pub purge-StillThere :
    (s : Store)
    → WellFormed s.cache_lba s.cache_pos
    → CanPurge s
    → s.next_chunk_no ≢ s.chunk_no
    → StillThere s.map (purge_cache_completion s).map s.next_chunk_no (get_cached_pos s)
purge-StillThere s w c other j there own = elim (dec_eq (get_cached_pos s (8 * j)) not_mapped) [
  | yes gone ↦
      let same : 8 * j / 8 ≡ j = omega arith in
      (
        sym (
            ap (purge_cache_completion s).map (sym same)
            ∙ placed-other s w c (8 * j) gone
            ∙ ap s.map same),
        gone,
      )
  | no here ↦
      let (lt, at) = (get_cached_pos_lem s (8 * j) w).1 here in
      let p : ℕ = get_cached_pos s (8 * j) in
      let block : s.cache_lba p / 8 ≡ j = omega (arith, at) in
      let moved : (purge_cache_completion s).map j ≡ purge_place s + 8 * (p / 8) =
        ap (purge_cache_completion s).map (sym block) ∙ placed-cached s w c p lt in
      absurd (omega (arith, moved, place_lem s w c, c.has_room, w.fits, own, other))
]

-- The blocks that are left fit into the purges that are left.
pub emptied-Fits :
    (p : Progress) (map' : ℕ → ℕ) (used' pos' : ℕ) (found' : ℕ → ℕ)
    → Fits p
    → p.prepared ≡ true
    → p.done ≡ true
    → used' ≡ placed p.size_of_map map' p.next_chunk_no
    → StillThere p.map map' p.next_chunk_no p.found
    → pos' ≡ p.purge_pos + size_of_cache
    → pos' ≤ last_purge_pos
    → Fits (record p {
      map = map';
      used = used';
      purge_pos = pos';
      cache_pos = 0;
      found = found';
      done = false;
    })
emptied-Fits p map' used' pos' found' f prepared done counted still moved inside =
    let enough = f.enough prepared done in
    let r = f.ready prepared in
    let fewer = placed-le-waiting p.size_of_map p.map map' p.next_chunk_no p.found still in
    record {
      fresh = λ _. refl;
      room = λ _. omega (arith, enough, fewer, counted, moved, inside);
      share = λ _ _. omega (arith, counted, waiting-le p.size_of_map map' p.next_chunk_no found');
      enough = λ _ e. absurd (ground (arith, e));
      ready = λ _. record {
        from = r.from;
        from_in = r.from_in;
        target = r.target;
        source = r.source;
        fewer = omega (arith, r.fewer, moved);
        named = λ j there own.
            let (same, gone) = still j there own in
            ap (λ m. p.next_chunk_lba (m % size_of_chunk / 8)) (sym same)
            ∙ r.named j (λ z. there (sym same ∙ z)) (ap (λ m. m / size_of_chunk) same ∙ own);
        joined = λ j there own below.
            let (same, gone) = still j there own in
            absurd (
              r.joined j (λ z. there (sym same ∙ z)) (ap (λ m. m / size_of_chunk) same ∙ own)
                (omega (arith, same, below)) gone);
      };
    }
