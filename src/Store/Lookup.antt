-- ===== src/Store/Lookup.antt =====
-- driver/vscsi.c: GetCachedPos finds a sector in the cache exactly when it is there.
use fdlvling.Base.{
  ℕ, zero, suc, ◌+◌, ◌*◌, ◌/◌, ◌%◌, ◌≤◌, ◌<◌, ◌≡◌, ◌≢◌, refl, sym, ap, ◌∙◌, true, false, ◌&&◌, inl,
  inr, arith, ltb, ◌==◌, ==_iff, ◌↔◌, dec_lt, ℕ_discrete as dec_eq, Bool-cases,
}
use fdlvling.Store.{Store, not_mapped, last_cache_pos, block_start, cached_scan, get_cached_pos}

-- The cache is a sequence of blocks: each starts at a multiple of 8 with a sector that is a
-- multiple of 8, goes on with the following sectors, and is in the cache once.
pub record WellFormed (lbas : ℕ → ℕ) (cache_pos : ℕ) : Type 0 where
  pub fits : cache_pos ≤ last_cache_pos
  pub aligned : (b : ℕ) → 8 * b < cache_pos → lbas (8 * b) % 8 ≡ 0
  pub runs : (b r : ℕ) → r < 8 → 8 * b + r < cache_pos → lbas (8 * b + r) ≡ lbas (8 * b) + r
  pub distinct :
      (b c : ℕ) → 8 * b < cache_pos → 8 * c < cache_pos → lbas (8 * b) ≡ lbas (8 * c) → b ≡ c

module _ (lbas : ℕ → ℕ) (cache_pos : ℕ) (w : WellFormed lbas cache_pos) where
  -- An entry is the start of its block plus its place in the block.
  pub entry :
      (p : ℕ) → p < cache_pos → (lbas p ≡ lbas (8 * (p / 8)) + p % 8) × (lbas (8 * (p / 8)) % 8 ≡ 0)
  entry p h = (
    ap lbas (omega arith) ∙ w.runs (p / 8) (p % 8) (omega arith) (omega arith),
    w.aligned (p / 8) (omega arith),
  )

  -- What a hit of the loop means.
  scan_hit :
      (i b lba : ℕ)
      → i ≡ 8 * b
      → ((lbas i == block_start lba) && ltb (i + lba % 8) cache_pos) ≡ true
      → (i + lba % 8 < cache_pos) × (lbas (i + lba % 8) ≡ lba)
  scan_hit i b lba e h =
      let lt : i + lba % 8 < cache_pos = ground arith in
      let start : lbas i ≡ block_start lba = ground arith in
      let run = w.runs b (lba % 8) (omega arith) (omega arith) in
      (lt, ap (λ k. lbas (k + lba % 8)) e ∙ run ∙ omega (arith, start, ap lbas e))

  scan_found :
      (n i b lba : ℕ)
      → i ≡ 8 * b
      → cached_scan n i lbas cache_pos lba ≢ not_mapped
      → (cached_scan n i lbas cache_pos lba < cache_pos)
        × (lbas (cached_scan n i lbas cache_pos lba) ≡ lba)
  unfolding cached_scan
  scan_found zero i b lba e h = absurd (h refl)
  scan_found (suc n) i b lba e h =
      elim (Bool-cases ((lbas i == block_start lba) && ltb (i + lba % 8) cache_pos)) [
        | inl t ↦ rw t (scan_hit i b lba e t)
        | inr f ↦ rw f (scan_found n (i + 8) (b + 1) lba (omega arith) (rw (f, cached_scan) at h))
      ]

  -- The loop finds what it has not passed by.
  scan_finds :
      (n i b lba p : ℕ)
      → i ≡ 8 * b
      → p < cache_pos
      → lbas p ≡ lba
      → b ≤ p / 8
      → p / 8 < b + n
      → cached_scan n i lbas cache_pos lba ≡ p
  unfolding cached_scan
  scan_finds zero i b lba p e lt at lo hi = absurd (omega arith)
  scan_finds (suc n) i b lba p e lt at lo hi =
      let (own, start) = entry p lt in
      let place : lba % 8 ≡ p % 8 = omega arith in
      let head : lbas (8 * (p / 8)) ≡ block_start lba = omega arith in
      elim (dec_lt b (p / 8)) [
        | yes less ↦
            let f : ((lbas i == block_start lba) && ltb (i + lba % 8) cache_pos) ≡ false =
              elim (Bool-cases (lbas i == block_start lba)) [
                | inl t ↦ absurd (
                    omega (
                      arith,
                      w.distinct b (p / 8) (omega arith) (omega arith)
                          (ap lbas (sym e) ∙ (==_iff (lbas i) (block_start lba)).0 t ∙ sym head),
                    ))
                | inr t ↦ rw t
              ] in
            rw f
              (scan_finds n (i + 8) (b + 1) lba p (omega arith) lt at (omega arith) (omega arith))
        | no more ↦
            let same : i ≡ 8 * (p / 8) = omega arith in
            let t : ((lbas i == block_start lba) && ltb (i + lba % 8) cache_pos) ≡ true =
              ground (arith, ap lbas same ∙ head) in
            rw t (omega arith)
      ]

-- Where the cache is well-formed: GetCachedPos answers a place in the cache exactly if the cache
-- holds the sector there; its answer NOT_MAPPED says that the cache does not hold the sector.
pub get_cached_pos_lem :
    (s : Store) (lba : ℕ)
    → WellFormed s.cache_lba s.cache_pos
    → ((p : ℕ) → p < s.cache_pos → (s.cache_lba p ≡ lba ↔ get_cached_pos s lba ≡ p))
      × (get_cached_pos s lba ≢ not_mapped
          → (get_cached_pos s lba < s.cache_pos) × (s.cache_lba (get_cached_pos s lba) ≡ lba))
unfolding get_cached_pos
get_cached_pos_lem s lba w =
    let found =
      scan_found s.cache_lba s.cache_pos w ((s.cache_pos + 7) / 8) 0 0 lba (omega arith) in
    (
      λ p lt. (
        λ at.
            scan_finds s.cache_lba s.cache_pos w ((s.cache_pos + 7) / 8) 0 0 lba p (omega arith) lt
              at (omega arith) (omega arith),
        λ e. ap s.cache_lba (sym e) ∙ (found (λ n. omega (arith, w.fits, e, n))).1,
      ),
      found,
    )

pub cached :
    (s : Store) (lba p : ℕ)
    → WellFormed s.cache_lba s.cache_pos
    → p < s.cache_pos
    → s.cache_lba p ≡ lba
    → get_cached_pos s lba ≡ p
cached s lba p w lt at = ((get_cached_pos_lem s lba w).0 p lt).0 at

pub uncached :
    (s : Store) (lba : ℕ)
    → WellFormed s.cache_lba s.cache_pos
    → ((p : ℕ) → p < s.cache_pos → s.cache_lba p ≢ lba)
    → get_cached_pos s lba ≡ not_mapped
uncached s lba w h = elim (dec_eq (get_cached_pos s lba) not_mapped) [
  | yes e ↦ e
  | no n ↦ let (lt, at) = (get_cached_pos_lem s lba w).1 n in absurd (h _ lt at)
]

-- A sector that GetCachedPos does not find is nowhere in the cache.
pub missing :
    (s : Store) (lba p : ℕ)
    → WellFormed s.cache_lba s.cache_pos
    → get_cached_pos s lba ≡ not_mapped
    → p < s.cache_pos
    → s.cache_lba p ≢ lba
missing s lba p w e lt at = omega (arith, w.fits, cached s lba p w lt at, e)
