-- ===== src/ReadPath/Lengths.antt =====
-- driver/vscsi.c: how far the loop of ExecuteReadHandler over the drive runs.
use fdlvling.Base.{
  ℕ, zero, suc, ◌+◌, ◌-◌, ◌*◌, ◌/◌, ◌%◌, ◌^◌, ◌≤◌, ◌<◌, ◌≡◌, ◌≢◌, sym, ap, ◌∙◌, inl, inr, arith,
  add32, ◌==◌, ==_iff, Bool-cases, dec_lt,
}
use fdlvling.Store.{Store, not_mapped, get_cached_pos}
use fdlvling.Store.Lookup.{WellFormed, entry, uncached, missing}
use fdlvling.ReadPath.{flash_len}

-- The places in the map are of whole blocks, and the drive is smaller than 2^32 - 8 sectors.
abbrev pub MapPlaces : (ℕ → ℕ) → Type 0
MapPlaces m = (b : ℕ) → m b ≢ not_mapped → (m b % 8 ≡ 0) × (m b + 8 < 2 ^ 32)

-- The sector is on the drive, at `place`, and nowhere else.
pub record OnDrive (s : Store) (lba place : ℕ) : Type 0 where
  pub not_cached : get_cached_pos s lba ≡ not_mapped
  pub is_mapped : s.map (lba / 8) ≢ not_mapped
  pub at_place : place ≡ s.map (lba / 8) + lba % 8

-- The cache holds the start of each of its blocks, so it lacks what follows a sector that it lacks.
missing_next :
    (s : Store) (lba : ℕ)
    → WellFormed s.cache_lba s.cache_pos
    → get_cached_pos s lba ≡ not_mapped
    → (lba + 1) % 8 ≢ 0
    → get_cached_pos s (lba + 1) ≡ not_mapped
missing_next s lba w gone inner = uncached s (lba + 1) w (λ p lt at.
    let (own, start) = entry s.cache_lba s.cache_pos w p lt in
    let before = w.runs (p / 8) (p % 8 - 1) (omega arith) (omega arith) in
    let same : p - 1 ≡ 8 * (p / 8) + (p % 8 - 1) = omega arith in
    missing s lba (p - 1) w gone (omega arith) (ap s.cache_lba same ∙ omega arith))

module _ (s : Store) (w : WellFormed s.cache_lba s.cache_pos) (places : MapPlaces s.map) where
  OnDrive-next :
      (lba place : ℕ) → OnDrive s lba place → (lba + 1) % 8 ≢ 0 → OnDrive s (lba + 1) (place + 1)
  OnDrive-next lba place d inner =
      let same : (lba + 1) / 8 ≡ lba / 8 = omega arith in
      record {
        not_cached = missing_next s lba w d.not_cached inner;
        is_mapped = λ e. d.is_mapped (ap s.map (sym same) ∙ e);
        at_place = omega (arith, d.at_place, ap s.map same);
      }

  OnDrive-boundary :
      (lba place : ℕ)
      → OnDrive s lba place
      → (lba + 1) % 8 ≡ 0
      → (place + 1) % 2 ^ 32 ≡ s.map ((lba + 1) / 8)
      → get_cached_pos s (lba + 1) ≡ not_mapped
      → OnDrive s (lba + 1) (place + 1)
  OnDrive-boundary lba place d edge e gone =
      let (block, room) = places (lba / 8) d.is_mapped in
      record {
        not_cached = gone;
        is_mapped = λ u. omega (arith, d.at_place, e, u);
        at_place = omega (arith, d.at_place, e);
      }

  -- A run that has seen sector `k` and stops before `top`: all its sectors are on the drive, one
  -- after the other.
  abbrev pub DriveRun : ℕ → ℕ → ℕ → ℕ → Type 0
  DriveRun plba lba k top = ((j : ℕ) → k ≤ j → j < top → OnDrive s (lba + j) (plba + j)) × (k < top)

  DriveRun-stop : (plba lba k : ℕ) → OnDrive s (lba + k) (plba + k) → DriveRun plba lba k (k + 1)
  DriveRun-stop plba lba k d = (λ j lo hi. let e : k ≡ j = omega arith in rw e at d, omega arith)

  DriveRun-grow :
      (plba lba k top : ℕ)
      → OnDrive s (lba + k) (plba + k)
      → DriveRun plba lba (k + 1) top
      → DriveRun plba lba k top
  DriveRun-grow plba lba k top d (all, more) = (
    λ j lo hi. elim (dec_lt k j) [
      | yes later ↦ all j (omega arith) hi
      | no here ↦ let e : k ≡ j = omega arith in rw e at d
    ],
    omega arith,
  )

  pub flash_len-DriveRun :
      (n k plba lba : ℕ)
      → lba + k + 1 + n ≤ 2 ^ 32
      → OnDrive s (lba + k) (plba + k)
      → DriveRun plba lba k (flash_len n (k + 1) s plba lba)
        × (flash_len n (k + 1) s plba lba ≤ k + 1 + n)
  unfolding flash_len
  flash_len-DriveRun zero k plba lba word d = (DriveRun-stop plba lba k d, omega arith)
  flash_len-DriveRun (suc n) k plba lba word d =
      let l : add32 lba (k + 1) ≡ lba + k + 1 = omega arith in
      let m : s.map (add32 lba (k + 1) / 8) ≡ s.map ((lba + k + 1) / 8) =
        ap (λ x. s.map (x / 8)) l in
      let p : plba + k + 1 < 2 ^ 32 =
        omega (arith, d.at_place, places ((lba + k) / 8) d.is_mapped) in
      let grow : OnDrive s (lba + k + 1) (plba + k + 1)
          → DriveRun plba lba k (flash_len n (k + 1 + 1) s plba lba)
            × (flash_len n (k + 1 + 1) s plba lba ≤ k + 1 + suc n) =
        λ d'.
          let a : lba + k + 1 ≡ lba + (k + 1) = omega arith in
          let b : plba + k + 1 ≡ plba + (k + 1) = omega arith in
          let (run, bound) =
            flash_len-DriveRun n (k + 1) plba lba (omega arith) (rw (a, b) at d') in
          (DriveRun-grow plba lba k _ d run, omega arith) in
      let stop : DriveRun plba lba k (k + 1) × (k + 1 ≤ k + 1 + suc n) =
        (DriveRun-stop plba lba k d, omega arith) in
      elim (Bool-cases (add32 lba (k + 1) % 8 == 0)) [
        | inr f ↦ rw f (grow (OnDrive-next (lba + k) (plba + k) d (ground arith)))
        | inl z ↦ elim (Bool-cases (add32 plba (k + 1) == s.map (add32 lba (k + 1) / 8))) [
          | inr f ↦ rw (z, f) stop
          | inl e ↦ elim (Bool-cases (get_cached_pos s (add32 lba (k + 1)) == not_mapped)) [
            | inr f ↦ rw (z, e, f) stop
            | inl u ↦
                rw (z, e, u)
                  (grow (
                    OnDrive-boundary (lba + k) (plba + k) d (ground arith)
                      (omega (arith, m, (==_iff _ _).0 e))
                      (ap (get_cached_pos s) (sym l) ∙ (==_iff _ _).0 u)))
          ]
        ]
      ]
