-- ===== src/ReadPath/Served.antt =====
-- driver/vscsi.c: what a read gives against the contents that the clients see.
use fdlvling.Base.{
  ℕ, zero, suc, ◌+◌, ◌-◌, ◌/◌, ◌%◌, ◌^◌, ◌≤◌, ◌<◌, ◌≡◌, refl, ap, ◌∙◌, Bool, true, false, inl, inr,
  arith, add32, ◌==◌, if◌then◌else◌, Bool-cases, dec_lt, ℕ_discrete as dec_eq,
}
use fdlvling.Store.{Store, Flash, not_mapped, get_cached_pos, copy_sectors, view}
use fdlvling.Store.Lookup.{WellFormed, get_cached_pos_lem, cached}
use fdlvling.WritePath.Lengths.{hit_len-HitRun}
use fdlvling.ReadPath.{
  Source, from_cache, zeros, from_drive, read_source, ReadEnd, complete, not_ready, no_resources,
  drive_error, running, Surroundings, take_source, read_loop,
}
use fdlvling.ReadPath.Lengths.{MapPlaces, OnDrive, flash_len-DriveRun}

-- The `n` sectors from `lba` on have the contents `source`.
abbrev pub Gives : Store → Flash → ℕ → ℕ → (ℕ → ℕ) → Type 0
Gives s flash lba n source = (k : ℕ) → k < n → source k ≡ view s flash (lba + k)

-- The source has between one and `len` sectors, and their contents.
abbrev pub SourceRight : Store → Flash → ℕ → ℕ → Source → Type 0
SourceRight s flash lba len (from_cache pos n) =
    (0 < n) × (n ≤ len) × Gives s flash lba n (λ k. s.cache_mem (pos + k))
SourceRight s flash lba len zeros = Gives s flash lba 1 (λ _. 0)
SourceRight s flash lba len (from_drive plba n) =
    (0 < n) × (n ≤ len) × Gives s flash lba n (λ k. flash (plba + k))

module _ (s : Store) (flash : Flash) (w : WellFormed s.cache_lba s.cache_pos) where
  view-cached :
      (lba p : ℕ) → p < s.cache_pos → s.cache_lba p ≡ lba → s.cache_mem p ≡ view s flash lba
  unfolding view
  view-cached lba p lt at = ground (arith, cached s lba p w lt at, w.fits)

  view-OnDrive : (lba place : ℕ) → OnDrive s lba place → flash place ≡ view s flash lba
  unfolding view
  view-OnDrive lba place d = ground (arith, d.not_cached, d.is_mapped, ap flash d.at_place)

  view-zero :
      (lba : ℕ)
      → get_cached_pos s lba ≡ not_mapped
      → s.map (lba / 8) ≡ not_mapped
      → 0 ≡ view s flash lba
  unfolding view
  view-zero lba gone free = ground (arith, gone, free)

  read_source-right :
      (lba len : ℕ)
      → MapPlaces s.map
      → 0 < len
      → lba + len ≤ 2 ^ 32
      → SourceRight s flash lba len (read_source s lba len)
  unfolding read_source
  read_source-right lba len places some_len word = elim (dec_eq (get_cached_pos s lba) not_mapped) [
    | no there ↦
        let t : (get_cached_pos s lba == not_mapped) ≡ false = ground arith in
        let (lt, at) = (get_cached_pos_lem s lba w).1 there in
        let (run, bound) = hit_len-HitRun (len - 1) 1 s (get_cached_pos s lba) lba (omega arith) in
        rw t (
          omega (arith, run.from),
          omega arith,
          λ k h. elim (dec_lt 0 k) [
            | yes later ↦
                let (lt', at') = run.held k (omega arith) h in view-cached (lba + k) _ lt' at'
            | no first ↦
                let e : get_cached_pos s lba + k ≡ get_cached_pos s lba = omega arith in
                let e' : lba ≡ lba + k = omega arith in rw e (view-cached (lba + k) _ lt (at ∙ e'))
          ],
        )
    | yes gone ↦
        let t : (get_cached_pos s lba == not_mapped) ≡ true = ground arith in
        elim (dec_eq (s.map (lba / 8)) not_mapped) [
          | yes free ↦
              let u : (s.map (lba / 8) == not_mapped) ≡ true = ground arith in
              rw (t, u)
                (λ k h. let e : lba + k ≡ lba = omega arith in rw e (view-zero lba gone free))
          | no used ↦
              let u : (s.map (lba / 8) == not_mapped) ≡ false = ground arith in
              let (block, room) = places (lba / 8) used in
              let plba = add32 (s.map (lba / 8)) (lba % 8) in
              let e : lba + 0 ≡ lba = omega arith in
              let e' : plba + 0 ≡ s.map (lba / 8) + lba % 8 = omega arith in
              let d : OnDrive s (lba + 0) (plba + 0) =
                rw (e, e') (record { not_cached = gone; is_mapped = used; at_place = refl }) in
              let (run, bound) =
                flash_len-DriveRun s w places (len - 1) 0 plba lba (omega arith) d in
              rw (t, u)
                (
                  run.1,
                  omega arith,
                  λ k h. view-OnDrive (lba + k) (plba + k) (run.0 k (omega arith) h),
                )
        ]
  ]

-- What each end of the read means: the data are the contents of all the sectors, or the one thing
-- named by the end has gone wrong; the loop does not stay unfinished.
abbrev pub ReadRight : Surroundings → Store → Flash → ℕ → ℕ → ReadEnd → Type 0
ReadRight env s flash lba len (complete buffer) = Gives s flash lba len buffer
ReadRight env s flash lba len (not_ready t) = (t ≤ len) × (env.active t ≡ false)
ReadRight env s flash lba len no_resources = env.addressable ≡ false
ReadRight env s flash lba len (drive_error plba n) = env.drive_reads plba n ≡ false
ReadRight env s flash lba len running = ⊥

module _ (env : Surroundings) (s : Store) (flash : Flash) (lba : ℕ) where
  -- The sectors that a round copies extend the ones that the buffer has.
  Gives-grow :
      (done n : ℕ) (buffer source : ℕ → ℕ)
      → Gives s flash lba done buffer
      → Gives s flash (lba + done) n source
      → Gives s flash lba (done + n) (copy_sectors buffer done n source)
  unfolding copy_sectors
  Gives-grow done n buffer source old new k h = elim (dec_lt k done) [
    | yes before ↦ ground (arith, old k before)
    | no after ↦
        let e : lba + done + (k - done) ≡ lba + k = omega arith in
        ground (arith, new (k - done) (omega arith), ap (view s flash) e)
  ]

  choose-right :
      (X : ReadEnd → Type 0) (b : Bool) (x y : ReadEnd)
      → (b ≡ true → X x)
      → (b ≡ false → X y)
      → X (if b then x else y)
  choose-right X true x y p q = p refl
  choose-right X false x y p q = q refl

  take_source-right :
      (len done : ℕ) (buffer : ℕ → ℕ) (next : ℕ → (ℕ → ℕ) → ReadEnd) (src : Source)
      → done < len
      → Gives s flash lba done buffer
      → SourceRight s flash (lba + done) (len - done) src
      → ((t : ℕ) (b : ℕ → ℕ)
          → done < t
          → t ≤ len
          → Gives s flash lba t b
          → ReadRight env s flash lba len (next t b))
      → ReadRight env s flash lba len (take_source env s flash src done buffer next)
  unfolding take_source
  take_source-right len done buffer next (from_cache pos n) less old (some, fits, new) rest =
      choose-right (ReadRight env s flash lba len) env.addressable _ _
        (λ _. rest (done + n) _ (omega arith) (omega arith) (Gives-grow done n buffer _ old new))
        (λ f. f)
  take_source-right len done buffer next zeros less old new rest =
      choose-right (ReadRight env s flash lba len) env.addressable _ _
        (λ _. rest (done + 1) _ (omega arith) (omega arith) (Gives-grow done 1 buffer _ old new))
        (λ f. f)
  take_source-right len done buffer next (from_drive plba n) less old (some, fits, new) rest =
      choose-right (ReadRight env s flash lba len) (env.drive_reads plba n) _ _
        (λ _. rest (done + n) _ (omega arith) (omega arith) (Gives-grow done n buffer _ old new))
        (λ f. f)

  read_rounds :
      (fuel len done : ℕ) (buffer : ℕ → ℕ)
      → WellFormed s.cache_lba s.cache_pos
      → MapPlaces s.map
      → lba + len ≤ 2 ^ 32
      → done ≤ len
      → len - done < fuel
      → Gives s flash lba done buffer
      → ReadRight env s flash lba len (read_loop fuel env s flash lba len done buffer)
  unfolding read_loop
  read_rounds zero len done buffer w places word le enough old = absurd (omega arith)
  read_rounds (suc fuel) len done buffer w places word le enough old =
      elim (Bool-cases (env.active done)) [
        | inr f ↦ rw f (le, f)
        | inl t ↦ elim (dec_eq (len - done) 0) [
          | yes all ↦
              let u : (len - done == 0) ≡ true = ground arith in
              let e : done ≡ len = omega arith in rw (t, u) (rw e at old)
          | no some ↦
              let u : (len - done == 0) ≡ false = ground arith in
              let e : add32 lba done ≡ lba + done = omega arith in
              rw (t, u, e)
                (take_source-right len done buffer _ (read_source s (lba + done) (len - done))
                  (omega arith) old
                  (read_source-right s flash w (lba + done) (len - done) places (omega arith)
                    (omega arith))
                  (λ t b lo hi new. read_rounds fuel len t b w places word hi (omega arith) new))
        ]
      ]

-- A read of `len` sectors at `lba` that no write disturbs ends within `len + 1` rounds of the loop.
-- It is complete with the contents of every sector, copied from the cache, zeroed or read from the
-- drive in runs, or it ends early, and then the mode was not ACTIVE, no system address was given, or
-- the drive failed to read. The cache is well-formed, the places in the map are of whole blocks,
-- and the sector numbers do not leave 32 bits.
pub read_loop-right :
    (env : Surroundings) (s : Store) (flash : Flash) (lba len : ℕ) (buffer : ℕ → ℕ)
    → WellFormed s.cache_lba s.cache_pos
    → MapPlaces s.map
    → lba + len ≤ 2 ^ 32
    → ReadRight env s flash lba len (read_loop (len + 1) env s flash lba len 0 buffer)
read_loop-right env s flash lba len buffer w places word =
    read_rounds env s flash lba (len + 1) len 0 buffer w places word (omega arith) (omega arith)
      (λ k h. absurd (omega arith))
