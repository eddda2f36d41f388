-- ===== src/WritePath/Outcome.antt =====
-- driver/vscsi.c: what the ways to end a round of ExecuteWriteHandler mean.
use fdlvling.Base.{
  ℕ, ◌+◌, ◌-◌, ◌/◌, ◌%◌, ◌^◌, ◌≤◌, ◌<◌, ◌≡◌, ◌≢◌, refl, sym, ap, ◌∙◌, true, ◌⊎◌, inl, inr, arith,
  ◌==◌, ==_iff, Bool-cases, dec_lt, ℕ_discrete as dec_eq,
}
use fdlvling.Store.{
  Store, Flash, not_mapped, last_cache_pos, get_cached_pos, copy_sectors, append_run,
  cache_fill_read_zero, view,
}
use fdlvling.Store.Lookup.{WellFormed, get_cached_pos_lem, cached, missing}
use fdlvling.Store.Append.{
  Appends, append_run-WellFormed, view-append_run, lba-old, lba-new', pos-append,
}
use fdlvling.Store.Cache.{KeepsEntries, OneBlock, view-cache_fill_read_zero}
use fdlvling.WritePath.{
  write_len, Placed, go_on, purge_cache, fill_read, cache_hit, cache_write, fill_block,
}
use fdlvling.WritePath.Lengths.{hit_len-HitRun, write_len-WriteRun}

-- After the round the first `n` sectors from `lba` on have the contents `source`, and every other
-- sector has the contents that it had.
abbrev pub Wrote : Store → Store → Flash → ℕ → ℕ → (ℕ → ℕ) → Type 0
Wrote s s' flash lba n source =
    (x : ℕ)
    → ((k : ℕ) → k < n → x ≡ lba + k → view s' flash x ≡ source k)
      × (((k : ℕ) → k < n → x ≢ lba + k) → view s' flash x ≡ view s flash x)

-- A round changes the cache only, and where the sectors of the cache and of the request are on the
-- map, those of the new cache are.
abbrev pub CacheOnly : Store → Store → Type 0
CacheOnly s t = t ≡ record s {
  cache_lba = t.cache_lba;
  cache_mem = t.cache_mem;
  cache_pos = t.cache_pos;
  cache_dirty = t.cache_dirty;
}

abbrev pub OnMap : Store → ℕ → ℕ → Type 0
OnMap s lba len =
    ((p : ℕ) → p < s.cache_pos → s.cache_lba p / 8 < s.size_of_map)
    × ((k : ℕ) → k < len → (lba + k) / 8 < s.size_of_map)

abbrev pub StaysOnMap : Store → Store → ℕ → ℕ → Type 0
StaysOnMap s t lba len =
    OnMap s lba len → (p : ℕ) → p < t.cache_pos → t.cache_lba p / 8 < s.size_of_map

-- What each way to end the round means.
abbrev pub PlacedRight : Store → Flash → ℕ → ℕ → (ℕ → ℕ) → Placed → Type 0
PlacedRight s flash lba len source (go_on s' n) =
    WellFormed s'.cache_lba s'.cache_pos
    × (n ≤ len)
    × Wrote s s' flash lba n source
    × ((0 < n) ⊎ (s.cache_pos < s'.cache_pos))
    × CacheOnly s s'
    × StaysOnMap s s' lba len
    × KeepsEntries s s'
PlacedRight s flash lba len source purge_cache = s.cache_pos ≡ last_cache_pos
PlacedRight s flash lba len source (fill_read start n) =
    Appends s start n × OneBlock start n × (s.map (start / 8) ≢ not_mapped)

sub-add : (k p : ℕ) → p + k - p ≡ k
sub-add k p = omega arith

-- CacheDirty does not touch the contents.
view-dirty :
    (s : Store) (flash : Flash) (x : ℕ)
    → view (record s { cache_dirty = true }) flash x ≡ view s flash x
unfolding view get_cached_pos
view-dirty s flash x = refl

pub append_run-mapped :
    (s : Store) (start n : ℕ) (source : ℕ → ℕ)
    → WellFormed s.cache_lba s.cache_pos
    → Appends s start n
    → OnMap s start n
    → (p : ℕ) → p < (append_run s start n source).cache_pos
    → (append_run s start n source).cache_lba p / 8 < s.size_of_map
append_run-mapped s start n source w a (old_mapped, new_mapped) p h =
    let pos = pos-append s start n source w a in
    elim (dec_lt p s.cache_pos) [
      | yes old ↦ omega (arith, lba-old s start n source w a p old, old_mapped p old)
      | no new ↦ omega (
        arith,
        pos,
        lba-new' s start n source w a p (omega arith) (omega (arith, pos)),
        new_mapped (p - s.cache_pos) (omega (arith, pos)),
      )
    ]

module _ (s : Store) (flash : Flash) (w : WellFormed s.cache_lba s.cache_pos) where
  -- Overwriting sectors that the cache holds moves none of them.
  overwrite-found :
      (mem : ℕ → ℕ) (x : ℕ) → get_cached_pos (record s { cache_mem = mem }) x ≡ get_cached_pos s x
  unfolding get_cached_pos
  overwrite-found mem x = refl

  overwrite-Wrote :
      (pos lba n : ℕ) (source : ℕ → ℕ)
      → ((k : ℕ) → k < n → (pos + k < s.cache_pos) × (s.cache_lba (pos + k) ≡ lba + k))
      → Wrote s (record s { cache_mem = copy_sectors s.cache_mem pos n source }) flash lba n source
  unfolding view copy_sectors
  overwrite-Wrote pos lba n source held x =
      let mem = copy_sectors s.cache_mem pos n source in
      (
        λ k h e.
            let found : get_cached_pos s x ≡ pos + k =
              cached s x (pos + k) w (held k h).0 ((held k h).1 ∙ sym e) in
            ground
              (arith, overwrite-found mem x, found, held k h, w.fits, ap source (sub-add k pos)),
        λ other. elim (dec_eq (get_cached_pos s x) not_mapped) [
          | yes gone ↦ ground (arith, overwrite-found mem x, gone)
          | no there ↦
              let (lt, at) = (get_cached_pos_lem s x w).1 there in
              elim (dec_lt (get_cached_pos s x) pos) [
                | yes below ↦ ground (arith, overwrite-found mem x)
                | no above ↦ elim (dec_lt (get_cached_pos s x) (pos + n)) [
                  | yes inside ↦
                      let k : ℕ = get_cached_pos s x - pos in
                      let same : pos + k ≡ get_cached_pos s x = omega arith in
                      absurd (
                        other k (omega arith)
                          (sym at ∙ ap s.cache_lba (sym same) ∙ (held k (omega arith)).1))
                  | no behind ↦ ground (arith, overwrite-found mem x)
                ]
              ]
        ],
      )

  pub cache_hit-right :
      (pos lba len : ℕ) (source : ℕ → ℕ)
      → 0 < len
      → lba + len ≤ 2 ^ 32
      → pos < s.cache_pos
      → s.cache_lba pos ≡ lba
      → PlacedRight s flash lba len source (cache_hit s pos lba len source)
  unfolding cache_hit
  cache_hit-right pos lba len source some_len word lt at =
      let (run, bound) = hit_len-HitRun (len - 1) 1 s pos lba (omega arith) in
      (
        w,
        omega arith,
        overwrite-Wrote pos lba _ source (λ k h. elim (dec_lt 0 k) [
          | yes later ↦ run.held k (omega arith) h
          | no first ↦
              let same : pos + k ≡ pos = omega arith in
              (omega arith, ap s.cache_lba same ∙ at ∙ omega arith)
        ]),
        inl (omega (arith, run.from)),
        refl,
        λ m p h. m.0 p h,
        (omega arith, λ p h. refl),
      )

  pub cache_write-right :
      (lba len : ℕ) (source : ℕ → ℕ)
      → 0 < len
      → lba + len ≤ 2 ^ 32
      → s.cache_pos < last_cache_pos
      → s.cache_pos % 8 ≡ lba % 8
      → (s.cache_pos % 8 ≢ 0 → s.cache_lba (s.cache_pos - 1) + 1 ≡ lba)
      → get_cached_pos s lba ≡ not_mapped
      → PlacedRight s flash lba len source (cache_write s lba len source)
  unfolding cache_write append_run
  cache_write-right lba len source some_len word room place next gone =
      let (run, bound) = write_len-WriteRun (len - 1) 1 s lba (omega arith) in
      let a : Appends s lba (write_len (len - 1) 1 s s.cache_pos lba) = record {
        some_len = omega (arith, run.from);
        room = run.inside (omega arith);
        place = place;
        next = next;
        new = λ k p h z lt.
            missing s (lba + k) p w
              (elim (dec_lt 0 k) [
                | yes later ↦ run.free k (omega arith) h z
                | no first ↦
                    let same : lba + k ≡ lba = omega arith in ap (get_cached_pos s) same ∙ gone
              ])
              lt;
        word = omega arith;
      } in
      (
        append_run-WellFormed s lba _ source w a,
        omega arith,
        λ x. (
          λ k h e.
              view-dirty (append_run s lba _ source) flash x
              ∙ (view-append_run s lba _ source w a flash x).0 k h e,
          λ other.
              view-dirty (append_run s lba _ source) flash x
              ∙ (view-append_run s lba _ source w a flash x).1 other,
        ),
        inl (omega (arith, run.from)),
        refl,
        λ m p h.
            append_run-mapped s lba (write_len (len - 1) 1 s s.cache_pos lba) source w a
              (m.0, λ k lt. m.1 k (omega arith)) p h,
        (
          omega (arith, pos-append s lba (write_len (len - 1) 1 s s.cache_pos lba) source w a),
          lba-old s lba (write_len (len - 1) 1 s s.cache_pos lba) source w a,
        ),
      )

  pub fill_block-right :
      (lba len start n : ℕ) (source : ℕ → ℕ)
      → Appends s start n
      → OneBlock start n
      → (OnMap s lba len → start / 8 < s.size_of_map)
      → PlacedRight s flash lba len source (fill_block s start n)
  unfolding fill_block cache_fill_read_zero append_run
  fill_block-right lba len start n source a o inside =
      elim (Bool-cases (s.map (start / 8) == not_mapped)) [
        | inl e ↦ rw e (
          append_run-WellFormed s start n (λ _. 0) w a,
          omega arith,
          λ x. (
            λ k h eq. absurd (omega arith),
            λ _. view-cache_fill_read_zero s flash start n w a o ((==_iff _ not_mapped).0 e) x,
          ),
          inr (omega (arith, a.room, a.some_len)),
          refl,
          λ m p h.
              append_run-mapped s start n (λ _. 0) w a (m.0, λ k lt. omega (arith, o, inside m)) p
                h,
          (omega (arith, pos-append s start n (λ _. 0) w a), lba-old s start n (λ _. 0) w a),
        )
        | inr e ↦ rw e (a, o, ground arith)
      ]
