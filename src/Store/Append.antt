-- ===== src/Store/Append.antt =====
-- driver/vscsi.c: sectors that go to the end of the cache keep it well-formed, and change the
-- contents of no other sector.
use fdlvling.Base.{
  ℕ, zero, suc, ◌+◌, ◌-◌, ◌*◌, ◌/◌, ◌%◌, ◌^◌, ◌≤◌, ◌<◌, ◌≡◌, ◌≢◌, refl, sym, ap, ◌∙◌, arith, dec_lt,
  add32, ℕ_discrete as dec_eq,
}
use fdlvling.Store.{
  Store, Flash, not_mapped, last_cache_pos, update, get_cached_pos, fill_lba, copy_sectors,
  append_run, view,
}
use fdlvling.Store.Lookup.{WellFormed, entry, get_cached_pos_lem, cached, uncached, missing}

-- When `len` sectors from `lba` on may go to the end of the cache: they fit, they start at the
-- place in a block where the cache ends, they continue a block that is begun, and no block that
-- they begin is in the cache.
pub record Appends (s : Store) (lba len : ℕ) : Type 0 where
  pub some_len : 0 < len
  pub room : s.cache_pos + len ≤ last_cache_pos
  pub place : s.cache_pos % 8 ≡ lba % 8
  pub next : s.cache_pos % 8 ≢ 0 → s.cache_lba (s.cache_pos - 1) + 1 ≡ lba
  pub new : (k p : ℕ) → k < len → (lba + k) % 8 ≡ 0 → p < s.cache_pos → s.cache_lba p ≢ lba + k
  pub word : lba + len ≤ 2 ^ 32

pub fill_lba-old :
    (n i : ℕ) (lbas : ℕ → ℕ) (pos lba j : ℕ) → j < pos + i → fill_lba n i lbas pos lba j ≡ lbas j
unfolding fill_lba
fill_lba-old zero i lbas pos lba j h = refl
fill_lba-old (suc n) i lbas pos lba j h =
    fill_lba-old n (i + 1) (update lbas (pos + i) (add32 lba i)) pos lba j (omega arith)
    ∙ ground arith

fill_lba-new :
    (n i : ℕ) (lbas : ℕ → ℕ) (pos lba k : ℕ)
    → i ≤ k
    → k < i + n
    → lba + k < 2 ^ 32
    → fill_lba n i lbas pos lba (pos + k) ≡ lba + k
unfolding fill_lba
fill_lba-new zero i lbas pos lba k lo hi w = absurd (omega arith)
fill_lba-new (suc n) i lbas pos lba k lo hi w = elim (dec_lt i k) [
  | yes less ↦
      fill_lba-new n (i + 1) (update lbas (pos + i) (add32 lba i)) pos lba k (omega arith)
        (omega arith) w
  | no more ↦
      fill_lba-old n (i + 1) (update lbas (pos + i) (add32 lba i)) pos lba (pos + k) (omega arith)
      ∙ ground arith
]

sub-add : (k p : ℕ) → p + k - p ≡ k
sub-add k p = omega arith

module _ (s : Store) (lba len : ℕ) (source : ℕ → ℕ) (w : WellFormed s.cache_lba s.cache_pos)
    (a : Appends s lba len) where
  -- What the cache holds afterwards, at an old and at a new place.
  pub lba-old :
      (j : ℕ) → j < s.cache_pos → (append_run s lba len source).cache_lba j ≡ s.cache_lba j
  unfolding append_run
  lba-old j h = fill_lba-old len 0 s.cache_lba s.cache_pos lba j (omega arith)

  lba-new : (k : ℕ) → k < len → (append_run s lba len source).cache_lba (s.cache_pos + k) ≡ lba + k
  unfolding append_run
  lba-new k h =
      fill_lba-new len 0 s.cache_lba s.cache_pos lba k (omega arith) (omega arith)
        (omega (arith, a.word))

  pub lba-new' :
      (j : ℕ)
      → s.cache_pos ≤ j
      → j < s.cache_pos + len
      → (append_run s lba len source).cache_lba j ≡ lba + (j - s.cache_pos)
  lba-new' j lo hi =
      ap (append_run s lba len source).cache_lba (omega arith)
      ∙ lba-new (j - s.cache_pos) (omega arith)

  pub pos-append : (append_run s lba len source).cache_pos ≡ s.cache_pos + len
  unfolding append_run
  pos-append = omega (arith, a.room)

  -- The block that the end of the cache stands in, if it is begun.
  begun :
      (b : ℕ)
      → 8 * b < s.cache_pos
      → s.cache_pos < 8 * b + 8
      → s.cache_lba (8 * b) + (s.cache_pos - 8 * b) ≡ lba
  begun b lo hi =
      let last = w.runs b (s.cache_pos - 1 - 8 * b) (omega arith) (omega arith) in
      let there : s.cache_lba (8 * b + (s.cache_pos - 1 - 8 * b)) ≡ s.cache_lba (s.cache_pos - 1) =
        ap s.cache_lba (omega arith) in
      omega (arith, last, there, a.next (λ z. omega arith))

  aligned-append :
      (b : ℕ) → 8 * b < s.cache_pos + len → (append_run s lba len source).cache_lba (8 * b) % 8 ≡ 0
  aligned-append b h = elim (dec_lt (8 * b) s.cache_pos) [
    | yes old ↦ omega (arith, lba-old (8 * b) old, w.aligned b old)
    | no fresh ↦ omega (arith, lba-new' (8 * b) (omega arith) h, a.place)
  ]

  runs-append :
      (b r : ℕ)
      → r < 8
      → 8 * b + r < s.cache_pos + len
      → (append_run s lba len source).cache_lba (8 * b + r)
        ≡ (append_run s lba len source).cache_lba (8 * b) + r
  runs-append b r small h = elim (dec_lt (8 * b + r) s.cache_pos) [
    | yes old ↦
        omega (arith, lba-old (8 * b + r) old, lba-old (8 * b) (omega arith), w.runs b r small old)
    | no fresh ↦ elim (dec_lt (8 * b) s.cache_pos) [
      | yes old ↦ omega (
        arith,
        lba-new' (8 * b + r) (omega arith) h,
        lba-old (8 * b) old,
        begun b old (omega arith),
      )
      | no both ↦ omega (
        arith,
        lba-new' (8 * b + r) (omega arith) h,
        lba-new' (8 * b) (omega arith) (omega arith),
      )
    ]
  ]

  -- No block that is appended was in the cache before.
  apart :
      (b c : ℕ)
      → 8 * b < s.cache_pos
      → s.cache_pos ≤ 8 * c
      → 8 * c < s.cache_pos + len
      → (append_run s lba len source).cache_lba (8 * b)
        ≢ (append_run s lba len source).cache_lba (8 * c)
  apart b c old lo hi e =
      a.new (8 * c - s.cache_pos) (8 * b) (omega arith) (omega (arith, a.place)) old
        (sym (lba-old (8 * b) old) ∙ e ∙ lba-new' (8 * c) lo hi)

  distinct-append :
      (b c : ℕ)
      → 8 * b < s.cache_pos + len
      → 8 * c < s.cache_pos + len
      → (append_run s lba len source).cache_lba (8 * b)
        ≡ (append_run s lba len source).cache_lba (8 * c)
      → b ≡ c
  distinct-append b c hb hc e = elim (dec_lt (8 * b) s.cache_pos) [
    | yes ob ↦ elim (dec_lt (8 * c) s.cache_pos) [
      | yes oc ↦ w.distinct b c ob oc (sym (lba-old (8 * b) ob) ∙ e ∙ lba-old (8 * c) oc)
      | no nc ↦ absurd (apart b c ob (omega arith) hc e)
    ]
    | no nb ↦ elim (dec_lt (8 * c) s.cache_pos) [
      | yes oc ↦ absurd (apart c b oc (omega arith) hb (sym e))
      | no nc ↦
          omega (arith, e, lba-new' (8 * b) (omega arith) hb, lba-new' (8 * c) (omega arith) hc)
    ]
  ]

  -- The cache stays well-formed.
  pub append_run-WellFormed :
      WellFormed (append_run s lba len source).cache_lba (append_run s lba len source).cache_pos
  append_run-WellFormed = rw pos-append (record {
    fits = a.room;
    aligned = aligned-append;
    runs = runs-append;
    distinct = distinct-append;
  })

  -- None of the sectors that are appended was in the cache: its block would start with the
  -- sectors that are appended, or be the block that is begun.
  not-cached : (k p : ℕ) → k < len → p < s.cache_pos → s.cache_lba p ≢ lba + k
  not-cached k p h lt e =
      let (own, start) = entry s.cache_lba s.cache_pos w p lt in
      elim (dec_lt k (p % 8)) [
        | yes before ↦
            let open_block : 8 * (s.cache_pos / 8) < s.cache_pos = omega (arith, a.place) in
            let b = begun (s.cache_pos / 8) open_block (omega arith) in
            let same : p / 8 ≡ s.cache_pos / 8 =
              w.distinct (p / 8) (s.cache_pos / 8) (omega arith) open_block
                (omega (arith, a.place)) in
            omega (arith, a.place)
        | no inside ↦
            a.new (k - p % 8) (8 * (p / 8)) (omega arith) (omega arith) (omega arith) (omega arith)
      ]

  pub Appends-uncached : (k : ℕ) → k < len → get_cached_pos s (lba + k) ≡ not_mapped
  Appends-uncached k h = uncached s (lba + k) w (λ p lt. not-cached k p h lt)

  mem-new : (k : ℕ) → k < len → (append_run s lba len source).cache_mem (s.cache_pos + k) ≡ source k
  unfolding append_run copy_sectors
  mem-new k h = ground (arith, ap source (sub-add k s.cache_pos))

  mem-old : (j : ℕ) → j < s.cache_pos → (append_run s lba len source).cache_mem j ≡ s.cache_mem j
  unfolding append_run copy_sectors
  mem-old j h = ground arith

  map-append_run : (append_run s lba len source).map ≡ s.map
  unfolding append_run
  map-append_run = refl

  -- Where the cache finds a sector afterwards.
  found-new :
      (k x : ℕ)
      → k < len
      → x ≡ lba + k
      → get_cached_pos (append_run s lba len source) x ≡ s.cache_pos + k
  found-new k x h e =
      cached (append_run s lba len source) x (s.cache_pos + k) append_run-WellFormed
        (omega (arith, pos-append)) (lba-new k h ∙ sym e)

  found-old :
      (x : ℕ)
      → ((k : ℕ) → k < len → x ≢ lba + k)
      → get_cached_pos (append_run s lba len source) x ≡ get_cached_pos s x
  found-old x other = elim (dec_eq (get_cached_pos s x) not_mapped) [
    | yes none_there ↦
        uncached (append_run s lba len source) x append_run-WellFormed (λ p lt at.
          elim (dec_lt p s.cache_pos) [
            | yes old ↦ missing s x p w none_there old (sym (lba-old p old) ∙ at)
            | no fresh ↦
                other (p - s.cache_pos) (omega (arith, pos-append))
                  (sym at ∙ lba-new' p (omega arith) (omega (arith, pos-append)))
          ])
        ∙ sym none_there
    | no there ↦
        let (lt, at) = (get_cached_pos_lem s x w).1 there in
        cached (append_run s lba len source) x (get_cached_pos s x) append_run-WellFormed
          (omega (arith, pos-append)) (lba-old _ lt ∙ at)
  ]

  -- The contents of a sector that is appended, and of any other.
  pub view-append_run :
      (flash : Flash) (x : ℕ)
      → ((k : ℕ) → k < len → x ≡ lba + k → view (append_run s lba len source) flash x ≡ source k)
        × (((k : ℕ) → k < len → x ≢ lba + k)
            → view (append_run s lba len source) flash x ≡ view s flash x)
  unfolding view
  view-append_run flash x = (
    λ k h e. ground (arith, found-new k x h e, mem-new k h, a.room),
    λ other. ground (
      arith,
      found-old x other,
      (get_cached_pos_lem s x w).1,
      mem-old (get_cached_pos s x),
      map-append_run,
    ),
  )
