-- ===== src/Store/Cache.antt =====
-- driver/vscsi.c: filling the cache from the drive, or with zeros, shows the clients nothing.
use fdlvling.Base.{
  ℕ, ◌+◌, ◌-◌, ◌/◌, ◌%◌, ◌^◌, ◌≤◌, ◌<◌, ◌≡◌, ◌≢◌, ap, ◌∙◌, ◌⊎◌, inl, inr, arith, add32, dec_lt,
}
use fdlvling.Store.{
  Store, Flash, not_mapped, get_cached_pos, cache_fill_read_zero, cache_fill_read, view,
}
use fdlvling.Store.Lookup.{WellFormed}
use fdlvling.Store.Append.{Appends, Appends-uncached, view-append_run}

-- An index is one of a run, or none of it.
pub in_run :
    (x lba len : ℕ) → ((k : ℕ) × (k < len) × (x ≡ lba + k)) ⊎ ((k : ℕ) → k < len → x ≢ lba + k)
in_run x lba len = elim (dec_lt x lba) [
  | yes below ↦ inr (λ k h e. omega arith)
  | no above ↦ elim (dec_lt x (lba + len)) [
    | yes inside ↦ inl (x - lba, omega arith, omega arith)
    | no behind ↦ inr (λ k h e. omega arith)
  ]
]

-- The entries of the first cache are entries of the second.
abbrev pub KeepsEntries : Store → Store → Type 0
KeepsEntries s t =
    (s.cache_pos ≤ t.cache_pos) × ((p : ℕ) → p < s.cache_pos → t.cache_lba p ≡ s.cache_lba p)

-- The run stays in one block.
abbrev pub OneBlock : ℕ → ℕ → Type 0
OneBlock lba len = lba % 8 + len ≤ 8

module _ (s : Store) (flash : Flash) (lba len : ℕ) (w : WellFormed s.cache_lba s.cache_pos)
    (a : Appends s lba len) (o : OneBlock lba len) where
  -- CacheFillReadZero on a block that is not mapped.
  pub view-cache_fill_read_zero :
      s.map (lba / 8) ≡ not_mapped
      → (x : ℕ) → view (cache_fill_read_zero s lba len) flash x ≡ view s flash x
  unfolding cache_fill_read_zero view
  view-cache_fill_read_zero m x = elim (in_run x lba len) [
    | inl (k, h, e) ↦
        let same : x / 8 ≡ lba / 8 = omega arith in
        let gone = Appends-uncached s lba len (λ _. 0) w a k h in
        (view-append_run s lba len (λ _. 0) w a flash x).0 k h e
        ∙ ground (arith, ap (get_cached_pos s) e ∙ gone, ap s.map same ∙ m)
    | inr other ↦ (view-append_run s lba len (λ _. 0) w a flash x).1 other
  ]

  -- ExecuteCacheFillRead on a block that is mapped to the drive.
  pub view-cache_fill_read :
      s.map (lba / 8) + 8 ≤ 2 ^ 32
      → s.map (lba / 8) ≢ not_mapped
      → (x : ℕ) → view (cache_fill_read s flash lba len) flash x ≡ view s flash x
  unfolding cache_fill_read view
  view-cache_fill_read m n x = elim (in_run x lba len) [
    | inl (k, h, e) ↦
        let same : x / 8 ≡ lba / 8 = omega arith in
        let source = λ (i : ℕ). flash (add32 (add32 (s.map (lba / 8)) (lba % 8)) i) in
        let gone = Appends-uncached s lba len source w a k h in
        let there : add32 (add32 (s.map (lba / 8)) (lba % 8)) k ≡ s.map (lba / 8) + x % 8 =
          omega arith in
        (view-append_run s lba len source w a flash x).0 k h e
        ∙ ap flash there
        ∙ ground (arith, ap (get_cached_pos s) e ∙ gone, ap s.map same)
    | inr other ↦ (view-append_run s lba len _ w a flash x).1 other
  ]
