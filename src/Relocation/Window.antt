-- ===== src/Relocation/Window.antt =====
-- driver/vrelocation.c: the window that ExecuteRelocate reads.
use fdlvling.Base.{
  ℕ, zero, suc, ◌+◌, ◌-◌, ◌%◌, ◌≤◌, ◌<◌, ◌≡◌, refl, ap, ◌∙◌, true, ◌&&◌, ◌⊎◌, inl, inr, arith, ltb,
  Bool-cases,
}
use fdlvling.Store.{Store, size_of_cache, last_purge_pos}
use fdlvling.Relocation.{in_use, window_end, execute_relocate, relocation_read_max_gap}

-- The end of a window: in bounds, whole blocks, and behind the last block in use.
pub record WindowEnd (s : Store) (start i last top : ℕ) : Type 0 where
  pub grows : last ≤ top
  pub fits : top ≤ start + size_of_cache
  pub inside : top ≤ last_purge_pos
  pub whole : top % 8 ≡ 0
  pub ends_used : (top ≡ last) ⊎ ((i < top) × (in_use s (top - 8) ≡ true))

window_end-WindowEnd :
    (n i : ℕ) (s : Store) (start last : ℕ)
    → i % 8 ≡ 0
    → start % 8 ≡ 0
    → last % 8 ≡ 0
    → last ≤ i
    → last ≤ start + size_of_cache
    → last ≤ last_purge_pos
    → WindowEnd s start i last (window_end n i s start last)
unfolding window_end
window_end-WindowEnd zero i s start last a b c le fits inside = record {
  grows = omega arith;
  fits = fits;
  inside = inside;
  whole = c;
  ends_used = inl refl;
}
window_end-WindowEnd (suc n) i s start last a b c le fits inside =
    elim (Bool-cases (
      ltb i last_purge_pos
      && (ltb i (start + size_of_cache) && ltb i (last + relocation_read_max_gap)))) [
        | inr f ↦ rw f (record {
          grows = omega arith;
          fits = fits;
          inside = inside;
          whole = c;
          ends_used = inl refl;
        })
        | inl t ↦ elim (Bool-cases (in_use s i)) [
          | inr free ↦
              let r =
                window_end-WindowEnd n (i + 8) s start last (omega arith) b c (omega arith) fits
                  inside in
              rw (t, free)
                (record {
                  grows = r.grows;
                  fits = r.fits;
                  inside = r.inside;
                  whole = r.whole;
                  ends_used = elim r.ends_used [
                    | inl e ↦ inl e
                    | inr (h, u) ↦ inr (omega arith, u)
                  ];
                })
          | inl used ↦
              let r =
                window_end-WindowEnd n (i + 8) s start (i + 8) (omega arith) b (omega arith)
                  (omega arith) (ground arith) (ground arith) in
              rw (t, used)
                (record {
                  grows = omega (arith, r.grows);
                  fits = r.fits;
                  inside = r.inside;
                  whole = r.whole;
                  ends_used = elim r.ends_used [
                    | inl e ↦
                        let same : window_end n (i + 8) s start (i + 8) - 8 ≡ i = omega arith in
                        inr (omega arith, ap (in_use s) same ∙ used)
                    | inr (h, u) ↦ inr (omega arith, u)
                  ];
                })
        ]
      ]

-- A window that starts at a block in use has that block.
window_end-used :
    (n i : ℕ) (s : Store)
    → i % 8 ≡ 0
    → i < last_purge_pos
    → in_use s i ≡ true
    → i < window_end (suc n) i s i i
unfolding window_end
window_end-used n i s a less used =
    let r =
      window_end-WindowEnd n (i + 8) s i (i + 8) (omega arith) a (omega arith) (omega arith)
        (omega arith) (omega arith) in
    let t : (ltb i last_purge_pos
          && (ltb i (i + size_of_cache) && ltb i (i + relocation_read_max_gap)))
        ≡ true =
      ground arith in
    rw (t, used) (omega (arith, r.grows))

-- From a position of whole blocks up to LAST_PURGE_POS: the window that ExecuteRelocate reads starts
-- at the position, has whole blocks, at most SIZE_OF_CACHE sectors, ends at LAST_PURGE_POS at the
-- latest, is empty or ends with a block in use; and it is not empty if the block at the position
-- is in use.
pub execute_relocate-window :
    (s : Store)
    → s.relocate_pos % 8 ≡ 0
    → s.relocate_pos ≤ last_purge_pos
    → let t = execute_relocate s in
      WindowEnd s t.relocate_window_start s.relocate_pos t.relocate_window_start
        t.relocate_window_end
      × (t.relocate_window_start ≡ s.relocate_pos)
      × (s.relocate_pos < last_purge_pos
          → in_use s s.relocate_pos ≡ true
          → s.relocate_pos < t.relocate_window_end)
unfolding execute_relocate
execute_relocate-window s a le = (
  window_end-WindowEnd 64 s.relocate_pos s s.relocate_pos s.relocate_pos a a a (omega arith)
      (omega arith) le,
  refl,
  λ less used. window_end-used 63 s.relocate_pos s a less used,
)
