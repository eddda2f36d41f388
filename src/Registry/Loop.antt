-- ===== src/Registry/Loop.antt =====
-- driver/registry.c: the loop of PatternMatch returns, and says whether the pattern matches.
use fdlvling.Base.{
  ℕ, zero, suc, ◌+◌, ◌-◌, ◌≤◌, ◌<◌, ◌≡◌, ◌≢◌, refl, sym, ap, ◌∙◌, ◌⊎◌, inl, inr, Bool, true, not,
  ◌&&◌, ◌||◌, some, arith, ltb, ◌==◌, if_cases, dec_lt, ℕ_discrete as dec_eq,
}
use fdlvling.Registry.{star, at_end, MatchRound, goes_on, match_round, pattern_match}
use fdlvling.Registry.Match.{last-inv, differs-inv, Matches, ends, skips, same, star-back}
use fdlvling.Registry.Rounds.{
  Decides, After, After_iff, After-Decides, Run, over_iff, differs_iff, star_iff,
}

-- The name ends at `last`.
pub record Name (name : ℕ → ℕ) (last : ℕ) : Type 0 where
  pub over : name last ≡ 0
  pub before : (t : ℕ) → t < last → name t ≢ 0

module _ (name pattern : ℕ → ℕ) (length last : ℕ) (named : Name name last) where
  -- A star at the end matches all that is left.
  star-all :
      (i j : ℕ)
      → i < length
      → pattern i ≡ star
      → at_end pattern length (i + 1) ≡ true
      → j ≤ last
      → Matches name pattern length i j
  star-all i j inside s e fits =
      star-back name pattern length (last - j)
        (skips inside s (ends e (ap name (omega (arith, fits)) ∙ named.over))) inside s
        (λ t h. named.before (j + t) (omega (arith, h)))

  before-last : (j : ℕ) → name j ≢ 0 → j ≤ last → j < last
  before-last j more fits = elim (dec_lt j last) [
    | yes before ↦ before
    | no past ↦ absurd (more (ap name (omega (arith, fits)) ∙ named.over))
  ]

  apart :
      (i j : ℕ)
      → ((i == length) || not (pattern i == name j)) ≡ true
      → (i ≡ length) ⊎ (pattern i ≢ name j)
  apart i j d = elim (dec_eq i length) [
    | yes e ↦ inl e
    | no ne ↦ inr (λ e. ground (arith, d, ne, e))
  ]

  Run-more :
      (m k n i j : ℕ)
      → Run name pattern length last m k n i j
      → i < length
      → pattern i ≢ star
      → pattern i ≡ name j
      → name j ≢ 0
      → Run name pattern length last m k (n + 1) (i + 1) (j + 1)
  Run-more m k n i j r inside other e more = record {
    starts = r.starts;
    at_star = r.at_star;
    plain = λ t h. elim (dec_eq t n) [
      | yes new ↦
          let at : m + 1 + t ≡ i = omega (arith, r.place, new) in
          (
            omega (arith, at),
            λ s. other (ap pattern (sym at) ∙ s),
            λ z. more (sym e ∙ ap pattern (sym at) ∙ z),
          )
      | no old ↦ r.plain t (omega (arith, h))
    ];
    held = λ t h. elim (dec_eq t n) [
      | yes new ↦
          ap pattern (omega (arith, r.place, new)) ∙ e ∙ ap name (omega (arith, r.reached, new))
      | no old ↦ r.held t (omega (arith, h))
    ];
    place = omega (arith, r.place);
    reached = omega (arith, r.reached);
    bound = omega (arith, inside);
    fits = omega (arith, before-last j more r.fits);
  }

  -- The rounds behind a star: each new star leaves fewer characters of the pattern, each character
  -- that differs fewer of the name, and else the run grows.
  Run-decides :
      (a b c m k n i j : ℕ)
      → Run name pattern length last m k n i j
      → length ≤ m + a
      → last < k + b
      → length < i + c
      → Decides name pattern length i (m + 1) j (Matches name pattern length m k)
  unfolding match_round
  Run-decides zero b c m k n i j r la lb lc = absurd (omega (arith, r.starts, la))
  Run-decides (suc a) zero c m k n i j r la lb lc = absurd (omega (arith, r.reached, r.fits, lb))
  Run-decides (suc a) (suc b) zero m k n i j r la lb lc = absurd (omega (arith, r.bound, lc))
  Run-decides (suc a) (suc b) (suc c) m k n i j r la lb lc =
      let X = λ (q : MatchRound). After name pattern length q (Matches name pattern length m k) in
      After-Decides name pattern length (match_round name pattern length i (m + 1) j) i (m + 1) j
        (Matches name pattern length m k) refl
        (if_cases X (ltb i length && (pattern i == star)) _ _
          (λ e.
            let inside : i < length = ground (arith, e) in
            let s : pattern i ≡ star = ground (arith, e) in
            let (into, back) = star_iff name pattern length last m k n i j r inside s in
            if_cases X (at_end pattern length (i + 1)) _ _
              (λ all. (λ _. into (star-all i j inside s all r.fits), λ _. refl))
              (λ _.
                After_iff name pattern length (goes_on (i + 1) (i + 1) j)
                  (Matches name pattern length i j) (Matches name pattern length m k) into back
                  (Run-decides a (last + 1) (length + 1) i j 0 (i + 1) j
                    (record {
                      starts = inside;
                      at_star = s;
                      plain = λ t h. absurd (omega (arith, h));
                      held = λ t h. absurd (omega (arith, h));
                      place = omega arith;
                      reached = omega arith;
                      bound = omega (arith, inside);
                      fits = r.fits;
                    })
                    (omega (arith, r.place, la)) (omega arith) (omega arith))))
          (λ ne.
            let other : i < length → pattern i ≢ star = λ h s. ground (arith, ne, h, s) in
            if_cases X (name j == 0) _ _
              (λ z. over_iff name pattern length last m k n i j r other (ground (arith, z)))
              (λ nz.
                let more : name j ≢ 0 = ground (arith, nz) in
                if_cases X ((i == length) || not (pattern i == name j)) _ _
                  (λ d.
                    let (back, into) =
                      differs_iff name pattern length last m k n i j r other more (apart i j d) in
                    let within : j < last = before-last j more r.fits in
                    if_cases X (m + 1 == 0) _ _ (λ z. absurd (ground (arith, z)))
                      (λ _.
                        After_iff name pattern length
                          (goes_on (m + 1) (m + 1) (j - (i - (m + 1)) + 1))
                          (Matches name pattern length m (k + 1)) (Matches name pattern length m k)
                          back into
                          (Run-decides (suc a) b (length + 1) m (k + 1) 0 (m + 1)
                            (j - (i - (m + 1)) + 1)
                            (record {
                              starts = r.starts;
                              at_star = r.at_star;
                              plain = λ t h. absurd (omega (arith, h));
                              held = λ t h. absurd (omega (arith, h));
                              place = omega arith;
                              reached = omega (arith, r.place, r.reached);
                              bound = omega (arith, r.starts);
                              fits = omega (arith, r.place, r.reached, within);
                            })
                            la (omega (arith, lb)) (omega arith))))
                  (λ nd.
                    let inside : i < length = ground (arith, nd, r.bound) in
                    let e : pattern i ≡ name j = ground (arith, nd) in
                    Run-decides (suc a) (suc b) c m k (n + 1) (i + 1) (j + 1)
                      (Run-more m k n i j r inside (other inside) e more) la lb
                      (omega (arith, lc))))))

  -- The rounds before the first star.
  first-decides :
      (c i j : ℕ)
      → i ≤ length
      → j ≤ last
      → length < i + c
      → Decides name pattern length i 0 j (Matches name pattern length i j)
  unfolding match_round
  first-decides zero i j bound fits lc = absurd (omega (arith, bound, lc))
  first-decides (suc c) i j bound fits lc =
      let X = λ (q : MatchRound). After name pattern length q (Matches name pattern length i j) in
      After-Decides name pattern length (match_round name pattern length i 0 j) i 0 j
        (Matches name pattern length i j) refl
        (if_cases X (ltb i length && (pattern i == star)) _ _
          (λ e.
            let inside : i < length = ground (arith, e) in
            let s : pattern i ≡ star = ground (arith, e) in
            if_cases X (at_end pattern length (i + 1)) _ _
              (λ all. (λ _. star-all i j inside s all fits, λ _. refl))
              (λ _.
                Run-decides (length + 1) (last + 1) (length + 1) i j 0 (i + 1) j
                  (record {
                    starts = inside;
                    at_star = s;
                    plain = λ t h. absurd (omega (arith, h));
                    held = λ t h. absurd (omega (arith, h));
                    place = omega arith;
                    reached = omega arith;
                    bound = omega (arith, inside);
                    fits = fits;
                  })
                  (omega arith) (omega arith) (omega arith)))
          (λ ne.
            let other : i < length → pattern i ≢ star = λ h s. ground (arith, ne, h, s) in
            if_cases X (name j == 0) _ _
              (λ z. (
                λ e. ends e (ground (arith, z)),
                λ x. last-inv name pattern length x other (ground (arith, z)),
              ))
              (λ nz.
                let more : name j ≢ 0 = ground (arith, nz) in
                if_cases X ((i == length) || not (pattern i == name j)) _ _
                  (λ d. (
                    λ e. absurd (ground (arith, e)),
                    λ x.
                        let (lt, e, rest) = differs-inv name pattern length x other more in
                        elim (apart i j d) [
                          | inl over ↦ absurd (omega (arith, lt, over))
                          | inr unlike ↦ absurd (unlike e)
                        ],
                  ))
                  (λ nd.
                    let inside : i < length = ground (arith, nd, bound) in
                    let e : pattern i ≡ name j = ground (arith, nd) in
                    After_iff name pattern length (goes_on (i + 1) 0 (j + 1))
                      (Matches name pattern length (i + 1) (j + 1))
                      (Matches name pattern length i j) (λ x. same inside (other inside) e more x)
                      (λ x. (differs-inv name pattern length x other more).2)
                      (first-decides c (i + 1) (j + 1) (omega (arith, inside))
                        (omega (arith, before-last j more fits)) (omega (arith, lc)))))))

  -- For every pattern and every name that ends: PatternMatch returns, and it returns TRUE just where
  -- the pattern matches the name, a star standing for any characters and every other character for itself.
  pub pattern_match-Matches :
      (fuel : ℕ) × (b : Bool) × (pattern_match fuel name pattern length ≡ some b)
      × (b ≡ true → Matches name pattern length 0 0)
      × (Matches name pattern length 0 0 → b ≡ true)
  unfolding pattern_match
  pattern_match-Matches = first-decides (length + 1) 0 0 (omega arith) (omega arith) (omega arith)
