-- ===== src/Registry/Rounds.antt =====
-- driver/registry.c: what the rounds of PatternMatch decide.
use std.Path.{subst}
use fdlvling.Base.{
  ℕ, suc, ◌+◌, ◌-◌, ◌≤◌, ◌<◌, ◌≡◌, ◌≢◌, sym, ap, ◌∙◌, ◌⊎◌, inl, inr, Bool, true, some, arith,
  dec_lt, ℕ_discrete as dec_eq,
}
use fdlvling.Registry.{
  star, at_end, MatchRound, decided, goes_on, match_round, after_match, match_rounds,
}
use fdlvling.Registry.Match.{
  last-inv, differs-inv, Matches, ends, skips, takes, star-inv, star-back, Plain, Held, Plain-inv,
  Plain-back,
}

module _ (name pattern : ℕ → ℕ) (length : ℕ) where
  -- The loop from here on returns, and says whether `X`.
  abbrev pub Decides : ℕ → ℕ → ℕ → Type 0 → Type 0
  Decides i mark j X =
      (fuel : ℕ) × (b : Bool) × (match_rounds fuel name pattern length i mark j ≡ some b)
      × (b ≡ true → X)
      × (X → b ≡ true)

  abbrev pub After : MatchRound → Type 0 → Type 0
  After (decided b) X = (b ≡ true → X) × (X → b ≡ true)
  After (goes_on i mark j) X = Decides i mark j X

  pub After_iff : (r : MatchRound) (X Y : Type 0) → (X → Y) → (Y → X) → After r X → After r Y
  After_iff (decided b) X Y f g (sound, complete) = (λ e. f (sound e), λ y. complete (g y))
  After_iff (goes_on i mark j) X Y f g (fuel, b, e, sound, complete) =
      (fuel, b, e, λ h. f (sound h), λ y. complete (g y))

  pub After-Decides :
      (r : MatchRound) (i mark j : ℕ) (X : Type 0)
      → match_round name pattern length i mark j ≡ r
      → After r X
      → Decides i mark j X
  unfolding match_rounds after_match
  After-Decides (decided b) i mark j X e (sound, complete) =
      (1, b, ap (λ r. after_match r (match_rounds 0 name pattern length)) e, sound, complete)
  After-Decides (goes_on i' mark' j') i mark j X e (fuel, b, at, sound, complete) = (
    suc fuel,
    b,
    ap (λ r. after_match r (match_rounds fuel name pattern length)) e ∙ at,
    sound,
    complete,
  )

module _ (name pattern : ℕ → ℕ) (length last : ℕ) where
  -- Behind a star at `m`, the characters before `i` are those of the name from `k` to `j`.
  pub record Run (m k n i j : ℕ) : Type 0 where
    pub starts : m < length
    pub at_star : pattern m ≡ star
    pub plain : Plain name pattern length (m + 1) n
    pub held : Held name pattern length (m + 1) k n
    pub place : i ≡ m + 1 + n
    pub reached : j ≡ k + n
    pub bound : i ≤ length
    pub fits : j ≤ last

  module _ (m k n i j : ℕ) (r : Run m k n i j) where
    pub run-to : Matches name pattern length i j → Matches name pattern length m k
    run-to x = skips r.starts r.at_star (
        Plain-back name pattern length n
          (subst (λ (a : ℕ). Matches name pattern length a (k + n)) r.place
            (subst (Matches name pattern length i) r.reached x))
          r.plain r.held)

    pub run-of :
        Matches name pattern length m k
        → (d : ℕ) × Matches name pattern length i (j + d) × ((t : ℕ) → t < d + n → name (k + t) ≢ 0)
    run-of x =
        let (d, y, all) = star-inv name pattern length x r.starts r.at_star in
        let (z, more) = Plain-inv name pattern length n y r.plain in
        (
          d,
          subst (λ (a : ℕ). Matches name pattern length a (j + d)) (sym r.place)
              (subst (Matches name pattern length (m + 1 + n)) (omega (arith, r.reached)) z),
          λ t h e. elim (dec_lt t d) [
            | yes before ↦ all t before e
            | no later ↦ more (t - d) (omega arith) (ap name (omega arith) ∙ e)
          ],
        )

    -- The name is over.
    pub over_iff :
        (i < length → pattern i ≢ star)
        → name j ≡ 0
        → (at_end pattern length i ≡ true → Matches name pattern length m k)
          × (Matches name pattern length m k → at_end pattern length i ≡ true)
    over_iff other z = (
      λ e. run-to (ends e z),
      λ x.
          let (d, y, all) = run-of x in
          elim (dec_eq d 0) [
            | yes here ↦
                last-inv name pattern length
                  (subst (Matches name pattern length i) (omega (arith, here)) y) other z
            | no later ↦ absurd (all n (omega (arith, later)) (ap name (sym r.reached) ∙ z))
          ],
    )

    -- A character differs: the star takes one more.
    pub differs_iff :
        (i < length → pattern i ≢ star)
        → name j ≢ 0
        → (i ≡ length) ⊎ (pattern i ≢ name j)
        → (Matches name pattern length m (k + 1) → Matches name pattern length m k)
          × (Matches name pattern length m k → Matches name pattern length m (k + 1))
    differs_iff other more apart = (
      λ x. takes r.starts r.at_star first x,
      λ x.
          let (d, y, all) = star-inv name pattern length x r.starts r.at_star in
          elim (dec_eq d 0) [
            | yes here ↦
                let (z, held) =
                  Plain-inv name pattern length n
                    (subst (Matches name pattern length (m + 1)) (omega (arith, here)) y) r.plain in
                let w =
                  subst (λ (a : ℕ). Matches name pattern length a j) (sym r.place)
                    (subst (Matches name pattern length (m + 1 + n)) (sym r.reached) z) in
                let (lt, e, rest) = differs-inv name pattern length w other more in
                elim apart [
                  | inl over ↦ absurd (omega (arith, lt, over))
                  | inr unlike ↦ absurd (unlike e)
                ]
            | no later ↦
                star-back name pattern length (d - 1)
                  (skips r.starts r.at_star
                    (subst (Matches name pattern length (m + 1)) (omega (arith, later)) y))
                  r.starts r.at_star
                  (λ t h e. all (t + 1) (omega (arith, later, h)) (ap name (omega arith) ∙ e))
          ],
    )
      where
        first : name k ≢ 0
        first e = elim (dec_eq n 0) [
          | yes start ↦ more (ap name (omega (arith, r.reached, start)) ∙ e)
          | no begun ↦
              let (inside, o, there) = r.plain 0 (omega (arith, begun)) in
              there (r.held 0 (omega (arith, begun)) ∙ ap name (omega arith) ∙ e)
        ]

    -- Another star.
    pub star_iff :
        i < length
        → pattern i ≡ star
        → (Matches name pattern length i j → Matches name pattern length m k)
          × (Matches name pattern length m k → Matches name pattern length i j)
    star_iff inside s = (
      run-to,
      λ x.
          let (d, y, all) = run-of x in
          star-back name pattern length d y inside s
            (λ t h e. all (n + t) (omega (arith, h)) (ap name (omega (arith, r.reached)) ∙ e)),
    )
