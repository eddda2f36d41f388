-- ===== src/Registry/Match.antt =====
-- driver/registry.c: PatternMatch against what its patterns mean.
use std.Path.{subst}
use fdlvling.Base.{
  ℕ, zero, suc, ◌+◌, ◌-◌, ◌<◌, ◌≡◌, ◌≢◌, ap, ◌∙◌, true, arith, ℕ_discrete as dec_eq,
}
use fdlvling.Registry.{star, at_end}

module _ (name pattern : ℕ → ℕ) (length : ℕ) where
  -- The pattern from `i` on matches the name from `j` on: a star takes any characters, another
  -- character itself.
  pub data Matches : ℕ → ℕ → Type 0 where
    ends : {i j : ℕ} → at_end pattern length i ≡ true → name j ≡ 0 → Matches i j
    skips : {i j : ℕ} → i < length → pattern i ≡ star → Matches (i + 1) j → Matches i j
    takes : {i j : ℕ} → i < length → pattern i ≡ star → name j ≢ 0 → Matches i (j + 1) → Matches i j
    same :
        {i j : ℕ}
        → i < length
        → pattern i ≢ star
        → pattern i ≡ name j
        → name j ≢ 0
        → Matches (i + 1) (j + 1)
        → Matches i j

  -- Where a star leaves off.
  pub star-inv :
      {i j : ℕ}
      → Matches i j
      → i < length
      → pattern i ≡ star
      → (d : ℕ) × Matches (i + 1) (j + d) × ((t : ℕ) → t < d → name (j + t) ≢ 0)
  unfolding at_end
  star-inv (ends e z) inside s = absurd (ground (arith, e, inside, s))
  star-inv {i = i} {j = j} (skips lt s' m) inside s =
      (0, subst (Matches (i + 1)) (omega arith) m, λ t h. absurd (omega (arith, h)))
  star-inv {i = i} {j = j} (takes lt s' there m) inside s =
      let (d, rest, all) = star-inv m inside s in
      (
        suc d,
        subst (Matches (i + 1)) (omega arith) rest,
        λ t h e. elim (dec_eq t 0) [
          | yes first ↦ there (ap name (omega arith) ∙ e)
          | no later ↦ all (t - 1) (omega arith) (ap name (omega arith) ∙ e)
        ],
      )
  star-inv (same lt other e there m) inside s = absurd (other s)

  -- A star takes what comes before.
  pub star-back :
      (d : ℕ) {i j : ℕ}
      → Matches i (j + d)
      → i < length
      → pattern i ≡ star
      → ((t : ℕ) → t < d → name (j + t) ≢ 0)
      → Matches i j
  star-back zero {i = i} m inside s all = subst (Matches i) (omega arith) m
  star-back (suc d) {i = i} {j = j} m inside s all =
      takes inside s (λ e. all 0 (omega arith) (ap name (omega arith) ∙ e))
        (star-back d (subst (Matches i) (omega arith) m) inside s
          (λ t h e. all (t + 1) (omega arith) (ap name (omega arith) ∙ e)))

  -- Another character of the pattern.
  pub same-inv :
      {i j : ℕ}
      → Matches i j
      → i < length
      → pattern i ≢ star
      → pattern i ≢ 0
      → (pattern i ≡ name j) × (name j ≢ 0) × Matches (i + 1) (j + 1)
  unfolding at_end
  same-inv (ends e z) inside other more = absurd (ground (arith, e, inside, more))
  same-inv (skips lt s m) inside other more = absurd (other s)
  same-inv (takes lt s there m) inside other more = absurd (other s)
  same-inv (same lt other' e there m) inside other more = (e, there, m)

  -- A run of other characters in the pattern from `m` on, and the same in the name from `k` on.
  abbrev pub Plain : ℕ → ℕ → Type 0
  Plain m n = (t : ℕ) → t < n → (m + t < length) × (pattern (m + t) ≢ star) × (pattern (m + t) ≢ 0)

  abbrev pub Held : ℕ → ℕ → ℕ → Type 0
  Held m k n = (t : ℕ) → t < n → pattern (m + t) ≡ name (k + t)

  pub Plain-inv :
      (n : ℕ) {m k : ℕ}
      → Matches m k
      → Plain m n
      → Matches (m + n) (k + n) × ((t : ℕ) → t < n → name (k + t) ≢ 0)
  Plain-inv zero {m = m} {k = k} x p = (
    subst (λ (i : ℕ). Matches i (k + 0)) (omega arith) (subst (Matches m) (omega arith) x),
    λ t h. absurd (omega (arith, h)),
  )
  Plain-inv (suc n) {m = m} {k = k} x p =
      let (y, all) = Plain-inv n x (λ t h. p t (omega arith)) in
      let (inside, other, more) = p n (omega arith) in
      let (e, there, z) = same-inv y inside other more in
      (
        subst (λ (i : ℕ). Matches i (k + suc n)) (omega arith)
            (subst (Matches (m + n + 1)) (omega arith) z),
        λ t h. elim (dec_eq t n) [
          | yes last ↦ λ e'. there (ap name (omega arith) ∙ e')
          | no before ↦ all t (omega arith)
        ],
      )

  pub Plain-back :
      (n : ℕ) {m k : ℕ} → Matches (m + n) (k + n) → Plain m n → Held m k n → Matches m k
  Plain-back zero {m = m} {k = k} x p h =
      subst (λ (i : ℕ). Matches i k) (omega arith) (subst (Matches (m + 0)) (omega arith) x)
  Plain-back (suc n) {m = m} {k = k} x p h =
      let (inside, other, more) = p n (omega arith) in
      let e = h n (omega arith) in
      Plain-back n
        (same inside other e (λ z. more (e ∙ z))
          (subst (λ (i : ℕ). Matches i (k + n + 1)) (omega arith)
            (subst (Matches (m + suc n)) (omega arith) x)))
        (λ t lt. p t (omega arith)) (λ t lt. h t (omega arith))

  -- Where the name is over.
  pub last-inv :
      {i j : ℕ}
      → Matches i j
      → (i < length → pattern i ≢ star)
      → name j ≡ 0
      → at_end pattern length i ≡ true
  last-inv (ends e z) other over = e
  last-inv (skips lt s m) other over = absurd (other lt s)
  last-inv (takes lt s there m) other over = absurd (other lt s)
  last-inv (same lt o e there m) other over = absurd (there over)

  -- A character that differs.
  pub differs-inv :
      {i j : ℕ}
      → Matches i j
      → (i < length → pattern i ≢ star)
      → name j ≢ 0
      → i < length × (pattern i ≡ name j) × Matches (i + 1) (j + 1)
  differs-inv (ends e z) other more = absurd (more z)
  differs-inv (skips lt s m) other more = absurd (other lt s)
  differs-inv (takes lt s there m) other more = absurd (other lt s)
  differs-inv (same lt o e there m) other more = (lt, e, m)
