-- ===== src/Chunk/Choice.antt =====
-- driver/vscsi.c: FindNextChunk chooses another chunk, and the best one by its score.
use fdlvling.Base.{
  ℕ, zero, suc, ◌+◌, ◌≤◌, ◌<◌, ◌≡◌, ◌≢◌, refl, ap, ◌∙◌, Bool, true, false, not, ◌||◌, ◌⊎◌, inl, inr,
  arith, ltb, ◌==◌, if◌then◌else◌, Bool-cases,
}
use fdlvling.Store.{Store}
use fdlvling.Chunk.{
  Best, better, eligible, score, find_eligible, find_least_used, best_chunk, find_next_chunk,
}

-- Of the chunks below `m` other than the current one that pass `ok`, the loop has found none, or
-- one whose score `f` is the least.
abbrev pub FoundNone : Store → (ℕ → Bool) → ℕ → ℕ → Type 0
FoundNone s ok m next = (next ≡ s.chunk_no) × ((j : ℕ) → j < m → j ≢ s.chunk_no → ok j ≡ false)

abbrev pub FoundBest : Store → (ℕ → Bool) → (ℕ → ℕ) → ℕ → ℕ → Type 0
FoundBest s ok f m next =
    (next ≢ s.chunk_no)
    × (next < m)
    × (ok next ≡ true)
    × ((j : ℕ) → j < m → j ≢ s.chunk_no → ok j ≡ true → f next ≤ f j)

data Found (s : Store) (ok : ℕ → Bool) (f : ℕ → ℕ) (m : ℕ) (b : Best) : Type 0 where
  nothing : FoundNone s ok m b.next → Found s ok f m b
  found : FoundBest s ok f m b.next → b.min_score ≡ f b.next → Found s ok f m b

-- One round of either loop.
round : Store → (ℕ → Bool) → (ℕ → ℕ) → ℕ → Best → Best
round s ok f i b = if (i == s.chunk_no) || not (ok i) then b else better s b i (f i)

-- The last index, or one below it.
below_suc : (i j : ℕ) → j < suc i → (j ≡ i) ⊎ (j < i)
below_suc i j h = omega arith

module _ (s : Store) (ok : ℕ → Bool) (f : ℕ → ℕ) (i : ℕ) where
  -- A chunk that is passed over is the current one, or does not pass the test.
  skip-Found :
      (b : Best) → (i ≢ s.chunk_no → ok i ≡ false) → Found s ok f i b → Found s ok f (suc i) b
  skip-Found b no_good (nothing (e, h)) = nothing (
    e,
    λ j lt n. elim (below_suc i j lt) [
      | inl same ↦ ap ok same ∙ no_good (λ z. n (same ∙ z))
      | inr less ↦ h j less n
    ],
  )
  skip-Found b no_good (found (n, lt, good, least) e) =
      found
        (
          n,
          omega arith,
          good,
          λ j lt' n' good'. elim (below_suc i j lt') [
            | inl same ↦ cc (no_good (λ z. n' (same ∙ z)), ap ok same)
            | inr less ↦ least j less n' good'
          ],
        )
        e

  take-Found :
      (b : Best)
      → i ≢ s.chunk_no
      → ok i ≡ true
      → Found s ok f i b
      → Found s ok f (suc i) (better s b i (f i))
  unfolding better
  take-Found b n good (nothing (e, h)) =
      let t : (s.chunk_no == b.next) ≡ true = ground arith in
      rw t (
        found
          (
            n,
            omega arith,
            good,
            λ j lt n' good'. elim (below_suc i j lt) [
              | inl same ↦ omega (arith, ap f same)
              | inr less ↦ cc (h j less n', good')
            ],
          )
          refl)
  take-Found b n good (found (n', lt, good', least) e) =
      let t : (s.chunk_no == b.next) ≡ false = ground arith in
      elim (Bool-cases (ltb (f i) b.min_score)) [
        | inl less ↦
            let smaller : f i < b.min_score = ground arith in
            rw (t, less)
              (found
                (
                  n,
                  omega arith,
                  good,
                  λ j lt' m good''. elim (below_suc i j lt') [
                    | inl same ↦ omega (arith, ap f same)
                    | inr before ↦ omega (arith, least j before m good'')
                  ],
                )
                refl)
        | inr more ↦
            let larger : b.min_score ≤ f i = ground arith in
            rw (t, more)
              (found
                (
                  n',
                  omega arith,
                  good',
                  λ j lt' m good''. elim (below_suc i j lt') [
                    | inl same ↦ omega (arith, ap f same)
                    | inr before ↦ least j before m good''
                  ],
                )
                e)
      ]

  round-Found : (b : Best) → Found s ok f i b → Found s ok f (suc i) (round s ok f i b)
  unfolding round
  round-Found b h = elim (Bool-cases ((i == s.chunk_no) || not (ok i))) [
    | inl skip ↦ rw skip (skip-Found b (λ n. ground arith) h)
    | inr take ↦ rw take (take-Found b (λ e. ground arith) (ground arith) h)
  ]

find_eligible-Found :
    (n i : ℕ) (s : Store) (b : Best)
    → Found s (eligible s) (score s) i b
    → Found s (eligible s) (score s) (i + n) (find_eligible n i s b)
unfolding find_eligible round
find_eligible-Found zero i s b h = let e : i + 0 ≡ i = omega arith in rw e h
find_eligible-Found (suc n) i s b h =
    let e : i + suc n ≡ i + 1 + n = omega arith in
    let e' : suc i ≡ i + 1 = omega arith in
    rw e (find_eligible-Found n (i + 1) s _ (rw e' at (round-Found s (eligible s) (score s) i b h)))

find_least_used-Found :
    (n i : ℕ) (s : Store) (b : Best)
    → Found s (λ _. true) (λ j. (s.chunk_info j).used) i b
    → Found s (λ _. true) (λ j. (s.chunk_info j).used) (i + n) (find_least_used n i s b)
unfolding find_least_used round
find_least_used-Found zero i s b h = let e : i + 0 ≡ i = omega arith in rw e h
find_least_used-Found (suc n) i s b h =
    let e : i + suc n ≡ i + 1 + n = omega arith in
    let e' : suc i ≡ i + 1 = omega arith in
    let used = λ (j : ℕ). (s.chunk_info j).used in
    let step : Found s (λ _. true) used (suc i)
        (if i == s.chunk_no then b else better s b i (used i)) =
      elim (Bool-cases (i == s.chunk_no)) [
        | inl skip ↦ rw skip (skip-Found s (λ _. true) used i b (λ n. ground arith) h)
        | inr take ↦ rw take (take-Found s (λ _. true) used i b (λ e. ground arith) refl h)
      ] in
    rw e (find_least_used-Found n (i + 1) s _ (rw e' at step))

-- The chunk chosen is of two kinds.
abbrev pub Chosen : Store → ℕ → Type 0
Chosen s next =
    FoundBest s (eligible s) (score s) s.max_chunks next
    ⊎ (((j : ℕ) → j < s.max_chunks → j ≢ s.chunk_no → eligible s j ≡ false)
        × FoundBest s (λ _. true) (λ j. (s.chunk_info j).used) s.max_chunks next)

-- Among two chunks there is one that is not the current one.
another : (m c : ℕ) → 2 ≤ m → (j : ℕ) × (j < m) × (j ≢ c)
another m zero h = (1, omega arith, λ e. omega arith)
another m (suc c) h = (0, omega arith, λ e. omega arith)

none_below : {c : ℕ} → (ok : ℕ → Bool) → (j : ℕ) → j < 0 → j ≢ c → ok j ≡ false
none_below ok j lt n = absurd (omega arith)

-- Of two chunks or more FindNextChunk chooses one in range that is not the current one: the one
-- with the least score among the chunks that are eligible, or, when no other chunk is eligible,
-- the one with the fewest blocks in use.
pub find_next_chunk-best :
    (s : Store) → 2 ≤ s.max_chunks → Chosen s (find_next_chunk s).next_chunk_no
unfolding find_next_chunk best_chunk
find_next_chunk-best s two =
    let start : Best = record { next = s.chunk_no; min_score = 0 } in
    let z : 0 + s.max_chunks ≡ s.max_chunks = omega arith in
    let found_eligible : Found s (eligible s) (score s) s.max_chunks
        (find_eligible s.max_chunks 0 s start) =
      rw z at (find_eligible-Found s.max_chunks 0 s start (nothing (refl, none_below _))) in
    elim found_eligible [
      | nothing (e, none) ↦
          let least : Found s (λ _. true) (λ j. (s.chunk_info j).used) s.max_chunks
              (find_least_used s.max_chunks 0 s (find_eligible s.max_chunks 0 s start)) =
            rw z at (
              find_least_used-Found s.max_chunks 0 s (find_eligible s.max_chunks 0 s start)
                (nothing (e, none_below _))) in
          let t : (s.chunk_no == (find_eligible s.max_chunks 0 s start).next) ≡ true =
            ground arith in
          rw t (elim least [
            | nothing (_, h) ↦ let (j, lt, n) = another s.max_chunks s.chunk_no two in cc (h j lt n)
            | found best _ ↦ inr (none, best)
          ])
      | found best e ↦
          let t : (s.chunk_no == (find_eligible s.max_chunks 0 s start).next) ≡ false =
            ground arith in
          rw t (inl best)
    ]
