-- ===== src/Config/NewCcn.antt =====
-- driver/config.c: GetNewCCN finds a number that no chunk has.
use fdlvling.Base.{
  ℕ, zero, suc, ◌+◌, ◌-◌, ◌%◌, ◌^◌, ◌≤◌, ◌<◌, ◌≡◌, ◌≢◌, refl, sym, ap, ◌∙◌, true, false, inl, inr,
  List, [], ◌∷◌, Option, none, some, arith, add32, mul32, length, ◌==◌, if◌then◌else◌, if_cases,
  Bool-cases, ℕ_discrete as dec_eq,
}
use fdlvling.Store.{size_of_chunk, last_purge_pos}
use fdlvling.Recovery.{Drive, read_failed, finished, and_then}
use fdlvling.Recovery.Chunks.{Holds, and_then-Holds}
use fdlvling.Config.{member, read_ccns, greatest, retry, get_new_ccn}

-- The array without the number `v`.
remove : ℕ → List ℕ → List ℕ
remove v [] = []
remove v (x ∷ xs) = let rest = remove v xs in if v == x then rest else x ∷ rest

length-remove_le : (v : ℕ) (xs : List ℕ) → length (remove v xs) ≤ length xs
unfolding remove
length-remove_le v [] = omega arith
length-remove_le v (x ∷ xs) = ground (arith, length-remove_le v xs)

length-remove : (v : ℕ) (xs : List ℕ) → member v xs ≡ true → length (remove v xs) < length xs
unfolding remove member
length-remove v [] h = ground (arith, h)
length-remove v (x ∷ xs) h = ground (arith, h, length-remove v xs, length-remove_le v xs)

member-remove : (v c : ℕ) (xs : List ℕ) → c ≢ v → member c (remove v xs) ≡ member c xs
unfolding remove member
member-remove v c [] d = refl
member-remove v c (x ∷ xs) d = ground (arith, d, member-remove v c xs d)

-- Of `n` successive numbers one is not among fewer than `n`.
pigeonhole :
    (n c : ℕ) (xs : List ℕ)
    → n ≤ 2 ^ 32
    → length xs < n
    → (i : ℕ) × (((0 < i) × (i ≤ n)) × (member ((c + i) % 2 ^ 32) xs ≡ false))
pigeonhole zero c xs small h = absurd (omega arith)
pigeonhole (suc n) c xs small h =
    let v = (c + suc n) % 2 ^ 32 in
    elim (Bool-cases (member v xs)) [
      | inr free ↦ (suc n, ((omega arith, omega arith), free))
      | inl taken ↦
          let (i, ((lo, hi), free)) =
            pigeonhole n c (remove v xs) (omega arith) (omega (arith, length-remove v xs taken)) in
          let other : (c + i) % 2 ^ 32 ≢ v = omega (arith, lo, hi) in
          (i, ((lo, omega arith), sym (member-remove v ((c + i) % 2 ^ 32) xs other) ∙ free))
    ]

-- What the loop finds.
abbrev Found : List ℕ → Option ℕ → Type 0
Found xs none = false ≡ true
Found xs (some c) = (c < 2 ^ 32) × (member c xs ≡ false)

retry-Found :
    (n c i : ℕ) (xs : List ℕ)
    → 0 < i
    → i ≤ n
    → member ((c + i) % 2 ^ 32) xs ≡ false
    → Found xs (retry n c xs)
unfolding retry
retry-Found zero c i xs lo hi free = absurd (omega arith)
retry-Found (suc n) c i xs lo hi free =
    if_cases (Found xs) (member (add32 c 1) xs) (retry n (add32 c 1) xs) (some (add32 c 1))
      (λ taken.
        let later : i ≢ 1 = λ e.
          let same : (c + i) % 2 ^ 32 ≡ add32 c 1 = omega (arith, e) in
          let both = sym (ap (λ v. member v xs) same ∙ taken) ∙ free in ground (arith, both) in
        let there : (add32 c 1 + (i - 1)) % 2 ^ 32 ≡ (c + i) % 2 ^ 32 = omega (arith, lo) in
        retry-Found n (add32 c 1) (i - 1) xs (omega (arith, later)) (omega arith)
          (ap (λ v. member v xs) there ∙ free))
      (λ free'. (omega arith, free'))

-- Where the CCN of chunk `i` is.
abbrev pub ccn_place : ℕ → ℕ
ccn_place i = add32 (mul32 i size_of_chunk) last_purge_pos

module _ (ccn_of : ℕ → ℕ) (drive : Drive) where
  -- The array has the CCN of each chunk.
  abbrev Read : ℕ → ℕ → List ℕ → Type 0
  Read n i xs =
      (length xs ≡ n)
      × ((k : ℕ) → i ≤ k → k < i + n → member (ccn_of (drive.flash (ccn_place k))) xs ≡ true)

  read_ccns-Holds : (n i : ℕ) → Holds drive (Read n i) (read_ccns ccn_of drive n i)
  unfolding read_ccns member
  read_ccns-Holds zero i = (refl, λ k lo hi. absurd (omega arith))
  read_ccns-Holds (suc n) i =
      let place = ccn_place i in
      let own = ccn_of (drive.flash place) in
      if_cases (Holds drive (Read (suc n) i)) (drive.reads place)
        (and_then (read_ccns ccn_of drive n (i + 1)) (λ rest. finished (own ∷ rest)))
        (read_failed place)
        (λ _.
          and_then-Holds drive (Read n (i + 1)) (Read (suc n) i) (read_ccns ccn_of drive n (i + 1))
            _ (read_ccns-Holds n (i + 1))
            (λ rest (size, all). (
              omega (arith, size),
              λ k lo hi. elim (dec_eq k i) [
                | yes e ↦
                    let same : ccn_of (drive.flash (ccn_place k)) ≡ own =
                      ap (λ x. ccn_of (drive.flash (ccn_place x))) e in
                    ground (arith, same)
                | no d ↦ ground (arith, all k (omega arith) (omega arith))
              ],
            )))
        (λ e. e)

  -- What the number is.
  abbrev pub Fresh : ℕ → Option ℕ → Type 0
  Fresh max none = false ≡ true
  Fresh max (some c) = (c < 2 ^ 32) × ((i : ℕ) → i < max → ccn_of (drive.flash (ccn_place i)) ≢ c)

  Found-Fresh : (max : ℕ) (xs : List ℕ) (o : Option ℕ) → Read max 0 xs → Found xs o → Fresh max o
  Found-Fresh max xs none r f = f
  Found-Fresh max xs (some c) (size, all) (small, free) = (
    small,
    λ i h e.
        let both = sym (ap (λ v. member v xs) (sym e) ∙ all i (omega arith) (omega arith)) ∙ free in
        ground (arith, both),
  )

-- For a device of at most 500 chunks, whatever their CCNs, also where the greatest of them is the
-- greatest word: GetNewCCN ends, with a read that the drive fails, or within its rounds with a word
-- that is the CCN of no chunk.
pub get_new_ccn-Fresh :
    (ccn_of : ℕ → ℕ) (drive : Drive) (max : ℕ)
    → max ≤ 500
    → Holds drive (Fresh ccn_of drive max) (get_new_ccn ccn_of drive max)
unfolding get_new_ccn
get_new_ccn-Fresh ccn_of drive max few =
    and_then-Holds drive (Read ccn_of drive max 0) (Fresh ccn_of drive max)
      (read_ccns ccn_of drive max 0) _ (read_ccns-Holds ccn_of drive max 0)
      (λ xs r.
        let (i, ((lo, hi), free)) =
          pigeonhole (max + 1) (greatest 0 xs) xs (omega arith) (omega (arith, r.0)) in
        Found-Fresh ccn_of drive max xs (retry (max + 1) (greatest 0 xs) xs) r
          (retry-Found (max + 1) (greatest 0 xs) i xs lo hi free))
