-- ===== src/WritePath/Lengths.antt =====
-- driver/vscsi.c: how far the two loops of ExecuteWriteHandler run.
use fdlvling.Base.{
  ℕ, zero, suc, ◌+◌, ◌%◌, ◌^◌, ◌≤◌, ◌<◌, ◌≡◌, sym, ap, ◌∙◌, ◌&&◌, inl, inr, arith, add32, ltb, ◌==◌,
  ==_iff, Bool-cases, dec_lt,
}
use fdlvling.Store.{Store, not_mapped, last_cache_pos, get_cached_pos}
use fdlvling.WritePath.{hit_len, write_len}

-- What a run of the first loop from `len` up to `top` has seen.
pub record HitRun (s : Store) (pos lba len top : ℕ) : Type 0 where
  pub from : len ≤ top
  pub held :
      (k : ℕ) → len ≤ k → k < top → (pos + k < s.cache_pos) × (s.cache_lba (pos + k) ≡ lba + k)

pub hit_len-HitRun :
    (n len : ℕ) (s : Store) (pos lba : ℕ)
    → lba + len + n ≤ 2 ^ 32
    → HitRun s pos lba len (hit_len n len s pos lba) × (hit_len n len s pos lba ≤ len + n)
unfolding hit_len
hit_len-HitRun zero len s pos lba w =
    (record { from = omega arith; held = λ k lo hi. absurd (omega arith) }, omega arith)
hit_len-HitRun (suc n) len s pos lba w =
    elim (Bool-cases (ltb (pos + len) s.cache_pos && (s.cache_lba (pos + len) == add32 lba len))) [
      | inl t ↦
          let (h, b) = hit_len-HitRun n (len + 1) s pos lba (omega arith) in
          rw t (
            record {
              from = omega (arith, h.from);
              held = λ k lo hi. elim (dec_lt len k) [
                | yes more ↦ h.held k (omega arith) hi
                | no here ↦
                    let same : pos + k ≡ pos + len = omega arith in
                    (ground arith, ap s.cache_lba same ∙ ground arith)
              ];
            },
            omega (arith, b),
          )
      | inr f ↦
          rw f (record { from = omega arith; held = λ k lo hi. absurd (omega arith) }, omega arith)
    ]

-- What a run of the second loop from `len` up to `top` has seen.
pub record WriteRun (s : Store) (lba len top : ℕ) : Type 0 where
  pub from : len ≤ top
  pub inside : s.cache_pos + len ≤ last_cache_pos → s.cache_pos + top ≤ last_cache_pos
  pub free :
      (k : ℕ) → len ≤ k → k < top → (lba + k) % 8 ≡ 0 → get_cached_pos s (lba + k) ≡ not_mapped

WriteRun-stop : (s : Store) (lba len : ℕ) → WriteRun s lba len len
WriteRun-stop s lba len = record {
  from = omega arith;
  inside = λ h. h;
  free = λ k lo hi. absurd (omega arith);
}

WriteRun-grow :
    (s : Store) (lba len top : ℕ)
    → WriteRun s lba (len + 1) top
    → s.cache_pos + len < last_cache_pos
    → ((lba + len) % 8 ≡ 0 → get_cached_pos s (lba + len) ≡ not_mapped)
    → WriteRun s lba len top
WriteRun-grow s lba len top r h f = record {
  from = omega (arith, r.from);
  inside = λ _. r.inside (omega arith);
  free = λ k lo hi z. elim (dec_lt len k) [
    | yes more ↦ r.free k (omega arith) hi z
    | no here ↦
        let same : lba + k ≡ lba + len = omega arith in ap (get_cached_pos s) same ∙ f (omega arith)
  ];
}

pub write_len-WriteRun :
    (n len : ℕ) (s : Store) (lba : ℕ)
    → lba + len + n ≤ 2 ^ 32
    → WriteRun s lba len (write_len n len s s.cache_pos lba)
      × (write_len n len s s.cache_pos lba ≤ len + n)
unfolding write_len
write_len-WriteRun zero len s lba w = (WriteRun-stop s lba len, omega arith)
write_len-WriteRun (suc n) len s lba w =
    let (r, b) = write_len-WriteRun n (len + 1) s lba (omega arith) in
    elim (Bool-cases (ltb (s.cache_pos + len) last_cache_pos)) [
      | inr f ↦ rw f (WriteRun-stop s lba len, omega arith)
      | inl t ↦ elim (Bool-cases (add32 lba len % 8 == 0)) [
        | inr f ↦
            rw (t, f)
              (WriteRun-grow s lba len _ r (ground arith) (λ z. absurd (ground arith)), omega arith)
        | inl z ↦ elim (Bool-cases (get_cached_pos s (add32 lba len) == not_mapped)) [
          | inr f ↦ rw (t, z, f) (WriteRun-stop s lba len, omega arith)
          | inl u ↦
              let same : add32 lba len ≡ lba + len = omega arith in
              rw (t, z, u)
                (
                  WriteRun-grow s lba len _ r (ground arith)
                      (λ _. ap (get_cached_pos s) (sym same) ∙ (==_iff _ not_mapped).0 u),
                  omega arith,
                )
        ]
      ]
    ]
