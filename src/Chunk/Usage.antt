-- ===== src/Chunk/Usage.antt =====
-- driver/vscsi.c: ChunkInfo[c].Used counts the blocks that Map places in chunk c.
use fdlvling.Base.{
  ℕ, zero, suc, ◌+◌, ◌-◌, ◌*◌, ◌/◌, ◌%◌, ◌^◌, ◌≤◌, ◌<◌, ◌≡◌, ◌≢◌, refl, ap, sym, inl, inr, arith,
  add32, ltb, leb, ◌==◌, if◌then◌else◌, Bool-cases, ℕ_discrete as dec_eq,
}
use fdlvling.Store.{Store, not_mapped, size_of_chunk, update}
use fdlvling.Chunk.{use_less, use_more, map_block, map_blocks, update_map}

-- 1 if the place lies in chunk `c`, else 0.
abbrev pub in_chunk : ℕ → ℕ → ℕ
in_chunk c place = if place == not_mapped then 0 else if place / size_of_chunk == c then 1 else 0

-- The number of the first `n` blocks that are placed in chunk `c`.
unfoldable pub placed : ℕ → (ℕ → ℕ) → ℕ → ℕ
placed zero map c = 0
placed (suc n) map c = in_chunk c (map n) + placed n map c

pub placed-le : (n : ℕ) (map : ℕ → ℕ) (c : ℕ) → placed n map c ≤ n
unfolding placed
placed-le zero map c = omega arith
placed-le (suc n) map c = ground (arith, placed-le n map c)

placed-update_above :
    (n : ℕ) (map : ℕ → ℕ) (j v c : ℕ) → n ≤ j → placed n (update map j v) c ≡ placed n map c
unfolding placed
placed-update_above zero map j v c h = refl
placed-update_above (suc n) map j v c h = ground (arith, placed-update_above n map j v c)

pub placed-update :
    (n : ℕ) (map : ℕ → ℕ) (j v c : ℕ)
    → j < n
    → placed n (update map j v) c + in_chunk c (map j) ≡ placed n map c + in_chunk c v
unfolding placed
placed-update zero map j v c h = absurd (omega arith)
placed-update (suc n) map j v c h = elim (dec_eq j n) [
  | yes e ↦ rw e (ground (arith, placed-update_above n map n v c))
  | no d ↦
      let rest = placed-update n map j v c (omega arith) in
      let other : update map j v n ≡ map n = ground arith in rw other (omega (arith, rest))
]

-- A block that is placed in a chunk counts.
pub placed_pos :
    (n : ℕ) (map : ℕ → ℕ) (j : ℕ)
    → j < n
    → map j ≢ not_mapped
    → 0 < placed n map (map j / size_of_chunk)
unfolding placed
placed_pos zero map j h m = absurd (omega arith)
placed_pos (suc n) map j h m = elim (dec_eq j n) [
  | yes e ↦ let same : map n ≡ map j = ap map (sym e) in ground (arith, same)
  | no d ↦ omega (arith, placed_pos n map j (omega arith) m)
]

-- The counts are right, and the map is short enough for them.
pub record Counted (s : Store) : Type 0 where
  pub short : s.size_of_map < 2 ^ 32
  pub right : (c : ℕ) → (s.chunk_info c).used ≡ placed s.size_of_map s.map c

module _ (s : Store) (v : Counted s) (chunk lba plba : ℕ) (at : plba / size_of_chunk ≡ chunk)
    (real : plba ≢ not_mapped) where
  -- Used-- does not go below 0: the ASSERT of UpdateMap.
  pub used_pos :
      lba / 8 < s.size_of_map
      → s.map (lba / 8) ≢ not_mapped
      → 0 < (s.chunk_info (s.map (lba / 8) / size_of_chunk)).used
  used_pos h m = omega (
    arith,
    v.right (s.map (lba / 8) / size_of_chunk),
    placed_pos s.size_of_map s.map (lba / 8) h m,
  )

  -- One entry of UpdateMap keeps the counts right.
  pub map_block-Counted : Counted (map_block s chunk lba plba)
  unfolding map_block use_less use_more
  map_block-Counted =
      let j = lba / 8 in
      let old = s.map j in
      elim (Bool-cases (leb s.size_of_map j)) [
        | inl out ↦ rw out v
        | inr inside ↦
            let small : j < s.size_of_map = ground arith in
            elim (Bool-cases (old == not_mapped)) [
              | inl fresh ↦
                  rw (inside, fresh)
                    (record {
                      short = v.short;
                      right = λ c. ground (
                        arith,
                        v.right c,
                        v.right chunk,
                        placed-update s.size_of_map s.map j plba c small,
                        placed-le s.size_of_map s.map chunk,
                        placed-le s.size_of_map (update s.map j plba) c,
                      );
                    })
              | inr moved ↦
                  elim (Bool-cases
                    (ltb (s.chunk_info chunk).scn (s.chunk_info (old / size_of_chunk)).scn)) [
                      | inl newer ↦ rw (inside, moved, newer) v
                      | inr older ↦
                          rw (inside, moved, older)
                            (record {
                              short = v.short;
                              right = λ c. ground (
                                arith,
                                v.right c,
                                v.right chunk,
                                v.right (old / size_of_chunk),
                                used_pos small,
                                placed-update s.size_of_map s.map j plba c small,
                                placed-le s.size_of_map s.map chunk,
                                placed-le s.size_of_map (update s.map j plba) c,
                                placed-le s.size_of_map s.map (old / size_of_chunk),
                              );
                            })
                    ]
            ]
      ]

pub map_blocks-Counted :
    (n k : ℕ) (s : Store) (chunk : ℕ) (lbas : ℕ → ℕ) (plba : ℕ)
    → Counted s
    → size_of_chunk * chunk ≤ plba
    → plba + 8 * n ≤ size_of_chunk * chunk + size_of_chunk
    → chunk < 2 ^ 14 - 1
    → Counted (map_blocks n k s chunk lbas plba)
unfolding map_blocks
map_blocks-Counted zero k s chunk lbas plba v lo hi c = v
map_blocks-Counted (suc n) k s chunk lbas plba v lo hi c =
    map_blocks-Counted n (k + 1) (map_block s chunk (lbas k) plba) chunk lbas (add32 plba 8)
      (map_block-Counted s v chunk (lbas k) plba (omega arith) (omega arith)) (omega arith)
      (omega arith) c

-- Where the counts are right, for a run of sectors that stays in its chunk and a chunk number
-- below 2 ^ 14 - 1 (there are 500 chunks at most): UpdateMap leaves the counts right.
pub update_map-Counted :
    (s : Store) (lbas : ℕ → ℕ) (sectors plba : ℕ)
    → Counted s
    → plba % size_of_chunk + sectors + 7 ≤ size_of_chunk
    → plba / size_of_chunk < 2 ^ 14 - 1
    → Counted (update_map s lbas sectors plba)
unfolding update_map
update_map-Counted s lbas sectors plba v h c =
    map_blocks-Counted ((sectors + 7) / 8) 0 s (plba / size_of_chunk) lbas plba v (omega arith)
      (omega arith) c
