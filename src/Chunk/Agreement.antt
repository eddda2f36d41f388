-- ===== src/Chunk/Agreement.antt =====
-- driver/vscsi.c: UpdateMap leaves the same map in contexts with the same map.
use fdlvling.Base.{ℕ, zero, suc, ◌+◌, ◌/◌, ◌≤◌, ◌<◌, ◌≡◌, sym, ◌∙◌, arith, add32}
use fdlvling.Store.{Store}
use fdlvling.Chunk.{map_block, map_blocks}
use fdlvling.Chunk.Placement.{Newest, Newest-map_block, size_of_map-map_block, map_block-map}

-- UpdateMap of the blocks that are cached, and UpdateMap of a whole PURGE_CTL whose other entries
-- name no block of the map.
pub map_blocks-agree :
    (m n k : ℕ) (s r : Store) (chunk : ℕ) (lbas lbas' : ℕ → ℕ) (plba x : ℕ)
    → Newest s chunk
    → Newest r chunk
    → s.size_of_map ≡ r.size_of_map
    → ((j : ℕ) → s.map j ≡ r.map j)
    → n ≤ m
    → ((i : ℕ) → k ≤ i → i < k + n → lbas i ≡ lbas' i)
    → ((i : ℕ) → k + n ≤ i → i < k + m → s.size_of_map ≤ lbas' i / 8)
    → (map_blocks n k s chunk lbas plba).map x ≡ (map_blocks m k r chunk lbas' plba).map x
unfolding map_blocks
map_blocks-agree zero zero k s r chunk lbas lbas' plba x v w e same le h out = same x
map_blocks-agree zero (suc n) k s r chunk lbas lbas' plba x v w e same le h out =
    absurd (omega arith)
map_blocks-agree (suc m) zero k s r chunk lbas lbas' plba x v w e same le h out =
    let r' = map_block r chunk (lbas' k) plba in
    map_blocks-agree m zero (k + 1) s r' chunk lbas lbas' (add32 plba 8) x v
      (Newest-map_block r chunk (lbas' k) plba w)
      (e ∙ sym (size_of_map-map_block r chunk (lbas' k) plba))
      (λ j. ground (
        arith,
        same j,
        e,
        map_block-map r chunk (lbas' k) plba j w,
        out k (omega arith) (omega arith),
      ))
      (omega arith) (λ i lo hi. absurd (omega arith)) (λ i lo hi. out i (omega arith) (omega arith))
map_blocks-agree (suc m) (suc n) k s r chunk lbas lbas' plba x v w e same le h out =
    let s' = map_block s chunk (lbas k) plba in
    let r' = map_block r chunk (lbas' k) plba in
    map_blocks-agree m n (k + 1) s' r' chunk lbas lbas' (add32 plba 8) x
      (Newest-map_block s chunk (lbas k) plba v) (Newest-map_block r chunk (lbas' k) plba w)
      (size_of_map-map_block s chunk (lbas k) plba
        ∙ e
        ∙ sym (size_of_map-map_block r chunk (lbas' k) plba))
      (λ j. ground (
        arith,
        same j,
        e,
        h k,
        map_block-map s chunk (lbas k) plba j v,
        map_block-map r chunk (lbas' k) plba j w,
      ))
      (omega arith) (λ i lo hi. h i (omega arith) (omega arith))
      (λ i lo hi.
        omega
          (arith, size_of_map-map_block s chunk (lbas k) plba, out i (omega arith) (omega arith)))
