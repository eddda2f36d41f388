-- ===== src/Chunk/Placement.antt =====
-- driver/vscsi.c: where Map places each block after UpdateMap.
use fdlvling.Base.{
  ℕ, zero, suc, ◌+◌, ◌-◌, ◌*◌, ◌/◌, ◌^◌, ◌≤◌, ◌<◌, ◌≡◌, ◌≢◌, refl, ap, ◌∙◌, ◌&&◌, arith, add32, ltb,
  ◌==◌, leb, if◌then◌else◌, if_cases, dec_lt, sym,
}
use fdlvling.Store.{Store, size_of_chunk, not_mapped, update}
use fdlvling.Chunk.{use_less, use_more, map_block, map_blocks}

-- No chunk was started after `chunk`.
abbrev pub Newest : Store → ℕ → Type 0
Newest s chunk = (c : ℕ) → (s.chunk_info c).scn ≤ (s.chunk_info chunk).scn

-- UpdateMap changes neither the sequence numbers of the chunks nor the size of the map.
scn-map_block :
    (s : Store) (chunk lba plba c : ℕ)
    → ((map_block s chunk lba plba).chunk_info c).scn ≡ (s.chunk_info c).scn
unfolding map_block use_less use_more
scn-map_block s chunk lba plba c = ground arith

pub size_of_map-map_block :
    (s : Store) (chunk lba plba : ℕ) → (map_block s chunk lba plba).size_of_map ≡ s.size_of_map
unfolding map_block
size_of_map-map_block s chunk lba plba = ground arith

pub Newest-map_block :
    (s : Store) (chunk lba plba : ℕ) → Newest s chunk → Newest (map_block s chunk lba plba) chunk
Newest-map_block s chunk lba plba n c =
    omega (arith, n c, scn-map_block s chunk lba plba c, scn-map_block s chunk lba plba chunk)

-- Where no chunk is newer, an entry places its block, and no other.
pub map_block-map :
    (s : Store) (chunk lba plba x : ℕ)
    → Newest s chunk
    → (map_block s chunk lba plba).map x
      ≡ (if (lba / 8 == x) && ltb x s.size_of_map then plba else s.map x)
unfolding map_block
map_block-map s chunk lba plba x n = ground (arith, n (s.map (lba / 8) / size_of_chunk))

-- A block that no entry names stays where it is.
pub map_blocks-other :
    (n k : ℕ) (s : Store) (chunk : ℕ) (lbas : ℕ → ℕ) (plba x : ℕ)
    → Newest s chunk
    → ((i : ℕ) → k ≤ i → i < k + n → lbas i / 8 ≢ x)
    → (map_blocks n k s chunk lbas plba).map x ≡ s.map x
unfolding map_blocks
map_blocks-other zero k s chunk lbas plba x v h = refl
map_blocks-other (suc n) k s chunk lbas plba x v h =
    map_blocks-other n (k + 1) (map_block s chunk (lbas k) plba) chunk lbas (add32 plba 8) x
      (Newest-map_block s chunk (lbas k) plba v) (λ i lo hi. h i (omega arith) (omega arith))
    ∙ ground (arith, map_block-map s chunk (lbas k) plba x v, h k)

-- A block is placed where its last entry says.
pub map_blocks-last :
    (n k : ℕ) (s : Store) (chunk : ℕ) (lbas : ℕ → ℕ) (plba i : ℕ)
    → Newest s chunk
    → k ≤ i
    → i < k + n
    → lbas i / 8 < s.size_of_map
    → plba + 8 * n < 2 ^ 32
    → ((i' : ℕ) → i < i' → i' < k + n → lbas i' / 8 ≢ lbas i / 8)
    → (map_blocks n k s chunk lbas plba).map (lbas i / 8) ≡ plba + 8 * (i - k)
unfolding map_blocks
map_blocks-last zero k s chunk lbas plba i v lo hi small w h = absurd (omega arith)
map_blocks-last (suc n) k s chunk lbas plba i v lo hi small w h =
    let s' = map_block s chunk (lbas k) plba in
    let v' = Newest-map_block s chunk (lbas k) plba v in
    elim (dec_lt k i) [
      | yes later ↦
          map_blocks-last n (k + 1) s' chunk lbas (add32 plba 8) i v' (omega arith) (omega arith)
            (omega (arith, size_of_map-map_block s chunk (lbas k) plba)) (omega arith)
            (λ i' p q. h i' p (omega arith))
          ∙ omega arith
      | no here ↦
          let same : lbas i / 8 ≡ lbas k / 8 = ap (λ t. lbas t / 8) (omega arith) in
          map_blocks-other n (k + 1) s' chunk lbas (add32 plba 8) (lbas i / 8) v'
            (λ i' p q. h i' (omega arith) (omega arith))
          ∙ ground (arith, map_block-map s chunk (lbas k) plba (lbas i / 8) v)
    ]

-- UpdateMap changes the map and the use of the chunks only.
map_block-only :
    (s : Store) (chunk lba plba : ℕ)
    → map_block s chunk lba plba ≡ record s {
      map = (map_block s chunk lba plba).map;
      chunk_info = (map_block s chunk lba plba).chunk_info;
    }
unfolding map_block
map_block-only s chunk lba plba =
    let X = λ (u : Store). u ≡ record s { map = u.map; chunk_info = u.chunk_info } in
    if_cases X (leb s.size_of_map (lba / 8)) _ _ (λ _. refl)
      (λ _.
        if_cases X (s.map (lba / 8) == not_mapped) _ _ (λ _. refl)
          (λ _.
            if_cases X
              (ltb (s.chunk_info chunk).scn (s.chunk_info (s.map (lba / 8) / size_of_chunk)).scn) _
              _ (λ _. refl) (λ _. refl)))

pub map_blocks-only :
    (n k : ℕ) (s : Store) (chunk : ℕ) (lbas : ℕ → ℕ) (plba : ℕ)
    → map_blocks n k s chunk lbas plba ≡ record s {
      map = (map_blocks n k s chunk lbas plba).map;
      chunk_info = (map_blocks n k s chunk lbas plba).chunk_info;
    }
unfolding map_blocks
map_blocks-only zero k s chunk lbas plba = refl
map_blocks-only (suc n) k s chunk lbas plba =
    let rest = map_blocks n (k + 1) (map_block s chunk (lbas k) plba) chunk lbas (add32 plba 8) in
    map_blocks-only n (k + 1) (map_block s chunk (lbas k) plba) chunk lbas (add32 plba 8)
    ∙ ap (λ (u : Store). record u { map = rest.map; chunk_info = rest.chunk_info })
        (map_block-only s chunk (lbas k) plba)

-- The fields of the log that are not the map's.
pub map_blocks-kept :
    (n k : ℕ) (s : Store) (chunk : ℕ) (lbas : ℕ → ℕ) (plba : ℕ)
    → let t = map_blocks n k s chunk lbas plba in
      (t.chunk_no ≡ s.chunk_no) × (t.finalizing ≡ s.finalizing)
map_blocks-kept n k s chunk lbas plba =
    let e = map_blocks-only n k s chunk lbas plba in
    (ap (λ (u : Store). u.chunk_no) e, ap (λ (u : Store). u.finalizing) e)

pub map_blocks-scn :
    (n k : ℕ) (s : Store) (chunk : ℕ) (lbas : ℕ → ℕ) (plba c : ℕ)
    → ((map_blocks n k s chunk lbas plba).chunk_info c).scn ≡ (s.chunk_info c).scn
unfolding map_blocks
map_blocks-scn zero k s chunk lbas plba c = refl
map_blocks-scn (suc n) k s chunk lbas plba c =
    map_blocks-scn n (k + 1) (map_block s chunk (lbas k) plba) chunk lbas (add32 plba 8) c
    ∙ scn-map_block s chunk (lbas k) plba c

-- What holds of every place on the map, and of the places that the entries give, holds afterwards.
map_block-places :
    (P : ℕ → ℕ → Type 0) (s : Store) (chunk lba plba : ℕ)
    → ((j : ℕ) → P j (s.map j))
    → ((j : ℕ) → j < s.size_of_map → P j plba)
    → (j : ℕ) → P j ((map_block s chunk lba plba).map j)
unfolding map_block
map_block-places P s chunk lba plba h new j =
    let X = λ (u : Store). P j (u.map j) in
    let fresh : lba / 8 < s.size_of_map → P j (update s.map (lba / 8) plba j) = λ small.
      if_cases (P j) (lba / 8 == j) plba (s.map j)
        (λ e. let same : lba / 8 ≡ j = ground (arith, e) in new j (omega arith)) (λ _. h j) in
    if_cases X (leb s.size_of_map (lba / 8)) s _ (λ _. h j)
      (λ inside.
        let small : lba / 8 < s.size_of_map = ground (arith, inside) in
        if_cases X (s.map (lba / 8) == not_mapped) _ _ (λ _. fresh small)
          (λ _.
            if_cases X
              (ltb (s.chunk_info chunk).scn (s.chunk_info (s.map (lba / 8) / size_of_chunk)).scn) s
              _ (λ _. h j) (λ _. fresh small)))

pub map_blocks-places :
    (P : ℕ → ℕ → Type 0) (n k : ℕ) (s : Store) (chunk : ℕ) (lbas : ℕ → ℕ) (plba : ℕ)
    → ((j : ℕ) → P j (s.map j))
    → ((j i : ℕ) → j < s.size_of_map → i < n → P j (plba + 8 * i))
    → plba + 8 * n < 2 ^ 32
    → (j : ℕ) → P j ((map_blocks n k s chunk lbas plba).map j)
unfolding map_blocks
map_blocks-places P zero k s chunk lbas plba h new w j = h j
map_blocks-places P (suc n) k s chunk lbas plba h new w j =
    map_blocks-places P n (k + 1) (map_block s chunk (lbas k) plba) chunk lbas (add32 plba 8)
      (map_block-places P s chunk (lbas k) plba h (λ i small.
        let e : plba + 8 * 0 ≡ plba = omega arith in rw (sym e) (new i 0 small (omega arith))))
      (λ i m small lt.
        let e : add32 plba 8 + 8 * m ≡ plba + 8 * (m + 1) = omega (arith, lt) in
        rw e (
          new i (m + 1) (omega (arith, size_of_map-map_block s chunk (lbas k) plba)) (omega arith)))
      (omega arith) j
