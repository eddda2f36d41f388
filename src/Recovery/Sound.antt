-- ===== src/Recovery/Sound.antt =====
-- driver/recovery.c: the map that a recovery rebuilds is sound, whatever the structures on the drive say.
use fdlvling.Base.{
  ℕ, ◌+◌, ◌*◌, ◌/◌, ◌%◌, ◌≤◌, ◌<◌, ◌≡◌, refl, ap, ◌∙◌, ◌⊎◌, inr, arith, add32, mul32, ltb, if_cases,
}
use fdlvling.Store.{Store, ChunkInfo, not_mapped, size_of_chunk, last_purge_pos}
use fdlvling.Chunk.{update_map}
use fdlvling.Chunk.Usage.{Counted, update_map-Counted}
use fdlvling.Chunk.Placement.{map_blocks-only, map_blocks-places}
use fdlvling.Recovery.{raise_wcn, set_scn}

-- The place of block `j` is whole, in the part of a chunk that holds data.
abbrev pub InData : Store → ℕ → ℕ → Type 0
InData s j place =
    (place ≡ not_mapped)
    ⊎ ((j < s.size_of_map)
        × (place % 8 ≡ 0)
        × (place / size_of_chunk < s.max_chunks)
        × (place % size_of_chunk + 8 ≤ last_purge_pos))

-- The map and the use of the chunks agree, and every place is one.
pub record Sound (s : Store) : Type 0 where
  pub counted : Counted s
  pub places : (j : ℕ) → InData s j (s.map j)

-- What UpdateMap leaves of the rest of the context.
pub update_map-only :
    (s : Store) (lbas : ℕ → ℕ) (sectors plba : ℕ)
    → update_map s lbas sectors plba ≡ record s {
      map = (update_map s lbas sectors plba).map;
      chunk_info = (update_map s lbas sectors plba).chunk_info;
    }
unfolding update_map
update_map-only s lbas sectors plba =
    map_blocks-only ((sectors + 7) / 8) 0 s (plba / size_of_chunk) lbas plba

pub update_map-Sound :
    (s : Store) (lbas : ℕ → ℕ) (sectors chunk pos : ℕ)
    → Sound s
    → s.max_chunks ≤ 500
    → chunk < s.max_chunks
    → pos % 8 ≡ 0
    → sectors % 8 ≡ 0
    → pos + sectors ≤ last_purge_pos
    → Sound (update_map s lbas sectors (add32 (mul32 chunk size_of_chunk) pos))
unfolding update_map
update_map-Sound s lbas sectors chunk pos v few c whole whole' h =
    let plba = add32 (mul32 chunk size_of_chunk) pos in
    let place : plba ≡ size_of_chunk * chunk + pos = omega arith in
    let e = update_map-only s lbas sectors plba in
    record {
      counted = update_map-Counted s lbas sectors plba v.counted (omega arith) (omega arith);
      places = λ j.
          rw (ap (λ (u : Store). u.size_of_map) e, ap (λ (u : Store). u.max_chunks) e)
            (map_blocks-places (InData s) ((sectors + 7) / 8) 0 s (plba / size_of_chunk) lbas plba
              v.places (λ j' i small lt. inr (small, omega arith, omega arith, omega arith))
              (omega arith) j);
    }

-- Changes of SCN and WCN.
pub infos-Sound :
    (s : Store) (infos : ℕ → ChunkInfo)
    → ((c : ℕ) → (infos c).used ≡ (s.chunk_info c).used)
    → Sound s
    → Sound (record s { chunk_info = infos })
infos-Sound s infos same v = record {
  counted = record { short = v.counted.short; right = λ c. same c ∙ v.counted.right c };
  places = v.places;
}

pub raise_wcn-used :
    (infos : ℕ → ChunkInfo) (c wcn d : ℕ) → (raise_wcn infos c wcn d).used ≡ (infos d).used
unfolding raise_wcn
raise_wcn-used infos c wcn d =
    if_cases (λ (f : ℕ → ChunkInfo). (f d).used ≡ (infos d).used) (ltb (infos c).wcn wcn) _ infos
      (λ _. ground arith) (λ _. refl)

pub set_scn-used :
    (infos : ℕ → ChunkInfo) (c scn d : ℕ) → (set_scn infos c scn d).used ≡ (infos d).used
unfolding set_scn
set_scn-used infos c scn d = ground arith
