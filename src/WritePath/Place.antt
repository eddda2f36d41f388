-- ===== src/WritePath/Place.antt =====
-- driver/vscsi.c: a round of ExecuteWriteHandler against the contents that the clients see.
use fdlvling.Base.{
  ℕ, ◌+◌, ◌-◌, ◌*◌, ◌/◌, ◌%◌, ◌^◌, ◌≤◌, ◌<◌, ◌≡◌, ◌≢◌, ap, ◌∙◌, inl, inr, arith, add32, leb, ◌==◌,
  ==_iff, if◌then◌else◌, Bool-cases,
}
use fdlvling.Store.{Store, Flash, not_mapped, last_cache_pos, block_start, get_cached_pos}
use fdlvling.Store.Lookup.{WellFormed, entry, get_cached_pos_lem, missing}
use fdlvling.Store.Append.{Appends}
use fdlvling.Store.Cache.{OneBlock}
use fdlvling.WritePath.{write_place}
use fdlvling.WritePath.Outcome.{PlacedRight, cache_hit-right, cache_write-right, fill_block-right}

module _ (s : Store) (flash : Flash) (w : WellFormed s.cache_lba s.cache_pos) where
  -- The rest of the block that the end of the cache stands in.
  pub rest_of_block :
      s.cache_pos < last_cache_pos
      → s.cache_pos % 8 ≢ 0
      → s.cache_lba (s.cache_pos - 1) < 2 ^ 32
      → Appends s (add32 (s.cache_lba (s.cache_pos - 1)) 1) (8 - s.cache_pos % 8)
        × OneBlock (add32 (s.cache_lba (s.cache_pos - 1)) 1) (8 - s.cache_pos % 8)
  rest_of_block room begun word =
      let (own, start) = entry s.cache_lba s.cache_pos w (s.cache_pos - 1) (omega arith) in
      (
        record {
          some_len = omega arith;
          room = omega arith;
          place = omega arith;
          next = λ _. omega arith;
          new = λ k p h z lt at. absurd (omega arith);
          word = omega arith;
        },
        omega arith,
      )

  -- The block of a sector that is not in the cache, where the cache ends with whole blocks.
  block_of :
      (lba n : ℕ)
      → s.cache_pos < last_cache_pos
      → s.cache_pos % 8 ≡ 0
      → 0 < n
      → n ≤ 8
      → lba < 2 ^ 32
      → get_cached_pos s lba ≡ not_mapped
      → Appends s (block_start lba) n × OneBlock (block_start lba) n
  block_of lba n room whole some_n small word gone = (
    record {
      some_len = some_n;
      room = omega arith;
      place = omega arith;
      next = λ z. absurd (omega arith);
      new = λ k p h z lt at.
          let (own, start) = entry s.cache_lba s.cache_pos w p lt in
          let run = w.runs (p / 8) (lba % 8) (omega arith) (omega arith) in
          missing s lba (8 * (p / 8) + lba % 8) w gone (omega arith) (omega arith);
      word = omega arith;
    },
    omega arith,
  )

-- Where the cache is well-formed and holds 32-bit sector numbers, for a request of at least one
-- sector within 32 bits: a round of ExecuteWriteHandler that goes on keeps the cache well-formed,
-- writes the first `n` sectors that are left of the request and changes the contents of no other
-- sector, and it makes progress: it writes a sector or lets the cache grow; it changes only the
-- cache, which stays on the map and keeps the entries that it had. A round that asks for
-- the cache to be purged found the cache full. A round that asks for sectors from the drive asks
-- for a part of one mapped block that may go to the end of the cache.
pub write_place-right :
    (s : Store) (flash : Flash) (lba len : ℕ) (source : ℕ → ℕ)
    → WellFormed s.cache_lba s.cache_pos
    → ((p : ℕ) → p < s.cache_pos → s.cache_lba p < 2 ^ 32)
    → 0 < len
    → lba + len < 2 ^ 32
    → PlacedRight s flash lba len source (write_place s lba len source)
unfolding write_place
write_place-right s flash lba len source w words some_len word =
    elim (Bool-cases (get_cached_pos s lba == not_mapped)) [
      | inr there ↦
          let (lt, at) = (get_cached_pos_lem s lba w).1 (ground arith) in
          rw there (
            cache_hit-right s flash w (get_cached_pos s lba) lba len source some_len (omega arith)
              lt at)
      | inl gone ↦ elim (Bool-cases (leb last_cache_pos s.cache_pos)) [
        | inl full ↦ rw (gone, full) (ground (arith, w.fits))
        | inr room ↦
            let missed : get_cached_pos s lba ≡ not_mapped = (==_iff _ not_mapped).0 gone in
            let fits : s.cache_pos < last_cache_pos = ground arith in
            elim (Bool-cases (s.cache_pos % 8 == 0)) [
              | inr begun ↦
                  let open_block : s.cache_pos % 8 ≢ 0 = ground arith in
                  let (a, o) =
                    rest_of_block s flash w fits open_block
                      (words (s.cache_pos - 1) (omega arith)) in
                  elim (Bool-cases (add32 (s.cache_lba (s.cache_pos - 1)) 1 == lba)) [
                    | inl next ↦
                        rw (gone, room, begun, next)
                          (cache_write-right s flash w lba len source some_len (omega arith) fits
                            (a.place ∙ ap (λ (t : ℕ). t % 8) ((==_iff _ lba).0 next))
                            (λ z. a.next z ∙ (==_iff _ lba).0 next) missed)
                    | inr apart ↦
                        rw (gone, room, begun, apart)
                          (fill_block-right s flash w lba len _ _ source a o (λ m.
                            let (own, start) =
                              entry s.cache_lba s.cache_pos w (s.cache_pos - 1) (omega arith) in
                            omega (
                              arith,
                              m.0 (s.cache_pos - 1) (omega arith),
                              words (s.cache_pos - 1) (omega arith),
                            )))
                  ]
              | inl whole ↦ elim (Bool-cases (lba % 8 == 0)) [
                | inl start ↦
                    rw (gone, room, whole, start)
                      (cache_write-right s flash w lba len source some_len (omega arith) fits
                        (ground arith) (λ z. absurd (ground arith)) missed)
                | inr inside ↦
                    let n : ℕ =
                      if block_start lba == block_start (add32 lba len) then 8 else lba % 8 in
                    let (a, o) =
                      block_of s flash w lba n fits (ground arith) (ground arith) (ground arith)
                        (omega arith) missed in
                    rw (gone, room, whole, inside)
                      (fill_block-right s flash w lba len _ n source a o
                        (λ m. omega (arith, m.1 0 some_len)))
              ]
            ]
      ]
    ]
