-- ===== src/WritePath/Switch.antt =====
-- driver/vscsi.c: where the current chunk is full and finalized, ExecuteWriteHandler goes on in the
-- next one.
use fdlvling.Base.{
  ℕ, ◌+◌, ◌/◌, ◌^◌, ◌≤◌, ◌<◌, ◌≡◌, ◌≢◌, refl, ap, inl, inr, arith, add32, ◌==◌, if◌then◌else◌,
}
use fdlvling.Store.{
  Store, Flash, not_mapped, size_of_chunk, size_of_cache, update, get_cached_pos, view,
}
use fdlvling.Chunk.{purge_place, find_next_chunk}
use fdlvling.Chunk.Usage.{placed_pos}
use fdlvling.Chunk.Placement.{Newest}
use fdlvling.Chunk.Purge.{CanPurge}
use fdlvling.Chunk.Choice.{find_next_chunk-best}
use fdlvling.Recovery.Sound.{Sound}

-- The next chunk becomes the current one, the newest of all.
unfoldable pub begin_chunk : Store → Store
begin_chunk s =
    let next = s.next_chunk_no in
    let start = if 0 == next then size_of_cache else 0 in
    let info = record (s.chunk_info next) { scn = add32 (s.chunk_info s.chunk_no).scn 1 } in
    record s {
      chunk_info = update s.chunk_info next info;
      chunk_no = next;
      purge_pos = start;
      finalized_pos = start;
    }

-- FindNextChunk then chooses another.
unfoldable pub switch_chunk : Store → Store
unfolding find_next_chunk begin_chunk
switch_chunk s = find_next_chunk (begin_chunk s)

-- When the handler switches: its ASSERTs hold (the cache is empty, and no block is in use in the next
-- chunk), the map is sound, and the sequence number of the current chunk, which is the newest, is not the last.
pub record CanSwitch (s : Store) : Type 0 where
  pub sound : Sound s
  pub newest : Newest s s.chunk_no
  pub not_last : (s.chunk_info s.chunk_no).scn + 1 < 2 ^ 32
  pub few : s.max_chunks ≤ 500
  pub next_in : s.next_chunk_no < s.max_chunks
  pub next_unused : (s.chunk_info s.next_chunk_no).used ≡ 0
  pub empty : s.cache_pos ≡ 0

-- No block of the map lies in the next chunk.
pub not-next :
    (s : Store) (j : ℕ)
    → CanSwitch s
    → j < s.size_of_map
    → s.map j ≢ not_mapped
    → s.map j / size_of_chunk ≢ s.next_chunk_no
not-next s j v small there e =
    let counted = v.sound.counted in
    omega (
      arith,
      placed_pos s.size_of_map s.map j small there,
      counted.right (s.map j / size_of_chunk),
      v.next_unused,
      ap (λ c. (s.chunk_info c).used) e,
    )

-- Where the handler may switch: afterwards every sector has the contents that it had, the map is sound,
-- the use of the chunks is counted right, and the cache, once it is filled, may be purged: the new chunk is the newest and
-- has room, and no block lies where the cache goes.
pub switch_chunk-CanPurge :
    (s : Store) (flash : Flash)
    → CanSwitch s
    → let t = switch_chunk s in (CanPurge t × Sound t) × ((x : ℕ) → view t flash x ≡ view s flash x)
unfolding switch_chunk begin_chunk find_next_chunk purge_place view get_cached_pos
switch_chunk-CanPurge s flash v = (
  (
    record {
      whole = omega (arith, v.empty);
      mapped = λ p lt. absurd (omega (arith, v.empty));
      newest = λ c. ground (arith, v.newest c, v.newest s.next_chunk_no, v.not_last);
      chunk_small = omega (arith, v.next_in, v.few);
      has_room = ground arith;
      unused = λ j there. elim (v.sound.places j) [
        | inl none ↦ absurd (there none)
        | inr (small, whole, inside, last) ↦
            let other = not-next s j v small there in ground (arith, other, whole, v.next_in, v.few)
      ];
    },
    record {
      counted = record {
        short = v.sound.counted.short;
        right = λ c. ground (arith, v.sound.counted.right c);
      };
      places = v.sound.places;
    },
  ),
  λ x. refl,
)

-- The chunk that is chosen then is another one.
pub switch_chunk-next :
    (s : Store)
    → 2 ≤ s.max_chunks
    → let t = switch_chunk s in (t.next_chunk_no < t.max_chunks) × (t.next_chunk_no ≢ t.chunk_no)
unfolding switch_chunk begin_chunk
switch_chunk-next s two = elim (find_next_chunk-best (begin_chunk s) two) [
  | inl (other, inside, ok, rest) ↦ (inside, other)
  | inr (none_eligible, (other, inside, ok, rest)) ↦ (inside, other)
]
