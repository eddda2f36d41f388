-- ===== src/WriteRequest/Invariant.antt =====
-- driver/vscsi.c: what holds of the context and the drive between the rounds of write requests.
use fdlvling.Base.{
  ℕ, ◌+◌, ◌*◌, ◌/◌, ◌%◌, ◌≤◌, ◌<◌, ◌≡◌, ◌≢◌, sym, ap, ◌∙◌, ◌⊎◌, inl, inr, true, false, arith,
  dec_lt,
}
use fdlvling.Store.{Store, Flash, not_mapped, size_of_chunk, size_of_cache, last_purge_pos, view}
use fdlvling.Store.Lookup.{WellFormed}
use fdlvling.Chunk.Placement.{Newest}
use fdlvling.Chunk.Purge.{CanPurge}
use fdlvling.Chunk.{purge_place}
use fdlvling.Recovery.Sound.{Sound}
use fdlvling.Relocation.{in_use}
use fdlvling.Relocation.Blocks.{LogState, log_of, Relocating, Relocated}
use fdlvling.WriteRequest.Remaining.{progress_of, Fits}

-- The log: a sound map, the current chunk the newest, another one next, and the blocks of the current
-- chunk before the place of the next purge.
pub record Log (s : Store) : Type 0 where
  pub sound : Sound s
  pub map_small : s.size_of_map ≤ 0x1fffffff
  pub few : s.max_chunks ≤ 500
  pub chunk_in : s.chunk_no < s.max_chunks
  pub next_in : s.next_chunk_no < s.max_chunks
  pub other : s.next_chunk_no ≢ s.chunk_no
  pub newest : Newest s s.chunk_no
  pub pos_whole : s.purge_pos % size_of_cache ≡ 0
  pub pos_in : s.purge_pos ≤ last_purge_pos
  pub behind :
      (j : ℕ)
      → s.map j ≢ not_mapped
      → s.map j / size_of_chunk ≡ s.chunk_no
      → s.map j % size_of_chunk + 8 ≤ s.purge_pos

-- The window of the relocation, once it is prepared.
pub record Window (s : Store) (flash : Flash) : Type 0 where
  pub pos_whole : s.relocate_pos % 8 ≡ 0
  pub pos_in : s.relocate_pos ≤ last_purge_pos
  pub start_whole : s.relocate_window_start % 8 ≡ 0
  pub end_whole : s.relocate_window_end % 8 ≡ 0
  pub window_fits : s.relocate_window_end ≤ last_purge_pos
  pub window_read :
      (k : ℕ)
      → s.relocate_window_start + k < s.relocate_window_end
      → s.relocate_mem k ≡ flash (s.next_chunk_no * size_of_chunk + s.relocate_window_start + k)
  pub starts :
      (i : ℕ) → 8 * i < last_purge_pos → in_use s (8 * i) ≡ true → s.next_chunk_lba i % 8 ≡ 0

-- While blocks are relocated, the cache has whole blocks that were relocated.
pub record Open (s : Store) : Type 0 where
  pub whole : s.cache_pos % 8 ≡ 0
  pub before :
      (p : ℕ)
      → p < s.cache_pos
      → s.map (s.cache_lba p / 8) < s.next_chunk_no * size_of_chunk + s.relocate_pos

-- The whole invariant: the cache is well-formed and on the map, and empty where the chunk is full or
-- the relocation not prepared; and the blocks of the next chunk fit into the purges that are left.
pub record Sane (s : Store) (flash : Flash) : Type 0 where
  pub log : Log s
  pub well_formed : WellFormed s.cache_lba s.cache_pos
  pub mapped : (p : ℕ) → p < s.cache_pos → s.cache_lba p / 8 < s.size_of_map
  pub full : last_purge_pos ≤ s.purge_pos → s.cache_pos ≡ 0
  pub unprepared : s.relocation_prepared ≡ false → s.cache_pos ≡ 0
  pub window : s.relocation_prepared ≡ true → Window s flash
  pub opened : s.relocation_prepared ≡ true → s.relocation_done ≡ false → Open s
  pub fits : Fits (progress_of s)

-- A step keeps the invariant, the contents of every sector and the size of the map.
pub record Kept (s : Store) (flash : Flash) (t : Store) (flash' : Flash) : Type 0 where
  pub sane : Sane t flash'
  pub same_view : (x : ℕ) → view t flash' x ≡ view s flash x
  pub same_size : t.size_of_map ≡ s.size_of_map

pub true_false : {A : Type 0} → true ≡ false → A
true_false e = absurd (ground (arith, e))

-- The log depends only on the part of the context that it is about.
pub store_of : LogState → Store
store_of l = record {
  size_of_map = l.size_of_map;
  max_chunks = l.max_chunks;
  weight_life = 0;
  weight_speed = 0;
  map = l.map;
  chunk_info = l.chunk_info;
  chunk_no = l.chunk_no;
  next_chunk_no = l.next_chunk_no;
  chunk_lba = λ _. 0;
  next_chunk_lba = λ _. 0;
  finalized_pos = l.finalized_pos;
  purge_pos = l.purge_pos;
  cache_pos = 0;
  cache_lba = λ _. 0;
  cache_mem = λ _. 0;
  relocate_mem = λ _. 0;
  relocate_pos = 0;
  relocate_window_start = 0;
  relocate_window_end = 0;
  relocate_target = 0;
  relocate_source = 0;
  flushing = false;
  finalizing = false;
  relocation_prepared = false;
  relocation_done = false;
  cache_dirty = false;
}

to_state : (s : Store) → Log s → Log (store_of (log_of s))
unfolding store_of
to_state s v = record {
  sound = record {
    counted = record { short = v.sound.counted.short; right = v.sound.counted.right };
    places = v.sound.places;
  };
  map_small = v.map_small;
  few = v.few;
  chunk_in = v.chunk_in;
  next_in = v.next_in;
  other = v.other;
  newest = v.newest;
  pos_whole = v.pos_whole;
  pos_in = v.pos_in;
  behind = v.behind;
}

of_state : (s : Store) → Log (store_of (log_of s)) → Log s
unfolding store_of
of_state s v = record {
  sound = record {
    counted = record { short = v.sound.counted.short; right = v.sound.counted.right };
    places = v.sound.places;
  };
  map_small = v.map_small;
  few = v.few;
  chunk_in = v.chunk_in;
  next_in = v.next_in;
  other = v.other;
  newest = v.newest;
  pos_whole = v.pos_whole;
  pos_in = v.pos_in;
  behind = v.behind;
}

pub same-Log : (s t : Store) → log_of t ≡ log_of s → Log s → Log t
same-Log s t e v = of_state t (rw e (to_state s v))

-- In the middle of a chunk the invariant is the one of the relocation.
pub Sane-Relocating :
    (s : Store) (flash : Flash)
    → Sane s flash
    → s.relocation_prepared ≡ true
    → s.relocation_done ≡ false
    → Relocating s flash
Sane-Relocating s flash v prepared going =
    let w = v.window prepared in
    let o = v.opened prepared going in
    record {
      well_formed = v.well_formed;
      whole = o.whole;
      map_small = omega (arith, v.log.map_small);
      next_small = omega (arith, v.log.next_in, v.log.few);
      pos_whole = w.pos_whole;
      pos_in = w.pos_in;
      start_whole = w.start_whole;
      end_whole = w.end_whole;
      window_fits = w.window_fits;
      window_read = w.window_read;
      starts = w.starts;
      before = o.before;
      mapped = v.mapped;
    }

-- What a part of the relocation leaves.
pub Relocated-Kept :
    (s t : Store) (flash : Flash)
    → Sane s flash
    → s.purge_pos < last_purge_pos
    → t.relocation_prepared ≡ true
    → Relocated s t flash
    → Fits (progress_of t)
    → Kept s flash t flash
Relocated-Kept s t flash v inside prepared r fits =
    let w = r.relocating in
    record {
      sane = record {
        log = same-Log s t r.same_log v.log;
        well_formed = w.well_formed;
        mapped = w.mapped;
        full = λ h. absurd (omega (arith, inside, ap (λ (l : LogState). l.purge_pos) r.same_log));
        unprepared = λ e. true_false (sym prepared ∙ e);
        window = λ _. record {
          pos_whole = w.pos_whole;
          pos_in = w.pos_in;
          start_whole = w.start_whole;
          end_whole = w.end_whole;
          window_fits = w.window_fits;
          window_read = w.window_read;
          starts = w.starts;
        };
        opened = λ _ _. record { whole = w.whole; before = w.before };
        fits = fits;
      };
      same_view = r.same_view;
      same_size = ap (λ (l : LogState). l.size_of_map) r.same_log;
    }

-- The places of the blocks of another chunk, and of the tail of the current one.
pub off_tail :
    (s : Store)
    → Log s
    → (j : ℕ) → s.map j ≢ not_mapped
    → (s.map j + 8 ≤ s.chunk_no * size_of_chunk + last_purge_pos)
      ⊎ ((s.chunk_no + 1) * size_of_chunk ≤ s.map j)
off_tail s v j there = elim (v.sound.places j) [
  | inl none ↦ absurd (there none)
  | inr (small, whole, inside, last) ↦ elim (dec_lt (s.map j) ((s.chunk_no + 1) * size_of_chunk)) [
    | yes below ↦ inl (omega (arith, last))
    | no above ↦ inr (omega arith)
  ]
]

-- A whole cache may be purged where the chunk has room.
pub Log-CanPurge :
    (s : Store) (flash : Flash)
    → Sane s flash
    → s.purge_pos < last_purge_pos
    → s.cache_pos % 8 ≡ 0
    → CanPurge s
unfolding purge_place
Log-CanPurge s flash v inside whole =
    let l = v.log in
    let place : purge_place s ≡ s.chunk_no * size_of_chunk + s.purge_pos =
      omega (arith, l.chunk_in, l.few, l.pos_in) in
    record {
      whole = whole;
      mapped = v.mapped;
      newest = l.newest;
      chunk_small = omega (arith, l.chunk_in, l.few);
      has_room = omega (arith, l.pos_whole, inside);
      unused = λ j there. elim (l.sound.places j) [
        | inl none ↦ absurd (there none)
        | inr (small, aligned, in_chunk, last) ↦
            elim (dec_lt (s.map j / size_of_chunk) s.chunk_no) [
              | yes earlier ↦ inl (omega (arith, place, last))
              | no later ↦ elim (dec_lt s.chunk_no (s.map j / size_of_chunk)) [
                | yes above ↦ inr (omega (arith, place, l.pos_whole, inside))
                | no same ↦
                    let own : s.map j / size_of_chunk ≡ s.chunk_no = omega arith in
                    inl (omega (arith, place, l.behind j there own, own))
              ]
            ]
      ];
    }

-- The places of the blocks.
pub Sane-places :
    (s : Store) (flash : Flash)
    → Sane s flash
    → (j : ℕ) → s.map j ≢ not_mapped
    → (j < s.size_of_map) × (s.map j % 8 ≡ 0) × (s.map j % size_of_chunk + 8 ≤ last_purge_pos)
Sane-places s flash v j there = elim (v.log.sound.places j) [
  | inl free ↦ absurd (there free)
  | inr (small, whole, inside, last) ↦ (small, whole, last)
]
