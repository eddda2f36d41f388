-- ===== src/WriteRequest/Chunks.antt =====
-- driver/vscsi.c: the steps of a write request at the end of a chunk keep the invariant.
use fdlvling.Base.{
  ℕ, ◌+◌, ◌*◌, ◌/◌, ◌%◌, ◌^◌, ◌≤◌, ◌<◌, ◌≡◌, ◌≢◌, refl, sym, ap, ◌∙◌, inl, inr, true, false, arith,
  add32, mul32, Bool-cases,
}
use fdlvling.Store.{
  Store, Flash, size_of_chunk, last_purge_pos, get_cached_pos, cached_scan, copy_sectors, view,
}
use fdlvling.Store.Lookup.{uncached}
use fdlvling.Chunk.{execute_purge_chunk, purge_chunk_flash, purge_chunk_completion, find_next_chunk}
use fdlvling.Flush.{Layout}
use fdlvling.Flush.Rounds.{chunk_view}
use fdlvling.Relocation.{next_place, in_use, prepare_relocate_read, prepare_relocate_completion}
use fdlvling.WritePath.Switch.{
  switch_chunk, CanSwitch, not-next, switch_chunk-CanPurge, switch_chunk-next,
}
use fdlvling.WriteRequest.Remaining.{
  waiting-le, placed-le-waiting, progress_of, purges_left, NamesAll, Fits-used,
}
use fdlvling.WriteRequest.Invariant.{Log, Sane, Kept, true_false, same-Log, off_tail}

-- A sector of the next chunk is not where CHUNK_CTL of the current one goes.
chunk_flash-next :
    (s : Store) (flash : Flash) (x : ℕ)
    → s.chunk_no < 500
    → s.next_chunk_no < 500
    → s.next_chunk_no ≢ s.chunk_no
    → x < last_purge_pos
    → purge_chunk_flash s flash (s.next_chunk_no * size_of_chunk + x)
      ≡ flash (s.next_chunk_no * size_of_chunk + x)
unfolding purge_chunk_flash copy_sectors
chunk_flash-next s flash x chunk_in next_in other h = ground (arith, chunk_in, next_in, other)

-- ExecutePurgeChunk at the end of a chunk, and its completion.
pub purge_chunk-Kept :
    (lay : Layout) (s : Store) (flash : Flash)
    → Sane s flash
    → last_purge_pos ≤ s.purge_pos
    → let t = execute_purge_chunk lay.chunk_ctl s in
      Kept s flash (purge_chunk_completion t) (purge_chunk_flash t flash)
unfolding execute_purge_chunk purge_chunk_completion in_use get_cached_pos
purge_chunk-Kept lay s flash v ended =
    let l = v.log in
    let t = execute_purge_chunk lay.chunk_ctl s in
    record {
      sane = record {
        log = record {
          sound = record {
            counted = record {
              short = l.sound.counted.short;
              right = λ c. ground (arith, l.sound.counted.right c);
            };
            places = l.sound.places;
          };
          map_small = l.map_small;
          few = l.few;
          chunk_in = l.chunk_in;
          next_in = l.next_in;
          other = l.other;
          newest = λ c. ground (arith, l.newest c);
          pos_whole = l.pos_whole;
          pos_in = l.pos_in;
          behind = l.behind;
        };
        well_formed = v.well_formed;
        mapped = v.mapped;
        full = v.full;
        unprepared = v.unprepared;
        window = λ e.
            let w = v.window e in
            record {
              pos_whole = w.pos_whole;
              pos_in = w.pos_in;
              start_whole = w.start_whole;
              end_whole = w.end_whole;
              window_fits = w.window_fits;
              window_read = λ k h.
                  w.window_read k h
                  ∙ ap flash (omega arith)
                  ∙ sym (
                      chunk_flash-next t flash (s.relocate_window_start + k)
                        (omega (arith, l.chunk_in, l.few)) (omega (arith, l.next_in, l.few)) l.other
                        (omega (arith, w.window_fits, h)))
                  ∙ ap (purge_chunk_flash t flash) (omega arith);
              starts = w.starts;
            };
        opened = λ e d. let o = v.opened e d in record { whole = o.whole; before = o.before };
        fits =
            Fits-used (progress_of s) (t.chunk_info s.next_chunk_no).used (ground (arith, l.other))
              v.fits;
      };
      same_view =
          chunk_view lay s flash (v.full ended) (omega (arith, l.chunk_in, l.few)) (off_tail s l);
      same_size = refl;
    }

pub next-unused :
    (s : Store) (flash : Flash)
    → Sane s flash
    → last_purge_pos ≤ s.purge_pos
    → (s.chunk_info s.next_chunk_no).used ≡ 0
next-unused s flash v ended = elim (Bool-cases s.relocation_done) [
  | inr going ↦ omega (arith, v.fits.room going, ended)
  | inl done ↦ elim (Bool-cases s.relocation_prepared) [
    | inr fresh ↦ true_false (sym done ∙ v.fits.fresh fresh)
    | inl prepared ↦
        let empty = v.full ended in
        let enough = v.fits.enough prepared done in
        let all_left =
          placed-le-waiting s.size_of_map s.map s.map s.next_chunk_no (get_cached_pos s)
            (λ j there own.
              (refl, uncached s (8 * j) v.well_formed (λ p h. absurd (omega (arith, h, empty))))) in
        omega (arith, enough, all_left, ended, v.log.sound.counted.right s.next_chunk_no)
  ]
]

-- What a step to the next chunk needs of the drive and its size: the sequence numbers do not end, and
-- the chunk that FindNextChunk chooses then has no more blocks in use than the purges left hold, which
-- are of 63 blocks each.
pub record MaySwitch (s : Store) : Type 0 where
  pub not_last : (s.chunk_info s.chunk_no).scn + 1 < 2 ^ 32
  pub room :
      let t = switch_chunk s in (t.chunk_info t.next_chunk_no).used ≤ 63 * purges_left t.purge_pos

pub switch_chunk-Kept :
    (s : Store) (flash : Flash)
    → Sane s flash
    → last_purge_pos ≤ s.purge_pos
    → MaySwitch s
    → Kept s flash (switch_chunk s) flash
unfolding switch_chunk find_next_chunk
switch_chunk-Kept s flash v ended m =
    let l = v.log in
    let c : CanSwitch s = record {
      sound = l.sound;
      newest = l.newest;
      not_last = m.not_last;
      few = l.few;
      next_in = l.next_in;
      next_unused = next-unused s flash v ended;
      empty = v.full ended;
    } in
    let ((purge, sound), same) = switch_chunk-CanPurge s flash c in
    let (inside, other) = switch_chunk-next s (omega (arith, l.chunk_in, l.next_in, l.other)) in
    record {
      sane = record {
        log = record {
          sound = sound;
          map_small = l.map_small;
          few = l.few;
          chunk_in = l.next_in;
          next_in = inside;
          other = other;
          newest = purge.newest;
          pos_whole = ground arith;
          pos_in = ground arith;
          behind = λ j there own. elim (l.sound.places j) [
            | inl free ↦ absurd (there free)
            | inr (small, whole, inside, last) ↦ absurd (not-next s j c small there own)
          ];
        };
        well_formed = v.well_formed;
        mapped = v.mapped;
        full = λ _. v.full ended;
        unprepared = λ _. v.full ended;
        window = λ e. true_false (sym e);
        opened = λ e _. true_false (sym e);
        fits = record {
          fresh = λ _. refl;
          room = λ _. m.room;
          share = λ e _. true_false (sym e);
          enough = λ e _. true_false (sym e);
          ready = λ e. true_false (sym e);
        };
      };
      same_view = same;
      same_size = refl;
    }

-- CHUNK_CTL of the next chunk, as PrepareRelocate reads it, names each block that is in use there.
abbrev pub Named : ((ℕ → ℕ) → ℕ → ℕ) → Store → Flash → Type 0
Named decode s flash =
    NamesAll s.map s.next_chunk_no
      (prepare_relocate_completion decode (prepare_relocate_read s flash)).next_chunk_lba

-- It names the start of a block that is in use.
named-starts :
    (s : Store) (i : ℕ)
    → Log s
    → NamesAll s.map s.next_chunk_no s.next_chunk_lba
    → 8 * i < last_purge_pos
    → in_use s (8 * i) ≡ true
    → s.next_chunk_lba i % 8 ≡ 0
unfolding in_use next_place
named-starts s i l named h used =
    let j : ℕ = s.next_chunk_lba i / 8 in
    let same : 8 * i / 8 ≡ i = omega arith in
    let used' : (s.map j ≡ add32 (mul32 s.next_chunk_no size_of_chunk) (8 * i)) =
      ground (arith, rw same at used) in
    let place : s.map j ≡ s.next_chunk_no * size_of_chunk + 8 * i =
      omega (arith, used', l.next_in, l.few, h) in
    let name =
      named j (λ z. omega (arith, z, place, l.next_in, l.few, h)) (omega (arith, place, h)) in
    let at : s.map j % size_of_chunk / 8 ≡ i = omega (arith, place, h) in
    omega (arith, ap s.next_chunk_lba at, name)

pub prepare-Kept :
    (decode : (ℕ → ℕ) → ℕ → ℕ) (s : Store) (flash : Flash)
    → Sane s flash
    → s.relocation_prepared ≡ false
    → Named decode s flash
    → Kept s flash (prepare_relocate_completion decode (prepare_relocate_read s flash)) flash
unfolding prepare_relocate_completion prepare_relocate_read view get_cached_pos cached_scan
prepare-Kept decode s flash v fresh named =
    let l = v.log in
    let empty = v.unprepared fresh in
    let t = prepare_relocate_completion decode (prepare_relocate_read s flash) in
    let log = same-Log s t refl l in
    let room = v.fits.room (v.fits.fresh fresh) in
    record {
      sane = record {
        log = log;
        well_formed = v.well_formed;
        mapped = v.mapped;
        full = v.full;
        unprepared = λ _. empty;
        window = λ _. record {
          pos_whole = refl;
          pos_in = omega arith;
          start_whole = refl;
          end_whole = refl;
          window_fits = omega arith;
          window_read = λ k h. absurd (omega (arith, h));
          starts = λ i h used. named-starts t i log named h used;
        };
        opened = λ _ _. record {
          whole = omega (arith, empty);
          before = λ p h. absurd (omega (arith, empty, h));
        };
        fits = record {
          fresh = λ e. true_false e;
          room = λ _. room;
          share = λ _ _. omega (
            arith,
            empty,
            l.sound.counted.right s.next_chunk_no,
            waiting-le s.size_of_map s.map s.next_chunk_no (get_cached_pos t),
          );
          enough = λ _ d. true_false (sym d ∙ v.fits.fresh fresh);
          ready = λ _. record {
            from = purges_left s.purge_pos;
            from_in = omega arith;
            target = omega (arith, l.pos_whole, l.pos_in);
            source = room;
            fewer = omega arith;
            named = named;
            joined = λ j there own below. absurd (omega (arith, below));
          };
        };
      };
      same_view = λ x.
          let none_scanned : (s.cache_pos + 7) / 8 ≡ 0 = omega (arith, empty) in
          rw none_scanned refl;
      same_size = refl;
    }
