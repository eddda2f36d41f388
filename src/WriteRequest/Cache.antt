-- ===== src/WriteRequest/Cache.antt =====
-- driver/vscsi.c: putting sectors into the cache keeps the invariant of the write requests.
use std.Path.{subst}
use fdlvling.Base.{
  ℕ, ◌/◌, ◌%◌, ◌^◌, ◌<◌, ◌≡◌, ◌≢◌, refl, sym, ◌∙◌, inl, inr, Bool, true, arith, add32,
}
use fdlvling.Store.{
  Store, Flash, not_mapped, last_purge_pos, get_cached_pos, append_run, cache_fill_read,
}
use fdlvling.Store.Lookup.{WellFormed}
use fdlvling.Store.Append.{Appends, append_run-WellFormed, pos-append, lba-old}
use fdlvling.Store.Cache.{KeepsEntries, OneBlock, view-cache_fill_read}
use fdlvling.Relocation.{in_use}
use fdlvling.WritePath.Outcome.{CacheOnly, append_run-mapped}
use fdlvling.WriteRequest.Remaining.{progress_of, KeepsEntries-Finds, Fits-cache}
use fdlvling.WriteRequest.Invariant.{Sane, Kept, true_false, same-Log}

with_cache : Store → (ℕ → ℕ) → (ℕ → ℕ) → ℕ → Bool → Store
with_cache s lbas mem pos dirty = record s {
  cache_lba = lbas;
  cache_mem = mem;
  cache_pos = pos;
  cache_dirty = dirty;
}

-- Another cache, once the relocation is done and while the chunk has room.
module _ (s : Store) (flash : Flash) (v : Sane s flash) (inside : s.purge_pos < last_purge_pos)
    (prepared : s.relocation_prepared ≡ true) (done : s.relocation_done ≡ true) where
  with_cache-Sane :
      (lbas mem : ℕ → ℕ) (pos : ℕ) (dirty : Bool)
      → WellFormed lbas pos
      → ((p : ℕ) → p < pos → lbas p / 8 < s.size_of_map)
      → KeepsEntries s (with_cache s lbas mem pos dirty)
      → Sane (with_cache s lbas mem pos dirty) flash
  unfolding with_cache in_use
  with_cache-Sane lbas mem pos dirty w mapped keeps = record {
    log = same-Log s _ refl v.log;
    well_formed = w;
    mapped = mapped;
    full = λ h. absurd (omega (arith, inside, h));
    unprepared = λ e. true_false (sym prepared ∙ e);
    window = λ e.
        let w = v.window e in
        record {
          pos_whole = w.pos_whole;
          pos_in = w.pos_in;
          start_whole = w.start_whole;
          end_whole = w.end_whole;
          window_fits = w.window_fits;
          window_read = w.window_read;
          starts = w.starts;
        };
    opened = λ e d. true_false (sym done ∙ d);
    fits =
        Fits-cache (progress_of s) pos (get_cached_pos (with_cache s lbas mem pos dirty)) prepared
          done (KeepsEntries-Finds s (with_cache s lbas mem pos dirty) v.well_formed w keeps)
          v.fits;
  }

  pub CacheOnly-Sane :
      (t : Store)
      → CacheOnly s t
      → WellFormed t.cache_lba t.cache_pos
      → ((p : ℕ) → p < t.cache_pos → t.cache_lba p / 8 < s.size_of_map)
      → KeepsEntries s t
      → Sane t flash
  unfolding with_cache
  CacheOnly-Sane t only w mapped keeps =
      subst (λ (u : Store). Sane u flash) (sym only)
        (with_cache-Sane t.cache_lba t.cache_mem t.cache_pos t.cache_dirty w mapped keeps)

  -- ExecuteCacheFillRead and its completion.
  pub cache_fill_read-Kept :
      (start n : ℕ)
      → Appends s start n
      → OneBlock start n
      → s.map (start / 8) ≢ not_mapped
      → Kept s flash (cache_fill_read s flash start n) flash
  unfolding cache_fill_read append_run
  cache_fill_read-Kept start n a o there = elim (v.log.sound.places (start / 8)) [
    | inl free ↦ absurd (there free)
    | inr (small, whole, in_chunk, last) ↦
        let source = λ (i : ℕ). flash (add32 (add32 (s.map (start / 8)) (start % 8)) i) in
        record {
          sane =
              CacheOnly-Sane (cache_fill_read s flash start n) refl
                (append_run-WellFormed s start n source v.well_formed a)
                (append_run-mapped s start n source v.well_formed a
                  (v.mapped, λ k h. omega (arith, small, o, h)))
                (
                  omega (arith, pos-append s start n source v.well_formed a),
                  lba-old s start n source v.well_formed a,
                );
          same_view =
              view-cache_fill_read s flash start n v.well_formed a o
                (omega (arith, in_chunk, v.log.few)) there;
          same_size = refl;
        }
  ]

-- A cache on a map of at most 2^29 blocks has numbers of 32 bits.
pub cache_word :
    (s : Store) (flash : Flash) → Sane s flash → (p : ℕ) → p < s.cache_pos → s.cache_lba p < 2 ^ 32
cache_word s flash v p h = omega (arith, v.mapped p h, v.log.map_small)
