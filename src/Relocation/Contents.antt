-- ===== src/Relocation/Contents.antt =====
-- driver/vrelocation.c: relocating blocks into the cache shows the clients nothing.
use fdlvling.Base.{
  ℕ, zero, suc, ◌+◌, ◌-◌, ◌*◌, ◌/◌, ◌≤◌, ◌<◌, ◌≡◌, refl, sym, ap, ◌∙◌, Bool, true, false, not, ◌&&◌,
  arith, add32, mul32, ltb, leb, if_cases, if◌then◌else◌,
}
use fdlvling.Store.{
  Store, Flash, size_of_chunk, size_of_cache, last_purge_pos, last_cache_pos, get_cached_pos,
  copy_sectors, append_run, view,
}
use fdlvling.Relocation.Window.{execute_relocate-window}
use fdlvling.Relocation.{
  window_end, next_place, in_use, Round, goes_on, ends, join_block, next_block, relocate_block,
  after_block, relocate_blocks, enough_relocated, execute_relocate_cached, execute_relocate,
  relocate_read,
}
use fdlvling.Relocation.Blocks.{
  Relocating, Relocated, Relocated-trans, pass-Relocated, join-Relocated,
}

-- What one run of the loop leaves: the relocation goes on, and where it stopped for a window, the
-- block at RelocatePos is in use and not in the window.
abbrev pub Stopped : Store → Bool → Type 0
Stopped t true = Unit {0}
Stopped t false =
    (in_use t t.relocate_pos ≡ true)
    × (t.relocate_pos < last_purge_pos)
    × (t.relocate_window_start ≤ t.relocate_pos → t.relocate_window_end ≤ t.relocate_pos)

-- What a round means.
abbrev pub RoundRight : Store → Flash → Round → Type 0
RoundRight s flash (ends at_done) = Stopped s at_done
RoundRight s flash (goes_on t) = Relocated s t flash × (t.relocation_done ≡ s.relocation_done)

pub relocate_block-right :
    (s : Store) (flash : Flash) → Relocating s flash → RoundRight s flash (relocate_block s)
unfolding relocate_block next_block join_block append_run
relocate_block-right s flash v =
    let X = λ (r : Round). RoundRight s flash r in
    if_cases X (leb last_purge_pos s.relocate_pos) _ _ (λ _. tt)
      (λ more.
        let inside : s.relocate_pos < last_purge_pos = ground (arith, more) in
        if_cases X (not (in_use s s.relocate_pos)) _ _
          (λ _. (pass-Relocated s flash v inside, refl))
          (λ used.
            let used' : in_use s s.relocate_pos ≡ true = ground (arith, used) in
            if_cases X (leb last_cache_pos s.cache_pos) _ _ (λ _. tt)
              (λ room.
                if_cases X
                  (not (
                    leb s.relocate_window_start s.relocate_pos
                    && ltb s.relocate_pos s.relocate_window_end))
                  _ _ (λ out. (used', inside, λ h. ground arith))
                  (λ window. (
                    join-Relocated s flash v inside used' (ground arith) (ground arith)
                        (ground arith),
                    refl,
                  )))))

-- What the loop means.
abbrev pub LoopRight : Store → Flash → Store × Bool → Type 0
LoopRight s flash r =
    Relocated s r.0 flash × (r.0.relocation_done ≡ s.relocation_done) × Stopped r.0 r.1

after_block-right :
    (s : Store) (flash : Flash) (r : Round) (next : Store → Store × Bool)
    → Relocating s flash
    → RoundRight s flash r
    → ((t : Store) → Relocating t flash → LoopRight t flash (next t))
    → LoopRight s flash (after_block r s next)
unfolding after_block
after_block-right s flash (ends at_done) next v h ih =
    (record { relocating = v; same_view = λ x. refl; same_log = refl }, refl, h)
after_block-right s flash (goes_on t) next v (r, e) ih =
    let (rest, same, stop) = ih t r.relocating in
    (Relocated-trans s t (next t).0 flash r rest, same ∙ e, stop)

pub relocate_blocks-right :
    (n : ℕ) (s : Store) (flash : Flash)
    → Relocating s flash
    → LoopRight s flash (relocate_blocks n s)
unfolding relocate_blocks
relocate_blocks-right zero s flash v =
    (record { relocating = v; same_view = λ x. refl; same_log = refl }, refl, tt)
relocate_blocks-right (suc n) s flash v =
    after_block-right s flash (relocate_block s) (relocate_blocks n) v
      (relocate_block-right s flash v) (λ t w. relocate_blocks-right n t flash w)

Relocating-done :
    (t : Store) (flash : Flash)
    → Relocating t flash
    → Relocating (record t { relocation_done = true }) flash
unfolding in_use
Relocating-done t flash v = record {
  well_formed = v.well_formed;
  whole = v.whole;
  map_small = v.map_small;
  next_small = v.next_small;
  pos_whole = v.pos_whole;
  pos_in = v.pos_in;
  start_whole = v.start_whole;
  end_whole = v.end_whole;
  window_fits = v.window_fits;
  window_read = v.window_read;
  starts = v.starts;
  before = v.before;
  mapped = v.mapped;
}

Relocated-done :
    (s t : Store) (flash : Flash)
    → Relocated s t flash
    → Relocated s (record t { relocation_done = true }) flash
unfolding view get_cached_pos
Relocated-done s t flash r = record {
  relocating = Relocating-done t flash r.relocating;
  same_view = r.same_view;
  same_log = r.same_log;
}

Stopped-flag : (t : Store) (a b : Bool) → a ≡ b → Stopped t a → Stopped t b
Stopped-flag t a b e h = rw e at h

-- In a context that satisfies the invariant of the relocation: a run of ExecuteRelocateCached keeps
-- the contents of every sector and the invariant, and changes nothing of the log; and if it leaves
-- RelocationDone FALSE, the block at RelocatePos is in use and is not in the window.
pub execute_relocate_cached-Relocated :
    (s : Store) (flash : Flash)
    → Relocating s flash
    → s.relocation_done ≡ false
    → let t = execute_relocate_cached s in Relocated s t flash × Stopped t t.relocation_done
unfolding execute_relocate_cached
execute_relocate_cached-Relocated s flash v f =
    let X = λ (t : Store). Relocated s t flash × Stopped t t.relocation_done in
    let here : Relocated s s flash = record {
      relocating = v;
      same_view = λ x. refl;
      same_log = refl;
    } in
    let n = last_purge_pos / 8 + 1 - s.relocate_pos / 8 in
    let (r, same, stop) = relocate_blocks-right n s flash v in
    if_cases X (enough_relocated s) (record s { relocation_done = true })
      (if (relocate_blocks n s).1
        then record (relocate_blocks n s).0 { relocation_done = true }
        else (relocate_blocks n s).0)
      (λ _. (Relocated-done s s flash here, tt))
      (λ _.
        if_cases X (relocate_blocks n s).1 _ _
          (λ _. (Relocated-done s (relocate_blocks n s).0 flash r, tt))
          (λ e. (
            r,
            Stopped-flag (relocate_blocks n s).0 (relocate_blocks n s).1 _ (e ∙ sym (same ∙ f))
                stop,
          )))

sub_zero : (k : ℕ) → k - 0 ≡ k
sub_zero k = omega arith

copied : (mem source : ℕ → ℕ) (n k : ℕ) → k < n → copy_sectors mem 0 n source k ≡ source k
unfolding copy_sectors
copied mem source n k h = ground (arith, ap source (sub_zero k))

-- ExecuteRelocate and its read leave a window that the relocation can go on with.
pub execute_relocate-Relocated :
    (s : Store) (flash : Flash)
    → Relocating s flash
    → Relocated s (relocate_read (execute_relocate s) flash) flash
unfolding relocate_read execute_relocate copy_sectors next_place in_use view get_cached_pos
execute_relocate-Relocated s flash v =
    let (w, start, progress) = execute_relocate-window s v.pos_whole v.pos_in in
    let window = window_end (size_of_cache / 8) s.relocate_pos s s.relocate_pos s.relocate_pos in
    let place : add32 (mul32 s.next_chunk_no size_of_chunk) s.relocate_pos
        ≡ s.next_chunk_no * size_of_chunk + s.relocate_pos =
      omega (arith, v.next_small) in
    record {
      relocating = record {
        well_formed = v.well_formed;
        whole = v.whole;
        map_small = v.map_small;
        next_small = v.next_small;
        pos_whole = v.pos_whole;
        pos_in = v.pos_in;
        start_whole = v.pos_whole;
        end_whole = w.whole;
        window_fits = w.inside;
        window_read = λ k h.
            copied s.relocate_mem
              (λ (i : ℕ). flash (add32 (mul32 s.next_chunk_no size_of_chunk) s.relocate_pos + i))
              (window - s.relocate_pos) k (omega (arith, h))
            ∙ ap flash (ap (λ (x : ℕ). x + k) place);
        starts = v.starts;
        before = v.before;
        mapped = v.mapped;
      };
      same_view = λ x. refl;
      same_log = refl;
    }
