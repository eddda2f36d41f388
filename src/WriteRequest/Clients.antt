-- ===== src/WriteRequest/Clients.antt =====
-- driver/vscsi.c: the disk that clients see who write and read sectors.
use std.Path.{subst}
use fdlvling.Base.{
  ℕ, ◌+◌, ◌-◌, ◌*◌, ◌≤◌, ◌<◌, ◌≡◌, sym, ap, ◌∙◌, inl, inr, none, arith, List, [], ◌∷◌, true, ◌^◌,
}
use fdlvling.Store.{Store, Flash, copy_sectors, view}
use fdlvling.Store.Cache.{in_run}
use fdlvling.Flush.{Layout}
use fdlvling.ReadPath.{Surroundings, read_loop, complete}
use fdlvling.ReadPath.Lengths.{MapPlaces}
use fdlvling.ReadPath.Served.{ReadRight, read_loop-right}
use fdlvling.WriteRequest.{in_range, write_step}
use fdlvling.WriteRequest.Invariant.{Log, Sane}
use fdlvling.WriteRequest.Rounds.{Written, Allowed}
use fdlvling.WriteRequest.Reach.{Writes, Writes-right, Writes-over}

-- A disk of sectors, and what clients do: they write `len` sectors at `lba`, or read them and get
-- `buffer`.
abbrev pub Disk : Type 0
Disk = ℕ → ℕ

pub data Command : Type 0 where
  writes : ℕ → ℕ → (ℕ → ℕ) → Command
  reads : ℕ → ℕ → (ℕ → ℕ) → Command

-- The same commands on the disk, and that the reads gave its sectors.
unfoldable pub replay : List Command → Disk → Disk
unfolding copy_sectors
replay [] d = d
replay (writes lba len source ∷ cs) d = replay cs (copy_sectors d lba len source)
replay (reads lba len buffer ∷ cs) d = replay cs d

abbrev pub ReadsRight : List Command → Disk → Type 0
ReadsRight [] d = Unit {0}
ReadsRight (writes lba len source ∷ cs) d = ReadsRight cs (copy_sectors d lba len source)
ReadsRight (reads lba len buffer ∷ cs) d =
    ((k : ℕ) → k < len → buffer k ≡ d (lba + k)) × ReadsRight cs d

-- The commands on the virtual unit, one after the other, for requests that pass the test of ExecuteRW
-- without wrapping: a write runs until there is no step left, a read is complete.
pub data Session (lay : Layout) (decode : (ℕ → ℕ) → ℕ → ℕ)
    : Store → Flash → List Command → Store → Flash → Type 0 where
  over : {s : Store} {f : Flash} → Session lay decode s f [] s f
  wrote :
      {s : Store} {f : Flash} {lba len : ℕ} {source : ℕ → ℕ} {n : ℕ} {t : Store} {g : Flash}
      {cs : List Command} {u : Store} {h : Flash}
      → in_range s lba len ≡ true
      → lba + len < 2 ^ 32
      → Writes lay decode lba len source s f n t g
      → Allowed decode t g
      → write_step lay decode t g (lba + n) (len - n) (λ i. source (n + i)) ≡ none
      → Session lay decode t g cs u h
      → Session lay decode s f (writes lba len source ∷ cs) u h
  read :
      {s : Store} {f : Flash} {lba len : ℕ} {buffer : ℕ → ℕ} {cs : List Command} {u : Store}
      {h : Flash} (env : Surroundings) (blank : ℕ → ℕ)
      → in_range s lba len ≡ true
      → lba + len < 2 ^ 32
      → read_loop (len + 1) env s f lba len 0 blank ≡ complete buffer
      → Session lay decode s f cs u h
      → Session lay decode s f (reads lba len buffer ∷ cs) u h

in_range-on_map :
    (s : Store) (lba len : ℕ)
    → Log s
    → in_range s lba len ≡ true
    → lba + len < 2 ^ 32
    → lba + len ≤ 8 * s.size_of_map
unfolding in_range
in_range-on_map s lba len l e word = ground (arith, e, word, l.map_small)

Log-MapPlaces : (s : Store) → Log s → MapPlaces s.map
Log-MapPlaces s l b there = elim (l.sound.places b) [
  | inl free ↦ absurd (there free)
  | inr (small, whole, inside, last) ↦ (whole, omega (arith, inside, l.few))
]

-- A write that is over has written to the disk.
Written-disk :
    (s t : Store) (f g : Flash) (lba len : ℕ) (source : ℕ → ℕ) (d : Disk)
    → ((x : ℕ) → view s f x ≡ d x)
    → Written s f t g lba len source
    → (x : ℕ) → view t g x ≡ copy_sectors d lba len source x
unfolding copy_sectors
Written-disk s t f g lba len source d same w x = elim (in_run x lba len) [
  | inl (k, lt, at) ↦
      let e : x - lba ≡ k = omega arith in (w x).0 k lt at ∙ ground (arith, lt, at, ap source e)
  | inr out ↦ (w x).1 out ∙ same x ∙ ground (arith, out (x - lba))
]

-- Clients see a disk: from a state that satisfies the invariant `Sane`, after any session of writes and
-- reads on the map that run to their ends, the invariant holds, every read gave the sectors of the disk
-- as the writes before it left them, and the contents of the sectors are those of the disk that all
-- writes leave. A session has `Allowed` at each round of a write: where the round begins a chunk, SCN + 1
-- is below 2 ^ 32, and the chunk that FindNextChunk chooses then has no more blocks in use than 63 for
-- each purge that the new chunk has room for; and where the relocation is to be prepared, CHUNK_CTL of
-- the next chunk, as it is read, names each block in use there. That a chunk is unused when it is begun is
-- not assumed.
pub Session-refines :
    (lay : Layout) (decode : (ℕ → ℕ) → ℕ → ℕ) (s : Store) (f : Flash) (cs : List Command)
    (u : Store) (h : Flash) (d : Disk)
    → Sane s f
    → ((x : ℕ) → view s f x ≡ d x)
    → Session lay decode s f cs u h
    → Sane u h × ReadsRight cs d × ((x : ℕ) → view u h x ≡ replay cs d x)
unfolding replay
Session-refines lay decode s f _ _ _ d v same over = (v, tt, same)
Session-refines lay decode s f _ u h d v same
      (wrote {lba = lba} {len = len} {source = source} {n = n} {t = t} {g = g} {cs = cs} taken word
        w ok last rest) =
    let fits = in_range-on_map s lba len v.log taken word in
    let r = Writes-right lay decode lba len source s f n t g v fits w in
    let e = Writes-over lay decode lba len source s f n t g v fits w ok last in
    Session-refines lay decode t g cs u h (copy_sectors d lba len source) r.sane
      (Written-disk s t f g lba len source d same (rw (sym e) r.written)) rest
Session-refines lay decode s f _ u h d v same
      (read {lba = lba} {len = len} {buffer = buffer} {cs = cs} env blank taken word all rest) =
    let fits = in_range-on_map s lba len v.log taken word in
    let (sane, right, now) = Session-refines lay decode s f cs u h d v same rest in
    let given : ReadRight env s f lba len (complete buffer) =
      subst (ReadRight env s f lba len) all (
        read_loop-right env s f lba len blank v.well_formed (Log-MapPlaces s v.log)
          (omega (arith, fits, v.log.map_small))) in
    (sane, (λ k lt. given k lt ∙ same (lba + k), right), now)
