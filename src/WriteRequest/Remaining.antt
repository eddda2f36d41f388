-- ===== src/WriteRequest/Remaining.antt =====
-- driver/vrelocation.c: the blocks of the next chunk that remain to be relocated, and the room that
-- the purges left in the current chunk have for them.
use fdlvling.Base.{
  ℕ, zero, suc, ◌+◌, ◌-◌, ◌*◌, ◌/◌, ◌%◌, ◌≤◌, ◌<◌, ◌≡◌, ◌≢◌, refl, sym, ap, ◌∙◌, Bool, true, false,
  arith, ◌==◌, if◌then◌else◌, ℕ_discrete as dec_eq,
}
use fdlvling.Store.{Store, not_mapped, size_of_chunk, last_purge_pos, get_cached_pos}
use fdlvling.Store.Lookup.{WellFormed, get_cached_pos_lem, missing}
use fdlvling.Store.Cache.{KeepsEntries}
use fdlvling.Chunk.Usage.{in_chunk, placed}

-- The number of the first `n` blocks that are placed in chunk `c` and not found in the cache.
unfoldable pub waiting : ℕ → (ℕ → ℕ) → ℕ → (ℕ → ℕ) → ℕ
waiting zero map c found = 0
waiting (suc n) map c found =
    (if found (8 * n) == not_mapped then in_chunk c (map n) else 0) + waiting n map c found

-- The cache finds at least what it found before.
abbrev pub Finds : (ℕ → ℕ) → (ℕ → ℕ) → Type 0
Finds found found' = (x : ℕ) → found' x ≡ not_mapped → found x ≡ not_mapped

pub waiting-le :
    (n : ℕ) (map : ℕ → ℕ) (c : ℕ) (found : ℕ → ℕ) → waiting n map c found ≤ placed n map c
unfolding waiting placed
waiting-le zero map c found = omega arith
waiting-le (suc n) map c found = ground (arith, waiting-le n map c found)

pub waiting-fewer :
    (n : ℕ) (map : ℕ → ℕ) (c : ℕ) (found found' : ℕ → ℕ)
    → Finds found found'
    → waiting n map c found' ≤ waiting n map c found
unfolding waiting
waiting-fewer zero map c found found' h = omega arith
waiting-fewer (suc n) map c found found' h =
    ground (arith, h (8 * n), waiting-fewer n map c found found' h)

-- A block of the chunk that is found from now on.
pub waiting-one :
    (n : ℕ) (map : ℕ → ℕ) (c : ℕ) (found found' : ℕ → ℕ) (j : ℕ)
    → Finds found found'
    → j < n
    → in_chunk c (map j) ≡ 1
    → found (8 * j) ≡ not_mapped
    → found' (8 * j) ≢ not_mapped
    → waiting n map c found' + 1 ≤ waiting n map c found
unfolding waiting
waiting-one zero map c found found' j h lt one gone there = absurd (omega arith)
waiting-one (suc n) map c found found' j h lt one gone there = elim (dec_eq j n) [
  | yes e ↦
      let one' : in_chunk c (map n) ≡ 1 = ap (λ i. in_chunk c (map i)) (sym e) ∙ one in
      let gone' : found (8 * n) ≡ not_mapped = ap (λ i. found (8 * i)) (sym e) ∙ gone in
      let there' : found' (8 * n) ≢ not_mapped = λ z. there (ap (λ i. found' (8 * i)) e ∙ z) in
      ground (arith, one', gone', there', waiting-fewer n map c found found' h)
  | no d ↦
      let rest = waiting-one n map c found found' j h (omega arith) one gone there in
      ground (arith, h (8 * n), rest)
]

-- All blocks of the chunk are found.
pub waiting-none :
    (n : ℕ) (map : ℕ → ℕ) (c : ℕ) (found : ℕ → ℕ)
    → ((j : ℕ) → map j ≢ not_mapped → map j / size_of_chunk ≡ c → found (8 * j) ≢ not_mapped)
    → waiting n map c found ≡ 0
unfolding waiting
waiting-none zero map c found h = refl
waiting-none (suc n) map c found h = ground (arith, h n, waiting-none n map c found h)

in_chunk-le :
    (c p q f : ℕ)
    → (q ≢ not_mapped → q / size_of_chunk ≡ c → (p ≡ q) × (f ≡ not_mapped))
    → in_chunk c q ≤ (if f == not_mapped then in_chunk c p else 0)
in_chunk-le c p q f h = elim (dec_eq q not_mapped) [
  | yes free ↦ rw free (omega arith)
  | no there ↦ elim (dec_eq (q / size_of_chunk) c) [
    | yes here ↦ let (same, gone) = h there here in rw (gone, same) (omega arith)
    | no away ↦
        let none_here : in_chunk c q ≡ 0 = ground (arith, away) in rw none_here (omega arith)
  ]
]

-- Where a new map has only blocks in the chunk that were not found there.
pub placed-le-waiting :
    (n : ℕ) (map map' : ℕ → ℕ) (c : ℕ) (found : ℕ → ℕ)
    → ((j : ℕ)
        → map' j ≢ not_mapped
        → map' j / size_of_chunk ≡ c
        → (map j ≡ map' j) × (found (8 * j) ≡ not_mapped))
    → placed n map' c ≤ waiting n map c found
unfolding waiting placed
placed-le-waiting zero map map' c found h = omega arith
placed-le-waiting (suc n) map map' c found h = omega (
  arith,
  in_chunk-le c (map n) (map' n) (found (8 * n)) (h n),
  placed-le-waiting n map map' c found h,
)

-- The part of the context that the relocation counts with; `found` is GetCachedPos, and `used` the use
-- of the next chunk.
pub record Progress : Type 0 where
  pub size_of_map : ℕ
  pub map : ℕ → ℕ
  pub next_chunk_no : ℕ
  pub used : ℕ
  pub purge_pos : ℕ
  pub cache_pos : ℕ
  pub found : ℕ → ℕ
  pub next_chunk_lba : ℕ → ℕ
  pub relocate_pos : ℕ
  pub relocate_target : ℕ
  pub relocate_source : ℕ
  pub prepared : Bool
  pub done : Bool

abbrev pub progress_of : Store → Progress
progress_of s = record {
  size_of_map = s.size_of_map;
  map = s.map;
  next_chunk_no = s.next_chunk_no;
  used = (s.chunk_info s.next_chunk_no).used;
  purge_pos = s.purge_pos;
  cache_pos = s.cache_pos;
  found = get_cached_pos s;
  next_chunk_lba = s.next_chunk_lba;
  relocate_pos = s.relocate_pos;
  relocate_target = s.relocate_target;
  relocate_source = s.relocate_source;
  prepared = s.relocation_prepared;
  done = s.relocation_done;
}

-- The purges that the current chunk has room for, and the blocks of the next chunk that are not in the
-- cache.
abbrev pub purges_left : ℕ → ℕ
purges_left purge_pos = (last_purge_pos - purge_pos) / 512

abbrev pub remaining : Progress → ℕ
remaining p = waiting p.size_of_map p.map p.next_chunk_no p.found

-- CHUNK_CTL of the next chunk, once it is read, names each block that is in use there.
abbrev pub NamesAll : (ℕ → ℕ) → ℕ → (ℕ → ℕ) → Type 0
NamesAll map chunk lbas =
    (j : ℕ)
    → map j ≢ not_mapped
    → map j / size_of_chunk ≡ chunk
    → lbas (map j % size_of_chunk / 8) ≡ 8 * j

-- Once the relocation is prepared, with `from` purges left then: what it counts with, and that each
-- block before RelocatePos is in the cache.
pub record Prepared (p : Progress) : Type 0 where
  pub from : ℕ
  pub from_in : from ≤ 511
  pub target : p.relocate_target ≡ 64 * from
  pub source : p.relocate_source ≤ 63 * from
  pub fewer : purges_left p.purge_pos ≤ from
  pub named : NamesAll p.map p.next_chunk_no p.next_chunk_lba
  pub joined :
      (j : ℕ)
      → p.map j ≢ not_mapped
      → p.map j / size_of_chunk ≡ p.next_chunk_no
      → p.map j % size_of_chunk < p.relocate_pos
      → p.found (8 * j) ≢ not_mapped

-- The blocks of the next chunk fit into the purges left, of 63 blocks each: those in use there, or,
-- once the relocation into this cache is done, those that this cache leaves there into the purges
-- after this one.
pub record Fits (p : Progress) : Type 0 where
  pub fresh : p.prepared ≡ false → p.done ≡ false
  pub room : p.done ≡ false → p.used ≤ 63 * purges_left p.purge_pos
  pub share : p.prepared ≡ true → p.done ≡ false → remaining p + p.cache_pos / 8 ≤ p.used
  pub enough : p.prepared ≡ true → p.done ≡ true → remaining p ≤ 63 * (purges_left p.purge_pos - 1)
  pub ready : p.prepared ≡ true → Prepared p

pub KeepsEntries-Finds :
    (s t : Store)
    → WellFormed s.cache_lba s.cache_pos
    → WellFormed t.cache_lba t.cache_pos
    → KeepsEntries s t
    → Finds (get_cached_pos s) (get_cached_pos t)
KeepsEntries-Finds s t w w' (le, same) x gone = elim (dec_eq (get_cached_pos s x) not_mapped) [
  | yes e ↦ e
  | no there ↦
      let (lt, at) = (get_cached_pos_lem s x w).1 there in
      absurd
        (missing t x (get_cached_pos s x) w' gone (omega arith) (same (get_cached_pos s x) lt ∙ at))
]

pub Fits-used : (p : Progress) (u : ℕ) → u ≡ p.used → Fits p → Fits (record p { used = u })
Fits-used p u e f = rw e f

-- Another cache that finds as much, once the relocation is done.
pub Fits-cache :
    (p : Progress) (pos : ℕ) (found : ℕ → ℕ)
    → p.prepared ≡ true
    → p.done ≡ true
    → Finds p.found found
    → Fits p
    → Fits (record p { cache_pos = pos; found = found })
Fits-cache p pos found prepared done finds f =
    let r = f.ready prepared in
    let fewer = waiting-fewer p.size_of_map p.map p.next_chunk_no p.found found finds in
    record {
      fresh = f.fresh;
      room = f.room;
      share = λ _ e. absurd (cc (e, done));
      enough = λ _ _. omega (arith, f.enough prepared done, fewer);
      ready = λ _. record {
        from = r.from;
        from_in = r.from_in;
        target = r.target;
        source = r.source;
        fewer = r.fewer;
        named = r.named;
        joined = λ j there own below z. r.joined j there own below (finds (8 * j) z);
      };
    }
