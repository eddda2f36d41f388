-- ===== src/WriteRequest/Enough.antt =====
-- driver/vrelocation.c: when the relocation into a cache is done, the blocks that are left in the next
-- chunk fit into the purges after this one.
use fdlvling.Base.{
  ℕ, ◌+◌, ◌-◌, ◌*◌, ◌/◌, ◌%◌, ◌^◌, ◌≤◌, ◌<◌, ◌≡◌, ◌≢◌, refl, sym, ap, ◌∙◌, inl, inr, Bool, true,
  false, arith, sub32, mul32, if_cases, if◌then◌else◌, dec_lt,
}
use fdlvling.Store.{
  Store, Flash, not_mapped, size_of_chunk, size_of_cache, last_purge_pos, get_cached_pos,
}
use fdlvling.Relocation.{
  relocate_blocks, enough_relocated, execute_relocate_cached, execute_relocate, relocate_read,
}
use fdlvling.Relocation.Blocks.{LogState, log_of, Relocating}
use fdlvling.Relocation.Contents.{relocate_blocks-right}
use fdlvling.Relocation.Prepared.{relocate_blocks-prepared}
use fdlvling.WriteRequest.Remaining.{waiting-none, progress_of, purges_left, remaining, Fits}
use fdlvling.WriteRequest.Invariant.{true_false}
use fdlvling.WriteRequest.Joining.{Going, LoopEnds, relocate_blocks-Going}

mul-le : (c a b : ℕ) → a ≤ b → c * a ≤ c * b
mul-le c a b h = grind arith

-- The proportion that the test compares.
share_of :
    (from source u p : ℕ) → 0 < from → source ≤ 63 * from → from * u ≤ source * p → u ≤ 63 * p
share_of from source u p h le e = elim (dec_lt (63 * p) u) [
  | no fine ↦ omega arith
  | yes more ↦
      absurd
        (omega (arith, mul-le from (63 * p + 1) u (omega arith), mul-le p source (63 * from) le, e))
]

target_word : (from u : ℕ) → from ≤ 511 → u ≤ 32193 → 64 * from * u < 2 ^ 32
target_word from u h k = grind arith

source_word : (s p : ℕ) → s ≤ 32193 → p ≤ 510 → s * (64 * p) < 2 ^ 32
source_word s p h k = grind arith

module _ (s : Store) (flash : Flash) (v : Relocating s flash) (f : Fits (progress_of s))
    (prepared : s.relocation_prepared ≡ true) (going : s.relocation_done ≡ false)
    (pos_whole : s.purge_pos % size_of_cache ≡ 0) (inside : s.purge_pos < last_purge_pos)
    (places : (j : ℕ)
      → s.map j ≢ not_mapped
      → (j < s.size_of_map)
        × (s.map j % 8 ≡ 0)
        × (s.map j % size_of_chunk + 8 ≤ last_purge_pos)) where
  -- The test that ends the relocation.
  enough-remaining :
      enough_relocated s ≡ true → remaining (progress_of s) ≤ 63 * (purges_left s.purge_pos - 1)
  unfolding enough_relocated
  enough-remaining e =
      let p = f.ready prepared in
      let room = f.room going in
      let share = f.share prepared going in
      let used = (s.chunk_info s.next_chunk_no).used in
      let u : ℕ = used - s.cache_pos / 8 in
      let left : ℕ = purges_left s.purge_pos - 1 in
      let small : u ≤ 32193 = omega (arith, room) in
      let unused : sub32 used (s.cache_pos / 8) ≡ u = omega (arith, room, share) in
      let rest : sub32 (sub32 last_purge_pos size_of_cache) s.purge_pos / 8 ≡ 64 * left =
        omega (arith, pos_whole, inside) in
      let a : mul32 s.relocate_target (sub32 used (s.cache_pos / 8)) ≡ 64 * p.from * u =
        ap (λ x. mul32 s.relocate_target x) unused
        ∙ ap (λ x. mul32 x u) p.target
        ∙ omega (arith, target_word p.from u p.from_in small) in
      let b : mul32 s.relocate_source (sub32 (sub32 last_purge_pos size_of_cache) s.purge_pos / 8)
          ≡ s.relocate_source * (64 * left) =
        ap (λ x. mul32 s.relocate_source x) rest
        ∙ omega (
          arith,
          source_word s.relocate_source left (omega (arith, p.source, p.from_in)) (omega arith),
        ) in
      let c : 64 * p.from * u ≤ s.relocate_source * (64 * left) = ground (arith, e, a, b) in
      let d =
        share_of p.from s.relocate_source u left (omega (arith, p.fewer, pos_whole, inside))
          p.source (omega (arith, c)) in
      omega (arith, d, share)

  start-Going : Going s.relocate_target s.relocate_source s
  start-Going =
      let p = f.ready prepared in
      record {
        same_target = refl;
        same_source = refl;
        places = λ j there. ((places j there).0, (places j there).1);
        share = f.share prepared going;
        named = p.named;
        joined = p.joined;
      }

  -- What the loop leaves, with the flag that it is done.
  loop-Fits :
      (t : Store) (done : Bool)
      → Going s.relocate_target s.relocate_source t
      → log_of t ≡ log_of s
      → t.relocation_prepared ≡ true
      → (done ≡ true → LoopEnds t)
      → Fits (progress_of (record t { relocation_done = done }))
  unfolding get_cached_pos
  loop-Fits t done g same ready over =
      let p = f.ready prepared in
      let use_same : (t.chunk_info t.next_chunk_no).used ≡ (s.chunk_info s.next_chunk_no).used =
        ap (λ (l : LogState). (l.chunk_info l.next_chunk_no).used) same in
      let pos_same : t.purge_pos ≡ s.purge_pos = ap (λ (l : LogState). l.purge_pos) same in
      let map_same : t.map ≡ s.map = ap (λ (l : LogState). l.map) same in
      let room = f.room going in
      record {
        fresh = λ e. true_false (sym ready ∙ e);
        room = λ _. omega (arith, room, use_same, pos_same);
        share = λ _ _. g.share;
        enough = λ _ e. elim (over e) [
          | inl behind ↦
              let none_left =
                waiting-none t.size_of_map t.map t.next_chunk_no (get_cached_pos t) (λ j there own.
                  let at = ap (λ (m : ℕ → ℕ). m j) map_same in
                  g.joined j there own
                    (omega (arith, at, behind, (places j (λ z. there (at ∙ z))).2))) in
              omega (arith, none_left)
          | inr full ↦ omega (arith, full, g.share, room, use_same, pos_same)
        ];
        ready = λ _. record {
          from = p.from;
          from_in = p.from_in;
          target = g.same_target ∙ p.target;
          source = omega (arith, g.same_source, p.source);
          fewer = omega (arith, pos_same, p.fewer);
          named = g.named;
          joined = g.joined;
        };
      }

  -- The relocation keeps up with the chunk: in a context that satisfies the invariant of the relocation,
  -- whose relocation is prepared and not done, with room for a purge in the current chunk and every block
  -- placed in the data of a chunk, where the blocks of the next chunk fit into the purges left, they do
  -- so after ExecuteRelocateCached. In particular, where it sets RelocationDone, at the test of the
  -- proportion, with a full cache or at the end of the chunk, the blocks of the next chunk that are not in
  -- the cache are no more than 63 for each purge after this one.
  pub execute_relocate_cached-Fits : Fits (progress_of (execute_relocate_cached s))
  unfolding execute_relocate_cached get_cached_pos
  execute_relocate_cached-Fits =
      let X = λ (t : Store). Fits (progress_of t) in
      let n = last_purge_pos / 8 + 1 - s.relocate_pos / 8 in
      let u = (relocate_blocks n s).0 in
      let (r, same, stop) = relocate_blocks-right n s flash v in
      let (g, over) =
        relocate_blocks-Going s.relocate_target s.relocate_source n s flash v start-Going
          (omega (arith, v.pos_whole, v.pos_in)) in
      let ready = relocate_blocks-prepared n s ∙ prepared in
      let p = f.ready prepared in
      if_cases X (enough_relocated s) (record s { relocation_done = true })
        (if (relocate_blocks n s).1
          then record (relocate_blocks n s).0 { relocation_done = true }
          else (relocate_blocks n s).0)
        (λ e. record {
          fresh = λ h. true_false (sym prepared ∙ h);
          room = λ h. true_false h;
          share = λ _ h. true_false h;
          enough = λ _ _. enough-remaining e;
          ready = λ _. record {
            from = p.from;
            from_in = p.from_in;
            target = p.target;
            source = p.source;
            fewer = p.fewer;
            named = p.named;
            joined = p.joined;
          };
        })
        (λ _.
          if_cases X (relocate_blocks n s).1 _ _
            (λ e. loop-Fits u true g r.same_log ready (λ _. over e))
            (λ _.
              loop-Fits u u.relocation_done g r.same_log ready
                (λ e. true_false (sym e ∙ same ∙ going))))

-- ExecuteRelocate and its read do not count.
pub execute_relocate-Fits :
    (s : Store) (flash : Flash)
    → Fits (progress_of s)
    → Fits (progress_of (relocate_read (execute_relocate s) flash))
unfolding relocate_read execute_relocate get_cached_pos
execute_relocate-Fits s flash f = f
