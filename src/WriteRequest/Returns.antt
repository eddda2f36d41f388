-- ===== src/WriteRequest/Returns.antt =====
-- driver/vscsi.c: a call of ExecuteWriteHandler returns.
use fdlvling.Base.{
  ℕ, suc, ◌+◌, ◌-◌, ◌*◌, ◌≤◌, ◌<◌, ◌≡◌, refl, inl, inr, Bool, true, false, not, arith, leb, ltb,
  ◌==◌, if_cases, ℕ_discrete as dec_eq,
}
use fdlvling.Store.{Store, Flash, last_purge_pos}
use fdlvling.Flush.{Layout}
use fdlvling.Relocation.{execute_relocate_cached}
use fdlvling.WritePath.Switch.{switch_chunk}
use fdlvling.WriteRequest.{
  WriteStep, no_resources, not_ready, execute_write_handler, all_done, awaits_chunk, awaits_prepare,
  place_round, relocated_round, relocate_round, prepare_round, write_round, next_round, add_done,
  write_handler, answered,
}
use fdlvling.WriteRequest.Invariant.{Sane}
use fdlvling.WriteRequest.Chunks.{Named, purge_chunk-Kept, switch_chunk-Kept, prepare-Kept}
use fdlvling.WriteRequest.Relocate.{
  relocate_cached-Kept, relocate_cached-ready, relocate_window-Kept,
}
use fdlvling.WriteRequest.Rounds.{Allowed}
use fdlvling.WriteRequest.Handler.{HandlerEnds, after-ends}
use fdlvling.WriteRequest.Placing.{
  rounds_left, CallEnds, waits-ends, place-ends, over-round, over-ends, Placing-ends, refused-ends,
}

module _ (lay : Layout) (decode : (ℕ → ℕ) → ℕ → ℕ) (flash : Flash) where
  -- The first round of a call, which may do the relocation from the window, or begin the next chunk,
  -- before it places sectors.
  module _ (fuel : ℕ) (active : ℕ → Bool) (lba len : ℕ) (source : ℕ → ℕ)
      (enough : 505 * len + 504 ≤ fuel) (some_len : 0 < len) where
    Goes : Store → WriteStep → Type 0
    Goes s r = CallEnds lay decode flash s lba len source (
        next_round r (λ t k.
          add_done k (write_handler fuel active t (lba + k) (len - k) (λ i. source (k + i)))))

    module _ (s : Store) (v : Sane s flash) (on_map : lba + len ≤ 8 * s.size_of_map)
        (inside : s.purge_pos < last_purge_pos) where
      first-place :
          s.relocation_prepared ≡ true
          → s.relocation_done ≡ true
          → Goes s (place_round s lba len source)
      unfolding Goes rounds_left
      first-place prepared done =
          place-ends lay decode flash fuel active s lba len source v
            (record { inside = inside; prepared = prepared; done = done }) some_len on_map
            (omega (arith, enough)) (Placing-ends lay decode flash fuel active)

    first-relocate :
        (s : Store)
        → Sane s flash
        → lba + len ≤ 8 * s.size_of_map
        → s.purge_pos < last_purge_pos
        → s.relocation_prepared ≡ true
        → Goes s (relocate_round s lba len source)
    unfolding Goes relocate_round relocated_round next_round answered CallEnds
    first-relocate s v on_map inside prepared =
        if_cases (Goes s) (not s.relocation_done) _ (place_round s lba len source)
          (λ e.
            let going : s.relocation_done ≡ false = ground (arith, e) in
            let t = execute_relocate_cached s in
            let k = relocate_cached-Kept s flash v inside prepared going in
            let (inside', prepared') = relocate_cached-ready s flash v inside prepared going in
            if_cases (Goes s) (not t.relocation_done) _ (place_round t lba len source)
              (λ _.
                waits-ends lay decode flash s lba len source _ _ _ tt refl
                  (relocate_window-Kept s flash v inside prepared going))
              (λ d. after-ends lay decode flash s t lba len source _ k (
                first-place t k.sane (omega (arith, on_map, k.same_size)) inside' prepared'
                  (ground (arith, d)))))
          (λ e. first-place s v on_map inside prepared (ground (arith, e)))

    first-prepare :
        (s : Store)
        → Sane s flash
        → lba + len ≤ 8 * s.size_of_map
        → s.purge_pos < last_purge_pos
        → (s.relocation_prepared ≡ false → Named decode s flash)
        → Goes s (prepare_round s lba len source)
    unfolding Goes prepare_round next_round answered
    first-prepare s v on_map inside named =
        if_cases (Goes s) (not s.relocation_prepared) _ (relocate_round s lba len source)
          (λ e.
            let fresh : s.relocation_prepared ≡ false = ground (arith, e) in
            waits-ends lay decode flash s lba len source (awaits_prepare s) _ flash tt refl
              (prepare-Kept decode s flash v fresh (named fresh)))
          (λ e. first-relocate s v on_map inside (ground (arith, e)))

    first-round :
        (s : Store)
        → Sane s flash
        → lba + len ≤ 8 * s.size_of_map
        → Allowed decode s flash
        → Goes s (write_round s lba len source)
    unfolding Goes write_round next_round answered switch_chunk CallEnds
    first-round s v on_map ok =
        if_cases (Goes s) (len == 0) (all_done s) _ (λ e. absurd (ground (arith, some_len, e)))
          (λ _.
            if_cases (Goes s) (leb last_purge_pos s.purge_pos) _ (prepare_round s lba len source)
              (λ e.
                let ended : last_purge_pos ≤ s.purge_pos = ground (arith, e) in
                if_cases (Goes s) (ltb s.finalized_pos last_purge_pos) (awaits_chunk s)
                  (prepare_round (switch_chunk s) lba len source)
                  (λ _.
                    waits-ends lay decode flash s lba len source (awaits_chunk s) _ _ tt refl
                      (purge_chunk-Kept lay s flash v ended))
                  (λ final.
                    let (may, named) = ok.switches ended (ground (arith, final)) in
                    let t = switch_chunk s in
                    let k = switch_chunk-Kept s flash v ended may in
                    after-ends lay decode flash s t lba len source _ k (
                      first-prepare t k.sane (omega (arith, on_map, k.same_size)) (ground arith)
                        (λ _. named))))
              (λ e. first-prepare s v on_map (ground (arith, e)) ok.prepares))

  -- A call of ExecuteWriteHandler returns: from a state that satisfies the invariant `Sane` and is
  -- `Allowed`, for a request on the map, it ends within 505 * (LEN + 1) rounds. `Allowed` is: if a chunk
  -- is to be begun, SCN + 1 is below 2 ^ 32 and the chunk that FindNextChunk chooses then has no more
  -- blocks in use than 63 for each purge that the new chunk has room for; if the relocation is to be
  -- prepared, CHUNK_CTL of the next chunk names each block in use there. The call ends in one of three
  -- ways. All sectors are transferred; or there is no system address, or the mode
  -- is found not to be ACTIVE; or it waits for a request to the drive. In the state that is left, by
  -- that request where there is one that succeeds, the invariant holds, the sectors transferred so far have
  -- their data, and every other sector has the contents that it had before the call.
  pub write_handler-ends :
      (addressable : Bool) (active : ℕ → Bool) (lba len : ℕ) (source : ℕ → ℕ) (s : Store)
      → Sane s flash
      → lba + len ≤ 8 * s.size_of_map
      → Allowed decode s flash
      → HandlerEnds lay decode flash s lba len source
          (execute_write_handler addressable (suc (505 * len + 504)) active s lba len source)
  unfolding CallEnds Goes execute_write_handler next_round
  write_handler-ends addressable active lba len source s v on_map ok =
      if_cases (CallEnds lay decode flash s lba len source) (not addressable) _ _
        (λ _. refused-ends lay decode flash s lba len source (no_resources s) v (inl refl))
        (λ _.
          if_cases (CallEnds lay decode flash s lba len source) (not (active (505 * len + 504))) _ _
            (λ _. refused-ends lay decode flash s lba len source (not_ready s) v (inr refl))
            (λ _. elim (dec_eq len 0) [
              | yes all ↦
                  rw (over-round lay decode flash s lba len source all)
                    (over-ends lay decode flash s lba len source v all)
              | no more ↦
                  first-round (505 * len + 504) active lba len source (omega arith) (omega arith) s
                    v on_map ok
            ]))
