-- ===== src/WriteRequest/Placing.antt =====
-- driver/vscsi.c: the rounds of ExecuteWriteHandler in which sectors are placed come to an end.
use fdlvling.Base.{
  ℕ, zero, suc, ◌+◌, ◌-◌, ◌*◌, ◌≤◌, ◌<◌, ◌≡◌, refl, sym, ap, ◌∙◌, ◌⊎◌, inl, inr, Bool, not, Option,
  some, arith, leb, ◌==◌, if_cases, if-true, if-false, ℕ_discrete as dec_eq,
}
use fdlvling.Store.{Store, Flash, last_purge_pos, last_cache_pos}
use fdlvling.Flush.{Layout}
use fdlvling.WritePath.{Placed, go_on, purge_cache, fill_read, write_place}
use fdlvling.WritePath.Outcome.{PlacedRight}
use fdlvling.WritePath.Place.{write_place-right}
use fdlvling.WriteRequest.{
  WriteStep, no_resources, not_ready, all_done, awaits_cache, awaits_fill, placed_step, place_round,
  relocate_round, prepare_round, write_round, next_round, add_done, write_handler, answered,
}
use fdlvling.WriteRequest.Invariant.{Sane, Kept}
use fdlvling.WriteRequest.Purge.{purge_cache-Kept}
use fdlvling.WriteRequest.Cache.{CacheOnly-Sane, cache_fill_read-Kept, cache_word}
use fdlvling.WriteRequest.Handler.{Placing, Waiting, HandlerEnds, Kept-Reached, more-ends}

-- The rounds that are left at most, in a state where sectors are placed.
unfoldable pub rounds_left : Store → ℕ → ℕ
rounds_left s len = 505 * len + (last_cache_pos - s.cache_pos)

module _ (lay : Layout) (decode : (ℕ → ℕ) → ℕ → ℕ) (flash : Flash) where
  unfoldable pub CallEnds : Store → ℕ → ℕ → (ℕ → ℕ) → Option (WriteStep × ℕ) → Type 0
  CallEnds s lba len source r = HandlerEnds lay decode flash s lba len source r

  -- A round that waits.
  pub waits-ends :
      (s : Store) (lba len : ℕ) (source : ℕ → ℕ) (e : WriteStep) (t : Store) (g : Flash)
      → Waiting e
      → answered lay decode flash e ≡ some (t, g, 0)
      → Kept s flash t g
      → CallEnds s lba len source (some (e, 0))
  unfolding CallEnds
  waits-ends s lba len source e t g waits next k = (
    e,
    0,
    refl,
    inr (inr (t, g, waits, next, Kept-Reached lay decode flash s t g lba len source k)),
  )

  -- The round from the search in the cache on, and the rounds after it.
  module _ (fuel : ℕ) (active : ℕ → Bool) (s : Store) (lba len : ℕ) (source : ℕ → ℕ)
      (v : Sane s flash) (p : Placing s) (some_len : 0 < len)
      (on_map : lba + len ≤ 8 * s.size_of_map) (enough : rounds_left s len ≤ fuel)
      (ih : (t : Store) (lba' len' : ℕ) (source' : ℕ → ℕ)
        → Sane t flash
        → Placing t
        → lba' + len' ≤ 8 * t.size_of_map
        → rounds_left t len' < fuel
        → CallEnds t lba' len' source' (write_handler fuel active t lba' len' source')) where
    placed-ends :
        (w : Placed)
        → PlacedRight s flash lba len source w
        → CallEnds s lba len source (
            next_round (placed_step s w) (λ t k.
              add_done k (write_handler fuel active t (lba + k) (len - k) (λ i. source (k + i)))))
    unfolding CallEnds placed_step next_round answered rounds_left
    placed-ends (go_on t n) (w, bound, wrote, progress, only, stays, keeps) =
        let size = ap (λ (u : Store). u.size_of_map) only in
        let v' =
          CacheOnly-Sane s flash v p.inside p.prepared p.done t only w
            (stays (v.mapped, λ k h. omega (arith, on_map, h))) keeps in
        more-ends lay decode flash s t lba len n source size bound wrote _ (
          ih t (lba + n) (len - n) (λ i. source (n + i)) v'
            (record {
              inside = omega (arith, p.inside, ap (λ (u : Store). u.purge_pos) only);
              prepared = ap (λ (u : Store). u.relocation_prepared) only ∙ p.prepared;
              done = ap (λ (u : Store). u.relocation_done) only ∙ p.done;
            })
            (omega (arith, on_map, size, bound))
            (elim progress [
              | inl forward ↦ omega (arith, forward, bound, enough, v.well_formed.fits)
              | inr grown ↦ omega (arith, grown, bound, enough, w.fits)
            ]))
    placed-ends purge_cache full =
        waits-ends s lba len source (awaits_cache s) _ _ tt refl (
          purge_cache-Kept lay.purge_ctl s flash v p.inside p.prepared p.done (omega (arith, full)))
    placed-ends (fill_read start n) (a, o, there) =
        waits-ends s lba len source (awaits_fill s start n) _ _ tt refl
          (cache_fill_read-Kept s flash v p.inside p.prepared p.done start n a o there)

    pub place-ends : CallEnds s lba len source (
        next_round (place_round s lba len source) (λ t k.
          add_done k (write_handler fuel active t (lba + k) (len - k) (λ i. source (k + i)))))
    unfolding place_round
    place-ends = placed-ends (write_place s lba len source) (
        write_place-right s flash lba len source v.well_formed (cache_word s flash v) some_len
          (omega (arith, on_map, v.log.map_small)))

  -- While sectors are placed, every round is a round from the search in the cache on.
  Placing-round :
      (s : Store) (lba len : ℕ) (source : ℕ → ℕ)
      → Placing s
      → 0 < len
      → write_round s lba len source ≡ place_round s lba len source
  unfolding write_round prepare_round relocate_round
  Placing-round s lba len source p some_len =
      if-false (len == 0) _ _ (ground arith)
      ∙ if-false (leb last_purge_pos s.purge_pos) _ _ (ground (arith, p.inside))
      ∙ if-false (not s.relocation_prepared) _ _ (ap not p.prepared)
      ∙ if-false (not s.relocation_done) _ _ (ap not p.done)

  same-Kept : (s : Store) → Sane s flash → Kept s flash s flash
  same-Kept s v = record { sane = v; same_view = λ x. refl; same_size = refl }

  pub over-ends :
      (s : Store) (lba len : ℕ) (source : ℕ → ℕ)
      → Sane s flash
      → len ≡ 0
      → CallEnds s lba len source (some (all_done s, 0))
  unfolding CallEnds
  over-ends s lba len source v e = (
    all_done s,
    0,
    refl,
    inl (s, refl, sym e, Kept-Reached lay decode flash s s flash lba len source (same-Kept s v)),
  )

  pub over-round :
      (s : Store) (lba len : ℕ) (source : ℕ → ℕ)
      → len ≡ 0
      → write_round s lba len source ≡ all_done s
  unfolding write_round
  over-round s lba len source e = if-true (len == 0) _ _ (ground (arith, e))

  -- A call that is refused at once.
  pub refused-ends :
      (s : Store) (lba len : ℕ) (source : ℕ → ℕ) (e : WriteStep)
      → Sane s flash
      → (e ≡ no_resources s) ⊎ (e ≡ not_ready s)
      → CallEnds s lba len source (some (e, 0))
  unfolding CallEnds
  refused-ends s lba len source e v refused = (
    e,
    0,
    refl,
    inr (inl (s, refused, Kept-Reached lay decode flash s s flash lba len source (same-Kept s v))),
  )

  pub Placing-ends :
      (fuel : ℕ) (active : ℕ → Bool) (s : Store) (lba len : ℕ) (source : ℕ → ℕ)
      → Sane s flash
      → Placing s
      → lba + len ≤ 8 * s.size_of_map
      → rounds_left s len < fuel
      → CallEnds s lba len source (write_handler fuel active s lba len source)
  unfolding write_handler write_round next_round
  Placing-ends zero active s lba len source v p on_map enough = absurd (omega (arith, enough))
  Placing-ends (suc fuel) active s lba len source v p on_map enough =
      if_cases (CallEnds s lba len source) (not (active fuel)) _ _
        (λ _. refused-ends s lba len source (not_ready s) v (inr refl))
        (λ _. elim (dec_eq len 0) [
          | yes all ↦ rw (over-round s lba len source all) (over-ends s lba len source v all)
          | no more ↦ rw (Placing-round s lba len source p (omega arith)) (
              place-ends fuel active s lba len source v p (omega arith) on_map
                (omega (arith, enough)) (Placing-ends fuel active))
        ])
