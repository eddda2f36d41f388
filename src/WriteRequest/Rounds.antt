-- ===== src/WriteRequest/Rounds.antt =====
-- driver/vscsi.c: what a round of a write request, and the request to the drive that it waits for,
-- leave.
use fdlvling.Base.{
  ℕ, ◌+◌, ◌-◌, ◌*◌, ◌≤◌, ◌<◌, ◌≡◌, ◌≢◌, ap, ◌∙◌, true, false, not, Option, none, some, arith, leb,
  ltb, ◌==◌, if_cases, dec_lt,
}
use fdlvling.Store.{Store, Flash, last_purge_pos, view}
use fdlvling.Flush.{Layout}
use fdlvling.Relocation.{execute_relocate_cached}
use fdlvling.WritePath.{Placed, go_on, purge_cache, fill_read, write_place}
use fdlvling.WritePath.Outcome.{PlacedRight}
use fdlvling.WritePath.Place.{write_place-right}
use fdlvling.WritePath.Switch.{switch_chunk}
use fdlvling.WriteRequest.{
  WriteStep, all_done, awaits_chunk, placed_step, place_round, relocated_round, relocate_round,
  prepare_round, write_round, answered, write_step,
}
use fdlvling.WriteRequest.Invariant.{Sane, Kept}
use fdlvling.WriteRequest.Chunks.{
  MaySwitch, Named, purge_chunk-Kept, switch_chunk-Kept, prepare-Kept,
}
use fdlvling.WriteRequest.Purge.{purge_cache-Kept}
use fdlvling.WriteRequest.Relocate.{
  relocate_cached-Kept, relocate_cached-ready, relocate_window-Kept,
}
use fdlvling.WriteRequest.Cache.{CacheOnly-Sane, cache_fill_read-Kept, cache_word}

-- The first `n` sectors from `lba` on have the contents `source`, every other sector the contents
-- that it had before.
abbrev pub Written : Store → Flash → Store → Flash → ℕ → ℕ → (ℕ → ℕ) → Type 0
Written s f t g lba n source =
    (x : ℕ)
    → ((k : ℕ) → k < n → x ≡ lba + k → view t g x ≡ source k)
      × (((k : ℕ) → k < n → x ≢ lba + k) → view t g x ≡ view s f x)

-- A write goes on where it was.
pub Written-more :
    (s t u : Store) (f g h : Flash) (lba n k : ℕ) (source : ℕ → ℕ)
    → Written s f t g lba n source
    → Written t g u h (lba + n) k (λ i. source (n + i))
    → Written s f u h lba (n + k) source
Written-more s t u f g h lba n k source old new x = (
  λ i lt e. elim (dec_lt i n) [
    | yes before ↦ (new x).1 (λ j lt' e'. omega arith) ∙ (old x).0 i before e
    | no after ↦ (new x).0 (i - n) (omega arith) (omega arith) ∙ ap source (omega arith)
  ],
  λ out.
      (new x).1 (λ j lt e. out (n + j) (omega arith) (omega (arith, e)))
      ∙ (old x).1 (λ j lt e. out j (omega arith) e),
)

-- What a step guarantees: the invariant, no more sectors than are left, and the contents. There is
-- none only when no sector is left.
abbrev pub StepRight : Store → Flash → ℕ → ℕ → (ℕ → ℕ) → Option (Store × Flash × ℕ) → Type 0
StepRight s f lba len source none = len ≡ 0
StepRight s f lba len source (some (t, g, n)) =
    Sane t g × (n ≤ len) × (t.size_of_map ≡ s.size_of_map) × Written s f t g lba n source

Kept-right :
    (s t : Store) (f g : Flash) (lba len : ℕ) (source : ℕ → ℕ)
    → Kept s f t g
    → StepRight s f lba len source (some (t, g, 0))
Kept-right s t f g lba len source k =
    (k.sane, omega arith, k.same_size, λ x. (λ i h. absurd (omega (arith, h)), λ _. k.same_view x))

after-Kept :
    (s t : Store) (f g : Flash) (lba len : ℕ) (source : ℕ → ℕ) (o : Option (Store × Flash × ℕ))
    → Kept s f t g
    → StepRight t g lba len source o
    → StepRight s f lba len source o
after-Kept s t f g lba len source none k r = r
after-Kept s t f g lba len source (some (u, h, n)) k (sane, bound, size, wrote) =
    (sane, bound, size ∙ k.same_size, λ x. ((wrote x).0, λ out. (wrote x).1 out ∙ k.same_view x))

-- What a round needs of the drive: where it begins the next chunk, the sequence numbers do not end and
-- the chunk after it can be relocated in time; where it prepares the relocation, CHUNK_CTL of the next
-- chunk names each block in use there.
pub record Allowed (decode : (ℕ → ℕ) → ℕ → ℕ) (s : Store) (flash : Flash) : Type 0 where
  pub switches :
      last_purge_pos ≤ s.purge_pos
      → last_purge_pos ≤ s.finalized_pos
      → MaySwitch s × Named decode (switch_chunk s) flash
  pub prepares : s.relocation_prepared ≡ false → Named decode s flash

module _ (lay : Layout) (decode : (ℕ → ℕ) → ℕ → ℕ) (flash : Flash) (lba len : ℕ)
    (source : ℕ → ℕ) where
  RoundRight : Store → WriteStep → Type 0
  RoundRight s r = StepRight s flash lba len source (answered lay decode flash r)

  module _ (s : Store) (v : Sane s flash) (some_len : 0 < len)
      (on_map : lba + len ≤ 8 * s.size_of_map) (inside : s.purge_pos < last_purge_pos)
      (prepared : s.relocation_prepared ≡ true) where
    placed-right :
        s.relocation_done ≡ true
        → (p : Placed) → PlacedRight s flash lba len source p
        → RoundRight s (placed_step s p)
    unfolding RoundRight answered placed_step
    placed-right done (go_on t n) (w, bound, wrote, progress, only, stays, keeps) = (
      CacheOnly-Sane s flash v inside prepared done t only w
          (stays (v.mapped, λ k h. omega (arith, on_map, h))) keeps,
      bound,
      ap (λ (u : Store). u.size_of_map) only,
      wrote,
    )
    placed-right done purge_cache full =
        Kept-right s _ flash _ lba len source
          (purge_cache-Kept lay.purge_ctl s flash v inside prepared done (omega (arith, full)))
    placed-right done (fill_read start n) (a, o, there) =
        Kept-right s _ flash _ lba len source
          (cache_fill_read-Kept s flash v inside prepared done start n a o there)

    place_round-right : s.relocation_done ≡ true → RoundRight s (place_round s lba len source)
    unfolding place_round
    place_round-right done = placed-right done (write_place s lba len source) (
        write_place-right s flash lba len source v.well_formed (cache_word s flash v) some_len
          (omega (arith, on_map, v.log.map_small)))

  module _ (s : Store) (v : Sane s flash) (some_len : 0 < len)
      (on_map : lba + len ≤ 8 * s.size_of_map) (inside : s.purge_pos < last_purge_pos) where
    relocate_round-right :
        s.relocation_prepared ≡ true → RoundRight s (relocate_round s lba len source)
    unfolding RoundRight answered relocate_round relocated_round
    relocate_round-right prepared =
        if_cases (RoundRight s) (not s.relocation_done) _ (place_round s lba len source)
          (λ e.
            let going : s.relocation_done ≡ false = ground (arith, e) in
            let t = execute_relocate_cached s in
            let k = relocate_cached-Kept s flash v inside prepared going in
            let (inside', prepared') = relocate_cached-ready s flash v inside prepared going in
            if_cases (RoundRight s) (not t.relocation_done) _ (place_round t lba len source)
              (λ _.
                Kept-right s _ flash flash lba len source
                  (relocate_window-Kept s flash v inside prepared going))
              (λ d.
                after-Kept s t flash flash lba len source
                  (answered lay decode flash (place_round t lba len source)) k
                  (place_round-right t k.sane some_len (omega (arith, on_map, k.same_size)) inside'
                    prepared' (ground (arith, d)))))
          (λ e. place_round-right s v some_len on_map inside prepared (ground (arith, e)))

    prepare_round-right :
        (s.relocation_prepared ≡ false → Named decode s flash)
        → RoundRight s (prepare_round s lba len source)
    unfolding RoundRight answered prepare_round
    prepare_round-right named =
        if_cases (RoundRight s) (not s.relocation_prepared) _ (relocate_round s lba len source)
          (λ e.
            let fresh : s.relocation_prepared ≡ false = ground (arith, e) in
            Kept-right s _ flash flash lba len source
              (prepare-Kept decode s flash v fresh (named fresh)))
          (λ e. relocate_round-right (ground (arith, e)))

  -- In a sane state, for a request on the map, where the driver and the layouts guarantee what is
  -- allowed, whatever ends the round: if there is a step, it keeps the invariant, transfers no more
  -- sectors than are left, and writes their data and changes the contents of no other sector; there
  -- is none only when no sector is left.
  pub write_step-right :
      (s : Store)
      → Sane s flash
      → lba + len ≤ 8 * s.size_of_map
      → Allowed decode s flash
      → StepRight s flash lba len source (write_step lay decode s flash lba len source)
  unfolding RoundRight write_step write_round answered switch_chunk
  write_step-right s v on_map ok =
      if_cases (RoundRight s) (len == 0) (all_done s) _ (λ e. ground (arith, e))
        (λ more.
          let some_len : 0 < len = ground (arith, more) in
          if_cases (RoundRight s) (leb last_purge_pos s.purge_pos) _
            (prepare_round s lba len source)
            (λ e.
              let ended : last_purge_pos ≤ s.purge_pos = ground (arith, e) in
              if_cases (RoundRight s) (ltb s.finalized_pos last_purge_pos) (awaits_chunk s)
                (prepare_round (switch_chunk s) lba len source)
                (λ _. Kept-right s _ flash _ lba len source (purge_chunk-Kept lay s flash v ended))
                (λ final.
                  let (may, named) = ok.switches ended (ground (arith, final)) in
                  let t = switch_chunk s in
                  let k = switch_chunk-Kept s flash v ended may in
                  after-Kept s t flash flash lba len source
                    (answered lay decode flash (prepare_round t lba len source)) k
                    (prepare_round-right t k.sane some_len (omega (arith, on_map, k.same_size))
                      (ground arith) (λ _. named))))
            (λ e. prepare_round-right s v some_len on_map (ground (arith, e)) ok.prepares))
