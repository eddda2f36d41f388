-- ===== src/WriteRequest/Handler.antt =====
-- driver/vscsi.c: how a call of ExecuteWriteHandler may end.
use fdlvling.Base.{ℕ, ◌+◌, ◌-◌, ◌≤◌, ◌<◌, ◌≡◌, ap, ◌∙◌, ◌⊎◌, inl, inr, true, Option, some, arith}
use fdlvling.Store.{Store, Flash, last_purge_pos}
use fdlvling.Flush.{Layout}
use fdlvling.WriteRequest.{
  WriteStep, no_resources, not_ready, all_done, awaits_chunk, awaits_prepare, awaits_window,
  awaits_cache, awaits_fill, went_on, add_done, answered,
}
use fdlvling.WriteRequest.Invariant.{Sane, Kept}
use fdlvling.WriteRequest.Rounds.{Written, Written-more}

-- The relocation is done for now, and the chunk has room.
pub record Placing (s : Store) : Type 0 where
  pub inside : s.purge_pos < last_purge_pos
  pub prepared : s.relocation_prepared ≡ true
  pub done : s.relocation_done ≡ true

-- The end of a round that waits for a request to the drive.
abbrev pub Waiting : WriteStep → Type 0
Waiting (no_resources t) = ⊥
Waiting (not_ready t) = ⊥
Waiting (all_done t) = ⊥
Waiting (went_on t n) = ⊥
Waiting (awaits_chunk t) = Unit {0}
Waiting (awaits_prepare t) = Unit {0}
Waiting (awaits_window t) = Unit {0}
Waiting (awaits_cache t) = Unit {0}
Waiting (awaits_fill t start n) = Unit {0}

-- With `k` sectors transferred the context and the drive are right.
pub record Reached (s : Store) (flash : Flash) (lba len : ℕ) (source : ℕ → ℕ) (k : ℕ) (t : Store)
    (g : Flash) : Type 0 where
  pub sane : Sane t g
  pub bound : k ≤ len
  pub same_size : t.size_of_map ≡ s.size_of_map
  pub written : Written s flash t g lba k source

module _ (lay : Layout) (decode : (ℕ → ℕ) → ℕ → ℕ) (flash : Flash) where
  -- How the call may end with `k` sectors transferred: all sectors are transferred; or there was no
  -- address, or the mode was not ACTIVE; or it waits for a request to the drive, and the state that
  -- the request leaves is right.
  abbrev pub EndRight : Store → ℕ → ℕ → (ℕ → ℕ) → ℕ → WriteStep → Type 0
  EndRight s lba len source k e =
      ((t : Store) × (e ≡ all_done t) × (k ≡ len) × Reached s flash lba len source k t flash)
      ⊎ ((t : Store) × ((e ≡ no_resources t) ⊎ (e ≡ not_ready t))
          × Reached s flash lba len source k t flash)
      ⊎ ((t : Store) × (g : Flash) × Waiting e
          × (answered lay decode flash e ≡ some (t, g, 0))
          × Reached s flash lba len source k t g)

  abbrev pub HandlerEnds : Store → ℕ → ℕ → (ℕ → ℕ) → Option (WriteStep × ℕ) → Type 0
  HandlerEnds s lba len source r =
      (e : WriteStep) × (k : ℕ) × (r ≡ some (e, k)) × EndRight s lba len source k e

  pub Kept-Reached :
      (s t : Store) (g : Flash) (lba len : ℕ) (source : ℕ → ℕ)
      → Kept s flash t g
      → Reached s flash lba len source 0 t g
  Kept-Reached s t g lba len source k = record {
    sane = k.sane;
    bound = omega arith;
    same_size = k.same_size;
    written = λ x. (λ i h. absurd (omega (arith, h)), λ _. k.same_view x);
  }

  after-Reached :
      (s t u : Store) (h : Flash) (lba len : ℕ) (source : ℕ → ℕ) (k : ℕ)
      → Kept s flash t flash
      → Reached t flash lba len source k u h
      → Reached s flash lba len source k u h
  after-Reached s t u h lba len source k a r = record {
    sane = r.sane;
    bound = r.bound;
    same_size = r.same_size ∙ a.same_size;
    written = λ x. ((r.written x).0, λ out. (r.written x).1 out ∙ a.same_view x);
  }

  -- After steps that keep the contents.
  pub after-ends :
      (s t : Store) (lba len : ℕ) (source : ℕ → ℕ) (r : Option (WriteStep × ℕ))
      → Kept s flash t flash
      → HandlerEnds t lba len source r
      → HandlerEnds s lba len source r
  after-ends s t lba len source r a (e, k, at, inl (u, over, all, done)) =
      (e, k, at, inl (u, over, all, after-Reached s t u flash lba len source k a done))
  after-ends s t lba len source r a (e, k, at, inr (inl (u, refused, done))) =
      (e, k, at, inr (inl (u, refused, after-Reached s t u flash lba len source k a done)))
  after-ends s t lba len source r a (e, k, at, inr (inr (u, h, waits, next, done))) =
      (e, k, at, inr (inr (u, h, waits, next, after-Reached s t u h lba len source k a done)))

  module _ (s t : Store) (lba len n : ℕ) (source : ℕ → ℕ) (size : t.size_of_map ≡ s.size_of_map)
      (bound : n ≤ len) (wrote : Written s flash t flash lba n source) where
    more-Reached :
        (u : Store) (h : Flash) (k : ℕ)
        → Reached t flash (lba + n) (len - n) (λ i. source (n + i)) k u h
        → Reached s flash lba len source (n + k) u h
    more-Reached u h k r = record {
      sane = r.sane;
      bound = omega (arith, r.bound, bound);
      same_size = r.same_size ∙ size;
      written = Written-more s t u flash flash h lba n k source wrote r.written;
    }

    -- After a round that went on.
    pub more-ends :
        (r : Option (WriteStep × ℕ))
        → HandlerEnds t (lba + n) (len - n) (λ i. source (n + i)) r
        → HandlerEnds s lba len source (add_done n r)
    more-ends r (e, k, at, inl (u, over, all, done)) = (
      e,
      n + k,
      ap (add_done n) at,
      inl (u, over, omega (arith, all, bound), more-Reached u flash k done),
    )
    more-ends r (e, k, at, inr (inl (u, refused, done))) =
        (e, n + k, ap (add_done n) at, inr (inl (u, refused, more-Reached u flash k done)))
    more-ends r (e, k, at, inr (inr (u, h, waits, next, done))) =
        (e, n + k, ap (add_done n) at, inr (inr (u, h, waits, next, more-Reached u h k done)))
