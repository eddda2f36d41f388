-- ===== src/WriteRequest/Reach.antt =====
-- driver/vscsi.c: write requests from their first round to their last, and the disk that they and the
-- reads between them show.
use std.Path.{subst}
use fdlvling.Base.{ℕ, ◌+◌, ◌-◌, ◌*◌, ◌≤◌, ◌≡◌, refl, ◌∙◌, none, some, arith}
use fdlvling.Store.{Store, Flash}
use fdlvling.Flush.{Layout}
use fdlvling.WriteRequest.{write_step}
use fdlvling.WriteRequest.Invariant.{Sane}
use fdlvling.WriteRequest.Rounds.{Written, Written-more, StepRight, Allowed, write_step-right}

module _ (lay : Layout) (decode : (ℕ → ℕ) → ℕ → ℕ) where
  -- From the first context and drive, the rounds of a write of `len` sectors at `lba` lead to the
  -- second, with `n` sectors transferred.
  pub data Writes (lba len : ℕ) (source : ℕ → ℕ) : Store → Flash → ℕ → Store → Flash → Type 0 where
    begun : {s : Store} {f : Flash} → Writes lba len source s f 0 s f
    round :
        {s : Store} {f : Flash} {n : ℕ} {t : Store} {g : Flash} {u : Store} {h : Flash} {k : ℕ}
        → Writes lba len source s f n t g
        → Allowed decode t g
        → write_step lay decode t g (lba + n) (len - n) (λ i. source (n + i)) ≡ some (u, h, k)
        → Writes lba len source s f (n + k) u h

  -- What the rounds so far guarantee.
  pub record WritesRight (lba len : ℕ) (source : ℕ → ℕ) (s : Store) (f : Flash) (n : ℕ) (t : Store)
      (g : Flash) : Type 0 where
    pub sane : Sane t g
    pub bound : n ≤ len
    pub same_size : t.size_of_map ≡ s.size_of_map
    pub written : Written s f t g lba n source

  -- From a state that satisfies the invariant `Sane`, in every state that a write request on the map
  -- reaches by rounds that are `Allowed` and requests to the drive that succeed, however many: the
  -- invariant holds, at most `len` sectors are transferred, the size of the map is as it was, the sectors
  -- transferred have their data, and every other sector has the contents that it had at first. A round is
  -- `Allowed` where, if it begins a chunk, SCN + 1 is below 2 ^ 32 and the chunk that FindNextChunk
  -- chooses then has no more blocks in use than 63 for each purge that the new chunk has room for; and
  -- where, if the relocation is to be prepared, CHUNK_CTL of the next chunk names each block in use there.
  pub Writes-right :
      (lba len : ℕ) (source : ℕ → ℕ) (s : Store) (f : Flash) (n : ℕ) (t : Store) (g : Flash)
      → Sane s f
      → lba + len ≤ 8 * s.size_of_map
      → Writes lba len source s f n t g
      → WritesRight lba len source s f n t g
  Writes-right lba len source s f _ _ _ v fits begun = record {
    sane = v;
    bound = omega arith;
    same_size = refl;
    written = λ x. (λ i lt. absurd (omega (arith, lt)), λ _. refl);
  }
  Writes-right lba len source s f _ u h v fits
        (round {n = n} {t = t} {g = g} {k = k} before ok step) =
      let r = Writes-right lba len source s f n t g v fits before in
      let rest = λ (i : ℕ). source (n + i) in
      let q : StepRight t g (lba + n) (len - n) rest (some (u, h, k)) =
        subst (StepRight t g (lba + n) (len - n) rest) step (
          write_step-right lay decode g (lba + n) (len - n) rest t r.sane
            (omega (arith, fits, r.same_size, r.bound)) ok) in
      let (sane, bound, size, wrote) = q in
      record {
        sane = sane;
        bound = omega (arith, bound, r.bound);
        same_size = size ∙ r.same_size;
        written = Written-more s t u f g h lba n k source r.written wrote;
      }

  -- A request is over when no step is left: then all its sectors are transferred.
  pub Writes-over :
      (lba len : ℕ) (source : ℕ → ℕ) (s : Store) (f : Flash) (n : ℕ) (t : Store) (g : Flash)
      → Sane s f
      → lba + len ≤ 8 * s.size_of_map
      → Writes lba len source s f n t g
      → Allowed decode t g
      → write_step lay decode t g (lba + n) (len - n) (λ i. source (n + i)) ≡ none
      → n ≡ len
  Writes-over lba len source s f n t g v fits w ok over =
      let r = Writes-right lba len source s f n t g v fits w in
      let rest = λ (i : ℕ). source (n + i) in
      let q : len - n ≡ 0 = subst (StepRight t g (lba + n) (len - n) rest) over (
        write_step-right lay decode g (lba + n) (len - n) rest t r.sane
          (omega (arith, fits, r.same_size, r.bound)) ok) in
      omega (arith, q, r.bound)
