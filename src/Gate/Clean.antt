-- ===== src/Gate/Clean.antt =====
-- driver/vgate.c: LevelingCleanAfterModeChanged empties the queues.
use fdlvling.Base.{
  ℕ, zero, suc, ◌+◌, ◌^◌, ◌<◌, ◌≡◌, ◌≢◌, refl, ap, ◌∙◌, sub32, false, none, some, List, [], ◌∷◌,
  ◌++◌, arith, length, ◌==◌,
}
use fdlvling.Gate.{Gate, mode_active, clean_one, clean_queues, clean_loop, clean_more}
use fdlvling.Gate.Invariant.{Inv}

-- The gate with both queues emptied and their requests no longer pending.
abbrev pub emptied : Gate → Gate
emptied g = record g {
  read_queue = [];
  other_queue = [];
  read_pending = g.read_active;
  other_pending = g.other_active;
}

-- One round of the loop.
clean_loop-some :
    (fuel mode : ℕ) (g g' : Gate) (irp : ℕ)
    → clean_one mode g ≡ (g', some irp)
    → clean_loop (suc fuel) mode g ≡ clean_more irp (clean_loop fuel mode g')
unfolding clean_loop
clean_loop-some fuel mode g g' irp e =
    rw (e, clean_loop) (ap (λ p. clean_more irp (clean_loop fuel mode p.0)) e)

clean_loop-none :
    (fuel mode : ℕ) (g g' : Gate)
    → clean_one mode g ≡ (g', none)
    → clean_loop (suc fuel) mode g ≡ some (g', [])
unfolding clean_loop
clean_loop-none fuel mode g g' e = rw (e, clean_loop) (ap (λ p. some (p.0, [])) e)

-- What the section takes off, by the two queues.
clean_one_lem :
    (mode : ℕ) (g : Gate) (rs os : List ℕ)
    → mode ≢ mode_active
    → g.read_queue ≡ rs
    → g.other_queue ≡ os
    → clean_one mode g ≡ clean_queues g rs os
unfolding clean_one
clean_one_lem mode g rs os m p q =
    let e : (mode == mode_active) ≡ false = ground arith in rw (e, p, q)

clean_loop_others :
    (fuel mode : ℕ) (g : Gate) (os : List ℕ)
    → mode ≢ mode_active
    → g.read_queue ≡ []
    → g.other_queue ≡ os
    → g.read_pending ≡ g.read_active
    → g.other_pending ≡ g.other_active + length os
    → g.other_pending < 2 ^ 32
    → length os < fuel
    → clean_loop fuel mode g ≡ some (emptied g, os)
unfolding clean_queues clean_more
clean_loop_others zero mode g os m p q a b w f = elim f [ ]
clean_loop_others (suc fuel) mode g [] m p q a b w f =
    clean_loop-none fuel mode g g (clean_one_lem mode g [] [] m p q)
    ∙ ap (λ h. some (h, [])) (ground arith)
clean_loop_others (suc fuel) mode g (irp ∷ rest) m p q a b w f =
    let g' = record g { other_queue = rest; other_pending = sub32 g.other_pending 1 } in
    clean_loop-some fuel mode g g' irp (clean_one_lem mode g [] (irp ∷ rest) m p q)
    ∙ ap (clean_more irp)
        (clean_loop_others fuel mode g' rest m p refl a (omega arith) (omega arith) (omega arith))

clean_loop_reads :
    (fuel mode : ℕ) (g : Gate) (rs os : List ℕ)
    → mode ≢ mode_active
    → g.read_queue ≡ rs
    → g.other_queue ≡ os
    → g.read_pending ≡ g.read_active + length rs
    → g.other_pending ≡ g.other_active + length os
    → g.read_pending < 2 ^ 32
    → g.other_pending < 2 ^ 32
    → length rs + length os < fuel
    → clean_loop fuel mode g ≡ some (emptied g, rs ++ os)
unfolding clean_queues clean_more
clean_loop_reads fuel mode g [] os m p q a b v w f =
    clean_loop_others fuel mode g os m p q (omega arith) b w (omega arith)
clean_loop_reads zero mode g (irp ∷ rest) os m p q a b v w f = elim f [ ]
clean_loop_reads (suc fuel) mode g (irp ∷ rest) os m p q a b v w f =
    let g' = record g { read_queue = rest; read_pending = sub32 g.read_pending 1 } in
    clean_loop-some fuel mode g g' irp (clean_one_lem mode g (irp ∷ rest) os m p q)
    ∙ ap (clean_more irp) (
        clean_loop_reads fuel mode g' rest os m refl q (omega arith) b (omega arith) w
          (omega arith))

-- In a state that satisfies the invariant, where the mode is not and does not become ACTIVE, the
-- loop ends after as many rounds as requests are queued and one more. It completes exactly the
-- queued requests, the reads first and each queue in its order, and leaves both queues empty,
-- with only the requests in service pending.
pub clean_loop_lem :
    (fuel mode : ℕ) (free : List ℕ) {g : Gate}
    → Inv free g
    → mode ≢ mode_active
    → length g.read_queue + length g.other_queue < fuel
    → clean_loop fuel mode g ≡ some (emptied g, g.read_queue ++ g.other_queue)
clean_loop_lem fuel mode free {g} v m f =
    clean_loop_reads fuel mode g g.read_queue g.other_queue m refl refl v.reads v.others v.read_word
      v.other_word f
