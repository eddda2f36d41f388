-- ===== src/Device/Safety.antt =====
-- driver/vltl.c: what TEST UNIT READY does to a device in the mode ACTIVE.
use std.Path.{subst}
use fdlvling.Base.{
  ℕ, ◌+◌, ◌≤◌, ◌<◌, ◌≡◌, refl, sym, ap, add32, Bool, true, false, ◌⊎◌, inl, inr, none, some, arith,
  ltb, ◌==◌, Bool-cases,
}
use fdlvling.Device.{
  Extension, Context, mode_initial, mode_active, mode_error, mode_completed, change_mode, Completed,
  cancelled, succeeded, went_wrong, still_active, free_leveling_ctx, free_in_mode, tur_tail,
  count_failure, tur_failure, tur_completion, TurEnd,
}

-- The device goes on, with the count of errors `errors`.
pub record GoesOn (d : Extension) (c : Context) (errors : ℕ) (r : TurEnd) : Type 0 where
  pub still : r.extension ≡ record d { tur_errors = errors }
  pub same_context : r.context ≡ some c
  pub media : r.no_media ≡ false

-- The device gives up: with a context that is in use it is in the mode ERROR and the request reports
-- that no medium is there; else the context is freed, and the device is in the mode INITIAL, without
-- the capability.
abbrev pub GivesUp : Bool → Context → TurEnd → Type 0
GivesUp cancels c r =
    ((still_active cancels c ≡ true)
      × (r.extension.mode ≡ mode_error)
      × (r.context ≡ some c)
      × (r.no_media ≡ true))
    ⊎ ((still_active cancels c ≡ false)
        × (r.extension.mode ≡ mode_initial)
        × (r.extension.leveling_capable ≡ false)
        × (r.context ≡ none)
        × (r.no_media ≡ false))

abbrev pub AfterTur : Bool → Extension → Context → Completed → TurEnd → Type 0
AfterTur cancels d c cancelled r = GoesOn d c d.tur_errors r
AfterTur cancels d c succeeded r = GoesOn d c 0 r
AfterTur cancels d c went_wrong r =
    ((d.tur_errors < 5) × GoesOn d c (d.tur_errors + 1) r)
    ⊎ ((d.tur_errors ≡ 5) × GivesUp cancels c r)

-- For a device in the mode ACTIVE with a context and at most five errors in a row: a cancelled TEST
-- UNIT READY changes nothing; a success clears the count of errors, and changes nothing else; a failure
-- before the sixth in a row raises the count, and changes nothing else; and with the sixth failure the
-- device gives up: where requests or the timer are still active, it goes to the mode ERROR and keeps
-- the context, and the request reports that no medium is there; else the context is freed, the mode is
-- INITIAL, and the request reports nothing.
pub tur_completion-active :
    (cancels : Bool) (d : Extension) (c : Context) (how : Completed)
    → d.mode ≡ mode_active
    → d.tur_errors ≤ 5
    → AfterTur cancels d c how (tur_completion cancels d (some c) how)
unfolding tur_completion tur_failure count_failure change_mode free_in_mode free_leveling_ctx
    tur_tail
tur_completion-active cancels d c cancelled m n = record {
  still = refl;
  same_context = refl;
  media = refl;
}
tur_completion-active cancels d c succeeded m n =
    let t : (d.mode == mode_completed) ≡ false = ground arith in
    let u : ltb mode_active d.mode ≡ false = ground arith in
    rw (t, u) (record { still = refl; same_context = refl; media = refl })
tur_completion-active cancels d c went_wrong m n =
    let e = record d { mode = mode_active } in
    let same : e ≡ d = ap (λ mode. record d { mode = mode }) (sym m) in
    subst
      (λ (x : Extension).
        AfterTur cancels x c went_wrong (tur_completion cancels x (some c) went_wrong))
      same
      (elim (Bool-cases (ltb 5 (add32 d.tur_errors 1))) [
        | inr few ↦ rw few (
            inl (
              ground arith,
              record {
                still = ap (λ k. record e { tur_errors = k }) (omega (arith, n));
                same_context = refl;
                media = refl;
              },
            ))
        | inl many ↦ elim (Bool-cases (still_active cancels c)) [
          | inl busy ↦ rw (many, busy) (inr (ground arith, inl (refl, refl, refl, refl)))
          | inr idle ↦ rw (many, idle) (inr (ground arith, inr (refl, refl, refl, refl, refl)))
        ]
      ])
