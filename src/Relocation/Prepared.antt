-- ===== src/Relocation/Prepared.antt =====
-- driver/vrelocation.c: the relocation does not touch RelocationPrepared.
use fdlvling.Base.{
  ℕ, zero, suc, ◌+◌, ◌-◌, ◌/◌, ◌≡◌, refl, ◌∙◌, Bool, true, not, leb, ltb, ◌&&◌, if_cases,
  if◌then◌else◌,
}
use fdlvling.Store.{Store, Flash, last_purge_pos, last_cache_pos, get_cached_pos, append_run, view}
use fdlvling.Relocation.{
  in_use, Round, goes_on, ends, join_block, next_block, relocate_block, after_block,
  relocate_blocks, enough_relocated, execute_relocate_cached, execute_relocate, relocate_read,
}

-- No round of the relocation touches RelocationPrepared.
abbrev StaysPrepared : Store → Round → Type 0
StaysPrepared s (goes_on t) = t.relocation_prepared ≡ s.relocation_prepared
StaysPrepared s (ends at_done) = s.relocation_prepared ≡ s.relocation_prepared

relocate_block-prepared : (s : Store) → StaysPrepared s (relocate_block s)
unfolding relocate_block next_block join_block append_run
relocate_block-prepared s =
    let X = StaysPrepared s in
    if_cases X (leb last_purge_pos s.relocate_pos) _ _ (λ _. refl)
      (λ _.
        if_cases X (not (in_use s s.relocate_pos)) _ _ (λ _. refl)
          (λ _.
            if_cases X (leb last_cache_pos s.cache_pos) _ _ (λ _. refl)
              (λ _.
                if_cases X
                  (not (
                    leb s.relocate_window_start s.relocate_pos
                    && ltb s.relocate_pos s.relocate_window_end))
                  _ _ (λ _. refl) (λ _. refl))))

after_block-prepared :
    (s : Store) (r : Round) (next : Store → Store × Bool)
    → StaysPrepared s r
    → ((t : Store) → (next t).0.relocation_prepared ≡ t.relocation_prepared)
    → (after_block r s next).0.relocation_prepared ≡ s.relocation_prepared
unfolding after_block
after_block-prepared s (ends at_done) next e ih = refl
after_block-prepared s (goes_on t) next e ih = ih t ∙ e

pub relocate_blocks-prepared :
    (n : ℕ) (s : Store) → (relocate_blocks n s).0.relocation_prepared ≡ s.relocation_prepared
unfolding relocate_blocks
relocate_blocks-prepared zero s = refl
relocate_blocks-prepared (suc n) s =
    after_block-prepared s (relocate_block s) (relocate_blocks n) (relocate_block-prepared s)
      (relocate_blocks-prepared n)

pub execute_relocate_cached-prepared :
    (s : Store) → (execute_relocate_cached s).relocation_prepared ≡ s.relocation_prepared
unfolding execute_relocate_cached
execute_relocate_cached-prepared s =
    let X = λ (t : Store). t.relocation_prepared ≡ s.relocation_prepared in
    let n = last_purge_pos / 8 + 1 - s.relocate_pos / 8 in
    if_cases X (enough_relocated s) (record s { relocation_done = true })
      (if (relocate_blocks n s).1
        then record (relocate_blocks n s).0 { relocation_done = true }
        else (relocate_blocks n s).0)
      (λ _. refl)
      (λ _.
        if_cases X (relocate_blocks n s).1 _ _ (λ _. relocate_blocks-prepared n s)
          (λ _. relocate_blocks-prepared n s))

pub relocate_read-prepared :
    (s : Store) (flash : Flash)
    → (relocate_read (execute_relocate s) flash).relocation_prepared ≡ s.relocation_prepared
unfolding relocate_read execute_relocate
relocate_read-prepared s flash = refl

-- ExecuteRelocate, whatever comes to RelocateMem, does not touch the contents of the sectors.
pub view-execute_relocate :
    (s : Store) (flash : Flash) (mem : ℕ → ℕ) (x : ℕ)
    → view (record (execute_relocate s) { relocate_mem = mem }) flash x ≡ view s flash x
unfolding execute_relocate view get_cached_pos
view-execute_relocate s flash mem x = refl
