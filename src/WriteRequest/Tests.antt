-- ===== src/WriteRequest/Tests.antt =====
-- driver/vscsi.c: a session of a write and a read on a concrete context.
use fdlvling.Base.{
  ℕ, suc, ◌+◌, ◌*◌, ◌≡◌, refl, sym, inl, inr, true, false, none, some, arith, if_cases,
  if◌then◌else◌, ◌==◌, List, [], ◌∷◌,
}
use fdlvling.Store.{Store, not_mapped, append_run, copy_sectors, get_cached_pos, view}
use fdlvling.Store.Sample.{sample, sample_flash, sample-WellFormed}
use fdlvling.Chunk.Usage.{placed}
use fdlvling.Flush.{Layout}
use fdlvling.Relocation.{in_use}
use fdlvling.ReadPath.{Surroundings, read_loop, complete}
use fdlvling.Recovery.Sound.{InData}
use fdlvling.WritePath.{write_place}
use fdlvling.WriteRequest.{failed, write_round, in_range, execute_write_handler, write_step}
use fdlvling.WriteRequest.Remaining.{waiting-le}
use fdlvling.WriteRequest.Invariant.{Sane, true_false}
use fdlvling.WriteRequest.Rounds.{Allowed}
use fdlvling.WriteRequest.Lossless.{Unchanged, write_round-failed}
use fdlvling.WriteRequest.Handler.{HandlerEnds}
use fdlvling.WriteRequest.Returns.{write_handler-ends}
use fdlvling.WriteRequest.Reach.{Writes, begun, round, WritesRight, Writes-right}
use fdlvling.WriteRequest.Clients.{
  Command, writes, reads, Session, over, wrote, read, replay, ReadsRight, Session-refines,
}

abbrev layout : Layout
layout = record { purge_ctl = λ c. c.scn; chunk_ctl = λ s i. i }

abbrev decode : (ℕ → ℕ) → ℕ → ℕ
decode mem i = mem i

-- Between requests on the sample.
sample-Sane : Sane sample sample_flash
unfolding placed in_use
sample-Sane = record {
  log = record {
    sound = record {
      counted = record { short = omega arith; right = λ c. ground arith };
      places = λ j.
          if_cases (InData sample j) (j == 1) 0x80000 (if j == 3 then 0x200 else not_mapped)
            (λ e. inr (ground (arith, e), refl, omega arith, omega arith))
            (λ _.
              if_cases (InData sample j) (j == 3) 0x200 not_mapped
                (λ e. inr (ground (arith, e), refl, omega arith, omega arith)) (λ _. inl refl));
    };
    map_small = omega arith;
    few = omega arith;
    chunk_in = omega arith;
    next_in = omega arith;
    other = omega arith;
    newest = λ c. ground arith;
    pos_whole = refl;
    pos_in = omega arith;
    behind = λ j there own. ground (arith, there, own);
  };
  well_formed = sample-WellFormed 10 (omega arith);
  mapped = λ p h. omega (arith, h);
  full = λ h. absurd (omega (arith, h));
  unprepared = λ e. true_false e;
  window = λ _. record {
    pos_whole = refl;
    pos_in = omega arith;
    start_whole = refl;
    end_whole = refl;
    window_fits = omega arith;
    window_read = λ k h. absurd (omega (arith, h));
    starts = λ i h used. true_false (sym used);
  };
  opened = λ _ e. true_false e;
  fits = record {
    fresh = λ e. true_false e;
    room = λ e. true_false e;
    share = λ _ e. true_false e;
    enough = λ _ _. omega (arith, waiting-le 8 sample.map 1 (get_cached_pos sample));
    ready = λ _. record {
      from = 509;
      from_in = omega arith;
      target = refl;
      source = omega arith;
      fewer = omega arith;
      named = λ j there own. absurd (ground (arith, there, own));
      joined = λ j there own. absurd (ground (arith, there, own));
    };
  };
}

abbrev fresh_data : ℕ → ℕ
fresh_data k = 7 + k

sample-Allowed : Allowed decode sample sample_flash
sample-Allowed = record { switches = λ h. absurd (omega (arith, h)); prepares = λ e. true_false e }

write_handler-ends_example :
    HandlerEnds layout decode sample_flash sample 26 2 fresh_data
      (execute_write_handler true (suc (505 * 2 + 504)) (λ _. true) sample 26 2 fresh_data)
write_handler-ends_example =
    write_handler-ends layout decode sample_flash true (λ _. true) 26 2 fresh_data sample
      sample-Sane (omega arith) sample-Allowed

-- The sample with two more sectors.
abbrev after_write : Store
after_write = record (append_run sample 26 2 (λ i. fresh_data (0 + i))) { cache_dirty = true }

wrote_two :
    write_step layout decode sample sample_flash 26 2 (λ i. fresh_data (0 + i))
    ≡ some (after_write, sample_flash, 2)
unfolding write_step write_place get_cached_pos
wrote_two = refl

wrote_two-over :
    write_step layout decode after_write sample_flash 28 0 (λ i. fresh_data (2 + i)) ≡ none
unfolding write_step write_place get_cached_pos
wrote_two-over = refl

two_written : Writes layout decode 26 2 fresh_data sample sample_flash 2 after_write sample_flash
two_written = round begun sample-Allowed wrote_two

Writes-right_example :
    WritesRight layout decode 26 2 fresh_data sample sample_flash 2 after_write sample_flash
Writes-right_example =
    Writes-right layout decode 26 2 fresh_data sample sample_flash 2 after_write sample_flash
      sample-Sane (omega arith) two_written

after_write-Allowed : Allowed decode after_write sample_flash
unfolding append_run
after_write-Allowed = record {
  switches = λ h. absurd (omega (arith, h));
  prepares = λ e. true_false e;
}

abbrev calm : Surroundings
calm = record { active = λ _. true; addressable = true; drive_reads = λ _ _. true }

abbrev two_read : ℕ → ℕ
two_read = copy_sectors (λ _. 0) 0 2 (λ i. after_write.cache_mem (10 + i))

read_two : read_loop 3 calm after_write sample_flash 26 2 0 (λ _. 0) ≡ complete two_read
unfolding read_loop get_cached_pos append_run
read_two = refl

abbrev commands : List Command
commands = writes 26 2 fresh_data ∷ reads 26 2 two_read ∷ []

session : Session layout decode sample sample_flash commands after_write sample_flash
unfolding append_run in_range
session =
    wrote refl (omega arith) two_written after_write-Allowed wrote_two-over
      (read calm (λ _. 0) refl (omega arith) read_two over)

abbrev disk : ℕ → ℕ
disk x = view sample sample_flash x

Session-refines_example :
    Sane after_write sample_flash
    × ReadsRight commands disk
    × ((x : ℕ) → view after_write sample_flash x ≡ replay commands disk x)
Session-refines_example =
    Session-refines layout decode sample sample_flash commands after_write sample_flash disk
      sample-Sane (λ x. refl) session

-- The request waits for the read that fills the block of the cache's end, and the read fails.
write_round-failed_example :
    Unchanged sample sample_flash
      (failed layout (λ _. 0) sample_flash (write_round sample 40 2 fresh_data))
write_round-failed_example =
    write_round-failed layout (λ _. 0) sample_flash 40 2 fresh_data sample sample-Sane (omega arith)
      (λ h. absurd (omega (arith, h)))

-- The sample at the end of chunk 0, with an empty cache: nothing is in use in chunk 1.
abbrev full_sample : Store
full_sample = record sample {
  purge_pos = 0x3fe00;
  finalized_pos = 0x3fe00;
  cache_pos = 0;
  relocation_done = false;
}
