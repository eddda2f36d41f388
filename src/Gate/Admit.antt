-- ===== src/Gate/Admit.antt =====
-- driver/vgate.c: the sections that admit a request, mark the read threads or fire the flush timer
-- keep the gate's invariant.
use fdlvling.Base.{
  ℕ, ◌+◌, ◌%◌, ◌^◌, ◌<◌, ◌≡◌, refl, ◌∙◌, Bool, true, false, inl, inr, List, [], ◌∷◌, ◌++◌, arith,
  set, length-set, length-append, ◌==◌, ltb, Bool-cases,
}
use fdlvling.Gate.{
  Gate, Thread, read, Admission, read_threads, mode_active, thread_at, dispatch, admit_read,
  admit_other, mark_reading_threads, wait_marked_threads, flush_dpc, mark_all, newly_marked,
}
use fdlvling.Gate.FreeList.{
  MarkedRun-set, marked_count, marked_count-le, run_count-set, run_count-mark_all, Chain-link,
  marked_count-mark_all, marked_count-relink, Chain-pop, length-mark_all, Chain-mark_all,
  MarkedRun-mark_all, newly_marked_lem,
}
use fdlvling.Gate.Invariant.{Inv}

-- The indices that are idle after LevelingDispatch.
abbrev pub free_after : Admission → List ℕ → List ℕ
free_after (Admission.do_now (read i)) (j ∷ js) = js
free_after adm free = free

admit_read_queued :
    {free : List ℕ} {g : Gate} (irp : ℕ)
    → Inv free g
    → g.read_pending + 1 < 2 ^ 32
    → Inv free (record g {
      read_pending = (g.read_pending + 1) % 2 ^ 32;
      read_queue = g.read_queue ++ (irp ∷ []);
    })
admit_read_queued {free} {g} irp v h = ground (arith, length-append g.read_queue (irp ∷ []))

admit_read_started :
    (j : ℕ) (js : List ℕ) {g : Gate}
    → Inv (j ∷ js) g
    → g.read_pending + 1 < 2 ^ 32
    → Inv js (record g {
      read_pending = (g.read_pending + 1) % 2 ^ 32;
      read_free_list = (thread_at g.read_thread g.read_free_list).free_link;
      read_thread =
          set g.read_thread g.read_free_list (record {
            marked = (thread_at g.read_thread g.read_free_list).marked;
            free_link = 255;
          });
      read_active = (g.read_active + 1) % 2 ^ 8;
    })
admit_read_started j js {g} v h =
    let i = g.read_free_list in
    let t : Thread = record { marked = (thread_at g.read_thread i).marked; free_link = 255 } in
    ground (
      arith,
      length-set g.read_thread i t,
      Chain-pop g.read_thread i j t js v.chain,
      marked_count-relink g.read_thread i 255,
      MarkedRun-set g.read_thread i t v.marked_run (λ _. refl),
      run_count-set g.read_thread i t,
      Chain-link g.read_thread i j js v.chain,
    )

admit_read-Inv :
    (free : List ℕ) {g : Gate} (irp : ℕ)
    → Inv free g
    → g.read_pending + 1 < 2 ^ 32
    → Inv (free_after (admit_read g irp).1 free) (admit_read g irp).0
unfolding admit_read
admit_read-Inv [] {g} irp v h = elim (Bool-cases (ltb g.read_active read_threads)) [
  | inl e ↦ absurd (ground (arith, v.idle))
  | inr e ↦ rw e (admit_read_queued irp v h)
]
admit_read-Inv (j ∷ js) {g} irp v h = elim (Bool-cases (ltb g.read_active read_threads)) [
  | inl e ↦ rw e (admit_read_started j js v h)
  | inr e ↦ rw e (admit_read_queued irp v h)
]

admit_other-Inv :
    (free : List ℕ) {g : Gate} (irp : ℕ)
    → Inv free g
    → g.other_pending + 1 < 2 ^ 32
    → Inv (free_after (admit_other g irp).1 free) (admit_other g irp).0
unfolding admit_other
admit_other-Inv free {g} irp v h = ground (arith, length-append g.other_queue (irp ∷ []))

-- LevelingDispatch keeps the gate's invariant, as long as the pending counts have room.
pub dispatch-Inv :
    (mode : ℕ) (free : List ℕ) {g : Gate} (irp : ℕ) (is_read : Bool)
    → Inv free g
    → g.read_pending + 1 < 2 ^ 32
    → g.other_pending + 1 < 2 ^ 32
    → Inv (free_after (dispatch mode g irp is_read).1 free) (dispatch mode g irp is_read).0
unfolding dispatch
dispatch-Inv mode free {g} irp true v h k = elim (Bool-cases (mode == mode_active)) [
  | inl e ↦ rw e (admit_read-Inv free irp v h)
  | inr e ↦ rw e v
]
dispatch-Inv mode free {g} irp false v h k = elim (Bool-cases (mode == mode_active)) [
  | inl e ↦ rw e (admit_other-Inv free irp v k)
  | inr e ↦ rw e v
]

-- MarkReadingThreads keeps the invariant.
pub mark_reading_threads-Inv :
    (free : List ℕ) {g : Gate} → Inv free g → Inv free (mark_reading_threads g)
unfolding mark_reading_threads
mark_reading_threads-Inv free {g} v = record {
  threads = omega (arith, v.threads, length-mark_all g.read_thread);
  chain = Chain-mark_all g.read_thread g.read_free_list free v.chain;
  idle = v.idle;
  running = run_count-mark_all g.read_thread ∙ v.running;
  reads = v.reads;
  others = v.others;
  one = v.one;
  marks = omega (arith, counted);
  marked_run = MarkedRun-mark_all g.read_thread v.marked_run;
  other_unmarked = v.other_unmarked;
  waiting = λ w. omega (arith, v.waiting w, counted, marked_count-mark_all g.read_thread);
  read_word = v.read_word;
  other_word = v.other_word;
}
  where
    counted :
        newly_marked g.read_thread g.threads_marked + marked_count g.read_thread
        ≡ g.threads_marked + marked_count (mark_all g.read_thread)
    counted =
        newly_marked_lem g.read_thread g.threads_marked
          (omega (arith, v.marks, v.threads, marked_count-le g.read_thread))

-- WaitMarkedThreadsAndWriteCompleteHandler keeps the invariant: its caller is the other thread.
pub wait_marked_threads-Inv :
    (free : List ℕ) {g : Gate}
    → Inv free g
    → g.other_active ≡ 1
    → g.waiting_marked_threads ≡ false
    → Inv free (wait_marked_threads g).0
unfolding wait_marked_threads
wait_marked_threads-Inv free {g} v a w = ground arith

-- LevelingFlushDpc keeps the invariant, as long as the pending count has room.
pub flush_dpc-Inv :
    (mode : ℕ) (free : List ℕ) {g : Gate}
    → Inv free g
    → g.other_pending + 1 < 2 ^ 32
    → Inv free (flush_dpc mode g).0
unfolding flush_dpc
flush_dpc-Inv mode free {g} v h = ground arith
