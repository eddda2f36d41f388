-- ===== src/Gate/Reach.antt =====
-- driver/vgate.c: the states that one leveling context can reach. The sections run in any order,
-- on any processor; each is one step, since GlobalSpinLock serialises them.
use fdlvling.Base.{
  ℕ, zero, suc, ◌+◌, ◌^◌, ◌<◌, ◌≡◌, ◌≢◌, refl, ap, Bool, true, false, ◌⊎◌, inl, inr, List, [], ◌∷◌,
  arith, length, ◌==◌, Bool-cases,
}
use fdlvling.Gate.{
  Gate, Thread, Lane, read, other, read_threads, mode_active, dispatch, admit_read, admit_other,
  mark_reading_threads, wait_marked_threads, flush_dpc, thread_completion, complete_read,
  complete_other, settle_flush, arm_timer, clean_one, clean_queues,
}
use fdlvling.Gate.Invariant.{Inv, Busy, Pristine}
use fdlvling.Gate.Admit.{
  dispatch-Inv, mark_reading_threads-Inv, wait_marked_threads-Inv, flush_dpc-Inv, free_after,
}
use fdlvling.Gate.Complete.{Running, freed, thread_completion-Inv, SameWork, wake-unmark-SameWork}
use fdlvling.Gate.FreeList.{run_count-stop}

-- VLTL_MODE_RECOVERY, VLTL_MODE_FORMAT, VLTL_MODE_COMPLETED, VLTL_MODE_ERROR.
abbrev pub mode_recovery : ℕ
mode_recovery = 3

abbrev pub mode_format : ℕ
mode_format = 4

abbrev pub mode_completed : ℕ
mode_completed = 5

abbrev pub mode_error : ℕ
mode_error = 6

-- The mode of a device while one context lives: every ChangeMode and ChangeModeAtomic of the
-- driver but those to INITIAL and DIRECT, which happen only without a context.
pub data ModeMove : ℕ → ℕ → Type 0 where
  recovered : {m n : ℕ} → m ≡ mode_recovery → n ≡ mode_active → ModeMove m n
  recovery_failed : {m n : ℕ} → m ≡ mode_recovery → n ≡ mode_error → ModeMove m n
  failed : {m n : ℕ} → m ≡ mode_active → n ≡ mode_error → ModeMove m n
  formats : {m n : ℕ} → (m ≡ mode_active) ⊎ (m ≡ mode_error) → n ≡ mode_format → ModeMove m n
  format_failed : {m n : ℕ} → m ≡ mode_format → n ≡ mode_error → ModeMove m n
  completed : {m n : ℕ} → m ≡ mode_format → n ≡ mode_completed → ModeMove m n

-- A queue is shorter than 2 ^ 32: that many requests do not fit in memory.
abbrev pub Room : Gate → Type 0
Room g = (g.read_pending + 1 < 2 ^ 32) × (g.other_pending + 1 < 2 ^ 32)

pub data Step (mode : ℕ) (g : Gate) : ℕ → Gate → Type 0 where
  dispatches :
      (irp : ℕ) (is_read : Bool) → Room g → Step mode g mode (dispatch mode g irp is_read).0
  completes : (lane : Lane) → Running lane g → Step mode g mode (thread_completion mode g lane).0
  marks : Step mode g mode (mark_reading_threads g)
  waits : Running other g → Step mode g mode (wait_marked_threads g).0
  ticks : Room g → Step mode g mode (flush_dpc mode g).0
  cleans : Step mode g mode (clean_one mode g).0
  moves : {mode' : ℕ} → ModeMove mode mode' → Step mode g mode' g
  -- The thread that writes or purges, ExecutePurgeCache and SetLevelingConfig.
  writes :
      (dirty timer : Bool) (timeout : ℕ)
      → Step mode g mode
          (record g { cache_dirty = dirty; timer_active = timer; cache_timeout = timeout })

pub data Reach (mode : ℕ) (g : Gate) : ℕ → Gate → Type 0 where
  here : Reach mode g mode g
  next :
      {mode' : ℕ} {g' : Gate} {mode'' : ℕ} {g'' : Gate}
      → Reach mode g mode' g'
      → Step mode' g' mode'' g''
      → Reach mode g mode'' g''

-- The ReadThread array of a new context, from index `i` on.
unfoldable pub linked : ℕ → ℕ → List Thread
linked zero i = []
linked (suc n) i = record { marked = false; free_link = i + 1 } ∷ linked n (i + 1)

-- The gate of a context that InitializeLevelingCtx has set up; its mode is RECOVERY.
unfoldable pub fresh_gate : ℕ → Gate
unfolding linked
fresh_gate timeout = record {
  read_queue = [];
  other_queue = [];
  read_pending = 0;
  other_pending = 0;
  read_active = 0;
  other_active = 0;
  threads_marked = 0;
  waiting_marked_threads = false;
  cache_dirty = false;
  flush_pending = false;
  timer_active = false;
  cache_timeout = timeout;
  read_free_list = 0;
  read_thread = linked read_threads 0;
  other_thread = record { marked = false; free_link = 0 };
}

-- What holds of the mode and the gate together.
pub record Good (mode : ℕ) (g : Gate) : Type 0 where
  pub free : List ℕ
  pub inv : Inv free g
  pub busy : mode ≡ mode_active → Busy g
  pub pristine : mode ≡ mode_recovery → Pristine g

fresh_gate-Good : (timeout : ℕ) → Good mode_recovery (fresh_gate timeout)
unfolding fresh_gate
fresh_gate-Good timeout = record {
  free = 0 ∷ 1 ∷ 2 ∷ 3 ∷ 4 ∷ 5 ∷ 6 ∷ 7 ∷ 8 ∷ 9 ∷ [];
  inv = ground arith;
  busy = λ e. absurd (omega arith);
  pristine = λ _. ground arith;
}

clean_queues-Inv :
    (free : List ℕ) (rs os : List ℕ) {g : Gate}
    → Inv free g
    → g.read_queue ≡ rs
    → g.other_queue ≡ os
    → Inv free (clean_queues g rs os).0
unfolding clean_queues
clean_queues-Inv free (irp ∷ rest) os v p q = ground (arith, ap length p)
clean_queues-Inv free [] (irp ∷ rest) v p q = ground (arith, ap length q)
clean_queues-Inv free [] [] v p q = v

clean_one-Inv : (mode : ℕ) (free : List ℕ) {g : Gate} → Inv free g → Inv free (clean_one mode g).0
unfolding clean_one
clean_one-Inv mode free {g} v = elim (Bool-cases (mode == mode_active)) [
  | inl e ↦ rw e v
  | inr e ↦ rw e (clean_queues-Inv free g.read_queue g.other_queue v refl refl)
]

pub dispatch-Busy :
    (free : List ℕ) {g : Gate} (irp : ℕ) (is_read : Bool)
    → Inv free g
    → Busy g
    → Busy (dispatch mode_active g irp is_read).0
unfolding dispatch admit_read admit_other
dispatch-Busy free {g} irp true v b = ground (arith, v.idle)
dispatch-Busy free {g} irp false v b = ground (arith, v.one)

Busy-SameWork : {g h : Gate} → SameWork g h → Busy g → Busy h
Busy-SameWork s b = ground arith

complete_read-Busy :
    (free : List ℕ) (i : ℕ) (queue : List ℕ) {g : Gate}
    → Inv free g
    → g.read_queue ≡ queue
    → Busy g
    → Busy (complete_read false g i queue).0
unfolding complete_read
complete_read-Busy free i [] v q b = ground arith
complete_read-Busy free i (irp ∷ rest) v q b = ground (arith, v.idle)

complete_other-Busy :
    (queue : List ℕ) {g : Gate}
    → g.other_active ≡ 1
    → g.other_queue ≡ queue
    → Busy g
    → Busy (complete_other false g queue).0
unfolding complete_other settle_flush arm_timer
complete_other-Busy [] a q b = ground arith
complete_other-Busy (irp ∷ rest) a q b = ground arith

pub completion-Busy :
    (free : List ℕ) (lane : Lane) {g : Gate}
    → Inv free g
    → Running lane g
    → Busy g
    → Busy (thread_completion mode_active g lane).0
unfolding thread_completion
completion-Busy free (read i) {g} v r b =
    Busy-SameWork (wake-unmark-SameWork _ (read i))
      (complete_read-Busy free i g.read_queue v refl b)
completion-Busy free other {g} v r b =
    Busy-SameWork (wake-unmark-SameWork _ other) (complete_other-Busy g.other_queue r.0 refl b)

-- No thread runs in a pristine gate.
not-Running :
    (free : List ℕ) (lane : Lane) {g : Gate} → Inv free g → Pristine g → Running lane g → ⊥
not-Running free (read i) {g} v p r = omega (
  arith,
  v.running,
  p.no_read_active,
  run_count-stop g.read_thread i (record { marked = false; free_link = 0 })
      (omega (arith, v.threads, r.0)) r.1 (omega arith),
)
not-Running free other v p r = omega (arith, r.0, p.no_other_active)

flush_dpc-Busy : (mode : ℕ) {g : Gate} → Busy g → Busy (flush_dpc mode g).0
unfolding flush_dpc
flush_dpc-Busy mode b = ground arith

flush_dpc-Pristine : {g : Gate} → Pristine g → Pristine (flush_dpc mode_recovery g).0
unfolding flush_dpc
flush_dpc-Pristine p = ground arith

clean_one-Pristine :
    (rs os : List ℕ) {g : Gate}
    → g.read_queue ≡ rs
    → g.other_queue ≡ os
    → Pristine g
    → Pristine (clean_queues g rs os).0
unfolding clean_queues
clean_one-Pristine [] [] e q p = p
clean_one-Pristine [] (irp ∷ rest) e q p = absurd (ground (arith, ap length q))
clean_one-Pristine (irp ∷ rest) os e q p = absurd (ground (arith, ap length e))

-- In the other modes nothing more than the invariant is asked of the gate.
stopped-Good :
    {mode mode' : ℕ} {g : Gate}
    → mode' ≢ mode_active
    → mode' ≢ mode_recovery
    → Good mode g
    → Good mode' g
stopped-Good h k v = record {
  free = v.free;
  inv = v.inv;
  busy = λ e. absurd (h e);
  pristine = λ e. absurd (k e);
}

-- Every section keeps what holds of the mode and the gate.
Step-Good :
    {mode : ℕ} {g : Gate} {mode' : ℕ} {g' : Gate}
    → Step mode g mode' g'
    → Good mode g
    → Good mode' g'
unfolding dispatch mark_reading_threads wait_marked_threads clean_one
Step-Good {mode} {g} (dispatches irp is_read room) v = record {
  free = free_after (dispatch mode g irp is_read).1 v.free;
  inv = dispatch-Inv mode v.free irp is_read v.inv room.0 room.1;
  busy = λ e. rw e (dispatch-Busy v.free irp is_read v.inv (v.busy e));
  pristine = λ e. rw e (v.pristine e);
}
Step-Good {mode} {g} (completes lane run) v = record {
  free = freed lane (thread_completion mode g lane).1.now v.free;
  inv = thread_completion-Inv mode v.free lane v.inv run;
  busy = λ e. rw e (completion-Busy v.free lane v.inv run (v.busy e));
  pristine = λ e. absurd (not-Running v.free lane v.inv (v.pristine e) run);
}
Step-Good marks v = record {
  free = v.free;
  inv = mark_reading_threads-Inv v.free v.inv;
  busy = λ e. let b = v.busy e in ground arith;
  pristine = λ e. let p = v.pristine e in ground arith;
}
Step-Good (waits run) v = record {
  free = v.free;
  inv = wait_marked_threads-Inv v.free v.inv run.0 run.1;
  busy = λ e. let b = v.busy e in ground arith;
  pristine = λ e. let p = v.pristine e in ground arith;
}
Step-Good {mode} (ticks room) v = record {
  free = v.free;
  inv = flush_dpc-Inv mode v.free v.inv room.1;
  busy = λ e. flush_dpc-Busy mode (v.busy e);
  pristine = λ e. rw e (flush_dpc-Pristine (v.pristine e));
}
Step-Good {mode} {g} cleans v = record {
  free = v.free;
  inv = clean_one-Inv mode v.free v.inv;
  busy = λ e. rw e (v.busy e);
  pristine = λ e. rw e (clean_one-Pristine g.read_queue g.other_queue refl refl (v.pristine e));
}
Step-Good (moves (recovered p q)) v = record {
  free = v.free;
  inv = v.inv;
  busy = λ _.
      let s = v.pristine p in record { read_busy = λ _. s.no_reads; other_busy = λ _. s.no_others };
  pristine = λ e. absurd (omega arith);
}
Step-Good (moves (recovery_failed p q)) v = stopped-Good (omega arith) (omega arith) v
Step-Good (moves (failed p q)) v = stopped-Good (omega arith) (omega arith) v
Step-Good (moves (formats p q)) v = stopped-Good (omega arith) (omega arith) v
Step-Good (moves (format_failed p q)) v = stopped-Good (omega arith) (omega arith) v
Step-Good (moves (completed p q)) v = stopped-Good (omega arith) (omega arith) v
Step-Good (writes dirty timer timeout) v = record {
  free = v.free;
  inv = let w = v.inv in ground arith;
  busy = λ e. let b = v.busy e in ground arith;
  pristine = λ e. let p = v.pristine e in ground arith;
}

-- In every state that a context reaches from its set-up, by any interleaving of the sections,
-- the gate's invariant holds: the idle threads form one chain without repetition from
-- ReadFreeList, each lane's pending count is its active count plus the length of its queue, at
-- most one request runs on the other thread, ThreadsMarked counts the marked threads, and a
-- waiter has a marked thread to wait for. While the mode is ACTIVE, no request is queued beside an
-- idle thread.
pub Reach-Good :
    (timeout : ℕ) {mode : ℕ} {g : Gate}
    → Reach mode_recovery (fresh_gate timeout) mode g
    → Good mode g
Reach-Good timeout here = fresh_gate-Good timeout
Reach-Good timeout (next r s) = Step-Good s (Reach-Good timeout r)
