-- ===== src/Gate/Complete.antt =====
-- driver/vgate.c: the section of LevelingThreadCompletion keeps the gate's invariant.
use fdlvling.Base.{
  ℕ, ◌<◌, ◌≡◌, refl, ap, Bool, true, false, not, Option, none, some, List, [], ◌∷◌, arith, length,
  length-set, get_or-set_self, ◌==◌,
}
use fdlvling.Gate.{
  Gate, Thread, Lane, read, other, idle_thread, read_threads, mode_active, thread_at, complete_read,
  complete_other, settle_flush, arm_timer, unmark, wake, thread_completion,
}
use fdlvling.Gate.FreeList.{
  Chain-NotIn, Chain-set, MarkedRun-set, marked_count-set, marked_count-le, run_count-stop,
  run_count-keep, Chain-head-le, set-set, Chain-push,
}
use fdlvling.Gate.Invariant.{Inv}

-- The section of a completion, but for the waiting flag: the thread becomes idle.
finish_read-Inv :
    (free : List ℕ) (i : ℕ) {g : Gate}
    → Inv free g
    → i < read_threads
    → (thread_at g.read_thread i).free_link ≡ 255
    → Inv (i ∷ free) (record (unmark (complete_read true g i g.read_queue).0 (read i)) {
      waiting_marked_threads = false;
    })
unfolding unmark complete_read
finish_read-Inv free i {g} v lt run =
    let ts = g.read_thread in
    let t : Thread = record { marked = (thread_at ts i).marked; free_link = g.read_free_list } in
    let u : Thread = record { marked = false; free_link = g.read_free_list } in
    ground (
      arith,
      get_or-set_self ts i t idle_thread,
      set-set ts i t u,
      length-set ts i u,
      length-set ts i t,
      Chain-push ts g.read_free_list i (thread_at ts i).marked free v.chain run lt,
      Chain-push ts g.read_free_list i false free v.chain run lt,
      Chain-head-le ts g.read_free_list free v.chain,
      marked_count-set ts i t,
      marked_count-set ts i u,
      run_count-stop ts i t,
      run_count-stop ts i u,
      marked_count-le ts,
      MarkedRun-set ts i u v.marked_run,
      MarkedRun-set ts i t v.marked_run,
    )

-- The section of a read completion that goes on with the next request, but for the waiting flag.
next_read-Inv :
    (free : List ℕ) (i irp : ℕ) (rest : List ℕ) {g : Gate}
    → Inv free g
    → g.read_queue ≡ irp ∷ rest
    → i < read_threads
    → (thread_at g.read_thread i).free_link ≡ 255
    → Inv free (record (unmark (complete_read false g i (irp ∷ rest)).0 (read i)) {
      waiting_marked_threads = false;
    })
unfolding unmark complete_read
next_read-Inv free i irp rest {g} v q lt run =
    let ts = g.read_thread in
    let u : Thread = record { marked = false; free_link = (thread_at ts i).free_link } in
    ground (
      arith,
      ap length q,
      length-set ts i u,
      Chain-set ts g.read_free_list i u free v.chain
          (Chain-NotIn ts g.read_free_list i free v.chain run),
      marked_count-set ts i u,
      run_count-keep ts i u,
      MarkedRun-set ts i u v.marked_run,
      marked_count-le ts,
    )

-- The section of a completion of the other thread, but for the waiting flag.
finish_other-Inv :
    (free : List ℕ) (is_error : Bool) (queue : List ℕ) {g : Gate}
    → Inv free g
    → g.other_queue ≡ queue
    → g.other_active ≡ 1
    → Inv free (record (unmark (complete_other is_error g queue).0 other) {
      waiting_marked_threads = false;
    })
unfolding unmark complete_other settle_flush arm_timer
finish_other-Inv free true queue {g} v q a = ground (arith, ap length q)
finish_other-Inv free false [] {g} v q a = ground (arith, ap length q)
finish_other-Inv free false (irp ∷ rest) {g} v q a = ground (arith, ap length q)

wake-Inv :
    (free : List ℕ) {g : Gate}
    → Inv free (record g { waiting_marked_threads = false })
    → (g.waiting_marked_threads ≡ true → g.other_active ≡ 1)
    → Inv free (wake g).0
unfolding wake
wake-Inv free {g} v h = ground arith

-- What the caller of LevelingThreadCompletion guarantees: the thread runs. The other thread does
-- not complete while it waits for the marked threads.
abbrev pub Running : Lane → Gate → Type 0
Running (read i) g = (i < read_threads) × ((thread_at g.read_thread i).free_link ≡ 255)
Running other g = (g.other_active ≡ 1) × (g.waiting_marked_threads ≡ false)

-- The indices that are idle after a completion.
abbrev pub freed : Lane → Option ℕ → List ℕ → List ℕ
freed (read i) none free = i ∷ free
freed (read i) (some irp) free = free
freed other now free = free

read_completion-Inv :
    (free : List ℕ) (is_error : Bool) (i : ℕ) (queue : List ℕ) {g : Gate}
    → Inv free g
    → g.read_queue ≡ queue
    → Running (read i) g
    → Inv
        (freed (read i) (complete_read is_error g i queue).1 free)
        (wake (unmark (complete_read is_error g i queue).0 (read i))).0
unfolding unmark complete_read
read_completion-Inv free true i queue {g} v q r =
    wake-Inv (i ∷ free) (finish_read-Inv free i v r.0 r.1) (ground (arith, v.waiting))
read_completion-Inv free false i [] {g} v q r =
    wake-Inv (i ∷ free) (finish_read-Inv free i v r.0 r.1) (ground (arith, v.waiting))
read_completion-Inv free false i (irp ∷ rest) {g} v q r =
    wake-Inv free (next_read-Inv free i irp rest v q r.0 r.1) (ground (arith, v.waiting))

other_completion-Inv :
    (free : List ℕ) (is_error : Bool) (queue : List ℕ) {g : Gate}
    → Inv free g
    → g.other_queue ≡ queue
    → Running other g
    → Inv free (wake (unmark (complete_other is_error g queue).0 other)).0
unfolding unmark complete_other settle_flush arm_timer
other_completion-Inv free true queue {g} v q r =
    wake-Inv free (finish_other-Inv free true queue v q r.0) (ground (arith, r.1))
other_completion-Inv free false [] {g} v q r =
    wake-Inv free (finish_other-Inv free false [] v q r.0) (ground (arith, r.1))
other_completion-Inv free false (irp ∷ rest) {g} v q r =
    wake-Inv free (finish_other-Inv free false (irp ∷ rest) v q r.0) (ground (arith, r.1))

-- The section of LevelingThreadCompletion keeps the invariant on every branch.
pub thread_completion-Inv :
    (mode : ℕ) (free : List ℕ) (lane : Lane) {g : Gate}
    → Inv free g
    → Running lane g
    → Inv (freed lane (thread_completion mode g lane).1.now free) (thread_completion mode g lane).0
unfolding thread_completion
thread_completion-Inv mode free (read i) {g} v r =
    read_completion-Inv free (not (mode == mode_active)) i g.read_queue v refl r
thread_completion-Inv mode free other {g} v r =
    other_completion-Inv free (not (mode == mode_active)) g.other_queue v refl r

-- Two states with the same requests in service and the same queues.
pub record SameWork (g h : Gate) : Type 0 where
  pub same_reads : h.read_queue ≡ g.read_queue
  pub same_others : h.other_queue ≡ g.other_queue
  pub same_read_active : h.read_active ≡ g.read_active
  pub same_other_active : h.other_active ≡ g.other_active

-- Unmarking the thread and waking the waiter touch neither queues nor counts of active threads.
pub wake-unmark-SameWork : (g : Gate) (lane : Lane) → SameWork g (wake (unmark g lane)).0
unfolding wake unmark
wake-unmark-SameWork g (read i) = ground arith
wake-unmark-SameWork g other = ground arith
