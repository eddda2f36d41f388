-- ===== src/Gate.antt =====
-- driver/vgate.c (admission, completion, marking, flush timer, cleaning): the gate through which
-- every request enters the leveling context. Reads run on READ_THREADS threads, everything else
-- on one other thread, and what finds no thread waits in one of two queues.
-- Each function below is one section under GlobalSpinLock: it maps the state that the section
-- finds to the state that it leaves and to what the caller does after it releases the lock.
pub mod FreeList
pub mod Invariant
pub mod Admit
pub mod Complete
pub mod Reach
pub mod Duties
pub mod Clean
pub mod Order
mod Tests
use fdlvling.Base.{
  ℕ, zero, suc, ◌+◌, ◌-◌, ◌%◌, ◌^◌, Bool, true, false, not, ◌&&◌, ◌||◌, Option, none, some, List,
  [], ◌∷◌, ◌++◌, add32, sub32, inc8, dec8, ltb, ◌==◌, if◌then◌else◌, get_or, set,
}

-- READ_THREADS.
abbrev pub read_threads : ℕ
read_threads = 10

-- VLTL_MODE_ACTIVE.
abbrev pub mode_active : ℕ
mode_active = 2

-- The fields of `struct _THREAD` that the gate uses; an index into ReadThread is its `Index`.
-- A `free_link` of 255 marks a thread that runs.
pub record Thread : Type 0 where
  pub marked : Bool
  pub free_link : ℕ

-- The fields of `struct _LEVELING_CTX` that the gate uses. A request (IRP) is a number.
pub record Gate : Type 0 where
  pub read_queue : List ℕ
  pub other_queue : List ℕ
  pub read_pending : ℕ
  pub other_pending : ℕ
  pub read_active : ℕ
  pub other_active : ℕ
  pub threads_marked : ℕ
  pub waiting_marked_threads : Bool
  pub cache_dirty : Bool
  pub flush_pending : Bool
  pub timer_active : Bool
  pub cache_timeout : ℕ
  pub read_free_list : ℕ
  pub read_thread : List Thread
  pub other_thread : Thread

abbrev pub idle_thread : Thread
idle_thread = record { marked = false; free_link = 255 }

-- ReadThread[i]; i is in range wherever the driver's assertions hold.
abbrev pub thread_at : List Thread → ℕ → Thread
thread_at ts i = get_or ts i idle_thread

-- Which thread of the context a completion is about.
pub data Lane : Type 0 where
  read : ℕ → Lane
  other : Lane

-- What LevelingDispatch does with the request after the section.
pub data Admission : Type 0 where
  mode_changed : Admission
  do_now : Lane → Admission
  queued : Admission

pub admit_read : Gate → ℕ → Gate × Admission
admit_read g irp =
    let i = g.read_free_list in
    if ltb g.read_active read_threads
    then (
      record g {
        read_pending = add32 g.read_pending 1;
        read_free_list = (thread_at g.read_thread i).free_link;
        read_thread =
            set g.read_thread i
              (record { marked = (thread_at g.read_thread i).marked; free_link = 255 });
        read_active = inc8 g.read_active;
      },
      do_now (read i),
    )
    else (
      record g { read_pending = add32 g.read_pending 1; read_queue = g.read_queue ++ (irp ∷ []) },
      queued,
    )

pub admit_other : Gate → ℕ → Gate × Admission
admit_other g irp =
    if g.other_active == 0
    then (
      record g { other_pending = add32 g.other_pending 1; other_active = inc8 g.other_active },
      do_now other,
    )
    else (
      record g {
        other_pending = add32 g.other_pending 1;
        other_queue = g.other_queue ++ (irp ∷ []);
      },
      queued,
    )

-- LevelingDispatch on a device whose Ctx is not NULL; without a Ctx it answers `mode_changed`.
pub dispatch : ℕ → Gate → ℕ → Bool → Gate × Admission
unfolding admit_read admit_other
dispatch mode g irp is_read =
    if not (mode == mode_active)
    then (g, mode_changed)
    else if is_read
    then admit_read g irp
    else admit_other g irp

-- MarkReadingThreads: the loop over ReadThread, with the count of the threads that it marks.
pub mark_all : List Thread → List Thread
mark_all [] = []
mark_all (t ∷ ts) = (if t.free_link == 255 then record t { marked = true } else t) ∷ mark_all ts

pub newly_marked : List Thread → ℕ → ℕ
newly_marked [] n = n
newly_marked (t ∷ ts) n =
    newly_marked ts (if (t.free_link == 255) && not t.marked then inc8 n else n)

pub mark_reading_threads : Gate → Gate
mark_reading_threads g = record g {
  read_thread = mark_all g.read_thread;
  threads_marked = newly_marked g.read_thread g.threads_marked;
}

-- WaitMarkedThreadsAndWriteCompleteHandler; the flag says that WriteCompleteHandler runs now.
pub wait_marked_threads : Gate → Gate × Bool
wait_marked_threads g =
    let w = ltb 0 g.threads_marked || g.waiting_marked_threads in
    (record g { waiting_marked_threads = w }, not w)

-- LevelingFlushDpc; the flag says that ExecuteFlush runs now.
pub flush_dpc : ℕ → Gate → Gate × Bool
flush_dpc mode g =
    if g.other_active == 0
    then if g.cache_dirty && (mode == mode_active)
      then (
        record g {
          other_pending = add32 g.other_pending 1;
          other_active = inc8 g.other_active;
          flush_pending = false;
          timer_active = false;
        },
        true,
      )
      else (record g { flush_pending = false; timer_active = false }, false)
    else (record g { flush_pending = true }, false)

-- What LevelingThreadCompletion does after its section: `now` is the request that it executes.
pub record Next : Type 0 where
  pub do_clean : Bool
  pub do_write_complete : Bool
  pub do_flush : Bool
  pub now : Option ℕ

pub complete_read : Bool → Gate → ℕ → List ℕ → Gate × Option ℕ
complete_read false g i (irp ∷ rest) =
    (record g { read_pending = sub32 g.read_pending 1; read_queue = rest }, some irp)
complete_read is_error g i queue = (
  record g {
    read_pending = sub32 g.read_pending 1;
    read_thread =
        set g.read_thread i
          (record { marked = (thread_at g.read_thread i).marked; free_link = g.read_free_list });
    read_free_list = i;
    read_active = dec8 g.read_active;
  },
  none,
)

-- The part of the other lane that starts no queued request: a pending flush, else the timer.
pub settle_flush : Bool → Gate → Gate × Bool
settle_flush is_error g =
    if g.flush_pending
    then if g.cache_dirty && not is_error
      then (
        record g {
          other_pending = add32 g.other_pending 1;
          other_active = inc8 g.other_active;
          flush_pending = false;
          timer_active = false;
        },
        true,
      )
      else (record g { flush_pending = false; timer_active = false }, false)
    else (g, false)

-- KeSetTimer is called exactly when this sets TimerActive.
pub arm_timer : Gate × Bool → Gate × Bool
arm_timer (g, true) = (g, true)
arm_timer (g, false) = (
  (if g.cache_dirty && (not g.timer_active && ltb 0 g.cache_timeout)
      then record g { timer_active = true }
      else g),
  false,
)

pub complete_other : Bool → Gate → List ℕ → Gate × Option ℕ × Bool
complete_other false g (irp ∷ rest) = (
  record g {
    other_pending = sub32 g.other_pending 1;
    other_active = inc8 (dec8 g.other_active);
    other_queue = rest;
  },
  some irp,
  false,
)
complete_other is_error g queue =
    let (g', flush) = arm_timer (
      settle_flush is_error (record g {
        other_pending = sub32 g.other_pending 1;
        other_active = dec8 g.other_active;
      })) in
    (g', none, flush)

pub complete_lane : Bool → Gate → Lane → Gate × Option ℕ × Bool
unfolding complete_read complete_other settle_flush arm_timer
complete_lane is_error g (read i) =
    let (g', now) = complete_read is_error g i g.read_queue in (g', now, false)
complete_lane is_error g other = complete_other is_error g g.other_queue

-- `if(Thread->Marked)`.
pub unmark : Gate → Lane → Gate
unmark g (read i) =
    if (thread_at g.read_thread i).marked
    then record g {
      read_thread =
          set g.read_thread i
            (record { marked = false; free_link = (thread_at g.read_thread i).free_link });
      threads_marked = dec8 g.threads_marked;
    }
    else g
unmark g other =
    if g.other_thread.marked
    then record g {
      other_thread = record { marked = false; free_link = g.other_thread.free_link };
      threads_marked = dec8 g.threads_marked;
    }
    else g

-- `if(Ctx->ThreadsMarked == 0 && Ctx->WaitingMarkedThreads)`.
pub wake : Gate → Gate × Bool
wake g =
    if (g.threads_marked == 0) && g.waiting_marked_threads
    then (record g { waiting_marked_threads = false }, true)
    else (g, false)

-- The locked section of LevelingThreadCompletion.
pub thread_completion : ℕ → Gate → Lane → Gate × Next
unfolding complete_lane unmark wake
thread_completion mode g lane =
    let is_error = not (mode == mode_active) in
    let (g1, now, flush) = complete_lane is_error g lane in
    let (g2, woken) = wake (unmark g1 lane) in
    (
      g2,
      record {
        do_clean = is_error && ((g2.read_active == 0) && (g2.other_active == 0));
        do_write_complete = woken;
        do_flush = flush;
        now = now;
      },
    )

-- The locked section of LevelingCleanAfterModeChanged: the request that it takes off a queue.
pub clean_queues : Gate → List ℕ → List ℕ → Gate × Option ℕ
clean_queues g (irp ∷ rest) others =
    (record g { read_queue = rest; read_pending = sub32 g.read_pending 1 }, some irp)
clean_queues g [] (irp ∷ rest) =
    (record g { other_queue = rest; other_pending = sub32 g.other_pending 1 }, some irp)
clean_queues g [] [] = (g, none)

pub clean_one : ℕ → Gate → Gate × Option ℕ
unfolding clean_queues
clean_one mode g =
    if mode == mode_active then (g, none) else clean_queues g g.read_queue g.other_queue

pub clean_more : ℕ → Option (Gate × List ℕ) → Option (Gate × List ℕ)
clean_more irp none = none
clean_more irp (some (g, irps)) = some (g, irp ∷ irps)

-- The loop of LevelingCleanAfterModeChanged with the mode unchanged, on fuel; the list holds the
-- requests that it completes with an error, in order.
pub clean_loop : ℕ → ℕ → Gate → Option (Gate × List ℕ)
unfolding clean_more
clean_loop zero mode g = none
clean_loop (suc fuel) mode g =
    let (g', o) = clean_one mode g in
    let rest = clean_loop fuel mode g' in
    elim o [ none ↦ some (g', []) | some irp ↦ clean_more irp rest ]
