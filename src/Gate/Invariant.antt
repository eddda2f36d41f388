-- ===== src/Gate/Invariant.antt =====
-- driver/vgate.c: what holds of the gate's counters, queues and threads between two sections.
use fdlvling.Base.{ℕ, ◌+◌, ◌^◌, ◌≤◌, ◌<◌, ◌≡◌, true, false, List, [], length}
use fdlvling.Gate.{Gate, read_threads}
use fdlvling.Gate.FreeList.{Chain, MarkedRun, marked_count, run_count}

-- `free` lists the idle read threads in the order of the chain.
pub record Inv (free : List ℕ) (g : Gate) : Type 0 where
  pub threads : length g.read_thread ≡ read_threads
  pub chain : Chain g.read_thread g.read_free_list free
  pub idle : length free + g.read_active ≡ read_threads
  pub running : run_count g.read_thread ≡ g.read_active
  pub reads : g.read_pending ≡ g.read_active + length g.read_queue
  pub others : g.other_pending ≡ g.other_active + length g.other_queue
  pub one : g.other_active ≤ 1
  pub marks : g.threads_marked ≡ marked_count g.read_thread
  pub marked_run : MarkedRun g.read_thread
  pub other_unmarked : g.other_thread.marked ≡ false
  pub waiting : g.waiting_marked_threads ≡ true → (0 < g.threads_marked) × (g.other_active ≡ 1)
  pub read_word : g.read_pending < 2 ^ 32
  pub other_word : g.other_pending < 2 ^ 32

-- No request waits while a thread that could serve it is idle.
pub record Busy (g : Gate) : Type 0 where
  pub read_busy : g.read_active < read_threads → g.read_queue ≡ []
  pub other_busy : g.other_active ≡ 0 → g.other_queue ≡ []

-- No request has entered yet.
pub record Pristine (g : Gate) : Type 0 where
  pub no_reads : g.read_queue ≡ []
  pub no_others : g.other_queue ≡ []
  pub no_read_active : g.read_active ≡ 0
  pub no_other_active : g.other_active ≡ 0
