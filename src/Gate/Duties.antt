-- ===== src/Gate/Duties.antt =====
-- driver/vgate.c: what a read that is admitted at once gets.
use fdlvling.Base.{ℕ, ◌<◌, ◌≡◌, ◌≢◌, get_or-set_self, true, List, [], ◌∷◌, arith}
use fdlvling.Gate.{
  Gate, read, Admission, idle_thread, read_threads, mode_active, thread_at, dispatch, admit_read,
}
use fdlvling.Gate.FreeList.{Chain-link}
use fdlvling.Gate.Invariant.{Inv}
use fdlvling.Gate.Complete.{Running}

-- Where a read is admitted at once, in a state that satisfies the invariant, the thread that it
-- gets is a thread of the array that was idle, and runs afterwards.
pub dispatch-idle :
    (free : List ℕ) {g : Gate} (irp i : ℕ)
    → Inv free g
    → (dispatch mode_active g irp true).1 ≡ Admission.do_now (read i)
    → (i < read_threads)
      × ((thread_at g.read_thread i).free_link ≢ 255)
      × Running (read i) (dispatch mode_active g irp true).0
unfolding dispatch admit_read
dispatch-idle [] {g} irp i v e = absurd (ground (arith, v.idle))
dispatch-idle (j ∷ js) {g} irp i v e = (
  ground arith,
  ground (arith, Chain-link g.read_thread g.read_free_list j js v.chain),
  ground (
    arith,
    get_or-set_self g.read_thread i
        (record { marked = (thread_at g.read_thread i).marked; free_link = 255 }) idle_thread,
  ),
)
