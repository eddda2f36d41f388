-- ===== src/Gate/Tests.antt =====
-- driver/vgate.c: the gate on concrete histories.
use fdlvling.Base.{◌<◌, ◌≡◌, ◌≢◌, refl, true, false, some, List, [], ◌∷◌, ◌++◌, arith}
use fdlvling.Gate.{
  Gate, read, other, dispatch, admit_read, admit_other, thread_completion, complete_lane,
  complete_other, clean_loop, mode_active, read_threads, thread_at,
}
use fdlvling.Gate.Complete.{Running}
use fdlvling.Gate.Reach.{
  Good, Reach-Good, here, next, moves, dispatches, recovered, fresh_gate, linked, mode_error,
}
use fdlvling.Gate.Order.{Event, arrive, complete, Legal, started, arrived, queue_of, started-queue}
use fdlvling.Gate.Clean.{emptied, clean_loop_lem}
use fdlvling.Gate.Duties.{dispatch-idle}

ready : Good mode_active (fresh_gate 30)
ready = Reach-Good 30 (next here (moves (recovered refl refl)))

Reach-Good_example : Good mode_active (dispatch mode_active (fresh_gate 30) 7 true).0
unfolding fresh_gate linked
Reach-Good_example =
    Reach-Good 30 (
      next (next here (moves (recovered refl refl))) (dispatches 7 true (omega arith, omega arith)))

abbrev history : List Event
history = arrive 8 false ∷ arrive 9 false ∷ complete other ∷ []

history-Legal : Legal (fresh_gate 30) history
unfolding fresh_gate linked dispatch admit_other thread_completion complete_lane complete_other
history-Legal = ((omega arith, omega arith), ((omega arith, omega arith), ((refl, refl), tt)))

started-queue_example :
    (started false (fresh_gate 30) history).0
      ++ queue_of false (started false (fresh_gate 30) history).1
    ≡ queue_of false (fresh_gate 30) ++ arrived false history
started-queue_example =
    started-queue false ready.free (fresh_gate 30) history ready.inv (ready.busy refl) history-Legal

abbrev full_gate : Gate
full_gate = (dispatch mode_active (dispatch mode_active (fresh_gate 30) 8 false).0 9 false).0

two_writes :
    Good mode_active
      (dispatch mode_active (dispatch mode_active (fresh_gate 30) 8 false).0 9 false).0
unfolding fresh_gate linked dispatch admit_other
two_writes = Reach-Good 30 (
    next
      (next (next here (moves (recovered refl refl)))
        (dispatches 8 false (omega arith, omega arith)))
      (dispatches 9 false (omega arith, omega arith)))

clean_loop_example :
    clean_loop 5 mode_error full_gate
    ≡ some (emptied full_gate, full_gate.read_queue ++ full_gate.other_queue)
unfolding fresh_gate linked dispatch admit_other
clean_loop_example =
    clean_loop_lem 5 mode_error two_writes.free two_writes.inv (λ e. omega (arith, e))
      (ground arith)

dispatch-idle_example :
    (0 < read_threads)
    × ((thread_at (fresh_gate 30).read_thread 0).free_link ≢ 255)
    × Running (read 0) (dispatch mode_active (fresh_gate 30) 7 true).0
unfolding fresh_gate linked dispatch admit_read
dispatch-idle_example = dispatch-idle ready.free 7 0 ready.inv refl
