-- ===== src/Gate/Order.antt =====
-- driver/vgate.c: the order of service. While the mode is ACTIVE each lane starts its requests in
-- the order of their arrival, and loses or repeats none.
use fdlvling.Base.{
  ℕ, ◌≡◌, refl, ap, sym, ◌∙◌, Bool, true, false, not, Option, none, some, List, [], ◌∷◌, ◌++◌,
  arith, if◌then◌else◌,
}
use mathlib.Core.List.{append-nil, append_assoc}
use fdlvling.Gate.{
  Gate, Lane, read, other, Admission, mode_active, dispatch, admit_read, admit_other,
  thread_completion, complete_lane, complete_read, complete_other, settle_flush, arm_timer,
}
use fdlvling.Gate.Invariant.{Inv, Busy}
use fdlvling.Gate.Admit.{dispatch-Inv, free_after}
use fdlvling.Gate.Complete.{Running, freed, thread_completion-Inv, wake-unmark-SameWork}
use fdlvling.Gate.Reach.{Room, dispatch-Busy, completion-Busy}

-- What happens at the gate: a request arrives, or a thread completes.
pub data Event : Type 0 where
  arrive : ℕ → Bool → Event
  complete : Lane → Event

abbrev pub is_read_lane : Lane → Bool
is_read_lane (read i) = true
is_read_lane other = false

-- The request that an arrival starts.
abbrev started_now : Admission → ℕ → List ℕ
started_now (Admission.do_now lane) irp = irp ∷ []
started_now Admission.queued irp = []
started_now Admission.mode_changed irp = []

abbrev listed : Option ℕ → List ℕ
listed none = []
listed (some irp) = irp ∷ []

-- The state after an event, and the request that starts with it.
pub step_event : Gate → Event → Gate × List ℕ
step_event g (arrive irp is_read) =
    let (g', adm) = dispatch mode_active g irp is_read in (g', started_now adm irp)
step_event g (complete lane) =
    let (g', n) = thread_completion mode_active g lane in (g', listed n.now)

-- The lane that an event is about: true for reads.
abbrev event_lane : Event → Bool
event_lane (arrive irp is_read) = is_read
event_lane (complete lane) = is_read_lane lane

abbrev pub same_lane : Bool → Bool → Bool
same_lane true b = b
same_lane false true = false
same_lane false false = true

-- The requests of a lane that arrive in a history.
pub arrived : Bool → List Event → List ℕ
arrived b [] = []
arrived b (arrive irp is_read ∷ es) = (if same_lane b is_read then irp ∷ [] else []) ++ arrived b es
arrived b (complete lane ∷ es) = arrived b es

-- The final state, and the requests of a lane in the order in which they start.
pub started : Bool → Gate → List Event → List ℕ × Gate
started b g [] = ([], g)
started b g (e ∷ es) =
    let (g', irps) = step_event g e in
    let (rest, g'') = started b g' es in
    ((if same_lane b (event_lane e) then irps else []) ++ rest, g'')

abbrev pub queue_of : Bool → Gate → List ℕ
queue_of true g = g.read_queue
queue_of false g = g.other_queue

-- The history can happen: the pending counts have room, and only running threads complete.
abbrev pub Legal : Gate → List Event → Type 0
Legal g [] = Unit {0}
Legal g (arrive irp is_read ∷ es) = Room g × Legal (dispatch mode_active g irp is_read).0 es
Legal g (complete lane ∷ es) = Running lane g × Legal (thread_completion mode_active g lane).0 es

dispatch-queue :
    (is_read : Bool) (g : Gate) (irp : ℕ)
    → Busy g
    → (started_now (dispatch mode_active g irp is_read).1 irp
          ++ queue_of is_read (dispatch mode_active g irp is_read).0
        ≡ queue_of is_read g ++ irp ∷ [])
      × (queue_of (not is_read) (dispatch mode_active g irp is_read).0 ≡ queue_of (not is_read) g)
unfolding dispatch admit_read admit_other
dispatch-queue true g irp b = ground arith
dispatch-queue false g irp b = ground arith

complete_read-queue :
    (g : Gate) (i : ℕ) (queue : List ℕ)
    → g.read_queue ≡ queue
    → (listed (complete_read false g i queue).1 ++ (complete_read false g i queue).0.read_queue
        ≡ queue)
      × ((complete_read false g i queue).0.other_queue ≡ g.other_queue)
unfolding complete_read
complete_read-queue g i [] q = (q, refl)
complete_read-queue g i (irp ∷ rest) q = (refl, refl)

complete_other-queue :
    (g : Gate) (queue : List ℕ)
    → g.other_queue ≡ queue
    → (listed (complete_other false g queue).1 ++ (complete_other false g queue).0.other_queue
        ≡ queue)
      × ((complete_other false g queue).0.read_queue ≡ g.read_queue)
unfolding complete_other settle_flush arm_timer
complete_other-queue g [] q = ground arith
complete_other-queue g (irp ∷ rest) q = (refl, refl)

completion-queue :
    (lane : Lane) (g : Gate)
    → (listed (thread_completion mode_active g lane).1.now
          ++ queue_of (is_read_lane lane) (thread_completion mode_active g lane).0
        ≡ queue_of (is_read_lane lane) g)
      × (queue_of (not (is_read_lane lane)) (thread_completion mode_active g lane).0
          ≡ queue_of (not (is_read_lane lane)) g)
unfolding thread_completion complete_lane
completion-queue (read i) g =
    let own = complete_read-queue g i g.read_queue refl in
    let work = wake-unmark-SameWork (complete_read false g i g.read_queue).0 (read i) in
    (rw work.same_reads own.0, work.same_others ∙ own.1)
completion-queue other g =
    let own = complete_other-queue g g.other_queue refl in
    let work = wake-unmark-SameWork (complete_other false g g.other_queue).0 other in
    (rw work.same_others own.0, work.same_reads ∙ own.1)

-- One event: what starts and what then waits is what waited and what arrives.
step_event-queue :
    (b : Bool) (g : Gate) (e : Event)
    → Busy g
    → (if same_lane b (event_lane e) then (step_event g e).1 else [])
        ++ queue_of b (step_event g e).0
      ≡ queue_of b g ++ arrived b (e ∷ [])
unfolding step_event arrived
step_event-queue true g (arrive irp true) b = (dispatch-queue true g irp b).0
step_event-queue true g (arrive irp false) b = (dispatch-queue false g irp b).1 ∙ sym (append-nil _)
step_event-queue true g (complete (read i)) b = (completion-queue (read i) g).0 ∙ sym (append-nil _)
step_event-queue true g (complete other) b = (completion-queue other g).1 ∙ sym (append-nil _)
step_event-queue false g (arrive irp true) b = (dispatch-queue true g irp b).1 ∙ sym (append-nil _)
step_event-queue false g (arrive irp false) b = (dispatch-queue false g irp b).0
step_event-queue false g (complete (read i)) b =
    (completion-queue (read i) g).1 ∙ sym (append-nil _)
step_event-queue false g (complete other) b = (completion-queue other g).0 ∙ sym (append-nil _)

arrived-cons :
    (b : Bool) (e : Event) (es : List Event)
    → arrived b (e ∷ es) ≡ arrived b (e ∷ []) ++ arrived b es
unfolding arrived
arrived-cons b (arrive irp is_read) es = ap (λ x. x ++ arrived b es) (sym (append-nil _))
arrived-cons b (complete lane) es = refl

-- What an event leaves is again a state that the history can go on from.
step_event-Legal :
    (free : List ℕ) (g : Gate) (e : Event) (es : List Event)
    → Inv free g
    → Busy g
    → Legal g (e ∷ es)
    → (free' : List ℕ) × Inv free' (step_event g e).0
      × Busy (step_event g e).0
      × Legal (step_event g e).0 es
unfolding step_event
step_event-Legal free g (arrive irp is_read) es v w l = (
  free_after (dispatch mode_active g irp is_read).1 free,
  dispatch-Inv mode_active free irp is_read v l.0.0 l.0.1,
  dispatch-Busy free irp is_read v w,
  l.1,
)
step_event-Legal free g (complete lane) es v w l = (
  freed lane (thread_completion mode_active g lane).1.now free,
  thread_completion-Inv mode_active free lane v l.0,
  completion-Busy free lane v l.0 w,
  l.1,
)

-- In a state that satisfies the invariant, while the mode stays ACTIVE: over every history of
-- arrivals and completions that can happen, the requests of a lane that start, in the order in
-- which they start, and then those that still wait are those that waited and then those that
-- arrived. So each lane serves its requests in the order of arrival, each once.
pub started-queue :
    (b : Bool) (free : List ℕ) (g : Gate) (es : List Event)
    → Inv free g
    → Busy g
    → Legal g es
    → (started b g es).0 ++ queue_of b (started b g es).1 ≡ queue_of b g ++ arrived b es
unfolding started arrived
started-queue b free g [] v w l = sym (append-nil _)
started-queue b free g (e ∷ es) v w l =
    let (free', v', w', l') = step_event-Legal free g e es v w l in
    let own : List ℕ = if same_lane b (event_lane e) then (step_event g e).1 else [] in
    append_assoc own (started b (step_event g e).0 es).0 _
    ∙ ap (◌++◌ own) (started-queue b free' (step_event g e).0 es v' w' l')
    ∙ sym (append_assoc own (queue_of b (step_event g e).0) (arrived b es))
    ∙ ap (λ x. x ++ arrived b es) (step_event-queue b g e w)
    ∙ append_assoc (queue_of b g) (arrived b (e ∷ [])) (arrived b es)
    ∙ ap (◌++◌ (queue_of b g)) (sym (arrived-cons b e es))
