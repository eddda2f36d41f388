-- ===== src/Device.antt =====
-- driver/vltl.c, and CheckCompletion2 of driver/vcheck.c: the modes of a device, and where its
-- SCSI requests go.
pub mod Safety
mod Tests
use fdlvling.Base.{
  ℕ, ◌+◌, ◌%◌, ◌^◌, Bool, true, false, not, ◌&&◌, ◌||◌, List, [], ◌∷◌, Option, none, some, add32,
  ltb, leb, ◌==◌, if◌then◌else◌,
}

-- VLTL_MODE_DIRECT .. VLTL_MODE_ERROR, by the order of the names in ChangeMode.
abbrev pub mode_direct : ℕ
mode_direct = 0

abbrev pub mode_initial : ℕ
mode_initial = 1

abbrev pub mode_active : ℕ
mode_active = 2

abbrev pub mode_recovery : ℕ
mode_recovery = 3

abbrev pub mode_completed : ℕ
mode_completed = 5

abbrev pub mode_error : ℕ
mode_error = 6

-- The fields of `struct _DEVICE_EXTENSION` that these functions use; `has_ctx` says that Ctx is
-- not NULL.
pub record Extension : Type 0 where
  pub is_control_device : Bool
  pub allow_always : Bool
  pub mode : ℕ
  pub removable_media : Bool
  pub leveling_capable : Bool
  pub maximum_transfer_length : ℕ
  pub last_lba : ℕ
  pub tur_errors : ℕ

-- ChangeMode.
unfoldable pub change_mode : Extension → ℕ → Extension
change_mode d mode = record d {
  leveling_capable = if mode == mode_initial then false else d.leveling_capable;
  mode = mode;
}

-- ChangeModeAtomic.
unfoldable pub change_mode_atomic : Extension → ℕ → ℕ → Extension
unfolding change_mode
change_mode_atomic d from mode = if d.mode == from then change_mode d mode else d

-- Srb->Function, as far as VltlDispatchScsi tells the values apart; `execute` carries Cdb[0].
pub data Function : Type 0 where
  execute : ℕ → Function
  claim_device : Function
  lock_queue : Function
  unlock_queue : Function
  flush_queue : Function
  other_function : Function

-- SCSIOP_TEST_UNIT_READY, SCSIOP_READ_CAPACITY, SCSIOP_READ.
abbrev pub op_test_unit_ready : ℕ
op_test_unit_ready = 0x00

abbrev pub op_read_capacity : ℕ
op_read_capacity = 0x25

abbrev pub op_read : ℕ
op_read = 0x28

-- Where VltlDispatchScsi sends a request: to the control device's function, to the lower driver
-- with VltlDispatchScsiTURCompletion, to the gate, to LevelingCheck, or to the lower driver as it is.
pub data Route : Type 0 where
  to_control : Route
  to_lower_tur : Route
  to_gate : Bool → Route
  to_check : Route
  to_lower : Route

abbrev pub is_execute : Function → ℕ → Bool
is_execute (execute op) code = op == code
is_execute claim_device code = false
is_execute lock_queue code = false
is_execute unlock_queue code = false
is_execute flush_queue code = false
is_execute other_function code = false

-- The switch over Srb->Function.
abbrev pub is_queue_function : Function → Bool
is_queue_function (execute op) = false
is_queue_function claim_device = true
is_queue_function lock_queue = true
is_queue_function unlock_queue = true
is_queue_function flush_queue = true
is_queue_function other_function = false

-- VltlDispatchScsi.
pub dispatch_scsi : Extension → Function → Route
dispatch_scsi d f =
    if d.is_control_device
    then to_control
    else if is_execute f op_test_unit_ready
    then to_lower_tur
    else if leb mode_active d.mode
    then if is_queue_function f then to_lower else to_gate (is_execute f op_read)
    else if (d.mode == mode_initial)
        && (is_execute f op_read_capacity
            && ((d.removable_media || d.allow_always) && leb 0x8000 d.maximum_transfer_length))
    then to_check
    else to_lower

-- How the lower driver completed the request: STATUS_CANCELLED, success of the status and of the
-- SRB, or neither.
pub data Completed : Type 0 where
  cancelled : Completed
  succeeded : Completed
  went_wrong : Completed

-- The fields of the context that FreeLevelingCtx looks at.
pub record Context : Type 0 where
  pub read_pending : ℕ
  pub other_pending : ℕ
  pub timer_active : Bool

-- StillActive of FreeLevelingCtx; `cancels` is the answer of KeCancelTimer.
pub still_active : Bool → Context → Bool
still_active cancels c =
    if ltb 0 c.read_pending || ltb 0 c.other_pending
    then true
    else if c.timer_active
    then not cancels
    else false

-- FreeLevelingCtx where it does not wait; `none` is a context that is NULL. A context that it takes
-- from the device is freed.
pub free_leveling_ctx : Bool → Extension → Option Context → Extension × Option Context
unfolding change_mode still_active
free_leveling_ctx cancels d none = (change_mode d mode_initial, none)
free_leveling_ctx cancels d (some c) =
    if still_active cancels c then (d, some c) else (change_mode d mode_initial, none)

-- What VltlDispatchScsiTURCompletion leaves: the extension, the context, and whether the request
-- reports that no medium is there.
pub record TurEnd : Type 0 where
  pub extension : Extension
  pub context : Option Context
  pub no_media : Bool

-- The section under GlobalSpinLock: the part for the mode ACTIVE, and the whole.
pub count_failure : Extension → Extension
unfolding change_mode
count_failure d =
    let errors = add32 d.tur_errors 1 in
    if not (d.mode == mode_active)
    then d
    else if ltb 5 errors
    then change_mode (record d { tur_errors = errors }) mode_error
    else record d { tur_errors = errors }

pub tur_failure : Extension → Extension
unfolding change_mode count_failure
tur_failure d = count_failure (if d.mode == mode_direct then change_mode d mode_initial else d)

-- `if(VLTL_MODE_ERROR == DeviceExtension->Mode) { FreeLevelingCtx ... }`, and so for COMPLETED.
pub free_in_mode : Bool → ℕ → Extension × Option Context → Extension × Option Context
unfolding free_leveling_ctx
free_in_mode cancels mode (d, c) = if d.mode == mode then free_leveling_ctx cancels d c else (d, c)

-- From the test of the mode for the sense data on.
pub tur_tail : Bool → Extension × Option Context → TurEnd
unfolding free_in_mode
tur_tail cancels (d, c) =
    let (e, rest) = free_in_mode cancels mode_completed (d, c) in
    record { extension = e; context = rest; no_media = ltb mode_active d.mode }

-- VltlDispatchScsiTURCompletion; `cancels` is the answer of KeCancelTimer.
pub tur_completion : Bool → Extension → Option Context → Completed → TurEnd
unfolding tur_failure free_in_mode tur_tail
tur_completion cancels d c cancelled = record { extension = d; context = c; no_media = false }
tur_completion cancels d c succeeded = tur_tail cancels (record d { tur_errors = 0 }, c)
tur_completion cancels d c went_wrong =
    tur_tail cancels (free_in_mode cancels mode_error (tur_failure d, c))

-- CheckCompletion2 of the answer to READ CAPACITY; the flag says that the first sector is read.
pub check_capacity : Extension → Bool → ℕ → ℕ → Extension × Bool
unfolding change_mode_atomic
check_capacity d ok last_lba block_length =
    if not ok
    then (d, false)
    else if not (block_length == 512) || ltb last_lba 0x1bffff
    then (change_mode_atomic (record d { last_lba = last_lba }) mode_initial mode_direct, false)
    else (record d { last_lba = last_lba }, true)
