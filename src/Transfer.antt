-- ===== src/Transfer.antt =====
-- driver/vreq.c: how ScsiCallRW moves sectors to and from the drive, in pieces and with retries.
pub mod Ends
pub mod Idle
mod Tests
use fdlvling.Base.{
  ℕ, zero, suc, ◌+◌, ◌-◌, ◌/◌, ◌%◌, ◌^◌, Bool, true, false, not, Option, none, some, min, add32,
  inc8, leb, ◌==◌, ◌&&◌, if◌then◌else◌,
}

-- The fields of `struct _REQUEST` that the transfer uses; `good` is REQ_SUCCESS.
pub record Request : Type 0 where
  pub plba : ℕ
  pub len : ℕ
  pub transferred : ℕ
  pub retry : ℕ
  pub retry_limit : ℕ
  pub maximum_transfer_length : ℕ
  pub good : Bool

-- ScsiCallRW up to its handler, with ReuseRequest.
pub scsi_call_rw : Request → ℕ → ℕ → ℕ → Request
scsi_call_rw r plba len retry_limit = record r {
  plba = plba;
  len = len;
  transferred = 0;
  retry = 0;
  retry_limit = retry_limit;
  good = true;
}

-- The length of the next piece.
pub piece : Request → ℕ
piece r = min (r.len - r.transferred) (r.maximum_transfer_length / 512)

-- ScsiCallRWHandler up to IoCallDriver: `none` if it runs the completion of the request, else the
-- request with the counter of the retries set.
pub rw_handler : Request → Option Request
rw_handler r =
    if leb r.len r.transferred
    then none
    else if not r.good
    then if leb r.retry_limit r.retry then none else some (record r { retry = inc8 r.retry })
    else some (record r { retry = 0 })

-- How the lower driver completes a piece: REQ_SUCCESS of its status, IoStatus.Information, and
-- Srb->DataTransferLength as it leaves it, which may be less than was asked for.
pub record Answer : Type 0 where
  pub success : Bool
  pub information : ℕ
  pub data_transfer_length : ℕ

-- ScsiCallCompletion of a piece.
pub scsi_call_completion : Request → Answer → Request
scsi_call_completion r a =
    if a.success && (a.information == a.data_transfer_length)
    then record r { good = true; transferred = add32 r.transferred (a.data_transfer_length / 512) }
    else record r { good = false }

-- What follows the handler: the completion of the request, or the next round.
pub after_handler : Option Request → Request → (Request → Option Request) → Option Request
after_handler none r next = some r
after_handler (some t) r next = next t

-- The rounds of a transfer; `drive i n` is how the lower driver completes the piece of round `i`, of
-- `n` sectors, and `none` says that the transfer is not at its end after `fuel` rounds.
pub rw_rounds : ℕ → ℕ → (ℕ → ℕ → Answer) → Request → Option Request
unfolding after_handler
rw_rounds zero i drive r = none
rw_rounds (suc fuel) i drive r =
    after_handler (rw_handler r) r
      (λ t. rw_rounds fuel (i + 1) drive (scsi_call_completion t (drive i (piece t))))
