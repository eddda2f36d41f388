-- ===== src/Transfer/Tests.antt =====
-- driver/vreq.c: a transfer of 300 sectors in pieces of 128.
use fdlvling.Base.{ℕ, ◌≡◌, refl, true, false, none, arith, leb}
use fdlvling.Transfer.{Request, Answer, scsi_call_rw, rw_rounds}
use fdlvling.Transfer.Ends.{Moves, Ends, scsi_call_rw-Ends}
use fdlvling.Transfer.Idle.{scsi_call_rw-idle}

abbrev idle : Request
idle = record {
  plba = 0;
  len = 0;
  transferred = 0;
  retry = 0;
  retry_limit = 0;
  maximum_transfer_length = 0x10000;
  good = true;
}

-- A drive that fails each piece, and one that moves a sector at a time.
abbrev failing : ℕ → ℕ → Answer
failing i n = record { success = false; information = 0; data_transfer_length = 0 }

abbrev slow : ℕ → ℕ → Answer
slow i n = record { success = leb 1 n; information = 512; data_transfer_length = 512 }

abbrev asleep : ℕ → ℕ → Answer
asleep i n = record { success = true; information = 0; data_transfer_length = 0 }

failed_transfer : Ends 300 0 failing (scsi_call_rw idle 0x400 300 5)
failed_transfer =
    scsi_call_rw-Ends failing idle 0x400 300 5 (λ i n e. absurd (ground (arith, e))) (omega arith)
      (omega arith) (omega arith)

slow-Moves : (i n : ℕ) → Moves n (slow i n)
slow-Moves i n e same = (omega arith, ground (arith, e))

scsi_call_rw-Ends_example : Ends 300 0 slow (scsi_call_rw idle 0x400 300 5)
scsi_call_rw-Ends_example =
    scsi_call_rw-Ends slow idle 0x400 300 5 slow-Moves (omega arith) (omega arith) (omega arith)

scsi_call_rw-idle_example : rw_rounds 1000 0 asleep (scsi_call_rw idle 0x400 300 5) ≡ none
scsi_call_rw-idle_example =
    scsi_call_rw-idle 1000 asleep idle 0x400 300 5 (λ i n. (refl, refl, refl)) (omega arith)
      (omega arith)
