-- ===== src/Transfer/Idle.antt =====
-- driver/vreq.c: a transfer whose pieces succeed without moving a sector.
use fdlvling.Base.{
  ℕ, zero, suc, ◌+◌, ◌^◌, ◌<◌, ◌≡◌, refl, ap, ◌∙◌, true, arith, none, if-true, ◌&&◌, ◌==◌,
}
use fdlvling.Transfer.{
  Request, Answer, scsi_call_rw, piece, scsi_call_completion, after_handler, rw_rounds,
}
use fdlvling.Transfer.Ends.{with_retry, handler-good}

-- The rounds of a request in which no piece moves a sector.
rounds-idle :
    (fuel i : ℕ) (drive : ℕ → ℕ → Answer) (r : Request)
    → ((i n : ℕ)
        → ((drive i n).success ≡ true)
          × ((drive i n).information ≡ 0)
          × ((drive i n).data_transfer_length ≡ 0))
    → r.transferred < r.len
    → r.len < 2 ^ 32
    → r.good ≡ true
    → rw_rounds fuel i drive r ≡ none
unfolding rw_rounds after_handler scsi_call_completion
rounds-idle zero i drive r idle less word good = refl
rounds-idle (suc fuel) i drive r idle less word good =
    let t = with_retry r 0 in
    let a = drive i (piece t) in
    let (ok, none_there, no_length) = idle i (piece t) in
    let same : scsi_call_completion t (drive i (piece t))
        ≡ record t { good = true; transferred = r.transferred } =
      if-true (a.success && (a.information == a.data_transfer_length)) _ _
        (ground (arith, ok, none_there, no_length))
      ∙ ap (λ m. record t { good = true; transferred = m })
          (omega (arith, no_length, less, word)) in
    ap
      (λ o.
        after_handler o r
          (λ u. rw_rounds fuel (i + 1) drive (scsi_call_completion u (drive i (piece u)))))
      (handler-good r less good)
    ∙ ap (rw_rounds fuel (i + 1) drive) same
    ∙ rounds-idle fuel (i + 1) drive (record t { good = true; transferred = r.transferred }) idle
        less word refl

-- A transfer of at least one sector whose pieces are each completed with success and a length of 0
-- does not end, whatever the limit of retries: each such success sets the counter of the retries to 0.
pub scsi_call_rw-idle :
    (fuel : ℕ) (drive : ℕ → ℕ → Answer) (r : Request) (plba len retry_limit : ℕ)
    → ((i n : ℕ)
        → ((drive i n).success ≡ true)
          × ((drive i n).information ≡ 0)
          × ((drive i n).data_transfer_length ≡ 0))
    → 0 < len
    → len < 2 ^ 32
    → rw_rounds fuel 0 drive (scsi_call_rw r plba len retry_limit) ≡ none
unfolding scsi_call_rw
scsi_call_rw-idle fuel drive r plba len retry_limit idle some_len word =
    rounds-idle fuel 0 drive (scsi_call_rw r plba len retry_limit) idle some_len word refl
