-- ===== src/Transfer/Ends.antt =====
-- driver/vreq.c: when a transfer ends.
use fdlvling.Base.{
  ℕ, zero, suc, ◌+◌, ◌-◌, ◌*◌, ◌/◌, ◌^◌, ◌≤◌, ◌<◌, ◌≡◌, ap, ◌∙◌, true, false, not, ◌⊎◌, inl, inr,
  arith, ◌&&◌, ◌==◌, add32, none, some, if-true, if-false, inc8, leb, if◌then◌else◌, Bool-cases,
  dec_lt,
}
use fdlvling.Transfer.{
  Request, Answer, scsi_call_rw, piece, rw_handler, scsi_call_completion, after_handler, rw_rounds,
}

-- Every piece has a sector, the counters are words, and no more is transferred than was asked for.
pub record Sound (r : Request) : Type 0 where
  pub some_piece : 512 ≤ r.maximum_transfer_length
  pub limit_byte : r.retry_limit < 2 ^ 8
  pub len_word : r.len < 2 ^ 32
  pub within : r.transferred ≤ r.len

-- How a transfer of `len` sectors ends: all of them are transferred, or the last piece failed
-- after as many retries as are allowed.
abbrev pub Ended : ℕ → Request → Type 0
Ended len r =
    (r.transferred ≤ len) × ((r.transferred ≡ len) ⊎ ((r.good ≡ false) × (r.retry_limit ≤ r.retry)))

abbrev pub Ends : ℕ → ℕ → (ℕ → ℕ → Answer) → Request → Type 0
Ends len i drive r = (fuel : ℕ) × (t : Request) × (rw_rounds fuel i drive r ≡ some t) × Ended len t

-- One round more, and the last round.
Ends-round :
    (len i : ℕ) (drive : ℕ → ℕ → Answer) (r t : Request)
    → rw_handler r ≡ some t
    → Ends len (i + 1) drive (scsi_call_completion t (drive i (piece t)))
    → Ends len i drive r
unfolding rw_rounds after_handler
Ends-round len i drive r t e (fuel, last, same, right) = (
  suc fuel,
  last,
  ap
        (λ o.
          after_handler o r
            (λ t. rw_rounds fuel (i + 1) drive (scsi_call_completion t (drive i (piece t)))))
        e
      ∙ same,
  right,
)

Ends-now :
    (len i : ℕ) (drive : ℕ → ℕ → Answer) (r : Request)
    → rw_handler r ≡ none
    → Ended len r
    → Ends len i drive r
unfolding rw_rounds after_handler
Ends-now len i drive r e right = (
  1,
  r,
  ap
      (λ o.
        after_handler o r
          (λ t. rw_rounds 0 (i + 1) drive (scsi_call_completion t (drive i (piece t)))))
      e,
  right,
)

-- What the handler does where it goes on: it changes the counter of the retries only.
abbrev pub with_retry : Request → ℕ → Request
with_retry r n = record r { retry = n }

-- The retries that are left.
abbrev tries : Request → ℕ
tries r = if r.good then r.retry_limit + 1 else r.retry_limit - r.retry

-- What the SRB says of a piece of `n` sectors that succeeds: it has moved at least one of them and no
-- more than `n`.
abbrev pub Moves : ℕ → Answer → Type 0
Moves n a =
    a.success ≡ true
    → a.information ≡ a.data_transfer_length
    → (512 ≤ a.data_transfer_length) × (a.data_transfer_length ≤ 512 * n)

-- A piece that failed, and one that moved `k` sectors.
abbrev stuck : Request → Request
stuck r = record r { good = false }

abbrev moved : Request → ℕ → Request
moved r k = record r { good = true; transferred = r.transferred + k }

Sound-stuck : (r : Request) (n : ℕ) → Sound r → Sound (stuck (with_retry r n))
Sound-stuck r n v = record {
  some_piece = v.some_piece;
  limit_byte = v.limit_byte;
  len_word = v.len_word;
  within = v.within;
}

Sound-moved :
    (r : Request) (n k : ℕ) → Sound r → r.transferred + k ≤ r.len → Sound (moved (with_retry r n) k)
Sound-moved r n k v fits = record {
  some_piece = v.some_piece;
  limit_byte = v.limit_byte;
  len_word = v.len_word;
  within = fits;
}

completion-cases :
    (r : Request) (a : Answer)
    → Sound r
    → r.transferred < r.len
    → Moves (piece r) a
    → (scsi_call_completion r a ≡ stuck r)
      ⊎ ((k : ℕ) × (0 < k) × (r.transferred + k ≤ r.len) × (scsi_call_completion r a ≡ moved r k))
unfolding scsi_call_completion piece
completion-cases r a v less moves =
    elim (Bool-cases (a.success && (a.information == a.data_transfer_length))) [
      | inr bad ↦ inl (if-false _ _ _ bad)
      | inl ok ↦
          let (some_moved, no_more) = moves (ground (arith, ok)) (ground (arith, ok)) in
          let k : ℕ = a.data_transfer_length / 512 in
          let fits : r.transferred + k ≤ r.len = ground (arith, no_more, v.within) in
          let sum : add32 r.transferred k ≡ r.transferred + k = omega (arith, fits, v.len_word) in
          inr (
            k,
            omega (arith, some_moved),
            fits,
            if-true _ _ _ ok ∙ ap (λ m. record r { good = true; transferred = m }) sum,
          )
    ]

-- The handler goes on with `n` as the counter of the retries.
goes_on :
    (i : ℕ) (drive : ℕ → ℕ → Answer) (r : Request) (n : ℕ)
    → Sound r
    → r.transferred < r.len
    → Moves (piece (with_retry r n)) (drive i (piece (with_retry r n)))
    → rw_handler r ≡ some (with_retry r n)
    → ((k : ℕ)
        → 0 < k
        → r.transferred + k ≤ r.len
        → Ends r.len (i + 1) drive (moved (with_retry r n) k))
    → Ends r.len (i + 1) drive (stuck (with_retry r n))
    → Ends r.len i drive r
goes_on i drive r n v less moves e done failed =
    let t = with_retry r n in
    let sound : Sound t = record {
      some_piece = v.some_piece;
      limit_byte = v.limit_byte;
      len_word = v.len_word;
      within = v.within;
    } in
    Ends-round r.len i drive r t e (elim (completion-cases t (drive i (piece t)) sound less moves) [
      | inl same ↦ rw same failed
      | inr (k, some_k, fits, same) ↦ rw same (done k some_k fits)
    ])

handler-all : (r : Request) → r.len ≤ r.transferred → rw_handler r ≡ none
unfolding rw_handler
handler-all r h = if-true (leb r.len r.transferred) _ _ (ground arith)

pub handler-good :
    (r : Request) → r.transferred < r.len → r.good ≡ true → rw_handler r ≡ some (with_retry r 0)
unfolding rw_handler
handler-good r h g =
    if-false (leb r.len r.transferred) _ _ (ground arith) ∙ if-false (not r.good) _ _ (ap not g)

handler-bad :
    (r : Request)
    → r.transferred < r.len
    → r.good ≡ false
    → rw_handler r
      ≡ (if leb r.retry_limit r.retry then none else some (with_retry r (inc8 r.retry)))
unfolding rw_handler
handler-bad r h g =
    if-false (leb r.len r.transferred) _ _ (ground arith) ∙ if-true (not r.good) _ _ (ap not g)

tries-good : (r : Request) → r.good ≡ true → tries r ≡ r.retry_limit + 1
tries-good r g = if-true r.good _ _ g

tries-bad : (r : Request) → r.good ≡ false → tries r ≡ r.retry_limit - r.retry
tries-bad r b = if-false r.good _ _ b

-- No try is left after a piece that failed.
Ends-exhausted :
    (i : ℕ) (drive : ℕ → ℕ → Answer) (r : Request)
    → Sound r
    → r.transferred < r.len
    → r.good ≡ false
    → r.retry_limit ≤ r.retry
    → Ends r.len i drive r
Ends-exhausted i drive r v less b over =
    Ends-now r.len i drive r
      (handler-bad r less b ∙ if-true (leb r.retry_limit r.retry) _ _ (ground arith))
      (v.within, inr (b, over))

-- By the sectors that are left, and by the tries that are left.
ends :
    (k j i : ℕ) (drive : ℕ → ℕ → Answer) (r : Request)
    → ((i n : ℕ) → Moves n (drive i n))
    → Sound r
    → r.len - r.transferred ≤ k
    → tries r ≤ j
    → Ends r.len i drive r
ends zero j i drive r moves v left more =
    Ends-now r.len i drive r (handler-all r (omega arith)) (v.within, inl (omega (arith, v.within)))
ends (suc k) zero i drive r moves v left more = elim (dec_lt r.transferred r.len) [
  | no all ↦
      Ends-now r.len i drive r (handler-all r (omega arith))
        (v.within, inl (omega (arith, v.within)))
  | yes less ↦ elim (Bool-cases r.good) [
    | inl g ↦ absurd (omega (arith, tries-good r g))
    | inr b ↦ Ends-exhausted i drive r v less b (omega (arith, tries-bad r b))
  ]
]
ends (suc k) (suc j) i drive r moves v left more = elim (dec_lt r.transferred r.len) [
  | no all ↦
      Ends-now r.len i drive r (handler-all r (omega arith))
        (v.within, inl (omega (arith, v.within)))
  | yes less ↦ elim (Bool-cases r.good) [
    | inl g ↦
        goes_on i drive r 0 v less (moves i (piece (with_retry r 0))) (handler-good r less g)
          (λ m some_m fits.
            ends k (r.retry_limit + 1) (i + 1) drive (moved (with_retry r 0) m) moves
              (Sound-moved r 0 m v fits) (omega (arith, some_m, left)) (omega arith))
          (ends (suc k) j (i + 1) drive (stuck (with_retry r 0)) moves (Sound-stuck r 0 v) left
            (omega (arith, tries-good r g)))
    | inr b ↦ elim (dec_lt r.retry r.retry_limit) [
      | no over ↦ Ends-exhausted i drive r v less b (omega arith)
      | yes again ↦
          let n = inc8 r.retry in
          let e : inc8 r.retry ≡ r.retry + 1 = omega (arith, v.limit_byte) in
          goes_on i drive r n v less (moves i (piece (with_retry r n)))
            (handler-bad r less b ∙ if-false (leb r.retry_limit r.retry) _ _ (ground arith))
            (λ m some_m fits.
              ends k (r.retry_limit + 1) (i + 1) drive (moved (with_retry r n) m) moves
                (Sound-moved r n m v fits) (omega (arith, some_m, left)) (omega arith))
            (ends (suc k) j (i + 1) drive (stuck (with_retry r n)) moves (Sound-stuck r n v) left
              (omega (arith, e, tries-bad r b)))
    ]
  ]
]

-- A transfer of ScsiCallRW ends where each piece that succeeds moves at least one sector and no more
-- than was asked for, whatever else the drive answers: after some number of rounds either all the
-- sectors are transferred, or the last piece failed as often as the limit of retries allows; never
-- more sectors are transferred than were asked for. The largest piece has at least one sector, the
-- limit is a byte and the length a word.
pub scsi_call_rw-Ends :
    (drive : ℕ → ℕ → Answer) (r : Request) (plba len retry_limit : ℕ)
    → ((i n : ℕ) → Moves n (drive i n))
    → 512 ≤ r.maximum_transfer_length
    → retry_limit < 2 ^ 8
    → len < 2 ^ 32
    → Ends len 0 drive (scsi_call_rw r plba len retry_limit)
unfolding scsi_call_rw
scsi_call_rw-Ends drive r plba len retry_limit moves whole limit word =
    ends len (retry_limit + 1) 0 drive (scsi_call_rw r plba len retry_limit) moves
      (record { some_piece = whole; limit_byte = limit; len_word = word; within = omega arith })
      (omega arith) (omega arith)
