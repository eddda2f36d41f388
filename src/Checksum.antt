-- ===== src/Checksum.antt =====
-- lib/common.c: the 128-bit checksum that seals every structure written to the flash drive.
-- A buffer of `len` bytes (`len` a multiple of 4, as all four callers pass) is the list of its
-- 32-bit words; the last four words are the checksum.
pub mod Seal
mod Tests
use fdlvling.Base.{
  ℕ, zero, suc, ◌+◌, ◌-◌, ◌*◌, ◌/◌, ◌%◌, ◌^◌, Bool, true, false, List, [], ◌∷◌, ◌++◌, bit_or,
  bit_xor, add32, mul32, length, get_or, take, drop, ltb, ◌==◌, ◌&&◌, if◌then◌else◌,
}

-- `_rotl` of the C runtime on a 32-bit word.
pub rotl : ℕ → ℕ → ℕ
rotl x k = bit_or (x * 2 ^ k % 2 ^ 32) (x / 2 ^ (32 - k))

-- h1 .. h4.
pub record Hash : Type 0 where
  pub h1 : ℕ
  pub h2 : ℕ
  pub h3 : ℕ
  pub h4 : ℕ

abbrev c1 : ℕ
c1 = 0x239b961b

abbrev c2 : ℕ
c2 = 0xab0e9789

abbrev c3 : ℕ
c3 = 0x38b34ae5

abbrev c4 : ℕ
c4 = 0xa1e38b93

-- One lane of a round: scramble the block `k`, mix it into `h`, add the next lane.
pub mix : ℕ → ℕ → ℕ → ℕ → ℕ → ℕ → ℕ → ℕ → ℕ
mix h k ca cb rk rh next add =
    add32 (mul32 (add32 (rotl (bit_xor h (mul32 (rotl (mul32 k ca) rk) cb)) rh) next) 5) add

-- The loop body for the four words from index `i` on.
pub round : List ℕ → ℕ → Hash → Hash
round blocks i h =
    let a = mix h.h1 (get_or blocks i 0) c1 c2 15 19 h.h2 0x561ccd1b in
    let b = mix h.h2 (get_or blocks (i + 1) 0) c2 c3 16 17 h.h3 0x0bcaa747 in
    let c = mix h.h3 (get_or blocks (i + 2) 0) c3 c4 17 15 h.h4 0x96cd1c35 in
    let d = mix h.h4 (get_or blocks (i + 3) 0) c4 c1 18 13 a 0x32ac3b17 in
    record { h1 = a; h2 = b; h3 = c; h4 = d }

-- `for(i = 0; i < nblocks; i += 4)`, by the rounds left.
pub rounds : ℕ → List ℕ → ℕ → Hash → Hash
rounds zero blocks i h = h
rounds (suc n) blocks i h = rounds n blocks (i + 4) (round blocks i h)

-- `nblocks = (len - 13) / 4` for a buffer of `n` words; it is negative or 0 for `n` up to 4.
pub nblocks : ℕ → ℕ
nblocks n = (4 * n - 13) / 4

-- The number of rounds that the loop makes.
pub loop_count : ℕ → ℕ
loop_count n = (nblocks n + 3) / 4

abbrev pub zeros : List ℕ
zeros = 0 ∷ 0 ∷ 0 ∷ 0 ∷ []

-- The words before the checksum, and the checksum.
abbrev pub payload : List ℕ → List ℕ
payload buf = take (length buf - 4) buf

abbrev pub stored : List ℕ → List ℕ
stored buf = drop (length buf - 4) buf

abbrev pub hash_words : Hash → List ℕ
hash_words h = h.h1 ∷ h.h2 ∷ h.h3 ∷ h.h4 ∷ []

-- The four words that the loop computes over a buffer whose checksum field is cleared.
pub digest : List ℕ → ℕ → List ℕ
digest cleared n =
    hash_words (rounds (loop_count n) cleared 0 (record { h1 = 0; h2 = 0; h3 = 0; h4 = 0 }))

-- `ProduceChecksum128(buf, len)`: the buffer that it leaves.
pub produce_checksum128 : List ℕ → List ℕ
produce_checksum128 buf = payload buf ++ digest (payload buf ++ zeros) (length buf)

-- `memcmp(a, b, 16)` on words: equal or not.
pub same_words : List ℕ → List ℕ → Bool
same_words [] [] = true
same_words [] (y ∷ ys) = false
same_words (x ∷ xs) [] = false
same_words (x ∷ xs) (y ∷ ys) = (x == y) && same_words xs ys

-- `VerifyChecksum128(buf, len)`: the answer, and the buffer that it leaves.
pub record Verdict : Type 0 where
  pub ok : Bool
  pub buf : List ℕ

pub verify_checksum128 : List ℕ → Verdict
verify_checksum128 buf =
    let made = produce_checksum128 buf in
    if same_words (stored buf) (stored made)
    then record { ok = true; buf = made }
    else record { ok = false; buf = payload made ++ stored buf }
