-- ===== src/Checksum/Seal.antt =====
-- What the checksum of lib/common.c guarantees to the code that reads a structure back.
use fdlvling.Base.{
  ℕ, zero, suc, ◌+◌, ◌-◌, ◌*◌, ◌/◌, ◌≤◌, ◌<◌, ◌≡◌, refl, sym, ap, ◌∙◌, ◌↔◌, inl, inr, true, List,
  [], ◌∷◌, ◌++◌, arith, length, length-append, length-take, take-append, drop-append,
  take-append-drop, Bool-cases, get_or-append_lt,
}
use fdlvling.Checksum.{
  Hash, round, rounds, nblocks, loop_count, zeros, payload, stored, digest, produce_checksum128,
  same_words, verify_checksum128,
}

length-payload : (buf : List ℕ) → 4 ≤ length buf → length (payload buf) ≡ length buf - 4
length-payload buf h = length-take (length buf - 4) buf (omega arith)

length-produce : (buf : List ℕ) → 4 ≤ length buf → length (produce_checksum128 buf) ≡ length buf
unfolding produce_checksum128 digest
length-produce buf h = omega (
  arith,
  length-append (payload buf) (digest (payload buf ++ zeros) (length buf)),
  length-payload buf,
)

payload-produce : (buf : List ℕ) → 4 ≤ length buf → payload (produce_checksum128 buf) ≡ payload buf
unfolding produce_checksum128
payload-produce buf h =
    take-append (length (produce_checksum128 buf) - 4) (payload buf) _
      (omega (arith, length-payload buf h, length-produce buf h))

stored-produce :
    (buf : List ℕ)
    → 4 ≤ length buf
    → stored (produce_checksum128 buf) ≡ digest (payload buf ++ zeros) (length buf)
unfolding produce_checksum128
stored-produce buf h =
    drop-append (length (produce_checksum128 buf) - 4) (payload buf) _
      (omega (arith, length-payload buf h, length-produce buf h))

-- Sealing a sealed buffer again changes nothing.
pub produce-produce :
    (buf : List ℕ)
    → 4 ≤ length buf
    → produce_checksum128 (produce_checksum128 buf) ≡ produce_checksum128 buf
unfolding produce_checksum128
produce-produce buf h =
    ap (λ p. p ++ digest (p ++ zeros) (length (produce_checksum128 buf))) (payload-produce buf h)
    ∙ ap (λ n. payload buf ++ digest (payload buf ++ zeros) n) (length-produce buf h)

same_words_refl : (xs : List ℕ) → same_words xs xs ≡ true
unfolding same_words
same_words_refl [] = refl
same_words_refl (x ∷ xs) = ground (arith, same_words_refl xs)

same_words-eq : (xs ys : List ℕ) → same_words xs ys ≡ true → xs ≡ ys
unfolding same_words
same_words-eq [] [] h = refl
same_words-eq [] (y ∷ ys) h = ground arith
same_words-eq (x ∷ xs) [] h = ground arith
same_words-eq (x ∷ xs) (y ∷ ys) h = ground (arith, same_words-eq xs ys)

-- A buffer is its payload followed by its checksum.
payload-stored : (buf : List ℕ) → payload buf ++ stored buf ≡ buf
payload-stored buf = take-append-drop (length buf - 4) buf

-- For a buffer that has room for the checksum: a buffer that was sealed passes the test, and
-- stays as it is.
pub verify-produce :
    (buf : List ℕ)
    → 4 ≤ length buf
    → verify_checksum128 (produce_checksum128 buf)
      ≡ record { ok = true; buf = produce_checksum128 buf }
unfolding verify_checksum128
verify-produce buf h = rw (produce-produce buf h, same_words_refl)

-- For a buffer that has room for the checksum: the test passes exactly when the stored checksum
-- is the one that is computed from the payload, and it leaves every buffer as it was, whether it
-- passes or not.
pub verify_lem :
    (buf : List ℕ)
    → 4 ≤ length buf
    → ((verify_checksum128 buf).ok ≡ true ↔ stored buf ≡ digest (payload buf ++ zeros) (length buf))
      × ((verify_checksum128 buf).buf ≡ buf)
unfolding verify_checksum128 produce_checksum128
verify_lem buf h = elim (Bool-cases (same_words (stored buf) (stored (produce_checksum128 buf)))) [
  | inl e ↦ rw e (
    (λ _. same_words-eq _ _ e ∙ stored-produce buf h, λ _. refl),
    ap (λ s. payload buf ++ s) (sym (same_words-eq _ _ e ∙ stored-produce buf h))
        ∙ payload-stored buf,
  )
  | inr e ↦ rw e (
    (λ q. cc q, λ q. cc (q, e, stored-produce buf h, same_words_refl (stored buf))),
    ap (λ p. p ++ stored buf) (payload-produce buf h) ∙ payload-stored buf,
  )
]

round-append :
    (buf rest : List ℕ) (i : ℕ) (h : Hash)
    → i + 3 < length buf
    → round (buf ++ rest) i h ≡ round buf i h
unfolding round
round-append buf rest i h p = rw (
  get_or-append_lt buf rest i 0 (omega arith),
  get_or-append_lt buf rest (i + 1) 0 (omega arith),
  get_or-append_lt buf rest (i + 2) 0 (omega arith),
  get_or-append_lt buf rest (i + 3) 0 (omega arith),
)

rounds-append :
    (n : ℕ) (buf rest : List ℕ) (i : ℕ) (h : Hash)
    → i + 4 * n ≤ length buf
    → rounds n (buf ++ rest) i h ≡ rounds n buf i h
unfolding rounds
rounds-append zero buf rest i h p = refl
rounds-append (suc n) buf rest i h p =
    rw (round-append buf rest i h (omega arith))
      (rounds-append n buf rest (i + 4) (round buf i h) (omega arith))

-- For a buffer that has room for the checksum: the loop reads nothing behind the buffer, so
-- what lies there does not change the checksum, although its last round reads beyond `nblocks`.
pub digest-append :
    (buf rest : List ℕ)
    → 4 ≤ length buf
    → digest (buf ++ rest) (length buf) ≡ digest buf (length buf)
unfolding digest loop_count nblocks
digest-append buf rest h =
    rw (rounds-append ((((4 * length buf - 13) / 4) + 3) / 4) buf rest 0 _ (omega arith))
