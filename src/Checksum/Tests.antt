-- ===== src/Checksum/Tests.antt =====
-- lib/common.c: sealing a concrete buffer.
use fdlvling.Base.{ℕ, ◌≡◌, ◌↔◌, true, List, [], ◌∷◌, ◌++◌, length, arith}
use fdlvling.Checksum.{produce_checksum128, verify_checksum128, digest, payload, stored, zeros}
use fdlvling.Checksum.Seal.{verify-produce, verify_lem, digest-append}

abbrev buffer : List ℕ
buffer = 1000 ∷ 7 ∷ 5 ∷ 4 ∷ 3 ∷ 2 ∷ []

verify-produce_example :
    verify_checksum128 (produce_checksum128 buffer)
    ≡ record { ok = true; buf = produce_checksum128 buffer }
verify-produce_example = verify-produce buffer (omega arith)

verify_example :
    ((verify_checksum128 buffer).ok ≡ true
      ↔ stored buffer ≡ digest (payload buffer ++ zeros) (length buffer))
    × ((verify_checksum128 buffer).buf ≡ buffer)
verify_example = verify_lem buffer (omega arith)

digest-append_example : digest (buffer ++ 9 ∷ []) (length buffer) ≡ digest buffer (length buffer)
digest-append_example = digest-append buffer (9 ∷ []) (omega arith)
