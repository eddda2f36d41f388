-- ===== src/Trace/Tests.antt =====
-- driver/trace.c, on concrete messages.
use fdlvling.Base.{ℕ, ◌+◌, ◌-◌, ◌≤◌, ◌<◌, ◌≡◌, ◌≢◌, List, [], ◌∷◌, ◌++◌, arith, length}
use fdlvling.Trace.{Trace, print_char, trace_read}
use fdlvling.Trace.Ring.{InBounds, contents, push, print_char-push, trace_read-front}

-- A full ring of four characters, with the oldest one at index 2.
abbrev full_ring : Trace
full_ring = record { buffer = λ i. 65 + i; size = 4; begin = 2; end = 1 }

full_ring-InBounds : InBounds full_ring
full_ring-InBounds = record { begin_in = omega arith; end_in = omega arith }

print_char-push_example :
    InBounds (print_char full_ring 97)
    × (contents (print_char full_ring 97) ≡ push (4 - 1) (contents full_ring) 97)
print_char-push_example = print_char-push full_ring 97 full_ring-InBounds

trace_read-front_example :
    let (out, u) = trace_read full_ring 8 in
    (InBounds u × (contents full_ring ≡ out ++ contents u))
    × ((length out ≤ 8) × (contents full_ring ≢ [] → 0 < 8 → out ≢ []))
trace_read-front_example = trace_read-front full_ring 8 full_ring-InBounds

abbrev a_name : List ℕ
a_name = 65 ∷ []

abbrev a_format : List ℕ
a_format = 66 ∷ []
