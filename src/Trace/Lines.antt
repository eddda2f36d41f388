-- ===== src/Trace/Lines.antt =====
-- driver/trace.c: the lines that the trace puts together in newfmt, an array of 128 characters.
use fdlvling.Base.{
  ℕ, zero, suc, ◌+◌, ◌-◌, ◌≤◌, ◌<◌, ◌≡◌, refl, sym, ap, ◌∙◌, Bool, List, [], ◌∷◌, ◌++◌, Option,
  none, some, arith, length, length-append, take, ◌==◌, if◌then◌else◌,
}
use fdlvling.Trace.{
  make_prefix, prefix, room, copy_string, copy_strings, trace_line, enter_line, leave_line,
}

length-take_le : (n : ℕ) (xs : List ℕ) → length (take n xs) ≤ n
length-take_le zero xs = omega arith
length-take_le (suc n) [] = omega arith
length-take_le (suc n) (x ∷ xs) = omega (arith, length-take_le n xs)

take-all : (n : ℕ) (xs : List ℕ) → length xs ≤ n → take n xs ≡ xs
take-all zero [] h = refl
take-all zero (x ∷ xs) h = absurd (omega arith)
take-all (suc n) [] h = refl
take-all (suc n) (x ∷ xs) h = ap (λ ys. x ∷ ys) (take-all n xs (omega arith))

-- The longest prefix is a plus sign or a space for each step of the indent.
make_prefix-length :
    (n ind : ℕ)
    → (length (make_prefix n ind) ≤ 11) × (ind ≤ 10 → length (make_prefix n ind) ≤ ind + 1)
unfolding make_prefix
make_prefix-length zero ind = (omega arith, λ h. omega arith)
make_prefix-length (suc n) ind =
    let (a, b) = make_prefix-length n 9 in
    let (c, d) = make_prefix-length n (ind - 1) in (ground (arith, b, d), λ h. ground (arith, d))

prefix-length : (ind : Option ℕ) → length (prefix ind) ≤ 11
unfolding prefix
prefix-length none = omega arith
prefix-length (some ind) = (make_prefix-length 126 ind).0

copy_strings-length :
    (ss : List (List ℕ)) (out : List ℕ) → length out ≤ room → length (copy_strings out ss) ≤ room
unfolding copy_strings copy_string
copy_strings-length [] out h = h
copy_strings-length (s ∷ ss) out h = copy_strings-length ss (copy_string out s) (
    omega
      (arith, length-append out (take (room - length out) s), length-take_le (room - length out) s))

total : List (List ℕ) → ℕ
total [] = 0
total (s ∷ ss) = length s + total ss

concat : List (List ℕ) → List ℕ
concat [] = []
concat (s ∷ ss) = s ++ concat ss

append_assoc : (xs ys zs : List ℕ) → (xs ++ ys) ++ zs ≡ xs ++ (ys ++ zs)
append_assoc [] ys zs = refl
append_assoc (x ∷ xs) ys zs = ap (λ l. x ∷ l) (append_assoc xs ys zs)

append_nil : (xs : List ℕ) → xs ++ [] ≡ xs
append_nil [] = refl
append_nil (x ∷ xs) = ap (λ l. x ∷ l) (append_nil xs)

copy_strings-whole :
    (ss : List (List ℕ)) (out : List ℕ)
    → length out + total ss ≤ room
    → copy_strings out ss ≡ out ++ concat ss
unfolding copy_strings copy_string total concat
copy_strings-whole [] out h = sym (append_nil out)
copy_strings-whole (s ∷ ss) out h =
    let e : copy_string out s ≡ out ++ s =
      ap (λ l. out ++ l) (take-all (room - length out) s (omega arith)) in
    ap (λ l. copy_strings l ss) e
    ∙ copy_strings-whole ss (out ++ s) (omega (arith, length-append out s))
    ∙ append_assoc out s (concat ss)

ended-length :
    (ss : List (List ℕ)) (ind : Option ℕ) → length (copy_strings (prefix ind) ss ++ 10 ∷ []) < 128
ended-length ss ind = omega (
  arith,
  length-append (copy_strings (prefix ind) ss) (10 ∷ []),
  copy_strings-length ss (prefix ind) (omega (arith, prefix-length ind)),
)

-- The lines of trace_printf, enter_function and leave_function fit in the 128 characters of newfmt
-- with their NUL; and a line of trace_printf whose name and format have at most 114 characters
-- together has all of both.
pub lines-fit :
    (ind : Option ℕ) (same : Bool) (name fmt : List ℕ)
    → ((length (trace_line ind name fmt) < 128)
        × ((length (enter_line ind name fmt) < 128)
            × (length (leave_line ind same name fmt) < 128)))
      × (length name + length fmt ≤ 114
          → trace_line ind name fmt ≡ (prefix ind ++ (name ++ 58 ∷ fmt)) ++ 10 ∷ [])
unfolding trace_line enter_line leave_line total concat
lines-fit ind same name fmt = (
  (
    ended-length (name ∷ (58 ∷ []) ∷ fmt ∷ []) ind,
    (
      ended-length (name ∷ (40 ∷ []) ∷ fmt ∷ (41 ∷ 123 ∷ []) ∷ []) ind,
      ended-length
          ((125 ∷ 32 ∷ [])
            ∷ ((if same then [] else name ∷ [])
                ++ (if length fmt == 0 then [] else (61 ∷ []) ∷ fmt ∷ [])))
          ind,
    ),
  ),
  λ h.
      ap (λ l. l ++ 10 ∷ [])
        (copy_strings-whole (name ∷ (58 ∷ []) ∷ fmt ∷ []) (prefix ind)
            (omega (arith, prefix-length ind))
          ∙ ap (λ l. prefix ind ++ (name ++ 58 ∷ l)) (append_nil fmt)),
)
