-- ===== src/Trace.antt =====
-- driver/trace.c: trace messages go to a ring of characters, from which they are read.
-- A character is its code. The buffer is a function of its index (that the indices are in
-- bounds is a theorem); a string is the list of its characters before the NUL.
pub mod Ring
pub mod Numbers
pub mod Lines
mod Tests
use fdlvling.Base.{
  ℕ, zero, suc, ◌+◌, ◌-◌, ◌*◌, ◌/◌, ◌%◌, ◌≤◌, ◌^◌, Bool, true, false, not, ◌&&◌, ◌||◌, List, [],
  ◌∷◌, ◌++◌, Option, none, some, length, take, ltb, leb, ◌==◌, if◌then◌else◌,
}
use fdlvling.Store.{update}

-- trace_buffer (which is not NULL), trace_buffer_size, trace_buffer_begin, trace_buffer_end.
pub record Trace : Type 0 where
  pub buffer : ℕ → ℕ
  pub size : ℕ
  pub begin : ℕ
  pub end : ℕ

-- `if(trace_buffer_size <= x) x = 0;`
abbrev pub wrap : ℕ → ℕ → ℕ
wrap size x = if leb size x then 0 else x

-- print_char.
pub print_char : Trace → ℕ → Trace
print_char t c =
    let at = wrap t.size t.end in
    let end = wrap t.size (at + 1) in
    let begin = if end == t.begin then t.begin + 1 else t.begin in
    record t { buffer = update t.buffer at c; end = end; begin = wrap t.size begin }

pub print_chars : Trace → List ℕ → Trace
unfolding print_char
print_chars t [] = t
print_chars t (c ∷ cs) = print_chars (print_char t c) cs

-- The characters from index `i` on.
pub slice : ℕ → (ℕ → ℕ) → ℕ → List ℕ
slice zero buffer i = []
slice (suc n) buffer i = buffer i ∷ slice n buffer (i + 1)

-- trace_read of at most `length` characters.
pub transfer : Trace → ℕ → ℕ
transfer t length =
    let n = if ltb t.end t.begin then t.size - t.begin else t.end - t.begin in
    if ltb length n then length else n

pub trace_read : Trace → ℕ → List ℕ × Trace
unfolding slice transfer
trace_read t length =
    let n = transfer t length in
    (slice n t.buffer t.begin, record t { begin = wrap t.size (t.begin + n) })

-- The digits of `v` in base `base`, the last one first: the first loop of print_dec and, for
-- a number that is not negative, of print_hex and print_pointer, by the rounds left.
pub digits : ℕ → ℕ → ℕ → List ℕ
digits zero base v = []
digits (suc n) base v =
    let rest = digits n base (v / base) in v % base ∷ (if v / base == 0 then [] else rest)

-- `digit[k]`.
pub digit : ℕ → ℕ
digit k = if ltb k 10 then 48 + k else 87 + k

-- The second loop: the last digit of the array comes first.
pub print_digits : List ℕ → List ℕ
unfolding digit
print_digits [] = []
print_digits (d ∷ ds) = print_digits ds ++ digit d ∷ []

-- print_hex of a 32-bit word; `v >> 4` copies the sign.
pub hex_digits : ℕ → ℕ → List ℕ
hex_digits zero v = []
hex_digits (suc n) v =
    let w = v / 16 + (if leb 0x80000000 v then 0xf0000000 else 0) in
    let rest = hex_digits n w in v % 16 ∷ (if w == 0 then [] else rest)

pub print_hex : ℕ → List ℕ
unfolding print_digits hex_digits
print_hex v = print_digits (hex_digits 8 v)

-- print_dec of a 32-bit word other than INT_MIN; the sign bit is set from 2 ^ 31 on.
pub print_dec : ℕ → List ℕ
unfolding print_digits digits
print_dec v =
    if leb 0x80000000 v
    then 45 ∷ print_digits (digits 16 10 (0x100000000 - v))
    else print_digits (digits 16 10 v)

-- print_pointer where a pointer has 64 bits.
pub print_pointer : ℕ → List ℕ
unfolding print_digits digits
print_pointer v = print_digits (digits 16 16 v)

-- An argument of a message; what va_arg makes of another type is not modelled.
pub data Arg : Type 0 where
  int : ℕ → Arg
  pointer : ℕ → Arg
  string : List ℕ → Arg

-- The conversion `%c` of an argument; `-v` of INT_MIN has no value in C.
pub convert : ℕ → Arg → Option (List ℕ)
unfolding print_hex print_dec print_pointer
convert c (int v) =
    if c == 120
    then some (print_hex v)
    else if (c == 100) && not (v == 0x80000000)
    then some (print_dec v)
    else none
convert c (pointer v) = if c == 112 then some (print_pointer v) else none
convert c (string s) = if c == 115 then some s else none

abbrev pub takes_argument : ℕ → Bool
takes_argument c = (c == 120) || ((c == 100) || ((c == 112) || (c == 115)))

abbrev join : Option (List ℕ) → Option (List ℕ) → Option (List ℕ)
join none rest = none
join (some xs) none = none
join (some xs) (some ys) = some (xs ++ ys)

-- What trace_vprintf prints; the flag says that the last character was `%`. The result is `none`
-- where an argument is missing or of another type, and where the format ends after a single `%`,
-- since the loop then reads on behind the NUL.
pub format : Bool → List ℕ → List Arg → Option (List ℕ)
unfolding convert
format false [] args = some []
format true [] args = none
format false (c ∷ cs) args =
    let after_percent = format true cs args in
    let rest = format false cs args in if c == 37 then after_percent else join (some (c ∷ [])) rest
format true (c ∷ cs) [] =
    let rest = format false cs [] in
    if takes_argument c then none else join (some (if c == 37 then 37 ∷ [] else 37 ∷ c ∷ [])) rest
format true (c ∷ cs) (a ∷ args) =
    let converted = format false cs args in
    let rest = format false cs (a ∷ args) in
    if takes_argument c
    then join (convert c a) converted
    else join (some (if c == 37 then 37 ∷ [] else 37 ∷ c ∷ [])) rest

-- trace_vprintf into the ring.
pub trace_vprintf : Trace → List ℕ → List Arg → Option Trace
unfolding print_chars format
trace_vprintf t fmt args = elim (format false fmt args) [
  | none ↦ none
  | some cs ↦ some (print_chars t cs)
]

-- make_prefix with room for `n` characters; the indent is not negative.
pub make_prefix : ℕ → ℕ → List ℕ
make_prefix zero ind = []
make_prefix (suc n) ind =
    let nine = make_prefix n 9 in
    let rest = make_prefix n (ind - 1) in
    if ltb 10 ind then 43 ∷ nine else 32 ∷ (if ind == 0 then [] else rest)

-- make_prefix of any indent, `none` for a negative one.
pub prefix : Option ℕ → List ℕ
unfolding make_prefix
prefix none = 45 ∷ []
prefix (some ind) = make_prefix 126 ind

-- The characters of newfmt before bufend.
abbrev pub room : ℕ
room = 126

-- copy_string to the end of what is there.
pub copy_string : List ℕ → List ℕ → List ℕ
copy_string out s = out ++ take (room - length out) s

pub copy_strings : List ℕ → List (List ℕ) → List ℕ
unfolding copy_string
copy_strings out [] = out
copy_strings out (s ∷ ss) = copy_strings (copy_string out s) ss

-- newfmt of trace_printf, enter_function and leave_function, without its NUL; the flag says that
-- prevname is this name.
pub trace_line : Option ℕ → List ℕ → List ℕ → List ℕ
unfolding prefix copy_strings
trace_line ind name fmt = copy_strings (prefix ind) (name ∷ (58 ∷ []) ∷ fmt ∷ []) ++ 10 ∷ []

pub enter_line : Option ℕ → List ℕ → List ℕ → List ℕ
unfolding prefix copy_strings
enter_line ind name fmt =
    copy_strings (prefix ind) (name ∷ (40 ∷ []) ∷ fmt ∷ (41 ∷ 123 ∷ []) ∷ []) ++ 10 ∷ []

pub leave_line : Option ℕ → Bool → List ℕ → List ℕ → List ℕ
unfolding prefix copy_strings
leave_line ind same name fmt =
    let named = if same then [] else name ∷ [] in
    let valued = if length fmt == 0 then [] else (61 ∷ []) ∷ fmt ∷ [] in
    copy_strings (prefix ind) ((125 ∷ 32 ∷ []) ∷ (named ++ valued)) ++ 10 ∷ []
