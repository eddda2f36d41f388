-- ===== src/Trace/Numbers.antt =====
-- driver/trace.c: the numbers that the trace prints.
use fdlvling.Base.{
  ℕ, zero, suc, ◌+◌, ◌-◌, ◌*◌, ◌/◌, ◌%◌, ◌<◌, ◌≡◌, refl, sym, ap, ◌∙◌, List, [], ◌∷◌, ◌++◌, arith,
  ltb, leb, ◌==◌, if◌then◌else◌, if_cases, if-true, if-false,
}
use fdlvling.Trace.{digits, digit, print_digits, print_dec, print_pointer}

-- The number that a list of digits stands for, the last digit first, and the least that `n` digits
-- cannot write.
pub number : ℕ → List ℕ → ℕ
number base [] = 0
number base (d ∷ ds) = d + base * number base ds

pub limit : ℕ → ℕ → ℕ
limit base zero = 1
limit base (suc n) = base * limit base n

-- How a reader takes characters for a number.
pub undigit : ℕ → ℕ
undigit c = if ltb c 58 then c - 48 else c - 87

pub read_number : ℕ → ℕ → List ℕ → ℕ
unfolding undigit
read_number base acc [] = acc
read_number base acc (c ∷ cs) = read_number base (base * acc + undigit c) cs

read_number-last :
    (base acc : ℕ) (cs : List ℕ) (c : ℕ)
    → read_number base acc (cs ++ c ∷ []) ≡ base * read_number base acc cs + undigit c
unfolding read_number
read_number-last base acc [] c = refl
read_number-last base acc (x ∷ cs) c = read_number-last base (base * acc + undigit x) cs c

swap : (a b : ℕ) → a + b ≡ b + a
swap a b = omega arith

undigit-digit : (d : ℕ) → d < 16 → undigit (digit d) ≡ d
unfolding undigit digit
undigit-digit d h = ground arith

-- A base with digits: division by it, and its remainders.
module _ (base : ℕ) (whole : (v : ℕ) → v % base + base * (v / base) ≡ v)
    (small : (v m : ℕ) → v < base * m → v / base < m) (one : (v : ℕ) → v % base < 16) where
  number-digits : (n v : ℕ) → v < limit base n → number base (digits n base v) ≡ v
  unfolding number digits limit
  number-digits zero v h = omega arith
  number-digits (suc n) v h =
      let P = λ (ds : List ℕ). v % base + base * number base ds ≡ v in
      if_cases P (v / base == 0) [] (digits n base (v / base))
        (λ e.
          let none_left : v / base ≡ 0 = ground (arith, e) in
          ap (λ q. v % base + base * q) (sym none_left) ∙ whole v)
        (λ _.
          ap (λ q. v % base + base * q) (number-digits n (v / base) (small v (limit base n) h))
          ∙ whole v)

  read-digits :
      (n v : ℕ)
      → read_number base 0 (print_digits (digits n base v)) ≡ number base (digits n base v)
  unfolding digits print_digits number read_number
  read-digits zero v = refl
  read-digits (suc n) v =
      let P = λ (ds : List ℕ).
        read_number base 0 (print_digits ds ++ digit (v % base) ∷ [])
        ≡ v % base + base * number base ds in
      let last = λ (ds : List ℕ) (e : read_number base 0 (print_digits ds) ≡ number base ds).
        read_number-last base 0 (print_digits ds) (digit (v % base))
        ∙ ap (λ q. base * q + undigit (digit (v % base))) e
        ∙ ap (λ d. base * number base ds + d) (undigit-digit (v % base) (one v))
        ∙ swap (base * number base ds) (v % base) in
      if_cases P (v / base == 0) [] (digits n base (v / base)) (λ _. last [] refl)
        (λ _. last (digits n base (v / base)) (read-digits n (v / base)))

  print-read_number :
      (n v : ℕ) → v < limit base n → read_number base 0 (print_digits (digits n base v)) ≡ v
  print-read_number n v h = read-digits n v ∙ number-digits n v h

ten : (n v : ℕ) → v < limit 10 n → read_number 10 0 (print_digits (digits n 10 v)) ≡ v
ten = print-read_number 10 (λ w. omega arith) (λ w m k. omega (arith, k)) (λ w. omega arith)

-- print_dec of a number that is not negative prints digits that read back as the number; of one
-- below 0, except INT_MIN, a minus sign and the digits of its absolute value; and print_pointer of
-- a 64-bit pointer prints digits in base 16 that read back as the pointer.
pub print-read :
    (v : ℕ)
    → ((v < 0x80000000 → read_number 10 0 (print_dec v) ≡ v)
        × (0x80000000 < v
            → v < 0x100000000
            → (cs : List ℕ) × ((print_dec v ≡ 45 ∷ cs) × (read_number 10 0 cs ≡ 0x100000000 - v))))
      × (v < 0x10000000000000000 → read_number 16 0 (print_pointer v) ≡ v)
unfolding print_dec print_pointer limit
print-read v = (
  (
    λ h.
        ap (read_number 10 0)
          (if-false (leb 0x80000000 v) _ (print_digits (digits 16 10 v)) (ground arith))
        ∙ ten 16 v (omega arith),
    λ lo hi. (
      print_digits (digits 16 10 (0x100000000 - v)),
      (
        if-true (leb 0x80000000 v) (45 ∷ print_digits (digits 16 10 (0x100000000 - v))) _
            (ground arith),
        ten 16 (0x100000000 - v) (omega arith),
      ),
    ),
  ),
  λ h.
      print-read_number 16 (λ w. omega arith) (λ w m k. omega (arith, k)) (λ w. omega arith) 16 v
        (omega arith),
)
