-- ===== src/Trace/Ring.antt =====
-- driver/trace.c: the ring is a queue that drops its oldest character when it is full.
use fdlvling.Base.{
  ℕ, zero, suc, ◌+◌, ◌-◌, ◌≤◌, ◌<◌, ◌≡◌, ◌≢◌, refl, sym, ap, ◌∙◌, List, [], ◌∷◌, ◌++◌, arith,
  length, drop, if-true, if-false, ltb, ◌==◌, if◌then◌else◌, ℕ_discrete as dec_eq,
}
use fdlvling.Trace.{Trace, print_char, slice, transfer, trace_read}

-- The indices are in bounds.
pub record InBounds (t : Trace) : Type 0 where
  pub begin_in : t.begin < t.size
  pub end_in : t.end < t.size

pub tabulate : ℕ → (ℕ → ℕ) → List ℕ
tabulate zero f = []
tabulate (suc n) f = f 0 ∷ tabulate n (λ i. f (i + 1))

tabulate-ext : (n : ℕ) (f g : ℕ → ℕ) → ((i : ℕ) → i < n → f i ≡ g i) → tabulate n f ≡ tabulate n g
unfolding tabulate
tabulate-ext zero f g h = refl
tabulate-ext (suc n) f g h =
    ap (λ x. x ∷ tabulate n (λ i. f (i + 1))) (h 0 (omega arith))
    ∙ ap (λ xs. g 0 ∷ xs)
        (tabulate-ext n (λ i. f (i + 1)) (λ i. g (i + 1)) (λ i lt. h (i + 1) (omega arith)))

tabulate-append :
    (n m : ℕ) (f : ℕ → ℕ) → tabulate (n + m) f ≡ tabulate n f ++ tabulate m (λ i. f (n + i))
unfolding tabulate
tabulate-append zero m f =
    let e : 0 + m ≡ m = omega arith in
    ap (λ k. tabulate k f) e ∙ tabulate-ext m f (λ i. f (0 + i)) (λ i h. ap f (omega arith))
tabulate-append (suc n) m f =
    let e : suc n + m ≡ suc (n + m) = omega arith in
    ap (λ k. tabulate k f) e
    ∙ ap (λ xs. f 0 ∷ xs)
        (tabulate-append n m (λ i. f (i + 1))
          ∙ ap (λ xs. tabulate n (λ i. f (i + 1)) ++ xs)
              (tabulate-ext m (λ i. f ((n + i) + 1)) (λ i. f (suc n + i))
                (λ i h. ap f (omega arith))))

length-tabulate : (n : ℕ) (f : ℕ → ℕ) → length (tabulate n f) ≡ n
unfolding tabulate
length-tabulate zero f = refl
length-tabulate (suc n) f = ap suc (length-tabulate n (λ i. f (i + 1)))

-- How many characters there are, and character `i`.
pub count : Trace → ℕ
count t = if ltb t.end t.begin then t.end + t.size - t.begin else t.end - t.begin

pub char_at : Trace → ℕ → ℕ
char_at t i = t.buffer (if ltb (t.begin + i) t.size then t.begin + i else t.begin + i - t.size)

-- The characters that are to be read, the oldest first.
unfoldable pub contents : Trace → List ℕ
unfolding tabulate count char_at
contents t = tabulate (count t) (char_at t)

count-lt : (t : Trace) → InBounds t → count t < t.size
unfolding count
count-lt t v = ground (arith, v.begin_in, v.end_in)

-- A queue of at most `capacity` characters.
pub push : ℕ → List ℕ → ℕ → List ℕ
push capacity xs c = if length xs == capacity then drop 1 (xs ++ c ∷ []) else xs ++ c ∷ []

-- A character goes into a full ring, and into one with room.
print_char-full :
    (t : Trace) (c : ℕ)
    → InBounds t
    → count t + 1 ≡ t.size
    → (InBounds (print_char t c) × (count (print_char t c) ≡ count t))
      × ((i : ℕ)
          → i < count t
          → char_at (print_char t c) i ≡ (if i + 1 == count t then c else char_at t (i + 1)))
unfolding print_char count char_at
print_char-full t c v h = (
  (
    record {
      begin_in = ground (arith, v.begin_in, v.end_in);
      end_in = ground (arith, v.begin_in, v.end_in);
    },
    ground (arith, v.begin_in, v.end_in),
  ),
  λ i lt. ground (arith, v.begin_in, v.end_in),
)

print_char-room :
    (t : Trace) (c : ℕ)
    → InBounds t
    → count t + 1 ≢ t.size
    → (InBounds (print_char t c) × (count (print_char t c) ≡ count t + 1))
      × ((i : ℕ)
          → i ≤ count t
          → char_at (print_char t c) i ≡ (if i == count t then c else char_at t i))
unfolding print_char count char_at
print_char-room t c v h = (
  (
    record {
      begin_in = ground (arith, v.begin_in, v.end_in);
      end_in = ground (arith, v.begin_in, v.end_in);
    },
    ground (arith, v.begin_in, v.end_in),
  ),
  λ i lt. ground (arith, v.begin_in, v.end_in),
)

-- A character that is printed comes last.
tabulate-last :
    (n : ℕ) (f g : ℕ → ℕ) (c : ℕ)
    → ((i : ℕ) → i ≤ n → g i ≡ (if i == n then c else f i))
    → tabulate (suc n) g ≡ tabulate n f ++ c ∷ []
unfolding tabulate
tabulate-last n f g c h =
    let e : suc n ≡ n + 1 = omega arith in
    ap (λ k. tabulate k g) e
    ∙ tabulate-append n 1 g
    ∙ ap (λ xs. xs ++ g (n + 0) ∷ []) (tabulate-ext n g f (λ i lt. ground (arith, h i)))
    ∙ ap (λ x. tabulate n f ++ x ∷ []) (h (n + 0) (omega arith) ∙ ground arith)

-- Where the indices are in bounds: print_char keeps them in bounds and is the queue's push, with
-- room for one character less than the buffer has; a full queue drops its oldest character.
pub print_char-push :
    (t : Trace) (c : ℕ)
    → InBounds t
    → InBounds (print_char t c) × (contents (print_char t c) ≡ push (t.size - 1) (contents t) c)
unfolding contents push tabulate
print_char-push t c v =
    let n = count t in
    let len = length-tabulate n (char_at t) in
    elim (dec_eq (n + 1) t.size) [
      | yes full ↦
          let ((w, same), at) = print_char-full t c v full in
          let g = λ (i : ℕ). if i == n then c else char_at t i in
          (
            w,
            ap (λ k. tabulate k (char_at (print_char t c))) same
                ∙ tabulate-ext n (char_at (print_char t c)) (λ i. g (i + 1)) at
                ∙ ap (drop 1) (tabulate-last n (char_at t) g c (λ i h. refl))
                ∙ sym (
                    if-true _ (drop 1 (contents t ++ c ∷ [])) (contents t ++ c ∷ [])
                      (ground (arith, len))),
          )
      | no room ↦
          let ((w, more), at) = print_char-room t c v room in
          let same : count (print_char t c) ≡ suc n = omega (arith, more) in
          (
            w,
            ap (λ k. tabulate k (char_at (print_char t c))) same
                ∙ tabulate-last n (char_at t) (char_at (print_char t c)) c at
                ∙ sym (
                    if-false _ (drop 1 (contents t ++ c ∷ [])) (contents t ++ c ∷ [])
                      (ground (arith, len, count-lt t v))),
          )
    ]

slice-tabulate :
    (n : ℕ) (buffer : ℕ → ℕ) (i : ℕ) → slice n buffer i ≡ tabulate n (λ k. buffer (i + k))
unfolding slice tabulate
slice-tabulate zero buffer i = refl
slice-tabulate (suc n) buffer i =
    ap (λ x. buffer x ∷ slice n buffer (i + 1)) (omega arith)
    ∙ ap (λ xs. buffer (i + 0) ∷ xs)
        (slice-tabulate n buffer (i + 1)
          ∙ tabulate-ext n (λ k. buffer (i + 1 + k)) (λ k. buffer (i + (k + 1)))
              (λ k h. ap buffer (omega arith)))

-- What trace_read leaves.
trace_read-at :
    (t : Trace) (len : ℕ)
    → InBounds t
    → let (out, u) = trace_read t len in
      ((InBounds u × (count t ≡ transfer t len + count u)) × (transfer t len ≤ len))
      × (((i : ℕ) → i < count u → char_at u i ≡ char_at t (transfer t len + i))
          × ((i : ℕ) → i < transfer t len → t.buffer (t.begin + i) ≡ char_at t i))
unfolding trace_read transfer count char_at
trace_read-at t len v = (
  (
    (
      record { begin_in = ground (arith, v.begin_in, v.end_in); end_in = v.end_in },
      ground (arith, v.begin_in, v.end_in),
    ),
    ground (arith, v.begin_in, v.end_in),
  ),
  (λ i lt. ground (arith, v.begin_in, v.end_in), λ i lt. ground (arith, v.begin_in, v.end_in)),
)

transfer_pos : (t : Trace) (len : ℕ) → InBounds t → 0 < len → transfer t len ≡ 0 → count t ≡ 0
unfolding transfer count
transfer_pos t len v h e = ground (arith, v.begin_in, v.end_in, e)

-- Where the indices are in bounds: trace_read keeps them in bounds, takes its characters from the
-- front of the queue and at most as many as asked for, and takes one if there is one and one is
-- asked for.
pub trace_read-front :
    (t : Trace) (len : ℕ)
    → InBounds t
    → let (out, u) = trace_read t len in
      (InBounds u × (contents t ≡ out ++ contents u))
      × ((length out ≤ len) × (contents t ≢ [] → 0 < len → out ≢ []))
unfolding trace_read contents tabulate
trace_read-front t len v =
    let u = (trace_read t len).1 in
    let n = transfer t len in
    let (((w, total), most), (rest, front)) = trace_read-at t len v in
    let size : length (slice n t.buffer t.begin) ≡ n =
      ap length (slice-tabulate n t.buffer t.begin)
      ∙ length-tabulate n (λ k. t.buffer (t.begin + k)) in
    (
      (
        w,
        ap (λ k. tabulate k (char_at t)) total
            ∙ tabulate-append n (count u) (char_at t)
            ∙ ap (λ xs. xs ++ tabulate (count u) (λ i. char_at t (n + i)))
                (sym (
                  slice-tabulate n t.buffer t.begin
                  ∙ tabulate-ext n (λ k. t.buffer (t.begin + k)) (char_at t) front))
            ∙ ap (λ xs. slice n t.buffer t.begin ++ xs)
                (tabulate-ext (count u) (λ i. char_at t (n + i)) (char_at u)
                  (λ i h. sym (rest i h))),
      ),
      (
        omega (arith, size, most),
        λ some_left asked none_out.
            let taken : n ≡ 0 = sym size ∙ ap length none_out in
            some_left (ap (λ k. tabulate k (char_at t)) (transfer_pos t len v asked taken)),
      ),
    )
