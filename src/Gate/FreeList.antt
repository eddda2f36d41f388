-- ===== src/Gate/FreeList.antt =====
-- driver/vgate.c: the list of idle read threads that ReadFreeList and FreeLink thread through
-- the array ReadThread, as a chain of indices, and the count of the marked threads.
use fdlvling.Base.{
  ℕ, zero, suc, ◌+◌, ◌≤◌, ◌<◌, ◌≡◌, ◌≢◌, refl, ap, Bool, true, List, [], ◌∷◌, arith, length, set,
  get_or-set_self, get_or-set_ne, if◌then◌else◌, ◌==◌, inc8, ◌^◌,
}
use fdlvling.Gate.{Thread, read_threads, thread_at, idle_thread, mark_all, newly_marked}

-- `i` is none of the listed indices.
abbrev pub NotIn : ℕ → List ℕ → Type 0
NotIn i [] = Unit {0}
NotIn i (j ∷ js) = (i ≢ j) × NotIn i js

-- From the index `h` on the links run through the listed indices, each once, and end at
-- READ_THREADS.
abbrev pub Chain : List Thread → ℕ → List ℕ → Type 0
Chain ts h [] = h ≡ read_threads
Chain ts h (j ∷ js) =
    (h ≡ j) × (j < read_threads) × NotIn j js × Chain ts (thread_at ts j).free_link js

-- A thread that runs is not on the chain: its link is 255, which is no index.
pub Chain-NotIn :
    (ts : List Thread) (h i : ℕ) (js : List ℕ)
    → Chain ts h js
    → (thread_at ts i).free_link ≡ 255
    → NotIn i js
Chain-NotIn ts h i [] c e = tt
Chain-NotIn ts h i (j ∷ []) c e = ((λ p. ground arith), tt)
Chain-NotIn ts h i (j ∷ k ∷ js) c e =
    ((λ p. ground arith), Chain-NotIn ts (thread_at ts j).free_link i (k ∷ js) c.3 e)

-- Writing to a thread that is not on the chain keeps the chain.
pub Chain-set :
    (ts : List Thread) (h i : ℕ) (t : Thread) (js : List ℕ)
    → Chain ts h js
    → NotIn i js
    → Chain (set ts i t) h js
Chain-set ts h i t [] c n = c
Chain-set ts h i t (j ∷ js) c n =
    (c.0, c.1, c.2, rw (get_or-set_ne ts i j t idle_thread n.0) (Chain-set ts _ i t js c.3 n.1))

-- The first idle thread leaves the chain.
pub Chain-pop :
    (ts : List Thread) (h j : ℕ) (t : Thread) (js : List ℕ)
    → Chain ts h (j ∷ js)
    → Chain (set ts h t) (thread_at ts h).free_link js
Chain-pop ts h j t js c = rw c.0 (Chain-set ts _ j t js c.3 c.2)

-- A thread that ran becomes the first of the chain.
pub Chain-push :
    (ts : List Thread) (h i : ℕ) (m : Bool) (js : List ℕ)
    → Chain ts h js
    → (thread_at ts i).free_link ≡ 255
    → i < read_threads
    → i < length ts
    → Chain (set ts i (record { marked = m; free_link = h })) i (i ∷ js)
Chain-push ts h i m js c e lt len =
    let n : NotIn i js = Chain-NotIn ts h i js c e in
    (
      refl,
      lt,
      n,
      rw (get_or-set_self ts i (record { marked = m; free_link = h }) idle_thread len)
          (Chain-set ts h i (record { marked = m; free_link = h }) js c n),
    )

-- The number of marked threads.
abbrev pub marked_count : List Thread → ℕ
marked_count [] = 0
marked_count (t ∷ ts) = (if t.marked then 1 else 0) + marked_count ts

-- Only threads that run are marked.
abbrev pub MarkedRun : List Thread → Type 0
MarkedRun [] = Unit {0}
MarkedRun (t ∷ ts) = (t.marked ≡ true → t.free_link ≡ 255) × MarkedRun ts

pub MarkedRun-set :
    (ts : List Thread) (i : ℕ) (t : Thread)
    → MarkedRun ts
    → (t.marked ≡ true → t.free_link ≡ 255)
    → MarkedRun (set ts i t)
MarkedRun-set [] i t m h = tt
MarkedRun-set (s ∷ ts) zero t m h = (h, m.1)
MarkedRun-set (s ∷ ts) (suc i) t m h = (m.0, MarkedRun-set ts i t m.1 h)

pub MarkedRun-at :
    (ts : List Thread) (i : ℕ)
    → MarkedRun ts
    → (thread_at ts i).marked ≡ true
    → (thread_at ts i).free_link ≡ 255
MarkedRun-at [] i m h = refl
MarkedRun-at (s ∷ ts) zero m h = m.0 h
MarkedRun-at (s ∷ ts) (suc i) m h = MarkedRun-at ts i m.1 h

pub marked_count-set :
    (ts : List Thread) (i : ℕ) (t : Thread)
    → i < length ts
    → marked_count (set ts i t) + (if (thread_at ts i).marked then 1 else 0)
      ≡ marked_count ts + (if t.marked then 1 else 0)
marked_count-set [] i t h = absurd (omega arith)
marked_count-set (s ∷ ts) zero t h = omega arith
marked_count-set (s ∷ ts) (suc i) t h = omega (arith, marked_count-set ts i t (omega arith))

pub marked_count-le : (ts : List Thread) → marked_count ts ≤ length ts
marked_count-le [] = omega arith
marked_count-le (t ∷ ts) = ground (arith, marked_count-le ts)

-- MarkReadingThreads writes no link, so the chain stays.
pub free_link-mark_all :
    (ts : List Thread) (i : ℕ) → (thread_at (mark_all ts) i).free_link ≡ (thread_at ts i).free_link
unfolding mark_all
free_link-mark_all [] i = refl
free_link-mark_all (t ∷ ts) zero = ground arith
free_link-mark_all (t ∷ ts) (suc i) = free_link-mark_all ts i

pub length-mark_all : (ts : List Thread) → length (mark_all ts) ≡ length ts
unfolding mark_all
length-mark_all [] = refl
length-mark_all (t ∷ ts) = omega (arith, length-mark_all ts)

pub Chain-mark_all :
    (ts : List Thread) (h : ℕ) (js : List ℕ) → Chain ts h js → Chain (mark_all ts) h js
Chain-mark_all ts h [] c = c
Chain-mark_all ts h (j ∷ js) c =
    (c.0, c.1, c.2, rw (free_link-mark_all ts j) (Chain-mark_all ts _ js c.3))

pub MarkedRun-mark_all : (ts : List Thread) → MarkedRun ts → MarkedRun (mark_all ts)
unfolding mark_all
MarkedRun-mark_all [] m = tt
MarkedRun-mark_all (t ∷ ts) m = (ground (arith, m.0), MarkedRun-mark_all ts m.1)

-- The count that the loop adds is that of the threads that it marks; UCHAR does not wrap.
pub newly_marked_lem :
    (ts : List Thread) (n : ℕ)
    → n + length ts < 2 ^ 8
    → newly_marked ts n + marked_count ts ≡ n + marked_count (mark_all ts)
unfolding newly_marked mark_all
newly_marked_lem [] n h = omega arith
newly_marked_lem (t ∷ ts) n h = ground (arith, newly_marked_lem ts n, newly_marked_lem ts (inc8 n))

-- Changing a link changes no count.
pub marked_count-relink :
    (ts : List Thread) (i l : ℕ)
    → marked_count (set ts i (record { marked = (thread_at ts i).marked; free_link = l }))
      ≡ marked_count ts
marked_count-relink [] i l = refl
marked_count-relink (t ∷ ts) zero l = refl
marked_count-relink (t ∷ ts) (suc i) l = omega (arith, marked_count-relink ts i l)

pub marked_count-mark_all : (ts : List Thread) → marked_count ts ≤ marked_count (mark_all ts)
unfolding mark_all
marked_count-mark_all [] = omega arith
marked_count-mark_all (t ∷ ts) = ground (arith, marked_count-mark_all ts)

-- The number of threads that run.
abbrev pub run_count : List Thread → ℕ
run_count [] = 0
run_count (t ∷ ts) = (if t.free_link == 255 then 1 else 0) + run_count ts

pub run_count-set :
    (ts : List Thread) (i : ℕ) (t : Thread)
    → i < length ts
    → run_count (set ts i t) + (if (thread_at ts i).free_link == 255 then 1 else 0)
      ≡ run_count ts + (if t.free_link == 255 then 1 else 0)
run_count-set [] i t h = absurd (omega arith)
run_count-set (s ∷ ts) zero t h = omega arith
run_count-set (s ∷ ts) (suc i) t h = omega (arith, run_count-set ts i t (omega arith))

pub run_count-mark_all : (ts : List Thread) → run_count (mark_all ts) ≡ run_count ts
unfolding mark_all
run_count-mark_all [] = refl
run_count-mark_all (t ∷ ts) = ground (arith, run_count-mark_all ts)

-- The link of an idle thread is the next index of the chain, or its end.
pub Chain-link :
    (ts : List Thread) (h j : ℕ) (js : List ℕ)
    → Chain ts h (j ∷ js)
    → (thread_at ts j).free_link ≤ read_threads
Chain-link ts h j [] c = omega (arith, c.3)
Chain-link ts h j (k ∷ js) c = omega (arith, c.3)

pub Chain-head-le : (ts : List Thread) (h : ℕ) (js : List ℕ) → Chain ts h js → h ≤ read_threads
Chain-head-le ts h [] c = omega arith
Chain-head-le ts h (j ∷ js) c = omega (arith, c.0, c.1)

pub set-set : (ts : List Thread) (i : ℕ) (t u : Thread) → set (set ts i t) i u ≡ set ts i u
set-set [] i t u = refl
set-set (s ∷ ts) zero t u = refl
set-set (s ∷ ts) (suc i) t u = ap (◌∷◌ s) (set-set ts i t u)

pub run_count-stop :
    (ts : List Thread) (i : ℕ) (t : Thread)
    → i < length ts
    → (thread_at ts i).free_link ≡ 255
    → t.free_link ≤ read_threads
    → run_count (set ts i t) + 1 ≡ run_count ts
run_count-stop ts i t h r l = ground (arith, run_count-set ts i t h)

pub run_count-keep :
    (ts : List Thread) (i : ℕ) (t : Thread)
    → i < length ts
    → t.free_link ≡ (thread_at ts i).free_link
    → run_count (set ts i t) ≡ run_count ts
run_count-keep ts i t h l = ground (arith, run_count-set ts i t h)
