-- ===== src/Sums/Shares.antt =====
-- Which terms the threads of Lab7/main.c add, for every number of threads.
use os_posix.Prelude.{
  ℕ, zero, suc, ◌+◌, ◌-◌, ◌%◌, ◌≤◌, ◌<◌, ◌≡◌, ◌≢◌, ◌∙◌, ap, List, [], ◌∷◌, ◌++◌, ltb, leb, ◌==◌,
  ◌&&◌, if◌then◌else◌, arith, dec_lt, inl, inr, Bool-cases,
}
use os_posix.Sums.{execute_loop, execute_thread, add_partial_sums}
use native.Mathlib.Nat.{add-mod_right, mod-add-mod, mod-eq_of_lt, mod-eq-sub-mod, mod-lt, mod-le}

-- How often `k` stands in a list.
abbrev pub count : ℕ → List ℕ → ℕ
count k [] = 0
count k (x ∷ xs) = (if x == k then 1 else 0) + count k xs

pub count-append : (k : ℕ) (xs ys : List ℕ) → count k (xs ++ ys) ≡ count k xs + count k ys
count-append k [] ys = omega arith
count-append k (x ∷ xs) ys = omega (arith, count-append k xs ys)

-- Fewer than `t` steps do not come back to the same remainder.
add-mod-ne : (t r d : ℕ) → r < t → 0 < d → d < t → (r + d) % t ≢ r
add-mod-ne t r d hr hd ht = elim (dec_lt (r + d) t) [
  | yes p ↦ omega (arith, mod-eq_of_lt p)
  | no p ↦ omega (
    arith,
    mod-eq-sub-mod {n = r + d} {m = t} (omega arith),
    mod-eq_of_lt {n = r + d - t} {m = t} (omega arith),
  )
]

between : (t i k : ℕ) → 0 < t → i < k → k < i + t → k % t ≢ i % t
between t i k ht hi hk e =
    add-mod-ne t (i % t) (k - i) (mod-lt i ht) (omega arith) (omega arith)
      (mod-add-mod i t (k - i) ∙ ap (λ m. m % t) same ∙ e)
  where
    same : i + (k - i) ≡ k
    same = omega arith

-- What the loop adds from `i` on: `k` once, if it is below the bound and in step with `i`.
abbrev due : ℕ → ℕ → ℕ → ℕ → ℕ
due t n i k = if (ltb k n && leb i k) && (k % t == i % t) then 1 else 0

due_step :
    (t n i k : ℕ) → 0 < t → i < n → due t n i k ≡ (if i == k then 1 else 0) + due t n (i + t) k
due_step t n i k ht hi = ground (arith, add-mod_right i t, between t i k)

due_end : (t n i k : ℕ) → n ≤ i → due t n i k ≡ 0
due_end t n i k h = ground arith

count-execute_loop :
    (fuel t n i k : ℕ) (pi : List ℕ)
    → 0 < t
    → n ≤ i + fuel
    → count k (execute_loop fuel t n i pi) ≡ count k pi + due t n i k
unfolding execute_loop
count-execute_loop zero t n i k pi ht h = omega (arith, due_end t n i k (omega arith))
count-execute_loop (suc fuel) t n i k pi ht h = elim (Bool-cases (ltb i n)) [
  | inl more ↦ rw more (
      omega (
        arith,
        count-execute_loop fuel t n (i + t) k (i ∷ pi) ht (omega arith),
        due_step t n i k ht (ground arith),
      ))
  | inr over ↦ rw over (omega (arith, due_end t n i k (ground arith)))
]

count-execute_thread :
    (t n offset k : ℕ)
    → 0 < t
    → offset < t
    → count k (execute_thread t n offset) ≡ (if ltb k n && (k % t == offset) then 1 else 0)
unfolding execute_thread
count-execute_thread t n offset k ht h =
    count-execute_loop n t n offset k [] ht (omega arith)
    ∙ ground (arith, mod-eq_of_lt h, mod-le k t)

-- The first `m` threads add the terms whose remainder is below `m`.
count-add_partial_sums :
    (t n m k : ℕ)
    → 0 < t
    → m ≤ t
    → count k (add_partial_sums t n m) ≡ (if ltb k n && ltb (k % t) m then 1 else 0)
unfolding add_partial_sums
count-add_partial_sums t n zero k ht h = ground arith
count-add_partial_sums t n (suc m) k ht h =
    count-append k (add_partial_sums t n m) (execute_thread t n m)
    ∙ ground (
      arith,
      count-add_partial_sums t n m k ht (omega arith),
      count-execute_thread t n m k ht (omega arith),
    )

-- With one thread or more, the threads together add the two terms of each `i` below the number of
-- iterations once, and of no other `i`.
pub add_partial_sums-count :
    (threads_num iterations_num k : ℕ)
    → 0 < threads_num
    → count k (add_partial_sums threads_num iterations_num threads_num)
      ≡ (if ltb k iterations_num then 1 else 0)
add_partial_sums-count t n k h =
    count-add_partial_sums t n t k h (omega arith) ∙ ground (arith, mod-lt k h)
