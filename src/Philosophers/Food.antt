-- ===== src/Philosophers/Food.antt =====
-- `food_on_table` of Lab9/main.c (the same text stands in Lab9/din_phil.c, Lab9/smartPhilo.c and
-- Lab21/main.c). It runs under `foodLock`, so the calls of all threads are one sequence.
pub mod Tests
use os_posix.Prelude.{
  ℕ, zero, suc, ◌+◌, ◌-◌, ◌≤◌, ◌<◌, ◌≡◌, refl, Option, some, List, [], ◌∷◌, arith, ltb, ◌==◌,
  if◌then◌else◌, get_elem?,
}
use Prim.Native.Nat.{min}

abbrev pub food : ℕ
food = 50

-- The new value of the static `food`, and the result.
unfoldable pub food_on_table : ℕ → ℕ × ℕ
food_on_table f = let f' = if ltb 0 f then f - 1 else f in (f', f')

-- The results of `n` calls in a row.
unfoldable pub serve : ℕ → ℕ → List ℕ
unfolding food_on_table
serve zero f = []
serve (suc n) f = let (f', mine) = food_on_table f in mine ∷ serve n f'

-- How many of the results are dishes: a philosopher leaves the table at 0.
abbrev pub dishes : List ℕ → ℕ
dishes [] = 0
dishes (f ∷ fs) = (if f == 0 then 0 else 1) + dishes fs

-- Call number `k` (from 0) returns what is left after `k + 1` dishes, and 0 from then on.
pub serve-get_elem? : (n f k : ℕ) → k < n → get_elem? (serve n f) k ≡ some (f - suc k)
unfolding serve
serve-get_elem? zero f k h = elim h [ ]
serve-get_elem? (suc n) f zero h = ground arith
serve-get_elem? (suc n) f (suc k) h =
    ground (arith, serve-get_elem? n (f - 1) k, serve-get_elem? n f k)

-- Of a table of `f` dishes, `n` calls hand out `n` dishes or `f - 1`, whichever is less: the last
-- dish is taken off the table, and its taker is told that there is none.
pub dishes-serve : (n f : ℕ) → dishes (serve n f) ≡ min n (f - 1)
unfolding serve
dishes-serve zero f = omega arith
dishes-serve (suc n) f = ground (arith, dishes-serve n (f - 1), dishes-serve n f)
