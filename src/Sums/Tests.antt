-- ===== src/Sums/Tests.antt =====
-- Lab7 and Lab8 with few iterations.
use os_posix.Prelude.{◌+◌, ◌-◌, ◌*◌, ◌≤◌, ◌≡◌, refl, true, false, some, [], ◌∷◌, arith}
use os_posix.Sums.{
  leaves, advance, narrow, raise_max, catch_up_loop, Sum, fresh, pass, passes, raise_all, catch_up,
  execute_thread, add_partial_sums,
}
use os_posix.Sums.Shares.{count, add_partial_sums-count}
use os_posix.Sums.Greatest.{HasCount, catch_up-com_iter}
use os_posix.Sums.Interrupted.{catch_up_repeats}

second_of_three : execute_thread 3 10 1 ≡ 7 ∷ 4 ∷ 1 ∷ []
unfolding execute_thread
second_of_three = refl

add_partial_sums-count_example : count 9 (add_partial_sums 3 10 3) ≡ 1
add_partial_sums-count_example = add_partial_sums-count 3 10 9 (omega arith)

-- A thread that leaves after one batch of two terms, and one that leaves after two.
abbrev slow : Sum
slow = record { i = 3; iterations = 0; com_iter = 2; pi = 3 ∷ 0 ∷ [] }

abbrev quick : Sum
quick = record { i = 10; iterations = 0; com_iter = 4; pi = 10 ∷ 7 ∷ 4 ∷ 1 ∷ [] }

slow_run : passes 2 3 (false ∷ true ∷ []) (fresh 0) ≡ some (leaves slow)
unfolding passes pass advance
slow_run = refl

quick_run : passes 2 3 (false ∷ false ∷ false ∷ true ∷ []) (fresh 1) ≡ some (leaves quick)
unfolding passes pass advance
quick_run = refl

-- The share of the slow thread is 0, 3, 6, 9.
caught_up : catch_up 3 4 slow ≡ some (record slow { i = 9; com_iter = 4; pi = 6 ∷ 3 ∷ 3 ∷ 0 ∷ [] })
unfolding catch_up catch_up_loop advance
caught_up = refl

most_of_both : raise_all 0 (slow ∷ quick ∷ []) ≡ 4
unfolding raise_all raise_max narrow
most_of_both = refl

catch_up-com_iter_example :
    (s : Sum) × (catch_up 3 (raise_all 0 (slow ∷ quick ∷ [])) slow ≡ some s)
    × (s.com_iter ≡ raise_all 0 (slow ∷ quick ∷ []))
    × (2 ≤ raise_all 0 (slow ∷ quick ∷ []))
    × HasCount (raise_all 0 (slow ∷ quick ∷ [])) (slow ∷ quick ∷ [])
unfolding raise_all raise_max narrow
catch_up-com_iter_example =
    catch_up-com_iter 3 (slow ∷ quick ∷ []) 0 (omega arith, (omega arith, tt)) refl (omega arith)

catch_up_repeats_example :
    (s : Sum) × (catch_up 3 4 slow ≡ some s)
    × (count 3 s.pi ≡ 2)
    × (count (0 + (4 - 1) * 3) s.pi ≡ 0)
catch_up_repeats_example =
    catch_up_repeats 2 3 0 4 (false ∷ true ∷ []) (omega arith) slow_run (omega arith) (omega arith)
