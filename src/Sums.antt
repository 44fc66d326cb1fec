-- ===== src/Sums.antt =====
-- Lab7/main.c and Lab8/main.c: threads that add the terms of a series between them. A thread's
-- partial sum is the list of the values of `i` whose two terms it added, the newest first; the
-- additions of doubles are not modelled.
pub mod Shares
pub mod CatchUp
pub mod Greatest
pub mod Interrupted
mod Tests
use os_posix.Prelude.{
  ℕ, zero, suc, ◌+◌, ◌-◌, ◌%◌, ◌^◌, Bool, true, false, Option, none, some, List, [], ◌∷◌, ◌++◌, ltb,
  ◌==◌, if◌then◌else◌,
}

-- Lab7. `for(i = param->offset; i < ITERATIONS_NUM; i += THREADS_NUM)`, with fuel.
pub execute_loop : ℕ → ℕ → ℕ → ℕ → List ℕ → List ℕ
execute_loop zero threads_num iterations_num i pi = pi
execute_loop (suc fuel) threads_num iterations_num i pi =
    let rest = execute_loop fuel threads_num iterations_num (i + threads_num) (i ∷ pi) in
    if ltb i iterations_num then rest else pi

-- `i` grows by one at least, so that as much fuel as there are iterations is enough.
unfoldable pub execute_thread : ℕ → ℕ → ℕ → List ℕ
unfolding execute_loop
execute_thread threads_num iterations_num offset =
    execute_loop iterations_num threads_num iterations_num offset []

-- `main` gives the threads the offsets 0, 1, ... and adds their partial sums; here for the first
-- `k` threads.
unfoldable pub add_partial_sums : ℕ → ℕ → ℕ → List ℕ
add_partial_sums threads_num iterations_num zero = []
add_partial_sums threads_num iterations_num (suc k) =
    add_partial_sums threads_num iterations_num k ++ execute_thread threads_num iterations_num k

-- Lab8. The local variables of a thread; `i` is an `int`, the others are of type `size_t`.
pub record Sum : Type 0 where
  pub i : ℕ
  pub iterations : ℕ
  pub com_iter : ℕ
  pub pi : List ℕ

abbrev pub fresh : ℕ → Sum
fresh offset = record { i = offset; iterations = 0; com_iter = 0; pi = [] }

-- `i += THREADS_NUM`; `none` if it overflows.
unfoldable pub advance : ℕ → Sum → Option Sum
advance threads_num s =
    if ltb (s.i + threads_num) (2 ^ 31) then some (record s { i = s.i + threads_num }) else none

-- A pass of the first loop goes on, leaves the loop for the barrier, or ends in an overflow.
pub data Pass : Type 0 where
  again : Sum → Pass
  leaves : Sum → Pass
  overflows : Pass

abbrev pub add_terms : Sum → Sum
add_terms s = record s { iterations = s.iterations + 1; com_iter = s.com_iter + 1; pi = s.i ∷ s.pi }

abbrev pub go_round : Option Sum → Pass
go_round none = overflows
go_round (some s) = again s

abbrev pub end_pass : ℕ → ℕ → Bool → Sum → Pass
end_pass iterations_num threads_num flag s =
    if s.iterations == iterations_num
    then (if flag
        then leaves (record s { iterations = 0 })
        else go_round (advance threads_num (record s { iterations = 0 })))
    else go_round (advance threads_num s)

-- `flag` is what the pass reads, if it reads it.
unfoldable pub pass : ℕ → ℕ → Bool → Sum → Pass
pass iterations_num threads_num flag s = end_pass iterations_num threads_num flag (add_terms s)

-- After some passes a thread is still in the loop, or is where one of them ended.
abbrev pub go_on : (Sum → Option Pass) → Pass → Option Pass
go_on k (again s) = k s
go_on k (leaves s) = some (leaves s)
go_on k overflows = some overflows

-- The passes for the values of `flag` that they read, `none` if the thread is still in the loop.
unfoldable pub passes : ℕ → ℕ → List Bool → Sum → Option Pass
passes iterations_num threads_num [] s = none
passes iterations_num threads_num (flag ∷ flags) s =
    go_on (λ s'. passes iterations_num threads_num flags s')
      (pass iterations_num threads_num flag s)

-- A `size_t` that becomes an `int` and is compared as a `size_t` again: 32 bits, with the sign
-- spread over the others.
unfoldable pub narrow : ℕ → ℕ
narrow n = let low = n % 2 ^ 32 in if ltb low (2 ^ 31) then low else low + (2 ^ 64 - 2 ^ 32)

-- The section under the mutex, in which a thread that leaves the loop raises `max_iter`.
unfoldable pub raise_max : ℕ → Sum → ℕ
raise_max max_iter s =
    if max_iter == 0
    then narrow s.com_iter
    else (if ltb max_iter s.com_iter then narrow s.com_iter else max_iter)

-- The threads in the order in which they take the mutex. After the last one the barrier opens.
unfoldable pub raise_all : ℕ → List Sum → ℕ
raise_all max_iter [] = max_iter
raise_all max_iter (s ∷ ss) = raise_all (raise_max max_iter s) ss

abbrev pub add_more : Sum → Sum
add_more s = record s { com_iter = s.com_iter + 1; pi = s.i ∷ s.pi }

abbrev pub then_on : (Sum → Option Sum) → Option Sum → Option Sum
then_on k none = none
then_on k (some s) = k s

-- `for(;com_iter < max_iter; i += THREADS_NUM)`, with fuel; `none` is an overflow.
unfoldable pub catch_up_loop : ℕ → ℕ → ℕ → Sum → Option Sum
catch_up_loop zero threads_num max_iter s = some s
catch_up_loop (suc fuel) threads_num max_iter s =
    let rest =
      then_on (λ s'. catch_up_loop fuel threads_num max_iter s')
        (advance threads_num (add_more s)) in
    if ltb s.com_iter max_iter then rest else some s

unfoldable pub catch_up : ℕ → ℕ → Sum → Option Sum
catch_up threads_num max_iter s = catch_up_loop max_iter threads_num max_iter s
