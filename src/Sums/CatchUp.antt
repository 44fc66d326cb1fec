-- ===== src/Sums/CatchUp.antt =====
-- The loop behind the barrier of Lab8/main.c, and the same without a bound on `i`.
use os_posix.Prelude.{
  ℕ, zero, suc, ◌+◌, ◌-◌, ◌*◌, ◌^◌, ◌≤◌, ◌<◌, ◌≡◌, refl, true, false, some, ltb, if◌then◌else◌,
  arith, inl, inr, Bool-cases,
}
use os_posix.Sums.{Sum, advance, add_more, catch_up_loop, catch_up}

-- The second loop without a bound on `i`.
unfoldable pub free_loop : ℕ → ℕ → ℕ → Sum → Sum
free_loop zero t m s = s
free_loop (suc fuel) t m s =
    let rest = free_loop fuel t m (record (add_more s) { i = s.i + t }) in
    if ltb s.com_iter m then rest else s

catch_up_loop-free :
    (fuel d t m : ℕ) (s : Sum)
    → m ≡ s.com_iter + d
    → d ≤ fuel
    → s.i + d * t < 2 ^ 31
    → catch_up_loop fuel t m s ≡ some (free_loop fuel t m s)
unfolding catch_up_loop advance free_loop
catch_up_loop-free zero d t m s e h fits = refl
catch_up_loop-free (suc fuel) zero t m s e h fits =
    let over : ltb s.com_iter m ≡ false = ground arith in rw over refl
catch_up_loop-free (suc fuel) (suc d) t m s e h fits =
    let more : ltb s.com_iter m ≡ true = ground arith in
    let small : ltb (s.i + t) (2 ^ 31) ≡ true = grind arith in
    rw (more, small)
      (catch_up_loop-free fuel d t m (record (add_more s) { i = s.i + t }) (omega arith)
        (omega arith) (grind arith))

pub free_loop-com_iter :
    (fuel t m : ℕ) (s : Sum)
    → s.com_iter ≤ m
    → m ≤ s.com_iter + fuel
    → (free_loop fuel t m s).com_iter ≡ m
unfolding free_loop
free_loop-com_iter zero t m s h k = omega arith
free_loop-com_iter (suc fuel) t m s h k = elim (Bool-cases (ltb s.com_iter m)) [
  | inl more ↦ rw more (free_loop-com_iter fuel t m _ (ground arith) (omega arith))
  | inr done ↦ rw done (ground arith)
]

pub catch_up-free :
    (t m : ℕ) (s : Sum)
    → s.com_iter ≤ m
    → s.i + (m - s.com_iter) * t < 2 ^ 31
    → catch_up t m s ≡ some (free_loop m t m s)
unfolding catch_up
catch_up-free t m s h fits =
    catch_up_loop-free m (m - s.com_iter) t m s (omega arith) (omega arith) fits
