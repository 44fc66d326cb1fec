-- ===== src/Sums/Greatest.antt =====
-- The greatest count of the threads of Lab8/main.c.
use os_posix.Prelude.{
  ℕ, zero, suc, ◌+◌, ◌-◌, ◌*◌, ◌%◌, ◌^◌, ◌≤◌, ◌<◌, ◌≡◌, ◌∙◌, ◌⊎◌, refl, ap, sym, true, some, List,
  [], ◌∷◌, ltb, ◌==◌, arith, get_elem?, inl, inr, Bool-cases,
}
use os_posix.Sums.{Sum, narrow, raise_max, raise_all, catch_up}
use mathlib.Core.Option.{some_inj}
use os_posix.Sums.CatchUp.{free_loop, free_loop-com_iter, catch_up-free}

-- The counts are those of an `int`.
abbrev pub AllFit : List Sum → Type 0
AllFit [] = Unit
AllFit (s ∷ ss) = (s.com_iter < 2 ^ 31) × AllFit ss

narrow-small : (n : ℕ) → n < 2 ^ 31 → narrow n ≡ n
unfolding narrow
narrow-small n h =
    let e : n % 2 ^ 32 ≡ n = omega arith in
    let small : ltb n (2 ^ 31) ≡ true = ground arith in simp (e, small)

raise_max_lem :
    (m : ℕ) (s : Sum)
    → s.com_iter < 2 ^ 31
    → (m ≤ raise_max m s)
      × (s.com_iter ≤ raise_max m s)
      × ((raise_max m s ≡ m) ⊎ (raise_max m s ≡ s.com_iter))
unfolding raise_max
raise_max_lem m s h =
    let e : narrow s.com_iter ≡ s.com_iter = narrow-small s.com_iter h in
    elim (Bool-cases (m == 0)) [
      | inl z ↦ rw (z, e) (ground arith, omega arith, inr refl)
      | inr nz ↦ elim (Bool-cases (ltb m s.com_iter)) [
        | inl more ↦ rw (nz, more, e) (ground arith, omega arith, inr refl)
        | inr less ↦ rw (nz, less) (omega arith, ground arith, inl refl)
      ]
    ]

-- Some thread of the list has the count `m`.
abbrev pub HasCount : ℕ → List Sum → Type 0
HasCount m ss = (k : ℕ) × (r : Sum) × (get_elem? ss k ≡ some r) × (r.com_iter ≡ m)

raise_all_lem :
    (m : ℕ) (ss : List Sum)
    → AllFit ss
    → (m ≤ raise_all m ss) × ((raise_all m ss ≡ m) ⊎ HasCount (raise_all m ss) ss)
unfolding raise_all
raise_all_lem m [] fit = (omega arith, inl refl)
raise_all_lem m (s ∷ ss) fit =
    let (low, own, which) = raise_max_lem m s fit.0 in
    let (rest, found) = raise_all_lem (raise_max m s) ss fit.1 in
    (
      omega arith,
      elim found [
        | inr (k, r, at, e) ↦ inr (suc k, r, at, e)
        | inl e ↦ elim which [
          | inl same ↦ inl (e ∙ same)
          | inr mine ↦ inr (zero, s, refl, sym (e ∙ mine))
        ]
      ],
    )

le-raise_all :
    (m : ℕ) (ss : List Sum) (j : ℕ) {s : Sum}
    → AllFit ss
    → get_elem? ss j ≡ some s
    → s.com_iter ≤ raise_all m ss
unfolding raise_all
le-raise_all m [] j fit e = cc
le-raise_all m (r ∷ ss) zero {s} fit e =
    let (low, own, which) = raise_max_lem m r fit.0 in
    let (rest, found) = raise_all_lem (raise_max m r) ss fit.1 in
    let same : r.com_iter ≡ s.com_iter = ap (λ x. x.com_iter) (some_inj.0 e) in omega arith
le-raise_all m (r ∷ ss) (suc j) fit e = le-raise_all (raise_max m r) ss j fit.1 e

-- When the counts fit in an `int`: whatever the order in which the threads take the mutex, each
-- that does not overflow `i` on the way ends with the same count, which some thread had when it
-- left the first loop, and which is no less than that of any.
pub catch_up-com_iter :
    (threads_num : ℕ) (ss : List Sum) (j : ℕ) {s : Sum}
    → AllFit ss
    → get_elem? ss j ≡ some s
    → s.i + (raise_all 0 ss - s.com_iter) * threads_num < 2 ^ 31
    → (s' : Sum) × (catch_up threads_num (raise_all 0 ss) s ≡ some s')
      × (s'.com_iter ≡ raise_all 0 ss)
      × (s.com_iter ≤ raise_all 0 ss)
      × HasCount (raise_all 0 ss) ss
catch_up-com_iter t ss j {s} fit e fits =
    let m : ℕ = raise_all 0 ss in
    let most : s.com_iter ≤ m = le-raise_all 0 ss j fit e in
    let (low, found) = raise_all_lem 0 ss fit in
    (
      free_loop m t m s,
      catch_up-free t m s most fits,
      free_loop-com_iter m t m s most (omega arith),
      most,
      elim found [ inr has ↦ has | inl none_more ↦ (j, s, e, omega arith) ],
    )
