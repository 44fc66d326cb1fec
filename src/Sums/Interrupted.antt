-- ===== src/Sums/Interrupted.antt =====
-- The threads of Lab8/main.c after the interrupt.
use os_posix.Prelude.{
  ℕ, zero, suc, ◌+◌, ◌-◌, ◌*◌, ◌^◌, ◌≤◌, ◌<◌, ◌≡◌, ◌≢◌, ◌∙◌, ℕ_discrete, refl, ap, Bool, some, List,
  [], ◌∷◌, ltb, ◌==◌, if◌then◌else◌, arith, leb, ◌&&◌, inl, inr, Bool-cases,
}
use os_posix.Sums.{
  Sum, fresh, Pass, again, leaves, overflows, add_terms, advance, go_round, pass, passes, go_on,
  catch_up,
}
use mathlib.Core.Path.{subst}
use mathlib.Core.Option.{some_inj}
use native.Mathlib.Nat.{eq_of_mul-eq-mul_right}
use native.Mathlib.Numerals.{add-one}
use os_posix.Sums.Shares.{count}
use os_posix.Sums.CatchUp.{free_loop, catch_up-free}

-- `c` terms from `offset` on in steps of `t`, the last one first.
abbrev multiples : ℕ → ℕ → ℕ → List ℕ
multiples offset t zero = []
multiples offset t (suc c) = (offset + c * t) ∷ multiples offset t c

-- A thread at the head of the first loop: it added its first `com_iter` terms.
record IsRunning (offset t : ℕ) (s : Sum) : Type 0 where
  added : s.pi ≡ multiples offset t s.com_iter
  next : s.i ≡ offset + s.com_iter * t

-- A thread that left it: `i` is still that of its last term.
record HasLeft (offset t : ℕ) (s : Sum) : Type 0 where
  before : ℕ
  counted : s.com_iter ≡ suc before
  added : s.pi ≡ multiples offset t s.com_iter
  last : s.i ≡ offset + before * t

abbrev AfterPass : ℕ → ℕ → Pass → Type 0
AfterPass offset t (again s) = IsRunning offset t s
AfterPass offset t (leaves s) = HasLeft offset t s
AfterPass offset t overflows = Unit

go_round-AfterPass :
    (offset t : ℕ) (s : Sum)
    → IsRunning offset t (record s { i = s.i + t })
    → AfterPass offset t (go_round (advance t s))
unfolding advance
go_round-AfterPass offset t s v = elim (Bool-cases (ltb (s.i + t) (2 ^ 31))) [
  | inl fits ↦ rw fits v
  | inr over ↦ rw over tt
]

multiples_suc :
    (offset t c : ℕ) → multiples offset t (c + 1) ≡ (offset + c * t) ∷ multiples offset t c
multiples_suc offset t c = rw add-one refl

pass-AfterPass :
    (n t offset : ℕ) (flag : Bool) (s : Sum)
    → IsRunning offset t s
    → AfterPass offset t (pass n t flag s)
unfolding pass
pass-AfterPass n t offset flag s v = elim (Bool-cases (s.iterations + 1 == n)) [
  | inr e ↦ rw e (go_round-AfterPass offset t (add_terms s) (record { added = added; next = next }))
  | inl e ↦ elim (Bool-cases flag) [
    | inl f ↦
        rw (e, f)
          (record { before = s.com_iter; counted = omega arith; added = added; last = v.next })
    | inr f ↦
        rw (e, f)
          (go_round-AfterPass offset t (record (add_terms s) { iterations = 0 })
            (record { added = added; next = next }))
  ]
]
  where
    added : s.i ∷ s.pi ≡ multiples offset t (s.com_iter + 1)
    added = cc (multiples_suc offset t s.com_iter, v.added, v.next)

    next : s.i + t ≡ offset + (s.com_iter + 1) * t
    next = grind (arith, v.next)

passes-HasLeft :
    (n t offset : ℕ) (flags : List Bool) (s : Sum) {s' : Sum}
    → IsRunning offset t s
    → passes n t flags s ≡ some (leaves s')
    → HasLeft offset t s'
unfolding passes
passes-HasLeft n t offset [] s v e = cc
passes-HasLeft n t offset (flag ∷ flags) s {s'} v e =
    go_on_left (λ u w. passes-HasLeft n t offset flags u w) (pass n t flag s)
      (pass-AfterPass n t offset flag s v) e
  where
    go_on_left :
        ((u : Sum)
          → IsRunning offset t u
          → passes n t flags u ≡ some (leaves s')
          → HasLeft offset t s')
        → (o : Pass) → AfterPass offset t o
        → go_on (λ u. passes n t flags u) o ≡ some (leaves s')
        → HasLeft offset t s'
    go_on_left rec (again u) w run = rec u w run
    go_on_left rec (leaves u) w run = subst (AfterPass offset t) (some_inj.0 run) w
    go_on_left rec overflows w run = absurd (cc (some_inj.0 run))

same_multiple : (o t b j : ℕ) → 0 < t → (o + b * t == o + j * t) ≡ (b == j)
same_multiple o t b j h = elim (ℕ_discrete b j) [
  | yes e ↦ rw e (ground arith)
  | no ne ↦ let apart : b * t ≢ j * t = λ e. ne (eq_of_mul-eq-mul_right t h b j e) in ground arith
]

count-multiples :
    (o t c j : ℕ) → 0 < t → count (o + j * t) (multiples o t c) ≡ (if ltb j c then 1 else 0)
count-multiples o t zero j h = ground arith
count-multiples o t (suc c) j h = ground (arith, same_multiple o t c j, count-multiples o t c j)

-- The terms that the second loop adds, from the `b`-th on.
count-free_loop :
    (fuel t m o b j : ℕ) (s : Sum)
    → 0 < t
    → s.i ≡ o + b * t
    → s.com_iter ≤ m
    → m ≤ s.com_iter + fuel
    → count (o + j * t) (free_loop fuel t m s).pi
      ≡ count (o + j * t) s.pi + (if leb b j && ltb j (b + (m - s.com_iter)) then 1 else 0)
unfolding free_loop
count-free_loop zero t m o b j s ht i h k = ground arith
count-free_loop (suc fuel) t m o b j s ht i h k = elim (Bool-cases (ltb s.com_iter m)) [
  | inl more ↦ rw more (
      count-free_loop fuel t m o (b + 1) j _ ht (grind (arith, i)) (ground arith) (omega arith)
      ∙ ground (arith, i, same_multiple o t b j))
  | inr done ↦ rw done (ground arith)
]

-- How often a thread adds the terms of each value of `i` in its share.
count-free :
    (t m o j : ℕ) (s : Sum) (v : HasLeft o t s)
    → 0 < t
    → s.com_iter ≤ m
    → count (o + j * t) (free_loop m t m s).pi
      ≡ (if ltb j (suc v.before) then 1 else 0)
        + (if leb v.before j && ltb j (v.before + (m - suc v.before)) then 1 else 0)
count-free t m o j s v ht h = ground (
  arith,
  count-free_loop m t m o v.before j s ht v.last,
  count-multiples o t s.com_iter j ht,
  ap (count (o + j * t)) v.added,
  v.counted,
)

-- A thread that is behind when it leaves the first loop, and does not overflow `i` on the way,
-- adds the terms of its last `i` again, and never those of the last of the `max_iter` values of `i`
-- that are its share.
pub catch_up_repeats :
    (iterations_num threads_num offset max_iter : ℕ) (flags : List Bool) {s : Sum}
    → 0 < threads_num
    → passes iterations_num threads_num flags (fresh offset) ≡ some (leaves s)
    → s.com_iter < max_iter
    → s.i + (max_iter - s.com_iter) * threads_num < 2 ^ 31
    → (s' : Sum) × (catch_up threads_num max_iter s ≡ some s')
      × (count s.i s'.pi ≡ 2)
      × (count (offset + (max_iter - 1) * threads_num) s'.pi ≡ 0)
catch_up_repeats n t o m flags {s} h e behind fits =
    let v = passes-HasLeft n t o flags (fresh o) (record { added = refl; next = omega arith }) e in
    (
      free_loop m t m s,
      catch_up-free t m s (omega arith) fits,
      ap (λ k. count k (free_loop m t m s).pi) v.last
          ∙ count-free t m o v.before s v h (omega arith)
          ∙ ground (arith, v.counted),
      count-free t m o (m - 1) s v h (omega arith) ∙ ground (arith, v.counted),
    )
