-- ===== src/Semaphores/Alternation/Turns.antt =====
-- The rounds of Lab13/main.c.
use mathlib.Core.Path.{subst}
use os_posix.Prelude.{
  ℕ, zero, suc, ◌<◌, ◌≤◌, ◌≡◌, ◌⊎◌, refl, ap, ◌∙◌, inl, inr, List, [], ◌∷◌, arith, dec_lt,
}
use os_posix.Semaphores.Alternation.{
  Line, parent, child, rounds, Place, waits, prints, posts, State, Step, parent_wait, parent_print,
  parent_post, child_wait, child_print, child_post, Reachable, begins, steps,
}

-- The lines of `n` full rounds, the newest first.
abbrev pub full_rounds : ℕ → List Line
full_rounds zero = []
full_rounds (suc n) = child ∷ parent ∷ full_rounds n

abbrev state : ℕ → ℕ → ℕ → Place → ℕ → Place → List Line → State
state s1 s2 i p j c out = record {
  sem1 = s1;
  sem2 = s2;
  parent_i = i;
  parent_at = p;
  child_i = j;
  child_at = c;
  out = out;
}

-- The states of round `n`.
pub data IsRound (n : ℕ) (s : State) : Type 0 where
  parents_turn : s ≡ state 0 1 n waits n waits (full_rounds n) → n ≤ rounds → IsRound n s
  parent_prints : s ≡ state 0 0 n prints n waits (full_rounds n) → n < rounds → IsRound n s
  parent_posts : s ≡ state 0 0 n posts n waits (parent ∷ full_rounds n) → n < rounds → IsRound n s
  childs_turn :
      s ≡ state 1 0 (suc n) waits n waits (parent ∷ full_rounds n) → n < rounds → IsRound n s
  child_prints :
      s ≡ state 0 0 (suc n) waits n prints (parent ∷ full_rounds n) → n < rounds → IsRound n s
  child_posts : s ≡ state 0 0 (suc n) waits n posts (full_rounds (suc n)) → n < rounds → IsRound n s

from_parents_turn :
    (n : ℕ) (s' : State)
    → n ≤ rounds
    → Step (state 0 1 n waits n waits (full_rounds n)) s'
    → IsRound n s' ⊎ IsRound (suc n) s'
from_parents_turn n s' l (parent_wait k a b c) =
    inl (parent_prints (ap (λ x. state 0 x n prints n waits (full_rounds n)) (omega arith)) b)
from_parents_turn n s' l (parent_print a) = absurd (ground arith)
from_parents_turn n s' l (parent_post a) = absurd (ground arith)
from_parents_turn n s' l (child_wait k a b c) = absurd (ground arith)
from_parents_turn n s' l (child_print a) = absurd (ground arith)
from_parents_turn n s' l (child_post a) = absurd (ground arith)

from_parent_prints :
    (n : ℕ) (s' : State)
    → n < rounds
    → Step (state 0 0 n prints n waits (full_rounds n)) s'
    → IsRound n s' ⊎ IsRound (suc n) s'
from_parent_prints n s' l (parent_wait k a b c) = absurd (ground arith)
from_parent_prints n s' l (parent_print a) = inl (parent_posts refl l)
from_parent_prints n s' l (parent_post a) = absurd (ground arith)
from_parent_prints n s' l (child_wait k a b c) = absurd (ground arith)
from_parent_prints n s' l (child_print a) = absurd (ground arith)
from_parent_prints n s' l (child_post a) = absurd (ground arith)

from_parent_posts :
    (n : ℕ) (s' : State)
    → n < rounds
    → Step (state 0 0 n posts n waits (parent ∷ full_rounds n)) s'
    → IsRound n s' ⊎ IsRound (suc n) s'
from_parent_posts n s' l (parent_wait k a b c) = absurd (ground arith)
from_parent_posts n s' l (parent_print a) = absurd (ground arith)
from_parent_posts n s' l (parent_post a) =
    inl (childs_turn (ap (λ i. state 1 0 i waits n waits (parent ∷ full_rounds n)) (omega arith)) l)
from_parent_posts n s' l (child_wait k a b c) = absurd (ground arith)
from_parent_posts n s' l (child_print a) = absurd (ground arith)
from_parent_posts n s' l (child_post a) = absurd (ground arith)

from_childs_turn :
    (n : ℕ) (s' : State)
    → n < rounds
    → Step (state 1 0 (suc n) waits n waits (parent ∷ full_rounds n)) s'
    → IsRound n s' ⊎ IsRound (suc n) s'
from_childs_turn n s' l (parent_wait k a b c) = absurd (ground arith)
from_childs_turn n s' l (parent_print a) = absurd (ground arith)
from_childs_turn n s' l (parent_post a) = absurd (ground arith)
from_childs_turn n s' l (child_wait k a b c) = inl (
    child_prints (ap (λ x. state x 0 (suc n) waits n prints (parent ∷ full_rounds n)) (omega arith))
      l)
from_childs_turn n s' l (child_print a) = absurd (ground arith)
from_childs_turn n s' l (child_post a) = absurd (ground arith)

from_child_prints :
    (n : ℕ) (s' : State)
    → n < rounds
    → Step (state 0 0 (suc n) waits n prints (parent ∷ full_rounds n)) s'
    → IsRound n s' ⊎ IsRound (suc n) s'
from_child_prints n s' l (parent_wait k a b c) = absurd (ground arith)
from_child_prints n s' l (parent_print a) = absurd (ground arith)
from_child_prints n s' l (parent_post a) = absurd (ground arith)
from_child_prints n s' l (child_wait k a b c) = absurd (ground arith)
from_child_prints n s' l (child_print a) = inl (child_posts refl l)
from_child_prints n s' l (child_post a) = absurd (ground arith)

from_child_posts :
    (n : ℕ) (s' : State)
    → n < rounds
    → Step (state 0 0 (suc n) waits n posts (full_rounds (suc n))) s'
    → IsRound n s' ⊎ IsRound (suc n) s'
from_child_posts n s' l (parent_wait k a b c) = absurd (ground arith)
from_child_posts n s' l (parent_print a) = absurd (ground arith)
from_child_posts n s' l (parent_post a) = absurd (ground arith)
from_child_posts n s' l (child_wait k a b c) = absurd (ground arith)
from_child_posts n s' l (child_print a) = absurd (ground arith)
from_child_posts n s' l (child_post a) = inr (
    parents_turn (ap (λ j. state 0 1 (suc n) waits j waits (full_rounds (suc n))) (omega arith))
      (omega arith))

step-IsRound : (n : ℕ) (s s' : State) → IsRound n s → Step s s' → IsRound n s' ⊎ IsRound (suc n) s'
step-IsRound n s s' (parents_turn e l) t = from_parents_turn n s' l (subst (λ x. Step x s') e t)
step-IsRound n s s' (parent_prints e l) t = from_parent_prints n s' l (subst (λ x. Step x s') e t)
step-IsRound n s s' (parent_posts e l) t = from_parent_posts n s' l (subst (λ x. Step x s') e t)
step-IsRound n s s' (childs_turn e l) t = from_childs_turn n s' l (subst (λ x. Step x s') e t)
step-IsRound n s s' (child_prints e l) t = from_child_prints n s' l (subst (λ x. Step x s') e t)
step-IsRound n s s' (child_posts e l) t = from_child_posts n s' l (subst (λ x. Step x s') e t)

pub Reachable-IsRound : (s : State) → Reachable s → (n : ℕ) × IsRound n s
Reachable-IsRound s begins = (0, parents_turn refl (omega arith))
Reachable-IsRound s (steps {s = r} h t) =
    let (n, v) = Reachable-IsRound r h in
    elim (step-IsRound n r s v t) [ inl w ↦ (n, w) | inr w ↦ (suc n, w) ]

-- Lines that alternate, the oldest by the parent.
abbrev pub Alternate : List Line → Type 0
Alternate out =
    (n : ℕ) × (((n ≤ rounds) × (out ≡ full_rounds n))
      ⊎ ((n < rounds) × (out ≡ parent ∷ full_rounds n)))

IsRound-Alternate : (n : ℕ) (s : State) → IsRound n s → Alternate s.out
IsRound-Alternate n s (parents_turn e l) = (n, inl (l, ap (λ x. x.out) e))
IsRound-Alternate n s (parent_prints e l) = (n, inl (omega arith, ap (λ x. x.out) e))
IsRound-Alternate n s (parent_posts e l) = (n, inr (l, ap (λ x. x.out) e))
IsRound-Alternate n s (childs_turn e l) = (n, inr (l, ap (λ x. x.out) e))
IsRound-Alternate n s (child_prints e l) = (n, inr (l, ap (λ x. x.out) e))
IsRound-Alternate n s (child_posts e l) = (suc n, inl (omega arith, ap (λ x. x.out) e))

IsRound-moves :
    (n : ℕ) (s : State) → IsRound n s → ((s' : State) × Step s s') ⊎ (s.out ≡ full_rounds rounds)
IsRound-moves n s (parents_turn e l) = elim (dec_lt n rounds) [
  | yes more ↦ inl (
    _,
    parent_wait 0 (ap (λ x. x.parent_at) e) (rw (ap (λ x. x.parent_i) e) more) (ap (λ x. x.sem2) e),
  )
  | no all ↦ let last : n ≡ rounds = omega arith in inr (ap (λ x. x.out) e ∙ ap full_rounds last)
]
IsRound-moves n s (parent_prints e l) = inl (_, parent_print (ap (λ x. x.parent_at) e))
IsRound-moves n s (parent_posts e l) = inl (_, parent_post (ap (λ x. x.parent_at) e))
IsRound-moves n s (childs_turn e l) =
    inl
      (_, child_wait 0 (ap (λ x. x.child_at) e) (rw (ap (λ x. x.child_i) e) l) (ap (λ x. x.sem1) e))
IsRound-moves n s (child_prints e l) = inl (_, child_print (ap (λ x. x.child_at) e))
IsRound-moves n s (child_posts e l) = inl (_, child_post (ap (λ x. x.child_at) e))

-- In every state that the threads of Lab13 reach the lines alternate, the first is the parent's
-- and there are at most ten of each; and some thread can take a step, or each has printed ten.
pub lines-Alternate :
    (s : State)
    → Reachable s
    → Alternate s.out × (((s' : State) × Step s s') ⊎ (s.out ≡ full_rounds rounds))
lines-Alternate s h =
    let (n, v) = Reachable-IsRound s h in (IsRound-Alternate n s v, IsRound-moves n s v)
