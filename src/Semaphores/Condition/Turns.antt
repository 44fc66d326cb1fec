-- ===== src/Semaphores/Condition/Turns.antt =====
-- The turns of Lab12/main.c, without and with spurious wakeups.
use mathlib.Core.Path.{subst}
use os_posix.Prelude.{
  ℕ, zero, suc, ◌<◌, ◌≤◌, ◌≡◌, ◌⊎◌, refl, ap, true, false, inl, inr, List, ◌∷◌, arith, dec_lt,
}
use os_posix.Semaphores.Alternation.{Line, parent, rounds}
use os_posix.Semaphores.Alternation.Turns.{full_rounds, Alternate}
use os_posix.Semaphores.Condition.{
  Place, wants, asleep, ended, State, start, signal, parent_section, child_section, Step,
  parent_begins, parent_runs, child_runs, parent_wakes, child_wakes, Reachable, begins, steps,
}

abbrev state : ℕ → Place → ℕ → Place → List Line → State
state i p j c out = record { parent_i = i; parent_at = p; child_i = j; child_at = c; out = out }

-- The states without spurious wakeups.
data IsTurn (s : State) : Type 0 where
  first_turn : s ≡ start → IsTurn s
  childs_turn :
      (n : ℕ) → n < rounds → s ≡ state (suc n) asleep n wants (parent ∷ full_rounds n) → IsTurn s
  parents_turn : (n : ℕ) → n ≤ rounds → s ≡ state n wants n asleep (full_rounds n) → IsTurn s
  last_turn : s ≡ state rounds ended rounds wants (full_rounds rounds) → IsTurn s
  over : s ≡ state rounds ended rounds ended (full_rounds rounds) → IsTurn s

-- What the thread at its turn does.
parent_more :
    (n : ℕ) (c : Place)
    → n < rounds
    → parent_section (state n wants n c (full_rounds n))
      ≡ state (suc n) asleep n (signal c) (parent ∷ full_rounds n)
unfolding parent_section
parent_more n c h = ground arith

parent_last :
    (n : ℕ)
    → n ≡ rounds
    → parent_section (state n wants n asleep (full_rounds n))
      ≡ state rounds ended rounds wants (full_rounds rounds)
unfolding parent_section
parent_last n e = rw e refl

child_more :
    (n : ℕ)
    → n < rounds
    → child_section (state (suc n) asleep n wants (parent ∷ full_rounds n))
      ≡ state (suc n) wants (suc n) asleep (full_rounds (suc n))
unfolding child_section
child_more n h = ground arith

from_childs :
    (n : ℕ) (s' : State)
    → n < rounds
    → Step false (state (suc n) asleep n wants (parent ∷ full_rounds n)) s'
    → IsTurn s'
from_childs n s' h (parent_begins p) = absurd (ground arith)
from_childs n s' h (parent_runs p) = absurd (ground arith)
from_childs n s' h (child_runs c p) = parents_turn (suc n) (omega arith) (child_more n h)
from_childs n s' h (parent_wakes b p) = absurd (ground arith)
from_childs n s' h (child_wakes b p) = absurd (ground arith)

from_parents :
    (n : ℕ) (s' : State)
    → n ≤ rounds
    → Step false (state n wants n asleep (full_rounds n)) s'
    → IsTurn s'
from_parents n s' h (parent_begins p) = absurd (ground arith)
from_parents n s' h (parent_runs p) = elim (dec_lt n rounds) [
  | yes more ↦ childs_turn n more (parent_more n asleep more)
  | no all ↦ last_turn (parent_last n (omega arith))
]
from_parents n s' h (child_runs c p) = absurd (ground arith)
from_parents n s' h (parent_wakes b p) = absurd (ground arith)
from_parents n s' h (child_wakes b p) = absurd (ground arith)

from_start : (s' : State) → Step false start s' → IsTurn s'
from_start s' (parent_begins p) = childs_turn 0 (omega arith) (unfold parent_section in refl)
from_start s' (parent_runs p) = absurd (ground arith)
from_start s' (child_runs c p) = absurd (p refl)
from_start s' (parent_wakes b p) = absurd (ground arith)
from_start s' (child_wakes b p) = absurd (ground arith)

from_last :
    (s' : State) → Step false (state rounds ended rounds wants (full_rounds rounds)) s' → IsTurn s'
from_last s' (parent_begins p) = absurd (ground arith)
from_last s' (parent_runs p) = absurd (ground arith)
from_last s' (child_runs c p) = over (unfold child_section in refl)
from_last s' (parent_wakes b p) = absurd (ground arith)
from_last s' (child_wakes b p) = absurd (ground arith)

from_over :
    (s' : State) → Step false (state rounds ended rounds ended (full_rounds rounds)) s' → IsTurn s'
from_over s' (parent_begins p) = absurd (ground arith)
from_over s' (parent_runs p) = absurd (ground arith)
from_over s' (child_runs c p) = absurd (ground arith)
from_over s' (parent_wakes b p) = absurd (ground arith)
from_over s' (child_wakes b p) = absurd (ground arith)

step-IsTurn : (s s' : State) → IsTurn s → Step false s s' → IsTurn s'
step-IsTurn s s' (first_turn e) t = from_start s' (subst (λ x. Step false x s') e t)
step-IsTurn s s' (childs_turn n h e) t = from_childs n s' h (subst (λ x. Step false x s') e t)
step-IsTurn s s' (parents_turn n h e) t = from_parents n s' h (subst (λ x. Step false x s') e t)
step-IsTurn s s' (last_turn e) t = from_last s' (subst (λ x. Step false x s') e t)
step-IsTurn s s' (over e) t = from_over s' (subst (λ x. Step false x s') e t)

Reachable-IsTurn : (s : State) → Reachable false s → IsTurn s
Reachable-IsTurn s begins = first_turn refl
Reachable-IsTurn s (steps {s = r} h t) = step-IsTurn r s (Reachable-IsTurn r h) t

-- Each thread printed ten lines and is at its end.
abbrev pub Over : State → Type 0
Over s = s ≡ state rounds ended rounds ended (full_rounds rounds)

abbrev HasTurn : State → Type 0
HasTurn s = Alternate s.out × (((s' : State) × Step false s s') ⊎ Over s)

IsTurn-HasTurn : (s : State) → IsTurn s → HasTurn s
IsTurn-HasTurn s (first_turn e) =
    ((0, inl (omega arith, ap (λ x. x.out) e)), inl (_, parent_begins (ap (λ x. x.parent_at) e)))
IsTurn-HasTurn s (childs_turn n h e) = (
  (n, inr (h, ap (λ x. x.out) e)),
  inl (_, child_runs (ap (λ x. x.child_at) e) (λ p. cc (ap (λ x. x.parent_at) e))),
)
IsTurn-HasTurn s (parents_turn n h e) =
    ((n, inl (h, ap (λ x. x.out) e)), inl (_, parent_runs (ap (λ x. x.parent_at) e)))
IsTurn-HasTurn s (last_turn e) = (
  (rounds, inl (omega arith, ap (λ x. x.out) e)),
  inl (_, child_runs (ap (λ x. x.child_at) e) (λ p. cc (ap (λ x. x.parent_at) e))),
)
IsTurn-HasTurn s (over e) = ((rounds, inl (omega arith, ap (λ x. x.out) e)), inr e)

-- Without spurious wakeups the lines of Lab12 alternate in every reachable state, the first is the
-- parent's and there are at most ten of each; and some thread can take a step, or both are at
-- their ends and have printed ten lines each.
pub condition_lines-Alternate :
    (s : State) → Reachable false s → Alternate s.out × (((s' : State) × Step false s s') ⊎ Over s)
condition_lines-Alternate s h = IsTurn-HasTurn s (Reachable-IsTurn s h)

parent_first : 0 < rounds → parent_section start ≡ state 1 asleep 0 wants (parent ∷ full_rounds 0)
unfolding parent_section
parent_first h = refl

childs_turn-Reachable :
    (n : ℕ) → n < rounds → Reachable true (state (suc n) asleep n wants (parent ∷ full_rounds n))
childs_turn-Reachable zero h =
    subst (Reachable true) (parent_first h) (steps begins (parent_begins refl))
childs_turn-Reachable (suc n) h = subst (Reachable true) (parent_more (suc n) asleep h) (
    steps
      (subst (Reachable true) (child_more n (omega arith))
        (steps (childs_turn-Reachable n (omega arith)) (child_runs refl (λ p. cc))))
      (parent_runs refl))

-- With one spurious wakeup of the parent, after any number of full rounds but the last, it prints
-- two lines in a row: a state is reachable in which the newest two lines are both the parent's.
pub spurious_repeats :
    (n : ℕ)
    → suc n < rounds
    → (s : State) × Reachable true s × (s.out ≡ parent ∷ parent ∷ full_rounds n)
spurious_repeats n h = (
  _,
  steps (steps (childs_turn-Reachable n (omega arith)) (parent_wakes refl refl)) (parent_runs refl),
  unfold parent_section in ground arith,
)
