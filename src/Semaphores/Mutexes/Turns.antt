-- ===== src/Semaphores/Mutexes/Turns.antt =====
-- The states of Lab10/main.c that the threads reach.
use mathlib.Core.Path.{subst}
use os_posix.Prelude.{◌≡◌, ◌≢◌, ◌⊎◌, refl, true, inl, inr, some, arith, update, ℕ_discrete}
use os_posix.Semaphores.Alternation.{parent, child}
use os_posix.Semaphores.Mutexes.{
  spinning, entering, State, start, start_owner, enter, Step, spins_out, enters_first, enters_later,
  locks, lock_fails, unlocks, unlock_fails, prints, closes, close_fails, Reachable, begins, steps,
  put,
}
use os_posix.Semaphores.Mutexes.Owners.{Owned}
use os_posix.Semaphores.Mutexes.Strings.{at, Lines, full}
use os_posix.Semaphores.Mutexes.Places.{Runs}
use os_posix.Semaphores.Mutexes.Calls.{
  child_closes, parent_has, child_no_lock_fails, parent_no_lock_fails, child_unlocks_own,
  parent_unlocks_own,
}
use os_posix.Semaphores.Mutexes.Moves.{
  child_locks, parent_locks, child_unlocks, parent_unlocks, child_prints, parent_prints,
  child_leaves, parent_leaves,
}

-- The mutexes after the child's first lock.
first-Owned : Owned (update start_owner 1 (some child)) 0 1 2 3
unfolding ℕ_discrete
first-Owned = record {
  low = omega arith;
  mid = omega arith;
  top = omega arith;
  round = omega arith;
  childs = λ y p q. let z : y ≡ 0 = omega arith in rw z refl;
  gap = λ y p q. let z : y ≡ 1 = omega arith in rw z refl;
  parents = λ y p q. let z : y ≡ 2 = omega arith in rw z refl;
  rest = λ y p q. absurd (omega arith);
}

-- Only these of a child's or the parent's steps can be taken: no lock and no unlock fails.
module _ (s : State) (v : Runs s) where
  spins_out-Runs :
      s.parent_at.pc ≡ spinning
      → Runs (record s { parent_at = record s.parent_at { pc = entering } })
  spins_out-Runs e = record {
    a = v.a;
    b = v.b;
    c = v.c;
    d = v.d;
    ready = v.ready;
    owned = v.owned;
    child_in = v.child_in;
    parent_in = at 2 v.c v.d s.parent_at v.parent_in spinning e;
    right = v.right;
    lines = v.lines;
  }

  enters-Runs : s.parent_at.pc ≡ entering → Runs (put parent (enter 1) s)
  enters-Runs e =
      let (z, none_yet, c, d) = at 2 v.c v.d s.parent_at v.parent_in entering e in
      record {
        a = v.a;
        b = v.b;
        c = v.c;
        d = v.d;
        ready = v.ready;
        owned = v.owned;
        child_in = v.child_in;
        parent_in = (omega arith, omega arith, omega arith, omega arith);
        right = v.right;
        lines = subst (λ j. Lines s.child_at.i j s.out) none_yet v.lines;
      }

  pub no_childs_enter : s.child_at.pc ≢ entering
  no_childs_enter e =
      let (z, none_yet, a, b) = at 0 v.a v.b s.child_at v.child_in entering e in
      absurd (omega arith)

  step-Runs : (s' : State) → Step s s' → Runs s'
  step-Runs s' (spins_out e r) = spins_out-Runs e
  step-Runs s' (enters_first w e r m) = absurd (cc v.ready)
  step-Runs s' (enters_later parent e r) = enters-Runs e
  step-Runs s' (enters_later child e r) = absurd (no_childs_enter e)
  step-Runs s' (locks parent e m) = parent_locks s v e m
  step-Runs s' (locks child e m) = child_locks s v e m
  step-Runs s' (lock_fails parent e m) = absurd (parent_no_lock_fails s v e m)
  step-Runs s' (lock_fails child e m) = absurd (child_no_lock_fails s v e m)
  step-Runs s' (unlocks parent e m) = parent_unlocks s v e
  step-Runs s' (unlocks child e m) = child_unlocks s v e
  step-Runs s' (unlock_fails parent e m) = absurd (m (parent_unlocks_own s v e))
  step-Runs s' (unlock_fails child e m) = absurd (m (child_unlocks_own s v e))
  step-Runs s' (prints parent e) = parent_prints s v e
  step-Runs s' (prints child e) = child_prints s v e
  step-Runs s' (closes parent e m) = parent_leaves s v e
  step-Runs s' (closes child e m) = absurd (child_closes s v e m)
  step-Runs s' (close_fails parent e m) = absurd (m (parent_has s v e))
  step-Runs s' (close_fails child e m) = child_leaves s v e

first-Runs :
    Runs
      (put child (enter 0) (record start { mute = update start.mute 1 (some child); ready = true }))
first-Runs = record {
  a = 0;
  b = 1;
  c = 2;
  d = 3;
  ready = refl;
  owned = first-Owned;
  child_in = (omega arith, refl, refl, refl);
  parent_in = (refl, refl, refl, refl);
  right = refl;
  lines = full 0 (omega arith) (omega arith) (omega arith) (omega arith) refl;
}

from_start : (s' : State) → Step start s' → Runs s'
from_start s' (spins_out e r) = absurd (cc)
from_start s' (enters_first child e r m) = first-Runs
from_start s' (enters_first parent e r m) = absurd (cc)
from_start s' (enters_later w e r) = absurd (cc)
from_start s' (locks parent e m) = absurd (cc)
from_start s' (locks child e m) = absurd (cc)
from_start s' (lock_fails parent e m) = absurd (cc)
from_start s' (lock_fails child e m) = absurd (cc)
from_start s' (unlocks parent e m) = absurd (cc)
from_start s' (unlocks child e m) = absurd (cc)
from_start s' (unlock_fails parent e m) = absurd (cc)
from_start s' (unlock_fails child e m) = absurd (cc)
from_start s' (prints parent e) = absurd (cc)
from_start s' (prints child e) = absurd (cc)
from_start s' (closes parent e m) = absurd (cc)
from_start s' (closes child e m) = absurd (cc)
from_start s' (close_fails parent e m) = absurd (cc)
from_start s' (close_fails child e m) = absurd (cc)

pub Reachable-Runs : (s : State) → Reachable s → (s ≡ start) ⊎ Runs s
Reachable-Runs s begins = inl refl
Reachable-Runs s (steps {s = r} h t) = elim (Reachable-Runs r h) [
  | inl e ↦ inr (from_start s (subst (λ x. Step x s) e t))
  | inr v ↦ inr (step-Runs r v s t)
]
