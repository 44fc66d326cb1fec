-- ===== src/Semaphores/Condition.antt =====
-- Lab12/main.c: parent and child print in turns; each signals a condition variable and waits on it,
-- with no variable that says whose turn it is. A step is what a thread does from the moment it has
-- the mutex until it waits, or unlocks it. The steps begin when `main` has created the child.
pub mod Turns
mod Tests
use os_posix.Prelude.{ℕ, zero, suc, ◌+◌, ◌≡◌, ◌≢◌, Bool, true, List, [], ◌∷◌, ltb, if◌then◌else◌}
use os_posix.Semaphores.Alternation.{Line, parent, child, rounds}

-- Has the mutex at the start, wants it, sleeps on the condition variable, or is at its end.
pub data Place : Type 0 where
  holds wants asleep ended : Place

-- The number of lines and the place of each thread; `out` holds the lines, the newest first.
pub record State : Type 0 where
  pub parent_i : ℕ
  pub parent_at : Place
  pub child_i : ℕ
  pub child_at : Place
  pub out : List Line

abbrev pub start : State
start = record { parent_i = 0; parent_at = holds; child_i = 0; child_at = wants; out = [] }

-- `pthread_cond_signal` for a thread.
abbrev pub signal : Place → Place
signal asleep = wants
signal p = p

-- `main`, from `pthread_create` or the return from the wait on.
unfoldable pub parent_section : State → State
parent_section s =
    if ltb s.parent_i rounds
    then record s {
      parent_i = s.parent_i + 1;
      parent_at = asleep;
      child_at = signal s.child_at;
      out = parent ∷ s.out;
    }
    else record s { parent_at = ended; child_at = signal s.child_at }

-- `thread`, from its lock or the return from the wait on.
unfoldable pub child_section : State → State
child_section s =
    if ltb s.child_i rounds
    then record s {
      child_i = s.child_i + 1;
      child_at = asleep;
      parent_at = signal s.parent_at;
      out = child ∷ s.out;
    }
    else record s { child_at = ended; parent_at = signal s.parent_at }

-- `spurious`: may a wait return without a signal?
pub data Step (spurious : Bool) (s : State) : State → Type 0 where
  parent_begins : s.parent_at ≡ holds → Step spurious s (parent_section s)
  parent_runs : s.parent_at ≡ wants → Step spurious s (parent_section s)
  child_runs : s.child_at ≡ wants → s.parent_at ≢ holds → Step spurious s (child_section s)
  parent_wakes :
      spurious ≡ true → s.parent_at ≡ asleep → Step spurious s (record s { parent_at = wants })
  child_wakes :
      spurious ≡ true → s.child_at ≡ asleep → Step spurious s (record s { child_at = wants })

pub data Reachable (spurious : Bool) : State → Type 0 where
  begins : Reachable spurious start
  steps : {s s' : State} → Reachable spurious s → Step spurious s s' → Reachable spurious s'
