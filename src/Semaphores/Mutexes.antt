-- ===== src/Semaphores/Mutexes.antt =====
-- Lab10/main.c: parent and child run `print_message`, and hand each other three mutexes in a circle,
-- which check for errors (PTHREAD_MUTEX_ERRORCHECK). The steps begin when `main` has locked the
-- mutex 2 and created the child; the parent is the thread of `main`.
pub mod Owners
pub mod Turns
pub mod Ends
pub mod Strings
pub mod Places
pub mod Moves
pub mod Calls
mod Tests
use os_posix.Prelude.{
  ℕ, zero, suc, ◌+◌, ◌%◌, ◌≡◌, ◌≢◌, Bool, true, false, Option, none, some, List, [], ◌∷◌, ltb, ◌==◌,
  if◌then◌else◌, update,
}
use os_posix.Semaphores.Alternation.{Line, parent, child}

-- What a thread does next.
pub data Pc : Type 0 where
  spinning : Pc  -- the loop of `main` on `ready`
  entering : Pc  -- the test of `ready` in `print_message`
  locking : Pc  -- the lock of the mutex k
  unlocking : Pc  -- the unlock of the mutex k
  printing : Pc  -- the string, if k is 2
  closing : Pc  -- the unlock of the mutex 2 after the loop
  left : Pc

pub record Caller : Type 0 where
  pub pc : Pc
  pub k : ℕ
  pub i : ℕ

-- `mute` with the owner of each, the strings, the newest first, and the number of lines "Err".
pub record State : Type 0 where
  pub mute : ℕ → Option Line
  pub ready : Bool
  pub parent_at : Caller
  pub child_at : Caller
  pub out : List Line
  pub errors : ℕ

abbrev pub start_owner : ℕ → Option Line
start_owner = update (λ _. none) 2 (some parent)

abbrev pub start : State
start = record {
  mute = start_owner;
  ready = false;
  parent_at = record { pc = spinning; k = 1; i = 0 };
  child_at = record { pc = entering; k = 1; i = 0 };
  out = [];
  errors = 0;
}

abbrev pub caller : Line → State → Caller
caller parent s = s.parent_at
caller child s = s.child_at

abbrev pub put : Line → Caller → State → State
put parent c s = record s { parent_at = c }
put child c s = record s { child_at = c }

abbrev pub iterations : ℕ
iterations = 30

abbrev pub next : ℕ → ℕ
next k = (k + 1) % 3

-- The first test of the loop, and the one after `i++`.
abbrev pub enter : ℕ → Caller
enter k = record { pc = locking; k = k; i = 0 }

abbrev pub after_lock : Caller → Caller
after_lock c = record c { pc = unlocking; k = next c.k }

abbrev pub after_unlock : Caller → Caller
after_unlock c = record c { pc = printing }

unfoldable pub after_print : Caller → Caller
after_print c = record {
  pc = if ltb (c.i + 1) iterations then locking else closing;
  k = next c.k;
  i = c.i + 1;
}

unfoldable pub print_string : Line → ℕ → List Line → List Line
print_string w k out = if k == 2 then w ∷ out else out

pub data Step (s : State) : State → Type 0 where
  spins_out :
      s.parent_at.pc ≡ spinning
      → s.ready ≡ true
      → Step s (record s { parent_at = record s.parent_at { pc = entering } })
  enters_first :
      (w : Line)
      → (caller w s).pc ≡ entering
      → s.ready ≡ false
      → s.mute 1 ≡ none
      → Step s (put w (enter 0) (record s { mute = update s.mute 1 (some w); ready = true }))
  enters_later :
      (w : Line) → (caller w s).pc ≡ entering → s.ready ≡ true → Step s (put w (enter 1) s)
  locks :
      (w : Line)
      → (caller w s).pc ≡ locking
      → s.mute (caller w s).k ≡ none
      → Step s (
          put w
            (after_lock (caller w s))
            (record s { mute = update s.mute (caller w s).k (some w) }))
  lock_fails :
      (w : Line)
      → (caller w s).pc ≡ locking
      → s.mute (caller w s).k ≡ some w
      → Step s (put w (after_lock (caller w s)) (record s { errors = s.errors + 1 }))
  unlocks :
      (w : Line)
      → (caller w s).pc ≡ unlocking
      → s.mute (caller w s).k ≡ some w
      → Step s (
          put w (after_unlock (caller w s)) (record s { mute = update s.mute (caller w s).k none }))
  unlock_fails :
      (w : Line)
      → (caller w s).pc ≡ unlocking
      → s.mute (caller w s).k ≢ some w
      → Step s (put w (after_unlock (caller w s)) (record s { errors = s.errors + 1 }))
  prints :
      (w : Line)
      → (caller w s).pc ≡ printing
      → Step s (
          put w (after_print (caller w s)) (record s { out = print_string w (caller w s).k s.out }))
  closes :
      (w : Line)
      → (caller w s).pc ≡ closing
      → s.mute 2 ≡ some w
      → Step s
          (put w (record (caller w s) { pc = left }) (record s { mute = update s.mute 2 none }))
  close_fails :
      (w : Line)
      → (caller w s).pc ≡ closing
      → s.mute 2 ≢ some w
      → Step s (put w (record (caller w s) { pc = left }) s)

pub data Reachable : State → Type 0 where
  begins : Reachable start
  steps : {s s' : State} → Reachable s → Step s s' → Reachable s'
