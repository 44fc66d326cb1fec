-- ===== src/Philosophers/Waiter.antt =====
-- Lab9/main.c: the forks are mutexes, and a philosopher takes its two forks while it holds the
-- mutex `lForks`.
pub mod Invariant
pub mod Safety
pub mod Tests
use os_posix.Prelude.{
  ℕ, ◌+◌, ◌%◌, ◌<◌, ◌≡◌, Bool, true, false, Option, none, some, ◌||◌, ◌==◌, update,
}

abbrev pub philosophers : ℕ
philosophers = 5

abbrev pub left_fork : ℕ → ℕ
left_fork i = (i + 1) % philosophers

abbrev pub right_fork : ℕ → ℕ
right_fork i = i % philosophers

-- Where a thread stands in `philosopher`: what it does next.
pub data Pc : Type 0 where
  seated : Pc  -- `food_on_table`, then the lock of `lForks`
  want_left : Pc
  want_right : Pc
  unlock_all : Pc  -- the unlock of `lForks`
  dining : Pc  -- up to the first unlock of `down_forks`
  half_down : Pc  -- the second unlock of `down_forks`
  done : Pc

-- A mutex is shown by the thread that owns it.
pub record Dinner : Type 0 where
  pub forks : ℕ → Option ℕ
  pub l_forks : Option ℕ
  pub pc : ℕ → Pc

abbrev pub start : Dinner
start = record { forks = λ _. none; l_forks = none; pc = λ _. seated }

-- One call of a thread on a mutex; a lock returns only when the mutex is free.
pub data Step (d : Dinner) : Dinner → Type 0 where
  leave :
      (i : ℕ) → i < philosophers → d.pc i ≡ seated → Step d (record d { pc = update d.pc i done })
  lock_all :
      (i : ℕ)
      → i < philosophers
      → d.pc i ≡ seated
      → d.l_forks ≡ none
      → Step d (record d { l_forks = some i; pc = update d.pc i want_left })
  lock_left :
      (i : ℕ)
      → i < philosophers
      → d.pc i ≡ want_left
      → d.forks (left_fork i) ≡ none
      → Step d (record d {
        forks = update d.forks (left_fork i) (some i);
        pc = update d.pc i want_right;
      })
  lock_right :
      (i : ℕ)
      → i < philosophers
      → d.pc i ≡ want_right
      → d.forks (right_fork i) ≡ none
      → Step d (record d {
        forks = update d.forks (right_fork i) (some i);
        pc = update d.pc i unlock_all;
      })
  unlock_l_forks :
      (i : ℕ)
      → i < philosophers
      → d.pc i ≡ unlock_all
      → Step d (record d { l_forks = none; pc = update d.pc i dining })
  unlock_left :
      (i : ℕ)
      → i < philosophers
      → d.pc i ≡ dining
      → Step d
          (record d { forks = update d.forks (left_fork i) none; pc = update d.pc i half_down })
  unlock_right :
      (i : ℕ)
      → i < philosophers
      → d.pc i ≡ half_down
      → Step d (record d { forks = update d.forks (right_fork i) none; pc = update d.pc i seated })

pub data Reach : Dinner → Type 0 where
  here : Reach start
  next : {d e : Dinner} → Reach d → Step d e → Reach e
