-- ===== src/Philosophers/Naive.antt =====
-- Lab9/din_phil.c: each philosopher locks its right fork, then its left one, with nothing else
-- between them and a circular wait.
pub mod Deadlock
pub mod Tests
use os_posix.Prelude.{ℕ, ◌+◌, ◌<◌, ◌≡◌, Option, none, some, ◌==◌, if◌then◌else◌, update}

abbrev pub philo : ℕ
philo = 5

abbrev pub right_fork : ℕ → ℕ
right_fork i = i

-- The wrap-around of `philosopher`.
abbrev pub left_fork : ℕ → ℕ
left_fork i = if (i + 1) == philo then 0 else i + 1

-- What a thread does next.
pub data Pc : Type 0 where
  seated : Pc  -- `food_on_table`, then the lock of the right fork
  has_right : Pc
  dining : Pc  -- up to the unlock of the left fork
  half_down : Pc  -- the unlock of the right fork
  done : Pc

pub record Dinner : Type 0 where
  pub forks : ℕ → Option ℕ
  pub pc : ℕ → Pc

abbrev pub start : Dinner
start = record { forks = λ _. none; pc = λ _. seated }

pub data Step (d : Dinner) : Dinner → Type 0 where
  leave : (i : ℕ) → i < philo → d.pc i ≡ seated → Step d (record d { pc = update d.pc i done })
  get_right :
      (i : ℕ)
      → i < philo
      → d.pc i ≡ seated
      → d.forks (right_fork i) ≡ none
      → Step d
          (record { forks = update d.forks (right_fork i) (some i); pc = update d.pc i has_right })
  get_left :
      (i : ℕ)
      → i < philo
      → d.pc i ≡ has_right
      → d.forks (left_fork i) ≡ none
      → Step d (record { forks = update d.forks (left_fork i) (some i); pc = update d.pc i dining })
  down_left :
      (i : ℕ)
      → i < philo
      → d.pc i ≡ dining
      → Step d (record { forks = update d.forks (left_fork i) none; pc = update d.pc i half_down })
  down_right :
      (i : ℕ)
      → i < philo
      → d.pc i ≡ half_down
      → Step d (record { forks = update d.forks (right_fork i) none; pc = update d.pc i seated })

pub data Reach : Dinner → Type 0 where
  here : Reach start
  next : {d e : Dinner} → Reach d → Step d e → Reach e
