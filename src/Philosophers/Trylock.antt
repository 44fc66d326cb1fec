-- ===== src/Philosophers/Trylock.antt =====
-- Lab21/main.c: a philosopher locks its left fork, tries the right one, and if it is taken waits on
-- a condition variable with the left fork as its mutex.
pub mod Forks
pub mod Wakeups
mod Tests
use os_posix.Prelude.{ℕ, ◌+◌, ◌%◌, ◌<◌, ◌≡◌, ◌≢◌, Bool, true, Option, none, some, update}
use os_posix.Philosophers.Food.{food_on_table}

abbrev pub philosophers : ℕ
philosophers = 5

abbrev pub right_fork : ℕ → ℕ
right_fork i = i % philosophers

abbrev pub left_fork : ℕ → ℕ
left_fork i = (i + 1) % philosophers

-- What a thread does next.
pub data Pc : Type 0 where
  seated : Pc  -- `food_on_table`
  hungry : Pc  -- the lock of the left fork
  tries : Pc  -- `pthread_mutex_trylock` of the right fork
  missed : Pc  -- `pthread_cond_wait`, which unlocks the left fork
  asleep : Pc  -- a wakeup
  woken : Pc  -- the lock of the left fork, inside the wait
  dining : Pc  -- the unlock of the left fork
  half_down : Pc  -- the unlock of the right fork
  both_down : Pc  -- `pthread_cond_broadcast`
  done : Pc

pub record Dinner : Type 0 where
  pub food : ℕ
  pub forks : ℕ → Option ℕ
  pub pc : ℕ → Pc
  pub eaten_food : ℕ → ℕ

abbrev pub start : ℕ → Dinner
start food = record { food = food; forks = λ _. none; pc = λ _. seated; eaten_food = λ _. 0 }

abbrev pub wake : Pc → Pc
wake asleep = woken
wake p = p

-- `spurious`: may a wait return without a broadcast?
pub data Step (spurious : Bool) (d : Dinner) : Dinner → Type 0 where
  serve :
      (i f : ℕ)
      → i < philosophers
      → d.pc i ≡ seated
      → food_on_table d.food ≡ (f, f)
      → f ≢ 0
      → Step spurious d (record d { food = f; pc = update d.pc i hungry })
  leave :
      (i f : ℕ)
      → i < philosophers
      → d.pc i ≡ seated
      → food_on_table d.food ≡ (f, 0)
      → Step spurious d (record d { food = f; pc = update d.pc i done })
  get_left :
      (i : ℕ)
      → i < philosophers
      → d.pc i ≡ hungry
      → d.forks (left_fork i) ≡ none
      → Step spurious d
          (record d { forks = update d.forks (left_fork i) (some i); pc = update d.pc i tries })
  get_left_again :
      (i : ℕ)
      → i < philosophers
      → d.pc i ≡ woken
      → d.forks (left_fork i) ≡ none
      → Step spurious d
          (record d { forks = update d.forks (left_fork i) (some i); pc = update d.pc i tries })
  get_right :
      (i : ℕ)
      → i < philosophers
      → d.pc i ≡ tries
      → d.forks (right_fork i) ≡ none
      → Step spurious d
          (record d { forks = update d.forks (right_fork i) (some i); pc = update d.pc i dining })
  miss :
      (i j : ℕ)
      → i < philosophers
      → d.pc i ≡ tries
      → d.forks (right_fork i) ≡ some j
      → Step spurious d (record d { pc = update d.pc i missed })
  wait :
      (i : ℕ)
      → i < philosophers
      → d.pc i ≡ missed
      → Step spurious d
          (record d { forks = update d.forks (left_fork i) none; pc = update d.pc i asleep })
  wakes_alone :
      (i : ℕ)
      → i < philosophers
      → spurious ≡ true
      → d.pc i ≡ asleep
      → Step spurious d (record d { pc = update d.pc i woken })
  down_left :
      (i : ℕ)
      → i < philosophers
      → d.pc i ≡ dining
      → Step spurious d (record d {
        forks = update d.forks (left_fork i) none;
        pc = update d.pc i half_down;
        eaten_food = update d.eaten_food i (d.eaten_food i + 1);
      })
  down_right :
      (i : ℕ)
      → i < philosophers
      → d.pc i ≡ half_down
      → Step spurious d
          (record d { forks = update d.forks (right_fork i) none; pc = update d.pc i both_down })
  broadcast :
      (i : ℕ)
      → i < philosophers
      → d.pc i ≡ both_down
      → Step spurious d (record d { pc = λ j. wake (update d.pc i seated j) })

-- `food` is what stands on the table at the start.
pub data Reach (spurious : Bool) (food : ℕ) : Dinner → Type 0 where
  here : Reach spurious food (start food)
  next : {d e : Dinner} → Reach spurious food d → Step spurious d e → Reach spurious food e
