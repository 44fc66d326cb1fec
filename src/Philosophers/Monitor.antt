-- ===== src/Philosophers/Monitor.antt =====
-- Lab9/smartPhilo.c: philosophers who wait on a condition variable of their own until both
-- neighbours have put their forks down. The functions run under one mutex, so each is one step.
pub mod Invariant
pub mod Safety
pub mod Tests
use os_posix.Prelude.{
  ℕ, ◌+◌, ◌-◌, ◌%◌, ◌<◌, ◌≡◌, Bool, true, false, not, ◌&&◌, if◌then◌else◌, update, ℕ_discrete,
}

abbrev pub philo : ℕ
philo = 5

abbrev pub left : ℕ → ℕ
left i = (i + philo - 1) % philo

abbrev pub right : ℕ → ℕ
right i = (i + 1) % philo

pub data Status : Type 0 where
  thinking hungry eating : Status

abbrev pub is_hungry : Status → Bool
is_hungry hungry = true
is_hungry _ = false

abbrev pub is_eating : Status → Bool
is_eating eating = true
is_eating _ = false

-- `phils_states`, and which threads sleep on their `cv`.
pub record Table : Type 0 where
  pub status : ℕ → Status
  pub waiting : ℕ → Bool

-- The signal wakes the thread that sleeps on `cv[i]`, if one does.
pub test : ℕ → Table → Table
test i t =
    if is_hungry (t.status i)
      && (not (is_eating (t.status (left i))) && not (is_eating (t.status (right i))))
    then record { status = update t.status i eating; waiting = update t.waiting i false }
    else t

-- Up to the return, or to the wait.
pub get_forks : ℕ → Table → Table
unfolding test
get_forks i t =
    let t' = test i (record t { status = update t.status i hungry }) in
    if is_eating (t'.status i) then t' else record t' { waiting = update t'.waiting i true }

pub down_forks : ℕ → Table → Table
unfolding test
down_forks i t = test (right i) (test (left i) (record t { status = update t.status i thinking }))

-- Where a philosopher's thread stands in `philosopher`.
pub data Pc : Type 0 where
  seated : Pc  -- before `food_on_table`, or between it and `get_forks`
  inside : Pc  -- in the wait of `get_forks`
  dining : Pc  -- between the return of `get_forks` and `down_forks`
  done : Pc

pub record Dinner : Type 0 where
  pub table : Table
  pub pc : ℕ → Pc

abbrev pub start : Dinner
start = record { table = record { status = λ _. thinking; waiting = λ _. false }; pc = λ _. seated }

-- One step of thread `i`. The dish that `food_on_table` returns decides between `take` and
-- `leave`; both are possible. `wake` is a return from the wait after a signal, `wakes_alone` one
-- without: may such a return happen? The wait stands under an `if`, so the call returns then.
pub data Step (spurious : Bool) (d : Dinner) : Dinner → Type 0 where
  take :
      (i : ℕ)
      → i < philo
      → d.pc i ≡ seated
      → Step spurious d (record {
        table = get_forks i d.table;
        pc = update d.pc i (if (get_forks i d.table).waiting i then inside else dining);
      })
  leave :
      (i : ℕ) → i < philo → d.pc i ≡ seated → Step spurious d (record d { pc = update d.pc i done })
  wake :
      (i : ℕ)
      → i < philo
      → d.pc i ≡ inside
      → d.table.waiting i ≡ false
      → Step spurious d (record d { pc = update d.pc i dining })
  wakes_alone :
      (i : ℕ)
      → i < philo
      → spurious ≡ true
      → d.pc i ≡ inside
      → d.table.waiting i ≡ true
      → Step spurious d (record {
        table = record d.table { waiting = update d.table.waiting i false };
        pc = update d.pc i dining;
      })
  release :
      (i : ℕ)
      → i < philo
      → d.pc i ≡ dining
      → Step spurious d (record { table = down_forks i d.table; pc = update d.pc i seated })

pub data Reach (spurious : Bool) : Dinner → Type 0 where
  here : Reach spurious start
  next : {d e : Dinner} → Reach spurious d → Step spurious d e → Reach spurious e
