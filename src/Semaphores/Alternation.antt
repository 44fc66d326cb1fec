-- ===== src/Semaphores/Alternation.antt =====
-- Lab13/main.c: parent and child print ten times each, in turns.
pub mod Turns
use os_posix.Prelude.{ℕ, zero, suc, ◌+◌, ◌<◌, ◌≡◌, List, [], ◌∷◌}

pub data Line : Type 0 where
  parent child : Line

abbrev pub rounds : ℕ
rounds = 10

-- Where a thread is in its loop: before `sem_wait`, before `printf`, before `sem_post`.
pub data Place : Type 0 where
  waits prints posts : Place

-- `i` and the place of each thread; `out` holds the lines, the newest first.
pub record State : Type 0 where
  pub sem1 : ℕ
  pub sem2 : ℕ
  pub parent_i : ℕ
  pub parent_at : Place
  pub child_i : ℕ
  pub child_at : Place
  pub out : List Line

abbrev pub start : State
start = record {
  sem1 = 0;
  sem2 = 1;
  parent_i = 0;
  parent_at = waits;
  child_i = 0;
  child_at = waits;
  out = [];
}

pub data Step (s : State) : State → Type 0 where
  parent_wait :
      (n : ℕ)
      → s.parent_at ≡ waits
      → s.parent_i < rounds
      → s.sem2 ≡ suc n
      → Step s (record s { parent_at = prints; sem2 = n })
  parent_print :
      s.parent_at ≡ prints → Step s (record s { parent_at = posts; out = parent ∷ s.out })
  parent_post :
      s.parent_at ≡ posts
      → Step s (record s { parent_at = waits; parent_i = s.parent_i + 1; sem1 = s.sem1 + 1 })
  child_wait :
      (n : ℕ)
      → s.child_at ≡ waits
      → s.child_i < rounds
      → s.sem1 ≡ suc n
      → Step s (record s { child_at = prints; sem1 = n })
  child_print : s.child_at ≡ prints → Step s (record s { child_at = posts; out = child ∷ s.out })
  child_post :
      s.child_at ≡ posts
      → Step s (record s { child_at = waits; child_i = s.child_i + 1; sem2 = s.sem2 + 1 })

pub data Reachable : State → Type 0 where
  begins : Reachable start
  steps : {s s' : State} → Reachable s → Step s s' → Reachable s'
