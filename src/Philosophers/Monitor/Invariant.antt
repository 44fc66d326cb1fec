-- ===== src/Philosophers/Monitor/Invariant.antt =====
-- What holds of the philosophers' table and threads between two steps.
use os_posix.Prelude.{
  ℕ, ◌<◌, ◌≡◌, ◌≢◌, ◌⊎◌, Bool, true, false, arith, if◌then◌else◌, update, update_elim, ℕ_discrete,
}
use os_posix.Philosophers.Monitor.{
  philo, left, right, Status, thinking, hungry, eating, Table, test, get_forks, down_forks, Pc,
  seated, inside, dining, done, Dinner, start, Step, take, leave, wake, wakes_alone, release, Reach,
  here, next,
}

-- The thread of a philosopher agrees with the table.
abbrev pub Agrees : Bool → Pc → Status → Bool → Type 0
Agrees b seated s w = (s ≡ thinking) × (w ≡ false)
Agrees b inside s w = ((s ≡ hungry) × (w ≡ true)) ⊎ ((s ≡ eating) × (w ≡ false))
Agrees b dining s w = ((s ≡ eating) ⊎ ((b ≡ true) × (s ≡ hungry))) × (w ≡ false)
Agrees b done s w = (s ≡ thinking) × (w ≡ false)

abbrev Apart : Table → Type 0
Apart t = (i : ℕ) → i < philo → t.status i ≡ eating → t.status (right i) ≢ eating

abbrev Blocked : Table → ℕ → Type 0
Blocked t i = t.status i ≡ hungry → (t.status (left i) ≡ eating) ⊎ (t.status (right i) ≡ eating)

pub record Inv (b : Bool) (d : Dinner) : Type 0 where
  pub agrees : (i : ℕ) → i < philo → Agrees b (d.pc i) (d.table.status i) (d.table.waiting i)
  pub apart : Apart d.table
  pub blocked : (i : ℕ) → i < philo → Blocked d.table i

start-Inv : (b : Bool) → Inv b start
start-Inv b = record { agrees = λ i h. ground arith; apart = λ i h e. cc; blocked = λ i h e. cc }

left-right : (i : ℕ) → i < philo → left (right i) ≡ i
left-right i h = omega arith

pub right-left : (i : ℕ) → i < philo → right (left i) ≡ i
right-left i h = omega arith

pub left-lt : (i : ℕ) → left i < philo
left-lt i = omega arith

pub right-lt : (i : ℕ) → right i < philo
right-lt i = omega arith

test-Apart : (i : ℕ) (t : Table) → i < philo → Apart t → Apart (test i t)
unfolding test
test-Apart i t h a j hj e = ground (arith, a j, a i, a (left i), left-right j, right-left i)

test_same : (i : ℕ) (t : Table) (j : ℕ) → j ≢ i → (test i t).status j ≡ t.status j
unfolding test
test_same i t j ne = ground arith

test_eating : (i : ℕ) (t : Table) (j : ℕ) → t.status j ≡ eating → (test i t).status j ≡ eating
unfolding test
test_eating i t j e = ground arith

test-Blocked_self : (i : ℕ) (t : Table) → i < philo → Blocked (test i t) i
unfolding test
test-Blocked_self i t h e = ground arith

test-Blocked : (i : ℕ) (t : Table) (j : ℕ) → j ≢ i → Blocked t j → Blocked (test i t) j
test-Blocked i t j ne b e =
    ground (arith, test_same i t j, test_eating i t (left j), test_eating i t (right j))

abbrev with_status : Table → ℕ → Status → Table
with_status t i s = record t { status = update t.status i s }

get_forks_status :
    (i j : ℕ) (t : Table) → (get_forks i t).status j ≡ (test i (with_status t i hungry)).status j
unfolding get_forks
get_forks_status i j t = ground arith

get_forks-Apart : (i : ℕ) (t : Table) → i < philo → Apart t → Apart (get_forks i t)
get_forks-Apart i t h a j hj =
    simp get_forks_status
      (test-Apart i (with_status t i hungry) h (λ k hk e. ground (arith, a k)) j hj)

get_forks-Agrees :
    (b : Bool) (i : ℕ) (t : Table) (j : ℕ) (p : Pc)
    → i ≢ j
    → Agrees b p (t.status j) (t.waiting j)
    → Agrees b p ((get_forks i t).status j) ((get_forks i t).waiting j)
unfolding get_forks test
get_forks-Agrees b i t j p ne g = ground arith

get_forks-Agrees_self :
    (b : Bool) (i : ℕ) (t : Table)
    → t.waiting i ≡ false
    → Agrees b
        (if (get_forks i t).waiting i then inside else dining)
        ((get_forks i t).status i)
        ((get_forks i t).waiting i)
unfolding get_forks test
get_forks-Agrees_self b i t w = ground arith

get_forks-Blocked :
    (i : ℕ) (t : Table) (j : ℕ)
    → i < philo
    → Blocked t j
    → t.status i ≡ thinking
    → Blocked (get_forks i t) j
unfolding get_forks test
get_forks-Blocked i t j h b th e = ground arith

down_forks-Apart : (i : ℕ) (t : Table) → i < philo → Apart t → Apart (down_forks i t)
unfolding down_forks
down_forks-Apart i t h a =
    let t' = with_status t i thinking in
    test-Apart (right i) (test (left i) t') (right-lt i)
      (test-Apart (left i) t' (left-lt i) (λ j hj e. ground (arith, a j)))

down_forks-Agrees :
    (b : Bool) (i : ℕ) (t : Table) (j : ℕ) (p : Pc)
    → i ≢ j
    → Agrees b p (t.status j) (t.waiting j)
    → Agrees b p ((down_forks i t).status j) ((down_forks i t).waiting j)
unfolding down_forks test
down_forks-Agrees b i t j p ne g = ground arith

down_forks-Agrees_self :
    (b : Bool) (i : ℕ) (t : Table)
    → i < philo
    → t.waiting i ≡ false
    → Agrees b seated ((down_forks i t).status i) ((down_forks i t).waiting i)
unfolding down_forks test
down_forks-Agrees_self b i t h w = ground arith

down_forks-Blocked :
    (i : ℕ) (t : Table) (j : ℕ) → i < philo → j < philo → Blocked t j → Blocked (down_forks i t) j
unfolding down_forks
down_forks-Blocked i t j hi hj b = elim (ℕ_discrete j (right i)) [
  | yes at_right ↦ rw at_right (test-Blocked_self (right i) (test (left i) t') (right-lt i))
  | no past_right ↦
      test-Blocked (right i) (test (left i) t') j past_right (elim (ℕ_discrete j (left i)) [
        | yes at_left ↦ rw at_left (test-Blocked_self (left i) t' (left-lt i))
        | no past_left ↦
            test-Blocked (left i) t' j past_left
              (λ e. ground (arith, left-right j hj, right-left j hj))
      ])
]
  where
    t' : Table
    t' = with_status t i thinking

Step-Inv : {b : Bool} {d e : Dinner} → Step b d e → Inv b d → Inv b e
Step-Inv {b} {d} (take i h p) v = record {
  agrees = λ j hj.
      update_elim (λ k q. Agrees b q (t.status k) (t.waiting k)) d.pc i _ j
        (get_forks-Agrees_self b i d.table (ground (arith, v.agrees i h)))
        (λ ne. get_forks-Agrees b i d.table j (d.pc j) ne (v.agrees j hj));
  apart = get_forks-Apart i d.table h v.apart;
  blocked = λ j hj. get_forks-Blocked i d.table j h (v.blocked j hj) (ground (arith, v.agrees i h));
}
  where
    t : Table
    t = get_forks i d.table
Step-Inv {b} {d} (leave i h p) v = record {
  agrees = λ j hj. ground (arith, v.agrees j hj);
  apart = v.apart;
  blocked = v.blocked;
}
Step-Inv {b} {d} (wake i h p w) v = record {
  agrees = λ j hj. ground (arith, v.agrees j hj);
  apart = v.apart;
  blocked = v.blocked;
}
Step-Inv {b} {d} (wakes_alone i h alone p w) v = record {
  agrees = λ j hj. ground (arith, alone, v.agrees j hj);
  apart = v.apart;
  blocked = v.blocked;
}
Step-Inv {b} {d} (release i h p) v = record {
  agrees = λ j hj.
      update_elim (λ k q. Agrees b q (u.status k) (u.waiting k)) d.pc i _ j
        (down_forks-Agrees_self b i d.table h (ground (arith, v.agrees i h)))
        (λ ne. down_forks-Agrees b i d.table j (d.pc j) ne (v.agrees j hj));
  apart = down_forks-Apart i d.table h v.apart;
  blocked = λ j hj. down_forks-Blocked i d.table j h hj (v.blocked j hj);
}
  where
    u : Table
    u = down_forks i d.table

pub Reach-Inv : {b : Bool} {d : Dinner} → Reach b d → Inv b d
Reach-Inv {b} here = start-Inv b
Reach-Inv (next r s) = Step-Inv s (Reach-Inv r)
