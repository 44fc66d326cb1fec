-- ===== src/Philosophers/Waiter/Invariant.antt =====
-- Which thread owns which mutex in Lab9/main.c.
use os_posix.Prelude.{ℕ, ◌<◌, ◌≡◌, Bool, true, false, some, ◌||◌, arith, ◌==◌}
use os_posix.Philosophers.Waiter.{
  philosophers, left_fork, right_fork, Pc, want_left, want_right, unlock_all, dining, half_down,
  Dinner, start, Step, leave, lock_all, lock_left, lock_right, unlock_l_forks, unlock_left,
  unlock_right, Reach, here, next,
}

-- Does philosopher `i` hold fork `f` at this point?
abbrev pub holds : Pc → ℕ → ℕ → Bool
holds want_right i f = left_fork i == f
holds unlock_all i f = (left_fork i == f) || (right_fork i == f)
holds dining i f = (left_fork i == f) || (right_fork i == f)
holds half_down i f = right_fork i == f
holds _ i f = false

abbrev pub holds_all : Pc → Bool
holds_all want_left = true
holds_all want_right = true
holds_all unlock_all = true
holds_all _ = false

pub record Inv (d : Dinner) : Type 0 where
  pub owns : (i f : ℕ) → i < philosophers → holds (d.pc i) i f ≡ true → d.forks f ≡ some i
  pub owned : (i f : ℕ) → d.forks f ≡ some i → (i < philosophers) × (holds (d.pc i) i f ≡ true)
  pub owns_all : (i : ℕ) → i < philosophers → holds_all (d.pc i) ≡ true → d.l_forks ≡ some i
  pub owned_all : (i : ℕ) → d.l_forks ≡ some i → (i < philosophers) × (holds_all (d.pc i) ≡ true)

start-Inv : Inv start
start-Inv = record {
  owns = λ i f h e. cc;
  owned = λ i f e. cc;
  owns_all = λ i h e. cc;
  owned_all = λ i e. cc;
}

Step-owns :
    {d e : Dinner}
    → Step d e
    → Inv d
    → (j f : ℕ) → j < philosophers
    → holds (e.pc j) j f ≡ true
    → e.forks f ≡ some j
Step-owns (leave i h p) v j f hj q = ground (arith, v.owns j f)
Step-owns (lock_all i h p n) v j f hj q = ground (arith, v.owns j f)
Step-owns (lock_left i h p n) v j f hj q = ground (arith, v.owns j f, v.owns i f)
Step-owns (lock_right i h p n) v j f hj q = ground (arith, v.owns j f, v.owns i f)
Step-owns (unlock_l_forks i h p) v j f hj q = ground (arith, v.owns j f)
Step-owns (unlock_left i h p) v j f hj q = ground (arith, v.owns j f, v.owns i f)
Step-owns (unlock_right i h p) v j f hj q = ground (arith, v.owns j f, v.owns i f)

Step-owned :
    {d e : Dinner}
    → Step d e
    → Inv d
    → (j f : ℕ) → e.forks f ≡ some j
    → (j < philosophers) × (holds (e.pc j) j f ≡ true)
Step-owned (leave i h p) v j f q = ground (arith, v.owned j f)
Step-owned (lock_all i h p n) v j f q = ground (arith, v.owned j f)
Step-owned (lock_left i h p n) v j f q = ground (arith, v.owned j f)
Step-owned (lock_right i h p n) v j f q = ground (arith, v.owned j f)
Step-owned (unlock_l_forks i h p) v j f q = ground (arith, v.owned j f)
Step-owned (unlock_left i h p) v j f q = ground (arith, v.owned j f)
Step-owned (unlock_right i h p) v j f q = ground (arith, v.owned j f)

Step-owns_all :
    {d e : Dinner}
    → Step d e
    → Inv d
    → (j : ℕ) → j < philosophers
    → holds_all (e.pc j) ≡ true
    → e.l_forks ≡ some j
Step-owns_all (leave i h p) v j hj q = ground (arith, v.owns_all j)
Step-owns_all (lock_all i h p n) v j hj q = ground (arith, v.owns_all j)
Step-owns_all (lock_left i h p n) v j hj q = ground (arith, v.owns_all j, v.owns_all i)
Step-owns_all (lock_right i h p n) v j hj q = ground (arith, v.owns_all j, v.owns_all i)
Step-owns_all (unlock_l_forks i h p) v j hj q = ground (arith, v.owns_all j, v.owns_all i)
Step-owns_all (unlock_left i h p) v j hj q = ground (arith, v.owns_all j)
Step-owns_all (unlock_right i h p) v j hj q = ground (arith, v.owns_all j)

Step-owned_all :
    {d e : Dinner}
    → Step d e
    → Inv d
    → (j : ℕ) → e.l_forks ≡ some j
    → (j < philosophers) × (holds_all (e.pc j) ≡ true)
Step-owned_all (leave i h p) v j q = ground (arith, v.owned_all j)
Step-owned_all (lock_all i h p n) v j q = ground (arith, v.owned_all j)
Step-owned_all (lock_left i h p n) v j q = ground (arith, v.owned_all j)
Step-owned_all (lock_right i h p n) v j q = ground (arith, v.owned_all j)
Step-owned_all (unlock_l_forks i h p) v j q = ground (arith, v.owned_all j)
Step-owned_all (unlock_left i h p) v j q = ground (arith, v.owned_all j)
Step-owned_all (unlock_right i h p) v j q = ground (arith, v.owned_all j)

Step-Inv : {d e : Dinner} → Step d e → Inv d → Inv e
Step-Inv s v = record {
  owns = Step-owns s v;
  owned = Step-owned s v;
  owns_all = Step-owns_all s v;
  owned_all = Step-owned_all s v;
}

pub Reach-Inv : {d : Dinner} → Reach d → Inv d
Reach-Inv here = start-Inv
Reach-Inv (next r s) = Step-Inv s (Reach-Inv r)
