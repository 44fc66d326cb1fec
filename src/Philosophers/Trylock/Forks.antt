-- ===== src/Philosophers/Trylock/Forks.antt =====
-- Who owns which fork in Lab21/main.c.
use os_posix.Prelude.{
  ℕ, ◌-◌, ◌<◌, ◌≡◌, ◌≢◌, Bool, true, false, none, some, ◌||◌, arith, ◌==◌, update, Option-cases,
  inl, inr, ℕ_discrete, refl,
}
use os_posix.Philosophers.Food.{food_on_table}
use os_posix.Philosophers.Trylock.{
  philosophers, right_fork, left_fork, Pc, seated, hungry, tries, missed, asleep, woken, dining,
  half_down, both_down, done, Dinner, wake, Step, serve, leave, get_left, get_left_again, get_right,
  miss, wait, wakes_alone, down_left, down_right, broadcast, Reach, here, next,
}

abbrev pub holds : Pc → ℕ → ℕ → Bool
holds tries i f = left_fork i == f
holds missed i f = left_fork i == f
holds dining i f = (left_fork i == f) || (right_fork i == f)
holds half_down i f = right_fork i == f
holds _ i f = false

abbrev Owns : Dinner → Type 0
Owns d = (i f : ℕ) → i < philosophers → holds (d.pc i) i f ≡ true → d.forks f ≡ some i

holds-wake : (p : Pc) (i f : ℕ) → holds (wake p) i f ≡ holds p i f
holds-wake p i f = ground arith

Step-Owns : {b : Bool} {d e : Dinner} → Step b d e → Owns d → Owns e
Step-Owns (serve i k h p m n) v j f hj q = ground (arith, v j f)
Step-Owns (leave i k h p m) v j f hj q = ground (arith, v j f)
Step-Owns (get_left i h p n) v j f hj q = ground (arith, v j f, v i f)
Step-Owns (get_left_again i h p n) v j f hj q = ground (arith, v j f, v i f)
Step-Owns (get_right i h p n) v j f hj q = ground (arith, v j f, v i f)
Step-Owns (miss i k h p n) v j f hj q = ground (arith, v j f, v i f)
Step-Owns (wait i h p) v j f hj q = ground (arith, v j f, v i f)
Step-Owns (wakes_alone i h b p) v j f hj q = ground (arith, v j f, v i f)
Step-Owns (down_left i h p) v j f hj q = ground (arith, v j f, v i f)
Step-Owns (down_right i h p) v j f hj q = ground (arith, v j f, v i f)
Step-Owns {d = d} (broadcast i h p) v j f hj q =
    ground (arith, v j f, v i f, holds-wake (update d.pc i seated j) j f)

-- A fork that is taken is held by a philosopher at the table.
abbrev Used : Dinner → Type 0
Used d = (f k : ℕ) → d.forks f ≡ some k → (k < philosophers) × (holds (d.pc k) k f ≡ true)

Step-Used : {b : Bool} {d e : Dinner} → Step b d e → Owns d → Used d → Used e
Step-Used (serve i k h p m n) o v f j e = ground (arith, v f j)
Step-Used (leave i k h p m) o v f j e = ground (arith, v f j)
Step-Used (get_left i h p n) o v f j e = ground (arith, v f j)
Step-Used (get_left_again i h p n) o v f j e = ground (arith, v f j)
Step-Used (get_right i h p n) o v f j e = ground (arith, v f j)
Step-Used (miss i k h p n) o v f j e = ground (arith, v f j)
Step-Used (wait i h p) o v f j e = ground (arith, v f j)
Step-Used (wakes_alone i h b p) o v f j e = ground (arith, v f j)
Step-Used (down_left i h p) o v f j e = ground (arith, v f j)
Step-Used (down_right i h p) o v f j e = ground (arith, v f j)
Step-Used {d = d} (broadcast i h p) o v f j e =
    ground (arith, v f j, holds-wake (update d.pc i seated j) j f)

record IsShared (d : Dinner) : Type 0 where
  owns : Owns d
  used : Used d

Reach-IsShared : {b : Bool} {food : ℕ} {d : Dinner} → Reach b food d → IsShared d
Reach-IsShared here = record { owns = λ i f h e. cc; used = λ f k e. cc }
Reach-IsShared (next r s) =
    let v = Reach-IsShared r in
    record { owns = Step-Owns s v.owns; used = Step-Used s v.owns v.used }

-- In every state that the threads reach, spurious wakeups included, two neighbours are never both
-- between the second lock and the first unlock.
pub trylock_apart :
    {b : Bool} {food : ℕ} {d : Dinner}
    → Reach b food d
    → (i : ℕ) → i < philosophers
    → d.pc i ≡ dining
    → d.pc (left_fork i) ≢ dining
trylock_apart r i h e e' =
    let v = Reach-IsShared r in
    ground (arith, v.owns i (left_fork i), v.owns (left_fork i) (left_fork i))

module _ (b : Bool) (d : Dinner) where
  abbrev Moves : Type 0
  Moves = (e : Dinner) × Step b d e

  tries_right : (k : ℕ) → k < philosophers → d.pc k ≡ tries → Moves
  tries_right k h p = elim (Option-cases (d.forks (right_fork k))) [
    | inl free ↦ (_, get_right k h p free)
    | inr (j, taken) ↦ (_, miss k j h p taken)
  ]

  -- A philosopher that holds a fork can go on.
  holder_moves : (k f : ℕ) (p : Pc) → k < philosophers → d.pc k ≡ p → holds p k f ≡ true → Moves
  holder_moves k f tries h p e = tries_right k h p
  holder_moves k f missed h p e = (_, wait k h p)
  holder_moves k f dining h p e = (_, down_left k h p)
  holder_moves k f half_down h p e = (_, down_right k h p)
  holder_moves k f seated h p e = cc
  holder_moves k f hungry h p e = cc
  holder_moves k f asleep h p e = cc
  holder_moves k f woken h p e = cc
  holder_moves k f both_down h p e = cc
  holder_moves k f done h p e = cc

  takes_left : (k : ℕ) → Used d → (d.forks (left_fork k) ≡ none → Moves) → Moves
  takes_left k v take = elim (Option-cases (d.forks (left_fork k))) [
    | inl free ↦ take free
    | inr (j, taken) ↦
        let (h, e) = v (left_fork k) j taken in holder_moves j (left_fork k) (d.pc j) h refl e
  ]

  sits : (k : ℕ) → k < philosophers → d.pc k ≡ seated → Moves
  sits k h p = elim (ℕ_discrete (d.food - 1) 0) [
    | yes e ↦ (_, leave k 0 h p (unfold food_on_table in ground arith))
    | no n ↦ (_, serve k (d.food - 1) h p (unfold food_on_table in ground arith) n)
  ]

  awake_moves :
      (k : ℕ) (p : Pc) → Used d → k < philosophers → d.pc k ≡ p → p ≢ asleep → p ≢ done → Moves
  awake_moves k seated v h p a n = sits k h p
  awake_moves k hungry v h p a n = takes_left k v (λ free. (_, get_left k h p free))
  awake_moves k tries v h p a n = tries_right k h p
  awake_moves k missed v h p a n = (_, wait k h p)
  awake_moves k asleep v h p a n = absurd (a refl)
  awake_moves k woken v h p a n = takes_left k v (λ free. (_, get_left_again k h p free))
  awake_moves k dining v h p a n = (_, down_left k h p)
  awake_moves k half_down v h p a n = (_, down_right k h p)
  awake_moves k both_down v h p a n = (_, broadcast k h p)
  awake_moves k done v h p a n = absurd (n refl)

-- In every state that the threads reach, some thread can take a step as long as a philosopher has
-- neither left the table nor fallen asleep on the condition variable.
pub some_philosopher_moves :
    {b : Bool} {food : ℕ} {d : Dinner}
    → Reach b food d
    → (i : ℕ) → i < philosophers
    → d.pc i ≢ asleep
    → d.pc i ≢ done
    → (e : Dinner) × Step b d e
some_philosopher_moves {b} {d = d} r i h a n =
    let v = Reach-IsShared r in awake_moves b d i (d.pc i) v.used h refl a n
