-- ===== src/Semaphores/Mutexes/Calls.antt =====
-- Which locks and unlocks of Lab10/main.c succeed.
use os_posix.Prelude.{◌≡◌, ◌≢◌, ap, sym, ◌∙◌, some, arith}
use os_posix.Semaphores.Alternation.{parent, child}
use os_posix.Semaphores.Mutexes.{locking, unlocking, closing, State}
use os_posix.Semaphores.Mutexes.Owners.{mutex}
use os_posix.Semaphores.Mutexes.Strings.{at}
use os_posix.Semaphores.Mutexes.Places.{Runs, child_owns, not_childs, not_parents}

-- Every lock and every unlock in the loop succeeds, the last unlock only for the parent.
module _ (s : State) (v : Runs s) where
  -- The mutex 2 is not the child's when the child has ended its loop.
  pub child_closes : s.child_at.pc ≡ closing → s.mute 2 ≢ some child
  child_closes e =
      let (all, from, size) = at 0 v.a v.b s.child_at v.child_in closing e in
      not_childs s v 32 (omega arith) (omega arith)

  pub parent_has : s.parent_at.pc ≡ closing → s.mute 2 ≡ some parent
  parent_has e =
      let (all, from, size) = at 2 v.c v.d s.parent_at v.parent_in closing e in
      let there : 2 ≡ mutex v.c = omega arith in
      ap s.mute there ∙ v.owned.parents v.c (omega arith) (omega arith)

  pub child_no_lock_fails : s.child_at.pc ≡ locking → s.mute s.child_at.k ≢ some child
  child_no_lock_fails e =
      let (more, from, size, k) = at 0 v.a v.b s.child_at v.child_in locking e in
      λ own. not_childs s v v.b (omega arith) (omega arith) (ap s.mute (sym k) ∙ own)

  pub parent_no_lock_fails : s.parent_at.pc ≡ locking → s.mute s.parent_at.k ≢ some parent
  parent_no_lock_fails e =
      let (more, from, size, k) = at 2 v.c v.d s.parent_at v.parent_in locking e in
      λ own. not_parents s v (ap s.mute (sym k) ∙ own)

  pub child_unlocks_own : s.child_at.pc ≡ unlocking → s.mute s.child_at.k ≡ some child
  child_unlocks_own e =
      let (more, from, size, k) = at 0 v.a v.b s.child_at v.child_in unlocking e in
      ap s.mute k ∙ v.owned.childs v.a (omega arith) (child_owns s v)

  pub parent_unlocks_own : s.parent_at.pc ≡ unlocking → s.mute s.parent_at.k ≡ some parent
  parent_unlocks_own e =
      let (more, from, size, k) = at 2 v.c v.d s.parent_at v.parent_in unlocking e in
      ap s.mute k ∙ v.owned.parents v.c (omega arith) (omega arith)
