-- ===== src/Proxy/Worker/Entries.antt =====
-- Soundness of the cache under the turns of Lab31/main.c: the parts that the cases share.
pub mod Ends
pub mod Fill
pub mod Relay
pub mod Round
pub mod Turns
use os_posix.Prelude.{ℕ, ◌≤◌, ◌-◌, arith, Bool, true, Option, none, some, List}
use os_posix.Proxy.Memory.{Run, done, fault, ◌>>=◌, Returns, Returns-bind}
use os_posix.Proxy.Cache.{Entry, make_cache_invalid}
use os_posix.Proxy.Cache.Entries.{AreEntries, make_cache_invalid-AreEntries}
use os_posix.Proxy.Pool.{Pool, drop_connection, wake_up}
use os_posix.Proxy.Worker.{send, invalidate}

-- The entries are sound, and at most `most` connections are in use.
abbrev pub IsSound : ℕ → Pool → Type 0
IsSound most p = AreEntries p.cache × (p.count ≤ most)

module _ {most : ℕ} where
  pub drop_connection-IsSound :
      (i : ℕ) (server : Bool) (p : Pool)
      → IsSound most p
      → IsSound most (drop_connection i server p)
  unfolding drop_connection
  drop_connection-IsSound i server p h = (h.0, omega (arith, h.1))

  pub wake_up-IsSound : (p : Pool) → IsSound most p → IsSound most (wake_up p)
  unfolding wake_up
  wake_up-IsSound p h = h

  pub send-IsSound :
      (r s : Option ℕ) (bs : List ℕ) (p : Pool) → IsSound most p → IsSound most (send r s bs p)
  send-IsSound none s bs p h = h
  send-IsSound (some n) s bs p h = h

  pub invalidate-IsSound :
      (j : Option ℕ) (p : Pool) → IsSound most p → Returns (IsSound most) (invalidate j p)
  unfolding wake_up
  invalidate-IsSound j p h =
      Returns-bind AreEntries (IsSound most) (make_cache_invalid j p.cache) _
        (make_cache_invalid-AreEntries j p.cache h.0) (λ cache ok. (ok, h.1))

  pub invalidate_drop-IsSound :
      (i : ℕ) (j : Option ℕ) (p : Pool)
      → IsSound most p
      → Returns (IsSound most) (invalidate j p >>= λ p'. done (drop_connection i true p'))
  invalidate_drop-IsSound i j p h =
      Returns-bind (IsSound most) (IsSound most) (invalidate j p) _ (invalidate-IsSound j p h)
        (λ p' ok. drop_connection-IsSound i true p' ok)
