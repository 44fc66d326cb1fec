-- ===== src/Proxy/Worker/Rounds.antt =====
-- The switch of `work` in Lab31/main.c, and the loop over the thread's connections.
use os_posix.Prelude.{ℕ, zero, suc, ◌+◌, Option, none, some, List, ltb, if◌then◌else◌}
use os_posix.Proxy.Memory.{Run, done, ◌>>=◌}
use os_posix.Proxy.Cache.{
  Entry, Status, getting_request, connecting_to_server, writing_request, forwarding_request,
  forwarding_response, responding_from_cache, not_active, waiting_data_on_cache,
}
use os_posix.Proxy.Pool.{Pool}
use os_posix.Proxy.Worker.{Io}
use os_posix.Proxy.Worker.Requests.{
  on_getting_request, on_connecting_to_server, on_writing_request, on_forwarding_request,
}
use os_posix.Proxy.Worker.Responses.{on_forwarding_response}
use os_posix.Proxy.Worker.Cached.{Turn, went_on, asleep, go_on, on_responding_from_cache}

abbrev pub on_status : ℕ → Io → ℕ → List (List Entry) → Pool → Status → Run Turn
on_status i io thread wakes p getting_request = on_getting_request i io thread p >>= go_on
on_status i io thread wakes p connecting_to_server = on_connecting_to_server i io p >>= go_on
on_status i io thread wakes p writing_request = on_writing_request i io p >>= go_on
on_status i io thread wakes p forwarding_request = on_forwarding_request i io p >>= go_on
on_status i io thread wakes p forwarding_response = on_forwarding_response i io p >>= go_on
on_status i io thread wakes p responding_from_cache = on_responding_from_cache i io thread wakes p
on_status i io thread wakes p not_active = go_on p
on_status i io thread wakes p waiting_data_on_cache = go_on p

-- What the turns of a round meet, by the index of the connection.
pub record Inputs : Type 0 where
  pub io : ℕ → Io
  pub wakes : ℕ → List (List Entry)

unfoldable pub turn : ℕ → Inputs → ℕ → Pool → Run Turn
turn i ins thread p = on_status i (ins.io i) thread (ins.wakes i) p (p.connections i).status

-- The loop from `i` on, whose bound is read anew each time; `none` is out of fuel. A thread that
-- sleeps does not go on.
abbrev pub carry_on : (Pool → Run (Option Turn)) → Turn → Run (Option Turn)
carry_on k (went_on p) = k p
carry_on k (asleep p) = done (some (asleep p))

-- The cache that a turn finds, where other threads changed it since the one before.
abbrev pub found : Option (List Entry) → Pool → Pool
found none p = p
found (some w) p = record p { cache = w }

-- `others` has the caches that other threads leave between the turns. Within a turn the cache
-- changes in the wait only.
unfoldable pub shared_round :
    ℕ → ℕ → (ℕ → Option (List Entry)) → Inputs → ℕ → Pool → Run (Option Turn)
shared_round zero i others ins thread p = done none
shared_round (suc fuel) i others ins thread p =
    if ltb i p.count
    then turn i ins thread (found (others i) p)
      >>= carry_on (λ p'. shared_round fuel (i + 1) others ins thread p')
    else done (some (went_on p))

-- A round in which no other thread changes the cache between the turns.
abbrev pub round : ℕ → ℕ → Inputs → ℕ → Pool → Run (Option Turn)
round fuel i ins thread p = shared_round fuel i (λ k. none) ins thread p
