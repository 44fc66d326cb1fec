-- ===== src/Proxy/Worker/Entries/Ends.antt =====
-- The rounds of `work` in Lab31/main.c: fuel, and soundness of the cache.
use os_posix.Prelude.{ℕ, ◌≡◌, Option, none, some, List}
use os_posix.Proxy.Cache.Entries.{AreEntries}
use os_posix.Proxy.Cache.{Entry}
use os_posix.Proxy.Pool.{Pool}
use os_posix.Proxy.Worker.Cached.{Turn}
use os_posix.Proxy.Worker.Entries.Round.{IsSoundTurn}

-- A result of a round: not out of fuel, and sound.
abbrev pub HasEnded : ℕ → Option Turn → Type 0
HasEnded most r = (t : Turn) × (r ≡ some t) × IsSoundTurn most t

-- What other threads leave between the turns is sound.
abbrev pub LeftSound : Option (List Entry) → Type 0
LeftSound none = Unit
LeftSound (some w) = AreEntries w
