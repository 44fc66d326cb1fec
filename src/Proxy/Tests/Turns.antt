-- ===== src/Proxy/Tests/Turns.antt =====
-- The turns in which a page of Lab31 is served.
use os_posix.Prelude.{ℕ, zero, suc, ◌≡◌, refl, some, [], ◌∷◌, arith, ◌≤◌, ◌<◌}
use os_posix.Proxy.Memory.{done}
use os_posix.Proxy.Pool.{Pool}
use os_posix.Proxy.Worker.Cached.Served.{respond_all, Takes, all_sent, takes, IsServing, IsComplete}
use os_posix.Proxy.Worker.Cached.Pages.{Sends, Leaves, page_in_turns}
use os_posix.Proxy.Worker.Cached.{went_on}
use os_posix.Proxy.Worker.Rounds.{round}
use os_posix.Proxy.Worker.Cached.Rounds.{IsServed, served_round}
use os_posix.Proxy.Tests.Pages.{page, page_entry, pool, io, inputs}

page-IsComplete : IsComplete page_entry page
page-IsComplete = record {
  status = refl;
  block = refl;
  count = refl;
  all = refl;
  small = omega arith;
}

reader-IsServing : IsServing 0 0 page_entry (some 4) 1 pool
reader-IsServing = record { index = refl; written = refl; client = refl; cached = refl }

two_turns : Takes page 3 1 (io ∷ io ∷ [])
two_turns =
    takes io 1 refl refl (omega arith) (omega arith) (omega arith)
      (takes io 1 refl refl (omega arith) (omega arith) (omega arith) (all_sent refl))

page_in_turns_example :
    (p : Pool) × (respond_all 0 0 (io ∷ io ∷ []) pool ≡ done p)
    × Sends 0 0 0 page_entry page (some 4) page-IsComplete 1 3 pool p
    × Leaves 0 0 0 page_entry page (some 4) page-IsComplete 3 pool p
page_in_turns_example =
    page_in_turns 0 0 0 page_entry page (some 4) page-IsComplete reader-IsServing (omega arith)
      two_turns

-- The pool of the reader alone.
abbrev one_reader : Pool
one_reader = record pool { count = 1 }

reader-IsServed : (k : ℕ) → 0 ≤ k → k < 1 → IsServed (one_reader.connections k) one_reader.cache
reader-IsServed zero a b = record {
  status = refl;
  index = 0;
  at = refl;
  entry = page_entry;
  cached = refl;
  bytes = page;
  complete = page-IsComplete;
  below = omega arith;
}
reader-IsServed (suc k) a b = absurd (omega arith)

served_round_example :
    (q : Pool) × (round 2 0 inputs 0 one_reader ≡ done (some (went_on q)))
    × (q.cache ≡ one_reader.cache)
    × (q.count ≤ 1)
served_round_example =
    served_round 2 0 inputs 0 one_reader reader-IsServed (omega arith) (omega arith)
