-- ===== src/Proxy/Worker/Cached/Rounds.antt =====
-- A round of `work` in Lab31/main.c in which every connection is served from the cache.
use mathlib.Core.Path.{subst}
use os_posix.Prelude.{
  ℕ, zero, suc, ◌+◌, ◌≤◌, ◌<◌, ◌≡◌, refl, ap, sym, ◌∙◌, Bool, true, false, Option, none, some, List,
  arith, get_elem?, length, take, drop, Bool-cases, inl, inr, ltb,
}
use os_posix.Proxy.Memory.{Bytes, Run, done, Finishes}
use os_posix.Proxy.Cache.{Entry, Connection, responding_from_cache}
use os_posix.Proxy.Pool.{Pool, drop_connection}
use os_posix.Proxy.Worker.{Io, send, edit_connection}
use os_posix.Proxy.Worker.Cached.{
  chunk, Turn, went_on, end_if, after_send, on_responding_from_cache,
}
use os_posix.Proxy.Worker.Cached.Chunks.{send_chunk-slice}
use os_posix.Proxy.Worker.Cached.Served.{IsServing, IsComplete, responds}
use os_posix.Proxy.Worker.Rounds.{shared_round, Inputs, turn, round}

-- A connection with a complete entry of the cache, some bytes of which are left to send.
pub record IsServed (c : Connection) (cache : List Entry) : Type 0 where
  pub status : c.status ≡ responding_from_cache
  pub index : ℕ
  pub at : c.cache_index ≡ some index
  pub entry : Entry
  pub cached : get_elem? cache index ≡ some entry
  pub bytes : Bytes
  pub complete : IsComplete entry bytes
  pub below : c.cache_bytes_written < length bytes

-- What a turn of connection `i` leaves of the pool.
pub record Keeps (i : ℕ) (p q : Pool) : Type 0 where
  pub count : q.count ≤ p.count
  pub cache : q.cache ≡ p.cache
  pub later : (k : ℕ) → i < k → k < q.count → q.connections k ≡ p.connections k

Keeps-refl : (i : ℕ) (p : Pool) → Keeps i p p
Keeps-refl i p = record { count = omega arith; cache = refl; later = λ k a b. refl }

Keeps-edit :
    (i : ℕ) (f : Connection → Connection) (p q : Pool)
    → Keeps i p q
    → Keeps i p (edit_connection i f q)
Keeps-edit i f p q v = record {
  count = v.count;
  cache = v.cache;
  later = λ k a b. ground (arith, v.later k);
}

Keeps-drop : (i : ℕ) (p q : Pool) → Keeps i p q → Keeps i p (drop_connection i false q)
unfolding drop_connection
Keeps-drop i p q v = record {
  count = omega (arith, v.count);
  cache = v.cache;
  later = λ k a b. ground (arith, v.later k);
}

abbrev Goes : ℕ → Pool → Run Turn → Type 0
Goes i p r = Finishes (λ t. (q : Pool) × (t ≡ went_on q) × Keeps i p q) r

end_if-Goes : (i : ℕ) (p q : Pool) (b : Bool) → Keeps i p q → Goes i p (end_if i q b)
end_if-Goes i p q true v = (_, refl, (_, refl, Keeps-drop i p q v))
end_if-Goes i p q false v = (_, refl, (_, refl, v))

after_send-Goes :
    (i : ℕ) (e : Entry) (p : Pool) (socket : Option ℕ) (bs : Bytes) (r : Option ℕ)
    → Goes i p (after_send i e (send r socket bs p) r)
after_send-Goes i e p socket bs none = (_, refl, (_, refl, Keeps-drop i p p (Keeps-refl i p)))
after_send-Goes i e p socket bs (some n) = end_if-Goes i p _ _ (
    Keeps-edit i (λ c. record c { cache_bytes_written = c.cache_bytes_written + n }) p
      (send (some n) socket bs p)
      (record { count = omega arith; cache = refl; later = λ k a b. refl }))

sends_next :
    (i : ℕ) (io : Io) (thread : ℕ) (wakes : List (List Entry)) (p : Pool)
    → (v : IsServed (p.connections i) p.cache) → io.client.pollout ≡ true
    → on_responding_from_cache i io thread wakes p
      ≡ after_send i v.entry
          (send io.send_result
            (p.connections i).client_socket
            (take chunk (drop (p.connections i).cache_bytes_written v.bytes))
            p)
          io.send_result
sends_next i io thread wakes p v ready =
    let serving : IsServing i v.index v.entry (p.connections i).client_socket
        (p.connections i).cache_bytes_written p =
      record { index = v.at; written = refl; client = refl; cached = v.cached } in
    responds i v.index thread v.entry v.bytes (p.connections i).client_socket v.complete
      (p.connections i).cache_bytes_written wakes io p serving ready v.below
    ∙ send_chunk-slice i io p v.entry v.bytes v.complete.block v.complete.count v.complete.small
        (omega (arith, v.below))

idle_turn :
    (i : ℕ) (io : Io) (thread : ℕ) (wakes : List (List Entry)) (p : Pool)
    → io.client.pollout ≡ false
    → on_responding_from_cache i io thread wakes p ≡ done (went_on p)
unfolding on_responding_from_cache
idle_turn i io thread wakes p busy = simp busy

-- Whatever `poll` and `send` answer, the turn of a connection that is served does not fault.
served_turn :
    (i : ℕ) (io : Io) (thread : ℕ) (wakes : List (List Entry)) (p : Pool)
    → IsServed (p.connections i) p.cache
    → Goes i p (on_responding_from_cache i io thread wakes p)
served_turn i io thread wakes p v = elim (Bool-cases io.client.pollout) [
  | inl ready ↦
      subst (Goes i p) (sym (sends_next i io thread wakes p v ready))
        (after_send-Goes i v.entry p (p.connections i).client_socket _ io.send_result)
  | inr busy ↦ (went_on p, idle_turn i io thread wakes p busy, (p, refl, Keeps-refl i p))
]

turn-Goes :
    (i : ℕ) (ins : Inputs) (thread : ℕ) (p : Pool)
    → IsServed (p.connections i) p.cache
    → Goes i p (turn i ins thread p)
unfolding turn
turn-Goes i ins thread p v = rw v.status (served_turn i (ins.io i) thread (ins.wakes i) p v)

-- The connections that are still to come.
abbrev pub AllServed : ℕ → Pool → Type 0
AllServed i p = (k : ℕ) → i ≤ k → k < p.count → IsServed (p.connections k) p.cache

Keeps-AllServed : (i : ℕ) (p q : Pool) → Keeps i p q → AllServed i p → AllServed (i + 1) q
Keeps-AllServed i p q v all k a b = subst (IsServed (q.connections k)) (sym v.cache) (
    subst (λ c. IsServed c p.cache) (sym (v.later k (omega arith) b))
      (all k (omega arith) (omega (arith, v.count))))

round_step :
    (fuel i : ℕ) (ins : Inputs) (thread : ℕ) (p q : Pool)
    → ltb i p.count ≡ true
    → turn i ins thread p ≡ done (went_on q)
    → round (suc fuel) i ins thread p ≡ round fuel (i + 1) ins thread q
unfolding shared_round
round_step fuel i ins thread p q in_use run = simp (in_use, run)

-- A round in which every connection is served from a complete entry of the cache ends without a
-- fault, whatever `poll` and `send` answer, with fuel for one turn more than there are connections;
-- it leaves the cache as it was, and adds no connection.
pub served_round :
    (fuel i : ℕ) (ins : Inputs) (thread : ℕ) (p : Pool)
    → AllServed i p
    → 0 < fuel
    → p.count < fuel + i
    → (q : Pool) × (round fuel i ins thread p ≡ done (some (went_on q)))
      × (q.cache ≡ p.cache)
      × (q.count ≤ p.count)
unfolding shared_round
served_round zero i ins thread p all some_fuel enough = absurd (omega arith)
served_round (suc fuel) i ins thread p all some_fuel enough = elim (Bool-cases (ltb i p.count)) [
  | inr out ↦ (p, simp out, refl, omega arith)
  | inl in_use ↦
      let (t, run, (q, same, v)) = turn-Goes i ins thread p (all i (omega arith) (ground arith)) in
      let (q', rest, cache, count) =
        served_round fuel (i + 1) ins thread q (Keeps-AllServed i p q v all) (ground arith)
          (omega (arith, v.count)) in
      (
        q',
        round_step fuel i ins thread p q in_use (run ∙ ap done same) ∙ rest,
        cache ∙ v.cache,
        omega (arith, count, v.count),
      )
]
