-- ===== src/Proxy/Worker/Entries/Round.antt =====
-- Soundness of the cache under RESPONDING_FROM_CACHE of Lab31/main.c, and under a whole turn.
use os_posix.Prelude.{
  ℕ, ◌+◌, inl, inr, Bool, true, false, ◌&&◌, Option, none, some, List, [], ◌∷◌, Bool-cases, ◌==◌,
}
use os_posix.Proxy.Memory.{Run, done, fault, ◌>>=◌, Returns, Returns-any}
use os_posix.Proxy.Cache.{
  Entry, EntryStatus, Status, getting_request, connecting_to_server, writing_request,
  forwarding_request, forwarding_response, responding_from_cache, not_active, waiting_data_on_cache,
}
use os_posix.Proxy.Cache.Entries.{AreEntries, on_entry-Returns}
use os_posix.Proxy.Pool.{Pool, drop_connection}
use os_posix.Proxy.Worker.{Io, send, edit_connection}
use os_posix.Proxy.Worker.Requests.{
  on_getting_request, on_connecting_to_server, on_writing_request, on_forwarding_request,
}
use os_posix.Proxy.Worker.Responses.{on_forwarding_response}
use os_posix.Proxy.Worker.Cached.{
  Turn, went_on, asleep, go_on, nothing_new, is_writer, read_block, end_if, after_send, send_chunk,
  unlock_at, give_up, is_invalid, is_valid, no_news, look, await, respond, respond_at,
  on_responding_from_cache,
}
use os_posix.Proxy.Worker.Rounds.{Inputs, on_status, turn}
use os_posix.Proxy.Worker.Entries.{IsSound, drop_connection-IsSound, send-IsSound}
use os_posix.Proxy.Worker.Entries.Relay.{on_forwarding_response-IsSound}
use os_posix.Proxy.Worker.Entries.Turns.{
  on_getting_request-IsSound, on_connecting_to_server-IsSound, on_writing_request-IsSound,
  on_forwarding_request-IsSound,
}

abbrev pub IsSoundTurn : ℕ → Turn → Type 0
IsSoundTurn most (went_on p) = IsSound most p
IsSoundTurn most (asleep p) = IsSound most p

-- The caches that a sleeping thread finds are sound.
abbrev pub AllSound : List (List Entry) → Type 0
AllSound [] = Unit
AllSound (w ∷ ws) = AreEntries w × AllSound ws

went-IsSound :
    (most : ℕ) (r : Run Pool) → Returns (IsSound most) r → Returns (IsSoundTurn most) (r >>= go_on)
went-IsSound most (done p) h = h
went-IsSound most fault h = tt

module _ {most : ℕ} where
  end_if-IsSound :
      (i : ℕ) (p : Pool) (b : Bool) → IsSound most p → Returns (IsSoundTurn most) (end_if i p b)
  end_if-IsSound i p true h = drop_connection-IsSound i false p h
  end_if-IsSound i p false h = h

  unlock_at-IsSound :
      (j : Option ℕ) (p : Pool) → IsSound most p → Returns (IsSoundTurn most) (unlock_at j p)
  unlock_at-IsSound none p h = tt
  unlock_at-IsSound (some j) p h = h

  after_send-IsSound :
      (i : ℕ) (e : Entry) (p : Pool) (r : Option ℕ)
      → IsSound most p
      → Returns (IsSoundTurn most) (after_send i e p r)
  after_send-IsSound i e p none h = drop_connection-IsSound i false p h
  after_send-IsSound i e p (some n) h =
      let p1 =
        edit_connection i (λ c. record c { cache_bytes_written = c.cache_bytes_written + n }) p in
      end_if-IsSound i p1 ((p1.connections i).cache_bytes_written == e.all_size) h

  send_chunk-IsSound :
      (i : ℕ) (io : Io) (p : Pool) (e : Entry)
      → IsSound most p
      → Returns (IsSoundTurn most) (send_chunk i io p e)
  unfolding send_chunk
  send_chunk-IsSound i io p e h =
      let c = p.connections i in
      Returns-any (IsSoundTurn most) (read_block _ _ e.block) _ (λ bs.
        after_send-IsSound i e (send io.send_result c.client_socket bs p) io.send_result
          (send-IsSound io.send_result c.client_socket bs p h))

  give_up-IsSound : (i : ℕ) (p : Pool) → IsSound most p → Returns (IsSoundTurn most) (give_up i p)
  give_up-IsSound i p h =
      let p' = drop_connection i false p in
      unlock_at-IsSound (p'.connections i).cache_index p' (drop_connection-IsSound i false p h)

  look-IsSound :
      (i : ℕ) (io : Io) (j : ℕ) (p : Pool) (rest : Run Turn)
      → IsSound most p
      → Returns (IsSoundTurn most) rest
      → Returns (IsSoundTurn most) (look i io j p rest)
  look-IsSound i io j p rest h ok = on_entry-Returns (IsSoundTurn most) p.cache j _ (λ e at.
      elim (Bool-cases (nothing_new e (p.connections i))) [
        | inr new ↦ simp new (send_chunk-IsSound i io p e h)
        | inl old ↦ simp old (no_news-IsSound e.status)
      ])
    where
      no_news-IsSound : (s : EntryStatus) → Returns (IsSoundTurn most) (no_news i p rest s)
      no_news-IsSound EntryStatus.invalid = give_up-IsSound i p h
      no_news-IsSound EntryStatus.valid = ok
      no_news-IsSound EntryStatus.downloading = ok

  await-IsSound :
      (i : ℕ) (io : Io) (j : ℕ) (wakes : List (List Entry)) (p : Pool)
      → IsSound most p
      → AllSound wakes
      → Returns (IsSoundTurn most) (await i io j wakes p)
  unfolding await
  await-IsSound i io j [] p h all = look-IsSound i io j p (done (asleep p)) h h
  await-IsSound i io j (w ∷ ws) p h all =
      let p' = record p { cache = w } in
      look-IsSound i io j p (await i io j ws p') h (await-IsSound i io j ws p' (all.0, h.1) all.1)

  respond-IsSound :
      (i : ℕ) (io : Io) (thread : ℕ) (wakes : List (List Entry)) (j : ℕ) (p : Pool) (e : Entry)
      → IsSound most p
      → AllSound wakes
      → Returns (IsSoundTurn most) (respond i io thread wakes j p e)
  respond-IsSound i io thread wakes j p e h all = elim (Bool-cases (is_invalid e.status)) [
    | inl bad ↦ simp bad (drop_connection-IsSound i false p h)
    | inr good ↦
        elim (Bool-cases (nothing_new e (p.connections i) && is_writer thread e.writer_id)) [
          | inl mine ↦ simp (good, mine) h
          | inr other ↦ elim (Bool-cases (is_valid e.status)) [
            | inl full ↦ simp (good, other, full) (send_chunk-IsSound i io p e h)
            | inr part ↦ simp (good, other, part) (await-IsSound i io j wakes p h all)
          ]
        ]
  ]

  respond_at-IsSound :
      (i : ℕ) (io : Io) (thread : ℕ) (wakes : List (List Entry)) (p : Pool) (j : Option ℕ)
      → IsSound most p
      → AllSound wakes
      → Returns (IsSoundTurn most) (respond_at i io thread wakes p j)
  respond_at-IsSound i io thread wakes p none h all = tt
  respond_at-IsSound i io thread wakes p (some j) h all =
      on_entry-Returns (IsSoundTurn most) p.cache j (respond i io thread wakes j p)
        (λ e at. respond-IsSound i io thread wakes j p e h all)

  on_responding-IsSound :
      (i : ℕ) (io : Io) (thread : ℕ) (wakes : List (List Entry)) (p : Pool)
      → IsSound most p
      → AllSound wakes
      → Returns (IsSoundTurn most) (on_responding_from_cache i io thread wakes p)
  unfolding on_responding_from_cache
  on_responding-IsSound i io thread wakes p h all = elim (Bool-cases io.client.pollout) [
    | inl ready ↦
        simp ready (respond_at-IsSound i io thread wakes p (p.connections i).cache_index h all)
    | inr quiet ↦ simp quiet h
  ]

  on_status-IsSound :
      (i : ℕ) (io : Io) (thread : ℕ) (wakes : List (List Entry)) (p : Pool) (s : Status)
      → IsSound most p
      → AllSound wakes
      → Returns (IsSoundTurn most) (on_status i io thread wakes p s)
  on_status-IsSound i io thread wakes p getting_request h all =
      went-IsSound most (on_getting_request i io thread p)
        (on_getting_request-IsSound i io thread p h)
  on_status-IsSound i io thread wakes p connecting_to_server h all =
      went-IsSound most (on_connecting_to_server i io p) (on_connecting_to_server-IsSound i io p h)
  on_status-IsSound i io thread wakes p writing_request h all =
      went-IsSound most (on_writing_request i io p) (on_writing_request-IsSound i io p h)
  on_status-IsSound i io thread wakes p forwarding_request h all =
      went-IsSound most (on_forwarding_request i io p) (on_forwarding_request-IsSound i io p h)
  on_status-IsSound i io thread wakes p forwarding_response h all =
      went-IsSound most (on_forwarding_response i io p) (on_forwarding_response-IsSound i io p h)
  on_status-IsSound i io thread wakes p responding_from_cache h all =
      on_responding-IsSound i io thread wakes p h all
  on_status-IsSound i io thread wakes p not_active h all = h
  on_status-IsSound i io thread wakes p waiting_data_on_cache h all = h

  pub turn-IsSound :
      (i : ℕ) (ins : Inputs) (thread : ℕ) (p : Pool)
      → IsSound most p
      → AllSound (ins.wakes i)
      → Returns (IsSoundTurn most) (turn i ins thread p)
  unfolding turn
  turn-IsSound i ins thread p h all =
      on_status-IsSound i (ins.io i) thread (ins.wakes i) p (p.connections i).status h all
