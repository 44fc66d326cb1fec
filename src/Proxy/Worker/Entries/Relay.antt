-- ===== src/Proxy/Worker/Entries/Relay.antt =====
-- Soundness of the cache under FORWARDING_RESPONSE of Lab31/main.c.
use mathlib.Core.Path.{subst}
use os_posix.Prelude.{
  ℕ, ◌+◌, ◌≡◌, ◌≢◌, inl, inr, true, ◌&&◌, Option, none, some, [], ◌∷◌, ◌++◌, arith, Bool-cases, leb,
  ◌==◌, length, length-append, get_elem?, update_self,
}
use os_posix.Proxy.Memory.{Bytes, Run, done, fault, ◌>>=◌, Returns, Returns-bind, Returns-any}
use os_posix.Proxy.Response.{
  get_response_code, get_content_length, is_response_has_payload, get_index_of_body,
}
use os_posix.Proxy.Cache.{max_cache_entry_size}
use os_posix.Proxy.Cache.Entries.{on_entry-Returns}
use os_posix.Proxy.Pool.{Pool}
use os_posix.Proxy.Worker.{Io, send, invalidate, edit_connection, append_buffer}
use os_posix.Proxy.Worker.Responses.{
  end_without_payload, has_code_200, on_header, read_header, cache_first, cache_response,
  after_relay, end_of_response, relay, on_forwarding_response, free_at, entry_at,
}
use os_posix.Proxy.Worker.Entries.{
  IsSound, invalidate_drop-IsSound, drop_connection-IsSound, send-IsSound, invalidate-IsSound,
}
use os_posix.Proxy.Worker.Entries.Fill.{
  IsFresh, same_entry, start_entry-IsSound, cache_more-IsSound,
}

append_some : (old : Bytes) (b : ℕ) (bs : Bytes) → length (old ++ b ∷ bs) ≢ 0
append_some old b bs z = omega (arith, length-append old (b ∷ bs))

free_at-IsSound :
    (most i : ℕ) (r : Run Pool)
    → Returns (IsSound most) r
    → Returns (IsSound most) (r >>= free_at i)
free_at-IsSound most i (done p) h = h
free_at-IsSound most i fault h = tt

module _ {most : ℕ} where
  end_without_payload-IsSound :
      (i : ℕ) (code : Option ℕ) (p : Pool)
      → IsSound most p
      → Returns (IsSound most) (end_without_payload i code p)
  end_without_payload-IsSound i code p h = elim (Bool-cases (is_response_has_payload code)) [
    | inl has ↦ rw has h
    | inr none_left ↦ rw none_left (drop_connection-IsSound i true p h)
  ]

  on_header-IsSound :
      (i : ℕ) (io : Io) (j k : ℕ) (code : Option ℕ) (p : Pool) (n : Option ℕ)
      → IsSound most p
      → length (p.connections i).buffer ≢ 0
      → IsFresh j p
      → Returns (IsSound most) (on_header i io (some j) k code p n)
  on_header-IsSound i io j k code p none h ne fresh =
      Returns-bind (IsSound most) (IsSound most) (invalidate (some j) p)
        (end_without_payload i code) (invalidate-IsSound (some j) p h)
        (end_without_payload-IsSound i code)
  on_header-IsSound i io j k code p (some n) h ne fresh =
      let dropped =
        free_at-IsSound most i (invalidate (some j) p) (invalidate-IsSound (some j) p h) in
      elim (Bool-cases (leb max_cache_entry_size n)) [
        | inl large ↦ rw large dropped
        | inr fits ↦ elim (Bool-cases (has_code_200 code)) [
          | inl ok ↦ rw (fits, ok) (start_entry-IsSound i io j (n + k) p h ne fresh)
          | inr other ↦ rw (fits, other) dropped
        ]
      ]

  read_header-IsSound :
      (i : ℕ) (io : Io) (j : ℕ) (p : Pool) (k : Option ℕ)
      → IsSound most p
      → length (p.connections i).buffer ≢ 0
      → IsFresh j p
      → Returns (IsSound most) (read_header i io (some j) p k)
  read_header-IsSound i io j p none h ne fresh = h
  read_header-IsSound i io j p (some k) h ne fresh =
      let buffer = (p.connections i).buffer in
      Returns-any (IsSound most) (get_response_code buffer) _ (λ code.
        Returns-any (IsSound most) (get_content_length buffer) _
          (λ n. on_header-IsSound i io j k code p n h ne fresh))

  cache_first-IsSound :
      (i : ℕ) (io : Io) (j b : ℕ) (bs : Bytes) (p : Pool)
      → IsSound most p
      → IsFresh j p
      → Returns (IsSound most) (cache_first i io (some j) (b ∷ bs) p)
  cache_first-IsSound i io j b bs p h fresh =
      let p1 = edit_connection i (append_buffer (b ∷ bs)) p in
      let buffer = (p1.connections i).buffer in
      Returns-any (IsSound most) (get_index_of_body buffer (length buffer)) _ (λ k.
        read_header-IsSound i io j p1 k h
          (rw (update_self p.connections i (append_buffer (b ∷ bs) (p.connections i)))
            (append_some (p.connections i).buffer b bs))
          fresh)

  cache_response-IsSound :
      (i : ℕ) (io : Io) (j : Option ℕ) (b : ℕ) (bs : Bytes) (p : Pool)
      → IsSound most p
      → Returns (IsSound most) (cache_response i io j (b ∷ bs) p)
  cache_response-IsSound i io none b bs p h = h
  cache_response-IsSound i io (some j) b bs p h =
      Returns-bind (λ e. get_elem? p.cache j ≡ some e) (IsSound most) (entry_at (some j) p) _
        (on_entry-Returns _ p.cache j done (λ e at. at))
        (λ e at. elim (Bool-cases (e.already_written == 0)) [
          | inl start ↦ rw start (
              cache_first-IsSound i io j b bs p h (λ e' at'.
                let zero_now : e.already_written ≡ 0 = ground arith in
                subst (λ x. x.already_written ≡ 0) (same_entry at at') zero_now))
          | inr later ↦ rw later (cache_more-IsSound i j (b ∷ bs) p h (λ x. omega arith))
        ])

  after_relay-IsSound :
      (i : ℕ) (io : Io) (b : ℕ) (bs : Bytes) (p : Pool) (r : Option ℕ)
      → IsSound most p
      → Returns (IsSound most) (after_relay i io (b ∷ bs) p r)
  after_relay-IsSound i io b bs p none h =
      invalidate_drop-IsSound i (p.connections i).cache_index p h
  after_relay-IsSound i io b bs p (some n) h =
      cache_response-IsSound i io (p.connections i).cache_index b bs p h

  end_of_response-IsSound :
      (i : ℕ) (j : Option ℕ) (p : Pool)
      → IsSound most p
      → Returns (IsSound most) (end_of_response i j p)
  end_of_response-IsSound i none p h = drop_connection-IsSound i true p h
  end_of_response-IsSound i (some j) p h = invalidate_drop-IsSound i (some j) p h

  relay-IsSound :
      (i : ℕ) (io : Io) (p : Pool) (r : Option Bytes)
      → IsSound most p
      → Returns (IsSound most) (relay i io p r)
  relay-IsSound i io p none h = drop_connection-IsSound i true p h
  relay-IsSound i io p (some []) h = end_of_response-IsSound i (p.connections i).cache_index p h
  relay-IsSound i io p (some (b ∷ bs)) h =
      let p' = send io.send_result (p.connections i).client_socket (b ∷ bs) p in
      after_relay-IsSound i io b bs p' io.send_result
        (send-IsSound io.send_result (p.connections i).client_socket (b ∷ bs) p h)

  pub on_forwarding_response-IsSound :
      (i : ℕ) (io : Io) (p : Pool)
      → IsSound most p
      → Returns (IsSound most) (on_forwarding_response i io p)
  unfolding on_forwarding_response
  on_forwarding_response-IsSound i io p h =
      elim (Bool-cases (io.client.pollout && io.server.pollin)) [
        | inl ready ↦ rw ready (relay-IsSound i io p io.received h)
        | inr out ↦ rw out h
      ]
