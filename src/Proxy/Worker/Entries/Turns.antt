-- ===== src/Proxy/Worker/Entries/Turns.antt =====
-- Soundness of the cache under the cases of Lab31/main.c up to the response.
use os_posix.Prelude.{
  ℕ, ◌≤◌, inl, inr, true, false, ◌&&◌, ◌||◌, Option, none, some, [], ◌∷◌, ◌++◌, Bool-cases, ltb,
  length, update,
}
use os_posix.Proxy.Memory.{Bytes, Returns, Returns-bind, Returns-any}
use os_posix.Proxy.Request.{is_method_get, get_url_from_data}
use os_posix.Proxy.Response.{get_index_of_body}
use os_posix.Proxy.Cache.{Found, search_cache, connecting_to_server}
use os_posix.Proxy.Cache.Entries.{AreEntries, search_cache-AreEntries}
use os_posix.Proxy.Pool.{Pool}
use os_posix.Proxy.Worker.{Io, get_server_socket, edit_connection, with_status, append_buffer}
use os_posix.Proxy.Worker.Requests.{
  wrong_method, method_not_allowed, unresolved, cannot_resolve, edit_buffer, with_server,
  after_search, serve_url, read_request, on_getting_request, on_connecting_to_server, after_write,
  is_dangling, write_request, on_writing_request, after_forward, forward_request, read_more,
  on_forwarding_request,
}
use os_posix.Proxy.Worker.Entries.{
  IsSound, drop_connection-IsSound, send-IsSound, invalidate_drop-IsSound,
}

module _ {most : ℕ} where
  with_server-IsSound :
      (i : ℕ) (io : Io) (p : Pool) (s : Option ℕ)
      → IsSound most p
      → Returns (IsSound most) (with_server i io p s)
  with_server-IsSound i io p none h =
      drop_connection-IsSound i false (cannot_resolve i io p)
        (send-IsSound io.send_result (p.connections i).client_socket unresolved p h)
  with_server-IsSound i io p (some s) h =
      Returns-any (IsSound most) (edit_buffer (record (p.connections i) { server_socket = some s }))
        _ (λ c. h)

  after_search-IsSound :
      (i : ℕ) (io : Io) (url : Bytes) (p : Pool) (f : Found)
      → p.count ≤ most
      → AreEntries f.cache
      → Returns (IsSound most) (after_search i io url p f)
  after_search-IsSound i io url p f l h =
      let p1 = record p { cache = f.cache; connections = update p.connections i f.connection } in
      let p2 = edit_connection i (with_status connecting_to_server) p1 in
      elim (Bool-cases f.found) [
        | inl hit ↦ simp hit (h, l)
        | inr miss ↦ simp miss (
            Returns-any (IsSound most) (get_server_socket url io.network) (with_server i io p2)
              (λ s. with_server-IsSound i io p2 s (h, l)))
      ]

  serve_url-IsSound :
      (i : ℕ) (io : Io) (thread : ℕ) (p : Pool) (url : Option Bytes)
      → IsSound most p
      → Returns (IsSound most) (serve_url i io thread p url)
  serve_url-IsSound i io thread p none h = h
  serve_url-IsSound i io thread p (some url) h =
      let c = p.connections i in
      Returns-any (IsSound most) (is_method_get c.buffer) _ (λ get. elim (Bool-cases get) [
        | inl ok ↦ rw ok (
            Returns-bind (λ f. AreEntries f.cache) (IsSound most)
              (search_cache url c thread p.cache) _
              (search_cache-AreEntries url c thread p.cache h.0)
              (λ f good. after_search-IsSound i io url p f h.1 good))
        | inr other ↦ rw other (
            drop_connection-IsSound i false (wrong_method i io p)
              (send-IsSound io.send_result c.client_socket method_not_allowed p h))
      ])

  read_request-IsSound :
      (i : ℕ) (io : Io) (thread : ℕ) (p : Pool) (r : Option Bytes)
      → IsSound most p
      → Returns (IsSound most) (read_request i io thread p r)
  read_request-IsSound i io thread p none h = drop_connection-IsSound i false p h
  read_request-IsSound i io thread p (some []) h = drop_connection-IsSound i false p h
  read_request-IsSound i io thread p (some (b ∷ bs)) h =
      let p1 = edit_connection i (append_buffer (b ∷ bs)) p in
      let buffer = (p1.connections i).buffer in
      elim (Bool-cases (ltb 3 (length buffer))) [
        | inr short ↦ rw short h
        | inl long ↦ rw long (
            Returns-any (IsSound most) (get_url_from_data buffer) _
              (λ url. serve_url-IsSound i io thread p1 url h))
      ]

  pub on_getting_request-IsSound :
      (i : ℕ) (io : Io) (thread : ℕ) (p : Pool)
      → IsSound most p
      → Returns (IsSound most) (on_getting_request i io thread p)
  unfolding on_getting_request
  on_getting_request-IsSound i io thread p h = elim (Bool-cases io.client.hup) [
    | inl gone ↦ simp gone (drop_connection-IsSound i false p h)
    | inr here ↦ elim (Bool-cases io.client.pollin) [
      | inl ready ↦ simp (here, ready) (read_request-IsSound i io thread p io.received h)
      | inr quiet ↦ simp (here, quiet) h
    ]
  ]

  pub on_connecting_to_server-IsSound :
      (i : ℕ) (io : Io) (p : Pool)
      → IsSound most p
      → Returns (IsSound most) (on_connecting_to_server i io p)
  unfolding on_connecting_to_server
  on_connecting_to_server-IsSound i io p h = elim (Bool-cases io.server.pollout) [
    | inl ready ↦ simp ready h
    | inr quiet ↦ simp quiet h
  ]

  after_write-IsSound :
      (i : ℕ) (p : Pool) (body r : Option ℕ)
      → IsSound most p
      → Returns (IsSound most) (after_write i p body r)
  after_write-IsSound i p body none h = invalidate_drop-IsSound i (some i) p h
  after_write-IsSound i p (some k) (some n) h = h
  after_write-IsSound i p none (some n) h = h

  write_request-IsSound :
      (i : ℕ) (io : Io) (p : Pool) (body : Option ℕ)
      → IsSound most p
      → Returns (IsSound most) (write_request i io p body)
  write_request-IsSound i io p body h = elim (Bool-cases (is_dangling io.moves body)) [
    | inl moved ↦ simp moved tt
    | inr same ↦
        simp same
          (after_write-IsSound i _ body io.send_result (send-IsSound io.send_result _ _ _ h))
  ]

  pub on_writing_request-IsSound :
      (i : ℕ) (io : Io) (p : Pool)
      → IsSound most p
      → Returns (IsSound most) (on_writing_request i io p)
  unfolding on_writing_request
  on_writing_request-IsSound i io p h =
      let buffer = (p.connections i).buffer in
      elim (Bool-cases io.server.pollout) [
        | inr quiet ↦ simp quiet h
        | inl ready ↦ simp ready (
            Returns-any (IsSound most) (get_index_of_body buffer (length buffer)) _
              (λ body. write_request-IsSound i io p body h))
      ]

  after_forward-IsSound :
      (i : ℕ) (p : Pool) (r : Option ℕ) → IsSound most p → IsSound most (after_forward i p r)
  after_forward-IsSound i p none h = drop_connection-IsSound i true p h
  after_forward-IsSound i p (some n) h = h

  forward_request-IsSound :
      (i : ℕ) (io : Io) (p : Pool) (bs : Bytes) (body : Option ℕ)
      → IsSound most p
      → Returns (IsSound most) (forward_request i io p bs body)
  forward_request-IsSound i io p bs (some k) h = tt
  forward_request-IsSound i io p bs none h =
      after_forward-IsSound i _ io.send_result (send-IsSound io.send_result _ bs _ h)

  read_more-IsSound :
      (i : ℕ) (io : Io) (p : Pool) (r : Option Bytes)
      → IsSound most p
      → Returns (IsSound most) (read_more i io p r)
  read_more-IsSound i io p none h = drop_connection-IsSound i true p h
  read_more-IsSound i io p (some []) h = drop_connection-IsSound i true p h
  read_more-IsSound i io p (some (b ∷ bs)) h =
      Returns-any (IsSound most) (get_index_of_body ((b ∷ bs) ++ io.stale) (length (b ∷ bs))) _
        (λ body. forward_request-IsSound i io p (b ∷ bs) body h)

  pub on_forwarding_request-IsSound :
      (i : ℕ) (io : Io) (p : Pool)
      → IsSound most p
      → Returns (IsSound most) (on_forwarding_request i io p)
  unfolding on_forwarding_request
  on_forwarding_request-IsSound i io p h =
      elim (Bool-cases
        ((io.client.rdnorm || io.client.rdband || io.client.pollin) && io.server.pollout)) [
          | inl ready ↦ simp ready (read_more-IsSound i io p io.received h)
          | inr quiet ↦ simp quiet h
        ]
