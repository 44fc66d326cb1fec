-- ===== src/Proxy/Worker/Requests.antt =====
-- The cases of `work` in Lab31/main.c up to the response: the request is read, the cache searched,
-- the server connected and the request sent on.
use os_posix.Prelude.{
  ℕ, ◌+◌, true, false, not, ◌&&◌, ◌||◌, Option, none, some, [], ◌∷◌, ◌++◌, ltb, if◌then◌else◌,
  length, take, update, Bool,
}
use os_posix.Proxy.Memory.{Bytes, Run, done, fault, ◌>>=◌}
use os_posix.Proxy.Request.{is_method_get, get_url_from_data, edit_request}
use os_posix.Proxy.Response.{get_index_of_body, cut_body}
use os_posix.Proxy.Cache.{
  Connection, connecting_to_server, writing_request, forwarding_request, forwarding_response,
  free_buffer, Found, search_cache,
}
use os_posix.Proxy.Pool.{Pool, put_connection, drop_connection}
use os_posix.Proxy.Worker.{
  Io, get_server_socket, edit_connection, with_status, append_buffer, send, invalidate,
}

abbrev pub method_not_allowed : Bytes
method_not_allowed =
    b'H' ∷ b'T' ∷ b'T' ∷ b'P' ∷ b':' ∷ b' ' ∷ b'4' ∷ b'0' ∷ b'5' ∷ 13 ∷ 10 ∷ b'A' ∷ b'l' ∷ b'l'
    ∷ b'o' ∷ b'w' ∷ b':' ∷ b' ' ∷ b'G' ∷ b'E' ∷ b'T' ∷ 13 ∷ 10 ∷ []

abbrev pub wrong_method : ℕ → Io → Pool → Pool
wrong_method i io p = send io.send_result (p.connections i).client_socket method_not_allowed p

abbrev pub unresolved : Bytes
unresolved = b'H' ∷ b'T' ∷ b'T' ∷ b'P' ∷ b':' ∷ b' ' ∷ b'5' ∷ b'2' ∷ b'3' ∷ 13 ∷ 10 ∷ []

abbrev pub cannot_resolve : ℕ → Io → Pool → Pool
cannot_resolve i io p = send io.send_result (p.connections i).client_socket unresolved p

-- `editRequestToSendToServer` on the connection's buffer.
abbrev pub edit_buffer : Connection → Run Connection
edit_buffer c =
    edit_request c.buffer (length c.buffer) >>= λ out. done (record c { buffer = take out.1 out.0 })

abbrev pub with_server : ℕ → Io → Pool → Option ℕ → Run Pool
with_server i io p none = done (drop_connection i false (cannot_resolve i io p))
with_server i io p (some s) =
    let c = p.connections i in
    edit_buffer (record c { server_socket = some s }) >>= λ c'. done (put_connection i c' p)

abbrev pub after_search : ℕ → Io → Bytes → Pool → Found → Run Pool
after_search i io url p f =
    let p1 = record p { cache = f.cache; connections = update p.connections i f.connection } in
    if f.found
    then done p1
    else get_server_socket url io.network
      >>= with_server i io (edit_connection i (with_status connecting_to_server) p1)

abbrev pub serve_url : ℕ → Io → ℕ → Pool → Option Bytes → Run Pool
serve_url i io thread p none = done p
serve_url i io thread p (some url) =
    let c = p.connections i in
    is_method_get c.buffer >>= λ get.
    if not get
    then done (drop_connection i false (wrong_method i io p))
    else search_cache url c thread p.cache >>= after_search i io url p

abbrev pub read_request : ℕ → Io → ℕ → Pool → Option Bytes → Run Pool
read_request i io thread p none = done (drop_connection i false p)
read_request i io thread p (some []) = done (drop_connection i false p)
read_request i io thread p (some (b ∷ bs)) =
    let p1 = edit_connection i (append_buffer (b ∷ bs)) p in
    let buffer = (p1.connections i).buffer in
    if ltb 3 (length buffer) then get_url_from_data buffer >>= serve_url i io thread p1 else done p1

unfoldable pub on_getting_request : ℕ → Io → ℕ → Pool → Run Pool
on_getting_request i io thread p =
    if io.client.hup
    then done (drop_connection i false p)
    else (if io.client.pollin then read_request i io thread p io.received else done p)

unfoldable pub on_connecting_to_server : ℕ → Io → Pool → Run Pool
on_connecting_to_server i io p =
    if io.server.pollout then done (edit_connection i (with_status writing_request) p) else done p

-- The cache entry that is invalidated is number `i`, the connection's place in the array.
abbrev pub write_failed : ℕ → Pool → Run Pool
write_failed i p = invalidate (some i) p >>= λ p'. done (drop_connection i true p')

abbrev pub after_write : ℕ → Pool → Option ℕ → Option ℕ → Run Pool
after_write i p body none = write_failed i p
after_write i p (some k) (some n) =
    done (edit_connection i (λ c. with_status forwarding_response (free_buffer c)) p)
after_write i p none (some n) = done (edit_connection i (with_status forwarding_request) p)

-- `cutBody` does not hand its new pointer back: if `realloc` moved the buffer, the connection's
-- pointer is to freed memory, which `send` reads.
abbrev pub is_dangling : Bool → Option ℕ → Bool
is_dangling moves none = false
is_dangling moves (some k) = moves

abbrev pub cut_at : ℕ → Option ℕ → Bytes → Bytes
cut_at pad none bs = bs
cut_at pad (some k) bs = cut_body bs pad (k + 1)

abbrev pub write_request : ℕ → Io → Pool → Option ℕ → Run Pool
write_request i io p body =
    let p1 = edit_connection i (λ c. record c { buffer = cut_at io.pad body c.buffer }) p in
    let c = p1.connections i in
    if is_dangling io.moves body
    then fault
    else after_write i (send io.send_result c.server_socket c.buffer p1) body io.send_result

unfoldable pub on_writing_request : ℕ → Io → Pool → Run Pool
on_writing_request i io p =
    let buffer = (p.connections i).buffer in
    if io.server.pollout
    then get_index_of_body buffer (length buffer) >>= write_request i io p
    else done p

abbrev pub after_forward : ℕ → Pool → Option ℕ → Pool
after_forward i p none = drop_connection i true p
after_forward i p (some n) = p

-- Where the body begins the array `buf`, which is on the stack, is passed to `realloc`.
abbrev pub forward_request : ℕ → Io → Pool → Bytes → Option ℕ → Run Pool
forward_request i io p bs (some k) = fault
forward_request i io p bs none =
    let p1 = edit_connection i (append_buffer bs) p in
    let sent = send io.send_result (p1.connections i).server_socket bs p1 in
    done (after_forward i sent io.send_result)

abbrev pub read_more : ℕ → Io → Pool → Option Bytes → Run Pool
read_more i io p none = done (drop_connection i true p)
read_more i io p (some []) = done (drop_connection i true p)
read_more i io p (some (b ∷ bs)) =
    get_index_of_body ((b ∷ bs) ++ io.stale) (length (b ∷ bs)) >>= forward_request i io p (b ∷ bs)

unfoldable pub on_forwarding_request : ℕ → Io → Pool → Run Pool
on_forwarding_request i io p =
    if (io.client.rdnorm || io.client.rdband || io.client.pollin) && io.server.pollout
    then read_more i io p io.received
    else done p
