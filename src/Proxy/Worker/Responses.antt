-- ===== src/Proxy/Worker/Responses.antt =====
-- The case FORWARDING_RESPONSE of `work` in Lab31/main.c: bytes of the server go to the client and
-- into the cache.
use os_posix.Prelude.{
  ℕ, ◌+◌, Bool, true, false, not, ◌&&◌, Option, none, some, [], ◌∷◌, ◌++◌, leb, ◌==◌, if◌then◌else◌,
  length, take, drop, get_elem?,
}
use os_posix.Proxy.Memory.{Bytes, Run, done, fault, ◌>>=◌}
use os_posix.Proxy.Response.{
  get_response_code, get_content_length, is_response_has_payload, get_index_of_body,
}
use os_posix.Proxy.Cache.{
  max_cache_entry_size, Entry, valid, Block, unset, live, freed, free_buffer, on_entry, modify,
}
use os_posix.Proxy.Pool.{Pool, drop_connection, wake_up}
use os_posix.Proxy.Worker.{Io, edit_connection, append_buffer, send, invalidate}

-- A change of the entry `cache[index]`; outside the array, a fault.
abbrev pub edit_entry : Option ℕ → (Entry → Run Entry) → Pool → Run Pool
edit_entry none f p = fault
edit_entry (some j) f p =
    on_entry (get_elem? p.cache j)
      λ e. f e >>= λ e'. done (record p { cache = modify p.cache j (λ x. e') })

abbrev pub entry_at : Option ℕ → Pool → Run Entry
entry_at none p = fault
entry_at (some j) p = on_entry (get_elem? p.cache j) done

-- The entry's memory is replaced by new memory of `size` bytes, and filled from its start.
abbrev pub first_fill : ℕ → Bytes → Entry → Run Entry
first_fill size bs e =
    if leb (length bs) size
    then done (record e { all_size = size; block = live bs; already_written = length bs })
    else fault

-- The `memcpy` of the bytes to the index `at` of the entry's memory, of which a start was written.
abbrev pub copy_at : ℕ → ℕ → Bytes → Block → Run Block
copy_at size at bs unset = fault
copy_at size at bs freed = fault
copy_at size at bs (live old) =
    if leb at (length old) && leb (at + length bs) size
    then done (live (take at old ++ (bs ++ drop (at + length bs) old)))
    else fault

-- `alreadyWritten` grows, and the bytes are copied to where it was.
abbrev pub fill_more : Bytes → Entry → Run Entry
fill_more bs e = copy_at e.all_size e.already_written bs e.block >>= λ b.
    done (record e { already_written = e.already_written + length bs; block = b })

abbrev pub mark_valid : Entry → Run Entry
mark_valid e = done (record e { status = valid })

-- A complete entry becomes valid, and the connection ends.
abbrev pub finish_if : ℕ → Option ℕ → Pool → Bool → Run Pool
finish_if i j p false = done p
finish_if i j p true = edit_entry j mark_valid p >>= λ p'. done (drop_connection i true p')

abbrev pub finish_entry : ℕ → Option ℕ → Pool → Run Pool
finish_entry i j p = entry_at j p >>= λ e. finish_if i j p (e.already_written == e.all_size)

-- The buffer that is freed is the one of the connection that stands at `i` by then.
abbrev pub free_at : ℕ → Pool → Run Pool
free_at i p = done (edit_connection i free_buffer p)

-- Where `malloc` returns null the connection forgets its entry, and `cache[-1]` is read.
abbrev pub start_entry : ℕ → Io → Option ℕ → ℕ → Pool → Run Pool
start_entry i io j size p =
    if io.allocates
    then (edit_entry j (first_fill size (p.connections i).buffer) p >>= λ p1.
        finish_entry i j (wake_up p1) >>= free_at i)
    else fault

abbrev pub end_without_payload : ℕ → Option ℕ → Pool → Run Pool
end_without_payload i code p =
    if not (is_response_has_payload code) then done (drop_connection i true p) else done p

abbrev pub has_code_200 : Option ℕ → Bool
has_code_200 none = false
has_code_200 (some code) = code == 200

-- The body begins at `k`; the announced length is the last argument.
abbrev pub on_header : ℕ → Io → Option ℕ → ℕ → Option ℕ → Pool → Option ℕ → Run Pool
on_header i io j k code p none = invalidate j p >>= end_without_payload i code
on_header i io j k code p (some n) =
    if leb max_cache_entry_size n
    then invalidate j p >>= free_at i
    else (if has_code_200 code then start_entry i io j (n + k) p else invalidate j p >>= free_at i)

abbrev pub read_header : ℕ → Io → Option ℕ → Pool → Option ℕ → Run Pool
read_header i io j p none = done p
read_header i io j p (some k) =
    let buffer = (p.connections i).buffer in
    get_response_code buffer >>= λ code. get_content_length buffer >>= on_header i io j k code p

-- The header is looked for in what the connection has buffered.
abbrev pub cache_first : ℕ → Io → Option ℕ → Bytes → Pool → Run Pool
cache_first i io j bs p =
    let p1 = edit_connection i (append_buffer bs) p in
    let buffer = (p1.connections i).buffer in
    get_index_of_body buffer (length buffer) >>= read_header i io j p1

abbrev pub cache_more : ℕ → Option ℕ → Bytes → Pool → Run Pool
cache_more i j bs p = edit_entry j (fill_more bs) p >>= λ p1. finish_entry i j (wake_up p1)

abbrev pub cache_response : ℕ → Io → Option ℕ → Bytes → Pool → Run Pool
cache_response i io none bs p = done p
cache_response i io (some j) bs p = entry_at (some j) p >>= λ e.
    if e.already_written == 0 then cache_first i io (some j) bs p else cache_more i (some j) bs p

abbrev pub after_relay : ℕ → Io → Bytes → Pool → Option ℕ → Run Pool
after_relay i io bs p none =
    invalidate (p.connections i).cache_index p >>= λ p'. done (drop_connection i true p')
after_relay i io bs p (some n) = cache_response i io (p.connections i).cache_index bs p

-- The server is done.
abbrev pub end_of_response : ℕ → Option ℕ → Pool → Run Pool
end_of_response i none p = done (drop_connection i true p)
end_of_response i (some j) p = invalidate (some j) p >>= λ p'. done (drop_connection i true p')

abbrev pub relay : ℕ → Io → Pool → Option Bytes → Run Pool
relay i io p none = done (drop_connection i true p)
relay i io p (some []) = end_of_response i (p.connections i).cache_index p
relay i io p (some (b ∷ bs)) =
    after_relay i io (b ∷ bs) (send io.send_result (p.connections i).client_socket (b ∷ bs) p)
      io.send_result

unfoldable pub on_forwarding_response : ℕ → Io → Pool → Run Pool
on_forwarding_response i io p =
    if io.client.pollout && io.server.pollin then relay i io p io.received else done p
