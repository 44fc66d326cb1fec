-- ===== src/Proxy/Pool.antt =====
-- The connections of one worker thread of Lab31/main.c, and what it shares with the others: the
-- cache and the number of all connections. Sockets that were closed and bytes that were sent are
-- recorded, oldest first.
pub mod Drop
use os_posix.Prelude.{
  ℕ, zero, suc, ◌-◌, Bool, true, false, Option, none, some, List, [], ◌∷◌, ◌++◌, ltb, if◌then◌else◌,
  update,
}
use os_posix.Proxy.Memory.{Bytes}
use os_posix.Proxy.Cache.{
  Entry, Connection, Status, getting_request, connecting_to_server, writing_request,
  forwarding_request, forwarding_response, responding_from_cache, not_active, waiting_data_on_cache,
}

-- `int`, which nothing here brings near its bounds.
pub data ℤ : Type 0 where
  pos : ℕ → ℤ
  negsuc : ℕ → ℤ

abbrev pub pred : ℤ → ℤ
pred (pos zero) = negsuc 0
pred (pos (suc n)) = pos n
pred (negsuc n) = negsuc (suc n)

-- `connections` is the array, of which the first `count` are in use.
pub record Pool : Type 0 where
  pub connections : ℕ → Connection
  pub count : ℕ
  pub all_connections : ℤ
  pub cache : List Entry
  pub closed : List (Option ℕ)
  pub sent : List (Option ℕ × Bytes)

abbrev pub put_connection : ℕ → Connection → Pool → Pool
put_connection i c p = record p { connections = update p.connections i c }

-- All fields but the id.
abbrev pub deactivated : Connection → Connection
deactivated c = record c {
  client_socket = none;
  server_socket = none;
  status = not_active;
  buffer = [];
  cache_index = none;
  cache_bytes_written = 0;
}

-- Called with `i` below the count only, which is not 0 then.
abbrev pub move_connection : ℕ → Pool → Pool
move_connection i p =
    let last = p.count - 1 in
    let moved = update p.connections i (p.connections last) in
    record p { connections = update moved last (deactivated (moved last)); count = last }

-- The sockets that are closed.
abbrev pub closing : Connection → Bool → List (Option ℕ)
closing c true = c.client_socket ∷ c.server_socket ∷ []
closing c false = c.client_socket ∷ []

-- The buffer is freed with the connection, which is overwritten.
unfoldable pub drop_connection : ℕ → Bool → Pool → Pool
drop_connection i server p =
    let moved = move_connection i p in
    record moved {
      closed = p.closed ++ closing (p.connections i) server;
      all_connections = pred p.all_connections;
    }

abbrev pub woken_status : Status → Status
woken_status waiting_data_on_cache = responding_from_cache
woken_status s = s

abbrev pub woken : Connection → Connection
woken c = record c { status = woken_status c.status }

unfoldable pub wake_up : Pool → Pool
wake_up p = record p {
  connections = λ i. if ltb i p.count then woken (p.connections i) else p.connections i;
}

-- `cacheBytesWritten` is left as it was. The id is random.
unfoldable pub init_new_connection : ℕ → ℕ → Connection → Connection
init_new_connection socket random c = record c {
  client_socket = some socket;
  server_socket = none;
  status = getting_request;
  buffer = [];
  cache_index = none;
  id = random;
}

-- What a thread polls for on a socket: POLLIN, POLLOUT, POLLRDNORM and POLLRDBAND; `none` for a
-- status that leaves the field as it was.
pub data Interest : Type 0 where
  nothing input output any_input : Interest

abbrev pub interests : Status → Option (Interest × Interest)
interests getting_request = some (input, nothing)
interests connecting_to_server = some (nothing, output)
interests writing_request = some (nothing, output)
interests forwarding_request = some (any_input, output)
interests forwarding_response = some (output, input)
interests responding_from_cache = some (output, nothing)
interests waiting_data_on_cache = some (nothing, nothing)
interests not_active = none

pub record PollFd : Type 0 where
  pub fd : Option ℕ
  pub events : Interest

abbrev pub poll_fds_of :
    Connection → PollFd → PollFd → Option (Interest × Interest) → PollFd × PollFd
poll_fds_of c a b none = (record a { fd = c.client_socket }, record b { fd = c.server_socket })
poll_fds_of c a b (some (x, y)) =
    (record { fd = c.client_socket; events = x }, record { fd = c.server_socket; events = y })

-- `fds` pairs the entries 2i and 2i + 1.
unfoldable pub form_poll_fds : ℕ → (ℕ → Connection) → (ℕ → PollFd × PollFd) → ℕ → PollFd × PollFd
form_poll_fds zero connections fds = fds
form_poll_fds (suc n) connections fds =
    let rest = form_poll_fds n connections fds in
    let c = connections n in update rest n (poll_fds_of c (fds n).0 (fds n).1 (interests c.status))
