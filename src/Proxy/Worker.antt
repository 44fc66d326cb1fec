-- ===== src/Proxy/Worker.antt =====
-- One turn of a worker thread of Lab31/main.c, the function `work`: what the sockets, the
-- resolver and the allocator answer is an argument, so each case of the switch is a function.
pub mod Requests
pub mod Responses
pub mod Cached
pub mod Entries
pub mod Rounds
use os_posix.Prelude.{
  ℕ, zero, suc, ◌+◌, ◌-◌, Bool, true, false, not, ◌&&◌, ◌||◌, Option, none, some, List, [], ◌∷◌,
  ◌++◌, ltb, leb, ◌==◌, if◌then◌else◌, length, take, drop, update,
}
use os_posix.Proxy.Memory.{Bytes, Run, done, fault, ◌>>=◌}
use os_posix.Proxy.Request.{get_host_from_url}
use os_posix.Proxy.Cache.{
  Entry, Connection, Status, Block, unset, live, freed, modify, make_cache_invalid,
}
use os_posix.Proxy.Pool.{Pool, put_connection, wake_up}

-- `revents` of a socket.
pub record Revents : Type 0 where
  pub hup : Bool
  pub pollin : Bool
  pub rdnorm : Bool
  pub rdband : Bool
  pub pollout : Bool

-- What the resolver and the calls on the new socket answer.
pub record Network : Type 0 where
  pub has_host : Bytes → Bool
  pub socket : Option ℕ
  pub set_reuse : Bool
  pub connects : Bool

-- What a turn meets. `received` is what `recv` stores, `none` for -1; `send_result` is what `send`
-- returns, `none` for -1; `stale` is what the thread's buffer holds behind the received bytes;
-- `pad` is what the allocator's memory holds; `allocates` is false if `malloc` returns null;
-- `moves` is true if `realloc` returns another address.
pub record Io : Type 0 where
  pub client : Revents
  pub server : Revents
  pub received : Option Bytes
  pub stale : Bytes
  pub send_result : Option ℕ
  pub network : Network
  pub pad : ℕ
  pub allocates : Bool
  pub moves : Bool

-- `getServerSocket`: `none` is -1. `setsockopt` fails on the socket -1.
unfoldable pub get_server_socket : Bytes → Network → Run (Option ℕ)
get_server_socket url net = get_host_from_url url >>= λ host.
    done (if net.has_host host && net.set_reuse && net.connects then net.socket else none)

abbrev pub edit_connection : ℕ → (Connection → Connection) → Pool → Pool
edit_connection i f p = put_connection i (f (p.connections i)) p

abbrev pub with_status : Status → Connection → Connection
with_status s c = record c { status = s }

-- `allocateMemory` and the `memcpy` after it. Memory that runs out ends the program.
abbrev pub append_buffer : Bytes → Connection → Connection
append_buffer bs c = record c { buffer = c.buffer ++ bs }

-- `send` of some bytes, with its result: the bytes that it took are recorded.
abbrev pub send : Option ℕ → Option ℕ → Bytes → Pool → Pool
send none socket bs p = p
send (some n) socket bs p = record p { sent = p.sent ++ (socket, take n bs) ∷ [] }

-- `makeCacheInvalid` and `wakeUp`, which the source always calls together.
abbrev pub invalidate : Option ℕ → Pool → Run Pool
invalidate j p =
    make_cache_invalid j p.cache >>= λ cache. done (wake_up (record p { cache = cache }))
