-- ===== src/Translator.antt =====
-- Lab25: connections that pass bytes between a client and a backend, select_loop.c and
-- connection.c. A direction has one buffer, which is filled by one `recv` and emptied by one
-- `send`. What was received and what `send` took are recorded, oldest first.
pub mod Chain
pub mod Order
mod Tests
use os_posix.Prelude.{
  ℕ, zero, suc, ◌-◌, Bool, true, false, not, ◌||◌, Option, none, some, List, [], ◌∷◌, ◌++◌, ltb,
  ◌==◌, if◌then◌else◌, length, take,
}
use os_posix.Proxy.Memory.{Bytes, Run, done, fault, ◌>>=◌}

-- The first bytes of the buffer, as many as the count says; `wrapped` is the count that the result
-- -1 of `recv` leaves in a `size_t`, more than the buffer holds.
pub data Pending : Type 0 where
  holds : Bytes → Pending
  wrapped : Pending

pub record Channel : Type 0 where
  pub pending : Pending
  pub received : Bytes
  pub forwarded : Bytes

pub record Connection : Type 0 where
  pub id : ℕ
  pub client_fd : ℕ
  pub backend_fd : ℕ
  pub to_backend : Channel
  pub to_client : Channel
  pub is_broken : Bool
  pub last_update : ℕ

abbrev no_update_limit_sec : ℕ
no_update_limit_sec = 4

abbrev pub new_channel : Channel
new_channel = record { pending = holds []; received = []; forwarded = [] }

-- The connections, the newest first.
unfoldable pub connection_create : ℕ → ℕ → ℕ → List Connection → List Connection
connection_create client backend now connections =
    record {
      id = backend;
      client_fd = client;
      backend_fd = backend;
      to_backend = new_channel;
      to_client = new_channel;
      is_broken = false;
      last_update = now;
    }
    ∷ connections

-- Is the connection dropped before `select`?
unfoldable pub is_stale : ℕ → Connection → Bool
is_stale now c = c.is_broken || ltb no_update_limit_sec (now - c.last_update)

abbrev pub has_bytes : Pending → Bool
has_bytes (holds bs) = not (length bs == 0)
has_bytes wrapped = true

-- Which sockets of a connection are in a set.
pub record FdSets : Type 0 where
  pub client_read : Bool
  pub backend_write : Bool
  pub backend_read : Bool
  pub client_write : Bool

-- What is asked of `select`.
unfoldable pub wanted : Connection → FdSets
wanted c = record {
  client_read = not (has_bytes c.to_backend.pending);
  backend_write = has_bytes c.to_backend.pending;
  backend_read = not (has_bytes c.to_client.pending);
  client_write = has_bytes c.to_client.pending;
}

-- The results of the calls of a turn, `none` for -1, and the time.
pub record Io : Type 0 where
  pub from_client : Option Bytes
  pub to_backend : Option ℕ
  pub from_backend : Option Bytes
  pub to_client : Option ℕ
  pub now : ℕ

abbrev pub receive : Option Bytes → Channel → Channel
receive none ch = record ch { pending = wrapped }
receive (some bs) ch = record ch { pending = holds bs; received = ch.received ++ bs }

abbrev pub forward_bytes : Pending → Option ℕ → Channel → Run (Option Channel)
forward_bytes wrapped r ch = fault
forward_bytes (holds bs) none ch = done none
forward_bytes (holds bs) (some n) ch =
    done (some (record ch { pending = holds []; forwarded = ch.forwarded ++ take n bs }))

-- `send` of all that is pending; `none` if it fails.
abbrev pub forward : Option ℕ → Channel → Run (Option Channel)
forward r ch = forward_bytes ch.pending r ch

abbrev pub receive_if : Bool → Option Bytes → Channel → Channel
receive_if false r ch = ch
receive_if true r ch = receive r ch

abbrev pub forward_if : Bool → Option ℕ → Channel → Run (Option Channel)
forward_if false r ch = done (some ch)
forward_if true r ch = forward r ch

abbrev pub received_some : Bool → Option Bytes → Bool
received_some false r = false
received_some true none = true
received_some true (some bs) = not (length bs == 0)

-- A failed `send` marks the connection and ends its turn.
abbrev pub or_break : Connection → Option Channel → (Channel → Run Connection) → Run Connection
or_break c none k = done (record c { is_broken = true })
or_break c (some ch) k = k ch

abbrev pub touch : Bool → ℕ → Connection → Connection
touch false now c = c
touch true now c = record c { last_update = now }

abbrev pub back_turn : FdSets → Io → Bool → Connection → Run Connection
back_turn ready io updated c =
    let filled = receive_if ready.backend_read io.from_backend c.to_client in
    forward_if ready.client_write io.to_client filled >>= λ r.
    or_break (record c { to_client = filled }) r
      λ ch. done (
        touch (updated || received_some ready.backend_read io.from_backend || ready.client_write)
          io.now (record c { to_client = ch }))

-- What the loop after `select` does for a connection.
unfoldable pub turn : FdSets → Io → Connection → Run Connection
turn ready io c =
    let filled = receive_if ready.client_read io.from_client c.to_backend in
    forward_if ready.backend_write io.to_backend filled >>= λ r.
    or_break (record c { to_backend = filled }) r
      λ ch.
        back_turn ready io (received_some ready.client_read io.from_client || ready.backend_write)
          (record c { to_backend = ch })
