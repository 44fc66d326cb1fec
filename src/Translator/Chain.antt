-- ===== src/Translator/Chain.antt =====
-- The list of connections of Lab25 on the heap: `connection_create` and `connection_drop` of
-- connection.c, and the loop of select_loop.c before `select`.
pub mod Create
pub mod Links
pub mod Drop
pub mod Sweep
mod Tests
use os_posix.Prelude.{
  ℕ, zero, suc, ◌+◌, ◌≡◌, Bool, true, false, ◌||◌, Option, none, some, List, [], ◌∷◌, ltb, ◌==◌,
  if◌then◌else◌,
}
use os_posix.Translator.{Connection, FdSets, new_channel, is_stale, wanted}

abbrev pub Ptr : Type 0
Ptr = ℕ

abbrev pub null : Ptr
null = 0

pub record Node : Type 0 where
  pub connection : Connection
  pub next : Ptr
  pub prev : Ptr

abbrev pub node : Connection → Ptr → Ptr → Node
node c n p = record { connection = c; next = n; prev = p }

abbrev pub Heap : Type 0
Heap = Ptr → Option Node

abbrev pub write : Heap → Ptr → Option Node → Heap
write h p m a = if a == p then m else h a

abbrev pub load : Heap → Ptr → Option Node
load h p = if p == null then none else h p

abbrev pub on_node : {A : Type 0} → Option Node → (Node → Option A) → Option A
on_node none k = none
on_node (some m) k = k m

-- The heap and `*connections`; `none` is a read or write through NULL or of a freed connection.
abbrev pub Connections : Type 0
Connections = Heap × Ptr

-- `f` is what `malloc` returns; `now` is the time.
unfoldable pub connection_create : ℕ → ℕ → ℕ → Ptr → Connections → Option Connections
connection_create client backend now f (h, head) =
    let c : Connection = record {
      id = backend;
      client_fd = client;
      backend_fd = backend;
      to_backend = new_channel;
      to_client = new_channel;
      is_broken = false;
      last_update = now;
    } in
    let h' = write h f (some (node c head null)) in
    if head == null
    then some (h', f)
    else on_node (load h' head) λ m. some (write h' head (some (record m { prev = f })), f)

-- The neighbour before the dropped connection, or `*connections`, gets its `next`.
abbrev pub skip_next : Ptr → Node → Connections → Option Connections
skip_next p m (h, head) =
    if p == head
    then some (h, m.next)
    else on_node (load h m.prev)
        λ b. some (write h m.prev (some (record b { next = m.next })), head)

-- The neighbour behind it gets its `prev`, and it is freed.
abbrev pub skip_prev : Ptr → Node → Connections → Option Connections
skip_prev p m (h, head) =
    if m.next == null
    then some (write h p none, head)
    else on_node (load h m.next)
        λ a. some (write (write h m.next (some (record a { prev = m.prev }))) p none, head)

abbrev pub then_drop : Ptr → Node → Option Connections → Option Connections
then_drop p m none = none
then_drop p m (some s) = skip_prev p m s

unfoldable pub connection_drop : Ptr → Connections → Option Connections
connection_drop p s = on_node (load s.0 p) λ m. then_drop p m (skip_next p m s)

abbrev pub fd_setsize : ℕ
fd_setsize = 1024

-- What the loop leaves: it faults, ends the program for a descriptor out of range, or has asked for
-- the sockets of each connection, with the greatest descriptor.
pub data Swept : Type 0 where
  fault exits : Swept
  swept : List FdSets → ℕ → Swept

unfoldable pub update_max_fd : ℕ → ℕ → Option ℕ
update_max_fd fd max_fd =
    if ltb fd_setsize (fd + 1) then none else some (if ltb max_fd fd then fd else max_fd)

abbrev pub on_max : Option ℕ → (ℕ → Swept) → Swept
on_max none k = exits
on_max (some n) k = k n

abbrev pub ask : FdSets → Swept → Swept
ask w fault = fault
ask w exits = exits
ask w (swept ws n) = swept (w ∷ ws) n

abbrev pub on_load : Option Node → (Node → Swept) → Swept
on_load none k = fault
on_load (some m) k = k m

abbrev pub on_drop : Option Connections → (Connections → Swept) → Swept
on_drop none k = fault
on_drop (some s) k = k s

-- One turn; `k` is the loop from the next connection on, whose address is read after the turn, from
-- the heap as it is then.
abbrev pub sweep_node : (Ptr → Connections → ℕ → Swept) → ℕ → Ptr → Connections → ℕ → Node → Swept
sweep_node k now p s max_fd m =
    if is_stale now m.connection
    then on_drop (connection_drop p s) (λ s'. on_load (load s'.0 p) (λ m'. k m'.next s' max_fd))
    else on_max (update_max_fd m.connection.client_fd max_fd) λ n.
      on_max (update_max_fd m.connection.backend_fd n)
        λ n'. ask (wanted m.connection) (k m.next s n')

-- The loop from the connection at `p` on, with fuel.
unfoldable pub sweep : ℕ → ℕ → Ptr → Connections → ℕ → Swept
sweep zero now p s max_fd = fault
sweep (suc fuel) now p s max_fd =
    if p == null
    then swept [] max_fd
    else on_load (load s.0 p) λ m. sweep_node (λ q r n. sweep fuel now q r n) now p s max_fd m
