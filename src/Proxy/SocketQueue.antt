-- ===== src/Proxy/SocketQueue.antt =====
-- The queue of accepted sockets, Lab31/services/queue/queueService.c, and the calls of it in
-- Lab31/main.c. The chain from `head` to `tail` is a list. The mutex is the default one, so a
-- thread that locks it twice waits for itself.
pub mod Locks
use os_posix.Prelude.{
  ℕ, zero, suc, ◌+◌, ◌-◌, Bool, true, false, not, ◌&&◌, Option, none, some, List, [], ◌∷◌, ◌++◌,
  leb, ◌==◌, if◌then◌else◌,
}

-- `held` says that the calling thread holds `checkSizeMutex`.
pub record SocketQueue : Type 0 where
  pub size : ℕ
  pub sockets : List ℕ
  pub held : Bool

-- A call returns, or its thread waits for itself for ever.
pub data Call (A : Type 0) : Type 0 where
  returns : A → SocketQueue → Call A
  stuck : Call A

abbrev pub then_call : {A B : Type 0} → Call A → (A → SocketQueue → Call B) → Call B
then_call (returns a q) k = k a q
then_call stuck k = stuck

abbrev pub create_queue : SocketQueue
create_queue = record { size = 0; sockets = []; held = false }

abbrev pub lock : SocketQueue → Call Unit
lock q = if q.held then stuck else returns tt (record q { held = true })

abbrev pub unlock : SocketQueue → Call Unit
unlock q = returns tt (record q { held = false })

abbrev pub clear_queue : SocketQueue → SocketQueue
clear_queue q = record q { sockets = [] }

abbrev pub is_empty : SocketQueue → Bool
is_empty q = q.size == 0

-- The second lock is the source's; an empty queue is left locked.
abbrev pub take_socket : List ℕ → SocketQueue → Call (Option ℕ)
take_socket [] q = returns none q
take_socket (s ∷ ss) q =
    then_call (lock (record q { size = q.size - 1; sockets = ss })) λ u q'. returns (some s) q'

unfoldable pub get_socket_from_queue : SocketQueue → Call (Option ℕ)
get_socket_from_queue q =
    then_call (lock q) λ u q1. if is_empty q1 then returns none q1 else take_socket q1.sockets q1

unfoldable pub put_socket_in_queue : ℕ → SocketQueue → Call Unit
put_socket_in_queue s q =
    then_call (lock q)
      λ u q1. unlock (record q1 { size = q1.size + 1; sockets = q1.sockets ++ s ∷ [] })

-- What `main` does with an accepted socket.
unfoldable pub accept_socket : ℕ → SocketQueue → Call Unit
unfolding put_socket_in_queue
accept_socket s q =
    then_call (lock q) λ u q1. then_call (put_socket_in_queue s q1) λ u q2. unlock q2

-- The start of a turn of `work`, up to the wait: `may_take` is the comparison of the thread's
-- connections with its share.
unfoldable pub fetch_socket : Bool → SocketQueue → Call (Option ℕ)
unfolding get_socket_from_queue
fetch_socket may_take q =
    then_call (lock q)
      λ u q1. if may_take && not (is_empty q1) then get_socket_from_queue q1 else returns none q1
