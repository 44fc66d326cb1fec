-- ===== src/Proxy/SocketQueue/Locks.antt =====
-- Which calls of the queue of Lab31 return.
use os_posix.Prelude.{
  ℕ, suc, ◌≡◌, refl, sym, ap, Bool, true, false, none, List, [], ◌∷◌, ◌++◌, arith, ◌==◌, length,
  length-append,
}
use os_posix.Proxy.SocketQueue.{
  SocketQueue, returns, stuck, get_socket_from_queue, put_socket_in_queue, accept_socket,
  fetch_socket,
}

-- A queue of these sockets.
abbrev pub queue_of : List ℕ → Bool → SocketQueue
queue_of ss held = record { size = length ss; sockets = ss; held = held }

-- Called without the lock, `putSocketInQueue` returns, the queue is unlocked and the socket is
-- its last; called by `main`, which holds the lock, it never returns.
pub put_socket_lem :
    (s : ℕ) (ss : List ℕ)
    → (put_socket_in_queue s (queue_of ss false) ≡ returns tt (queue_of (ss ++ s ∷ []) false))
      × (accept_socket s (queue_of ss false) ≡ stuck)
unfolding put_socket_in_queue accept_socket
put_socket_lem s ss = (
  ap (λ n. returns tt (record { size = n; sockets = ss ++ s ∷ []; held = false }))
      (sym (length-append ss (s ∷ []))),
  refl,
)

-- Called without the lock, `getSocketFromQueue` leaves an empty queue locked, and never returns
-- from one that is not empty; nor does a worker get a socket of such a queue. A worker that wants
-- none, or finds the queue empty, goes on.
pub get_socket_lem :
    (s : ℕ) (ss : List ℕ)
    → (get_socket_from_queue (queue_of [] false) ≡ returns none (queue_of [] true))
      × (get_socket_from_queue (queue_of (s ∷ ss) false) ≡ stuck)
      × (fetch_socket true (queue_of (s ∷ ss) false) ≡ stuck)
      × (fetch_socket false (queue_of (s ∷ ss) false) ≡ returns none (queue_of (s ∷ ss) true))
      × (fetch_socket true (queue_of [] false) ≡ returns none (queue_of [] true))
unfolding get_socket_from_queue fetch_socket
get_socket_lem s ss =
    let some_left : (suc (length ss) == 0) ≡ false = ground arith in
    (refl, rw some_left refl, rw some_left refl, refl, refl)
