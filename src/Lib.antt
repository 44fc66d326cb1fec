-- ===== src/Lib.antt =====
-- Models of the programs of this repository, a course on POSIX threads: each LabN holds a C
-- program or several, and they share no code. Threads meet in mutexes, semaphores and condition
-- variables.
--
-- Prelude: Boolean tests, lists measured by native numbers, families indexed by a number.
--
-- Philosophers: Lab9. Monitor is smartPhilo.c (`test`, `get_forks`, `down_forks` under one mutex),
-- Waiter is main.c (forks as mutexes, taken under `lForks`), Naive is din_phil.c (right fork
-- first), Food is `food_on_table` of main.c. Trylock is Lab21/main.c, where a philosopher waits on a
-- condition variable with its left fork as the mutex. The threads are a step relation `Step` over states
-- that record where each thread is; `Reach` is what they reach from `start`. Each lock, unlock
-- and critical section is a step, in any order.
--
-- MessageQueue: Cells is a heap of messages and the doubly linked chains in it, Spec a bounded
-- queue of texts. Broadcast is Lab24/main.c: `mymsgput`, `mymsgget`, `mymsqdrop` as critical
-- sections on the heap (Chains, Refine), any number of producers and consumers over them (Threads,
-- Delivery). Counting is Lab23/main.c: the same list under three semaphores; the threads are
-- counted by where they are between the semaphores (Sections, Balance). Signal is
-- Lab23-24/cond_implementation/message_queue.c with the threads of Lab23-24/main.c, where a signal
-- wakes one of them (Threads); Posting is Lab23-24/sem_implementation/message_queue.c with each step
-- of its drop. Destroy is `mymsgdestroy`.
--
-- Proxy: Lab31/main.c, a caching HTTP proxy. Memory has `strchr`, `strstr` and the monad `Run`, in
-- which a read or write outside of an allocation, a second `free` and a write through NULL are a
-- fault. Request and Response are the functions on messages, from `isMethodGet` to `cutBody`.
-- Cache is the array `cache` with `searchCache` and `makeCacheInvalid`, Pool the connections of a
-- thread with `moveConnection`, `dropConnection`, `wakeUp` and `formPollFds`. Worker is the switch
-- of `work`: Requests, Responses and Cached hold its cases by the status of the connection, Rounds
-- the loop over the connections. The answers of `recv`, `send`, the resolver and `malloc` are
-- arguments, and so are the caches that a thread finds at a turn or when it wakes. SocketQueue is
-- Lab31/services/queue/queueService.c with the mutex that its calls take.
--
-- SortedList: Lab16/main.c, the list of strings and its sort; Locked is Lab17/main.c, with a mutex
-- in every node. Semaphores: Alternation is Lab13/main.c, Assembly is Lab22/main.c, Condition is
-- Lab12/main.c, Mutexes is Lab10/main.c. Sums: Lab7/main.c, and with Interrupted Lab8/main.c, as
-- the lists of the terms that each thread adds. Translator: Lab25/select_loop.c and
-- Lab25/connection.c, the buffers of a connection between a client and a backend, and in Chain the
-- list of connections on the heap. Copy: Lab6/main.c, the paths, the loop that writes a block, and
-- in Files `copyFile`.
--
-- Numbers: counters that stay small are numbers without bounds; where a `size_t` wraps round, the
-- `% 2 ^ 64` is written out (`getIndexOfBody`, the rest of a cached page), and -1 as a socket, an
-- index or a result is `none`. The `int` counter of Lab8 overflows, and its count and the offset
-- of `getIndexOfBody` are narrowed to an `int`, as the source has it.
--
-- Loops: over a list or a count they are structural. Where they are not, there is fuel, and a
-- theorem says how much is enough: one more than the connections for a round of `work`, the
-- number of messages for `mymsgdestroy`, one more than the connections for the loop before `select`,
-- the number of iterations for Lab7, `max_iter` for the second loop of Lab8, the length of the list
-- for the sorts. The results of `read` and `write` in Lab6 are a list, which may run out.
--
-- Not modelled: Lab1 to Lab5 and Lab11 (single threads that print), the additions of doubles
-- in Lab7 and Lab8; threads that fail to start, sockets as such, the accept loop, signals and
-- alarms; files that CMake generates. A return of `pthread_cond_wait` without a signal is a step
-- that can be allowed in Lab12, Lab21 and smartPhilo.c, is covered by the calls made again in Lab24,
-- and is no step in Lab23-24. Other threads change the cache of Lab31 between the turns of a worker
-- and in its wait, not within a turn.
pub mod Prelude
pub mod Philosophers
pub mod MessageQueue
pub mod Proxy
pub mod Semaphores
pub mod SortedList
pub mod Translator
pub mod Copy
pub mod Sums
