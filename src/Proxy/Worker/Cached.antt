-- ===== src/Proxy/Worker/Cached.antt =====
-- The case RESPONDING_FROM_CACHE of `work` in Lab31/main.c: the client gets the next bytes of an
-- entry, which another thread may still be filling.
pub mod Chunks
pub mod Pages
pub mod Rounds
pub mod Served
use os_posix.Prelude.{
  ℕ, zero, suc, ◌+◌, ◌-◌, ◌%◌, ◌^◌, Bool, true, false, ◌&&◌, ◌||◌, Option, none, some, List, [],
  ◌∷◌, leb, ◌==◌, if◌then◌else◌, length, get_elem?, take, drop,
}
use Prim.Native.Nat.{min}
use os_posix.Proxy.Memory.{Bytes, Run, done, fault, ◌>>=◌}
use os_posix.Proxy.Cache.{
  EntryStatus, downloading, valid, invalid, Entry, Block, unset, live, freed, Connection,
  waiting_data_on_cache, on_entry,
}
use os_posix.Proxy.Pool.{Pool, drop_connection}
use os_posix.Proxy.Worker.{Io, edit_connection, with_status, send}

abbrev pub chunk : ℕ
chunk = 64

-- What a turn leaves: the thread goes on, or it still sleeps in `pthread_cond_wait`.
pub data Turn : Type 0 where
  went_on : Pool → Turn
  asleep : Pool → Turn

abbrev pub go_on : Pool → Run Turn
go_on p = done (went_on p)

-- `alreadyWritten == cacheBytesWritten || allSize == 0`
abbrev pub nothing_new : Entry → Connection → Bool
nothing_new e c = e.already_written == c.cache_bytes_written || e.all_size == 0

abbrev pub is_writer : ℕ → Option ℕ → Bool
is_writer thread none = false
is_writer thread (some w) = w == thread

-- Bytes `from` to `from + n` of the entry's memory.
abbrev pub read_block : ℕ → ℕ → Block → Run Bytes
read_block from n unset = fault
read_block from n freed = fault
read_block from n (live bs) =
    if leb (from + n) (length bs) then done (take n (drop from bs)) else fault

abbrev pub end_if : ℕ → Pool → Bool → Run Turn
end_if i p true = go_on (drop_connection i false p)
end_if i p false = go_on p

abbrev pub after_send : ℕ → Entry → Pool → Option ℕ → Run Turn
after_send i e p none = go_on (drop_connection i false p)
after_send i e p (some n) =
    let p1 =
      edit_connection i (λ c. record c { cache_bytes_written = c.cache_bytes_written + n }) p in
    end_if i p1 ((p1.connections i).cache_bytes_written == e.all_size)

-- The difference is computed in `size_t`.
unfoldable pub send_chunk : ℕ → Io → Pool → Entry → Run Turn
send_chunk i io p e =
    let c = p.connections i in
    let n = min ((e.already_written + 2 ^ 64 - c.cache_bytes_written) % 2 ^ 64) chunk in
    read_block c.cache_bytes_written n e.block >>= λ bs.
    after_send i e (send io.send_result c.client_socket bs p) io.send_result

-- After the entry turned invalid in the loop the mutex of the connection that stands at `i` by
-- then is unlocked: `cache[-1]` if it has no entry.
abbrev pub unlock_at : Option ℕ → Pool → Run Turn
unlock_at none p = fault
unlock_at (some j) p = go_on p

abbrev pub give_up : ℕ → Pool → Run Turn
give_up i p = let p' = drop_connection i false p in unlock_at (p'.connections i).cache_index p'

abbrev pub is_invalid : EntryStatus → Bool
is_invalid invalid = true
is_invalid s = false

abbrev pub is_valid : EntryStatus → Bool
is_valid valid = true
is_valid s = false

abbrev pub no_news : ℕ → Pool → Run Turn → EntryStatus → Run Turn
no_news i p rest s = if is_invalid s then give_up i p else rest

-- One test of the loop's condition; `rest` is what happens after the wait.
abbrev pub look : ℕ → Io → ℕ → Pool → Run Turn → Run Turn
look i io j p rest =
    on_entry (get_elem? p.cache j) λ e.
      if nothing_new e (p.connections i) then no_news i p rest e.status else send_chunk i io p e

-- The loop around `pthread_cond_wait`: `wakes` are the caches that its returns find.
unfoldable pub await : ℕ → Io → ℕ → List (List Entry) → Pool → Run Turn
await i io j [] p = look i io j p (done (asleep p))
await i io j (w ∷ ws) p = let rest = await i io j ws (record p { cache = w }) in look i io j p rest

abbrev pub respond : ℕ → Io → ℕ → List (List Entry) → ℕ → Pool → Entry → Run Turn
respond i io thread wakes j p e =
    if is_invalid e.status
    then go_on (drop_connection i false p)
    else (if nothing_new e (p.connections i) && is_writer thread e.writer_id
        then go_on (edit_connection i (with_status waiting_data_on_cache) p)
        else (if is_valid e.status then send_chunk i io p e else await i io j wakes p))

abbrev pub respond_at : ℕ → Io → ℕ → List (List Entry) → Pool → Option ℕ → Run Turn
respond_at i io thread wakes p none = fault
respond_at i io thread wakes p (some j) =
    on_entry (get_elem? p.cache j) (respond i io thread wakes j p)

unfoldable pub on_responding_from_cache : ℕ → Io → ℕ → List (List Entry) → Pool → Run Turn
on_responding_from_cache i io thread wakes p =
    if io.client.pollout
    then respond_at i io thread wakes p (p.connections i).cache_index
    else go_on p
