-- ===== src/Proxy/Worker/Cached/Served.antt =====
-- One turn RESPONDING_FROM_CACHE of Lab31/main.c for a connection whose entry is complete.
use os_posix.Prelude.{
  ℕ, ◌+◌, ◌^◌, ◌≤◌, ◌<◌, ◌≡◌, refl, ◌∙◌, true, false, Option, some, List, [], ◌∷◌, ◌++◌, arith,
  get_elem?, length, take, drop, ◌==◌,
}
use os_posix.Proxy.Memory.{Bytes, Run, done, ◌>>=◌}
use os_posix.Proxy.Cache.{Entry, live, valid}
use os_posix.Proxy.Pool.{Pool, drop_connection}
use os_posix.Proxy.Worker.{Io, send, edit_connection}
use os_posix.Proxy.Worker.Cached.{
  chunk, Turn, went_on, asleep, nothing_new, send_chunk, after_send, on_responding_from_cache,
}
use os_posix.Proxy.Worker.Cached.Chunks.{send_chunk-slice}

abbrev pub left_by : Turn → Pool
left_by (went_on p) = p
left_by (asleep p) = p

-- The turns of connection `i` for what each meets.
unfoldable pub respond_all : ℕ → ℕ → List Io → Pool → Run Pool
respond_all i thread [] p = done p
respond_all i thread (io ∷ ios) p =
    on_responding_from_cache i io thread [] p >>= λ t. respond_all i thread ios (left_by t)

-- Turns in which the client is writable and `send` takes some of the bytes: `k` were sent before
-- them, and `m` after them.
pub data Takes (bs : Bytes) (m : ℕ) : ℕ → List Io → Type 0 where
  all_sent : {k : ℕ} → k ≡ m → Takes bs m k []
  takes :
      {k : ℕ} {ios : List Io} (io : Io) (n : ℕ)
      → io.client.pollout ≡ true
      → io.send_result ≡ some n
      → n ≤ chunk
      → k + n ≤ length bs
      → k < length bs
      → Takes bs m (k + n) ios
      → Takes bs m k (io ∷ ios)

abbrev pub bytes_of : List (Option ℕ × Bytes) → Bytes
bytes_of [] = []
bytes_of ((s, bs) ∷ l) = bs ++ bytes_of l

abbrev pub AllTo : Option ℕ → List (Option ℕ × Bytes) → Type 0
AllTo socket [] = Unit
AllTo socket ((s, bs) ∷ l) = (s ≡ socket) × AllTo socket l

-- Connection `i` has an entry of the cache that is complete, and `k` of its bytes were sent.
pub record IsServing (i j : ℕ) (e : Entry) (socket : Option ℕ) (k : ℕ) (p : Pool) : Type 0 where
  pub index : (p.connections i).cache_index ≡ some j
  pub written : (p.connections i).cache_bytes_written ≡ k
  pub client : (p.connections i).client_socket ≡ socket
  pub cached : get_elem? p.cache j ≡ some e

pub record IsComplete (e : Entry) (bs : Bytes) : Type 0 where
  pub status : e.status ≡ valid
  pub block : e.block ≡ live bs
  pub count : e.already_written ≡ length bs
  pub all : e.all_size ≡ length bs
  pub small : length bs < 2 ^ 64

module _ (i j thread : ℕ) (e : Entry) (bs : Bytes) (socket : Option ℕ) (c : IsComplete e bs) where
  some_left :
      (k : ℕ) (p : Pool)
      → IsServing i j e socket k p
      → k < length bs
      → nothing_new e (p.connections i) ≡ false
  some_left k p v more = ground (arith, v.written, c.count, c.all)

  pub responds :
      (k : ℕ) (wakes : List (List Entry)) (io : Io) (p : Pool)
      → IsServing i j e socket k p
      → io.client.pollout ≡ true
      → k < length bs
      → on_responding_from_cache i io thread wakes p ≡ send_chunk i io p e
  unfolding on_responding_from_cache
  responds k wakes io p v ready more =
      simp (ready, v.index, v.cached, c.status, some_left k p v more)

  -- The pool after `n` bytes were taken.
  abbrev pub taken : ℕ → ℕ → Pool → Pool
  taken k n p =
      edit_connection i (λ d. record d { cache_bytes_written = d.cache_bytes_written + n })
        (send (some n) (p.connections i).client_socket (take chunk (drop k bs)) p)

  sends :
      (k n : ℕ) (io : Io) (p : Pool)
      → IsServing i j e socket k p
      → io.send_result ≡ some n
      → k < length bs
      → send_chunk i io p e
        ≡ after_send i e
            (send (some n) (p.connections i).client_socket (take chunk (drop k bs)) p)
            (some n)
  sends k n io p v result more =
      send_chunk-slice i io p e bs c.block c.count c.small (omega (arith, v.written))
      ∙ rw (result, v.written) refl

  written-taken :
      (k n : ℕ) (p : Pool)
      → ((taken k n p).connections i).cache_bytes_written
        ≡ (p.connections i).cache_bytes_written + n
  written-taken k n p = ground arith

  pub goes_on :
      (k n : ℕ) (io : Io) (p : Pool)
      → IsServing i j e socket k p
      → io.client.pollout ≡ true
      → io.send_result ≡ some n
      → k < length bs
      → k + n < length bs
      → on_responding_from_cache i io thread [] p ≡ done (went_on (taken k n p))
  goes_on k n io p v ready result more less =
      let unfinished : (((taken k n p).connections i).cache_bytes_written == e.all_size) ≡ false =
        ground (arith, written-taken k n p, v.written, c.all) in
      responds k [] io p v ready more ∙ sends k n io p v result more ∙ simp unfinished

  pub ends :
      (k n : ℕ) (io : Io) (p : Pool)
      → IsServing i j e socket k p
      → io.client.pollout ≡ true
      → io.send_result ≡ some n
      → k < length bs
      → k + n ≡ length bs
      → on_responding_from_cache i io thread [] p
        ≡ done (went_on (drop_connection i false (taken k n p)))
  ends k n io p v ready result more all =
      let finished : (((taken k n p).connections i).cache_bytes_written == e.all_size) ≡ true =
        ground (arith, written-taken k n p, v.written, c.all) in
      responds k [] io p v ready more ∙ sends k n io p v result more ∙ simp finished

  pub taken-IsServing :
      (k n : ℕ) (p : Pool)
      → IsServing i j e socket k p
      → IsServing i j e socket (k + n) (taken k n p)
  taken-IsServing k n p v = record {
    index = ground (arith, v.index);
    written = ground (arith, v.written);
    client = ground (arith, v.client);
    cached = v.cached;
  }
