-- ===== src/Proxy/Worker/Cached/Chunks.antt =====
-- What RESPONDING_FROM_CACHE of Lab31/main.c sends in one turn.
use os_posix.Prelude.{
  ℕ, zero, suc, ◌+◌, ◌-◌, ◌%◌, ◌^◌, ◌≤◌, ◌<◌, ◌≡◌, refl, ap, true, false, [], ◌∷◌, arith, leb,
  length, length-drop, take, drop,
}
use Prim.Native.Nat.{min}
use os_posix.Proxy.Memory.{Bytes, done, fault}
use os_posix.Proxy.Cache.{Entry, live}
use os_posix.Proxy.Pool.{Pool}
use os_posix.Proxy.Worker.{Io, send}
use os_posix.Proxy.Worker.Cached.{chunk, read_block, after_send, send_chunk}

take-min : (n : ℕ) (bs : Bytes) → take (min (length bs) n) bs ≡ take n bs
take-min zero [] = refl
take-min (suc n) [] = let e : min 0 (suc n) ≡ 0 = omega arith in rw e refl
take-min zero (b ∷ bs) = let e : min (suc (length bs)) 0 ≡ 0 = omega arith in rw e refl
take-min (suc n) (b ∷ bs) =
    let e : min (suc (length bs)) (suc n) ≡ suc (min (length bs) n) = omega arith in
    rw e (ap (λ cs. b ∷ cs) (take-min n bs))

-- How many bytes are asked for, in `size_t`.
abbrev asked : ℕ → ℕ → ℕ
asked w k = min ((w + 2 ^ 64 - k) % 2 ^ 64) chunk

read-next :
    (bs : Bytes) (k : ℕ)
    → length bs < 2 ^ 64
    → k ≤ length bs
    → read_block k (asked (length bs) k) (live bs) ≡ done (take chunk (drop k bs))
read-next bs k small below =
    let n : asked (length bs) k ≡ min (length (drop k bs)) chunk =
      omega (arith, length-drop k bs) in
    let inside : leb (k + min (length (drop k bs)) chunk) (length bs) ≡ true =
      ground (arith, length-drop k bs) in
    rw n (rw inside (ap done (take-min chunk (drop k bs))))

read-over :
    (bs : Bytes) (w k : ℕ)
    → w ≡ length bs
    → length bs < k
    → k < 2 ^ 64
    → read_block k (asked w k) (live bs) ≡ fault
read-over bs w k e over small =
    let outside : leb (k + asked w k) (length bs) ≡ false = ground arith in rw outside refl

module _ (i : ℕ) (io : Io) (p : Pool) (e : Entry) (bs : Bytes) where
  -- Of an entry whose memory holds what it counts, the next 64 bytes are handed to `send`, or
  -- what is left, if no more was sent than it counts.
  pub send_chunk-slice :
      e.block ≡ live bs
      → e.already_written ≡ length bs
      → length bs < 2 ^ 64
      → (p.connections i).cache_bytes_written ≤ length bs
      → send_chunk i io p e
        ≡ after_send i e
            (send io.send_result
              (p.connections i).client_socket
              (take chunk (drop (p.connections i).cache_bytes_written bs))
              p)
            io.send_result
  unfolding send_chunk
  send_chunk-slice is count small below =
      let k = (p.connections i).cache_bytes_written in
      rw (is, count, read-next bs k small below) refl

  -- If more was sent than the entry counts now, which happens when it is downloaded anew, memory
  -- past its end is read.
  pub restarted_overrun :
      e.block ≡ live bs
      → e.already_written ≡ length bs
      → length bs < (p.connections i).cache_bytes_written
      → (p.connections i).cache_bytes_written < 2 ^ 64
      → send_chunk i io p e ≡ fault
  unfolding send_chunk
  restarted_overrun is count over small =
      rw (is, read-over bs e.already_written (p.connections i).cache_bytes_written count over small)
        refl
