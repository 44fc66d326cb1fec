-- ===== src/Proxy/Request/Rewrite.antt =====
-- The request that Lab31/main.c sends to the server.
use os_posix.Prelude.{
  ℕ, suc, ◌+◌, ◌-◌, ◌≡◌, ◌∙◌, true, some, ◌∷◌, ◌++◌, append_assoc, arith, length, length-append,
  take, drop,
}
use native.Mathlib.Nat.{add_assoc}
use os_posix.Proxy.Memory.{Bytes, done, strchr}
use os_posix.Proxy.Memory.Scans.{
  lacks, strchr-append, drop_plus, take_plus, take_all, drop-append, take-append,
}
use os_posix.Proxy.Request.{space, slash, cut_host}
use os_posix.Proxy.Request.Parse.{scheme}

-- A request line with a whole URL.
abbrev pub full_request : Bytes → Bytes → Bytes → Bytes
full_request method host rest = method ++ space ∷ (scheme ++ (host ++ slash ∷ rest))

-- The same with the path alone.
abbrev pub path_request : Bytes → Bytes → Bytes
path_request method rest = method ++ space ∷ slash ∷ rest

module _ (method host rest : Bytes) (m : lacks space method ≡ true)
    (h : lacks slash host ≡ true) where
  abbrev whole : Bytes
  whole = full_request method host rest

  length-whole : length whole ≡ length method + (9 + (length host + length rest))
  length-whole = omega (
    arith,
    length-append method (space ∷ (scheme ++ (host ++ slash ∷ rest))),
    length-append host (slash ∷ rest),
  )

  host_end : strchr (drop (length method + 8) whole) slash ≡ done (some (length host))
  host_end =
      rw (drop_plus method (space ∷ (scheme ++ (host ++ slash ∷ rest))) 8)
        (strchr-append host slash rest h)

  at_host :
      (k : ℕ)
      → drop (8 + k) (space ∷ (scheme ++ (host ++ slash ∷ rest))) ≡ drop k (host ++ slash ∷ rest)
  at_host k = let e : 8 + k ≡ suc (suc (suc (suc (suc (suc (suc (suc k))))))) = omega arith in rw e

  after_host : drop (length method + 8 + length host) whole ≡ slash ∷ rest
  after_host =
      rw
        (
          add_assoc (length method) 8 (length host),
          drop_plus method (space ∷ (scheme ++ (host ++ slash ∷ rest))) (8 + length host),
        )
        (at_host (length host) ∙ drop-append host (slash ∷ rest))

  -- The memory after the move, with what is left behind the request.
  moved : Bytes
  moved = method ++ space ∷ slash ∷ (rest ++ drop (length method + 2 + length rest) whole)

  cut_run : cut_host whole (length whole) ≡ done (moved, length method + 2 + length rest)
  unfolding cut_host moved
  cut_run =
      let e1 : length whole - (length method + 8 + length host) ≡ suc (length rest) =
        omega (arith, length-whole) in
      let e2 : length whole - (length method + 8 + length host - (length method + 1))
          ≡ length method + 2 + length rest =
        omega (arith, length-whole) in
      simp (
        strchr-append method space (scheme ++ (host ++ slash ∷ rest)) m,
        host_end,
        e1,
        e2,
        after_host,
        take_plus method (space ∷ (scheme ++ (host ++ slash ∷ rest))) 1,
        take_all rest,
        append_assoc,
      )

path_first :
    (method rest left : Bytes)
    → take (length method + 2 + length rest) (method ++ space ∷ slash ∷ (rest ++ left))
      ≡ path_request method rest
path_first method rest left =
    let size : length method + 2 + length rest ≡ length (path_request method rest) =
      omega (arith, length-append method (space ∷ slash ∷ rest)) in
    rw (size, ← append_assoc method (space ∷ slash ∷ rest) left)
      (take-append (path_request method rest) left)

-- Where no space stands in the method and no slash in the host: the `memmove` makes of a request
-- METHOD http://host/rest, alone in its buffer, the request METHOD /rest. The first `size` bytes of
-- the memory are it, and `size` is its length. The digits of the versions are changed after that.
pub cut_host_lem :
    (method host rest : Bytes)
    → lacks space method ≡ true
    → lacks slash host ≡ true
    → (out : Bytes × ℕ) × (cut_host
          (full_request method host rest)
          (length (full_request method host rest))
        ≡ done out)
      × (take out.1 out.0 ≡ path_request method rest)
      × (out.1 ≡ length (path_request method rest))
unfolding moved
cut_host_lem method host rest m h = (
  (moved method host rest m h, length method + 2 + length rest),
  cut_run method host rest m h,
  path_first method rest _,
  omega (arith, length-append method (space ∷ slash ∷ rest)),
)
