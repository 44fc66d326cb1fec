-- ===== src/Proxy/Request/Parse.antt =====
-- What the parser of Lab31/main.c finds in a request.
use os_posix.Prelude.{
  ℕ, suc, ◌+◌, ◌≡◌, refl, true, some, [], ◌∷◌, ◌++◌, append_assoc, arith, length, drop,
}
use native.Mathlib.Numerals.{add-one}
use os_posix.Proxy.Memory.{Bytes, done, fault}
use os_posix.Proxy.Memory.Scans.{lacks, strchr-append, strchr-fault, strchr-null, take-append}
use os_posix.Proxy.Request.{space, slash, get_url_from_data, get_host_from_url}

drop-suc : (xs : Bytes) (c : ℕ) (ys : Bytes) → drop (suc (length xs)) (xs ++ c ∷ ys) ≡ ys
drop-suc [] c ys = refl
drop-suc (x ∷ xs) c ys = drop-suc xs c ys

drop_past : (xs : Bytes) (c : ℕ) (ys : Bytes) → drop (length xs + 1) (xs ++ c ∷ ys) ≡ ys
drop_past xs c ys = rw add-one (drop-suc xs c ys)

-- The URL of a request line is what stands between the method and the protocol, whatever follows.
pub url_of_request :
    (method url rest : Bytes)
    → lacks space method ≡ true
    → lacks space url ≡ true
    → get_url_from_data (method ++ space ∷ (url ++ space ∷ rest)) ≡ done (some url)
unfolding get_url_from_data
url_of_request method url rest m u = simp (
  strchr-append method space (url ++ space ∷ rest) m,
  drop_past method space (url ++ space ∷ rest),
  strchr-append url space rest u,
  take-append url (space ∷ rest),
)

-- The buffer is not terminated, so a request of which no second space has arrived is read past
-- its end.
pub partial_request_overrun :
    (method url : Bytes)
    → lacks space method ≡ true
    → lacks space url ≡ true
    → (get_url_from_data method ≡ fault) × (get_url_from_data (method ++ space ∷ url) ≡ fault)
unfolding get_url_from_data
partial_request_overrun method url m u = (
  rw (strchr-fault method space m),
  rw (strchr-append method space url m, drop_past method space url, strchr-fault url space u),
)

abbrev pub scheme : Bytes
scheme = b'h' ∷ b't' ∷ b't' ∷ b'p' ∷ b':' ∷ b'/' ∷ b'/' ∷ []

-- The host of `http://host/path` is found; a URL with no slash behind the host is a fault.
pub host_of_url :
    (host path : Bytes)
    → lacks slash host ≡ true
    → (get_host_from_url (scheme ++ host ++ slash ∷ path) ≡ done host)
      × (get_host_from_url (scheme ++ host) ≡ fault)
unfolding get_host_from_url
host_of_url host path h = (
  simp (
    append_assoc host (slash ∷ path) (0 ∷ []),
    strchr-append host slash (path ++ 0 ∷ []) h,
    take-append host (slash ∷ (path ++ 0 ∷ [])),
  ),
  rw (strchr-null host slash [] (λ e. omega arith) h),
)
