-- ===== src/Proxy/Request.antt =====
-- Requests in Lab31/main.c: is it a GET, its URL, the host, and the request as it is sent on.
pub mod Parse
pub mod Rewrite
use os_posix.Prelude.{
  ℕ, zero, suc, ◌+◌, ◌-◌, Bool, true, false, ◌&&◌, Option, none, some, List, [], ◌∷◌, ◌++◌, ◌==◌,
  if◌then◌else◌, length, take, drop, set,
}
use os_posix.Proxy.Memory.{Bytes, Run, done, fault, ◌>>=◌, strchr, byte, strstr}

abbrev pub space : ℕ
space = b' '

abbrev pub slash : ℕ
slash = b'/'

-- A test of a byte that is made only if the ones before it held.
abbrev pub and_byte : Run Bool → Bytes → ℕ → ℕ → Run Bool
and_byte r bs i c = r >>= λ ok. if ok then byte bs i >>= (λ b. done (b == c)) else done false

-- Byte 3 is not looked at.
unfoldable pub is_method_get : Bytes → Run Bool
is_method_get bs =
    let g = byte bs 0 >>= (λ b. done (b == b'G')) in
    let ge = and_byte g bs 1 b'E' in
    let get = and_byte ge bs 2 b'T' in
    let h = and_byte get bs 4 b'h' in
    let ht = and_byte h bs 5 b't' in let htt = and_byte ht bs 6 b't' in and_byte htt bs 7 b'p'

-- Between the first space and the second, `none` for a null pointer.
unfoldable pub get_url_from_data : Bytes → Run (Option Bytes)
get_url_from_data bs = strchr bs space >>= λ first. elim first [
  | none ↦ done none
  | some i ↦
      let start = drop (i + 1) bs in
      strchr start space >>= λ second. elim second [
        | none ↦ done none
        | some j ↦ done (some (take j start))
      ]
]

-- `url` is a C string. Without a slash the length of the copy is computed from a null pointer.
unfoldable pub get_host_from_url : Bytes → Run Bytes
get_host_from_url url =
    let rest = drop 7 (url ++ 0 ∷ []) in
    strchr rest slash >>= λ end. elim end [ none ↦ fault | some j ↦ done (take j rest) ]

-- `s[i] = b` through a pointer that may be null.
abbrev pub patch : Option ℕ → ℕ → ℕ → Bytes → Bytes
patch none k b bs = bs
patch (some i) k b bs = set bs (i + k) b

abbrev pub http_1_1 : Bytes
http_1_1 = b'H' ∷ b'T' ∷ b'T' ∷ b'P' ∷ b'/' ∷ b'1' ∷ b'.' ∷ b'1' ∷ []

abbrev pub http_2_0 : Bytes
http_2_0 = b'H' ∷ b'T' ∷ b'T' ∷ b'P' ∷ b'/' ∷ b'2' ∷ b'.' ∷ b'0' ∷ []

-- The protocol's number is written over, in the memory of the buffer.
unfoldable pub lower_protocol : Bytes → Run Bytes
lower_protocol bs = strstr bs http_1_1 >>= λ one.
    strstr bs http_2_0 >>= λ two. done (patch two 5 b'1' (patch one 7 b'0' bs))

-- `bs` is the memory of the buffer, of which the first `size` bytes are the request. The result
-- is the memory and the size without `http://host`. The memory behind the moved bytes keeps what
-- it held.
unfoldable pub cut_host : Bytes → ℕ → Run (Bytes × ℕ)
cut_host bs size = strchr bs space >>= λ first. elim first [
  | none ↦ fault
  | some s ↦ strchr (drop (s + 8) bs) slash >>= λ end. elim end [
    | none ↦ fault
    | some j ↦
        let e = s + 8 + j in
        let size' = size - (e - (s + 1)) in
        done (take (s + 1) bs ++ (take (size - e) (drop e bs) ++ drop size' bs), size')
  ]
]

unfoldable pub edit_request : Bytes → ℕ → Run (Bytes × ℕ)
edit_request bs size = cut_host bs size >>= λ cut. lower_protocol cut.0 >>= λ bs'. done (bs', cut.1)
