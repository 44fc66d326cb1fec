-- ===== src/Proxy/Response.antt =====
-- Responses in Lab31/main.c: the status code, the announced length, and where the body begins.
pub mod Body
use os_posix.Prelude.{
  ℕ, zero, suc, ◌+◌, ◌-◌, ◌*◌, ◌%◌, ◌^◌, Bool, true, false, not, ◌&&◌, ◌||◌, Option, none, some,
  List, [], ◌∷◌, ◌++◌, leb, ltb, ◌==◌, if◌then◌else◌, drop, set, take,
}
use Prim.Native.Nat.{min}
use os_posix.Proxy.Memory.{Bytes, Run, done, fault, ◌>>=◌, byte, strstr}

abbrev is_digit : ℕ → Bool
is_digit c = leb b'0' c && leb c b'9'

-- `isspace` of the C locale.
abbrev is_space : ℕ → Bool
is_space c = c == b' ' || (leb 9 c && leb c 13)

abbrev pub long_max : ℕ
long_max = 2 ^ 63 - 1

-- The digits from the pointer on: how many, and their value up to LONG_MAX.
digits : Bytes → ℕ → ℕ → Run (ℕ × ℕ)
digits [] n v = fault
digits (b ∷ bs) n v =
    let rest = digits bs (n + 1) (min long_max (v * 10 + (b - b'0'))) in
    if is_digit b then rest else done (n, v)

-- What `strtol` in base 10 reads, as the programs use it: a positive number, or nothing that is
-- positive (no digits, zero, or a minus sign).
signed : Bytes → Run (Option ℕ)
unfolding digits
signed [] = fault
signed (b ∷ bs) =
    if b == b'-'
    then digits bs 0 0 >>= (λ r. done none)
    else digits (if b == b'+' then bs else b ∷ bs) 0 0 >>= λ r.
        done (if ltb 0 r.1 then some r.1 else none)

unfoldable pub strtol_positive : Bytes → Run (Option ℕ)
unfolding signed
strtol_positive [] = fault
strtol_positive (b ∷ bs) =
    let rest = strtol_positive bs in if is_space b then rest else signed (b ∷ bs)

-- The cast to `int`: what is positive in 32 bits.
abbrev to_int : Option ℕ → Option ℕ
to_int none = none
to_int (some v) = let w = v % 2 ^ 32 in if ltb 0 w && ltb w (2 ^ 31) then some w else none

-- `none` is the result -1.
unfoldable pub get_response_code : Bytes → Run (Option ℕ)
unfolding strtol_positive
get_response_code bs = strtol_positive (drop 9 bs) >>= λ v. done (to_int v)

abbrev pub content_length_header : Bytes
content_length_header =
    b'C' ∷ b'o' ∷ b'n' ∷ b't' ∷ b'e' ∷ b'n' ∷ b't' ∷ b'-' ∷ b'L' ∷ b'e' ∷ b'n' ∷ b'g' ∷ b't' ∷ b'h'
    ∷ b':' ∷ []

unfoldable pub get_content_length : Bytes → Run (Option ℕ)
unfolding strtol_positive
get_content_length bs = strstr bs content_length_header >>= λ start. elim start [
  | none ↦ done none
  | some i ↦ strtol_positive (drop (i + 16) bs)
]

-- The code -1 is `none`.
unfoldable pub is_response_has_payload : Option ℕ → Bool
is_response_has_payload none = true
is_response_has_payload (some code) =
    if code == 204
    then false
    else (if code == 304 then false else (if leb 100 code && ltb code 200 then false else true))

abbrev pub cr : ℕ
cr = 13

abbrev pub lf : ℕ
lf = 10

-- The four bytes at the pointer, read from left to right up to the first that differs.
unfoldable pub blank_line : Bytes → Run Bool
blank_line bs = byte bs 0 >>= λ a.
    if not (a == cr)
    then done false
    else (byte bs 1 >>= λ b.
        if not (b == lf)
        then done false
        else (byte bs 2 >>= λ c.
            if not (c == cr) then done false else (byte bs 3 >>= λ d. done (d == lf))))

-- `(int) j + 4`, with `none` for -1. Where the sum overflows, or is another negative number, which
-- the callers take for an offset, the model stops at a fault.
unfoldable pub int_offset : ℕ → Run (Option ℕ)
int_offset j =
    let sum = (j % 2 ^ 32 + 4) % 2 ^ 32 in
    if ltb sum (2 ^ 31) then done (some sum) else (if sum == 2 ^ 32 - 1 then done none else fault)

-- The loop over `j`, which has `rounds` to go.
unfoldable pub body_loop : ℕ → ℕ → Bytes → Run (Option ℕ)
unfolding blank_line
body_loop zero j bs = done none
body_loop (suc rounds) j [] = fault
body_loop (suc rounds) j (b ∷ bs) =
    let rest = body_loop rounds (j + 1) bs in
    blank_line (b ∷ bs) >>= λ hit. if hit then int_offset j else rest

-- `len - 3` is computed in `size_t`.
unfoldable pub get_index_of_body : Bytes → ℕ → Run (Option ℕ)
unfolding body_loop
get_index_of_body bs len = body_loop ((len + 2 ^ 64 - 3) % 2 ^ 64) 0 bs

-- The buffer is cut, or grown by a byte `pad` of the allocator, to `n` bytes, the last a NUL.
unfoldable pub cut_body : Bytes → ℕ → ℕ → Bytes
cut_body bs pad n = set (take n (bs ++ pad ∷ [])) (n - 1) 0
