-- ===== src/Proxy/Response/Body.antt =====
-- `getIndexOfBody` and `cutBody` of Lab31/main.c.
use os_posix.Prelude.{
  ℕ, zero, suc, ◌+◌, ◌-◌, ◌%◌, ◌^◌, ◌≤◌, ◌<◌, ◌≡◌, refl, inl, inr, ◌∙◌, ap, Bool, true, false, ltb,
  ◌&&◌, Option, none, some, [], ◌∷◌, ◌++◌, arith, Bool-cases, ◌==◌, if◌then◌else◌, length, take,
  set,
}
use native.Mathlib.Numerals.{sub-one}
use os_posix.Proxy.Memory.{Bytes, done, fault, byte}
use os_posix.Proxy.Response.{cr, lf, blank_line, int_offset, body_loop, get_index_of_body, cut_body}

-- A blank line stands at the pointer.
abbrev pub at_blank : Bytes → Bool
at_blank (a ∷ b ∷ c ∷ d ∷ bs) = (a == cr) && ((b == lf) && ((c == cr) && (d == lf)))
at_blank _ = false

abbrev pub plus : ℕ → Option ℕ → Option ℕ
plus j none = none
plus j (some k) = some (j + k)

-- The offset behind the first blank line, if there is one.
abbrev pub body_offset : Bytes → Option ℕ
body_offset [] = none
body_offset (b ∷ bs) =
    let rest = body_offset bs in if at_blank (b ∷ bs) then some 4 else plus 1 rest

blank_line-at_blank :
    (a b c d : ℕ) (bs : Bytes)
    → blank_line (a ∷ b ∷ c ∷ d ∷ bs) ≡ done (at_blank (a ∷ b ∷ c ∷ d ∷ bs))
unfolding blank_line byte
blank_line-at_blank a b c d bs = ground arith

plus-plus : (j : ℕ) (o : Option ℕ) → plus (j + 1) o ≡ plus j (plus 1 o)
plus-plus j none = refl
plus-plus j (some k) = ap some (omega arith)

plus_zero : (o : Option ℕ) → plus 0 o ≡ o
plus_zero none = refl
plus_zero (some k) = ap some (omega arith)

small_offset : (j : ℕ) → j + 4 < 2 ^ 31 → int_offset j ≡ done (some (j + 4))
unfolding int_offset
small_offset j h =
    let e : (j % 2 ^ 32 + 4) % 2 ^ 32 ≡ j + 4 = omega arith in
    let small : ltb (j + 4) (2 ^ 31) ≡ true = ground arith in simp (e, small)

body_loop-body_offset :
    (rounds j : ℕ) (bs : Bytes)
    → length bs ≡ rounds + 3
    → j + length bs < 2 ^ 31
    → body_loop rounds j bs ≡ done (plus j (body_offset bs))
unfolding body_loop
body_loop-body_offset zero j (a ∷ b ∷ c ∷ []) e l = refl
body_loop-body_offset (suc r) j (a ∷ b ∷ c ∷ d ∷ bs) e l =
    elim (Bool-cases (at_blank (a ∷ b ∷ c ∷ d ∷ bs))) [
      | inl hit ↦ simp (blank_line-at_blank a b c d bs, hit) (small_offset j (omega arith))
      | inr miss ↦
          simp (blank_line-at_blank a b c d bs, miss)
            (body_loop-body_offset r (j + 1) (b ∷ c ∷ d ∷ bs) (omega arith) (omega arith)
              ∙ ap done (plus-plus j (body_offset (b ∷ c ∷ d ∷ bs))))
    ]
body_loop-body_offset r j bs e l = absurd (omega arith)

-- On a buffer of at least three and less than 2 ^ 31 bytes the result is the offset behind the first blank line, or -1
-- if there is none, and nothing behind the buffer is read.
pub index_of_body :
    (bs : Bytes)
    → 3 ≤ length bs
    → length bs < 2 ^ 31
    → get_index_of_body bs (length bs) ≡ done (body_offset bs)
unfolding get_index_of_body
index_of_body bs h l =
    body_loop-body_offset ((length bs + 2 ^ 64 - 3) % 2 ^ 64) 0 bs (omega arith) (omega arith)
    ∙ ap done (plus_zero (body_offset bs))

body_loop-short :
    (rounds j : ℕ) (bs : Bytes) → length bs < 3 → length bs < rounds → body_loop rounds j bs ≡ fault
unfolding body_loop blank_line byte
body_loop-short (suc r) j [] s l = refl
body_loop-short (suc (suc r)) j (a ∷ []) s l = ground arith
body_loop-short (suc (suc (suc r))) j (a ∷ b ∷ []) s l = ground arith
body_loop-short r j bs s l = absurd (omega arith)

-- On a buffer of less than three bytes the bound of the loop wraps round, and the buffer is read
-- past its end.
pub short_buffer_overrun : (bs : Bytes) → length bs < 3 → get_index_of_body bs (length bs) ≡ fault
unfolding get_index_of_body
short_buffer_overrun bs s = body_loop-short ((length bs + 2 ^ 64 - 3) % 2 ^ 64) 0 bs s (omega arith)

set_at :
    (bs : Bytes) (pad k : ℕ)
    → k ≤ length bs
    → set (take (suc k) (bs ++ pad ∷ [])) k 0 ≡ take k bs ++ 0 ∷ []
set_at [] pad zero h = refl
set_at [] pad (suc k) h = absurd (omega arith)
set_at (b ∷ bs) pad zero h = refl
set_at (b ∷ bs) pad (suc k) h = ap (λ cs. b ∷ cs) (set_at bs pad k (omega arith))

-- Cut behind a body offset `k`, as the callers of `cutBody` do, the buffer holds the `k` bytes
-- before the body and a NUL, which is sent as part of the request.
pub cut_body_lem :
    (bs : Bytes) (pad k : ℕ) → k ≤ length bs → cut_body bs pad (k + 1) ≡ take k bs ++ 0 ∷ []
unfolding cut_body
cut_body_lem bs pad k h = let e : k + 1 ≡ suc k = omega arith in rw (e, sub-one) (set_at bs pad k h)
