-- ===== src/Proxy/Memory.antt =====
-- Bytes in memory, and the functions of the C library that Lab31/main.c reads them with. A list
-- holds the bytes from a pointer to the end of its allocation; a read behind them is a fault.
pub mod Scans
use mathlib.Core.Path.{subst}
use os_posix.Prelude.{
  ℕ, zero, suc, ◌+◌, ◌-◌, ◌≡◌, Bool, true, false, ◌&&◌, Option, none, some, List, [], ◌∷◌, ◌==◌,
  if◌then◌else◌, get_elem?, drop,
}

abbrev pub Bytes : Type 0
Bytes = List ℕ

pub data Run {ℓ} (A : Type ℓ) : Type ℓ where
  done : A → Run A
  fault : Run A

infixl 5 ◌>>=◌
abbrev pub ◌>>=◌ {ℓ κ} : {A : Type ℓ} {B : Type κ} → Run A → (A → Run B) → Run B
done a >>= k = k a
fault >>= k = fault

abbrev pub shift : Run (Option ℕ) → Run (Option ℕ)
shift (done (some i)) = done (some (i + 1))
shift r = r

-- `strchr`: the offset of the first `c` before the NUL, `none` for a null pointer.
unfoldable pub strchr : Bytes → ℕ → Run (Option ℕ)
strchr [] c = fault
strchr (b ∷ bs) c =
    let rest = shift (strchr bs c) in
    if b == c then done (some 0) else if b == 0 then done none else rest

-- `s[i]`
unfoldable pub byte : Bytes → ℕ → Run ℕ
byte bs i = elim (get_elem? bs i) [ none ↦ fault | some b ↦ done b ]

-- Does the text `pat` stand at the pointer? Reads up to the first byte that differs.
unfoldable pub starts_with : Bytes → Bytes → Run Bool
starts_with [] bs = done true
starts_with (p ∷ ps) [] = fault
starts_with (p ∷ ps) (b ∷ bs) = let rest = starts_with ps bs in if p == b then rest else done false

-- `strstr`, for a text that is not empty.
unfoldable pub strstr : Bytes → Bytes → Run (Option ℕ)
unfolding starts_with
strstr [] pat = fault
strstr (b ∷ bs) pat =
    let rest = shift (strstr bs pat) in
    starts_with pat (b ∷ bs) >>= λ hit.
    if hit then done (some 0) else if b == 0 then done none else rest

-- What is returned satisfies `P`.
abbrev pub Returns {ℓ κ} : {A : Type ℓ} → (A → Type κ) → Run A → Type κ
Returns P (done a) = P a
Returns P fault = Unit

pub Returns-bind {ℓ κ μ ν} :
    {A : Type ℓ} {B : Type κ} (P : A → Type μ) (Q : B → Type ν) (r : Run A) (k : A → Run B)
    → Returns P r
    → ((a : A) → P a → Returns Q (k a))
    → Returns Q (r >>= k)
Returns-bind P Q (done a) k h step = step a h
Returns-bind P Q fault k h step = tt

-- Of `r` nothing is known.
pub Returns-any {ℓ κ μ} :
    {A : Type ℓ} {B : Type κ} (Q : B → Type μ) (r : Run A) (k : A → Run B)
    → ((a : A) → Returns Q (k a))
    → Returns Q (r >>= k)
Returns-any Q (done a) k step = step a
Returns-any Q fault k step = tt

-- There is a result, and it satisfies `P`.
abbrev pub Finishes {ℓ κ} : {A : Type ℓ} → (A → Type κ) → Run A → Type (ℓ ⊔ κ)
Finishes {A} P r = (a : A) × (r ≡ done a) × P a

pub Finishes-bind {ℓ κ μ ν} :
    {A : Type ℓ} {B : Type κ} (P : A → Type μ) (Q : B → Type ν) (r : Run A) (k : A → Run B)
    → Finishes P r
    → ((a : A) → P a → Finishes Q (k a))
    → Finishes Q (r >>= k)
Finishes-bind P Q r k (a, e, h) step = rw e (step a h)
