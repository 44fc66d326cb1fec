-- ===== src/Proxy/Memory/Scans.antt =====
-- Where `strchr` stops.
use os_posix.Prelude.{
  ℕ, ◌+◌, ◌≡◌, ◌≢◌, refl, ap, Bool, true, ◌&&◌, not, none, some, [], ◌∷◌, ◌++◌, arith, ◌==◌, length,
  take, drop,
}
use Prim.Native.Nat.add
use os_posix.Proxy.Memory.{Bytes, done, fault, strchr}

-- Neither `c` nor a NUL is among the bytes.
abbrev pub lacks : ℕ → Bytes → Bool
lacks c [] = true
lacks c (b ∷ bs) = not (b == c) && not (b == 0) && lacks c bs

-- The first `c` is found where it stands.
pub strchr-append :
    (xs : Bytes) (c : ℕ) (ys : Bytes)
    → lacks c xs ≡ true
    → strchr (xs ++ c ∷ ys) c ≡ done (some (length xs))
unfolding strchr
strchr-append [] c ys l = ground arith
strchr-append (x ∷ xs) c ys l = ground (arith, strchr-append xs c ys)

-- Memory with no such byte and no NUL is left.
pub strchr-fault : (xs : Bytes) (c : ℕ) → lacks c xs ≡ true → strchr xs c ≡ fault
unfolding strchr
strchr-fault [] c l = refl
strchr-fault (x ∷ xs) c l = ground (arith, strchr-fault xs c)

-- A NUL before any `c`.
pub strchr-null :
    (xs : Bytes) (c : ℕ) (ys : Bytes)
    → c ≢ 0
    → lacks c xs ≡ true
    → strchr (xs ++ 0 ∷ ys) c ≡ done none
unfolding strchr
strchr-null [] c ys nz l = ground arith
strchr-null (x ∷ xs) c ys nz l = ground (arith, strchr-null xs c ys)

pub drop-append : (xs ys : Bytes) → drop (length xs) (xs ++ ys) ≡ ys
drop-append [] ys = refl
drop-append (x ∷ xs) ys = drop-append xs ys

pub take-append : (xs ys : Bytes) → take (length xs) (xs ++ ys) ≡ xs
take-append [] ys = refl
take-append (x ∷ xs) ys = ground (arith, take-append xs ys)

pub drop_plus : (xs ys : Bytes) (k : ℕ) → drop (length xs + k) (xs ++ ys) ≡ drop k ys
drop_plus [] ys k = rw add.zero
drop_plus (x ∷ xs) ys k = rw add.suc (drop_plus xs ys k)

pub take_plus : (xs ys : Bytes) (k : ℕ) → take (length xs + k) (xs ++ ys) ≡ xs ++ take k ys
take_plus [] ys k = rw add.zero
take_plus (x ∷ xs) ys k = rw add.suc (ap (λ zs. x ∷ zs) (take_plus xs ys k))

pub take_all : (xs : Bytes) → take (length xs) xs ≡ xs
take_all [] = refl
take_all (x ∷ xs) = ap (λ zs. x ∷ zs) (take_all xs)
