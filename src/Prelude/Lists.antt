-- ===== src/Prelude/Lists.antt =====
-- Lists measured and indexed by native numbers, under the library's names.
use Prim.Native.Nat.{ℕ, zero, suc, ◌+◌, ◌-◌, ◌≤◌, min}
use mathlib.Core.Path.{◌≡◌, refl, ap}
use mathlib.Core.List.{List, [], ◌∷◌, ◌++◌}
use mathlib.Core.Option.{Option, none, some}
use native.Mathlib.Omega.{arith}

module _ {ℓ} {A : Type ℓ} where
  abbrev pub length : List A → ℕ
  length [] = 0
  length (x ∷ xs) = suc (length xs)

  abbrev pub get_elem? : List A → ℕ → Option A
  get_elem? [] i = none
  get_elem? (x ∷ xs) zero = some x
  get_elem? (x ∷ xs) (suc i) = get_elem? xs i

  -- A write out of bounds changes nothing.
  abbrev pub set : List A → ℕ → A → List A
  set [] i v = []
  set (x ∷ xs) zero v = v ∷ xs
  set (x ∷ xs) (suc i) v = x ∷ set xs i v

  abbrev pub take : ℕ → List A → List A
  take zero xs = []
  take (suc n) [] = []
  take (suc n) (x ∷ xs) = x ∷ take n xs

  abbrev pub drop : ℕ → List A → List A
  drop zero xs = xs
  drop (suc n) [] = []
  drop (suc n) (x ∷ xs) = drop n xs

  abbrev pub replicate : ℕ → A → List A
  replicate zero a = []
  replicate (suc n) a = a ∷ replicate n a

module _ {ℓ} {A : Type ℓ} where
  pub length-append : (xs ys : List A) → length (xs ++ ys) ≡ length xs + length ys
  length-append [] ys = omega arith
  length-append (x ∷ xs) ys = omega (arith, length-append xs ys)

  pub length-set : (xs : List A) (i : ℕ) (v : A) → length (set xs i v) ≡ length xs
  length-set [] i v = refl
  length-set (x ∷ xs) zero v = refl
  length-set (x ∷ xs) (suc i) v = ap suc (length-set xs i v)

  pub length-take : (n : ℕ) (xs : List A) → length (take n xs) ≡ min n (length xs)
  length-take zero xs = omega arith
  length-take (suc n) [] = omega arith
  length-take (suc n) (x ∷ xs) = omega (arith, length-take n xs)

  pub length-drop : (n : ℕ) (xs : List A) → length (drop n xs) ≡ length xs - n
  length-drop zero xs = omega arith
  length-drop (suc n) [] = omega arith
  length-drop (suc n) (x ∷ xs) = omega (arith, length-drop n xs)

  pub take-append-drop : (n : ℕ) (xs : List A) → take n xs ++ drop n xs ≡ xs
  take-append-drop zero xs = refl
  take-append-drop (suc n) [] = refl
  take-append-drop (suc n) (x ∷ xs) = rw (take-append-drop n xs)

  pub take_some : (n m : ℕ) (bs : List A) → n ≤ m → take n (take m bs) ≡ take n bs
  take_some zero m bs h = refl
  take_some (suc n) zero bs h = absurd (omega arith)
  take_some (suc n) (suc m) [] h = refl
  take_some (suc n) (suc m) (b ∷ bs) h = ap (λ cs. b ∷ cs) (take_some n m bs (omega arith))

  pub drop-drop : (k n : ℕ) (bs : List A) → drop n (drop k bs) ≡ drop (k + n) bs
  drop-drop zero n bs = let e : 0 + n ≡ n = omega arith in rw e refl
  drop-drop (suc k) zero [] = let e : suc k + 0 ≡ suc k = omega arith in rw e refl
  drop-drop (suc k) (suc n) [] = let e : suc k + suc n ≡ suc (k + suc n) = omega arith in rw e refl
  drop-drop (suc k) n (b ∷ bs) =
      let e : suc k + n ≡ suc (k + n) = omega arith in rw e (drop-drop k n bs)

  pub take_two : (n m : ℕ) (bs : List A) → take n bs ++ take m (drop n bs) ≡ take (n + m) bs
  take_two zero m bs = let e : 0 + m ≡ m = omega arith in rw e refl
  take_two (suc n) zero [] = let e : suc n + 0 ≡ suc n = omega arith in rw e refl
  take_two (suc n) (suc m) [] = let e : suc n + suc m ≡ suc (n + suc m) = omega arith in rw e refl
  take_two (suc n) m (b ∷ bs) =
      let e : suc n + m ≡ suc (n + m) = omega arith in rw e (ap (λ cs. b ∷ cs) (take_two n m bs))
