-- ===== src/SortedList/Sort.antt =====
-- The order of `strcmp`, and the loops of `bubbleStrSort` of Lab16/main.c.
use os_posix.Prelude.{
  ℕ, zero, suc, ◌≤◌, ◌≡◌, refl, inl, inr, true, false, List, [], ◌∷◌, arith, Bool-cases, length,
}
use mathlib.Core.List.{Perm}
use mathlib.Core.List.Perm
use os_posix.SortedList.{Text, is_after, inner, outer, bubble_str_sort}

abbrev pub NotAfter : Text → Text → Type 0
NotAfter s t = is_after s t ≡ false

pub is_after-asym : (s t : Text) → is_after s t ≡ true → NotAfter t s
unfolding is_after
is_after-asym [] t h = absurd (cc)
is_after-asym (a ∷ s) [] h = refl
is_after-asym (a ∷ s) (b ∷ t) h = ground (arith, is_after-asym s t)

pub NotAfter-trans : (s t u : Text) → NotAfter s t → NotAfter t u → NotAfter s u
unfolding is_after
NotAfter-trans [] t u h k = refl
NotAfter-trans (a ∷ s) [] u h k = absurd (cc)
NotAfter-trans (a ∷ s) (b ∷ t) [] h k = absurd (cc)
NotAfter-trans (a ∷ s) (b ∷ t) (c ∷ u) h k = ground (arith, NotAfter-trans s t u)

pub NotAfter-refl : (s : Text) → NotAfter s s
unfolding is_after
NotAfter-refl [] = refl
NotAfter-refl (a ∷ s) = ground (arith, NotAfter-refl s)

abbrev pub IsLeast : Text → List Text → Type 0
IsLeast x [] = Unit
IsLeast x (y ∷ ys) = NotAfter x y × IsLeast x ys

-- No string stands before one that it is after.
abbrev pub IsSorted : List Text → Type 0
IsSorted [] = Unit
IsSorted (x ∷ xs) = IsLeast x xs × IsSorted xs

-- What the inner loop leaves: a least string first, the others behind it.
pub record IsSelected (x : Text) (ys : List Text) (out : Text × List Text) : Type 0 where
  pub kept : Perm (x ∷ ys) (out.0 ∷ out.1)
  pub below : NotAfter out.0 x
  pub least : IsLeast out.0 out.1
  pub count : length out.1 ≡ length ys

pub inner-IsSelected : (x : Text) (ys : List Text) → IsSelected x ys (inner x ys)
unfolding inner
inner-IsSelected x [] = record {
  kept = Perm.refl (x ∷ []);
  below = NotAfter-refl x;
  least = tt;
  count = refl;
}
inner-IsSelected x (y ∷ ys) = elim (Bool-cases (is_after x y)) [
  | inl swap ↦
      let v = inner-IsSelected y ys in
      let m = (inner y ys).0 in
      let below = NotAfter-trans m y x v.below (is_after-asym x y swap) in
      rw swap (record {
        kept = Perm.trans (Perm.cons x v.kept) (Perm.swap m x (inner y ys).1);
        below = below;
        least = (below, v.least);
        count = omega (arith, v.count);
      })
  | inr keep ↦
      let v = inner-IsSelected x ys in
      let m = (inner x ys).0 in
      rw keep (record {
        kept =
            Perm.trans (Perm.swap y x ys)
              (Perm.trans (Perm.cons y v.kept) (Perm.swap m y (inner x ys).1));
        below = v.below;
        least = (NotAfter-trans m x y v.below keep, v.least);
        count = omega (arith, v.count);
      })
]

IsLeast-inner :
    (m x : Text) (ys : List Text)
    → NotAfter m x
    → IsLeast m ys
    → NotAfter m (inner x ys).0 × IsLeast m (inner x ys).1
unfolding inner
IsLeast-inner m x [] h l = (h, tt)
IsLeast-inner m x (y ∷ ys) h l = elim (Bool-cases (is_after x y)) [
  | inl swap ↦ let (a, b) = IsLeast-inner m y ys l.0 l.1 in rw swap (a, (h, b))
  | inr keep ↦ let (a, b) = IsLeast-inner m x ys h l.1 in rw keep (a, (l.0, b))
]

IsLeast-outer : (fuel : ℕ) (m : Text) (xs : List Text) → IsLeast m xs → IsLeast m (outer fuel xs)
unfolding outer
IsLeast-outer zero m xs l = l
IsLeast-outer (suc fuel) m [] l = tt
IsLeast-outer (suc fuel) m (x ∷ xs) l =
    let (a, b) = IsLeast-inner m x xs l.0 l.1 in (a, IsLeast-outer fuel m (inner x xs).1 b)

outer-IsSorted :
    (fuel : ℕ) (xs : List Text)
    → length xs ≤ fuel
    → IsSorted (outer fuel xs) × Perm xs (outer fuel xs)
unfolding outer
outer-IsSorted zero [] l = (tt, Perm.refl [])
outer-IsSorted zero (x ∷ xs) l = absurd (omega arith)
outer-IsSorted (suc fuel) [] l = (tt, Perm.refl [])
outer-IsSorted (suc fuel) (x ∷ xs) l =
    let v = inner-IsSelected x xs in
    let (m, zs) = inner x xs in
    let (sorted, same) = outer-IsSorted fuel zs (omega (arith, v.count)) in
    ((IsLeast-outer fuel m zs v.least, sorted), Perm.trans v.kept (Perm.cons m same))

-- `bubbleStrSort` leaves the strings of the list in the order of `strcmp`, each as often as before.
pub bubble_str_sort-IsSorted :
    (list : List Text) → IsSorted (bubble_str_sort list) × Perm list (bubble_str_sort list)
unfolding bubble_str_sort
bubble_str_sort-IsSorted list = outer-IsSorted (length list) list (omega arith)
