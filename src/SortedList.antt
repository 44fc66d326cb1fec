-- ===== src/SortedList.antt =====
-- The list of strings that Lab16/main.c and Lab17/main.c keep and sort every five seconds. A
-- string is its bytes before the NUL.
pub mod Locked
pub mod Sort
mod Tests
use os_posix.Prelude.{
  ℕ, zero, suc, Bool, true, false, Option, none, some, List, [], ◌∷◌, ltb, ◌==◌, if◌then◌else◌,
  length,
}

abbrev pub Text : Type 0
Text = List ℕ

-- `strcmp(s, t) > 0`
unfoldable pub is_after : Text → Text → Bool
is_after [] t = false
is_after (a ∷ s) [] = true
is_after (a ∷ s) (b ∷ t) = let rest = is_after s t in if a == b then rest else ltb b a

unfoldable pub push : Text → List Text → List Text
push t list = t ∷ list

-- The inner loop: `x` is the string of `node`, and the list are those from `nestedNode` on. The
-- strings of the two nodes are exchanged where they are out of order.
unfoldable pub inner : Text → List Text → Text × List Text
unfolding is_after
inner x [] = (x, [])
inner x (y ∷ ys) =
    let low = if is_after x y then y else x in
    let high = if is_after x y then x else y in let rest = inner low ys in (rest.0, high ∷ rest.1)

-- The outer loop. A turn more than there are nodes is never needed.
unfoldable pub outer : ℕ → List Text → List Text
unfolding inner
outer zero list = list
outer (suc fuel) [] = []
outer (suc fuel) (x ∷ xs) = let first = inner x xs in first.0 ∷ outer fuel first.1

unfoldable pub bubble_str_sort : List Text → List Text
unfolding outer
bubble_str_sort list = outer (length list) list

abbrev pub newline : ℕ
newline = 10

-- The text in a buffer of zeros that begins with these bytes.
abbrev pub before_nul : Text → Text
before_nul [] = []
before_nul (b ∷ bs) = if b == 0 then [] else b ∷ before_nul bs

-- `buffer[count - 1]`, and what stands before it.
abbrev pub split_end : ℕ → Text → Text × ℕ
split_end b [] = ([], b)
split_end b (c ∷ cs) = let rest = split_end c cs in (b ∷ rest.0, rest.1)

abbrev pub without_newline : ℕ → Text → Text
without_newline b bs = let ends = split_end b bs in if ends.1 == newline then ends.0 else b ∷ bs

abbrev pub is_newline : Text → Bool
is_newline (b ∷ []) = b == newline
is_newline bs = false

-- A turn of the loop in `main` for the bytes that were read: `none` if there are none, when
-- `buffer[-1]` is read. A line that is empty prints the list, which stays.
unfoldable pub on_input : Text → List Text → Option (List Text)
unfolding push
on_input [] list = none
on_input (b ∷ bs) list =
    if is_newline (before_nul (b ∷ bs))
    then some list
    else some (push (before_nul (without_newline b bs)) list)
