-- ===== src/MessageQueue/Spec.antt =====
-- What a bounded message queue promises: a list of texts, newest first, and whether it was dropped.
pub mod Split
use os_posix.Prelude.{
  ℕ, suc, ◌≡◌, Bool, true, false, not, ◌&&◌, Option, none, some, List, [], ◌∷◌, ◌++◌, leb, ◌==◌,
  if◌then◌else◌, length, take,
}
use os_posix.MessageQueue.Cells.{Text}

pub record Spec : Type 0 where
  pub items : List Text
  pub dropped : Bool

-- A call blocks, or answers with a result and a new state.
pub data Answer (A : Type 0) : Type 0 where
  blocks : Answer A
  answers : A → Spec → Answer A

-- The list without its last item, and that item.
abbrev pub split_last : Text → List Text → List Text × Text
split_last t [] = ([], t)
split_last t (u ∷ us) = let (rest, x) = split_last u us in (t ∷ rest, x)

-- A put of a text that the queue cuts at `width` bytes, into a queue of at most `limit` texts.
abbrev pub spec_put : ℕ → ℕ → Text → Spec → Answer Bool
spec_put limit width t s =
    if s.dropped
    then answers false s
    else (if leb limit (length s.items)
        then blocks
        else answers true (record s { items = take width t ∷ s.items }))

-- A get of the oldest text into a buffer of `size` bytes.
abbrev pub oldest : ℕ → Bool → List Text → Answer (Option Text)
oldest size dropped [] = blocks
oldest size dropped (t ∷ ts) =
    let (rest, x) = split_last t ts in
    answers (some (take size x)) (record { items = rest; dropped = dropped })

abbrev pub spec_get : ℕ → Spec → Answer (Option Text)
spec_get size s = if s.dropped then answers none s else oldest size s.dropped s.items
