-- ===== src/MessageQueue/Spec/Split.antt =====
-- The oldest text of a queue, for the specification and for a chain of messages.
use os_posix.Prelude.{suc, ◌≡◌, refl, ap, [], ◌∷◌, ◌++◌, length}
use os_posix.MessageQueue.Cells.{Ptr, Text, Cells, texts}
use os_posix.MessageQueue.Spec.{split_last}

pub length-texts : (cs : Cells) → length (texts cs) ≡ length cs
length-texts [] = refl
length-texts ((p, t) ∷ cs) = ap suc (length-texts cs)

-- A chain that is not empty ends in the message that `split_last` finds.
pub unsnoc :
    (p : Ptr) (t : Text) (cs : Cells)
    → (xs : Cells) × (q : Ptr) × (u : Text) × ((p, t) ∷ cs ≡ xs ++ (q, u) ∷ [])
      × (split_last t (texts cs) ≡ (texts xs, u))
unsnoc p t [] = ([], p, t, refl, refl)
unsnoc p t ((r, w) ∷ cs) =
    let (xs, q, u, e, s) = unsnoc r w cs in
    ((p, t) ∷ xs, q, u, ap (λ ys. (p, t) ∷ ys) e, ap (λ z. (t ∷ z.0, z.1)) s)
