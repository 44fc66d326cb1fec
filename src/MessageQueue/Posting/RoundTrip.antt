-- ===== src/MessageQueue/Posting/RoundTrip.antt =====
-- Puts and gets of Lab23-24/sem_implementation/message_queue.c one after another.
use os_posix.Prelude.{
  ℕ, zero, suc, ◌-◌, ◌<◌, ◌≡◌, ◌∙◌, refl, sym, ap, Option, some, List, [], ◌∷◌, ◌++◌, arith, take,
  length, length-append,
}
use mathlib.Core.List.{map, reverse, reverse-append}
use mathlib.Core.Path.{subst}
use os_posix.MessageQueue.Cells.{Ptr, Text, Cells, texts}
use os_posix.MessageQueue.Cells.Chain.{IsFresh}
use os_posix.MessageQueue.Spec.Split.{unsnoc, length-texts}
use os_posix.MessageQueue.Counting.{then_some}
use os_posix.MessageQueue.Counting as Counting
use os_posix.MessageQueue.Counting.Balance.{same_some}
use os_posix.MessageQueue.Counting.Sections.{HoldsChain}
use os_posix.MessageQueue.Signal.{text_size}
use os_posix.MessageQueue.Posting.{put_section, get_section}
use os_posix.MessageQueue.Posting.Sections.{put_section-HoldsChain, get_section-HoldsChain}

-- Puts from one queue to another; the text of the last put stands first.
pub data Puts (q : Counting.Queue) : List Text → Counting.Queue → Type 0 where
  none_put : Puts q [] q
  puts :
      {r q' : Counting.Queue} {ts : List Text} (f : Ptr) (t : Text)
      → Puts q ts r
      → IsFresh r.heap f
      → put_section f t r ≡ some q'
      → Puts q (t ∷ ts) q'

-- As many gets, one after another, into buffers of one size.
unfoldable pub get_all : ℕ → ℕ → Counting.Queue → Option (Counting.Queue × List Text)
get_all size zero q = some (q, [])
get_all size (suc n) q =
    then_some (get_section size q) λ r. then_some (get_all size n r.0) λ s. some (s.0, r.1 ∷ s.1)

Puts-texts :
    {q q' : Counting.Queue} {ts : List Text}
    → HoldsChain q []
    → Puts q ts q'
    → (cs : Cells) × HoldsChain q' cs × (texts cs ≡ map (take text_size) ts)
Puts-texts v none_put = ([], v, refl)
Puts-texts v (puts {r} {q'} f t before fresh run) =
    let (cs, w, same) = Puts-texts v before in
    let (q2, run2, holds, kept) = put_section-HoldsChain f t r cs fresh w in
    (
      (f, take text_size t) ∷ cs,
      subst (λ x. HoldsChain x ((f, take text_size t) ∷ cs)) (same_some run2 run) holds,
      ap (λ l. take text_size t ∷ l) same,
    )

texts-append : (xs ys : Cells) → texts (xs ++ ys) ≡ texts xs ++ texts ys
texts-append [] ys = refl
texts-append ((p, t) ∷ xs) ys = ap (λ l. t ∷ l) (texts-append xs ys)

get_all_run :
    (size n : ℕ) (q r s : Counting.Queue) (t : Text) (ts : List Text)
    → get_section size q ≡ some (r, t)
    → get_all size n r ≡ some (s, ts)
    → get_all size (suc n) q ≡ some (s, t ∷ ts)
unfolding get_all
get_all_run size n q r s t ts e f = simp (e, f)

length-map : (f : Text → Text) (ts : List Text) → length (map f ts) ≡ length ts
length-map f [] = refl
length-map f (t ∷ ts) = ap suc (length-map f ts)

oldest_first :
    (f : Text → Text) (xs : Cells) (p : Ptr) (t : Text) (cs : Cells)
    → cs ≡ xs ++ (p, t) ∷ []
    → map f (reverse (texts cs)) ≡ f t ∷ map f (reverse (texts xs))
oldest_first f xs p t cs e =
    rw (e, texts-append xs ((p, t) ∷ []), reverse-append (texts xs) (t ∷ [])) refl

get_all-HoldsChain :
    (size n : ℕ) (q : Counting.Queue) (cs : Cells)
    → 0 < size
    → HoldsChain q cs
    → length cs ≡ n
    → (q' : Counting.Queue) × (get_all size n q
        ≡ some (q', map (take (size - 1)) (reverse (texts cs))))
      × HoldsChain q' []
get_all-HoldsChain size zero q [] h v e = (q, unfold get_all in refl, v)
get_all-HoldsChain size zero q (c ∷ cs) h v e = absurd (omega arith)
get_all-HoldsChain size (suc n) q [] h v e = absurd (omega arith)
get_all-HoldsChain size (suc n) q ((p, t) ∷ cs) h v e =
    let (xs, r, u, same, rest) = unsnoc p t cs in
    let (q1, run, holds, kept) =
      get_section-HoldsChain size q xs r u h (subst (HoldsChain q) same v) in
    let (q2, runs, empty) =
      get_all-HoldsChain size n q1 xs h holds
        (omega (arith, ap length same, length-append xs ((r, u) ∷ []))) in
    (
      q2,
      get_all_run size n q q1 q2 _ _ run runs
          ∙ ap (λ l. some (q2, l)) (sym (oldest_first (take (size - 1)) xs r u _ same)),
      empty,
    )

-- After any puts to an empty queue as many gets return the texts in the order of the puts, each
-- cut at the size of the array and before the last byte of the buffer, which is not empty, and leave the queue empty.
pub get_all-Puts :
    (buffer_length : ℕ) {q q' : Counting.Queue} {ts : List Text}
    → 0 < buffer_length
    → HoldsChain q []
    → Puts q ts q'
    → (q'' : Counting.Queue) × (get_all buffer_length (length ts) q'
        ≡ some (q'', map (take (buffer_length - 1)) (reverse (map (take text_size) ts))))
      × HoldsChain q'' []
get_all-Puts size {q} {q'} {ts} h v p =
    let (cs, w, same) = Puts-texts v p in
    let sizes = sym (length-texts cs) ∙ ap length same ∙ length-map (take text_size) ts in
    let (q2, run, empty) = get_all-HoldsChain size (length ts) q' cs h w sizes in
    (q2, run ∙ ap (λ l. some (q2, map (take (size - 1)) (reverse l))) same, empty)
