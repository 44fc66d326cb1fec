-- ===== src/MessageQueue/Cells/Chain.antt =====
-- Chains under the writes of the queues: a message linked in at the head, and the last one
-- unlinked.
use os_posix.Prelude.{
  ◌≡◌, refl, ◌∙◌, ◌≢◌, true, false, ◌||◌, Option, none, some, [], ◌∷◌, ◌++◌, arith, ◌==◌,
}
use os_posix.MessageQueue.Cells.{
  Ptr, null, Text, Message, message, Heap, write, load, Cells, first, final, has, Links, Distinct,
}

pub has-append : (a : Ptr) (xs ys : Cells) → has a (xs ++ ys) ≡ (has a xs || has a ys)
has-append a [] ys = refl
has-append a (x ∷ xs) ys = ground (arith, has-append a xs ys)

pub has-init : (a : Ptr) (xs ys : Cells) → has a (xs ++ ys) ≡ false → has a xs ≡ false
has-init a xs ys e = ground (arith, has-append a xs ys)

pub has-ne : (a b : Ptr) (cs : Cells) → has a cs ≡ false → has b cs ≡ true → (a == b) ≡ false
has-ne a b [] out i = cc
has-ne a b ((p, t) ∷ cs) out i = ground (arith, has-ne a b cs)

pub write_other :
    (h : Heap) (p q : Ptr) (m : Option Message) → (q == p) ≡ false → write h p m q ≡ h q
write_other h p q m ne = rw ne

pub Links-frame :
    (h g : Heap) (a : Ptr) (cs : Cells) (b : Ptr)
    → ((p : Ptr) → has p cs ≡ true → g p ≡ h p)
    → Links h a cs b
    → Links g a cs b
Links-frame h g a [] b same l = tt
Links-frame h g a ((p, t) ∷ cs) b same l =
    (ground (arith, same p), Links-frame h g p cs b (λ q i. same q (ground arith)) l.1)

pub Distinct-init : (xs ys : Cells) → Distinct (xs ++ ys) → Distinct xs
Distinct-init [] ys d = tt
Distinct-init ((p, t) ∷ xs) ys d =
    (d.0, ground (arith, has-append p xs ys), Distinct-init xs ys d.2)

-- The last message of a chain, and its `prev`.
pub Links-last :
    (h : Heap) (a : Ptr) (xs : Cells) (p : Ptr) (t : Text) (b : Ptr)
    → Links h a (xs ++ (p, t) ∷ []) b
    → h p ≡ some (message t b (final a xs))
Links-last h a [] p t b l = l.0
Links-last h a ((q, u) ∷ xs) p t b l = Links-last h q xs p t b l.1

pub final-append : (a : Ptr) (xs : Cells) (p : Ptr) (t : Text) → final a (xs ++ (p, t) ∷ []) ≡ p
final-append a [] p t = refl
final-append a ((q, u) ∷ xs) p t = final-append q xs p t

pub has-final :
    (q : Ptr) (u : Text) (a : Ptr) (xs : Cells) → has (final a ((q, u) ∷ xs)) ((q, u) ∷ xs) ≡ true
has-final q u a [] = ground arith
has-final q u a ((r, w) ∷ xs) = ground (arith, has-final r w q xs)

-- The first address of a chain is not that of its last message, unless there is one message.
pub first-ne-last :
    (c : Ptr × Text) (xs : Cells) (p : Ptr) (t : Text) (b : Ptr)
    → Distinct (c ∷ xs ++ (p, t) ∷ [])
    → (first (c ∷ xs) b == p) ≡ false
first-ne-last (q, u) xs p t b d = ground (arith, has-append q xs ((p, t) ∷ []))

-- The last message but one can be read, and without its successor the chain ends in it.
pub Links-unlink :
    (h : Heap) (a q : Ptr) (u : Text) (xs : Cells) (p : Ptr) (t : Text)
    → Distinct ((q, u) ∷ xs ++ (p, t) ∷ [])
    → Links h a ((q, u) ∷ xs ++ (p, t) ∷ []) null
    → (m : Message) × (load h (final q xs) ≡ some m)
      × Links (write h (final q xs) (some (record m { next = null }))) a ((q, u) ∷ xs) null
Links-unlink h a q u [] p t d l = (message u p a, ground arith, (ground arith, tt))
Links-unlink h a q u ((r, w) ∷ xs) p t d l =
    let (m, e, l') = Links-unlink h q r w xs p t d.2 l.1 in
    (
      m,
      e,
      (
        write_other h _ q _ (
              has-ne q _ ((r, w) ∷ xs) (has-init q ((r, w) ∷ xs) ((p, t) ∷ []) d.1)
                (has-final r w q xs))
            ∙ l.0,
        l',
      ),
    )

-- A new message before the head, on a fresh address.
pub Links-push :
    (h : Heap) (f : Ptr) (t : Text) (q : Ptr) (u : Text) (cs : Cells)
    → (f == null) ≡ false
    → has f ((q, u) ∷ cs) ≡ false
    → Distinct ((q, u) ∷ cs)
    → Links h null ((q, u) ∷ cs) null
    → Links
        (write (write h f (some (message t q null))) q (some (message u (first cs null) f)))
        null
        ((f, t) ∷ (q, u) ∷ cs)
        null
Links-push h f t q u cs nf fresh d l =
    (ground arith, (ground arith, Links-frame h _ q cs null (λ p i. ground arith) l.1))

-- Is `f` an address that `malloc` may return?
abbrev pub IsFresh : Heap → Ptr → Type 0
IsFresh h f = (f ≢ null) × (h f ≡ none)

pub IsFresh-has :
    (h : Heap) (f a : Ptr) (cs : Cells) (b : Ptr) → IsFresh h f → Links h a cs b → has f cs ≡ false
IsFresh-has h f a [] b n l = refl
IsFresh-has h f a ((p, t) ∷ cs) b n l = ground (arith, IsFresh-has h f p cs b n l.1)

pub Distinct-last :
    (xs : Cells) (p : Ptr) (t : Text)
    → Distinct (xs ++ (p, t) ∷ [])
    → ((p == null) ≡ false) × (has p xs ≡ false)
Distinct-last [] p t d = (d.0, refl)
Distinct-last ((q, u) ∷ xs) p t d =
    let (nn, out) = Distinct-last xs p t d.2 in (nn, ground (arith, has-append q xs ((p, t) ∷ [])))
