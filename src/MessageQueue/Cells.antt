-- ===== src/MessageQueue/Cells.antt =====
-- Messages on the heap, and the doubly linked chains that the queues keep (`struct Message` of
-- Lab23/main.c; those of Lab24 and Lab23-24 have the same fields in another order).
pub mod Chain
use os_posix.Prelude.{
  ℕ, zero, suc, ◌≡◌, Bool, true, false, ◌||◌, Option, none, some, List, [], ◌∷◌, ◌==◌,
  if◌then◌else◌,
}

abbrev pub Ptr : Type 0
Ptr = ℕ

abbrev pub null : Ptr
null = 0

-- The bytes before the NUL.
abbrev pub Text : Type 0
Text = List ℕ

pub record Message : Type 0 where
  pub text : Text
  pub next : Ptr
  pub prev : Ptr

abbrev pub message : Text → Ptr → Ptr → Message
message t n p = record { text = t; next = n; prev = p }

-- `none` at an address that holds no message.
abbrev pub Heap : Type 0
Heap = Ptr → Option Message

abbrev pub write : Heap → Ptr → Option Message → Heap
write h p m a = if a == p then m else h a

-- A read or write through a pointer, `none` at NULL and at an address that holds no message.
abbrev pub load : Heap → Ptr → Option Message
load h p = if p == null then none else h p

abbrev pub on_message : Option Message → (Message → Option Heap) → Option Heap
on_message none k = none
on_message (some m) k = k m

abbrev pub set_next : Heap → Ptr → Ptr → Option Heap
set_next h p q = on_message (load h p) λ m. some (write h p (some (record m { next = q })))

abbrev pub set_prev : Heap → Ptr → Ptr → Option Heap
set_prev h p q = on_message (load h p) λ m. some (write h p (some (record m { prev = q })))

-- What a chain stands for: address and text of each message, from the head (the newest message).
abbrev pub Cells : Type 0
Cells = List (Ptr × Text)

abbrev pub texts : Cells → List Text
texts [] = []
texts ((p, t) ∷ cs) = t ∷ texts cs

-- The first address of a chain that ends in `q`, and the last address of one that begins after `a`.
abbrev pub first : Cells → Ptr → Ptr
first [] q = q
first ((p, t) ∷ cs) q = p

abbrev pub final : Ptr → Cells → Ptr
final a [] = a
final a ((p, t) ∷ cs) = final p cs

abbrev pub has : Ptr → Cells → Bool
has a [] = false
has a ((p, t) ∷ cs) = (a == p) || has a cs

-- Each message points to its neighbours; `a` stands before the chain and `b` behind it.
abbrev pub Links : Heap → Ptr → Cells → Ptr → Type 0
Links h a [] b = Unit
Links h a ((p, t) ∷ cs) b = (h p ≡ some (message t (first cs b) a)) × Links h p cs b

-- The addresses are distinct and not NULL.
abbrev pub Distinct : Cells → Type 0
Distinct [] = Unit
Distinct ((p, t) ∷ cs) = ((p == null) ≡ false) × (has p cs ≡ false) × Distinct cs
