-- ===== src/Translator/Chain/Links.antt =====
-- Chains of connections on the heap of Lab25.
use os_posix.Prelude.{◌≡◌, refl, Bool, true, false, ◌||◌, some, List, [], ◌∷◌, ◌++◌, arith, ◌==◌}
use os_posix.Translator.{Connection}
use os_posix.Translator.Chain.{Ptr, null, node, Heap}

-- Address and connection, from `*connections` on.
abbrev pub Cells : Type 0
Cells = List (Ptr × Connection)

abbrev pub first : Cells → Ptr
first [] = null
first ((p, c) ∷ cs) = p

abbrev pub has : Ptr → Cells → Bool
has a [] = false
has a ((p, c) ∷ cs) = (a == p) || has a cs

-- Each connection points to its neighbours; `a` stands before the chain.
abbrev pub Links : Heap → Ptr → Cells → Type 0
Links h a [] = Unit
Links h a ((p, c) ∷ cs) = (h p ≡ some (node c (first cs) a)) × Links h p cs

abbrev pub Distinct : Cells → Type 0
Distinct [] = Unit
Distinct ((p, c) ∷ cs) = ((p == null) ≡ false) × (has p cs ≡ false) × Distinct cs

pub record IsChain (h : Heap) (start : Ptr) (cs : Cells) : Type 0 where
  pub head : start ≡ first cs
  pub links : Links h null cs
  pub distinct : Distinct cs

pub has-append : (a : Ptr) (xs ys : Cells) → has a (xs ++ ys) ≡ (has a xs || has a ys)
has-append a [] ys = refl
has-append a (x ∷ xs) ys = ground (arith, has-append a xs ys)

-- Writes elsewhere keep the chain.
pub Links-frame :
    (h g : Heap) (a : Ptr) (cs : Cells)
    → ((p : Ptr) → has p cs ≡ true → g p ≡ h p)
    → Links h a cs
    → Links g a cs
Links-frame h g a [] same l = tt
Links-frame h g a ((p, c) ∷ cs) same l =
    (ground (arith, same p), Links-frame h g p cs (λ q i. same q (ground arith)) l.1)

pub has-ne : (a b : Ptr) (cs : Cells) → has a cs ≡ false → has b cs ≡ true → (b == a) ≡ false
has-ne a b [] out i = cc
has-ne a b ((p, c) ∷ cs) out i = ground (arith, has-ne a b cs)
