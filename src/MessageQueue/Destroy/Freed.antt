-- ===== src/MessageQueue/Destroy/Freed.antt =====
-- The heap before and after `mymsgdestroy` of Lab23/main.c and Lab24/main.c.
use os_posix.Prelude.{◌≡◌, refl, ◌∙◌, false, none, some, [], ◌∷◌, arith, if◌then◌else◌, length}
use os_posix.MessageQueue.Cells.{Ptr, null, Text, Heap, Cells, first, has, Links, Distinct}
use os_posix.MessageQueue.Cells.Chain.{Links-frame, has-ne}
use os_posix.MessageQueue.Destroy.{free_message, free_from}

-- The heap without the messages of a chain.
abbrev pub without : Cells → Heap → Heap
without cs h p = if has p cs then none else h p

pub Links-after :
    (h : Heap) (a : Ptr) (cs : Cells) (b p : Ptr)
    → has p cs ≡ false
    → Links h a cs b
    → Links (free_message h p) a cs b
Links-after h a cs b p out l =
    Links-frame h (free_message h p) a cs b (λ q i. let ne = has-ne p q cs out i in ground arith) l

without_both :
    (q : Ptr) (t : Text) (cs : Cells) (h : Heap) (p : Ptr)
    → without cs (free_message h q) p ≡ without ((q, t) ∷ cs) h p
without_both q t cs h p = ground arith

-- With fuel for as many messages as there are, `mymsgdestroy` reads no freed message, and the heap
-- that it leaves has lost the messages of the chain and no others.
pub free_from-without :
    (h : Heap) (a : Ptr) (cs : Cells)
    → Links h a cs null
    → Distinct cs
    → (h' : Heap) × (free_from (length cs) h (first cs null) ≡ some h')
      × ((p : Ptr) → h' p ≡ without cs h p)
unfolding free_from
free_from-without h a [] l d = (h, refl, λ p. refl)
free_from-without h a ((q, t) ∷ cs) l d =
    let (h', run, same) =
      free_from-without (free_message h q) q cs (Links-after h q cs null q d.1 l.1) d.2 in
    (h', rw (d.0, l.0) run, λ p. same p ∙ without_both q t cs h p)
