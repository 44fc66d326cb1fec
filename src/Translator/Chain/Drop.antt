-- ===== src/Translator/Chain/Drop.antt =====
-- `connection_drop` of Lab25/connection.c on a chain.
use os_posix.Prelude.{
  ◌≡◌, refl, ap, ◌∙◌, true, false, Option, none, some, [], ◌∷◌, ◌++◌, arith, Bool-cases, inl, inr,
  ◌==◌,
}
use os_posix.Translator.{Connection}
use os_posix.Translator.Chain.{
  Ptr, null, Node, node, Heap, write, load, Connections, skip_next, skip_prev, connection_drop,
}
use os_posix.Translator.Chain.Links.{
  Cells, first, has, Links, Distinct, IsChain, has-append, Links-frame, has-ne,
}

-- The part behind the dropped connection.
drop_tail :
    (g : Heap) (p : Ptr) (c : Connection) (a hd : Ptr) (ys : Cells)
    → Links g p ys
    → Distinct ((p, c) ∷ ys)
    → (g' : Heap) × (skip_prev p (node c (first ys) a) (g, hd) ≡ some (g', hd))
      × Links g' a ys
      × ((q : Ptr) → has q ((p, c) ∷ ys) ≡ false → g' q ≡ g q)
      × (g' p ≡ none)
drop_tail g p c a hd [] l d = (write g p none, refl, tt, (λ q out. ground arith), ground arith)
drop_tail g p c a hd ((r, e) ∷ zs) l d =
    let g' : Heap = write (write g r (some (node e (first zs) a))) p none in
    (
      g',
      ground arith,
      (ground arith, Links-frame g g' r zs (λ q i. ground arith) l.1),
      (λ q out. ground arith),
      ground arith,
    )

-- The part before it: the last connection `b` there, and what the chain is when its `next` is set.
drop_front :
    (h : Heap) (a q : Ptr) (d : Connection) (xs : Cells) (p : Ptr) (c : Connection) (ys : Cells)
    → Links h a ((q, d) ∷ xs ++ (p, c) ∷ ys)
    → Distinct ((q, d) ∷ xs ++ (p, c) ∷ ys)
    → (b : Ptr) × (m : Node) × (h p ≡ some (node c (first ys) b))
      × (load h b ≡ some m)
      × (has b ((q, d) ∷ xs) ≡ true)
      × Links h p ys
      × ((g : Heap)
          → g b ≡ some (record m { next = first ys })
          → Links g b ys
          → ((r : Ptr) → has r ((q, d) ∷ xs) ≡ true → (r == b) ≡ false → g r ≡ h r)
          → Links g a ((q, d) ∷ xs ++ ys))
drop_front h a q d [] p c ys l u =
    (q, node d p a, l.1.0, ground arith, ground arith, l.1.1, λ g at rest same. (at, rest))
drop_front h a q d ((r, e) ∷ xs) p c ys l u =
    let out : has q ((r, e) ∷ xs) ≡ false =
      ground (arith, u, has-append q ((r, e) ∷ xs) ((p, c) ∷ ys)) in
    let (b, m, at_p, at_b, inside, rest, relink) = drop_front h q r e xs p c ys l.1 u.2 in
    (
      b,
      m,
      at_p,
      at_b,
      ground (arith, inside),
      rest,
      λ g at links same. (
        same q (ground arith) (ground (arith, has-ne q b ((r, e) ∷ xs) out inside)) ∙ l.0,
        relink g at links (λ x i ne. same x (ground arith) ne),
      ),
    )

Distinct-tail : (xs ys : Cells) → Distinct (xs ++ ys) → Distinct ys
Distinct-tail [] ys u = u
Distinct-tail (x ∷ xs) ys u = Distinct-tail xs ys u.2

Distinct-without :
    (xs : Cells) (p : Ptr) (c : Connection) (ys : Cells)
    → Distinct (xs ++ (p, c) ∷ ys)
    → Distinct (xs ++ ys)
Distinct-without [] p c ys u = u.2
Distinct-without ((q, d) ∷ xs) p c ys u = (
  u.0,
  ground (arith, u, has-append q xs ((p, c) ∷ ys), has-append q xs ys),
  Distinct-without xs p c ys u.2,
)

-- No address stands on both sides.
apart : (xs ys : Cells) (q : Ptr) → Distinct (xs ++ ys) → has q xs ≡ true → has q ys ≡ false
apart [] ys q u i = cc
apart ((r, e) ∷ xs) ys q u i = elim (Bool-cases (q == r)) [
  | inl same ↦ ground (arith, u, has-append r xs ys)
  | inr other ↦ apart xs ys q u.2 (ground arith)
]

drop_run :
    (p : Ptr) (h : Heap) (head : Ptr) (m : Node) {s : Connections}
    → load h p ≡ some m
    → skip_next p m (h, head) ≡ some s
    → connection_drop p (h, head) ≡ skip_prev p m s
unfolding connection_drop
drop_run p h head m at next = rw (at, next) refl

write_same : (h : Heap) (p : Ptr) (m : Option Node) → write h p m p ≡ m
write_same h p m = ground arith

write_other : (h : Heap) (p q : Ptr) (m : Option Node) → (q == p) ≡ false → write h p m q ≡ h q
write_other h p q m ne = rw ne

behind : (b p : Ptr) (c : Connection) (ys : Cells) → has b ((p, c) ∷ ys) ≡ false → has b ys ≡ false
behind b p c ys out = ground arith

-- The dropped connection is not the first.
not_first :
    (h : Heap) (p q head : Ptr) (c : Connection) (b : Ptr) (m : Node) (ys : Cells) (d : Connection)
    (xs : Cells)
    → head ≡ q
    → has q ((p, c) ∷ ys) ≡ false
    → load h b ≡ some m
    → skip_next p (node c (first ys) b) (h, head)
      ≡ some (write h b (some (record m { next = first ys })), head)
not_first h p q head c b m ys d xs e out at =
    let other : (p == head) ≡ false = ground arith in rw (other, at) refl

-- A connection anywhere in the chain is dropped without a fault: the others are the chain then, in
-- their order, and its memory is free.
pub connection_drop-IsChain :
    (h : Heap) (head : Ptr) (xs : Cells) (p : Ptr) (c : Connection) (ys : Cells)
    → IsChain h head (xs ++ (p, c) ∷ ys)
    → (h' : Heap) × (connection_drop p (h, head) ≡ some (h', first (xs ++ ys)))
      × IsChain h' (first (xs ++ ys)) (xs ++ ys)
      × (h' p ≡ none)
connection_drop-IsChain h head [] p c ys v =
    let (h', run, links, frame, gone) = drop_tail h p c null (first ys) ys v.links.1 v.distinct in
    (
      h',
      drop_run p h head (node c (first ys) null) (ground (arith, v.links, v.distinct))
            (ground (arith, v.head))
          ∙ run,
      record { head = refl; links = links; distinct = v.distinct.2 },
      gone,
    )
connection_drop-IsChain h head ((q, d) ∷ xs) p c ys v =
    let (b, m, at_p, at_b, inside, rest, relink) =
      drop_front h null q d xs p c ys v.links v.distinct in
    let u = Distinct-tail ((q, d) ∷ xs) ((p, c) ∷ ys) v.distinct in
    let out : (x : Ptr) → has x ((q, d) ∷ xs) ≡ true → has x ((p, c) ∷ ys) ≡ false =
      λ x i. apart ((q, d) ∷ xs) ((p, c) ∷ ys) x v.distinct i in
    let g : Heap = write h b (some (record m { next = first ys })) in
    let kept =
      Links-frame h g p ys
        (λ x i. write_other h b x _ (has-ne b x ys (behind b p c ys (out b inside)) i)) rest in
    let (h', run, links, frame, gone) = drop_tail g p c b head ys kept u in
    (
      h',
      drop_run p h head (node c (first ys) b) (rw u.0 at_p)
            (not_first h p q head c b m ys d xs v.head (out q (ground arith)) at_b)
          ∙ run
          ∙ ap (λ x. some (h', x)) v.head,
      record {
        head = refl;
        links =
            relink h' (frame b (out b inside) ∙ write_same h b _) links
              (λ x i ne. frame x (out x i) ∙ write_other h b x _ ne);
        distinct = Distinct-without ((q, d) ∷ xs) p c ys v.distinct;
      },
      gone,
    )
