-- ===== src/Translator/Chain/Sweep.antt =====
-- The loop of Lab25/select_loop.c before `select`, over a chain.
use os_posix.Prelude.{
  ℕ, zero, suc, ◌<◌, ◌≡◌, refl, ap, sym, ◌∙◌, Bool, true, false, ◌||◌, none, some, List, [], ◌∷◌,
  ◌++◌, append_assoc, arith, ltb, ◌==◌, if◌then◌else◌, length, Bool-cases, inl, inr,
}
use mathlib.Core.Path.{subst}
use os_posix.Translator.{Connection, FdSets, is_stale, wanted}
use os_posix.Translator.Chain.{
  Ptr, null, Node, node, Heap, Connections, connection_drop, fd_setsize, Swept, fault, swept,
  update_max_fd, ask, sweep_node, sweep,
}
use os_posix.Translator.Chain.Links.{Cells, first, Links, Distinct, IsChain}
use os_posix.Translator.Chain.Drop.{connection_drop-IsChain}

abbrev pub any_stale : ℕ → Cells → Bool
any_stale now [] = false
any_stale now ((p, c) ∷ cs) = is_stale now c || any_stale now cs

-- What is asked of `select`, and the greatest descriptor.
abbrev pub wants : Cells → List FdSets
wants [] = []
wants ((p, c) ∷ cs) = wanted c ∷ wants cs

abbrev pub greater : ℕ → ℕ → ℕ
greater fd n = if ltb n fd then fd else n

abbrev pub greatest : Cells → ℕ → ℕ
greatest [] n = n
greatest ((p, c) ∷ cs) n = greatest cs (greater c.backend_fd (greater c.client_fd n))

abbrev pub InRange : Cells → Type 0
InRange [] = Unit
InRange ((p, c) ∷ cs) = ((c.client_fd < fd_setsize) × (c.backend_fd < fd_setsize)) × InRange cs

update_run : (fd n : ℕ) → fd < fd_setsize → update_max_fd fd n ≡ some (greater fd n)
unfolding update_max_fd
update_run fd n h = ground arith

-- The state at the head of the loop: `xs` was passed.
at_node :
    (h : Heap) (a : Ptr) (xs : Cells) (p : Ptr) (c : Connection) (ys : Cells)
    → Links h a (xs ++ (p, c) ∷ ys)
    → (b : Ptr) × (h p ≡ some (node c (first ys) b))
at_node h a [] p c ys l = (a, l.0)
at_node h a ((q, d) ∷ xs) p c ys l = at_node h q xs p c ys l.1

not_null :
    (xs : Cells) (p : Ptr) (c : Connection) (ys : Cells)
    → Distinct (xs ++ (p, c) ∷ ys)
    → (p == null) ≡ false
not_null [] p c ys u = u.0
not_null (x ∷ xs) p c ys u = not_null xs p c ys u.2

stale_turn :
    (k : Ptr → Connections → ℕ → Swept) (now : ℕ) (p : Ptr) (h : Heap) (head n : ℕ) (m : Node)
    {s : Connections}
    → is_stale now m.connection ≡ true
    → connection_drop p (h, head) ≡ some s
    → s.0 p ≡ none
    → sweep_node k now p (h, head) n m ≡ fault
stale_turn k now p h head n m st run gone = rw (st, run) (ground (arith, gone))

good_turn :
    (k : Ptr → Connections → ℕ → Swept) (now : ℕ) (p : Ptr) (s : Connections) (n : ℕ) (m : Node)
    → is_stale now m.connection ≡ false
    → m.connection.client_fd < fd_setsize
    → m.connection.backend_fd < fd_setsize
    → sweep_node k now p s n m
      ≡ ask
          (wanted m.connection)
          (k m.next s (greater m.connection.backend_fd (greater m.connection.client_fd n)))
good_turn k now p s n m st client backend = simp (
  st,
  update_run m.connection.client_fd n client,
  update_run m.connection.backend_fd (greater m.connection.client_fd n) backend,
)

sweep_step :
    (fuel now : ℕ) (p : Ptr) (h : Heap) (head n : ℕ) (m : Node)
    → (p == null) ≡ false
    → h p ≡ some m
    → sweep (suc fuel) now p (h, head) n
      ≡ sweep_node (λ q r k. sweep fuel now q r k) now p (h, head) n m
unfolding sweep
sweep_step fuel now p h head n m nn at = rw (nn, at) refl

ask_if :
    (w : FdSets) (b : Bool) (ws : List FdSets) (n : ℕ)
    → ask w (if b then fault else swept ws n) ≡ (if b then fault else swept (w ∷ ws) n)
ask_if w true ws n = refl
ask_if w false ws n = refl

IsChain-on :
    {h : Heap} {head : Ptr} (xs : Cells) (p : Ptr) (c : Connection) (ys : Cells)
    → IsChain h head (xs ++ (p, c) ∷ ys)
    → IsChain h head ((xs ++ (p, c) ∷ []) ++ ys)
IsChain-on {h} {head} xs p c ys v =
    subst (IsChain h head) (sym (append_assoc xs ((p, c) ∷ []) ys)) v

sweep_from :
    (fuel now : ℕ) (h : Heap) (head n : ℕ) (xs ys : Cells)
    → IsChain h head (xs ++ ys)
    → InRange ys
    → length ys < fuel
    → sweep fuel now (first ys) (h, head) n
      ≡ (if any_stale now ys then fault else swept (wants ys) (greatest ys n))
sweep_from zero now h head n xs ys v r e = absurd (omega arith)
sweep_from (suc fuel) now h head n xs [] v r e = unfold sweep in refl
sweep_from (suc fuel) now h head n xs ((p, c) ∷ ys) v r e =
    let (b, at) = at_node h null xs p c ys v.links in
    let nn = not_null xs p c ys v.distinct in
    let m = node c (first ys) b in
    let k : Ptr → Connections → ℕ → Swept = λ q r j. sweep fuel now q r j in
    sweep_step fuel now p h head n m nn at ∙ elim (Bool-cases (is_stale now c)) [
      | inl old ↦
          let (h', run, rest, gone) = connection_drop-IsChain h head xs p c ys v in
          stale_turn k now p h head n m old run gone ∙ rw old refl
      | inr good ↦
          good_turn k now p (h, head) n m good r.0.0 r.0.1
          ∙ ap (ask (wanted c)) (
              sweep_from fuel now h head (greater c.backend_fd (greater c.client_fd n))
                (xs ++ (p, c) ∷ []) ys (IsChain-on xs p c ys v) r.1 (omega arith))
          ∙ ask_if (wanted c) (any_stale now ys) (wants ys) _
          ∙ rw good refl
    ]

-- With descriptors below FD_SETSIZE and fuel for one turn more than there are connections, the loop
-- reads a freed connection if any connection is broken or silent for more than four seconds; and
-- if none is, `select` is asked for the sockets of each, and the greatest descriptor is found.
pub sweep_lem :
    (fuel now : ℕ) (h : Heap) (head frontend : ℕ) (cs : Cells)
    → IsChain h head cs
    → InRange cs
    → length cs < fuel
    → sweep fuel now head (h, head) frontend
      ≡ (if any_stale now cs then fault else swept (wants cs) (greatest cs frontend))
sweep_lem fuel now h head n cs v r e =
    ap (λ p. sweep fuel now p (h, head) n) v.head ∙ sweep_from fuel now h head n [] cs v r e
