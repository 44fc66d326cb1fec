-- ===== src/Proxy/Pool/Drop.antt =====
-- What `dropConnection` of Lab31/main.c leaves in the array of connections.
use os_posix.Prelude.{
  ℕ, zero, suc, ◌+◌, ◌-◌, ◌<◌, ◌≡◌, refl, Bool, List, [], ◌∷◌, ap, arith, ℕ_discrete, update,
  update_self,
}
use mathlib.Core.Path.{subst}
use mathlib.Core.List.{Perm}
use mathlib.Core.List.Perm
use os_posix.Proxy.Cache.{Connection, not_active}
use os_posix.Proxy.Pool.{Pool, deactivated, drop_connection}

-- The connections in use, the last one first.
abbrev pub slots : ℕ → (ℕ → Connection) → List Connection
slots zero f = []
slots (suc n) f = f n ∷ slots n f

pub slots-ext :
    (n : ℕ) (f g : ℕ → Connection) → ((i : ℕ) → i < n → f i ≡ g i) → slots n f ≡ slots n g
slots-ext zero f g h = refl
slots-ext (suc n) f g h = rw (h n (omega arith), slots-ext n f g (λ i l. h i (omega arith))) refl

exchange :
    (n i : ℕ) (f : ℕ → Connection) (a : Connection)
    → i < n
    → Perm (a ∷ slots n f) (f i ∷ slots n (update f i a))
exchange zero i f a h = absurd (omega arith)
exchange (suc n) i f a h = elim (ℕ_discrete i n) [
  | yes e ↦
      let written : update f i a n ≡ a = ground arith in
      let below = slots-ext n (update f i a) f (λ k l. ground arith) in
      rw (written, below, ap f e) (Perm.swap (f n) a (slots n f))
  | no ne ↦
      let kept : update f i a n ≡ f n = ground arith in
      let before = Perm.swap (f n) a (slots n f) in
      let inside = Perm.cons (f n) (exchange n i f a (omega arith)) in
      rw kept
        (Perm.trans before (Perm.trans inside (Perm.swap (f i) (f n) (slots n (update f i a)))))
]

moved_slots :
    (n i : ℕ) (f : ℕ → Connection) (c : Connection)
    → i < suc n
    → Perm (slots (suc n) f) (f i ∷ slots n (update (update f i (f n)) n c))
moved_slots n i f c h =
    let cut =
      slots-ext n (update (update f i (f n)) n c) (update f i (f n)) (λ k l. ground arith) in
    elim (ℕ_discrete i n) [
      | yes e ↦
          let below = slots-ext n (update f i (f n)) f (λ k l. ground arith) in
          rw (cut, below, ap f e) (Perm.refl (slots (suc n) f))
      | no ne ↦ rw cut (exchange n i f (f n) (omega arith))
    ]

-- Up to their order, the connections in use before `dropConnection` are the dropped one and those
-- in use after it, which are one less; and the slot behind those is not active.
pub drop_connection-slots :
    (i : ℕ) (server : Bool) (p : Pool)
    → i < p.count
    → Perm (slots p.count p.connections) (
        p.connections i
        ∷ slots (drop_connection i server p).count (drop_connection i server p).connections)
      × ((drop_connection i server p).count + 1 ≡ p.count)
      × (((drop_connection i server p).connections (drop_connection i server p).count).status
          ≡ not_active)
unfolding drop_connection
drop_connection-slots i server p h =
    let last = p.count - 1 in
    let e : suc last ≡ p.count = omega arith in
    let moved = update p.connections i (p.connections last) in
    let gone = deactivated (moved last) in
    (
      subst
          (λ k.
            Perm (slots k p.connections) (p.connections i ∷ slots last (update moved last gone)))
          e (moved_slots last i p.connections gone (omega arith)),
      omega arith,
      ap (λ c. c.status) (update_self moved last gone),
    )
