-- ===== src/Prelude/Family.antt =====
-- Families `ℕ → A`: arrays indexed by thread, or by philosopher.
use Prim.Native.Nat.{ℕ}
use mathlib.Core.Path.{◌≡◌, subst}
use mathlib.Core.Logic.{ite, ◌≢◌}
use native.Mathlib.Decide.{ℕ_discrete}
use native.Mathlib.Omega.{arith}

abbrev pub update {ℓ} : {A : Type ℓ} → (ℕ → A) → ℕ → A → ℕ → A
update f i a j = ite (ℕ_discrete i j) a (f j)

module _ {ℓ} {A : Type ℓ} where
  pub update_self : (f : ℕ → A) (i : ℕ) (a : A) → update f i a i ≡ a
  update_self f i a = ground arith

  pub update_ne : (f : ℕ → A) (i : ℕ) (a : A) (j : ℕ) → i ≢ j → update f i a j ≡ f j
  update_ne f i a j ne = ground arith

  -- A property of the entry at `j` holds after a write at `i`, if it holds of what is written,
  -- and of the old entry where `i` and `j` differ.
  pub update_elim {κ} :
      (P : ℕ → A → Type κ) (f : ℕ → A) (i : ℕ) (a : A) (j : ℕ)
      → P i a
      → (i ≢ j → P j (f j))
      → P j (update f i a j)
  update_elim P f i a j new old = elim (ℕ_discrete i j) [
    | yes e ↦ subst (λ k. P k (update f i a k)) e (rw (update_self f i a) new)
    | no ne ↦ rw (update_ne f i a j ne) (old ne)
  ]
