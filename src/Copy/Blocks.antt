-- ===== src/Copy/Blocks.antt =====
-- The loop of Lab6/main.c that writes a block.
use os_posix.Prelude.{
  ℕ, zero, suc, ◌≤◌, ◌≡◌, ◌⊎◌, refl, sym, ap, ◌∙◌, inl, inr, true, false, some, List, [], ◌∷◌, ◌++◌,
  append_assoc, append-nil, arith, ◌==◌, length, length-drop, take, drop, take-append-drop,
}
use os_posix.Proxy.Memory.{Bytes}
use os_posix.Copy.{Write, wrote, interrupted, failed, write_block}

-- No other error, and as many turns that write something as there are bytes.
abbrev pub Writes : List Write → ℕ → Type 0
Writes rs zero = Unit
Writes [] (suc left) = ⊥
Writes (failed ∷ rs) (suc left) = ⊥
Writes (interrupted ∷ rs) (suc left) = Writes rs (suc left)
Writes (wrote zero ∷ rs) (suc left) = Writes rs (suc left)
Writes (wrote (suc n) ∷ rs) (suc left) = Writes rs left

pub Writes-less : (rs : List Write) (n k : ℕ) → k ≤ n → Writes rs n → Writes rs k
Writes-less rs n zero l h = tt
Writes-less [] zero (suc k) l h = absurd (omega arith)
Writes-less [] (suc n) (suc k) l h = h
Writes-less (r ∷ rs) zero (suc k) l h = absurd (omega arith)
Writes-less (failed ∷ rs) (suc n) (suc k) l h = h
Writes-less (interrupted ∷ rs) (suc n) (suc k) l h = Writes-less rs (suc n) (suc k) l h
Writes-less (wrote zero ∷ rs) (suc n) (suc k) l h = Writes-less rs (suc n) (suc k) l h
Writes-less (wrote (suc m) ∷ rs) (suc n) (suc k) l h = Writes-less rs n k (omega arith) h

pub List-cases : (bs : Bytes) → (bs ≡ []) ⊎ ((c : ℕ) × (cs : Bytes) × (bs ≡ c ∷ cs))
List-cases [] = inl refl
List-cases (c ∷ cs) = inr (c, cs, refl)

-- A block that is not empty is appended to the file as it is, whatever parts the calls of `write`
-- take and however often they are interrupted, when there is no other error and there are as many
-- calls that write something as there are bytes.
pub write_block_lem :
    (rs : List Write) (b : ℕ) (left file : Bytes)
    → Writes rs (suc (length left))
    → write_block rs (b ∷ left) file ≡ some (file ++ b ∷ left, true)
unfolding write_block
write_block_lem (interrupted ∷ rs) b left file h =
    let more : (suc (length left) == 0) ≡ false = ground arith in
    rw more (write_block_lem rs b left file h)
write_block_lem (wrote zero ∷ rs) b left file h =
    let more : (suc (length left) == 0) ≡ false = ground arith in
    rw (append-nil file, more) (write_block_lem rs b left file h)
write_block_lem (wrote (suc n) ∷ rs) b left file h =
    let parts = take-append-drop n left in
    let count = length-drop n left in
    elim (List-cases (drop n left)) [
      | inl nothing ↦
          let all : take n left ≡ left =
            sym (append-nil (take n left)) ∙ ap (λ x. take n left ++ x) (sym nothing) ∙ parts in
          rw (nothing, all) refl
      | inr (c, cs, more) ↦
          let some_left : (length (c ∷ cs) == 0) ≡ false = ground arith in
          let whole : take n left ++ c ∷ cs ≡ left =
            ap (λ x. take n left ++ x) (sym more) ∙ parts in
          let shorter : suc (length cs) ≤ length left = omega (arith, count, ap length more) in
          rw (more, some_left)
            (write_block_lem rs c cs (file ++ b ∷ take n left)
                (Writes-less rs (length left) (suc (length cs)) shorter h)
              ∙ ap (λ x. some (x, true))
                  (append_assoc file (b ∷ take n left) (c ∷ cs) ∙ ap (λ x. file ++ b ∷ x) whole))
    ]
write_block_lem [] b left file h = elim h [ ]
write_block_lem (failed ∷ rs) b left file h = elim h [ ]
