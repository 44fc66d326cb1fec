-- ===== src/Copy/Files/Success.antt =====
-- What the file holds when `copyFile` of Lab6/main.c returns EXIT_SUCCESS.
use os_posix.Prelude.{
  ℕ, ◌≡◌, refl, sym, ap, ◌∙◌, inl, inr, Bool, true, false, Option, none, some, List, [], ◌∷◌, ◌++◌,
  append_assoc, append-nil, arith, ◌==◌, if◌then◌else◌, length, take, drop, take-append-drop,
  Option-cases, Bool-cases,
}
use os_posix.Proxy.Memory.{Bytes}
use os_posix.Copy.{Write, wrote, interrupted, failed, write_block}
use os_posix.Copy.Files.{
  Opening, got, at_end, broken_off, refused, Copying, Copied, running, overrun, ended, copy_block,
  after, Turn, copy_loop, close_files, on_open, new_file, error, open_file, copy_file,
}
use os_posix.Copy.Files.Turns.{Block, reads, content, copy_loop-got}

nothing_left : (bs : Bytes) → (length bs == 0) ≡ true → bs ≡ []
nothing_left [] e = refl
nothing_left (b ∷ bs) e = absurd (ground arith)

taken_all : (n : ℕ) (bs : Bytes) → (length (drop n bs) == 0) ≡ true → take n bs ≡ bs
taken_all n bs e =
    sym (append-nil (take n bs))
    ∙ ap (λ x. take n bs ++ x) (sym (nothing_left (drop n bs) e))
    ∙ take-append-drop n bs

same_file :
    (f g : Bytes) (b c : Bool) → ◌≡◌ {A = Option (Bytes × Bool)} (some (f, b)) (some (g, c)) → f ≡ g
same_file f g b c e = ground arith

-- A block that was written without an error is in the file.
write_block-ok :
    (ws : List Write) (left file : Bytes) {f : Bytes}
    → write_block ws left file ≡ some (f, true)
    → f ≡ file ++ left
unfolding write_block
write_block-ok [] left file e = cc
write_block-ok (failed ∷ ws) left file e = cc
write_block-ok (interrupted ∷ ws) left file {f} e = elim (Bool-cases (length left == 0)) [
  | inl done ↦
      rw (nothing_left left done, append-nil file) (sym (same_file _ f true true (rw done at e)))
  | inr more ↦ write_block-ok ws left file (rw more at e)
]
write_block-ok (wrote n ∷ ws) left file {f} e = elim (Bool-cases (length (drop n left) == 0)) [
  | inl done ↦
      sym (same_file _ f true true (rw done at e)) ∙ ap (λ x. file ++ x) (taken_all n left done)
  | inr more ↦
      write_block-ok ws (drop n left) (file ++ take n left) (rw more at e)
      ∙ append_assoc file (take n left) (drop n left)
      ∙ ap (λ x. file ++ x) (take-append-drop n left)
]

-- So after it `returnValue` was EXIT_SUCCESS before it.
copy_block-ok :
    (ws : List Write) (left : Bytes) (s : Copying) {s' : Copying}
    → copy_block ws left s ≡ some s'
    → s'.ok ≡ true
    → (s'.file ≡ s.file ++ left) × (s.ok ≡ true)
unfolding copy_block
copy_block-ok ws left s {s'} e good = elim (Option-cases (write_block ws left s.file)) [
  | inl more ↦ absurd (ground (arith, e, more))
  | inr ((f, true), run) ↦
      let whole = write_block-ok ws left s.file run in ground (arith, e, run, whole)
  | inr ((f, false), run) ↦ absurd (ground (arith, e, run))
]

runs_on : {r : Copying} (o : Option Copying) → after (λ s'. running) o ≡ ended r → ⊥
runs_on none e = cc
runs_on (some x) e = cc

same_copying : (s r : Copying) → ended s ≡ ended r → s ≡ r
same_copying s r e = ground arith

last_turn :
    (b : Bool) (o : Option Copying) (s r : Copying)
    → (if b then after (λ s'. running) o else ended s) ≡ ended r
    → s ≡ r
last_turn true o s r e = absurd (runs_on o e)
last_turn false o s r e = same_copying s r e

no_more : (k : Copying → Copied) {r : Copying} → after k none ≡ ended r → ⊥
no_more k e = cc

-- When the loop ends without an error, the blocks are in the file.
copy_loop-ok :
    (blocks : List Block) (t : Turn) (s : Copying) {s' : Copying}
    → copy_loop (reads blocks ++ t ∷ []) s ≡ ended s'
    → s'.ok ≡ true
    → (s'.file ≡ s.file ++ content blocks) × (s.ok ≡ true)
unfolding copy_loop
copy_loop-ok [] (got b bs, ws) s e good = absurd (runs_on (copy_block ws (b ∷ bs) s) e)
copy_loop-ok [] (at_end, ws) s {s'} e good =
    let same : s ≡ s' = last_turn s.eintr (copy_block ws [] s) s s' e in
    (ap (λ r. r.file) (sym same) ∙ sym (append-nil s.file), ap (λ r. r.ok) same ∙ good)
copy_loop-ok [] (broken_off, ws) s e good = cc
copy_loop-ok [] (refused, ws) s e good = absurd (ground arith)
copy_loop-ok ((b, bs, ws) ∷ blocks) t s e good = elim (Option-cases (copy_block ws (b ∷ bs) s)) [
  | inl more ↦ absurd (no_more (λ r. copy_loop (reads blocks ++ t ∷ []) r) (rw more at e))
  | inr (r, run) ↦
      let (whole, fine) =
        copy_loop-ok blocks t r (sym (copy_loop-got b bs ws (reads blocks ++ t ∷ []) s r run) ∙ e)
          good in
      let (block, before) = copy_block-ok ws (b ∷ bs) s run fine in
      (
        whole ∙ ap (λ x. x ++ content blocks) block ∙ append_assoc s.file (b ∷ bs) (content blocks),
        before,
      )
]

both_ok :
    (close_in close_out : Bool) (c : Copied) {s' : Copying}
    → close_files close_in close_out c ≡ ended s'
    → s'.ok ≡ true
    → (s : Copying) × (c ≡ ended s) × (s.ok ≡ true) × (s'.file ≡ s.file)
both_ok close_in close_out running e good = cc
both_ok close_in close_out overrun e good = cc
both_ok close_in close_out (ended s) e good = (s, refl, ground (arith, e), ground (arith, e))

opened_ok :
    (o : Option Bool) (c : Copied) {s' : Copying}
    → on_open o c error ≡ ended s'
    → s'.ok ≡ true
    → c ≡ ended s'
opened_ok none c e good = cc
opened_ok (some true) c e good = e
opened_ok (some false) c e good = absurd (ground arith)

-- Whatever the calls of the system answer: when `copyFile` returns EXIT_SUCCESS after it read some
-- blocks and one `read` more, the new file holds exactly these blocks.
pub copy_file-ok :
    (sources destinations : List Opening) (blocks : List Block) (t : Turn)
    (close_in close_out : Bool) {s' : Copying}
    → copy_file sources destinations (reads blocks ++ t ∷ []) close_in close_out ≡ ended s'
    → s'.ok ≡ true
    → s'.file ≡ content blocks
unfolding copy_file
copy_file-ok os1 os2 blocks t cin cout e good =
    let inner = opened_ok (open_file os1) _ e good in
    let loop = opened_ok (open_file os2) _ inner good in
    let (s, run, fine, same) =
      both_ok cin cout (copy_loop (reads blocks ++ t ∷ []) new_file) loop good in
    same ∙ (copy_loop-ok blocks t new_file run fine).0
