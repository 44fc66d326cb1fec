-- ===== src/Copy/Files/Ends.antt =====
-- When the loop of `copyFile` in Lab6/main.c ends, and when it does not.
use os_posix.Prelude.{
  ℕ, zero, suc, ◌≤◌, ◌≡◌, refl, ap, ◌∙◌, inl, inr, true, false, ◌&&◌, some, List, [], ◌∷◌, ◌++◌,
  append_assoc, append-nil, arith, length, length-drop, drop, replicate,
}
use os_posix.Proxy.Memory.{Bytes}
use os_posix.Copy.{Write, wrote, interrupted, failed, write_block}
use os_posix.Copy.Blocks.{Writes, Writes-less, List-cases}
use os_posix.Copy.Files.{
  Opening, got, at_end, Copying, running, ended, errno_after, copy_block, Turn, copy_loop, new_file,
  open_file, copy_file,
}
use os_posix.Copy.Files.Turns.{Block, reads, content, copy_loop-got, copy_block_run}

-- No interruption among the calls for a block.
abbrev pub Uninterrupted : List Write → Type 0
Uninterrupted [] = Unit
Uninterrupted (interrupted ∷ ws) = ⊥
Uninterrupted (w ∷ ws) = Uninterrupted ws

errno_after-false :
    (ws : List Write) (left : Bytes) → Uninterrupted ws → errno_after ws left false ≡ false
unfolding errno_after
errno_after-false [] left u = refl
errno_after-false (failed ∷ ws) left u = refl
errno_after-false (interrupted ∷ ws) left u = elim u [ ]
errno_after-false (wrote n ∷ ws) left u = ground (arith, errno_after-false ws (drop n left) u)

-- The calls write the whole block.
abbrev pub AllWritten : List Block → Type 0
AllWritten [] = Unit
AllWritten ((b, bs, ws) ∷ l) = (Writes ws (suc (length bs)) × Uninterrupted ws) × AllWritten l

-- When every block is written whole, without an interruption, the loop ends at the end of the file
-- without an error, and the blocks are in the file.
copy_loop-reads :
    (blocks : List Block) (ws : List Write) (ts : List Turn) (s : Copying)
    → AllWritten blocks
    → s.eintr ≡ false
    → copy_loop (reads blocks ++ (at_end, ws) ∷ ts) s
      ≡ ended (record { file = s.file ++ content blocks; eintr = false; ok = s.ok })
unfolding copy_loop
copy_loop-reads [] ws ts s all e = ground (arith, e, append-nil s.file)
copy_loop-reads ((b, bs, ws1) ∷ blocks) ws ts s ((w, u), all) e =
    let r : Copying = record {
      file = s.file ++ b ∷ bs;
      eintr = errno_after ws1 (b ∷ bs) s.eintr;
      ok = s.ok && true;
    } in
    copy_loop-got b bs ws1 (reads blocks ++ (at_end, ws) ∷ ts) s r (copy_block_run b bs ws1 s w)
    ∙ copy_loop-reads blocks ws ts r all
        (ap (errno_after ws1 (b ∷ bs)) e ∙ errno_after-false ws1 (b ∷ bs) u)
    ∙ ground (arith, append_assoc s.file (b ∷ bs) (content blocks))

-- When both files are opened, each block is written whole without an interruption, and `read` meets
-- no error, `copyFile` returns EXIT_SUCCESS, and the new file holds what was read, if both files
-- can be closed.
pub copy_file-reads :
    (sources destinations : List Opening) (blocks : List Block) (ws : List Write) (ts : List Turn)
    → open_file sources ≡ some true
    → open_file destinations ≡ some true
    → AllWritten blocks
    → copy_file sources destinations (reads blocks ++ (at_end, ws) ∷ ts) true true
      ≡ ended (record { file = content blocks; eintr = false; ok = true })
unfolding copy_file
copy_file-reads os1 os2 blocks ws ts o1 o2 all =
    rw (o1, o2, copy_loop-reads blocks ws ts new_file all refl) refl

-- At the end of a file `write` is called for no bytes, and returns 0.
abbrev pub ends : ℕ → List Turn
ends n = replicate n (at_end, wrote 0 ∷ [])

ends_running : (n : ℕ) (s : Copying) → s.eintr ≡ true → copy_loop (ends n) s ≡ running
unfolding copy_loop copy_block write_block errno_after
ends_running zero s e = refl
ends_running (suc n) s e = ground (
  arith,
  e,
  ends_running n (record { file = s.file ++ []; eintr = s.eintr; ok = s.ok && true }) e,
)

errno_after-true :
    (ws : List Write) (b : ℕ) (left : Bytes)
    → Writes ws (suc (length left))
    → errno_after ws (b ∷ left) true ≡ true
unfolding errno_after
errno_after-true (interrupted ∷ ws) b left w = ground (arith, errno_after-true ws b left w)
errno_after-true (wrote zero ∷ ws) b left w = ground (arith, errno_after-true ws b left w)
errno_after-true (wrote (suc n) ∷ ws) b left w = elim (List-cases (drop n left)) [
  | inl nothing ↦ rw nothing refl
  | inr (c, cs, more) ↦
      let shorter : suc (length cs) ≤ length left =
        omega (arith, length-drop n left, ap length more) in
      rw more (
        ground (
          arith,
          errno_after-true ws c cs (Writes-less ws (length left) (suc (length cs)) shorter w),
        ))
]
errno_after-true [] b left w = elim w [ ]
errno_after-true (failed ∷ ws) b left w = elim w [ ]

-- When a `write` for the last block was interrupted, and the block was then written whole, the loop
-- does not end at the end of the file: it is still running after any number of turns in which
-- `read` returns 0.
pub interrupted_copy_runs :
    (b : ℕ) (bs : Bytes) (ws : List Write) (s : Copying) (n : ℕ)
    → Writes ws (suc (length bs))
    → copy_loop ((got b bs, interrupted ∷ ws) ∷ ends n) s ≡ running
interrupted_copy_runs b bs ws s n w =
    let r : Copying = record {
      file = s.file ++ b ∷ bs;
      eintr = errno_after (interrupted ∷ ws) (b ∷ bs) s.eintr;
      ok = s.ok && true;
    } in
    copy_loop-got b bs (interrupted ∷ ws) (ends n) s r (copy_block_run b bs (interrupted ∷ ws) s w)
    ∙ ends_running n r (unfold errno_after in ground (arith, errno_after-true ws b bs w))
