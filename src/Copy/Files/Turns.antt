-- ===== src/Copy/Files/Turns.antt =====
-- The turns of the loop of `copyFile` in Lab6/main.c that read and write a block.
use os_posix.Prelude.{ℕ, suc, ◌≡◌, refl, true, ◌&&◌, some, List, [], ◌∷◌, ◌++◌, length}
use os_posix.Proxy.Memory.{Bytes}
use os_posix.Copy.{Write}
use os_posix.Copy.Blocks.{Writes, write_block_lem}
use os_posix.Copy.Files.{got, Copying, errno_after, copy_block, Turn, copy_loop}

-- A block that is not empty, and the calls that write it.
abbrev pub Block : Type 0
Block = ℕ × Bytes × List Write

abbrev pub reads : List Block → List Turn
reads [] = []
reads ((b, bs, ws) ∷ l) = (got b bs, ws) ∷ reads l

abbrev pub content : List Block → Bytes
content [] = []
content ((b, bs, ws) ∷ l) = (b ∷ bs) ++ content l

pub copy_loop-got :
    (b : ℕ) (bs : Bytes) (ws : List Write) (ts : List Turn) (s r : Copying)
    → copy_block ws (b ∷ bs) s ≡ some r
    → copy_loop ((got b bs, ws) ∷ ts) s ≡ copy_loop ts r
unfolding copy_loop
copy_loop-got b bs ws ts s r e = rw e

pub copy_block_run :
    (b : ℕ) (bs : Bytes) (ws : List Write) (s : Copying)
    → Writes ws (suc (length bs))
    → copy_block ws (b ∷ bs) s
      ≡ some (record {
        file = s.file ++ b ∷ bs;
        eintr = errno_after ws (b ∷ bs) s.eintr;
        ok = s.ok && true;
      })
unfolding copy_block
copy_block_run b bs ws s w = rw (write_block_lem ws b bs s.file w) refl
