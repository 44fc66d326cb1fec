-- ===== src/Copy.antt =====
-- Lab6/main.c: how a copy of a folder makes its paths, and how it writes a block of a file.
pub mod Blocks
pub mod Files
pub mod Paths
mod Tests
use os_posix.Prelude.{
  ℕ, zero, suc, ◌+◌, ◌-◌, Bool, true, false, Option, none, some, List, [], ◌∷◌, ◌++◌, ltb, ◌==◌,
  if◌then◌else◌, length, take, drop,
}
use os_posix.Proxy.Memory.{Bytes, Run, done, fault, ◌>>=◌}

-- `strcpy` and `strcat` into an array of this size; a text is its bytes before the NUL, which is
-- written too.
abbrev pub strcpy : ℕ → Bytes → Run Bytes
strcpy size t = if ltb (length t) size then done t else fault

abbrev pub strcat : ℕ → Bytes → Bytes → Run Bytes
strcat size s t = if ltb (length (s ++ t)) size then done (s ++ t) else fault

abbrev pub slash : ℕ
slash = b'/'

-- The calls that join a path and a name in an array.
unfoldable pub join_path : ℕ → Bytes → Bytes → Run Bytes
join_path size path name =
    strcpy size path >>= λ p. strcat size p (slash ∷ []) >>= λ q. strcat size q name

abbrev pub path_size : Bytes → Bytes → ℕ
path_size path name = length path + length name + 1

unfoldable pub build_new_path : Bytes → Bytes → Bytes → Run (Bytes × Bytes)
build_new_path source destination name = join_path (path_size source name) source name >>= λ s.
    join_path (path_size destination name) destination name >>= λ d. done (s, d)

-- A slash at the end is cut off; the test of an empty argument reads in front of the array.
abbrev pub without_slash : Bytes → Run Bytes
without_slash [] = fault
without_slash (b ∷ []) = done (if b == slash then [] else b ∷ [])
without_slash (b ∷ c ∷ t) = without_slash (c ∷ t) >>= λ rest. done (b ∷ rest)

-- `parseArguments` for one argument.
unfoldable pub parse_argument : Bytes → Run Bytes
parse_argument arg = strcpy (length arg) arg >>= without_slash

-- What a `write` does: so many bytes, an interruption, or another error.
pub data Write : Type 0 where
  wrote : ℕ → Write
  interrupted failed : Write

-- The loop that writes a block: what is left of it, and what the file holds; `none` if there are
-- more turns than results. The `Bool` says whether it went well.
unfoldable pub write_block : List Write → Bytes → Bytes → Option (Bytes × Bool)
write_block [] left file = none
write_block (failed ∷ rs) left file = some (file, false)
write_block (interrupted ∷ rs) left file =
    let rest = write_block rs left file in if length left == 0 then some (file, true) else rest
write_block (wrote n ∷ rs) left file =
    let rest = write_block rs (drop n left) (file ++ take n left) in
    if length (drop n left) == 0 then some (file ++ take n left, true) else rest
