-- ===== src/Copy/Tests.antt =====
-- The paths and the blocks of Lab6 at concrete values.
use os_posix.Prelude.{◌+◌, ◌≡◌, true, some, [], ◌∷◌, ◌++◌}
use os_posix.Proxy.Memory.{Bytes, done, fault}
use os_posix.Copy.{
  slash, join_path, path_size, build_new_path, parse_argument, wrote, interrupted, write_block,
}
use os_posix.Copy.Paths.{paths_overrun}
use os_posix.Copy.Blocks.{write_block_lem}

abbrev folder : Bytes
folder = b'a' ∷ b'b' ∷ []

abbrev file_name : Bytes
file_name = b'f' ∷ []

paths_overrun_test :
    (join_path (path_size folder file_name + 1) folder file_name
      ≡ done ((folder ++ slash ∷ []) ++ file_name))
    × (join_path (path_size folder file_name) folder file_name ≡ fault)
    × (build_new_path folder file_name file_name ≡ fault)
    × (parse_argument folder ≡ fault)
paths_overrun_test = paths_overrun folder file_name file_name

write_block_lem_test :
    write_block (wrote 1 ∷ interrupted ∷ wrote 2 ∷ wrote 9 ∷ []) (7 ∷ 8 ∷ []) folder
    ≡ some (folder ++ 7 ∷ 8 ∷ [], true)
write_block_lem_test =
    write_block_lem (wrote 1 ∷ interrupted ∷ wrote 2 ∷ wrote 9 ∷ []) 7 (8 ∷ []) folder tt
