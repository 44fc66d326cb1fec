-- ===== src/Copy/Paths.antt =====
-- The arrays for the paths of Lab6/main.c.
use os_posix.Prelude.{
  ℕ, ◌+◌, ◌≡◌, refl, ◌∙◌, inl, inr, true, false, [], ◌∷◌, ◌++◌, arith, Bool-cases, ltb, length,
  length-append,
}
use os_posix.Proxy.Memory.{Bytes, done, fault}
use os_posix.Copy.{strcat, slash, join_path, path_size, build_new_path, parse_argument}

joins :
    (size : ℕ) (path name : Bytes)
    → ltb (length path) size ≡ true
    → ltb (length (path ++ slash ∷ [])) size ≡ true
    → join_path size path name ≡ strcat size (path ++ slash ∷ []) name
unfolding join_path
joins size path name a b = rw (a, b) refl

join_path-fits :
    (path name : Bytes)
    → join_path (path_size path name + 1) path name ≡ done ((path ++ slash ∷ []) ++ name)
join_path-fits path name =
    let size = path_size path name + 1 in
    let short = length-append path (slash ∷ []) in
    let whole = length-append (path ++ slash ∷ []) name in
    let a : ltb (length path) size ≡ true = ground arith in
    let b : ltb (length (path ++ slash ∷ [])) size ≡ true = ground arith in
    let c : ltb (length ((path ++ slash ∷ []) ++ name)) size ≡ true = ground arith in
    joins size path name a b ∙ rw c refl

join_path-short : (path name : Bytes) → join_path (path_size path name) path name ≡ fault
unfolding join_path
join_path-short path name =
    let size = path_size path name in
    let short = length-append path (slash ∷ []) in
    let whole = length-append (path ++ slash ∷ []) name in
    let a : ltb (length path) size ≡ true = ground arith in
    let c : ltb (length ((path ++ slash ∷ []) ++ name)) size ≡ false = ground arith in
    elim (Bool-cases (ltb (length (path ++ slash ∷ [])) size)) [
      | inl fits ↦ rw (a, fits, c) refl
      | inr over ↦ rw (a, over) refl
    ]

parse_argument-short : (arg : Bytes) → parse_argument arg ≡ fault
unfolding parse_argument
parse_argument-short arg = let c : ltb (length arg) (length arg) ≡ false = ground arith in rw c refl

-- In an array of one byte more than `buildNewPath` takes, path and name are joined; in the one it
-- takes, the NUL is written past the end. So `buildNewPath` always writes past an array, and so does
-- `parseArguments`, whose array has no place for the NUL either.
pub paths_overrun :
    (path destination name : Bytes)
    → (join_path (path_size path name + 1) path name ≡ done ((path ++ slash ∷ []) ++ name))
      × (join_path (path_size path name) path name ≡ fault)
      × (build_new_path path destination name ≡ fault)
      × (parse_argument path ≡ fault)
unfolding build_new_path
paths_overrun path destination name = (
  join_path-fits path name,
  join_path-short path name,
  rw (join_path-short path name) refl,
  parse_argument-short path,
)
