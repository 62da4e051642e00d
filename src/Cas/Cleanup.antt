-- ===== src/Cas/Cleanup.antt =====
-- The end of the store in src/cas.c: `cleanup` and `cas_registry_destroy`; and the name of its base
-- directory.
use podcache.Prelude.{
  ℕ, zero, suc, Bytes, codes, Bool, true, false, ◌||◌, Option, none, some, List, [], ◌∷◌, ◌++◌,
  if◌then◌else◌, str_eq, length, leb,
}
use podcache.Hash.Sha256.{hex}
use podcache.Cas.{CasRegistry, slash}
use podcache.Cas.Files.{FileSystem, Io, pure, fault, ◌>>=◌}

-- `generate_base_path` of PODCACHE_FSROOT and of a random number. A root of 512 bytes or more does not
-- fit its array, nor does a path of 512 bytes or more fit the registry's: `none`.
unfoldable pub generate_base_path : Option Bytes → ℕ → Option Bytes
generate_base_path none random = some (codes "./" ++ hex 8 random)
generate_base_path (some root_fs) random =
    if leb 512 (length root_fs) || leb 512 (length (root_fs ++ hex 8 random))
    then none
    else some (root_fs ++ hex 8 random)

module _ {F : Type 0} (fs : FileSystem F) where
  -- what `stat` says of an entry: a directory is cleaned up in turn, and a file is removed
  unfoldable pub remove_found : (Bytes → Io F Bool) → Bytes → Option Bool → Io F (Unit {0})
  remove_found recur filepath none = pure tt
  remove_found recur filepath (some true) = do _ ← recur filepath; pure tt
  remove_found recur filepath (some false) = λ files. some (tt, (fs.remove filepath files).1)

  unfoldable pub remove_child : (Bytes → Io F Bool) → Bytes → Bytes → Io F (Unit {0})
  remove_child recur path name files =
      if str_eq name (codes ".") || str_eq name (codes "..")
      then some (tt, files)
      else remove_found recur (path ++ slash ∷ name) (fs.is_dir (path ++ slash ∷ name) files) files

  -- the loop over the entries
  unfoldable pub remove_entries : (Bytes → Io F Bool) → Bytes → List Bytes → Io F (Unit {0})
  remove_entries recur path [] = pure tt
  remove_entries recur path (name ∷ names) = do
    _ ← remove_child recur path name
    remove_entries recur path names

  unfoldable pub cleanup_listed : (Bytes → Io F Bool) → Bytes → Option (List Bytes) → Io F Bool
  cleanup_listed recur path none = pure false
  cleanup_listed recur path (some names) = do
    _ ← remove_entries recur path names
    λ files. some (fs.rmdir path files)

  -- whether `cleanup` returns 0; the fuel is the depth of the tree
  unfoldable pub cleanup : ℕ → Bytes → Io F Bool
  cleanup zero path = fault
  cleanup (suc depth) path =
      λ files. cleanup_listed (cleanup depth) path (fs.readdir path files) files

  -- the loop that frees the entries: one that was freed before is a fault
  unfoldable pub free_entries : List (Option Bytes) → Io F (Unit {0})
  free_entries [] = pure tt
  free_entries (none ∷ entries) = fault
  free_entries (some s ∷ entries) = free_entries entries

  -- what `cleanup` returns is not looked at
  unfoldable pub cas_registry_destroy : ℕ → CasRegistry → Io F (Unit {0})
  cas_registry_destroy depth registry = do
    _ ← free_entries registry.entries
    _ ← cleanup depth registry.base_path
    pure tt
