-- ===== src/Cas.antt =====
-- src/cas.c, the store on disk: its registry, its paths and its operations.
pub mod Files
pub mod Registry
pub mod Posix
pub mod Spares
pub mod Plain
pub mod Paths
pub mod Stored
pub mod Evict
pub mod RoundTrip
pub mod Unflushed
pub mod Lost
pub mod Beside
pub mod Isolated
pub mod Again
pub mod Cleanup
use podcache.Prelude.{
  ℕ, suc, ◌+◌, ◌-◌, ◌*◌, Bytes, codes, Bool, true, false, ◌&&◌, Option, none, some, List, [], ◌∷◌,
  ◌++◌, map, ltb, leb, ◌==◌, not, if◌then◌else◌, str_eq, length, take, drop,
}
use podcache.Prelude.Decimal.{decimal}
use podcache.Hash.Sha256.{sha256_string}
use Files.{
  FileSystem, Made, made, exists, refused, Saved, saved, unopened, short, unflushed, Io, pure,
  fault, ◌>>=◌,
}
use mathlib.Core.Option

-- `cas_registry_t`. An entry is `none` where its string was freed. The number of entries is the
-- list's length, `allocated` the number that the array has place for.
pub record CasRegistry : Type 0 where
  pub base_path : Bytes
  pub entries : List (Option Bytes)
  pub capacity : ℕ
  pub allocated : ℕ

-- The allocations of one operation: the padded message of the hash, `create_fs_path`, `get_path`,
-- and the value's buffer.
pub record Alloc : Type 0 where
  pub pad_ok : Bool
  pub fs_path_ok : Bool
  pub path_ok : Bool
  pub buffer_ok : Bool

-- The codes 0, -1 and -9.
pub data CasStatus : Type 0 where
  success error short_write : CasStatus

abbrev pub slash : ℕ
slash = 47

-- `CHUNK_PATH`
abbrev chunk_path : ℕ
chunk_path = 16

unfoldable pub cas_create_registry : (registry_ok entries_ok : Bool) → Bytes → Option CasRegistry
cas_create_registry registry_ok entries_ok base_path =
    if registry_ok && entries_ok
    then some (record { base_path = base_path; entries = []; capacity = 100; allocated = 100 })
    else none

unfoldable pub substring : Bytes → ℕ → Bytes
substring str portion = take chunk_path (drop (chunk_path * portion) str)

-- `create_fs_path` and the `sprintf` behind it: the path of the first `n` directories of a hash
unfoldable pub directory : Bytes → Bytes → ℕ → Bytes
directory base_path hash ℕ.zero = base_path
directory base_path hash (suc n) = directory base_path hash n ++ slash ∷ substring hash n

-- a file in the innermost directory
unfoldable pub inner : Bytes → Bytes → Bytes → Bytes
inner base_path hash name = directory base_path hash 4 ++ slash ∷ name

-- The capacity is doubled, whether or not the array then grows; the copy of the path, or NULL, goes
-- behind the last entry. Writing past the array is a fault.
unfoldable pub cas_add_to_registry :
    (realloc_ok malloc_ok : Bool) → CasRegistry → Bytes → Option (CasStatus × CasRegistry)
cas_add_to_registry realloc_ok malloc_ok registry path =
    let count = length registry.entries in
    let tight = leb registry.capacity (count + 1) in
    let doubled = registry.capacity * 2 in
    let wide =
      if tight
      then record registry {
        capacity = doubled;
        allocated = if realloc_ok then doubled else registry.allocated;
      }
      else registry in
    if tight && not realloc_ok
    then some (error, wide)
    else if not (ltb count wide.allocated)
    then none
    else if malloc_ok
    then some (success, record wide { entries = wide.entries ++ some path ∷ [] })
    else some (error, wide)

-- The string of the last entry is freed; if it was freed before, that is a fault.
unfoldable pub free_last : List (Option Bytes) → Option (List (Option Bytes))
free_last [] = some []
free_last (none ∷ []) = none
free_last (some s ∷ []) = some (none ∷ [])
free_last (e ∷ d ∷ es) = Option.map (λ ds. e ∷ ds) (free_last (d ∷ es))

-- The loop of `cas_evict` over the entries: the first one with the path is overwritten by the ones
-- behind it, and the string of the last one is freed, where the copy in front of it still points.
-- Reading a freed string is a fault, and so is freeing it again.
unfoldable pub remove_entry : Bytes → List (Option Bytes) → Option (List (Option Bytes))
remove_entry p [] = some []
remove_entry p (none ∷ es) = none
remove_entry p (some e ∷ es) =
    let rest = remove_entry p es in
    if str_eq e p then free_last es else elim rest [ none ↦ none | some ds ↦ some (some e ∷ ds) ]

abbrev is_there : Made → Bool
is_there made = true
is_there exists = true
is_there refused = false

abbrev is_new : Made → Bool
is_new made = true
is_new exists = false
is_new refused = false

module _ {F : Type 0} (fs : FileSystem F) where
  -- `remove(path)`
  abbrev remove : Bytes → Io F Bool
  remove path files = some (fs.remove path files)

  abbrev mkdir : Bytes → Io F Made
  mkdir path files = some (fs.mkdir path files)

  abbrev save : Bytes → Bytes → Io F Saved
  save path content files = some (fs.save path content files)

  abbrev stat : Bytes → Io F (Option ℕ)
  stat path files = some (fs.stat path files, files)

  abbrev read : Bytes → ℕ → Io F (Option Bytes)
  read path size files = some (fs.read path size files, files)

  -- the directories from the `n`-th outwards, until one is not removed
  unfoldable pub remove_directories : Bytes → Bytes → ℕ → Io F Bool
  remove_directories base_path hash ℕ.zero = pure true
  remove_directories base_path hash (suc n) = do
    let rest = remove_directories base_path hash n
    removed ← remove (directory base_path hash (suc n))
    if removed then rest else pure false

  -- whether `cas_remove` returns 0
  unfoldable pub cas_remove : Bytes → Bytes → Io F Bool
  cas_remove base_path hash = do
    _ ← remove (inner base_path hash (codes "value.dat"))
    remove_directories base_path hash 4

  -- the directories from the outermost inwards, up to the `n`-th; one that exists is no error
  unfoldable pub make_directories : Bytes → Bytes → ℕ → Io F Bool
  make_directories base_path hash ℕ.zero = do m ← mkdir base_path; pure (is_there m)
  make_directories base_path hash (suc n) = do
    ok ← make_directories base_path hash n
    if ok then (do m ← mkdir (directory base_path hash (suc n)); pure (is_there m)) else pure false

  -- the existing entry is removed first
  unfoldable pub clear_entry : Bytes → Bytes → Option ℕ → Io F Bool
  clear_entry base_path hash none = pure true
  clear_entry base_path hash (some size) = cas_remove base_path hash

  -- the innermost directory, which must be new
  unfoldable pub make_last : Bytes → Bool → Io F (Option Bytes)
  make_last path false = pure none
  make_last path true = do m ← mkdir path; pure (if is_new m then some path else none)

  unfoldable pub make_path : Bytes → Bytes → Bool → Io F (Option Bytes)
  make_path base_path hash false = pure none
  make_path base_path hash true = do
    ready ← make_directories base_path hash 3
    make_last (directory base_path hash 4) ready

  unfoldable pub create_at : Bytes → Bytes → Io F (Option Bytes)
  create_at base_path hash = do
    st ← stat (directory base_path hash 4)
    cleared ← clear_entry base_path hash st
    make_path base_path hash cleared

  -- The path of the new directory. A failed `create_fs_path` is read through NULL.
  unfoldable pub cas_create_directory : Alloc → CasRegistry → Bytes → Io F (Option Bytes)
  cas_create_directory alloc registry key =
      if alloc.fs_path_ok
      then create_at registry.base_path (sha256_string alloc.pad_ok key)
      else fault

  -- the file with the time; what `fprintf` and `fclose` return is not looked at
  unfoldable pub put_time : ℕ → Bytes → Io F (CasStatus × Bytes)
  put_time now path = do
    done ← save (path ++ slash ∷ codes "time.dat") (decimal now)
    elim done [
      | saved ↦ pure (success, path)
      | short ↦ pure (success, path)
      | unflushed ↦ pure (success, path)
      | unopened ↦ pure (error, path)
    ]

  -- what `fclose` returns is not looked at
  unfoldable pub put_files : ℕ → Bytes → Option Bytes → Io F (CasStatus × Bytes)
  put_files now value none = pure (error, [])
  put_files now value (some path) = do
    done ← save (path ++ slash ∷ codes "value.dat") value
    elim done [
      | saved ↦ put_time now path
      | short ↦ pure (short_write, path)
      | unflushed ↦ put_time now path
      | unopened ↦ pure (error, path)
    ]

  -- the status and `output_path`
  unfoldable pub cas_put : Alloc → ℕ → CasRegistry → Bytes → Bytes → Io F (CasStatus × Bytes)
  cas_put alloc now registry key value = do
    path ← cas_create_directory alloc registry key
    put_files now value path

  -- whether `remove_dir` returns 0
  unfoldable pub remove_dir : Bytes → Io F Bool
  remove_dir dir = do st ← stat dir; elim st [ none ↦ pure false | some size ↦ remove dir ]

  -- the `for` loop over the patterns: it goes on after a failure
  unfoldable pub evict_directories : Bytes → Bytes → ℕ → Io F Bool
  evict_directories base_path hash ℕ.zero = pure true
  evict_directories base_path hash (suc n) = do
    removed ← remove_dir (directory base_path hash (suc n))
    rest ← evict_directories base_path hash n
    pure (removed && rest)

  unfoldable pub cas_evict : Alloc → Bytes → CasRegistry → Io F (CasStatus × CasRegistry)
  cas_evict alloc key registry = if not alloc.fs_path_ok then fault else do
    let hash = sha256_string alloc.pad_ok key
    let base_path = registry.base_path
    removed ← remove_dir (inner base_path hash (codes "value.dat"))
    rest ← evict_directories base_path hash 4
    if removed && rest
        then elim (remove_entry (directory base_path hash 4) registry.entries) [
          | none ↦ fault
          | some es ↦ pure (success, record registry { entries = es })
        ]
        else pure (error, registry)

  -- the file's bytes, if as many are read as it has
  unfoldable pub read_value : Bytes → ℕ → Io F (Option Bytes)
  read_value path size = do
    got ← read path size
    elim got [
      | none ↦ pure none
      | some found ↦ pure (if ltb (length found) size then none else some found)
    ]

  -- The value, or `none` for -1. A failed `create_fs_path` or `get_path` is read through NULL.
  unfoldable pub cas_get : Alloc → CasRegistry → Bytes → Io F (Option Bytes)
  cas_get alloc registry key = if not (alloc.fs_path_ok && alloc.path_ok) then fault else do
    let path = inner registry.base_path (sha256_string alloc.pad_ok key) (codes "value.dat")
    st ← stat path
    elim st [
      | none ↦ pure none
      | some size ↦ if alloc.buffer_ok then read_value path size else pure none
    ]
