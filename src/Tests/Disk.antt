-- ===== src/Tests/Disk.antt =====
-- A file system in memory, which the runs of the store use.
pub mod Laws
pub mod Full
use podcache.Prelude.{
  ℕ, Bytes, codes, Bool, true, false, ◌&&◌, ◌||◌, Option, none, some, List, [], ◌∷◌, ◌==◌, ◌≡◌, ◌≢◌,
  refl, arith, if◌then◌else◌, length, take, take-length, str_eq, str_eq→eq, str_eq_refl, ne→str_eq,
  Bool-cases, inl, inr, ◌⊎◌, ap, sym, ◌∙◌,
}
use podcache.Cas.Files.{FileSystem, Made, made, exists, Saved, saved, unopened, short, unflushed}
use podcache.Cas.Posix.{Posix, Separate, child, no_slash}

-- the paths that exist; `none` is a directory
abbrev pub Disk : Type 0
Disk = List (Bytes × Option Bytes)

unfoldable pub find_path : Bytes → Disk → Option (Option Bytes)
find_path p [] = none
find_path p ((q, e) ∷ es) = if str_eq q p then some e else find_path p es

unfoldable pub drop_path : Bytes → Disk → Disk
drop_path p [] = []
drop_path p ((q, e) ∷ es) = let rest = drop_path p es in if str_eq q p then rest else (q, e) ∷ rest

-- whether the path lies in the directory
unfoldable pub below : Bytes → Bytes → Bool
below [] [] = false
below [] (c ∷ q) = c == 47
below (c ∷ d) [] = false
below (c ∷ d) (b ∷ q) = (c == b) && below d q

unfoldable pub is_full : Bytes → Disk → Bool
is_full d [] = false
is_full d ((q, e) ∷ es) = below d q || is_full d es

abbrev pub size_of : Option (Option Bytes) → Option ℕ
size_of none = none
size_of (some none) = some 0
size_of (some (some v)) = some (length v)

abbrev pub bytes_of : ℕ → Option (Option Bytes) → Option Bytes
bytes_of n none = none
bytes_of n (some none) = none
bytes_of n (some (some v)) = some (take n v)

abbrev pub save_to : Bytes → Bytes → Disk → Option (Option Bytes) → Saved × Disk
save_to p v es none = (saved, (p, some v) ∷ es)
save_to p v es (some none) = (unopened, es)
save_to p v es (some (some w)) = (saved, (p, some v) ∷ es)

abbrev pub make_at : Bytes → Disk → Option (Option Bytes) → Made × Disk
make_at p es none = (made, (p, none) ∷ es)
make_at p es (some e) = (exists, es)

abbrev pub remove_at : Bytes → Disk → Bool → Option (Option Bytes) → Bool × Disk
remove_at p es full none = (false, es)
remove_at p es true (some e) = (false, es)
remove_at p es false (some e) = (true, drop_path p es)

-- the name of a path right below the directory
unfoldable pub name_in : Bytes → Bytes → Option Bytes
name_in [] [] = none
name_in [] (c ∷ q) = if c == 47 && no_slash q then some q else none
name_in (c ∷ d) [] = none
name_in (c ∷ d) (b ∷ q) = let rest = name_in d q in if c == b then rest else none

abbrev pub with_name : Option Bytes → List Bytes → List Bytes
with_name none names = names
with_name (some x) names = x ∷ names

unfoldable pub names_in : Bytes → Disk → List Bytes
unfolding name_in
names_in d [] = []
names_in d ((q, e) ∷ es) = with_name (name_in d q) (names_in d es)

abbrev pub list_at : Bytes → Disk → Option (Option Bytes) → Option (List Bytes)
list_at p es none = none
list_at p es (some none) = some (codes "." ∷ codes ".." ∷ names_in p es)
list_at p es (some (some v)) = none

abbrev pub mode_of : Option (Option Bytes) → Option Bool
mode_of none = none
mode_of (some none) = some true
mode_of (some (some v)) = some false

abbrev pub remove_dir_at : Bytes → Disk → Bool → Option (Option Bytes) → Bool × Disk
remove_dir_at p es full none = (false, es)
remove_dir_at p es true (some none) = (false, es)
remove_dir_at p es false (some none) = (true, drop_path p es)
remove_dir_at p es full (some (some v)) = (false, es)

abbrev pub disk : FileSystem Disk
disk = record {
  stat = λ p es. size_of (find_path p es);
  mkdir = λ p es. make_at p es (find_path p es);
  remove = λ p es. remove_at p es (is_full p es) (find_path p es);
  save = λ p v es. save_to p v es (find_path p es);
  read = λ p n es. bytes_of n (find_path p es);
  readdir = λ p es. list_at p es (find_path p es);
  is_dir = λ p es. mode_of (find_path p es);
  rmdir = λ p es. remove_dir_at p es (is_full p es) (find_path p es);
}

-- The same file system when the disk is full: files open, but no byte reaches them.
abbrev pub not_flushed : Saved × Disk → Saved × Disk
not_flushed (saved, es) = (unflushed, es)
not_flushed (unopened, es) = (unopened, es)
not_flushed (short, es) = (short, es)
not_flushed (unflushed, es) = (unflushed, es)

abbrev pub full_disk : FileSystem Disk
full_disk = record disk { save = λ p v es. not_flushed (disk.save p [] es) }
