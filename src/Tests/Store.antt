-- ===== src/Tests/Store.antt =====
-- Runs of the theorems about the store on disk.
use podcache.Prelude.{
  Bytes, codes, ℕ, zero, suc, List, length, ◌+◌, str_eq, true, false, Option, none, some, [], ◌∷◌,
  ◌++◌, ◌≡◌, ◌≢◌, refl, sym, ap, ◌∙◌, arith, get_or,
}
use podcache.Prelude.Decimal.{print, decimal}
use podcache.Cas.Files.{unopened, unflushed}
use podcache.Hash.Sha256.{sha256_string, chunks, pad, hex, hex_digit, total_length, big_endian}
use podcache.Cas.{
  CasRegistry, CasStatus, success, error, cas_put, cas_get, cas_evict, cas_create_directory,
  create_at, clear_entry, make_path, make_directories, make_last, put_files, put_time, directory,
  substring, slash, cas_add_to_registry,
}
use podcache.Cas.Stored.{granted}
use podcache.Cas.RoundTrip.{cas_get-cas_put, cas_evict-cas_put}
use podcache.Cas.Isolated.{cas_get-cas_put_other}
use podcache.Cas.Cleanup.{
  cleanup, cas_registry_destroy, free_entries, cleanup_listed, remove_entries, remove_child,
  remove_found,
}
use podcache.Cas.Registry.{cas_add_to_registry_overrun}
use podcache.Cas.Unflushed.{cas_get-cas_put_unflushed}
use podcache.Cas.Again.{cas_put-cas_put}
use podcache.Tests.Disk.Full.{full_disk-Posix}
use podcache.Tests.Disk.{
  Disk, disk, full_disk, find_path, names_in, name_in, is_full, below, drop_path,
}
use podcache.Tests.Disk.Laws.{disk-Posix, disk-Separate, disk-Flushes}

abbrev pub registry : CasRegistry
registry = record { base_path = codes "./cas"; entries = []; capacity = 100; allocated = 100 }

abbrev pub path : Bytes
path = codes "./cas/ca978112ca1bbdca/fac231b39a23dc4d/a786eff8147c4e72/b9807785afee48bb"

-- the files behind a `cas_put` of "a"
abbrev pub stored : Disk
stored =
    (
      codes "./cas/ca978112ca1bbdca/fac231b39a23dc4d/a786eff8147c4e72/b9807785afee48bb/time.dat",
      some (codes "7"),
    )
    ∷ (
      codes "./cas/ca978112ca1bbdca/fac231b39a23dc4d/a786eff8147c4e72/b9807785afee48bb/value.dat",
      some (codes "12345678"),
    )
    ∷ (path, none)
    ∷ (codes "./cas/ca978112ca1bbdca/fac231b39a23dc4d/a786eff8147c4e72", none)
    ∷ (codes "./cas/ca978112ca1bbdca/fac231b39a23dc4d", none)
    ∷ (codes "./cas/ca978112ca1bbdca", none)
    ∷ (codes "./cas", none)
    ∷ []

pub put_a :
    cas_put disk granted 7 registry (codes "a") (codes "12345678") []
    ≡ some ((success, path), stored)
unfolding cas_put cas_create_directory create_at clear_entry make_path make_directories make_last
    put_files put_time directory substring sha256_string chunks pad hex hex_digit total_length
    big_endian print find_path str_eq
put_a = refl

cas_get-cas_put_example :
    cas_get disk granted registry (codes "a") stored ≡ some (some (codes "12345678"), stored)
cas_get-cas_put_example =
    cas_get-cas_put disk disk-Posix disk-Flushes 7 registry (codes "a") (codes "12345678") [] put_a

-- The directories of "a" on the full disk, and the empty file in them.
abbrev directories : Disk
directories =
    (path, none)
    ∷ (codes "./cas/ca978112ca1bbdca/fac231b39a23dc4d/a786eff8147c4e72", none)
    ∷ (codes "./cas/ca978112ca1bbdca/fac231b39a23dc4d", none)
    ∷ (codes "./cas/ca978112ca1bbdca", none)
    ∷ (codes "./cas", none)
    ∷ []

abbrev emptied_value : Disk
emptied_value =
    (
      codes "./cas/ca978112ca1bbdca/fac231b39a23dc4d/a786eff8147c4e72/b9807785afee48bb/value.dat",
      some [],
    )
    ∷ directories

directories_made :
    cas_create_directory full_disk granted registry (codes "a") [] ≡ some (some path, directories)
unfolding cas_create_directory create_at clear_entry make_path make_directories make_last directory
    substring sha256_string chunks pad hex hex_digit total_length big_endian find_path str_eq
directories_made = refl

not_written :
    full_disk.save (path ++ slash ∷ codes "value.dat") (codes "12345678") directories
    ≡ (unflushed, emptied_value)
unfolding find_path str_eq
not_written = refl

empty_size : full_disk.stat (path ++ slash ∷ codes "value.dat") emptied_value ≡ some 0
unfolding find_path str_eq
empty_size = refl

empty_read : full_disk.read (path ++ slash ∷ codes "value.dat") 0 emptied_value ≡ some []
unfolding find_path str_eq
empty_read = refl

time_opens :
    (full_disk.save (path ++ slash ∷ codes "time.dat") (decimal 7) emptied_value).0 ≢ unopened
unfolding find_path str_eq
time_opens e = cc

cas_get-cas_put_unflushed_example :
    (after : Disk) × (cas_put full_disk granted 7 registry (codes "a") (codes "12345678") []
      ≡ some ((success, path), after))
    × (cas_get full_disk granted registry (codes "a") after ≡ some (some [], after))
cas_get-cas_put_unflushed_example =
    cas_get-cas_put_unflushed full_disk full_disk-Posix 7 registry (codes "a") (codes "12345678") []
      path [] directories emptied_value directories_made not_written empty_size empty_read
      time_opens

-- another key behind it
abbrev second : Option ((CasStatus × Bytes) × Disk)
second = cas_put disk granted 8 registry (codes "c") (codes "98765") stored

abbrev status_of : Option ((CasStatus × Bytes) × Disk) → CasStatus × Bytes
status_of none = (error, [])
status_of (some (r, files)) = r

abbrev files_of : Option ((CasStatus × Bytes) × Disk) → Disk
files_of none = []
files_of (some (r, files)) = files

second_made : second ≡ some (status_of second, files_of second)
unfolding cas_put cas_create_directory create_at clear_entry make_path make_directories make_last
    put_files put_time directory substring sha256_string chunks pad hex hex_digit total_length
    big_endian print find_path str_eq
second_made = refl

pub other_hash : sha256_string true (codes "a") ≢ sha256_string true (codes "c")
unfolding sha256_string chunks pad hex hex_digit total_length big_endian
other_hash e = let first : 99 ≡ 50 = ap (λ s. get_or s 0 0) e in omega (arith, first)

cas_get-cas_put_other_example :
    cas_get disk granted registry (codes "a") (files_of second)
    ≡ some (some (codes "12345678"), files_of second)
cas_get-cas_put_other_example =
    cas_get-cas_put_other disk disk-Posix disk-Separate disk-Flushes 7 8 registry (codes "a")
      (codes "12345678") (codes "c") (codes "98765") [] stored (files_of second) other_hash put_a
      second_made

cas_evict-cas_put_example :
    (end : Disk) × (cas_evict disk granted (codes "a") registry stored
      ≡ some ((error, registry), end))
cas_evict-cas_put_example =
    cas_evict-cas_put disk disk-Posix 7 registry (codes "a") (codes "12345678") [] put_a

here : disk.stat (directory registry.base_path (sha256_string true (codes "a")) 4) stored ≡ some 0
unfolding directory substring sha256_string chunks pad hex hex_digit total_length big_endian
    find_path str_eq
here = refl

not_gone : ◌≢◌ {A = Option ℕ} (some 0) none
not_gone e = cc

there : disk.stat (directory registry.base_path (sha256_string true (codes "a")) 4) stored ≢ none
there gone = not_gone (sym here ∙ gone)

cas_put-cas_put_example :
    (end : Disk) × (cas_put disk granted 8 registry (codes "a") (codes "new") stored
      ≡ some ((error, []), end))
cas_put-cas_put_example =
    cas_put-cas_put disk disk-Posix 7 8 registry (codes "a") (codes "12345678") (codes "new") []
      put_a there

pub emptied : cas_registry_destroy disk 6 registry stored ≡ some (tt, [])
unfolding cas_registry_destroy free_entries cleanup cleanup_listed remove_entries remove_child
    remove_found find_path names_in name_in is_full below drop_path str_eq
emptied = refl

-- a registry as it is after 99 entries
abbrev copies : ℕ → List (Option Bytes)
copies zero = []
copies (suc n) = some path ∷ copies n

abbrev crowded : CasRegistry
crowded = record registry { entries = copies 99 }

crowded_filled : length crowded.entries + 1 ≡ crowded.capacity
crowded_filled = refl

cas_add_to_registry_overrun_example :
    (first : CasRegistry) × (second : CasRegistry) × (cas_add_to_registry false true crowded path
      ≡ some (error, first))
    × (cas_add_to_registry true true first path ≡ some (success, second))
    × (cas_add_to_registry true true second path ≡ none)
cas_add_to_registry_overrun_example =
    cas_add_to_registry_overrun true true true true crowded path path path (omega arith)
      crowded_filled refl
