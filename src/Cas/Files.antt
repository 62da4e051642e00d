-- ===== src/Cas/Files.antt =====
-- The file system that src/cas.c calls, as an interface, and programs over it.
use podcache.Prelude.{ℕ, Bytes, Bool, Option, none, some, List, ◌≡◌, refl}

-- What `mkdir` does: 0, -1 with EEXIST, -1 with another error.
pub data Made : Type 0 where
  made exists refused : Made

-- What `fopen(path, "wb")`, one `fwrite` or `fprintf`, and `fclose` do: all is written, `fopen` fails,
-- fewer bytes are taken, or all are taken and then `fclose` fails to write what is buffered.
pub data Saved : Type 0 where
  saved unopened short unflushed : Saved

-- `stat` gives the size of a file, and for a directory a number that is not looked at; `remove` says whether it returned 0, `read` is `none` if the file does not
-- open, and gives the bytes that one `fread` of at most that many returns. `readdir` gives the names
-- from `opendir` to the end, "." and ".." among them, or `none` if the directory does not open; `is_dir`
-- is what `stat` says of the mode.
pub record FileSystem (F : Type 0) : Type 0 where
  pub stat : Bytes → F → Option ℕ
  pub mkdir : Bytes → F → Made × F
  pub remove : Bytes → F → Bool × F
  pub save : Bytes → Bytes → F → Saved × F
  pub read : Bytes → ℕ → F → Option Bytes
  pub readdir : Bytes → F → Option (List Bytes)
  pub is_dir : Bytes → F → Option Bool
  pub rmdir : Bytes → F → Bool × F

-- `none` is a fault.
abbrev pub Io : Type 0 → Type 0 → Type 0
Io F A = F → Option (A × F)

module _ {F : Type 0} where
  abbrev pub pure : {A : Type 0} → A → Io F A
  pure a files = some (a, files)

  abbrev pub fault : {A : Type 0} → Io F A
  fault files = none

  module _ {A B : Type 0} where
    abbrev pub and_then : Option (A × F) → (A → Io F B) → Option (B × F)
    and_then none k = none
    and_then (some (a, files)) k = k a files

    infixl 5 ◌>>=◌
    abbrev pub ◌>>=◌ : Io F A → (A → Io F B) → Io F B
    m >>= k = λ files. and_then (m files) k

    -- inversion of a run without a fault
    pub and_then-eq :
        (m : Option (A × F)) (k : A → Io F B) {b : B} {after : F}
        → and_then m k ≡ some (b, after)
        → (a : A) × (mid : F) × (m ≡ some (a, mid)) × (k a mid ≡ some (b, after))
    and_then-eq none k h = cc
    and_then-eq (some (a, mid)) k h = (a, mid, refl, h)
