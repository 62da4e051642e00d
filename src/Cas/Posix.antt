-- ===== src/Cas/Posix.antt =====
-- What src/cas.c relies on of the file system: documented behaviour of stat, remove and fopen, where
-- no file has two names, since the store makes no links.
use podcache.Prelude.{
  ℕ, Bytes, Bool, true, false, none, some, [], ◌∷◌, ◌++◌, ◌&&◌, ◌||◌, not, ◌==◌, ◌≡◌, ◌≢◌, length,
}
use podcache.Cas.Files.{FileSystem, Made, Saved, saved, unopened, unflushed}

abbrev pub no_slash : Bytes → Bool
no_slash [] = true
no_slash (c ∷ x) = not (c == 47) && no_slash x

-- The name of a file in a directory: no slash, and not "." or "..".
abbrev pub is_name : Bytes → Bool
is_name [] = false
is_name (c ∷ x) = not (c == 46) && no_slash (c ∷ x)

abbrev pub child : Bytes → Bytes → Bytes
child d x = d ++ 47 ∷ x

pub record Posix {F : Type 0} (fs : FileSystem F) : Type 0 where
  -- A file that was written whole has that size, and is read back.
  pub stat-save :
      (p v : Bytes) {files after : F}
      → fs.save p v files ≡ (saved, after)
      → fs.stat p after ≡ some (length v)
  pub read-save :
      (p v : Bytes) {files after : F}
      → fs.save p v files ≡ (saved, after)
      → fs.read p (length v) after ≡ some v
  -- A file that was opened for writing is there.
  pub save-exists :
      (p v : Bytes) {files after : F} {done : Saved}
      → fs.save p v files ≡ (done, after)
      → done ≢ unopened
      → fs.stat p after ≢ none
  -- The file of another name in the same directory stays as it is.
  pub stat-save_beside :
      (d x y v : Bytes) {files after : F} {done : Saved}
      → is_name x ≡ true
      → is_name y ≡ true
      → x ≢ y
      → fs.save (child d y) v files ≡ (done, after)
      → fs.stat (child d x) after ≡ fs.stat (child d x) files
  pub read-save_beside :
      (d x y v : Bytes) (n : ℕ) {files after : F} {done : Saved}
      → is_name x ≡ true
      → is_name y ≡ true
      → x ≢ y
      → fs.save (child d y) v files ≡ (done, after)
      → fs.read (child d x) n after ≡ fs.read (child d x) n files
  pub stat-remove_beside :
      (d x y : Bytes) {files after : F} {done : Bool}
      → is_name x ≡ true
      → is_name y ≡ true
      → x ≢ y
      → fs.remove (child d y) files ≡ (done, after)
      → fs.stat (child d x) after ≡ fs.stat (child d x) files
  -- What was removed is gone.
  pub stat-remove :
      (p : Bytes) {files after : F} → fs.remove p files ≡ (true, after) → fs.stat p after ≡ none
  -- A directory in which a file lies is not removed.
  pub remove_full :
      (d x : Bytes) {files after : F} {done : Bool}
      → is_name x ≡ true
      → fs.stat (child d x) files ≢ none
      → fs.remove d files ≡ (done, after)
      → done ≡ false

-- `fclose` does not fail behind a whole `fwrite`: the disk does not run full there.
pub record Flushes {F : Type 0} (fs : FileSystem F) : Type 0 where
  pub flushed :
      (p v : Bytes) {files after : F} {done : Saved}
      → fs.save p v files ≡ (done, after)
      → done ≢ unflushed

-- what follows a byte of a path: no "//", no component that begins with a dot, no slash at the end
abbrev pub goes : ℕ → Bytes → Bool
goes before [] = not (before == 47)
goes before (c ∷ x) = not ((before == 47) && ((c == 46) || (c == 47))) && goes c x

-- the path of something in a directory, behind that of the directory; or nothing
abbrev pub is_below : Bytes → Bool
is_below [] = true
is_below (c ∷ x) = (c == 47) && goes c x

-- Two paths that name different files: they differ behind a common base, where neither has "." or "..".
pub record Apart (q p : Bytes) : Type 0 where
  pub base : Bytes
  pub q_behind : Bytes
  pub p_behind : Bytes
  pub q_path : q ≡ base ++ q_behind
  pub p_path : p ≡ base ++ p_behind
  pub q_below : is_below q_behind ≡ true
  pub p_below : is_below p_behind ≡ true
  pub differs : q ≢ p

-- Changing a path leaves the file of another one as it is. The store makes no links.
pub record Separate {F : Type 0} (fs : FileSystem F) : Type 0 where
  pub stat-remove_other :
      (p q : Bytes) {files after : F} {done : Bool}
      → Apart q p
      → fs.remove p files ≡ (done, after)
      → fs.stat q after ≡ fs.stat q files
  pub read-remove_other :
      (p q : Bytes) (n : ℕ) {files after : F} {done : Bool}
      → Apart q p
      → fs.remove p files ≡ (done, after)
      → fs.read q n after ≡ fs.read q n files
  pub stat-mkdir_other :
      (p q : Bytes) {files after : F} {done : Made}
      → Apart q p
      → fs.mkdir p files ≡ (done, after)
      → fs.stat q after ≡ fs.stat q files
  pub read-mkdir_other :
      (p q : Bytes) (n : ℕ) {files after : F} {done : Made}
      → Apart q p
      → fs.mkdir p files ≡ (done, after)
      → fs.read q n after ≡ fs.read q n files
  pub stat-save_other :
      (p q v : Bytes) {files after : F} {done : Saved}
      → Apart q p
      → fs.save p v files ≡ (done, after)
      → fs.stat q after ≡ fs.stat q files
  pub read-save_other :
      (p q v : Bytes) (n : ℕ) {files after : F} {done : Saved}
      → Apart q p
      → fs.save p v files ≡ (done, after)
      → fs.read q n after ≡ fs.read q n files
