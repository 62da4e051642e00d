-- ===== src/Tests/Disk/Laws.antt =====
-- The file system in memory does what POSIX says.
use podcache.Prelude.{
  ℕ, Bytes, Bool, true, false, ◌||◌, Option, none, some, [], ◌∷◌, ◌≡◌, ◌≢◌, refl, arith, length,
  take-length, str_eq, str_eq→eq, str_eq_refl, ne→str_eq, Bool-cases, inl, inr, ◌⊎◌, ap, sym, ◌∙◌,
}
use podcache.Cas.Files.{Made, Saved, saved, unopened, unflushed}
use podcache.Cas.Posix.{Posix, Separate, Flushes, child}
use podcache.Tests.Disk.{
  Disk, find_path, drop_path, below, is_full, size_of, bytes_of, save_to, remove_at, make_at, disk,
}

below-child : (d x : Bytes) → below d (child d x) ≡ true
unfolding below
below-child [] x = refl
below-child (c ∷ d) x = ground (arith, below-child d x)

child-inj : (d x y : Bytes) → child d y ≡ child d x → y ≡ x
child-inj [] x y h = cc
child-inj (c ∷ d) x y h = child-inj d x y (let tails : child d y ≡ child d x = cc in tails)

child-ne : (d x y : Bytes) → x ≢ y → str_eq (child d y) (child d x) ≡ false
child-ne d x y h = ne→str_eq (child d y) (child d x) (λ e. h (sym (child-inj d x y e)))

or_true : (b : Bool) → (b || true) ≡ true
or_true true = refl
or_true false = refl

is_full-found : (d x : Bytes) (es : Disk) → find_path (child d x) es ≢ none → is_full d es ≡ true
unfolding find_path is_full
is_full-found d x [] h = absurd (h refl)
is_full-found d x ((q, e) ∷ es) h = elim (Bool-cases (str_eq q (child d x))) [
  | inl e ↦ rw (str_eq→eq q (child d x) e, below-child d x) refl
  | inr e ↦ rw (is_full-found d x es (λ g. h (rw e g))) (or_true (below d q))
]

find-drop_other :
    (p q : Bytes) (es : Disk) → str_eq p q ≡ false → find_path q (drop_path p es) ≡ find_path q es
unfolding find_path drop_path
find-drop_other p q [] h = refl
find-drop_other p q ((r, e) ∷ es) h = ground (arith, find-drop_other p q es, str_eq→eq r p)

find-drop_same : (p : Bytes) (es : Disk) → find_path p (drop_path p es) ≡ none
unfolding find_path drop_path
find-drop_same p [] = refl
find-drop_same p ((r, e) ∷ es) = ground (arith, find-drop_same p es)

save_to-opened :
    (p v : Bytes) (es : Disk) (r : Option (Option Bytes)) {done : Saved} {after : Disk}
    → save_to p v es r ≡ (done, after)
    → done ≢ unopened
    → after ≡ (p, some v) ∷ es
save_to-opened p v es none h o = cc
save_to-opened p v es (some none) {done} h o = absurd (o (let e : done ≡ unopened = cc in e))
save_to-opened p v es (some (some w)) h o = cc

save_to-either :
    (p v : Bytes) (es : Disk) (r : Option (Option Bytes)) {done : Saved} {after : Disk}
    → save_to p v es r ≡ (done, after)
    → (after ≡ (p, some v) ∷ es) ⊎ (after ≡ es)
save_to-either p v es none h = inl cc
save_to-either p v es (some none) h = inr cc
save_to-either p v es (some (some w)) h = inl cc

remove_at-either :
    (p : Bytes) (es : Disk) (full : Bool) (r : Option (Option Bytes)) {done : Bool} {after : Disk}
    → remove_at p es full r ≡ (done, after)
    → (after ≡ drop_path p es) ⊎ (after ≡ es)
remove_at-either p es full none h = inr cc
remove_at-either p es true (some e) h = inr cc
remove_at-either p es false (some e) h = inl cc

remove_at-done :
    (p : Bytes) (es : Disk) (full : Bool) (r : Option (Option Bytes)) {after : Disk}
    → remove_at p es full r ≡ (true, after)
    → after ≡ drop_path p es
remove_at-done p es full none h = cc
remove_at-done p es true (some e) h = cc
remove_at-done p es false (some e) h = cc

remove_at-full :
    (p : Bytes) (es : Disk) (full : Bool) (r : Option (Option Bytes)) {done : Bool} {after : Disk}
    → full ≡ true
    → remove_at p es full r ≡ (done, after)
    → done ≡ false
remove_at-full p es full none f h = cc
remove_at-full p es true (some e) f h = cc
remove_at-full p es false (some e) f h = cc

find_path-saved : (p v : Bytes) (es : Disk) → find_path p ((p, some v) ∷ es) ≡ some (some v)
unfolding find_path
find_path-saved p v es = rw str_eq_refl refl

find_path-beside :
    (d x y v : Bytes) (es : Disk)
    → x ≢ y
    → find_path (child d x) ((child d y, some v) ∷ es) ≡ find_path (child d x) es
unfolding find_path
find_path-beside d x y v es h = rw (child-ne d x y h) refl

saved≢unopened : saved ≢ unopened
saved≢unopened e = cc

save-find :
    (d x y v : Bytes) (files : Disk) {after : Disk} {done : Saved}
    → x ≢ y
    → disk.save (child d y) v files ≡ (done, after)
    → find_path (child d x) after ≡ find_path (child d x) files
save-find d x y v files ne h =
    elim (save_to-either (child d y) v files (find_path (child d y) files) h) [
      | inl e ↦ ap (find_path (child d x)) e ∙ find_path-beside d x y v files ne
      | inr e ↦ ap (find_path (child d x)) e
    ]

pub disk-Posix : Posix disk
disk-Posix = record {
  stat-save = λ p v {files} {after} h.
      ap (λ es. size_of (find_path p es))
        (save_to-opened p v files (find_path p files) h saved≢unopened)
      ∙ ap size_of (find_path-saved p v files);
  read-save = λ p v {files} {after} h.
      ap (λ es. bytes_of (length v) (find_path p es))
        (save_to-opened p v files (find_path p files) h saved≢unopened)
      ∙ ap (bytes_of (length v)) (find_path-saved p v files)
      ∙ ap some (take-length {0} v);
  save-exists = λ p v {files} {after} h o gone. some≢none (length v) (
      sym (
        ap (λ es. size_of (find_path p es)) (save_to-opened p v files (find_path p files) h o)
        ∙ ap size_of (find_path-saved p v files))
      ∙ gone);
  stat-save_beside = λ d x y v {files} n m ne h. ap size_of (save-find d x y v files ne h);
  read-save_beside = λ d x y v k {files} n m ne h. ap (bytes_of k) (save-find d x y v files ne h);
  stat-remove_beside = λ d x y {files} n m ne h.
      ap size_of
        (elim (remove_at-either (child d y) files (is_full (child d y) files)
          (find_path (child d y) files) h) [
            | inl e ↦
                ap (find_path (child d x)) e
                ∙ find-drop_other (child d y) (child d x) files (child-ne d x y ne)
            | inr e ↦ ap (find_path (child d x)) e
          ]);
  stat-remove = λ p {files} h.
      ap (λ es. size_of (find_path p es))
        (remove_at-done p files (is_full p files) (find_path p files) h)
      ∙ ap size_of (find-drop_same p files);
  remove_full = λ d x {files} n there h.
      remove_at-full d files (is_full d files) (find_path d files)
        (is_full-found d x files (λ e. there (ap size_of e))) h;
}
  where
    some≢none : (n : ℕ) → Option.some n ≢ none
    some≢none n e = cc

find_path-drop : (p q : Bytes) (es : Disk) → q ≢ p → find_path q (drop_path p es) ≡ find_path q es
find_path-drop p q es h = find-drop_other p q es (ne→str_eq p q (λ e. h (sym e)))

-- what a disk has at a path is left by a change elsewhere
find-either :
    (p q : Bytes) {files after : Disk}
    → q ≢ p
    → (after ≡ drop_path p files) ⊎ (after ≡ files)
    → find_path q after ≡ find_path q files
find-either p q {files} h (inl e) = ap (find_path q) e ∙ find_path-drop p q files h
find-either p q h (inr e) = ap (find_path q) e

find-added :
    (p q : Bytes) (x : Option Bytes) {files after : Disk}
    → q ≢ p
    → (after ≡ (p, x) ∷ files) ⊎ (after ≡ files)
    → find_path q after ≡ find_path q files
unfolding find_path
find-added p q x {files} h (inl e) =
    ap (find_path q) e ∙ rw (ne→str_eq p q (λ same. h (sym same))) refl
find-added p q x h (inr e) = ap (find_path q) e

make_at-either :
    (p : Bytes) (es : Disk) (r : Option (Option Bytes)) {done : Made} {after : Disk}
    → make_at p es r ≡ (done, after)
    → (after ≡ (p, none) ∷ es) ⊎ (after ≡ es)
make_at-either p es none h = inl cc
make_at-either p es (some e) h = inr cc

module _ (p q : Bytes) (files : Disk) (ne : q ≢ p) {after : Disk} where
  remove-find :
      {done : Bool} → disk.remove p files ≡ (done, after) → find_path q after ≡ find_path q files
  remove-find h =
      find-either p q ne (remove_at-either p files (is_full p files) (find_path p files) h)

  mkdir-find :
      {done : Made} → disk.mkdir p files ≡ (done, after) → find_path q after ≡ find_path q files
  mkdir-find h = find-added p q none ne (make_at-either p files (find_path p files) h)

  save-find_other :
      (v : Bytes) {done : Saved}
      → disk.save p v files ≡ (done, after)
      → find_path q after ≡ find_path q files
  save-find_other v h = find-added p q (some v) ne (save_to-either p v files (find_path p files) h)

saved≢unflushed : saved ≢ unflushed
saved≢unflushed e = cc

unopened≢unflushed : unopened ≢ unflushed
unopened≢unflushed e = cc

save_to-flushed :
    (p v : Bytes) (es : Disk) (found : Option (Option Bytes)) → (save_to p v es found).0 ≢ unflushed
save_to-flushed p v es none = saved≢unflushed
save_to-flushed p v es (some none) = unopened≢unflushed
save_to-flushed p v es (some (some w)) = saved≢unflushed

pub disk-Flushes : Flushes disk
disk-Flushes = record {
  flushed = λ p v {files} h e.
      save_to-flushed p v files (find_path p files) (ap (λ (r : Saved × Disk). r.0) h ∙ e);
}

pub disk-Separate : Separate disk
disk-Separate = record {
  stat-remove_other = λ p q {files} n h. ap size_of (remove-find p q files n.differs h);
  read-remove_other = λ p q k {files} n h. ap (bytes_of k) (remove-find p q files n.differs h);
  stat-mkdir_other = λ p q {files} n h. ap size_of (mkdir-find p q files n.differs h);
  read-mkdir_other = λ p q k {files} n h. ap (bytes_of k) (mkdir-find p q files n.differs h);
  stat-save_other = λ p q v {files} n h. ap size_of (save-find_other p q files n.differs v h);
  read-save_other =
      λ p q v k {files} n h. ap (bytes_of k) (save-find_other p q files n.differs v h);
}
