-- ===== src/Tests/Disk/Full.antt =====
-- The full disk as a file system, with the laws of Cas.Posix.
use podcache.Prelude.{none, [], ◌≡◌, ◌≢◌, refl, subst}
use podcache.Cas.Files.{Saved, saved, unopened, short, unflushed}
use podcache.Cas.Posix.{Posix, child}
use podcache.Tests.Disk.{Disk, disk, not_flushed, full_disk}
use podcache.Tests.Disk.Laws.{disk-Posix}

same_files :
    (r : Saved × Disk) {done : Saved} {after : Disk} → not_flushed r ≡ (done, after) → r.1 ≡ after
same_files (saved, es) h = cc
same_files (unopened, es) h = cc
same_files (short, es) h = cc
same_files (unflushed, es) h = cc

never_saved : (r : Saved × Disk) {after : Disk} → not_flushed r ≢ (saved, after)
never_saved (saved, es) h = cc
never_saved (unopened, es) h = cc
never_saved (short, es) h = cc
never_saved (unflushed, es) h = cc

opened_too :
    (r : Saved × Disk) {done : Saved} {after : Disk}
    → not_flushed r ≡ (done, after)
    → done ≢ unopened
    → r.0 ≢ unopened
opened_too (saved, es) h o = λ e. cc
opened_too (unopened, es) h o = absurd (o cc)
opened_too (short, es) h o = λ e. cc
opened_too (unflushed, es) h o = λ e. cc

pub full_disk-Posix : Posix full_disk
full_disk-Posix = record {
  stat-save = λ p v {files} h. absurd (never_saved (disk.save p [] files) h);
  read-save = λ p v {files} h. absurd (never_saved (disk.save p [] files) h);
  save-exists = λ p v {files} h o.
      let r = disk.save p [] files in
      subst (λ es. disk.stat p es ≢ none) (same_files r h)
        (disk-Posix.save-exists p [] refl (opened_too r h o));
  stat-save_beside = λ d x y v {files} n m ne h.
      subst (λ es. disk.stat (child d x) es ≡ disk.stat (child d x) files)
        (same_files (disk.save (child d y) [] files) h)
        (disk-Posix.stat-save_beside d x y [] n m ne refl);
  read-save_beside = λ d x y v k {files} n m ne h.
      subst (λ es. disk.read (child d x) k es ≡ disk.read (child d x) k files)
        (same_files (disk.save (child d y) [] files) h)
        (disk-Posix.read-save_beside d x y [] k n m ne refl);
  stat-remove_beside = disk-Posix.stat-remove_beside;
  stat-remove = disk-Posix.stat-remove;
  remove_full = disk-Posix.remove_full;
}
