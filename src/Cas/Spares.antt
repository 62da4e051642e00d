-- ===== src/Cas/Spares.antt =====
-- Runs over the files, for src/cas.c, behind which something still holds as it did before.
use podcache.Prelude.{Bool, true, false, Option, none, some, ◌≡◌, subst, if◌then◌else◌}
use podcache.Cas.Files.{Io, and_then}

module _ {F : Type 0} (Same : F → F → Type 0)
    (trans : (a b c : F) → Same a b → Same b c → Same a c) where
  -- The run, if it returns, keeps it.
  abbrev pub Spares : {A : Type 0} → F → Option (A × F) → Type 0
  Spares files none = Unit {0}
  Spares files (some (a, after)) = Same files after

  pub Spares-from :
      {A : Type 0} (files mid : F) (o : Option (A × F))
      → Same files mid
      → Spares mid o
      → Spares files o
  Spares-from files mid none h g = tt
  Spares-from files mid (some (a, after)) h g = trans files mid after h g

  pub Spares-bind :
      {A B : Type 0} (files : F) (o : Option (A × F)) (k : A → Io F B)
      → Spares files o
      → ((a : A) (mid : F) → Spares mid (k a mid))
      → Spares files (and_then o k)
  Spares-bind files none k h g = tt
  Spares-bind files (some (a, mid)) k h g = Spares-from files mid (k a mid) h (g a mid)

  pub Spares-if :
      {A : Type 0} (files : F) (b : Bool) (m n : Io F A)
      → Spares files (m files)
      → Spares files (n files)
      → Spares files ((if b then m else n) files)
  Spares-if files true m n h g = h
  Spares-if files false m n h g = g

  -- a run that is known
  pub spared :
      {A : Type 0} (files : F) (o : Option (A × F)) {a : A} {after : F}
      → o ≡ some (a, after)
      → Spares files o
      → Same files after
  spared files o e h = subst (Spares files) e h
