-- ===== src/Pod/Survives.antt =====
-- A value of src/pod_cache.c while other keys are used.
use podcache.Prelude.{
  ℕ, ◌≡◌, ◌≢◌, ◌⊎◌, inl, inr, refl, sym, ap, subst, ◌∙◌, Bytes, true, none, some, [], ◌∷◌, str_eq,
  Bool-cases,
}
use podcache.Hash.Djb2.{hash}
use podcache.Hash.Sha256.{sha256_string}
use podcache.Lru.State.{LruCache}
use podcache.Lru.Invariant.{Represents}
use podcache.Lru.Spec.{Entries, lookup, insert, remove, drop_last, last_entry}
use podcache.Lru.Gone.{
  lookup-drop_last, lookup-remove_other, lookup-insert_other, lookup-drop_last_other,
  last_entry-lookup,
}
use podcache.Cas as Cas
use podcache.Cas.{directory, cas_put, cas_evict}
use podcache.Cas.Files.{FileSystem}
use podcache.Cas.Posix.{Posix, Separate, Flushes}
use podcache.Cas.Stored.{granted, Stored, put-Stored}
use podcache.Cas.RoundTrip.{StoredIn}
use podcache.Cas.Isolated.{cas_put-StoredIn, cas_evict-StoredIn}
use podcache.Pod.{get_partition}
use podcache.Pod.Invariant.{Placed, Placed-remove, Placed-insert, Placed-drop_last}
use podcache.Pod.Each.{Kept}

last_entry-Placed :
    (n i : ℕ) (es : Entries) {e : Bytes × Bytes}
    → last_entry es ≡ some e
    → Placed n i es
    → get_partition (hash e.0) n ≡ i
unfolding last_entry
last_entry-Placed n i [] h placed = cc
last_entry-Placed n i ((j, w) ∷ []) {e} h placed = let at : e.0 ≡ j = cc in rw at placed.0
last_entry-Placed n i (d ∷ f ∷ es) h placed = last_entry-Placed n i (f ∷ es) h placed.1

no_value : {x : Bytes} → none ≢ some x
no_value e = cc

module _ {F : Type 0} (fs : FileSystem F) (laws : Posix fs) (apart : Separate fs)
    (flushes : Flushes fs) (n : ℕ) (base k v : Bytes) where
  -- the key itself, or one with another hash
  abbrev Tells : Bytes → Type 0
  Tells j = (j ≡ k) ⊎ (sha256_string true k ≢ sha256_string true j)

  -- The keys of the entries are such.
  abbrev pub Apart : Entries → Type 0
  Apart [] = Unit {0}
  Apart ((j, w) ∷ es) = Tells j × Apart es

  pub Apart-remove : (j : Bytes) (es : Entries) → Apart es → Apart (remove j es)
  unfolding remove
  Apart-remove j [] h = tt
  Apart-remove j ((i, w) ∷ es) (here, h) = elim (Bool-cases (str_eq i j)) [
    | inl e ↦ rw e h
    | inr e ↦ rw e (here, Apart-remove j es h)
  ]

  pub Apart-drop_last : (es : Entries) → Apart es → Apart (drop_last es)
  unfolding drop_last
  Apart-drop_last [] h = tt
  Apart-drop_last (d ∷ []) h = tt
  Apart-drop_last (d ∷ f ∷ es) (here, h) = (here, Apart-drop_last (f ∷ es) h)

  last_entry-Apart :
      (es : Entries) {e : Bytes × Bytes} → last_entry es ≡ some e → Apart es → Tells e.0
  unfolding last_entry
  last_entry-Apart [] h told = cc
  last_entry-Apart (d ∷ []) {e} h told = let at : d.0 ≡ e.0 = cc in subst Tells at told.0
  last_entry-Apart (d ∷ f ∷ es) h told = last_entry-Apart (f ∷ es) h told.1

  -- The value is on disk.
  abbrev pub OnDisk : F → Type 0
  OnDisk files = Stored fs laws (directory base (sha256_string true k) 4) v files

  -- The value is in the key's partition, or on disk.
  abbrev pub Has : F → Entries → Type 0
  Has files es = (lookup k es ≡ some v) ⊎ ((lookup k es ≡ none) × OnDisk files)

  Has-same :
      (files after : F) (es ds : Entries)
      → lookup k ds ≡ lookup k es
      → (OnDisk files → OnDisk after)
      → Has files es
      → Has after ds
  Has-same files after es ds same keep (inl there) = inl (same ∙ there)
  Has-same files after es ds same keep (inr (absent, s)) = inr (same ∙ absent, keep s)

  -- what is said of each partition
  abbrev pub Says : F → ℕ → Entries → Type 0
  Says files i es = Placed n i es × Apart es × (i ≡ get_partition (hash k) n → Has files es)

  -- an operation on another key
  abbrev pub Other : Bytes → Type 0
  Other key = sha256_string true k ≢ sha256_string true key

  Other-ne : (key : Bytes) → Other key → key ≢ k
  Other-ne key other e = other (ap (sha256_string true) (sym e))

  module _ (registry : Cas.CasRegistry) (at_base : registry.base_path ≡ base) where
    away : (files : F) → OnDisk files → StoredIn fs laws registry k v files
    away files s =
        subst (λ b. Stored fs laws (directory b (sha256_string true k) 4) v files) (sym at_base) s

    back : (files : F) → StoredIn fs laws registry k v files → OnDisk files
    back files s =
        subst (λ b. Stored fs laws (directory b (sha256_string true k) 4) v files) at_base s

    cas_put-OnDisk :
        (now : ℕ) (e : Bytes × Bytes) {r : Cas.CasStatus × Bytes} (files after : F)
        → Other e.0
        → cas_put fs granted now registry e.0 e.1 files ≡ some (r, after)
        → OnDisk files
        → OnDisk after
    cas_put-OnDisk now e files after other run s =
        back after
          (cas_put-StoredIn fs laws apart now registry e.0 e.1 k v files other run (away files s))

    cas_evict-OnDisk :
        (key : Bytes) {r : Cas.CasStatus × Cas.CasRegistry} (files after : F)
        → Other key
        → cas_evict fs granted key registry files ≡ some (r, after)
        → OnDisk files
        → OnDisk after
    cas_evict-OnDisk key files after other run s =
        back after
          (cas_evict-StoredIn fs laws apart registry key k v files other run (away files s))

    own-OnDisk :
        (now : ℕ) (e : Bytes × Bytes) {path : Bytes} (files after : F)
        → e.0 ≡ k
        → e.1 ≡ v
        → cas_put fs granted now registry e.0 e.1 files ≡ some ((Cas.success, path), after)
        → OnDisk after
    own-OnDisk now e files after same whole run = back after (
        subst (λ j. Stored fs laws (directory registry.base_path (sha256_string true j) 4) v after)
          same
          (subst
            (λ w. Stored fs laws (directory registry.base_path (sha256_string true e.0) 4) w after)
            whole (put-Stored fs laws flushes granted now registry e.0 e.1 files run)))

    -- the spill of the last entry
    spilled-Has :
        (now : ℕ) (c : LruCache) {path : Bytes} (files after : F) (es : Entries) {e : Bytes × Bytes}
        → Represents c es
        → last_entry es ≡ some e
        → cas_put fs granted now registry e.0 e.1 files ≡ some ((Cas.success, path), after)
        → Apart es
        → Has files es
        → Has after (drop_last es)
    spilled-Has now c files after es {e} r last run told has =
        let out = lookup-drop_last c r last in
        let found = last_entry-lookup es last out in
        elim (last_entry-Apart es last told) [
          | inl same ↦ inr (
            subst (λ j. lookup j (drop_last es) ≡ none) same out,
            own-OnDisk now e files after same
                (value_of_last has (subst (λ j. lookup j es ≡ some e.1) same found)) run,
          )
          | inr other ↦
              Has-same files after es (drop_last es)
                (lookup-drop_last_other k es last (Other-ne e.0 other))
                (cas_put-OnDisk now e files after other run) has
        ]
      where
        value_of_last : Has files es → lookup k es ≡ some e.1 → e.1 ≡ v
        value_of_last (inl there) found = let h = sym found ∙ there in cc
        value_of_last (inr (absent, s)) found = absurd (no_value (sym absent ∙ found))

    unspilled-Has :
        (now : ℕ) (c : LruCache) {r : Cas.CasStatus × Bytes} (files after : F) (es : Entries)
        {e : Bytes × Bytes}
        → Represents c es
        → last_entry es ≡ some e
        → cas_put fs granted now registry e.0 e.1 files ≡ some (r, after)
        → Apart es
        → Has files es
        → Has after es
    unspilled-Has now c files after es {e} r last run told (inl there) = inl there
    unspilled-Has now c files after es {e} r last run told (inr (absent, s)) =
        let found = last_entry-lookup es last (lookup-drop_last c r last) in
        elim (last_entry-Apart es last told) [
          | inl same ↦
              absurd (no_value (sym absent ∙ subst (λ j. lookup j es ≡ some e.1) same found))
          | inr other ↦ inr (absent, cas_put-OnDisk now e files after other run s)
        ]

    -- the spill from another partition
    beside-Has :
        (now : ℕ) {r : Cas.CasStatus × Bytes} (files after : F) (i : ℕ) (es ds : Entries)
        {e : Bytes × Bytes}
        → last_entry es ≡ some e
        → cas_put fs granted now registry e.0 e.1 files ≡ some (r, after)
        → Placed n i es
        → Apart es
        → get_partition (hash k) n ≢ i
        → Has files ds
        → Has after ds
    beside-Has now files after i es ds {e} last run placed told ne has =
        elim (last_entry-Apart es last told) [
          | inl same ↦ absurd (
              ne (
                ap (λ j. get_partition (hash j) n) (sym same)
                ∙ last_entry-Placed n i es last placed))
          | inr other ↦
              Has-same files after ds ds refl (cas_put-OnDisk now e files after other run) has
        ]

  pub Says-Kept : (now : ℕ) (key : Bytes) → Other key → Kept fs n base Says granted now key
  Says-Kept now key other = record {
    removed = λ {files} {i} {es} said. (
      Placed-remove n i key es said.0,
      Apart-remove key es said.1,
      λ at.
          Has-same files files es (remove key es)
            (lookup-remove_other key k es (Other-ne key other)) (λ s. s) (said.2 at),
    );
    inserted = λ value {files} {i} {es} at said. (
      Placed-insert n i key value es at said.0,
      (inr other, Apart-remove key es said.1),
      λ here.
          Has-same files files es (insert key value es)
            (lookup-insert_other key value k es (Other-ne key other)) (λ s. s) (said.2 here),
    );
    spilled = λ c registry path {files} {after} {i} {es} r last same run said. (
      Placed-drop_last n i es said.0,
      Apart-drop_last es said.1,
      λ at. spilled-Has registry same now c files after es r last run said.1 (said.2 at),
    );
    unspilled = λ c registry q {files} {after} {i} {es} r last same run said. (
      said.0,
      said.1,
      λ at. unspilled-Has registry same now c files after es r last run said.1 (said.2 at),
    );
    beside = λ registry q {files} {after} {i} {j} {es} {ds} last same run said ne told. (
      told.0,
      told.1,
      λ at.
          beside-Has registry same now files after i es ds last run said.0 said.1 (λ e. ne (at ∙ e))
            (told.2 at),
    );
    evicted = λ registry q {files} {after} {i} {es} same run said. (
      said.0,
      said.1,
      λ at.
          Has-same files after es es refl (cas_evict-OnDisk registry same key files after other run)
            (said.2 at),
    );
  }
