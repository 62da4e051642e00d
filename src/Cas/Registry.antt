-- ===== src/Cas/Registry.antt =====
-- The array of the registry in src/cas.c.
use podcache.Prelude.{
  ◌+◌, ◌*◌, ◌≤◌, ◌<◌, ◌≡◌, ◌≢◌, refl, arith, Bytes, Bool, true, false, none, some, [], ◌∷◌, length,
  length-append, Option-cases, inl, inr, leb, ltb, ◌++◌,
}
use podcache.Cas.{CasRegistry, CasStatus, success, error, cas_add_to_registry}

-- The capacity is above the number of entries, and the array has place for that many.
abbrev pub IsWide : CasRegistry → Type 0
IsWide registry =
    (length registry.entries < registry.capacity) × (registry.capacity ≤ registry.allocated)

pub cas_add_to_registry-base_path :
    (realloc_ok malloc_ok : Bool) (registry : CasRegistry) (path : Bytes) {status : CasStatus}
    {after : CasRegistry}
    → cas_add_to_registry realloc_ok malloc_ok registry path ≡ some (status, after)
    → after.base_path ≡ registry.base_path
unfolding cas_add_to_registry
cas_add_to_registry-base_path realloc_ok malloc_ok registry path h = ground arith

not_none :
    (realloc_ok malloc_ok : Bool) (registry : CasRegistry) (path : Bytes)
    → IsWide registry
    → cas_add_to_registry realloc_ok malloc_ok registry path ≢ none
unfolding cas_add_to_registry
not_none realloc_ok malloc_ok registry path (below, place) h = ground arith

-- Without a fault.
pub cas_add_to_registry-some :
    (realloc_ok malloc_ok : Bool) (registry : CasRegistry) (path : Bytes)
    → IsWide registry
    → (status : CasStatus) × (after : CasRegistry) × (cas_add_to_registry realloc_ok malloc_ok
          registry path
        ≡ some (status, after))
cas_add_to_registry-some realloc_ok malloc_ok registry path (below, place) =
    elim (Option-cases (cas_add_to_registry realloc_ok malloc_ok registry path)) [
      | inl e ↦ absurd (not_none realloc_ok malloc_ok registry path (below, place) e)
      | inr ((status, after), e) ↦ (status, after, e)
    ]

-- If a registry is full up to one entry and the `realloc` that is to double its array fails, the call
-- returns -1 with a doubled capacity; the next call, whose string is allocated, still fits the array and
-- returns 0, and the one behind it writes past the array, whatever is allocated.
pub cas_add_to_registry_overrun :
    (malloc_ok realloc_ok' realloc_ok'' malloc_ok'' : Bool) (registry : CasRegistry) (p q r : Bytes)
    → 1 < registry.capacity
    → length registry.entries + 1 ≡ registry.capacity
    → registry.allocated ≡ registry.capacity
    → (first : CasRegistry) × (second : CasRegistry) × (cas_add_to_registry false malloc_ok registry
          p
        ≡ some (error, first))
      × (cas_add_to_registry realloc_ok' true first q ≡ some (success, second))
      × (cas_add_to_registry realloc_ok'' malloc_ok'' second r ≡ none)
unfolding cas_add_to_registry
cas_add_to_registry_overrun malloc_ok realloc_ok' realloc_ok'' malloc_ok'' registry p q r big filled
      whole =
    let tight : leb registry.capacity (length registry.entries + 1) ≡ true = ground arith in
    let loose : leb (registry.capacity * 2) (length registry.entries + 1) ≡ false = ground arith in
    let fits : ltb (length registry.entries) registry.allocated ≡ true = ground arith in
    let more : length (registry.entries ++ some q ∷ []) ≡ length registry.entries + 1 =
      length-append {0} registry.entries (some q ∷ []) in
    let loose' : leb (registry.capacity * 2) (length registry.entries + 1 + 1) ≡ false =
      ground arith in
    let over : ltb (length registry.entries + 1) registry.allocated ≡ false = ground arith in
    (
      record registry { capacity = registry.capacity * 2 },
      record registry {
        capacity = registry.capacity * 2;
        entries = registry.entries ++ some q ∷ [];
      },
      rw tight refl,
      rw (loose, fits) refl,
      rw (more, loose', over) refl,
    )
