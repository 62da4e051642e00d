-- ===== src/Lru/Spec.antt =====
-- What an LRU cache promises, over the list of its entries, the most recently used first.
use podcache.Prelude.{
  ℕ, ◌+◌, Bytes, Option, none, some, List, [], ◌∷◌, if◌then◌else◌, str_eq, length,
}

abbrev pub Entries : Type 0
Entries = List (Bytes × Bytes)

unfoldable pub lookup : Bytes → Entries → Option Bytes
lookup k [] = none
lookup k ((j, v) ∷ es) = if str_eq j k then some v else lookup k es

unfoldable pub remove : Bytes → Entries → Entries
remove k [] = []
remove k ((j, v) ∷ es) = if str_eq j k then es else (j, v) ∷ remove k es

-- a use of the key brings its entry to the front
unfoldable pub touch : Bytes → Entries → Entries
touch k es = elim (lookup k es) [ none ↦ es | some v ↦ (k, v) ∷ remove k es ]

abbrev pub insert : Bytes → Bytes → Entries → Entries
insert k v es = (k, v) ∷ remove k es

-- the entries without the least recently used
unfoldable pub drop_last : Entries → Entries
drop_last [] = []
drop_last (e ∷ []) = []
drop_last (e ∷ d ∷ es) = e ∷ drop_last (d ∷ es)

-- the least recently used entry
unfoldable pub last_entry : Entries → Option (Bytes × Bytes)
last_entry [] = none
last_entry (e ∷ []) = some e
last_entry (e ∷ d ∷ es) = last_entry (d ∷ es)

-- the bytes of all values
unfoldable pub total : Entries → ℕ
total [] = 0
total ((k, v) ∷ es) = length v + total es
