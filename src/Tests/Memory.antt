-- ===== src/Tests/Memory.antt =====
-- Runs of the theorems about caches in memory.
use podcache.Prelude.{
  ℕ, Bytes, codes, true, false, none, some, [], ◌∷◌, ◌≡◌, ◌≢◌, refl, sym, subst, ◌∙◌, arith,
  if◌then◌else◌, ltb, ◌+◌, length, str_eq_refl,
}
use podcache.Lru.Race.{get_found-evict}
use podcache.Hash.Djb2.{hash_key}
use podcache.Lru.State.{HashNode, LruCache, null, success, full, error}
use podcache.Lru.Ops.{
  Alloc, find, get_found, put, create, calculate_hash_table_size, grow, get, evict, remove_tail,
}
use podcache.Lru.Spec.{Entries, lookup, touch, remove, insert, total, drop_last}
use podcache.Lru.Invariant.{Represents, Serves}
use podcache.Lru.Create.{create-Represents}
use podcache.Lru.Put.{Grants, put-refines, put_no_room, put_failed-get}
use podcache.Lru.Get.{get-refines, reply}
use podcache.Lru.Evict.{evict-refines, evict_reply}
use podcache.Lru.Tail.{remove_tail-refines}

abbrev pub empty : LruCache
empty = record {
  head = null;
  tail = null;
  buckets = λ _. [];
  max_bytes_capacity = 10;
  current_bytes_size = 0;
  hash_table_size = 17;
  locked = false;
  nodes = λ _. none;
}

abbrev pub alloc_at : ℕ → Alloc
alloc_at p = record {
  fresh = p;
  key_ok = true;
  value_ok = true;
  hash_node_ok = true;
  hash_key_ok = true;
}

abbrev pub key : Bytes
key = codes "a"

abbrev pub value : Bytes
value = codes "12345678"

abbrev pub entries : Entries
entries = (key, value) ∷ []

empty-made : create true true true 10 ≡ some empty
unfolding create calculate_hash_table_size grow
empty-made = refl

pub some-inj : {A : Type 0} {x y : A} → some x ≡ some y → x ≡ y
some-inj h = cc

pub empty-Represents : Represents empty []
empty-Represents =
    let (c, made, r, _) = create-Represents 10 (omega arith) in
    let same : c ≡ empty = some-inj (sym made ∙ empty-made) in subst (λ d. Represents d []) same r

pub alloc_at-Grants : (p : ℕ) → p ≢ null → Grants (alloc_at p) empty
alloc_at-Grants p h = record {
  nonnull = h;
  unused = refl;
  key_ok = refl;
  value_ok = refl;
  hash_node_ok = refl;
  hash_key_ok = refl;
}

put-refines_example :
    Serves empty
      (put (alloc_at 1) 5 key value empty)
      (if ltb (total [] + length value) 10 then success else full)
      (if ltb (total [] + length value) 10 then insert key value [] else [])
put-refines_example =
    put-refines (alloc_at 1) 5 key value empty empty-Represents
      (alloc_at-Grants 1 (λ e. omega arith)) (omega arith)

pub served : Serves empty (put (alloc_at 1) 5 key value empty) success entries
unfolding total remove
served =
    put-refines (alloc_at 1) 5 key value empty empty-Represents
      (alloc_at-Grants 1 (λ e. omega arith)) (omega arith)

-- the cache with one entry
abbrev pub one : LruCache
one = served.final

pub one-Represents : Represents one entries
one-Represents = served.represents

pub one_capacity : one.max_bytes_capacity ≡ 10
one_capacity = served.capacity

get-refines_example : Serves one (get true key one) (reply (lookup key entries)) (touch key entries)
get-refines_example = get-refines one key one-Represents

evict-refines_example :
    Serves one (evict key one) (evict_reply (lookup key entries)) (remove key entries)
evict-refines_example = evict-refines one key one-Represents

not_empty : entries ≢ []
not_empty e = cc

remove_tail-refines_example : Serves one (remove_tail one) success (drop_last entries)
remove_tail-refines_example = remove_tail-refines one one-Represents not_empty

put_no_room_example :
    put (alloc_at 2) 6 (codes "b") (codes "12345678910") empty ≡ some (full, empty)
unfolding total
put_no_room_example =
    put_no_room (alloc_at 2) 6 (codes "b") (codes "12345678910") empty empty-Represents
      (omega arith) (omega arith)

abbrev short_alloc : Alloc
short_alloc = record (alloc_at 2) { value_ok = false }

lookup_key : lookup key entries ≡ some value
unfolding lookup
lookup_key = rw (str_eq_refl key) refl

put_failed-get_example :
    (final : LruCache) × (put short_alloc 6 key (codes "x") one ≡ some (error, final))
    × (get true key final ≡ none)
unfolding total
put_failed-get_example =
    put_failed-get short_alloc 6 key (codes "x") one one-Represents lookup_key refl
      (omega (arith, one_capacity))

get_found-evict_example :
    (found : HashNode) × (final : LruCache) × (find key
        (one.buckets (hash_key key one.hash_table_size))
      ≡ some found)
    × (evict key one ≡ some (success, final))
    × (get_found true (some found) final ≡ none)
get_found-evict_example = get_found-evict true one key one-Represents lookup_key
