-- ===== src/Tests/Numbers.antt =====
-- Runs of the theorems about SET, GET and INCR.
use podcache.Prelude.{
  ℕ, Bytes, codes, true, Option, none, some, [], ◌∷◌, ◌==◌, ◌≡◌, refl, sym, subst, ap, ◌∙◌, arith,
  if◌then◌else◌, str_eq_refl, str_eq, length,
}
use podcache.Prelude.Int.{pos}
use podcache.Prelude.Decimal.{decimal, print}
use podcache.Hash.Djb2.{hash, hash_djb2, djb2_loop, hash_key}
use podcache.Lru.State.{
  LruCache, Status, copy_value, success, load, set_next, set_prev, read_bucket, write_bucket, lock,
  unlock,
}
use podcache.Lru.Ops.{put, put_found, put_insert, create_node, find, get, get_found}
use podcache.Lru.Links.{add_to_head, move_to_head, relink_at_head}
use podcache.Lru.Spec.{Entries, lookup, insert, touch, total, remove}
use podcache.Lru.Invariant.{Represents, Serves}
use podcache.Lru.Put.{Grants, put-refines}
use podcache.Pod.{PodCache, get_partition}
use podcache.Pod.Memory.{slot}
use podcache.Pod.Partitions.{Holds, Works}
use podcache.Resp.{c_string}
use podcache.Server.{send_ok_response, send_bulk_string_response, send_integer_response}
use podcache.Server.Handlers.{Request, handle_set, handle_get, handle_incr}
use podcache.Server.RoundTrip.{handle_get-handle_set}
use podcache.Server.Incr.{handle_incr-decimal}
use podcache.Tests.Disk.{disk}
use podcache.Tests.Memory.{some-inj, empty, empty-Represents, key, alloc_at, alloc_at-Grants}
use podcache.Tests.Partitions.{cache_of, outcome}
use podcache.Tests.Server.{env}

-- one partition
abbrev pub single : LruCache → PodCache
single c = record {
  total_capacity = 10;
  partition_capacity = 10;
  partition_count = 1;
  partitions = c ∷ [];
  cas_registry = record {
    base_path = codes "./cas";
    entries = [];
    capacity = 100;
    allocated = 100;
  };
}

-- a NUL follows what is read
abbrev pub ended : Request
ended = record {
  first = env;
  second = record env { put_alloc = alloc_at 2 };
  send_ok = true;
  behind = 0 ∷ [];
}

abbrev place : PodCache → ℕ
place cache = slot disk ended.first cache (c_string key) []

single-Holds :
    (c : LruCache) (es : Entries)
    → Represents c es
    → c.max_bytes_capacity ≡ 10
    → Holds (single c) (place (single c)) es
unfolding get_partition hash c_string
single-Holds c es r e = record { partition = c; there = refl; represents = r; capacity = e }

pub single_empty : Holds (single empty) (place (single empty)) []
single_empty = single-Holds empty [] empty-Represents refl

pub single_empty_partition : single_empty.partition ≡ empty
unfolding single_empty single-Holds
single_empty_partition = refl

handle_get-handle_set_example :
    (mid final : PodCache) × (handle_set disk ended
        (some key ∷ some (codes "xyz") ∷ [])
        (single empty)
        []
      ≡ some (send_ok_response true (codes "OK"), mid, []))
    × (handle_get disk ended (some key ∷ []) mid []
        ≡ some (
          send_bulk_string_response true
              (if place (single empty) == 0 then some (c_string (codes "xyz")) else none),
          final,
          [],
        ))
unfolding c_string total
handle_get-handle_set_example =
    handle_get-handle_set disk ended ended key (codes "xyz") [] [] [] (single empty) [] single_empty
      (subst (Grants (alloc_at 1)) (sym single_empty_partition)
        (alloc_at-Grants 1 (λ e. omega arith)))
      (omega arith) (omega arith) refl refl

abbrev number : Bytes
number = codes "41"

number_lem : decimal 41 ≡ number
unfolding print
number_lem = refl

unfoldable counted : LruCache
unfolding cache_of put put_found put_insert create_node find lock unlock read_bucket write_bucket
    add_to_head load set_next set_prev hash_key
counted = cache_of (put (alloc_at 1) 5 key number empty)

counted-put : put (alloc_at 1) 5 key number empty ≡ some (success, counted)
unfolding counted cache_of put put_found put_insert create_node find lock unlock read_bucket
    write_bucket add_to_head load set_next set_prev hash_key hash hash_djb2 djb2_loop
counted-put = refl

abbrev numbers : Entries
numbers = (key, decimal 41) ∷ []

served : Serves empty (put (alloc_at 1) 5 key number empty) success ((key, number) ∷ [])
unfolding total remove
served =
    put-refines (alloc_at 1) 5 key number empty empty-Represents
      (alloc_at-Grants 1 (λ e. omega arith)) (omega arith)

same : served.final ≡ counted
same = outcome (sym served.runs ∙ counted-put)

counted-Represents : Represents counted numbers
counted-Represents =
    subst (λ v. Represents counted ((key, v) ∷ [])) (sym number_lem)
      (subst (λ c. Represents c ((key, number) ∷ [])) same served.represents)

counted_Holds : Holds (single counted) (place (single counted)) numbers
counted_Holds =
    single-Holds counted numbers counted-Represents
      (ap (λ (c : LruCache). c.max_bytes_capacity) (sym same) ∙ served.capacity)

-- the cache behind a read
unfoldable read_of : Option ((Status × Option Bytes) × LruCache) → LruCache
read_of none = empty
read_of (some (r, c)) = c

unfoldable counted_read : LruCache
unfolding read_of get get_found find read_bucket load copy_value move_to_head relink_at_head
    hash_key
counted_read = read_of (get true key counted)

counted_read_made : get true key counted ≡ some ((success, some number), counted_read)
unfolding counted_read read_of get get_found find read_bucket load copy_value move_to_head
    relink_at_head hash_key counted cache_of put put_found put_insert create_node lock unlock
    write_bucket add_to_head set_next set_prev hash hash_djb2 djb2_loop str_eq
counted_read_made = refl

counted_read_unused : counted_read.nodes 2 ≡ none
unfolding counted_read read_of get get_found find read_bucket load copy_value move_to_head
    relink_at_head hash_key counted cache_of put put_found put_insert create_node lock unlock
    write_bucket add_to_head set_next set_prev hash hash_djb2 djb2_loop str_eq
counted_read_unused = refl

-- The caches behind two equal reads are equal.
read_outcome : {x y : (Status × Option Bytes) × LruCache} → some x ≡ some y → x.1 ≡ y.1
read_outcome h = ap (λ (r : (Status × Option Bytes) × LruCache). r.1) (some-inj h)

granted :
    (c : LruCache)
    → get true (c_string key) counted_Holds.partition ≡ some ((success, some (decimal 41)), c)
    → Grants (alloc_at 2) c
unfolding counted_Holds single-Holds c_string
granted c h = record {
  nonnull = λ e. omega arith;
  unused =
      ap (λ (d : LruCache). d.nodes 2) (read_outcome (sym h ∙ counted_read_made))
      ∙ counted_read_unused;
  key_ok = refl;
  value_ok = refl;
  hash_node_ok = refl;
  hash_key_ok = refl;
}

place_zero : place (single counted) ≡ 0
unfolding get_partition hash c_string
place_zero = refl

found : lookup (c_string key) numbers ≡ some (decimal 41)
unfolding lookup c_string
found = rw (str_eq_refl key) refl

digits : length (decimal 42) ≡ 2
unfolding print
digits = refl

old_digits : length (decimal 41) ≡ 2
unfolding print
old_digits = refl

touch-numbers : touch (c_string key) numbers ≡ numbers
unfolding touch remove lookup c_string str_eq
touch-numbers = refl

handle_incr-decimal_example :
    Works
      (single counted)
      (place (single counted))
      (handle_incr disk ended (some key ∷ []) (single counted) [])
      (send_integer_response true (pos 42))
      (insert (c_string key) (decimal 42) (touch (c_string key) numbers))
      []
unfolding total
handle_incr-decimal_example =
    handle_incr-decimal disk ended key [] 41 [] (single counted) [] place_zero counted_Holds found
      (omega arith) refl refl granted (omega (arith, digits))
      (rw touch-numbers (omega (arith, digits, old_digits)))
