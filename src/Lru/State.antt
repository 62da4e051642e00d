-- ===== src/Lru/State.antt =====
-- The structures of include/lru_cache.h, and commands over a cache. The nodes of the LRU list lie at
-- addresses, since the list links them both ways and the hash chains point at them too. A hash
-- chain is singly linked and has one owner: it is the list of its nodes.
use podcache.Prelude.{
  ℕ, Bytes, Bool, true, false, Option, none, some, List, ◌==◌, ltb, if◌then◌else◌, length, take,
}

abbrev pub Ptr : Type 0
Ptr = ℕ

abbrev pub null : Ptr
null = 0

-- `struct lru_node`; the `value` is `none` where the pointer is NULL
pub record LruNode : Type 0 where
  pub key : Bytes
  pub value : Option Bytes
  pub size : ℕ
  pub creation_time : ℕ
  pub next : Ptr
  pub prev : Ptr

-- `struct hash_node` less its `next`
pub record HashNode : Type 0 where
  pub key : Bytes
  pub node : Ptr

-- `struct lru_cache`, with the memory that holds its list nodes; `locked` is the state of its mutex
pub record LruCache : Type 0 where
  pub head : Ptr
  pub tail : Ptr
  pub buckets : ℕ → List HashNode
  pub max_bytes_capacity : ℕ
  pub current_bytes_size : ℕ
  pub hash_table_size : ℕ
  pub locked : Bool
  pub nodes : Ptr → Option LruNode

-- The codes 0, -1, -100 and -900 that the functions return.
pub data Status : Type 0 where
  success error not_found full : Status

-- `none` is a fault: a read through NULL or a dangling pointer, an index out of bounds, a lock of a
-- mutex that is held.
abbrev pub Cmd : Type 0 → Type 0
Cmd A = LruCache → Option (A × LruCache)

abbrev pub pure : {A : Type 0} → A → Cmd A
pure a c = some (a, c)

abbrev pub fault : {A : Type 0} → Cmd A
fault c = none

module _ {A B : Type 0} where
  abbrev pub and_then : Option (A × LruCache) → (A → Cmd B) → Option (B × LruCache)
  and_then none k = none
  and_then (some (a, c)) k = k a c

  infixl 5 ◌>>=◌ ◌>>◌
  abbrev pub ◌>>=◌ : Cmd A → (A → Cmd B) → Cmd B
  m >>= k = λ c. and_then (m c) k

  abbrev pub ◌>>◌ : Cmd A → Cmd B → Cmd B
  m >> n = m >>= λ _. n

abbrev pub get_cache : Cmd LruCache
get_cache c = some (c, c)

abbrev pub modify : (LruCache → LruCache) → Cmd (Unit {0})
modify f c = some (tt, f c)

abbrev pub write : (Ptr → Option LruNode) → Ptr → Option LruNode → Ptr → Option LruNode
write h p n a = if a == p then n else h a

-- fills the address, or gives it back
abbrev pub store : Ptr → Option LruNode → Cmd (Unit {0})
store p n = modify (λ c. record c { nodes = write c.nodes p n })

-- `*p`
unfoldable pub load : Ptr → Cmd LruNode
load p c = if p == null then none else elim (c.nodes p) [ none ↦ none | some n ↦ some (n, c) ]

-- `p->next = q`
unfoldable pub set_next : Ptr → Ptr → Cmd (Unit {0})
unfolding load
set_next p q = do n ← load p; store p (some (record n { next = q }))

-- `p->prev = q`
unfoldable pub set_prev : Ptr → Ptr → Cmd (Unit {0})
unfolding load
set_prev p q = do n ← load p; store p (some (record n { prev = q }))

-- `free(p)` of a list node, with its key and its value
unfoldable pub free_node : Ptr → Cmd (Unit {0})
unfolding load
free_node p = load p >> store p none

abbrev pub set_head : Ptr → Cmd (Unit {0})
set_head p = modify (λ c. record c { head = p })

abbrev pub set_tail : Ptr → Cmd (Unit {0})
set_tail p = modify (λ c. record c { tail = p })

-- `buckets[i]`
unfoldable pub read_bucket : ℕ → Cmd (List HashNode)
read_bucket i c = if ltb i c.hash_table_size then some (c.buckets i, c) else none

-- `buckets[i] = chain`
unfoldable pub write_bucket : ℕ → List HashNode → Cmd (Unit {0})
write_bucket i chain c =
    if ltb i c.hash_table_size
    then some (tt, record c { buckets = λ j. if j == i then chain else c.buckets j })
    else none

unfoldable pub lock : Cmd (Unit {0})
lock c = if c.locked then none else some (tt, record c { locked = true })

unfoldable pub unlock : Cmd (Unit {0})
unlock c = some (tt, record c { locked = false })

-- `memcpy(dst, value, size)` out of a node: the bytes copied
unfoldable pub copy_value : LruNode → Cmd Bytes
copy_value n = elim n.value [
  | none ↦ fault
  | some v ↦ if ltb (length v) n.size then fault else pure (take n.size v)
]
