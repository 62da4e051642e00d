-- ===== src/Pod/Spill.antt =====
-- `pod_cache_put` into a partition that is full: its least recently used entry goes to disk.
use podcache.Prelude.{
  ℕ, Bytes, some, [], ◌∷◌, ◌+◌, ◌≤◌, ◌<◌, ◌^◌, ◌≡◌, ◌≢◌, refl, sym, ap, ◌∙◌, arith, le→ltb,
  take-length, length, ne→==,
}
use podcache.Prelude.Int.{pos}
use podcache.Hash.Djb2.{hash}
use podcache.Lru.State.{LruCache, LruNode, success, load, copy_value}
use podcache.Lru.Spec.{Entries, insert, total, drop_last, last_entry}
use podcache.Lru.Ops.{put, remove_tail, get_tail_node}
use podcache.Lru.Put.{Grants, put_no_room}
use podcache.Lru.Tail.{remove_tail-refines, last_entry-TailNode, TailNode}
use podcache.Cas as Cas
use podcache.Cas.{CasRegistry, cas_put, cas_get, cas_add_to_registry}
use podcache.Cas.Registry.{IsWide, cas_add_to_registry-base_path, cas_add_to_registry-some}
use podcache.Cas.Files.{FileSystem}
use podcache.Pod.{PodCache, get_partition}
use podcache.Pod.Ops.{Env, pod_cache_put, put_answer, spill, spill_value, spilled, retry}
use podcache.Pod.Partitions.{
  Holds, Works, SameBeside, SameBeside-trans, with_partition, set-same, on_partition-reads,
  with_partition-SameBeside, on_partition-runs, put_room-Works,
}

-- reading the tail's entry
pub tail_value :
    (c : LruCache) {e : Bytes × Bytes} (t : TailNode c e) → copy_value t.node c ≡ some (e.1, c)
unfolding copy_value
tail_value c {e} t =
    rw (t.value, t.size, le→ltb (length e.1) (length e.1) (omega arith), take-length {0} e.1) refl

pub last_entry-ne : (es : Entries) {e : Bytes × Bytes} → last_entry es ≡ some e → es ≢ []
unfolding last_entry
last_entry-ne [] h empty = cc
last_entry-ne (d ∷ es) h empty = cc

module _ {F : Type 0} (fs : FileSystem F) (env : Env) (i : ℕ) (key value : Bytes) where
  -- the rest of the operation, behind a `cas_put` that returned 0
  retry-Works :
      (cache : PodCache) (files : F) (path : Bytes) {es : Entries} (held : Holds cache i es)
      → es ≢ []
      → IsWide cache.cas_registry
      → ((c : LruCache) → remove_tail held.partition ≡ some (success, c) → Grants env.retry_alloc c)
      → cache.partition_capacity + length value < 2 ^ 64
      → total (drop_last es) + length value < cache.partition_capacity
      → Works cache i
          (retry fs env i key value path cache files)
          (pos i)
          (insert key value (drop_last es))
          files
  unfolding retry
  retry-Works cache files path {es} held some_entry wide grants word room =
      let (status, registry, listed) =
        cas_add_to_registry-some env.realloc_ok env.malloc_ok cache.cas_registry path wide in
      let added : PodCache = record cache { cas_registry = registry } in
      let held1 : Holds added i es = record {
        partition = held.partition;
        there = held.there;
        represents = held.represents;
        capacity = held.capacity;
      } in
      let cut = remove_tail-refines held.partition held.represents some_entry in
      let cache1 = with_partition added i held1 cut.final in
      let held2 : Holds cache1 i (drop_last es) = record {
        partition = cut.final;
        there = set-same i cut.final held.partition cache.partitions held.there;
        represents = cut.represents;
        capacity = cut.capacity ∙ held.capacity;
      } in
      let w =
        put_room-Works cache1 i files env.retry_alloc env.now key value held2
          (grants cut.final cut.runs) word room in
      let first = on_partition-runs added i held1 files remove_tail cut.final cut.runs in
      let same1 = with_partition-SameBeside added i held1 cut.final in
      let same : SameBeside i cache cache1 = record {
        others = same1.others;
        count = refl;
        capacity = refl;
        store =
            cas_add_to_registry-base_path env.realloc_ok env.malloc_ok cache.cas_registry path
              listed;
      } in
      record {
        final = w.final;
        runs = rw (listed, first, w.runs) refl;
        holds = w.holds;
        beside = SameBeside-trans same w.beside;
      }

  node-retry :
      (cache : PodCache) (files after : F) (path : Bytes) (n : LruNode) {es : Entries}
      {e : Bytes × Bytes} (held : Holds cache i es)
      → n.key ≡ e.0
      → n.value ≡ some e.1
      → copy_value n held.partition ≡ some (e.1, held.partition)
      → cas_put fs env.cas_alloc env.now cache.cas_registry e.0 e.1 files
        ≡ some ((Cas.success, path), after)
      → spill_value fs env i key value n n.value cache files
        ≡ retry fs env i key value path cache after
  unfolding spill_value spilled
  node-retry cache files after path n held name whole copied stored =
      ap (λ w. spill_value fs env i key value n w cache files) whole
      ∙ rw (on_partition-reads cache i held files (copy_value n) copied, name, stored) refl

  -- The steps up to the one that stores the tail.
  spill-retry :
      (cache : PodCache) (files after : F) (path : Bytes) {es : Entries} {e : Bytes × Bytes}
      (held : Holds cache i es)
      → last_entry es ≡ some e
      → cas_put fs env.cas_alloc env.now cache.cas_registry e.0 e.1 files
        ≡ some ((Cas.success, path), after)
      → spill fs env i key value cache files ≡ retry fs env i key value path cache after
  unfolding spill
  spill-retry cache files after path {es} {e} held last stored =
      let t = last_entry-TailNode held.partition held.represents last in
      rw
        (
          on_partition-reads cache i held files get_tail_node t.got,
          ne→== t.ptr 0 t.nonnull,
          on_partition-reads cache i held files (load t.ptr) t.loaded,
        )
        (node-retry cache files after path t.node held t.key t.value (tail_value held.partition t)
          stored)

  -- `pod_cache_put` into a valid partition without room, while no sum wraps around, if `cas_put`
  -- then stores the partition's least recently used entry `e`, the registry's array has place for
  -- its capacity, above the number of entries, and there is memory and room for the new entry once
  -- `e` is out: it returns the partition's index, the new entry is the
  -- partition's most recently used one and `e` is out of it, and the files are the ones that
  -- `cas_put` left. The other partitions stay.
  pub pod_cache_put-spill :
      (cache : PodCache) (files after : F) (path : Bytes) {es : Entries} {e : Bytes × Bytes}
      → i ≡ get_partition (hash key) cache.partition_count
      → (held : Holds cache i es) → last_entry es ≡ some e
      → IsWide cache.cas_registry
      → cas_put fs env.cas_alloc env.now cache.cas_registry e.0 e.1 files
        ≡ some ((Cas.success, path), after)
      → ((c : LruCache) → remove_tail held.partition ≡ some (success, c) → Grants env.retry_alloc c)
      → cache.partition_capacity + length value < 2 ^ 64
      → cache.partition_capacity ≤ total es + length value
      → total (drop_last es) + length value < cache.partition_capacity
      → Works cache i
          (pod_cache_put fs env key value cache files)
          (pos i)
          (insert key value (drop_last es))
          after
  unfolding pod_cache_put put_answer
  pod_cache_put-spill cache files after path {es} {e} at held last wide stored grants word tight
        room =
      let big = held.capacity in
      let refused = on_partition-reads cache i held files (put env.put_alloc env.now key value) (
        put_no_room env.put_alloc env.now key value held.partition held.represents (omega arith)
          (omega arith)) in
      let spilled = spill-retry cache files after path held last stored in
      let w = retry-Works cache after path held (last_entry-ne es last) wide grants word room in
      record {
        final = w.final;
        runs = rw (sym at, refused, spilled, w.runs) refl;
        holds = w.holds;
        beside = w.beside;
      }
