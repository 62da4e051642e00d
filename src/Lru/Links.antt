-- ===== src/Lru/Links.antt =====
-- The list surgery of src/lru_cache.c: `add_to_head`, `move_to_head`, and the unlinking that
-- `lru_cache_evict` does in place.
pub mod Outcome
pub mod Head
pub mod Unlink
pub mod Move
use podcache.Prelude.{◌&&◌, ◌==◌, if◌then◌else◌}
use podcache.Lru.State.{
  Ptr, null, Cmd, pure, ◌>>=◌, ◌>>◌, get_cache, load, set_next, set_prev, set_head, set_tail,
}

unfoldable pub add_to_head : Ptr → Cmd (Unit {0})
unfolding set_prev set_next
add_to_head lru_node = if lru_node == null then pure tt else do
  set_prev lru_node null
  cache ← get_cache
  if cache.head == null
      then (do set_head lru_node; set_tail lru_node; set_next lru_node null)
      else do set_next lru_node cache.head; set_prev cache.head lru_node; set_head lru_node

-- The last statements of both long branches of `move_to_head`.
unfoldable pub relink_at_head : Ptr → Cmd (Unit {0})
unfolding set_prev set_next
relink_at_head lru_node = do
  set_prev lru_node null
  cache ← get_cache
  set_next lru_node cache.head
  if cache.head == null then pure tt else set_prev cache.head lru_node
  set_head lru_node

unfoldable pub move_to_head : Ptr → Cmd (Unit {0})
unfolding load relink_at_head
move_to_head lru_node = do
  cache ← get_cache
  if lru_node == null then pure tt else if cache.head == lru_node then pure tt else do
    n ← load lru_node
    if n.prev == null && n.next == null
        then pure tt
        else if cache.tail == lru_node
        then (do set_next n.prev null; set_tail n.prev; relink_at_head lru_node)
        else do set_next n.prev n.next; set_prev n.next n.prev; relink_at_head lru_node

-- "rimozione dalla linkedlist lru" in `lru_cache_evict`
unfoldable pub unlink : Ptr → Cmd (Unit {0})
unfolding load set_prev set_next
unlink node_to_remove = do
  cache ← get_cache
  if cache.head == cache.tail then (do set_head null; set_tail null) else do
    n ← load node_to_remove
    if node_to_remove == cache.head
        then (do set_head n.next; set_prev n.next null)
        else if node_to_remove == cache.tail
        then (do set_tail n.prev; set_next n.prev null)
        else do set_next n.prev n.next; set_prev n.next n.prev
