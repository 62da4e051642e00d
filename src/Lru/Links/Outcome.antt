-- ===== src/Lru/Links/Outcome.antt =====
-- A run of a command on the links, field by field, so that the memory can be compared address by address.
use mathlib.Core.Path.{fun_ext}
use podcache.Prelude.{◌≡◌, ap, ◌∙◌, Option, none, some}
use podcache.Lru.State.{Ptr, LruCache}

-- the run ends in `e`, up to the extensionality of memories
abbrev pub Ends : Option (Unit {0} × LruCache) → LruCache → Type 0
Ends none e = ⊥
Ends (some (u, d)) e = (record d { nodes = e.nodes } ≡ e) × ((a : Ptr) → d.nodes a ≡ e.nodes a)

pub eq_of_Ends : (r : Option (Unit {0} × LruCache)) (e : LruCache) → Ends r e → r ≡ some (tt, e)
eq_of_Ends none e h = absurd h
eq_of_Ends (some (u, d)) e (rest, nodes) =
    ap (λ h. some (tt, record d { nodes = h })) (fun_ext nodes) ∙ ap (λ x. some (tt, x)) rest
