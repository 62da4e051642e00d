-- ===== src/Lru/Links/Head.antt =====
-- Putting a loose node at the head of the list.
use podcache.Prelude.{refl, ◌≢◌, ◌≡◌, some, [], ◌∷◌, arith, List}
use podcache.Lru.State.{Ptr, LruCache}
use podcache.Lru.Layout.{Cell, layout, Distinct, linked, loose}
use podcache.Lru.Links.{add_to_head, relink_at_head}
use podcache.Lru.Links.Outcome.{Ends, eq_of_Ends}

module _ (c : LruCache) (x : Cell) (p q : Ptr) where
  add_to_head-Ends :
      (xs : List Cell)
      → Distinct (x ∷ xs)
      → Ends (add_to_head x.ptr (loose c x p q xs)) (linked c (x ∷ xs))
  unfolding add_to_head layout
  add_to_head-Ends [] d = ground arith
  add_to_head-Ends (y ∷ ys) d = ground arith

  relink_at_head-Ends :
      (y : Cell) (ys : List Cell)
      → Distinct (x ∷ y ∷ ys)
      → Ends (relink_at_head x.ptr (loose c x p q (y ∷ ys))) (linked c (x ∷ y ∷ ys))
  unfolding relink_at_head layout
  relink_at_head-Ends y ys d = ground arith

  -- `add_to_head` puts a node that is not in the list in front of it, whatever its links were.
  pub add_to_head-linked :
      (xs : List Cell)
      → Distinct (x ∷ xs)
      → add_to_head x.ptr (loose c x p q xs) ≡ some (tt, linked c (x ∷ xs))
  add_to_head-linked xs d = eq_of_Ends _ _ (add_to_head-Ends xs d)

  pub relink_at_head-linked :
      (ys : List Cell)
      → ys ≢ []
      → Distinct (x ∷ ys)
      → relink_at_head x.ptr (loose c x p q ys) ≡ some (tt, linked c (x ∷ ys))
  relink_at_head-linked [] h d = absurd (h refl)
  relink_at_head-linked (y ∷ ys) h d = eq_of_Ends _ _ (relink_at_head-Ends y ys d)
