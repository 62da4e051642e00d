-- ===== src/Lru/Links/Move.antt =====
-- `move_to_head`: one node goes to the front, the others keep their order.
use mathlib.Core.List.{cons-ne-nil}
use podcache.Prelude.{
  ◌∙◌, ◌∙◌, ◌≡◌, ◌≢◌, some, [], ◌∷◌, ◌++◌, arith, List, snoc-cases, inl, inr, subst, sym,
  append_assoc,
}
use podcache.Lru.State.{null, LruCache, and_then}
use podcache.Lru.Layout.{
  Distinct-front, Cell, first, last, layout, layout-append, layout-none, last-append, Distinct,
  Distinct-middle, linked, first-ne-last, ne-first,
}
use podcache.Lru.Links.{unlink, move_to_head, relink_at_head}
use podcache.Lru.Links.Unlink.{unlink-loose}
use podcache.Lru.Links.Head.{relink_at_head-linked}

module _ (c : LruCache) (x : Cell) where
  move_to_head-unlink :
      (zs : List Cell) (z : Cell) (ys : List Cell)
      → Distinct (zs ++ z ∷ x ∷ ys)
      → move_to_head x.ptr (linked c (zs ++ z ∷ x ∷ ys))
        ≡ and_then (unlink x.ptr (linked c (zs ++ z ∷ x ∷ ys))) (λ _. relink_at_head x.ptr)
  unfolding unlink move_to_head layout
  move_to_head-unlink zs z ys d =
      let (z0, z1, z2, _, _, d') = Distinct-middle zs z (x ∷ ys) d in
      let (x0, x1, x2, _, _, d'') = Distinct-middle zs x ys d' in
      ground (
        arith,
        first-ne-last zs z x ys d,
        ne-first x.ptr zs z (x ∷ ys) x1,
        last-append null zs (z ∷ x ∷ ys),
        layout-append null zs (z ∷ x ∷ ys) null x.ptr,
        layout-none null zs z.ptr x.ptr,
        layout-append null zs (z ∷ x ∷ ys) null z.ptr,
        layout-none null zs z.ptr z.ptr,
      )

  -- Away from the head, `move_to_head` unlinks the node and puts it in front.
  abbrev Moves : List Cell → List Cell → Type 0
  Moves ys xs =
      Distinct (xs ++ x ∷ ys)
      → move_to_head x.ptr (linked c (xs ++ x ∷ ys))
        ≡ and_then (unlink x.ptr (linked c (xs ++ x ∷ ys))) (λ _. relink_at_head x.ptr)

  Moves-snoc : (zs : List Cell) (z : Cell) (ys : List Cell) → Moves ys (zs ++ z ∷ [])
  Moves-snoc zs z ys d = simp append_assoc (move_to_head-unlink zs z ys (simp append_assoc at d))

  relink-unlink :
      (xs ys : List Cell)
      → xs ++ ys ≢ []
      → Distinct (xs ++ x ∷ ys)
      → and_then (unlink x.ptr (linked c (xs ++ x ∷ ys))) (λ _. relink_at_head x.ptr)
        ≡ some (tt, linked c (x ∷ (xs ++ ys)))
  relink-unlink xs ys h d = rw (unlink-loose c x xs ys d) (
      relink_at_head-linked c x (last null xs) (first ys null) (xs ++ ys) h
        (Distinct-front xs x ys d))

  move_to_head-first :
      (ys : List Cell)
      → Distinct (x ∷ ys)
      → move_to_head x.ptr (linked c (x ∷ ys)) ≡ some (tt, linked c (x ∷ ys))
  unfolding move_to_head
  move_to_head-first ys d = ground arith

  -- `move_to_head` brings the node of one entry to the front and keeps the order of the others.
  pub move_to_head-front :
      (xs ys : List Cell)
      → Distinct (xs ++ x ∷ ys)
      → move_to_head x.ptr (linked c (xs ++ x ∷ ys)) ≡ some (tt, linked c (x ∷ (xs ++ ys)))
  move_to_head-front [] ys d = move_to_head-first ys d
  move_to_head-front (w ∷ ws) ys d = elim (snoc-cases (w ∷ ws)) [
    | inl e ↦ absurd (cons-ne-nil w ws e)
    | inr (zs, z, e) ↦
        subst (Moves ys) (sym e) (Moves-snoc zs z ys) d
        ∙ relink-unlink (w ∷ ws) ys (cons-ne-nil w (ws ++ ys)) d
  ]
