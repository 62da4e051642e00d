-- ===== src/Lru/Links/Unlink.antt =====
-- Taking a node out of the list, wherever it stands.
use podcache.Prelude.{
  snoc-cases, inl, inr, subst, sym, append_assoc, ◌≡◌, some, [], ◌∷◌, ◌++◌, arith, List,
}
use podcache.Lru.State.{Ptr, null, LruCache, write}
use podcache.Lru.Layout.{
  Cell, cell_node, first, last, layout, layout-append, layout-none, last-append, Distinct,
  Distinct-middle, linked, loose, ne-last, first-ne-last, ne-first, first-append,
}
use podcache.Lru.Links.{unlink}
use podcache.Lru.Links.Outcome.{Ends, eq_of_Ends}

module _ (c : LruCache) (x : Cell) where
  unlink-head :
      (ys : List Cell)
      → Distinct (x ∷ ys)
      → Ends (unlink x.ptr (linked c (x ∷ ys))) (loose c x null (first ys null) ys)
  unfolding unlink layout
  unlink-head [] d = ground arith
  unlink-head (y ∷ ys) d = ground (arith, first-ne-last [] x y ys d)

  -- the memory after the statements for a node in the middle
  abbrev bridged : List Cell → Cell → Cell → List Cell → LruCache
  bridged zs z y ys =
      let all = zs ++ z ∷ x ∷ y ∷ ys in
      record c {
        head = first all null;
        tail = last null all;
        nodes =
            write (write (layout null all null) z.ptr (some (cell_node z (last null zs) y.ptr)))
              y.ptr (some (cell_node y z.ptr (first ys null)));
      }

  unlink-middle :
      (zs : List Cell) (z y : Cell) (ys : List Cell)
      → Distinct (zs ++ z ∷ x ∷ y ∷ ys)
      → unlink x.ptr (linked c (zs ++ z ∷ x ∷ y ∷ ys)) ≡ some (tt, bridged zs z y ys)
  unfolding unlink layout
  unlink-middle zs z y ys d =
      let all = zs ++ z ∷ x ∷ y ∷ ys in
      let (z0, z1, z2, _, _, d') = Distinct-middle zs z (x ∷ y ∷ ys) d in
      let (x0, x1, x2, _, _, d'') = Distinct-middle zs x (y ∷ ys) d' in
      let (y0, y1, y2, _, _, _) = Distinct-middle zs y ys d'' in
      ground (
        arith,
        first-ne-last zs z x (y ∷ ys) d,
        ne-first x.ptr zs z (x ∷ y ∷ ys) x1,
        last-append null zs (z ∷ x ∷ y ∷ ys),
        ne-last x.ptr x.ptr [] y ys x2,
        layout-append null zs (z ∷ x ∷ y ∷ ys) null x.ptr,
        layout-none null zs z.ptr x.ptr,
        layout-append null zs (z ∷ x ∷ y ∷ ys) null z.ptr,
        layout-none null zs z.ptr z.ptr,
        layout-append null zs (z ∷ x ∷ y ∷ ys) null y.ptr,
        layout-none null zs z.ptr y.ptr,
      )

  bridged-loose :
      (zs : List Cell) (z y : Cell) (ys : List Cell)
      → Distinct (zs ++ z ∷ x ∷ y ∷ ys)
      → (a : Ptr) → (bridged zs z y ys).nodes a ≡ (loose c x z.ptr y.ptr (zs ++ z ∷ y ∷ ys)).nodes a
  unfolding layout
  bridged-loose zs z y ys d a =
      let (z0, z1, z2, _, _, d') = Distinct-middle zs z (x ∷ y ∷ ys) d in
      let (x0, x1, x2, _, _, d'') = Distinct-middle zs x (y ∷ ys) d' in
      let (y0, y1, y2, _, _, _) = Distinct-middle zs y ys d'' in
      ground (
        arith,
        layout-append null zs (z ∷ x ∷ y ∷ ys) null a,
        layout-append null zs (z ∷ y ∷ ys) null a,
        layout-none null zs z.ptr a,
      )

  -- the memory after the statements for the node at the tail
  abbrev shortened : List Cell → Cell → LruCache
  shortened zs z =
      let all = zs ++ z ∷ x ∷ [] in
      record c {
        head = first all null;
        tail = z.ptr;
        nodes = write (layout null all null) z.ptr (some (cell_node z (last null zs) null));
      }

  unlink-tail :
      (zs : List Cell) (z : Cell)
      → Distinct (zs ++ z ∷ x ∷ [])
      → unlink x.ptr (linked c (zs ++ z ∷ x ∷ [])) ≡ some (tt, shortened zs z)
  unfolding unlink layout
  unlink-tail zs z d =
      let (z0, z1, z2, _, _, d') = Distinct-middle zs z (x ∷ []) d in
      let (x0, x1, x2, _, _, _) = Distinct-middle zs x [] d' in
      ground (
        arith,
        first-ne-last zs z x [] d,
        ne-first x.ptr zs z (x ∷ []) x1,
        last-append null zs (z ∷ x ∷ []),
        layout-append null zs (z ∷ x ∷ []) null x.ptr,
        layout-none null zs z.ptr x.ptr,
        layout-append null zs (z ∷ x ∷ []) null z.ptr,
        layout-none null zs z.ptr z.ptr,
      )

  shortened-loose :
      (zs : List Cell) (z : Cell)
      → Distinct (zs ++ z ∷ x ∷ [])
      → (a : Ptr) → (shortened zs z).nodes a ≡ (loose c x z.ptr null (zs ++ z ∷ [])).nodes a
  unfolding layout
  shortened-loose zs z d a =
      let (z0, z1, z2, _, _, d') = Distinct-middle zs z (x ∷ []) d in
      let (x0, x1, x2, _, _, _) = Distinct-middle zs x [] d' in
      ground (
        arith,
        layout-append null zs (z ∷ x ∷ []) null a,
        layout-append null zs (z ∷ []) null a,
        layout-none null zs z.ptr a,
      )

  unlink-after :
      (zs : List Cell) (z : Cell) (ys : List Cell)
      → Distinct (zs ++ z ∷ x ∷ ys)
      → Ends
          (unlink x.ptr (linked c (zs ++ z ∷ x ∷ ys)))
          (loose c x z.ptr (first ys null) (zs ++ z ∷ ys))
  unlink-after zs z [] d = rw (unlink-tail zs z d) (
    ground (arith, first-append zs z (x ∷ []) [] null, last-append null zs (z ∷ [])),
    shortened-loose zs z d,
  )
  unlink-after zs z (y ∷ ys) d = rw (unlink-middle zs z y ys d) (
    ground (
      arith,
      first-append zs z (x ∷ y ∷ ys) (y ∷ ys) null,
      last-append null zs (z ∷ x ∷ y ∷ ys),
      last-append null zs (z ∷ y ∷ ys),
    ),
    bridged-loose zs z y ys d,
  )

  abbrev Unlinks : List Cell → List Cell → Type 0
  Unlinks ys xs =
      Distinct (xs ++ x ∷ ys)
      → Ends (unlink x.ptr (linked c (xs ++ x ∷ ys)))
          (loose c x (last null xs) (first ys null) (xs ++ ys))

  unlink-snoc : (zs : List Cell) (z : Cell) (ys : List Cell) → Unlinks ys (zs ++ z ∷ [])
  unlink-snoc zs z ys d = simp append_assoc (
      subst
        (λ q.
          Ends (unlink x.ptr (linked c (zs ++ z ∷ x ∷ ys)))
            (loose c x q (first ys null) (zs ++ z ∷ ys)))
        (sym (last-append null zs (z ∷ []))) (unlink-after zs z ys (simp append_assoc at d)))

  -- Unlinking a node leaves the other entries linked in their order, and the node loose beside them.
  pub unlink-loose :
      (xs ys : List Cell)
      → Distinct (xs ++ x ∷ ys)
      → unlink x.ptr (linked c (xs ++ x ∷ ys))
        ≡ some (tt, loose c x (last null xs) (first ys null) (xs ++ ys))
  unlink-loose xs ys d = eq_of_Ends _ _ (elim (snoc-cases xs) [
    | inl e ↦ subst (Unlinks ys) (sym e) (unlink-head ys) d
    | inr (zs, z, e) ↦ subst (Unlinks ys) (sym e) (unlink-snoc zs z ys) d
  ])
