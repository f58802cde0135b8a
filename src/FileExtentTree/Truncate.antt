-- ===== src/FileExtentTree/Truncate.antt =====
-- FileExtentTreeTruncate, and the loop that it shares with FileExtentTreeUninit.
use nvmfs.Prelude.{
  ℕ, zero, suc, ◌+◌, ◌<◌, ◌≡◌, refl, ap, ◌∙◌, some, ◌>>=◌, List, [], ◌∷◌, arith, head?, length,
}
use nvmfs.RbTree.{Tree, RbTree, to_list, remove}
use nvmfs.FileExtentTree.{
  FileExtentNode, FileExtentTree, extent_key, space_key, count_nodes, destroy_from, truncate,
}
use nvmfs.FileExtentTree.Order.{Ordered, remove-middle}
use nvmfs.FileExtentTree.Range.{next_of-second, length-to_list}

module _ (rb : RbTree extent_key) (rb_spaces : RbTree space_key) where
  destroy_from-empty :
      (fuel : ℕ) (t : Tree FileExtentNode) (xs : List FileExtentNode)
      → to_list t ≡ xs
      → Ordered extent_key xs
      → length xs < fuel
      → (t' : Tree FileExtentNode) × (destroy_from rb rb_spaces fuel t (head? xs) ≡ some t')
        × (to_list t' ≡ [])
  unfolding destroy_from
  destroy_from-empty zero t xs e o h = absurd (omega arith)
  destroy_from-empty (suc fuel) t [] e o h = (t, refl, e)
  destroy_from-empty (suc fuel) t (x ∷ xs) e (a, o) h =
      let n = next_of-second rb rb_spaces t [] (x ∷ xs) e (a, o) in
      let left : to_list (rb.erase x.file_start t) ≡ xs =
        rb.to_list-erase x.file_start t
        ∙ ap (remove extent_key x.file_start) e
        ∙ remove-middle extent_key x.file_start [] x xs tt refl in
      let (t', r, empty) =
        destroy_from-empty fuel (rb.erase x.file_start t) xs left o (omega arith) in
      (t', ap (destroy_from rb rb_spaces fuel (rb.erase x.file_start t)) n ∙ r, empty)

  -- FileExtentTreeTruncate of a tree whose extents are in order always returns; the tree then has no
  -- extent and counts no effective byte, and its spaces and their size are as before.
  pub truncate-empty :
      (t : FileExtentTree)
      → Ordered extent_key (to_list t.extents)
      → (t' : FileExtentTree) × (truncate rb rb_spaces t ≡ some t')
        × (to_list t'.extents ≡ [])
        × (t'.effective_size ≡ 0)
        × (t'.spaces ≡ t.spaces)
        × (t'.space_size ≡ t.space_size)
  unfolding truncate
  truncate-empty t o =
      let (extents, r, empty) =
        destroy_from-empty (count_nodes t.extents + 1) t.extents (to_list t.extents) refl o
          (omega (arith, length-to_list t.extents)) in
      (
        record t { extents = extents; effective_size = 0 },
        ap (λ o. o >>= λ extents. some (record t { extents = extents; effective_size = 0 }))
            (ap (destroy_from rb rb_spaces (count_nodes t.extents + 1) t.extents)
                (rb.first_lem t.extents)
              ∙ r),
        empty,
        refl,
        refl,
        refl,
      )
