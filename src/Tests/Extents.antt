-- ===== src/Tests/Extents.antt =====
-- Tests of ExtentTree.c.
use nvmfs.Prelude.{ℕ, ◌+◌, ◌≡◌, refl, inl, inr, some, [], ◌∷◌, min, arith}
use nvmfs.RbTree.{leaf, node, to_list, unbalanced}
use nvmfs.ExtentContainer.{Extent, key, ExtentContainer, container_init, container_append, extents}
use nvmfs.ExtentContainer.Append
use nvmfs.ExtentContainer.Append.{container_init-IsValid, append_lem, total}
use nvmfs.ExtentTree.{ExtentTree, put, get, reverse_holes_and_extents}
use nvmfs.ExtentTree.Order.{Sorted, holders, inside}
use nvmfs.ExtentTree.Put.{put-adds}
use nvmfs.ExtentTree.Get.{get-takes}
use nvmfs.ExtentTree.Holes.{reverse-complement}

abbrev range : ℕ → ℕ → Extent
range a b = record { start = a; end = b }

abbrev two_ranges : ExtentTree
two_ranges = node (node leaf (range 2 5) leaf) (range 8 12) leaf

-- The range closes the hole between the two.
put-adds_example :
    (t' : ExtentTree) × (put (unbalanced key) two_ranges 5 8 ≡ some t')
    × Sorted 0 (to_list t')
    × ((a : ℕ) → holders a (to_list t') ≡ inside a 5 8 + holders a (to_list two_ranges))
put-adds_example =
    put-adds (unbalanced key) two_ranges 5 8 (omega arith) (omega arith)
      (inr (omega arith), (inl (omega arith), tt)) (inr (inr (λ w. refl)))

get-takes_example :
    (t' : ExtentTree) × (c' : ExtentContainer) × (get (unbalanced key) two_ranges container_init 4
      ≡ some (t', c'))
    × Sorted 0 (to_list t')
    × Append.IsValid c'
    × (total (extents c') ≡ total (extents container_init) + min 4 (total (to_list two_ranges)))
    × ((a : ℕ)
        → holders a (extents c') + holders a (to_list t')
          ≡ holders a (extents container_init) + holders a (to_list two_ranges))
get-takes_example =
    get-takes (unbalanced key) two_ranges container_init 4 (omega arith) (omega arith)
      container_init-IsValid (omega arith)

reverse-complement_example :
    (t' : ExtentTree) × (reverse_holes_and_extents (unbalanced key) two_ranges 20 ≡ some t')
    × Sorted 0 (to_list t')
    × ((a : ℕ) → holders a (to_list t') + holders a (to_list two_ranges) ≡ inside a 0 20)
reverse-complement_example =
    reverse-complement (unbalanced key) two_ranges 20 (omega arith) (omega arith)

append_lem_example :
    Append.IsValid (container_append container_init 3 7)
    × (extents (container_append container_init 3 7) ≡ range 3 7 ∷ [])
append_lem_example =
    append_lem container_init 3 7 container_init-IsValid (omega arith) (omega arith)
