-- ===== src/FileExtentTree/Add.antt =====
-- FileExtentTreeAddExtent: the extent takes the place of what the file had in its range.
use nvmfs.Prelude.{
  ℕ, zero, suc, ◌+◌, ◌-◌, ◌<◌, ◌≤◌, ◌≡◌, refl, sym, ap, ◌∙◌, inl, inr, true, false, ◌&&◌, some,
  ◌>>=◌, List, [], ◌∷◌, ◌++◌, append_assoc, ltb, leb, if◌then◌else◌, arith, lt_cases, u64_mod,
  subst, head?, add64, length, length-append,
}
use nvmfs.RbTree.{RbTree, to_list}
use nvmfs.FileExtentTree.{
  FileExtentNode, FileExtentTree, extent_key, space_key, end_of, erase_node, erase_from, next_of,
  lookup_space, insert_extent_node, count_nodes, erase_range, add_extent,
}
use nvmfs.FileExtentTree.Order.{All-split, Ordered, insert_by}
use nvmfs.FileExtentTree.Pieces.{
  end_of-eq, IsExtent, Sorted, Sorted-Ordered, pieces, erased, translate, translate-erased,
  Sorted-above,
}
use nvmfs.FileExtentTree.Sorting.{
  erased-Sorted, Sorted-replace, erased-Clear, insert_by-Sorted, translate-insert_by,
}
use nvmfs.FileExtentTree.Erase.{Leaves, erase_node-Leaves, insert_extent_node-Leaves}
use nvmfs.FileExtentTree.Range.{
  second, erased-above, erased-append, erased-far, Sorted-positive, Sorted-middle, start_node-Start,
  next_of-second, length-to_list,
}

-- An extent that ends before the range stays whole.
pieces-before :
    (start end : ℕ) (x : FileExtentNode)
    → start < end
    → 0 < x.size
    → x.file_start + x.size ≤ start
    → pieces start end x ≡ x ∷ []
pieces-before start end x h p l = ground arith

translate-added :
    (x : FileExtentNode) (xs : List FileExtentNode) (o : ℕ)
    → 0 < x.size
    → translate (insert_by extent_key x (erased x.file_start (x.file_start + x.size) xs)) o ≡ (
        if leb x.file_start o && ltb o (x.file_start + x.size)
        then some (x.start + (o - x.file_start))
        else translate xs o)
unfolding translate
translate-added x xs o p =
    let end = x.file_start + x.size in
    let rest = translate-erased x.file_start end o xs (omega arith) in
    translate-insert_by x (erased x.file_start end xs) o (λ a b. ground arith) ∙ ground arith

module _ (rb : RbTree extent_key) (rb_spaces : RbTree space_key) where
  erase_from-Leaves :
      (fuel : ℕ) (t : FileExtentTree) (start end : ℕ) (ls rs : List FileExtentNode)
      → to_list t.extents ≡ ls ++ rs
      → Sorted t.spaces 0 (ls ++ rs)
      → start < end
      → end < u64_mod
      → length rs < fuel
      → Leaves t
          (erase_from rb rb_spaces fuel t start end (head? rs) (second rs))
          (ls ++ erased start end rs)
  unfolding erase_from
  erase_from-Leaves zero t start end ls rs e s h u f = absurd (omega arith)
  erase_from-Leaves (suc fuel) t start end ls [] e s h u f = record {
    tree = t;
    result = refl;
    extents_are = e;
    spaces_are = refl;
  }
  erase_from-Leaves (suc fuel) t start end ls (x ∷ rest) e s h u f =
      let (v, after_x) = Sorted-middle t.spaces 0 ls x rest s in
      let p = v.positive in
      let q = v.file_fits in
      let o = Sorted-Ordered t.spaces 0 (ls ++ (x ∷ rest)) s in
      let ce : end_of x ≡ x.file_start + x.size = end_of-eq x q in
      let whole : (ls ++ (x ∷ [])) ++ rest ≡ ls ++ (x ∷ rest) = append_assoc ls (x ∷ []) rest in
      elim (lt_cases x.file_start end) [
        | inr a ↦
            let c : leb end x.file_start ≡ true = ground arith in
            let opened : erase_from rb rb_spaces (suc fuel) t start end (some x) (head? rest)
                ≡ some t =
              rw c refl in
            record {
              tree = t;
              result = opened;
              extents_are =
                  e
                  ∙ ap (λ z. ls ++ z)
                      (sym (
                        erased-above t.spaces x.file_start start end (x ∷ rest)
                          (omega arith, v, after_x) h a));
              spaces_are = refl;
            }
        | inl a ↦
            let c : leb end x.file_start ≡ false = ground arith in
            elim (lt_cases start (x.file_start + x.size)) [
              | inr b ↦
                  let d : leb (end_of x) start ≡ true = ground arith in
                  let n =
                    next_of-second rb rb_spaces t.extents (ls ++ (x ∷ [])) rest (e ∙ sym whole)
                      (subst (Ordered extent_key) (sym whole) o) in
                  let w =
                    erase_from-Leaves fuel t start end (ls ++ (x ∷ [])) rest (e ∙ sym whole)
                      (subst (Sorted t.spaces 0) (sym whole) s) h u (omega arith) in
                  let opened : erase_from rb rb_spaces (suc fuel) t start end (some x) (head? rest)
                      ≡ erase_from rb rb_spaces fuel t start end (head? rest) (second rest) =
                    rw (c, d, n) refl in
                  record {
                    tree = w.tree;
                    result = opened ∙ w.result;
                    extents_are =
                        w.extents_are
                        ∙ append_assoc ls (x ∷ []) (erased start end rest)
                        ∙ ap (λ z. ls ++ (z ++ erased start end rest))
                            (sym (pieces-before start end x h p b));
                    spaces_are = w.spaces_are;
                  }
              | inl b ↦
                  let d : leb (end_of x) start ≡ false = ground arith in
                  let g =
                    erase_node-Leaves rb rb_spaces t ls x rest start end e o
                      (Sorted-above t.spaces (x.file_start + x.size) rest after_x) v h u b a in
                  let t1 = g.tree in
                  let left = ls ++ pieces start end x in
                  let joined : to_list t1.extents ≡ left ++ rest =
                    g.extents_are ∙ sym (append_assoc ls (pieces start end x) rest) in
                  let s1 : Sorted t1.spaces 0 (left ++ rest) =
                    subst (Sorted t1.spaces 0) (sym (append_assoc ls (pieces start end x) rest)) (
                      subst (λ k. Sorted k 0 (ls ++ (pieces start end x ++ rest)))
                        (sym g.spaces_are) (Sorted-replace t.spaces 0 start end ls x rest h s)) in
                  let n =
                    next_of-second rb rb_spaces t1.extents left rest joined
                      (Sorted-Ordered t1.spaces 0 (left ++ rest) s1) in
                  let w =
                    erase_from-Leaves fuel t1 start end left rest joined s1 h u (omega arith) in
                  let opened : erase_from rb rb_spaces (suc fuel) t start end (some x) (head? rest)
                      ≡ (erase_node rb rb_spaces t start end x >>= λ t'.
                          erase_from rb rb_spaces fuel t' start end (head? rest)
                            (next_of rb rb_spaces t'.extents (head? rest))) =
                    rw (c, d) refl in
                  record {
                    tree = w.tree;
                    result =
                        opened
                        ∙ ap
                            (λ o. o >>= λ t'.
                              erase_from rb rb_spaces fuel t' start end (head? rest)
                                (next_of rb rb_spaces t'.extents (head? rest)))
                            g.result
                        ∙ ap (erase_from rb rb_spaces fuel t1 start end (head? rest)) n
                        ∙ w.result;
                    extents_are =
                        w.extents_are
                        ∙ append_assoc ls (pieces start end x) (erased start end rest);
                    spaces_are = w.spaces_are ∙ g.spaces_are;
                  }
            ]
      ]

  erase_range-Leaves :
      (t : FileExtentTree) (start size : ℕ)
      → Sorted t.spaces 0 (to_list t.extents)
      → 0 < size
      → start + size < u64_mod
      → Leaves t
          (erase_range rb rb_spaces t start size)
          (erased start (start + size) (to_list t.extents))
  unfolding erase_range
  erase_range-Leaves t start size s p u =
      let end = start + size in
      let xs = to_list t.extents in
      let w = start_node-Start rb rb_spaces t.spaces t.extents start s in
      let e : add64 start size ≡ end = omega arith in
      let s' = subst (Sorted t.spaces 0) w.parts s in
      let n =
        next_of-second rb rb_spaces t.extents w.passed w.coming w.parts
          (Sorted-Ordered t.spaces 0 (w.passed ++ w.coming) s') in
      let opened : erase_range rb rb_spaces t start size
          ≡ erase_from rb rb_spaces (count_nodes t.extents + 1) t start end (head? w.coming)
              (second w.coming) =
        rw (w.found, n, e) refl in
      let far =
        erased-far start end w.passed (omega arith)
          (All-split (λ y. 0 < y.size) w.passed w.coming
            (Sorted-positive t.spaces 0 (w.passed ++ w.coming) s')).0
          w.far in
      let g =
        erase_from-Leaves (count_nodes t.extents + 1) t start end w.passed w.coming w.parts s'
          (omega arith) u
          (omega (
            arith,
            length-to_list t.extents,
            ap length w.parts,
            length-append w.passed w.coming,
          )) in
      record {
        tree = g.tree;
        result = opened ∙ g.result;
        extents_are =
            g.extents_are
            ∙ ap (λ z. z ++ erased start end w.coming) (sym far)
            ∙ sym (erased-append start end w.passed w.coming)
            ∙ ap (erased start end) (sym w.parts);
        spaces_are = g.spaces_are;
      }

  -- FileExtentTreeAddExtent of a range that is not empty, on a tree of disjoint extents in order, each
  -- of which stands in the file's spaces, as the new one does, always succeeds, keeps all this, and
  -- maps the offsets of the range to the new extent and all others as before.
  pub add_extent-translate :
      (t : FileExtentTree) (addr file_start size : ℕ)
      → Sorted t.spaces 0 (to_list t.extents)
      → IsExtent t.spaces (record { start = addr; size = size; file_start = file_start })
      → (t' : FileExtentTree) × (add_extent rb rb_spaces t addr file_start size ≡ some t')
        × Sorted t'.spaces 0 (to_list t'.extents)
        × (t'.spaces ≡ t.spaces)
        × ((o : ℕ)
            → translate (to_list t'.extents) o ≡ (
                if leb file_start o && ltb o (file_start + size)
                then some (addr + (o - file_start))
                else translate (to_list t.extents) o))
  unfolding add_extent
  add_extent-translate t addr file_start size s v =
      let x : FileExtentNode = record { start = addr; size = size; file_start = file_start } in
      let end = file_start + size in
      let xs = erased file_start end (to_list t.extents) in
      let p = v.positive in
      let q = v.fits in
      let r = erase_range-Leaves t file_start size s p v.file_fits in
      let sorted = erased-Sorted t.spaces 0 file_start end (to_list t.extents) (omega arith) s in
      let (space, found) = v.covered addr (omega arith) (omega arith) in
      let w =
        insert_extent_node-Leaves rb rb_spaces r.tree x space
          (ap (λ k. lookup_space k addr) r.spaces_are ∙ found)
          (subst (Ordered extent_key) (sym r.extents_are) (Sorted-Ordered t.spaces 0 xs sorted)) in
      let list : to_list (w.tree).extents ≡ insert_by extent_key x xs =
        w.extents_are ∙ ap (insert_by extent_key x) r.extents_are in
      let spaces : (w.tree).spaces ≡ t.spaces = w.spaces_are ∙ r.spaces_are in
      (
        w.tree,
        ap (λ o. o >>= λ t'. insert_extent_node rb rb_spaces t' x) r.result ∙ w.result,
        subst (Sorted (w.tree).spaces 0) (sym list) (
            subst (λ k. Sorted k 0 (insert_by extent_key x xs)) (sym spaces)
              (insert_by-Sorted t.spaces 0 x xs (omega arith) v
                (erased-Clear file_start end (to_list t.extents) (omega arith)) sorted)),
        spaces,
        λ o. ap (λ z. translate z o) list ∙ translate-added x (to_list t.extents) o p,
      )
