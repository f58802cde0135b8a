-- ===== src/FileExtentTree/Erase.antt =====
-- ExtentTreeErase leaves of a file's extents what is outside the range.
use nvmfs.Prelude.{
  ℕ, ◌+◌, ◌-◌, ◌<◌, ◌≤◌, ◌≡◌, refl, sym, ap, ◌∙◌, inl, inr, true, false, ◌&&◌, Option, some, List,
  [], ◌∷◌, ◌++◌, All, append_assoc, leb, ◌==◌, arith, lt_cases, u64_mod, subst, add64, sub64,
}
use nvmfs.RbTree.{RbTree, to_list, write_node, to_list-write_node, modify, remove}
use nvmfs.FileExtentTree.{
  FileExtentNode, FileSpaceNode, FileExtentTree, extent_key, space_key, lookup_space, link, end_of,
  insert_extent_node, delete_extent_node, resize, take_effective, split_behind, move_behind,
  erase_node,
}
use nvmfs.FileExtentTree.Order.{
  All-map, All-join, Ordered, Ordered-middle, Ordered-drop, Ordered-insert, Ordered-relabel,
  insert_by, insert_by-middle, to_list-link, remove-middle, modify-middle,
}
use nvmfs.FileExtentTree.Pieces.{IsExtent, pieces}

-- The call returns a tree with these extents and the same spaces.
pub record Leaves (t : FileExtentTree) (o : Option FileExtentTree) (xs : List FileExtentNode)
    : Type 0 where
  pub tree : FileExtentTree
  pub result : o ≡ some tree
  pub extents_are : to_list tree.extents ≡ xs
  pub spaces_are : tree.spaces ≡ t.spaces

module _ (rb : RbTree extent_key) (rb_spaces : RbTree space_key) where
  pub insert_extent_node-Leaves :
      (t : FileExtentTree) (x : FileExtentNode) (s : FileSpaceNode)
      → lookup_space t.spaces x.start ≡ some s
      → Ordered extent_key (to_list t.extents)
      → Leaves t (insert_extent_node rb rb_spaces t x) (insert_by extent_key x (to_list t.extents))
  unfolding insert_extent_node
  insert_extent_node-Leaves t x s e o =
      let linked = link extent_key x t.extents in
      let t' : FileExtentTree = record t {
        extents = rb.insert_color linked;
        effective_size = add64 t.effective_size x.size;
      } in
      record {
        tree = t';
        result = rw e;
        extents_are = rb.to_list-insert_color linked ∙ to_list-link extent_key x t.extents o;
        spaces_are = refl;
      }

  module _ (t : FileExtentTree) (ls : List FileExtentNode) (x : FileExtentNode)
      (rs : List FileExtentNode) (e : to_list t.extents ≡ ls ++ (x ∷ rs))
      (o : Ordered extent_key (ls ++ (x ∷ rs))) where
    resized :
        (f : FileExtentNode → FileExtentNode)
        → to_list (write_node extent_key x.file_start f t.extents) ≡ ls ++ (f x ∷ rs)
    resized f =
        let (a, b) = Ordered-middle extent_key ls x rs o in
        to_list-write_node extent_key x.file_start f t.extents
        ∙ ap (λ xs. modify extent_key x.file_start f xs) e
        ∙ modify-middle extent_key x.file_start f ls x rs a b refl

    deleted : to_list (rb.erase x.file_start t.extents) ≡ ls ++ rs
    deleted =
        let (a, b) = Ordered-middle extent_key ls x rs o in
        rb.to_list-erase x.file_start t.extents
        ∙ ap (λ xs. remove extent_key x.file_start xs) e
        ∙ remove-middle extent_key x.file_start ls x rs a refl

  -- The node `x` in the middle of the others, and a range that it meets.
  module _ (t : FileExtentTree) (ls : List FileExtentNode) (x : FileExtentNode)
      (rs : List FileExtentNode) (start end : ℕ) (e : to_list t.extents ≡ ls ++ (x ∷ rs))
      (o : Ordered extent_key (ls ++ (x ∷ rs)))
      (above : All (λ y. x.file_start + x.size ≤ y.file_start) rs) (v : IsExtent t.spaces x)
      (range : start < end) (range_fits : end < u64_mod) (reaches : start < x.file_start + x.size)
      (starts : x.file_start < end) where
    abbrev Outcome : Type 0
    Outcome = Leaves t (erase_node rb rb_spaces t start end x) (ls ++ (pieces start end x ++ rs))

    cur_end : end_of x ≡ x.file_start + x.size
    unfolding end_of
    cur_end = let f = v.file_fits in omega arith

    abbrev with_size : ℕ → FileExtentTree
    with_size n = record t {
      extents = write_node extent_key x.file_start (λ y. record y { size = n }) t.extents;
    }

    -- The end of the node is cut off.
    cut_end : x.file_start < start → x.file_start + x.size ≤ end → Outcome
    unfolding erase_node resize take_effective
    cut_end a b =
        let f = v.file_fits in
        let c1 : (leb x.file_start start && (leb start (end_of x) && leb (end_of x) end)) ≡ true =
          let g = cur_end in ground arith in
        let n : sub64 x.size (sub64 (end_of x) start) ≡ start - x.file_start =
          omega (arith, cur_end) in
        let z : (start - x.file_start == 0) ≡ false = ground arith in
        let k1 : leb start x.file_start ≡ false = ground arith in
        let k2 : leb (x.file_start + x.size) start ≡ false = ground arith in
        let k3 : leb (x.file_start + x.size) end ≡ true = ground arith in
        record {
          tree = record (with_size (start - x.file_start)) {
            effective_size = sub64 t.effective_size (sub64 (end_of x) start);
          };
          result = rw (c1, n, z);
          extents_are =
              rw (k1, k2, k3)
                (resized t ls x rs e o (λ y. record y { size = start - x.file_start }));
          spaces_are = refl;
        }

    -- The node goes.
    whole : start ≤ x.file_start → x.file_start + x.size ≤ end → Outcome
    unfolding erase_node resize take_effective delete_extent_node
    whole a b =
        let f = v.file_fits in
        let g = cur_end in
        let k1 : leb start x.file_start ≡ true = ground arith in
        let k3 : leb (x.file_start + x.size) end ≡ true = ground arith in
        elim (lt_cases start x.file_start) [
          | inl h ↦
              let c1 : (leb x.file_start start && (leb start (end_of x) && leb (end_of x) end))
                  ≡ false =
                ground arith in
              let c2 : (leb x.file_start start && leb end (end_of x)) ≡ false = ground arith in
              let c3 : (leb start x.file_start && leb (end_of x) end) ≡ true = ground arith in
              record {
                tree =
                    take_effective rb rb_spaces (delete_extent_node rb rb_spaces t x)
                      (sub64 (end_of x) x.file_start);
                result = rw (c1, c2, c3);
                extents_are = rw (k1, k3) (deleted t ls x rs e o);
                spaces_are = refl;
              }
          | inr h ↦
              let c1 : (leb x.file_start start && (leb start (end_of x) && leb (end_of x) end))
                  ≡ true =
                ground arith in
              let n : sub64 x.size (sub64 (end_of x) start) ≡ 0 = omega arith in
              let t' = with_size 0 in
              record {
                tree = record t' {
                  extents = rb.erase x.file_start t'.extents;
                  effective_size = sub64 t.effective_size (sub64 (end_of x) start);
                };
                result = rw (c1, n);
                extents_are =
                    rw (k1, k3)
                      (deleted t' ls (record x { size = 0 }) rs
                        (resized t ls x rs e o (λ y. record y { size = 0 }))
                        (Ordered-relabel extent_key ls x (record x { size = 0 }) rs refl o));
                spaces_are = refl;
              }
        ]

    -- The part of the node from `end` on.
    abbrev behind : FileExtentNode
    behind = record {
      start = x.start + (end - x.file_start);
      size = x.file_start + x.size - end;
      file_start = end;
    }

    behind_rs : end < x.file_start + x.size → All (λ y. end < y.file_start) rs
    behind_rs b = All-map rs (λ y h. omega arith) above

    part_size : end < x.file_start + x.size → sub64 (end_of x) end ≡ x.file_start + x.size - end
    part_size b = let f = v.file_fits in omega (arith, cur_end)

    part_start :
        end < x.file_start + x.size
        → add64 x.start (sub64 end x.file_start) ≡ x.start + (end - x.file_start)
    part_start b = let f = v.file_fits in let g = v.fits in omega arith

    split_behind-behind :
        (n : ℕ)
        → end < x.file_start + x.size
        → split_behind rb rb_spaces (with_size n) x end
          ≡ insert_extent_node rb rb_spaces (with_size n) behind
    unfolding split_behind insert_extent_node
    split_behind-behind n b =
        let z : (x.file_start + x.size - end == 0) ≡ false = ground arith in
        rw (part_size b, part_start b, z)

    move_behind-behind :
        end < x.file_start + x.size
        → move_behind rb rb_spaces t x end
          ≡ insert_extent_node rb rb_spaces (delete_extent_node rb rb_spaces t x) behind
    unfolding move_behind insert_extent_node delete_extent_node
    move_behind-behind b =
        let f = v.file_fits in
        let off : add64 x.file_start (sub64 end x.file_start) ≡ end = omega arith in
        let z : (x.file_start + x.size - end == 0) ≡ false = ground arith in
        rw (part_size b, part_start b, off, z)

    -- The part of the node behind the range becomes a node of its own.
    split :
        (n : ℕ)
        → end < x.file_start + x.size
        → (t' : FileExtentTree) × (split_behind rb rb_spaces (with_size n) x end ≡ some t')
          × (to_list t'.extents ≡ ls ++ (record x { size = n } ∷ behind ∷ rs))
          × (t'.spaces ≡ t.spaces)
    split n b =
        let g = v.fits in
        let t1 = with_size n in
        let x' : FileExtentNode = record x { size = n } in
        let (a, _) = Ordered-middle extent_key ls x rs o in
        let e1 = resized t ls x rs e o (λ y. record y { size = n }) in
        let o1 = Ordered-relabel extent_key ls x x' rs refl o in
        let (s, found) = v.covered (x.start + (end - x.file_start)) (omega arith) (omega arith) in
        let w =
          insert_extent_node-Leaves t1 behind s found (subst (Ordered extent_key) (sym e1) o1) in
        (
          w.tree,
          split_behind-behind n b ∙ w.result,
          w.extents_are
              ∙ ap (insert_by extent_key behind) (e1 ∙ sym (append_assoc ls (x' ∷ []) rs))
              ∙ insert_by-middle extent_key behind (ls ++ (x' ∷ [])) rs
                  (All-join (λ y. y.file_start ≤ end) ls (x' ∷ [])
                    (All-map ls (λ y h. omega arith) a) (omega arith, tt))
                  (behind_rs b)
              ∙ append_assoc ls (x' ∷ []) (behind ∷ rs),
          w.spaces_are,
        )

    -- The range lies inside the node.
    cut_middle : x.file_start < start → end < x.file_start + x.size → Outcome
    unfolding erase_node take_effective
    cut_middle a b =
        let f = v.file_fits in
        let g = cur_end in
        let c1 : (leb x.file_start start && (leb start (end_of x) && leb (end_of x) end)) ≡ false =
          ground arith in
        let c2 : (leb x.file_start start && leb end (end_of x)) ≡ true = ground arith in
        let n : sub64 start x.file_start ≡ start - x.file_start = omega arith in
        let z : (start - x.file_start == 0) ≡ false = ground arith in
        let k1 : leb start x.file_start ≡ false = ground arith in
        let k2 : leb (x.file_start + x.size) start ≡ false = ground arith in
        let k3 : leb (x.file_start + x.size) end ≡ false = ground arith in
        let k4 : leb end x.file_start ≡ false = ground arith in
        let (t', r, l, p) = split (start - x.file_start) b in
        record {
          tree = take_effective rb rb_spaces t' (sub64 end start);
          result = rw (c1, c2, n, r, z);
          extents_are = rw (k1, k2, k3, k4) l;
          spaces_are = p;
        }

    -- The beginning of the node is cut off.
    cut_start : start ≤ x.file_start → end < x.file_start + x.size → Outcome
    unfolding erase_node take_effective delete_extent_node
    cut_start a b =
        let f = v.file_fits in
        let g = cur_end in
        let q = v.fits in
        let k1 : leb start x.file_start ≡ true = ground arith in
        let k3 : leb (x.file_start + x.size) end ≡ false = ground arith in
        let k4 : leb end x.file_start ≡ false = ground arith in
        elim (lt_cases start x.file_start) [
          | inr h ↦
              let c1 : (leb x.file_start start && (leb start (end_of x) && leb (end_of x) end))
                  ≡ false =
                ground arith in
              let c2 : (leb x.file_start start && leb end (end_of x)) ≡ true = ground arith in
              let n : sub64 start x.file_start ≡ 0 = omega arith in
              let (t', r, l, p) = split 0 b in
              let x' : FileExtentNode = record x { size = 0 } in
              let o1 : Ordered extent_key (ls ++ (x' ∷ (behind ∷ rs))) =
                Ordered-insert extent_key ls x' behind rs starts (behind_rs b)
                  (Ordered-relabel extent_key ls x x' rs refl o) in
              record {
                tree =
                    take_effective rb rb_spaces (delete_extent_node rb rb_spaces t' x)
                      (sub64 end start);
                result = rw (c1, c2, n, r);
                extents_are = rw (k1, k3, k4) (deleted t' ls x' (behind ∷ rs) l o1);
                spaces_are = p;
              }
          | inl h ↦
              let c1 : (leb x.file_start start && (leb start (end_of x) && leb (end_of x) end))
                  ≡ false =
                ground arith in
              let c2 : (leb x.file_start start && leb end (end_of x)) ≡ false = ground arith in
              let c3 : (leb start x.file_start && leb (end_of x) end) ≡ false = ground arith in
              let e1 = deleted t ls x rs e o in
              let (s, found) =
                v.covered (x.start + (end - x.file_start)) (omega arith) (omega arith) in
              let w =
                insert_extent_node-Leaves (delete_extent_node rb rb_spaces t x) behind s found
                  (subst (Ordered extent_key) (sym e1) (Ordered-drop extent_key ls x rs o)) in
              let (under, _) = Ordered-middle extent_key ls x rs o in
              record {
                tree = take_effective rb rb_spaces w.tree (sub64 end x.file_start);
                result = rw (c1, c2, c3, move_behind-behind b ∙ w.result);
                extents_are =
                    rw (k1, k3, k4)
                      (w.extents_are
                        ∙ ap (insert_by extent_key behind) e1
                        ∙ insert_by-middle extent_key behind ls rs
                            (All-map ls (λ y h. omega arith) under) (behind_rs b));
                spaces_are = w.spaces_are;
              }
        ]

    pub erase_node-Leaves : Outcome
    erase_node-Leaves = elim (lt_cases end (x.file_start + x.size)) [
      | inl b ↦ elim (lt_cases x.file_start start) [
        | inl a ↦ cut_middle a b
        | inr a ↦ cut_start a b
      ]
      | inr b ↦ elim (lt_cases x.file_start start) [ inl a ↦ cut_end a b | inr a ↦ whole a b ]
    ]
