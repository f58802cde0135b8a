-- ===== src/ExtentTree/Edit.antt =====
-- What linking, erasing and writing a node do to the extents in order.
use nvmfs.Prelude.{
  ℕ, suc, ◌<◌, ◌≡◌, ◌≢◌, refl, sym, ◌∙◌, ap, Option, some, List, [], ◌∷◌, ◌++◌, All, ltb,
  order_cases, inl, inr, if◌then◌else◌, arith,
}
use nvmfs.RbTree.{leaf, node, to_list, remove, modify, RbTree, to_list-write_node}
use nvmfs.ExtentContainer.{Extent, key}
use nvmfs.ExtentTree.{ExtentTree, link, just_insert, set_end, join, move_start}
use nvmfs.ExtentTree.Order.{Sorted, Sorted-mono, middle_lo, middle_left, middle_right}

-- `x` before the first extent that starts behind it.
unfoldable pub insert_start : Extent → List Extent → List Extent
insert_start x [] = x ∷ []
insert_start x (y ∷ ys) =
    let rest = insert_start x ys in if ltb x.start y.start then x ∷ y ∷ ys else y ∷ rest

-- No extent starts at `k`.
abbrev pub Absent : ℕ → List Extent → Type 0
Absent k = All λ y. y.start ≢ k

-- The call returns a tree with these extents.
abbrev pub Holds : Option ExtentTree → List Extent → Type 0
Holds o xs = (t : ExtentTree) × (o ≡ some t) × (to_list t ≡ xs)

pub Holds-eq : (o : Option ExtentTree) {xs ys : List Extent} → Holds o xs → xs ≡ ys → Holds o ys
Holds-eq o (t, e, f) h = (t, e, f ∙ h)

pub Sorted-remove : (k lo : ℕ) (xs : List Extent) → Sorted lo xs → Sorted lo (remove key k xs)
Sorted-remove k lo [] s = tt
Sorted-remove k lo (x ∷ xs) s =
    ground (arith, Sorted-remove k (suc x.end) xs s.2, Sorted-mono {lo = lo} {hi = suc x.end} xs)

pub Absent-remove : (k j : ℕ) (xs : List Extent) → Absent k xs → Absent k (remove key j xs)
Absent-remove k j [] a = tt
Absent-remove k j (x ∷ xs) a = ground (arith, Absent-remove k j xs a.1)

Absent-left : (k : ℕ) (ls rs : List Extent) → Absent k (ls ++ rs) → Absent k ls
Absent-left k [] rs a = tt
Absent-left k (x ∷ ls) rs a = (a.0, Absent-left k ls rs a.1)

Absent-right : (k : ℕ) (ls rs : List Extent) → Absent k (ls ++ rs) → Absent k rs
Absent-right k [] rs a = a
Absent-right k (x ∷ ls) rs a = Absent-right k ls rs a.1

insert_start-append_lt :
    (x : Extent) (ls : List Extent) (y : Extent) (rs : List Extent)
    → x.start < y.start
    → insert_start x (ls ++ y ∷ rs) ≡ insert_start x ls ++ y ∷ rs
unfolding insert_start
insert_start-append_lt x [] y rs h = ground arith
insert_start-append_lt x (z ∷ ls) y rs h = ground (arith, insert_start-append_lt x ls y rs h)

pub insert_start-append_gt :
    (x : Extent) (lo : ℕ) (ls : List Extent) (y : Extent) (rs : List Extent)
    → Sorted lo (ls ++ y ∷ rs)
    → y.start < x.start
    → insert_start x (ls ++ y ∷ rs) ≡ ls ++ y ∷ insert_start x rs
unfolding insert_start
insert_start-append_gt x lo [] y rs s h = ground arith
insert_start-append_gt x lo (z ∷ ls) y rs s h =
    ground
      (arith, insert_start-append_gt x (suc z.end) ls y rs s.2 h, middle_lo (suc z.end) ls y rs s.2)

-- The three ways down, each with the tree that the descent returns.
link_left :
    (x y : Extent) (l r : ExtentTree)
    → x.start < y.start
    → Holds (link x l) (insert_start x (to_list l))
    → Holds (link x (node l y r)) (insert_start x (to_list (node l y r)))
unfolding link
link_left x y l r h (l', e, f) =
    (node l' y r, ground arith, rw (f, insert_start-append_lt x (to_list l) y (to_list r) h))

link_right :
    (x y : Extent) (lo : ℕ) (l r : ExtentTree)
    → y.start < x.start
    → Sorted lo (to_list (node l y r))
    → Holds (link x r) (insert_start x (to_list r))
    → Holds (link x (node l y r)) (insert_start x (to_list (node l y r)))
unfolding link
link_right x y lo l r h s (r', e, f) =
    (node l y r', ground arith, rw (f, insert_start-append_gt x lo (to_list l) y (to_list r) s h))

link_lem :
    (x : Extent) (lo : ℕ) (t : ExtentTree)
    → Sorted lo (to_list t)
    → Absent x.start (to_list t)
    → Holds (link x t) (insert_start x (to_list t))
unfolding link insert_start
link_lem x lo leaf s a = (node leaf x leaf, refl, refl)
link_lem x lo (node l y r) s a = elim (order_cases x.start y.start) [
  | inl h ↦ link_left x y l r h (
      link_lem x lo l (middle_left lo (to_list l) (y ∷ to_list r) s)
        (Absent-left x.start (to_list l) (y ∷ to_list r) a))
  | inr (inl h) ↦ link_right x y lo l r h s (
      link_lem x (suc y.end) r (middle_right lo (to_list l) y (to_list r) s).1
        (Absent-right x.start (to_list l) (y ∷ to_list r) a).1)
  | inr (inr e) ↦ absurd ((Absent-right x.start (to_list l) (y ∷ to_list r) a).0 (sym e))
]

module _ (rb : RbTree key) where
  open rb use {to_list-erase, to_list-insert_color}

  pub just_insert_lem :
      (x : Extent) (lo : ℕ) (t : ExtentTree)
      → Sorted lo (to_list t)
      → Absent x.start (to_list t)
      → Holds (just_insert rb t x) (insert_start x (to_list t))
  unfolding just_insert
  just_insert_lem x lo t s a =
      let (t', e, f) = link_lem x lo t s a in
      (rb.insert_color t', rw (e, just_insert), to_list-insert_color t' ∙ f)

  pub set_end_lem :
      (p : Extent) (end : ℕ) (t : ExtentTree)
      → Holds
          (set_end rb (some p) end t)
          (modify key p.start (λ x. record x { end = end }) (to_list t))
  unfolding set_end
  set_end_lem p end t = (_, refl, to_list-write_node key p.start _ t)

  pub join_lem :
      (p n : Extent) (t : ExtentTree)
      → rb.freed_word n.end ≡ n.end
      → Holds
          (join rb (some p) (some n) t)
          (modify key p.start (λ x. record x { end = n.end }) (remove key n.start (to_list t)))
  unfolding join
  join_lem p n t k =
      let (t', e, f) = set_end_lem p n.end (rb.erase n.start t) in
      (t', rw k e, f ∙ ap (modify key p.start _) (to_list-erase n.start t))

  pub move_start_lem :
      (n : Extent) (start lo : ℕ) (t : ExtentTree)
      → Sorted lo (to_list t)
      → Absent start (to_list t)
      → Holds
          (move_start rb (some n) start t)
          (insert_start (record n { start = start }) (remove key n.start (to_list t)))
  unfolding move_start
  move_start_lem n start lo t s a =
      let e = to_list-erase n.start t in
      let (t', f, g) =
        just_insert_lem (record n { start = start }) lo (rb.erase n.start t)
          (rw e (Sorted-remove n.start lo (to_list t) s))
          (rw e (Absent-remove start n.start (to_list t) a)) in
      (t', f, g ∙ ap (insert_start _) e)
