-- ===== src/FileExtentTree/Range.antt =====
-- The loop of ExtentTreeErase, from the node that the search finds.
use nvmfs.Prelude.{
  ℕ, ◌+◌, ◌<◌, ◌≤◌, ◌≡◌, refl, sym, ap, ◌∙◌, inl, inr, true, false, Option, none, some, List, [],
  ◌∷◌, ◌++◌, All, append_assoc, ltb, ◌==◌, if◌then◌else◌, arith, lt_cases, subst, head?, length,
  length-append,
}
use nvmfs.RbTree.{Tree, leaf, node, RbTree, to_list, after}
use nvmfs.FileExtentTree.{
  FileExtentNode, FileSpaceNode, extent_key, space_key, next_of, lower_bound, lower_bound_from,
  or_first, start_node, count_nodes,
}
use nvmfs.FileExtentTree.Order.{All-map, Ordered, Ordered-middle, Ordered-split, after-middle}
use nvmfs.FileExtentTree.Pieces.{IsExtent, Sorted, Sorted-Ordered, pieces, erased}

-- The search on the list of the extents.
unfoldable pub last_from : ℕ → Option FileExtentNode → List FileExtentNode → Option FileExtentNode
last_from start best [] = best
last_from start best (x ∷ xs) =
    let rest = last_from start (some x) xs in if ltb start x.file_start then best else rest

last_from-above :
    (start : ℕ) (best : Option FileExtentNode) (xs : List FileExtentNode)
    → All (λ y. start < y.file_start) xs
    → last_from start best xs ≡ best
unfolding last_from
last_from-above start best [] a = refl
last_from-above start best (x ∷ xs) (h, a) = ground arith

last_from-append_lt :
    (start : ℕ) (best : Option FileExtentNode) (ls : List FileExtentNode) (x : FileExtentNode)
    (rs : List FileExtentNode)
    → start < x.file_start
    → last_from start best (ls ++ (x ∷ rs)) ≡ last_from start best ls
unfolding last_from
last_from-append_lt start best [] x rs h = ground arith
last_from-append_lt start best (y ∷ ls) x rs h =
    ground (arith, last_from-append_lt start (some y) ls x rs h)

last_from-append_ge :
    (start : ℕ) (best : Option FileExtentNode) (ls : List FileExtentNode) (x : FileExtentNode)
    (rs : List FileExtentNode)
    → All (λ y. y.file_start < x.file_start) ls
    → x.file_start ≤ start
    → last_from start best (ls ++ (x ∷ rs)) ≡ last_from start (some x) rs
unfolding last_from
last_from-append_ge start best [] x rs a h = ground arith
last_from-append_ge start best (y ∷ ls) x rs (l, a) h =
    ground (arith, last_from-append_ge start (some y) ls x rs a h)

lower_bound_from-last_from :
    (start : ℕ) (best : Option FileExtentNode) (t : Tree FileExtentNode)
    → Ordered extent_key (to_list t)
    → lower_bound_from start best t ≡ last_from start best (to_list t)
unfolding lower_bound_from last_from
lower_bound_from-last_from start best leaf o = refl
lower_bound_from-last_from start best (node l x r) o =
    let (a, b) = Ordered-split extent_key (to_list l) (x ∷ to_list r) o in
    let (c, d) = Ordered-middle extent_key (to_list l) x (to_list r) o in
    let left = lower_bound_from-last_from start best l a in
    let right = lower_bound_from-last_from start (some x) r b.1 in
    let lt = last_from-append_lt start best (to_list l) x (to_list r) in
    let ge = last_from-append_ge start best (to_list l) x (to_list r) c in
    elim (lt_cases start x.file_start) [
      | inl h ↦
          let e : (start == x.file_start) ≡ false = ground arith in
          let f : ltb start x.file_start ≡ true = ground arith in rw (e, f, left) (sym (lt h))
      | inr h ↦ elim (lt_cases x.file_start start) [
        | inl g ↦
            let e : (start == x.file_start) ≡ false = ground arith in
            let f : ltb start x.file_start ≡ false = ground arith in rw (e, f, right) (sym (ge h))
        | inr g ↦
            let e : (start == x.file_start) ≡ true = ground arith in
            rw e (
              sym (
                ge h
                ∙ last_from-above start (some x) (to_list r)
                    (All-map (to_list r) (λ y k. omega arith) d)))
      ]
    ]

-- The extents before a node that end at or before `start`, and the node with those behind it.
pub record Start (xs : List FileExtentNode) (start : ℕ) (cur : Option FileExtentNode) : Type 0 where
  pub passed : List FileExtentNode
  pub coming : List FileExtentNode
  pub parts : xs ≡ passed ++ coming
  pub found : cur ≡ head? coming
  pub far : All (λ y. y.file_start + y.size ≤ start) passed

last_from-Start :
    (spaces : Tree FileSpaceNode) (start : ℕ) (b : FileExtentNode) (xs : List FileExtentNode)
    → Sorted spaces (b.file_start + b.size) xs
    → b.file_start ≤ start
    → Start (b ∷ xs) start (last_from start (some b) xs)
unfolding last_from
last_from-Start spaces start b [] s h = record {
  passed = [];
  coming = b ∷ [];
  parts = refl;
  found = refl;
  far = tt;
}
last_from-Start spaces start b (y ∷ ys) (l, v, s) h = elim (lt_cases start y.file_start) [
  | inl a ↦
      let e : ltb start y.file_start ≡ true = ground arith in
      rw e record { passed = []; coming = b ∷ (y ∷ ys); parts = refl; found = refl; far = tt }
  | inr a ↦
      let e : ltb start y.file_start ≡ false = ground arith in
      let w = last_from-Start spaces start y ys s a in
      rw e record {
        passed = b ∷ w.passed;
        coming = w.coming;
        parts = ap (λ z. b ∷ z) w.parts;
        found = w.found;
        far = (omega arith, w.far);
      }
]

last_from-found :
    (start : ℕ) (b : FileExtentNode) (xs : List FileExtentNode)
    → (z : FileExtentNode) × (last_from start (some b) xs ≡ some z)
unfolding last_from
last_from-found start b [] = (b, refl)
last_from-found start b (y ∷ ys) = elim (lt_cases start y.file_start) [
  | inl a ↦ let e : ltb start y.file_start ≡ true = ground arith in (b, rw e refl)
  | inr a ↦
      let e : ltb start y.file_start ≡ false = ground arith in
      let (z, w) = last_from-found start y ys in (z, rw e w)
]

-- The node behind the first.
abbrev pub second : List FileExtentNode → Option FileExtentNode
second [] = none
second (x ∷ xs) = head? xs

pub erased-above :
    (spaces : Tree FileSpaceNode) (lo start end : ℕ) (xs : List FileExtentNode)
    → Sorted spaces lo xs
    → start < end
    → end ≤ lo
    → erased start end xs ≡ xs
erased-above spaces lo start end [] s h l = refl
erased-above spaces lo start end (x ∷ xs) (k, v, s) h l =
    let p = v.positive in
    let rest = erased-above spaces (x.file_start + x.size) start end xs s h (omega arith) in
    ground arith

pub erased-append :
    (start end : ℕ) (xs ys : List FileExtentNode)
    → erased start end (xs ++ ys) ≡ erased start end xs ++ erased start end ys
erased-append start end [] ys = refl
erased-append start end (x ∷ xs) ys =
    ap (λ z. pieces start end x ++ z) (erased-append start end xs ys)
    ∙ sym (append_assoc (pieces start end x) (erased start end xs) (erased start end ys))

pub erased-far :
    (start end : ℕ) (xs : List FileExtentNode)
    → start < end
    → All (λ y. 0 < y.size) xs
    → All (λ y. y.file_start + y.size ≤ start) xs
    → erased start end xs ≡ xs
erased-far start end [] h p a = refl
erased-far start end (x ∷ xs) h (q, p) (k, a) =
    let rest = erased-far start end xs h p a in ground arith

pub Sorted-positive :
    (spaces : Tree FileSpaceNode) (lo : ℕ) (xs : List FileExtentNode)
    → Sorted spaces lo xs
    → All (λ y. 0 < y.size) xs
Sorted-positive spaces lo [] s = tt
Sorted-positive spaces lo (x ∷ xs) (l, v, s) =
    (v.positive, Sorted-positive spaces (x.file_start + x.size) xs s)

-- What a sorted list says of one in its middle.
pub Sorted-middle :
    (spaces : Tree FileSpaceNode) (lo : ℕ) (ls : List FileExtentNode) (x : FileExtentNode)
    (rs : List FileExtentNode)
    → Sorted spaces lo (ls ++ (x ∷ rs))
    → IsExtent spaces x × Sorted spaces (x.file_start + x.size) rs
Sorted-middle spaces lo [] x rs (l, v, s) = (v, s)
Sorted-middle spaces lo (y ∷ ls) x rs (l, v, s) =
    Sorted-middle spaces (y.file_start + y.size) ls x rs s

pub length-to_list : (t : Tree FileExtentNode) → length (to_list t) ≡ count_nodes t
length-to_list leaf = refl
length-to_list (node l x r) =
    omega (arith, length-append (to_list l) (x ∷ to_list r), length-to_list l, length-to_list r)

module _ (rb : RbTree extent_key) (rb_spaces : RbTree space_key) where
  or_first-head : (t : Tree FileExtentNode) → or_first rb rb_spaces t none ≡ head? (to_list t)
  unfolding or_first
  or_first-head t = rb.first_lem t

  or_first-found :
      (t : Tree FileExtentNode) (o : Option FileExtentNode) (z : FileExtentNode)
      → o ≡ some z
      → or_first rb rb_spaces t o ≡ o
  unfolding or_first
  or_first-found t o z e = rw e refl

  or_first-Start :
      (spaces : Tree FileSpaceNode) (t : Tree FileExtentNode) (start : ℕ) (xs : List FileExtentNode)
      → to_list t ≡ xs
      → Sorted spaces 0 xs
      → Start xs start (or_first rb rb_spaces t (last_from start none xs))
  unfolding last_from
  or_first-Start spaces t start [] e s = record {
    passed = [];
    coming = [];
    parts = refl;
    found = or_first-head t ∙ ap head? e;
    far = tt;
  }
  or_first-Start spaces t start (y ∷ ys) e (l, v, s) = elim (lt_cases start y.file_start) [
    | inl a ↦
        let f : ltb start y.file_start ≡ true = ground arith in
        rw f record {
          passed = [];
          coming = y ∷ ys;
          parts = refl;
          found = or_first-head t ∙ ap head? e;
          far = tt;
        }
    | inr a ↦
        let f : ltb start y.file_start ≡ false = ground arith in
        let (z, g) = last_from-found start y ys in
        let w = last_from-Start spaces start y ys s a in
        rw f record {
          passed = w.passed;
          coming = w.coming;
          parts = w.parts;
          found = or_first-found t (last_from start (some y) ys) z g ∙ w.found;
          far = w.far;
        }
  ]

  pub start_node-Start :
      (spaces : Tree FileSpaceNode) (t : Tree FileExtentNode) (start : ℕ)
      → Sorted spaces 0 (to_list t)
      → Start (to_list t) start (start_node rb rb_spaces t start)
  unfolding start_node lower_bound
  start_node-Start spaces t start s =
      subst (λ o. Start (to_list t) start (or_first rb rb_spaces t o))
        (sym (lower_bound_from-last_from start none t (Sorted-Ordered spaces 0 (to_list t) s)))
        (or_first-Start spaces t start (to_list t) refl s)

  pub next_of-second :
      (t : Tree FileExtentNode) (ls rs : List FileExtentNode)
      → to_list t ≡ ls ++ rs
      → Ordered extent_key (ls ++ rs)
      → next_of rb rb_spaces t (head? rs) ≡ second rs
  unfolding next_of
  next_of-second t ls [] e o = refl
  next_of-second t ls (x ∷ rs) e o =
      let (a, b) = Ordered-middle extent_key ls x rs o in
      rb.next_lem x.file_start t
      ∙ ap (after extent_key x.file_start) e
      ∙ after-middle extent_key x.file_start ls x rs a refl
