-- ===== src/FileExtentTree/Order.antt =====
-- Nodes in the order of their keys: what linking, erasing and writing a node do to the list of them.
use nvmfs.Prelude.{
  ℕ, ◌<◌, ◌≤◌, ◌≡◌, refl, sym, ap, inl, inr, List, [], ◌∷◌, ◌++◌, All, ltb, ◌==◌, head?,
  if◌then◌else◌, arith, lt_cases, true, false,
}
use nvmfs.RbTree.{Tree, leaf, node, to_list, remove, modify, after}
use nvmfs.FileExtentTree.{link}

module _ {ℓ} {A : Type ℓ} where
  pub All-map : {P Q : A → Type 0} (xs : List A) → ((x : A) → P x → Q x) → All P xs → All Q xs
  All-map [] f a = tt
  All-map (x ∷ xs) f (p, a) = (f x p, All-map xs f a)

  pub All-split : (P : A → Type 0) (xs ys : List A) → All P (xs ++ ys) → All P xs × All P ys
  All-split P [] ys a = (tt, a)
  All-split P (x ∷ xs) ys (p, a) = let (b, c) = All-split P xs ys a in ((p, b), c)

  pub All-join : (P : A → Type 0) (xs ys : List A) → All P xs → All P ys → All P (xs ++ ys)
  All-join P [] ys a b = b
  All-join P (x ∷ xs) ys (p, a) b = (p, All-join P xs ys a b)

module _ {ℓ} {A : Type ℓ} (key : A → ℕ) where
  abbrev pub Ordered : List A → Type 0
  Ordered [] = Unit
  Ordered (x ∷ xs) = All (λ y. key x < key y) xs × Ordered xs

  -- `x` before the first element with a greater key.
  unfoldable pub insert_by : A → List A → List A
  insert_by x [] = x ∷ []
  insert_by x (y ∷ ys) =
      let rest = insert_by x ys in if ltb (key x) (key y) then x ∷ y ∷ ys else y ∷ rest

  pub insert_by-middle :
      (x : A) (ls rs : List A)
      → All (λ y. key y ≤ key x) ls
      → All (λ y. key x < key y) rs
      → insert_by x (ls ++ rs) ≡ ls ++ (x ∷ rs)
  unfolding insert_by
  insert_by-middle x [] [] a b = refl
  insert_by-middle x [] (r ∷ rs) a (b, c) = ground arith
  insert_by-middle x (l ∷ ls) rs (h, a) b = ground (arith, insert_by-middle x ls rs a b)

  insert_by-append_lt :
      (x : A) (ls : List A) (y : A) (rs : List A)
      → key x < key y
      → insert_by x (ls ++ (y ∷ rs)) ≡ insert_by x ls ++ (y ∷ rs)
  unfolding insert_by
  insert_by-append_lt x [] y rs h = ground arith
  insert_by-append_lt x (z ∷ ls) y rs h = ground (arith, insert_by-append_lt x ls y rs h)

  insert_by-append_ge :
      (x : A) (ls : List A) (y : A) (rs : List A)
      → All (λ z. key z < key y) ls
      → key y ≤ key x
      → insert_by x (ls ++ (y ∷ rs)) ≡ ls ++ (y ∷ insert_by x rs)
  unfolding insert_by
  insert_by-append_ge x [] y rs a h = ground arith
  insert_by-append_ge x (z ∷ ls) y rs (l, a) h = ground (arith, insert_by-append_ge x ls y rs a h)

  pub Ordered-middle :
      (ls : List A) (x : A) (rs : List A)
      → Ordered (ls ++ (x ∷ rs))
      → All (λ y. key y < key x) ls × All (λ y. key x < key y) rs
  Ordered-middle [] x rs (a, o) = (tt, a)
  Ordered-middle (l ∷ ls) x rs (a, o) =
      let (b, c) = Ordered-middle ls x rs o in
      let (_, (h, _)) = All-split (λ y. key l < key y) ls (x ∷ rs) a in ((h, b), c)

  pub Ordered-split : (ls rs : List A) → Ordered (ls ++ rs) → Ordered ls × Ordered rs
  Ordered-split [] rs o = (tt, o)
  Ordered-split (l ∷ ls) rs (a, o) =
      let (b, c) = Ordered-split ls rs o in (((All-split (λ y. key l < key y) ls rs a).0, b), c)

  pub Ordered-drop :
      (ls : List A) (x : A) (rs : List A) → Ordered (ls ++ (x ∷ rs)) → Ordered (ls ++ rs)
  Ordered-drop [] x rs (a, o) = o
  Ordered-drop (l ∷ ls) x rs (a, o) =
      let (b, (_, c)) = All-split (λ y. key l < key y) ls (x ∷ rs) a in
      (All-join (λ y. key l < key y) ls rs b c, Ordered-drop ls x rs o)

  pub Ordered-relabel :
      (ls : List A) (x y : A) (rs : List A)
      → key y ≡ key x
      → Ordered (ls ++ (x ∷ rs))
      → Ordered (ls ++ (y ∷ rs))
  Ordered-relabel [] x y rs e (a, o) = (All-map rs (λ z h. omega (arith, e, h)) a, o)
  Ordered-relabel (l ∷ ls) x y rs e (a, o) =
      let (b, (h, c)) = All-split (λ y. key l < key y) ls (x ∷ rs) a in
      (
        All-join (λ y. key l < key y) ls (y ∷ rs) b (omega (arith, e, h), c),
        Ordered-relabel ls x y rs e o,
      )

  pub Ordered-insert :
      (ls : List A) (x y : A) (rs : List A)
      → key x < key y
      → All (λ z. key y < key z) rs
      → Ordered (ls ++ (x ∷ rs))
      → Ordered (ls ++ (x ∷ (y ∷ rs)))
  Ordered-insert [] x y rs h b (a, o) = ((h, a), (b, o))
  Ordered-insert (l ∷ ls) x y rs h b (a, o) =
      let (c, (d, e)) = All-split (λ y. key l < key y) ls (x ∷ rs) a in
      (
        All-join (λ y. key l < key y) ls (x ∷ (y ∷ rs)) c (d, (omega arith, e)),
        Ordered-insert ls x y rs h b o,
      )

  pub to_list-link :
      (x : A) (t : Tree A) → Ordered (to_list t) → to_list (link key x t) ≡ insert_by x (to_list t)
  unfolding link insert_by
  to_list-link x leaf o = refl
  to_list-link x (node l y r) o =
      let (a, b) = Ordered-split (to_list l) (y ∷ to_list r) o in
      let left = to_list-link x l a in
      let right = to_list-link x r b.1 in
      let lt = insert_by-append_lt x (to_list l) y (to_list r) in
      let ge =
        insert_by-append_ge x (to_list l) y (to_list r)
          (Ordered-middle (to_list l) y (to_list r) o).0 in
      elim (lt_cases (key x) (key y)) [
        | inl h ↦ let e : ltb (key x) (key y) ≡ true = ground arith in rw (e, left) (sym (lt h))
        | inr h ↦ let e : ltb (key x) (key y) ≡ false = ground arith in rw (e, right) (sym (ge h))
      ]

  pub remove-middle :
      (k : ℕ) (ls : List A) (x : A) (rs : List A)
      → All (λ y. key y < k) ls
      → key x ≡ k
      → remove key k (ls ++ (x ∷ rs)) ≡ ls ++ rs
  remove-middle k [] x rs a e = ground arith
  remove-middle k (l ∷ ls) x rs (h, a) e = ground (arith, remove-middle k ls x rs a e)

  pub after-middle :
      (k : ℕ) (ls : List A) (x : A) (rs : List A)
      → All (λ y. key y < k) ls
      → key x ≡ k
      → after key k (ls ++ (x ∷ rs)) ≡ head? rs
  after-middle k [] x rs a e = ground arith
  after-middle k (l ∷ ls) x rs (h, a) e = ground (arith, after-middle k ls x rs a e)

  modify-above :
      (k : ℕ) (f : A → A) (xs : List A) → All (λ y. k < key y) xs → modify key k f xs ≡ xs
  modify-above k f [] a = refl
  modify-above k f (x ∷ xs) (h, a) =
      let e : (key x == k) ≡ false = ground arith in rw (e, modify-above k f xs a)

  pub modify-middle :
      (k : ℕ) (f : A → A) (ls : List A) (x : A) (rs : List A)
      → All (λ y. key y < k) ls
      → All (λ y. k < key y) rs
      → key x ≡ k
      → modify key k f (ls ++ (x ∷ rs)) ≡ ls ++ (f x ∷ rs)
  modify-middle k f [] x rs a b h =
      let e : (key x == k) ≡ true = ground arith in
      rw e (ap (λ ys. f x ∷ ys) (modify-above k f rs b))
  modify-middle k f (l ∷ ls) x rs (g, a) b h =
      let e : (key l == k) ≡ false = ground arith in
      rw e (ap (λ ys. l ∷ ys) (modify-middle k f ls x rs a b h))
