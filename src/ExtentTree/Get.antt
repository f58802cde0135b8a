-- ===== src/ExtentTree/Get.antt =====
-- ExtentTreeGet moves the first `size` addresses of the tree into the container.
use nvmfs.Prelude.{
  ℕ, zero, suc, ◌+◌, ◌-◌, ◌<◌, ◌≡◌, refl, sym, ◌∙◌, ap, Option, some, List, [], ◌∷◌, ◌++◌, inl, inr,
  All, head?, true, false, ◌==◌, leb, arith, Bool-cases, length, length-append, append-nil,
  append_assoc, u64_mod, min, sub64, add64, lt_cases,
}
use nvmfs.RbTree.{leaf, node, to_list, RbTree, after, remove}
use nvmfs.ExtentContainer.{Extent, key, ExtentContainer, container_append, extents}
use nvmfs.ExtentContainer.Append.{IsValid, append_lem, total, total-append}
use nvmfs.ExtentTree.{ExtentTree, get, get_from, count_nodes, just_insert}
use nvmfs.ExtentTree.Order.{Sorted, holders, holders-append}
use nvmfs.ExtentTree.Edit.{Holds, just_insert_lem, insert_start}
use nvmfs.ExtentTree.Around.{insert_start-Ahead, remove_head, Absent-of_Sorted, Ahead-of_Sorted}
use nvmfs.ExtentTree.Carve.{taken, left, left-Sorted, holders-taken-left, total-taken}

-- Ends are 64-bit numbers.
abbrev pub Bounded : List Extent → Type 0
Bounded = All λ x. x.end < u64_mod

pub count_nodes-length : (t : ExtentTree) → count_nodes t ≡ length (to_list t)
unfolding count_nodes
count_nodes-length leaf = refl
count_nodes-length (node l x r) =
    omega
      (arith, count_nodes-length l, count_nodes-length r, length-append (to_list l) (x ∷ to_list r))

-- What a run of the loop returns.
abbrev pub Gets :
    Option (ExtentTree × ExtentContainer) → ExtentContainer → List Extent → List Extent → Type 0
Gets o c got rest =
    (t' : ExtentTree) × (c' : ExtentContainer) × (o ≡ some (t', c'))
    × (to_list t' ≡ rest)
    × IsValid c'
    × (extents c' ≡ extents c ++ got)

module _ (rb : RbTree key) where
  pub erase_head :
      (t : ExtentTree) (x : Extent) (xs : List Extent)
      → to_list t ≡ x ∷ xs
      → to_list (rb.erase x.start t) ≡ xs
  erase_head t x xs e = rb.to_list-erase x.start t ∙ ap (remove key x.start) e ∙ remove_head x xs

  pub next_head :
      (t : ExtentTree) (x : Extent) (xs : List Extent)
      → to_list t ≡ x ∷ xs
      → rb.next x.start t ≡ head? xs
  next_head t x xs e = rb.next_lem x.start t ∙ ap (after key x.start) e ∙ ground arith

  -- The last step: the extent is cut, and what is left of it goes back.
  cut :
      (t : ExtentTree) (x : Extent) (xs : List Extent) (size lo : ℕ)
      → to_list t ≡ x ∷ xs
      → Sorted lo (x ∷ xs)
      → x.end < u64_mod
      → size < x.end - x.start
      → Holds
          (just_insert rb (rb.erase x.start t) (record x { start = add64 x.start size }))
          (record x { start = x.start + size } ∷ xs)
  cut t x xs size lo e s b h =
      let erased = erase_head t x xs e in
      let start = x.start + size in
      let wrap : add64 x.start size ≡ start = omega arith in
      let (t', f, g) =
        just_insert_lem rb (record x { start = start }) (suc x.end) (rb.erase x.start t)
          (rw erased s.2) (rw erased (Absent-of_Sorted start (suc x.end) xs (omega arith) s.2)) in
      rw wrap (
        t',
        f,
        g
            ∙ ap (insert_start _) erased
            ∙ insert_start-Ahead x.end (record x { start = start }) xs (omega arith)
                (Ahead-of_Sorted x.end (suc x.end) xs (omega arith) s.2),
      )

  get_from_lem :
      (fuel : ℕ) (t : ExtentTree) (xs : List Extent) (c : ExtentContainer) (size lo : ℕ)
      → to_list t ≡ xs
      → length xs < fuel
      → size < u64_mod
      → Sorted lo xs
      → Bounded xs
      → IsValid c
      → Gets (get_from rb fuel t c size (head? xs)) c (taken size xs) (left size xs)
  unfolding get_from taken left
  get_from_lem zero t xs c size lo e f z s b v = absurd (omega arith)
  get_from_lem (suc fuel) t [] c size lo e f z s b v =
      (t, c, refl, e, v, sym (append-nil (extents c)))
  get_from_lem (suc fuel) t (x ∷ xs) c size lo e f z s b v = elim (Bool-cases (size == 0)) [
    | inl done ↦ rw done (t, c, refl, e, v, sym (append-nil (extents c)))
    | inr more ↦ elim (lt_cases size (x.end - x.start)) [
      | inl h ↦
          let wrap : add64 x.start size ≡ x.start + size = omega arith in
          let len : sub64 x.end x.start ≡ x.end - x.start = omega arith in
          let part : leb (x.end - x.start) size ≡ false = ground arith in
          let (t', f, g) = cut t x xs size lo e s b.0 h in
          let (w, k) = append_lem c x.start (x.start + size) v (omega arith) (omega arith) in
          rw (more, len, part, f, wrap)
            (t', container_append c x.start (x.start + size), refl, g, w, k)
      | inr h ↦
          let len : sub64 x.end x.start ≡ x.end - x.start = omega arith in
          let less : sub64 size (x.end - x.start) ≡ size - (x.end - x.start) = omega arith in
          let whole : leb (x.end - x.start) size ≡ true = ground arith in
          let (w, k) = append_lem c x.start x.end v (omega arith) b.0 in
          let (t', c', f, g, w', k') =
            get_from_lem fuel (rb.erase x.start t) xs (container_append c x.start x.end)
              (size - (x.end - x.start)) (suc x.end) (erase_head t x xs e) (omega arith)
              (omega arith) s.2 b.1 w in
          rw (more, len, whole, less, next_head t x xs e)
            (
              t',
              c',
              f,
              g,
              w',
              k'
                  ∙ ap (λ j. j ++ taken (size - (x.end - x.start)) xs) k
                  ∙ append_assoc (extents c) (x ∷ []) (taken (size - (x.end - x.start)) xs),
            )
    ]
  ]

  pub get_lem :
      (t : ExtentTree) (c : ExtentContainer) (size : ℕ)
      → Sorted 0 (to_list t)
      → Bounded (to_list t)
      → IsValid c
      → size < u64_mod
      → Gets (get rb t c size) c (taken size (to_list t)) (left size (to_list t))
  unfolding get
  get_lem t c size s b v z = rw (rb.first_lem t) (
      get_from_lem (count_nodes t + 1) t (to_list t) c size 0 refl
        (omega (arith, count_nodes-length t)) z s b v)

  -- `get` returns, for a valid container and a sorted tree. It takes the lowest addresses, as many as
  -- are asked for or as there are; each address is in the tree or the container as often as before.
  pub get-takes :
      (t : ExtentTree) (c : ExtentContainer) (size : ℕ)
      → Sorted 0 (to_list t)
      → Bounded (to_list t)
      → IsValid c
      → size < u64_mod
      → (t' : ExtentTree) × (c' : ExtentContainer) × (get rb t c size ≡ some (t', c'))
        × Sorted 0 (to_list t')
        × IsValid c'
        × (total (extents c') ≡ total (extents c) + min size (total (to_list t)))
        × ((a : ℕ)
            → holders a (extents c') + holders a (to_list t')
              ≡ holders a (extents c) + holders a (to_list t))
  get-takes t c size s b v z =
      let (t', c', f, g, w, k) = get_lem t c size s b v z in
      (
        t',
        c',
        f,
        rw g (left-Sorted size 0 (to_list t) s),
        w,
        rw (k, total-append (extents c)) (omega (arith, total-taken size 0 (to_list t) s)),
        λ a.
            rw (k, g, holders-append a (extents c))
              (omega (arith, holders-taken-left a size 0 (to_list t) s)),
      )
