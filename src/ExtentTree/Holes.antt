-- ===== src/ExtentTree/Holes.antt =====
-- ExtentTreeReverseHolesAndExtents turns the busy ranges noted during recovery into the free ones.
use nvmfs.Prelude.{
  ℕ, zero, suc, ◌+◌, ◌≤◌, ◌<◌, ◌≡◌, ◌≢◌, All, refl, Option, some, List, [], ◌∷◌, inl, inr, head?,
  ◌==◌, ltb, if◌then◌else◌, arith, Bool-cases, length, lt_cases, lt→ltb, le→not_ltb,
}
use nvmfs.RbTree.{to_list, RbTree}
use nvmfs.ExtentContainer.{Extent, key}
use nvmfs.ExtentTree.{ExtentTree, put, count_nodes, reverse_from, reverse_holes_and_extents, init}
use nvmfs.ExtentTree.Order.{
  Sorted, Sorted-mono, Disjoint, holders, inside, insert_merge-Sorted, Within, insert_merge-Within,
  Within-mono, holders-insert_merge,
}
use nvmfs.ExtentTree.Put.{put_lem}
use nvmfs.ExtentTree.Get.{count_nodes-length, erase_head, next_head}

Disjoint-of_Within : (start end : ℕ) (xs : List Extent) → Within start xs → Disjoint start end xs
Disjoint-of_Within start end [] w = tt
Disjoint-of_Within start end (x ∷ xs) w = (inr w.0, Disjoint-of_Within start end xs w.1)

starts-ne_end :
    (start end : ℕ) (lo : ℕ) (xs : List Extent)
    → start < end
    → Sorted lo xs
    → Within start xs
    → All (λ x. x.start ≢ end) xs
starts-ne_end start end lo [] lt s w = tt
starts-ne_end start end lo (x ∷ xs) lt s w =
    (ground arith, starts-ne_end start end (suc x.end) xs lt s.2 w.1)

-- Addresses that no extent reaches.
holders_above : (hi a : ℕ) (xs : List Extent) → Within hi xs → hi ≤ a → holders a xs ≡ 0
holders_above hi a [] w h = refl
holders_above hi a (x ∷ xs) w h = ground (arith, holders_above hi a xs w.1 h)

holders_below : (lo a : ℕ) (xs : List Extent) → Sorted lo xs → a < lo → holders a xs ≡ 0
holders_below lo a [] s h = refl
holders_below lo a (x ∷ xs) s h = ground (arith, holders_below (suc x.end) a xs s.2)

-- A tree after [start, end) was stored in `new`.
record Stored (new new' : ExtentTree) (start end : ℕ) : Type 0 where
  sorted : Sorted 0 (to_list new')
  within : Within end (to_list new')
  counts : (a : ℕ) → holders a (to_list new') ≡ inside a start end + holders a (to_list new)

module _ (rb : RbTree key) where
  store :
      (new : ExtentTree) (start end : ℕ)
      → start < end
      → Sorted 0 (to_list new)
      → Within start (to_list new)
      → (new' : ExtentTree) × (put rb new start end ≡ some new') × Stored new new' start end
  store new start end lt s w =
      let d = Disjoint-of_Within start end (to_list new) w in
      let (new', e, f) =
        put_lem rb new start end lt s d
          (inr (inl (starts-ne_end start end 0 (to_list new) lt s w))) in
      (
        new',
        e,
        record {
          sorted = rw f (insert_merge-Sorted start end 0 (to_list new) (omega arith) lt s d);
          within = rw f (
              insert_merge-Within end start end (to_list new) (omega arith)
                (Within-mono start end (to_list new) (omega arith) w));
          counts = λ a. rw f (holders-insert_merge a start end 0 (to_list new) lt s d);
        },
      )

  -- The hole before an extent, if there is one.
  hole :
      (new : ExtentTree) (last start : ℕ)
      → last ≤ start
      → Sorted 0 (to_list new)
      → Within last (to_list new)
      → (new' : ExtentTree) × ((if ltb last start then put rb new last start else some new)
          ≡ some new')
        × Stored new new' last start
  hole new last start h s w = elim (lt_cases last start) [
    | inl lt ↦ rw (lt→ltb last start lt) (store new last start lt s w)
    | inr ge ↦ rw (le→not_ltb last start ge) (
      new,
      refl,
      record {
        sorted = s;
        within = Within-mono last start (to_list new) h w;
        counts = λ a. ground arith;
      },
    )
  ]

  -- What the loop returns from the extents `xs` that are left.
  Reverses : Option (ExtentTree × ℕ) → ExtentTree → ℕ → List Extent → Type 0
  Reverses o new last xs =
      (new' : ExtentTree) × (last' : ℕ) × (o ≡ some (new', last'))
      × Sorted 0 (to_list new')
      × Within last' (to_list new')
      × (last ≤ last')
      × ((hi : ℕ) → last ≤ hi → Within hi xs → last' ≤ hi)
      × ((a : ℕ)
          → holders a (to_list new') + holders a xs ≡ holders a (to_list new) + inside a last last')

  reverse_from_lem :
      (fuel : ℕ) (t new : ExtentTree) (last : ℕ) (xs : List Extent)
      → to_list t ≡ xs
      → length xs < fuel
      → Sorted last xs
      → Sorted 0 (to_list new)
      → Within last (to_list new)
      → Reverses (reverse_from rb fuel t new last (head? xs)) new last xs
  unfolding reverse_from Reverses
  reverse_from_lem zero t new last xs e f s n w = absurd (omega arith)
  reverse_from_lem (suc fuel) t new last [] e f s n w =
      (new, last, refl, n, w, omega arith, λ hi h _. h, λ a. ground arith)
  reverse_from_lem (suc fuel) t new last (x ∷ xs) e f s n w =
      let (new1, p, st) = hole new last x.start s.0 n w in
      let (new', last', g, s', w', l, u, c) =
        reverse_from_lem fuel (rb.erase x.start t) new1 x.end xs (erase_head rb t x xs e)
          (omega arith) (Sorted-mono {lo = x.end} {hi = suc x.end} xs (omega arith) s.2) st.sorted
          (Within-mono x.start x.end (to_list new1) (omega arith) st.within) in
      (
        new',
        last',
        rw (p, next_head rb t x xs e) g,
        s',
        w',
        omega arith,
        λ hi h k. u hi k.0 k.1,
        λ a. ground (arith, c a, st.counts a),
      )

  -- Reversing a sorted tree that lies below `max_size` never fails, and leaves a sorted tree that
  -- holds exactly the addresses below `max_size` which the old one did not hold.
  pub reverse-complement :
      (t : ExtentTree) (max_size : ℕ)
      → Sorted 0 (to_list t)
      → Within max_size (to_list t)
      → (t' : ExtentTree) × (reverse_holes_and_extents rb t max_size ≡ some t')
        × Sorted 0 (to_list t')
        × ((a : ℕ) → holders a (to_list t') + holders a (to_list t) ≡ inside a 0 max_size)
  unfolding reverse_holes_and_extents Reverses
  reverse-complement t max_size s w =
      let (new, last, e, n, v, l, u, c) =
        reverse_from_lem (count_nodes t + 1) t init 0 (to_list t) refl
          (omega (arith, count_nodes-length t)) s tt tt in
      let most = u max_size (omega arith) w in
      rw (rb.first_lem t, e)
        (elim (Bool-cases (last == max_size)) [
          | inl all ↦ rw all (new, refl, n, λ a. ground (arith, c a))
          | inr more ↦
              let (t', g, st) = store new last max_size (ground arith) n v in
              rw more (t', g, st.sorted, λ a. ground (arith, c a, st.counts a))
        ])
