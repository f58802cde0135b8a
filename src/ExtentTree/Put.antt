-- ===== src/ExtentTree/Put.antt =====
-- ExtentTreePut joins a disjoint range to the extents: the search for its neighbours and the four
-- ways to store it come to `insert_merge`.
use nvmfs.Prelude.{
  ℕ, ◌+◌, ◌≤◌, ◌<◌, ◌≡◌, ◌≢◌, ◌⊎◌, All, refl, ◌∙◌, ap, none, some, List, [], ◌∷◌, ◌++◌, inl, inr,
  head?, ◌==◌, if◌then◌else◌, arith, Bool-cases,
}
use nvmfs.RbTree.{to_list, after, RbTree, KeepsFreed}
use nvmfs.ExtentContainer.{Extent, key}
use nvmfs.ExtentTree.{ExtentTree, put, just_insert, put_between, next_of}
use nvmfs.ExtentTree.Order.{
  Sorted, Disjoint, holders, inside, insert_merge, middle-Before, middle_right, insert_merge-Sorted,
  holders-insert_merge,
}
use nvmfs.ExtentTree.Search.{last_from, lower_bound_lem, last_from-append_ge}
use nvmfs.ExtentTree.Edit.{
  insert_start, insert_start-append_gt, Absent, Holds, Holds-eq, just_insert_lem, set_end_lem,
  join_lem, move_start_lem,
}
use nvmfs.ExtentTree.Around.{
  after-past, Ahead, place, insert_merge-past, Absent-of_Before, Absent-of_Disjoint,
  last_from-Ahead, insert_start-Ahead, remove_head, modify_end, remove_next, Sorted-remove_next,
  front, behind,
}

-- What is read of a freed extent, if the range touches one at both sides, is what stood there.
abbrev pub Joins : RbTree key → ℕ → ℕ → List Extent → Type 0
Joins rb start end xs =
    All (λ x. x.end ≢ start) xs ⊎ (All (λ x. x.start ≢ end) xs ⊎ KeepsFreed key rb)

kept_of_Joins :
    (rb : RbTree key) (start end : ℕ) (ls : List Extent) (p n : Extent) (rs : List Extent)
    → Joins rb start end (ls ++ p ∷ n ∷ rs)
    → p.end ≡ start
    → n.start ≡ end
    → rb.freed_word n.end ≡ n.end
kept_of_Joins rb start end [] p n rs (inl a) e f = absurd (a.0 e)
kept_of_Joins rb start end [] p n rs (inr (inl a)) e f = absurd (a.1.0 f)
kept_of_Joins rb start end ls p n rs (inr (inr k)) e f = k n.end
kept_of_Joins rb start end (l ∷ ls) p n rs (inl a) e f =
    kept_of_Joins rb start end ls p n rs (inl a.1) e f
kept_of_Joins rb start end (l ∷ ls) p n rs (inr (inl a)) e f =
    kept_of_Joins rb start end ls p n rs (inr (inl a.1)) e f

module _ (rb : RbTree key) (t : ExtentTree) (start end : ℕ) (lt : start < end) where
  abbrev fresh : Extent
  fresh = record { start = start; end = end }

  fresh_lem :
      Sorted 0 (to_list t)
      → Absent start (to_list t)
      → Holds (just_insert rb t fresh) (insert_start fresh (to_list t))
  fresh_lem = just_insert_lem rb fresh 0 t

  -- The range goes before the first extent.
  put_front :
      (xs : List Extent)
      → to_list t ≡ xs
      → Sorted 0 xs
      → Absent start xs
      → Ahead end xs
      → Holds (put_between rb t none (head? xs) start end) (insert_merge start end xs)
  unfolding put_between insert_merge insert_start
  put_front [] e s a h = Holds-eq _ (fresh_lem (rw e s) (rw e a)) (ap (insert_start _) e)
  put_front (n ∷ ns) e s a h = elim (Bool-cases (n.start == end)) [
    | inl hit ↦ rw hit (
        Holds-eq _ (move_start_lem rb n start 0 t (rw e s) (rw e a)) (
          rw (e, remove_head n ns, insert_start-Ahead end (record n { start = start }) ns lt h.1)
            (ground arith)))
    | inr miss ↦ rw miss (Holds-eq _ (fresh_lem (rw e s) (rw e a)) (rw e (ground arith)))
  ]

  -- What `insert_merge` does at the neighbours `p` and `n`.
  module _ (p : Extent) (order : p.start < p.end) (h : p.end ≤ start) where
    merge_last :
        insert_merge start end (p ∷ [])
        ≡ (if p.end == start then record p { end = end } ∷ [] else p ∷ fresh ∷ [])
    unfolding insert_merge
    merge_last = ground arith

    merge_middle :
        (n : Extent) (rs : List Extent)
        → end ≤ n.start
        → insert_merge start end (p ∷ n ∷ rs) ≡ (
            if p.end == start
            then (if n.start == end
                then record p { end = n.end } ∷ rs
                else record p { end = end } ∷ n ∷ rs)
            else (if n.start == end
                then p ∷ record n { start = start } ∷ rs
                else p ∷ fresh ∷ n ∷ rs))
    unfolding insert_merge
    merge_middle n rs g = ground arith

  -- The range goes behind `p`, which is the last extent.
  put_last :
      (ls : List Extent) (p : Extent)
      → to_list t ≡ ls ++ p ∷ []
      → Sorted 0 (ls ++ p ∷ [])
      → Absent start (ls ++ p ∷ [])
      → p.end ≤ start
      → Holds (put_between rb t (some p) none start end) (ls ++ insert_merge start end (p ∷ []))
  unfolding put_between insert_start
  put_last ls p e s a h =
      let (order, later) = middle_right 0 ls p [] s in
      rw (merge_last p order h) (elim (Bool-cases (p.end == start)) [
        | inl hit ↦ rw hit (Holds-eq _ (set_end_lem rb p end t) (rw e (modify_end end ls p [] s)))
        | inr miss ↦ rw miss (
            Holds-eq _ (fresh_lem (rw e s) (rw e a))
              (rw e (insert_start-append_gt fresh 0 ls p [] s (omega arith))))
      ])

  -- The range goes between `p` and `n`.
  put_middle :
      (ls : List Extent) (p n : Extent) (rs : List Extent)
      → to_list t ≡ ls ++ p ∷ n ∷ rs
      → Sorted 0 (ls ++ p ∷ n ∷ rs)
      → Absent start (ls ++ p ∷ n ∷ rs)
      → p.end ≤ start
      → Ahead end (n ∷ rs)
      → Joins rb start end (ls ++ p ∷ n ∷ rs)
      → Holds
          (put_between rb t (some p) (some n) start end)
          (ls ++ insert_merge start end (p ∷ n ∷ rs))
  unfolding put_between insert_start
  put_middle ls p n rs e s a h g j =
      let (order, later) = middle_right 0 ls p (n ∷ rs) s in
      let kept = Sorted-remove_next ls p n rs s in
      rw (merge_middle p order h n rs g.0) (elim (Bool-cases (p.end == start)) [
        | inl hit ↦ elim (Bool-cases (n.start == end)) [
          | inl also ↦
              rw (hit, also)
                (Holds-eq _
                  (join_lem rb p n t
                    (kept_of_Joins rb start end ls p n rs j (ground arith) (ground arith)))
                  (rw (e, remove_next ls p n rs s) (modify_end n.end ls p rs kept)))
          | inr miss ↦
              rw (hit, miss)
                (Holds-eq _ (set_end_lem rb p end t) (rw e (modify_end end ls p (n ∷ rs) s)))
        ]
        | inr apart ↦ elim (Bool-cases (n.start == end)) [
          | inl hit ↦
              rw (apart, hit)
                (Holds-eq _ (move_start_lem rb n start 0 t (rw e s) (rw e a)) (
                  rw
                    (
                      e,
                      remove_next ls p n rs s,
                      insert_start-append_gt (record n { start = start }) 0 ls p rs kept
                          (omega arith),
                    )
                    (ap (λ k. ls ++ p ∷ k)
                      (insert_start-Ahead end (record n { start = start }) rs lt g.1))))
          | inr miss ↦
              rw (apart, miss)
                (Holds-eq _ (fresh_lem (rw e s) (rw e a)) (
                  rw (e, insert_start-append_gt fresh 0 ls p (n ∷ rs) s (omega arith))
                    (ap (λ k. ls ++ p ∷ k) (insert_start-Ahead end fresh (n ∷ rs) lt g))))
        ]
      ])

  put_behind :
      (ls : List Extent) (p : Extent) (rs : List Extent)
      → to_list t ≡ ls ++ p ∷ rs
      → Sorted 0 (ls ++ p ∷ rs)
      → Absent start (ls ++ p ∷ rs)
      → p.end ≤ start
      → Ahead end rs
      → Joins rb start end (ls ++ p ∷ rs)
      → Holds
          (put_between rb t (some p) (head? rs) start end)
          (ls ++ insert_merge start end (p ∷ rs))
  put_behind ls p [] e s a h g j = put_last ls p e s a h
  put_behind ls p (n ∷ rs) e s a h g j = put_middle ls p n rs e s a h g j

-- `put` finds the neighbours and stores the range.
pub put_lem :
    (rb : RbTree key) (t : ExtentTree) (start end : ℕ)
    → start < end
    → Sorted 0 (to_list t)
    → Disjoint start end (to_list t)
    → Joins rb start end (to_list t)
    → Holds (put rb t start end) (insert_merge start end (to_list t))
unfolding put next_of
put_lem rb t start end lt s d j = elim (place start end 0 (to_list t) s d) [
  | front a ↦
      rw
        (lower_bound_lem start t s, last_from-Ahead start end none (to_list t) lt a, rb.first_lem t)
        (put_front rb t start end lt (to_list t) refl s absent a)
  | behind ls p rs e h a ↦
      let s' : Sorted 0 (ls ++ p ∷ rs) = rw e at s in
      let (order, later) = middle_right 0 ls p rs s' in
      let before = middle-Before 0 ls p rs s' in
      rw
        (
          lower_bound_lem start t s,
          ap (last_from start none) e ∙ last_from-append_ge start 0 none ls p rs s' (omega arith),
          last_from-Ahead start end (some p) rs lt a,
          rb.next_lem p.start t,
          ap (after key p.start) e
              ∙ after-past p rs p.start ls (Absent-of_Before p.start ls before) refl,
          e,
          insert_merge-past start end p.start ls (p ∷ rs) before (omega arith) lt,
        )
        (put_behind rb t start end lt ls p rs e s' (rw e at absent) h a (rw e at j))
]
  where
    absent : Absent start (to_list t)
    absent = Absent-of_Disjoint start end 0 (to_list t) lt s d

-- Storing a range that the tree does not hold never fails, where it touches an extent on at most one
-- side or freed memory keeps its contents; the tree stays sorted and merged, and every address is held
-- as before, once more if it lies in the range.
pub put-adds :
    (rb : RbTree key) (t : ExtentTree) (start end : ℕ)
    → start < end
    → Sorted 0 (to_list t)
    → Disjoint start end (to_list t)
    → Joins rb start end (to_list t)
    → (t' : ExtentTree) × (put rb t start end ≡ some t')
      × Sorted 0 (to_list t')
      × ((a : ℕ) → holders a (to_list t') ≡ inside a start end + holders a (to_list t))
put-adds rb t start end lt s d j =
    let (t', e, f) = put_lem rb t start end lt s d j in
    (
      t',
      e,
      rw f (insert_merge-Sorted start end 0 (to_list t) (omega arith) lt s d),
      λ a. rw f (holders-insert_merge a start end 0 (to_list t) lt s d),
    )
