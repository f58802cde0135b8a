-- ===== src/ExtentTree/Order.antt =====
-- The extents of a tree in order: sorted, non-empty and never touching, so that the list is a normal
-- form of the set of its addresses. `insert_merge` is the reference for `put`.
use nvmfs.Prelude.{
  ℕ, suc, ◌+◌, ◌≤◌, ◌<◌, ◌≡◌, ◌⊎◌, inl, List, [], ◌∷◌, ◌++◌, All, ltb, leb, ◌==◌, if◌then◌else◌,
  arith, ◌&&◌,
}
use nvmfs.ExtentContainer.{Extent}

-- `lo` is the least address that the next extent may start at.
abbrev pub Sorted : ℕ → List Extent → Type 0
Sorted lo [] = Unit {0}
Sorted lo (x ∷ xs) = (lo ≤ x.start) × (x.start < x.end) × Sorted (suc x.end) xs

-- No address of [start, end) is in the list.
abbrev pub Disjoint : ℕ → ℕ → List Extent → Type 0
Disjoint start end [] = Unit {0}
Disjoint start end (x ∷ xs) = ((end ≤ x.start) ⊎ (x.end ≤ start)) × Disjoint start end xs

-- How many times the range [start, end) holds `a`.
abbrev pub inside : ℕ → ℕ → ℕ → ℕ
inside a start end = if leb start a && ltb a end then 1 else 0

-- How many extents hold the address `a`.
abbrev pub holders : ℕ → List Extent → ℕ
holders a [] = 0
holders a (x ∷ xs) = inside a x.start x.end + holders a xs

pub holders-append :
    (a : ℕ) (xs ys : List Extent) → holders a (xs ++ ys) ≡ holders a xs + holders a ys
holders-append a [] ys = omega arith
holders-append a (x ∷ xs) ys = omega (arith, holders-append a xs ys)

-- [start, end) joined to a sorted list that is disjoint from it.
unfoldable pub insert_merge : ℕ → ℕ → List Extent → List Extent
insert_merge start end [] = record { start = start; end = end } ∷ []
insert_merge start end (x ∷ xs) =
    let joined = insert_merge x.start end xs in
    let later = insert_merge start end xs in
    if ltb end x.start
    then record { start = start; end = end } ∷ x ∷ xs
    else if end == x.start
    then record { start = start; end = x.end } ∷ xs
    else if x.end == start
    then joined
    else x ∷ later

pub Sorted-mono : {lo hi : ℕ} (xs : List Extent) → lo ≤ hi → Sorted hi xs → Sorted lo xs
Sorted-mono [] h s = tt
Sorted-mono (x ∷ xs) h s = (omega arith, s.1, s.2)

pub Disjoint-of_Sorted :
    (start end lo : ℕ) (xs : List Extent) → end ≤ lo → Sorted lo xs → Disjoint start end xs
Disjoint-of_Sorted start end lo [] h s = tt
Disjoint-of_Sorted start end lo (x ∷ xs) h s =
    (inl (omega arith), Disjoint-of_Sorted start end (suc x.end) xs (omega arith) s.2)

Disjoint-wider :
    (start start' end lo : ℕ) (xs : List Extent)
    → start < lo
    → Sorted lo xs
    → Disjoint start end xs
    → Disjoint start' end xs
Disjoint-wider start start' end lo [] h s d = tt
Disjoint-wider start start' end lo (x ∷ xs) h s d =
    (inl (omega arith), Disjoint-wider start start' end (suc x.end) xs (omega arith) s.2 d.1)

pub insert_merge-Sorted :
    (start end lo : ℕ) (xs : List Extent)
    → lo ≤ start
    → start < end
    → Sorted lo xs
    → Disjoint start end xs
    → Sorted lo (insert_merge start end xs)
unfolding insert_merge
insert_merge-Sorted start end lo [] l h s d = omega arith
insert_merge-Sorted start end lo (x ∷ xs) l h s d = ground (
  arith,
  insert_merge-Sorted x.start end lo xs (omega arith),
  insert_merge-Sorted start end (suc x.end) xs,
  Sorted-mono {lo = lo} {hi = suc x.end} xs,
  Disjoint-wider start x.start end (suc x.end) xs,
)

pub holders-insert_merge :
    (a start end lo : ℕ) (xs : List Extent)
    → start < end
    → Sorted lo xs
    → Disjoint start end xs
    → holders a (insert_merge start end xs) ≡ inside a start end + holders a xs
unfolding insert_merge
holders-insert_merge a start end lo [] h s d = omega arith
holders-insert_merge a start end lo (x ∷ xs) h s d = ground (
  arith,
  holders-insert_merge a x.start end (suc x.end) xs,
  holders-insert_merge a start end (suc x.end) xs,
  Disjoint-wider start x.start end (suc x.end) xs,
)

-- Around an element of a sorted list.
pub middle_lo :
    (lo : ℕ) (ls : List Extent) (x : Extent) (rs : List Extent)
    → Sorted lo (ls ++ x ∷ rs)
    → lo ≤ x.start
middle_lo lo [] x rs s = s.0
middle_lo lo (y ∷ ls) x rs s = omega (arith, middle_lo (suc y.end) ls x rs s.2)

pub middle_left : (lo : ℕ) (ls rs : List Extent) → Sorted lo (ls ++ rs) → Sorted lo ls
middle_left lo [] rs s = tt
middle_left lo (y ∷ ls) rs s = (s.0, s.1, middle_left (suc y.end) ls rs s.2)

pub middle_right :
    (lo : ℕ) (ls : List Extent) (x : Extent) (rs : List Extent)
    → Sorted lo (ls ++ x ∷ rs)
    → (x.start < x.end) × Sorted (suc x.end) rs
middle_right lo [] x rs s = (s.1, s.2)
middle_right lo (y ∷ ls) x rs s = middle_right (suc y.end) ls x rs s.2

-- What stands before `x` ends before it starts.
abbrev pub Before : ℕ → List Extent → Type 0
Before k = All λ y. (y.start < y.end) × (y.end < k)

pub middle-Before :
    (lo : ℕ) (ls : List Extent) (x : Extent) (rs : List Extent)
    → Sorted lo (ls ++ x ∷ rs)
    → Before x.start ls
middle-Before lo [] x rs s = tt
middle-Before lo (y ∷ ls) x rs s =
    ((s.1, middle_lo (suc y.end) ls x rs s.2), middle-Before (suc y.end) ls x rs s.2)

-- The extents end by `hi`.
abbrev pub Within : ℕ → List Extent → Type 0
Within hi = All λ x. x.end ≤ hi

pub insert_merge-Within :
    (hi start end : ℕ) (xs : List Extent)
    → end ≤ hi
    → Within hi xs
    → Within hi (insert_merge start end xs)
unfolding insert_merge
insert_merge-Within hi start end [] h w = (h, tt)
insert_merge-Within hi start end (x ∷ xs) h w =
    ground (
      arith,
      insert_merge-Within hi x.start end xs h w.1,
      insert_merge-Within hi start end xs h w.1,
    )

pub Within-mono : (lo hi : ℕ) (xs : List Extent) → lo ≤ hi → Within lo xs → Within hi xs
Within-mono lo hi [] h w = tt
Within-mono lo hi (x ∷ xs) h w = (omega arith, Within-mono lo hi xs h w.1)
