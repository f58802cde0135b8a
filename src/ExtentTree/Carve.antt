-- ===== src/ExtentTree/Carve.antt =====
-- The reference for `get`: the first `n` addresses of a sorted list, and what is left.
use nvmfs.Prelude.{
  ℕ, suc, ◌+◌, ◌-◌, ◌≤◌, ◌≡◌, List, [], ◌∷◌, ◌==◌, leb, if◌then◌else◌, arith, min, All, refl,
}
use nvmfs.ExtentContainer.{Extent}
use nvmfs.ExtentContainer.Append.{total}
use nvmfs.ExtentTree.Order.{Sorted, Sorted-mono, holders, Within}

unfoldable pub taken : ℕ → List Extent → List Extent
taken n [] = []
taken n (x ∷ xs) =
    let more = taken (n - (x.end - x.start)) xs in
    if n == 0
    then []
    else if leb (x.end - x.start) n
    then x ∷ more
    else record x { end = x.start + n } ∷ []

unfoldable pub left : ℕ → List Extent → List Extent
left n [] = []
left n (x ∷ xs) =
    let more = left (n - (x.end - x.start)) xs in
    if n == 0
    then x ∷ xs
    else if leb (x.end - x.start) n
    then more
    else record x { start = x.start + n } ∷ xs

pub left-Sorted : (n lo : ℕ) (xs : List Extent) → Sorted lo xs → Sorted lo (left n xs)
unfolding left
left-Sorted n lo [] s = tt
left-Sorted n lo (x ∷ xs) s =
    ground
      (arith, left-Sorted (n - (x.end - x.start)) lo xs, Sorted-mono {lo = lo} {hi = suc x.end} xs)

pub holders-taken-left :
    (a n lo : ℕ) (xs : List Extent)
    → Sorted lo xs
    → holders a (taken n xs) + holders a (left n xs) ≡ holders a xs
unfolding taken left
holders-taken-left a n lo [] s = omega arith
holders-taken-left a n lo (x ∷ xs) s =
    ground (arith, holders-taken-left a (n - (x.end - x.start)) (suc x.end) xs)

pub total-taken :
    (n lo : ℕ) (xs : List Extent) → Sorted lo xs → total (taken n xs) ≡ min n (total xs)
unfolding taken
total-taken n lo [] s = omega arith
total-taken n lo (x ∷ xs) s = ground (arith, total-taken (n - (x.end - x.start)) (suc x.end) xs)

pub total-left : (n lo : ℕ) (xs : List Extent) → Sorted lo xs → total (left n xs) ≡ total xs - n
unfolding left
total-left n lo [] s = omega arith
total-left n lo (x ∷ xs) s = ground (arith, total-left (n - (x.end - x.start)) (suc x.end) xs)

pub left-Within : (n hi : ℕ) (xs : List Extent) → Within hi xs → Within hi (left n xs)
unfolding left
left-Within n hi [] w = tt
left-Within n hi (x ∷ xs) w = ground (arith, left-Within (n - (x.end - x.start)) hi xs w.1)

pub taken-Within : (n hi : ℕ) (xs : List Extent) → Within hi xs → Within hi (taken n xs)
unfolding taken
taken-Within n hi [] w = tt
taken-Within n hi (x ∷ xs) w = ground (arith, taken-Within (n - (x.end - x.start)) hi xs w.1)

pub taken-ordered :
    (n lo : ℕ) (xs : List Extent) → Sorted lo xs → All (λ x. x.start ≤ x.end) (taken n xs)
unfolding taken
taken-ordered n lo [] s = tt
taken-ordered n lo (x ∷ xs) s =
    ground (arith, taken-ordered (n - (x.end - x.start)) (suc x.end) xs s.2)

-- Sorted extents are not empty.
pub nil_of_total : (lo : ℕ) (xs : List Extent) → Sorted lo xs → total xs ≡ 0 → xs ≡ []
nil_of_total lo [] s e = refl
nil_of_total lo (x ∷ xs) s e = absurd (omega arith)
