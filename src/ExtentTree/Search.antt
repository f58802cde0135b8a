-- ===== src/ExtentTree/Search.antt =====
-- ExtentTreeLowerBound finds the last extent that starts at or before an address.
use nvmfs.Prelude.{
  ℕ, suc, ◌≤◌, ◌<◌, ◌≡◌, refl, Option, none, some, List, [], ◌∷◌, ◌++◌, ltb, if◌then◌else◌, arith,
}
use nvmfs.RbTree.{leaf, node, to_list}
use nvmfs.ExtentContainer.{Extent}
use nvmfs.ExtentTree.{ExtentTree, lower_bound, lower_bound_from, is_addr_in_extent}
use nvmfs.ExtentTree.Order.{Sorted, middle_lo, middle_left, middle_right}

-- The same search on the extents in order.
unfoldable pub last_from : ℕ → Option Extent → List Extent → Option Extent
last_from addr best [] = best
last_from addr best (x ∷ xs) =
    let rest = last_from addr (some x) xs in if ltb addr x.start then best else rest

last_from_above :
    (addr lo : ℕ) (best : Option Extent) (xs : List Extent)
    → addr < lo
    → Sorted lo xs
    → last_from addr best xs ≡ best
unfolding last_from
last_from_above addr lo best [] h s = refl
last_from_above addr lo best (x ∷ xs) h s = ground arith

last_from-append_lt :
    (addr : ℕ) (best : Option Extent) (ls : List Extent) (x : Extent) (rs : List Extent)
    → addr < x.start
    → last_from addr best (ls ++ x ∷ rs) ≡ last_from addr best ls
unfolding last_from
last_from-append_lt addr best [] x rs h = ground arith
last_from-append_lt addr best (y ∷ ls) x rs h =
    ground (arith, last_from-append_lt addr (some y) ls x rs h)

pub last_from-append_ge :
    (addr lo : ℕ) (best : Option Extent) (ls : List Extent) (x : Extent) (rs : List Extent)
    → Sorted lo (ls ++ x ∷ rs)
    → x.start ≤ addr
    → last_from addr best (ls ++ x ∷ rs) ≡ last_from addr (some x) rs
unfolding last_from
last_from-append_ge addr lo best [] x rs s h = ground arith
last_from-append_ge addr lo best (y ∷ ls) x rs s h = ground (
  arith,
  last_from-append_ge addr (suc y.end) (some y) ls x rs s.2 h,
  middle_lo (suc y.end) ls x rs s.2,
)

lower_bound_from_lem :
    (addr lo : ℕ) (best : Option Extent) (t : ExtentTree)
    → Sorted lo (to_list t)
    → lower_bound_from addr best t ≡ last_from addr best (to_list t)
unfolding lower_bound_from last_from is_addr_in_extent
lower_bound_from_lem addr lo best leaf s = refl
lower_bound_from_lem addr lo best (node l x r) s = ground (
  arith,
  lower_bound_from_lem addr lo best l (middle_left lo (to_list l) (x ∷ to_list r) s),
  lower_bound_from_lem addr (suc x.end) (some x) r (middle_right lo (to_list l) x (to_list r) s).1,
  last_from-append_lt addr best (to_list l) x (to_list r),
  last_from-append_ge addr lo best (to_list l) x (to_list r) s,
  last_from_above addr (suc x.end) (some x) (to_list r),
  (middle_right lo (to_list l) x (to_list r) s).1,
)

pub lower_bound_lem :
    (addr : ℕ) (t : ExtentTree)
    → Sorted 0 (to_list t)
    → lower_bound t addr ≡ last_from addr none (to_list t)
unfolding lower_bound
lower_bound_lem addr t s = lower_bound_from_lem addr 0 none t s
