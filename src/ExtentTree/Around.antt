-- ===== src/ExtentTree/Around.antt =====
-- A range among sorted extents that are disjoint from it: where it belongs, and what the list
-- operations do past the extents before it.
use nvmfs.Prelude.{
  ℕ, suc, ◌≤◌, ◌<◌, ◌≡◌, ◌≢◌, refl, ◌∙◌, ap, Option, List, [], ◌∷◌, ◌++◌, inl, inr, All, head?,
  arith,
}
use nvmfs.RbTree.{remove, modify, after}
use nvmfs.ExtentContainer.{Extent, key}
use nvmfs.ExtentTree.Order.{Sorted, Disjoint, Before, insert_merge, middle-Before, middle_right}
use nvmfs.ExtentTree.Search.{last_from}
use nvmfs.ExtentTree.Edit.{insert_start, Sorted-remove, Absent}

-- The neighbours of [start, end) among sorted extents that are disjoint from it.
abbrev pub Ahead : ℕ → List Extent → Type 0
Ahead end = All λ y. end ≤ y.start

pub data Place (start end : ℕ) (xs : List Extent) : Type 0 where
  front : Ahead end xs → Place start end xs
  behind :
      (ls : List Extent) (p : Extent) (rs : List Extent)
      → xs ≡ ls ++ p ∷ rs
      → p.end ≤ start
      → Ahead end rs
      → Place start end xs

pub Ahead-of_Sorted : (end lo : ℕ) (xs : List Extent) → end ≤ lo → Sorted lo xs → Ahead end xs
Ahead-of_Sorted end lo [] h s = tt
Ahead-of_Sorted end lo (x ∷ xs) h s =
    (omega arith, Ahead-of_Sorted end (suc x.end) xs (omega arith) s.2)

pub place :
    (start end lo : ℕ) (xs : List Extent)
    → Sorted lo xs
    → Disjoint start end xs
    → Place start end xs
place start end lo [] s d = front tt
place start end lo (x ∷ xs) s (inl h, d) =
    front (h, Ahead-of_Sorted end (suc x.end) xs (omega arith) s.2)
place start end lo (x ∷ xs) s (inr h, d) = elim (place start end (suc x.end) xs s.2 d) [
  | front a ↦ behind [] x xs refl h a
  | behind ls p rs e g a ↦ behind (x ∷ ls) p rs (ap (◌∷◌ x) e) g a
]

-- Going past the extents before `p`.
module _ (p : Extent) (rs : List Extent) where
  pub after-past :
      (k : ℕ) (ls : List Extent) → Absent k ls → p.start ≡ k → after key k (ls ++ p ∷ rs) ≡ head? rs
  after-past k [] a e = ground arith
  after-past k (x ∷ ls) a e = ground (arith, after-past k ls a.1 e)

  pub remove-past :
      (k : ℕ) (ls : List Extent)
      → Absent k ls
      → p.start ≢ k
      → remove key k (ls ++ p ∷ rs) ≡ ls ++ p ∷ remove key k rs
  remove-past k [] a e = ground arith
  remove-past k (x ∷ ls) a e = ground (arith, remove-past k ls a.1 e)

pub modify-Absent :
    (k : ℕ) (f : Extent → Extent) (xs : List Extent) → Absent k xs → modify key k f xs ≡ xs
modify-Absent k f [] a = refl
modify-Absent k f (x ∷ xs) a = ground (arith, modify-Absent k f xs a.1)

pub modify-past :
    (k : ℕ) (f : Extent → Extent) (ls : List Extent) (p : Extent) (rs : List Extent)
    → Absent k ls
    → p.start ≡ k
    → Absent k rs
    → modify key k f (ls ++ p ∷ rs) ≡ ls ++ f p ∷ rs
modify-past k f [] p rs a e b = ground (arith, modify-Absent k f rs b)
modify-past k f (x ∷ ls) p rs a e b = ground (arith, modify-past k f ls p rs a.1 e b)

pub Before-mono : (k m : ℕ) (ls : List Extent) → k ≤ m → Before k ls → Before m ls
Before-mono k m [] h b = tt
Before-mono k m (x ∷ ls) h b = (omega arith, Before-mono k m ls h b.1)

pub insert_merge-past :
    (start end k : ℕ) (ls : List Extent) (rest : List Extent)
    → Before k ls
    → k ≤ start
    → start < end
    → insert_merge start end (ls ++ rest) ≡ ls ++ insert_merge start end rest
unfolding insert_merge
insert_merge-past start end k [] rest b h l = refl
insert_merge-past start end k (x ∷ ls) rest b h l =
    ground (arith, insert_merge-past start end k ls rest b.1 h l)

pub Absent-of_Before : (k : ℕ) (ls : List Extent) → Before k ls → Absent k ls
Absent-of_Before k [] b = tt
Absent-of_Before k (x ∷ ls) b = ((λ e. omega arith), Absent-of_Before k ls b.1)

pub Absent-of_Sorted : (k lo : ℕ) (xs : List Extent) → k < lo → Sorted lo xs → Absent k xs
Absent-of_Sorted k lo [] h s = tt
Absent-of_Sorted k lo (x ∷ xs) h s =
    ((λ e. omega arith), Absent-of_Sorted k (suc x.end) xs (omega arith) s.2)

pub Absent-of_Disjoint :
    (start end lo : ℕ) (xs : List Extent)
    → start < end
    → Sorted lo xs
    → Disjoint start end xs
    → Absent start xs
Absent-of_Disjoint start end lo [] h s d = tt
Absent-of_Disjoint start end lo (x ∷ xs) h s d =
    ((λ e. omega arith), Absent-of_Disjoint start end (suc x.end) xs h s.2 d.1)

pub last_from-Ahead :
    (start end : ℕ) (best : Option Extent) (rs : List Extent)
    → start < end
    → Ahead end rs
    → last_from start best rs ≡ best
unfolding last_from
last_from-Ahead start end best [] h a = refl
last_from-Ahead start end best (x ∷ rs) h a = ground arith

pub insert_start-Ahead :
    (end : ℕ) (x : Extent) (xs : List Extent)
    → x.start < end
    → Ahead end xs
    → insert_start x xs ≡ x ∷ xs
unfolding insert_start
insert_start-Ahead end x [] h a = refl
insert_start-Ahead end x (y ∷ ys) h a = ground arith

pub remove_head : (n : Extent) (ns : List Extent) → remove key n.start (n ∷ ns) ≡ ns
remove_head n ns = ground arith

pub insert_merge-Ahead :
    (start end : ℕ) (xs : List Extent)
    → start < end
    → All (λ y. end < y.start) xs
    → insert_merge start end xs ≡ record { start = start; end = end } ∷ xs
unfolding insert_merge
insert_merge-Ahead start end [] h a = refl
insert_merge-Ahead start end (x ∷ xs) h a = ground arith

pub strictly_Ahead :
    (k lo : ℕ) (xs : List Extent) → k < lo → Sorted lo xs → All (λ y. k < y.start) xs
strictly_Ahead k lo [] h s = tt
strictly_Ahead k lo (x ∷ xs) h s = (omega arith, strictly_Ahead k (suc x.end) xs (omega arith) s.2)

-- Writing the end of `p` where it stands.
pub modify_end :
    (end : ℕ) (ls : List Extent) (p : Extent) (rs : List Extent)
    → Sorted 0 (ls ++ p ∷ rs)
    → modify key p.start (λ x. record x { end = end }) (ls ++ p ∷ rs)
      ≡ ls ++ record p { end = end } ∷ rs
modify_end end ls p rs s =
    let (order, later) = middle_right 0 ls p rs s in
    modify-past p.start (λ x. record x { end = end }) ls p rs
      (Absent-of_Before p.start ls (middle-Before 0 ls p rs s)) refl
      (Absent-of_Sorted p.start (suc p.end) rs (omega arith) later)

-- Taking out the extent behind `p`.
pub remove_next :
    (ls : List Extent) (p n : Extent) (rs : List Extent)
    → Sorted 0 (ls ++ p ∷ n ∷ rs)
    → remove key n.start (ls ++ p ∷ n ∷ rs) ≡ ls ++ p ∷ rs
remove_next ls p n rs s =
    let (order, later) = middle_right 0 ls p (n ∷ rs) s in
    remove-past p (n ∷ rs) n.start ls
      (Absent-of_Before n.start ls
        (Before-mono p.start n.start ls (omega arith) (middle-Before 0 ls p (n ∷ rs) s)))
      (omega arith)
    ∙ ap (λ k. ls ++ p ∷ k) (remove_head n rs)

pub Sorted-remove_next :
    (ls : List Extent) (p n : Extent) (rs : List Extent)
    → Sorted 0 (ls ++ p ∷ n ∷ rs)
    → Sorted 0 (ls ++ p ∷ rs)
Sorted-remove_next ls p n rs s =
    rw (← remove_next ls p n rs s) (Sorted-remove n.start 0 (ls ++ p ∷ n ∷ rs) s)
