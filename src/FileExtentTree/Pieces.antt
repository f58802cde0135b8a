-- ===== src/FileExtentTree/Pieces.antt =====
-- The map from a file's offsets to addresses that a list of extents is, and what erasing a range and
-- inserting an extent do to it.
use nvmfs.Prelude.{
  ℕ, ◌+◌, ◌-◌, ◌<◌, ◌≤◌, ◌≡◌, ◌⊎◌, ◌∙◌, ◌&&◌, Option, none, some, List, [], ◌∷◌, ◌++◌, All, ltb,
  leb, if◌then◌else◌, arith, u64_mod,
}
use nvmfs.RbTree.{Tree}
use nvmfs.FileExtentTree.{FileExtentNode, FileSpaceNode, extent_key, end_of, lookup_space}
use nvmfs.FileExtentTree.Order.{Ordered, All-map}

-- The address where the byte at offset `o` stands; none: it is a hole.
unfoldable pub translate : List FileExtentNode → ℕ → Option ℕ
translate [] o = none
translate (x ∷ xs) o =
    let rest = translate xs o in
    if leb x.file_start o && ltb o (x.file_start + x.size)
    then some (x.start + (o - x.file_start))
    else rest

-- The part of an extent before `start`, and the part from `end` on.
abbrev pub kept_before : ℕ → FileExtentNode → List FileExtentNode
kept_before start x =
    if leb start x.file_start
    then []
    else if leb (x.file_start + x.size) start
    then x ∷ []
    else record x { size = start - x.file_start } ∷ []

abbrev pub kept_behind : ℕ → FileExtentNode → List FileExtentNode
kept_behind end x =
    if leb (x.file_start + x.size) end
    then []
    else if leb end x.file_start
    then x ∷ []
    else record {
      start = x.start + (end - x.file_start);
      size = x.file_start + x.size - end;
      file_start = end;
    }
      ∷ []

abbrev pub pieces : ℕ → ℕ → FileExtentNode → List FileExtentNode
pieces start end x = kept_before start x ++ kept_behind end x

-- What is left of the extents outside a range.
abbrev pub erased : ℕ → ℕ → List FileExtentNode → List FileExtentNode
erased start end [] = []
erased start end (x ∷ xs) = pieces start end x ++ erased start end xs

-- An extent that is not empty, whose bounds are 64-bit numbers, and whose bytes stand in the spaces.
pub record IsExtent (spaces : Tree FileSpaceNode) (x : FileExtentNode) : Type 0 where
  pub positive : 0 < x.size
  pub file_fits : x.file_start + x.size < u64_mod
  pub fits : x.start + x.size < u64_mod
  pub covered :
      (a : ℕ)
      → x.start ≤ a
      → a < x.start + x.size
      → (s : FileSpaceNode) × (lookup_space spaces a ≡ some s)

abbrev pub Sorted : Tree FileSpaceNode → ℕ → List FileExtentNode → Type 0
Sorted spaces lo [] = Unit
Sorted spaces lo (x ∷ xs) =
    (lo ≤ x.file_start) × IsExtent spaces x × Sorted spaces (x.file_start + x.size) xs

pub Sorted-mono :
    (spaces : Tree FileSpaceNode) (lo hi : ℕ) (xs : List FileExtentNode)
    → lo ≤ hi
    → Sorted spaces hi xs
    → Sorted spaces lo xs
Sorted-mono spaces lo hi [] h s = tt
Sorted-mono spaces lo hi (x ∷ xs) h (l, v, s) = (omega arith, v, s)

pub Sorted-above :
    (spaces : Tree FileSpaceNode) (lo : ℕ) (xs : List FileExtentNode)
    → Sorted spaces lo xs
    → All (λ y. lo ≤ y.file_start) xs
Sorted-above spaces lo [] s = tt
Sorted-above spaces lo (x ∷ xs) (l, v, s) =
    (l, All-map xs (λ y h. omega arith) (Sorted-above spaces (x.file_start + x.size) xs s))

pub Sorted-Ordered :
    (spaces : Tree FileSpaceNode) (lo : ℕ) (xs : List FileExtentNode)
    → Sorted spaces lo xs
    → Ordered extent_key xs
Sorted-Ordered spaces lo [] s = tt
Sorted-Ordered spaces lo (x ∷ xs) (l, v, s) =
    let p = v.positive in
    (
      All-map xs (λ y h. omega arith) (Sorted-above spaces (x.file_start + x.size) xs s),
      Sorted-Ordered spaces (x.file_start + x.size) xs s,
    )

translate-pieces :
    (start end o : ℕ) (x : FileExtentNode) (ys : List FileExtentNode)
    → start < end
    → (start ≤ o → o < end → translate ys o ≡ none)
    → translate (pieces start end x ++ ys) o
      ≡ (if leb start o && ltb o end then none else translate (x ∷ ys) o)
unfolding translate
translate-pieces start end o x ys h n = ground arith

-- Of the erased extents, the map has no offset in the range, and all others as before.
pub translate-erased :
    (start end o : ℕ) (xs : List FileExtentNode)
    → start < end
    → translate (erased start end xs) o
      ≡ (if leb start o && ltb o end then none else translate xs o)
unfolding translate
translate-erased start end o [] h = ground arith
translate-erased start end o (x ∷ xs) h =
    let rest = translate-erased start end o xs h in
    let here = translate-pieces start end o x (erased start end xs) h (λ a b. ground arith) in
    here ∙ ground arith

-- No extent reaches into the range.
abbrev pub Clear : ℕ → ℕ → List FileExtentNode → Type 0
Clear start end = All λ y. (y.file_start + y.size ≤ start) ⊎ (end ≤ y.file_start)

pub end_of-eq :
    (x : FileExtentNode) → x.file_start + x.size < u64_mod → end_of x ≡ x.file_start + x.size
unfolding end_of
end_of-eq x h = omega arith
