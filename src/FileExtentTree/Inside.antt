-- ===== src/FileExtentTree/Inside.antt =====
-- FileExtentTreeRead and the end of the caller's buffer: where each hole is no longer than what is left
-- of the range behind it, nothing is written behind the buffer.
use nvmfs.Prelude.{
  ℕ, ◌+◌, ◌-◌, ◌<◌, ◌≤◌, ◌≡◌, ◌⊎◌, refl, ◌∙◌, inl, inr, true, false, List, [], ◌∷◌, ◌++◌, All, ◌==◌,
  arith, lt_cases, eq_cases, u64_mod, add64, sub64, length, replicate, length-replicate,
}
use nvmfs.Memory.{Memory, load, store-outside, length-load}
use nvmfs.RbTree.{Tree}
use nvmfs.FileExtentTree.{FileExtentNode, FileSpaceNode, fill_hole, read_node}
use nvmfs.FileExtentTree.Pieces.{IsExtent, Sorted}
use nvmfs.FileExtentTree.Part.{Part, readable-Part}

-- Before each extent that starts inside the range, the hole behind the extent before it (which ends at
-- `bound`), or behind the range's start, is no longer than the rest of the range.
abbrev pub HolesFit : ℕ → ℕ → ℕ → List FileExtentNode → Type 0
HolesFit start end bound [] = Unit
HolesFit start end bound (x ∷ xs) =
    (start < x.file_start
      → x.file_start < end
      → (x.file_start - start ≤ end - x.file_start) ⊎ (x.file_start - bound ≤ end - x.file_start))
    × HolesFit start end (x.file_start + x.size) xs

-- Where `last` stands between the extents that have been read and those to come.
pub record IsAt (start end bound last : ℕ) : Type 0 where
  pub low : start ≤ last
  pub reached : last < end → bound ≤ last
  pub ahead : start < last → last ≤ bound

-- The extents that end before the range.
pub record Left (spaces : Tree FileSpaceNode) (start end : ℕ) (rs : List FileExtentNode)
    : Type 0 where
  pub bound : ℕ
  pub below : bound ≤ start
  pub sorted : Sorted spaces bound rs
  pub fits : HolesFit start end bound rs

pub Left-of_far :
    (spaces : Tree FileSpaceNode) (start end bound : ℕ) (ls rs : List FileExtentNode)
    → bound ≤ start
    → All (λ y. y.file_start + y.size ≤ start) ls
    → Sorted spaces bound (ls ++ rs)
    → HolesFit start end bound (ls ++ rs)
    → Left spaces start end rs
Left-of_far spaces start end bound [] rs b a s h = record {
  bound = bound;
  below = b;
  sorted = s;
  fits = h;
}
Left-of_far spaces start end bound (y ∷ ls) rs b (f, a) (l, v, s) (g, h) =
    Left-of_far spaces start end (y.file_start + y.size) ls rs f a s h

module _ (m : Memory) (start end bound : ℕ) (spaces : Tree FileSpaceNode) (x : FileExtentNode)
    (buffer : Memory) (last : ℕ) (v : IsExtent spaces x) (range : start < end) (u : end < u64_mod)
    (reaches : start < x.file_start + x.size) (starts : x.file_start < end)
    (above : bound ≤ x.file_start) (at : IsAt start end bound last) where
  part : Part start end x
  part = readable-Part spaces start end x v range u reaches starts

  first_lem :
      ((x.file_start ≤ start) × (part.first ≡ start))
      ⊎ ((start < x.file_start) × (part.first ≡ x.file_start))
  first_lem =
      let p = part in
      let a = p.after_start in
      let b = p.in_node in
      elim (lt_cases start x.file_start) [
        | inl l ↦
            let (f, g) = p.all x.file_start (omega arith) starts (omega arith) (omega arith) in
            inr (l, omega arith)
        | inr h ↦ let (f, g) = p.all start (omega arith) range h reaches in inl (h, omega arith)
      ]

  last_lem : part.last < end → x.file_start + x.size ≤ part.last
  last_lem h =
      let p = part in
      let a = p.after_start in
      let b = p.in_node in
      let c = p.some_bytes in
      elim (lt_cases p.last (x.file_start + x.size)) [
        | inl l ↦ let (f, g) = p.all p.last (omega arith) h (omega arith) l in absurd (omega arith)
        | inr k ↦ k
      ]

  next_last : (read_node m start end buffer last x).1 ≡ part.last
  unfolding read_node
  next_last =
      let p = part in
      let f = v.file_fits in
      let g = v.fits in
      let b = p.in_node in
      let c = p.some_bytes in
      let d = p.to_end in
      let w = p.to_node_end in
      let n : sub64 (x.start + (p.last - x.file_start)) (x.start + (p.first - x.file_start))
          ≡ p.last - p.first =
        omega arith in
      let top : add64 p.first (p.last - p.first) ≡ p.last = omega arith in rw (p.is_readable, n) top

  pub read_node-IsAt :
      IsAt start end (x.file_start + x.size) (read_node m start end buffer last x).1
  read_node-IsAt =
      let p = part in
      let a = p.after_start in
      let c = p.some_bytes in
      let d = p.to_node_end in
      let l = last_lem in rw next_last (record { low = omega arith; reached = l; ahead = λ h. d })

  module _
      (fit : start < x.file_start
        → x.file_start < end
        → (x.file_start - start ≤ end - x.file_start)
          ⊎ (x.file_start - bound ≤ end - x.file_start)) where
    -- The hole that is cleared before the extent, if there is one, ends inside the buffer.
    hole_inside :
        (last ≡ part.first) ⊎ (sub64 part.first start + sub64 part.first last ≤ end - start)
    hole_inside =
        let p = part in
        let c = p.some_bytes in
        let d = p.to_end in
        let low = at.low in
        let reached = at.reached in
        let ahead = at.ahead in
        elim first_lem [
          | inl (h, e) ↦ elim (lt_cases start last) [
            | inl l ↦ let k = ahead l in absurd (omega arith)
            | inr k ↦ inl (omega arith)
          ]
          | inr (h, e) ↦
              let order : last ≤ x.file_start = elim (lt_cases start last) [
                | inl l ↦ let k = ahead l in omega arith
                | inr k ↦ omega arith
              ] in
              let k = reached (omega arith) in
              inr (elim (fit h starts) [ inl f ↦ omega arith | inr f ↦ omega arith ])
        ]

    pub read_node-inside :
        (k : ℕ) → end - start ≤ k → (read_node m start end buffer last x).0 k ≡ buffer k
    unfolding read_node fill_hole
    read_node-inside k h =
        let p = part in
        let f = v.file_fits in
        let g = v.fits in
        let a = p.after_start in
        let b = p.in_node in
        let c = p.some_bytes in
        let d = p.to_end in
        let w = p.to_node_end in
        let n : sub64 (x.start + (p.last - x.file_start)) (x.start + (p.first - x.file_start))
            ≡ p.last - p.first =
          omega arith in
        let pos = sub64 p.first start in
        let bytes = load m (x.start + (p.first - x.file_start)) (p.last - p.first) in
        let len = length-load m (x.start + (p.first - x.file_start)) (p.last - p.first) in
        let hole = fill_hole buffer start last p.first in
        let kept : hole k ≡ buffer k = elim (eq_cases last p.first) [
          | inl e ↦ let t : (last == p.first) ≡ true = ground arith in rw t refl
          | inr ne ↦
              let t : (last == p.first) ≡ false = ground arith in
              let zeros : List ℕ = replicate (sub64 p.first last) 0 in
              let z : length zeros ≡ sub64 p.first last = length-replicate (sub64 p.first last) 0 in
              rw t (
                store-outside buffer pos zeros k
                  (inr (elim hole_inside [ inl e ↦ absurd (ne e) | inr q ↦ omega arith ])))
        ] in
        rw (p.is_readable, n) (store-outside hole pos bytes k (inr (omega arith)) ∙ kept)
