-- ===== src/FileExtentTree/Seen.antt =====
-- What FileExtentTreeRead has put into the buffer once it has read some nodes.
use nvmfs.Prelude.{
  ℕ, ◌+◌, ◌-◌, ◌<◌, ◌≤◌, ◌≡◌, ◌⊎◌, refl, ap, ◌∙◌, inl, inr, true, false, ◌&&◌, some, List, [], ◌∷◌,
  ◌++◌, All, ltb, leb, ◌==◌, arith, lt_cases, u64_mod, add64, sub64, of_some, not_some, eq_cases,
  replicate,
}
use nvmfs.Memory.{Memory, load, store, store-outside, store-inside, get_or-load, length-load}
use nvmfs.RbTree.{Tree}
use nvmfs.FileExtentTree.{FileExtentNode, FileSpaceNode, fill_hole, read_node}
use nvmfs.FileExtentTree.Order.{All-split}
use nvmfs.FileExtentTree.Pieces.{IsExtent, Sorted, Sorted-above, translate}
use nvmfs.FileExtentTree.Part.{readable-Part}

-- The buffer holds the bytes of the mapped offsets of the range, all of which are before `last`.
abbrev pub Seen : Memory → ℕ → ℕ → List FileExtentNode → Memory → ℕ → Type 0
Seen m start end xs buffer last =
    (o addr : ℕ)
    → start ≤ o
    → o < end
    → translate xs o ≡ some addr
    → (o < last) × (buffer (o - start) ≡ m addr)

translate-cases :
    (xs : List FileExtentNode) (x : FileExtentNode) (o addr : ℕ)
    → translate (xs ++ (x ∷ [])) o ≡ some addr
    → (translate xs o ≡ some addr)
      ⊎ ((x.file_start ≤ o) × (o < x.file_start + x.size) × (x.start + (o - x.file_start) ≡ addr))
unfolding translate
translate-cases [] x o addr e = elim (lt_cases o x.file_start) [
  | inl a ↦
      let c : (leb x.file_start o && ltb o (x.file_start + x.size)) ≡ false = ground arith in
      absurd (not_some refl (rw c at e))
  | inr a ↦ elim (lt_cases o (x.file_start + x.size)) [
    | inl b ↦
        let c : (leb x.file_start o && ltb o (x.file_start + x.size)) ≡ true = ground arith in
        inr (a, b, of_some (rw c at e))
    | inr b ↦
        let c : (leb x.file_start o && ltb o (x.file_start + x.size)) ≡ false = ground arith in
        absurd (not_some refl (rw c at e))
  ]
]
translate-cases (y ∷ ys) x o addr e =
    let rest = translate-cases ys x o addr in
    elim (lt_cases o y.file_start) [
      | inl a ↦
          let c : (leb y.file_start o && ltb o (y.file_start + y.size)) ≡ false = ground arith in
          elim (rest (rw c at e)) [ inl p ↦ inl (rw c p) | inr q ↦ inr q ]
      | inr a ↦ elim (lt_cases o (y.file_start + y.size)) [
        | inl b ↦
            let c : (leb y.file_start o && ltb o (y.file_start + y.size)) ≡ true = ground arith in
            inl (rw c (rw c at e))
        | inr b ↦
            let c : (leb y.file_start o && ltb o (y.file_start + y.size)) ≡ false = ground arith in
            elim (rest (rw c at e)) [ inl p ↦ inl (rw c p) | inr q ↦ inr q ]
      ]
    ]

pub ends_before :
    (spaces : Tree FileSpaceNode) (lo : ℕ) (ls : List FileExtentNode) (x : FileExtentNode)
    (rs : List FileExtentNode)
    → Sorted spaces lo (ls ++ (x ∷ rs))
    → All (λ y. y.file_start + y.size ≤ x.file_start) ls
ends_before spaces lo [] x rs s = tt
ends_before spaces lo (y ∷ ls) x rs (l, v, s) =
    let above = Sorted-above spaces (y.file_start + y.size) (ls ++ (x ∷ rs)) s in
    let (_, (h, _)) = All-split (λ z. y.file_start + y.size ≤ z.file_start) ls (x ∷ rs) above in
    (h, ends_before spaces (y.file_start + y.size) ls x rs s)

pub translate-far :
    (k : ℕ) (ls : List FileExtentNode) (o addr : ℕ)
    → All (λ y. y.file_start + y.size ≤ k) ls
    → translate ls o ≡ some addr
    → o < k
unfolding translate
translate-far k [] o addr a e = absurd (not_some refl e)
translate-far k (y ∷ ls) o addr (h, a) e = elim (lt_cases o k) [
  | inl b ↦ b
  | inr b ↦
      let c : (leb y.file_start o && ltb o (y.file_start + y.size)) ≡ false = ground arith in
      translate-far k ls o addr a (rw c at e)
]

pub translate-above :
    (spaces : Tree FileSpaceNode) (lo : ℕ) (ls rs : List FileExtentNode) (o addr : ℕ)
    → Sorted spaces lo rs
    → o < lo
    → translate (ls ++ rs) o ≡ some addr
    → translate ls o ≡ some addr
unfolding translate
translate-above spaces lo [] [] o addr s h e = e
translate-above spaces lo [] (y ∷ rs) o addr (l, v, s) h e =
    let c : (leb y.file_start o && ltb o (y.file_start + y.size)) ≡ false = ground arith in
    translate-above spaces (y.file_start + y.size) [] rs o addr s (omega arith) (rw c at e)
translate-above spaces lo (y ∷ ls) rs o addr s h e = elim (lt_cases o y.file_start) [
  | inl a ↦
      let c : (leb y.file_start o && ltb o (y.file_start + y.size)) ≡ false = ground arith in
      rw c (translate-above spaces lo ls rs o addr s h (rw c at e))
  | inr a ↦ elim (lt_cases o (y.file_start + y.size)) [
    | inl b ↦
        let c : (leb y.file_start o && ltb o (y.file_start + y.size)) ≡ true = ground arith in
        rw c (rw c at e)
    | inr b ↦
        let c : (leb y.file_start o && ltb o (y.file_start + y.size)) ≡ false = ground arith in
        rw c (translate-above spaces lo ls rs o addr s h (rw c at e))
  ]
]

fill_hole-below :
    (buffer : Memory) (start last next o : ℕ)
    → o < sub64 next start
    → fill_hole buffer start last next o ≡ buffer o
unfolding fill_hole
fill_hole-below buffer start last next o h = elim (eq_cases last next) [
  | inl e ↦ let c : (last == next) ≡ true = ground arith in rw c refl
  | inr n ↦
      let c : (last == next) ≡ false = ground arith in
      rw c (store-outside buffer (sub64 next start) (replicate (sub64 next last) 0) o (inl h))
]

-- What has been read once the node has been.
pub read_node-Seen :
    (m : Memory) (start end : ℕ) (spaces : Tree FileSpaceNode) (ls : List FileExtentNode)
    (x : FileExtentNode) (buffer : Memory) (last : ℕ)
    → All (λ y. y.file_start + y.size ≤ x.file_start) ls
    → IsExtent spaces x
    → start < end
    → end < u64_mod
    → start < x.file_start + x.size
    → x.file_start < end
    → Seen m start end ls buffer last
    → (let r = read_node m start end buffer last x in Seen m start end (ls ++ (x ∷ [])) r.0 r.1)
unfolding read_node fill_hole
read_node-Seen m start end spaces ls x buffer last far v range u reaches starts seen o addr h k e =
    let p = readable-Part spaces start end x v range u reaches starts in
    let f = v.file_fits in
    let g = v.fits in
    let a = p.after_start in
    let b = p.in_node in
    let c = p.some_bytes in
    let d = p.to_end in
    let w = p.to_node_end in
    let n : sub64 (x.start + (p.last - x.file_start)) (x.start + (p.first - x.file_start))
        ≡ p.last - p.first =
      omega arith in
    let pos = sub64 p.first start in
    let at : pos ≡ p.first - start = omega arith in
    let top : add64 p.first (p.last - p.first) ≡ p.last = omega arith in
    let hole = fill_hole buffer start last p.first in
    let bytes = load m (x.start + (p.first - x.file_start)) (p.last - p.first) in
    let len = length-load m (x.start + (p.first - x.file_start)) (p.last - p.first) in
    let claim : (o < p.last) × (store hole pos bytes (o - start) ≡ m addr) =
      elim (translate-cases ls x o addr e) [
        | inl t ↦
            let low = translate-far x.file_start ls o addr far t in
            (
              omega arith,
              store-outside hole pos bytes (o - start) (inl (omega arith))
                  ∙ fill_hole-below buffer start last p.first (o - start) (omega arith)
                  ∙ (seen o addr h k t).1,
            )
        | inr (i, j, q) ↦
            let (low, high) = p.all o h k i j in
            let off : o - start ≡ pos + (o - p.first) = omega arith in
            let from : x.start + (p.first - x.file_start) + (o - p.first) ≡ addr = omega arith in
            (
              high,
              ap (store hole pos bytes) off
                  ∙ store-inside hole pos bytes (o - p.first) (omega arith)
                  ∙ get_or-load m (x.start + (p.first - x.file_start)) (p.last - p.first)
                      (o - p.first) (omega arith)
                  ∙ ap m from,
            )
      ] in
    rw (p.is_readable, n, top) claim

pub read_node-last :
    (m : Memory) (start end : ℕ) (spaces : Tree FileSpaceNode) (x : FileExtentNode)
    (buffer : Memory) (last : ℕ)
    → IsExtent spaces x
    → start < end
    → end < u64_mod
    → start < x.file_start + x.size
    → x.file_start < end
    → (read_node m start end buffer last x).1 ≤ end
unfolding read_node
read_node-last m start end spaces x buffer last v range u reaches starts =
    let p = readable-Part spaces start end x v range u reaches starts in
    let f = v.file_fits in
    let g = v.fits in
    let b = p.in_node in
    let c = p.some_bytes in
    let d = p.to_end in
    let w = p.to_node_end in
    let n : sub64 (x.start + (p.last - x.file_start)) (x.start + (p.first - x.file_start))
        ≡ p.last - p.first =
      omega arith in
    let top : add64 p.first (p.last - p.first) ≡ p.last = omega arith in
    rw (p.is_readable, n, top) d

-- An extent that ends before the range adds nothing to it.
pub Seen-skip :
    (m : Memory) (start end : ℕ) (ls : List FileExtentNode) (x : FileExtentNode) (buffer : Memory)
    (last : ℕ)
    → x.file_start + x.size ≤ start
    → Seen m start end ls buffer last
    → Seen m start end (ls ++ (x ∷ [])) buffer last
Seen-skip m start end ls x buffer last far seen o addr h k e =
    elim (translate-cases ls x o addr e) [
      | inl t ↦ seen o addr h k t
      | inr (i, j, q) ↦ absurd (omega arith)
    ]
