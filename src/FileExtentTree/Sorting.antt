-- ===== src/FileExtentTree/Sorting.antt =====
-- The extents that are left of a sorted list, and one more, are sorted.
use nvmfs.Prelude.{
  ℕ, ◌+◌, ◌-◌, ◌<◌, ◌≤◌, ◌≡◌, ◌⊎◌, refl, sym, inl, inr, true, false, none, List, [], ◌∷◌, ◌++◌, ltb,
  leb, arith, lt_cases, subst,
}
use nvmfs.RbTree.{Tree}
use nvmfs.FileExtentTree.{FileExtentNode, FileSpaceNode, extent_key}
use nvmfs.FileExtentTree.Order.{insert_by}
use nvmfs.FileExtentTree.Pieces.{
  translate, kept_behind, pieces, erased, IsExtent, Sorted, Sorted-mono, Clear,
}

IsExtent-part :
    (spaces : Tree FileSpaceNode) (x : FileExtentNode) (d n : ℕ)
    → IsExtent spaces x
    → 0 < n
    → d + n ≤ x.size
    → IsExtent spaces (record { start = x.start + d; size = n; file_start = x.file_start + d })
IsExtent-part spaces x d n v p h =
    let f = v.file_fits in
    let g = v.fits in
    record {
      positive = p;
      file_fits = omega arith;
      fits = omega arith;
      covered = λ a l u. v.covered a (omega arith) (omega arith);
    }

IsExtent-first :
    (spaces : Tree FileSpaceNode) (x : FileExtentNode) (n : ℕ)
    → IsExtent spaces x
    → 0 < n
    → n ≤ x.size
    → IsExtent spaces (record x { size = n })
IsExtent-first spaces x n v p h =
    let f = v.file_fits in
    let g = v.fits in
    record {
      positive = p;
      file_fits = omega arith;
      fits = omega arith;
      covered = λ a l u. v.covered a l (omega arith);
    }

IsExtent-last :
    (spaces : Tree FileSpaceNode) (x : FileExtentNode) (end : ℕ)
    → IsExtent spaces x
    → x.file_start ≤ end
    → end < x.file_start + x.size
    → IsExtent spaces (record {
      start = x.start + (end - x.file_start);
      size = x.file_start + x.size - end;
      file_start = end;
    })
IsExtent-last spaces x end v p h =
    let d = end - x.file_start in
    let e : x.file_start + d ≡ end = omega arith in
    let n : x.size - d ≡ x.file_start + x.size - end = omega arith in
    subst
      (λ k.
        IsExtent spaces
          (record { start = x.start + d; size = x.file_start + x.size - end; file_start = k }))
      e
      (subst
        (λ k.
          IsExtent spaces (record { start = x.start + d; size = k; file_start = x.file_start + d }))
        n (IsExtent-part spaces x d (x.size - d) v (omega arith) (omega arith)))

kept_behind-Sorted :
    (spaces : Tree FileSpaceNode) (lo end : ℕ) (x : FileExtentNode) (ys : List FileExtentNode)
    → IsExtent spaces x
    → (lo ≤ x.file_start) ⊎ ((x.file_start < end) × (lo ≤ end))
    → Sorted spaces (x.file_start + x.size) ys
    → lo ≤ x.file_start + x.size
    → Sorted spaces lo (kept_behind end x ++ ys)
kept_behind-Sorted spaces lo end x ys v k s j = elim (lt_cases end (x.file_start + x.size)) [
  | inr a ↦
      let e : leb (x.file_start + x.size) end ≡ true = ground arith in
      rw e (Sorted-mono spaces lo (x.file_start + x.size) ys j s)
  | inl a ↦
      let e : leb (x.file_start + x.size) end ≡ false = ground arith in
      elim (lt_cases x.file_start end) [
        | inr b ↦
            let f : leb end x.file_start ≡ true = ground arith in
            rw (e, f) (elim k [ inl c ↦ c | inr (c, d) ↦ omega arith ], v, s)
        | inl b ↦
            let f : leb end x.file_start ≡ false = ground arith in
            let g : end + (x.file_start + x.size - end) ≡ x.file_start + x.size = omega arith in
            rw (e, f)
              (
                elim k [ inl c ↦ omega arith | inr (c, d) ↦ d ],
                IsExtent-last spaces x end v (omega arith) a,
                subst (λ k. Sorted spaces k ys) (sym g) s,
              )
      ]
]

pieces-Sorted :
    (spaces : Tree FileSpaceNode) (lo start end : ℕ) (x : FileExtentNode) (ys : List FileExtentNode)
    → start < end
    → lo ≤ x.file_start
    → IsExtent spaces x
    → Sorted spaces (x.file_start + x.size) ys
    → Sorted spaces lo (pieces start end x ++ ys)
pieces-Sorted spaces lo start end x ys h l v s = elim (lt_cases x.file_start start) [
  | inr a ↦
      let e : leb start x.file_start ≡ true = ground arith in
      rw e (
        Sorted-mono spaces lo x.file_start (kept_behind end x ++ ys) l
          (kept_behind-Sorted spaces x.file_start end x ys v (inl (omega arith)) s (omega arith)))
  | inl a ↦
      let e : leb start x.file_start ≡ false = ground arith in
      elim (lt_cases start (x.file_start + x.size)) [
        | inr b ↦
            let f : leb (x.file_start + x.size) start ≡ true = ground arith in
            rw (e, f)
              (
                l,
                v,
                kept_behind-Sorted spaces (x.file_start + x.size) end x ys v
                    (inr (omega arith, omega arith)) s (omega arith),
              )
        | inl b ↦
            let f : leb (x.file_start + x.size) start ≡ false = ground arith in
            let g : x.file_start + (start - x.file_start) ≡ start = omega arith in
            rw (e, f)
              (
                l,
                IsExtent-first spaces x (start - x.file_start) v (omega arith) (omega arith),
                subst (λ k. Sorted spaces k (kept_behind end x ++ ys)) (sym g)
                    (kept_behind-Sorted spaces start end x ys v (inr (omega arith, omega arith)) s
                      (omega arith)),
              )
      ]
]

pub erased-Sorted :
    (spaces : Tree FileSpaceNode) (lo start end : ℕ) (xs : List FileExtentNode)
    → start < end
    → Sorted spaces lo xs
    → Sorted spaces lo (erased start end xs)
erased-Sorted spaces lo start end [] h s = tt
erased-Sorted spaces lo start end (x ∷ xs) h (l, v, s) =
    pieces-Sorted spaces lo start end x (erased start end xs) h l v
      (erased-Sorted spaces (x.file_start + x.size) start end xs h s)

-- The same at the end of a list.
pub Sorted-replace :
    (spaces : Tree FileSpaceNode) (lo start end : ℕ) (ls : List FileExtentNode) (x : FileExtentNode)
    (rs : List FileExtentNode)
    → start < end
    → Sorted spaces lo (ls ++ (x ∷ rs))
    → Sorted spaces lo (ls ++ (pieces start end x ++ rs))
Sorted-replace spaces lo start end [] x rs h (l, v, s) =
    pieces-Sorted spaces lo start end x rs h l v s
Sorted-replace spaces lo start end (y ∷ ls) x rs h (l, v, s) =
    (l, v, Sorted-replace spaces (y.file_start + y.size) start end ls x rs h s)

pieces-Clear :
    (start end : ℕ) (x : FileExtentNode) (ys : List FileExtentNode)
    → start < end
    → Clear start end ys
    → Clear start end (pieces start end x ++ ys)
pieces-Clear start end x ys h c = elim (lt_cases x.file_start start) [
  | inr a ↦ ground arith
  | inl a ↦ ground arith
]

pub erased-Clear :
    (start end : ℕ) (xs : List FileExtentNode) → start < end → Clear start end (erased start end xs)
erased-Clear start end [] h = tt
erased-Clear start end (x ∷ xs) h =
    pieces-Clear start end x (erased start end xs) h (erased-Clear start end xs h)

pub insert_by-Sorted :
    (spaces : Tree FileSpaceNode) (lo : ℕ) (n : FileExtentNode) (xs : List FileExtentNode)
    → lo ≤ n.file_start
    → IsExtent spaces n
    → Clear n.file_start (n.file_start + n.size) xs
    → Sorted spaces lo xs
    → Sorted spaces lo (insert_by extent_key n xs)
unfolding insert_by
insert_by-Sorted spaces lo n [] h v c s = (h, v, tt)
insert_by-Sorted spaces lo n (x ∷ xs) h v (c, cs) (l, w, s) =
    let p = w.positive in
    let q = v.positive in
    elim (lt_cases n.file_start x.file_start) [
      | inl a ↦
          let e : ltb n.file_start x.file_start ≡ true = ground arith in
          rw e (h, v, (elim c [ inl b ↦ absurd (omega arith) | inr b ↦ b ], w, s))
      | inr a ↦
          let e : ltb n.file_start x.file_start ≡ false = ground arith in
          rw e (
            l,
            w,
            insert_by-Sorted spaces (x.file_start + x.size) n xs
                (elim c [ inl b ↦ b | inr b ↦ absurd (omega arith) ]) v cs s,
          )
    ]

pub translate-insert_by :
    (n : FileExtentNode) (xs : List FileExtentNode) (o : ℕ)
    → (n.file_start ≤ o → o < n.file_start + n.size → translate xs o ≡ none)
    → translate (insert_by extent_key n xs) o ≡ translate (n ∷ xs) o
unfolding translate insert_by
translate-insert_by n [] o h = refl
translate-insert_by n (x ∷ xs) o h = let rest = translate-insert_by n xs o in ground arith
