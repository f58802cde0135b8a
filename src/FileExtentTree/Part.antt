-- ===== src/FileExtentTree/Part.antt =====
-- Which part of a node FileExtentTreeRead reads.
use nvmfs.Prelude.{
  ℕ, ◌+◌, ◌-◌, ◌<◌, ◌≤◌, ◌≡◌, refl, ap, inl, inr, true, false, ◌&&◌, leb, arith, lt_cases, u64_mod,
  add64, sub64,
}
use nvmfs.RbTree.{Tree}
use nvmfs.FileExtentTree.{FileExtentNode, FileSpaceNode, end_of, readable}
use nvmfs.FileExtentTree.Pieces.{IsExtent}

-- The part of the node that is read: offsets of the file from `first` to `last`.
pub record Part (start end : ℕ) (x : FileExtentNode) : Type 0 where
  pub first : ℕ
  pub last : ℕ
  pub is_readable :
      readable start end x
      ≡ (x.start + (first - x.file_start), x.start + (last - x.file_start), first)
  pub after_start : start ≤ first
  pub in_node : x.file_start ≤ first
  pub some_bytes : first < last
  pub to_end : last ≤ end
  pub to_node_end : last ≤ x.file_start + x.size
  pub all :
      (o : ℕ)
      → start ≤ o
      → o < end
      → x.file_start ≤ o
      → o < x.file_start + x.size
      → (first ≤ o) × (o < last)

module _ (spaces : Tree FileSpaceNode) (start end : ℕ) (x : FileExtentNode) (v : IsExtent spaces x)
    (range : start < end) (fits : end < u64_mod) (reaches : start < x.file_start + x.size)
    (starts : x.file_start < end) where
  pub is_end : end_of x ≡ x.file_start + x.size
  unfolding end_of
  is_end = let f = v.file_fits in omega arith

  pub readable-Part : Part start end x
  unfolding readable
  readable-Part =
      let f = v.file_fits in
      let g = v.fits in
      let e = is_end in
      let from : start < x.file_start + x.size
          → x.file_start ≤ start
          → add64 x.start (sub64 start x.file_start) ≡ x.start + (start - x.file_start) =
        λ h k. omega arith in
      let whole : add64 x.start x.size ≡ x.start + (x.file_start + x.size - x.file_start) =
        omega arith in
      let own : x.start ≡ x.start + (x.file_start - x.file_start) = omega arith in
      let to : end ≤ x.file_start + x.size
          → add64 x.start (sub64 end x.file_start) ≡ x.start + (end - x.file_start) =
        λ h. omega arith in
      elim (lt_cases start x.file_start) [
        | inr a ↦ elim (lt_cases end (x.file_start + x.size)) [
          | inr b ↦
              let c : (leb x.file_start start && (leb start (end_of x) && leb (end_of x) end))
                  ≡ true =
                ground arith in
              record {
                first = start;
                last = x.file_start + x.size;
                is_readable = rw (c, from reaches a, whole) refl;
                after_start = omega arith;
                in_node = a;
                some_bytes = reaches;
                to_end = b;
                to_node_end = omega arith;
                all = λ o h i j k. (h, k);
              }
          | inl b ↦
              let c : (leb x.file_start start && (leb start (end_of x) && leb (end_of x) end))
                  ≡ false =
                ground arith in
              let d : (leb x.file_start start && leb end (end_of x)) ≡ true = ground arith in
              record {
                first = start;
                last = end;
                is_readable = rw (c, d, from reaches a, to (omega arith)) refl;
                after_start = omega arith;
                in_node = a;
                some_bytes = range;
                to_end = omega arith;
                to_node_end = omega arith;
                all = λ o h i j k. (h, i);
              }
        ]
        | inl a ↦
            let c : (leb x.file_start start && (leb start (end_of x) && leb (end_of x) end))
                ≡ false =
              ground arith in
            let d : (leb x.file_start start && leb end (end_of x)) ≡ false = ground arith in
            elim (lt_cases end (x.file_start + x.size)) [
              | inr b ↦
                  let k : (leb start x.file_start && leb (end_of x) end) ≡ true = ground arith in
                  record {
                    first = x.file_start;
                    last = x.file_start + x.size;
                    is_readable =
                        rw (c, d, k, whole)
                          (ap
                            (λ z.
                              (z, x.start + (x.file_start + x.size - x.file_start), x.file_start))
                            own);
                    after_start = omega arith;
                    in_node = omega arith;
                    some_bytes = let p = v.positive in omega arith;
                    to_end = b;
                    to_node_end = omega arith;
                    all = λ o h i j k. (j, k);
                  }
              | inl b ↦
                  let k : (leb start x.file_start && leb (end_of x) end) ≡ false = ground arith in
                  record {
                    first = x.file_start;
                    last = end;
                    is_readable =
                        rw (c, d, k, to (omega arith))
                          (ap (λ z. (z, x.start + (end - x.file_start), x.file_start)) own);
                    after_start = omega arith;
                    in_node = omega arith;
                    some_bytes = starts;
                    to_end = omega arith;
                    to_node_end = omega arith;
                    all = λ o h i j k. (j, i);
                  }
            ]
      ]
