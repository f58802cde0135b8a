-- ===== src/FileExtentTree/Read.antt =====
-- FileExtentTreeRead: which bytes it puts into the buffer.
use nvmfs.Prelude.{
  ℕ, zero, suc, ◌+◌, ◌-◌, ◌<◌, ◌≤◌, ◌≡◌, refl, sym, ap, ◌∙◌, inl, inr, true, false, Option, some,
  ◌>>=◌, List, [], ◌∷◌, ◌++◌, append_assoc, leb, ◌==◌, if◌then◌else◌, arith, lt_cases, u64_mod,
  subst, head?, sub64, length, append-nil, length-append, replicate, length-replicate,
}
use nvmfs.Memory.{Memory, store, store-outside}
use nvmfs.RbTree.{RbTree, to_list}
use nvmfs.FileExtentTree.{
  FileExtentNode, FileExtentTree, extent_key, space_key, end_of, next_of, read_node, start_node,
  count_nodes, read_from, read,
}
use nvmfs.FileExtentTree.Order.{Ordered}
use nvmfs.FileExtentTree.Pieces.{end_of-eq, Sorted, Sorted-Ordered, translate}
use nvmfs.FileExtentTree.Range.{
  second, Sorted-middle, start_node-Start, next_of-second, length-to_list,
}
use nvmfs.FileExtentTree.Inside.{HolesFit, IsAt, Left-of_far, read_node-IsAt, read_node-inside}
use nvmfs.FileExtentTree.Seen.{
  Seen, ends_before, translate-far, translate-above, read_node-Seen, read_node-last, Seen-skip,
}

-- What the loop returns.
pub record Reads (m : Memory) (start end : ℕ) (before : Memory) (xs : List FileExtentNode)
    (o : Option (Memory × ℕ)) : Type 0 where
  pub buffer : Memory
  pub last : ℕ
  pub result : o ≡ some (buffer, last)
  pub seen : Seen m start end xs buffer last
  pub bounded : last ≤ end
  pub low : start ≤ last
  pub inside : (k : ℕ) → end - start ≤ k → buffer k ≡ before k

module _ (rb : RbTree extent_key) (rb_spaces : RbTree space_key) where
  read_from-Reads :
      (fuel : ℕ) (t : FileExtentTree) (m : Memory) (start end : ℕ) (buffer : Memory) (last : ℕ)
      (ls rs : List FileExtentNode) (bound : ℕ)
      → to_list t.extents ≡ ls ++ rs
      → Sorted t.spaces 0 (ls ++ rs)
      → start < end
      → end < u64_mod
      → length rs < fuel
      → Seen m start end ls buffer last
      → last ≤ end
      → Sorted t.spaces bound rs
      → HolesFit start end bound rs
      → IsAt start end bound last
      → Reads m start end buffer
          (ls ++ rs)
          (read_from rb rb_spaces fuel t m start end buffer last (head? rs) (second rs))
  unfolding read_from
  read_from-Reads zero t m start end buffer last ls rs bound e s h u f seen below o fit at =
      absurd (omega arith)
  read_from-Reads (suc fuel) t m start end buffer last ls [] bound e s h u f seen below o fit at =
      record {
        buffer = buffer;
        last = last;
        result = refl;
        seen = subst (λ xs. Seen m start end xs buffer last) (sym (append-nil ls)) seen;
        bounded = below;
        low = at.low;
        inside = λ k g. refl;
      }
  read_from-Reads (suc fuel) t m start end buffer last ls (x ∷ rest) bound e s h u f seen below
        (above, w0, so) (fit, fits) at =
      let (v, after_x) = Sorted-middle t.spaces 0 ls x rest s in
      let q = v.file_fits in
      let o = Sorted-Ordered t.spaces 0 (ls ++ (x ∷ rest)) s in
      let ce : end_of x ≡ x.file_start + x.size = end_of-eq x q in
      let whole : (ls ++ (x ∷ [])) ++ rest ≡ ls ++ (x ∷ rest) = append_assoc ls (x ∷ []) rest in
      let e1 = e ∙ sym whole in
      let s1 = subst (Sorted t.spaces 0) (sym whole) s in
      let n =
        next_of-second rb rb_spaces t.extents (ls ++ (x ∷ [])) rest e1
          (subst (Ordered extent_key) (sym whole) o) in
      elim (lt_cases x.file_start end) [
        | inr a ↦
            let c : leb end x.file_start ≡ true = ground arith in
            record {
              buffer = buffer;
              last = last;
              result = rw c refl;
              seen = λ o addr h k g. seen o addr h k (
                  translate-above t.spaces x.file_start ls (x ∷ rest) o addr
                    (omega arith, v, after_x) (omega arith) g);
              bounded = below;
              low = at.low;
              inside = λ k g. refl;
            }
        | inl a ↦
            let c : leb end x.file_start ≡ false = ground arith in
            elim (lt_cases start (x.file_start + x.size)) [
              | inr b ↦
                  let d : leb (end_of x) start ≡ true = ground arith in
                  let opened : read_from rb rb_spaces (suc fuel) t m start end buffer last (some x)
                        (head? rest)
                      ≡ read_from rb rb_spaces fuel t m start end buffer last (head? rest)
                          (second rest) =
                    rw (c, d, n) refl in
                  let low = at.low in
                  let early = at.ahead in
                  let skipped : IsAt start end (x.file_start + x.size) last = record {
                    low = low;
                    reached = λ g. omega arith;
                    ahead = λ g. let k = early g in omega arith;
                  } in
                  let w =
                    read_from-Reads fuel t m start end buffer last (ls ++ (x ∷ [])) rest
                      (x.file_start + x.size) e1 s1 h u (omega arith)
                      (Seen-skip m start end ls x buffer last b seen) below so fits skipped in
                  record {
                    buffer = w.buffer;
                    last = w.last;
                    result = opened ∙ w.result;
                    seen = subst (λ xs. Seen m start end xs w.buffer w.last) whole w.seen;
                    bounded = w.bounded;
                    low = w.low;
                    inside = w.inside;
                  }
              | inl b ↦
                  let d : leb (end_of x) start ≡ false = ground arith in
                  let r = read_node m start end buffer last x in
                  let opened : read_from rb rb_spaces (suc fuel) t m start end buffer last (some x)
                        (head? rest)
                      ≡ read_from rb rb_spaces fuel t m start end r.0 r.1 (head? rest)
                          (second rest) =
                    rw (c, d, n) refl in
                  let w =
                    read_from-Reads fuel t m start end r.0 r.1 (ls ++ (x ∷ [])) rest
                      (x.file_start + x.size) e1 s1 h u (omega arith)
                      (read_node-Seen m start end t.spaces ls x buffer last
                        (ends_before t.spaces 0 ls x rest s) v h u b a seen)
                      (read_node-last m start end t.spaces x buffer last v h u b a) so fits
                      (read_node-IsAt m start end bound t.spaces x buffer last v h u b a above
                        at) in
                  record {
                    buffer = w.buffer;
                    last = w.last;
                    result = opened ∙ w.result;
                    seen = subst (λ xs. Seen m start end xs w.buffer w.last) whole w.seen;
                    bounded = w.bounded;
                    low = w.low;
                    inside = λ k g.
                        w.inside k g
                        ∙ read_node-inside m start end bound t.spaces x buffer last v h u b a above
                            at fit k g;
                  }
            ]
      ]

  -- FileExtentTreeRead of a range that is not empty, from a tree of disjoint extents in order in which
  -- no hole before an extent is longer than the rest of the range behind it, always returns. It writes
  -- nothing behind the buffer of the range's size, and at each offset of the range that the tree maps
  -- to an address, the buffer then has the byte at that address.
  pub read-translate :
      (t : FileExtentTree) (m : Memory) (start end : ℕ) (buffer : Memory)
      → Sorted t.spaces 0 (to_list t.extents)
      → start < end
      → end < u64_mod
      → HolesFit start end 0 (to_list t.extents)
      → (buffer' : Memory) × (read rb rb_spaces t m start end buffer ≡ some buffer')
        × ((k : ℕ) → end - start ≤ k → buffer' k ≡ buffer k)
        × ((o addr : ℕ)
            → start ≤ o
            → o < end
            → translate (to_list t.extents) o ≡ some addr
            → buffer' (o - start) ≡ m addr)
  unfolding read
  read-translate t m start end buffer s h u fit =
      let w = start_node-Start rb rb_spaces t.spaces t.extents start s in
      let s' = subst (Sorted t.spaces 0) w.parts s in
      let n =
        next_of-second rb rb_spaces t.extents w.passed w.coming w.parts
          (Sorted-Ordered t.spaces 0 (w.passed ++ w.coming) s') in
      let l =
        Left-of_far t.spaces start end 0 w.passed w.coming (omega arith) w.far s'
          (subst (HolesFit start end 0) w.parts fit) in
      let opened : read_from rb rb_spaces (count_nodes t.extents + 1) t m start end buffer start
            (start_node rb rb_spaces t.extents start)
            (next_of rb rb_spaces t.extents (start_node rb rb_spaces t.extents start))
          ≡ read_from rb rb_spaces (count_nodes t.extents + 1) t m start end buffer start
              (head? w.coming) (second w.coming) =
        rw (w.found, n) refl in
      let g =
        read_from-Reads (count_nodes t.extents + 1) t m start end buffer start w.passed w.coming
          l.bound w.parts s' h u
          (omega
            (arith, length-to_list t.extents, ap length w.parts, length-append w.passed w.coming))
          (λ o addr a b e. absurd (omega (arith, translate-far start w.passed o addr w.far e)))
          (omega arith) l.sorted l.fits
          (let b = l.below in
            record { low = omega arith; reached = λ k. b; ahead = λ k. absurd (omega arith) }) in
      let filled =
        if g.last == end
        then g.buffer
        else store g.buffer (sub64 g.last start) (replicate (sub64 end g.last) 0) in
      (
        filled,
        ap
            (λ o. o >>= λ (buffer', last). some (
              if last == end
              then buffer'
              else store buffer' (sub64 last start) (replicate (sub64 end last) 0)))
            (opened ∙ g.result),
        λ k after. elim (lt_cases g.last end) [
          | inl j ↦
              let c : (g.last == end) ≡ false = ground arith in
              let low = g.low in
              let zeros : List ℕ = replicate (sub64 end g.last) 0 in
              let z : length zeros ≡ sub64 end g.last = length-replicate (sub64 end g.last) 0 in
              rw c (
                store-outside g.buffer (sub64 g.last start) zeros k (inr (omega arith))
                ∙ g.inside k after)
          | inr j ↦
              let top = g.bounded in
              let c : (g.last == end) ≡ true = ground arith in rw c (g.inside k after)
        ],
        λ o addr a b e.
            let (low, holds) =
              g.seen o addr a b (subst (λ xs. translate xs o ≡ some addr) w.parts e) in
            elim (lt_cases g.last end) [
              | inl k ↦
                  let c : (g.last == end) ≡ false = ground arith in
                  rw c (
                    store-outside g.buffer (sub64 g.last start) (replicate (sub64 end g.last) 0)
                      (o - start) (inl (omega arith))
                    ∙ holds)
              | inr k ↦
                  let z = g.bounded in let c : (g.last == end) ≡ true = ground arith in rw c holds
            ],
      )
