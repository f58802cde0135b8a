-- ===== src/ContinousSpace/Write.antt =====
-- ContinousSpaceWrite over the bytes of the chain.
use nvmfs.Prelude.{
  ℕ, zero, suc, ◌+◌, ◌-◌, ◌%◌, ◌≤◌, ◌<◌, ◌≡◌, ◌≢◌, refl, sym, ap, ap₂, ◌∙◌, inl, inr, Option, some,
  true, false, List, [], ◌∷◌, ◌++◌, append-nil, append_assoc, length, take, drop, All, arith, leb,
  ◌==◌, lt_cases, length-take, length-drop, take-append, drop-append, drop-all, take-all,
  take-append-drop,
}
use nvmfs.Memory.{
  Memory, load, store, length-load, load-add, load-same, drop-load, load-store_self,
  load-store_other, store-outside,
}
use nvmfs.ContinousSpace.{
  page_size, area_size, addr_size, rest_size_of_current_area, current_area_of_addr, write_from,
  space_write, space_read,
}
use nvmfs.ContinousSpace.Bytes.{
  IsArea, IsAt, bytes_of, bytes_from, bytes_from-next, next_start-eq, IsAt-next, Outside,
  SameOutside, area-start, IsAt-SameOutside,
}
use nvmfs.ContinousSpace.Read.{capacity, bytes_from-cons, space_read-take}
use nvmfs.ContinousSpace.Spot.{All-same_area}

-- What a write of `bytes` at `addr` has done.
pub record Written (m : Memory) (addr : ℕ) (ps : List ℕ) (bytes : List ℕ) (o : Option Memory)
    : Type 0 where
  pub memory : Memory
  pub result : o ≡ some memory
  pub same : SameOutside m memory addr ps
  pub bytes_now : bytes_from memory addr ps ≡ bytes ++ drop (length bytes) (bytes_from m addr ps)

store-SameOutside :
    (m : Memory) (addr : ℕ) (ps bytes : List ℕ)
    → addr_size ≤ addr % page_size
    → length bytes ≤ rest_size_of_current_area addr
    → SameOutside m (store m addr bytes) addr ps
store-SameOutside m addr ps bytes i h x (inl k) =
    store-outside m addr bytes x
      (elim (lt_cases x addr) [ inl l ↦ inl l | inr l ↦ inr (omega arith) ])
store-SameOutside m addr ps bytes i h x (inr (inr l, a)) = store-outside m addr bytes x (inl l)
store-SameOutside m addr ps bytes i h x (inr (inl n, a)) =
    store-outside m addr bytes x (elim (lt_cases x addr) [
      | inl l ↦ inl l
      | inr l ↦ elim (lt_cases x (addr + length bytes)) [
        | inl k ↦ absurd (n (omega arith))
        | inr k ↦ inr k
      ]
    ])

bytes_of-store :
    (m : Memory) (addr : ℕ) (bytes ps : List ℕ)
    → length bytes ≤ rest_size_of_current_area addr
    → All IsArea ps
    → All (λ y. current_area_of_addr addr ≢ y) ps
    → bytes_of (store m addr bytes) ps ≡ bytes_of m ps
unfolding bytes_of
bytes_of-store m addr bytes [] h r d = refl
bytes_of-store m addr bytes (p ∷ ps) h ((a, b), r) (n, d) =
    ap₂ (λ x y. x ++ y)
      (load-store_other m addr bytes (p + addr_size) area_size
        (elim (lt_cases p addr) [ inl l ↦ inl (omega arith) | inr l ↦ inr (omega arith) ]))
      (bytes_of-store m addr bytes ps h r d)

-- All bytes fit into the page.
write-here :
    (m : Memory) (addr : ℕ) (ps bytes : List ℕ)
    → IsAt m addr ps
    → length bytes ≤ rest_size_of_current_area addr
    → bytes_from (store m addr bytes) addr ps ≡ bytes ++ drop (length bytes) (bytes_from m addr ps)
unfolding bytes_from
write-here m addr ps bytes v h =
    let m' = store m addr bytes in
    let rest = rest_size_of_current_area addr in
    let n = length bytes in
    let l = length-load m addr rest in
    let e : rest ≡ n + (rest - n) = omega arith in
    let z : n - length (load m addr rest) ≡ 0 = omega arith in
    let (d, _) = v.distinct in
    let own : load m' addr rest ≡ bytes ++ drop n (load m addr rest) =
      ap (load m' addr) e
      ∙ load-add m' addr n (rest - n)
      ∙ ap₂ (λ x y. x ++ y) (load-store_self m addr bytes)
          (load-store_other m addr bytes (addr + n) (rest - n) (inr (omega arith))
            ∙ sym (drop-load m addr n rest h)) in
    ap₂ (λ x y. x ++ y) own (bytes_of-store m addr bytes ps h v.areas d)
    ∙ append_assoc bytes (drop n (load m addr rest)) (bytes_of m ps)
    ∙ ap (λ x. bytes ++ x)
        (sym (
          drop-append n (load m addr rest) (bytes_of m ps)
          ∙ ap (λ k. drop n (load m addr rest) ++ drop k (bytes_of m ps)) z))

Outside-next :
    (x addr q : ℕ) (qs : List ℕ) → IsArea q → Outside x addr (q ∷ qs) → Outside x (q + addr_size) qs
Outside-next x addr q qs a (inl k) = inl k
Outside-next x addr q qs a (inr (c, (n, d))) = inr (inl (λ e. n (e ∙ area-start q a)), d)

-- The first bytes fill the page, and the others have gone to the next ones.
write-next :
    (m m' : Memory) (addr q : ℕ) (qs bytes : List ℕ)
    → IsAt m addr (q ∷ qs)
    → rest_size_of_current_area addr ≤ length bytes
    → (let rest = rest_size_of_current_area addr in
        let m1 = store m addr (take rest bytes) in
        SameOutside m1 m' (q + addr_size) qs
        → bytes_from m' (q + addr_size) qs
          ≡ drop rest bytes ++ drop (length (drop rest bytes)) (bytes_from m1 (q + addr_size) qs)
        → bytes_from m' addr (q ∷ qs) ≡ bytes ++ drop (length bytes) (bytes_from m addr (q ∷ qs)))
write-next m m' addr q qs bytes v h s e =
    let rest = rest_size_of_current_area addr in
    let now = take rest bytes in
    let m1 = store m addr now in
    let (a, areas) = v.areas in
    let (d, _) = v.distinct in
    let (n, ns) = d in
    let len : length now ≡ rest = omega (arith, length-take rest bytes) in
    let same_page : load m' addr rest ≡ load m1 addr rest = load-same m' m1 addr rest (λ x j l.
      s x (
        inr (
          inl (λ z. n (omega (arith, z, area-start q a))),
          All-same_area x addr qs (omega arith) ns,
        ))) in
    let own : load m' addr rest ≡ now =
      same_page ∙ ap (load m1 addr) (sym len) ∙ load-store_self m addr now in
    let others : bytes_from m1 (q + addr_size) qs ≡ bytes_from m (q + addr_size) qs =
      sym (bytes_from-next m1 q qs a)
      ∙ bytes_of-store m addr now (q ∷ qs) (omega arith) v.areas d
      ∙ bytes_from-next m q qs a in
    let l = length-load m addr rest in
    let after : drop (length bytes) (bytes_from m addr (q ∷ qs))
        ≡ drop (length bytes - rest) (bytes_from m (q + addr_size) qs) =
      ap (drop (length bytes)) (bytes_from-cons m addr q qs a)
      ∙ drop-append (length bytes) (load m addr rest) (bytes_from m (q + addr_size) qs)
      ∙ ap₂ (λ x k. x ++ drop (length bytes - k) (bytes_from m (q + addr_size) qs))
          (drop-all (length bytes) (load m addr rest) (omega arith)) l in
    bytes_from-cons m' addr q qs a
    ∙ ap₂ (λ x y. x ++ y) own e
    ∙ sym (
        append_assoc now (drop rest bytes)
          (drop (length (drop rest bytes)) (bytes_from m1 (q + addr_size) qs)))
    ∙ ap₂ (λ x y. x ++ y) (take-append-drop rest bytes)
        (ap₂ drop (length-drop rest bytes) others ∙ sym after)

write_from-here :
    (fuel : ℕ) (m : Memory) (bytes : List ℕ) (addr : ℕ) (ps : List ℕ)
    → IsAt m addr ps
    → length bytes ≤ rest_size_of_current_area addr
    → Written m addr ps bytes (write_from (suc fuel) m bytes addr)
unfolding write_from
write_from-here fuel m bytes addr ps v h =
    let fits : leb (length bytes) (rest_size_of_current_area addr) ≡ true = ground arith in
    let end : (length bytes - length bytes == 0) ≡ true = ground arith in
    record {
      memory = store m addr bytes;
      result = rw (fits, end, take-all (length bytes) bytes (omega arith));
      same = store-SameOutside m addr ps bytes v.inside h;
      bytes_now = write-here m addr ps bytes v h;
    }

write_from-Written :
    (fuel : ℕ) (m : Memory) (bytes : List ℕ) (addr : ℕ) (ps : List ℕ)
    → IsAt m addr ps
    → length bytes ≤ capacity addr ps
    → length bytes < fuel
    → Written m addr ps bytes (write_from fuel m bytes addr)
unfolding write_from
write_from-Written zero m bytes addr ps v h l = absurd (omega arith)
write_from-Written (suc fuel) m bytes addr [] v h l =
    write_from-here fuel m bytes addr [] v (omega arith)
write_from-Written (suc fuel) m bytes addr (q ∷ qs) v h l =
    let rest = rest_size_of_current_area addr in
    let n = length bytes in
    elim (lt_cases rest n) [
      | inr k ↦ write_from-here fuel m bytes addr (q ∷ qs) v k
      | inl k ↦
          let fits : leb n rest ≡ false = ground arith in
          let end : (n - rest == 0) ≡ false = ground arith in
          let now = take rest bytes in
          let m1 = store m addr now in
          let len : length now ≡ rest = omega (arith, length-take rest bytes) in
          let left : length (drop rest bytes) ≡ n - rest = length-drop rest bytes in
          let (a, areas) = v.areas in
          let (d, _) = v.distinct in
          let s1 = store-SameOutside m addr (q ∷ qs) now v.inside (omega arith) in
          let v1 = IsAt-SameOutside m m1 addr (q ∷ qs) addr (q ∷ qs) s1 v in
          let (e, _) = v1.chain in
          let w =
            write_from-Written fuel m1 (drop rest bytes) (q + addr_size) qs
              (IsAt-next m1 addr q qs v1) (omega arith) (omega arith) in
          record {
            memory = w.memory;
            result = rw (fits, end, next_start-eq m1 addr q e a) w.result;
            same = λ x o. w.same x (Outside-next x addr q qs a o) ∙ s1 x o;
            bytes_now = write-next m w.memory addr q qs bytes v (omega arith) w.same w.bytes_now;
          }
    ]

-- ContinousSpaceWrite of no more bytes than a well-formed chain of pages holds from an address on
-- always returns. ContinousSpaceRead then yields what was written, the bytes behind it and all memory
-- outside the pages' data stay as they were, and the chain stays well-formed.
pub space_read-write :
    (m : Memory) (bytes : List ℕ) (addr : ℕ) (ps : List ℕ)
    → IsAt m addr ps
    → length bytes ≤ capacity addr ps
    → (m' : Memory) × (space_write m bytes addr ≡ some m')
      × IsAt m' addr ps
      × (space_read m' (length bytes) addr ≡ some bytes)
      × (bytes_from m' addr ps ≡ bytes ++ drop (length bytes) (bytes_from m addr ps))
      × SameOutside m m' addr ps
unfolding space_write
space_read-write m bytes addr ps v h =
    let w = write_from-Written (suc (length bytes)) m bytes addr ps v h (omega arith) in
    let v' = IsAt-SameOutside m w.memory addr ps addr ps w.same v in
    let n = length bytes in
    let z : n - n ≡ 0 = omega arith in
    (
      w.memory,
      w.result,
      v',
      space_read-take w.memory n addr ps v' h
          ∙ ap some (
              ap (take n) w.bytes_now
              ∙ take-append n bytes (drop n (bytes_from m addr ps))
              ∙ ap₂ (λ x k. x ++ take k (drop n (bytes_from m addr ps)))
                  (take-all n bytes (omega arith)) z
              ∙ append-nil bytes),
      w.bytes_now,
      w.same,
    )
