-- ===== src/ContinousSpace/Read.antt =====
-- ContinousSpaceRead and ContinousSpaceCalculateNextAddr over the bytes of the chain.
use nvmfs.Prelude.{
  ℕ, zero, suc, ◌+◌, ◌-◌, ◌*◌, ◌≤◌, ◌<◌, ◌≡◌, refl, sym, ap, ap₂, ◌∙◌, inl, inr, some, true, false,
  List, [], ◌∷◌, ◌++◌, append-nil, length, take, arith, leb, ◌==◌, lt_cases, length-append,
  take-append, take-all,
}
use nvmfs.Memory.{Memory, load, length-load, take-load}
use nvmfs.ContinousSpace.{area_size, addr_size, rest_size_of_current_area, read_from, space_read}
use nvmfs.ContinousSpace.Bytes.{
  IsArea, IsAt, bytes_of, bytes_from, bytes_from-next, next_start-eq, IsAt-next,
}

-- The bytes that the pages can still hold from `addr` on.
abbrev pub capacity : ℕ → List ℕ → ℕ
capacity addr ps = rest_size_of_current_area addr + area_size * length ps

pub length-bytes_of : (m : Memory) (ps : List ℕ) → length (bytes_of m ps) ≡ area_size * length ps
unfolding bytes_of
length-bytes_of m [] = refl
length-bytes_of m (p ∷ ps) = omega (
  arith,
  length-append (load m (p + addr_size) area_size) (bytes_of m ps),
  length-load m (p + addr_size) area_size,
  length-bytes_of m ps,
)

pub length-bytes_from :
    (m : Memory) (addr : ℕ) (ps : List ℕ) → length (bytes_from m addr ps) ≡ capacity addr ps
unfolding bytes_from
length-bytes_from m addr ps = omega (
  arith,
  length-append (load m addr (rest_size_of_current_area addr)) (bytes_of m ps),
  length-load m addr (rest_size_of_current_area addr),
  length-bytes_of m ps,
)

pub take-bytes_from :
    (m : Memory) (addr size : ℕ) (ps : List ℕ)
    → size ≤ rest_size_of_current_area addr
    → take size (bytes_from m addr ps) ≡ load m addr size
unfolding bytes_from
take-bytes_from m addr size ps h =
    let rest = rest_size_of_current_area addr in
    let l = length-load m addr rest in
    let z : size - length (load m addr rest) ≡ 0 = omega arith in
    take-append size (load m addr rest) (bytes_of m ps)
    ∙ ap₂ (λ a b. a ++ take b (bytes_of m ps)) (take-load m addr size rest h) z
    ∙ append-nil (load m addr size)

pub bytes_from-cons :
    (m : Memory) (addr q : ℕ) (qs : List ℕ)
    → IsArea q
    → bytes_from m addr (q ∷ qs)
      ≡ load m addr (rest_size_of_current_area addr) ++ bytes_from m (q + addr_size) qs
unfolding bytes_from
bytes_from-cons m addr q qs a =
    ap (λ z. load m addr (rest_size_of_current_area addr) ++ z) (bytes_from-next m q qs a)

pub take-bytes_from-cons :
    (m : Memory) (addr size q : ℕ) (qs : List ℕ)
    → IsArea q
    → rest_size_of_current_area addr ≤ size
    → take size (bytes_from m addr (q ∷ qs))
      ≡ load m addr (rest_size_of_current_area addr)
        ++ take (size - rest_size_of_current_area addr) (bytes_from m (q + addr_size) qs)
take-bytes_from-cons m addr size q qs a h =
    let rest = rest_size_of_current_area addr in
    let l = length-load m addr rest in
    ap (take size) (bytes_from-cons m addr q qs a)
    ∙ take-append size (load m addr rest) (bytes_from m (q + addr_size) qs)
    ∙ ap₂ (λ x k. x ++ take (size - k) (bytes_from m (q + addr_size) qs))
        (take-all size (load m addr rest) (omega arith)) l

read_from-take :
    (fuel : ℕ) (m : Memory) (size addr : ℕ) (ps : List ℕ)
    → IsAt m addr ps
    → size ≤ capacity addr ps
    → size < fuel
    → read_from fuel m size addr ≡ some (take size (bytes_from m addr ps))
unfolding read_from
read_from-take zero m size addr ps v h l = absurd (omega arith)
read_from-take (suc fuel) m size addr [] v h l =
    let fits : leb size (rest_size_of_current_area addr) ≡ true = ground arith in
    let end : (size - size == 0) ≡ true = ground arith in
    rw (fits, end) (ap some (sym (take-bytes_from m addr size [] (omega arith))))
read_from-take (suc fuel) m size addr (q ∷ qs) v h l =
    let rest = rest_size_of_current_area addr in
    elim (lt_cases rest size) [
      | inr k ↦
          let fits : leb size rest ≡ true = ground arith in
          let end : (size - size == 0) ≡ true = ground arith in
          rw (fits, end) (ap some (sym (take-bytes_from m addr size (q ∷ qs) k)))
      | inl k ↦
          let fits : leb size rest ≡ false = ground arith in
          let end : (size - rest == 0) ≡ false = ground arith in
          let (a, _) = v.areas in
          let (e, _) = v.chain in
          let n = IsAt-next m addr q qs v in
          let more =
            read_from-take fuel m (size - rest) (q + addr_size) qs n (omega arith) (omega arith) in
          rw (fits, end, next_start-eq m addr q e a, more)
            (ap some (sym (take-bytes_from-cons m addr size q qs a (omega arith))))
    ]

-- ContinousSpaceRead of no more bytes than a well-formed chain of pages holds from an address on
-- always returns, and yields the first ones of these bytes.
pub space_read-take :
    (m : Memory) (size addr : ℕ) (ps : List ℕ)
    → IsAt m addr ps
    → size ≤ capacity addr ps
    → space_read m size addr ≡ some (take size (bytes_from m addr ps))
unfolding space_read
space_read-take m size addr ps v h = read_from-take (suc size) m size addr ps v h (omega arith)
