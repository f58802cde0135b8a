-- ===== src/ContinousSpace/Spot.antt =====
-- The address of the byte that stands a number of bytes behind another one.
use nvmfs.Prelude.{
  ℕ, zero, suc, ◌+◌, ◌-◌, ◌≤◌, ◌<◌, ◌≡◌, ◌≢◌, refl, sym, ap, ap₂, ◌∙◌, inl, inr, some, true, false,
  List, [], ◌∷◌, ◌++◌, append_assoc, take, All, arith, ltb, if◌then◌else◌, lt_cases, add64, subst,
}
use nvmfs.Memory.{Memory, load, load-add, load-same}
use nvmfs.ContinousSpace.{
  addr_size, rest_size_of_current_area, current_area_of_addr, next_addr_from, calculate_next_addr,
}
use nvmfs.ContinousSpace.Bytes.{
  IsArea, IsAt, bytes_of, bytes_from, next_start-eq, IsAt-next, Outside, SameOutside, area-start,
}
use nvmfs.ContinousSpace.Read.{capacity, bytes_from-cons, take-bytes_from, take-bytes_from-cons}

-- The address, and the pages that follow its page.
abbrev pub spot : ℕ → List ℕ → ℕ → ℕ × List ℕ
spot addr [] size = (addr + size, [])
spot addr (q ∷ qs) size =
    if ltb size (rest_size_of_current_area addr)
    then (addr + size, q ∷ qs)
    else spot (q + addr_size) qs (size - rest_size_of_current_area addr)

pub spot-here :
    (addr size : ℕ) (ps : List ℕ)
    → size < rest_size_of_current_area addr
    → spot addr ps size ≡ (addr + size, ps)
spot-here addr size [] h = refl
spot-here addr size (q ∷ qs) h =
    let here : ltb size (rest_size_of_current_area addr) ≡ true = ground arith in rw here

pub spot-next :
    (addr size q : ℕ) (qs : List ℕ)
    → rest_size_of_current_area addr ≤ size
    → spot addr (q ∷ qs) size ≡ spot (q + addr_size) qs (size - rest_size_of_current_area addr)
spot-next addr size q qs h =
    let further : ltb size (rest_size_of_current_area addr) ≡ false = ground arith in rw further

module _ (P : ℕ → Type 0) where
  -- What is true of all pages from `addr` on is true of those from the spot on.
  All-here :
      (addr size : ℕ) (ps : List ℕ)
      → size < rest_size_of_current_area addr
      → All P (current_area_of_addr addr ∷ ps)
      → All P (current_area_of_addr (spot addr ps size).0 ∷ (spot addr ps size).1)
  All-here addr size ps h (p, a) =
      let e : current_area_of_addr addr ≡ current_area_of_addr (addr + size) = omega arith in
      rw (spot-here addr size ps h) (subst P e p, a)

  All-spot :
      (addr size : ℕ) (ps : List ℕ)
      → All IsArea ps
      → size < capacity addr ps
      → All P (current_area_of_addr addr ∷ ps)
      → All P (current_area_of_addr (spot addr ps size).0 ∷ (spot addr ps size).1)
  All-spot addr size [] r h a = All-here addr size [] (omega arith) a
  All-spot addr size (q ∷ qs) (b, r) h (p, (pq, a)) =
      elim (lt_cases size (rest_size_of_current_area addr)) [
        | inl k ↦ All-here addr size (q ∷ qs) k (p, (pq, a))
        | inr k ↦ rw (spot-next addr size q qs k) (
            All-spot (q + addr_size) (size - rest_size_of_current_area addr) qs r (omega arith)
              (subst P (sym (area-start q b)) pq, a))
      ]

IsAt-here :
    (m : Memory) (addr size : ℕ) (ps : List ℕ)
    → IsAt m addr ps
    → size < rest_size_of_current_area addr
    → IsAt m (addr + size) ps
IsAt-here m addr size ps v h =
    let i = v.inside in
    let s = v.small in
    let e : current_area_of_addr (addr + size) ≡ current_area_of_addr addr = omega arith in
    record {
      inside = omega arith;
      small = omega arith;
      areas = v.areas;
      distinct = rw e v.distinct;
      chain = rw e v.chain;
    }

pub IsAt-spot :
    (m : Memory) (addr size : ℕ) (ps : List ℕ)
    → IsAt m addr ps
    → size < capacity addr ps
    → IsAt m (spot addr ps size).0 (spot addr ps size).1
IsAt-spot m addr size [] v h = IsAt-here m addr size [] v (omega arith)
IsAt-spot m addr size (q ∷ qs) v h = elim (lt_cases size (rest_size_of_current_area addr)) [
  | inl k ↦ rw (spot-here addr size (q ∷ qs) k) (IsAt-here m addr size (q ∷ qs) v k)
  | inr k ↦ rw (spot-next addr size q qs k) (
      IsAt-spot m (q + addr_size) (size - rest_size_of_current_area addr) qs
        (IsAt-next m addr q qs v) (omega arith))
]

pub capacity-spot :
    (addr size : ℕ) (ps : List ℕ)
    → All IsArea ps
    → size < capacity addr ps
    → capacity (spot addr ps size).0 (spot addr ps size).1 ≡ capacity addr ps - size
capacity-spot addr size [] r h = omega arith
capacity-spot addr size (q ∷ qs) ((b, l), r) h =
    elim (lt_cases size (rest_size_of_current_area addr)) [
      | inl k ↦ rw (spot-here addr size (q ∷ qs) k) (omega arith)
      | inr k ↦
          let n =
            capacity-spot (q + addr_size) (size - rest_size_of_current_area addr) qs r
              (omega arith) in
          rw (spot-next addr size q qs k) (omega arith)
    ]

next_addr_from-here :
    (fuel : ℕ) (m : Memory) (addr size : ℕ) (ps : List ℕ)
    → IsAt m addr ps
    → size < rest_size_of_current_area addr
    → next_addr_from (suc fuel) m addr size ≡ some (addr + size)
unfolding next_addr_from
next_addr_from-here fuel m addr size ps v h =
    let s = v.small in
    let here : ltb size (rest_size_of_current_area addr) ≡ true = ground arith in
    let w : add64 addr size ≡ addr + size = omega arith in rw (here, w)

next_addr_from-spot :
    (fuel : ℕ) (m : Memory) (addr size : ℕ) (ps : List ℕ)
    → IsAt m addr ps
    → size < capacity addr ps
    → size < fuel
    → next_addr_from fuel m addr size ≡ some (spot addr ps size).0
unfolding next_addr_from
next_addr_from-spot zero m addr size ps v h l = absurd (omega arith)
next_addr_from-spot (suc fuel) m addr size [] v h l =
    next_addr_from-here fuel m addr size [] v (omega arith)
next_addr_from-spot (suc fuel) m addr size (q ∷ qs) v h l =
    elim (lt_cases size (rest_size_of_current_area addr)) [
      | inl k ↦
          next_addr_from-here fuel m addr size (q ∷ qs) v k
          ∙ ap (λ z. some z.0) (sym (spot-here addr size (q ∷ qs) k))
      | inr k ↦
          let further : ltb size (rest_size_of_current_area addr) ≡ false = ground arith in
          let (a, _) = v.areas in
          let (e, _) = v.chain in
          let more =
            next_addr_from-spot fuel m (q + addr_size) (size - rest_size_of_current_area addr) qs
              (IsAt-next m addr q qs v) (omega arith) (omega arith) in
          rw (further, next_start-eq m addr q e a) more
    ]

-- ContinousSpaceCalculateNextAddr over fewer bytes than a well-formed chain of pages holds from an
-- address on always returns, and yields the address of the byte that many bytes behind it.
pub calculate_next_addr-spot :
    (m : Memory) (addr size : ℕ) (ps : List ℕ)
    → IsAt m addr ps
    → size < capacity addr ps
    → calculate_next_addr m addr size ≡ some (spot addr ps size).0
unfolding calculate_next_addr
calculate_next_addr-spot m addr size ps v h =
    next_addr_from-spot (suc size) m addr size ps v h (omega arith)

pub Outside-spot :
    (x addr size : ℕ) (ps : List ℕ)
    → All IsArea ps
    → size < capacity addr ps
    → Outside x addr ps
    → Outside x (spot addr ps size).0 (spot addr ps size).1
Outside-spot x addr size [] r h (inl k) = inl k
Outside-spot x addr size (q ∷ qs) r h (inl k) = inl k
Outside-spot x addr size [] r h (inr (c, a)) =
    inr (elim c [ inl n ↦ inl (λ e. n (omega arith)) | inr n ↦ inr (omega arith) ], a)
Outside-spot x addr size (q ∷ qs) (b, r) h (inr (c, (n, a))) =
    elim (lt_cases size (rest_size_of_current_area addr)) [
      | inl k ↦
          rw (spot-here addr size (q ∷ qs) k) (
            inr (elim c [ inl n ↦ inl (λ e. n (omega arith)) | inr n ↦ inr (omega arith) ], (n, a)))
      | inr k ↦
          let e = area-start q b in
          rw (spot-next addr size q qs k) (
            Outside-spot x (q + addr_size) (size - rest_size_of_current_area addr) qs r
              (omega arith) (inr (inl (λ z. n (z ∙ e)), a)))
    ]

-- A page's own bytes, from `addr` on, among pages that are others.
pub All-same_area :
    (x addr : ℕ) (ps : List ℕ)
    → current_area_of_addr x ≡ current_area_of_addr addr
    → All (λ y. current_area_of_addr addr ≢ y) ps
    → All (λ y. current_area_of_addr x ≢ y) ps
All-same_area x addr ps e a = rw e a

load-before :
    (m m' : Memory) (addr size : ℕ) (ps : List ℕ)
    → All (λ y. current_area_of_addr addr ≢ y) ps
    → size ≤ rest_size_of_current_area addr
    → SameOutside m m' (addr + size) ps
    → load m' addr size ≡ load m addr size
load-before m m' addr size ps d h s =
    load-same m' m addr size
      (λ x k l. s x (inr (inr (omega arith), All-same_area x addr ps (omega arith) d)))

bytes_from-here :
    (m m' : Memory) (addr size : ℕ) (ps : List ℕ)
    → All (λ y. current_area_of_addr addr ≢ y) ps
    → size < rest_size_of_current_area addr
    → SameOutside m m' (addr + size) ps
    → bytes_from m' addr ps ≡ take size (bytes_from m addr ps) ++ bytes_from m' (addr + size) ps
unfolding bytes_from
bytes_from-here m m' addr size ps d h s =
    let rest = rest_size_of_current_area addr in
    let e : rest ≡ size + (rest - size) = omega arith in
    let r : rest_size_of_current_area (addr + size) ≡ rest - size = omega arith in
    ap (λ k. load m' addr k ++ bytes_of m' ps) e
    ∙ ap (λ z. z ++ bytes_of m' ps) (load-add m' addr size (rest - size))
    ∙ append_assoc (load m' addr size) (load m' (addr + size) (rest - size)) (bytes_of m' ps)
    ∙ ap₂ (λ a k. a ++ (load m' (addr + size) k ++ bytes_of m' ps))
        (load-before m m' addr size ps d (omega arith) s
          ∙ sym (take-bytes_from m addr size ps (omega arith)))
        (sym r)

-- What a change from the spot on leaves of the bytes from `addr` on.
pub bytes_from-spot :
    (m m' : Memory) (addr size : ℕ) (ps : List ℕ)
    → IsAt m addr ps
    → size < capacity addr ps
    → SameOutside m m' (spot addr ps size).0 (spot addr ps size).1
    → bytes_from m' addr ps
      ≡ take size (bytes_from m addr ps)
        ++ bytes_from m' (spot addr ps size).0 (spot addr ps size).1
bytes_from-spot m m' addr size [] v h s = bytes_from-here m m' addr size [] tt (omega arith) s
bytes_from-spot m m' addr size (q ∷ qs) v h s =
    let rest = rest_size_of_current_area addr in
    let (d, _) = v.distinct in
    let (a, areas) = v.areas in
    let (n, ns) = d in
    elim (lt_cases size rest) [
      | inl k ↦
          let e = spot-here addr size (q ∷ qs) k in
          let s' : SameOutside m m' (addr + size) (q ∷ qs) =
            subst (λ z. SameOutside m m' z.0 z.1) e s in
          bytes_from-here m m' addr size (q ∷ qs) d k s'
          ∙ ap (λ z. take size (bytes_from m addr (q ∷ qs)) ++ bytes_from m' z.0 z.1) (sym e)
      | inr k ↦
          let e = spot-next addr size q qs k in
          let s' = subst (λ z. SameOutside m m' z.0 z.1) e s in
          let other : load m' addr rest ≡ load m addr rest = load-same m' m addr rest (λ x j l.
            s' x (
              Outside-spot x (q + addr_size) (size - rest) qs areas (omega arith) (
                inr (
                  inl (λ z. n (omega (arith, z, area-start q a))),
                  All-same_area x addr qs (omega arith) ns,
                )))) in
          let more =
            bytes_from-spot m m' (q + addr_size) (size - rest) qs (IsAt-next m addr q qs v)
              (omega arith) s' in
          bytes_from-cons m' addr q qs a
          ∙ ap₂ (λ y z. y ++ z) other more
          ∙ sym (
              append_assoc (load m addr rest) (take (size - rest) (bytes_from m (q + addr_size) qs))
                (bytes_from m' (spot (q + addr_size) qs (size - rest)).0
                  (spot (q + addr_size) qs (size - rest)).1))
          ∙ ap₂ (λ y z. y ++ bytes_from m' z.0 z.1)
              (sym (take-bytes_from-cons m addr size q qs a k)) (sym e)
    ]
