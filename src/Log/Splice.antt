-- ===== src/Log/Splice.antt =====
-- A write at a spot of a chain, as the replacement of a part of its bytes.
use nvmfs.Prelude.{
  ℕ, ◌+◌, ◌-◌, ◌≤◌, ◌<◌, ◌≡◌, refl, sym, ap, ap₂, ◌∙◌, inl, inr, some, List, [], ◌∷◌, All, lt_cases,
  ◌++◌, append-nil, length, take, drop, arith, length-append, take-append, drop-append, take-all,
  drop-all,
}
use nvmfs.Memory.{Memory}
use nvmfs.ContinousSpace.{space_write, addr_size, rest_size_of_current_area}
use nvmfs.ContinousSpace.Bytes.{IsArea, IsAt, bytes_from, IsAt-SameOutside}
use nvmfs.ContinousSpace.Read.{capacity, length-bytes_from}
use nvmfs.ContinousSpace.Spot.{
  spot, spot-here, spot-next, IsAt-spot, capacity-spot, bytes_from-spot,
}
use nvmfs.ContinousSpace.Write.{space_read-write}

pub take-append_left : (xs : List ℕ) (n : ℕ) (ys : List ℕ) → length xs ≡ n → take n (xs ++ ys) ≡ xs
take-append_left xs n ys h =
    let z : n - length xs ≡ 0 = omega arith in
    take-append n xs ys
    ∙ ap₂ (λ a b. a ++ take b ys) (take-all n xs (omega arith)) z
    ∙ append-nil xs

drop-append_left :
    (xs : List ℕ) (n k : ℕ) (ys : List ℕ) → length xs ≡ n → drop (n + k) (xs ++ ys) ≡ drop k ys
drop-append_left xs n k ys h =
    let z : n + k - length xs ≡ k = omega arith in
    drop-append (n + k) xs ys ∙ ap₂ (λ a b. a ++ drop b ys) (drop-all (n + k) xs (omega arith)) z

-- The bytes at a spot are those behind the ones before it.
pub bytes_from-at :
    (m : Memory) (addr : ℕ) (ps before after : List ℕ)
    → IsAt m addr ps
    → bytes_from m addr ps ≡ before ++ after
    → length before < capacity addr ps
    → bytes_from m (spot addr ps (length before)).0 (spot addr ps (length before)).1 ≡ after
bytes_from-at m addr ps before after v e h =
    let n = length before in
    let z : n ≡ n + 0 = omega arith in
    let rest = bytes_from m (spot addr ps n).0 (spot addr ps n).1 in
    let split : bytes_from m addr ps ≡ before ++ rest =
      bytes_from-spot m m addr n ps v h (λ x o. refl)
      ∙ ap (λ y. y ++ rest) (ap (take n) e ∙ take-append_left before n after refl) in
    sym (drop-append_left before n 0 rest refl)
    ∙ ap (λ k. drop k (before ++ rest)) (sym z)
    ∙ ap (drop n) (sym split ∙ e)
    ∙ ap (λ k. drop k (before ++ after)) z
    ∙ drop-append_left before n 0 after refl

-- The outcome of a write of `bytes` behind `before`, in the place of as many others.
pub record Spliced (m : Memory) (addr : ℕ) (ps before bytes after : List ℕ) (n : ℕ) : Type 0 where
  pub memory : Memory
  pub result : space_write m bytes (spot addr ps n).0 ≡ some memory
  pub still : IsAt memory addr ps
  pub bytes_now : bytes_from memory addr ps ≡ before ++ (bytes ++ after)

pub space_write-Spliced :
    (m : Memory) (addr : ℕ) (ps before old bytes after : List ℕ) (n : ℕ)
    → IsAt m addr ps
    → bytes_from m addr ps ≡ before ++ (old ++ after)
    → length before ≡ n
    → length old ≡ length bytes
    → n < capacity addr ps
    → Spliced m addr ps before bytes after n
space_write-Spliced m addr ps before old bytes after n v e bn o h =
    let at = (spot addr ps n).0 in
    let qs = (spot addr ps n).1 in
    let v' = IsAt-spot m addr n ps v h in
    let len : length (bytes_from m addr ps) ≡ n + (length old + length after) =
      ap length e ∙ omega (arith, length-append before (old ++ after), length-append old after) in
    let room : length bytes ≤ capacity at qs =
      omega (arith, capacity-spot addr n ps v.areas h, length-bytes_from m addr ps, len) in
    let (m', r, _, _, b, s) = space_read-write m bytes at qs v' room in
    let rest : bytes_from m at qs ≡ old ++ after =
      ap (λ k. bytes_from m (spot addr ps k).0 (spot addr ps k).1) (sym bn)
      ∙ bytes_from-at m addr ps before (old ++ after) v e (omega arith) in
    let z : length bytes ≡ length bytes + 0 = omega arith in
    record {
      memory = m';
      result = r;
      still = IsAt-SameOutside m m' at qs addr ps s v;
      bytes_now =
          bytes_from-spot m m' addr n ps v h s
          ∙ ap₂ (λ x y. x ++ y) (ap (take n) e ∙ take-append_left before n (old ++ after) bn)
              (b
                ∙ ap (λ x. bytes ++ x)
                    (ap (drop (length bytes)) rest
                      ∙ ap (λ k. drop k (old ++ after)) z
                      ∙ drop-append_left old (length bytes) 0 after o));
    }

-- Spots of spots.
pub spot-spot :
    (addr n k : ℕ) (ps : List ℕ)
    → n < capacity addr ps
    → All IsArea ps
    → spot (spot addr ps n).0 (spot addr ps n).1 k ≡ spot addr ps (n + k)
spot-spot addr n k [] h a = ap (λ x. (x, [])) (omega arith)
spot-spot addr n k (q ∷ qs) h ((b, l), a) = elim (lt_cases n (rest_size_of_current_area addr)) [
  | inl i ↦
      let here = spot-here addr n (q ∷ qs) i in
      let r : rest_size_of_current_area (addr + n) ≡ rest_size_of_current_area addr - n =
        omega arith in
      ap (λ z. spot z.0 z.1 k) here ∙ elim (lt_cases (n + k) (rest_size_of_current_area addr)) [
        | inl j ↦
            spot-here (addr + n) k (q ∷ qs) (omega arith)
            ∙ ap (λ x. (x, q ∷ qs)) (omega arith)
            ∙ sym (spot-here addr (n + k) (q ∷ qs) j)
        | inr j ↦
            let e : k - rest_size_of_current_area (addr + n)
                ≡ n + k - rest_size_of_current_area addr =
              omega arith in
            spot-next (addr + n) k q qs (omega arith)
            ∙ ap (spot (q + addr_size) qs) e
            ∙ sym (spot-next addr (n + k) q qs j)
      ]
  | inr i ↦
      let e : n - rest_size_of_current_area addr + k ≡ n + k - rest_size_of_current_area addr =
        omega arith in
      ap (λ z. spot z.0 z.1 k) (spot-next addr n q qs i)
      ∙ spot-spot (q + addr_size) (n - rest_size_of_current_area addr) k qs (omega arith) a
      ∙ ap (spot (q + addr_size) qs) e
      ∙ sym (spot-next addr (n + k) q qs (omega arith))
]
