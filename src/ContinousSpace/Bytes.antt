-- ===== src/ContinousSpace/Bytes.antt =====
-- The bytes of a chain of pages, as one list.
use nvmfs.Prelude.{
  ℕ, ◌+◌, ◌%◌, ◌≤◌, ◌<◌, ◌≡◌, ◌≢◌, ◌⊎◌, ap, ◌∙◌, inl, List, [], ◌∷◌, ◌++◌, All, Distinct, arith,
  add64, u64_mod,
}
use nvmfs.Memory.{Memory, load, load64, load-same}
use nvmfs.ContinousSpace.{
  page_size, area_size, addr_size, rest_size_of_current_area, current_area_of_addr, next_start,
}

-- Page `p` links to the first of the pages, and so on.
abbrev pub Chain : Memory → ℕ → List ℕ → Type 0
Chain m p [] = Unit
Chain m p (q ∷ qs) = (load64 m p ≡ q) × Chain m q qs

abbrev pub IsArea : ℕ → Type 0
IsArea p = (p % page_size ≡ 0) × (p < u64_mod)

-- `addr` is among the data of a page, which the pages `ps` follow.
pub record IsAt (m : Memory) (addr : ℕ) (ps : List ℕ) : Type 0 where
  pub inside : addr_size ≤ addr % page_size
  pub small : addr < u64_mod
  pub areas : All IsArea ps
  pub distinct : Distinct (current_area_of_addr addr ∷ ps)
  pub chain : Chain m (current_area_of_addr addr) ps

unfoldable pub bytes_of : Memory → List ℕ → List ℕ
bytes_of m [] = []
bytes_of m (p ∷ ps) = load m (p + addr_size) area_size ++ bytes_of m ps

-- The bytes from `addr` to the end of the last page.
unfoldable pub bytes_from : Memory → ℕ → List ℕ → List ℕ
bytes_from m addr ps = load m addr (rest_size_of_current_area addr) ++ bytes_of m ps

-- Whether `x` is no byte that a write from `addr` on can reach.
abbrev pub Outside : ℕ → ℕ → List ℕ → Type 0
Outside x addr ps =
    (x % page_size < addr_size)
    ⊎ (((current_area_of_addr x ≢ current_area_of_addr addr) ⊎ (x < addr))
        × All (λ p. current_area_of_addr x ≢ p) ps)

abbrev pub SameOutside : Memory → Memory → ℕ → List ℕ → Type 0
SameOutside m m' addr ps = (x : ℕ) → Outside x addr ps → m' x ≡ m x

-- The address where the data of the following page starts.
pub next_start-eq :
    (m : Memory) (addr q : ℕ)
    → load64 m (current_area_of_addr addr) ≡ q
    → IsArea q
    → next_start m addr ≡ q + addr_size
unfolding next_start
next_start-eq m addr q e (a, b) =
    let w : add64 q addr_size ≡ q + addr_size = omega arith in ap (λ z. add64 z addr_size) e ∙ w

pub area-start : (q : ℕ) → IsArea q → current_area_of_addr (q + addr_size) ≡ q
area-start q (a, b) = omega arith

pub IsAt-next :
    (m : Memory) (addr q : ℕ) (qs : List ℕ) → IsAt m addr (q ∷ qs) → IsAt m (q + addr_size) qs
IsAt-next m addr q qs v =
    let ((a, b), rest) = v.areas in
    let (n, (ns, d)) = v.distinct in
    let (e, c) = v.chain in
    let s : current_area_of_addr (q + addr_size) ≡ q = area-start q (a, b) in
    record {
      inside = omega arith;
      small = omega arith;
      areas = rest;
      distinct = rw s (ns, d);
      chain = rw s c;
    }

pub bytes_from-next :
    (m : Memory) (q : ℕ) (qs : List ℕ)
    → IsArea q
    → bytes_of m (q ∷ qs) ≡ bytes_from m (q + addr_size) qs
unfolding bytes_of bytes_from
bytes_from-next m q qs (a, b) =
    let e : rest_size_of_current_area (q + addr_size) ≡ area_size = omega arith in rw e

-- A memory that is the same outside keeps the links.
load64-SameOutside :
    (m m' : Memory) (addr : ℕ) (ps : List ℕ) (p : ℕ)
    → SameOutside m m' addr ps
    → p % page_size ≡ 0
    → load64 m' p ≡ load64 m p
unfolding load64
load64-SameOutside m m' addr ps p h a =
    let e : load m' p 8 ≡ load m p 8 = load-same m' m p 8 (λ x l u. h x (inl (omega arith))) in rw e

pub Chain-SameOutside :
    (m m' : Memory) (addr : ℕ) (ps : List ℕ) (p : ℕ) (qs : List ℕ)
    → SameOutside m m' addr ps
    → p % page_size ≡ 0
    → All IsArea qs
    → Chain m p qs
    → Chain m' p qs
Chain-SameOutside m m' addr ps p [] h a rest c = tt
Chain-SameOutside m m' addr ps p (q ∷ qs) h a ((b, l), rest) (e, c) =
    (load64-SameOutside m m' addr ps p h a ∙ e, Chain-SameOutside m m' addr ps q qs h b rest c)

pub IsAt-SameOutside :
    (m m' : Memory) (addr : ℕ) (ps : List ℕ) (at : ℕ) (qs : List ℕ)
    → SameOutside m m' addr ps
    → IsAt m at qs
    → IsAt m' at qs
IsAt-SameOutside m m' addr ps at qs h v = record {
  inside = v.inside;
  small = v.small;
  areas = v.areas;
  distinct = v.distinct;
  chain =
      Chain-SameOutside m m' addr ps (current_area_of_addr at) qs h (omega arith) v.areas v.chain;
}
