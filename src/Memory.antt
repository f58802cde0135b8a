-- ===== src/Memory.antt =====
-- Non-volatile memory as bytes by logical addresses: what NVMAccesserRead and NVMAccesserWrite move.
use nvmfs.Prelude.{
  ℕ, zero, suc, ◌+◌, ◌-◌, ◌*◌, ◌/◌, ◌%◌, ◌≤◌, ◌<◌, ◌≡◌, refl, sym, ap, ◌∙◌, ◌⊎◌, inl, inr, ◌&&◌,
  List, [], ◌∷◌, ◌++◌, ap₂, take, drop, take-append, drop-append, take-all, drop-all, append-nil,
  length, get_or, ltb, leb, if◌then◌else◌, arith, u64_mod, true,
}

abbrev pub Memory : Type 0
Memory = ℕ → ℕ

unfoldable pub load : Memory → ℕ → ℕ → List ℕ
load m addr zero = []
load m addr (suc n) = m addr ∷ load m (addr + 1) n

unfoldable pub store : Memory → ℕ → List ℕ → Memory
store m addr bytes x =
    if leb addr x && ltb x (addr + length bytes) then get_or bytes (x - addr) 0 else m x

-- Little-endian words.
abbrev pub from_bytes : List ℕ → ℕ
from_bytes [] = 0
from_bytes (b ∷ bs) = b + 256 * from_bytes bs

abbrev pub to_bytes : ℕ → ℕ → List ℕ
to_bytes zero x = []
to_bytes (suc n) x = x % 256 ∷ to_bytes n (x / 256)

unfoldable pub load64 : Memory → ℕ → ℕ
load64 m addr = from_bytes (load m addr 8)

pub length-load : (m : Memory) (addr n : ℕ) → length (load m addr n) ≡ n
unfolding load
length-load m addr zero = refl
length-load m addr (suc n) = ap suc (length-load m (addr + 1) n)

pub load-add :
    (m : Memory) (addr n k : ℕ) → load m addr (n + k) ≡ load m addr n ++ load m (addr + n) k
unfolding load
load-add m addr zero k =
    let e : addr + 0 ≡ addr = omega arith in let z : 0 + k ≡ k = omega arith in rw (e, z)
load-add m addr (suc n) k =
    let e : addr + 1 + n ≡ addr + suc n = omega arith in
    let s : suc n + k ≡ suc (n + k) = omega arith in
    rw (s) (ap (λ xs. m addr ∷ xs) (load-add m (addr + 1) n k ∙ rw e))

pub load-same :
    (m m' : Memory) (addr n : ℕ)
    → ((x : ℕ) → addr ≤ x → x < addr + n → m x ≡ m' x)
    → load m addr n ≡ load m' addr n
unfolding load
load-same m m' addr zero h = refl
load-same m m' addr (suc n) h =
    let rest = load-same m m' (addr + 1) n (λ x a b. h x (omega arith) (omega arith)) in
    rw (h addr (omega arith) (omega arith), rest)

load-get_or :
    (m : Memory) (addr : ℕ) (bytes : List ℕ)
    → ((i : ℕ) → i < length bytes → m (addr + i) ≡ get_or bytes i 0)
    → load m addr (length bytes) ≡ bytes
unfolding load
load-get_or m addr [] h = refl
load-get_or m addr (b ∷ bs) h =
    let z : addr + 0 ≡ addr = omega arith in
    let first : m addr ≡ b = ap m (sym z) ∙ h 0 (omega arith) in
    let rest = load-get_or m (addr + 1) bs (λ i l.
      let e : addr + 1 + i ≡ addr + suc i = omega arith in ap m e ∙ h (suc i) (omega arith)) in
    rw (first, rest)

pub store-outside :
    (m : Memory) (addr : ℕ) (bytes : List ℕ) (x : ℕ)
    → (x < addr) ⊎ (addr + length bytes ≤ x)
    → store m addr bytes x ≡ m x
unfolding store
store-outside m addr bytes x h = ground arith

pub store-inside :
    (m : Memory) (addr : ℕ) (bytes : List ℕ) (i : ℕ)
    → i < length bytes
    → store m addr bytes (addr + i) ≡ get_or bytes i 0
unfolding store
store-inside m addr bytes i l =
    let low : leb addr (addr + i) ≡ true = ground arith in
    let high : ltb (addr + i) (addr + length bytes) ≡ true = ground arith in
    let e : addr + i - addr ≡ i = omega arith in rw (low, high, e)

pub get_or-load : (m : Memory) (addr n i : ℕ) → i < n → get_or (load m addr n) i 0 ≡ m (addr + i)
unfolding load
get_or-load m addr zero i h = absurd (omega arith)
get_or-load m addr (suc n) zero h = let e : addr ≡ addr + 0 = omega arith in ap m e
get_or-load m addr (suc n) (suc i) h =
    let e : addr + 1 + i ≡ addr + suc i = omega arith in
    get_or-load m (addr + 1) n i (omega arith) ∙ ap m e

pub load-store_self :
    (m : Memory) (addr : ℕ) (bytes : List ℕ) → load (store m addr bytes) addr (length bytes) ≡ bytes
load-store_self m addr bytes =
    load-get_or (store m addr bytes) addr bytes (store-inside m addr bytes)

pub load-store_other :
    (m : Memory) (addr : ℕ) (bytes : List ℕ) (b n : ℕ)
    → (b + n ≤ addr) ⊎ (addr + length bytes ≤ b)
    → load (store m addr bytes) b n ≡ load m b n
load-store_other m addr bytes b n h = load-same (store m addr bytes) m b n (λ x k l.
    store-outside m addr bytes x (elim h [ inl p ↦ inl (omega arith) | inr q ↦ inr (omega arith) ]))

pub from_bytes-to_bytes : (x : ℕ) → x < u64_mod → from_bytes (to_bytes 8 x) ≡ x
from_bytes-to_bytes x h = omega arith

pub take-load : (m : Memory) (addr n k : ℕ) → n ≤ k → take n (load m addr k) ≡ load m addr n
take-load m addr n k h =
    let e : k ≡ n + (k - n) = omega arith in
    let l = length-load m addr n in
    let z : n - length (load m addr n) ≡ 0 = omega arith in
    ap (λ j. take n (load m addr j)) e
    ∙ ap (take n) (load-add m addr n (k - n))
    ∙ take-append n (load m addr n) (load m (addr + n) (k - n))
    ∙ ap₂ (λ a b. a ++ take b (load m (addr + n) (k - n)))
        (take-all n (load m addr n) (omega arith)) z
    ∙ append-nil (load m addr n)

pub drop-load :
    (m : Memory) (addr n k : ℕ) → n ≤ k → drop n (load m addr k) ≡ load m (addr + n) (k - n)
drop-load m addr n k h =
    let e : k ≡ n + (k - n) = omega arith in
    let l = length-load m addr n in
    let z : n - length (load m addr n) ≡ 0 = omega arith in
    ap (λ j. drop n (load m addr j)) e
    ∙ ap (drop n) (load-add m addr n (k - n))
    ∙ drop-append n (load m addr n) (load m (addr + n) (k - n))
    ∙ ap₂ (λ a b. a ++ drop b (load m (addr + n) (k - n)))
        (drop-all n (load m addr n) (omega arith)) z
