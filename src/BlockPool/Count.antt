-- ===== src/BlockPool/Count.antt =====
-- How often a block number stands in an array.
use nvmfs.Prelude.{
  ℕ, zero, suc, ◌+◌, ◌-◌, ◌≤◌, ◌<◌, ◌≡◌, refl, List, [], ◌∷◌, ◌++◌, ◌==◌, if◌then◌else◌, arith,
  length, take, drop, set, length-append, length-take, length-drop,
}
use native.Mathlib.Nat.{zero-add}
use nvmfs.BlockPool.{blit}

-- 1 if the two are the same
abbrev pub same : ℕ → ℕ → ℕ
same b x = if x == b then 1 else 0

abbrev pub occurs : ℕ → List ℕ → ℕ
occurs b [] = 0
occurs b (x ∷ xs) = same b x + occurs b xs

pub occurs-append : (b : ℕ) (xs ys : List ℕ) → occurs b (xs ++ ys) ≡ occurs b xs + occurs b ys
occurs-append b [] ys = omega arith
occurs-append b (x ∷ xs) ys = omega (arith, occurs-append b xs ys)

pub occurs-take-drop :
    (b n : ℕ) (xs : List ℕ) → occurs b (take n xs) + occurs b (drop n xs) ≡ occurs b xs
occurs-take-drop b zero xs = omega arith
occurs-take-drop b (suc n) [] = omega arith
occurs-take-drop b (suc n) (x ∷ xs) = omega (arith, occurs-take-drop b n xs)

pub occurs-take-set :
    (b n v : ℕ) (xs : List ℕ)
    → n < length xs
    → occurs b (take (suc n) (set xs n v)) ≡ occurs b (take n xs) + same b v
occurs-take-set b zero v [] h = absurd (omega arith)
occurs-take-set b zero v (x ∷ xs) h = omega arith
occurs-take-set b (suc n) v [] h = absurd (omega arith)
occurs-take-set b (suc n) v (x ∷ xs) h = omega (arith, occurs-take-set b n v xs)

take-nil : (n : ℕ) → take {A = ℕ} n [] ≡ []
take-nil zero = refl
take-nil (suc n) = refl

pub occurs-take-take-drop :
    (b m n : ℕ) (xs : List ℕ)
    → m ≤ n
    → occurs b (take m xs) + occurs b (take (n - m) (drop m xs)) ≡ occurs b (take n xs)
occurs-take-take-drop b zero n xs h = ground arith
occurs-take-take-drop b (suc m) zero xs h = absurd (omega arith)
occurs-take-take-drop b (suc m) (suc n) [] h = rw take-nil
occurs-take-take-drop b (suc m) (suc n) (x ∷ xs) h =
    let e : suc n - suc m ≡ n - m = omega arith in
    rw e (omega (arith, occurs-take-take-drop b m n xs (omega arith)))

pub length-blit :
    (dst : List ℕ) (at : ℕ) (src : List ℕ) (n : ℕ)
    → at + n ≤ length dst
    → n ≤ length src
    → length (blit dst at src n) ≡ length dst
length-blit dst at src n h k = omega (
  arith,
  length-append (take at dst) (take n src ++ drop (at + n) dst),
  length-append (take n src) (drop (at + n) dst),
  length-take at dst,
  length-take n src,
  length-drop (at + n) dst,
)

occurs-take_append :
    (b : ℕ) (src rest : List ℕ) (n : ℕ)
    → n ≤ length src
    → occurs b (take n (take n src ++ rest)) ≡ occurs b (take n src)
occurs-take_append b src rest zero h = refl
occurs-take_append b [] rest (suc n) h = absurd (omega arith)
occurs-take_append b (x ∷ src) rest (suc n) h =
    omega (arith, occurs-take_append b src rest n (omega arith))

-- The first entries after a copy to the front or behind `at` entries.
pub occurs-take-blit :
    (b : ℕ) (dst : List ℕ) (at : ℕ) (src : List ℕ) (n : ℕ)
    → at ≤ length dst
    → n ≤ length src
    → occurs b (take (at + n) (blit dst at src n)) ≡ occurs b (take at dst) + occurs b (take n src)
occurs-take-blit b dst zero src n h k =
    rw zero-add (omega (arith, occurs-take_append b src (drop n dst) n k))
occurs-take-blit b [] (suc at) src n h k = absurd (omega arith)
occurs-take-blit b (x ∷ dst) (suc at) src n h k =
    let e : suc at + n ≡ suc (at + n) = omega arith in
    rw e (omega (arith, occurs-take-blit b dst at src n (omega arith) k))

pub occurs-take-blit_front :
    (b : ℕ) (dst src : List ℕ) (n : ℕ)
    → n ≤ length src
    → occurs b (take n (blit dst 0 src n)) ≡ occurs b (take n src)
occurs-take-blit_front b dst src n k = occurs-take_append b src (drop (0 + n) dst) n k

pub occurs-take_all : (b n : ℕ) (xs : List ℕ) → n ≡ length xs → occurs b (take n xs) ≡ occurs b xs
occurs-take_all b zero [] e = refl
occurs-take_all b zero (x ∷ xs) e = absurd (omega arith)
occurs-take_all b (suc n) [] e = refl
occurs-take_all b (suc n) (x ∷ xs) e = omega (arith, occurs-take_all b n xs (omega arith))

pub occurs-take-take :
    (b m n : ℕ) (xs : List ℕ) → m ≤ n → occurs b (take m (take n xs)) ≡ occurs b (take m xs)
occurs-take-take b zero n xs h = refl
occurs-take-take b (suc m) zero xs h = absurd (omega arith)
occurs-take-take b (suc m) (suc n) [] h = refl
occurs-take-take b (suc m) (suc n) (x ∷ xs) h =
    omega (arith, occurs-take-take b m n xs (omega arith))
