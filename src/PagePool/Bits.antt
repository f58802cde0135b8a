-- ===== src/PagePool/Bits.antt =====
-- The bitmap of a sub-pool: the search, the writes, and how many bits are 0.
use nvmfs.Prelude.{
  ℕ, zero, suc, ◌+◌, ◌-◌, ◌*◌, ◌/◌, ◌%◌, ◌≤◌, ◌<◌, ◌≡◌, ◌≢◌, refl, sym, ap, ◌∙◌, inl, inr, Bool,
  true, false, Bool-cases, none, some, List, [], ◌∷◌, length, get_or, set, leb, if◌then◌else◌,
  arith, get_or-set_self, get_or-set_ne, length-set, eq_cases, of_some, not_some, subst,
}
use nvmfs.PagePool.{all_set, page_pool_ffz, zero_from, bitmap_zero_get, bitmap_write}

-- 1 for a bit that is 0.
abbrev pub vacant : Bool → ℕ
vacant true = 0
vacant false = 1

abbrev pub zeros_in : List Bool → ℕ
zeros_in [] = 0
zeros_in (b ∷ bits) = vacant b + zeros_in bits

abbrev pub zeros : List (List Bool) → ℕ
zeros [] = 0
zeros (w ∷ ws) = zeros_in w + zeros ws

-- The bit of a page; outside the bitmap there is no page to take.
unfoldable pub bit : List (List Bool) → ℕ → Bool
bit bitmap index = get_or (get_or bitmap (index / 64) []) (index % 64) true

pub record IsBitmap (bitmap : List (List Bool)) : Type 0 where
  pub words : length bitmap ≡ 8
  pub bits : (i : ℕ) → i < 8 → length (get_or bitmap i []) ≡ 64

ffz-vacant :
    (w : List Bool)
    → all_set w ≡ false
    → (page_pool_ffz w < length w) × (get_or w (page_pool_ffz w) true ≡ false)
ffz-vacant [] h = absurd (cc)
ffz-vacant (true ∷ w) h = let (a, b) = ffz-vacant w h in (omega arith, b)
ffz-vacant (false ∷ w) h = (omega arith, refl)

zeros_in-all_set : (w : List Bool) → all_set w ≡ true → zeros_in w ≡ 0
zeros_in-all_set [] h = refl
zeros_in-all_set (true ∷ w) h = omega (arith, zeros_in-all_set w h)
zeros_in-all_set (false ∷ w) h = absurd (cc)

zeros_in-set :
    (w : List Bool) (i : ℕ) (b : Bool)
    → i < length w
    → zeros_in (set w i b) + vacant (get_or w i true) ≡ zeros_in w + vacant b
zeros_in-set [] i b h = absurd (omega arith)
zeros_in-set (x ∷ w) zero b h = omega arith
zeros_in-set (x ∷ w) (suc i) b h = omega (arith, zeros_in-set w i b (omega arith))

zeros-set :
    (ws : List (List Bool)) (i : ℕ) (w : List Bool)
    → i < length ws
    → zeros (set ws i w) + zeros_in (get_or ws i []) ≡ zeros ws + zeros_in w
zeros-set [] i w h = absurd (omega arith)
zeros-set (x ∷ ws) zero w h = omega arith
zeros-set (x ∷ ws) (suc i) w h = omega (arith, zeros-set ws i w (omega arith))

zeros_in-le : (w : List Bool) → zeros_in w ≤ length w
zeros_in-le [] = omega arith
zeros_in-le (true ∷ w) = omega (arith, zeros_in-le w)
zeros_in-le (false ∷ w) = omega (arith, zeros_in-le w)

zeros_in-full :
    (w : List Bool) (i : ℕ) → zeros_in w ≡ length w → i < length w → get_or w i true ≡ false
zeros_in-full [] i e h = absurd (omega arith)
zeros_in-full (true ∷ w) i e h = absurd (omega (arith, zeros_in-le w))
zeros_in-full (false ∷ w) zero e h = refl
zeros_in-full (false ∷ w) (suc i) e h = zeros_in-full w i (omega arith) (omega arith)

zeros-le :
    (ws : List (List Bool))
    → ((i : ℕ) → i < length ws → length (get_or ws i []) ≡ 64)
    → zeros ws ≤ length ws * 64
zeros-le [] h = omega arith
zeros-le (w ∷ ws) h =
    omega (arith, zeros_in-le w, h 0 (omega arith), zeros-le ws (λ i l. h (suc i) (omega arith)))

zeros-full :
    (ws : List (List Bool)) (i : ℕ)
    → ((i : ℕ) → i < length ws → length (get_or ws i []) ≡ 64)
    → zeros ws ≡ length ws * 64
    → i < length ws
    → zeros_in (get_or ws i []) ≡ 64
zeros-full [] i h e l = absurd (omega arith)
zeros-full (w ∷ ws) zero h e l =
    omega (arith, zeros_in-le w, h 0 (omega arith), zeros-le ws (λ i l. h (suc i) (omega arith)))
zeros-full (w ∷ ws) (suc i) h e l =
    zeros-full ws i (λ i l. h (suc i) (omega arith))
      (omega
        (arith, zeros_in-le w, h 0 (omega arith), zeros-le ws (λ i l. h (suc i) (omega arith))))
      (omega arith)

zeros-all_set :
    (ws : List (List Bool))
    → ((i : ℕ) → i < length ws → all_set (get_or ws i []) ≡ true)
    → zeros ws ≡ 0
zeros-all_set [] h = refl
zeros-all_set (w ∷ ws) h = omega (
  arith,
  zeros_in-all_set w (h 0 (omega arith)),
  zeros-all_set ws (λ i l. h (suc i) (omega arith)),
)

zero_from-some :
    (rounds : ℕ) (bitmap : List (List Bool)) (i j : ℕ)
    → IsBitmap bitmap
    → i < 8
    → zero_from rounds bitmap i ≡ some j
    → (j < 512) × (bit bitmap j ≡ false)
unfolding bit
zero_from-some zero bitmap i j v h e = absurd (not_some refl e)
zero_from-some (suc rounds) bitmap i j v h e = elim (Bool-cases (all_set (get_or bitmap i []))) [
  | inl a ↦
      zero_from-some rounds bitmap (if leb 8 (i + 1) then i + 1 - 8 else i + 1) j v (ground arith)
        (rw a at e)
  | inr a ↦
      let (l, b) = ffz-vacant (get_or bitmap i []) a in
      let len = v.bits i h in
      let at : i * 64 + page_pool_ffz (get_or bitmap i []) ≡ j = of_some (rw a at e) in
      let word : j / 64 ≡ i = omega arith in
      let place : j % 64 ≡ page_pool_ffz (get_or bitmap i []) = omega arith in
      (omega arith, rw (word, place) b)
]

zero_from-none :
    (rounds : ℕ) (bitmap : List (List Bool)) (i k : ℕ)
    → zero_from rounds bitmap i ≡ none
    → i < 8
    → k < rounds
    → rounds ≤ 8
    → all_set (get_or bitmap (if leb 8 (i + k) then i + k - 8 else i + k) []) ≡ true
zero_from-none zero bitmap i k e h l r = absurd (omega arith)
zero_from-none (suc rounds) bitmap i k e h l r = elim (Bool-cases (all_set (get_or bitmap i []))) [
  | inr a ↦ absurd (not_some {a = i * 64 + page_pool_ffz (get_or bitmap i [])} e (rw a refl))
  | inl a ↦ elim (eq_cases k 0) [
    | inl z ↦
        let here : (if leb 8 (i + k) then i + k - 8 else i + k) ≡ i = ground arith in rw here a
    | inr n ↦
        let next = if leb 8 (i + 1) then i + 1 - 8 else i + 1 in
        let small : next < 8 = ground arith in
        let same : (if leb 8 (next + (k - 1)) then next + (k - 1) - 8 else next + (k - 1))
            ≡ (if leb 8 (i + k) then i + k - 8 else i + k) =
          ground arith in
        subst (λ z. all_set (get_or bitmap z []) ≡ true) same
          (zero_from-none rounds bitmap next (k - 1) (rw a at e) small (omega arith) (omega arith))
  ]
]

-- Where a bit is 0, one is found.
pub bitmap_zero_get-none :
    (bitmap : List (List Bool)) (start : ℕ)
    → IsBitmap bitmap
    → start < 8
    → bitmap_zero_get bitmap start ≡ none
    → zeros bitmap ≡ 0
unfolding bitmap_zero_get
bitmap_zero_get-none bitmap start v h e = zeros-all_set bitmap (λ i l.
    let w = v.words in
    let k = if leb start i then i - start else i + 8 - start in
    let small : k < 8 = ground arith in
    let same : (if leb 8 (start + k) then start + k - 8 else start + k) ≡ i = ground arith in
    subst (λ z. all_set (get_or bitmap z []) ≡ true) same
      (zero_from-none 8 bitmap start k e h small (omega arith)))

pub bitmap_zero_get-some :
    (bitmap : List (List Bool)) (start j : ℕ)
    → IsBitmap bitmap
    → start < 8
    → bitmap_zero_get bitmap start ≡ some j
    → (j < 512) × (bit bitmap j ≡ false)
unfolding bitmap_zero_get
bitmap_zero_get-some bitmap start j v h e = zero_from-some 8 bitmap start j v h e

module _ (bitmap : List (List Bool)) (v : IsBitmap bitmap) (j : ℕ) (h : j < 512) (b : Bool) where
  in_words : j / 64 < length bitmap
  in_words = let w = v.words in omega arith

  in_word : j % 64 < length (get_or bitmap (j / 64) [])
  in_word = let w = v.bits (j / 64) (omega arith) in omega arith

  pub bitmap_write-IsBitmap : IsBitmap (bitmap_write bitmap j b)
  unfolding bitmap_write
  bitmap_write-IsBitmap =
      let word = get_or bitmap (j / 64) [] in
      record {
        words = length-set bitmap (j / 64) (set word (j % 64) b) ∙ v.words;
        bits = λ i l. elim (eq_cases (j / 64) i) [
          | inl e ↦
              ap (λ k. length (get_or (set bitmap (j / 64) (set word (j % 64) b)) k [])) (sym e)
              ∙ ap length (get_or-set_self bitmap (j / 64) (set word (j % 64) b) [] in_words)
              ∙ length-set word (j % 64) b
              ∙ v.bits (j / 64) (omega arith)
          | inr n ↦ ap length (get_or-set_ne bitmap (set word (j % 64) b) [] n) ∙ v.bits i l
        ];
      }

  pub bit-write_self : bit (bitmap_write bitmap j b) j ≡ b
  unfolding bit bitmap_write
  bit-write_self =
      let word = get_or bitmap (j / 64) [] in
      ap (λ w. get_or w (j % 64) true)
        (get_or-set_self bitmap (j / 64) (set word (j % 64) b) [] in_words)
      ∙ get_or-set_self word (j % 64) b true in_word

  pub bit-write_ne : (k : ℕ) → j ≢ k → bit (bitmap_write bitmap j b) k ≡ bit bitmap k
  unfolding bit bitmap_write
  bit-write_ne k n =
      let word = get_or bitmap (j / 64) [] in
      elim (eq_cases (j / 64) (k / 64)) [
        | inl e ↦
            ap (λ i. get_or (get_or (set bitmap (j / 64) (set word (j % 64) b)) i []) (k % 64) true)
              (sym e)
            ∙ ap (λ w. get_or w (k % 64) true)
                (get_or-set_self bitmap (j / 64) (set word (j % 64) b) [] in_words)
            ∙ get_or-set_ne word b true (λ f. n (omega arith))
            ∙ ap (λ i. get_or (get_or bitmap i []) (k % 64) true) e
        | inr m ↦ ap (λ w. get_or w (k % 64) true) (get_or-set_ne bitmap (set word (j % 64) b) [] m)
      ]

  pub zeros-write :
      zeros (bitmap_write bitmap j b) + vacant (bit bitmap j) ≡ zeros bitmap + vacant b
  unfolding bit bitmap_write
  zeros-write =
      let word = get_or bitmap (j / 64) [] in
      omega (
        arith,
        zeros-set bitmap (j / 64) (set word (j % 64) b) in_words,
        zeros_in-set word (j % 64) b in_word,
      )

pub bit-full :
    (bitmap : List (List Bool)) (j : ℕ)
    → IsBitmap bitmap
    → zeros bitmap ≡ 512
    → j < 512
    → bit bitmap j ≡ false
unfolding bit
bit-full bitmap j v e h =
    let w = v.words in
    let bits = λ (i : ℕ) (l : i < length bitmap). v.bits i (omega arith) in
    let full = zeros-full bitmap (j / 64) bits (omega arith) (omega arith) in
    zeros_in-full (get_or bitmap (j / 64) []) (j % 64) (full ∙ sym (v.bits (j / 64) (omega arith)))
      (let l = v.bits (j / 64) (omega arith) in omega arith)

pub zeros-bound : (bitmap : List (List Bool)) → IsBitmap bitmap → zeros bitmap ≤ 512
zeros-bound bitmap v =
    let w = v.words in omega (arith, zeros-le bitmap (λ i l. v.bits i (omega arith)))

pub bit-none :
    (bitmap : List (List Bool)) (j : ℕ)
    → IsBitmap bitmap
    → zeros bitmap ≡ 0
    → j < 512
    → bit bitmap j ≡ true
bit-none bitmap j v e h = elim (Bool-cases (bit bitmap j)) [
  | inl t ↦ t
  | inr f ↦ absurd (omega (arith, zeros-write bitmap v j h true, ap vacant f))
]
