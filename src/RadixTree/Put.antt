-- ===== src/RadixTree/Put.antt =====
-- RadixTreeSetPrepare and RadixTreeSet write one key of the map that RadixTreeGet reads.
use nvmfs.Prelude.{
  ℕ, ◌%◌, ◌^◌, ◌<◌, ◌≡◌, ◌≢◌, sym, ap, ◌∙◌, inl, inr, ◌>>=◌, Option, none, some, length, get_or,
  set, get_or-set_self, get_or-set_ne, length-set, eq_cases, arith,
}
use nvmfs.RadixTree.{
  Slots, RadixTree, filled, radix_set, set_prepare, radix_get, index_of_first_layer,
  index_of_second_layer, index_of_third_layer,
}
use nvmfs.RadixTree.Map.{
  child, IsValid, slot_of, get_or-filled, length-filled, child-set_self, child-set_ne, child-filled,
  radix_get-slot_of,
}

module _ {ℓ} {V : Type ℓ} (t : RadixTree V) (key : ℕ) (v : IsValid t) where
  abbrev pub i1 : ℕ
  i1 = index_of_first_layer key

  abbrev pub i2 : ℕ
  i2 = index_of_second_layer key

  abbrev pub i3 : ℕ
  i3 = index_of_third_layer key

  abbrev pub first : Slots (Slots (Slots V))
  first = filled t.root i1 (get_or t.root i1 none)

  abbrev pub second : Slots (Slots V)
  second = filled (child t.root i1) i2 (get_or (child t.root i1) i2 none)

  abbrev pub prepared : RadixTree V
  prepared = record { root = set first i1 (some second) }

  pub in_first : i1 < length t.root
  in_first = let h = v.first in omega arith

  pub in_second : i2 < length (child t.root i1)
  in_second = let h = v.second i1 in omega arith

  pub in_filled : i1 < length first
  in_filled = let h = in_first in omega (arith, length-filled t.root i1 (get_or t.root i1 none))

  pub set_prepare-prepared : set_prepare t key ≡ some prepared
  unfolding set_prepare
  set_prepare-prepared =
      ap
        (λ o.
          o >>= λ s. some (record { root = set first i1 (some (filled s i2 (get_or s i2 none))) }))
        (get_or-filled t.root i1 in_first)

  abbrev pub third : Slots V
  third = child (child t.root i1) i2

  -- The tree after the preparation and the write.
  abbrev pub written : Option V → RadixTree V
  written value = record {
    root = set prepared.root i1 (some (set second i2 (some (set third i3 value))));
  }

  pub radix_set-written : (value : Option V) → radix_set prepared key value ≡ some (written value)
  unfolding radix_set
  radix_set-written value =
      ap
        (λ o. o >>= λ s. get_or s i2 none >>= λ c.
          some (record { root = set prepared.root i1 (some (set s i2 (some (set c i3 value)))) }))
        (get_or-set_self first i1 (some second) none in_filled)
      ∙ ap
          (λ o. o >>= λ c.
            some (record {
              root = set prepared.root i1 (some (set second i2 (some (set c i3 value))));
            }))
          (get_or-filled (child t.root i1) i2 in_second)

  module _ (value : Option V) where
    pub child-written_self :
        child (written value).root i1 ≡ set second i2 (some (set third i3 value))
    child-written_self =
        child-set_self prepared.root i1 (set second i2 (some (set third i3 value)))
          (let h = in_filled in omega (arith, length-set first i1 (some second)))

    pub child-written_ne : (j : ℕ) → i1 ≢ j → child (written value).root j ≡ child t.root j
    child-written_ne j n =
        child-set_ne prepared.root i1 j (set second i2 (some (set third i3 value))) n
        ∙ child-set_ne first i1 j second n
        ∙ child-filled t.root i1 j in_first

    inner_self : child (set second i2 (some (set third i3 value))) i2 ≡ set third i3 value
    inner_self = child-set_self second i2 (set third i3 value) (
        let h = in_second in
        omega (arith, length-filled (child t.root i1) i2 (get_or (child t.root i1) i2 none)))

    inner_ne :
        (j : ℕ)
        → i2 ≢ j
        → child (set second i2 (some (set third i3 value))) j ≡ child (child t.root i1) j
    inner_ne j n =
        child-set_ne second i2 j (set third i3 value) n
        ∙ child-filled (child t.root i1) i2 j in_second

    pub written-IsValid : IsValid (written value)
    written-IsValid = record {
      first =
          length-set prepared.root i1 (some (set second i2 (some (set third i3 value))))
          ∙ length-set first i1 (some second)
          ∙ length-filled t.root i1 (get_or t.root i1 none)
          ∙ v.first;
      second = λ i. elim (eq_cases i1 i) [
        | inl e ↦
            ap (λ k. length (child (written value).root k)) (sym e)
            ∙ ap length child-written_self
            ∙ length-set second i2 (some (set third i3 value))
            ∙ length-filled (child t.root i1) i2 (get_or (child t.root i1) i2 none)
            ∙ v.second i1
        | inr n ↦ ap length (child-written_ne i n) ∙ v.second i
      ];
      third = λ i j. elim (eq_cases i1 i) [
        | inr n ↦ ap (λ c. length (child c j)) (child-written_ne i n) ∙ v.third i j
        | inl e ↦
            ap (λ k. length (child (child (written value).root k) j)) (sym e)
            ∙ ap (λ c. length (child c j)) child-written_self
            ∙ elim (eq_cases i2 j) [
              | inl q ↦
                  ap (λ k. length (child (set second i2 (some (set third i3 value))) k)) (sym q)
                  ∙ ap length inner_self
                  ∙ length-set third i3 value
                  ∙ v.third i1 i2
              | inr n ↦ ap length (inner_ne j n) ∙ v.third i1 j
            ]
      ];
    }

    pub slot_of-written_self :
        (k : ℕ) → k % 2 ^ 27 ≡ key % 2 ^ 27 → slot_of (written value).root k ≡ value
    slot_of-written_self k h =
        let e1 : index_of_first_layer k ≡ i1 = omega arith in
        let e2 : index_of_second_layer k ≡ i2 = omega arith in
        let e3 : index_of_third_layer k ≡ i3 = omega arith in
        rw (e1, e2, e3, child-written_self, inner_self)
          (get_or-set_self third i3 value none (let l = v.third i1 i2 in omega arith))

    pub slot_of-written_ne :
        (k : ℕ) → k % 2 ^ 27 ≢ key % 2 ^ 27 → slot_of (written value).root k ≡ slot_of t.root k
    slot_of-written_ne k h =
        let k2 = index_of_second_layer k in
        let k3 = index_of_third_layer k in
        elim (eq_cases i1 (index_of_first_layer k)) [
          | inr n ↦
              ap (λ c. get_or (child c k2) k3 none) (child-written_ne (index_of_first_layer k) n)
          | inl e1 ↦
              ap (λ i. get_or (child (child (written value).root i) k2) k3 none) (sym e1)
              ∙ ap (λ c. get_or (child c k2) k3 none) child-written_self
              ∙ inner k2 k3 (λ e2 e3. h (omega arith))
              ∙ ap (λ i. get_or (child (child t.root i) k2) k3 none) e1
        ]
      where
        inner :
            (k2 k3 : ℕ)
            → (i2 ≡ k2 → i3 ≢ k3)
            → get_or (child (set second i2 (some (set third i3 value))) k2) k3 none
              ≡ get_or (child (child t.root i1) k2) k3 none
        inner k2 k3 n = elim (eq_cases i2 k2) [
          | inr m ↦ ap (λ c. get_or c k3 none) (inner_ne k2 m)
          | inl e ↦
              ap (λ i. get_or (child (set second i2 (some (set third i3 value))) i) k3 none) (sym e)
              ∙ ap (λ c. get_or c k3 none) inner_self
              ∙ get_or-set_ne third value none (n e)
              ∙ ap (λ i. get_or (child (child t.root i1) i) k3 none) e
        ]

  -- In a tree whose nodes all have 512 slots, RadixTreeSetPrepare of a key and RadixTreeSet of it
  -- both succeed for any value, the nodes keep 512 slots, and RadixTreeGet then finds the value at
  -- every key with the same 27 low bits, and at every other key what it found before.
  pub radix_get-set :
      (value : Option V)
      → (t1 : RadixTree V) × (set_prepare t key ≡ some t1)
        × (t2 : RadixTree V) × (radix_set t1 key value ≡ some t2)
        × IsValid t2
        × ((k : ℕ) → k % 2 ^ 27 ≡ key % 2 ^ 27 → radix_get t2 k ≡ value)
        × ((k : ℕ) → k % 2 ^ 27 ≢ key % 2 ^ 27 → radix_get t2 k ≡ radix_get t k)
  radix_get-set value = (
    prepared,
    set_prepare-prepared,
    written value,
    radix_set-written value,
    written-IsValid value,
    λ k h. radix_get-slot_of (written value) k ∙ slot_of-written_self value k h,
    λ k h.
        radix_get-slot_of (written value) k
        ∙ slot_of-written_ne value k h
        ∙ sym (radix_get-slot_of t k),
  )
