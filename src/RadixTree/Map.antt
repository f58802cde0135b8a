-- ===== src/RadixTree/Map.antt =====
-- RadixTreeSetPrepare, RadixTreeSet and RadixTreeGet as a map.
use nvmfs.Prelude.{
  ℕ, zero, suc, ◌<◌, ◌≡◌, ◌≢◌, refl, sym, ap, ◌∙◌, inl, inr, ◌>>=◌, Option, none, some,
  Option-cases, length, get_or, set, replicate, get_or-set_self, get_or-set_ne, length-set,
  length-replicate, eq_cases,
}
use nvmfs.RadixTree.{
  Slots, RadixTree, slot_num, empty_node, filled, radix_get, init, index_of_first_layer,
  index_of_second_layer, index_of_third_layer,
}

module _ {ℓ} {A : Type ℓ} where
  -- The node behind a slot, an empty one behind an empty slot.
  abbrev pub or_empty : Option (Slots A) → Slots A
  or_empty none = empty_node
  or_empty (some node) = node

  abbrev pub child : Slots (Slots A) → ℕ → Slots A
  child s i = or_empty (get_or s i none)

  pub get_or-replicate : (n i : ℕ) (d : A) → get_or (replicate n d) i d ≡ d
  get_or-replicate zero i d = refl
  get_or-replicate (suc n) zero d = refl
  get_or-replicate (suc n) (suc i) d = get_or-replicate n i d

module _ {ℓ} {A : Type ℓ} (s : Slots (Slots A)) where
  pub get_or-filled :
      (i : ℕ) → i < length s → get_or (filled s i (get_or s i none)) i none ≡ some (child s i)
  get_or-filled i h = elim (Option-cases (get_or s i none)) [
    | inl e ↦
        ap (λ o. get_or (filled s i o) i none) e
        ∙ get_or-set_self s i (some empty_node) none h
        ∙ sym (ap (λ o. some (or_empty o)) e)
    | inr (c, e) ↦
        ap (λ o. get_or (filled s i o) i none) e ∙ e ∙ sym (ap (λ o. some (or_empty o)) e)
  ]

  pub get_or-filled_ne :
      (i j : ℕ) → i ≢ j → get_or (filled s i (get_or s i none)) j none ≡ get_or s j none
  get_or-filled_ne i j n = elim (Option-cases (get_or s i none)) [
    | inl e ↦ rw e (get_or-set_ne s (some empty_node) none n)
    | inr (c, e) ↦ rw e
  ]

  pub length-filled : (i : ℕ) (o : Option (Slots A)) → length (filled s i o) ≡ length s
  length-filled i none = length-set s i (some empty_node)
  length-filled i (some c) = refl

  pub child-set_self : (i : ℕ) (c : Slots A) → i < length s → child (set s i (some c)) i ≡ c
  child-set_self i c h = ap or_empty (get_or-set_self s i (some c) none h)

  pub child-set_ne : (i j : ℕ) (c : Slots A) → i ≢ j → child (set s i (some c)) j ≡ child s j
  child-set_ne i j c n = ap or_empty (get_or-set_ne s (some c) none n)

  pub child-filled : (i j : ℕ) → i < length s → child (filled s i (get_or s i none)) j ≡ child s j
  child-filled i j h = elim (eq_cases i j) [
    | inl e ↦
        ap (child (filled s i (get_or s i none))) (sym e)
        ∙ ap or_empty (get_or-filled i h)
        ∙ ap (child s) e
    | inr n ↦ ap or_empty (get_or-filled_ne i j n)
  ]

pub child-empty_node {ℓ} :
    {A : Type ℓ} (i : ℕ) → child (empty_node {A = Slots A}) i ≡ empty_node {A = A}
child-empty_node i = ap or_empty (get_or-replicate slot_num i none)

length-empty_node {ℓ} : (A : Type ℓ) → length (empty_node {A = A}) ≡ slot_num
length-empty_node A = length-replicate {A = Option A} slot_num none

module _ {ℓ} {V : Type ℓ} where
  -- All nodes have 512 slots.
  pub record IsValid (t : RadixTree V) : Type 0 where
    pub first : length t.root ≡ slot_num
    pub second : (i : ℕ) → length (child t.root i) ≡ slot_num
    pub third : (i j : ℕ) → length (child (child t.root i) j) ≡ slot_num

  -- The slot of a key, through missing nodes too.
  abbrev pub slot_of : Slots (Slots (Slots V)) → ℕ → Option V
  slot_of root key =
      get_or (child (child root (index_of_first_layer key)) (index_of_second_layer key))
        (index_of_third_layer key) none

  pub radix_get-slot_of : (t : RadixTree V) (key : ℕ) → radix_get t key ≡ slot_of t.root key
  unfolding radix_get
  radix_get-slot_of t key =
      let i1 = index_of_first_layer key in
      let i2 = index_of_second_layer key in
      let i3 = index_of_third_layer key in
      elim (Option-cases (get_or t.root i1 none)) [
        | inl e ↦
            ap (λ o. o >>= λ second. get_or second i2 none >>= λ third. get_or third i3 none) e
            ∙ sym (
                ap (λ o. get_or (child (or_empty o) i2) i3 none) e
                ∙ ap (λ c. get_or c i3 none) (child-empty_node i2)
                ∙ get_or-replicate slot_num i3 none)
        | inr (second, e) ↦
            ap (λ o. o >>= λ second. get_or second i2 none >>= λ third. get_or third i3 none) e
            ∙ last second i2 i3
            ∙ sym (ap (λ o. get_or (child (or_empty o) i2) i3 none) e)
      ]
    where
      last :
          (second : Slots (Slots V)) (i2 i3 : ℕ)
          → (get_or second i2 none >>= λ third. get_or third i3 none)
            ≡ get_or (child second i2) i3 none
      last second i2 i3 = elim (Option-cases (get_or second i2 none)) [
        | inl e ↦
            ap (λ o. o >>= λ third. get_or third i3 none) e
            ∙ sym (ap (λ o. get_or (or_empty o) i3 none) e ∙ get_or-replicate slot_num i3 none)
        | inr (third, e) ↦
            ap (λ o. o >>= λ third. get_or third i3 none) e
            ∙ sym (ap (λ o. get_or (or_empty o) i3 none) e)
      ]

  pub init-IsValid : IsValid (init {V = V})
  init-IsValid = record {
    first = length-empty_node (Slots (Slots V));
    second = λ i. ap length (child-empty_node i) ∙ length-empty_node (Slots V);
    third = λ i j.
        ap (λ c. length (child c j)) (child-empty_node i)
        ∙ ap length (child-empty_node j)
        ∙ length-empty_node V;
  }
