-- ===== src/RadixTree.antt =====
-- src/fs/RadixTree.c: a map of keys to pointers in three layers of 512 slots.
pub mod Map
pub mod Put
pub mod Ready
use nvmfs.Prelude.{
  ℕ, ◌/◌, ◌%◌, ◌^◌, ◌>>=◌, Option, none, some, List, [], ◌∷◌, ◌++◌, get_or, replicate, set,
}

-- The slots of a node; `none` is a null pointer.
abbrev pub Slots {ℓ} : Type ℓ → Type ℓ
Slots A = List (Option A)

pub record RadixTree {ℓ} (V : Type ℓ) : Type ℓ where
  pub root : Slots (Slots (Slots V))

abbrev pub slot_num : ℕ
slot_num = 512

-- A node from kzalloc.
abbrev pub empty_node {ℓ} : {A : Type ℓ} → Slots A
empty_node = replicate slot_num none

abbrev pub index_of_first_layer : ℕ → ℕ
index_of_first_layer key = (key / 2 ^ 18) % 2 ^ 9

abbrev pub index_of_second_layer : ℕ → ℕ
index_of_second_layer key = (key / 2 ^ 9) % 2 ^ 9

abbrev pub index_of_third_layer : ℕ → ℕ
index_of_third_layer key = key % 2 ^ 9

-- An empty slot gets an empty node, as by one caller alone.
abbrev pub filled {ℓ} : {A : Type ℓ} → Slots (Slots A) → ℕ → Option (Slots A) → Slots (Slots A)
filled slots i none = set slots i (some empty_node)
filled slots i (some node) = slots

module _ {ℓ} {V : Type ℓ} where
  abbrev pub init : RadixTree V
  init = record { root = empty_node }

  -- `none`: a failed assertion.
  unfoldable pub radix_set : RadixTree V → ℕ → Option V → Option (RadixTree V)
  radix_set t key value =
      let index1 = index_of_first_layer key in
      let index2 = index_of_second_layer key in
      get_or t.root index1 none >>= λ second. get_or second index2 none >>= λ third.
      let third' = set third (index_of_third_layer key) value in
      some (record { root = set t.root index1 (some (set second index2 (some third'))) })

  -- `none`: a null pointer is followed.
  unfoldable pub set_prepare : RadixTree V → ℕ → Option (RadixTree V)
  set_prepare t key =
      let index1 = index_of_first_layer key in
      let index2 = index_of_second_layer key in
      let first = filled t.root index1 (get_or t.root index1 none) in
      get_or first index1 none >>= λ second.
      let second' = filled second index2 (get_or second index2 none) in
      some (record { root = set first index1 (some second') })

  -- `none`: the null pointer is returned.
  unfoldable pub radix_get : RadixTree V → ℕ → Option V
  radix_get t key = get_or t.root (index_of_first_layer key) none >>= λ second.
      get_or second (index_of_second_layer key) none >>= λ third.
      get_or third (index_of_third_layer key) none

  -- The values handed to the deletion function, in order.
  abbrev pub delete_third_layer : Slots V → List V
  delete_third_layer [] = []
  delete_third_layer (none ∷ slots) = delete_third_layer slots
  delete_third_layer (some value ∷ slots) = value ∷ delete_third_layer slots

  abbrev pub delete_second_layer : Slots (Slots V) → List V
  delete_second_layer [] = []
  delete_second_layer (none ∷ slots) = delete_second_layer slots
  delete_second_layer (some third ∷ slots) = delete_third_layer third ++ delete_second_layer slots

  abbrev pub delete_first_layer : Slots (Slots (Slots V)) → List V
  delete_first_layer [] = []
  delete_first_layer (none ∷ slots) = delete_first_layer slots
  delete_first_layer (some second ∷ slots) = delete_second_layer second ++ delete_first_layer slots

  unfoldable pub uninit : RadixTree V → List V
  uninit t = delete_first_layer t.root
