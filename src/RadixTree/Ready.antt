-- ===== src/RadixTree/Ready.antt =====
-- RadixTreeSet without the preparation, where the nodes of the key are there, and what the
-- preparation leaves.
use nvmfs.Prelude.{
  ℕ, zero, suc, ◌%◌, ◌^◌, ◌<◌, ◌≡◌, ◌≢◌, refl, sym, ap, ◌∙◌, inl, inr, Option, none, some, List, [],
  ◌∷◌, length, get_or, set, get_or-set_self, get_or-set_ne, length-set, eq_cases, arith, of_some,
  ◌⊎◌,
}
use nvmfs.RadixTree.{
  Slots, RadixTree, filled, radix_set, set_prepare, radix_get, index_of_first_layer,
  index_of_second_layer, index_of_third_layer,
}
use nvmfs.RadixTree.Map.{
  or_empty, child, IsValid, get_or-filled, get_or-filled_ne, length-filled, child-set_self,
  child-set_ne, child-filled, radix_get-slot_of,
}
use nvmfs.RadixTree.Put.{
  first, second, third, prepared, written, in_first, in_second, in_filled, set_prepare-prepared,
  radix_set-written, written-IsValid, slot_of-written_self, slot_of-written_ne,
}

-- The two nodes on the way to a key's slot are there.
pub record Ready {ℓ} {V : Type ℓ} (t : RadixTree V) (key : ℕ) : Type ℓ where
  pub node : Slots (Slots V)
  pub last : Slots V
  pub at_first : get_or t.root (index_of_first_layer key) none ≡ some node
  pub at_second : get_or node (index_of_second_layer key) none ≡ some last

set-set {ℓ} : {A : Type ℓ} (xs : List A) (i : ℕ) (a b : A) → set (set xs i a) i b ≡ set xs i b
set-set [] i a b = refl
set-set (x ∷ xs) zero a b = refl
set-set (x ∷ xs) (suc i) a b = ap (λ ys. x ∷ ys) (set-set xs i a b)

set-same {ℓ} :
    {A : Type ℓ} (xs : List (Option A)) (i : ℕ) (a : A)
    → get_or xs i none ≡ some a
    → set xs i (some a) ≡ xs
set-same [] i a e = refl
set-same (x ∷ xs) zero a e = ap (λ y. y ∷ xs) (sym e)
set-same (x ∷ xs) (suc i) a e = ap (λ ys. x ∷ ys) (set-same xs i a e)

module _ {ℓ} {V : Type ℓ} (t : RadixTree V) (key : ℕ) (v : IsValid t) where
  prepared-same : Ready t key → (prepared t key v).root ≡ t.root
  prepared-same r =
      let i1 = index_of_first_layer key in
      let i2 = index_of_second_layer key in
      let f : filled t.root i1 (get_or t.root i1 none) ≡ t.root =
        ap (filled t.root i1) r.at_first in
      let c : child t.root i1 ≡ r.node = ap or_empty r.at_first in
      let s : filled (child t.root i1) i2 (get_or (child t.root i1) i2 none) ≡ r.node =
        ap (λ n. filled n i2 (get_or n i2 none)) c ∙ ap (filled r.node i2) r.at_second in
      ap (λ x. set x i1 (some (filled (child t.root i1) i2 (get_or (child t.root i1) i2 none)))) f
      ∙ ap (λ n. set t.root i1 (some n)) s
      ∙ set-same t.root i1 r.node r.at_first

  prepared-Ready : Ready (prepared t key v) key
  prepared-Ready = record {
    node = second t key v;
    last = third t key v;
    at_first =
        get_or-set_self (first t key v) (index_of_first_layer key) (some (second t key v)) none
          (in_filled t key v);
    at_second =
        get_or-filled (child t.root (index_of_first_layer key)) (index_of_second_layer key)
          (in_second t key v);
  }

  -- The nodes of a key are still there once the way to `key` is filled.
  prepared-keeps_Ready : (k : ℕ) → Ready t k → Ready (prepared t key v) k
  prepared-keeps_Ready k r =
      let i1 = index_of_first_layer key in
      let i2 = index_of_second_layer key in
      let k1 = index_of_first_layer k in
      let k2 = index_of_second_layer k in
      elim (eq_cases i1 k1) [
        | inr n ↦ record {
          node = r.node;
          last = r.last;
          at_first =
              get_or-set_ne (first t key v) (some (second t key v)) none n
              ∙ get_or-filled_ne t.root i1 k1 n
              ∙ r.at_first;
          at_second = r.at_second;
        }
        | inl e ↦
            let own : child t.root i1 ≡ r.node = ap (child t.root) e ∙ ap or_empty r.at_first in
            let here : get_or (prepared t key v).root k1 none ≡ some (second t key v) =
              ap (λ i. get_or (prepared t key v).root i none) (sym e)
              ∙ get_or-set_self (first t key v) i1 (some (second t key v)) none
                  (in_filled t key v) in
            elim (eq_cases i2 k2) [
              | inl f ↦ record {
                node = second t key v;
                last = third t key v;
                at_first = here;
                at_second =
                    ap (λ i. get_or (second t key v) i none) (sym f)
                    ∙ get_or-filled (child t.root i1) i2 (in_second t key v);
              }
              | inr n ↦ record {
                node = second t key v;
                last = r.last;
                at_first = here;
                at_second =
                    get_or-filled_ne (child t.root i1) i2 k2 n
                    ∙ ap (λ c. get_or c k2 none) own
                    ∙ r.at_second;
              }
            ]
      ]

  module _ (value : Option V) where
    abbrev leaf : Slots V
    leaf = set (third t key v) (index_of_third_layer key) value

    abbrev inner : Slots (Slots V)
    inner = set (second t key v) (index_of_second_layer key) (some leaf)

    written-keeps_Ready : (k : ℕ) → Ready (prepared t key v) k → Ready (written t key v value) k
    written-keeps_Ready k r =
        let i1 = index_of_first_layer key in
        let i2 = index_of_second_layer key in
        let k1 = index_of_first_layer k in
        let k2 = index_of_second_layer k in
        let len : i1 < length (prepared t key v).root =
          let h = in_filled t key v in
          omega (arith, length-set (first t key v) i1 (some (second t key v))) in
        let len2 : i2 < length (second t key v) =
          let h = in_second t key v in
          omega (arith, length-filled (child t.root i1) i2 (get_or (child t.root i1) i2 none)) in
        elim (eq_cases i1 k1) [
          | inr n ↦ record {
            node = r.node;
            last = r.last;
            at_first = get_or-set_ne (prepared t key v).root (some inner) none n ∙ r.at_first;
            at_second = r.at_second;
          }
          | inl e ↦
              let here : get_or (written t key v value).root k1 none ≡ some inner =
                ap (λ i. get_or (written t key v value).root i none) (sym e)
                ∙ get_or-set_self (prepared t key v).root i1 (some inner) none len in
              let old : some (second t key v) ≡ some r.node =
                sym (
                  get_or-set_self (first t key v) i1 (some (second t key v)) none
                    (in_filled t key v))
                ∙ ap (λ i. get_or (prepared t key v).root i none) e
                ∙ r.at_first in
              elim (eq_cases i2 k2) [
                | inl f ↦ record {
                  node = inner;
                  last = leaf;
                  at_first = here;
                  at_second =
                      ap (λ i. get_or inner i none) (sym f)
                      ∙ get_or-set_self (second t key v) i2 (some leaf) none len2;
                }
                | inr n ↦ record {
                  node = inner;
                  last = r.last;
                  at_first = here;
                  at_second =
                      get_or-set_ne (second t key v) (some leaf) none n
                      ∙ ap (λ c. get_or c k2 none) (of_some old)
                      ∙ r.at_second;
                }
              ]
        ]

-- What RadixTreeSet of a key leaves, whose nodes are there.
pub record Sets {ℓ} {V : Type ℓ} (t : RadixTree V) (key : ℕ) (value : Option V)
    (o : Option (RadixTree V)) : Type ℓ where
  pub tree : RadixTree V
  pub result : o ≡ some tree
  pub valid : IsValid tree
  pub ready : (k : ℕ) → Ready t k → Ready tree k
  pub found : (k : ℕ) → k % 2 ^ 27 ≡ key % 2 ^ 27 → radix_get tree k ≡ value
  pub others : (k : ℕ) → k % 2 ^ 27 ≢ key % 2 ^ 27 → radix_get tree k ≡ radix_get t k

pub radix_set-Sets {ℓ} :
    {V : Type ℓ} (t : RadixTree V) (key : ℕ) (value : Option V)
    → IsValid t
    → Ready t key
    → Sets t key value (radix_set t key value)
radix_set-Sets t key value v r =
    let same : prepared t key v ≡ t = ap (λ x. record { root = x }) (prepared-same t key v r) in
    record {
      tree = written t key v value;
      result = ap (λ x. radix_set x key value) (sym same) ∙ radix_set-written t key v value;
      valid = written-IsValid t key v value;
      ready = λ k q. written-keeps_Ready t key v value k (prepared-keeps_Ready t key v k q);
      found = λ k e.
          radix_get-slot_of (written t key v value) k ∙ slot_of-written_self t key v value k e;
      others = λ k n.
          radix_get-slot_of (written t key v value) k
          ∙ slot_of-written_ne t key v value k n
          ∙ sym (radix_get-slot_of t k);
    }

-- What RadixTreeSetPrepare leaves: the same map, and the nodes of the key.
pub record Prepares {ℓ} {V : Type ℓ} (t : RadixTree V) (key : ℕ) (o : Option (RadixTree V))
    : Type ℓ where
  pub tree : RadixTree V
  pub result : o ≡ some tree
  pub valid : IsValid tree
  pub at_key : Ready tree key
  pub ready : (k : ℕ) → Ready t k → Ready tree k
  pub same : (k : ℕ) → radix_get tree k ≡ radix_get t k

module _ {ℓ} {V : Type ℓ} (t : RadixTree V) (key : ℕ) (v : IsValid t) where
  prepared-child :
      (i : ℕ)
      → ((index_of_first_layer key ≡ i) × (child (prepared t key v).root i ≡ second t key v))
        ⊎ (child (prepared t key v).root i ≡ child t.root i)
  prepared-child i = elim (eq_cases (index_of_first_layer key) i) [
    | inl e ↦ inl (
      e,
      ap (child (prepared t key v).root) (sym e)
          ∙ child-set_self (first t key v) (index_of_first_layer key) (second t key v)
              (in_filled t key v),
    )
    | inr n ↦ inr (
        child-set_ne (first t key v) (index_of_first_layer key) i (second t key v) n
        ∙ child-filled t.root (index_of_first_layer key) i (in_first t key v))
  ]

  prepared-grandchild :
      (i j : ℕ) → child (child (prepared t key v).root i) j ≡ child (child t.root i) j
  prepared-grandchild i j = elim (prepared-child i) [
    | inl (e, c) ↦
        ap (λ n. child n j) c
        ∙ child-filled (child t.root (index_of_first_layer key)) (index_of_second_layer key) j
            (in_second t key v)
        ∙ ap (λ n. child (child t.root n) j) e
    | inr c ↦ ap (λ n. child n j) c
  ]

  pub set_prepare-Prepares : Prepares t key (set_prepare t key)
  set_prepare-Prepares = record {
    tree = prepared t key v;
    result = set_prepare-prepared t key v;
    valid = record {
      first =
          length-set (first t key v) (index_of_first_layer key) (some (second t key v))
          ∙ length-filled t.root (index_of_first_layer key)
              (get_or t.root (index_of_first_layer key) none)
          ∙ v.first;
      second = λ i. elim (prepared-child i) [
        | inl (e, c) ↦
            ap length c
            ∙ length-filled (child t.root (index_of_first_layer key)) (index_of_second_layer key)
                (get_or (child t.root (index_of_first_layer key)) (index_of_second_layer key) none)
            ∙ v.second (index_of_first_layer key)
        | inr c ↦ ap length c ∙ v.second i
      ];
      third = λ i j. ap length (prepared-grandchild i j) ∙ v.third i j;
    };
    at_key = prepared-Ready t key v;
    ready = prepared-keeps_Ready t key v;
    same = λ k.
        radix_get-slot_of (prepared t key v) k
        ∙ ap (λ c. get_or c (index_of_third_layer k) none)
            (prepared-grandchild (index_of_first_layer k) (index_of_second_layer k))
        ∙ sym (radix_get-slot_of t k);
  }
