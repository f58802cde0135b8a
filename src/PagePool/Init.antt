-- ===== src/PagePool/Init.antt =====
-- PagePoolInit, with a block pool whose blocks have pages on 32 bits.
use nvmfs.Prelude.{ℕ, ◌≤◌, ◌≡◌, ap, Option, none, ◌>>=◌, get_or}
use nvmfs.BlockPool.{BlockPool}
use nvmfs.BlockPool.Valid
use nvmfs.RadixTree.{
  Slots, slot_num, radix_get, index_of_first_layer, index_of_second_layer, index_of_third_layer,
}
use nvmfs.RadixTree.Map.{get_or-replicate}
use nvmfs.RadixTree.Map
use nvmfs.PagePool.{init}
use nvmfs.PagePool.Valid.{block_limit, IsValid}

pub radix_get-init {ℓ} : {V : Type ℓ} (k : ℕ) → radix_get (nvmfs.RadixTree.init {V = V}) k ≡ none
unfolding radix_get
radix_get-init {V = V} k =
    ap
      (λ o. o >>= λ second. get_or second (index_of_second_layer k) none >>= λ third.
        get_or third (index_of_third_layer k) none)
      (get_or-replicate {A = Option (Slots (Slots V))} slot_num (index_of_first_layer k) none)

pub init-IsValid :
    (blocks : BlockPool)
    → Valid.IsValid blocks
    → ((b : ℕ) → block_limit ≤ b → Valid.free blocks b ≡ 0)
    → IsValid (init blocks)
unfolding init
init-IsValid blocks v small = record {
  blocks = v;
  small = small;
  nodes = Map.init-IsValid;
  sub_pools = tt;
  some_left = tt;
  distinct = tt;
  apart = tt;
  ready = tt;
  found = λ b h. radix_get-init b;
}
