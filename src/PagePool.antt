-- ===== src/PagePool.antt =====
-- src/fs/PagePool.c: pages of 4 KB out of blocks of the block pool. Each block has a sub-pool with a
-- bitmap of its 512 pages. `none` is a pointer that leads nowhere, or what the block pool or the radix
-- tree do not answer.
pub mod Bits
pub mod Valid
pub mod SubPools
pub mod TakeIndex
pub mod Take
pub mod AllocIn
pub mod Create
pub mod Fresh
pub mod Alloc
pub mod Deprecate
pub mod FreeIn
pub mod Free
pub mod Areas
pub mod Init
use nvmfs.Prelude.{
  ℕ, zero, suc, ◌+◌, ◌-◌, ◌*◌, ◌/◌, ◌%◌, ◌^◌, ◌>>=◌, Bool, true, false, ◌&&◌, Option, none, some,
  List, [], ◌∷◌, ◌++◌, map, get_or, set, replicate, ltb, leb, ◌==◌, if◌then◌else◌, add64, sub64,
  u64_mod,
}
use nvmfs.Types.{
  invalid_nvm_addr, logical_addr_to_block, logical_block_to_addr, logical_page_to_addr,
  logical_addr_to_page, logical_block_to_page, logical_page_to_block,
}
use nvmfs.RbTree.{RbTree}
use nvmfs.ExtentContainer.{key}
use nvmfs.RadixTree.{RadixTree, radix_get, radix_set, set_prepare}
use nvmfs.BlockPool.{BlockPool, pool_get, pool_put, pool_recovery_notify_block_busy}

-- The bitmap is eight words, each the list of its 64 bits from the lowest.
pub record PageSubPool : Type 0 where
  pub bitmap : List (List Bool)
  pub count : ℕ
  pub next_index : ℕ
  pub block : ℕ

-- A call of the accesser, with the address.
pub data NvmCall : Type 0 where
  split_call : ℕ → NvmCall
  merge_call : ℕ → NvmCall
  trim_call : ℕ → NvmCall

-- The sub-pools stand in the order of the list. A pointer to one, as the tree has it, is named by the
-- sub-pool's block.
pub record PagePool : Type 0 where
  pub sub_pool_num : ℕ
  pub page_num : ℕ
  pub non_full : List PageSubPool
  pub block_pool : BlockPool
  pub tree : RadixTree ℕ
  -- What the accesser was called with, in order.
  pub calls : List NvmCall

abbrev pub u16_mod : ℕ
u16_mod = 2 ^ 16

unfoldable pub create_page_sub_pool : ℕ → Bool → PageSubPool
create_page_sub_pool block empty = record {
  bitmap = replicate 8 (replicate 64 (if empty then false else true));
  count = if empty then 512 else 0;
  next_index = 0;
  block = block;
}

unfoldable pub init : BlockPool → PagePool
init block_pool = record {
  sub_pool_num = 0;
  page_num = 0;
  non_full = [];
  block_pool = block_pool;
  tree = nvmfs.RadixTree.init;
  calls = [];
}

-- `word == -1UL`
abbrev pub all_set : List Bool → Bool
all_set [] = true
all_set (b ∷ bits) = b && all_set bits

-- The index of the lowest bit that is 0.
abbrev pub page_pool_ffz : List Bool → ℕ
page_pool_ffz [] = 0
page_pool_ffz (true ∷ bits) = suc (page_pool_ffz bits)
page_pool_ffz (false ∷ bits) = 0

-- The loop of BitmapZeroGet from word `i` on, with `rounds` to go; none: -1.
abbrev pub zero_from : ℕ → List (List Bool) → ℕ → Option ℕ
zero_from zero bitmap i = none
zero_from (suc rounds) bitmap i =
    let word = get_or bitmap i [] in
    let rest = zero_from rounds bitmap (if leb 8 (i + 1) then i + 1 - 8 else i + 1) in
    if all_set word then rest else some (i * 64 + page_pool_ffz word)

unfoldable pub bitmap_zero_get : List (List Bool) → ℕ → Option ℕ
bitmap_zero_get bitmap start = zero_from 8 bitmap start

-- BitmapSet for `true` and BitmapClear for `false`.
unfoldable pub bitmap_write : List (List Bool) → ℕ → Bool → List (List Bool)
bitmap_write bitmap index bit =
    set bitmap (index / 64) (set (get_or bitmap (index / 64) []) (index % 64) bit)

-- What is left of the sub-pool once the page at `index` is taken.
unfoldable pub taken_at : PageSubPool → ℕ → PageSubPool
taken_at sp index = record sp {
  bitmap = bitmap_write sp.bitmap index true;
  count = (sp.count + u16_mod - 1) % u16_mod;
  next_index = index / 64;
}

-- In PagePoolFree: the page at `index` goes back to the sub-pool.
unfoldable pub returned_at : PageSubPool → ℕ → PageSubPool
returned_at sp index = record sp {
  bitmap = bitmap_write sp.bitmap index false;
  next_index = index / 64;
  count = (sp.count + 1) % u16_mod;
}

unfoldable pub page_at : PageSubPool → ℕ → ℕ
page_at sp index = add64 index (logical_block_to_page sp.block)

-- The page (none: invalid_page) and the sub-pool.
unfoldable pub take_index : PageSubPool → Option ℕ → Option ℕ × PageSubPool
take_index sp none = (none, sp)
take_index sp (some index) = (some (page_at sp index), taken_at sp index)

unfoldable pub alloc_page_from_page_sub_pool : PageSubPool → Option ℕ × PageSubPool
unfolding take_index
alloc_page_from_page_sub_pool sp = take_index sp (bitmap_zero_get sp.bitmap sp.next_index)

-- Through a pointer to the sub-pool of a block: the sub-pool, a write, and `list_del`.
abbrev pub sub_pool_of : ℕ → List PageSubPool → Option PageSubPool
sub_pool_of block [] = none
sub_pool_of block (sp ∷ sps) =
    let rest = sub_pool_of block sps in if sp.block == block then some sp else rest

abbrev pub write_sub_pool : PageSubPool → List PageSubPool → List PageSubPool
write_sub_pool new [] = []
write_sub_pool new (sp ∷ sps) =
    let rest = write_sub_pool new sps in if sp.block == new.block then new ∷ sps else sp ∷ rest

abbrev pub list_del : ℕ → List PageSubPool → List PageSubPool
list_del block [] = []
list_del block (sp ∷ sps) =
    let rest = list_del block sps in if sp.block == block then sps else sp ∷ rest

abbrev pub first_sub_pool : List PageSubPool → Option PageSubPool
first_sub_pool [] = none
first_sub_pool (sp ∷ sps) = some sp

abbrev pub is_empty : List PageSubPool → Bool
is_empty [] = true
is_empty (sp ∷ sps) = false

-- The list's head is put behind the sub-pool, so that the list is the sub-pool alone.
unfoldable pub add_page_sub_pool : PagePool → PageSubPool → Option PagePool
add_page_sub_pool p sp = radix_set p.tree sp.block (some sp.block) >>= λ tree. some (record p {
  non_full = sp ∷ [];
  sub_pool_num = add64 p.sub_pool_num 1;
  tree = tree;
  page_num = add64 p.page_num 512;
})

-- A sub-pool that has no page left goes from the list and the tree.
unfoldable pub page_sub_pool_allocated : PagePool → PageSubPool → Option PagePool
page_sub_pool_allocated p sp =
    let gone = radix_set p.tree sp.block none >>= λ tree. some (record p {
      tree = tree;
      non_full = list_del sp.block p.non_full;
      sub_pool_num = sub64 p.sub_pool_num 1;
    }) in
    if sp.count == 0 then gone else some p

unfoldable pub counted_page : PagePool → Option ℕ → Option ℕ × PagePool
counted_page p none = (none, p)
counted_page p (some page) =
    (some (logical_page_to_addr page), record p { page_num = sub64 p.page_num 1 })

-- Where the tree has no sub-pool of the block, one without a free page is made.
unfoldable pub with_sub_pool : PagePool → ℕ → Option ℕ → Option (PagePool × ℕ)
with_sub_pool p block (some pointer) = some (p, pointer)
with_sub_pool p block none = radix_set p.tree block (some block) >>= λ tree. some (
  record p {
    tree = tree;
    non_full = create_page_sub_pool block false ∷ p.non_full;
    sub_pool_num = add64 p.sub_pool_num 1;
  },
  block,
)

unfoldable pub relocked : (PagePool → PagePool) → PagePool → ℕ → Option ℕ → Option (PagePool × ℕ)
unfolding with_sub_pool
relocked others p block (some pointer) = some (p, pointer)
relocked others p block none = let p' = others p in with_sub_pool p' block (radix_get p'.tree block)

module _ (rb : RbTree key) where
  -- `blocks`: what the block pool wrote to `block`.
  unfoldable pub prepared_sub_pool :
      PagePool → ℕ × List ℕ × BlockPool → Option (Option PageSubPool × PagePool)
  prepared_sub_pool p (got, blocks, block_pool) =
      let block = get_or blocks 0 0 in
      let sub_pool = set_prepare p.tree block >>= λ tree. some (
        some (create_page_sub_pool block true),
        record p {
          block_pool = block_pool;
          tree = tree;
          calls =
              p.calls
              ++ (split_call (logical_block_to_addr block)
                  ∷ (trim_call (logical_block_to_addr block) ∷ []));
        },
      ) in
      if got == 0 then some (none, record p { block_pool = block_pool }) else sub_pool

  unfoldable pub page_sub_pool_prepare : PagePool → Option (Option PageSubPool × PagePool)
  unfolding prepared_sub_pool
  page_sub_pool_prepare p = pool_get rb p.block_pool 1 >>= prepared_sub_pool p

  -- The sub-pool's memory has been given back when its block is read for the tree: `freed_word`.
  unfoldable pub page_sub_pool_deprecate : PagePool → PageSubPool → Bool → Option PagePool
  page_sub_pool_deprecate p sp remove_from_tree =
      pool_put rb p.block_pool (sp.block ∷ []) >>= λ (trims, block_pool).
      let p' = record p {
        block_pool = block_pool;
        calls =
            p.calls
            ++ (merge_call (logical_block_to_addr sp.block)
                ∷ (trim_call (logical_block_to_addr sp.block) ∷ map trim_call trims));
      } in
      let removed = radix_set p'.tree (rb.freed_word sp.block) none >>= λ tree.
      some (record p' { tree = tree }) in
      if remove_from_tree then removed else some p'

  unfoldable pub deprecate_new : PagePool → Option PageSubPool → Option PagePool
  unfolding page_sub_pool_deprecate
  deprecate_new p none = some p
  deprecate_new p (some sp) = page_sub_pool_deprecate p sp false

  -- From `sp = ...` on, with the sub-pool that turned out not to be needed. The address of the page;
  -- none: invalid_nvm_addr.
  unfoldable pub alloc_in :
      PagePool → Option PageSubPool → Option PageSubPool → Option (Option ℕ × PagePool)
  unfolding deprecate_new counted_page
  alloc_in p none new = none
  alloc_in p (some sp) new =
      let (page, sp') = alloc_page_from_page_sub_pool sp in
      page_sub_pool_allocated (record p { non_full = write_sub_pool sp' p.non_full }) sp' >>= λ p1.
      deprecate_new p1 new >>= λ p2. some (counted_page p2 page)

  -- `others`: what other callers do between the two times that the lock is held.
  unfoldable pub alloc_prepared :
      (PagePool → PagePool) → Option PageSubPool × PagePool → Option (Option ℕ × PagePool)
  unfolding alloc_in
  alloc_prepared others (none, p) = some (none, p)
  alloc_prepared others (some sp, p) =
      let p' = others p in
      let added = add_page_sub_pool p' sp >>= λ p1. alloc_in p1 (first_sub_pool p1.non_full) none in
      if is_empty p'.non_full then added else alloc_in p' (first_sub_pool p'.non_full) (some sp)

  unfoldable pub alloc : (PagePool → PagePool) → PagePool → Option (Option ℕ × PagePool)
  unfolding alloc_prepared alloc_in
  alloc others p =
      if is_empty p.non_full
      then page_sub_pool_prepare p >>= alloc_prepared others
      else alloc_in p (first_sub_pool p.non_full) none

  unfoldable pub alloc_hinted :
      (PagePool → PagePool) → PagePool → Option ℕ → Option (Option ℕ × PagePool)
  unfolding alloc alloc_in
  alloc_hinted others p none = alloc others p
  alloc_hinted others p (some pointer) = alloc_in p (sub_pool_of pointer p.non_full) none

  unfoldable pub alloc_with_hint :
      (PagePool → PagePool) → PagePool → ℕ → Option (Option ℕ × PagePool)
  unfolding alloc_hinted
  alloc_with_hint others p hint =
      alloc_hinted others p
        (if hint == invalid_nvm_addr then none else radix_get p.tree (logical_addr_to_block hint))

  unfoldable pub free_in : PagePool → Option PageSubPool → ℕ → Option PagePool
  free_in p none page = none
  free_in p (some sp) page =
      let sp' = returned_at sp (page % 512) in
      let p1 = record p {
        non_full = write_sub_pool sp' p.non_full;
        page_num = add64 p.page_num 1;
      } in
      let whole = radix_set p1.tree sp'.block none >>= λ tree.
      page_sub_pool_deprecate
        (record p1 {
          non_full = list_del sp'.block p1.non_full;
          sub_pool_num = sub64 p1.sub_pool_num 1;
          page_num = sub64 p1.page_num 512;
          tree = tree;
        })
        sp' true in
      if sp'.count == 512 && leb 3 p1.sub_pool_num then whole else some p1

  unfoldable pub free : (PagePool → PagePool) → PagePool → ℕ → Option PagePool
  unfolding relocked free_in
  free others p addr =
      let page = logical_addr_to_page addr in
      let block = logical_page_to_block page in
      relocked others p block (radix_get p.tree block) >>= λ (p', pointer).
      free_in p' (sub_pool_of pointer p'.non_full) page

  unfoldable pub busy_in : PagePool → Option PageSubPool → ℕ → Option PagePool
  busy_in p none page = none
  busy_in p (some sp) page =
      let sp' = record sp {
        bitmap = bitmap_write sp.bitmap (page % 512) true;
        count = (sp.count + u16_mod - 1) % u16_mod;
      } in
      page_sub_pool_allocated (record p { non_full = write_sub_pool sp' p.non_full }) sp'

  -- The block pool is told of the block whose address is the page's number.
  unfoldable pub busy_sub_pool : PagePool → ℕ → ℕ → Option ℕ → Option (PagePool × ℕ)
  busy_sub_pool p page block (some pointer) = some (p, pointer)
  busy_sub_pool p page block none = radix_set p.tree block (some block) >>= λ tree.
      pool_recovery_notify_block_busy rb p.block_pool (logical_addr_to_block page) 1
      >>= λ block_pool. some (
        record p {
          tree = tree;
          non_full = create_page_sub_pool block true ∷ p.non_full;
          sub_pool_num = add64 p.sub_pool_num 1;
          block_pool = block_pool;
        },
        block,
      )

  unfoldable pub recovery_notify_page_busy : PagePool → ℕ → Option PagePool
  unfolding busy_in busy_sub_pool
  recovery_notify_page_busy p addr =
      let page = logical_addr_to_page addr in
      let block = logical_page_to_block page in
      busy_sub_pool p page block (radix_get p.tree block) >>= λ (p', pointer).
      busy_in p' (sub_pool_of pointer p'.non_full) page
