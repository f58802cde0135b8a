-- ===== src/Tests/Pages.antt =====
-- Tests of PagePool.c.
use nvmfs.Prelude.{◌+◌, ◌*◌, ◌/◌, ◌^◌, ◌≡◌, refl, ◌∙◌, inr, true, false, none, some, [], ◌∷◌, arith}
use nvmfs.Types.{logical_addr_to_block}
use nvmfs.RbTree.{leaf, node, unbalanced}
use nvmfs.ExtentContainer.{key}
use nvmfs.BlockPool.{BlockPool}
use nvmfs.BlockPool.Valid
use nvmfs.RadixTree.{set_prepare}
use nvmfs.RadixTree.Map
use nvmfs.RadixTree.Ready.{Prepares, set_prepare-Prepares}
use nvmfs.ContinousSpace.{current_area_of_addr}
use nvmfs.Log.Write.{HandsOutFresh}
use nvmfs.PagePool.{
  PageSubPool, PagePool, init, sub_pool_of, bitmap_write, returned_at, create_page_sub_pool, alloc,
  alloc_with_hint,
}
use nvmfs.PagePool.Bits.{bit}
use nvmfs.PagePool.Valid.{IsValid, page_free}
use nvmfs.PagePool.Create.{Allocs}
use nvmfs.PagePool.Init.{init-IsValid, radix_get-init}
use nvmfs.PagePool.Alloc.{alloc-Allocs, alloc_with_hint-near, alloc_with_hint-Allocs}
use nvmfs.PagePool.AllocIn.{TakesFrom}
use nvmfs.PagePool.Free.{after, after-IsValid}
use nvmfs.PagePool.Areas.{InUse, page_allocator, page_allocator-HandsOutFresh}

-- Blocks 3 and 9 are in the cache, 20 to 29 in the tree.
abbrev some_free : BlockPool
some_free = record {
  tree = node leaf (record { start = 20; end = 30 }) leaf;
  blocks_cache = 3 ∷ 9 ∷ 0 ∷ 0 ∷ 0 ∷ [];
  cached_block_num = 2;
  block_num = 12;
  has_acc = true;
}

some_free-IsValid : Valid.IsValid some_free
some_free-IsValid = record {
  room = refl;
  in_use = omega arith;
  sorted = omega arith;
  within = omega arith;
  small = λ b l. ground arith;
  unique = λ b. ground arith;
}

abbrev no_sub_pools : PagePool
no_sub_pools = init some_free

no_sub_pools-IsValid : IsValid no_sub_pools
no_sub_pools-IsValid = init-IsValid some_free some_free-IsValid (λ b l. ground arith)

alloc-Allocs_example : Allocs no_sub_pools (alloc (unbalanced key) (λ q. q) no_sub_pools)
alloc-Allocs_example = alloc-Allocs (unbalanced key) no_sub_pools no_sub_pools-IsValid

alloc_with_hint-Allocs_example :
    Allocs no_sub_pools (alloc_with_hint (unbalanced key) (λ q. q) no_sub_pools (5 * 2 ^ 21))
alloc_with_hint-Allocs_example =
    alloc_with_hint-Allocs (unbalanced key) no_sub_pools no_sub_pools-IsValid (5 * 2 ^ 21)

-- A page pool whose tree has the nodes of block 5, a block that is in use.
prepared : Prepares no_sub_pools.tree 5 (set_prepare no_sub_pools.tree 5)
unfolding init
prepared = set_prepare-Prepares no_sub_pools.tree 5 Map.init-IsValid

abbrev with_nodes : PagePool
with_nodes = record no_sub_pools { tree = prepared.tree }

with_nodes-IsValid : IsValid with_nodes
unfolding init
with_nodes-IsValid = record {
  blocks = some_free-IsValid;
  small = no_sub_pools-IsValid.small;
  nodes = prepared.valid;
  sub_pools = tt;
  some_left = tt;
  distinct = tt;
  apart = tt;
  ready = tt;
  found = λ b h. prepared.same b ∙ radix_get-init b;
}

not_free : page_free with_nodes 2570 ≡ 0
unfolding init
not_free = refl

no_sub_pool : sub_pool_of (2570 / 512) with_nodes.non_full ≡ none
unfolding init
no_sub_pool = refl

-- Behind the free: block 5 has a sub-pool with one page left.
abbrev one_page : PagePool
one_page =
    after (unbalanced key) with_nodes 2570 (inr (λ w. refl)) with_nodes-IsValid (omega arith)
      not_free prepared.at_key no_sub_pool

one_page-IsValid : IsValid one_page
one_page-IsValid =
    after-IsValid (unbalanced key) with_nodes 2570 (inr (λ w. refl)) with_nodes-IsValid
      (omega arith) not_free prepared.at_key no_sub_pool

abbrev of_block_5 : PageSubPool
of_block_5 = returned_at (create_page_sub_pool 5 false) 10

in_block_5 : logical_addr_to_block (5 * 2 ^ 21 + 4096) ≡ 5
unfolding logical_addr_to_block
in_block_5 = refl

at_block_5 :
    sub_pool_of (logical_addr_to_block (5 * 2 ^ 21 + 4096)) one_page.non_full ≡ some of_block_5
unfolding create_page_sub_pool returned_at logical_addr_to_block
at_block_5 = refl

alloc_with_hint-near_example :
    TakesFrom
      (logical_addr_to_block (5 * 2 ^ 21 + 4096))
      one_page
      (alloc_with_hint (unbalanced key) (λ q. q) one_page (5 * 2 ^ 21 + 4096))
alloc_with_hint-near_example =
    alloc_with_hint-near (unbalanced key) one_page one_page-IsValid (5 * 2 ^ 21 + 4096) of_block_5
      (omega arith) at_block_5

page_6-InUse : InUse one_page (current_area_of_addr (5 * 2 ^ 21 + 8))
unfolding init create_page_sub_pool returned_at bitmap_write bit
page_6-InUse = refl

page_allocator-HandsOutFresh_example :
    HandsOutFresh (page_allocator (unbalanced key)) (some one_page) (5 * 2 ^ 21 + 8) []
page_allocator-HandsOutFresh_example =
    page_allocator-HandsOutFresh (unbalanced key) one_page (5 * 2 ^ 21 + 8) [] one_page-IsValid
      (tt, tt) (page_6-InUse, tt)
