-- ===== src/PagePool/Valid.antt =====
-- The invariant of a page pool, and which pages are free in it.
use nvmfs.Prelude.{ℕ, ◌+◌, ◌/◌, ◌^◌, ◌≤◌, ◌<◌, ◌≡◌, Option, none, some, All}
use nvmfs.BlockPool.Valid
use nvmfs.RadixTree.{radix_get}
use nvmfs.RadixTree.Map
use nvmfs.RadixTree.Ready.{Ready}
use nvmfs.PagePool.{PageSubPool, PagePool, sub_pool_of}
use nvmfs.PagePool.Bits.{IsBitmap, zeros}
use nvmfs.PagePool.SubPools.{DistinctBlocks, free_in_sub_pools}

-- The numbers of a block's pages are computed on 32 bits.
abbrev pub block_limit : ℕ
block_limit = 2 ^ 23

pub record IsSubPool (sp : PageSubPool) : Type 0 where
  pub is_bitmap : IsBitmap sp.bitmap
  pub counted : sp.count ≡ zeros sp.bitmap
  pub in_bitmap : sp.next_index < 8
  pub small : sp.block < block_limit

abbrev pub HasPage : PageSubPool → Type 0
HasPage sp = 0 < sp.count

abbrev pub pointer_to : Option PageSubPool → Option ℕ
pointer_to none = none
pointer_to (some sp) = some sp.block

-- How often page number `page` is free: in its block, as a free one, or in a sub-pool.
abbrev pub page_free : PagePool → ℕ → ℕ
page_free p page = Valid.free p.block_pool (page / 512) + free_in_sub_pools p.non_full page

-- The sub-pools of different blocks, none of them free, each with a page left; and the tree has just
-- these.
pub record IsValid (p : PagePool) : Type 0 where
  pub blocks : Valid.IsValid p.block_pool
  pub small : (b : ℕ) → block_limit ≤ b → Valid.free p.block_pool b ≡ 0
  pub nodes : Map.IsValid p.tree
  pub sub_pools : All IsSubPool p.non_full
  pub some_left : All HasPage p.non_full
  pub distinct : DistinctBlocks p.non_full
  pub apart : All (λ sp. Valid.free p.block_pool sp.block ≡ 0) p.non_full
  pub ready : All (λ sp. Ready p.tree sp.block) p.non_full
  pub found : (b : ℕ) → b < 2 ^ 27 → radix_get p.tree b ≡ pointer_to (sub_pool_of b p.non_full)
