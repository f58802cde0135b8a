-- ===== src/BlockPool/Valid.antt =====
-- The invariant of a block pool.
use nvmfs.Prelude.{ℕ, ◌+◌, ◌-◌, ◌≤◌, ◌≡◌, length}
use nvmfs.Types.{u32_mod}
use nvmfs.RbTree.{to_list}
use nvmfs.ExtentTree.Order.{Sorted, Within, holders}
use nvmfs.BlockPool.{BlockPool, cached, max_cache_block_num}
use nvmfs.BlockPool.Count.{occurs}

-- How often block `b` is free: in the cache or in the tree.
abbrev pub free : BlockPool → ℕ → ℕ
free p b = occurs b (cached p) + holders b (to_list p.tree)

-- Block numbers and their successors are 32-bit numbers, and no block is free twice.
pub record IsValid (p : BlockPool) : Type 0 where
  pub room : length p.blocks_cache ≡ max_cache_block_num
  pub in_use : p.cached_block_num ≤ max_cache_block_num
  pub sorted : Sorted 0 (to_list p.tree)
  pub within : Within (u32_mod - 1) (to_list p.tree)
  pub small : (b : ℕ) → u32_mod - 1 ≤ b → free p b ≡ 0
  pub unique : (b : ℕ) → free p b ≤ 1
