-- ===== src/Tests/Blocks.antt =====
-- Tests of BlockPool.c.
use nvmfs.Prelude.{ℕ, ◌≡◌, refl, true, some, List, [], ◌∷◌, arith}
use nvmfs.RbTree.{leaf, node, unbalanced}
use nvmfs.ExtentContainer.{key}
use nvmfs.BlockPool.{BlockPool, pool_get}
use nvmfs.BlockPool.Valid.{IsValid}
use nvmfs.BlockPool.Get.{Got, pool_get-conserves}

-- Blocks 3 and 9 are in the cache, 20 to 29 in the tree.
abbrev some_free : BlockPool
some_free = record {
  tree = node leaf (record { start = 20; end = 30 }) leaf;
  blocks_cache = 3 ∷ 9 ∷ 0 ∷ 0 ∷ 0 ∷ [];
  cached_block_num = 2;
  block_num = 12;
  has_acc = true;
}

some_free-IsValid : IsValid some_free
some_free-IsValid = record {
  room = refl;
  in_use = omega arith;
  sorted = omega arith;
  within = omega arith;
  small = λ b l. ground arith;
  unique = λ b. ground arith;
}

pool_get-conserves_example :
    (r : ℕ × List ℕ × BlockPool) × (pool_get (unbalanced key) some_free 4 ≡ some r)
    × Got some_free 4 r
pool_get-conserves_example =
    pool_get-conserves (unbalanced key) some_free 4 some_free-IsValid (omega arith)

abbrev returned : List ℕ
returned = 5 ∷ 6 ∷ 40 ∷ 41 ∷ []
