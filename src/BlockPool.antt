-- ===== src/BlockPool.antt =====
-- src/fs/BlockPool.c: free blocks, a few in a cache and the rest in an extent tree.
-- The mutex makes every call atomic. Calls of NVMAccesserTrim are returned as a list of addresses.
pub mod Count
pub mod Deal
pub mod Valid
pub mod Get
pub mod Put
use nvmfs.Prelude.{
  ℕ, zero, suc, ◌+◌, ◌-◌, ◌%◌, ◌>>=◌, length, Bool, Option, some, List, [], ◌∷◌, ◌++◌, map, set,
  take, drop, ltb, leb, ◌==◌, if◌then◌else◌, add64, sub64,
}
use nvmfs.Types.{u32_mod, logical_block_to_addr}
use nvmfs.RbTree.{leaf, node, RbTree}
use nvmfs.ExtentContainer.{Extent, key, ExtentContainer, container_init, extents}
use nvmfs.ExtentTree.{ExtentTree, init, put, get, batch_put, reverse_holes_and_extents}

abbrev pub max_cache_block_num : ℕ
max_cache_block_num = 5

pub record BlockPool : Type 0 where
  pub tree : ExtentTree
  pub blocks_cache : List ℕ
  pub cached_block_num : ℕ
  pub block_num : ℕ
  -- `acc` is not NULL
  pub has_acc : Bool

-- The cache's memory is not set: it holds the block numbers `junk`.
pub pool_init : List ℕ → Bool → BlockPool
pool_init junk acc = record {
  tree = init;
  blocks_cache = junk;
  cached_block_num = 0;
  block_num = 0;
  has_acc = acc;
}

-- `memcpy(dst + at, src, n * sizeof(*src))`
abbrev pub blit : List ℕ → ℕ → List ℕ → ℕ → List ℕ
blit dst at src n = take at dst ++ (take n src ++ drop (at + n) dst)

-- The first blocks of the cache, which are in use.
abbrev pub cached : BlockPool → List ℕ
cached p = take p.cached_block_num p.blocks_cache

-- BlockPoolGet's loop over the blocks from `j`: one to the caller, or one to the cache.
pub record Dealt : Type 0 where
  pub out : List ℕ
  pub got : ℕ
  pub cache : List ℕ
  pub in_cache : ℕ

pub deal_block : ℕ → Dealt → ℕ → Dealt
deal_block wanted d j =
    if ltb d.got wanted
    then record d { out = d.out ++ (j % u32_mod ∷ []); got = d.got + 1 }
    else record d { cache = set d.cache d.in_cache (j % u32_mod); in_cache = d.in_cache + 1 }

pub deal_extent : ℕ → ℕ → ℕ → Dealt → Dealt
unfolding deal_block
deal_extent wanted zero j d = d
deal_extent wanted (suc n) j d = deal_extent wanted n (j + 1) (deal_block wanted d j)

pub deal : ℕ → List Extent → Dealt → Dealt
unfolding deal_extent
deal wanted [] d = d
deal wanted (x ∷ xs) d = deal wanted xs (deal_extent wanted (x.end - x.start) x.start d)

-- The cached blocks go to the caller first.
pub start_deal : BlockPool → Dealt
start_deal p = record {
  out = cached p;
  got = p.cached_block_num;
  cache = p.blocks_cache;
  in_cache = 0;
}

pub handed_out : BlockPool → ExtentTree → Dealt → ℕ × List ℕ × BlockPool
handed_out p t d = (
  d.got,
  d.out,
  record p {
    tree = t;
    blocks_cache = d.cache;
    cached_block_num = d.in_cache;
    block_num = sub64 p.block_num d.got;
  },
)

-- Trims, where the pool has an accesser.
pub trim_block_with_array : BlockPool → List ℕ → List ℕ
trim_block_with_array p blocks = if p.has_acc then map logical_block_to_addr blocks else []

-- The block addresses of one extent. `i` is an int, and the addresses are those of 32-bit blocks.
pub trims_of_extent : ℕ → ℕ → List ℕ
trims_of_extent zero i = []
trims_of_extent (suc n) i = logical_block_to_addr (i % u32_mod) ∷ trims_of_extent n (i + 1)

trims_of_extents : List Extent → List ℕ
unfolding trims_of_extent
trims_of_extents [] = []
trims_of_extents (x ∷ xs) = trims_of_extent (x.end - x.start) x.start ++ trims_of_extents xs

pub trim_block_with_container : BlockPool → ExtentContainer → List ℕ
unfolding trims_of_extents
trim_block_with_container p c = if p.has_acc then trims_of_extents (extents c) else []

module _ (rb : RbTree key) where
  -- BlockPoolGet behind the tree's answer.
  pub get_refill : BlockPool → ℕ → ExtentTree × ExtentContainer → ℕ × List ℕ × BlockPool
  unfolding deal start_deal handed_out
  get_refill p wanted (t, c) =
      if c.size == 0
      then (0, [], record p { tree = t })
      else handed_out p t (deal wanted (extents c) (start_deal p))

  -- The count returned, the blocks written to the caller's array, and the pool.
  pub pool_get : BlockPool → ℕ → Option (ℕ × List ℕ × BlockPool)
  unfolding get_refill
  pool_get p wanted =
      let from_cache = sub64 p.cached_block_num wanted in
      let batch = sub64 (add64 2 wanted) p.cached_block_num in
      if leb wanted p.cached_block_num
      then some (
        wanted,
        take wanted (drop from_cache p.blocks_cache),
        record p { cached_block_num = from_cache },
      )
      else (get rb p.tree container_init batch >>= λ r. some (get_refill p wanted r))

  pub pool_extent_get : BlockPool → ℕ → ExtentContainer → Option (ExtentContainer × BlockPool)
  pool_extent_get p wanted c = get rb p.tree c wanted >>= λ (t, c').
      some (c', record p { tree = t; block_num = sub64 p.block_num c'.size })

  -- The loops that put single blocks into the tree; `+ 1` is done on 32 bits.
  pub put_blocks : ExtentTree → List ℕ → Option ExtentTree
  put_blocks t [] = some t
  put_blocks t (b ∷ bs) = put rb t b ((b + 1) % u32_mod) >>= λ t'. put_blocks t' bs

  -- The cache overflows: all of it and the first new blocks go to the tree.
  put_spill : BlockPool → List ℕ → ℕ → Option BlockPool
  unfolding put_blocks
  put_spill p blocks n = put_blocks p.tree (cached p) >>= λ t.
      put_blocks t (take n blocks) >>= λ t'. some (record p {
        tree = t';
        blocks_cache = blit p.blocks_cache 0 (drop n blocks) (length blocks - n);
        cached_block_num = length blocks - n;
      })

  -- The cache overflows: its first `n` blocks go to the tree, and the new ones stay.
  put_shift : BlockPool → List ℕ → ℕ → Option BlockPool
  unfolding put_blocks
  put_shift p blocks n = put_blocks p.tree (take n (cached p)) >>= λ t.
      let kept = blit p.blocks_cache 0 (drop n p.blocks_cache) (p.cached_block_num - n) in
      some (record p {
        tree = t;
        blocks_cache = blit kept (p.cached_block_num - n) blocks (length blocks);
        cached_block_num = p.cached_block_num - n + length blocks;
      })

  -- Where the blocks go: `out` of the cached and the new ones go to the tree if the cache overflows.
  pool_store : BlockPool → List ℕ → ℕ → ℕ → Option BlockPool
  pool_store p blocks n out =
      if leb (add64 n p.cached_block_num) max_cache_block_num
      then some (record p {
        blocks_cache = blit p.blocks_cache p.cached_block_num blocks n;
        cached_block_num = p.cached_block_num + n;
      })
      else if ltb p.cached_block_num out
      then put_spill p blocks (out - p.cached_block_num)
      else put_shift p blocks out

  -- BlockPoolPut of the blocks in the caller's array: the addresses trimmed, and the pool. Its loops
  -- and those of the trims count in an int, so this is the code for fewer than 2^31 blocks.
  pub pool_put : BlockPool → List ℕ → Option (List ℕ × BlockPool)
  unfolding pool_store
  pool_put p blocks =
      let n = length blocks in
      let q = record p { block_num = add64 p.block_num n } in
      pool_store q blocks n (sub64 (add64 p.cached_block_num n) 2) >>= λ r.
      some (trim_block_with_array p blocks, r)

  pub pool_extent_put : BlockPool → ExtentContainer → Option (List ℕ × BlockPool)
  unfolding trim_block_with_container
  pool_extent_put p c = batch_put rb p.tree c >>= λ t.
      some
        (trim_block_with_container p c, record p { tree = t; block_num = add64 p.block_num c.size })

  pub pool_recovery_notify_block_busy : BlockPool → ℕ → ℕ → Option BlockPool
  pool_recovery_notify_block_busy p start n =
      put rb p.tree start (add64 start n) >>= λ t. some (record p { tree = t })

  pub pool_recovery_end : BlockPool → ℕ → Option BlockPool
  pool_recovery_end p total_block_num = reverse_holes_and_extents rb p.tree total_block_num >>= λ t.
      some (record p { tree = t; block_num = sub64 total_block_num p.block_num })

-- BlockPoolQueryInTreeBlockNum
pub query_in_tree_block_num : ExtentTree → ℕ
query_in_tree_block_num leaf = 0
query_in_tree_block_num (node l x r) =
    add64 (add64 (query_in_tree_block_num l) (sub64 x.end x.start)) (query_in_tree_block_num r)
