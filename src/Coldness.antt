-- ===== src/Coldness.antt =====
-- src/wearlevel-refactor/BlockColdnessManager.c: queues of physical blocks by the steps of their wear
-- count, of free and of busy blocks; and BlockWearTable.c, the wear counts by block. `none`: an index
-- outside an array.
pub mod Count
use nvmfs.Prelude.{
  ℕ, zero, suc, ◌+◌, ◌-◌, ◌/◌, ◌%◌, ◌>>=◌, Bool, true, false, ◌&&◌, not, Option, none, some, List,
  [], ◌∷◌, ◌++◌, map, get_elem?, set, replicate, ltb, ◌==◌, if◌then◌else◌,
}
use nvmfs.Types.{u32_mod}

abbrev pub step_wear_count : ℕ
step_wear_count = 1024

-- MAX_WEAR_COUNT / STEP_WEAR_COUNT
abbrev pub wear_step_nums : ℕ
wear_step_nums = 4194304

-- The array `nodes` has `node_num` entries; a node stands in a queue by its index.
pub record BlockColdnessManager : Type 0 where
  pub free_heads : List (List ℕ)
  pub busy_heads : List (List ℕ)
  pub node_num : ℕ
  pub free_node_num : ℕ
  pub busy_node_num : ℕ

unfoldable pub coldness_init : ℕ → BlockColdnessManager
coldness_init block_num = record {
  free_heads = replicate wear_step_nums [];
  busy_heads = replicate wear_step_nums [];
  node_num = block_num;
  free_node_num = 0;
  busy_node_num = 0;
}

-- `list_add_tail(&nodes[block], &heads[index])`
unfoldable pub list_add_tail : List (List ℕ) → ℕ → ℕ → Option (List (List ℕ))
list_add_tail heads index block =
    get_elem? heads index >>= λ blocks. some (set heads index (blocks ++ (block ∷ [])))

unfoldable pub coldness_put : BlockColdnessManager → ℕ → ℕ → Bool → Option BlockColdnessManager
coldness_put c block index busy =
    let to_busy =
      list_add_tail c.busy_heads index block >>= λ heads. some (record c { busy_heads = heads }) in
    let to_free =
      list_add_tail c.free_heads index block >>= λ heads. some (record c { free_heads = heads }) in
    let put = if busy then to_busy else to_free in if ltb block c.node_num then put else none

-- The loop of BlockColdnessManagerFormat from block `i` on, with `n` blocks to go.
abbrev pub format_from : ℕ → BlockColdnessManager → ℕ → Option BlockColdnessManager
unfolding coldness_put
format_from zero c i = some c
format_from (suc n) c i = coldness_put c i 0 false >>= λ c'. format_from n c' (i + 1)

unfoldable pub coldness_format : ℕ → ℕ → Option BlockColdnessManager
coldness_format block_num must_free_block_num =
    format_from (block_num - must_free_block_num) (coldness_init block_num) 0

-- A node's `list_del` in one queue.
abbrev pub without : ℕ → List ℕ → List ℕ
without block [] = []
without block (x ∷ xs) = let rest = without block xs in if x == block then xs else x ∷ rest

abbrev pub has : ℕ → List ℕ → Bool
has block [] = false
has block (x ∷ xs) = let rest = has block xs in if x == block then true else rest

abbrev pub has_in : ℕ → List (List ℕ) → Bool
has_in block [] = false
has_in block (xs ∷ heads) = let rest = has_in block heads in if has block xs then true else rest

-- The node goes from the one queue that it stands in.
unfoldable pub coldness_remove : BlockColdnessManager → ℕ → Option BlockColdnessManager
coldness_remove c block =
    if ltb block c.node_num
    then some (record c {
      free_heads = map (without block) c.free_heads;
      busy_heads = map (without block) c.busy_heads;
    })
    else none

unfoldable pub notify_block_busy : BlockColdnessManager → ℕ → ℕ → Option BlockColdnessManager
notify_block_busy c block index = coldness_remove c block >>= λ c'. coldness_put c' block index true

unfoldable pub notify_block_free : BlockColdnessManager → ℕ → ℕ → Option BlockColdnessManager
notify_block_free c block index =
    coldness_remove c block >>= λ c'. coldness_put c' block index false

unfoldable pub rebuild_notify_block_busy :
    BlockColdnessManager → ℕ → ℕ → Option BlockColdnessManager
rebuild_notify_block_busy c block wear_count =
    coldness_put c block (wear_count / step_wear_count) true

-- The first block of a queue (none: invalid_block), and the queues without it.
abbrev pub first_of : List (List ℕ) → ℕ → List ℕ → Option ℕ × List (List ℕ)
first_of heads index [] = (none, heads)
first_of heads index (x ∷ xs) = (some x, set heads index xs)

unfoldable pub get_free_block : BlockColdnessManager → ℕ → Option (Option ℕ × BlockColdnessManager)
get_free_block c index = get_elem? c.free_heads index >>= λ blocks.
    let (block, heads) = first_of c.free_heads index blocks in
    some (block, record c { free_heads = heads })

unfoldable pub get_busy_block : BlockColdnessManager → ℕ → Option (Option ℕ × BlockColdnessManager)
get_busy_block c index = get_elem? c.busy_heads index >>= λ blocks.
    let (block, heads) = first_of c.busy_heads index blocks in
    some (block, record c { busy_heads = heads })

-- BlockWearTableGet and BlockWearTableSet.
unfoldable pub wear_get : List ℕ → ℕ → Option ℕ
wear_get wear block = get_elem? wear block

unfoldable pub wear_set : List ℕ → ℕ → ℕ → Option (List ℕ)
wear_set wear block count = get_elem? wear block >>= λ old. some (set wear block (count % u32_mod))

-- The loop of BlockColdnessManagerRebuildEnd from block `i` on, with `n` blocks to go.
abbrev pub rebuild_end_from : ℕ → BlockColdnessManager → List ℕ → ℕ → Option BlockColdnessManager
unfolding coldness_put
rebuild_end_from zero c wear i = some c
rebuild_end_from (suc n) c wear i =
    let added = wear_get wear i >>= λ count. coldness_put c i (count / step_wear_count) false in
    let next =
      if has_in i c.free_heads then some c else if has_in i c.busy_heads then some c else added in
    next >>= λ c'. rebuild_end_from n c' wear (i + 1)

unfoldable pub coldness_rebuild_end :
    BlockColdnessManager → List ℕ → ℕ → Option BlockColdnessManager
coldness_rebuild_end c wear block_num = rebuild_end_from block_num c wear 0
