-- ===== src/BlockManager.antt =====
-- src/wearlevel-refactor/BlockManager.c, the swaps of blocks and what leads to them, and
-- BlockUnmapTable.c, the logical block of each physical one. `none`: an index outside a table, a failed
-- assertion, or a lock that is waited for.
pub mod Consistent
pub mod Fast
pub mod Slow
pub mod Counted
use nvmfs.Prelude.{
  ℕ, ◌+◌, ◌-◌, ◌*◌, ◌/◌, ◌%◌, ◌^◌, ◌>>=◌, Bool, true, false, Option, none, some, List, [], ◌∷◌,
  ◌++◌, get_elem?, set, ltb, ◌==◌, if◌then◌else◌, sub64,
}
use nvmfs.Types.{u32_mod, invalid_block, logical_block_to_addr}
use nvmfs.MapTable.{
  MapTable, query, nvm_addr_to_block, block_to_nvm_addr, block_swap_fast, block_swap_slow,
  block_trim,
}
use nvmfs.MapTable.Lock.{map_table_lock_block_for_swap, block_write_lock, block_write_unlock}
use nvmfs.Coldness.{
  BlockColdnessManager, step_wear_count, coldness_put, coldness_remove, get_free_block,
  get_busy_block, wear_get, wear_set,
}

pub record BlockInfo : Type 0 where
  -- 31 bits
  pub unmap_block : ℕ
  pub fine_grain : Bool

-- BlockUnmapTableGet and BlockUnmapTableSet.
unfoldable pub unmap_get : List BlockInfo → ℕ → Option BlockInfo
unmap_get unmap block = get_elem? unmap block

unfoldable pub unmap_set : List BlockInfo → ℕ → BlockInfo → Option (List BlockInfo)
unmap_set unmap block info = get_elem? unmap block >>= λ old. some (set unmap block info)

-- The calls of BlockSwapLog.c: a swap of blocks with their logical ones and the swap's type, a step of
-- it, and its end.
pub data SwapLogCall : Type 0 where
  log_block_swap_begin : List (ℕ × BlockInfo) → ℕ → SwapLogCall
  log_block_swap_commit_stepx : ℕ → SwapLogCall
  log_block_swap_end : SwapLogCall

pub record BlockManager {ℓ} (Memory : Type ℓ) : Type ℓ where
  pub data_start : ℕ
  pub coldness : BlockColdnessManager
  pub unmap_table : List BlockInfo
  pub wear_table : List ℕ
  pub map_table : MapTable
  pub threshold : ℕ
  pub memory : Memory
  -- What the swap log was called with, in order.
  pub log_calls : List SwapLogCall

abbrev pub no_block : ℕ × BlockInfo
no_block = (invalid_block, record { unmap_block = 2 ^ 31 - 1; fine_grain = false })

-- What the two swaps write to the log.
abbrev pub fast_log : ℕ → BlockInfo → ℕ → BlockInfo → List SwapLogCall
fast_log a info_a b info_b =
    log_block_swap_begin ((a, info_a) ∷ ((b, info_b) ∷ (no_block ∷ []))) 1
    ∷ (log_block_swap_commit_stepx 2 ∷ (log_block_swap_end ∷ []))

abbrev pub slow_log : ℕ → BlockInfo → ℕ → BlockInfo → ℕ → BlockInfo → List SwapLogCall
slow_log a info_a b info_b c info_c =
    log_block_swap_begin ((a, info_a) ∷ ((b, info_b) ∷ ((c, info_c) ∷ []))) 2
    ∷ (log_block_swap_commit_stepx 2 ∷ (log_block_swap_commit_stepx 3 ∷ (log_block_swap_end ∷ [])))

-- The exchange of two neighbours that are out of order.
abbrev pub in_order : ℕ → ℕ → ℕ × ℕ
in_order a b = if ltb b a then (b, a) else (a, b)

unfoldable pub sort_blocks : ℕ → ℕ → ℕ → ℕ × ℕ × ℕ
sort_blocks a b c =
    let (a1, b1) = in_order a b in
    let (b2, c2) = in_order b1 c in let (a3, b3) = in_order a1 b2 in (a3, b3, c2)

-- NVMemcpy ends in memcpy, a library function.
module _ {ℓ} {Memory : Type ℓ} (memcpy : Memory → ℕ → ℕ → ℕ → Memory) where
  -- The logical address whose block is locked. Where the block is no longer at that address, another
  -- caller has moved it, and the loop goes on: one caller alone never gets out of it.
  unfoldable pub lock_one_block : BlockManager Memory → ℕ → Option (ℕ × BlockManager Memory)
  lock_one_block m block = unmap_get m.unmap_table block >>= λ info.
      let logic_addr = logical_block_to_addr info.unmap_block in
      map_table_lock_block_for_swap m.map_table logic_addr (block_to_nvm_addr block m.data_start)
      >>= λ (retry, t). if retry then none else some (logic_addr, record m { map_table = t })

  unfoldable pub unlock_one_block : BlockManager Memory → ℕ → Option (BlockManager Memory)
  unlock_one_block m logic_addr =
      block_write_unlock m.map_table logic_addr >>= λ t. some (record m { map_table = t })

  unfoldable pub block_swap_fast_lock :
      BlockManager Memory → ℕ → ℕ → Option (ℕ × ℕ × BlockManager Memory)
  block_swap_fast_lock m a b =
      let first = if ltb a b then a else b in
      let second = if ltb a b then b else a in
      lock_one_block m first >>= λ (addr0, m1).
      lock_one_block m1 second >>= λ (addr1, m2). some (addr0, addr1, m2)

  unfoldable pub block_swap_slow_lock :
      BlockManager Memory → ℕ → ℕ → ℕ → Option (ℕ × ℕ × ℕ × BlockManager Memory)
  block_swap_slow_lock m a b c =
      let (first, second, third) = sort_blocks a b c in
      lock_one_block m first >>= λ (addr0, m1). lock_one_block m1 second >>= λ (addr1, m2).
      lock_one_block m2 third >>= λ (addr2, m3). some (addr0, addr1, addr2, m3)

  -- The copy of block `src` over block `dst`.
  unfoldable pub block_copy : BlockManager Memory → ℕ → ℕ → Memory → Memory
  block_copy m dst src memory =
      memcpy memory (block_to_nvm_addr dst m.data_start) (block_to_nvm_addr src m.data_start)
        (2 ^ 21)

  -- Of BlockSwapFast, from the reads of the unmap table to the end of the log's entry.
  unfoldable pub fast_moved : BlockManager Memory → ℕ → ℕ → Option (BlockManager Memory)
  unfolding block_copy
  fast_moved m a b = unmap_get m.unmap_table a >>= λ info_a. unmap_get m.unmap_table b >>= λ info_b.
      unmap_set m.unmap_table a info_b >>= λ u1. unmap_set u1 b info_a >>= λ u2.
      block_swap_fast m.map_table info_a.unmap_block info_b.unmap_block >>= λ t. some (record m {
        memory = block_copy m b a m.memory;
        unmap_table = u2;
        map_table = t;
        log_calls = m.log_calls ++ fast_log a info_a b info_b;
      })

  -- A wear count and the queue that its block goes to.
  unfoldable pub put_with_count : BlockManager Memory → ℕ → ℕ → Bool → Option (BlockManager Memory)
  put_with_count m block count busy =
      coldness_put m.coldness block (count / step_wear_count) busy >>= λ c.
      some (record m { coldness = c })

  unfoldable pub fast_counted : BlockManager Memory → ℕ → ℕ → ℕ → Option (BlockManager Memory)
  unfolding put_with_count
  fast_counted m a b count_a = wear_get m.wear_table b >>= λ count_b.
      wear_set m.wear_table a count_a >>= λ w1. wear_set w1 b (count_b + 1) >>= λ w2.
      put_with_count (record m { wear_table = w2 }) a count_a false >>= λ m1.
      put_with_count m1 b ((count_b + 1) % u32_mod) true

  unfoldable pub manager_swap_fast : BlockManager Memory → ℕ → ℕ → ℕ → Option (BlockManager Memory)
  unfolding block_swap_fast_lock fast_moved fast_counted unlock_one_block
  manager_swap_fast m a b count_a = block_swap_fast_lock m a b >>= λ (addr0, addr1, m1).
      fast_moved m1 a b >>= λ m2. fast_counted m2 a b count_a >>= λ m3.
      unlock_one_block m3 addr0 >>= λ m4. unlock_one_block m4 addr1

  -- The same of BlockSwapSlow.
  unfoldable pub slow_moved : BlockManager Memory → ℕ → ℕ → ℕ → Option (BlockManager Memory)
  unfolding block_copy
  slow_moved m a b c = unmap_get m.unmap_table a >>= λ info_a.
      unmap_get m.unmap_table b >>= λ info_b. unmap_get m.unmap_table c >>= λ info_c.
      unmap_set m.unmap_table a info_c >>= λ u1. unmap_set u1 b info_a >>= λ u2.
      unmap_set u2 c info_b >>= λ u3.
      block_swap_slow m.map_table info_a.unmap_block info_b.unmap_block info_c.unmap_block >>= λ t.
      some (record m {
        memory = block_copy m b a (block_copy m c b m.memory);
        unmap_table = u3;
        map_table = t;
        log_calls = m.log_calls ++ slow_log a info_a b info_b c info_c;
      })

  unfoldable pub slow_counted : BlockManager Memory → ℕ → ℕ → ℕ → ℕ → Option (BlockManager Memory)
  unfolding put_with_count
  slow_counted m a b c count_a = wear_get m.wear_table b >>= λ count_b.
      wear_get m.wear_table c >>= λ count_c. wear_set m.wear_table a count_a >>= λ w1.
      wear_set w1 b (count_b + 1) >>= λ w2. wear_set w2 c (count_c + 1) >>= λ w3.
      put_with_count (record m { wear_table = w3 }) a count_a false >>= λ m1.
      put_with_count m1 b ((count_b + 1) % u32_mod) true >>= λ m2.
      put_with_count m2 c ((count_c + 1) % u32_mod) true

  unfoldable pub manager_swap_slow :
      BlockManager Memory → ℕ → ℕ → ℕ → ℕ → Option (BlockManager Memory)
  unfolding block_swap_slow_lock slow_moved slow_counted unlock_one_block
  manager_swap_slow m a b c count_a = block_swap_slow_lock m a b c >>= λ (addr0, addr1, addr2, m1).
      slow_moved m1 a b c >>= λ m2. slow_counted m2 a b c count_a >>= λ m3.
      unlock_one_block m3 addr0 >>= λ m4.
      unlock_one_block m4 addr1 >>= λ m5. unlock_one_block m5 addr2

  -- The partner of a swap (none: invalid_block), behind the queues that it was taken from.
  unfoldable pub swap_with_busy :
      BlockManager Memory
      → ℕ
      → ℕ
      → ℕ
      → ℕ
      → Option ℕ × BlockColdnessManager
      → Option (Bool × BlockManager Memory)
  unfolding manager_swap_slow put_with_count
  swap_with_busy m a count_a increase threshold (none, c) =
      put_with_count (record m { coldness = c }) a count_a true >>= λ m1. some (true, m1)
  swap_with_busy m a count_a increase threshold (some b, c) =
      get_free_block c (threshold / step_wear_count) >>= λ (block, c'). block >>= λ block_c.
      manager_swap_slow (record m { coldness = c' }) a b block_c ((count_a + increase) % u32_mod)
      >>= λ m1. some (false, m1)

  unfoldable pub swap_with_free :
      BlockManager Memory
      → ℕ
      → ℕ
      → ℕ
      → ℕ
      → Option ℕ × BlockColdnessManager
      → Option (Bool × BlockManager Memory)
  unfolding manager_swap_fast swap_with_busy
  swap_with_free m a count_a increase threshold (none, c) =
      get_busy_block c (sub64 (threshold / step_wear_count) 1 % u32_mod)
      >>= swap_with_busy m a count_a increase threshold
  swap_with_free m a count_a increase threshold (some b, c) =
      manager_swap_fast (record m { coldness = c }) a b ((count_a + increase) % u32_mod) >>= λ m1.
      some (false, m1)

  -- Whether no partner was found.
  unfoldable pub increase_block_wear_count :
      BlockManager Memory → ℕ → ℕ → ℕ → Option (Bool × BlockManager Memory)
  unfolding swap_with_free
  increase_block_wear_count m phys_addr increase threshold =
      let a = nvm_addr_to_block phys_addr m.data_start in
      wear_get m.wear_table a >>= λ count_a.
      let counted = wear_set m.wear_table a (count_a + increase) >>= λ w.
      some (false, record m { wear_table = w }) in
      let swapped = coldness_remove m.coldness a >>= λ c.
      get_free_block c (sub64 (threshold / step_wear_count) 1 % u32_mod)
      >>= swap_with_free m a count_a increase threshold in
      if ltb ((count_a + increase) % u32_mod) threshold then counted else swapped

  -- By one caller alone, the compare-and-swap succeeds if the threshold is still the old one.
  unfoldable pub increase_threshold : BlockManager Memory → ℕ → BlockManager Memory
  increase_threshold m threshold =
      if m.threshold == threshold
      then record m { threshold = (threshold + step_wear_count) % u32_mod }
      else m

  unfoldable pub manager_trim : BlockManager Memory → ℕ → Option (BlockManager Memory)
  unfolding put_with_count
  manager_trim m addr = block_write_lock m.map_table addr >>= λ t1. block_trim t1 addr >>= λ t2.
      query t2 addr >>= λ phys_addr.
      let block = nvm_addr_to_block phys_addr m.data_start in
      wear_get m.wear_table block >>= λ count. coldness_remove m.coldness block >>= λ c.
      put_with_count (record m { map_table = t2; coldness = c }) block count false >>= λ m1.
      block_write_unlock m1.map_table addr >>= λ t3. some (record m1 { map_table = t3 })
