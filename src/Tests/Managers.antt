-- ===== src/Tests/Managers.antt =====
-- Tests of BlockManager.c and BlockColdnessManager.c.
use nvmfs.Prelude.{
  ℕ, zero, suc, ◌+◌, ◌/◌, ◌%◌, ◌++◌, set, ◌≡◌, ◌≢◌, ◌>>=◌, refl, Bool, false, Option, some, List,
  [], ◌∷◌, get_elem?, arith, subst, of_some, not_some,
}
use nvmfs.Layouter.{
  layouter_init, size_of_block_wear_table, size_of_block_unmap_table, size_of_page_wear_table,
  size_of_page_unmap_table, block_num_query,
}
use nvmfs.Types.{u32_mod, align_up, align_up_bits, logical_block_to_addr}
use nvmfs.MapTable.{
  format, index_of_block, with_entry, nvm_addr_to_block, block_to_nvm_addr, block_swap_fast,
  set_phys,
}
use nvmfs.MapTable.Lock.{
  map_table_lock_block_for_swap, lock_block_for_swap, block_write_lock, block_write_unlock,
  wait_for_all_pages_unlock, map_block_query,
}
use nvmfs.Coldness.{
  BlockColdnessManager, step_wear_count, get_free_block, coldness_remove, coldness_put,
  list_add_tail, wear_get, wear_set,
}
use nvmfs.Coldness.Count.{queued}
use nvmfs.BlockPool.Count.{same}
use nvmfs.BlockManager.{
  BlockInfo, BlockManager, sort_blocks, fast_moved, slow_moved, fast_counted,
  increase_block_wear_count, swap_with_free, manager_swap_fast, block_swap_fast_lock,
  lock_one_block, unlock_one_block, put_with_count, unmap_get, unmap_set,
}
use nvmfs.BlockManager.Consistent.{UnmapsTo, Inverse, IsConsistent}
use nvmfs.BlockManager.Fast
use nvmfs.BlockManager.Slow
use nvmfs.BlockManager.Counted.{fast_counted-queued}
use nvmfs.Tests.Maps.{
  four_blocks, four_blocks-IsValid, entry_of, Memory, look, byte_copy, look-byte_copy,
  look-byte_copy_outside,
}

abbrev info_of : ℕ → BlockInfo
info_of l = record { unmap_block = l; fine_grain = false }

-- Queues for the first two steps of wear: blocks 0, 1 and 3 are free, block 2 is busy.
abbrev two_steps : BlockColdnessManager
two_steps = record {
  free_heads = (0 ∷ (1 ∷ (3 ∷ []))) ∷ ([] ∷ []);
  busy_heads = (2 ∷ []) ∷ ([] ∷ []);
  node_num = 4;
  free_node_num = 0;
  busy_node_num = 0;
}

abbrev four_managed : BlockManager Memory
four_managed = record {
  data_start = 8192;
  coldness = two_steps;
  unmap_table = info_of 0 ∷ (info_of 1 ∷ (info_of 2 ∷ (info_of 3 ∷ [])));
  wear_table = 1023 ∷ (7 ∷ (500 ∷ (0 ∷ [])));
  map_table = four_blocks;
  threshold = 1024;
  memory = λ x. x + 1;
  log_calls = [];
}

four-Inverse : Inverse four_managed.map_table four_managed.unmap_table
unfolding format
four-Inverse zero e g =
    subst (λ x. UnmapsTo four_managed.unmap_table x.phys_block_index 0) (of_some g)
      (record { info = info_of 0; at = refl; same = refl })
four-Inverse (suc zero) e g =
    subst (λ x. UnmapsTo four_managed.unmap_table x.phys_block_index 1) (of_some g)
      (record { info = info_of 1; at = refl; same = refl })
four-Inverse (suc (suc zero)) e g =
    subst (λ x. UnmapsTo four_managed.unmap_table x.phys_block_index 2) (of_some g)
      (record { info = info_of 2; at = refl; same = refl })
four-Inverse (suc (suc (suc zero))) e g =
    subst (λ x. UnmapsTo four_managed.unmap_table x.phys_block_index 3) (of_some g)
      (record { info = info_of 3; at = refl; same = refl })
four-Inverse (suc (suc (suc (suc l)))) e g = absurd (not_some refl g)

four_managed-IsConsistent : IsConsistent four_managed
unfolding format
four_managed-IsConsistent = record {
  table = four_blocks-IsValid;
  few = omega arith;
  same_start = refl;
  inverse = four-Inverse;
}

fast_moved-keeps_example :
    (m' : BlockManager Memory) × (fast_moved byte_copy four_managed 0 2 ≡ some m')
    × IsConsistent m'
    × ((addr : ℕ)
        → index_of_block addr ≢ 2
        → Fast.Reads look byte_copy look-byte_copy look-byte_copy_outside four_managed
            four_managed-IsConsistent m' addr)
unfolding format
fast_moved-keeps_example =
    Fast.fast_moved-keeps look byte_copy look-byte_copy look-byte_copy_outside four_managed
      four_managed-IsConsistent 0 2 {ea = entry_of 0} {eb = entry_of 2} refl refl
      (λ e. absurd (omega arith))

slow_moved-keeps_example :
    (m' : BlockManager Memory) × (slow_moved byte_copy four_managed 0 2 3 ≡ some m')
    × IsConsistent m'
    × ((addr : ℕ)
        → index_of_block addr ≢ 3
        → Slow.Reads look byte_copy look-byte_copy look-byte_copy_outside four_managed
            four_managed-IsConsistent m' addr)
unfolding format
slow_moved-keeps_example =
    Slow.slow_moved-keeps look byte_copy look-byte_copy look-byte_copy_outside four_managed
      four_managed-IsConsistent 0 2 3 {ea = entry_of 0} {eb = entry_of 2} {ed = entry_of 3} refl
      refl refl (λ e. absurd (omega arith)) (λ e. absurd (omega arith)) (λ e. absurd (omega arith))

fast_counted-queued_example :
    (m' : BlockManager Memory) × (fast_counted byte_copy four_managed 0 1 1024 ≡ some m')
    × (get_elem? m'.wear_table 0 ≡ some (1024 % u32_mod))
    × (get_elem? m'.wear_table 1 ≡ some ((7 + 1) % u32_mod))
    × ((k : ℕ) → 0 ≢ k → 1 ≢ k → get_elem? m'.wear_table k ≡ get_elem? four_managed.wear_table k)
    × (m'.coldness.free_heads ≡ set two_steps.free_heads (1024 / step_wear_count) ([] ++ (0 ∷ [])))
    × (m'.coldness.busy_heads
        ≡ set two_steps.busy_heads ((7 + 1) % u32_mod / step_wear_count) ((2 ∷ []) ++ (1 ∷ [])))
    × ((k : ℕ) → queued m'.coldness k ≡ same k 0 + same k 1 + queued four_managed.coldness k)
fast_counted-queued_example =
    fast_counted-queued byte_copy four_managed 0 1 1024 7 [] (2 ∷ []) (λ e. absurd (omega arith))
      (omega arith) (omega arith) (omega arith) refl refl refl

-- The three blocks are locked from the lowest on.
sorted_blocks : sort_blocks 7 3 5 ≡ (3, 5, 7)
unfolding sort_blocks
sorted_blocks = refl

-- One more write at block 0 takes it to the threshold: its data goes to block 1, the first free one,
-- which is then busy, and the locks are free again.
abbrev worn :
    Bool × BlockManager Memory
    → Option (Bool × List BlockInfo × List ℕ × List (List ℕ) × List (List ℕ))
worn (full, m) =
    some (full, m.unmap_table, m.wear_table, m.coldness.free_heads, m.coldness.busy_heads)

worn_out :
    (increase_block_wear_count byte_copy four_managed 8192 1 1024 >>= worn)
    ≡ some (
      false,
      info_of 1 ∷ (info_of 0 ∷ (info_of 2 ∷ (info_of 3 ∷ []))),
      1024 ∷ (8 ∷ (500 ∷ (0 ∷ []))),
      (3 ∷ []) ∷ ((0 ∷ []) ∷ []),
      (2 ∷ (1 ∷ [])) ∷ ([] ∷ []),
    )
unfolding increase_block_wear_count swap_with_free manager_swap_fast block_swap_fast_lock
    lock_one_block unlock_one_block fast_moved fast_counted put_with_count unmap_get unmap_set
    coldness_remove get_free_block coldness_put list_add_tail wear_get wear_set
    map_table_lock_block_for_swap lock_block_for_swap block_write_lock block_write_unlock
    wait_for_all_pages_unlock map_block_query with_entry nvm_addr_to_block block_to_nvm_addr
    logical_block_to_addr block_swap_fast set_phys format
worn_out = refl

-- A device of 4 GB: the tables and 4 KB of reserved data take 14 MB.
layout_4g : (layouter_init 32 4096).data_start ≡ 14680064
unfolding layouter_init size_of_block_wear_table size_of_block_unmap_table size_of_page_wear_table
    size_of_page_unmap_table align_up align_up_bits block_num_query
layout_4g = refl
