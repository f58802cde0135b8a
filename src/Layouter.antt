-- ===== src/Layouter.antt =====
-- src/wearlevel-refactor/Layouter.c and include/wearlevel-refactor/Layouter.h: where the tables and the
-- data stand in the device. The conversions between addresses and blocks are in MapTable.
use nvmfs.Prelude.{ℕ, ◌*◌, ◌/◌, ◌%◌, ◌^◌, u64_mod, add64, sub64}
use nvmfs.Types.{u32_mod, bits_2m, bits_4k, size_2m, align_up, align_up_bits}

-- The machine takes the count of a shift modulo 64; C leaves that open.
abbrev pub one_shl : ℕ → ℕ
one_shl n = 2 ^ (n % 64)

-- sizeof(nvm_addr_t), sizeof(UINT32) and sizeof(struct NVMPageUnmapTableEntryGroup)
abbrev pub nvm_addr_size : ℕ
nvm_addr_size = 8

abbrev pub wear_count_size : ℕ
wear_count_size = 4

abbrev pub entry_group_size : ℕ
entry_group_size = 74 * 8

abbrev pub logic_block_reserve_num : ℕ
logic_block_reserve_num = 10

pub record Layouter : Type 0 where
  pub nvm_size_bits : ℕ
  pub reserve_data_size : ℕ
  pub block_swap_log_logic_addr : ℕ
  pub page_swap_log_logic_addr : ℕ
  pub page_swap_area_logic_addr : ℕ
  pub super_block : ℕ
  pub meta_data_of_threshold : ℕ
  pub meta_data_of_block_swap_log : ℕ
  pub meta_data_of_page_swap_log : ℕ
  pub meta_data_of_page_swap_area : ℕ
  pub block_wear_table : ℕ
  pub block_unmap_table : ℕ
  pub page_wear_table : ℕ
  pub page_unmap_table : ℕ
  pub reserve_data : ℕ
  pub data_start : ℕ

unfoldable pub size_of_block_wear_table : ℕ → ℕ
size_of_block_wear_table nvm_size_bits =
    align_up_bits (one_shl (sub64 nvm_size_bits bits_2m) * wear_count_size % u64_mod) bits_2m

unfoldable pub size_of_block_unmap_table : ℕ → ℕ
size_of_block_unmap_table nvm_size_bits =
    align_up_bits (one_shl (sub64 nvm_size_bits bits_2m) * wear_count_size % u64_mod) bits_2m

unfoldable pub size_of_page_unmap_table : ℕ → ℕ
size_of_page_unmap_table nvm_size_bits =
    let page_num = one_shl (sub64 nvm_size_bits bits_4k) in
    align_up_bits (align_up page_num 512 / 512 * entry_group_size % u64_mod) bits_2m

unfoldable pub size_of_page_wear_table : ℕ → ℕ
size_of_page_wear_table nvm_size_bits =
    align_up_bits (one_shl (sub64 nvm_size_bits bits_4k) * wear_count_size % u64_mod) bits_2m

unfoldable pub block_num_query : ℕ → ℕ → ℕ
block_num_query nvm_size_bits data_start = sub64 (one_shl nvm_size_bits) data_start / size_2m

unfoldable pub page_num_query : ℕ → ℕ → ℕ
page_num_query nvm_size_bits data_start = sub64 (one_shl nvm_size_bits) data_start / 2 ^ bits_4k

unfoldable pub nvm_size_query : ℕ → ℕ
nvm_size_query nvm_size_bits = one_shl nvm_size_bits

unfoldable pub page_to_block : ℕ → ℕ
page_to_block page = page / 2 ^ 9 % u32_mod

-- A physical page has 64 bits, a block 32, on which it is shifted.
unfoldable pub block_to_page : ℕ → ℕ
block_to_page block = block * 2 ^ 9 % u32_mod

-- The address of the page swap log's metadata is moved on once more before that of its area is taken.
unfoldable pub layouter_init : ℕ → ℕ → Layouter
unfolding size_of_block_wear_table size_of_block_unmap_table size_of_page_wear_table
    size_of_page_unmap_table block_num_query
layouter_init nvm_size_bits reserve_data_size =
    let threshold = 2 ^ 12 in
    let swap_log = add64 threshold nvm_addr_size in
    let page_swap_log = add64 (add64 swap_log nvm_addr_size) nvm_addr_size in
    let block_wear = size_2m in
    let block_unmap = add64 block_wear (size_of_block_wear_table nvm_size_bits) in
    let page_wear = add64 block_unmap (size_of_block_unmap_table nvm_size_bits) in
    let page_unmap = add64 page_wear (size_of_page_wear_table nvm_size_bits) in
    let reserve = add64 page_unmap (size_of_page_unmap_table nvm_size_bits) in
    let start = align_up_bits (add64 reserve reserve_data_size) bits_2m in
    let log_addr =
      sub64 (block_num_query nvm_size_bits start) logic_block_reserve_num * size_2m % u64_mod in
    record {
      nvm_size_bits = nvm_size_bits;
      reserve_data_size = reserve_data_size;
      block_swap_log_logic_addr = log_addr;
      page_swap_log_logic_addr = add64 log_addr size_2m;
      page_swap_area_logic_addr = add64 (add64 log_addr size_2m) size_2m;
      super_block = 0;
      meta_data_of_threshold = threshold;
      meta_data_of_block_swap_log = swap_log;
      meta_data_of_page_swap_log = page_swap_log;
      meta_data_of_page_swap_area = add64 page_swap_log nvm_addr_size;
      block_wear_table = block_wear;
      block_unmap_table = block_unmap;
      page_wear_table = page_wear;
      page_unmap_table = page_unmap;
      reserve_data = reserve;
      data_start = start;
    }
