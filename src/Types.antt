-- ===== src/Types.antt =====
-- include/Types.h and include/Align.h: machine integers, sizes, and addresses in blocks and pages.
use nvmfs.Prelude.{ℕ, ◌+◌, ◌-◌, ◌*◌, ◌/◌, ◌%◌, ◌^◌, u64_mod}

abbrev pub u32_mod : ℕ
u32_mod = 2 ^ 32

abbrev pub bits_4k : ℕ
bits_4k = 12

abbrev pub size_4k : ℕ
size_4k = 2 ^ 12

abbrev pub bits_2m : ℕ
bits_2m = 21

abbrev pub size_2m : ℕ
size_2m = 2 ^ 21

-- (-1UL)
abbrev pub invalid_nvm_addr : ℕ
invalid_nvm_addr = 2 ^ 64 - 1

-- (-1) as a 32-bit block number
abbrev pub invalid_block : ℕ
invalid_block = 2 ^ 32 - 1

abbrev pub invalid_page : ℕ
invalid_page = 2 ^ 64 - 1

abbrev pub invalid_nvmfs_ino : ℕ
invalid_nvmfs_ino = 2 ^ 64 - 1

unfoldable pub logical_addr_to_block : ℕ → ℕ
logical_addr_to_block addr = (addr / 2 ^ 21) % u32_mod

-- The shift is done on 32 bits, the width of a block number.
unfoldable pub logical_block_to_addr : ℕ → ℕ
logical_block_to_addr block = (block * 2 ^ 21) % u32_mod

unfoldable pub logical_page_to_addr : ℕ → ℕ
logical_page_to_addr page = (page * 2 ^ 12) % u64_mod

unfoldable pub logical_addr_to_page : ℕ → ℕ
logical_addr_to_page addr = addr / 2 ^ 12

-- Here, too, the shift is done on 32 bits.
unfoldable pub logical_block_to_page : ℕ → ℕ
logical_block_to_page block = (block * 2 ^ 9) % u32_mod

unfoldable pub logical_page_to_block : ℕ → ℕ
logical_page_to_block page = (page / 2 ^ 9) % u32_mod

-- `align - 1` is computed on 32 bits.
unfoldable pub align_up : ℕ → ℕ → ℕ
align_up size align = ((size + (align + u32_mod - 1) % u32_mod) % u64_mod / align * align) % u64_mod

-- Clearing the low `bits` bits of the rounded-up size.
unfoldable pub align_up_bits : ℕ → ℕ → ℕ
align_up_bits size bits = let top = (size + (2 ^ bits - 1)) % u64_mod in top - top % 2 ^ bits

unfoldable pub align_down : ℕ → ℕ → ℕ
align_down size align = size / align * align

unfoldable pub align_down_bits : ℕ → ℕ → ℕ
align_down_bits size bits = size - size % 2 ^ bits
