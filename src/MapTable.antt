-- ===== src/MapTable.antt =====
-- src/wearlevel-refactor/MapTable.c: the translation of logical to physical addresses, by blocks of
-- 2 MB and, where a block is split, by pages of 4 KB; its locks are in the child Lock.
-- `none`: an index outside the table, or a block that has no page table.
pub mod Valid
pub mod Query
pub mod Move
pub mod Swap
pub mod Format
pub mod View
pub mod Split
pub mod Lock
use nvmfs.Prelude.{
  ℕ, zero, suc, ◌+◌, ◌*◌, ◌/◌, ◌%◌, ◌^◌, ◌>>=◌, Bool, true, false, not, Option, none, some, List,
  [], ◌∷◌, get_elem?, set, if◌then◌else◌, add64, sub64, u64_mod,
}
use nvmfs.Types.{u32_mod, logical_page_to_block}

pub record PageEntry : Type 0 where
  pub busy : Bool
  -- 22 bits: odd while a writer holds the page
  pub lock : ℕ
  -- 9 bits
  pub relative_index : ℕ

pub record BlockEntry : Type 0 where
  pub fine_grain : Bool
  pub busy : Bool
  -- 22 bits: odd while a writer holds the block
  pub lock : ℕ
  -- 39 bits
  pub phys_block_index : ℕ
  pub ptr : Option (List PageEntry)

pub record MapTable : Type 0 where
  pub entries : List BlockEntry
  pub block_num : ℕ
  pub data_start : ℕ

abbrev pub pages_per_block : ℕ
pages_per_block = 512

-- The entries of MapTableFormat from block `i` on. `i` is an int: for block numbers below 2^31, beyond
-- which C leaves open what it does.
abbrev pub format_entries : ℕ → ℕ → List BlockEntry
format_entries zero i = []
format_entries (suc n) i =
    record { fine_grain = false; busy = false; lock = 0; phys_block_index = i % 2 ^ 39; ptr = none }
    ∷ format_entries n (i + 1)

unfoldable pub format : ℕ → ℕ → MapTable
format block_num data_start = record {
  entries = format_entries block_num 0;
  block_num = block_num;
  data_start = data_start;
}

abbrev pub index_of_block : ℕ → ℕ
index_of_block addr = addr / 2 ^ 21

abbrev pub relative_index_of_page : ℕ → ℕ
relative_index_of_page addr = (addr / 2 ^ 12) % 2 ^ 9

abbrev pub page_offset_of_addr : ℕ → ℕ
page_offset_of_addr addr = addr % 2 ^ 12

abbrev pub block_offset_of_addr : ℕ → ℕ
block_offset_of_addr addr = addr % 2 ^ 21

-- `include/wearlevel-refactor/Layouter.h`
unfoldable pub nvm_addr_to_block : ℕ → ℕ → ℕ
nvm_addr_to_block addr data_start = (sub64 addr data_start / 2 ^ 21) % u32_mod

unfoldable pub nvm_addr_to_page : ℕ → ℕ → ℕ
nvm_addr_to_page addr data_start = sub64 addr data_start / 2 ^ 12

-- The shift is done on 32 bits, the width of a block number.
unfoldable pub block_to_nvm_addr : ℕ → ℕ → ℕ
block_to_nvm_addr block data_start = add64 (block * 2 ^ 21 % u32_mod) data_start

unfoldable pub page_to_nvm_addr : ℕ → ℕ → ℕ
page_to_nvm_addr page data_start = add64 (page * 2 ^ 12 % u64_mod) data_start

-- The address in the block of entry `e` for the logical address `addr`.
unfoldable pub offset_in : BlockEntry → ℕ → Option ℕ
offset_in e addr =
    if e.fine_grain
    then (e.ptr >>= λ pages. get_elem? pages (relative_index_of_page addr) >>= λ pe.
        some (add64 (pe.relative_index * 2 ^ 12) (page_offset_of_addr addr)))
    else some (block_offset_of_addr addr)

-- gcc shifts a bit-field of 39 bits on 39 bits.
unfoldable pub query : MapTable → ℕ → Option ℕ
unfolding offset_in
query t addr = get_elem? t.entries (index_of_block addr) >>= λ e. offset_in e addr >>= λ off.
    some (add64 (add64 t.data_start (e.phys_block_index * 2 ^ 21 % 2 ^ 39)) off)

-- A write through `&pTable->entries[i]`.
unfoldable pub with_entry : MapTable → ℕ → (BlockEntry → Option BlockEntry) → Option MapTable
with_entry t i f =
    get_elem? t.entries i >>= λ e. f e >>= λ e'. some (record t { entries = set t.entries i e' })

-- A write through `&be->ptr->entries[i]`.
unfoldable pub with_page : BlockEntry → ℕ → (PageEntry → Option PageEntry) → Option BlockEntry
with_page e i f = e.ptr >>= λ pages.
    get_elem? pages i >>= λ pe. f pe >>= λ pe'. some (record e { ptr = some (set pages i pe') })

unfoldable pub at_page : MapTable → ℕ → (PageEntry → Option PageEntry) → Option MapTable
unfolding with_entry with_page
at_page t addr f =
    with_entry t (index_of_block addr) λ e. with_page e (relative_index_of_page addr) f

unfoldable pub page_at : MapTable → ℕ → Option PageEntry
page_at t addr = get_elem? t.entries (index_of_block addr) >>= λ e.
    e.ptr >>= λ pages. get_elem? pages (relative_index_of_page addr)

unfoldable pub block_set : MapTable → ℕ → ℕ → Option MapTable
unfolding with_entry
block_set t addr block =
    with_entry t (index_of_block addr) λ e. some (record e { phys_block_index = block })

unfoldable pub page_set : MapTable → ℕ → ℕ → Option MapTable
unfolding at_page
page_set t addr index = at_page t addr λ pe. some (record pe { relative_index = index % 2 ^ 9 })

unfoldable pub is_block : MapTable → ℕ → Option Bool
is_block t addr = get_elem? t.entries (index_of_block addr) >>= λ e. some (not e.fine_grain)

unfoldable pub is_block_busy : MapTable → ℕ → Option Bool
is_block_busy t addr = get_elem? t.entries (index_of_block addr) >>= λ e. some e.busy

unfoldable pub is_page_busy : MapTable → ℕ → Option Bool
unfolding page_at
is_page_busy t addr = page_at t addr >>= λ pe. some pe.busy

unfoldable pub block_trim : MapTable → ℕ → Option MapTable
unfolding with_entry
block_trim t addr = with_entry t (index_of_block addr) λ e. some (record e { busy = false })

unfoldable pub page_trim : MapTable → ℕ → Option MapTable
unfolding at_page
page_trim t addr = at_page t addr λ pe. some (record pe { busy = false })

unfoldable pub block_busy : MapTable → ℕ → Option MapTable
unfolding with_entry
block_busy t addr = with_entry t (index_of_block addr) λ e. some (record e { busy = true })

unfoldable pub page_busy : MapTable → ℕ → Option MapTable
unfolding with_entry with_page
page_busy t addr = with_entry t (index_of_block addr) λ e.
    with_page (record e { busy = true }) (relative_index_of_page addr)
      λ pe. some (record pe { busy = true })

unfoldable pub merge : MapTable → ℕ → Option MapTable
unfolding with_entry
merge t addr =
    with_entry t (index_of_block addr) λ e. some (record e { fine_grain = false; ptr = none })

-- The page entries that MapTableSplit makes, from page `i` on.
abbrev pub split_entries : ℕ → ℕ → List PageEntry
split_entries zero i = []
split_entries (suc n) i =
    record { busy = false; lock = 0; relative_index = i % 2 ^ 9 } ∷ split_entries n (i + 1)

unfoldable pub split : MapTable → ℕ → Option MapTable
unfolding with_entry
split t addr =
    with_entry t (index_of_block addr)
      λ e. some (record e { fine_grain = true; ptr = some (split_entries pages_per_block 0) })

-- `pTable->entries[block].physBlockIndex`
abbrev pub phys_of : MapTable → ℕ → Option ℕ
phys_of t block = get_elem? t.entries block >>= λ e. some e.phys_block_index

unfoldable pub set_phys : MapTable → ℕ → ℕ → Option MapTable
unfolding with_entry
set_phys t block index = with_entry t block λ e. some (record e { phys_block_index = index })

unfoldable pub block_swap_fast : MapTable → ℕ → ℕ → Option MapTable
block_swap_fast t block_a block_b = phys_of t block_a >>= λ index_a.
    phys_of t block_b >>= λ index_b.
    set_phys t block_a index_b >>= λ t1. set_phys t1 block_b index_a

unfoldable pub block_swap_slow : MapTable → ℕ → ℕ → ℕ → Option MapTable
block_swap_slow t block_a block_b block_c = phys_of t block_a >>= λ index_a.
    phys_of t block_b >>= λ index_b. phys_of t block_c >>= λ index_c.
    set_phys t block_a index_b >>= λ t1.
    set_phys t1 block_b index_c >>= λ t2. set_phys t2 block_c index_a

-- The exchange of two relative indices in one page table.
unfoldable pub swap_pages : BlockEntry → ℕ → ℕ → Option BlockEntry
unfolding with_page
swap_pages e a b = e.ptr >>= λ pages. get_elem? pages a >>= λ pa. get_elem? pages b >>= λ pb.
    with_page e a (λ pe. some (record pe { relative_index = pb.relative_index })) >>= λ e1.
    with_page e1 b (λ pe. some (record pe { relative_index = pa.relative_index }))

unfoldable pub page_swap : MapTable → ℕ → ℕ → Option MapTable
unfolding swap_pages with_entry
page_swap t page_a page_b =
    with_entry t (logical_page_to_block page_a)
      λ e. swap_pages e (page_a % pages_per_block) (page_b % pages_per_block)
