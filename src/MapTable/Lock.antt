-- ===== src/MapTable/Lock.antt =====
-- The locks of src/wearlevel-refactor/MapTable.c. A lock is a counter of 22 bits, odd while a writer
-- holds it. `none`: the call waits for another holder, or follows a null pointer.
pub mod Sequence
use nvmfs.Prelude.{
  ℕ, ◌+◌, ◌%◌, ◌^◌, ◌>>=◌, Bool, true, false, not, Option, none, some, List, [], ◌∷◌, get_elem?,
  ◌==◌, if◌then◌else◌,
}
use nvmfs.Types.{u32_mod}
use nvmfs.MapTable.{
  PageEntry, BlockEntry, MapTable, index_of_block, relative_index_of_page, with_entry, with_page,
  at_page, page_at, nvm_addr_to_block, query,
}

abbrev pub is_odd : ℕ → Bool
is_odd n = n % 2 == 1

-- `lock++` on a field of 22 bits
abbrev pub next_lock : ℕ → ℕ
next_lock n = (n + 1) % 2 ^ 22

-- The value of a free lock; a held one is waited for.
abbrev pub when_free : ℕ → Option ℕ
when_free lock = if is_odd lock then none else some lock

unfoldable pub block_lock_of : MapTable → ℕ → Option ℕ
block_lock_of t addr = get_elem? t.entries (index_of_block addr) >>= λ e. some e.lock

unfoldable pub block_read_lock : MapTable → ℕ → Option ℕ
block_read_lock t addr = block_lock_of t addr >>= when_free

-- `true`: the entry has been written since, and the reader has to try again.
unfoldable pub block_read_unlock : MapTable → ℕ → ℕ → Option Bool
block_read_unlock t addr old = block_lock_of t addr >>= λ lock. some (not (old == lock))

unfoldable pub block_write_lock : MapTable → ℕ → Option MapTable
block_write_lock t addr =
    with_entry t (index_of_block addr)
      λ e. when_free e.lock >>= λ lock. some (record e { lock = next_lock lock })

unfoldable pub block_write_unlock : MapTable → ℕ → Option MapTable
block_write_unlock t addr =
    with_entry t (index_of_block addr) λ e. some (record e { lock = next_lock e.lock })

unfoldable pub page_read_lock : MapTable → ℕ → Option ℕ
page_read_lock t addr = page_at t addr >>= λ pe. when_free pe.lock

unfoldable pub page_read_unlock : MapTable → ℕ → ℕ → Option Bool
page_read_unlock t addr old = page_at t addr >>= λ pe. some (not (pe.lock == old))

unfoldable pub page_write_lock : MapTable → ℕ → Option MapTable
page_write_lock t addr =
    at_page t addr λ pe. when_free pe.lock >>= λ lock. some (record pe { lock = next_lock lock })

unfoldable pub page_write_unlock : MapTable → ℕ → Option MapTable
page_write_unlock t addr = at_page t addr λ pe. some (record pe { lock = next_lock pe.lock })

-- The physical block, on 32 bits.
unfoldable pub map_block_query : MapTable → ℕ → Option ℕ
map_block_query t addr =
    get_elem? t.entries (index_of_block addr) >>= λ e. some (e.phys_block_index % u32_mod)

-- `true`: the logical block is no longer at that physical address, and is not locked.
unfoldable pub lock_block_for_swap : MapTable → ℕ → ℕ → Option (Bool × MapTable)
lock_block_for_swap t logic_addr phys_addr = block_write_lock t logic_addr >>= λ t1.
    map_block_query t1 logic_addr >>= λ block.
    if block == nvm_addr_to_block phys_addr t.data_start
    then some (false, t1)
    else (block_write_unlock t1 logic_addr >>= λ t2. some (true, t2))

abbrev pub all_pages_free : List PageEntry → Option {0} Unit
all_pages_free [] = some tt
all_pages_free (pe ∷ pages) = when_free pe.lock >>= λ lock. all_pages_free pages

unfoldable pub wait_for_all_pages_unlock : MapTable → ℕ → Option {0} Unit
wait_for_all_pages_unlock t addr = get_elem? t.entries (index_of_block addr) >>= λ e.
    if e.fine_grain then (e.ptr >>= all_pages_free) else some tt

unfoldable pub map_table_lock_block_for_swap : MapTable → ℕ → ℕ → Option (Bool × MapTable)
map_table_lock_block_for_swap t logic_addr phys_addr =
    lock_block_for_swap t logic_addr phys_addr >>= λ (retry, t1).
    if retry
    then some (true, t1)
    else (wait_for_all_pages_unlock t1 logic_addr >>= λ _. some (false, t1))

unfoldable pub lock_page_for_swap : MapTable → ℕ → ℕ → Option (Bool × MapTable)
lock_page_for_swap t logic_addr phys_addr = page_write_lock t logic_addr >>= λ t1.
    query t1 logic_addr >>= λ addr.
    if addr == phys_addr
    then some (false, t1)
    else (page_write_unlock t1 logic_addr >>= λ t2. some (true, t2))

pub record LockHandle : Type 0 where
  pub value1 : ℕ
  pub value2 : ℕ

unfoldable pub lock_page_for_read : MapTable → ℕ → Option LockHandle
lock_page_for_read t addr = block_read_lock t addr >>= λ block. page_read_lock t addr >>= λ page.
    some (record { value1 = block % u32_mod; value2 = page % u32_mod })

-- `||`: the page's lock is read only if the block's has not changed.
unfoldable pub unlock_page_for_read : MapTable → ℕ → LockHandle → Option Bool
unlock_page_for_read t addr handle = block_read_unlock t addr handle.value1 >>= λ retry.
    if retry then some true else page_read_unlock t addr handle.value2
