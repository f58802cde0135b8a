-- ===== src/MapTable/Valid.antt =====
-- A sound map table: no two blocks share a physical block, and no two pages of a split block a page.
use nvmfs.Prelude.{ℕ, ◌+◌, ◌*◌, ◌^◌, ◌≤◌, ◌<◌, ◌≡◌, true, some, List, length, get_elem?, u64_mod}
use nvmfs.MapTable.{PageEntry, BlockEntry, MapTable, pages_per_block}

pub record IsPageTable (pages : List PageEntry) : Type 0 where
  pub whole : length pages ≡ pages_per_block
  pub small : (i : ℕ) {pe : PageEntry} → get_elem? pages i ≡ some pe → pe.relative_index < 512
  pub unique :
      (i j : ℕ) {pe pf : PageEntry}
      → get_elem? pages i ≡ some pe
      → get_elem? pages j ≡ some pf
      → pe.relative_index ≡ pf.relative_index
      → i ≡ j

-- Of one entry: a split block has a page table, and a page table is sound.
pub record IsEntry (e : BlockEntry) : Type 0 where
  pub has_pages : e.fine_grain ≡ true → (pages : List PageEntry) × (e.ptr ≡ some pages)
  pub paged : {pages : List PageEntry} → e.ptr ≡ some pages → IsPageTable pages

pub record IsValid (t : MapTable) : Type 0 where
  pub whole : length t.entries ≡ t.block_num
  pub room : t.data_start + t.block_num * 2 ^ 21 ≤ u64_mod
  -- The number of a block is shifted by 21 bits on 39 bits.
  pub few : t.block_num ≤ 2 ^ 18
  pub entry : (i : ℕ) {e : BlockEntry} → get_elem? t.entries i ≡ some e → IsEntry e
  pub small :
      (i : ℕ) {e : BlockEntry} → get_elem? t.entries i ≡ some e → e.phys_block_index < t.block_num
  pub unique :
      (i j : ℕ) {e f : BlockEntry}
      → get_elem? t.entries i ≡ some e
      → get_elem? t.entries j ≡ some f
      → e.phys_block_index ≡ f.phys_block_index
      → i ≡ j
