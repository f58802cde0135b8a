-- ===== src/BlockManager/Consistent.antt =====
-- The unmap table goes the other way than the map table.
use nvmfs.Prelude.{
  ℕ, ◌≤◌, ◌<◌, ◌≡◌, ◌≢◌, ◌∙◌, some, List, length, get_elem?, set, get_elem?-set_self,
  get_elem?-set_ne, get_elem?-lt,
}
use nvmfs.MapTable.{BlockEntry, MapTable}
use nvmfs.MapTable.Valid
use nvmfs.BlockManager.{BlockInfo, BlockManager}

-- Block `block` of the unmap table has the logical block `logical`.
pub record UnmapsTo (unmap : List BlockInfo) (block logical : ℕ) : Type 0 where
  pub info : BlockInfo
  pub at : get_elem? unmap block ≡ some info
  pub same : info.unmap_block ≡ logical

-- The physical block of every logical one has it in the unmap table.
abbrev pub Inverse : MapTable → List BlockInfo → Type 0
Inverse t unmap =
    (l : ℕ) (e : BlockEntry) → get_elem? t.entries l ≡ some e → UnmapsTo unmap e.phys_block_index l

pub record IsConsistent {ℓ} {Memory : Type ℓ} (m : BlockManager Memory) : Type 0 where
  pub table : Valid.IsValid m.map_table
  -- The numbers of the blocks are shifted to addresses on 32 bits.
  pub few : m.map_table.block_num ≤ 2048
  pub same_start : m.data_start ≡ m.map_table.data_start
  pub inverse : Inverse m.map_table m.unmap_table

pub UnmapsTo-set_self :
    (unmap : List BlockInfo) (block logical : ℕ) (info : BlockInfo)
    → block < length unmap
    → info.unmap_block ≡ logical
    → UnmapsTo (set unmap block info) block logical
UnmapsTo-set_self unmap block logical info h e = record {
  info = info;
  at = get_elem?-set_self unmap block info h;
  same = e;
}

pub UnmapsTo-set_ne :
    (unmap : List BlockInfo) (a block logical : ℕ) (info : BlockInfo)
    → a ≢ block
    → UnmapsTo unmap block logical
    → UnmapsTo (set unmap a info) block logical
UnmapsTo-set_ne unmap a block logical info n u = record {
  info = u.info;
  at = get_elem?-set_ne unmap info n ∙ u.at;
  same = u.same;
}

pub length-of :
    {unmap : List BlockInfo} {block logical : ℕ} (u : UnmapsTo unmap block logical)
    → block < length unmap
length-of {unmap = unmap} {block = block} u = get_elem?-lt unmap block u.at
