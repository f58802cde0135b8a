-- ===== src/Tests/Inodes.antt =====
-- Tests of InodeTable.c.
use nvmfs.Prelude.{ℕ, ◌≢◌, get_elem?, ◌≡◌, refl, some, none, [], ◌∷◌, arith}
use nvmfs.InodeTable.{
  no_inode, recovery_end, next, inode, InodeTable, get_ino, update_inode_addr, get_inode_addr,
}
use nvmfs.InodeTable.Recovery.{unused, recovery_end-IsQueue}
use nvmfs.InodeTable.Queue.{IsQueue, get_ino-IsQueue, update_inode_addr-IsQueue}

-- Numbers 3 and 1 are free, in this order; the last one's entry still holds an address.
abbrev two_free : InodeTable
two_free = record {
  max_inode_num = 4;
  list_table = next none ∷ inode 4096 ∷ inode 8192 ∷ next (some 1) ∷ [];
  head = some 3;
  tail = some 1;
  words = 0 ∷ 4096 ∷ 8192 ∷ 0 ∷ [];
}

two_free-IsQueue : IsQueue two_free (3 ∷ 1 ∷ [])
two_free-IsQueue = record {
  ends = (refl, refl, (refl, tt));
  distinct = (((λ e. absurd (omega arith)), tt), (tt, tt));
  inside = (omega arith, (omega arith, tt));
}

get_ino-IsQueue_example :
    (t' : InodeTable) × (get_ino two_free ≡ some (3, t')) × IsQueue t' (1 ∷ [])
get_ino-IsQueue_example = get_ino-IsQueue two_free 3 (1 ∷ []) two_free-IsQueue

update_inode_addr-IsQueue_example :
    (t' : InodeTable) × (update_inode_addr two_free 2 12288 ≡ some t')
    × (get_inode_addr t' 2 ≡ some 12288)
    × (get_elem? t'.words 2 ≡ some 12288)
    × ((i : ℕ)
        → 2 ≢ i
        → (get_elem? t'.list_table i ≡ get_elem? two_free.list_table i)
          × (get_elem? t'.words i ≡ get_elem? two_free.words i))
    × IsQueue t' (3 ∷ 1 ∷ [])
update_inode_addr-IsQueue_example =
    update_inode_addr-IsQueue two_free 2 12288 (3 ∷ 1 ∷ []) two_free-IsQueue
      ((λ e. absurd (omega arith)), ((λ e. absurd (omega arith)), tt)) (omega arith) (omega arith)

-- Number 2 is in use; 1 and 3 have not been notified.
abbrev recovering : InodeTable
recovering = record {
  max_inode_num = 4;
  list_table = inode no_inode ∷ inode no_inode ∷ inode 8192 ∷ inode no_inode ∷ [];
  head = none;
  tail = none;
  words = 0 ∷ 0 ∷ 8192 ∷ 0 ∷ [];
}

recovering-IsQueue : IsQueue recovering []
recovering-IsQueue = record { ends = (refl, refl); distinct = tt; inside = tt }

recovering_unused : unused recovering.list_table 3 1 ≡ 1 ∷ 3 ∷ []
recovering_unused = refl

recovery_end-IsQueue_example :
    (t' : InodeTable) × (recovery_end recovering ≡ some t')
    × IsQueue t' (unused recovering.list_table 3 1)
recovery_end-IsQueue_example = recovery_end-IsQueue recovering recovering-IsQueue refl (omega arith)
