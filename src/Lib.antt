-- ===== src/Lib.antt =====
-- nvmfs, a file system for non-volatile memory (paths from the repository's root).
--
-- The file system (src/fs) keeps files, directories and logs on logical addresses. It takes 2 MB
-- blocks from the block pool (src/fs/BlockPool.c) and 4 KB pages from the page pool, which cuts up
-- blocks. Free ranges of blocks are kept in extent trees (src/fs/ExtentTree.c) and are handed out
-- in extent containers.
--
-- Prelude has lists, Boolean tests and 64-bit arithmetic; Types the machine integers and address
-- conversions of include/Types.h and include/Align.h. RbTree is the interface of linux/rbtree.h, a
-- library of the kernel: the sources walk and link the nodes themselves, so a tree is a binary tree,
-- and what the library's calls do to the order of the nodes is a record of laws that a concrete
-- library meets. ExtentContainer and ExtentTree model include/fs/ExtentTree.h and
-- src/fs/ExtentTree.c; a failed assertion is `none`. BlockPool models src/fs/BlockPool.c: each call
-- is atomic by the pool's mutex, and the addresses that it trims are returned.
--
-- RadixTree models src/fs/RadixTree.c, a map from keys to pointers; a null pointer is `none`.
-- InodeTable models src/fs/InodeTable.c, whose free entries form a queue of inode numbers.
--
-- Memory is the non-volatile memory as bytes by addresses, which NVMAccesserRead and NVMAccesserWrite
-- move. ContinousSpace models src/fs/ContinousSpace.c, a sequence of bytes over linked pages, and Log
-- models src/fs/Log.c, entries in such a sequence. To both, the page pool is an interface of three calls; what
-- the callbacks of a log's entries are called with is returned as a list of events.
--
-- PagePool models src/fs/PagePool.c over BlockPool and RadixTree: a sub-pool's bitmap is a list of
-- words, each the list of its bits, the intrusive list is a list of sub-pools, and a pointer to one is
-- the number of its block. What other callers do while the lock is released is a parameter; the
-- theorems are about one caller alone. PagePool.Areas makes it the page pool of a continous space.
--
-- FileExtentTree models src/fs/FileExtentTree.c, which keeps where the parts of a file stand, as a
-- map from the file's offsets to addresses. CircularBuffer models src/fs/CircularBuffer.c, where an
-- access outside an array is `none`.
--
-- Below the file system, the wear leveler (src/wearlevel-refactor) moves the data of logical blocks
-- and pages between physical ones. Layouter models src/wearlevel-refactor/Layouter.c, where the tables
-- and the data stand. MapTable models src/wearlevel-refactor/MapTable.c and the
-- conversions of include/wearlevel-refactor/Layouter.h, MapTable.Lock its locks, where a call that
-- would wait for another holder is `none`; MapTable.View composes a swap
-- with the copies of the data that src/wearlevel-refactor/BlockManager.c makes before it. The copy
-- itself is a parameter, since NVMemcpy ends in memcpy, a library function. Coldness models
-- src/wearlevel-refactor/BlockColdnessManager.c and BlockWearTable.c there, with the queues as lists of
-- block numbers; BlockManager models the swaps of BlockManager.c with their locks and what leads to
-- them, and BlockUnmapTable.c. The calls of the swap log are recorded in order. The children of each
-- module prove what its operations do; Tests runs them and applies the theorems at concrete inputs.
--
-- The loops over a continuous space take as fuel one more than their bytes, since each round moves at
-- least one; those over a log's entries and pages take it as an argument, for a log may be cyclic, and
-- the theorems ask for more than the entries or pages of a well-formed one.
--
-- Not modelled: printing, and the calls that only give memory back or compare two structures. The
-- file data manager, the inodes and directories, the recovery driver, the
-- reading, writing, split and merge of BlockManager.c, the swaps of the log's own area, the tables and
-- manager of pages, the swap log's area, and the first wear leveler (src/wearlevel) are not part of the model. The
-- VFS callbacks (src/vfs) and the emulator of the device only call the kernel, and the copies of the
-- kernel's libraries are not the file system's own code.
--
-- Bounds: a UINT64 and a UINT32 wrap. The loops over a tree take as fuel one more than the number of
-- its nodes, which suffices, since each round takes a node out. Memory is always granted, as the
-- code assumes where it does not test for it. What is read of memory that has been given back, as
-- ExtentTreePut and PageSubPoolDeprecate do, is unknown: the word `freed_word` of the tree library's
-- record, and a theorem that depends on it assumes that freed memory keeps its contents. A loop that
-- counts blocks in an int is the code below 2^31 blocks, and the 39-bit field of the map table is
-- shifted on 39 bits, as gcc does. The buffer of FileExtentTreeRead is the memory from its start on.
pub mod Prelude
pub mod RbTree
pub mod Types
pub mod Memory
pub mod ContinousSpace
pub mod Log
pub mod FileExtentTree
pub mod CircularBuffer
pub mod ExtentContainer
pub mod ExtentTree
pub mod BlockPool
pub mod MapTable
pub mod RadixTree
pub mod PagePool
pub mod Layouter
pub mod Coldness
pub mod BlockManager
pub mod InodeTable
mod Tests
