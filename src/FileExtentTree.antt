-- ===== src/FileExtentTree.antt =====
-- src/fs/FileExtentTree.c: the parts of a file and where they stand in non-volatile memory, over the
-- calls of linux/rbtree.h. `none` is a failed assertion, or a loop that its fuel does not cover.
pub mod Order
pub mod Pieces
pub mod Sorting
pub mod Erase
pub mod Range
pub mod Add
pub mod Part
pub mod Seen
pub mod Inside
pub mod Read
pub mod Truncate
use nvmfs.Prelude.{
  ℕ, zero, suc, ◌+◌, ◌>>=◌, Bool, true, false, ◌&&◌, Option, none, some, List, [], ◌∷◌, length, ltb,
  leb, ◌==◌, if◌then◌else◌, add64, sub64, replicate,
}
use nvmfs.Memory.{Memory, load, store}
use nvmfs.RbTree.{Tree, leaf, node, RbTree, write_node}

pub record FileSpaceNode : Type 0 where
  pub start : ℕ
  pub size : ℕ

pub record FileExtentNode : Type 0 where
  pub start : ℕ
  pub size : ℕ
  pub file_start : ℕ

pub record FileExtentTree : Type 0 where
  pub extents : Tree FileExtentNode
  pub spaces : Tree FileSpaceNode
  pub effective_size : ℕ
  pub space_size : ℕ

-- A node is named by where it starts.
abbrev pub extent_key : FileExtentNode → ℕ
extent_key x = x.file_start

abbrev pub space_key : FileSpaceNode → ℕ
space_key s = s.start

abbrev pub init : FileExtentTree
init = record { extents = leaf; spaces = leaf; effective_size = 0; space_size = 0 }

-- The descent to where a node belongs, and `rb_link_node`.
unfoldable pub link {ℓ} : {A : Type ℓ} → (A → ℕ) → A → Tree A → Tree A
link key x leaf = node leaf x leaf
link key x (node l y r) =
    let left = node (link key x l) y r in
    let right = node l y (link key x r) in if ltb (key x) (key y) then left else right

unfoldable pub is_in_space : FileSpaceNode → ℕ → Bool
is_in_space s addr = leb s.start addr && ltb addr (add64 s.start s.size)

unfoldable pub lookup_space : Tree FileSpaceNode → ℕ → Option FileSpaceNode
unfolding is_in_space
lookup_space leaf addr = none
lookup_space (node l s r) addr =
    let left = lookup_space l addr in
    let right = lookup_space r addr in
    if is_in_space s addr then some s else if ltb addr s.start then left else right

-- The loop of ExtentTreeLowerBound: `best` is `retNode`.
unfoldable pub lower_bound_from :
    ℕ → Option FileExtentNode → Tree FileExtentNode → Option FileExtentNode
lower_bound_from start best leaf = best
lower_bound_from start best (node l x r) =
    let left = lower_bound_from start best l in
    let right = lower_bound_from start (some x) r in
    if start == x.file_start then some x else if ltb start x.file_start then left else right

unfoldable pub lower_bound : Tree FileExtentNode → ℕ → Option FileExtentNode
unfolding lower_bound_from
lower_bound t start = lower_bound_from start none t

unfoldable pub end_of : FileExtentNode → ℕ
end_of x = add64 x.file_start x.size

abbrev pub count_nodes {ℓ} : {A : Type ℓ} → Tree A → ℕ
count_nodes leaf = 0
count_nodes (node l x r) = count_nodes l + suc (count_nodes r)

-- What FileExtentTreeRead reads of the node `x` for the range from `start` to `end`: from where to
-- where, and where that stands in the file.
unfoldable pub readable : ℕ → ℕ → FileExtentNode → ℕ × ℕ × ℕ
readable start end x =
    let cur_start = x.file_start in
    let cur_end = end_of x in
    if leb cur_start start && (leb start cur_end && leb cur_end end)
    then (add64 x.start (sub64 start cur_start), add64 x.start x.size, start)
    else if leb cur_start start && leb end cur_end
    then (add64 x.start (sub64 start cur_start), add64 x.start (sub64 end cur_start), start)
    else if leb start cur_start && leb cur_end end
    then (x.start, add64 x.start x.size, cur_start)
    else (x.start, add64 x.start (sub64 end cur_start), cur_start)

-- The buffer with zeros, as many as from `last` to `next` of the file, from `next` on. The buffer is
-- the memory from its start on, what stands behind its end included: the zeros may reach there.
unfoldable pub fill_hole : Memory → ℕ → ℕ → ℕ → Memory
fill_hole buffer start last next =
    if last == next then buffer else store buffer (sub64 next start) (replicate (sub64 next last) 0)

-- The zeros before the node's bytes, as the code writes them, and these bytes: the buffer, and
-- `lastRead`.
unfoldable pub read_node : Memory → ℕ → ℕ → Memory → ℕ → FileExtentNode → Memory × ℕ
unfolding fill_hole readable end_of
read_node m start end buffer last x =
    let (from, to, read_start) = readable start end x in
    let buffer' = fill_hole buffer start last read_start in
    (
      store buffer' (sub64 read_start start) (load m from (sub64 to from)),
      add64 read_start (sub64 to from),
    )

module _ (rb : RbTree extent_key) (rb_spaces : RbTree space_key) where
  open rb use {first, next, erase, insert_color}

  unfoldable pub add_space : FileExtentTree → ℕ → ℕ → FileExtentTree
  add_space t addr size = record t {
    spaces =
        rb_spaces.insert_color (link space_key (record { start = addr; size = size }) t.spaces);
    space_size = add64 t.space_size size;
  }

  unfoldable pub insert_extent_node : FileExtentTree → FileExtentNode → Option FileExtentTree
  insert_extent_node t x = lookup_space t.spaces x.start >>= λ space. some (record t {
    extents = insert_color (link extent_key x t.extents);
    effective_size = add64 t.effective_size x.size;
  })

  unfoldable pub delete_extent_node : FileExtentTree → FileExtentNode → FileExtentTree
  delete_extent_node t x = record t { extents = erase x.file_start t.extents }

  -- `cur->size = size`, and the node goes when nothing is left of it.
  unfoldable pub resize : FileExtentTree → FileExtentNode → ℕ → FileExtentTree
  unfolding write_node delete_extent_node
  resize t x size =
      let t' = record t {
        extents = write_node extent_key x.file_start (λ y. record y { size = size }) t.extents;
      } in
      if size == 0 then delete_extent_node t' x else t'

  unfoldable pub take_effective : FileExtentTree → ℕ → FileExtentTree
  take_effective t size = record t { effective_size = sub64 t.effective_size size }

  -- The part of the node `x` behind `end` as a node of its own.
  unfoldable pub split_behind : FileExtentTree → FileExtentNode → ℕ → Option FileExtentTree
  unfolding insert_extent_node end_of
  split_behind t x end =
      let size = sub64 (end_of x) end in
      let split = insert_extent_node t (record {
        start = add64 x.start (sub64 end x.file_start);
        size = size;
        file_start = end;
      }) in
      if size == 0 then some t else split

  -- The node `x` starts at `end` from now on: it is written to, taken out and put back.
  unfoldable pub move_behind : FileExtentTree → FileExtentNode → ℕ → Option FileExtentTree
  unfolding insert_extent_node delete_extent_node end_of
  move_behind t x end =
      let size = sub64 (end_of x) end in
      let moved : FileExtentNode = record {
        start = add64 x.start (sub64 end x.file_start);
        size = size;
        file_start = add64 x.file_start (sub64 end x.file_start);
      } in
      let again = insert_extent_node (delete_extent_node t x) moved in
      if size == 0 then some (delete_extent_node t x) else again

  -- What ExtentTreeErase does to the node `x`, which reaches behind `start` and starts before `end`.
  unfoldable pub erase_node : FileExtentTree → ℕ → ℕ → FileExtentNode → Option FileExtentTree
  unfolding resize take_effective split_behind move_behind delete_extent_node end_of
  erase_node t start end x =
      let cur_start = x.file_start in
      let cur_end = end_of x in
      let split =
        split_behind
          (record t {
            extents =
                write_node extent_key x.file_start (λ y. record y { size = sub64 start cur_start })
                  t.extents;
          })
          x end
        >>= λ t'. some (
            take_effective (if sub64 start cur_start == 0 then delete_extent_node t' x else t')
              (sub64 end start)) in
      let move = move_behind t x end >>= λ t'. some (take_effective t' (sub64 end cur_start)) in
      if leb cur_start start && (leb start cur_end && leb cur_end end)
      then some
          (take_effective (resize t x (sub64 x.size (sub64 cur_end start))) (sub64 cur_end start))
      else if leb cur_start start && leb end cur_end
      then split
      else if leb start cur_start && leb cur_end end
      then some (take_effective (delete_extent_node t x) (sub64 cur_end cur_start))
      else move

  -- The node behind `x`, if there is an `x`.
  unfoldable pub next_of : Tree FileExtentNode → Option FileExtentNode → Option FileExtentNode
  next_of t none = none
  next_of t (some x) = next x.file_start t

  unfoldable pub or_first : Tree FileExtentNode → Option FileExtentNode → Option FileExtentNode
  or_first t none = first t
  or_first t (some x) = some x

  -- The node that the loops over a range start from.
  unfoldable pub start_node : Tree FileExtentNode → ℕ → Option FileExtentNode
  unfolding lower_bound or_first
  start_node t start = or_first t (lower_bound t start)

  -- The loop of ExtentTreeErase at the node `cur`, with `next` behind it.
  unfoldable pub erase_from :
      ℕ
      → FileExtentTree
      → ℕ
      → ℕ
      → Option FileExtentNode
      → Option FileExtentNode
      → Option FileExtentTree
  unfolding erase_node next_of end_of
  erase_from zero t start end cur next' = none
  erase_from (suc fuel) t start end none next' = some t
  erase_from (suc fuel) t start end (some x) next' =
      let skip = erase_from fuel t start end next' (next_of t.extents next') in
      let more = erase_node t start end x >>= λ t'.
      erase_from fuel t' start end next' (next_of t'.extents next') in
      if leb end x.file_start then some t else if leb (end_of x) start then skip else more

  unfoldable pub erase_range : FileExtentTree → ℕ → ℕ → Option FileExtentTree
  unfolding erase_from start_node next_of
  erase_range t file_start size =
      let cur = start_node t.extents file_start in
      erase_from (count_nodes t.extents + 1) t file_start (add64 file_start size) cur
        (next_of t.extents cur)

  unfoldable pub add_extent : FileExtentTree → ℕ → ℕ → ℕ → Option FileExtentTree
  unfolding erase_range insert_extent_node
  add_extent t addr file_start size = erase_range t file_start size >>= λ t'.
      insert_extent_node t' (record { start = addr; size = size; file_start = file_start })

  -- The loop of FileExtentTreeRead: the buffer, and `lastRead`.
  unfoldable pub read_from :
      ℕ
      → FileExtentTree
      → Memory
      → ℕ
      → ℕ
      → Memory
      → ℕ
      → Option FileExtentNode
      → Option FileExtentNode
      → Option (Memory × ℕ)
  unfolding read_node next_of end_of
  read_from zero t m start end buffer last cur next' = none
  read_from (suc fuel) t m start end buffer last none next' = some (buffer, last)
  read_from (suc fuel) t m start end buffer last (some x) next' =
      let (buffer', last') = read_node m start end buffer last x in
      let skip = read_from fuel t m start end buffer last next' (next_of t.extents next') in
      let more = read_from fuel t m start end buffer' last' next' (next_of t.extents next') in
      if leb end x.file_start
      then some (buffer, last)
      else if leb (end_of x) start
      then skip
      else more

  unfoldable pub read : FileExtentTree → Memory → ℕ → ℕ → Memory → Option Memory
  unfolding read_from start_node next_of
  read t m start end buffer =
      let cur = start_node t.extents start in
      read_from (count_nodes t.extents + 1) t m start end buffer start cur (next_of t.extents cur)
      >>= λ (buffer', last). some (
          if last == end
          then buffer'
          else store buffer' (sub64 last start) (replicate (sub64 end last) 0))

  -- The loop of ExtentTreeDestroy.
  unfoldable pub destroy_from :
      ℕ → Tree FileExtentNode → Option FileExtentNode → Option (Tree FileExtentNode)
  unfolding next_of
  destroy_from zero t cur = none
  destroy_from (suc fuel) t none = some t
  destroy_from (suc fuel) t (some x) = destroy_from fuel (erase x.file_start t) (next_of t (some x))

  unfoldable pub truncate : FileExtentTree → Option FileExtentTree
  unfolding destroy_from
  truncate t = destroy_from (count_nodes t.extents + 1) t.extents (first t.extents) >>= λ extents.
      some (record t { extents = extents; effective_size = 0 })
