-- ===== src/ExtentContainer.antt =====
-- include/fs/ExtentTree.h and src/fs/ExtentTree.c: extents, and the containers in which they are
-- handed out. Memory is always granted, as the code assumes.
pub mod Append
use nvmfs.Prelude.{
  ℕ, suc, ◌*◌, ◌+◌, Bool, true, false, List, [], ◌∷◌, ◌++◌, take, drop, ◌==◌, if◌then◌else◌, add64,
  sub64,
}

pub record Extent : Type 0 where
  pub start : ℕ
  pub end : ℕ

abbrev pub key : Extent → ℕ
key x = x.start

-- A growing array whose first `current_num` entries are in use.
pub record ExtentContainer : Type 0 where
  pub size : ℕ
  pub extent_num : ℕ
  pub current_num : ℕ
  pub array : List Extent
  -- `array` is not the inline array
  pub on_heap : Bool

abbrev pub default_extent_container_num : ℕ
default_extent_container_num = 3

abbrev pub container_init : ExtentContainer
container_init = record {
  size = 0;
  extent_num = default_extent_container_num;
  current_num = 0;
  array = [];
  on_heap = false;
}

unfoldable pub container_uninit : ExtentContainer → ExtentContainer
container_uninit c =
    let freed = if c.on_heap then [] else c.array in
    record {
      size = 0;
      extent_num = default_extent_container_num;
      current_num = 0;
      array = freed;
      on_heap = false;
    }

unfoldable pub container_clear : ExtentContainer → ExtentContainer
container_clear c = record c { current_num = 0; size = 0 }

-- The growth step: twice the room, with the first `extentNum` entries copied.
grow : ExtentContainer → ExtentContainer
grow c = record c {
  extent_num = c.extent_num * 2;
  array = take c.extent_num c.array;
  on_heap = true;
}

-- `array[i] = x` for `i` up to the number of entries written so far.
abbrev pub write_at : List Extent → ℕ → Extent → List Extent
write_at xs i x = take i xs ++ (x ∷ drop (suc i) xs)

ensure_room : ExtentContainer → ExtentContainer
unfolding grow
ensure_room c = if c.current_num == c.extent_num then grow c else c

append_entry : ExtentContainer → ℕ → ℕ → ExtentContainer
append_entry c start end = record c {
  array = write_at c.array c.current_num (record { start = start; end = end });
  size = add64 c.size (sub64 end start);
  current_num = c.current_num + 1;
}

unfoldable pub container_append : ExtentContainer → ℕ → ℕ → ExtentContainer
unfolding ensure_room append_entry
container_append c start end = append_entry (ensure_room c) start end

-- `for_each_extent_in_container`
abbrev pub extents : ExtentContainer → List Extent
extents c = take c.current_num c.array
