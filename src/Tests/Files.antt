-- ===== src/Tests/Files.antt =====
-- Tests of FileExtentTree.c.
use nvmfs.Prelude.{
  ℕ, ◌+◌, ◌-◌, ◌%◌, ◌≤◌, ◌<◌, ◌≡◌, inr, some, [], ◌&&◌, ltb, leb, if◌then◌else◌, arith,
}
use nvmfs.Memory.{Memory}
use nvmfs.RbTree.{leaf, node, to_list, unbalanced}
use nvmfs.FileExtentTree.{
  FileSpaceNode, FileExtentNode, FileExtentTree, extent_key, space_key, lookup_space, is_in_space,
  add_extent, read, truncate,
}
use nvmfs.FileExtentTree.Pieces.{IsExtent, Sorted, translate}
use nvmfs.FileExtentTree.Add.{add_extent-translate}
use nvmfs.FileExtentTree.Truncate.{truncate-empty}
use nvmfs.FileExtentTree.Read.{read-translate}

abbrev one_page : FileSpaceNode
one_page = record { start = 4096; size = 4096 }

abbrev first_part : FileExtentNode
first_part = record { start = 4096; size = 10; file_start = 0 }

abbrev second_part : FileExtentNode
second_part = record { start = 4200; size = 5; file_start = 20 }

-- A file with a hole between its two parts.
abbrev two_parts : FileExtentTree
two_parts = record {
  extents = node leaf first_part (node leaf second_part leaf);
  spaces = node leaf one_page leaf;
  effective_size = 15;
  space_size = 4096;
}

in_page :
    (a : ℕ) → 4096 ≤ a → a < 8192 → (s : FileSpaceNode) × (lookup_space two_parts.spaces a ≡ some s)
unfolding lookup_space is_in_space
in_page a h k = (one_page, ground arith)

two_parts-Sorted : Sorted two_parts.spaces 0 (to_list two_parts.extents)
two_parts-Sorted = (
  omega arith,
  record {
    positive = omega arith;
    file_fits = omega arith;
    fits = omega arith;
    covered = λ a h k. in_page a (omega arith) (omega arith);
  },
  (
    omega arith,
    record {
      positive = omega arith;
      file_fits = omega arith;
      fits = omega arith;
      covered = λ a h k. in_page a (omega arith) (omega arith);
    },
    tt,
  ),
)

-- Bytes 4 to 24: the end of the first part, the hole, and most of the second part.
abbrev new_part : FileExtentNode
new_part = record { start = 5000; size = 20; file_start = 4 }

new_part-IsExtent : IsExtent two_parts.spaces new_part
new_part-IsExtent = record {
  positive = omega arith;
  file_fits = omega arith;
  fits = omega arith;
  covered = λ a h k. in_page a (omega arith) (omega arith);
}

add_extent-translate_example :
    (t' : FileExtentTree) × (add_extent
        (unbalanced extent_key)
        (unbalanced space_key)
        two_parts
        5000
        4
        20
      ≡ some t')
    × Sorted t'.spaces 0 (to_list t'.extents)
    × (t'.spaces ≡ two_parts.spaces)
    × ((o : ℕ)
        → translate (to_list t'.extents) o ≡ (
            if leb 4 o && ltb o 24
            then some (5000 + (o - 4))
            else translate (to_list two_parts.extents) o))
add_extent-translate_example =
    add_extent-translate (unbalanced extent_key) (unbalanced space_key) two_parts 5000 4 20
      two_parts-Sorted new_part-IsExtent

abbrev some_memory : Memory
some_memory = λ x. x % 256

read-translate_example :
    (buffer' : Memory) × (read
        (unbalanced extent_key)
        (unbalanced space_key)
        two_parts
        some_memory
        3
        30
        (λ x. 0)
      ≡ some buffer')
    × ((k : ℕ) → 30 - 3 ≤ k → buffer' k ≡ 0)
    × ((o addr : ℕ)
        → 3 ≤ o
        → o < 30
        → translate (to_list two_parts.extents) o ≡ some addr
        → buffer' (o - 3) ≡ some_memory addr)
read-translate_example =
    read-translate (unbalanced extent_key) (unbalanced space_key) two_parts some_memory 3 30
      (λ x. 0) two_parts-Sorted (omega arith) (omega arith)
      ((λ a b. absurd (omega arith)), ((λ a b. inr (omega arith)), tt))

truncate-empty_example :
    (t' : FileExtentTree) × (truncate (unbalanced extent_key) (unbalanced space_key) two_parts
      ≡ some t')
    × (to_list t'.extents ≡ [])
    × (t'.effective_size ≡ 0)
    × (t'.spaces ≡ two_parts.spaces)
    × (t'.space_size ≡ 4096)
truncate-empty_example =
    truncate-empty (unbalanced extent_key) (unbalanced space_key) two_parts
      ((omega arith, tt), (tt, tt))
