-- ===== src/ExtentTree.antt =====
-- src/fs/ExtentTree.c: the tree of extents, over the calls of linux/rbtree.h. `none` is a failed
-- assertion, or a loop that its fuel does not cover.
pub mod Order
pub mod Search
pub mod Edit
pub mod Around
pub mod Put
pub mod Carve
pub mod Get
pub mod Holes
use nvmfs.Prelude.{
  ℕ, zero, suc, ◌+◌, ◌>>=◌, Bool, true, false, ◌&&◌, Option, none, some, List, [], ◌∷◌, ltb, leb,
  ◌==◌, if◌then◌else◌, add64, sub64,
}
use nvmfs.RbTree.{Tree, leaf, node, RbTree, write_node}
use nvmfs.ExtentContainer.{Extent, key, ExtentContainer, container_append, extents}

abbrev pub ExtentTree : Type 0
ExtentTree = Tree Extent

abbrev pub init : ExtentTree
init = leaf

unfoldable pub is_addr_in_extent : Extent → ℕ → Bool
is_addr_in_extent x addr = leb x.start addr && ltb addr x.end

-- The loop of ExtentTreeLowerBound: `best` is `retNode`.
lower_bound_from : ℕ → Option Extent → ExtentTree → Option Extent
unfolding is_addr_in_extent
lower_bound_from addr best leaf = best
lower_bound_from addr best (node l x r) =
    let left = lower_bound_from addr best l in
    let right = lower_bound_from addr (some x) r in
    if is_addr_in_extent x addr then some x else if ltb addr x.start then left else right

pub lower_bound : ExtentTree → ℕ → Option Extent
unfolding lower_bound_from
lower_bound t addr = lower_bound_from addr none t

pub can_merge_front : Option Extent → ℕ → Bool
can_merge_front none start = false
can_merge_front (some p) start = p.end == start

pub can_merge_next : Option Extent → ℕ → Bool
can_merge_next none end = false
can_merge_next (some n) end = n.start == end

-- The descent of ExtentTreeJustInsert and `rb_link_node`; `none` is NOT_REACH_HERE.
link : Extent → ExtentTree → Option ExtentTree
link x leaf = some (node leaf x leaf)
link x (node l y r) =
    let left = link x l >>= λ l'. some (node l' y r) in
    let right = link x r >>= λ r'. some (node l y r') in
    if ltb x.start y.start then left else if ltb y.start x.start then right else none

-- The number of nodes bounds the rounds of the loops over a tree.
pub count_nodes : ExtentTree → ℕ
count_nodes leaf = 0
count_nodes (node l x r) = count_nodes l + suc (count_nodes r)

module _ (rb : RbTree key) where
  open rb use {first, next, erase, insert_color, freed_word}

  pub just_insert : ExtentTree → Extent → Option ExtentTree
  unfolding link
  just_insert t x = link x t >>= λ t'. some (insert_color t')

  -- `next`: the node behind `prev`, or the first.
  pub next_of : ExtentTree → Option Extent → Option Extent
  next_of t none = first t
  next_of t (some p) = next p.start t

  -- `prev->extent.end = end`
  pub set_end : Option Extent → ℕ → ExtentTree → Option ExtentTree
  unfolding write_node
  set_end none end t = none
  set_end (some p) end t = some (write_node key p.start (λ x. record x { end = end }) t)

  -- `next` joins `prev`: its node is freed, then its end is read.
  pub join : Option Extent → Option Extent → ExtentTree → Option ExtentTree
  unfolding set_end
  join prev none t = none
  join prev (some n) t = set_end prev (freed_word n.end) (erase n.start t)

  -- `next` is taken out and put back with its new start.
  pub move_start : Option Extent → ℕ → ExtentTree → Option ExtentTree
  unfolding just_insert
  move_start none start t = none
  move_start (some n) start t = just_insert (erase n.start t) (record n { start = start })

  -- ExtentTreePut, once `prev` and `next` are known.
  pub put_between : ExtentTree → Option Extent → Option Extent → ℕ → ℕ → Option ExtentTree
  unfolding just_insert can_merge_front can_merge_next set_end join move_start
  put_between t prev next start end =
      if can_merge_front prev start && can_merge_next next end
      then join prev next t
      else if can_merge_front prev start
      then set_end prev end t
      else if can_merge_next next end
      then move_start next start t
      else just_insert t (record { start = start; end = end })

  pub put : ExtentTree → ℕ → ℕ → Option ExtentTree
  unfolding lower_bound next_of put_between
  put t start end = let prev = lower_bound t start in put_between t prev (next_of t prev) start end

  -- The loop of ExtentTreeGet at the node `cur`; `fuel` bounds the nodes that are visited.
  get_from :
      ℕ → ExtentTree → ExtentContainer → ℕ → Option Extent → Option (ExtentTree × ExtentContainer)
  get_from zero t c size cur = none
  get_from (suc fuel) t c size none = some (t, c)
  get_from (suc fuel) t c size (some x) =
      let len = sub64 x.end x.start in
      let whole =
        get_from fuel (erase x.start t) (container_append c x.start x.end) (sub64 size len)
          (next x.start t) in
      let part = just_insert (erase x.start t) (record x { start = add64 x.start size }) >>= λ t'.
      some (t', container_append c x.start (add64 x.start size)) in
      if size == 0 then some (t, c) else if leb len size then whole else part

  pub get : ExtentTree → ExtentContainer → ℕ → Option (ExtentTree × ExtentContainer)
  unfolding get_from count_nodes
  get t c size = get_from (count_nodes t + 1) t c size (first t)

  put_all : ExtentTree → List Extent → Option ExtentTree
  unfolding put
  put_all t [] = some t
  put_all t (x ∷ xs) = put t x.start x.end >>= λ t'. put_all t' xs

  pub batch_put : ExtentTree → ExtentContainer → Option ExtentTree
  unfolding put_all
  batch_put t c = put_all t (extents c)

  -- The loop of ExtentTreeReverseHolesAndExtents: the old tree, the new one, and `lastHole`. What is
  -- left of the old tree is given back at its end.
  reverse_from : ℕ → ExtentTree → ExtentTree → ℕ → Option Extent → Option (ExtentTree × ℕ)
  unfolding put
  reverse_from zero t new last cur = none
  reverse_from (suc fuel) t new last none = some (new, last)
  reverse_from (suc fuel) t new last (some x) =
      let holes = if ltb last x.start then put new last x.start else some new in
      holes >>= λ new'. reverse_from fuel (erase x.start t) new' x.end (next x.start t)

  pub reverse_holes_and_extents : ExtentTree → ℕ → Option ExtentTree
  unfolding reverse_from put count_nodes
  reverse_holes_and_extents t max_size =
      reverse_from (count_nodes t + 1) t init 0 (first t) >>= λ (new, last).
      if last == max_size then some new else put new last max_size
