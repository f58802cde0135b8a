-- ===== src/RbTree.antt =====
-- The Linux red-black tree (linux/rbtree.h), as the file system's sources use it. They walk and link
-- the nodes themselves, so a tree is a binary tree; the library's calls are an interface.
-- A node is named by its key, which is how far its address matters to the callers.
use nvmfs.Prelude.{
  ℕ, ◌≡◌, refl, sym, Option, none, List, [], ◌∷◌, ◌++◌, map, head?, ◌==◌, if◌then◌else◌, map-append,
}

-- `struct rb_node` with the structure that holds it.
pub data Tree {ℓ} (A : Type ℓ) : Type ℓ where
  leaf : Tree A
  node : Tree A → A → Tree A → Tree A

module _ {ℓ} {A : Type ℓ} where
  -- The nodes in order.
  abbrev pub to_list : Tree A → List A
  to_list leaf = []
  to_list (node l x r) = to_list l ++ (x ∷ to_list r)

  -- A tree with these nodes in this order.
  abbrev pub of_list : List A → Tree A
  of_list [] = leaf
  of_list (x ∷ xs) = node leaf x (of_list xs)

  pub to_list-of_list : (xs : List A) → to_list (of_list xs) ≡ xs
  to_list-of_list [] = refl
  to_list-of_list (x ∷ xs) = λ i. x ∷ to_list-of_list xs i

module _ {ℓ} {A : Type ℓ} (key : A → ℕ) where
  -- The element that follows the one with key `k`.
  abbrev pub after : ℕ → List A → Option A
  after k [] = none
  after k (x ∷ xs) = let rest = after k xs in if key x == k then head? xs else rest

  -- The list without the first element with key `k`.
  abbrev pub remove : ℕ → List A → List A
  remove k [] = []
  remove k (x ∷ xs) = let rest = remove k xs in if key x == k then xs else x ∷ rest

  -- A write to the fields of the node with key `k`, through a pointer to it.
  abbrev pub modify : ℕ → (A → A) → List A → List A
  modify k f = map λ x. if key x == k then f x else x

  -- The same write on a tree.
  unfoldable pub write_node : ℕ → (A → A) → Tree A → Tree A
  write_node k f leaf = leaf
  write_node k f (node l x r) =
      node (write_node k f l) (if key x == k then f x else x) (write_node k f r)

  pub to_list-write_node :
      (k : ℕ) (f : A → A) (t : Tree A) → to_list (write_node k f t) ≡ modify k f (to_list t)
  unfolding write_node
  to_list-write_node k f leaf = refl
  to_list-write_node k f (node l x r) =
      rw (to_list-write_node k f l, to_list-write_node k f r)
        (sym (map-append (λ y. if key y == k then f y else y) (to_list l) (x ∷ to_list r)))

  -- The calls of linux/rbtree.h, and what they do to the order of the nodes; with them what reading
  -- behind `kfree` gives, of which nothing is known.
  pub record RbTree : Type ℓ where
    pub first : Tree A → Option A
    pub next : ℕ → Tree A → Option A
    pub erase : ℕ → Tree A → Tree A
    pub insert_color : Tree A → Tree A
    -- What a word of a node reads as, of memory that `kfree` has been given.
    pub freed_word : ℕ → ℕ
    pub first_lem : (t : Tree A) → first t ≡ head? (to_list t)
    pub next_lem : (k : ℕ) (t : Tree A) → next k t ≡ after k (to_list t)
    pub to_list-erase : (k : ℕ) (t : Tree A) → to_list (erase k t) ≡ remove k (to_list t)
    pub to_list-insert_color : (t : Tree A) → to_list (insert_color t) ≡ to_list t

  -- Freed memory keeps its contents.
  abbrev pub KeepsFreed : RbTree → Type 0
  KeepsFreed rb = (w : ℕ) → rb.freed_word w ≡ w

  -- A tree library that keeps no balance, over memory that keeps its contents.
  abbrev pub unbalanced : RbTree
  unbalanced = record {
    first = λ t. head? (to_list t);
    next = λ k t. after k (to_list t);
    erase = λ k t. of_list (remove k (to_list t));
    insert_color = λ t. t;
    freed_word = λ w. w;
    first_lem = λ t. refl;
    next_lem = λ k t. refl;
    to_list-erase = λ k t. to_list-of_list (remove k (to_list t));
    to_list-insert_color = λ t. refl;
  }
