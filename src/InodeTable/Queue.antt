-- ===== src/InodeTable/Queue.antt =====
-- The free numbers of an inode table are a queue.
use nvmfs.Prelude.{
  ℕ, ◌<◌, ◌≡◌, ◌≢◌, refl, sym, ◌∙◌, true, false, none, some, List, [], ◌∷◌, ◌++◌, All, Distinct,
  length, get_elem?, set, length-set, get_elem?-set_self, get_elem?-set_ne, ◌==◌, arith,
  if◌then◌else◌, get_elem?-some,
}
use nvmfs.InodeTable.{Entry, next, inode, InodeTable, get_ino, update_inode_addr, get_inode_addr}

-- Entry `x` links to the first of `xs`, and so on; what the last entry holds does not matter.
abbrev pub Linked : List Entry → ℕ → List ℕ → Type 0
Linked es x [] = Unit
Linked es x (y ∷ ys) = (get_elem? es x ≡ some (next (some y))) × Linked es y ys

abbrev pub last : ℕ → List ℕ → ℕ
last x [] = x
last x (y ∷ ys) = last y ys

-- The table's free numbers, in the order in which they are handed out.
abbrev pub Ends : InodeTable → List ℕ → Type 0
Ends t [] = (t.head ≡ none) × (t.tail ≡ none)
Ends t (x ∷ xs) = (t.head ≡ some x) × (t.tail ≡ some (last x xs)) × Linked t.list_table x xs

pub record IsQueue (t : InodeTable) (xs : List ℕ) : Type 0 where
  pub ends : Ends t xs
  pub distinct : Distinct xs
  pub inside : All (λ x. x < length t.list_table) xs

pub All-last : (P : ℕ → Type 0) (x : ℕ) (xs : List ℕ) → P x → All P xs → P (last x xs)
All-last P x [] p a = p
All-last P x (y ∷ ys) p (q, a) = All-last P y ys q a

pub All-append : (P : ℕ → Type 0) (xs : List ℕ) (y : ℕ) → All P xs → P y → All P (xs ++ (y ∷ []))
All-append P [] y a p = (p, tt)
All-append P (x ∷ xs) y (q, a) p = (q, All-append P xs y a p)

pub last-append : (x y : ℕ) (xs : List ℕ) → last x (xs ++ (y ∷ [])) ≡ y
last-append x y [] = refl
last-append x y (z ∷ xs) = last-append z y xs

pub Distinct-append :
    (xs : List ℕ) (y : ℕ) → Distinct xs → All (λ x. x ≢ y) xs → Distinct (xs ++ (y ∷ []))
Distinct-append [] y d a = (tt, tt)
Distinct-append (x ∷ xs) y (n, d) (m, a) =
    (All-append (λ z. x ≢ z) xs y n m, Distinct-append xs y d a)

-- The link from the end of the list to a new entry.
pub Linked-append :
    (es : List Entry) (x n : ℕ) (xs : List ℕ)
    → Linked es x xs
    → Distinct (x ∷ xs)
    → All (λ z. z < length es) (x ∷ xs)
    → Linked (set es (last x xs) (next (some n))) x (xs ++ (n ∷ []))
Linked-append es x n [] l d (b, _) = (get_elem?-set_self es x (next (some n)) b, tt)
Linked-append es x n (y ∷ ys) (g, l) ((m, ms), d) (b, bs) = (
  get_elem?-set_ne es (next (some n)) (λ e. All-last (λ z. x ≢ z) y ys m ms (sym e)) ∙ g,
  Linked-append es y n ys l d bs,
)

-- A write to an entry outside the list.
Linked-set :
    (es : List Entry) (x i : ℕ) (xs : List ℕ) (e : Entry)
    → Linked es x xs
    → All (λ z. z ≢ i) (x ∷ xs)
    → Linked (set es i e) x xs
Linked-set es x i [] e l n = tt
Linked-set es x i (y ∷ ys) e (g, l) (n, ns) =
    (get_elem?-set_ne es e (λ q. n (sym q)) ∙ g, Linked-set es y i ys e l ns)

pub All-inside :
    (es : List Entry) (i : ℕ) (e : Entry) (xs : List ℕ)
    → All (λ x. x < length es) xs
    → All (λ x. x < length (set es i e)) xs
All-inside es i e [] a = tt
All-inside es i e (x ∷ xs) (h, a) = (omega (arith, h, length-set es i e), All-inside es i e xs a)

-- The queue behind InodeTablePutIno.
abbrev pub with_ino : ℕ → List ℕ → List ℕ
with_ino ino xs = if ino == 0 then xs else xs ++ (ino ∷ [])

-- InodeTableGetIno of a table with free numbers hands out the first of them and leaves the others.
pub get_ino-IsQueue :
    (t : InodeTable) (x : ℕ) (xs : List ℕ)
    → IsQueue t (x ∷ xs)
    → (t' : InodeTable) × (get_ino t ≡ some (x, t')) × IsQueue t' xs
unfolding get_ino
get_ino-IsQueue t x [] q =
    let (h, l, k) = q.ends in
    let z : (x == x) ≡ true = ground arith in
    (
      record t { head = none; tail = none },
      rw (h, l, z),
      record { ends = (refl, refl); distinct = tt; inside = tt },
    )
get_ino-IsQueue t x (y ∷ ys) q =
    let (h, l, (g, k)) = q.ends in
    let ((m, ms), d) = q.distinct in
    let (b, bs) = q.inside in
    let ne : x ≢ last y ys = All-last (λ z. x ≢ z) y ys m ms in
    let z : (x == last y ys) ≡ false = ground arith in
    (
      record t { head = some y },
      rw (h, l, z, g),
      record { ends = (refl, l, k); distinct = d; inside = bs },
    )

abbrev written : InodeTable → ℕ → ℕ → InodeTable
written t ino a = record t {
  list_table = set t.list_table ino (inode a);
  words = set t.words ino a;
}

written-Ends :
    (t : InodeTable) (ino a : ℕ) (xs : List ℕ)
    → Ends t xs
    → All (λ x. x ≢ ino) xs
    → Ends (written t ino a) xs
written-Ends t ino a [] e n = e
written-Ends t ino a (x ∷ xs) (h, l, k) n = (h, l, Linked-set t.list_table x ino xs (inode a) k n)

-- InodeTableUpdateInodeAddr of a number that is in the table and not free always succeeds: the
-- number's address is then the given one, in the table and in NVM, no other entry or word changes, and
-- the free numbers stay as they are, though the entry's link is written over.
pub update_inode_addr-IsQueue :
    (t : InodeTable) (ino a : ℕ) (xs : List ℕ)
    → IsQueue t xs
    → All (λ x. x ≢ ino) xs
    → ino < length t.list_table
    → ino < length t.words
    → (t' : InodeTable) × (update_inode_addr t ino a ≡ some t')
      × (get_inode_addr t' ino ≡ some a)
      × (get_elem? t'.words ino ≡ some a)
      × ((i : ℕ)
          → ino ≢ i
          → (get_elem? t'.list_table i ≡ get_elem? t.list_table i)
            × (get_elem? t'.words i ≡ get_elem? t.words i))
      × IsQueue t' xs
unfolding update_inode_addr get_inode_addr
update_inode_addr-IsQueue t ino a xs q n h w =
    let (old, g) = get_elem?-some t.list_table ino h in
    let (word, k) = get_elem?-some t.words ino w in
    let here = get_elem?-set_self t.list_table ino (inode a) h in
    rw (g, k)
      (
        written t ino a,
        refl,
        rw here refl,
        get_elem?-set_self t.words ino a w,
        λ i ne. (get_elem?-set_ne t.list_table (inode a) ne, get_elem?-set_ne t.words a ne),
        record {
          ends = written-Ends t ino a xs q.ends n;
          distinct = q.distinct;
          inside = All-inside t.list_table ino (inode a) xs q.inside;
        },
      )
