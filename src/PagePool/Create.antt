-- ===== src/PagePool/Create.antt =====
-- The sub-pool that CreatePageSubPool makes of a block, and when a block is to be had.
use nvmfs.Prelude.{
  ℕ, zero, suc, ◌<◌, ◌≡◌, ◌⊎◌, refl, ap, inl, inr, true, false, Option, none, some, List, [], ◌∷◌,
  length, get_or, take, replicate, leb, ◌==◌, arith, eq_cases, lt_cases,
}
use nvmfs.RbTree.{to_list}
use nvmfs.ExtentContainer.Append.{total}
use nvmfs.ExtentTree.Carve.{nil_of_total}
use nvmfs.ExtentTree.Order.{holders}
use nvmfs.BlockPool.{BlockPool, cached}
use nvmfs.BlockPool.Count.{occurs}
use nvmfs.BlockPool.Get.{available}
use nvmfs.BlockPool.Valid
use nvmfs.PagePool.{PagePool, create_page_sub_pool}
use nvmfs.PagePool.Valid.{block_limit, IsSubPool, page_free, IsValid}
use nvmfs.PagePool.Take.{Takes}

-- What a call leaves that finds no page: there is none.
pub record Fails (p : PagePool) (o : Option (Option ℕ × PagePool)) : Type 0 where
  pub pool : PagePool
  pub result : o ≡ some (none, pool)
  pub valid : IsValid pool
  pub none_free : (page : ℕ) → page_free p page ≡ 0
  pub none_left : (page : ℕ) → page_free pool page ≡ 0

abbrev pub Allocs : PagePool → Option (Option ℕ × PagePool) → Type 0
Allocs p o = Fails p o ⊎ Takes p o

pub get_or-replicated {ℓ} :
    {A : Type ℓ} (n i : ℕ) (a d : A) → i < n → get_or (replicate n a) i d ≡ a
get_or-replicated zero i a d h = absurd (omega arith)
get_or-replicated (suc n) zero a d h = refl
get_or-replicated (suc n) (suc i) a d h = get_or-replicated n i a d (omega arith)

pub create-IsSubPool : (b : ℕ) → b < block_limit → IsSubPool (create_page_sub_pool b true)
unfolding create_page_sub_pool
create-IsSubPool b h = record {
  is_bitmap = record {
    words = refl;
    bits = λ i l. ap length (get_or-replicated 8 i (replicate 64 false) [] l);
  };
  counted = refl;
  in_bitmap = omega arith;
  small = h;
}

pub create-IsBlock : (b : ℕ) → (create_page_sub_pool b true).block ≡ b
unfolding create_page_sub_pool
create-IsBlock b = refl

pub create-count : (b : ℕ) → (create_page_sub_pool b true).count ≡ 512
unfolding create_page_sub_pool
create-count b = refl

pub single : (xs : List ℕ) → length xs ≡ 1 → xs ≡ get_or xs 0 0 ∷ []
single [] e = absurd (omega arith)
single (x ∷ []) e = refl
single (x ∷ y ∷ xs) e = absurd (omega arith)

-- No block is to be had only where none is free.
pub available-none :
    (p : BlockPool)
    → Valid.IsValid p
    → (available p 1 ≡ 1) ⊎ ((available p 1 ≡ 0) × ((b : ℕ) → Valid.free p b ≡ 0))
available-none p v = elim (lt_cases p.cached_block_num 1) [
  | inr h ↦ let t : leb 1 p.cached_block_num ≡ true = ground arith in inl (rw t refl)
  | inl h ↦
      let t : leb 1 p.cached_block_num ≡ false = ground arith in
      elim (eq_cases (total (to_list p.tree)) 0) [
        | inl z ↦
            let z0 : (total (to_list p.tree) == 0) ≡ true = ground arith in
            let no_tree = nil_of_total 0 (to_list p.tree) v.sorted z in
            let no_cache : p.cached_block_num ≡ 0 = omega arith in
            inr (
              rw (t, z0) refl,
              λ b.
                  let c : occurs b (cached p) ≡ 0 =
                    ap (λ n. occurs b (take n p.blocks_cache)) no_cache in
                  omega (arith, ap (holders b) no_tree),
            )
        | inr n ↦
            let z0 : (total (to_list p.tree) == 0) ≡ false = ground arith in
            inl (rw (t, z0) (ground arith))
      ]
]
