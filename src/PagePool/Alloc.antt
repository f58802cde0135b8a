-- ===== src/PagePool/Alloc.antt =====
-- PagePoolAlloc and PagePoolAllocWithHint.
use nvmfs.Prelude.{
  ℕ, ◌%◌, ◌^◌, ◌<◌, ◌≡◌, ◌≢◌, ◌⊎◌, refl, sym, ap, ◌∙◌, inl, inr, Bool, true, false, none, some,
  ◌>>=◌, List, [], ◌∷◌, ◌==◌, if◌then◌else◌, arith, eq_cases, subst, Option-cases,
}
use nvmfs.Types.{invalid_nvm_addr, logical_addr_to_block}
use nvmfs.RbTree.{RbTree}
use nvmfs.ExtentContainer.{key}
use nvmfs.RadixTree.{radix_get, index_of_first_layer, index_of_second_layer, index_of_third_layer}
use nvmfs.PagePool.{
  PageSubPool, PagePool, sub_pool_of, is_empty, first_sub_pool, page_sub_pool_prepare,
  alloc_prepared, alloc_in, alloc, alloc_hinted, alloc_with_hint,
}
use nvmfs.PagePool.SubPools.{sub_pool_of-block}
use nvmfs.PagePool.Valid.{block_limit, pointer_to, IsValid}
use nvmfs.PagePool.AllocIn.{TakesFrom, alloc_in-Takes}
use nvmfs.PagePool.Create.{Allocs}
use nvmfs.PagePool.Fresh.{fresh_Allocs}

list_cases {ℓ} : {A : Type ℓ} (xs : List A) → (xs ≡ []) ⊎ ((x : A) × (ys : List A) × (xs ≡ x ∷ ys))
list_cases [] = inl refl
list_cases (x ∷ xs) = inr (x, xs, refl)

sub_pool_of-first :
    (sp : PageSubPool) (sps : List PageSubPool) → sub_pool_of sp.block (sp ∷ sps) ≡ some sp
sub_pool_of-first sp sps = let t : (sp.block == sp.block) ≡ true = ground arith in rw t refl

hint_block : (hint : ℕ) → hint < 2 ^ 44 → logical_addr_to_block hint < block_limit
unfolding logical_addr_to_block
hint_block hint h = omega arith

module _ (rb : RbTree key) (p : PagePool) (v : IsValid p) where
  -- PagePoolAlloc of a valid page pool always returns, when no other caller comes between. Either it
  -- hands out the address of a page of 4 KB that was free and is no longer, and no other page changes;
  -- or it hands out none, and then no page was free, in the sub-pools or in the block pool, and none
  -- is. The page pool stays valid.
  pub alloc-Allocs : Allocs p (alloc rb (λ q. q) p)
  unfolding alloc
  alloc-Allocs =
      let next = page_sub_pool_prepare rb p >>= alloc_prepared rb (λ q. q) in
      elim (list_cases p.non_full) [
        | inl e ↦
            subst (Allocs p)
              (sym (
                ap (λ sps. if is_empty sps then next else alloc_in rb p (first_sub_pool sps) none)
                  e))
              (fresh_Allocs rb p v e)
        | inr (sp, sps, e) ↦
            subst (Allocs p)
              (sym (
                ap (λ sps. if is_empty sps then next else alloc_in rb p (first_sub_pool sps) none)
                  e))
              (inr
                (alloc_in-Takes rb p sp v
                  (ap (sub_pool_of sp.block) e ∙ sub_pool_of-first sp sps)).0)
      ]

  module _ (hint : ℕ) where
    abbrev near : ℕ
    near = logical_addr_to_block hint

    hint_test : hint ≢ invalid_nvm_addr → (hint == invalid_nvm_addr) ≡ false
    hint_test n = ground arith

    -- Of a hint that is an address below 2^44 and not invalid_nvm_addr: if the sub-pool of the hint's
    -- block has a page left, PagePoolAllocWithHint hands out a free page of that block, which is then no
    -- longer free, changes no other page, and leaves the page pool valid.
    pub alloc_with_hint-near :
        (sp : PageSubPool)
        → hint < 2 ^ 44
        → sub_pool_of near p.non_full ≡ some sp
        → TakesFrom near p (alloc_with_hint rb (λ q. q) p hint)
    unfolding alloc_with_hint alloc_hinted
    alloc_with_hint-near sp h at =
        let block = sub_pool_of-block near p.non_full sp at in
        let pointer : radix_get p.tree near ≡ some near =
          v.found near (omega (arith, hint_block hint h)) ∙ ap pointer_to at ∙ ap some block in
        let opened : alloc_with_hint rb (λ q. q) p hint ≡ alloc_in rb p (some sp) none =
          ap (λ b. alloc_hinted rb (λ q. q) p (if b then none else radix_get p.tree near))
            (hint_test (omega arith))
          ∙ ap (alloc_hinted rb (λ q. q) p) pointer
          ∙ ap (λ s. alloc_in rb p s none) at in
        subst (TakesFrom near p) (sym opened) (
          subst (λ b. TakesFrom b p (alloc_in rb p (some sp) none)) block
            (alloc_in-Takes rb p sp v (ap (λ b. sub_pool_of b p.non_full) block ∙ at)))

    same_slot : radix_get p.tree near ≡ radix_get p.tree (near % 2 ^ 27)
    unfolding radix_get
    same_slot =
        let a : index_of_first_layer near ≡ index_of_first_layer (near % 2 ^ 27) = omega arith in
        let b : index_of_second_layer near ≡ index_of_second_layer (near % 2 ^ 27) = omega arith in
        let c : index_of_third_layer near ≡ index_of_third_layer (near % 2 ^ 27) = omega arith in
        rw (a, b, c) refl

    -- With any hint, PagePoolAllocWithHint does what PagePoolAlloc promises: when no other caller comes
    -- between, it always returns, with a page that was free and is no longer, or with none where no page
    -- is free; no other page changes, and the page pool stays valid.
    pub alloc_with_hint-Allocs : Allocs p (alloc_with_hint rb (λ q. q) p hint)
    unfolding alloc_with_hint alloc_hinted
    alloc_with_hint-Allocs =
        let choose =
          λ (b : Bool). alloc_hinted rb (λ q. q) p (if b then none else radix_get p.tree near) in
        elim (eq_cases hint invalid_nvm_addr) [
          | inl e ↦
              let t : (hint == invalid_nvm_addr) ≡ true = ground arith in
              subst (Allocs p) (sym (ap choose t)) alloc-Allocs
          | inr n ↦
              let found =
                ap choose (hint_test n)
                ∙ ap (alloc_hinted rb (λ q. q) p)
                    (same_slot ∙ v.found (near % 2 ^ 27) (omega arith)) in
              elim (Option-cases (sub_pool_of (near % 2 ^ 27) p.non_full)) [
                | inr (sp, at) ↦
                    let block = sub_pool_of-block (near % 2 ^ 27) p.non_full sp at in
                    let at_block = ap (λ b. sub_pool_of b p.non_full) block ∙ at in
                    subst (Allocs p)
                      (sym (
                        found
                        ∙ ap (λ o. alloc_hinted rb (λ q. q) p (pointer_to o)) at
                        ∙ ap (λ s. alloc_in rb p s none) at_block))
                      (inr (alloc_in-Takes rb p sp v at_block).0)
                | inl missing ↦
                    subst (Allocs p)
                      (sym (found ∙ ap (λ o. alloc_hinted rb (λ q. q) p (pointer_to o)) missing))
                      alloc-Allocs
              ]
        ]
