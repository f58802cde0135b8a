-- ===== src/PagePool/Fresh.antt =====
-- PagePoolAlloc where no block is in use for pages that has a page left: a block of the block pool
-- becomes a sub-pool.
use nvmfs.Prelude.{
  ℕ, ◌+◌, ◌/◌, ◌%◌, ◌^◌, ◌<◌, ◌≡◌, refl, sym, ap, ◌∙◌, inl, inr, true, false, none, some, ◌>>=◌,
  List, [], ◌∷◌, ◌++◌, All, get_or, ◌==◌, if◌then◌else◌, arith, eq_cases, lt_cases, subst, add64,
}
use nvmfs.Types.{logical_block_to_addr}
use nvmfs.RbTree.{RbTree}
use nvmfs.ExtentContainer.{key}
use nvmfs.BlockPool.{BlockPool}
use nvmfs.BlockPool.Count.{occurs, same}
use nvmfs.BlockPool.Get.{Got, pool_get-conserves}
use nvmfs.BlockPool.Valid
use nvmfs.RadixTree.{radix_set, set_prepare}
use nvmfs.RadixTree.Ready.{Ready, Sets, Prepares, radix_set-Sets, set_prepare-Prepares}
use nvmfs.PagePool.{
  PageSubPool, PagePool, split_call, trim_call, sub_pool_of, create_page_sub_pool, is_empty,
  first_sub_pool, add_page_sub_pool, prepared_sub_pool, page_sub_pool_prepare, alloc_prepared,
  alloc_in,
}
use nvmfs.PagePool.SubPools.{free_in_sub_pools, sub_pool_of-Lacks}
use nvmfs.PagePool.Valid.{block_limit, pointer_to, page_free, IsValid}
use nvmfs.PagePool.Take.{Takes}
use nvmfs.PagePool.TakeIndex.{free_in_sub_pool-all, free_in_sub_pool-ne}
use nvmfs.PagePool.AllocIn.{alloc_in-Takes}
use nvmfs.PagePool.Create.{
  Fails, Allocs, create-IsSubPool, create-IsBlock, create-count, single, available-none,
}

module _ (rb : RbTree key) (p : PagePool) (v : IsValid p) (e : p.non_full ≡ []) where
  no_sub_pool_free : (page : ℕ) → free_in_sub_pools p.non_full page ≡ 0
  no_sub_pool_free page = ap (λ sps. free_in_sub_pools sps page) e

  module _ (r : ℕ × List ℕ × BlockPool) (k : Got p.block_pool 1 r) where
    abbrev blockless : PagePool
    blockless = record p { block_pool = r.2 }

    less_free : (b : ℕ) → Valid.free p.block_pool b ≡ 0 → Valid.free r.2 b ≡ 0
    less_free b z = let c = k.conserved b in omega arith

    blockless-IsValid : IsValid blockless
    blockless-IsValid = record {
      blocks = k.valid;
      small = λ b h. less_free b (v.small b h);
      nodes = v.nodes;
      sub_pools = v.sub_pools;
      some_left = v.some_left;
      distinct = v.distinct;
      apart = subst (All (λ sp. Valid.free r.2 sp.block ≡ 0)) (sym e) tt;
      ready = v.ready;
      found = v.found;
    }

    fails :
        (others : PagePool → PagePool)
        → r.0 ≡ 0
        → ((b : ℕ) → Valid.free p.block_pool b ≡ 0)
        → Fails p (prepared_sub_pool rb p r >>= alloc_prepared rb others)
    unfolding prepared_sub_pool alloc_prepared
    fails others z none_there =
        let t : (r.0 == 0) ≡ true = ground arith in
        record {
          pool = blockless;
          result = rw t refl;
          valid = blockless-IsValid;
          none_free = λ page. omega (arith, none_there (page / 512), no_sub_pool_free page);
          none_left = λ page.
              omega
                (arith, less_free (page / 512) (none_there (page / 512)), no_sub_pool_free page);
        }

    module _ (one : r.0 ≡ 1) where
      abbrev block : ℕ
      block = get_or r.1 0 0

      abbrev new : PageSubPool
      new = create_page_sub_pool block true

      block_got : (b : ℕ) → same b block + Valid.free r.2 b ≡ Valid.free p.block_pool b
      block_got b = let c = k.conserved b in omega (arith, ap (occurs b) (single r.1 (k.out ∙ one)))

      same_self : same block block ≡ 1
      same_self = ground arith

      block_small : block < block_limit
      block_small = elim (lt_cases block block_limit) [
        | inl h ↦ h
        | inr h ↦ absurd (omega (arith, v.small block h, block_got block, same_self))
      ]

      block_gone : Valid.free r.2 block ≡ 0
      block_gone = omega (arith, v.blocks.unique block, block_got block, same_self)

      prepares : Prepares p.tree block (set_prepare p.tree block)
      prepares = set_prepare-Prepares p.tree block v.nodes

      sets : Sets (prepares.tree) block (some block) (radix_set (prepares.tree) block (some block))
      sets = radix_set-Sets (prepares.tree) block (some block) prepares.valid prepares.at_key

      -- The pool once the sub-pool is made, and once it is in the list and the tree.
      abbrev prepared : PagePool
      prepared = record p {
        block_pool = r.2;
        tree = prepares.tree;
        calls =
            p.calls
            ++ (split_call (logical_block_to_addr block)
                ∷ (trim_call (logical_block_to_addr block) ∷ []));
      }

      abbrev added : PagePool
      added = record prepared {
        non_full = new ∷ [];
        sub_pool_num = add64 p.sub_pool_num 1;
        tree = sets.tree;
        page_num = add64 p.page_num 512;
      }

      added-IsValid : IsValid added
      added-IsValid =
          let is = create-IsBlock block in
          record {
            blocks = k.valid;
            small = λ b h. less_free b (v.small b h);
            nodes = sets.valid;
            sub_pools = (create-IsSubPool block block_small, tt);
            some_left = (omega (arith, create-count block), tt);
            distinct = (tt, tt);
            apart = (ap (Valid.free r.2) is ∙ block_gone, tt);
            ready = (subst (Ready sets.tree) (sym is) (sets.ready block prepares.at_key), tt);
            found = λ c h. elim (eq_cases block c) [
              | inl q ↦
                  let t : (new.block == c) ≡ true = ground (arith, is) in
                  sets.found c (ap (λ z. z % 2 ^ 27) (sym q)) ∙ rw t (ap some (sym is))
              | inr n ↦
                  let s = block_small in
                  sets.others c (λ z. n (omega arith))
                  ∙ prepares.same c
                  ∙ v.found c h
                  ∙ ap (λ sps. pointer_to (sub_pool_of c sps)) e
                  ∙ sym (
                      ap pointer_to
                        (sub_pool_of-Lacks c (new ∷ []) ((λ q. n (sym is ∙ sym q)), tt)))
            ];
          }

      added_free : (page : ℕ) → page_free added page ≡ page_free p page
      added_free page =
          let is = create-IsBlock block in
          let got = block_got (page / 512) in
          elim (eq_cases block (page / 512)) [
            | inl q ↦
                let all =
                  free_in_sub_pool-all new page (create-IsSubPool block block_small)
                    (create-count block) (is ∙ q) in
                let one_of : same (page / 512) block ≡ 1 = ground arith in
                omega (arith, no_sub_pool_free page)
            | inr n ↦
                let no = free_in_sub_pool-ne new page (λ q. n (sym is ∙ q)) in
                let none_of : same (page / 512) block ≡ 0 = ground arith in
                omega (arith, no_sub_pool_free page)
          ]

      at_new : sub_pool_of new.block (new ∷ []) ≡ some new
      at_new = let t : (new.block == new.block) ≡ true = ground arith in rw t refl

      added-Takes : Takes p (alloc_in rb added (some new) none)
      added-Takes =
          let t = (alloc_in-Takes rb added new added-IsValid at_new).0 in
          record {
            pool = t.pool;
            page = t.page;
            result = t.result;
            valid = t.valid;
            small = t.small;
            was_free = sym (added_free t.page) ∙ t.was_free;
            taken = t.taken;
            others = λ q n. t.others q n ∙ added_free q;
            at_page = t.at_page;
            ready = λ c s. t.ready c (sets.ready c (prepares.ready c s));
          }

      opened_prepare : prepared_sub_pool rb p r ≡ some (some new, prepared)
      unfolding prepared_sub_pool
      opened_prepare = let t : (r.0 == 0) ≡ false = ground arith in rw (t, prepares.result) refl

      opened_add : add_page_sub_pool prepared new ≡ some added
      unfolding add_page_sub_pool
      opened_add =
          ap
            (λ c.
              radix_set prepares.tree c (some c) >>= λ tree. some (record added { tree = tree }))
            (create-IsBlock block)
          ∙ ap (λ o. o >>= λ tree. some (record added { tree = tree })) sets.result

      takes : Takes p (prepared_sub_pool rb p r >>= alloc_prepared rb (λ q. q))
      unfolding alloc_prepared
      takes =
          subst (Takes p)
            (sym (
              ap (λ o. o >>= alloc_prepared rb (λ q. q)) opened_prepare
              ∙ ap
                  (λ sps.
                    if is_empty sps
                    then (add_page_sub_pool prepared new >>= λ p1.
                        alloc_in rb p1 (first_sub_pool p1.non_full) none)
                    else alloc_in rb prepared (first_sub_pool sps) (some new))
                  e
              ∙ ap (λ o. o >>= λ p1. alloc_in rb p1 (first_sub_pool p1.non_full) none) opened_add))
            added-Takes

  pub fresh_Allocs : Allocs p (page_sub_pool_prepare rb p >>= alloc_prepared rb (λ q. q))
  unfolding page_sub_pool_prepare
  fresh_Allocs =
      let (r, g, k) = pool_get-conserves rb p.block_pool 1 v.blocks (omega arith) in
      subst (λ o. Allocs p (o >>= prepared_sub_pool rb p >>= alloc_prepared rb (λ q. q))) (sym g)
        (elim (available-none p.block_pool v.blocks) [
          | inl a ↦ inr (takes r k (k.count ∙ a))
          | inr (a, n) ↦ inl (fails r k (λ q. q) (k.count ∙ a) n)
        ])
