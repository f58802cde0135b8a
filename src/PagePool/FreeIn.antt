-- ===== src/PagePool/FreeIn.antt =====
-- The page that PagePoolFree gives back to the sub-pool of its block, and the sub-pool whose pages are
-- then all free.
use nvmfs.Prelude.{
  ℕ, ◌+◌, ◌*◌, ◌/◌, ◌%◌, ◌<◌, ◌≡◌, ◌≢◌, refl, sym, ap, ◌∙◌, inl, inr, ◌⊎◌, true, false, ◌&&◌,
  Bool-cases, Option, none, some, ◌>>=◌, List, All, leb, ◌==◌, arith, eq_cases, subst, add64, sub64,
}
use nvmfs.RbTree.{RbTree, KeepsFreed}
use nvmfs.ExtentContainer.{key}
use nvmfs.BlockPool.Count.{same}
use nvmfs.BlockPool.Valid
use nvmfs.RadixTree.{radix_set}
use nvmfs.RadixTree.Ready.{Ready}
use nvmfs.PagePool.{
  PageSubPool, PagePool, sub_pool_of, write_sub_pool, list_del, returned_at,
  page_sub_pool_deprecate, free_in,
}
use nvmfs.PagePool.Bits.{bit, vacant}
use nvmfs.PagePool.SubPools.{
  free_in_sub_pool, free_in_sub_pools, All-sub_pool_of, free_in_sub_pools-only, free-write_sub_pool,
  All-write_sub_pool, Distinct-write_sub_pool, sub_pool_of-write_sub_pool, sub_pool_of-write_ne,
  free-list_del, All-list_del, Lacks-list_del, list_del-write_sub_pool,
}
use nvmfs.PagePool.Valid.{IsSubPool, HasPage, page_free, IsValid}
use nvmfs.PagePool.Take.{Removes, written-IsValid, list_del-Removes}
use nvmfs.PagePool.TakeIndex.{
  free_in_sub_pool-at, free_in_sub_pool-ne, free_in_sub_pool-all, free_in_sub_pool-written,
  free_in_sub_pool-written_ne, returned_at-count,
}
use nvmfs.PagePool.Deprecate.{Deprecates, deprecate-Deprecates}

-- What a call leaves that gives a page back: it is free, once, and no other page changes.
pub record Returns (p : PagePool) (page : ℕ) (o : Option PagePool) : Type 0 where
  pub pool : PagePool
  pub result : o ≡ some pool
  pub valid : IsValid pool
  pub now_free : page_free pool page ≡ 1
  pub others : (q : ℕ) → q ≢ page → page_free pool q ≡ page_free p q
  pub ready : (k : ℕ) → Ready p.tree k → Ready pool.tree k

-- The page of `sp`, the sub-pool of its block in the list, at index `j`.
module _ (rb : RbTree key) (p : PagePool) (sp : PageSubPool)
    (kf : (p.sub_pool_num < 3) ⊎ KeepsFreed key rb) (v : IsValid p)
    (at : sub_pool_of sp.block p.non_full ≡ some sp) (j : ℕ) (h : j < 512)
    (f : bit sp.bitmap j ≡ true) where
  abbrev new : PageSubPool
  new = returned_at sp j

  abbrev page : ℕ
  page = sp.block * 512 + j

  own : IsSubPool sp
  own = All-sub_pool_of IsSubPool sp.block p.non_full sp v.sub_pools at

  own_Ready : Ready p.tree sp.block
  own_Ready = All-sub_pool_of (λ x. Ready p.tree x.block) sp.block p.non_full sp v.ready at

  new_block : new.block ≡ sp.block
  unfolding returned_at
  new_block = refl

  at_new : sub_pool_of new.block p.non_full ≡ some sp
  unfolding returned_at
  at_new = at

  in_block : page / 512 ≡ sp.block
  in_block = omega arith

  block_taken : Valid.free p.block_pool sp.block ≡ 0
  block_taken =
      All-sub_pool_of (λ x. Valid.free p.block_pool x.block ≡ 0) sp.block p.non_full sp v.apart at

  not_free-before : free_in_sub_pools p.non_full page ≡ 0
  not_free-before =
      let place : page % 512 ≡ j = omega arith in
      free_in_sub_pools-only sp.block p.non_full sp page v.distinct at in_block
      ∙ free_in_sub_pool-at sp page (sym in_block)
      ∙ ap (λ i. vacant (bit sp.bitmap i)) place
      ∙ ap vacant f

  new_IsSubPool : IsSubPool new
  new_IsSubPool = (returned_at-count sp own j h f).1

  abbrev sps : List PageSubPool
  sps = write_sub_pool new p.non_full

  free_new : free_in_sub_pool new page ≡ 1
  unfolding returned_at
  free_new = free_in_sub_pool-written sp new own j h false refl refl page refl

  free_new_ne : (q : ℕ) → q ≢ page → free_in_sub_pool new q ≡ free_in_sub_pool sp q
  unfolding returned_at
  free_new_ne q n = free_in_sub_pool-written_ne sp new own j h false refl refl q n

  free_sp : free_in_sub_pool sp page ≡ 0
  free_sp =
      sym (free_in_sub_pools-only sp.block p.non_full sp page v.distinct at in_block)
      ∙ not_free-before

  free_written : free_in_sub_pools sps page ≡ 1
  free_written =
      omega (
        arith,
        free-write_sub_pool new p.non_full sp page at_new,
        free_new,
        free_sp,
        not_free-before,
      )

  free_written_ne : (q : ℕ) → q ≢ page → free_in_sub_pools sps q ≡ free_in_sub_pools p.non_full q
  free_written_ne q n =
      omega (arith, free-write_sub_pool new p.non_full sp q at_new, free_new_ne q n)

  -- The page pool with the page in its sub-pool.
  abbrev kept : PagePool
  kept = record p { non_full = sps; page_num = add64 p.page_num 1 }

  kept-Returns : Returns p page (some kept)
  kept-Returns = record {
    pool = kept;
    result = refl;
    valid =
        written-IsValid p sp new v at_new new_IsSubPool
          (omega (arith, (returned_at-count sp own j h f).0)) (add64 p.page_num 1);
    now_free = omega (arith, free_written, ap (Valid.free p.block_pool) in_block, block_taken);
    others = λ q n. omega (arith, free_written_ne q n);
    ready = λ k r. r;
  }

  removes : Removes p new.block sps
  removes =
      list_del-Removes p new.block sps v new_IsSubPool.small
        (subst (Ready p.tree) (sym new_block) own_Ready)
        (All-write_sub_pool new IsSubPool p.non_full v.sub_pools new_IsSubPool)
        (subst (All HasPage) (sym (list_del-write_sub_pool new p.non_full))
          (All-list_del new.block HasPage p.non_full v.some_left))
        (Distinct-write_sub_pool new p.non_full v.distinct)
        (All-write_sub_pool new (λ x. Valid.free p.block_pool x.block ≡ 0) p.non_full v.apart
          (ap (Valid.free p.block_pool) new_block ∙ block_taken))
        (All-write_sub_pool new (λ x. Ready p.tree x.block) p.non_full v.ready
          (subst (Ready p.tree) (sym new_block) own_Ready))
        (sub_pool_of-write_ne new p.non_full)

  -- The page pool without the sub-pool.
  abbrev emptied : PagePool
  emptied = record kept {
    non_full = list_del new.block sps;
    sub_pool_num = sub64 p.sub_pool_num 1;
    page_num = sub64 (add64 p.page_num 1) 512;
    tree = removes.tree;
  }

  emptied-Deprecates :
      KeepsFreed key rb → Deprecates emptied new.block (page_sub_pool_deprecate rb emptied new true)
  emptied-Deprecates keep =
      deprecate-Deprecates rb emptied new keep
        (removes.valid (sub64 p.sub_pool_num 1) (sub64 (add64 p.page_num 1) 512))
        new_IsSubPool.small (ap (Valid.free p.block_pool) new_block ∙ block_taken)
        (Lacks-list_del new.block sps (Distinct-write_sub_pool new p.non_full v.distinct))
        (removes.ready new.block (subst (Ready p.tree) (sym new_block) own_Ready))

  whole_Returns :
      KeepsFreed key rb
      → new.count ≡ 512
      → Returns p page (
          radix_set p.tree new.block none >>= λ tree.
          page_sub_pool_deprecate rb (record emptied { tree = tree }) new true)
  whole_Returns keep full =
      let d = emptied-Deprecates keep in
      let deleted = λ (q : ℕ).
        free-list_del new.block sps new q (sub_pool_of-write_sub_pool new p.non_full sp at_new) in
      record {
        pool = d.pool;
        result =
            ap
              (λ o.
                o >>= λ tree. page_sub_pool_deprecate rb (record emptied { tree = tree }) new true)
              removes.result
            ∙ d.result;
        valid = d.valid;
        now_free =
            let one : same (page / 512) new.block ≡ 1 = ground (arith, in_block, new_block) in
            omega (
              arith,
              d.free page,
              deleted page,
              free_new,
              free_written,
              block_taken,
              ap (Valid.free p.block_pool) in_block,
            );
        others = λ q n. elim (eq_cases new.block (q / 512)) [
          | inl e ↦
              let one : same (q / 512) new.block ≡ 1 = ground arith in
              let all = free_in_sub_pool-all new q new_IsSubPool full e in
              omega (arith, d.free q, deleted q, free_written_ne q n)
          | inr m ↦
              let zero_of : same (q / 512) new.block ≡ 0 = ground arith in
              omega (arith, d.free q, deleted q, free_in_sub_pool-ne new q m, free_written_ne q n)
        ];
        ready = λ k r. d.ready k (removes.ready k r);
      }

  pub free_in-Returns : Returns p page (free_in rb p (some sp) page)
  unfolding free_in
  free_in-Returns =
      let place : page % 512 ≡ j = omega arith in
      rw place (elim (Bool-cases (new.count == 512 && leb 3 p.sub_pool_num)) [
        | inl t ↦ rw t (
            whole_Returns (elim kf [ inl few ↦ absurd (ground arith) | inr keep ↦ keep ])
              (ground arith))
        | inr t ↦ rw t kept-Returns
      ])
