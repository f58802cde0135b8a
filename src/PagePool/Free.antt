-- ===== src/PagePool/Free.antt =====
-- PagePoolFree.
use nvmfs.Prelude.{
  ℕ, ◌+◌, ◌/◌, ◌%◌, ◌^◌, ◌<◌, ◌≡◌, refl, sym, ap, ◌∙◌, inl, inr, ◌⊎◌, true, false, none, some, [],
  ◌∷◌, length, replicate, ◌==◌, arith, eq_cases, subst, add64,
}
use nvmfs.RbTree.{RbTree, KeepsFreed}
use nvmfs.ExtentContainer.{key}
use nvmfs.BlockPool.Valid
use nvmfs.RadixTree.{radix_set}
use nvmfs.RadixTree.Ready.{Ready, Sets, radix_set-Sets}
use nvmfs.PagePool.{PageSubPool, PagePool, sub_pool_of, create_page_sub_pool, returned_at, free}
use nvmfs.PagePool.Bits.{bit-none}
use nvmfs.PagePool.SubPools.{Lacks, Lacks-sub_pool_of}
use nvmfs.PagePool.Valid.{block_limit, IsSubPool, page_free, IsValid}
use nvmfs.PagePool.TakeIndex.{returned_at-count}
use nvmfs.FileExtentTree.Order.{All-map}
use nvmfs.PagePool.Create.{get_or-replicated}

created_IsSubPool : (b : ℕ) → b < block_limit → IsSubPool (create_page_sub_pool b false)
unfolding create_page_sub_pool
created_IsSubPool b h = record {
  is_bitmap = record {
    words = refl;
    bits = λ i l. ap length (get_or-replicated 8 i (replicate 64 true) [] l);
  };
  counted = refl;
  in_bitmap = omega arith;
  small = h;
}

module _ (rb : RbTree key) (p : PagePool) (page : ℕ) (kf : (p.sub_pool_num < 3) ⊎ KeepsFreed key rb)
    (v : IsValid p) (h : page < 2 ^ 32) (taken : page_free p page ≡ 0)
    (at : Ready p.tree (page / 512)) where
  abbrev b : ℕ
  b = page / 512

  -- The block has none: a sub-pool without a free page is made.
  module _ (missing : sub_pool_of b p.non_full ≡ none) where
    abbrev created : PageSubPool
    created = create_page_sub_pool b false

    abbrev new : PageSubPool
    new = returned_at created (page % 512)

    pub sets : Sets p.tree b (some b) (radix_set p.tree b (some b))
    sets = radix_set-Sets p.tree b (some b) v.nodes at

    lacks : Lacks b p.non_full
    lacks = Lacks-sub_pool_of b p.non_full missing

    is_created : IsSubPool created
    is_created = created_IsSubPool b (omega arith)

    new_block : new.block ≡ b
    unfolding create_page_sub_pool returned_at
    new_block = refl

    no_page : created.count ≡ 0
    unfolding create_page_sub_pool
    no_page = refl

    new_count : (new.count ≡ 1) × IsSubPool new
    new_count =
        let (c, w) = returned_at-count created is_created (page % 512) (omega arith) (
          bit-none created.bitmap (page % 512) is_created.is_bitmap
            (sym is_created.counted ∙ no_page) (omega arith)) in
        (c ∙ ap (λ n. n + 1) no_page, w)

    abbrev pub after : PagePool
    after = record p {
      tree = sets.tree;
      non_full = new ∷ p.non_full;
      sub_pool_num = add64 p.sub_pool_num 1;
      page_num = add64 p.page_num 1;
    }

    block_taken : Valid.free p.block_pool b ≡ 0
    block_taken = omega arith

    pub after-IsValid : IsValid after
    after-IsValid = record {
      blocks = v.blocks;
      small = v.small;
      nodes = sets.valid;
      sub_pools = (new_count.1, v.sub_pools);
      some_left = (omega (arith, new_count.0), v.some_left);
      distinct = (subst (λ c. Lacks c p.non_full) (sym new_block) lacks, v.distinct);
      apart = (ap (Valid.free p.block_pool) new_block ∙ block_taken, v.apart);
      ready = (
        subst (Ready sets.tree) (sym new_block) (sets.ready b at),
        All-map p.non_full (λ x. sets.ready x.block) v.ready,
      );
      found = λ c k. elim (eq_cases b c) [
        | inl e ↦
            let t : (new.block == c) ≡ true = ground (arith, new_block) in
            sets.found c (ap (λ z. z % 2 ^ 27) (sym e)) ∙ rw t (ap some (sym new_block))
        | inr n ↦
            let t : (new.block == c) ≡ false = ground (arith, new_block) in
            sets.others c (λ z. n (omega arith)) ∙ v.found c k ∙ rw t refl
      ];
    }
