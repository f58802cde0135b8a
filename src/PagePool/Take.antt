-- ===== src/PagePool/Take.antt =====
-- A page is taken from a sub-pool of the list.
use nvmfs.Prelude.{
  ℕ, ◌*◌, ◌/◌, ◌%◌, ◌^◌, ◌<◌, ◌≡◌, ◌≢◌, sym, ap, ◌∙◌, inl, inr, Option, none, some, List, All,
  arith, eq_cases, subst,
}
use nvmfs.BlockPool.Valid
use nvmfs.RadixTree.{radix_get, radix_set}
use nvmfs.RadixTree.Ready.{Ready, radix_set-Sets}
use nvmfs.PagePool.{PageSubPool, PagePool, sub_pool_of, write_sub_pool, list_del}
use nvmfs.PagePool.SubPools.{
  DistinctBlocks, sub_pool_of-Lacks, sub_pool_of-block, All-sub_pool_of, All-write_sub_pool,
  Distinct-write_sub_pool, sub_pool_of-write_sub_pool, sub_pool_of-write_ne, All-list_del,
  Distinct-list_del, Lacks-list_del, sub_pool_of-list_del,
}
use nvmfs.FileExtentTree.Order.{All-map}
use nvmfs.PagePool.Valid.{block_limit, IsSubPool, HasPage, pointer_to, page_free, IsValid}

-- What a call leaves that hands out the address of a page: a free page is no longer free.
pub record Takes (p : PagePool) (o : Option (Option ℕ × PagePool)) : Type 0 where
  pub pool : PagePool
  pub page : ℕ
  pub result : o ≡ some (some (page * 4096), pool)
  pub valid : IsValid pool
  pub small : page < 2 ^ 32
  pub was_free : page_free p page ≡ 1
  pub taken : page_free pool page ≡ 0
  pub others : (q : ℕ) → q ≢ page → page_free pool q ≡ page_free p q
  pub at_page : Ready pool.tree (page / 512)
  pub ready : (k : ℕ) → Ready p.tree k → Ready pool.tree k

-- A sub-pool in the place of the one of its block.
pub written-IsValid :
    (p : PagePool) (sp new : PageSubPool)
    → IsValid p
    → sub_pool_of new.block p.non_full ≡ some sp
    → IsSubPool new
    → HasPage new
    → (n : ℕ) → IsValid (record p { non_full = write_sub_pool new p.non_full; page_num = n })
written-IsValid p sp new v at w l n =
    let same = sub_pool_of-block new.block p.non_full sp at in
    record {
      blocks = v.blocks;
      small = v.small;
      nodes = v.nodes;
      sub_pools = All-write_sub_pool new IsSubPool p.non_full v.sub_pools w;
      some_left = All-write_sub_pool new HasPage p.non_full v.some_left l;
      distinct = Distinct-write_sub_pool new p.non_full v.distinct;
      apart =
          All-write_sub_pool new (λ x. Valid.free p.block_pool x.block ≡ 0) p.non_full v.apart
            (subst (λ b. Valid.free p.block_pool b ≡ 0) same
              (All-sub_pool_of (λ x. Valid.free p.block_pool x.block ≡ 0) new.block p.non_full sp
                v.apart at));
      ready =
          All-write_sub_pool new (λ x. Ready p.tree x.block) p.non_full v.ready
            (subst (Ready p.tree) same
              (All-sub_pool_of (λ x. Ready p.tree x.block) new.block p.non_full sp v.ready at));
      found = λ b h. elim (eq_cases new.block b) [
        | inl e ↦
            v.found b h
            ∙ ap (λ c. pointer_to (sub_pool_of c p.non_full)) (sym e)
            ∙ ap pointer_to at
            ∙ ap some same
            ∙ sym (ap pointer_to (sub_pool_of-write_sub_pool new p.non_full sp at))
            ∙ ap (λ c. pointer_to (sub_pool_of c (write_sub_pool new p.non_full))) e
        | inr m ↦ v.found b h ∙ ap pointer_to (sym (sub_pool_of-write_ne new p.non_full b m))
      ];
    }

-- The sub-pool of a block goes from the list and the tree.
pub record Removes (p : PagePool) (b : ℕ) (sps : List PageSubPool) : Type 0 where
  pub tree : nvmfs.RadixTree.RadixTree ℕ
  pub result : radix_set p.tree b none ≡ some tree
  pub ready : (k : ℕ) → Ready p.tree k → Ready tree k
  pub valid :
      (m n : ℕ)
      → IsValid
          (record p { non_full = list_del b sps; tree = tree; sub_pool_num = m; page_num = n })

-- The same with a list `sps` whose sub-pool of block `b` is out of order.
pub list_del-Removes :
    (p : PagePool) (b : ℕ) (sps : List PageSubPool)
    → IsValid p
    → b < block_limit
    → Ready p.tree b
    → All IsSubPool sps
    → All HasPage (list_del b sps)
    → DistinctBlocks sps
    → All (λ x. Valid.free p.block_pool x.block ≡ 0) sps
    → All (λ x. Ready p.tree x.block) sps
    → ((c : ℕ) → b ≢ c → sub_pool_of c sps ≡ sub_pool_of c p.non_full)
    → Removes p b sps
list_del-Removes p b sps v h r w l d a rs same =
    let s = radix_set-Sets p.tree b none v.nodes r in
    record {
      tree = s.tree;
      result = s.result;
      ready = s.ready;
      valid = λ m n. record {
        blocks = v.blocks;
        small = v.small;
        nodes = s.valid;
        sub_pools = All-list_del b IsSubPool sps w;
        some_left = l;
        distinct = Distinct-list_del b sps d;
        apart = All-list_del b (λ x. Valid.free p.block_pool x.block ≡ 0) sps a;
        ready =
            All-list_del b (λ x. Ready s.tree x.block) sps (All-map sps (λ x. s.ready x.block) rs);
        found = λ c k. elim (eq_cases b c) [
          | inl e ↦
              s.found c (ap (λ z. z % 2 ^ 27) (sym e))
              ∙ sym (
                  ap pointer_to (
                    ap (λ z. sub_pool_of z (list_del b sps)) (sym e)
                    ∙ sub_pool_of-Lacks b (list_del b sps) (Lacks-list_del b sps d)))
          | inr ne ↦
              s.others c (λ z. ne (omega arith))
              ∙ v.found c k
              ∙ sym (ap pointer_to (sub_pool_of-list_del b sps c ne ∙ same c ne))
        ];
      };
    }
