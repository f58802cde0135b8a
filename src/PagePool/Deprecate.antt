-- ===== src/PagePool/Deprecate.antt =====
-- PageSubPoolDeprecate: a block whose pages are all free goes back to the block pool.
use nvmfs.Prelude.{
  ℕ, ◌+◌, ◌*◌, ◌/◌, if◌then◌else◌, ◌%◌, ◌^◌, ◌≤◌, ◌<◌, ◌≡◌, ◌≢◌, refl, sym, ap, ◌∙◌, inl, inr, true,
  Option, none, some, List, [], ◌∷◌, ◌++◌, map, All, arith, eq_cases,
}
use nvmfs.Types.{logical_block_to_addr}
use nvmfs.RbTree.{RbTree, KeepsFreed}
use nvmfs.ExtentContainer.{key}
use nvmfs.BlockPool.Count.{same}
use nvmfs.BlockPool.Valid
use nvmfs.BlockPool.Put.{pool_put-conserves}
use nvmfs.RadixTree.{radix_set}
use nvmfs.RadixTree.Ready.{Ready, Sets, radix_set-Sets}
use nvmfs.PagePool.{
  PageSubPool, PagePool, NvmCall, merge_call, trim_call, sub_pool_of, page_sub_pool_deprecate,
}
use nvmfs.PagePool.SubPools.{Lacks, sub_pool_of-Lacks}
use nvmfs.PagePool.Valid.{block_limit, pointer_to, page_free, IsValid}

All-both {ℓ} :
    {A : Type ℓ} (P Q R : A → Type 0) (xs : List A)
    → ((x : A) → P x → Q x → R x)
    → All P xs
    → All Q xs
    → All R xs
All-both P Q R [] f a b = tt
All-both P Q R (x ∷ xs) f (p, a) (q, b) = (f x p q, All-both P Q R xs f a b)

-- What giving back a whole block leaves: its pages are free in the block pool.
pub record Deprecates (p : PagePool) (b : ℕ) (o : Option PagePool) : Type 0 where
  pub pool : PagePool
  pub result : o ≡ some pool
  pub valid : IsValid pool
  pub free : (q : ℕ) → page_free pool q ≡ same (q / 512) b + page_free p q
  pub ready : (k : ℕ) → Ready p.tree k → Ready pool.tree k

-- The block goes back to the block pool, once its sub-pool is out of the list and the tree.
module _ (rb : RbTree key) (p : PagePool) (sp : PageSubPool) (kf : KeepsFreed key rb)
    (v : IsValid p) (h : sp.block < block_limit) (taken : Valid.free p.block_pool sp.block ≡ 0)
    (lacks : Lacks sp.block p.non_full) (at : Ready p.tree sp.block) where
  abbrev b : ℕ
  b = sp.block

  unique : (x : ℕ) → same x b + Valid.free p.block_pool x ≤ 1
  unique x = elim (eq_cases b x) [
    | inl e ↦
        let z : Valid.free p.block_pool x ≡ 0 = ap (Valid.free p.block_pool) (sym e) ∙ taken in
        ground arith
    | inr n ↦ let z = v.blocks.unique x in ground arith
  ]

  sets : Sets p.tree b none (radix_set p.tree b none)
  sets = radix_set-Sets p.tree b none v.nodes at

  abbrev call : List NvmCall
  call =
      p.calls
      ++ (merge_call (logical_block_to_addr b)
          ∷ (trim_call (logical_block_to_addr b)
              ∷ map trim_call
                  (if p.block_pool.has_acc then map (λ x. x * 2 ^ 21 % 2 ^ 32) (b ∷ []) else [])))

  pub deprecate-Deprecates : Deprecates p b (page_sub_pool_deprecate rb p sp true)
  unfolding page_sub_pool_deprecate
  deprecate-Deprecates =
      let (blocks, put, w) =
        pool_put-conserves rb p.block_pool (b ∷ []) (inr kf) v.blocks
          (record { small = λ x l. ground (arith, h); unique = λ x. omega (arith, unique x) })
          (omega arith) in
      let after : PagePool = record p { block_pool = blocks; calls = call; tree = sets.tree } in
      record {
        pool = after;
        result = rw (put, kf b, sets.result) refl;
        valid = record {
          blocks = w.valid;
          small = λ x l.
              let z : same x b ≡ 0 = ground (arith, h) in omega (arith, w.conserved x, v.small x l);
          nodes = sets.valid;
          sub_pools = v.sub_pools;
          some_left = v.some_left;
          distinct = v.distinct;
          apart =
              All-both (λ x. Valid.free p.block_pool x.block ≡ 0) (λ x. b ≢ x.block)
                (λ x. Valid.free blocks x.block ≡ 0) p.non_full
                (λ x a n.
                  let z : same x.block b ≡ 0 = ground arith in omega (arith, w.conserved x.block))
                v.apart lacks;
          ready =
              All-both (λ x. Ready p.tree x.block) (λ x. b ≢ x.block) (λ x. Ready sets.tree x.block)
                p.non_full (λ x r n. sets.ready x.block r) v.ready lacks;
          found = λ c k. elim (eq_cases b c) [
            | inl e ↦
                sets.found c (ap (λ z. z % 2 ^ 27) (sym e))
                ∙ sym (
                    ap pointer_to (
                      ap (λ z. sub_pool_of z p.non_full) (sym e)
                      ∙ sub_pool_of-Lacks b p.non_full lacks))
            | inr n ↦ sets.others c (λ z. n (omega (arith, h))) ∙ v.found c k
          ];
        };
        free = λ q. omega (arith, w.conserved (q / 512));
        ready = sets.ready;
      }
