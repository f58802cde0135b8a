-- ===== src/BlockManager/Counted.antt =====
-- The wear counts and the queues behind a swap of two blocks.
use nvmfs.Prelude.{
  ℕ, ◌+◌, ◌/◌, ◌%◌, ◌<◌, ◌≡◌, ◌≢◌, refl, sym, ◌∙◌, true, some, List, [], ◌∷◌, ◌++◌, length,
  get_elem?, set, ltb, arith, get_elem?-some, get_elem?-set_self, get_elem?-set_ne, get_elem?-lt,
}
use nvmfs.Types.{u32_mod}
use nvmfs.Coldness.{step_wear_count, list_add_tail, coldness_put, wear_get, wear_set}
use nvmfs.Coldness.Count.{queued, held-add_tail}
use nvmfs.BlockPool.Count.{same}
use nvmfs.BlockManager.{BlockManager, put_with_count, fast_counted}

-- Of two different blocks inside the tables, where the steps of both new wear counts have queues: the
-- end of BlockSwapFast always succeeds. The first block gets the wear count that it is given, on 32
-- bits, and the second one its own and 1; no other wear count changes. The first block is put at the
-- end of the free queue of its count's step, the second at the end of the busy queue of its new
-- count's step, and no other queue changes, so that each is in the queues once more.
pub fast_counted-queued {ℓ} :
    {Memory : Type ℓ} (memcpy : Memory → ℕ → ℕ → ℕ → Memory) (m : BlockManager Memory)
    (a b count_a count_b : ℕ) (free busy : List ℕ)
    → a ≢ b
    → a < m.coldness.node_num
    → b < m.coldness.node_num
    → a < length m.wear_table
    → get_elem? m.wear_table b ≡ some count_b
    → get_elem? m.coldness.free_heads (count_a / step_wear_count) ≡ some free
    → get_elem? m.coldness.busy_heads ((count_b + 1) % u32_mod / step_wear_count) ≡ some busy
    → (m' : BlockManager Memory) × (fast_counted memcpy m a b count_a ≡ some m')
      × (get_elem? m'.wear_table a ≡ some (count_a % u32_mod))
      × (get_elem? m'.wear_table b ≡ some ((count_b + 1) % u32_mod))
      × ((k : ℕ) → a ≢ k → b ≢ k → get_elem? m'.wear_table k ≡ get_elem? m.wear_table k)
      × (m'.coldness.free_heads
          ≡ set m.coldness.free_heads (count_a / step_wear_count) (free ++ (a ∷ [])))
      × (m'.coldness.busy_heads
          ≡ set m.coldness.busy_heads
              ((count_b + 1) % u32_mod / step_wear_count)
              (busy ++ (b ∷ [])))
      × ((k : ℕ) → queued m'.coldness k ≡ same k a + same k b + queued m.coldness k)
unfolding fast_counted put_with_count coldness_put list_add_tail wear_get wear_set
fast_counted-queued memcpy m a b count_a count_b free busy n ha hb wa gb fa fb =
    let (old_a, ga) = get_elem?-some m.wear_table a wa in
    let w1 = set m.wear_table a (count_a % u32_mod) in
    let gb1 : get_elem? w1 b ≡ some count_b =
      get_elem?-set_ne m.wear_table (count_a % u32_mod) n ∙ gb in
    let ta : ltb a m.coldness.node_num ≡ true = ground arith in
    let tb : ltb b m.coldness.node_num ≡ true = ground arith in
    let in_w1 : b < length w1 = omega (arith, get_elem?-lt w1 b gb1) in
    rw (gb, ga, gb1, fa, ta, fb, tb)
      (
        _,
        refl,
        get_elem?-set_ne w1 ((count_b + 1) % u32_mod) (λ e. n (sym e))
            ∙ get_elem?-set_self m.wear_table a (count_a % u32_mod) wa,
        get_elem?-set_self w1 b ((count_b + 1) % u32_mod) in_w1,
        λ k na nb.
            get_elem?-set_ne w1 ((count_b + 1) % u32_mod) nb
            ∙ get_elem?-set_ne m.wear_table (count_a % u32_mod) na,
        refl,
        refl,
        λ k. omega (
          arith,
          held-add_tail k a m.coldness.free_heads (count_a / step_wear_count) free fa,
          held-add_tail k b m.coldness.busy_heads ((count_b + 1) % u32_mod / step_wear_count) busy
              fb,
        ),
      )
