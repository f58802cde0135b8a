-- ===== src/BlockPool/Get.antt =====
-- BlockPoolGet against the invariant and the number of blocks that are there.
use nvmfs.Prelude.{
  ℕ, ◌+◌, ◌-◌, ◌≤◌, ◌<◌, ◌≡◌, refl, sym, subst, ◌≢◌, ◌∙◌, ap, List, [], ◌∷◌, All, arith, length,
  take, drop, min, leb, ◌==◌, if◌then◌else◌, lt_cases, inl, inr, length-take, length-drop, true,
  false, some, sub64, add64, Bool-cases,
}
use nvmfs.Types.{u32_mod}
use nvmfs.RbTree.{RbTree, to_list}
use nvmfs.ExtentContainer.{Extent, key, ExtentContainer, container_init, extents}
use nvmfs.ExtentContainer.Append.{total, container_init-IsValid}
use nvmfs.ExtentContainer.Append
use nvmfs.ExtentTree.{ExtentTree}
use nvmfs.ExtentTree.Order.{Within, holders}
use nvmfs.ExtentTree.Carve.{
  taken, left, left-Sorted, left-Within, taken-Within, taken-ordered, total-taken,
  holders-taken-left, nil_of_total,
}
use nvmfs.ExtentTree.Get.{Bounded, get_lem}
use nvmfs.BlockPool.{BlockPool, Dealt, deal, start_deal, handed_out, get_refill, pool_get}
use nvmfs.BlockPool.Count.{occurs, occurs-take-take-drop}
use nvmfs.BlockPool.Valid.{IsValid, free}
use nvmfs.BlockPool.Deal.{Deals, Fits, deal-Deals}

Bounded-of_Within : (xs : List Extent) → Within (u32_mod - 1) xs → Bounded xs
Bounded-of_Within [] w = tt
Bounded-of_Within (x ∷ xs) w = (omega arith, Bounded-of_Within xs w.1)

narrow_of_Within : (xs : List Extent) → Within (u32_mod - 1) xs → All (λ x. x.end < u32_mod) xs
narrow_of_Within [] w = tt
narrow_of_Within (x ∷ xs) w = (omega arith, narrow_of_Within xs w.1)

-- The number of blocks that BlockPoolGet hands out.
abbrev pub available : BlockPool → ℕ → ℕ
available p wanted =
    if leb wanted p.cached_block_num
    then wanted
    else if total (to_list p.tree) == 0
    then 0
    else min wanted (p.cached_block_num + total (to_list p.tree))

pub record Got (p : BlockPool) (wanted : ℕ) (r : ℕ × List ℕ × BlockPool) : Type 0 where
  pub count : r.0 ≡ available p wanted
  pub out : length r.1 ≡ r.0
  pub valid : IsValid r.2
  pub conserved : (b : ℕ) → occurs b r.1 + free r.2 b ≡ free p b

-- From the cache alone.
get_cached :
    (p : BlockPool) (wanted : ℕ)
    → IsValid p
    → wanted ≤ p.cached_block_num
    → Got p wanted (
      wanted,
      take wanted (drop (p.cached_block_num - wanted) p.blocks_cache),
      record p { cached_block_num = p.cached_block_num - wanted },
    )
get_cached p wanted v h =
    let rest = p.cached_block_num - wanted in
    let counts : (b : ℕ)
        → occurs b (take rest p.blocks_cache) + occurs b (take wanted (drop rest p.blocks_cache))
          ≡ occurs b (take p.cached_block_num p.blocks_cache) =
      λ b.
        (let e : wanted ≡ p.cached_block_num - rest = omega arith in
          subst
            (λ k.
              occurs b (take rest p.blocks_cache) + occurs b (take k (drop rest p.blocks_cache))
              ≡ occurs b (take p.cached_block_num p.blocks_cache))
            (sym e)
            (occurs-take-take-drop b rest p.cached_block_num p.blocks_cache (omega arith))) in
    record {
      count = ground arith;
      out = omega (
        arith,
        length-take wanted (drop rest p.blocks_cache),
        length-drop rest p.blocks_cache,
        v.room,
        v.in_use,
      );
      valid = record {
        room = v.room;
        in_use = omega (arith, v.in_use);
        sorted = v.sorted;
        within = v.within;
        small = λ b l. omega (arith, v.small b l, counts b);
        unique = λ b. omega (arith, v.unique b, counts b);
      };
      conserved = λ b. omega (arith, counts b);
    }

-- What a refill from the tree rests on: `c` has the tree's first addresses, and `t` the others.
module _ (p : BlockPool) (wanted : ℕ) (t : ExtentTree) (c : ExtentContainer) (v : IsValid p)
    (h : p.cached_block_num < wanted) (z : wanted < u32_mod)
    (e : to_list t ≡ left (2 + wanted - p.cached_block_num) (to_list p.tree)) (w : Append.IsValid c)
    (k : extents c ≡ taken (2 + wanted - p.cached_block_num) (to_list p.tree)) where
  abbrev xs : List Extent
  xs = to_list p.tree

  abbrev batch : ℕ
  batch = 2 + wanted - p.cached_block_num

  pulled : total (extents c) ≡ min batch (total xs)
  pulled = ap total k ∙ total-taken batch 0 xs v.sorted

  parts : (b : ℕ) → holders b (extents c) + holders b (to_list t) ≡ holders b xs
  parts b = rw (k, e) (holders-taken-left b batch 0 xs v.sorted)

  refill_none : c.size ≡ 0 → total xs ≡ 0
  refill_none q = omega (arith, pulled, w.counted)

  refill_some :
      (d : Dealt)
      → Deals wanted (start_deal p) d (total (extents c)) (λ b. holders b (extents c))
      → c.size ≢ 0
      → Got p wanted (handed_out p t d)
  unfolding handed_out start_deal
  refill_some d D q =
      let counts : (b : ℕ)
          → occurs b d.out + (occurs b (take d.in_cache d.cache) + holders b (to_list t))
            ≡ free p b =
        λ b. omega (arith, D.moved b, parts b) in
      let some_left : total xs ≢ 0 = omega (arith, pulled, w.counted) in
      record {
        count = ground (arith, D.got, pulled, some_left);
        out = omega (arith, D.out, length-take p.cached_block_num p.blocks_cache, v.room, v.in_use);
        valid = record {
          room = D.size ∙ v.room;
          in_use = omega (arith, D.in_cache, D.got, pulled);
          sorted = rw e (left-Sorted batch 0 xs v.sorted);
          within = rw e (left-Within batch (u32_mod - 1) xs v.within);
          small = λ b l. omega (arith, counts b, v.small b l);
          unique = λ b. omega (arith, counts b, v.unique b);
        };
        conserved = counts;
      }

  fits : Fits wanted (start_deal p) (total (extents c))
  unfolding start_deal
  fits = omega (arith, pulled, v.room, v.in_use)

  dealt :
      Deals wanted
        (start_deal p)
        (deal wanted (extents c) (start_deal p))
        (total (extents c))
        (λ b. holders b (extents c))
  dealt =
      deal-Deals wanted (extents c) (start_deal p) (rw k (taken-ordered batch 0 xs v.sorted))
        (rw k (narrow_of_Within (taken batch xs) (taken-Within batch (u32_mod - 1) xs v.within)))
        fits

module _ (rb : RbTree key) where
  refill_nil :
      (p : BlockPool) (wanted : ℕ) (t : ExtentTree)
      → IsValid p
      → p.cached_block_num < wanted
      → to_list t ≡ left (2 + wanted - p.cached_block_num) (to_list p.tree)
      → total (to_list p.tree) ≡ 0
      → Got p wanted (0, [], record p { tree = t })
  unfolding left
  refill_nil p wanted t v h e z =
      let gone = nil_of_total 0 (to_list p.tree) v.sorted z in
      let same : to_list t ≡ to_list p.tree = e ∙ ap (left _) gone ∙ sym gone in
      record {
        count = ground (arith, z);
        out = refl;
        valid = record {
          room = v.room;
          in_use = v.in_use;
          sorted = rw same v.sorted;
          within = rw same v.within;
          small = λ b l. rw same (v.small b l);
          unique = λ b. rw same (v.unique b);
        };
        conserved = λ b. rw same (omega arith);
      }

  get_refill_lem :
      (p : BlockPool) (wanted : ℕ) (t : ExtentTree) (c : ExtentContainer)
      → IsValid p
      → p.cached_block_num < wanted
      → wanted < u32_mod
      → to_list t ≡ left (2 + wanted - p.cached_block_num) (to_list p.tree)
      → Append.IsValid c
      → extents c ≡ taken (2 + wanted - p.cached_block_num) (to_list p.tree)
      → Got p wanted (get_refill rb p wanted (t, c))
  unfolding get_refill
  get_refill_lem p wanted t c v h z e w k = elim (Bool-cases (c.size == 0)) [
    | inl q ↦
        rw q (refill_nil p wanted t v h e (refill_none p wanted t c v h z e w k (ground arith)))
    | inr q ↦ rw q (
        refill_some p wanted t c v h z e w k _ (dealt p wanted t c v h z e w k) (λ n. ground arith))
  ]

  -- BlockPoolGet of fewer than 2^32 blocks from a valid pool always returns, with `available` blocks:
  -- as many as are wanted if the cache has that many; none if it has fewer and the tree is empty; and
  -- otherwise as many as are wanted, or all of cache and tree if these are fewer. What the caller gets
  -- is no longer free, all else stays free, and the pool stays valid.
  pub pool_get-conserves :
      (p : BlockPool) (wanted : ℕ)
      → IsValid p
      → wanted < u32_mod
      → (r : ℕ × List ℕ × BlockPool) × (pool_get rb p wanted ≡ some r) × Got p wanted r
  unfolding pool_get
  pool_get-conserves p wanted v z = elim (lt_cases p.cached_block_num wanted) [
    | inl h ↦
        let batch : sub64 (add64 2 wanted) p.cached_block_num ≡ 2 + wanted - p.cached_block_num =
          omega arith in
        let more : leb wanted p.cached_block_num ≡ false = ground arith in
        let (t, c, e, g, w, k) =
          get_lem rb p.tree container_init (2 + wanted - p.cached_block_num) v.sorted
            (Bounded-of_Within (to_list p.tree) v.within) container_init-IsValid (omega arith) in
        rw (more, batch, e)
          (get_refill rb p wanted (t, c), refl, get_refill_lem p wanted t c v h z g w k)
    | inr h ↦
        let less : sub64 p.cached_block_num wanted ≡ p.cached_block_num - wanted =
          omega (arith, v.in_use) in
        let enough : leb wanted p.cached_block_num ≡ true = ground arith in
        rw (enough, less) (_, refl, get_cached p wanted v h)
  ]
