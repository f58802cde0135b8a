-- ===== src/BlockPool/Put.antt =====
-- BlockPoolPut on each of its three ways.
use nvmfs.Prelude.{
  ℕ, suc, ◌+◌, ◌-◌, ◌*◌, ◌%◌, ◌^◌, map, if◌then◌else◌, ◌≤◌, ◌<◌, ◌≡◌, refl, sym, ◌∙◌, List, [], ◌∷◌,
  arith, length, take, drop, ltb, leb, lt_cases, inl, inr, ◌⊎◌, length-drop, true, false, some,
  sub64, add64, ◌>>=◌,
}
use nvmfs.Types.{u32_mod, logical_block_to_addr}
use nvmfs.RbTree.{RbTree, to_list, KeepsFreed}
use nvmfs.ExtentContainer.{Extent, key}
use nvmfs.ExtentTree.{ExtentTree, put}
use nvmfs.ExtentTree.Order.{
  Sorted, Within, holders, Disjoint, insert_merge-Sorted, insert_merge-Within, holders-insert_merge,
}
use nvmfs.ExtentTree.Put.{put_lem}
use nvmfs.BlockPool.{
  BlockPool, cached, blit, put_blocks, put_spill, put_shift, pool_store, pool_put,
  max_cache_block_num, trim_block_with_array,
}
use nvmfs.BlockPool.Count.{
  occurs, same, occurs-take-take-drop, occurs-take-drop, occurs-take-blit, occurs-take-blit_front,
  occurs-take_all, occurs-take-take, length-blit,
}
use nvmfs.BlockPool.Valid.{IsValid, free}

Disjoint-of_holders :
    (b lo : ℕ) (xs : List Extent) → Sorted lo xs → holders b xs ≡ 0 → Disjoint b (b + 1) xs
Disjoint-of_holders b lo [] s h = tt
Disjoint-of_holders b lo (x ∷ xs) s h = ground (arith, Disjoint-of_holders b (suc x.end) xs s.2)

-- A tree of small blocks, with some more.
record Stored (t t' : ExtentTree) (xs : List ℕ) : Type 0 where
  sorted : Sorted 0 (to_list t')
  within : Within (u32_mod - 1) (to_list t')
  counts : (b : ℕ) → holders b (to_list t') ≡ occurs b xs + holders b (to_list t)

module _ (rb : RbTree key) (kf : KeepsFreed key rb) where
  put_block :
      (t : ExtentTree) (x : ℕ)
      → Sorted 0 (to_list t)
      → Within (u32_mod - 1) (to_list t)
      → holders x (to_list t) ≡ 0
      → x < u32_mod - 1
      → (t' : ExtentTree) × (put rb t x ((x + 1) % u32_mod) ≡ some t') × Stored t t' (x ∷ [])
  put_block t x s w h z =
      let small : (x + 1) % u32_mod ≡ x + 1 = omega arith in
      let d = Disjoint-of_holders x 0 (to_list t) s h in
      let (t', e, f) = put_lem rb t x (x + 1) (omega arith) s d (inr (inr kf)) in
      rw small (
        t',
        e,
        record {
          sorted =
              rw f (insert_merge-Sorted x (x + 1) 0 (to_list t) (omega arith) (omega arith) s d);
          within = rw f (insert_merge-Within (u32_mod - 1) x (x + 1) (to_list t) (omega arith) w);
          counts = λ b.
              rw f
                (ground (arith, holders-insert_merge b x (x + 1) 0 (to_list t) (omega arith) s d));
        },
      )

  put_blocks_lem :
      (t : ExtentTree) (xs : List ℕ)
      → Sorted 0 (to_list t)
      → Within (u32_mod - 1) (to_list t)
      → ((b : ℕ) → occurs b xs + holders b (to_list t) ≤ 1)
      → ((b : ℕ) → u32_mod - 1 ≤ b → occurs b xs ≡ 0)
      → (t' : ExtentTree) × (put_blocks rb t xs ≡ some t') × Stored t t' xs
  unfolding put_blocks
  put_blocks_lem t [] s w u z =
      (t, refl, record { sorted = s; within = w; counts = λ b. omega arith })
  put_blocks_lem t (x ∷ xs) s w u z =
      let self : same x x ≡ 1 = ground arith in
      let below : x < u32_mod - 1 = elim (lt_cases x (u32_mod - 1)) [
        | inl l ↦ l
        | inr g ↦ absurd (omega (arith, z x g, self))
      ] in
      let (t1, e, st) = put_block t x s w (omega (arith, u x, self)) below in
      let (t2, f, st2) =
        put_blocks_lem t1 xs st.sorted st.within (λ b. omega (arith, u b, st.counts b))
          (λ b l. omega (arith, z b l)) in
      rw e (
        t2,
        f,
        record {
          sorted = st2.sorted;
          within = st2.within;
          counts = λ b. omega (arith, st.counts b, st2.counts b);
        },
      )

-- The pool `q` is `p` with the blocks `xs` put back.
pub record Puts (p : BlockPool) (xs : List ℕ) (q : BlockPool) : Type 0 where
  pub valid : IsValid q
  pub conserved : (b : ℕ) → free q b ≡ occurs b xs + free p b
  pub counted : q.block_num ≡ add64 p.block_num (length xs)

-- The blocks that the caller may put back: small ones, none of them free, none given twice.
pub record Returnable (p : BlockPool) (xs : List ℕ) : Type 0 where
  pub small : (b : ℕ) → u32_mod - 1 ≤ b → occurs b xs ≡ 0
  pub unique : (b : ℕ) → occurs b xs + free p b ≤ 1

-- A pool whose tree and cache hold the blocks of `p` and `xs`.
assemble :
    (p q : BlockPool) (xs : List ℕ)
    → IsValid p
    → Returnable p xs
    → length q.blocks_cache ≡ max_cache_block_num
    → q.cached_block_num ≤ max_cache_block_num
    → Sorted 0 (to_list q.tree)
    → Within (u32_mod - 1) (to_list q.tree)
    → ((b : ℕ) → free q b ≡ occurs b xs + free p b)
    → q.block_num ≡ add64 p.block_num (length xs)
    → Puts p xs q
assemble p q xs v r room in_use s w c k = record {
  valid = record {
    room = room;
    in_use = in_use;
    sorted = s;
    within = w;
    small = λ b l. omega (arith, c b, r.small b l, v.small b l);
    unique = λ b. omega (arith, c b, r.unique b);
  };
  conserved = c;
  counted = k;
}

module _ (rb : RbTree key) (p : BlockPool) (xs : List ℕ)
    (kf : (p.cached_block_num + length xs ≤ max_cache_block_num) ⊎ KeepsFreed key rb)
    (v : IsValid p) (r : Returnable p xs) where
  abbrev grown : BlockPool
  grown = record p { block_num = add64 p.block_num (length xs) }

  -- All of them fit into the cache.
  put_fill :
      p.cached_block_num + length xs ≤ max_cache_block_num
      → Puts p xs (record grown {
        blocks_cache = blit p.blocks_cache p.cached_block_num xs (length xs);
        cached_block_num = p.cached_block_num + length xs;
      })
  put_fill h =
      assemble p _ xs v r
        (length-blit p.blocks_cache p.cached_block_num xs (length xs) (omega (arith, v.room))
            (omega arith)
          ∙ v.room)
        h v.sorted v.within
        (λ b. omega (
          arith,
          occurs-take-blit b p.blocks_cache p.cached_block_num xs (length xs)
              (omega (arith, v.room)) (omega arith),
          occurs-take_all b (length xs) xs refl,
        ))
        refl

  put_spill_lem :
      KeepsFreed key rb
      → (n : ℕ) → n ≤ length xs
      → length xs ≤ n + max_cache_block_num
      → (q : BlockPool) × (put_spill rb grown xs n ≡ some q) × Puts p xs q
  unfolding put_spill
  put_spill_lem keep n h k =
      let (t1, e, st) =
        put_blocks_lem rb keep p.tree (cached p) v.sorted v.within v.unique
          (λ b l. omega (arith, v.small b l)) in
      let first : (b : ℕ) → occurs b (take n xs) ≤ occurs b xs =
        λ b. omega (arith, occurs-take-drop b n xs) in
      let (t2, f, st2) =
        put_blocks_lem rb keep t1 (take n xs) st.sorted st.within
          (λ b. omega (arith, first b, r.unique b, st.counts b))
          (λ b l. omega (arith, first b, r.small b l)) in
      let rest : length (drop n xs) ≡ length xs - n = length-drop n xs in
      rw (e, ◌>>=◌, f)
        (
          _,
          refl,
          assemble p _ xs v r
              (length-blit p.blocks_cache 0 (drop n xs) (length xs - n) (omega (arith, v.room))
                  (omega (arith, rest))
                ∙ v.room)
              (omega arith) st2.sorted st2.within
              (λ b. omega (
                arith,
                st.counts b,
                st2.counts b,
                occurs-take-drop b n xs,
                occurs-take-blit_front b p.blocks_cache (drop n xs) (length xs - n)
                    (omega (arith, rest)),
                occurs-take_all b (length xs - n) (drop n xs) (sym rest),
              ))
              refl,
        )

  put_shift_lem :
      KeepsFreed key rb
      → (n : ℕ) → n ≤ p.cached_block_num
      → p.cached_block_num - n + length xs ≤ max_cache_block_num
      → (q : BlockPool) × (put_shift rb grown xs n ≡ some q) × Puts p xs q
  unfolding put_shift
  put_shift_lem keep n h k =
      let m = p.cached_block_num - n in
      let cache = p.blocks_cache in
      let kept = blit cache 0 (drop n cache) m in
      let split : (b : ℕ)
          → occurs b (take n (cached p)) + occurs b (take m (drop n cache)) ≡ occurs b (cached p) =
        λ b. omega (
          arith,
          occurs-take-take b n p.cached_block_num cache h,
          occurs-take-take-drop b n p.cached_block_num cache h,
        ) in
      let rest : length (drop n cache) ≡ length cache - n = length-drop n cache in
      let len : length kept ≡ length cache =
        length-blit cache 0 (drop n cache) m (omega (arith, v.room, v.in_use))
          (omega (arith, rest, v.room, v.in_use)) in
      let (t1, e, st) =
        put_blocks_lem rb keep p.tree (take n (cached p)) v.sorted v.within
          (λ b. omega (arith, v.unique b, split b)) (λ b l. omega (arith, v.small b l, split b)) in
      rw e (
        _,
        refl,
        assemble p _ xs v r
            (length-blit kept m xs (length xs) (omega (arith, len, v.room)) (omega arith)
              ∙ len
              ∙ v.room)
            k st.sorted st.within
            (λ b. omega (
              arith,
              st.counts b,
              split b,
              occurs-take-blit b kept m xs (length xs) (omega (arith, len, v.room, v.in_use))
                  (omega arith),
              occurs-take_all b (length xs) xs refl,
              occurs-take-blit_front b cache (drop n cache) m
                  (omega (arith, rest, v.room, v.in_use)),
            ))
            refl,
      )

  -- An overflow of the cache is the case in which freed memory may be read.
  keeps : max_cache_block_num < length xs + p.cached_block_num → KeepsFreed key rb
  keeps over = elim kf [ inl fits ↦ absurd (omega arith) | inr keep ↦ keep ]

  pool_store_lem :
      length xs < u32_mod
      → (q : BlockPool) × (pool_store rb grown xs
            (length xs)
            (sub64 (add64 p.cached_block_num (length xs)) 2)
          ≡ some q)
        × Puts p xs q
  unfolding pool_store
  pool_store_lem z =
      let sum : add64 (length xs) p.cached_block_num ≡ length xs + p.cached_block_num =
        omega (arith, v.in_use) in
      elim (lt_cases max_cache_block_num (length xs + p.cached_block_num)) [
        | inr fits ↦
            let test : leb (length xs + p.cached_block_num) max_cache_block_num ≡ true =
              ground arith in
            rw (sum, test) (_, refl, put_fill (omega arith))
        | inl over ↦
            let test : leb (length xs + p.cached_block_num) max_cache_block_num ≡ false =
              ground arith in
            let out : sub64 (add64 p.cached_block_num (length xs)) 2
                ≡ p.cached_block_num + length xs - 2 =
              omega (arith, v.in_use) in
            rw (sum, test, out)
              (elim (lt_cases 2 (length xs)) [
                | inl many ↦
                    let test' : ltb p.cached_block_num (p.cached_block_num + length xs - 2) ≡ true =
                      ground arith in
                    rw test' (
                      put_spill_lem (keeps over)
                        (p.cached_block_num + length xs - 2 - p.cached_block_num) (omega arith)
                        (omega arith))
                | inr few ↦
                    let test' : ltb p.cached_block_num (p.cached_block_num + length xs - 2)
                        ≡ false =
                      ground arith in
                    rw test' (
                      put_shift_lem (keeps over) (p.cached_block_num + length xs - 2) (omega arith)
                        (omega arith))
              ])
      ]

  pub pool_put-conserves :
      length xs < 2 ^ 31
      → (q : BlockPool) × (pool_put rb p xs
          ≡ some (if p.has_acc then map (λ b. b * 2 ^ 21 % 2 ^ 32) xs else [], q))
        × Puts p xs q
  unfolding pool_put trim_block_with_array logical_block_to_addr
  pool_put-conserves z = let (q, e, w) = pool_store_lem (omega arith) in rw e (q, refl, w)
