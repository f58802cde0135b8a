-- ===== src/PagePool/AllocIn.antt =====
-- The page that PagePoolAlloc takes from a sub-pool of the list.
use nvmfs.Prelude.{
  ℕ, ◌+◌, ◌*◌, ◌/◌, ◌%◌, ◌^◌, ◌<◌, ◌≡◌, ◌≢◌, refl, sym, ap, ◌∙◌, inl, inr, true, false, Option,
  none, some, ◌>>=◌, All, ◌==◌, arith, eq_cases, subst, Option-cases, sub64,
}
use nvmfs.Types.{logical_page_to_addr}
use nvmfs.RbTree.{RbTree}
use nvmfs.ExtentContainer.{key}
use nvmfs.BlockPool.Valid
use nvmfs.RadixTree.Ready.{Ready}
use nvmfs.PagePool.{
  PageSubPool, PagePool, sub_pool_of, write_sub_pool, list_del, bitmap_zero_get, taken_at,
  take_index, alloc_page_from_page_sub_pool, page_sub_pool_allocated, counted_page, deprecate_new,
  alloc_in,
}
use nvmfs.PagePool.Bits.{bit, vacant, bitmap_zero_get-none, bitmap_zero_get-some}
use nvmfs.PagePool.SubPools.{
  free_in_sub_pools, All-sub_pool_of, free_in_sub_pools-only, free-write_sub_pool,
  All-write_sub_pool, Distinct-write_sub_pool, sub_pool_of-write_sub_pool, sub_pool_of-write_ne,
  free-list_del, All-list_del, list_del-write_sub_pool,
}
use nvmfs.PagePool.Valid.{IsSubPool, HasPage, IsValid}
use nvmfs.PagePool.Take.{Takes, written-IsValid, list_del-Removes}
use nvmfs.PagePool.TakeIndex.{
  page_at-sum, free_in_sub_pool-at, free_in_sub_pool-none, free_in_sub_pool-written,
  free_in_sub_pool-written_ne, taken_at-count,
}

addr-page : (page : ℕ) → page < 2 ^ 32 → logical_page_to_addr page ≡ page * 4096
unfolding logical_page_to_addr
addr-page page h = omega arith

-- The page is one of block `b`.
abbrev pub TakesFrom : ℕ → PagePool → Option (Option ℕ × PagePool) → Type 0
TakesFrom b p o = (t : Takes p o) × (t.page / 512 ≡ b)

-- What the call goes on to do with the page and the sub-pool.
unfoldable rest_of : PagePool → Option ℕ × PageSubPool → Option (Option ℕ × PagePool)
rest_of p (page, sp) =
    page_sub_pool_allocated (record p { non_full = write_sub_pool sp p.non_full }) sp >>= λ q.
    some (counted_page q page)

-- The page at index `j` of `sp`, the sub-pool of its block in the list.
module _ (p : PagePool) (sp : PageSubPool) (v : IsValid p)
    (at : sub_pool_of sp.block p.non_full ≡ some sp) (j : ℕ) (h : j < 512)
    (f : bit sp.bitmap j ≡ false) where
  abbrev new : PageSubPool
  new = taken_at sp j

  abbrev page : ℕ
  page = sp.block * 512 + j

  own : IsSubPool sp
  own = All-sub_pool_of IsSubPool sp.block p.non_full sp v.sub_pools at

  own_Ready : Ready p.tree sp.block
  own_Ready = All-sub_pool_of (λ x. Ready p.tree x.block) sp.block p.non_full sp v.ready at

  new_block : new.block ≡ sp.block
  unfolding taken_at
  new_block = refl

  at_new : sub_pool_of new.block p.non_full ≡ some sp
  unfolding taken_at
  at_new = at

  in_block : page / 512 ≡ sp.block
  in_block = omega arith

  page_small : page < 2 ^ 32
  page_small = let s = own.small in omega arith

  page_free-before : free_in_sub_pools p.non_full page ≡ 1
  page_free-before =
      let place : page % 512 ≡ j = omega arith in
      free_in_sub_pools-only sp.block p.non_full sp page v.distinct at in_block
      ∙ free_in_sub_pool-at sp page (sym in_block)
      ∙ ap (λ i. vacant (bit sp.bitmap i)) place
      ∙ ap vacant f

  block_taken : Valid.free p.block_pool (page / 512) ≡ 0
  block_taken =
      ap (Valid.free p.block_pool) in_block
      ∙ All-sub_pool_of (λ x. Valid.free p.block_pool x.block ≡ 0) sp.block p.non_full sp v.apart at

  free_written : free_in_sub_pools (write_sub_pool new p.non_full) page ≡ 0
  unfolding taken_at
  free_written =
      let w = free-write_sub_pool new p.non_full sp page at_new in
      let a = free_in_sub_pool-written sp new own j h true refl refl page refl in
      let b = free_in_sub_pools-only sp.block p.non_full sp page v.distinct at in_block in
      omega (arith, page_free-before)

  free_written_ne :
      (q : ℕ)
      → q ≢ page
      → free_in_sub_pools (write_sub_pool new p.non_full) q ≡ free_in_sub_pools p.non_full q
  unfolding taken_at
  free_written_ne q n =
      let w = free-write_sub_pool new p.non_full sp q at_new in
      let a = free_in_sub_pool-written_ne sp new own j h true refl refl q n in omega arith

  free_deleted :
      new.count ≡ 0
      → (q : ℕ)
      → free_in_sub_pools (list_del new.block (write_sub_pool new p.non_full)) q
        ≡ free_in_sub_pools (write_sub_pool new p.non_full) q
  free_deleted z q =
      let d =
        free-list_del new.block (write_sub_pool new p.non_full) new q
          (sub_pool_of-write_sub_pool new p.non_full sp at_new) in
      let e = free_in_sub_pool-none new q (taken_at-count sp own j h f).1 z in omega arith

  new_IsSubPool : IsSubPool new
  new_IsSubPool = (taken_at-count sp own j h f).1

  page_left : new.count ≢ 0 → TakesFrom sp.block p (rest_of p (some page, new))
  unfolding rest_of page_sub_pool_allocated counted_page
  page_left n =
      let sps = write_sub_pool new p.non_full in
      let test : (new.count == 0) ≡ false = ground arith in
      (
        record {
          pool = record p { non_full = sps; page_num = sub64 p.page_num 1 };
          page = page;
          result = rw test (
              ap (λ a. some (some a, record p { non_full = sps; page_num = sub64 p.page_num 1 }))
                (addr-page page page_small));
          valid =
              written-IsValid p sp new v at_new new_IsSubPool (omega arith) (sub64 p.page_num 1);
          small = page_small;
          was_free = omega (arith, page_free-before, block_taken);
          taken = omega (arith, free_written, block_taken);
          others = λ q m. omega (arith, free_written_ne q m);
          at_page = subst (Ready p.tree) (sym in_block) own_Ready;
          ready = λ k r. r;
        },
        in_block,
      )

  page_last : new.count ≡ 0 → TakesFrom sp.block p (rest_of p (some page, new))
  unfolding rest_of page_sub_pool_allocated counted_page
  page_last z =
      let sps = write_sub_pool new p.non_full in
      let test : (new.count == 0) ≡ true = ground arith in
      let same = sym new_block in
      let r =
        list_del-Removes p new.block sps v new_IsSubPool.small (subst (Ready p.tree) same own_Ready)
          (All-write_sub_pool new IsSubPool p.non_full v.sub_pools new_IsSubPool)
          (subst (All HasPage) (sym (list_del-write_sub_pool new p.non_full))
            (All-list_del new.block HasPage p.non_full v.some_left))
          (Distinct-write_sub_pool new p.non_full v.distinct)
          (All-write_sub_pool new (λ x. Valid.free p.block_pool x.block ≡ 0) p.non_full v.apart
            (ap (Valid.free p.block_pool) (new_block ∙ sym in_block) ∙ block_taken))
          (All-write_sub_pool new (λ x. Ready p.tree x.block) p.non_full v.ready
            (subst (Ready p.tree) same own_Ready))
          (sub_pool_of-write_ne new p.non_full) in
      let gone : PagePool = record p {
        non_full = list_del new.block sps;
        tree = r.tree;
        sub_pool_num = sub64 p.sub_pool_num 1;
        page_num = sub64 p.page_num 1;
      } in
      (
        record {
          pool = gone;
          page = page;
          result = rw (test, r.result) (ap (λ a. some (some a, gone)) (addr-page page page_small));
          valid = r.valid (sub64 p.sub_pool_num 1) (sub64 p.page_num 1);
          small = page_small;
          was_free = omega (arith, page_free-before, block_taken);
          taken = omega (arith, free_written, free_deleted z page, block_taken);
          others = λ q m. omega (arith, free_written_ne q m, free_deleted z q);
          at_page = subst (Ready r.tree) (sym in_block) (r.ready sp.block own_Ready);
          ready = r.ready;
        },
        in_block,
      )

  index_Takes : TakesFrom sp.block p (rest_of p (take_index sp (some j)))
  unfolding take_index
  index_Takes =
      subst (λ n. TakesFrom sp.block p (rest_of p (some n, new))) (sym (page_at-sum sp j own h))
        (elim (eq_cases new.count 0) [ inl z ↦ page_last z | inr n ↦ page_left n ])

alloc_in-rest_of :
    (rb : RbTree key) (p : PagePool) (sp : PageSubPool)
    → alloc_in rb p (some sp) none ≡ rest_of p (alloc_page_from_page_sub_pool sp)
unfolding alloc_in deprecate_new rest_of
alloc_in-rest_of rb p sp = refl

alloc_page-take_index :
    (sp : PageSubPool)
    → alloc_page_from_page_sub_pool sp ≡ take_index sp (bitmap_zero_get sp.bitmap sp.next_index)
unfolding alloc_page_from_page_sub_pool take_index
alloc_page-take_index sp = refl

pub alloc_in-Takes :
    (rb : RbTree key) (p : PagePool) (sp : PageSubPool)
    → IsValid p
    → sub_pool_of sp.block p.non_full ≡ some sp
    → TakesFrom sp.block p (alloc_in rb p (some sp) none)
alloc_in-Takes rb p sp v at =
    let own : IsSubPool sp = All-sub_pool_of IsSubPool sp.block p.non_full sp v.sub_pools at in
    let left : HasPage sp = All-sub_pool_of HasPage sp.block p.non_full sp v.some_left at in
    let opened = alloc_in-rest_of rb p sp ∙ ap (rest_of p) (alloc_page-take_index sp) in
    subst (TakesFrom sp.block p) (sym opened)
      (elim (Option-cases (bitmap_zero_get sp.bitmap sp.next_index)) [
        | inl e ↦ absurd (
            omega (
              arith,
              own.counted,
              bitmap_zero_get-none sp.bitmap sp.next_index own.is_bitmap own.in_bitmap e,
            ))
        | inr (j, e) ↦
            let (h, f) =
              bitmap_zero_get-some sp.bitmap sp.next_index j own.is_bitmap own.in_bitmap e in
            subst (λ i. TakesFrom sp.block p (rest_of p (take_index sp i))) (sym e)
              (index_Takes p sp v at j h f)
      ])
