-- ===== src/PagePool/Areas.antt =====
-- The page pool under a continous space: AllocAreas gets pages that nobody else has.
use nvmfs.Prelude.{
  ℕ, zero, suc, ◌*◌, ◌/◌, ◌≡◌, ◌≢◌, refl, sym, ap, ◌∙◌, ◌>>=◌, inl, inr, Bool, true, false, Option,
  none, some, List, [], ◌∷◌, ◌++◌, All, Distinct, arith, subst, of_some, not_some, reverse,
  append_assoc, append-nil, eq_cases, Bool-cases,
}
use mathlib.Core.List.{reverse-cons}
use nvmfs.RbTree.{RbTree}
use nvmfs.ExtentContainer.{key}
use nvmfs.ContinousSpace.{PageAllocator, take_areas, alloc_areas, current_area_of_addr}
use nvmfs.ContinousSpace.Bytes.{IsArea}
use nvmfs.FileExtentTree.Order.{All-map, All-join}
use nvmfs.Log.Write.{HandsOutFresh}
use nvmfs.PagePool.{PagePool, alloc, alloc_with_hint, free}
use nvmfs.PagePool.Valid.{page_free, IsValid}
use nvmfs.PagePool.Take.{Takes}
use nvmfs.PagePool.Alloc.{alloc_with_hint-Allocs}

-- What the space sees of a call that may hand out an address.
unfoldable pub handed : Option (Option ℕ × PagePool) → Option (ℕ × Option PagePool)
handed none = none
handed (some (none, p)) = none
handed (some (some addr, p)) = some (addr, some p)

-- The page pool as the space uses it, with no other caller. Its state is `none` once a call of
-- PagePoolFree has followed a pointer that leads nowhere; from then on nothing is handed out.
unfoldable pub page_allocator : RbTree key → PageAllocator (Option PagePool)
page_allocator rb = record {
  alloc = λ s. handed (s >>= λ p. alloc rb (λ q. q) p);
  alloc_with_hint = λ s hint. handed (s >>= λ p. alloc_with_hint rb (λ q. q) p hint);
  free = λ s addr. s >>= λ p. free rb (λ q. q) p addr;
}

-- The page at an address is not free.
abbrev pub InUse : PagePool → ℕ → Type 0
InUse p addr = page_free p (addr / 4096) ≡ 0

Distinct-snoc :
    (xs : List ℕ) (a : ℕ) → Distinct xs → All (λ x. x ≢ a) xs → Distinct (xs ++ (a ∷ []))
Distinct-snoc [] a d n = (tt, tt)
Distinct-snoc (x ∷ xs) a (d, ds) (n, ns) =
    (All-join (λ y. x ≢ y) xs (a ∷ []) d (n, tt), Distinct-snoc xs a ds ns)

-- The pages that are in use stay so, and the one handed out is none of them.
module _ (p : PagePool) (o : Option (Option ℕ × PagePool)) (t : Takes p o) (seen : List ℕ)
    (in_use : All (InUse p) seen) where
  abbrev new_addr : ℕ
  new_addr = t.page * 4096

  new_addr-IsArea : IsArea new_addr
  new_addr-IsArea = let s = t.small in (omega arith, omega arith)

  new_addr_page : new_addr / 4096 ≡ t.page
  new_addr_page = omega arith

  seen-ne : All (λ x. x ≢ new_addr) seen
  seen-ne =
      All-map seen
        (λ x u e.
          let same : x / 4096 ≡ t.page = omega arith in
          omega (arith, u, t.was_free, ap (page_free p) same))
        in_use

  seen-InUse : All (InUse t.pool) (seen ++ (new_addr ∷ []))
  seen-InUse =
      All-join (InUse t.pool) seen (new_addr ∷ [])
        (All-map seen
          (λ x u. elim (eq_cases (x / 4096) t.page) [
            | inl e ↦ ap (page_free t.pool) e ∙ t.taken
            | inr n ↦ t.others (x / 4096) n ∙ u
          ])
          in_use)
        (ap (page_free t.pool) new_addr_page ∙ t.taken, tt)

reverse-snoc : (xs ys : List ℕ) (a : ℕ) → xs ++ reverse (a ∷ ys) ≡ (xs ++ reverse ys) ++ (a ∷ [])
reverse-snoc xs ys a =
    ap (λ l. xs ++ l) (reverse-cons a ys) ∙ sym (append_assoc xs (reverse ys) (a ∷ []))

module _ (rb : RbTree key) where
  -- The rest of the loop, behind a call.
  unfoldable after_call :
      ℕ → PagePool → List ℕ → Option (ℕ × Option PagePool) → Bool × List ℕ × Option PagePool
  after_call n p taken none = (false, taken, some p)
  after_call n p taken (some (addr, q)) = take_areas (page_allocator rb) n q addr (addr ∷ taken)

  take_areas-after_call :
      (n : ℕ) (p : PagePool) (last : ℕ) (taken : List ℕ) (o : Option (Option ℕ × PagePool))
      → alloc_with_hint rb (λ q. q) p last ≡ o
      → take_areas (page_allocator rb) (suc n) (some p) last taken ≡ after_call n p taken (handed o)
  unfolding page_allocator after_call
  take_areas-after_call n p last taken o e =
      split (handed (alloc_with_hint rb (λ q. q) p last))
      ∙ ap (λ r. after_call n p taken (handed r)) e
    where
      split :
          (r : Option (ℕ × Option PagePool))
          → elim r [
            | none ↦ (false, taken, some p)
            | some (addr, q) ↦ take_areas (page_allocator rb) n q addr (addr ∷ taken)
          ]
            ≡ after_call n p taken r
      split none = refl
      split (some (addr, q)) = refl

  -- What is to be shown of a run of the loop behind the pages `chain`.
  abbrev Fresh : List ℕ → Bool × List ℕ × Option PagePool → Type 0
  Fresh chain (complete, taken, q) =
      complete ≡ true → All IsArea (reverse taken) × Distinct (chain ++ reverse taken)

  take_areas-Fresh :
      (chain : List ℕ) (n : ℕ) (p : PagePool) (last : ℕ) (taken : List ℕ)
      → IsValid p
      → All IsArea (reverse taken)
      → Distinct (chain ++ reverse taken)
      → All (InUse p) (chain ++ reverse taken)
      → Fresh chain (take_areas (page_allocator rb) n (some p) last taken)
  unfolding handed after_call
  take_areas-Fresh chain zero p last taken v a d u = λ h. (a, d)
  take_areas-Fresh chain (suc n) p last taken v a d u = elim (alloc_with_hint-Allocs rb p v last) [
    | inl f ↦
        subst (Fresh chain)
          (sym (take_areas-after_call n p last taken (some (none, f.pool)) f.result))
          (λ h. absurd (cc))
    | inr t ↦
        let o = alloc_with_hint rb (λ q. q) p last in
        let addr = t.page * 4096 in
        subst (Fresh chain)
          (sym (take_areas-after_call n p last taken (some (some addr, t.pool)) t.result))
          (take_areas-Fresh chain n t.pool addr (addr ∷ taken) t.valid
            (subst (All IsArea) (sym (reverse-cons addr taken))
              (All-join IsArea (reverse taken) (addr ∷ []) a (new_addr-IsArea p o t [] tt, tt)))
            (subst Distinct (sym (reverse-snoc chain taken addr)) (
              Distinct-snoc (chain ++ reverse taken) addr d
                (seen-ne p o t (chain ++ reverse taken) u)))
            (subst (All (InUse t.pool)) (sym (reverse-snoc chain taken addr))
              (seen-InUse p o t (chain ++ reverse taken) u)))
  ]

-- A valid page pool in which no page of a log's chain is free, these being distinct, hands out, by
-- AllocAreas, pages of 4 KB that are distinct from each other and from the chain: so LogWrite can be
-- given it.
pub page_allocator-HandsOutFresh :
    (rb : RbTree key) (p : PagePool) (addr : ℕ) (ps : List ℕ)
    → IsValid p
    → Distinct (current_area_of_addr addr ∷ ps)
    → All (InUse p) (current_area_of_addr addr ∷ ps)
    → HandsOutFresh (page_allocator rb) (some p) addr ps
unfolding alloc_areas
page_allocator-HandsOutFresh rb p addr ps v d u n cur areas h =
    let chain = current_area_of_addr addr ∷ ps in
    let none_yet = append-nil chain in
    elim (Bool-cases (take_areas (page_allocator rb) n (some p) cur []).0) [
      | inl t ↦
          let same = of_some (rw t at h) in
          let (a, c) =
            take_areas-Fresh rb chain n p cur [] v tt (subst Distinct (sym none_yet) d)
              (subst (All (InUse p)) (sym none_yet) u) t in
          (subst (All IsArea) same a, subst (λ l. Distinct (chain ++ l)) same c)
      | inr t ↦ absurd (not_some refl (rw t at h))
    ]
