-- ===== src/PagePool/SubPools.antt =====
-- The list of sub-pools: what a search, a write and a removal do to the free pages.
use nvmfs.Prelude.{
  ℕ, ◌+◌, ◌/◌, ◌%◌, ◌≡◌, ◌≢◌, refl, sym, ap, ◌∙◌, inl, inr, true, false, Bool-cases, none, some,
  List, [], ◌∷◌, All, ◌==◌, if◌then◌else◌, arith, eq_cases, of_some, not_some, subst,
}
use nvmfs.PagePool.{PageSubPool, sub_pool_of, write_sub_pool, list_del}
use nvmfs.PagePool.Bits.{bit, vacant}

-- Whether a sub-pool has the page `page` free: 1 or 0.
abbrev pub free_in_sub_pool : PageSubPool → ℕ → ℕ
free_in_sub_pool sp page = if sp.block == page / 512 then vacant (bit sp.bitmap (page % 512)) else 0

abbrev pub free_in_sub_pools : List PageSubPool → ℕ → ℕ
free_in_sub_pools [] page = 0
free_in_sub_pools (sp ∷ sps) page = free_in_sub_pool sp page + free_in_sub_pools sps page

-- No sub-pool is of block `block`.
abbrev pub Lacks : ℕ → List PageSubPool → Type 0
Lacks block = All λ sp. block ≢ sp.block

abbrev pub DistinctBlocks : List PageSubPool → Type 0
DistinctBlocks [] = Unit
DistinctBlocks (sp ∷ sps) = Lacks sp.block sps × DistinctBlocks sps

pub free_in_sub_pools-Lacks :
    (sps : List PageSubPool) (page : ℕ) → Lacks (page / 512) sps → free_in_sub_pools sps page ≡ 0
free_in_sub_pools-Lacks [] page a = refl
free_in_sub_pools-Lacks (sp ∷ sps) page (n, a) =
    let rest = free_in_sub_pools-Lacks sps page a in
    let e : (sp.block == page / 512) ≡ false = ground arith in rw e (omega arith)

pub sub_pool_of-Lacks : (b : ℕ) (sps : List PageSubPool) → Lacks b sps → sub_pool_of b sps ≡ none
sub_pool_of-Lacks b [] a = refl
sub_pool_of-Lacks b (x ∷ sps) (n, a) =
    let rest = sub_pool_of-Lacks b sps a in
    let e : (x.block == b) ≡ false = ground arith in rw e rest

pub Lacks-sub_pool_of : (b : ℕ) (sps : List PageSubPool) → sub_pool_of b sps ≡ none → Lacks b sps
Lacks-sub_pool_of b [] h = tt
Lacks-sub_pool_of b (x ∷ sps) h = elim (eq_cases x.block b) [
  | inl q ↦ let e : (x.block == b) ≡ true = ground arith in absurd (not_some (rw e at h) refl)
  | inr n ↦
      let e : (x.block == b) ≡ false = ground arith in
      ((λ q. n (sym q)), Lacks-sub_pool_of b sps (rw e at h))
]

pub sub_pool_of-block :
    (b : ℕ) (sps : List PageSubPool) (sp : PageSubPool) → sub_pool_of b sps ≡ some sp → sp.block ≡ b
sub_pool_of-block b [] sp h = absurd (not_some refl h)
sub_pool_of-block b (x ∷ sps) sp h = elim (eq_cases x.block b) [
  | inl q ↦
      let e : (x.block == b) ≡ true = ground arith in
      sym (ap (λ y. y.block) (of_some (rw e at h))) ∙ q
  | inr n ↦ let e : (x.block == b) ≡ false = ground arith in sub_pool_of-block b sps sp (rw e at h)
]

pub All-sub_pool_of :
    (P : PageSubPool → Type 0) (b : ℕ) (sps : List PageSubPool) (sp : PageSubPool)
    → All P sps
    → sub_pool_of b sps ≡ some sp
    → P sp
All-sub_pool_of P b [] sp a h = absurd (not_some refl h)
All-sub_pool_of P b (x ∷ sps) sp (p, a) h = elim (eq_cases x.block b) [
  | inl q ↦ let e : (x.block == b) ≡ true = ground arith in subst P (of_some (rw e at h)) p
  | inr n ↦
      let e : (x.block == b) ≡ false = ground arith in All-sub_pool_of P b sps sp a (rw e at h)
]

pub free_in_sub_pools-only :
    (b : ℕ) (sps : List PageSubPool) (sp : PageSubPool) (page : ℕ)
    → DistinctBlocks sps
    → sub_pool_of b sps ≡ some sp
    → page / 512 ≡ b
    → free_in_sub_pools sps page ≡ free_in_sub_pool sp page
free_in_sub_pools-only b [] sp page d h k = absurd (not_some refl h)
free_in_sub_pools-only b (x ∷ sps) sp page (a, d) h k = elim (eq_cases x.block b) [
  | inl q ↦
      let e : (x.block == b) ≡ true = ground arith in
      let same : x ≡ sp = of_some (rw e at h) in
      let none_else = free_in_sub_pools-Lacks sps page (subst (λ c. Lacks c sps) (q ∙ sym k) a) in
      omega (arith, ap (λ y. free_in_sub_pool y page) same)
  | inr n ↦
      let e : (x.block == b) ≡ false = ground arith in
      let f : (x.block == page / 512) ≡ false = ground arith in
      let rest = free_in_sub_pools-only b sps sp page d (rw e at h) k in rw f (omega arith)
]

-- A write of `new` where the sub-pool of its block stands.
module _ (new : PageSubPool) where
  pub free-write_sub_pool :
      (sps : List PageSubPool) (sp : PageSubPool) (page : ℕ)
      → sub_pool_of new.block sps ≡ some sp
      → free_in_sub_pools (write_sub_pool new sps) page + free_in_sub_pool sp page
        ≡ free_in_sub_pools sps page + free_in_sub_pool new page
  free-write_sub_pool [] sp page h = absurd (not_some refl h)
  free-write_sub_pool (x ∷ sps) sp page h = elim (eq_cases x.block new.block) [
    | inl q ↦
        let e : (x.block == new.block) ≡ true = ground arith in
        let same : x ≡ sp = of_some (rw e at h) in
        rw e (omega (arith, ap (λ y. free_in_sub_pool y page) same))
    | inr n ↦
        let e : (x.block == new.block) ≡ false = ground arith in
        let rest = free-write_sub_pool sps sp page (rw e at h) in rw e (omega arith)
  ]

  pub All-write_sub_pool :
      (P : PageSubPool → Type 0) (sps : List PageSubPool)
      → All P sps
      → P new
      → All P (write_sub_pool new sps)
  All-write_sub_pool P [] a p = tt
  All-write_sub_pool P (x ∷ sps) (q, a) p = elim (Bool-cases (x.block == new.block)) [
    | inl e ↦ rw e (p, a)
    | inr e ↦ rw e (q, All-write_sub_pool P sps a p)
  ]

  pub Distinct-write_sub_pool :
      (sps : List PageSubPool) → DistinctBlocks sps → DistinctBlocks (write_sub_pool new sps)
  Distinct-write_sub_pool [] d = tt
  Distinct-write_sub_pool (x ∷ sps) (a, d) = elim (eq_cases x.block new.block) [
    | inl q ↦
        let e : (x.block == new.block) ≡ true = ground arith in
        rw e (subst (λ b. Lacks b sps) q a, d)
    | inr n ↦
        let e : (x.block == new.block) ≡ false = ground arith in
        rw e (All-write_sub_pool (λ y. x.block ≢ y.block) sps a n, Distinct-write_sub_pool sps d)
  ]

  pub sub_pool_of-write_sub_pool :
      (sps : List PageSubPool) (sp : PageSubPool)
      → sub_pool_of new.block sps ≡ some sp
      → sub_pool_of new.block (write_sub_pool new sps) ≡ some new
  sub_pool_of-write_sub_pool [] sp h = absurd (not_some refl h)
  sub_pool_of-write_sub_pool (x ∷ sps) sp h = elim (eq_cases x.block new.block) [
    | inl q ↦
        let e : (x.block == new.block) ≡ true = ground arith in
        let f : (new.block == new.block) ≡ true = ground arith in rw (e, f) refl
    | inr n ↦
        let e : (x.block == new.block) ≡ false = ground arith in
        let rest = sub_pool_of-write_sub_pool sps sp (rw e at h) in rw (e, e) rest
  ]

  pub sub_pool_of-write_ne :
      (sps : List PageSubPool) (b : ℕ)
      → new.block ≢ b
      → sub_pool_of b (write_sub_pool new sps) ≡ sub_pool_of b sps
  sub_pool_of-write_ne [] b n = refl
  sub_pool_of-write_ne (x ∷ sps) b n = elim (eq_cases x.block new.block) [
    | inl q ↦
        let e : (x.block == new.block) ≡ true = ground arith in
        let f : (new.block == b) ≡ false = ground arith in
        let g : (x.block == b) ≡ false = ground arith in rw (e, f, g) refl
    | inr m ↦
        let e : (x.block == new.block) ≡ false = ground arith in
        let rest = sub_pool_of-write_ne sps b n in rw (e, rest) refl
  ]

-- The removal of the sub-pool of block `b`.
module _ (b : ℕ) where
  pub free-list_del :
      (sps : List PageSubPool) (sp : PageSubPool) (page : ℕ)
      → sub_pool_of b sps ≡ some sp
      → free_in_sub_pools (list_del b sps) page + free_in_sub_pool sp page
        ≡ free_in_sub_pools sps page
  free-list_del [] sp page h = absurd (not_some refl h)
  free-list_del (x ∷ sps) sp page h = elim (eq_cases x.block b) [
    | inl q ↦
        let e : (x.block == b) ≡ true = ground arith in
        let same : x ≡ sp = of_some (rw e at h) in
        rw e (omega (arith, ap (λ y. free_in_sub_pool y page) same))
    | inr n ↦
        let e : (x.block == b) ≡ false = ground arith in
        let rest = free-list_del sps sp page (rw e at h) in rw e (omega arith)
  ]

  pub All-list_del :
      (P : PageSubPool → Type 0) (sps : List PageSubPool) → All P sps → All P (list_del b sps)
  All-list_del P [] a = tt
  All-list_del P (x ∷ sps) (q, a) = elim (Bool-cases (x.block == b)) [
    | inl e ↦ rw e a
    | inr e ↦ rw e (q, All-list_del P sps a)
  ]

  pub Distinct-list_del :
      (sps : List PageSubPool) → DistinctBlocks sps → DistinctBlocks (list_del b sps)
  Distinct-list_del [] d = tt
  Distinct-list_del (x ∷ sps) (a, d) = elim (Bool-cases (x.block == b)) [
    | inl e ↦ rw e d
    | inr e ↦ rw e (All-list_del (λ y. x.block ≢ y.block) sps a, Distinct-list_del sps d)
  ]

  pub Lacks-list_del : (sps : List PageSubPool) → DistinctBlocks sps → Lacks b (list_del b sps)
  Lacks-list_del [] d = tt
  Lacks-list_del (x ∷ sps) (a, d) = elim (eq_cases x.block b) [
    | inl q ↦ let e : (x.block == b) ≡ true = ground arith in rw e (subst (λ c. Lacks c sps) q a)
    | inr n ↦
        let e : (x.block == b) ≡ false = ground arith in
        rw e ((λ q. n (sym q)), Lacks-list_del sps d)
  ]

  pub sub_pool_of-list_del :
      (sps : List PageSubPool) (c : ℕ) → b ≢ c → sub_pool_of c (list_del b sps) ≡ sub_pool_of c sps
  sub_pool_of-list_del [] c n = refl
  sub_pool_of-list_del (x ∷ sps) c n = elim (eq_cases x.block b) [
    | inl q ↦
        let e : (x.block == b) ≡ true = ground arith in
        let f : (x.block == c) ≡ false = ground arith in rw (e, f) refl
    | inr m ↦
        let e : (x.block == b) ≡ false = ground arith in
        let rest = sub_pool_of-list_del sps c n in rw (e, rest) refl
  ]

pub list_del-write_sub_pool :
    (new : PageSubPool) (sps : List PageSubPool)
    → list_del new.block (write_sub_pool new sps) ≡ list_del new.block sps
list_del-write_sub_pool new [] = refl
list_del-write_sub_pool new (x ∷ sps) = elim (eq_cases x.block new.block) [
  | inl q ↦
      let e : (x.block == new.block) ≡ true = ground arith in
      let f : (new.block == new.block) ≡ true = ground arith in rw (e, f) refl
  | inr n ↦
      let e : (x.block == new.block) ≡ false = ground arith in
      rw (e, e, list_del-write_sub_pool new sps) refl
]
