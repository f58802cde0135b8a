-- ===== src/BlockPool/Deal.antt =====
-- The loops of BlockPoolGet hand every block of the extents to the caller or to the cache.
use nvmfs.Prelude.{
  ℕ, zero, suc, ◌+◌, ◌-◌, ◌%◌, ◌≤◌, ◌<◌, ◌≡◌, refl, ◌∙◌, List, [], ◌∷◌, All, arith, length, take,
  min, lt_cases, inl, inr, lt→ltb, le→not_ltb, length-append, length-set,
}
use native.Mathlib.Numerals.{add-one}
use nvmfs.Types.{u32_mod}
use nvmfs.ExtentContainer.{Extent}
use nvmfs.ExtentContainer.Append.{total}
use nvmfs.ExtentTree.Order.{holders, inside}
use nvmfs.BlockPool.{Dealt, deal_block, deal_extent, deal}
use nvmfs.BlockPool.Count.{occurs, occurs-append, occurs-take-set, same}

-- `n` blocks were dealt, block `b` among them `f b` times.
pub record Deals (wanted : ℕ) (d d' : Dealt) (n : ℕ) (f : ℕ → ℕ) : Type 0 where
  pub got : d'.got ≡ min wanted (d.got + n)
  pub in_cache : d'.in_cache + d'.got ≡ d.in_cache + d.got + n
  pub out : length d'.out + d.got ≡ length d.out + d'.got
  pub size : length d'.cache ≡ length d.cache
  pub moved :
      (b : ℕ)
      → occurs b d'.out + occurs b (take d'.in_cache d'.cache)
        ≡ occurs b d.out + occurs b (take d.in_cache d.cache) + f b

-- The caller's array and the cache have room for `n` more.
abbrev pub Fits : ℕ → Dealt → ℕ → Type 0
Fits wanted d n = (d.got ≤ wanted) × (d.in_cache + d.got + n ≤ wanted + length d.cache)

deal_block-Deals :
    (wanted : ℕ) (d : Dealt) (j : ℕ)
    → j < u32_mod
    → Fits wanted d 1
    → Deals wanted d (deal_block wanted d j) 1 (λ b. same b j)
unfolding deal_block
deal_block-Deals wanted d j h (g, fits) =
    let small : j % u32_mod ≡ j = omega arith in
    elim (lt_cases d.got wanted) [
      | inl lt ↦
          rw (lt→ltb d.got wanted lt, small)
            (record {
              got = omega arith;
              in_cache = omega arith;
              out = omega (arith, length-append d.out (j ∷ []));
              size = refl;
              moved = λ b. omega (arith, occurs-append b d.out (j ∷ []));
            })
      | inr ge ↦
          rw (le→not_ltb d.got wanted ge, small)
            (record {
              got = omega arith;
              in_cache = omega arith;
              out = omega arith;
              size = length-set d.cache d.in_cache j;
              moved = λ b. rw add-one (omega (arith, occurs-take-set b d.in_cache j d.cache));
            })
    ]

Deals-trans :
    {wanted : ℕ} {d e g : Dealt} {m n : ℕ} {f h : ℕ → ℕ}
    → Deals wanted d e m f
    → Deals wanted e g n h
    → Deals wanted d g (m + n) (λ b. f b + h b)
Deals-trans p q = record {
  got = omega (arith, p.got, q.got);
  in_cache = omega (arith, p.in_cache, q.in_cache);
  out = omega (arith, p.out, q.out);
  size = q.size ∙ p.size;
  moved = λ b. omega (arith, p.moved b, q.moved b);
}

Deals-eq :
    {wanted : ℕ} {d e : Dealt} {m n : ℕ} {f h : ℕ → ℕ}
    → Deals wanted d e m f
    → m ≡ n
    → ((b : ℕ) → f b ≡ h b)
    → Deals wanted d e n h
Deals-eq p e k = record {
  got = omega (arith, p.got);
  in_cache = omega (arith, p.in_cache);
  out = p.out;
  size = p.size;
  moved = λ b. omega (arith, p.moved b, k b);
}

Deals-none :
    (wanted : ℕ) (d : Dealt) (f : ℕ → ℕ)
    → d.got ≤ wanted
    → ((b : ℕ) → f b ≡ 0)
    → Deals wanted d d 0 f
Deals-none wanted d f g z = record {
  got = omega arith;
  in_cache = omega arith;
  out = omega arith;
  size = refl;
  moved = λ b. omega (arith, z b);
}

Fits-Deals :
    {wanted : ℕ} {d e : Dealt} {m : ℕ} (n : ℕ) {f : ℕ → ℕ}
    → Deals wanted d e m f
    → Fits wanted d (m + n)
    → Fits wanted e n
Fits-Deals n p fits = (omega (arith, p.got, fits), omega (arith, p.in_cache, p.size, fits))

deal_extent-Deals :
    (wanted n j : ℕ) (d : Dealt)
    → j + n ≤ u32_mod
    → Fits wanted d n
    → Deals wanted d (deal_extent wanted n j d) n (λ b. inside b j (j + n))
unfolding deal_extent
deal_extent-Deals wanted zero j d h fits = Deals-none wanted d _ fits.0 (λ b. ground arith)
deal_extent-Deals wanted (suc n) j d h fits =
    let first = deal_block-Deals wanted d j (omega arith) (omega arith) in
    let rest =
      deal_extent-Deals wanted n (j + 1) (deal_block wanted d j) (omega arith)
        (Fits-Deals n first (omega arith)) in
    Deals-eq (Deals-trans first rest) (omega arith) (λ b. ground arith)

-- The loops hand out every address of the extents: first to the caller, up to `wanted`, then to the
-- cache. None is lost and none is handed out twice.
pub deal-Deals :
    (wanted : ℕ) (xs : List Extent) (d : Dealt)
    → All (λ x. x.start ≤ x.end) xs
    → All (λ x. x.end < u32_mod) xs
    → Fits wanted d (total xs)
    → Deals wanted d (deal wanted xs d) (total xs) (λ b. holders b xs)
unfolding deal
deal-Deals wanted [] d o h fits = Deals-none wanted d _ fits.0 (λ b. refl)
deal-Deals wanted (x ∷ xs) d o h fits =
    let first = deal_extent-Deals wanted (x.end - x.start) x.start d (omega arith) (omega arith) in
    let rest =
      deal-Deals wanted xs (deal_extent wanted (x.end - x.start) x.start d) o.1 h.1
        (Fits-Deals (total xs) first fits) in
    Deals-eq (Deals-trans first rest) (omega arith) (λ b. ground arith)
