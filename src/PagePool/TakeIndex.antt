-- ===== src/PagePool/TakeIndex.antt =====
-- A page that is taken from a sub-pool, or given back to it: what becomes of the sub-pool's bitmap and
-- count.
use nvmfs.Prelude.{
  ℕ, ◌+◌, ◌-◌, ◌*◌, ◌/◌, ◌%◌, ◌<◌, ◌≡◌, ◌≢◌, refl, sym, ap, ◌∙◌, inl, inr, Bool, true, false, ◌==◌,
  arith, eq_cases, subst,
}
use nvmfs.Types.{logical_block_to_page}
use nvmfs.PagePool.{PageSubPool, bitmap_write, taken_at, returned_at, page_at}
use nvmfs.PagePool.Bits.{
  IsBitmap, bit, vacant, zeros, bitmap_write-IsBitmap, bit-write_self, bit-write_ne, zeros-write,
  bit-none, bit-full, zeros-bound,
}
use nvmfs.PagePool.SubPools.{free_in_sub_pool}
use nvmfs.PagePool.Valid.{IsSubPool}

pub page_at-sum :
    (sp : PageSubPool) (j : ℕ) → IsSubPool sp → j < 512 → page_at sp j ≡ sp.block * 512 + j
unfolding page_at logical_block_to_page
page_at-sum sp j w h = omega (arith, w.small)

pub free_in_sub_pool-at :
    (sp : PageSubPool) (page : ℕ)
    → sp.block ≡ page / 512
    → free_in_sub_pool sp page ≡ vacant (bit sp.bitmap (page % 512))
free_in_sub_pool-at sp page e = let t : (sp.block == page / 512) ≡ true = ground arith in rw t refl

pub free_in_sub_pool-ne :
    (sp : PageSubPool) (page : ℕ) → sp.block ≢ page / 512 → free_in_sub_pool sp page ≡ 0
free_in_sub_pool-ne sp page n = let t : (sp.block == page / 512) ≡ false = ground arith in rw t refl

-- A sub-pool without a free page, and one with all of them.
pub free_in_sub_pool-none :
    (sp : PageSubPool) (page : ℕ) → IsSubPool sp → sp.count ≡ 0 → free_in_sub_pool sp page ≡ 0
free_in_sub_pool-none sp page w e = elim (eq_cases sp.block (page / 512)) [
  | inl q ↦
      free_in_sub_pool-at sp page q
      ∙ ap vacant (bit-none sp.bitmap (page % 512) w.is_bitmap (sym w.counted ∙ e) (omega arith))
  | inr n ↦ free_in_sub_pool-ne sp page n
]

pub free_in_sub_pool-all :
    (sp : PageSubPool) (page : ℕ)
    → IsSubPool sp
    → sp.count ≡ 512
    → sp.block ≡ page / 512
    → free_in_sub_pool sp page ≡ 1
free_in_sub_pool-all sp page w e q =
    free_in_sub_pool-at sp page q
    ∙ ap vacant (bit-full sp.bitmap (page % 512) w.is_bitmap (sym w.counted ∙ e) (omega arith))

-- The bit at `j` becomes `b`, in a sub-pool that is else the same.
module _ (sp new : PageSubPool) (w : IsSubPool sp) (j : ℕ) (h : j < 512) (b : Bool)
    (block : new.block ≡ sp.block) (bitmap : new.bitmap ≡ bitmap_write sp.bitmap j b) where
  written_bit : (i : ℕ) → j ≢ i → bit new.bitmap i ≡ bit sp.bitmap i
  written_bit i n = ap (λ m. bit m i) bitmap ∙ bit-write_ne sp.bitmap w.is_bitmap j h b i n

  pub free_in_sub_pool-written :
      (page : ℕ) → page ≡ sp.block * 512 + j → free_in_sub_pool new page ≡ vacant b
  free_in_sub_pool-written page e =
      let place : page % 512 ≡ j = omega arith in
      free_in_sub_pool-at new page (omega arith)
      ∙ ap (λ i. vacant (bit new.bitmap i)) place
      ∙ ap (λ m. vacant (bit m j)) bitmap
      ∙ ap vacant (bit-write_self sp.bitmap w.is_bitmap j h b)

  pub free_in_sub_pool-written_ne :
      (page : ℕ) → page ≢ sp.block * 512 + j → free_in_sub_pool new page ≡ free_in_sub_pool sp page
  free_in_sub_pool-written_ne page n = elim (eq_cases sp.block (page / 512)) [
    | inl q ↦
        free_in_sub_pool-at new page (block ∙ q)
        ∙ ap vacant (written_bit (page % 512) (λ e. n (omega arith)))
        ∙ sym (free_in_sub_pool-at sp page q)
    | inr m ↦
        free_in_sub_pool-ne new page (λ e. m (sym block ∙ e)) ∙ sym (free_in_sub_pool-ne sp page m)
  ]

  pub written_zeros : zeros new.bitmap + vacant (bit sp.bitmap j) ≡ zeros sp.bitmap + vacant b
  written_zeros =
      ap (λ m. zeros m + vacant (bit sp.bitmap j)) bitmap ∙ zeros-write sp.bitmap w.is_bitmap j h b

  pub written_bitmap : IsBitmap new.bitmap
  written_bitmap = subst IsBitmap (sym bitmap) (bitmap_write-IsBitmap sp.bitmap w.is_bitmap j h b)

module _ (sp : PageSubPool) (w : IsSubPool sp) (j : ℕ) (h : j < 512) where
  pub taken_at-count :
      bit sp.bitmap j ≡ false → ((taken_at sp j).count + 1 ≡ sp.count) × IsSubPool (taken_at sp j)
  unfolding taken_at
  taken_at-count f =
      let z = written_zeros sp (taken_at sp j) w j h true refl refl in
      let v : vacant (bit sp.bitmap j) ≡ 1 = ap vacant f in
      let c = w.counted in
      let l = zeros-bound sp.bitmap w.is_bitmap in
      let count : (taken_at sp j).count ≡ zeros sp.bitmap - 1 = omega arith in
      (
        omega arith,
        record {
          is_bitmap = written_bitmap sp (taken_at sp j) w j h true refl refl;
          counted = count ∙ omega arith;
          in_bitmap = omega arith;
          small = w.small;
        },
      )

  pub returned_at-count :
      bit sp.bitmap j ≡ true
      → ((returned_at sp j).count ≡ sp.count + 1) × IsSubPool (returned_at sp j)
  unfolding returned_at
  returned_at-count f =
      let z = written_zeros sp (returned_at sp j) w j h false refl refl in
      let v : vacant (bit sp.bitmap j) ≡ 0 = ap vacant f in
      let c = w.counted in
      let l = zeros-bound sp.bitmap w.is_bitmap in
      let count : (returned_at sp j).count ≡ zeros sp.bitmap + 1 = omega arith in
      (
        omega arith,
        record {
          is_bitmap = written_bitmap sp (returned_at sp j) w j h false refl refl;
          counted = count ∙ omega arith;
          in_bitmap = omega arith;
          small = w.small;
        },
      )
