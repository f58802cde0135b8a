-- ===== src/BlockManager/Slow.antt =====
-- The swap of three blocks.
use nvmfs.Prelude.{
  ℕ, ◌+◌, ◌^◌, ◌≤◌, ◌<◌, ◌≡◌, ◌≢◌, ◌⊎◌, refl, sym, ap, ◌∙◌, inl, inr, some, of_some, List, ◌++◌,
  length, get_elem?, set, get_elem?-set_ne, get_elem?-lt, length-set, eq_cases, arith, subst,
}
use nvmfs.MapTable.{BlockEntry, MapTable, index_of_block, block_to_nvm_addr, block_swap_slow}
use nvmfs.MapTable.Move.{IsMove, phys-made}
use nvmfs.MapTable.Swap.{rotate, block_swap_slow-Swapped}
use nvmfs.MapTable.View.{Kept, block_swap_slow-keeps}
use nvmfs.BlockManager.{
  BlockInfo, BlockManager, unmap_get, unmap_set, block_copy, slow_log, slow_moved,
}
use nvmfs.BlockManager.Consistent.{
  UnmapsTo, Inverse, IsConsistent, UnmapsTo-set_self, UnmapsTo-set_ne, length-of,
}

module _ {ℓ} {Memory : Type ℓ} (read : Memory → ℕ → ℕ) (memcpy : Memory → ℕ → ℕ → ℕ → Memory)
    (read-memcpy : (m : Memory) (dst src n i : ℕ)
      → i < n
      → (dst + n ≤ src) ⊎ (src + n ≤ dst)
      → read (memcpy m dst src n) (dst + i) ≡ read m (src + i))
    (read-memcpy_outside : (m : Memory) (dst src n addr : ℕ)
      → (addr < dst) ⊎ (dst + n ≤ addr)
      → read (memcpy m dst src n) addr ≡ read m addr)
    (m : BlockManager Memory) (c : IsConsistent m) where
  abbrev t : MapTable
  t = m.map_table

  -- What is read at an address of the old table is read there of the new one.
  abbrev pub Reads : BlockManager Memory → ℕ → Type 0
  Reads m' addr =
      Kept read memcpy read-memcpy read-memcpy_outside t m.memory m'.map_table m'.memory addr

  small_block : (l : ℕ) {e : BlockEntry} → get_elem? t.entries l ≡ some e → l < t.block_num
  small_block l g = omega (arith, get_elem?-lt t.entries l g, c.table.whole)

  module _ (a b d : ℕ) {ea eb ed : BlockEntry} (ga : get_elem? t.entries a ≡ some ea)
      (gb : get_elem? t.entries b ≡ some eb) (gd : get_elem? t.entries d ≡ some ed) (ab : a ≢ b)
      (bd : b ≢ d) (ad : a ≢ d) where
    ua : UnmapsTo m.unmap_table ea.phys_block_index a
    ua = c.inverse a ea ga

    ub : UnmapsTo m.unmap_table eb.phys_block_index b
    ub = c.inverse b eb gb

    ud : UnmapsTo m.unmap_table ed.phys_block_index d
    ud = c.inverse d ed gd

    apart_ab : ea.phys_block_index ≢ eb.phys_block_index
    apart_ab e = ab (c.table.unique a b ga gb e)

    apart_ad : ea.phys_block_index ≢ ed.phys_block_index
    apart_ad e = ad (c.table.unique a d ga gd e)

    apart_bd : eb.phys_block_index ≢ ed.phys_block_index
    apart_bd e = bd (c.table.unique b d gb gd e)

    abbrev u1 : List BlockInfo
    u1 = set m.unmap_table ea.phys_block_index ud.info

    abbrev u2 : List BlockInfo
    u2 = set u1 eb.phys_block_index ua.info

    abbrev u3 : List BlockInfo
    u3 = set u2 ed.phys_block_index ub.info

    longer1 : length u1 ≡ length m.unmap_table
    longer1 = length-set m.unmap_table ea.phys_block_index ud.info

    longer2 : length u2 ≡ length m.unmap_table
    longer2 = length-set u1 eb.phys_block_index ua.info ∙ longer1

    at_a : (l : ℕ) → l ≡ a → UnmapsTo u3 eb.phys_block_index l
    at_a l e =
        UnmapsTo-set_ne u2 ed.phys_block_index eb.phys_block_index l ub.info (λ q. apart_bd (sym q))
          (UnmapsTo-set_self u1 eb.phys_block_index l ua.info (omega (arith, length-of ub, longer1))
            (ua.same ∙ sym e))

    at_b : (l : ℕ) → l ≡ b → UnmapsTo u3 ed.phys_block_index l
    at_b l e =
        UnmapsTo-set_self u2 ed.phys_block_index l ub.info (omega (arith, length-of ud, longer2))
          (ub.same ∙ sym e)

    at_d : (l : ℕ) → l ≡ d → UnmapsTo u3 ea.phys_block_index l
    at_d l e =
        UnmapsTo-set_ne u2 ed.phys_block_index ea.phys_block_index l ub.info (λ q. apart_ad (sym q))
          (UnmapsTo-set_ne u1 eb.phys_block_index ea.phys_block_index l ua.info
            (λ q. apart_ab (sym q))
            (UnmapsTo-set_self m.unmap_table ea.phys_block_index l ud.info (length-of ua)
              (ud.same ∙ sym e)))

    at_other :
        (l : ℕ) (e : BlockEntry)
        → get_elem? t.entries l ≡ some e
        → l ≢ a
        → l ≢ b
        → l ≢ d
        → UnmapsTo u3 e.phys_block_index l
    at_other l e g na nb nd =
        UnmapsTo-set_ne u2 ed.phys_block_index e.phys_block_index l ub.info
          (λ q. nd (sym (c.table.unique d l gd g q)))
          (UnmapsTo-set_ne u1 eb.phys_block_index e.phys_block_index l ua.info
            (λ q. nb (sym (c.table.unique b l gb g q)))
            (UnmapsTo-set_ne m.unmap_table ea.phys_block_index e.phys_block_index l ud.info
              (λ q. na (sym (c.table.unique a l ga g q))) (c.inverse l e g)))

    slow-Inverse : (t' : MapTable) → IsMove (rotate a b d) t t' → Inverse t' u3
    slow-Inverse t' move l e' g =
        let mv = move.moved l g in
        let from =
          λ (k : ℕ) (q : rotate a b d l ≡ k). ap (get_elem? t.entries) (sym q) ∙ mv.other_at in
        subst (λ k. UnmapsTo u3 k l) (sym (phys-made mv))
          (elim (eq_cases l a) [
            | inl la ↦
                subst (λ e. UnmapsTo u3 e.phys_block_index l)
                  (of_some (sym gb ∙ from b (ground arith))) (at_a l la)
            | inr na ↦ elim (eq_cases l b) [
              | inl lb ↦
                  subst (λ e. UnmapsTo u3 e.phys_block_index l)
                    (of_some (sym gd ∙ from d (ground arith))) (at_b l lb)
              | inr nb ↦ elim (eq_cases l d) [
                | inl ld ↦
                    subst (λ e. UnmapsTo u3 e.phys_block_index l)
                      (of_some (sym ga ∙ from a (ground arith))) (at_d l ld)
                | inr nd ↦ at_other l mv.other (from l (ground arith)) na nb nd
              ]
            ]
          ])

    slow_moved-lem :
        (t' : MapTable)
        → block_swap_slow t a b d ≡ some t'
        → slow_moved memcpy m ea.phys_block_index eb.phys_block_index ed.phys_block_index
          ≡ some (record m {
            memory =
                block_copy memcpy m eb.phys_block_index ea.phys_block_index
                  (block_copy memcpy m ed.phys_block_index eb.phys_block_index m.memory);
            unmap_table = u3;
            map_table = t';
            log_calls =
                m.log_calls
                ++ slow_log ea.phys_block_index ua.info eb.phys_block_index ub.info
                    ed.phys_block_index ud.info;
          })
    unfolding slow_moved unmap_get unmap_set
    slow_moved-lem t' r =
        let gb' = get_elem?-set_ne m.unmap_table ud.info apart_ab ∙ ub.at in
        let gd' =
          get_elem?-set_ne u1 ua.info apart_bd
          ∙ get_elem?-set_ne m.unmap_table ud.info apart_ad
          ∙ ud.at in
        rw (ua.at, ub.at, ud.at, gb', gd', ua.same, ub.same, ud.same, r) refl

    -- A swap of three blocks keeps what is stored, where the locks are held: with at most 2048 blocks, a
    -- sound map table and an unmap table that is its inverse, the copies, the log and the updates of the
    -- two tables in BlockSwapSlow always succeed; the map table stays sound and the unmap table its
    -- inverse, and every logical address that is not of the third block reads as before.
    pub slow_moved-keeps :
        (m' : BlockManager Memory) × (slow_moved memcpy m ea.phys_block_index eb.phys_block_index
            ed.phys_block_index
          ≡ some m')
        × IsConsistent m'
        × ((addr : ℕ) → index_of_block addr ≢ d → Reads m' addr)
    unfolding block_copy
    slow_moved-keeps =
        let s =
          block_swap_slow-Swapped t a b d c.table (small_block a ga) (small_block b gb)
            (small_block d gd) ab bd ad in
        let (t', r, valid, kept) =
          block_swap_slow-keeps read memcpy read-memcpy read-memcpy_outside t m.memory a b d c.table
            c.few ga gb gd ab bd ad in
        let move = subst (IsMove (rotate a b d) t) (of_some (sym s.result ∙ r)) s.move in
        (
          _,
          slow_moved-lem t' r,
          record {
            table = valid;
            few = omega (arith, c.few, move.same_num);
            same_start = c.same_start ∙ sym move.same_start;
            inverse = slow-Inverse t' move;
          },
          λ addr n.
              subst
                (λ x.
                  Kept read memcpy read-memcpy read-memcpy_outside t m.memory t'
                    (memcpy
                      (memcpy m.memory (block_to_nvm_addr ed.phys_block_index x)
                        (block_to_nvm_addr eb.phys_block_index x) (2 ^ 21))
                      (block_to_nvm_addr eb.phys_block_index x)
                      (block_to_nvm_addr ea.phys_block_index x) (2 ^ 21))
                    addr)
                (sym c.same_start) (kept addr n),
        )
