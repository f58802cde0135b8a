-- ===== src/BlockManager/Fast.antt =====
-- The swap of two blocks.
use nvmfs.Prelude.{
  ℕ, ◌+◌, ◌^◌, ◌≤◌, ◌<◌, ◌≡◌, ◌≢◌, ◌⊎◌, refl, sym, ap, ◌∙◌, inl, inr, some, of_some, List, ◌++◌,
  get_elem?, set, get_elem?-set_ne, get_elem?-lt, length-set, eq_cases, arith, subst,
}
use nvmfs.MapTable.{BlockEntry, MapTable, index_of_block, block_to_nvm_addr, block_swap_fast}
use nvmfs.MapTable.Move.{IsMove, phys-made}
use nvmfs.MapTable.Swap.{exchange, block_swap_fast-Swapped}
use nvmfs.MapTable.View.{Kept, block_swap_fast-keeps}
use nvmfs.BlockManager.{
  BlockInfo, BlockManager, unmap_get, unmap_set, block_copy, fast_log, fast_moved,
}
use nvmfs.BlockManager.Consistent.{
  UnmapsTo, Inverse, IsConsistent, UnmapsTo-set_self, UnmapsTo-set_ne, length-of,
}

module _ {ℓ} {Memory : Type ℓ} (read : Memory → ℕ → ℕ) (memcpy : Memory → ℕ → ℕ → ℕ → Memory)
    (read-memcpy : (m : Memory) (dst src n i : ℕ)
      → i < n
      → (dst + n ≤ src) ⊎ (src + n ≤ dst)
      → read (memcpy m dst src n) (dst + i) ≡ read m (src + i))
    (read-memcpy_outside : (m : Memory) (dst src n addr : ℕ)
      → (addr < dst) ⊎ (dst + n ≤ addr)
      → read (memcpy m dst src n) addr ≡ read m addr)
    (m : BlockManager Memory) (c : IsConsistent m) where
  abbrev t : MapTable
  t = m.map_table

  -- What is read at an address of the old table is read there of the new one.
  abbrev pub Reads : BlockManager Memory → ℕ → Type 0
  Reads m' addr =
      Kept read memcpy read-memcpy read-memcpy_outside t m.memory m'.map_table m'.memory addr

  small_block : (l : ℕ) {e : BlockEntry} → get_elem? t.entries l ≡ some e → l < t.block_num
  small_block l g = omega (arith, get_elem?-lt t.entries l g, c.table.whole)

  module _ (a b : ℕ) {ea eb : BlockEntry} (ga : get_elem? t.entries a ≡ some ea)
      (gb : get_elem? t.entries b ≡ some eb) (ab : a ≢ b) where
    ua : UnmapsTo m.unmap_table ea.phys_block_index a
    ua = c.inverse a ea ga

    ub : UnmapsTo m.unmap_table eb.phys_block_index b
    ub = c.inverse b eb gb

    apart : ea.phys_block_index ≢ eb.phys_block_index
    apart e = ab (c.table.unique a b ga gb e)

    abbrev fast_unmap : List BlockInfo
    fast_unmap = set (set m.unmap_table ea.phys_block_index ub.info) eb.phys_block_index ua.info

    fast-Inverse : (t' : MapTable) → IsMove (exchange a b) t t' → Inverse t' fast_unmap
    fast-Inverse t' move l e' g =
        let mv = move.moved l g in
        let u1 = set m.unmap_table ea.phys_block_index ub.info in
        let longer = length-set m.unmap_table ea.phys_block_index ub.info in
        subst (λ k. UnmapsTo fast_unmap k l) (sym (phys-made mv))
          (elim (eq_cases l a) [
            | inl la ↦
                let source : exchange a b l ≡ b = ground arith in
                let other : eb ≡ mv.other =
                  of_some (sym gb ∙ ap (get_elem? t.entries) (sym source) ∙ mv.other_at) in
                subst (λ e. UnmapsTo fast_unmap e.phys_block_index l) other
                  (UnmapsTo-set_self u1 eb.phys_block_index l ua.info (omega (arith, length-of ub))
                    (ua.same ∙ sym la))
            | inr na ↦ elim (eq_cases l b) [
              | inl lb ↦
                  let source : exchange a b l ≡ a = ground arith in
                  let other : ea ≡ mv.other =
                    of_some (sym ga ∙ ap (get_elem? t.entries) (sym source) ∙ mv.other_at) in
                  subst (λ e. UnmapsTo fast_unmap e.phys_block_index l) other
                    (UnmapsTo-set_ne u1 eb.phys_block_index ea.phys_block_index l ua.info
                      (λ e. apart (sym e))
                      (UnmapsTo-set_self m.unmap_table ea.phys_block_index l ub.info (length-of ua)
                        (ub.same ∙ sym lb)))
              | inr nb ↦
                  let source : exchange a b l ≡ l = ground arith in
                  let at = ap (get_elem? t.entries) (sym source) ∙ mv.other_at in
                  UnmapsTo-set_ne u1 eb.phys_block_index mv.other.phys_block_index l ua.info
                    (λ e. nb (sym (c.table.unique b l gb at e)))
                    (UnmapsTo-set_ne m.unmap_table ea.phys_block_index mv.other.phys_block_index l
                      ub.info (λ e. na (sym (c.table.unique a l ga at e)))
                      (c.inverse l mv.other at))
            ]
          ])

    fast_moved-lem :
        (t' : MapTable)
        → block_swap_fast t a b ≡ some t'
        → fast_moved memcpy m ea.phys_block_index eb.phys_block_index
          ≡ some (record m {
            memory = block_copy memcpy m eb.phys_block_index ea.phys_block_index m.memory;
            unmap_table = fast_unmap;
            map_table = t';
            log_calls =
                m.log_calls ++ fast_log ea.phys_block_index ua.info eb.phys_block_index ub.info;
          })
    unfolding fast_moved unmap_get unmap_set
    fast_moved-lem t' r =
        let gb' = get_elem?-set_ne m.unmap_table ub.info apart ∙ ub.at in
        rw (ua.at, ub.at, gb', ua.same, ub.same, r) refl

    -- A swap of two blocks keeps what is stored, where the locks are held: with at most 2048 blocks, a
    -- sound map table and an unmap table that is its inverse, the copy, the log and the updates of the
    -- two tables in BlockSwapFast always succeed; the map table stays sound and the unmap table its
    -- inverse, and every logical address that is not of the second block reads as before.
    pub fast_moved-keeps :
        (m' : BlockManager Memory) × (fast_moved memcpy m ea.phys_block_index eb.phys_block_index
          ≡ some m')
        × IsConsistent m'
        × ((addr : ℕ) → index_of_block addr ≢ b → Reads m' addr)
    unfolding block_copy
    fast_moved-keeps =
        let s = block_swap_fast-Swapped t a b c.table (small_block a ga) (small_block b gb) ab in
        let (t', r, valid, kept) =
          block_swap_fast-keeps read memcpy read-memcpy read-memcpy_outside t m.memory a b c.table
            c.few ga gb ab in
        let move = subst (IsMove (exchange a b) t) (of_some (sym s.result ∙ r)) s.move in
        (
          _,
          fast_moved-lem t' r,
          record {
            table = valid;
            few = omega (arith, c.few, move.same_num);
            same_start = c.same_start ∙ sym move.same_start;
            inverse = fast-Inverse t' move;
          },
          λ addr n.
              subst
                (λ d.
                  Kept read memcpy read-memcpy read-memcpy_outside t m.memory t'
                    (memcpy m.memory (block_to_nvm_addr eb.phys_block_index d)
                      (block_to_nvm_addr ea.phys_block_index d) (2 ^ 21))
                    addr)
                (sym c.same_start) (kept addr n),
        )
