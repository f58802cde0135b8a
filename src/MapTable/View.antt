-- ===== src/MapTable/View.antt =====
-- A block swap with its copies of the data, as BlockManager.c composes them: what a reader of
-- logical addresses finds.
use nvmfs.Prelude.{
  ℕ, ◌+◌, ◌*◌, ◌^◌, ◌≤◌, ◌<◌, ◌≡◌, ◌≢◌, ◌⊎◌, sym, ap, ◌∙◌, inl, inr, some, of_some, get_elem?,
  eq_cases, order_cases, get_elem?-lt, arith,
}
use nvmfs.MapTable.{
  BlockEntry, MapTable, query, index_of_block, block_to_nvm_addr, block_swap_fast, block_swap_slow,
}
use nvmfs.MapTable.Valid.{IsValid}
use nvmfs.MapTable.Query.{place}
use nvmfs.MapTable.Move.{Carried, Carried-own, Carried-other, IsMove-carries}
use nvmfs.MapTable.Swap.{exchange, rotate, block_swap_fast-Swapped, block_swap_slow-Swapped}

pub block_to_nvm_addr_lem :
    (t : MapTable) (k : ℕ)
    → IsValid t
    → t.block_num ≤ 2048
    → k < t.block_num
    → block_to_nvm_addr k t.data_start ≡ t.data_start + k * 2 ^ 21
unfolding block_to_nvm_addr
block_to_nvm_addr_lem t k v h l = let room = v.room in omega arith

-- NVMemcpy ends in memcpy, a library function: `memcpy m dst src n` is the memory after it, and it
-- copies ranges that do not overlap.
module _ {ℓ} {Memory : Type ℓ} (read : Memory → ℕ → ℕ) (memcpy : Memory → ℕ → ℕ → ℕ → Memory)
    (read-memcpy : (m : Memory) (dst src n i : ℕ)
      → i < n
      → (dst + n ≤ src) ⊎ (src + n ≤ dst)
      → read (memcpy m dst src n) (dst + i) ≡ read m (src + i))
    (read-memcpy_outside : (m : Memory) (dst src n addr : ℕ)
      → (addr < dst) ⊎ (dst + n ≤ addr)
      → read (memcpy m dst src n) addr ≡ read m addr) where
  -- The copy of block `src` over block `dst`.
  abbrev pub copied : MapTable → Memory → ℕ → ℕ → Memory
  copied t m dst src =
      memcpy m (block_to_nvm_addr dst t.data_start) (block_to_nvm_addr src t.data_start) (2 ^ 21)

  read-copied :
      (t : MapTable) (m : Memory) (dst src : BlockEntry) (off : ℕ)
      → IsValid t
      → t.block_num ≤ 2048
      → dst.phys_block_index < t.block_num
      → src.phys_block_index < t.block_num
      → dst.phys_block_index ≢ src.phys_block_index
      → off < 2 ^ 21
      → read (copied t m dst.phys_block_index src.phys_block_index) (place t dst off)
        ≡ read m (place t src off)
  read-copied t m dst src off v h hd hs n l =
      rw
        (
          block_to_nvm_addr_lem t dst.phys_block_index v h hd,
          block_to_nvm_addr_lem t src.phys_block_index v h hs,
        )
        (read-memcpy m (t.data_start + dst.phys_block_index * 2 ^ 21)
          (t.data_start + src.phys_block_index * 2 ^ 21) (2 ^ 21) off l
          (elim (order_cases dst.phys_block_index src.phys_block_index) [
            | inl k ↦ inl (omega arith)
            | inr (inl k) ↦ inr (omega arith)
            | inr (inr k) ↦ absurd (n k)
          ]))

  read-copied_other :
      (t : MapTable) (m : Memory) (dst src e : BlockEntry) (off : ℕ)
      → IsValid t
      → t.block_num ≤ 2048
      → dst.phys_block_index < t.block_num
      → e.phys_block_index ≢ dst.phys_block_index
      → off < 2 ^ 21
      → read (copied t m dst.phys_block_index src.phys_block_index) (place t e off)
        ≡ read m (place t e off)
  read-copied_other t m dst src e off v h hd n l =
      rw (block_to_nvm_addr_lem t dst.phys_block_index v h hd) (
        read-memcpy_outside m (t.data_start + dst.phys_block_index * 2 ^ 21)
          (block_to_nvm_addr src.phys_block_index t.data_start) (2 ^ 21) (place t e off)
          (elim (order_cases e.phys_block_index dst.phys_block_index) [
            | inl k ↦ inl (omega arith)
            | inr (inl k) ↦ inr (omega arith)
            | inr (inr k) ↦ absurd (n k)
          ]))

  -- What was read at `addr` of the table before is read of the one after.
  abbrev pub Kept : MapTable → Memory → MapTable → Memory → ℕ → Type 0
  Kept t m t' m' addr =
      (p : ℕ)
      → query t addr ≡ some p
      → (p' : ℕ) × (query t' addr ≡ some p') × (read m' p' ≡ read m p)

  -- In a valid table of at most 2048 blocks, MapTableBlockSwapFast of two different logical blocks,
  -- after the copy of the first one's physical block over the second one's, succeeds, leaves the
  -- table valid, and every logical address that is not of the second block reads as before.
  pub block_swap_fast-keeps :
      (t : MapTable) (m : Memory) (a b : ℕ) {ea eb : BlockEntry}
      → IsValid t
      → t.block_num ≤ 2048
      → get_elem? t.entries a ≡ some ea
      → get_elem? t.entries b ≡ some eb
      → a ≢ b
      → (t' : MapTable) × (block_swap_fast t a b ≡ some t')
        × IsValid t'
        × ((addr : ℕ)
            → index_of_block addr ≢ b
            → Kept t m t' (copied t m eb.phys_block_index ea.phys_block_index) addr)
  block_swap_fast-keeps t m a b {ea = ea} {eb = eb} v h ga gb n =
      let whole = v.whole in
      let s =
        block_swap_fast-Swapped t a b v (omega (arith, get_elem?-lt t.entries a ga))
          (omega (arith, get_elem?-lt t.entries b gb)) n in
      let distinct : eb.phys_block_index ≢ ea.phys_block_index =
        λ e. n (sym (v.unique b a gb ga e)) in
      (
        s.table,
        s.result,
        s.valid,
        λ addr nb p q.
            let c = IsMove-carries (exchange a b) t s.table addr s.move v s.valid q in
            let p_at : place t c.own c.off ≡ p = of_some (sym c.before ∙ q) in
            (
              place t c.other c.off,
              c.after,
              (elim (eq_cases (index_of_block addr) a) [
                | inl ia ↦
                    rw (Carried-other c b (ground arith) gb, Carried-own c a ia ga)
                      (read-copied t m eb ea c.off v h (v.small b gb) (v.small a ga) distinct
                        c.bound)
                | inr na ↦ rw (Carried-other c (index_of_block addr) (ground arith) c.own_at) (
                    read-copied_other t m eb ea c.own c.off v h (v.small b gb)
                      (λ e. nb (v.unique (index_of_block addr) b c.own_at gb e)) c.bound)
              ])
                  ∙ ap (read m) p_at,
            ),
      )

  -- The two copies put what the rotation gives an entry where its data was.
  read-rotate :
      (t t' : MapTable) (m : Memory) (a b c addr : ℕ) {ea eb ec : BlockEntry}
      → IsValid t
      → t.block_num ≤ 2048
      → get_elem? t.entries a ≡ some ea
      → get_elem? t.entries b ≡ some eb
      → get_elem? t.entries c ≡ some ec
      → a ≢ b
      → b ≢ c
      → index_of_block addr ≢ c
      → (r : Carried (rotate a b c) t t' addr)
      → read
          (copied t
            (copied t m ec.phys_block_index eb.phys_block_index)
            eb.phys_block_index
            ea.phys_block_index)
          (place t r.other r.off)
        ≡ read m (place t r.own r.off)
  read-rotate t t' m a b c addr {ea = ea} {eb = eb} {ec = ec} v h ga gb gc n bc nc r =
      let m1 = copied t m ec.phys_block_index eb.phys_block_index in
      let i = index_of_block addr in
      let first : read m1 (place t r.own r.off) ≡ read m (place t r.own r.off) =
        read-copied_other t m ec eb r.own r.off v h (v.small c gc)
          (λ e. nc (v.unique i c r.own_at gc e)) r.bound in
      elim (eq_cases i a) [
        | inl ia ↦
            let own = Carried-own r a ia ga in
            rw (Carried-other r b (ground arith) gb) (
              read-copied t m1 eb ea r.off v h (v.small b gb) (v.small a ga)
                (λ e. n (sym (v.unique b a gb ga e))) r.bound
              ∙ ap (λ z. read m1 (place t z r.off)) (sym own)
              ∙ first)
        | inr na ↦ elim (eq_cases i b) [
          | inl ib ↦
              let cb : ec.phys_block_index ≢ eb.phys_block_index =
                λ e. bc (sym (v.unique c b gc gb e)) in
              rw (Carried-other r c (ground arith) gc, Carried-own r b ib gb)
                (read-copied_other t m1 eb ea ec r.off v h (v.small b gb) cb r.bound
                  ∙ read-copied t m ec eb r.off v h (v.small c gc) (v.small b gb) cb r.bound)
          | inr nb ↦ rw (Carried-other r i (ground arith) r.own_at) (
              read-copied_other t m1 eb ea r.own r.off v h (v.small b gb)
                (λ e. nb (v.unique i b r.own_at gb e)) r.bound
              ∙ first)
        ]
      ]

  -- In a valid table of at most 2048 blocks, MapTableBlockSwapSlow of three different logical blocks,
  -- after the copies of the second one's physical block over the third one's and of the first one's
  -- over the second one's, succeeds, leaves the table valid, and every logical address that is not
  -- of the third block reads as before.
  pub block_swap_slow-keeps :
      (t : MapTable) (m : Memory) (a b c : ℕ) {ea eb ec : BlockEntry}
      → IsValid t
      → t.block_num ≤ 2048
      → get_elem? t.entries a ≡ some ea
      → get_elem? t.entries b ≡ some eb
      → get_elem? t.entries c ≡ some ec
      → a ≢ b
      → b ≢ c
      → a ≢ c
      → (t' : MapTable) × (block_swap_slow t a b c ≡ some t')
        × IsValid t'
        × ((addr : ℕ)
            → index_of_block addr ≢ c
            → Kept t m t'
                (copied t
                  (copied t m ec.phys_block_index eb.phys_block_index)
                  eb.phys_block_index
                  ea.phys_block_index)
                addr)
  block_swap_slow-keeps t m a b c {ea = ea} {eb = eb} {ec = ec} v h ga gb gc n bc ac =
      let whole = v.whole in
      let s =
        block_swap_slow-Swapped t a b c v (omega (arith, get_elem?-lt t.entries a ga))
          (omega (arith, get_elem?-lt t.entries b gb)) (omega (arith, get_elem?-lt t.entries c gc))
          n bc ac in
      (
        s.table,
        s.result,
        s.valid,
        λ addr nc p q.
            let r = IsMove-carries (rotate a b c) t s.table addr s.move v s.valid q in
            let p_at : place t r.own r.off ≡ p = of_some (sym r.before ∙ q) in
            (
              place t r.other r.off,
              r.after,
              read-rotate t s.table m a b c addr v h ga gb gc n bc nc r ∙ ap (read m) p_at,
            ),
      )
