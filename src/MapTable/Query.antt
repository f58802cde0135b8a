-- ===== src/MapTable/Query.antt =====
-- MapTableQuery: where a sound table puts a logical address.
use nvmfs.Prelude.{
  ℕ, ◌+◌, ◌*◌, ◌%◌, ◌^◌, ◌≤◌, ◌<◌, ◌≡◌, sym, ap, ◌∙◌, inl, inr, Bool-cases, Option-cases, true,
  false, none, some, of_some, not_some, List, get_elem?, arith, get_elem?-some, add64,
}
use nvmfs.MapTable.{
  PageEntry, BlockEntry, MapTable, offset_in, query, index_of_block, relative_index_of_page,
  page_offset_of_addr, block_offset_of_addr,
}
use nvmfs.MapTable.Valid.{IsEntry, IsValid}

-- The page of the block, where the block is split.
pub offset_in-paged :
    (e : BlockEntry) (addr : ℕ) {pages : List PageEntry} {pe : PageEntry}
    → e.fine_grain ≡ true
    → e.ptr ≡ some pages
    → get_elem? pages (relative_index_of_page addr) ≡ some pe
    → pe.relative_index < 512
    → offset_in e addr ≡ some (pe.relative_index * 2 ^ 12 + page_offset_of_addr addr)
unfolding offset_in
offset_in-paged e addr {pe = pe} f p g s =
    let small : add64 (pe.relative_index * 2 ^ 12) (page_offset_of_addr addr)
        ≡ pe.relative_index * 2 ^ 12 + page_offset_of_addr addr =
      omega arith in
    rw (f, p, g, small)

pub offset_in-whole :
    (e : BlockEntry) (addr : ℕ)
    → e.fine_grain ≡ false
    → offset_in e addr ≡ some (block_offset_of_addr addr)
unfolding offset_in
offset_in-whole e addr f = rw f

pub offset_in-some :
    (e : BlockEntry) (addr : ℕ)
    → IsEntry e
    → (off : ℕ) × (offset_in e addr ≡ some off) × (off < 2 ^ 21)
offset_in-some e addr v = elim (Bool-cases e.fine_grain) [
  | inr f ↦ (block_offset_of_addr addr, offset_in-whole e addr f, omega arith)
  | inl f ↦
      let (pages, p) = v.has_pages f in
      let t = v.paged p in
      let whole = t.whole in
      let (pe, g) = get_elem?-some pages (relative_index_of_page addr) (omega arith) in
      let small = t.small (relative_index_of_page addr) g in
      (
        pe.relative_index * 2 ^ 12 + page_offset_of_addr addr,
        offset_in-paged e addr f p g small,
        omega arith,
      )
]

offset_in_injective-whole :
    (e : BlockEntry) (a b : ℕ)
    → e.fine_grain ≡ false
    → offset_in e a ≡ offset_in e b
    → block_offset_of_addr a ≡ block_offset_of_addr b
offset_in_injective-whole e a b f h =
    of_some (sym (offset_in-whole e a f) ∙ h ∙ offset_in-whole e b f)

-- Different addresses of one block stay different.
pub offset_in_injective :
    (e : BlockEntry) (a b : ℕ)
    → IsEntry e
    → offset_in e a ≡ offset_in e b
    → block_offset_of_addr a ≡ block_offset_of_addr b
offset_in_injective e a b v h = elim (Bool-cases e.fine_grain) [
  | inr f ↦ offset_in_injective-whole e a b f h
  | inl f ↦
      let (pages, p) = v.has_pages f in
      let t = v.paged p in
      let whole = t.whole in
      let (pe, g) = get_elem?-some pages (relative_index_of_page a) (omega arith) in
      let (pf, k) = get_elem?-some pages (relative_index_of_page b) (omega arith) in
      let same : pe.relative_index * 2 ^ 12 + page_offset_of_addr a
          ≡ pf.relative_index * 2 ^ 12 + page_offset_of_addr b =
        of_some (
          sym (offset_in-paged e a f p g (t.small (relative_index_of_page a) g))
          ∙ h
          ∙ offset_in-paged e b f p k (t.small (relative_index_of_page b) k)) in
      let pages_same : relative_index_of_page a ≡ relative_index_of_page b =
        t.unique (relative_index_of_page a) (relative_index_of_page b) g k (omega arith) in
      omega arith
]

-- The address of offset `off` in the block of entry `e`.
abbrev pub place : MapTable → BlockEntry → ℕ → ℕ
place t e off = t.data_start + e.phys_block_index * 2 ^ 21 + off

pub query-place :
    (t : MapTable) (addr : ℕ) {e : BlockEntry} {off : ℕ}
    → IsValid t
    → get_elem? t.entries (index_of_block addr) ≡ some e
    → offset_in e addr ≡ some off
    → off < 2 ^ 21
    → query t addr ≡ some (place t e off)
unfolding query
query-place t addr {e = e} {off = off} v g o l =
    let room = v.room in
    let few = v.few in
    let small = v.small (index_of_block addr) g in
    let shift : add64 (add64 t.data_start (e.phys_block_index * 2 ^ 21 % 2 ^ 39)) off
        ≡ place t e off =
      omega arith in
    rw (g, o, shift)

query-none :
    (t : MapTable) (addr : ℕ)
    → get_elem? t.entries (index_of_block addr) ≡ none
    → query t addr ≡ none
unfolding query
query-none t addr g = rw g

-- What a query that answers has read.
pub query-entry :
    (t : MapTable) (addr : ℕ) {p : ℕ}
    → IsValid t
    → query t addr ≡ some p
    → (e : BlockEntry) × (off : ℕ) × (get_elem? t.entries (index_of_block addr) ≡ some e)
      × (offset_in e addr ≡ some off)
      × (off < 2 ^ 21)
      × (p ≡ place t e off)
query-entry t addr v q = elim (Option-cases (get_elem? t.entries (index_of_block addr))) [
  | inl g ↦ absurd (not_some (query-none t addr g) q)
  | inr (e, g) ↦
      let (off, o, l) = offset_in-some e addr (v.entry (index_of_block addr) g) in
      (e, off, g, o, l, of_some (sym q ∙ query-place t addr v g o l))
]

-- Each address below the table's end has a place among the table's physical blocks.
pub query_total :
    (t : MapTable) (addr : ℕ)
    → IsValid t
    → addr < t.block_num * 2 ^ 21
    → (p : ℕ) × (query t addr ≡ some p)
      × (t.data_start ≤ p)
      × (p < t.data_start + t.block_num * 2 ^ 21)
query_total t addr v h =
    let whole = v.whole in
    let (e, g) = get_elem?-some t.entries (index_of_block addr) (omega arith) in
    let (off, o, l) = offset_in-some e addr (v.entry (index_of_block addr) g) in
    let small = v.small (index_of_block addr) g in
    (place t e off, query-place t addr v g o l, omega arith, omega arith)

-- In a valid table two logical addresses that MapTableQuery sends to one physical address are the
-- same address: no data is shared, whatever blocks and pages have been moved or split.
pub query_injective :
    (t : MapTable) (a b p : ℕ) → IsValid t → query t a ≡ some p → query t b ≡ some p → a ≡ b
query_injective t a b p v qa qb =
    let (e, m, g, o, l, x) = query-entry t a v qa in
    let (f, n, k, u, s, y) = query-entry t b v qb in
    let blocks : index_of_block a ≡ index_of_block b =
      v.unique (index_of_block a) (index_of_block b) g k (omega arith) in
    let entries : e ≡ f = of_some (sym g ∙ ap (get_elem? t.entries) blocks ∙ k) in
    let offs : m ≡ n = omega (arith, x, y, ap (λ z. z.phys_block_index) entries) in
    let ins : offset_in e a ≡ offset_in e b =
      o ∙ ap some offs ∙ sym u ∙ ap (λ z. offset_in z b) (sym entries) in
    let rest = offset_in_injective e a b (v.entry (index_of_block a) g) ins in omega arith
