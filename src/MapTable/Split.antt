-- ===== src/MapTable/Split.antt =====
-- MapTableSplit gives a block a page table that leaves every page where it is.
use nvmfs.Prelude.{
  ℕ, zero, suc, ◌+◌, ◌*◌, ◌%◌, ◌^◌, ◌<◌, ◌≤◌, ◌≡◌, refl, sym, ap, subst, ◌∙◌, inl, inr, true, false,
  some, of_some, List, length, set, get_elem?, get_elem?-lt, get_elem?-set_self, get_elem?-set_ne,
  get_elem?-set-cases, eq_cases, length-set, arith,
}
use nvmfs.MapTable.{
  PageEntry, BlockEntry, MapTable, split_entries, split, query, offset_in, index_of_block,
  relative_index_of_page, block_offset_of_addr, pages_per_block, with_entry,
}
use nvmfs.MapTable.Valid.{IsPageTable, IsEntry, IsValid}
use nvmfs.MapTable.Query.{offset_in-whole, offset_in-paged}

abbrev fresh : ℕ → PageEntry
fresh k = record { busy = false; lock = 0; relative_index = k }

length-split_entries : (n i : ℕ) → length (split_entries n i) ≡ n
length-split_entries zero i = refl
length-split_entries (suc n) i = ap suc (length-split_entries n (i + 1))

split_entries-at :
    (n i k : ℕ) → k < n → i + n ≤ 2 ^ 9 → get_elem? (split_entries n i) k ≡ some (fresh (i + k))
split_entries-at zero i k h b = absurd (omega arith)
split_entries-at (suc n) i zero h b = let e : i % 2 ^ 9 ≡ i + 0 = omega arith in rw e
split_entries-at (suc n) i (suc k) h b =
    let e : i + 1 + k ≡ i + suc k = omega arith in
    split_entries-at n (i + 1) k (omega arith) (omega arith) ∙ ap (λ z. some (fresh z)) e

abbrev fresh_pages : List PageEntry
fresh_pages = split_entries pages_per_block 0

fresh_pages-at : (k : ℕ) → k < 512 → get_elem? fresh_pages k ≡ some (fresh k)
fresh_pages-at k h =
    let z : 0 + k ≡ k = omega arith in
    split_entries-at pages_per_block 0 k h (omega arith) ∙ ap (λ x. some (fresh x)) z

fresh_pages-index :
    (k : ℕ) {pe : PageEntry}
    → get_elem? fresh_pages k ≡ some pe
    → (pe.relative_index ≡ k) × (k < 512)
fresh_pages-index k g =
    let l = get_elem?-lt fresh_pages k g in
    let h : k < 512 = omega (arith, l, length-split_entries pages_per_block 0) in
    (ap (λ z. z.relative_index) (of_some (sym g ∙ fresh_pages-at k h)), h)

fresh_pages-IsPageTable : IsPageTable fresh_pages
fresh_pages-IsPageTable = record {
  whole = length-split_entries pages_per_block 0;
  small = λ i g. let (e, h) = fresh_pages-index i g in omega arith;
  unique = λ i j g k h.
      let (e, _) = fresh_pages-index i g in let (f, _) = fresh_pages-index j k in omega arith;
}

abbrev split_entry : BlockEntry → BlockEntry
split_entry e = record e { fine_grain = true; ptr = some fresh_pages }

split_entry-IsEntry : (e : BlockEntry) → IsEntry (split_entry e)
split_entry-IsEntry e = record {
  has_pages = λ h. (fresh_pages, refl);
  paged = λ h. subst IsPageTable (of_some h) fresh_pages-IsPageTable;
}

offset_in-split_entry :
    (e : BlockEntry) (addr : ℕ)
    → e.fine_grain ≡ false
    → offset_in (split_entry e) addr ≡ offset_in e addr
offset_in-split_entry e addr f =
    let k = relative_index_of_page addr in
    let whole : k * 2 ^ 12 + addr % 2 ^ 12 ≡ block_offset_of_addr addr = omega arith in
    offset_in-paged (split_entry e) addr refl refl (fresh_pages-at k (omega arith)) (omega arith)
    ∙ ap some whole
    ∙ sym (offset_in-whole e addr f)

query-same :
    (t : MapTable) (i addr : ℕ) (e' : BlockEntry) {e : BlockEntry}
    → get_elem? t.entries i ≡ some e
    → e'.phys_block_index ≡ e.phys_block_index
    → ((x : ℕ) → offset_in e' x ≡ offset_in e x)
    → query (record t { entries = set t.entries i e' }) addr ≡ query t addr
unfolding query
query-same t i addr e' {e = e} g p o = elim (eq_cases (index_of_block addr) i) [
  | inl h ↦
      let own : get_elem? t.entries (index_of_block addr) ≡ some e =
        ap (get_elem? t.entries) h ∙ g in
      let new : get_elem? (set t.entries i e') (index_of_block addr) ≡ some e' =
        ap (get_elem? (set t.entries i e')) h
        ∙ get_elem?-set_self t.entries i e' (get_elem?-lt t.entries i g) in
      rw (new, own, o addr, p)
  | inr h ↦ rw (get_elem?-set_ne t.entries {i = i} {j = index_of_block addr} e' (λ k. h (sym k)))
]

-- An entry after the write, and the one that stood there before.
set-before :
    (t : MapTable) (i : ℕ) (e' : BlockEntry) {e : BlockEntry}
    → get_elem? t.entries i ≡ some e
    → e'.phys_block_index ≡ e.phys_block_index
    → (j : ℕ) {f : BlockEntry} → get_elem? (set t.entries i e') j ≡ some f
    → (f0 : BlockEntry) × (get_elem? t.entries j ≡ some f0)
      × (f.phys_block_index ≡ f0.phys_block_index)
set-before t i e' {e = e} g p j {f = f} h = elim (get_elem?-set-cases t.entries i j h) [
  | inl (q, r) ↦ (e, ap (get_elem? t.entries) q ∙ g, ap (λ z. z.phys_block_index) r ∙ p)
  | inr (_, q) ↦ (f, q, refl)
]

pub set-IsValid :
    (t : MapTable) (i : ℕ) (e' : BlockEntry) {e : BlockEntry}
    → IsValid t
    → get_elem? t.entries i ≡ some e
    → e'.phys_block_index ≡ e.phys_block_index
    → IsEntry e'
    → IsValid (record t { entries = set t.entries i e' })
set-IsValid t i e' v g p ok = record {
  whole = length-set t.entries i e' ∙ v.whole;
  room = v.room;
  few = v.few;
  entry = λ j h. elim (get_elem?-set-cases t.entries i j h) [
    | inl (_, q) ↦ subst IsEntry (sym q) ok
    | inr (_, q) ↦ v.entry j q
  ];
  small = λ j h. let (f, q, r) = set-before t i e' g p j h in omega (arith, v.small j q);
  unique = λ j k h l m.
      let (f, q, r) = set-before t i e' g p j h in
      let (f', q', r') = set-before t i e' g p k l in v.unique j k q q' (sym r ∙ m ∙ r');
}

split-eq :
    (t : MapTable) (addr : ℕ) {e : BlockEntry}
    → get_elem? t.entries (index_of_block addr) ≡ some e
    → split t addr
      ≡ some (record t { entries = set t.entries (index_of_block addr) (split_entry e) })
unfolding split with_entry
split-eq t addr g = rw g

-- On a valid table, MapTableSplit of a block that is not split succeeds, leaves the table valid, and
-- MapTableQuery answers at every address what it answered before.
pub split-keeps :
    (t : MapTable) (addr : ℕ) {e : BlockEntry}
    → IsValid t
    → get_elem? t.entries (index_of_block addr) ≡ some e
    → e.fine_grain ≡ false
    → (t' : MapTable) × (split t addr ≡ some t') × IsValid t' × ((x : ℕ) → query t' x ≡ query t x)
split-keeps t addr {e = e} v g f = (
  record t { entries = set t.entries (index_of_block addr) (split_entry e) },
  split-eq t addr g,
  set-IsValid t (index_of_block addr) (split_entry e) v g refl (split_entry-IsEntry e),
  λ x.
      query-same t (index_of_block addr) x (split_entry e) g refl
        (λ y. offset_in-split_entry e y f),
)
