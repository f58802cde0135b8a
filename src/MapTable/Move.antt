-- ===== src/MapTable/Move.antt =====
-- Tables whose blocks have moved: every entry keeps its pages and takes the physical block that
-- another entry had.
use nvmfs.Prelude.{
  ℕ, ◌^◌, ◌<◌, ◌≡◌, refl, sym, ap, subst, ◌∙◌, some, of_some, length, get_elem?, set, get_elem?-lt,
  get_elem?-some, arith,
}
use nvmfs.MapTable.{BlockEntry, MapTable, offset_in, query, index_of_block, with_entry, set_phys}
use nvmfs.MapTable.Valid.{IsEntry, IsValid}
use nvmfs.MapTable.Query.{place, query-place, query-entry}

-- Entry `i` of the moved table, by the entries that gave it its pages and its block.
pub record Moved (t : MapTable) (i k : ℕ) (e' : BlockEntry) : Type 0 where
  pub own : BlockEntry
  pub other : BlockEntry
  pub own_at : get_elem? t.entries i ≡ some own
  pub other_at : get_elem? t.entries k ≡ some other
  pub made : e' ≡ record own { phys_block_index = other.phys_block_index }

pub record IsMove (source : ℕ → ℕ) (t t' : MapTable) : Type 0 where
  pub same_length : length t'.entries ≡ length t.entries
  pub same_num : t'.block_num ≡ t.block_num
  pub same_start : t'.data_start ≡ t.data_start
  pub moved : (i : ℕ) {e' : BlockEntry} → get_elem? t'.entries i ≡ some e' → Moved t i (source i) e'

IsEntry-relabel : (e : BlockEntry) (k : ℕ) → IsEntry e → IsEntry (record e { phys_block_index = k })
IsEntry-relabel e k v = record { has_pages = v.has_pages; paged = v.paged }

pub phys-made :
    {t : MapTable} {i k : ℕ} {e' : BlockEntry} (m : Moved t i k e')
    → e'.phys_block_index ≡ m.other.phys_block_index
phys-made m = ap (λ z. z.phys_block_index) m.made

pub IsMove-IsValid :
    (source : ℕ → ℕ) (t t' : MapTable)
    → IsMove source t t'
    → ((i j : ℕ) → source i ≡ source j → i ≡ j)
    → IsValid t
    → IsValid t'
IsMove-IsValid source t t' m inj v = record {
  whole = m.same_length ∙ v.whole ∙ sym m.same_num;
  room = omega (arith, v.room, m.same_num, m.same_start);
  few = omega (arith, v.few, m.same_num);
  entry = λ i g.
      let o = m.moved i g in
      subst IsEntry (sym o.made)
        (IsEntry-relabel o.own o.other.phys_block_index (v.entry i o.own_at));
  small = λ i g.
      let o = m.moved i g in omega (arith, phys-made o, v.small (source i) o.other_at, m.same_num);
  unique = λ i j g k h.
      let o = m.moved i g in
      let p = m.moved j k in
      inj i j (
        v.unique (source i) (source j) o.other_at p.other_at (sym (phys-made o) ∙ h ∙ phys-made p));
}

offset_in-relabel :
    (e : BlockEntry) (k addr : ℕ)
    → offset_in (record e { phys_block_index = k }) addr ≡ offset_in e addr
unfolding offset_in
offset_in-relabel e k addr = refl

-- Where an address is before and after the move: at the same offset of the two blocks.
pub record Carried (source : ℕ → ℕ) (t t' : MapTable) (addr : ℕ) : Type 0 where
  pub own : BlockEntry
  pub other : BlockEntry
  pub off : ℕ
  pub own_at : get_elem? t.entries (index_of_block addr) ≡ some own
  pub other_at : get_elem? t.entries (source (index_of_block addr)) ≡ some other
  pub bound : off < 2 ^ 21
  pub before : query t addr ≡ some (place t own off)
  pub after : query t' addr ≡ some (place t other off)

pub IsMove-carries :
    (source : ℕ → ℕ) (t t' : MapTable) (addr : ℕ) {p : ℕ}
    → IsMove source t t'
    → IsValid t
    → IsValid t'
    → query t addr ≡ some p
    → Carried source t t' addr
IsMove-carries source t t' addr m v v' q =
    let (e, off, g, o, l, x) = query-entry t addr v q in
    let (e', k) =
      get_elem?-some t'.entries (index_of_block addr)
        (omega (arith, m.same_length, get_elem?-lt t.entries (index_of_block addr) g)) in
    let r = m.moved (index_of_block addr) k in
    let own : r.own ≡ e = of_some (sym r.own_at ∙ g) in
    let o' : offset_in e' addr ≡ some off =
      ap (λ z. offset_in z addr) r.made
      ∙ offset_in-relabel r.own r.other.phys_block_index addr
      ∙ ap (λ z. offset_in z addr) own
      ∙ o in
    let there : place t' e' off ≡ place t r.other off = omega (arith, m.same_start, phys-made r) in
    record {
      own = e;
      other = r.other;
      off = off;
      own_at = g;
      other_at = r.other_at;
      bound = l;
      before = query-place t addr v g o l;
      after = query-place t' addr v' k o' l ∙ ap some there;
    }

pub set_phys-eq :
    (t : MapTable) (a k : ℕ) {e : BlockEntry}
    → get_elem? t.entries a ≡ some e
    → set_phys t a k
      ≡ some (record t { entries = set t.entries a (record e { phys_block_index = k }) })
unfolding set_phys with_entry
set_phys-eq t a k g = rw g

module _ {source : ℕ → ℕ} {t t' : MapTable} {addr : ℕ} (r : Carried source t t' addr) where
  pub Carried-own :
      (k : ℕ) {e : BlockEntry}
      → index_of_block addr ≡ k
      → get_elem? t.entries k ≡ some e
      → r.own ≡ e
  Carried-own k h g = of_some (sym r.own_at ∙ ap (get_elem? t.entries) h ∙ g)

  pub Carried-other :
      (k : ℕ) {e : BlockEntry}
      → source (index_of_block addr) ≡ k
      → get_elem? t.entries k ≡ some e
      → r.other ≡ e
  Carried-other k h g = of_some (sym r.other_at ∙ ap (get_elem? t.entries) h ∙ g)
