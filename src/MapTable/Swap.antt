-- ===== src/MapTable/Swap.antt =====
-- MapTableBlockSwapFast and MapTableBlockSwapSlow move physical blocks between entries.
use nvmfs.Prelude.{
  ℕ, ◌≡◌, ◌≢◌, refl, ap, ◌∙◌, inl, inr, some, length-set, set, get_elem?, get_elem?-set_ne,
  get_elem?-set-cases, arith, ◌<◌, Option, get_elem?-some, ◌==◌, if◌then◌else◌,
}
use nvmfs.MapTable.{BlockEntry, MapTable, block_swap_fast, block_swap_slow}
use nvmfs.MapTable.Valid.{IsValid}
use nvmfs.MapTable.Move.{Moved, IsMove, IsMove-IsValid, set_phys-eq}

-- The entry whose physical block entry `i` has after an exchange of `a` and `b`.
abbrev pub exchange : ℕ → ℕ → ℕ → ℕ
exchange a b i = if i == a then b else if i == b then a else i

-- The same after the rotation of `a`, `b` and `c`.
abbrev pub rotate : ℕ → ℕ → ℕ → ℕ → ℕ
rotate a b c i = if i == a then b else if i == b then c else if i == c then a else i

pub exchange_injective : (a b i j : ℕ) → exchange a b i ≡ exchange a b j → i ≡ j
exchange_injective a b i j h = ground arith

pub rotate_injective :
    (a b c i j : ℕ) → a ≢ b → b ≢ c → a ≢ c → rotate a b c i ≡ rotate a b c j → i ≡ j
rotate_injective a b c i j n m k h = ground arith

-- `own` with the physical block of `other`.
abbrev relabel : BlockEntry → BlockEntry → BlockEntry
relabel own other = record own { phys_block_index = other.phys_block_index }

abbrev relabelled : MapTable → ℕ → BlockEntry → BlockEntry → MapTable
relabelled t k own other = record t { entries = set t.entries k (relabel own other) }

Moved-to :
    (t : MapTable) (source : ℕ → ℕ) (i k l : ℕ) {own other e' : BlockEntry}
    → i ≡ k
    → source k ≡ l
    → get_elem? t.entries k ≡ some own
    → get_elem? t.entries l ≡ some other
    → e' ≡ relabel own other
    → Moved t i (source i) e'
Moved-to t source i k l {own = own} {other = other} ik kl g h m = record {
  own = own;
  other = other;
  own_at = ap (get_elem? t.entries) ik ∙ g;
  other_at = ap (get_elem? t.entries) (ap source ik ∙ kl) ∙ h;
  made = m;
}

unmoved_lem :
    (t : MapTable) (source : ℕ → ℕ) (i : ℕ) {e' : BlockEntry}
    → source i ≡ i
    → get_elem? t.entries i ≡ some e'
    → Moved t i (source i) e'
unmoved_lem t source i {e' = e'} s g = record {
  own = e';
  other = e';
  own_at = g;
  other_at = ap (get_elem? t.entries) s ∙ g;
  made = refl;
}

exchange-IsMove :
    (t : MapTable) (a b : ℕ) {ea eb : BlockEntry}
    → a ≢ b
    → get_elem? t.entries a ≡ some ea
    → get_elem? t.entries b ≡ some eb
    → IsMove (exchange a b) t (relabelled (relabelled t a ea eb) b eb ea)
exchange-IsMove t a b {ea = ea} {eb = eb} n ga gb = record {
  same_length =
      length-set (set t.entries a (relabel ea eb)) b (relabel eb ea)
      ∙ length-set t.entries a (relabel ea eb);
  same_num = refl;
  same_start = refl;
  moved = λ i g. elim (get_elem?-set-cases (set t.entries a (relabel ea eb)) b i g) [
    | inl (ib, m) ↦ Moved-to t (exchange a b) i b a ib (ground arith) gb ga m
    | inr (nb, g1) ↦ elim (get_elem?-set-cases t.entries a i g1) [
      | inl (ia, m) ↦ Moved-to t (exchange a b) i a b ia (ground arith) ga gb m
      | inr (na, g2) ↦ unmoved_lem t (exchange a b) i (ground arith) g2
    ]
  ];
}

rotate-IsMove :
    (t : MapTable) (a b c : ℕ) {ea eb ec : BlockEntry}
    → a ≢ b
    → b ≢ c
    → a ≢ c
    → get_elem? t.entries a ≡ some ea
    → get_elem? t.entries b ≡ some eb
    → get_elem? t.entries c ≡ some ec
    → IsMove (rotate a b c) t (relabelled (relabelled (relabelled t a ea eb) b eb ec) c ec ea)
rotate-IsMove t a b c {ea = ea} {eb = eb} {ec = ec} n m k ga gb gc =
    let xs = set t.entries a (relabel ea eb) in
    let ys = set xs b (relabel eb ec) in
    record {
      same_length =
          length-set ys c (relabel ec ea)
          ∙ length-set xs b (relabel eb ec)
          ∙ length-set t.entries a (relabel ea eb);
      same_num = refl;
      same_start = refl;
      moved = λ i g. elim (get_elem?-set-cases ys c i g) [
        | inl (ic, q) ↦ Moved-to t (rotate a b c) i c a ic (ground arith) gc ga q
        | inr (nc, g1) ↦ elim (get_elem?-set-cases xs b i g1) [
          | inl (ib, q) ↦ Moved-to t (rotate a b c) i b c ib (ground arith) gb gc q
          | inr (nb, g2) ↦ elim (get_elem?-set-cases t.entries a i g2) [
            | inl (ia, q) ↦ Moved-to t (rotate a b c) i a b ia (ground arith) ga gb q
            | inr (na, g3) ↦ unmoved_lem t (rotate a b c) i (ground arith) g3
          ]
        ]
      ];
    }

-- The outcome of a swap that gives entry `i` the block that entry `source i` had.
pub record Swapped (source : ℕ → ℕ) (t : MapTable) (o : Option MapTable) : Type 0 where
  pub table : MapTable
  pub result : o ≡ some table
  pub valid : IsValid table
  pub move : IsMove source t table

pub block_swap_fast-Swapped :
    (t : MapTable) (a b : ℕ)
    → IsValid t
    → a < t.block_num
    → b < t.block_num
    → a ≢ b
    → Swapped (exchange a b) t (block_swap_fast t a b)
unfolding block_swap_fast
block_swap_fast-Swapped t a b v ha hb n =
    let whole = v.whole in
    let (ea, ga) = get_elem?-some t.entries a (omega arith) in
    let (eb, gb) = get_elem?-some t.entries b (omega arith) in
    let gb1 = get_elem?-set_ne t.entries (relabel ea eb) n ∙ gb in
    let m = exchange-IsMove t a b n ga gb in
    record {
      table = relabelled (relabelled t a ea eb) b eb ea;
      result = rw (
        ga,
        gb,
        set_phys-eq t a eb.phys_block_index ga,
        set_phys-eq (relabelled t a ea eb) b ea.phys_block_index gb1,
      );
      valid =
          IsMove-IsValid (exchange a b) t (relabelled (relabelled t a ea eb) b eb ea) m
            (exchange_injective a b) v;
      move = m;
    }

pub block_swap_slow-Swapped :
    (t : MapTable) (a b c : ℕ)
    → IsValid t
    → a < t.block_num
    → b < t.block_num
    → c < t.block_num
    → a ≢ b
    → b ≢ c
    → a ≢ c
    → Swapped (rotate a b c) t (block_swap_slow t a b c)
unfolding block_swap_slow
block_swap_slow-Swapped t a b c v ha hb hc n m k =
    let whole = v.whole in
    let (ea, ga) = get_elem?-some t.entries a (omega arith) in
    let (eb, gb) = get_elem?-some t.entries b (omega arith) in
    let (ec, gc) = get_elem?-some t.entries c (omega arith) in
    let t1 = relabelled t a ea eb in
    let t2 = relabelled t1 b eb ec in
    let gb1 = get_elem?-set_ne t.entries (relabel ea eb) n ∙ gb in
    let gc2 =
      get_elem?-set_ne t1.entries (relabel eb ec) m
      ∙ get_elem?-set_ne t.entries (relabel ea eb) k
      ∙ gc in
    let q = rotate-IsMove t a b c n m k ga gb gc in
    record {
      table = relabelled t2 c ec ea;
      result = rw (
        ga,
        gb,
        gc,
        set_phys-eq t a eb.phys_block_index ga,
        set_phys-eq t1 b ec.phys_block_index gb1,
        set_phys-eq t2 c ea.phys_block_index gc2,
      );
      valid =
          IsMove-IsValid (rotate a b c) t (relabelled t2 c ec ea) q
            (λ i j. rotate_injective a b c i j n m k) v;
      move = q;
    }
