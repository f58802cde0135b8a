-- ===== src/CircularBuffer/Queue.antt =====
-- The circular buffer as a queue.
use nvmfs.Prelude.{
  ℕ, zero, suc, ◌+◌, ◌-◌, ◌*◌, ◌%◌, ◌^◌, ◌≤◌, ◌<◌, ◌≡◌, ◌≢◌, ◌⊎◌, inl, inr, refl, sym, ap, ◌∙◌,
  true, false, none, some, List, [], ◌∷◌, ◌++◌, length, take, drop, set, get_elem?, arith, ltb, leb,
  ◌==◌, if◌then◌else◌, add64, sub64, u64_mod, length-append, length-set, get_elem?-set_self,
  get_elem?-set_ne, get_elem?-lt, length-take, length-drop, lt_cases, not_some, of_some,
}
use native.Mathlib.Nat.{mod_self, mod-eq_of_lt}
use nvmfs.CircularBuffer.{CircularBuffer, add, delete, put_at_head, grown, copy}

-- The place of the `i`-th pointer behind `tail`.
abbrev pub place : ℕ → ℕ → ℕ → ℕ
place size tail i = if ltb (tail + i) size then tail + i else tail + i - size

pub record IsQueue (cb : CircularBuffer) (xs : List ℕ) : Type 0 where
  pub whole : length cb.buffer ≡ cb.size
  pub small : cb.size < 2 ^ 32
  pub tail_inside : cb.tail < cb.size
  pub not_full : length xs < cb.size
  pub ends : cb.head ≡ place cb.size cb.tail (length xs)
  pub held :
      (i x : ℕ) → get_elem? xs i ≡ some x → get_elem? cb.buffer (place cb.size cb.tail i) ≡ some x

get_elem?-snoc :
    (xs : List ℕ) (d i x : ℕ)
    → get_elem? (xs ++ (d ∷ [])) i ≡ some x
    → (get_elem? xs i ≡ some x) ⊎ ((i ≡ length xs) × (d ≡ x))
get_elem?-snoc [] d zero x e = inr (refl, of_some e)
get_elem?-snoc [] d (suc i) x e = absurd (not_some refl e)
get_elem?-snoc (y ∷ ys) d zero x e = inl e
get_elem?-snoc (y ∷ ys) d (suc i) x e = elim (get_elem?-snoc ys d i x e) [
  | inl h ↦ inl h
  | inr (a, b) ↦ inr (ap suc a, b)
]

put_at_head-IsQueue :
    (cb : CircularBuffer) (xs : List ℕ) (datum : ℕ)
    → IsQueue cb xs
    → suc (length xs) < cb.size
    → (cb' : CircularBuffer) × (put_at_head cb datum ≡ some cb')
      × IsQueue cb' (xs ++ (datum ∷ []))
      × (cb'.size ≡ cb.size)
unfolding put_at_head
put_at_head-IsQueue cb xs datum v room =
    let w = v.whole in
    let s = v.small in
    let t = v.tail_inside in
    let e = v.ends in
    let inside : cb.head < cb.size = ground arith in
    let c : ltb cb.head (length cb.buffer) ≡ true = ground arith in
    let head =
      if leb cb.size (add64 cb.head 1) then sub64 (add64 cb.head 1) cb.size else add64 cb.head 1 in
    (
      record cb { buffer = set cb.buffer cb.head datum; head = head },
      rw c refl,
      record {
        whole = length-set cb.buffer cb.head datum ∙ w;
        small = s;
        tail_inside = t;
        not_full = omega (arith, length-append xs (datum ∷ []));
        ends =
            let l : length (xs ++ (datum ∷ [])) ≡ suc (length xs) =
              length-append xs (datum ∷ []) ∙ omega arith in
            ground arith;
        held = λ i x h. elim (get_elem?-snoc xs datum i x h) [
          | inl g ↦
              let k = get_elem?-lt xs i g in
              let ne : cb.head ≢ place cb.size cb.tail i = ground arith in
              get_elem?-set_ne cb.buffer datum ne ∙ v.held i x g
          | inr (a, b) ↦
              let here : place cb.size cb.tail i ≡ cb.head = ap (place cb.size cb.tail) a ∙ sym e in
              ap (get_elem? (set cb.buffer cb.head datum)) here
              ∙ get_elem?-set_self cb.buffer cb.head datum (omega arith)
              ∙ ap some b
        ];
      },
      refl,
    )

-- The test for a full array.
following-tail :
    (cb : CircularBuffer) (xs : List ℕ)
    → IsQueue cb xs
    → add64 cb.head 1 % cb.size ≡ place cb.size cb.tail (suc (length xs))
following-tail cb xs v =
    let s = v.small in
    let t = v.tail_inside in
    let f = v.not_full in
    let e = v.ends in
    let inside : cb.head < cb.size = ground arith in
    let next : add64 cb.head 1 ≡ cb.head + 1 = omega arith in
    ap (λ n. n % cb.size) next ∙ elim (lt_cases (cb.head + 1) cb.size) [
      | inl h ↦ mod-eq_of_lt h ∙ ground arith
      | inr h ↦
          let same : cb.head + 1 ≡ cb.size = omega arith in
          ap (λ n. n % cb.size) same ∙ mod_self cb.size ∙ ground arith
    ]

-- CircularBufferAdd to a buffer that is not full always succeeds and puts the pointer behind the
-- queue.
pub add-IsQueue :
    (cb : CircularBuffer) (xs : List ℕ) (datum : ℕ) (fresh : List ℕ)
    → IsQueue cb xs
    → suc (length xs) < cb.size
    → (cb' : CircularBuffer) × (add cb datum fresh ≡ some cb') × IsQueue cb' (xs ++ (datum ∷ []))
unfolding add
add-IsQueue cb xs datum fresh v room =
    let s = v.small in
    let t = v.tail_inside in
    let e = v.ends in
    let c : (add64 cb.head 1 % cb.size == cb.tail) ≡ false =
      let g = following-tail cb xs v in ground arith in
    let (cb', r, q, _) = put_at_head-IsQueue cb xs datum v room in (cb', rw c r, q)

-- CircularBufferDelete of a queue that is not empty always succeeds, hands out the first pointer and
-- leaves the others.
pub delete-IsQueue :
    (cb : CircularBuffer) (x : ℕ) (xs : List ℕ)
    → IsQueue cb (x ∷ xs)
    → (cb' : CircularBuffer) × (delete cb ≡ some (x, cb')) × IsQueue cb' xs
unfolding delete
delete-IsQueue cb x xs v =
    let w = v.whole in
    let s = v.small in
    let t = v.tail_inside in
    let f = v.not_full in
    let e = v.ends in
    let here : place cb.size cb.tail 0 ≡ cb.tail = ground arith in
    let found : get_elem? cb.buffer cb.tail ≡ some x =
      ap (get_elem? cb.buffer) (sym here) ∙ v.held 0 x refl in
    let tail =
      if leb cb.size (add64 cb.tail 1) then sub64 (add64 cb.tail 1) cb.size else add64 cb.tail 1 in
    (
      record cb { tail = tail },
      rw found refl,
      record {
        whole = w;
        small = s;
        tail_inside = ground arith;
        not_full = omega arith;
        ends = e ∙ ground arith;
        held = λ i y h.
            let k = get_elem?-lt xs i h in
            let same : place cb.size tail i ≡ place cb.size cb.tail (suc i) = ground arith in
            ap (get_elem? cb.buffer) same ∙ v.held (suc i) y h;
      },
    )

get_elem?-take :
    (n : ℕ) (xs ys : List ℕ) (i : ℕ)
    → i < n
    → n ≤ length xs
    → get_elem? (take n xs ++ ys) i ≡ get_elem? xs i
get_elem?-take zero xs ys i h l = absurd (omega arith)
get_elem?-take (suc n) [] ys i h l = absurd (omega arith)
get_elem?-take (suc n) (x ∷ xs) ys zero h l = refl
get_elem?-take (suc n) (x ∷ xs) ys (suc i) h l =
    get_elem?-take n xs ys i (omega arith) (omega arith)

grown-take :
    (cb : CircularBuffer) (fresh : List ℕ)
    → cb.tail ≡ 0
    → 0 < cb.size
    → cb.size < 2 ^ 31
    → length cb.buffer ≡ cb.size
    → length fresh ≡ cb.size * 2
    → grown cb fresh ≡ some (take (cb.size - 1) cb.buffer ++ drop (cb.size - 1) fresh)
unfolding grown copy
grown-take cb fresh zero_tail p small w len =
    let z : (cb.tail == 0) ≡ true = ground arith in
    let n : sub64 cb.size 1 ≡ cb.size - 1 = omega arith in
    let a : leb (0 + (cb.size - 1)) (length cb.buffer) ≡ true = ground arith in
    let b : leb (cb.size - 1) (length fresh) ≡ true = ground arith in rw (z, n, a, b) refl

-- The buffer in the array of twice the size.
abbrev doubled : CircularBuffer → List ℕ → CircularBuffer
doubled cb fresh = record cb {
  buffer = take (cb.size - 1) cb.buffer ++ drop (cb.size - 1) fresh;
  size = cb.size * 2 % u64_mod;
}

doubled-IsQueue :
    (cb : CircularBuffer) (xs fresh : List ℕ)
    → IsQueue cb xs
    → suc (length xs) ≡ cb.size
    → cb.tail ≡ 0
    → cb.size < 2 ^ 31
    → length fresh ≡ cb.size * 2
    → IsQueue (doubled cb fresh) xs
doubled-IsQueue cb xs fresh v full zero_tail small len =
    let w = v.whole in
    let t = v.tail_inside in
    let e = v.ends in
    let n = cb.size - 1 in
    let bytes = take n cb.buffer ++ drop n fresh in
    record {
      whole = omega (
        arith,
        length-append (take n cb.buffer) (drop n fresh),
        length-take n cb.buffer,
        length-drop n fresh,
      );
      small = omega arith;
      tail_inside = omega arith;
      not_full = omega arith;
      ends = ground arith;
      held = λ i x h.
          let k = get_elem?-lt xs i h in
          let new_place : place (cb.size * 2 % u64_mod) cb.tail i ≡ i = ground arith in
          let old_place : i ≡ place cb.size cb.tail i = ground arith in
          ap (get_elem? bytes) new_place
          ∙ get_elem?-take n cb.buffer (drop n fresh) i (omega arith) (omega arith)
          ∙ ap (get_elem? cb.buffer) old_place
          ∙ v.held i x h;
    }

add-doubled :
    (cb : CircularBuffer) (xs : List ℕ) (datum : ℕ) (fresh : List ℕ)
    → IsQueue cb xs
    → suc (length xs) ≡ cb.size
    → cb.tail ≡ 0
    → cb.size < 2 ^ 31
    → length fresh ≡ cb.size * 2
    → add cb datum fresh ≡ put_at_head (doubled cb fresh) datum
unfolding add
add-doubled cb xs datum fresh v full zero_tail small len =
    let w = v.whole in
    let t = v.tail_inside in
    let g = following-tail cb xs v in
    let c : (add64 cb.head 1 % cb.size == cb.tail) ≡ true = ground arith in
    rw (c, grown-take cb fresh zero_tail (omega arith) small w len) refl

-- CircularBufferAdd to a full buffer whose queue starts at index 0, of a size below 2^31, with an
-- array of twice the size, always succeeds, doubles the size and puts the pointer behind the queue.
pub grown-IsQueue :
    (cb : CircularBuffer) (xs : List ℕ) (datum : ℕ) (fresh : List ℕ)
    → IsQueue cb xs
    → suc (length xs) ≡ cb.size
    → cb.tail ≡ 0
    → cb.size < 2 ^ 31
    → length fresh ≡ cb.size * 2
    → (cb' : CircularBuffer) × (add cb datum fresh ≡ some cb')
      × IsQueue cb' (xs ++ (datum ∷ []))
      × (cb'.size ≡ cb.size * 2)
grown-IsQueue cb xs datum fresh v full zero_tail small len =
    let t = v.tail_inside in
    let valid = doubled-IsQueue cb xs fresh v full zero_tail small len in
    let (cb', r, q, same) = put_at_head-IsQueue (doubled cb fresh) xs datum valid (omega arith) in
    let twice : cb.size * 2 % u64_mod ≡ cb.size * 2 = omega arith in
    (cb', add-doubled cb xs datum fresh v full zero_tail small len ∙ r, q, same ∙ twice)

-- CircularBufferAdd to a full buffer whose queue does not start at index 0 never succeeds: it reads
-- behind the end of the array.
pub add-none :
    (cb : CircularBuffer) (xs : List ℕ) (datum : ℕ) (fresh : List ℕ)
    → IsQueue cb xs
    → suc (length xs) ≡ cb.size
    → cb.tail ≢ 0
    → add cb datum fresh ≡ none
unfolding add grown copy
add-none cb xs datum fresh v full ne =
    let w = v.whole in
    let s = v.small in
    let t = v.tail_inside in
    let g = following-tail cb xs v in
    let c : (add64 cb.head 1 % cb.size == cb.tail) ≡ true = ground arith in
    let z : (cb.tail == 0) ≡ false = ground arith in
    let out : leb (cb.tail + add64 (sub64 cb.size cb.tail) 1 * 8 % u64_mod) (length cb.buffer)
        ≡ false =
      ground arith in
    rw (c, z, out) refl
