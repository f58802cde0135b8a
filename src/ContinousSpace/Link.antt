-- ===== src/ContinousSpace/Link.antt =====
-- New pages at the end of a chain.
use nvmfs.Prelude.{
  ℕ, ◌+◌, ◌-◌, ◌%◌, ◌≤◌, ◌<◌, ◌≡◌, ◌≢◌, refl, sym, ap, ap₂, ◌∙◌, inl, inr, List, [], ◌∷◌, ◌++◌,
  append_assoc, All, Distinct, arith, lt_cases, order_cases,
}
use nvmfs.Memory.{
  Memory, load, store, load64, to_bytes, load-same, load-store_self, load-store_other,
  store-outside, from_bytes, from_bytes-to_bytes,
}
use nvmfs.ContinousSpace.{
  page_size, area_size, addr_size, rest_size_of_current_area, current_area_of_addr, link_from,
}
use nvmfs.ContinousSpace.Bytes.{Chain, IsArea, IsAt, bytes_of, bytes_from, area-start}
use nvmfs.ContinousSpace.Read.{capacity}
use nvmfs.ContinousSpace.Spot.{spot, spot-here, spot-next}

abbrev pub last_area : ℕ → List ℕ → ℕ
last_area p [] = p
last_area p (q ∷ qs) = last_area q qs

-- A spot among the last bytes is in the last page.
pub spot-last_area :
    (addr n : ℕ) (ps : List ℕ)
    → All IsArea ps
    → n < capacity addr ps
    → capacity addr ps ≤ n + area_size
    → ((spot addr ps n).1 ≡ [])
      × (current_area_of_addr (spot addr ps n).0 ≡ last_area (current_area_of_addr addr) ps)
spot-last_area addr n [] a h k = (refl, omega arith)
spot-last_area addr n (q ∷ qs) (b, a) h k =
    let rest = rest_size_of_current_area addr in
    let (e, f) = spot-last_area (q + addr_size) (n - rest) qs a (omega arith) (omega arith) in
    let s = spot-next addr n q qs (omega arith) in
    (
      ap (λ z. z.1) s ∙ e,
      ap (λ z. current_area_of_addr z.0) s ∙ f ∙ ap (λ z. last_area z qs) (area-start q b),
    )

pub spot-append :
    (addr n : ℕ) (ps qs : List ℕ)
    → All IsArea ps
    → n < capacity addr ps
    → (spot addr (ps ++ qs) n).0 ≡ (spot addr ps n).0
spot-append addr n [] qs a h = ap (λ z. z.0) (spot-here addr n qs (omega arith))
spot-append addr n (p ∷ ps) qs (b, a) h = elim (lt_cases n (rest_size_of_current_area addr)) [
  | inl k ↦
      ap (λ z. z.0) (spot-here addr n (p ∷ (ps ++ qs)) k)
      ∙ sym (ap (λ z. z.0) (spot-here addr n (p ∷ ps) k))
  | inr k ↦
      ap (λ z. z.0) (spot-next addr n p (ps ++ qs) k)
      ∙ spot-append (p + addr_size) (n - rest_size_of_current_area addr) ps qs a (omega arith)
      ∙ sym (ap (λ z. z.0) (spot-next addr n p ps k))
]

All-append_left : (P : ℕ → Type 0) (xs ys : List ℕ) → All P (xs ++ ys) → All P xs
All-append_left P [] ys a = tt
All-append_left P (x ∷ xs) ys (p, a) = (p, All-append_left P xs ys a)

All-append_right : (P : ℕ → Type 0) (xs ys : List ℕ) → All P (xs ++ ys) → All P ys
All-append_right P [] ys a = a
All-append_right P (x ∷ xs) ys (p, a) = All-append_right P xs ys a

All-append : (P : ℕ → Type 0) (xs ys : List ℕ) → All P xs → All P ys → All P (xs ++ ys)
All-append P [] ys a b = b
All-append P (x ∷ xs) ys (p, a) b = (p, All-append P xs ys a b)

pub All-last_area : (P : ℕ → Type 0) (p : ℕ) (ps : List ℕ) → All P (p ∷ ps) → P (last_area p ps)
All-last_area P p [] (a, _) = a
All-last_area P p (q ∷ qs) (_, a) = All-last_area P q qs a

Distinct-right :
    (p : ℕ) (ps qs : List ℕ) → Distinct (p ∷ (ps ++ qs)) → Distinct (last_area p ps ∷ qs)
Distinct-right p [] qs d = d
Distinct-right p (q ∷ ps) qs (_, d) = Distinct-right q ps qs d

All-aligned : (ps : List ℕ) → All IsArea ps → All (λ y. y % page_size ≡ 0) ps
All-aligned [] a = tt
All-aligned (p ∷ ps) ((b, _), a) = (b, All-aligned ps a)

-- Only the first bytes of pages are written.
pub link_from-data :
    (m : Memory) (last : ℕ) (areas : List ℕ) (x : ℕ)
    → addr_size ≤ x % page_size
    → last % page_size ≡ 0
    → All IsArea areas
    → link_from m last areas x ≡ m x
link_from-data m last [] x h a r = refl
link_from-data m last (q ∷ qs) x h a ((b, l), r) =
    link_from-data (store m last (to_bytes addr_size q)) q qs x h b r
    ∙ store-outside m last (to_bytes addr_size q) x
        (elim (lt_cases x last) [ inl k ↦ inl k | inr k ↦ inr (omega arith) ])

link_from-other :
    (m : Memory) (last : ℕ) (areas : List ℕ) (p : ℕ)
    → p % page_size ≡ 0
    → last % page_size ≡ 0
    → All IsArea areas
    → All (λ y. p ≢ y) (last ∷ areas)
    → load64 (link_from m last areas) p ≡ load64 m p
unfolding load64
link_from-other m last [] p h a r n = refl
link_from-other m last (q ∷ qs) p h a ((b, l), r) (n, ns) =
    link_from-other (store m last (to_bytes addr_size q)) q qs p h b r ns
    ∙ ap from_bytes (
        load-store_other m last (to_bytes addr_size q) p 8 (elim (order_cases p last) [
          | inl k ↦ inl (omega arith)
          | inr (inl k) ↦ inr (omega arith)
          | inr (inr k) ↦ absurd (n k)
        ]))

link_from-Chain :
    (m : Memory) (last : ℕ) (areas : List ℕ)
    → last % page_size ≡ 0
    → All IsArea areas
    → Distinct (last ∷ areas)
    → Chain (link_from m last areas) last areas
unfolding load64
link_from-Chain m last [] a r d = tt
link_from-Chain m last (q ∷ qs) a ((b, l), r) (n, d) =
    let m1 = store m last (to_bytes addr_size q) in
    (
      link_from-other m1 q qs last a b r n
          ∙ ap from_bytes (load-store_self m last (to_bytes addr_size q))
          ∙ from_bytes-to_bytes q l,
      link_from-Chain m1 q qs b r d,
    )

Chain-append :
    (m : Memory) (p : ℕ) (ps areas : List ℕ)
    → p % page_size ≡ 0
    → All IsArea ps
    → All IsArea areas
    → Distinct (p ∷ (ps ++ areas))
    → Chain m p ps
    → Chain (link_from m (last_area p ps) areas) p (ps ++ areas)
Chain-append m p [] areas a r s d c = link_from-Chain m p areas a s d
Chain-append m p (q ∷ qs) areas a ((b, l), r) s (n, d) (e, c) = (
  link_from-other m (last_area q qs) areas p a
        (All-last_area (λ y. y % page_size ≡ 0) q qs (b, All-aligned qs r)) s
        (
          All-last_area (λ y. p ≢ y) q qs (All-append_left (λ y. p ≢ y) (q ∷ qs) areas n),
          All-append_right (λ y. p ≢ y) (q ∷ qs) areas n,
        )
      ∙ e,
  Chain-append m q qs areas b r s d c,
)

bytes_of-same :
    (m m' : Memory) (ps : List ℕ)
    → ((x : ℕ) → addr_size ≤ x % page_size → m' x ≡ m x)
    → All IsArea ps
    → bytes_of m' ps ≡ bytes_of m ps
unfolding bytes_of
bytes_of-same m m' [] h r = refl
bytes_of-same m m' (p ∷ ps) h ((b, l), r) =
    ap₂ (λ x y. x ++ y) (load-same m' m (p + addr_size) area_size (λ x i j. h x (omega arith)))
      (bytes_of-same m m' ps h r)

bytes_of-append :
    (m : Memory) (ps qs : List ℕ) → bytes_of m (ps ++ qs) ≡ bytes_of m ps ++ bytes_of m qs
unfolding bytes_of
bytes_of-append m [] qs = refl
bytes_of-append m (p ∷ ps) qs =
    ap (λ x. load m (p + addr_size) area_size ++ x) (bytes_of-append m ps qs)
    ∙ sym (append_assoc (load m (p + addr_size) area_size) (bytes_of m ps) (bytes_of m qs))

-- LinkAreas at the last page of a well-formed chain, of pages that are not in it, makes a well-formed
-- chain of all pages: its bytes are the old ones, and then those of the new pages.
pub link_from-IsAt :
    (m : Memory) (addr : ℕ) (ps areas : List ℕ)
    → IsAt m addr ps
    → All IsArea areas
    → Distinct (current_area_of_addr addr ∷ (ps ++ areas))
    → (let m' = link_from m (last_area (current_area_of_addr addr) ps) areas in
        IsAt m' addr (ps ++ areas)
        × (bytes_from m' addr (ps ++ areas) ≡ bytes_from m addr ps ++ bytes_of m areas))
unfolding bytes_from
link_from-IsAt m addr ps areas v s d =
    let p = current_area_of_addr addr in
    let m' = link_from m (last_area p ps) areas in
    let al : p % page_size ≡ 0 = omega arith in
    let la = All-last_area (λ y. y % page_size ≡ 0) p ps (al, All-aligned ps v.areas) in
    let all = All-append IsArea ps areas v.areas s in
    let i = v.inside in
    let rest = rest_size_of_current_area addr in
    let own : load m' addr rest ≡ load m addr rest =
      load-same m' m addr rest
        (λ x j k. link_from-data m (last_area p ps) areas x (omega arith) la s) in
    (
      record {
        inside = v.inside;
        small = v.small;
        areas = all;
        distinct = d;
        chain = Chain-append m p ps areas al v.areas s d v.chain;
      },
      ap₂ (λ x y. x ++ y) own
            (bytes_of-same m m' (ps ++ areas)
                (λ x h. link_from-data m (last_area p ps) areas x h la s) all
              ∙ bytes_of-append m ps areas)
          ∙ sym (append_assoc (load m addr rest) (bytes_of m ps) (bytes_of m areas)),
    )
