-- ===== src/Log/Write.antt =====
-- LogWrite on a well-formed log.
use nvmfs.Prelude.{
  ℕ, ◌+◌, ◌-◌, ◌*◌, ◌/◌, ◌%◌, ◌^◌, ◌≤◌, ◌<◌, ◌≡◌, ◌≢◌, ◌⊎◌, refl, sym, ap, ◌∙◌, inl, inr, Option,
  none, some, Option-cases, List, ◌∷◌, ◌++◌, append_assoc, length, All, Distinct, arith,
  length-append, lt_cases, u64_mod, add64, sub64, subst,
}
use nvmfs.Types.{u32_mod, align_up}
use nvmfs.Memory.{Memory}
use nvmfs.ContinousSpace.{
  PageAllocator, area_size, space_start, notify_used_space, link_from, alloc_areas,
  current_area_of_addr,
}
use nvmfs.ContinousSpace.Bytes.{IsArea, IsAt, bytes_of, bytes_from}
use nvmfs.ContinousSpace.Spot.{spot}
use nvmfs.ContinousSpace.Read.{capacity, length-bytes_from, length-bytes_of}
use nvmfs.ContinousSpace.Link.{last_area, spot-last_area, spot-append, link_from-IsAt}
use nvmfs.Log.{Log, LogEntryHead, head_size, foot_bytes, write_reserved, reserve_entry, log_write}
use nvmfs.Log.Entries.{Entry, entries_bytes}
use nvmfs.Log.Put.{IsLog, align_up-8}
use nvmfs.Log.Grow.{taken_log, Grown, grow}
use nvmfs.Log.Reserve.{
  need, new_areas, length-alloc_areas, reserve_entry-enough, reserve_entry-full,
  reserve_entry-linked,
}

regroup {ℓ} :
    {A : Type ℓ} (r e f a b : List A) → (r ++ (e ++ (f ++ a))) ++ b ≡ r ++ (e ++ (f ++ (a ++ b)))
regroup r e f a b = simp append_assoc

align_up-area :
    (n : ℕ)
    → n < 2 ^ 32
    → (n ≤ align_up n area_size / area_size * area_size)
      × (align_up n area_size / area_size * area_size < n + area_size)
unfolding align_up
align_up-area n h = (omega arith, omega arith)

-- The head that LogWrite writes.
abbrev pub head_for : ℕ → ℕ → LogEntryHead
head_for size entry_type = record { entry_type = entry_type % 256; size = size % u32_mod }

-- The pages that the pool hands out are pages, and none of them is in the chain.
abbrev pub HandsOutFresh {ℓ} : {Pool : Type ℓ} → PageAllocator Pool → Pool → ℕ → List ℕ → Type 0
HandsOutFresh pp pool addr ps =
    (n cur : ℕ) (areas : List ℕ)
    → (alloc_areas pp pool n cur).0 ≡ some areas
    → All IsArea areas × Distinct (current_area_of_addr addr ∷ (ps ++ areas))

-- The two ways in which LogWrite ends.
abbrev pub Ends {ℓ} :
    {Pool : Type ℓ}
    → PageAllocator Pool
    → Log
    → List Entry
    → LogEntryHead
    → Option (List ℕ)
    → Pool
    → Memory
    → Option (Option ℕ × Log × Pool × Memory)
    → Type ℓ
Ends {Pool = Pool} pp log es head buffer pool m o =
    ((addr : ℕ) × (log' : Log) × (pool' : Pool) × (m' : Memory) × (o
        ≡ some (some addr, log', pool', m'))
      × Grown m' log' es head buffer)
    ⊎ ((log' : Log) × (pool' : Pool) × (o ≡ some (none, log', pool', m))
        × (log.cs.rest_size < need pp log (align_up head.size 8) pool m)
        × ((new_areas pp log (align_up head.size 8) pool m).0 ≡ none)
        × (log'.write_start ≡ log.write_start)
        × (log'.cs.rest_size ≡ sub64 log.cs.rest_size (head_size + align_up head.size 8)))

module _ {ℓ} {Pool : Type ℓ} (pp : PageAllocator Pool) (log : Log) (es : List Entry)
    (head : LogEntryHead) (buffer : Option (List ℕ)) (pool : Pool) (m : Memory) (ps : List ℕ)
    (after : List ℕ) (entry_type_small : head.entry_type < 256) (size_small : head.size < 2 ^ 31)
    (not_foot : (head.entry_type ≢ 0) ⊎ (head.size ≢ 0))
    (whole : (b : List ℕ) → buffer ≡ some b → length b ≡ head.size)
    (fresh : HandsOutFresh pp pool (space_start log.cs) ps) (v : IsLog m log ps es after) where
  abbrev aligned_size : ℕ
  aligned_size = align_up head.size 8

  abbrev outcome : Option (Option ℕ × Log × Pool × Memory)
  outcome =
      write_reserved log.write_start head aligned_size buffer
        (reserve_entry pp log aligned_size pool m)

  write_enough :
      need pp log aligned_size pool m ≤ log.cs.rest_size → Ends pp log es head buffer pool m outcome
  unfolding write_reserved
  write_enough h =
      let c = v.counted in
      let l = v.in_last in
      let (addr, foot, m', r, g) =
        grow log es head buffer entry_type_small size_small not_foot whole m log.cs.area_num
          log.cs.rest_size ps v.reserve after v.start v.reserved v.bytes_are v.entries v.ends
          v.counted (omega arith) v.even (omega arith) (omega arith) in
      inl (
        addr,
        record (taken_log log log.cs.area_num log.cs.rest_size (head_size + aligned_size)) {
          write_start = foot;
        },
        pool,
        m',
        ap (write_reserved log.write_start head aligned_size buffer)
              (reserve_entry-enough pp log aligned_size pool m h)
            ∙ rw r,
        g,
      )

  write_full :
      log.cs.rest_size < need pp log aligned_size pool m
      → (new_areas pp log aligned_size pool m).0 ≡ none
      → Ends pp log es head buffer pool m outcome
  unfolding write_reserved notify_used_space
  write_full h o = inr (
    taken_log log log.cs.area_num log.cs.rest_size (head_size + aligned_size),
    (new_areas pp log aligned_size pool m).1,
    ap (write_reserved log.write_start head aligned_size buffer)
        (reserve_entry-full pp log aligned_size pool m h o),
    h,
    o,
    refl,
    refl,
  )

  -- The chain that has taken the new pages.
  linked_bytes :
      (areas : List ℕ)
      → All IsArea areas
      → Distinct (current_area_of_addr (space_start log.cs) ∷ (ps ++ areas))
      → (let start = space_start log.cs in
          let m' = link_from m (current_area_of_addr log.write_start) areas in
          IsAt m' start (ps ++ areas)
          × (bytes_from m' start (ps ++ areas)
              ≡ v.reserve ++ (entries_bytes es ++ (foot_bytes ++ (after ++ bytes_of m areas))))
          × (log.write_start
              ≡ (spot start (ps ++ areas) (log.reserve_size + length (entries_bytes es))).0))
  linked_bytes areas a d =
      let start = space_start log.cs in
      let n = log.reserve_size + length (entries_bytes es) in
      let l = v.in_last in
      let room : n + (8 + length after) ≡ capacity start ps = omega (
        arith,
        ap length v.bytes_are,
        length-bytes_from m start ps,
        v.reserved,
        length-append v.reserve (entries_bytes es ++ (foot_bytes ++ after)),
        length-append (entries_bytes es) (foot_bytes ++ after),
      ) in
      let (_, area) = spot-last_area start n ps v.start.areas (omega arith) (omega arith) in
      let at : current_area_of_addr log.write_start ≡ last_area (current_area_of_addr start) ps =
        ap current_area_of_addr v.ends ∙ area in
      let (still, bytes_now) = link_from-IsAt m start ps areas v.start a d in
      (
        subst (λ z. IsAt (link_from m z areas) start (ps ++ areas)) (sym at) still,
        ap (λ z. bytes_from (link_from m z areas) start (ps ++ areas)) at
            ∙ bytes_now
            ∙ ap (λ x. x ++ bytes_of m areas) v.bytes_are
            ∙ regroup v.reserve (entries_bytes es) foot_bytes after (bytes_of m areas),
        v.ends ∙ sym (spot-append start n ps areas v.start.areas (omega arith)),
      )

  -- How far the new pages reach.
  pages_suffice :
      (areas : List ℕ)
      → log.cs.rest_size < need pp log aligned_size pool m
      → length areas
        ≡ align_up (need pp log aligned_size pool m - log.cs.rest_size) area_size / area_size
      → (add64 log.cs.rest_size (length areas * area_size)
          ≡ head_size + length (after ++ bytes_of m areas))
        × (head_size + length (after ++ bytes_of m areas) < u64_mod)
        × (length (after ++ bytes_of m areas) % 8 ≡ 0)
        × (aligned_size + head_size ≤ length (after ++ bytes_of m areas))
        × (length (after ++ bytes_of m areas) ≤ aligned_size + area_size)
  pages_suffice areas h k =
      let c = v.counted in
      let l = v.in_last in
      let e = v.even in
      let (a8, low, high) = align_up-8 head.size size_small in
      let u = align_up-area (need pp log aligned_size pool m - log.cs.rest_size) (omega arith) in
      let len : length (after ++ bytes_of m areas) ≡ length after + area_size * length areas =
        omega (arith, length-append after (bytes_of m areas), length-bytes_of m areas) in
      (omega arith, omega arith, omega arith, omega arith, omega arith)

  write_linked :
      (areas : List ℕ)
      → log.cs.rest_size < need pp log aligned_size pool m
      → (new_areas pp log aligned_size pool m).0 ≡ some areas
      → Ends pp log es head buffer pool m outcome
  unfolding write_reserved
  write_linked areas h o =
      let n = align_up (need pp log aligned_size pool m - log.cs.rest_size) area_size / area_size in
      let cur = current_area_of_addr log.write_start in
      let (a, d) = fresh n cur areas o in
      let k = length-alloc_areas pp n pool cur o in
      let (still, bytes_now, at) = linked_bytes areas a d in
      let (c, small, ev, room, last) = pages_suffice areas h k in
      let m1 = link_from m cur areas in
      let num = add64 log.cs.area_num (length areas) in
      let size = add64 log.cs.rest_size (length areas * area_size) in
      let (addr, foot, m', r, g) =
        grow log es head buffer entry_type_small size_small not_foot whole m1 num size (ps ++ areas)
          v.reserve (after ++ bytes_of m areas) still v.reserved bytes_now v.entries at c
          (omega arith) ev room last in
      inl (
        addr,
        record (taken_log log num size (head_size + aligned_size)) { write_start = foot },
        (new_areas pp log aligned_size pool m).1,
        m',
        ap (write_reserved log.write_start head aligned_size buffer)
              (reserve_entry-linked pp log aligned_size pool m areas h o)
            ∙ rw r,
        g,
      )

  outcome-Ends : Ends pp log es head buffer pool m outcome
  outcome-Ends = elim (lt_cases log.cs.rest_size (need pp log aligned_size pool m)) [
    | inr h ↦ write_enough h
    | inl h ↦ elim (Option-cases (new_areas pp log aligned_size pool m).0) [
      | inl o ↦ write_full h o
      | inr (areas, o) ↦ write_linked areas h o
    ]
  ]

-- LogWrite on a well-formed log, of a size below 2^31, with a type or a size that is not 0, a buffer of
-- that size if there is one, and a page pool that hands out pages that are not in the log's chain,
-- always returns. Either it gives an address, and the log is then well-formed and holds the old
-- entries and behind them one with this type and size and the buffer as its body; or the bytes left do
-- not suffice and the pool does not have the pages for the others: then the memory and the place of
-- the next entry are as before, but the log has counted the bytes as used that it did not use.
pub log_write-Ends {ℓ} :
    {Pool : Type ℓ} (pp : PageAllocator Pool) (log : Log) (es : List Entry) (size : ℕ)
    (buffer : Option (List ℕ)) (entry_type : ℕ) (pool : Pool) (m : Memory) (ps after : List ℕ)
    → size < 2 ^ 31
    → (entry_type % 256 ≢ 0) ⊎ (size ≢ 0)
    → ((b : List ℕ) → buffer ≡ some b → length b ≡ size)
    → HandsOutFresh pp pool (space_start log.cs) ps
    → IsLog m log ps es after
    → Ends pp log es
        (head_for size entry_type)
        buffer
        pool
        m
        (log_write pp log size buffer entry_type pool m)
unfolding log_write
log_write-Ends {Pool = Pool} pp log es size buffer entry_type pool m ps after s nz whole fresh v =
    let e : size % u32_mod ≡ size = omega arith in
    let done =
      outcome-Ends pp log es (head_for size entry_type) buffer pool m ps after (omega arith)
        (omega arith) (elim nz [ inl a ↦ inl a | inr b ↦ inr (λ z. b (sym e ∙ z)) ])
        (λ b h. whole b h ∙ sym e) fresh v in
    subst
      (λ k. Ends pp log es (head_for size entry_type) buffer pool m (
        write_reserved log.write_start (head_for size entry_type) (align_up k 8) buffer
          (reserve_entry pp log (align_up k 8) pool m)))
      e done
