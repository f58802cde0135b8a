-- ===== src/Tests/Logs.antt =====
-- Tests of ContinousSpace.c and Log.c.
use nvmfs.Prelude.{
  ℕ, zero, suc, ◌+◌, ◌≤◌, ◌≡◌, refl, sym, ap, inl, true, Option, none, some, List, [], ◌∷◌, ◌++◌,
  length, take, drop, length-append, All, Distinct, arith, of_some, not_some, subst,
}
use nvmfs.Types.{align_up}
use nvmfs.Memory.{Memory}
use nvmfs.ContinousSpace.{
  notify_used_space, PageAllocator, space_write, space_read, calculate_next_addr, link_from,
  alloc_areas, space_start, current_area_of_addr,
}
use nvmfs.ContinousSpace.Bytes.{IsArea, IsAt, bytes_from, bytes_of, SameOutside}
use nvmfs.ContinousSpace.Spot.{calculate_next_addr-spot}
use nvmfs.ContinousSpace.Read.{length-bytes_from, space_read-take}
use nvmfs.ContinousSpace.Write.{space_read-write}
use nvmfs.ContinousSpace.Link.{link_from-IsAt}
use nvmfs.Log.{
  foot_bytes, Log, LogCleanupOps, LogEvent, write_entry, log_write, log_format, log_rebuild,
  log_rebuild_begin, log_rebuild_end,
}
use nvmfs.Log.Entries.{Entry, IsModest}
use nvmfs.Log.Put.{IsLog}
use nvmfs.Log.Write.{Ends, HandsOutFresh, head_for, log_write-Ends}
use nvmfs.Log.Grow.{Grown, grow, taken_log}
use nvmfs.Log.Format.{log_format-IsLog}
use nvmfs.Log.Rebuild.{log_rebuild-IsLog}

abbrev zeros : Memory
zeros = λ x. 0

abbrev first : ℕ
first = 4096

abbrev second : ℕ
second = 8192

-- The pages that are left, the next one first.
abbrev free_pages : PageAllocator (List ℕ)
free_pages = record {
  alloc = λ pool. next_page pool;
  alloc_with_hint = λ pool hint. next_page pool;
  free = λ pool page. page ∷ pool;
}
  where
    next_page : List ℕ → Option (ℕ × List ℕ)
    next_page [] = none
    next_page (p ∷ ps) = some (p, ps)

-- The first page with a link to the second.
abbrev linked : Memory
linked = link_from zeros first (second ∷ [])

zeros-IsAt : IsAt zeros 4104 []
zeros-IsAt = record {
  inside = omega arith;
  small = omega arith;
  areas = tt;
  distinct = (tt, tt);
  chain = tt;
}

link_from-IsAt_example :
    IsAt linked 4104 (second ∷ [])
    × (bytes_from linked 4104 (second ∷ [])
        ≡ bytes_from zeros 4104 [] ++ bytes_of zeros (second ∷ []))
link_from-IsAt_example =
    link_from-IsAt zeros 4104 [] (second ∷ []) zeros-IsAt ((refl, omega arith), tt)
      (((λ e. absurd (omega (arith, e))), tt), (tt, tt))

-- Five bytes before the end of the first page.
linked-IsAt : IsAt linked 8187 (second ∷ [])
linked-IsAt = record {
  inside = omega arith;
  small = omega arith;
  areas = ((refl, omega arith), tt);
  distinct = (((λ e. absurd (omega (arith, e))), tt), (tt, tt));
  chain = link_from-IsAt_example.0.chain;
}

space_read-take_example :
    space_read linked 9 8187 ≡ some (take 9 (bytes_from linked 8187 (second ∷ [])))
space_read-take_example = space_read-take linked 9 8187 (second ∷ []) linked-IsAt (omega arith)

calculate_next_addr-spot_example : calculate_next_addr linked 8187 9 ≡ some 8204
calculate_next_addr-spot_example =
    calculate_next_addr-spot linked 8187 9 (second ∷ []) linked-IsAt (omega arith)

abbrev nine_bytes : List ℕ
nine_bytes = 1 ∷ 2 ∷ 3 ∷ 4 ∷ 5 ∷ 6 ∷ 7 ∷ 8 ∷ 9 ∷ []

space_read-write_example :
    (m' : Memory) × (space_write linked nine_bytes 8187 ≡ some m')
    × IsAt m' 8187 (second ∷ [])
    × (space_read m' 9 8187 ≡ some nine_bytes)
    × (bytes_from m' 8187 (second ∷ [])
        ≡ nine_bytes ++ drop 9 (bytes_from linked 8187 (second ∷ [])))
    × SameOutside linked m' 8187 (second ∷ [])
space_read-write_example =
    space_read-write linked nine_bytes 8187 (second ∷ []) linked-IsAt (omega arith)

abbrev pages : List ℕ
pages = first ∷ second ∷ []

-- A log on the first page, with 24 bytes of reserved data.
abbrev formatted :
    (log : Log) × (m' : Memory) × (after : List ℕ) × (log_format free_pages pages 20 zeros
      ≡ some (some (log, second ∷ [], m')))
    × IsLog m' log [] [] after
    × (log.reserve_size ≡ align_up 20 8)
    × (log.cs.first_area ≡ first)
formatted =
    log_format-IsLog free_pages pages (second ∷ []) 20 zeros first refl (refl, omega arith)
      (omega arith)

log_format-IsLog_example :
    (log : Log) × (m' : Memory) × (after : List ℕ) × (log_format free_pages pages 20 zeros
      ≡ some (some (log, second ∷ [], m')))
    × IsLog m' log [] [] after
    × (log.reserve_size ≡ align_up 20 8)
    × (log.cs.first_area ≡ first)
log_format-IsLog_example =
    log_format-IsLog free_pages pages (second ∷ []) 20 zeros first refl (refl, omega arith)
      (omega arith)

abbrev empty_log : Log
empty_log = formatted.0

abbrev log_memory : Memory
log_memory = formatted.1

abbrev log_bytes : List ℕ
log_bytes = formatted.2

empty_log-IsLog : IsLog log_memory empty_log [] [] log_bytes
empty_log-IsLog = formatted.4

on_first : empty_log.cs.first_area ≡ first
on_first = formatted.6

free_pages-HandsOutFresh : HandsOutFresh free_pages (second ∷ []) (space_start empty_log.cs) []
unfolding alloc_areas space_start
free_pages-HandsOutFresh zero cur areas h =
    subst (λ xs. All IsArea xs × Distinct (current_area_of_addr (space_start empty_log.cs) ∷ xs))
      (of_some h) (tt, (tt, tt))
free_pages-HandsOutFresh (suc zero) cur areas h =
    subst (λ xs. All IsArea xs × Distinct (current_area_of_addr (space_start empty_log.cs) ∷ xs))
      (of_some h)
      (((refl, omega arith), tt), (((λ e. absurd (omega (arith, e, on_first))), tt), (tt, tt)))
free_pages-HandsOutFresh (suc (suc n)) cur areas h = absurd (not_some refl h)

log_write-Ends_example :
    Ends free_pages empty_log []
      (head_for 5000 3)
      none
      (second ∷ [])
      log_memory
      (log_write free_pages empty_log 5000 none 3 (second ∷ []) log_memory)
log_write-Ends_example =
    log_write-Ends free_pages empty_log [] 5000 none 3 (second ∷ []) log_memory [] log_bytes
      (omega arith) (inl (λ e. absurd (omega (arith, e)))) (λ b h. absurd (not_some refl h))
      free_pages-HandsOutFresh empty_log-IsLog

-- Every type has both callbacks, and `prepare` asks for the whole body.
abbrev whole_bodies : LogCleanupOps
whole_bodies = record { prepare = λ t. some (λ n. n); has_cleanup = λ t. true }

whole_bodies-IsModest : (e : Entry) → IsModest whole_bodies e
whole_bodies-IsModest e prepared h =
    subst (λ f. f e.head.size ≤ e.head.size) (of_some h) (omega arith)

abbrev five_bytes : List ℕ
five_bytes = 10 ∷ 20 ∷ 30 ∷ 40 ∷ 50 ∷ []

length-log_bytes : length log_bytes ≡ 4056
unfolding space_start align_up
length-log_bytes =
    let v = empty_log-IsLog in
    let start = space_start empty_log.cs in
    omega (
      arith,
      on_first,
      formatted.5,
      ap length v.bytes_are,
      v.reserved,
      length-bytes_from log_memory start [],
      length-append v.reserve (foot_bytes ++ log_bytes),
    )

aligned_five : align_up 5 8 ≡ 8
unfolding align_up
aligned_five = refl

-- The log once an entry of type 3 with these bytes is written.
abbrev one_entry :
    (entry_addr : ℕ) × (foot : ℕ) × (m' : Memory) × (write_entry log_memory empty_log.write_start
        (head_for 5 3)
        (align_up 5 8)
        (some five_bytes)
      ≡ some (entry_addr, foot, m'))
    × Grown m'
        (record (taken_log empty_log 1 4064 (8 + align_up 5 8)) { write_start = foot })
        []
        (head_for 5 3)
        (some five_bytes)
one_entry =
    let v = empty_log-IsLog in
    grow empty_log [] (head_for 5 3) (some five_bytes) (omega arith) (omega arith)
      (inl (λ e. absurd (omega (arith, e)))) (λ b h. ap length (sym (of_some h))) log_memory 1 4064
      [] v.reserve log_bytes v.start v.reserved v.bytes_are v.entries v.ends
      (omega (arith, length-log_bytes)) (omega arith) v.even
      (omega (arith, length-log_bytes, aligned_five)) (omega (arith, length-log_bytes))

abbrev one_log : Log
one_log = record (taken_log empty_log 1 4064 (8 + align_up 5 8)) { write_start = one_entry.1 }

abbrev one_memory : Memory
one_memory = one_entry.2

abbrev grown : Grown one_memory one_log [] (head_for 5 3) (some five_bytes)
grown = one_entry.4

-- A log before it is rebuilt.
abbrev blank_log : Log
blank_log = record {
  reserve_size = 0;
  write_start = 0;
  cs = record { first_area = 0; rest_size = 0; area_num = 0 };
}

one_log-IsArea : IsArea one_log.cs.first_area
unfolding notify_used_space
one_log-IsArea = subst IsArea (sym on_first) (refl, omega arith)

reserve_multiple : align_up one_log.reserve_size 8 ≡ one_log.reserve_size
unfolding align_up
reserve_multiple = subst (λ n. align_up n 8 ≡ n) (sym formatted.5) refl

-- More than the entries and the pages.
abbrev enough : ℕ
enough = 2 + length grown.areas

log_rebuild-IsLog_example :
    (events : List LogEvent) × (log1 : Log) × (log2 : Log) × (log_rebuild enough whole_bodies
        one_memory
        (log_rebuild_begin blank_log one_log.cs.first_area one_log.reserve_size)
      ≡ some (events, log1))
    × (log_rebuild_end enough one_memory log1 ≡ some log2)
    × IsLog one_memory log2 grown.areas (grown.entry ∷ []) grown.after
    × (log2.write_start ≡ one_log.write_start)
log_rebuild-IsLog_example =
    log_rebuild-IsLog enough whole_bodies one_memory one_log blank_log grown.areas
      (grown.entry ∷ []) grown.after (whole_bodies-IsModest grown.entry, tt) grown.valid
      one_log-IsArea reserve_multiple (omega arith) (omega arith)
