-- ===== src/Log/Rebuild.antt =====
-- A log that is rebuilt from its first page: LogRebuildBegin, LogRebuild and LogRebuildEnd.
use nvmfs.Prelude.{
  ℕ, zero, suc, ◌+◌, ◌<◌, ◌≡◌, ◌≢◌, refl, sym, ap, ◌∙◌, true, false, some, ◌>>=◌, List, [], ◌∷◌,
  ◌++◌, length, length-append, Distinct, All, arith, ◌==◌, subst,
}
use nvmfs.Types.{align_up}
use nvmfs.Memory.{Memory}
use nvmfs.ContinousSpace.{
  space_start, current_area_of_addr, rest_size_of_current_area, recovery_pages, rebuild_end,
}
use nvmfs.ContinousSpace.Bytes.{Chain, IsArea}
use nvmfs.ContinousSpace.Spot.{spot, capacity-spot}
use nvmfs.ContinousSpace.Read.{capacity, length-bytes_from}
use nvmfs.ContinousSpace.Link.{last_area, All-last_area, spot-last_area}
use nvmfs.Log.{
  Log, head_size, foot_bytes, LogEvent, LogCleanupOps, log_rebuild_begin, log_rebuild,
  log_rebuild_end, for_each_entry,
}
use nvmfs.Log.Entries.{Entry, entries_bytes, all_events, IsModest}
use nvmfs.Log.Put.{IsLog, for_each_entry-entries}

recovery_pages-Chain :
    (fuel : ℕ) (m : Memory) (p : ℕ) (ps : List ℕ)
    → Chain m p ps
    → Distinct (p ∷ ps)
    → length ps < fuel
    → recovery_pages fuel m p (last_area p ps) ≡ some (p ∷ ps)
unfolding recovery_pages
recovery_pages-Chain zero m p ps c d h = absurd (omega arith)
recovery_pages-Chain (suc fuel) m p [] c d h = let here : (p == p) ≡ true = ground arith in rw here
recovery_pages-Chain (suc fuel) m p (q ∷ qs) (e, c) (n, d) h =
    let ne : p ≢ last_area q qs = All-last_area (λ y. p ≢ y) q qs n in
    let on : (p == last_area q qs) ≡ false = ground arith in
    rw (on, e, recovery_pages-Chain fuel m q qs c d (omega arith))

-- Where the log's unused bytes start, and how many they are.
ends_of :
    (m : Memory) (log : Log) (ps : List ℕ) (es : List Entry) (after : List ℕ)
    → IsLog m log ps es after
    → (current_area_of_addr log.write_start
        ≡ last_area (current_area_of_addr (space_start log.cs)) ps)
      × (rest_size_of_current_area log.write_start ≡ head_size + length after)
ends_of m log ps es after v =
    let start = space_start log.cs in
    let n = log.reserve_size + length (entries_bytes es) in
    let l = v.in_last in
    let room : n + (8 + length after) ≡ capacity start ps = omega (
      arith,
      ap length v.bytes_are,
      length-bytes_from m start ps,
      v.reserved,
      length-append v.reserve (entries_bytes es ++ (foot_bytes ++ after)),
      length-append (entries_bytes es) (foot_bytes ++ after),
    ) in
    let (none_behind, area) = spot-last_area start n ps v.start.areas (omega arith) (omega arith) in
    let left = capacity-spot start n ps v.start.areas (omega arith) in
    let bare : capacity (spot start ps n).0 [] ≡ head_size + length after =
      ap (capacity (spot start ps n).0) (sym none_behind) ∙ left ∙ omega arith in
    (ap current_area_of_addr v.ends ∙ area, ap rest_size_of_current_area v.ends ∙ omega arith)

-- The log that the three calls make of the first page of `log`, whatever was in `blank`.
abbrev rebuilt : Memory → Log → Log → List ℕ → Log
rebuilt m log blank ps = record (log_rebuild_begin blank log.cs.first_area log.reserve_size) {
  write_start = log.write_start;
  cs = record (log_rebuild_begin blank log.cs.first_area log.reserve_size).cs {
    area_num = length (log.cs.first_area ∷ ps);
    rest_size = rest_size_of_current_area log.write_start;
  };
}

rebuilt-IsLog :
    (m : Memory) (log blank : Log) (ps : List ℕ) (es : List Entry) (after : List ℕ)
    → align_up log.reserve_size 8 ≡ log.reserve_size
    → IsLog m log ps es after
    → IsLog m (rebuilt m log blank ps) ps es after
unfolding log_rebuild_begin space_start
rebuilt-IsLog m log blank ps es after r v = record {
  reserve = v.reserve;
  start = v.start;
  reserved = v.reserved ∙ sym r;
  bytes_are = v.bytes_are;
  entries = v.entries;
  ends =
      v.ends ∙ ap (λ k. (spot (space_start log.cs) ps (k + length (entries_bytes es))).0) (sym r);
  counted = (ends_of m log ps es after v).1;
  in_last = v.in_last;
  even = v.even;
}

area_of_space_start :
    (log : Log)
    → IsArea log.cs.first_area
    → current_area_of_addr (space_start log.cs) ≡ log.cs.first_area
unfolding space_start
area_of_space_start log (a, b) = omega arith

-- LogRebuildBegin, LogRebuild and LogRebuildEnd from the first page of a well-formed log, whose size
-- of reserved data is a multiple of 8 and whose `prepare` callbacks ask for no more bytes than each
-- entry has, with fuel for its entries and pages, return a well-formed log with the same entries over
-- the same bytes, and the next entry will be written where it would have been.
pub log_rebuild-IsLog :
    (fuel : ℕ) (ops : LogCleanupOps) (m : Memory) (log blank : Log) (ps : List ℕ) (es : List Entry)
    (after : List ℕ)
    → All (IsModest ops) es
    → IsLog m log ps es after
    → IsArea log.cs.first_area
    → align_up log.reserve_size 8 ≡ log.reserve_size
    → length es < fuel
    → length ps < fuel
    → (events : List LogEvent) × (log1 : Log) × (log2 : Log) × (log_rebuild fuel ops m
          (log_rebuild_begin blank log.cs.first_area log.reserve_size)
        ≡ some (events, log1))
      × (log_rebuild_end fuel m log1 ≡ some log2)
      × IsLog m log2 ps es after
      × (log2.write_start ≡ log.write_start)
unfolding log_rebuild log_rebuild_end log_rebuild_begin rebuild_end for_each_entry space_start
log_rebuild-IsLog fuel ops m log blank ps es after modest v a r le lp =
    let begun = log_rebuild_begin blank log.cs.first_area log.reserve_size in
    let start = space_start log.cs in
    let first = spot start ps (align_up log.reserve_size 8) in
    let (area, _) = ends_of m log ps es after v in
    let own : current_area_of_addr start ≡ log.cs.first_area = area_of_space_start log a in
    let again = rebuilt-IsLog m log blank ps es after r v in
    let each =
      for_each_entry-entries fuel ops m (rebuilt m log blank ps) ps es after modest again le in
    let pages : recovery_pages fuel m log.cs.first_area (current_area_of_addr log.write_start)
        ≡ some (log.cs.first_area ∷ ps) =
      ap (recovery_pages fuel m log.cs.first_area) (area ∙ ap (λ z. last_area z ps) own)
      ∙ recovery_pages-Chain fuel m log.cs.first_area ps
          (subst (λ z. Chain m z ps) own v.start.chain)
          (subst (λ z. Distinct (z ∷ ps)) own v.start.distinct) lp in
    (
      all_events ops first.0 first.1 es,
      record begun { write_start = log.write_start },
      rebuilt m log blank ps,
      ap (λ o. o >>= λ (events, last). some (events, record begun { write_start = last })) each,
      rw pages,
      again,
      refl,
    )
