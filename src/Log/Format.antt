-- ===== src/Log/Format.antt =====
-- LogFormat: a log without entries on a new page.
use nvmfs.Prelude.{
  ℕ, ◌-◌, ◌≤◌, ◌≡◌, refl, sym, ap, ◌∙◌, some, List, [], ◌++◌, length, take, drop, arith, add64,
  sub64, take-append-drop, length-take, length-drop,
}
use nvmfs.Types.{align_up}
use nvmfs.Memory.{Memory}
use nvmfs.ContinousSpace.{
  calculate_next_addr, ContinousSpace, PageAllocator, area_size, addr_size, space_start,
  space_format, notify_used_space,
}
use nvmfs.ContinousSpace.Bytes.{IsArea, IsAt, bytes_from}
use nvmfs.ContinousSpace.Spot.{spot, calculate_next_addr-spot}
use nvmfs.ContinousSpace.Read.{length-bytes_from}
use nvmfs.Log.{Log, foot_bytes, format_log, log_format}
use nvmfs.Log.Splice.{space_write-Spliced}
use nvmfs.Log.Put.{IsLog, align_up-8}

align_up-align_up : (n : ℕ) → n ≤ 4080 → align_up (align_up n 8) 8 ≡ align_up n 8
unfolding align_up
align_up-align_up n h = omega arith

-- LogFormat with at most 4080 bytes of reserved data, from a pool that hands out a page of 4 KB,
-- succeeds and returns a well-formed log on that page, without entries.
pub log_format-IsLog {ℓ} :
    {Pool : Type ℓ} (pp : PageAllocator Pool) (pool pool' : Pool) (reserve_size : ℕ) (m : Memory)
    (first : ℕ)
    → pp.alloc pool ≡ some (first, pool')
    → IsArea first
    → reserve_size ≤ 4080
    → (log : Log) × (m' : Memory) × (after : List ℕ) × (log_format pp pool reserve_size m
        ≡ some (some (log, pool', m')))
      × IsLog m' log [] [] after
      × (log.reserve_size ≡ align_up reserve_size 8)
      × (log.cs.first_area ≡ first)
unfolding log_format format_log space_format space_start notify_used_space
log_format-IsLog {Pool = Pool} pp pool pool' reserve_size m first e (a, b) h =
    let size = align_up reserve_size 8 in
    let again : align_up size 8 ≡ size = align_up-align_up reserve_size h in
    let (even, low, high) = align_up-8 reserve_size (omega arith) in
    let start = add64 first addr_size in
    let bs = bytes_from m start [] in
    let len : length bs ≡ area_size = length-bytes_from m start [] ∙ omega arith in
    let v : IsAt m start [] = record {
      inside = omega arith;
      small = omega arith;
      areas = tt;
      distinct = (tt, tt);
      chain = tt;
    } in
    let reserve = take size bs in
    let rest = drop size bs in
    let l1 : length reserve ≡ size = omega (arith, length-take size bs) in
    let l2 : length rest ≡ area_size - size = omega (arith, length-drop size bs) in
    let l3 : length (take 8 rest) ≡ 8 = omega (arith, length-take 8 rest) in
    let l4 : length (drop 8 rest) ≡ area_size - size - 8 = omega (arith, length-drop 8 rest) in
    let split : bs ≡ reserve ++ (take 8 rest ++ drop 8 rest) =
      sym (take-append-drop size bs) ∙ ap (λ x. reserve ++ x) (sym (take-append-drop 8 rest)) in
    let w =
      space_write-Spliced m start [] reserve (take 8 rest) foot_bytes (drop 8 rest) size v split l1
        l3 (omega arith) in
    let addr : calculate_next_addr m start size ≡ some (spot start [] size).0 =
      calculate_next_addr-spot m start size [] v (omega arith) in
    let log : Log = record {
      reserve_size = align_up size 8;
      write_start = (spot start [] size).0;
      cs = record { first_area = first; rest_size = sub64 area_size size; area_num = 1 };
    } in
    let cs : ContinousSpace = record { first_area = first; rest_size = area_size; area_num = 1 } in
    let formatted : space_format pp pool ≡ some (cs, pool') = rw e in
    let sub : sub64 area_size size ≡ area_size - size = omega arith in
    (
      log,
      w.memory,
      drop 8 rest,
      ap (format_log reserve_size m) formatted ∙ rw (addr, w.result),
      record {
        reserve = reserve;
        start = w.still;
        reserved = l1 ∙ sym again;
        bytes_are = w.bytes_now;
        entries = tt;
        ends = rw again (omega arith);
        counted = omega arith;
        in_last = omega arith;
        even = omega arith;
      },
      again,
      refl,
    )
