-- ===== src/Log/Grow.antt =====
-- An entry written into space that has been made for it.
use nvmfs.Prelude.{
  ℕ, ◌+◌, ◌%◌, ◌^◌, ◌≤◌, ◌<◌, ◌≡◌, ◌≢◌, ◌⊎◌, sym, ap, ◌∙◌, Option, some, List, [], ◌∷◌, ◌++◌,
  length, All, arith, u64_mod, sub64,
}
use nvmfs.Types.{align_up}
use nvmfs.Memory.{Memory}
use nvmfs.ContinousSpace.{area_size, space_start, notify_used_space}
use nvmfs.ContinousSpace.Bytes.{IsAt, bytes_from}
use nvmfs.ContinousSpace.Spot.{spot}
use nvmfs.Log.{Log, LogEntryHead, head_size, foot_bytes, write_entry}
use nvmfs.Log.Entries.{Entry, IsEntry, entries_bytes}
use nvmfs.Log.Put.{IsLog, write_entry-Put, All-snoc, align_up-8, length-entries_bytes-append}

-- A log whose entries are `es` and one more, written from `buffer`.
pub record Grown (m : Memory) (log : Log) (es : List Entry) (head : LogEntryHead)
    (buffer : Option (List ℕ)) : Type 0 where
  pub entry : Entry
  pub areas : List ℕ
  pub after : List ℕ
  pub valid : IsLog m log areas (es ++ (entry ∷ [])) after
  pub same_head : entry.head ≡ head
  pub same_body : (b : List ℕ) → buffer ≡ some b → entry.body ≡ b

-- The log once `used` bytes of a space with `rest_size` bytes in `area_num` areas are taken.
abbrev pub taken_log : Log → ℕ → ℕ → ℕ → Log
taken_log log area_num rest_size used = record log {
  cs = notify_used_space (record log.cs { area_num = area_num; rest_size = rest_size }) used;
}

module _ (log : Log) (es : List Entry) (head : LogEntryHead) (buffer : Option (List ℕ))
    (entry_type_small : head.entry_type < 256) (size_small : head.size < 2 ^ 31)
    (not_foot : (head.entry_type ≢ 0) ⊎ (head.size ≢ 0))
    (whole : (b : List ℕ) → buffer ≡ some b → length b ≡ head.size) where
  abbrev pub aligned : ℕ
  aligned = align_up head.size 8

  -- The entry is written where the reservation has made space.
  pub grow :
      (m : Memory) (area_num rest_size : ℕ) (ps reserve : List ℕ) (after : List ℕ)
      → IsAt m (space_start log.cs) ps
      → length reserve ≡ log.reserve_size
      → bytes_from m (space_start log.cs) ps
        ≡ reserve ++ (entries_bytes es ++ (foot_bytes ++ after))
      → All IsEntry es
      → log.write_start
        ≡ (spot (space_start log.cs) ps (log.reserve_size + length (entries_bytes es))).0
      → rest_size ≡ head_size + length after
      → rest_size < u64_mod
      → length after % 8 ≡ 0
      → aligned + head_size ≤ length after
      → length after ≤ aligned + area_size
      → (entry_addr : ℕ) × (foot : ℕ) × (m' : Memory) × (write_entry m log.write_start head aligned
            buffer
          ≡ some (entry_addr, foot, m'))
        × Grown m'
            (record (taken_log log area_num rest_size (head_size + aligned)) { write_start = foot })
            es
            head
            buffer
  unfolding notify_used_space space_start
  grow m area_num rest_size ps reserve after v r b en ws c sm ev room last =
      let start = space_start log.cs in
      let (al8, _, high) = align_up-8 head.size size_small in
      let p =
        write_entry-Put m start ps reserve es head buffer after v b entry_type_small size_small
          not_foot whole room in
      let n = length reserve + length (entries_bytes es) in
      let used = p.used in
      let at : log.write_start ≡ (spot start ps n).0 =
        ws ∙ ap (λ k. (spot start ps (k + length (entries_bytes es))).0) (sym r) in
      let k : n + head_size + aligned
          ≡ log.reserve_size + length (entries_bytes (es ++ (p.entry ∷ []))) =
        omega (
          arith,
          r,
          length-entries_bytes-append es p.entry p.ok,
          ap (λ z. align_up z.size 8) p.same_head,
        ) in
      let left : sub64 rest_size (head_size + aligned) ≡ head_size + length p.after = omega arith in
      (
        (spot start ps (n + head_size)).0,
        (spot start ps (n + head_size + aligned)).0,
        p.memory,
        ap (λ z. write_entry m z head aligned buffer) at ∙ p.result,
        record {
          entry = p.entry;
          areas = ps;
          after = p.after;
          valid = record {
            reserve = reserve;
            start = p.still;
            reserved = r;
            bytes_are = p.bytes_are;
            entries = All-snoc es p.entry en p.ok;
            ends = ap (λ z. (spot start ps z).0) k;
            counted = left;
            in_last = omega arith;
            even = omega arith;
          };
          same_head = p.same_head;
          same_body = p.same_body;
        },
      )
