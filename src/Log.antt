-- ===== src/Log.antt =====
-- src/fs/Log.c: entries behind one another in a continuous space, each with a head of 8 bytes; a head
-- of zeros ends the log.
pub mod Splice
pub mod Append
pub mod Entries
pub mod Put
pub mod Grow
pub mod Reserve
pub mod Write
pub mod Format
pub mod Rebuild
use nvmfs.Prelude.{
  ℕ, zero, suc, ◌+◌, ◌-◌, ◌*◌, ◌%◌, ◌^◌, Bool, true, false, Option, none, some, ◌>>=◌, List, [],
  ◌∷◌, ◌++◌, length, take, drop, ◌==◌, ◌&&◌, if◌then◌else◌, add64,
}
use nvmfs.Types.{u32_mod, align_up, invalid_nvm_addr}
use nvmfs.Memory.{Memory, from_bytes, to_bytes}
use nvmfs.ContinousSpace.{
  ContinousSpace, PageAllocator, space_write, space_read, calculate_next_addr, space_start,
  notify_used_space, ensure_enough_space, space_format, space_destroy, space_recovery, rebuild_end,
}

pub record Log : Type 0 where
  pub reserve_size : ℕ
  pub write_start : ℕ
  pub cs : ContinousSpace

-- The size of a head, and of the foot that is the next entry's head.
abbrev pub head_size : ℕ
head_size = 8

pub record LogEntryHead : Type 0 where
  pub entry_type : ℕ
  pub size : ℕ

-- The type in the first byte, the size in the last four; the bytes between them are zeros.
abbrev pub head_bytes : LogEntryHead → List ℕ
head_bytes h = h.entry_type % 256 ∷ 0 ∷ 0 ∷ 0 ∷ to_bytes 4 (h.size % u32_mod)

abbrev pub head_of : List ℕ → LogEntryHead
head_of bytes = record { entry_type = from_bytes (take 1 bytes); size = from_bytes (drop 4 bytes) }

-- `head.data`
abbrev pub head_data : List ℕ → ℕ
head_data = from_bytes

abbrev pub foot_bytes : List ℕ
foot_bytes = to_bytes 8 0

unfoldable pub write_buffer : Memory → Option (List ℕ) → ℕ → Option Memory
write_buffer m none addr = some m
write_buffer m (some buffer) addr = space_write m buffer addr

-- What is written once there is space: the body, the foot, and last the head, which makes the entry
-- part of the log. The entry's address, the foot's address and the memory.
unfoldable pub write_entry :
    Memory → ℕ → LogEntryHead → ℕ → Option (List ℕ) → Option (ℕ × ℕ × Memory)
write_entry m head_addr head aligned_size buffer =
    calculate_next_addr m head_addr head_size >>= λ entry_addr.
    calculate_next_addr m entry_addr aligned_size >>= λ foot_addr.
    write_buffer m buffer entry_addr >>= λ m1. space_write m1 foot_bytes foot_addr >>= λ m2.
    space_write m2 (head_bytes head) head_addr >>= λ m3. some (entry_addr, foot_addr, m3)

-- One call of `cleanup`: the type, the size, the buffer, and where the body starts and ends.
pub record LogEvent : Type 0 where
  pub entry_type : ℕ
  pub size : ℕ
  pub buffer : Option (List ℕ)
  pub read_start : ℕ
  pub read_end : ℕ

-- What the callbacks of a type do as far as the log sees it: whether there is a `prepare`, and the
-- size that it asks for; and whether there is a `cleanup`.
pub record LogCleanupOps : Type 0 where
  pub prepare : ℕ → Option (ℕ → ℕ)
  pub has_cleanup : ℕ → Bool

-- The event of an entry whose type has a `prepare` that asks for `size` bytes.
unfoldable pub prepared_event : Memory → ℕ → ℕ → ℕ → Option (List LogEvent)
prepared_event m addr entry_type size = calculate_next_addr m addr head_size >>= λ read_start.
    calculate_next_addr m read_start size >>= λ read_end. space_read m size read_start >>= λ buffer.
    some (
      record {
        entry_type = entry_type;
        size = size;
        buffer = some buffer;
        read_start = read_start;
        read_end = read_end;
      }
      ∷ [])

-- Without a `prepare`, only an entry without a body is cleaned up.
abbrev pub bare_events : Bool → LogEntryHead → List LogEvent
bare_events has_cleanup head =
    if align_up head.size 8 == 0 && has_cleanup
    then record {
      entry_type = head.entry_type;
      size = 0;
      buffer = none;
      read_start = invalid_nvm_addr;
      read_end = invalid_nvm_addr;
    }
      ∷ []
    else []

unfoldable pub events_by :
    Option (ℕ → ℕ) → Bool → Memory → ℕ → LogEntryHead → Option (List LogEvent)
events_by none has_cleanup m addr head = some (bare_events has_cleanup head)
events_by (some prepared) has_cleanup m addr head =
    prepared_event m addr head.entry_type (prepared head.size)

-- The events of one entry whose head stands at `addr`.
unfoldable pub entry_events : LogCleanupOps → Memory → ℕ → LogEntryHead → Option (List LogEvent)
entry_events ops m addr head =
    events_by (ops.prepare head.entry_type) (ops.has_cleanup head.entry_type) m addr head

-- The loop of LogForEachEntryImpl from `addr` on: the events, and where the foot stands. `fuel`
-- bounds the entries.
unfoldable pub for_each_entry_from : ℕ → LogCleanupOps → Memory → ℕ → Option (List LogEvent × ℕ)
for_each_entry_from zero ops m addr = none
for_each_entry_from (suc fuel) ops m addr = space_read m head_size addr >>= λ bytes.
    let head = head_of bytes in
    let more = entry_events ops m addr head >>= λ events.
    calculate_next_addr m addr (align_up head.size 8 + head_size) >>= λ next.
    for_each_entry_from fuel ops m next >>= λ (rest, last). some (events ++ rest, last) in
    if head_data bytes == 0 then some ([], addr) else more

unfoldable pub for_each_entry : ℕ → LogCleanupOps → Memory → Log → Option (List LogEvent × ℕ)
for_each_entry fuel ops m log =
    calculate_next_addr m (space_start log.cs) log.reserve_size >>= λ addr.
    for_each_entry_from fuel ops m addr

unfoldable pub log_write_reserve_data : Memory → Log → ℕ → List ℕ → Option Memory
log_write_reserve_data m log offset buffer =
    calculate_next_addr m (space_start log.cs) offset >>= λ addr. space_write m buffer addr

unfoldable pub log_recovery_read_reserve_data : Memory → ℕ → ℕ → ℕ → Option (List ℕ)
log_recovery_read_reserve_data m first_area size offset =
    calculate_next_addr m (add64 first_area 8) offset >>= λ addr. space_read m size addr

-- The events, and the pages that are notified as busy.
unfoldable pub log_recovery : ℕ → LogCleanupOps → Memory → Log → Option (List LogEvent × List ℕ)
log_recovery fuel ops m log = for_each_entry fuel ops m log >>= λ (events, last).
    space_recovery fuel log.cs m last >>= λ areas. some (events, areas)

unfoldable pub log_rebuild_begin : Log → ℕ → ℕ → Log
log_rebuild_begin log addr reserve_size = record log {
  reserve_size = align_up reserve_size 8;
  cs = record log.cs { first_area = addr };
}

unfoldable pub log_rebuild : ℕ → LogCleanupOps → Memory → Log → Option (List LogEvent × Log)
log_rebuild fuel ops m log = for_each_entry fuel ops m log >>= λ (events, last).
    some (events, record log { write_start = last })

unfoldable pub log_rebuild_end : ℕ → Memory → Log → Option Log
log_rebuild_end fuel m log =
    rebuild_end fuel log.cs m log.write_start >>= λ cs. some (record log { cs = cs })

pub record LogStepWriteHandle : Type 0 where
  pub head_addr : ℕ
  pub entry_addr : ℕ
  pub foot_addr : ℕ
  pub head : LogEntryHead

unfoldable pub log_step_write_continue :
    Memory → LogStepWriteHandle → List ℕ → Option (LogStepWriteHandle × Memory)
log_step_write_continue m handle buffer = space_write m buffer handle.entry_addr >>= λ m'.
    calculate_next_addr m' handle.entry_addr (length buffer) >>= λ addr.
    some (record handle { entry_addr = addr }, m')

unfoldable pub log_step_write_end : Memory → LogStepWriteHandle → Option Memory
log_step_write_end m handle = space_write m (head_bytes handle.head) handle.head_addr

-- What is written behind a reservation that had enough space.
unfoldable pub write_reserved {ℓ} :
    {Pool : Type ℓ}
    → ℕ
    → LogEntryHead
    → ℕ
    → Option (List ℕ)
    → Bool × Log × Pool × Memory
    → Option (Option ℕ × Log × Pool × Memory)
write_reserved start head aligned_size buffer (false, log, pool, m) = some (none, log, pool, m)
write_reserved start head aligned_size buffer (true, log, pool, m) =
    write_entry m start head aligned_size buffer >>= λ (entry, foot, m').
    some (some entry, record log { write_start = foot }, pool, m')

-- What LogFormat does behind ContinousSpaceFormat. The inner `none`: -ENOSPC.
unfoldable pub format_log {ℓ} :
    {Pool : Type ℓ}
    → ℕ
    → Memory
    → Option (ContinousSpace × Pool)
    → Option (Option (Log × Pool × Memory))
format_log reserve_size m none = some none
format_log reserve_size m (some (cs, pool)) =
    let size = align_up reserve_size 8 in
    calculate_next_addr m (space_start cs) size >>= λ addr. space_write m foot_bytes addr >>= λ m'.
    some (
      some (
        record {
          reserve_size = align_up size 8;
          write_start = addr;
          cs = notify_used_space cs size;
        },
        pool,
        m',
      ))

module _ {ℓ} {Pool : Type ℓ} (pp : PageAllocator Pool) where
  unfoldable pub log_format : Pool → ℕ → Memory → Option (Option (Log × Pool × Memory))
  unfolding format_log
  log_format pool reserve_size m = format_log reserve_size m (space_format pp pool)

  -- The space is counted as used whether or not it could be had.
  unfoldable pub reserve_entry : Log → ℕ → Pool → Memory → Bool × Log × Pool × Memory
  reserve_entry log aligned_size pool m =
      let (enough, cs, pool', m') =
        ensure_enough_space pp log.cs log.write_start (head_size + head_size + aligned_size) pool
          m in
      (enough, record log { cs = notify_used_space cs (head_size + aligned_size) }, pool', m')

  -- The entry's address (none: -ENOSPC), and all that it changes. The buffer holds `size` bytes.
  unfoldable pub log_write :
      Log → ℕ → Option (List ℕ) → ℕ → Pool → Memory → Option (Option ℕ × Log × Pool × Memory)
  unfolding write_reserved
  log_write log size buffer entry_type pool m =
      let head : LogEntryHead = record { entry_type = entry_type % 256; size = size % u32_mod } in
      write_reserved log.write_start head (align_up size 8) buffer
        (reserve_entry log (align_up size 8) pool m)

  unfoldable pub log_step_write_begin :
      Log → ℕ → ℕ → Pool → Memory → Option (Option LogStepWriteHandle × Log × Pool × Memory)
  log_step_write_begin log entry_type total_size pool m =
      let aligned_size = align_up total_size 8 in
      let (enough, log', pool', m') = reserve_entry log aligned_size pool m in
      let write = calculate_next_addr m' log.write_start head_size >>= λ entry_addr.
      calculate_next_addr m' entry_addr aligned_size >>= λ foot_addr.
      space_write m' foot_bytes foot_addr >>= λ m''. some (
        some (record {
          head_addr = log.write_start;
          entry_addr = entry_addr;
          foot_addr = foot_addr;
          head = record { entry_type = entry_type % 256; size = total_size % u32_mod };
        }),
        record log' { write_start = foot_addr },
        pool',
        m'',
      ) in
      if enough then write else some (none, log', pool', m')

  unfoldable pub log_destroy : Log → Memory → Pool → Log × Pool
  log_destroy log m pool =
      let (cs, pool') = space_destroy pp log.cs m pool in (record log { cs = cs }, pool')
