-- ===== src/Tests/Maps.antt =====
-- Tests of MapTable.c.
use nvmfs.Prelude.{
  [], ◌∷◌, ℕ, ◌+◌, ◌-◌, ◌*◌, ◌^◌, ◌≤◌, ◌<◌, ◌≡◌, ◌≢◌, ◌⊎◌, refl, none, some, true, false, ltb, leb,
  ◌&&◌, if◌then◌else◌, arith,
}
use nvmfs.MapTable.{
  BlockEntry, MapTable, format, with_entry, query, split, block_swap_fast, block_swap_slow,
  index_of_block,
}
use nvmfs.MapTable.Lock.{
  block_lock_of, block_read_lock, block_read_unlock, block_write_lock, block_write_unlock,
}
use nvmfs.MapTable.Lock.Sequence.{Writes, done, locking, unlocking, Writes-seen}
use nvmfs.MapTable.Valid.{IsValid}
use nvmfs.MapTable.Query.{query_injective}
use nvmfs.MapTable.Format.{format-IsValid, query-format}
use nvmfs.MapTable.Split.{split-keeps}
use nvmfs.MapTable.View.{copied, Kept, block_swap_fast-keeps, block_swap_slow-keeps}

-- Four blocks behind two pages of other data.
abbrev pub four_blocks : MapTable
four_blocks = format 4 8192

pub four_blocks-IsValid : IsValid four_blocks
four_blocks-IsValid = format-IsValid 4 8192 (omega arith) (omega arith)

query-format_example :
    IsValid (format 4 8192)
    × ((addr : ℕ) → addr < 4 * 2 ^ 21 → query (format 4 8192) addr ≡ some (8192 + addr))
query-format_example = query-format 4 8192 (omega arith) (omega arith)

abbrev inside : ℕ
inside = 2097160

query_at : query four_blocks inside ≡ some 2105352
unfolding query format
query_at = refl

query_injective_example : inside ≡ inside
query_injective_example =
    query_injective four_blocks inside inside 2105352 four_blocks-IsValid query_at query_at

abbrev pub entry_of : ℕ → BlockEntry
entry_of k = record { fine_grain = false; busy = false; lock = 0; phys_block_index = k; ptr = none }

split-keeps_example :
    (t' : MapTable) × (split four_blocks inside ≡ some t')
    × IsValid t'
    × ((x : ℕ) → query t' x ≡ query four_blocks x)
unfolding format
split-keeps_example = split-keeps four_blocks inside {e = entry_of 1} four_blocks-IsValid refl refl

-- A memory of bytes, and a copy byte by byte.
abbrev pub Memory : Type 0
Memory = ℕ → ℕ

abbrev pub look : Memory → ℕ → ℕ
look m addr = m addr

abbrev pub byte_copy : Memory → ℕ → ℕ → ℕ → Memory
byte_copy m dst src n addr =
    if leb dst addr && ltb addr (dst + n) then m (src + (addr - dst)) else m addr

pub look-byte_copy :
    (m : Memory) (dst src n i : ℕ)
    → i < n
    → (dst + n ≤ src) ⊎ (src + n ≤ dst)
    → look (byte_copy m dst src n) (dst + i) ≡ look m (src + i)
look-byte_copy m dst src n i h k =
    let e : dst + i - dst ≡ i = omega arith in
    let low : leb dst (dst + i) ≡ true = ground arith in
    let high : ltb (dst + i) (dst + n) ≡ true = ground arith in rw (low, high, e)

pub look-byte_copy_outside :
    (m : Memory) (dst src n addr : ℕ)
    → (addr < dst) ⊎ (dst + n ≤ addr)
    → look (byte_copy m dst src n) addr ≡ look m addr
look-byte_copy_outside m dst src n addr h = ground arith

block_swap_fast-keeps_example :
    (t' : MapTable) × (block_swap_fast four_blocks 0 2 ≡ some t')
    × IsValid t'
    × ((addr : ℕ)
        → index_of_block addr ≢ 2
        → Kept look byte_copy look-byte_copy look-byte_copy_outside four_blocks
            (λ x. x + 1)
            t'
            (copied look byte_copy look-byte_copy look-byte_copy_outside four_blocks
              (λ x. x + 1)
              2
              0)
            addr)
unfolding format
block_swap_fast-keeps_example =
    block_swap_fast-keeps look byte_copy look-byte_copy look-byte_copy_outside four_blocks
      (λ x. x + 1) 0 2 {ea = entry_of 0} {eb = entry_of 2} four_blocks-IsValid (omega arith) refl
      refl (λ e. absurd (omega arith))

block_swap_slow-keeps_example :
    (t' : MapTable) × (block_swap_slow four_blocks 0 2 3 ≡ some t')
    × IsValid t'
    × ((addr : ℕ)
        → index_of_block addr ≢ 3
        → Kept look byte_copy look-byte_copy look-byte_copy_outside four_blocks
            (λ x. x + 1)
            t'
            (copied look byte_copy look-byte_copy look-byte_copy_outside four_blocks
              (copied look byte_copy look-byte_copy look-byte_copy_outside four_blocks
                (λ x. x + 1)
                3
                2)
              2
              0)
            addr)
unfolding format
block_swap_slow-keeps_example =
    block_swap_slow-keeps look byte_copy look-byte_copy look-byte_copy_outside four_blocks
      (λ x. x + 1) 0 2 3 {ea = entry_of 0} {eb = entry_of 2} {ec = entry_of 3} four_blocks-IsValid
      (omega arith) refl refl refl (λ e. absurd (omega arith)) (λ e. absurd (omega arith))
      (λ e. absurd (omega arith))

abbrev free_block : MapTable
free_block = format 1 8192

abbrev locked_once : MapTable
locked_once = record free_block { entries = record (entry_of 0) { lock = 1 } ∷ [] }

abbrev written_once : MapTable
written_once = record free_block { entries = record (entry_of 0) { lock = 2 } ∷ [] }

-- A reader that sees no writer.
no_write : block_read_unlock free_block 5 0 ≡ some false
unfolding format block_read_unlock block_lock_of
no_write = refl

one_write-Writes : Writes 5 2 free_block written_once
unfolding format block_write_lock block_write_unlock with_entry
one_write-Writes = locking {t1 = locked_once} refl (unlocking {t1 = written_once} refl done)

no_write_read : block_read_lock free_block 5 ≡ some 0
unfolding format block_read_lock block_lock_of
no_write_read = refl

Writes-seen_example : block_read_unlock written_once 5 0 ≡ some true
Writes-seen_example = Writes-seen 5 2 0 no_write_read one_write-Writes (λ e. absurd (omega arith))
