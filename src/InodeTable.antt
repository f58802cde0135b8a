-- ===== src/InodeTable.antt =====
-- src/fs/InodeTable.c: the addresses of inodes by their numbers; the entries of free numbers are
-- linked into a list. Pointers into the table are numbers of entries.
pub mod Queue
pub mod Recovery
use nvmfs.Prelude.{
  ℕ, zero, suc, ◌+◌, ◌-◌, ◌*◌, ◌/◌, ◌^◌, ◌>>=◌, Bool, true, false, Option, none, some, List, [],
  ◌∷◌, get_elem?, set, replicate, ◌==◌, if◌then◌else◌, u64_mod,
}

-- The union: what was written into it last.
pub data Entry : Type 0 where
  next : Option ℕ → Entry
  inode : ℕ → Entry

pub record InodeTable : Type 0 where
  pub max_inode_num : ℕ
  pub list_table : List Entry
  pub head : Option ℕ
  pub tail : Option ℕ
  -- the words of NVM from the table's address on
  pub words : List ℕ

-- -1 on 64 bits
abbrev pub no_inode : ℕ
no_inode = u64_mod - 1

-- Entries `i` to `i + n`, the last one the end of the list.
abbrev pub linked_entries : ℕ → ℕ → List Entry
linked_entries zero i = next none ∷ []
linked_entries (suc n) i = next (some (i + 1)) ∷ linked_entries n (i + 1)

-- Of at least two entries; entry 0 is left as the allocator gives it, here a null pointer: no operation reads it.
unfoldable pub table_format : List ℕ → ℕ → InodeTable
table_format words size =
    let max_inode_num = size / 8 in
    record {
      max_inode_num = max_inode_num;
      list_table = next none ∷ linked_entries (max_inode_num - 2) 1;
      head = some 1;
      tail = some (max_inode_num - 1);
      words = words;
    }

unfoldable pub recovery_preinit : List ℕ → ℕ → InodeTable
recovery_preinit words size = record {
  max_inode_num = size / 8;
  list_table = replicate (size / 8) (inode no_inode);
  head = none;
  tail = none;
  words = words;
}

abbrev pub is_unused : Entry → Bool
is_unused (next p) = false
is_unused (inode a) = a == no_inode

-- Whether the number had been notified, and the table.
unfoldable pub recovery_notify_inode_inuse : InodeTable → ℕ → Option (Bool × InodeTable)
recovery_notify_inode_inuse t ino = get_elem? t.list_table ino >>= λ e.
    if is_unused e
    then (get_elem? t.words ino >>= λ a.
        some (false, record t { list_table = set t.list_table ino (inode a) }))
    else some (true, t)

-- `none`: there is a head, but no tail.
unfoldable pub append_to_list : InodeTable → ℕ → Option InodeTable
append_to_list t ino = elim t.head [
  | none ↦ some (record t { head = some ino; tail = some ino })
  | some h ↦ t.tail >>= λ l.
      some (record t { list_table = set t.list_table l (next (some ino)); tail = some ino })
]

-- The loop of InodeTableRecoveryEnd over `n` numbers from `i` on.
abbrev pub append_unused : ℕ → ℕ → InodeTable → Option InodeTable
append_unused zero i t = some t
append_unused (suc n) i t = get_elem? t.list_table i >>= λ e.
    (if is_unused e then append_to_list t i else some t) >>= λ t'. append_unused n (i + 1) t'

unfoldable pub recovery_end : InodeTable → Option InodeTable
recovery_end t = append_unused (t.max_inode_num - 1) 1 t

-- Where the link of entry `i` points to; `none` if it is not a link, or the entry does not exist.
abbrev pub link_of : List Entry → ℕ → Option (Option ℕ)
link_of es i = get_elem? es i >>= λ e. elim e [ next p ↦ some p | inode a ↦ none ]

abbrev pub invalid_nvmfs_ino : ℕ
invalid_nvmfs_ino = u64_mod - 1

abbrev pub is_same : ℕ → Option ℕ → Bool
is_same i none = false
is_same i (some j) = i == j

-- The number handed out, and the table; `none` if the head's entry does not hold a link.
unfoldable pub get_ino : InodeTable → Option (ℕ × InodeTable)
get_ino t = elim t.head [
  | none ↦ some (invalid_nvmfs_ino, t)
  | some h ↦
      if is_same h t.tail
      then some (h, record t { head = none; tail = none })
      else (link_of t.list_table h >>= λ p. some (h, record t { head = p }))
]

unfoldable pub put_ino : InodeTable → ℕ → Option InodeTable
put_ino t ino = if ino == 0 then some t else append_to_list t ino

-- `none`: the number is outside the table.
unfoldable pub update_inode_addr : InodeTable → ℕ → ℕ → Option InodeTable
update_inode_addr t ino a = get_elem? t.list_table ino >>= λ entry.
    get_elem? t.words ino >>= λ word.
    some (record t { list_table = set t.list_table ino (inode a); words = set t.words ino a })

-- `none`: the entry holds a link, or does not exist.
unfoldable pub get_inode_addr : InodeTable → ℕ → Option ℕ
get_inode_addr t ino =
    get_elem? t.list_table ino >>= λ e. elim e [ next p ↦ none | inode a ↦ some a ]
