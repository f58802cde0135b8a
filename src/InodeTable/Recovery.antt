-- ===== src/InodeTable/Recovery.antt =====
-- The queue that InodeTableRecoveryEnd builds from the entries that were not notified as in use.
use nvmfs.Prelude.{
  ℕ, zero, suc, ◌+◌, ◌-◌, ◌≤◌, ◌<◌, ◌≡◌, ◌≢◌, refl, sym, ap, subst, ◌∙◌, inl, inr, Bool, false,
  Bool-cases, Option, none, some, List, [], ◌∷◌, ◌++◌, append-nil, append_assoc, All, length,
  get_elem?, get_elem?-some, set, length-set, get_elem?-set_ne, if◌then◌else◌, arith,
}
use nvmfs.InodeTable.{
  Entry, next, InodeTable, is_unused, append_to_list, append_unused, recovery_end,
}
use nvmfs.InodeTable.Queue.{
  last, IsQueue, All-last, All-append, last-append, Distinct-append, Linked-append, All-inside,
}

abbrev pub holds_unused : Option Entry → Bool
holds_unused none = false
holds_unused (some e) = is_unused e

-- The numbers from `i` on, of `n`, whose entries are unused.
abbrev pub unused : List Entry → ℕ → ℕ → List ℕ
unused es zero i = []
unused es (suc n) i =
    let rest = unused es n (i + 1) in if holds_unused (get_elem? es i) then i ∷ rest else rest

-- An append writes to entries of the queue only.
record Appended (t : InodeTable) (i : ℕ) (xs : List ℕ) : Type 0 where
  pub table : InodeTable
  pub result : append_to_list t i ≡ some table
  pub queue : IsQueue table (xs ++ (i ∷ []))
  pub same_length : length table.list_table ≡ length t.list_table
  pub same_after : (j : ℕ) → i ≤ j → get_elem? table.list_table j ≡ get_elem? t.list_table j

below→ne : (i : ℕ) (xs : List ℕ) → All (λ x. x < i) xs → All (λ x. x ≢ i) xs
below→ne i [] a = tt
below→ne i (x ∷ xs) (h, a) = ((λ e. absurd (omega arith)), below→ne i xs a)

below-suc : (i : ℕ) (xs : List ℕ) → All (λ x. x < i) xs → All (λ x. x < i + 1) xs
below-suc i [] a = tt
below-suc i (x ∷ xs) (h, a) = (omega arith, below-suc i xs a)

append_to_list-Appended :
    (t : InodeTable) (i : ℕ) (xs : List ℕ)
    → IsQueue t xs
    → i < length t.list_table
    → All (λ x. x < i) xs
    → Appended t i xs
unfolding append_to_list
append_to_list-Appended t i [] q b a =
    let (h, l) = q.ends in
    record {
      table = record t { head = some i; tail = some i };
      result = rw h;
      queue = record { ends = (refl, refl, tt); distinct = (tt, tt); inside = (b, tt) };
      same_length = refl;
      same_after = λ j k. refl;
    }
append_to_list-Appended t i (x ∷ xs) q b (p, a) =
    let (h, l, k) = q.ends in
    let end : last x xs < i = All-last (λ z. z < i) x xs p a in
    let es = set t.list_table (last x xs) (next (some i)) in
    record {
      table = record t { list_table = es; tail = some i };
      result = rw (h, l);
      queue = record {
        ends = (
          h,
          ap some (sym (last-append x i xs)),
          Linked-append t.list_table x i xs k q.distinct q.inside,
        );
        distinct = Distinct-append (x ∷ xs) i q.distinct (below→ne i (x ∷ xs) (p, a));
        inside =
            All-inside t.list_table (last x xs) (next (some i)) ((x ∷ xs) ++ (i ∷ []))
              (All-append (λ z. z < length t.list_table) (x ∷ xs) i q.inside b);
      };
      same_length = length-set t.list_table (last x xs) (next (some i));
      same_after = λ j m. get_elem?-set_ne t.list_table (next (some i)) (λ e. absurd (omega arith));
    }

unused-same :
    (es fs : List Entry) (n i : ℕ)
    → ((j : ℕ) → i ≤ j → get_elem? es j ≡ get_elem? fs j)
    → unused es n i ≡ unused fs n i
unused-same es fs zero i h = refl
unused-same es fs (suc n) i h =
    let rest = unused-same es fs n (i + 1) (λ j k. h j (omega arith)) in
    rw (h i (omega arith), rest)

append_unused-IsQueue :
    (n i : ℕ) (t : InodeTable) (xs : List ℕ)
    → IsQueue t xs
    → All (λ x. x < i) xs
    → i + n ≤ length t.list_table
    → (t' : InodeTable) × (append_unused n i t ≡ some t')
      × IsQueue t' (xs ++ unused t.list_table n i)
append_unused-IsQueue zero i t xs q a b = (t, refl, rw (append-nil xs) q)
append_unused-IsQueue (suc n) i t xs q a b =
    let (e, g) = get_elem?-some t.list_table i (omega arith) in
    elim (Bool-cases (is_unused e)) [
      | inr u ↦
          let (t', r, p) =
            append_unused-IsQueue n (i + 1) t xs q (below-suc i xs a) (omega arith) in
          (t', rw (g, u) r, rw (g, u) p)
      | inl u ↦
          let s = append_to_list-Appended t i xs q (omega arith) a in
          let l = s.same_length in
          let (t', r, p) =
            append_unused-IsQueue n (i + 1) s.table (xs ++ (i ∷ [])) s.queue
              (All-append (λ x. x < i + 1) xs i (below-suc i xs a) (omega arith)) (omega arith) in
          let same =
            unused-same s.table.list_table t.list_table n (i + 1)
              (λ j m. s.same_after j (omega arith)) in
          let lists : (xs ++ (i ∷ [])) ++ unused s.table.list_table n (i + 1)
              ≡ xs ++ (i ∷ unused t.list_table n (i + 1)) =
            append_assoc xs (i ∷ []) (unused s.table.list_table n (i + 1))
            ∙ ap (λ z. xs ++ (i ∷ z)) same in
          (t', rw (g, u, s.result) r, rw (g, u) (subst (IsQueue t') lists p))
    ]

-- From a table without free numbers, InodeTableRecoveryEnd succeeds, and the numbers then free are,
-- in their order, exactly the ones from 1 on whose entries are unused.
pub recovery_end-IsQueue :
    (t : InodeTable)
    → IsQueue t []
    → length t.list_table ≡ t.max_inode_num
    → 0 < t.max_inode_num
    → (t' : InodeTable) × (recovery_end t ≡ some t')
      × IsQueue t' (unused t.list_table (t.max_inode_num - 1) 1)
unfolding recovery_end
recovery_end-IsQueue t q h p = append_unused-IsQueue (t.max_inode_num - 1) 1 t [] q tt (omega arith)
