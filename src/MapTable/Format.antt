-- ===== src/MapTable/Format.antt =====
-- MapTableFormat and MapTableSplit: the tables they make, and what MapTableQuery answers on them.
use nvmfs.Prelude.{
  ℕ, zero, suc, ◌+◌, ◌*◌, ◌%◌, ◌^◌, ◌≤◌, ◌<◌, ◌≡◌, refl, sym, ap, subst, ◌∙◌, false, none, some,
  of_some, not_some, length, get_elem?, get_elem?-lt, arith, u64_mod,
}
use nvmfs.MapTable.{BlockEntry, format_entries, format, query, index_of_block, block_offset_of_addr}
use nvmfs.MapTable.Valid.{IsEntry, IsValid}
use nvmfs.MapTable.Query.{query-place, offset_in-whole, place}

abbrev fresh : ℕ → BlockEntry
fresh k = record { fine_grain = false; busy = false; lock = 0; phys_block_index = k; ptr = none }

length-format_entries : (n i : ℕ) → length (format_entries n i) ≡ n
length-format_entries zero i = refl
length-format_entries (suc n) i = ap suc (length-format_entries n (i + 1))

format_entries-at :
    (n i k : ℕ) → k < n → i + n ≤ 2 ^ 39 → get_elem? (format_entries n i) k ≡ some (fresh (i + k))
format_entries-at zero i k h b = absurd (omega arith)
format_entries-at (suc n) i zero h b = let e : i % 2 ^ 39 ≡ i + 0 = omega arith in rw e
format_entries-at (suc n) i (suc k) h b =
    let e : i + 1 + k ≡ i + suc k = omega arith in
    format_entries-at n (i + 1) k (omega arith) (omega arith) ∙ ap (λ z. some (fresh z)) e

fresh-IsEntry : (k : ℕ) → IsEntry (fresh k)
fresh-IsEntry k = record {
  has_pages = λ h. absurd (ground arith);
  paged = λ h. absurd (not_some refl h);
}

module _ (n d : ℕ) (small : n ≤ 2 ^ 18) where
  format-entry : (k : ℕ) {e : BlockEntry} → get_elem? (format_entries n 0) k ≡ some e → e ≡ fresh k
  format-entry k g =
      let l = get_elem?-lt (format_entries n 0) k g in
      let lt : k < n = omega (arith, l, length-format_entries n 0) in
      let z : 0 + k ≡ k = omega arith in
      of_some (sym g ∙ format_entries-at n 0 k lt (omega arith)) ∙ ap fresh z

  pub format-IsValid : d + n * 2 ^ 21 ≤ u64_mod → IsValid (format n d)
  unfolding format
  format-IsValid room = record {
    whole = length-format_entries n 0;
    room = room;
    few = small;
    entry = λ k g. subst IsEntry (sym (format-entry k g)) (fresh-IsEntry k);
    small = λ k g.
        let l = get_elem?-lt (format_entries n 0) k g in
        omega
          (arith, l, length-format_entries n 0, ap (λ z. z.phys_block_index) (format-entry k g));
    unique = λ i j g k h.
        sym (ap (λ z. z.phys_block_index) (format-entry i g))
        ∙ h
        ∙ ap (λ z. z.phys_block_index) (format-entry j k);
  }

  query-format_at :
      d + n * 2 ^ 21 ≤ u64_mod
      → (addr : ℕ) → addr < n * 2 ^ 21
      → query (format n d) addr ≡ some (d + addr)
  unfolding format
  query-format_at room addr h =
      let z : 0 + index_of_block addr ≡ index_of_block addr = omega arith in
      let g : get_elem? (format_entries n 0) (index_of_block addr)
          ≡ some (fresh (index_of_block addr)) =
        format_entries-at n 0 (index_of_block addr) (omega arith) (omega arith)
        ∙ ap (λ k. some (fresh k)) z in
      let e : place (format n d) (fresh (index_of_block addr)) (block_offset_of_addr addr)
          ≡ d + addr =
        omega arith in
      query-place (format n d) addr (format-IsValid room) g
        (offset_in-whole (fresh (index_of_block addr)) addr refl) (omega arith)
      ∙ ap some e

  -- If there are at most 2^18 blocks and the data area of `n` blocks from `d` on fits 64 bits, the
  -- table that MapTableFormat makes is valid and sends each logical address below its end to the
  -- address that is as far behind `d`.
  pub query-format :
      d + n * 2 ^ 21 ≤ u64_mod
      → IsValid (format n d)
        × ((addr : ℕ) → addr < n * 2 ^ 21 → query (format n d) addr ≡ some (d + addr))
  query-format room = (format-IsValid room, query-format_at room)
