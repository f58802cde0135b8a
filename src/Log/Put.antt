-- ===== src/Log/Put.antt =====
-- A well-formed log, and an entry that is put behind the others where there is space.
use nvmfs.Prelude.{
  ℕ, ◌+◌, ◌-◌, ◌%◌, ◌^◌, ◌≤◌, ◌<◌, ◌≡◌, ◌≢◌, ◌⊎◌, refl, sym, ap, ◌∙◌, inl, inr, Option, none, some,
  List, [], ◌∷◌, ◌++◌, append_assoc, append-nil, length, take, drop, All, arith, length-append,
  length-take, length-drop, take-append-drop, subst, of_some, not_some,
}
use nvmfs.Types.{u32_mod, align_up}
use nvmfs.Memory.{Memory}
use nvmfs.ContinousSpace.{area_size, space_start}
use nvmfs.ContinousSpace.Bytes.{IsAt, bytes_from}
use nvmfs.ContinousSpace.Spot.{spot, calculate_next_addr-spot, IsAt-spot}
use nvmfs.ContinousSpace.Read.{capacity, length-bytes_from}
use nvmfs.Log.{
  Log, LogEntryHead, head_size, head_bytes, head_data, foot_bytes, write_entry, LogCleanupOps,
  for_each_entry,
}
use nvmfs.Log.Append.{write_entry-Wrote, body_after}
use nvmfs.Log.Splice.{bytes_from-at, spot-spot}
use nvmfs.Log.Entries.{
  Entry, IsEntry, content, entries_bytes, all_events, IsModest, for_each-entries,
}

-- The log's entries are `es`; the unused bytes behind its foot are `after`, on the last page.
pub record IsLog (m : Memory) (log : Log) (ps : List ℕ) (es : List Entry) (after : List ℕ)
    : Type 0 where
  pub reserve : List ℕ
  pub start : IsAt m (space_start log.cs) ps
  pub reserved : length reserve ≡ log.reserve_size
  pub bytes_are :
      bytes_from m (space_start log.cs) ps ≡ reserve ++ (entries_bytes es ++ (foot_bytes ++ after))
  pub entries : All IsEntry es
  pub ends :
      log.write_start
      ≡ (spot (space_start log.cs) ps (log.reserve_size + length (entries_bytes es))).0
  pub counted : log.cs.rest_size ≡ head_size + length after
  pub in_last : head_size + length after ≤ area_size
  pub even : length after % 8 ≡ 0

pub entries_bytes-append :
    (es : List Entry) (e : Entry)
    → entries_bytes (es ++ (e ∷ [])) ≡ entries_bytes es ++ (head_bytes e.head ++ content e)
entries_bytes-append [] e = ap (λ x. head_bytes e.head ++ x) (append-nil (content e))
entries_bytes-append (d ∷ es) e =
    ap (λ x. head_bytes d.head ++ (content d ++ x)) (entries_bytes-append es e)
    ∙ ap (λ x. head_bytes d.head ++ x)
        (sym (append_assoc (content d) (entries_bytes es) (head_bytes e.head ++ content e)))

pub length-entries_bytes-append :
    (es : List Entry) (e : Entry)
    → IsEntry e
    → length (entries_bytes (es ++ (e ∷ [])))
      ≡ length (entries_bytes es) + head_size + align_up e.head.size 8
length-entries_bytes-append es e ok = omega (
  arith,
  ap length (entries_bytes-append es e),
  length-append (entries_bytes es) (head_bytes e.head ++ content e),
  length-append e.body e.padding,
  ok.padded,
)

pub All-snoc :
    (es : List Entry) (e : Entry) → All IsEntry es → IsEntry e → All IsEntry (es ++ (e ∷ []))
All-snoc [] e a ok = (ok, tt)
All-snoc (d ∷ es) e (b, a) ok = (b, All-snoc es e a ok)

pub for_each_entry-entries :
    (fuel : ℕ) (ops : LogCleanupOps) (m : Memory) (log : Log) (ps : List ℕ) (es : List Entry)
    (after : List ℕ)
    → All (IsModest ops) es
    → IsLog m log ps es after
    → length es < fuel
    → (let first = spot (space_start log.cs) ps log.reserve_size in
        for_each_entry fuel ops m log ≡ some (all_events ops first.0 first.1 es, log.write_start))
unfolding for_each_entry
for_each_entry-entries fuel ops m log ps es after modest v l =
    let start = space_start log.cs in
    let room : log.reserve_size + (length (entries_bytes es) + (8 + length after))
        ≡ capacity start ps =
      omega (
        arith,
        ap length v.bytes_are,
        length-bytes_from m start ps,
        v.reserved,
        length-append v.reserve (entries_bytes es ++ (foot_bytes ++ after)),
        length-append (entries_bytes es) (foot_bytes ++ after),
      ) in
    let first = spot start ps log.reserve_size in
    let b : bytes_from m first.0 first.1 ≡ entries_bytes es ++ (foot_bytes ++ after) =
      ap (λ k. bytes_from m (spot start ps k).0 (spot start ps k).1) (sym v.reserved)
      ∙ bytes_from-at m start ps v.reserve (entries_bytes es ++ (foot_bytes ++ after)) v.start
          v.bytes_are (omega (arith, v.reserved)) in
    let all =
      for_each-entries fuel ops m first.0 first.1 es after modest v.entries
        (IsAt-spot m start log.reserve_size ps v.start (omega arith)) b l in
    let e =
      spot-spot start log.reserve_size (length (entries_bytes es)) ps (omega arith) v.start.areas in
    rw (calculate_next_addr-spot m start log.reserve_size ps v.start (omega arith))
      (all ∙ ap (λ z. some (all_events ops first.0 first.1 es, z)) (ap (λ z. z.0) e ∙ sym v.ends))

-- A log with one entry more, as far as the bytes go.
pub record Put (m : Memory) (addr : ℕ) (ps reserve : List ℕ) (es : List Entry) (head : LogEntryHead)
    (aligned : ℕ) (buffer : Option (List ℕ)) (left : ℕ) : Type 0 where
  pub memory : Memory
  pub entry : Entry
  pub after : List ℕ
  pub ok : IsEntry entry
  pub same_head : entry.head ≡ head
  pub same_body : (b : List ℕ) → buffer ≡ some b → entry.body ≡ b
  pub still : IsAt memory addr ps
  pub bytes_are :
      bytes_from memory addr ps
      ≡ reserve ++ (entries_bytes (es ++ (entry ∷ [])) ++ (foot_bytes ++ after))
  pub result :
      (let n = length reserve + length (entries_bytes es) in
        write_entry m (spot addr ps n).0 head aligned buffer
        ≡ some
            ((spot addr ps (n + head_size)).0, (spot addr ps (n + head_size + aligned)).0, memory))
  pub used : length after + head_size + aligned ≡ left

head_data-ne-zero :
    (h : LogEntryHead)
    → h.entry_type < 256
    → h.size < u32_mod
    → (h.entry_type ≢ 0) ⊎ (h.size ≢ 0)
    → head_data (head_bytes h) ≢ 0
head_data-ne-zero h a b (inl n) = λ e. n (omega arith)
head_data-ne-zero h a b (inr n) = λ e. n (omega arith)

regroup {ℓ} :
    {A : Type ℓ} (a h b p o : List A) → a ++ (h ++ (b ++ (p ++ o))) ≡ (a ++ (h ++ (b ++ p))) ++ o
regroup a h b p o = simp append_assoc

pub align_up-8 :
    (n : ℕ) → n < 2 ^ 31 → (align_up n 8 % 8 ≡ 0) × (n ≤ align_up n 8) × (align_up n 8 < n + 8)
unfolding align_up
align_up-8 n h = (omega arith, omega arith, omega arith)

length-body_after :
    (buffer : Option (List ℕ)) (old : List ℕ) (n : ℕ)
    → length old ≡ n
    → ((b : List ℕ) → buffer ≡ some b → length b ≡ n)
    → length (body_after buffer old) ≡ n
length-body_after none old n h k = h
length-body_after (some b) old n h k = k b refl

body_after-some :
    (buffer : Option (List ℕ)) (old b : List ℕ) → buffer ≡ some b → body_after buffer old ≡ b
body_after-some none old b h = absurd (not_some refl h)
body_after-some (some c) old b h = of_some h

pub write_entry-Put :
    (m : Memory) (addr : ℕ) (ps reserve : List ℕ) (es : List Entry) (head : LogEntryHead)
    (buffer : Option (List ℕ)) (after : List ℕ)
    → IsAt m addr ps
    → bytes_from m addr ps ≡ reserve ++ (entries_bytes es ++ (foot_bytes ++ after))
    → head.entry_type < 256
    → head.size < 2 ^ 31
    → (head.entry_type ≢ 0) ⊎ (head.size ≢ 0)
    → ((b : List ℕ) → buffer ≡ some b → length b ≡ head.size)
    → align_up head.size 8 + head_size ≤ length after
    → Put m addr ps reserve es head (align_up head.size 8) buffer (length after)
write_entry-Put m addr ps reserve es head buffer after v e t s nz whole room =
    let aligned = align_up head.size 8 in
    let (_, low, _) = align_up-8 head.size s in
    let old = take head.size after in
    let rest1 = drop head.size after in
    let pad = take (aligned - head.size) rest1 in
    let rest2 = drop (aligned - head.size) rest1 in
    let old_foot = take head_size rest2 in
    let rest3 = drop head_size rest2 in
    let l1 = length-drop head.size after in
    let l2 = length-drop (aligned - head.size) rest1 in
    let l3 = length-drop head_size rest2 in
    let lo : length old ≡ head.size = omega (arith, length-take head.size after) in
    let lp : length pad ≡ aligned - head.size =
      omega (arith, length-take (aligned - head.size) rest1) in
    let lf : length old_foot ≡ head_size = omega (arith, length-take head_size rest2) in
    let parts : after ≡ old ++ (pad ++ (old_foot ++ rest3)) =
      sym (take-append-drop head.size after)
      ∙ ap (λ x. old ++ x)
          (sym (take-append-drop (aligned - head.size) rest1)
            ∙ ap (λ x. pad ++ x) (sym (take-append-drop head_size rest2))) in
    let before = reserve ++ entries_bytes es in
    let lb : length (body_after buffer old) ≡ head.size =
      length-body_after buffer old head.size lo whole in
    let n : length before ≡ length reserve + length (entries_bytes es) =
      length-append reserve (entries_bytes es) in
    let w =
      write_entry-Wrote m addr ps before head aligned buffer old pad old_foot rest3 v
        (e
          ∙ ap (λ x. reserve ++ (entries_bytes es ++ (foot_bytes ++ x))) parts
          ∙ sym (
              append_assoc reserve (entries_bytes es)
                (foot_bytes ++ (old ++ (pad ++ (old_foot ++ rest3))))))
        (lb ∙ sym lo) (omega arith) lf in
    let entry : Entry = record { head = head; body = body_after buffer old; padding = pad } in
    record {
      memory = w.memory;
      entry = entry;
      after = rest3;
      ok = record {
        small_type = t;
        small = omega arith;
        whole = lb;
        padded = omega arith;
        not_foot = head_data-ne-zero head t (omega arith) nz;
      };
      same_head = refl;
      same_body = body_after-some buffer old;
      still = w.still;
      bytes_are =
          w.bytes_now
          ∙ append_assoc reserve (entries_bytes es)
              (head_bytes head ++ (entry.body ++ (pad ++ (foot_bytes ++ rest3))))
          ∙ ap (λ x. reserve ++ x)
              (regroup (entries_bytes es) (head_bytes head) entry.body pad (foot_bytes ++ rest3)
                ∙ ap (λ x. x ++ (foot_bytes ++ rest3)) (sym (entries_bytes-append es entry)));
      result =
          subst
            (λ k.
              write_entry m (spot addr ps k).0 head aligned buffer
              ≡ some (
                (spot addr ps (k + head_size)).0,
                (spot addr ps (k + head_size + aligned)).0,
                w.memory,
              ))
            n w.result;
      used = omega arith;
    }
