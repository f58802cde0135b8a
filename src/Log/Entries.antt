-- ===== src/Log/Entries.antt =====
-- LogForEachEntry over a log's entries.
use nvmfs.Prelude.{
  ℕ, zero, suc, ◌+◌, ◌-◌, ◌*◌, ◌%◌, ◌≤◌, ◌<◌, ◌≡◌, ◌≢◌, refl, sym, ap, ap₂, ◌∙◌, Bool, false,
  Option, none, some, ◌>>=◌, List, [], ◌∷◌, ◌++◌, append_assoc, All, length, take, arith,
  length-append, take-append, append-nil, ◌==◌,
}
use nvmfs.Types.{u32_mod, align_up}
use nvmfs.Memory.{Memory}
use nvmfs.ContinousSpace.{rest_size_of_current_area, space_read, calculate_next_addr}
use nvmfs.ContinousSpace.Bytes.{IsAt, bytes_from}
use nvmfs.ContinousSpace.Read.{capacity, length-bytes_from, space_read-take}
use nvmfs.ContinousSpace.Spot.{spot, spot-here, IsAt-spot, capacity-spot, calculate_next_addr-spot}
use nvmfs.Log.{
  LogEntryHead, head_size, head_bytes, head_of, head_data, foot_bytes, LogEvent, LogCleanupOps,
  prepared_event, bare_events, events_by, entry_events, for_each_entry_from,
}
use nvmfs.Log.Splice.{bytes_from-at, spot-spot}
use nvmfs.Log.Append.{calculate_next_addr-at}

-- The padding is what the space held behind the body before.
pub record Entry : Type 0 where
  pub head : LogEntryHead
  pub body : List ℕ
  pub padding : List ℕ

pub record IsEntry (e : Entry) : Type 0 where
  pub small_type : e.head.entry_type < 256
  pub small : e.head.size < u32_mod
  pub whole : length e.body ≡ e.head.size
  pub padded : length e.body + length e.padding ≡ align_up e.head.size 8
  pub not_foot : head_data (head_bytes e.head) ≢ 0

abbrev pub content : Entry → List ℕ
content e = e.body ++ e.padding

abbrev pub entries_bytes : List Entry → List ℕ
entries_bytes [] = []
entries_bytes (e ∷ es) = head_bytes e.head ++ (content e ++ entries_bytes es)

-- What the callbacks are called with for an entry whose head stands at `addr`.
abbrev pub events_when : Option (ℕ → ℕ) → Bool → ℕ → List ℕ → Entry → List LogEvent
events_when none has_cleanup addr ps e = bare_events has_cleanup e.head
events_when (some prepared) has_cleanup addr ps e =
    record {
      entry_type = e.head.entry_type;
      size = prepared e.head.size;
      buffer = some (take (prepared e.head.size) e.body);
      read_start = (spot addr ps head_size).0;
      read_end = (spot addr ps (head_size + prepared e.head.size)).0;
    }
    ∷ []

abbrev pub events_of : LogCleanupOps → ℕ → List ℕ → Entry → List LogEvent
events_of ops addr ps e =
    events_when (ops.prepare e.head.entry_type) (ops.has_cleanup e.head.entry_type) addr ps e

abbrev pub entry_size : Entry → ℕ
entry_size e = align_up e.head.size 8 + head_size

abbrev pub all_events : LogCleanupOps → ℕ → List ℕ → List Entry → List LogEvent
all_events ops addr ps [] = []
all_events ops addr ps (e ∷ es) =
    events_of ops addr ps e
    ++ all_events ops (spot addr ps (entry_size e)).0 (spot addr ps (entry_size e)).1 es

-- The `prepare` of the entry's type asks for no more bytes than the entry has.
abbrev pub IsModest : LogCleanupOps → Entry → Type 0
IsModest ops e =
    (prepared : ℕ → ℕ)
    → ops.prepare e.head.entry_type ≡ some prepared
    → prepared e.head.size ≤ e.head.size

head_of-head_bytes :
    (h : LogEntryHead) → h.entry_type < 256 → h.size < u32_mod → head_of (head_bytes h) ≡ h
head_of-head_bytes h a b =
    let t : h.entry_type % 256 + 256 * 0 ≡ h.entry_type = omega arith in
    let s : (head_of (head_bytes h)).size ≡ h.size = omega arith in
    ap₂ (λ x y. record { entry_type = x; size = y }) t s

module _ (m : Memory) (addr : ℕ) (ps : List ℕ) (v : IsAt m addr ps) where
  read_head :
      (h : LogEntryHead) (after : List ℕ)
      → bytes_from m addr ps ≡ head_bytes h ++ after
      → space_read m head_size addr ≡ some (head_bytes h)
  read_head h after e =
      let room : 8 + length after ≡ capacity addr ps =
        omega (arith, ap length e, length-bytes_from m addr ps) in
      space_read-take m head_size addr ps v (omega arith) ∙ ap (λ x. some (take head_size x)) e

  read_foot :
      (after : List ℕ)
      → bytes_from m addr ps ≡ foot_bytes ++ after
      → space_read m head_size addr ≡ some foot_bytes
  read_foot after e =
      let room : 8 + length after ≡ capacity addr ps =
        omega (arith, ap length e, length-bytes_from m addr ps) in
      space_read-take m head_size addr ps v (omega arith) ∙ ap (λ x. some (take head_size x)) e

  -- The first bytes of the body.
  read_body :
      (h : LogEntryHead) (body after : List ℕ) (n : ℕ)
      → bytes_from m addr ps ≡ head_bytes h ++ (body ++ after)
      → n ≤ length body
      → head_size < capacity addr ps
      → space_read m n (spot addr ps head_size).0 ≡ some (take n body)
  read_body h body after n e l r =
      let v' = IsAt-spot m addr head_size ps v r in
      let room : 8 + (length body + length after) ≡ capacity addr ps =
        omega (arith, ap length e, length-bytes_from m addr ps, length-append body after) in
      let b = bytes_from-at m addr ps (head_bytes h) (body ++ after) v e r in
      let z : n - length body ≡ 0 = omega arith in
      space_read-take m n (spot addr ps head_size).0 (spot addr ps head_size).1 v'
        (omega (arith, capacity-spot addr head_size ps v.areas r))
      ∙ ap (λ x. some (take n x)) b
      ∙ ap some (
          take-append n body after
          ∙ ap (λ k. take n body ++ take k after) z
          ∙ append-nil (take n body))

  prepared_event-body :
      (e : Entry) (after : List ℕ) (size : ℕ)
      → bytes_from m addr ps ≡ head_bytes e.head ++ (e.body ++ after)
      → head_size + length e.body < capacity addr ps
      → size ≤ length e.body
      → prepared_event m addr e.head.entry_type size
        ≡ some (events_when (some (λ _. size)) false addr ps e)
  unfolding prepared_event
  prepared_event-body e after size b r l = rw (
    calculate_next_addr-spot m addr head_size ps v (omega arith),
    calculate_next_addr-at m addr head_size size ps v (omega arith),
    read_body e.head e.body after size b l (omega arith),
  )

  events_by-events_when :
      (o : Option (ℕ → ℕ)) (c : Bool) (e : Entry) (after : List ℕ)
      → ((prepared : ℕ → ℕ) → o ≡ some prepared → prepared e.head.size ≤ length e.body)
      → bytes_from m addr ps ≡ head_bytes e.head ++ (e.body ++ after)
      → head_size + length e.body < capacity addr ps
      → events_by o c m addr e.head ≡ some (events_when o c addr ps e)
  unfolding events_by
  events_by-events_when none c e after modest b r = refl
  events_by-events_when (some prepared) c e after modest b r =
      prepared_event-body e after (prepared e.head.size) b r (modest prepared refl)

  entry_events-events_of :
      (ops : LogCleanupOps) (e : Entry) (after : List ℕ)
      → IsModest ops e
      → IsEntry e
      → bytes_from m addr ps ≡ head_bytes e.head ++ (e.body ++ after)
      → head_size + length e.body < capacity addr ps
      → entry_events ops m addr e.head ≡ some (events_of ops addr ps e)
  unfolding entry_events
  entry_events-events_of ops e after modest ok b r =
      events_by-events_when (ops.prepare e.head.entry_type) (ops.has_cleanup e.head.entry_type) e
        after (λ f there. omega (arith, ok.whole, modest f there)) b r

-- One round of the loop.
for_each-step :
    (fuel : ℕ) (ops : LogCleanupOps) (m : Memory) (addr : ℕ) (e : Entry)
    {events rest : List LogEvent} {next last : ℕ}
    → space_read m head_size addr ≡ some (head_bytes e.head)
    → IsEntry e
    → (head_data (head_bytes e.head) == 0) ≡ false
    → entry_events ops m addr e.head ≡ some events
    → calculate_next_addr m addr (entry_size e) ≡ some next
    → for_each_entry_from fuel ops m next ≡ some (rest, last)
    → for_each_entry_from (suc fuel) ops m addr ≡ some (events ++ rest, last)
unfolding for_each_entry_from
for_each-step fuel ops m addr e r ok go ev nx more =
    rw (r, go)
      (ap
          (λ h. entry_events ops m addr h >>= λ events.
            calculate_next_addr m addr (align_up h.size 8 + head_size) >>= λ next.
            for_each_entry_from fuel ops m next >>= λ (rest, last). some (events ++ rest, last))
          (head_of-head_bytes e.head ok.small_type ok.small)
        ∙ rw (ev, nx, more))

spot-zero :
    (addr : ℕ) (ps : List ℕ) → 0 < rest_size_of_current_area addr → addr ≡ (spot addr ps 0).0
spot-zero addr ps h =
    let e : addr + 0 ≡ addr = omega arith in sym (ap (λ z. z.0) (spot-here addr 0 ps h) ∙ e)

pub for_each-entries :
    (fuel : ℕ) (ops : LogCleanupOps) (m : Memory) (addr : ℕ) (ps : List ℕ) (es : List Entry)
    (after : List ℕ)
    → All (IsModest ops) es
    → All IsEntry es
    → IsAt m addr ps
    → bytes_from m addr ps ≡ entries_bytes es ++ (foot_bytes ++ after)
    → length es < fuel
    → for_each_entry_from fuel ops m addr
      ≡ some (all_events ops addr ps es, (spot addr ps (length (entries_bytes es))).0)
unfolding for_each_entry_from
for_each-entries zero ops m addr ps es after modest ok v b l = absurd (omega arith)
for_each-entries (suc fuel) ops m addr ps [] after modest ok v b l =
    let room : 8 + length after ≡ capacity addr ps =
      omega (arith, ap length b, length-bytes_from m addr ps) in
    rw (read_foot m addr ps v after b) (ap (λ x. some ([], x)) (spot-zero addr ps (omega arith)))
for_each-entries (suc fuel) ops m addr ps (e ∷ es) after (modest, modests) (ok, oks) v b l =
    let n = entry_size e in
    let rest = entries_bytes es ++ (foot_bytes ++ after) in
    let first = head_bytes e.head ++ content e in
    let b1 : bytes_from m addr ps ≡ head_bytes e.head ++ (content e ++ rest) =
      b
      ∙ ap (λ x. head_bytes e.head ++ x)
          (append_assoc (content e) (entries_bytes es) (foot_bytes ++ after)) in
    let len : length first ≡ n = omega (arith, length-append e.body e.padding, ok.padded) in
    let room : n + (length (entries_bytes es) + (8 + length after)) ≡ capacity addr ps = omega (
      arith,
      ap length b1,
      length-bytes_from m addr ps,
      length-append (content e) rest,
      length-append e.body e.padding,
      ok.padded,
      length-append (entries_bytes es) (foot_bytes ++ after),
    ) in
    let at = spot addr ps n in
    let b2 : bytes_from m at.0 at.1 ≡ rest =
      ap (λ k. bytes_from m (spot addr ps k).0 (spot addr ps k).1) (sym len)
      ∙ bytes_from-at m addr ps first rest v b1 (omega arith) in
    let more =
      for_each-entries fuel ops m at.0 at.1 es after modests oks
        (IsAt-spot m addr n ps v (omega arith)) b2 (omega arith) in
    let last : spot at.0 at.1 (length (entries_bytes es))
        ≡ spot addr ps (length (entries_bytes (e ∷ es))) =
      spot-spot addr n (length (entries_bytes es)) ps (omega arith) v.areas
      ∙ ap (spot addr ps) (omega (arith, length-append (content e) (entries_bytes es), len)) in
    let go : (head_data (head_bytes e.head) == 0) ≡ false = let ne = ok.not_foot in ground arith in
    let nx : calculate_next_addr m addr n ≡ some at.0 =
      calculate_next_addr-spot m addr n ps v (omega arith) in
    let ev =
      entry_events-events_of m addr ps v ops e (e.padding ++ rest) modest ok
        (b1 ∙ ap (λ x. head_bytes e.head ++ x) (append_assoc e.body e.padding rest))
        (omega (arith, ok.padded)) in
    for_each-step fuel ops m addr e (read_head m addr ps v e.head (content e ++ rest) b1) ok go ev
      nx more
    ∙ ap (λ z. some (all_events ops addr ps (e ∷ es), z.0)) last
