-- ===== src/Log/Append.antt =====
-- LogWrite puts one entry behind the others.
use nvmfs.Prelude.{
  ℕ, ◌+◌, ◌<◌, ◌≡◌, refl, sym, ap, ◌∙◌, Option, none, some, List, ◌++◌, append_assoc, length, arith,
  length-append,
}
use nvmfs.Memory.{Memory}
use nvmfs.ContinousSpace.{calculate_next_addr}
use nvmfs.ContinousSpace.Bytes.{IsAt, bytes_from}
use nvmfs.ContinousSpace.Read.{capacity, length-bytes_from}
use nvmfs.ContinousSpace.Spot.{spot, IsAt-spot, capacity-spot, calculate_next_addr-spot}
use nvmfs.Log.{LogEntryHead, head_size, head_bytes, foot_bytes, write_buffer, write_entry}
use nvmfs.Log.Splice.{space_write-Spliced, spot-spot}

pub calculate_next_addr-at :
    (m : Memory) (addr n k : ℕ) (ps : List ℕ)
    → IsAt m addr ps
    → n + k < capacity addr ps
    → calculate_next_addr m (spot addr ps n).0 k ≡ some (spot addr ps (n + k)).0
calculate_next_addr-at m addr n k ps v h =
    calculate_next_addr-spot m (spot addr ps n).0 k (spot addr ps n).1
      (IsAt-spot m addr n ps v (omega arith))
      (omega (arith, capacity-spot addr n ps v.areas (omega arith)))
    ∙ ap (λ z. some z.0) (spot-spot addr n k ps (omega arith) v.areas)

-- What the body is after the call.
abbrev pub body_after : Option (List ℕ) → List ℕ → List ℕ
body_after none old = old
body_after (some buffer) old = buffer

module _ {ℓ} {A : Type ℓ} where
  regroup : (a f b p o : List A) → (a ++ f) ++ (b ++ (p ++ o)) ≡ ((a ++ f) ++ (b ++ p)) ++ o
  regroup a f b p o = simp append_assoc

  regroup_head : (a f b p o : List A) → ((a ++ f) ++ (b ++ p)) ++ o ≡ a ++ (f ++ (b ++ (p ++ o)))
  regroup_head a f b p o = simp append_assoc

-- The memory before an entry is written behind `before`, and after it.
pub record Wrote (m : Memory) (addr : ℕ) (ps before : List ℕ) (head : LogEntryHead) (aligned : ℕ)
    (buffer : Option (List ℕ)) (old pad after : List ℕ) : Type 0 where
  pub memory : Memory
  pub result :
      write_entry m (spot addr ps (length before)).0 head aligned buffer
      ≡ some (
        (spot addr ps (length before + head_size)).0,
        (spot addr ps (length before + head_size + aligned)).0,
        memory,
      )
  pub still : IsAt memory addr ps
  pub bytes_now :
      bytes_from memory addr ps
      ≡ before ++ (head_bytes head ++ (body_after buffer old ++ (pad ++ (foot_bytes ++ after))))

write_buffer-Spliced :
    (m : Memory) (addr : ℕ) (ps before old after : List ℕ) (buffer : Option (List ℕ)) (n : ℕ)
    → IsAt m addr ps
    → bytes_from m addr ps ≡ before ++ (old ++ after)
    → length before ≡ n
    → length (body_after buffer old) ≡ length old
    → n < capacity addr ps
    → (m' : Memory) × (write_buffer m buffer (spot addr ps n).0 ≡ some m')
      × IsAt m' addr ps
      × (bytes_from m' addr ps ≡ before ++ (body_after buffer old ++ after))
unfolding write_buffer
write_buffer-Spliced m addr ps before old after none n v e bn o h = (m, refl, v, e)
write_buffer-Spliced m addr ps before old after (some buffer) n v e bn o h =
    let s = space_write-Spliced m addr ps before old buffer after n v e bn (sym o) h in
    (s.memory, s.result, s.still, s.bytes_now)

pub write_entry-Wrote :
    (m : Memory) (addr : ℕ) (ps before : List ℕ) (head : LogEntryHead) (aligned : ℕ)
    (buffer : Option (List ℕ)) (old pad old_foot after : List ℕ)
    → IsAt m addr ps
    → bytes_from m addr ps ≡ before ++ (foot_bytes ++ (old ++ (pad ++ (old_foot ++ after))))
    → length (body_after buffer old) ≡ length old
    → length old + length pad ≡ aligned
    → length old_foot ≡ head_size
    → Wrote m addr ps before head aligned buffer old pad after
unfolding write_entry
write_entry-Wrote m addr ps before head aligned buffer old pad old_foot after v e o p f =
    let n = length before in
    let body = body_after buffer old in
    let room : n + (8 + (length old + (length pad + (8 + length after)))) ≡ capacity addr ps =
      omega (
        arith,
        ap length e,
        length-bytes_from m addr ps,
        length-append before (foot_bytes ++ (old ++ (pad ++ (old_foot ++ after)))),
        length-append old (pad ++ (old_foot ++ after)),
        length-append pad (old_foot ++ after),
        length-append old_foot after,
      ) in
    let (m1, r1, v1, b1) =
      write_buffer-Spliced m addr ps (before ++ foot_bytes) old (pad ++ (old_foot ++ after)) buffer
        (n + head_size) v
        (e ∙ sym (append_assoc before foot_bytes (old ++ (pad ++ (old_foot ++ after)))))
        (length-append before foot_bytes) o (omega arith) in
    let w2 =
      space_write-Spliced m1 addr ps ((before ++ foot_bytes) ++ (body ++ pad)) old_foot foot_bytes
        after (n + head_size + aligned) v1
        (b1 ∙ regroup before foot_bytes body pad (old_foot ++ after))
        (omega (
          arith,
          length-append (before ++ foot_bytes) (body ++ pad),
          length-append before foot_bytes,
          length-append body pad,
        ))
        f (omega arith) in
    let w3 =
      space_write-Spliced w2.memory addr ps before foot_bytes (head_bytes head)
        (body ++ (pad ++ (foot_bytes ++ after))) n w2.still
        (w2.bytes_now ∙ regroup_head before foot_bytes body pad (foot_bytes ++ after)) refl refl
        (omega arith) in
    record {
      memory = w3.memory;
      result = rw (
        calculate_next_addr-at m addr n head_size ps v (omega arith),
        calculate_next_addr-at m addr (n + head_size) aligned ps v (omega arith),
        r1,
        w2.result,
        w3.result,
      );
      still = w3.still;
      bytes_now = w3.bytes_now;
    }
