-- ===== src/Tests/Buffers.antt =====
-- Tests of CircularBuffer.c.
use nvmfs.Prelude.{ℕ, zero, suc, ◌<◌, ◌≡◌, refl, some, none, [], ◌∷◌, arith, not_some, get_elem?}
use nvmfs.CircularBuffer.{CircularBuffer, add, delete}
use nvmfs.CircularBuffer.Queue.{
  place, IsQueue, add-IsQueue, delete-IsQueue, grown-IsQueue, add-none,
}

-- Two pointers in an array of four, around its end.
abbrev around : CircularBuffer
around = record { buffer = 20 ∷ 0 ∷ 0 ∷ 10 ∷ []; head = 1; tail = 3; size = 4 }

around-held :
    (i x : ℕ)
    → get_elem? (10 ∷ 20 ∷ []) i ≡ some x
    → get_elem? (20 ∷ 0 ∷ 0 ∷ 10 ∷ []) (place 4 3 i) ≡ some x
around-held zero x e = e
around-held (suc zero) x e = e
around-held (suc (suc i)) x e = absurd (not_some refl e)

around-IsQueue : IsQueue around (10 ∷ 20 ∷ [])
around-IsQueue = record {
  whole = refl;
  small = omega arith;
  tail_inside = omega arith;
  not_full = omega arith;
  ends = refl;
  held = around-held;
}

add-IsQueue_example :
    (cb' : CircularBuffer) × (add around 30 [] ≡ some cb') × IsQueue cb' (10 ∷ 20 ∷ 30 ∷ [])
add-IsQueue_example = add-IsQueue around (10 ∷ 20 ∷ []) 30 [] around-IsQueue (omega arith)

delete-IsQueue_example :
    (cb' : CircularBuffer) × (delete around ≡ some (10, cb')) × IsQueue cb' (20 ∷ [])
delete-IsQueue_example = delete-IsQueue around 10 (20 ∷ []) around-IsQueue

-- One pointer in an array of two: it is full.
abbrev full : ℕ → ℕ → CircularBuffer
full head tail = record { buffer = 10 ∷ 10 ∷ []; head = head; tail = tail; size = 2 }

full-held :
    (tail i x : ℕ)
    → tail < 2
    → get_elem? (10 ∷ []) i ≡ some x
    → get_elem? (10 ∷ 10 ∷ []) (place 2 tail i) ≡ some x
full-held zero zero x h e = e
full-held (suc zero) zero x h e = e
full-held (suc (suc n)) zero x h e = absurd (omega arith)
full-held tail (suc i) x h e = absurd (not_some refl e)

from_zero-IsQueue : IsQueue (full 1 0) (10 ∷ [])
from_zero-IsQueue = record {
  whole = refl;
  small = omega arith;
  tail_inside = omega arith;
  not_full = omega arith;
  ends = refl;
  held = λ i x e. full-held 0 i x (omega arith) e;
}

from_one-IsQueue : IsQueue (full 0 1) (10 ∷ [])
from_one-IsQueue = record {
  whole = refl;
  small = omega arith;
  tail_inside = omega arith;
  not_full = omega arith;
  ends = refl;
  held = λ i x e. full-held 1 i x (omega arith) e;
}

grown-IsQueue_example :
    (cb' : CircularBuffer) × (add (full 1 0) 20 (0 ∷ 0 ∷ 0 ∷ 0 ∷ []) ≡ some cb')
    × IsQueue cb' (10 ∷ 20 ∷ [])
    × (cb'.size ≡ 4)
grown-IsQueue_example =
    grown-IsQueue (full 1 0) (10 ∷ []) 20 (0 ∷ 0 ∷ 0 ∷ 0 ∷ []) from_zero-IsQueue refl refl
      (omega arith) refl

add-none_example : add (full 0 1) 20 (0 ∷ 0 ∷ 0 ∷ 0 ∷ []) ≡ none
add-none_example =
    add-none (full 0 1) (10 ∷ []) 20 (0 ∷ 0 ∷ 0 ∷ 0 ∷ []) from_one-IsQueue refl
      (λ e. absurd (omega (arith, e)))
