-- ===== src/ExtentContainer/Append.antt =====
-- A container is a growing list of extents with its total size.
use nvmfs.Prelude.{
  ℕ, zero, suc, ◌+◌, ◌-◌, ◌%◌, ◌≤◌, ◌<◌, ◌≡◌, refl, ap, ◌∙◌, List, [], ◌∷◌, ◌++◌, length,
  length-take, take, arith, u64_mod, ◌==◌, Bool-cases, inl, inr,
}
use native.Mathlib.Numerals.{add-one}
use nvmfs.ExtentContainer.{
  Extent, ExtentContainer, container_init, ensure_room, append_entry, write_at, container_append,
  extents,
}

-- How many addresses the extents span.
abbrev pub total : List Extent → ℕ
total [] = 0
total (x ∷ xs) = (x.end - x.start) + total xs

pub total-append : (xs ys : List Extent) → total (xs ++ ys) ≡ total xs + total ys
total-append [] ys = omega arith
total-append (x ∷ xs) ys = omega (arith, total-append xs ys)

-- The entries in use were written and fit into the room, and `size` counts their addresses.
pub record IsValid (c : ExtentContainer) : Type 0 where
  pub written : c.current_num ≤ length c.array
  pub room : c.current_num ≤ c.extent_num
  pub some_room : 0 < c.extent_num
  pub counted : c.size ≡ total (extents c) % u64_mod

take-write_at :
    (n : ℕ) (xs : List Extent) (x : Extent)
    → n ≤ length xs
    → take (suc n) (write_at xs n x) ≡ take n xs ++ x ∷ []
take-write_at zero xs x h = refl
take-write_at (suc n) [] x h = absurd (omega arith)
take-write_at (suc n) (y ∷ xs) x h = ap (◌∷◌ y) (take-write_at n xs x (omega arith))

length-write_at :
    (n : ℕ) (xs : List Extent) (x : Extent) → n ≤ length xs → suc n ≤ length (write_at xs n x)
length-write_at zero xs x h = omega arith
length-write_at (suc n) [] x h = absurd (omega arith)
length-write_at (suc n) (y ∷ xs) x h = omega (arith, length-write_at n xs x)

take-take : (n : ℕ) (xs : List Extent) → take n (take n xs) ≡ take n xs
take-take zero xs = refl
take-take (suc n) [] = refl
take-take (suc n) (x ∷ xs) = ap (◌∷◌ x) (take-take n xs)

pub container_init-IsValid : IsValid container_init
container_init-IsValid = omega arith

record HasRoom (c d : ExtentContainer) : Type 0 where
  num : d.current_num ≡ c.current_num
  same : extents d ≡ extents c
  size : d.size ≡ c.size
  written : d.current_num ≤ length d.array
  free : d.current_num < d.extent_num

ensure_room-HasRoom : (c : ExtentContainer) → IsValid c → HasRoom c (ensure_room c)
unfolding ensure_room
ensure_room-HasRoom c v = elim (Bool-cases (c.current_num == c.extent_num)) [
  | inl full ↦
      let e : c.current_num ≡ c.extent_num = ground arith in
      rw full (record {
        num = refl;
        same = rw (← e) (take-take c.current_num c.array);
        size = refl;
        written = omega (arith, length-take c.extent_num c.array);
        free = omega arith;
      })
  | inr free ↦
      rw free
        (record { num = refl; same = refl; size = refl; written = v.written; free = ground arith })
]

extents-append_entry :
    (c : ExtentContainer) (start end : ℕ)
    → c.current_num ≤ length c.array
    → extents (append_entry c start end) ≡ extents c ++ record { start = start; end = end } ∷ []
unfolding append_entry
extents-append_entry c start end h = rw add-one (take-write_at c.current_num c.array _ h)

-- Appending an extent writes inside the room, which grows as needed, keeps the container valid and
-- adds exactly that extent at the end.
pub append_lem :
    (c : ExtentContainer) (start end : ℕ)
    → IsValid c
    → start ≤ end
    → end < u64_mod
    → IsValid (container_append c start end)
      × (extents (container_append c start end)
          ≡ extents c ++ record { start = start; end = end } ∷ [])
unfolding container_append
append_lem c start end v h b =
    let r = ensure_room-HasRoom c v in
    let e =
      extents-append_entry (ensure_room c) start end r.written
      ∙ ap (λ k. k ++ record { start = start; end = end } ∷ []) r.same in
    (
      record {
        written = ground (
          arith,
          length-write_at (ensure_room c).current_num (ensure_room c).array
              (record { start = start; end = end }),
          r.written,
        );
        room = omega (arith, r.free);
        some_room = omega (arith, r.free);
        counted =
            rw
              (
                e,
                total-append (extents c) (record { start = start; end = end } ∷ []),
                r.size,
                v.counted,
              )
              (omega arith);
      },
      e,
    )
