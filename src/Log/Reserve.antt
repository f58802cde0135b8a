-- ===== src/Log/Reserve.antt =====
-- What LogWrite reserves, with the pages that the allocator gives.
use nvmfs.Prelude.{
  ℕ, zero, suc, ◌+◌, ◌-◌, ◌*◌, ◌/◌, ◌≤◌, ◌<◌, ◌≡◌, refl, ap, inl, inr, true, false, Option, none,
  some, Option-cases, Bool-cases, List, [], ◌∷◌, length, arith, length-append, leb, add64, reverse,
  of_some, not_some,
}
use mathlib.Core.List.{reverse-cons}
use nvmfs.Types.{align_up}
use nvmfs.Memory.{Memory}
use nvmfs.ContinousSpace.{
  PageAllocator, area_size, link_from, link_areas, link_taken, alloc_areas, take_areas,
  prealloc_space, ensure_enough_space, current_area_of_addr,
}
use nvmfs.Log.{Log, head_size, reserve_entry}
use nvmfs.Log.Grow.{taken_log}

length-reverse : (xs : List ℕ) → length (reverse xs) ≡ length xs
length-reverse [] = refl
length-reverse (x ∷ xs) =
    rw (reverse-cons x xs) (omega (arith, length-append (reverse xs) (x ∷ []), length-reverse xs))

module _ {ℓ} {Pool : Type ℓ} (pp : PageAllocator Pool) where
  length-take_areas :
      (n : ℕ) (pool : Pool) (last : ℕ) (taken : List ℕ)
      → (take_areas pp n pool last taken).0 ≡ true
      → length (take_areas pp n pool last taken).1 ≡ n + length taken
  length-take_areas zero pool last taken h = omega arith
  length-take_areas (suc n) pool last taken h = elim (Option-cases (pp.alloc_with_hint pool last)) [
    | inl e ↦ absurd (cc (rw (e, take_areas) at h))
    | inr ((a, pool'), e) ↦
        rw (e, take_areas)
          (omega (arith, length-take_areas n pool' a (a ∷ taken) (rw (e, take_areas) at h)))
  ]

  pub length-alloc_areas :
      (n : ℕ) (pool : Pool) (cur : ℕ) {areas : List ℕ}
      → (alloc_areas pp pool n cur).0 ≡ some areas
      → length areas ≡ n
  unfolding alloc_areas
  length-alloc_areas n pool cur h = elim (Bool-cases (take_areas pp n pool cur []).0) [
    | inr e ↦ absurd (not_some refl (rw e at h))
    | inl e ↦
        let r = of_some (rw e at h) in
        omega (
          arith,
          ap length r,
          length-reverse (take_areas pp n pool cur []).1,
          length-take_areas n pool cur [] e,
        )
  ]

  module _ (log : Log) (aligned_size : ℕ) (pool : Pool) (m : Memory) where
    abbrev pub need : ℕ
    need = head_size + head_size + aligned_size

    -- What the allocator answers where the space does not suffice.
    abbrev pub new_areas : Option (List ℕ) × Pool
    new_areas =
        alloc_areas pp pool (align_up (need - log.cs.rest_size) area_size / area_size)
          (current_area_of_addr log.write_start)

    pub reserve_entry-enough :
        need ≤ log.cs.rest_size
        → reserve_entry pp log aligned_size pool m ≡ (
          true,
          taken_log log log.cs.area_num log.cs.rest_size (head_size + aligned_size),
          pool,
          m,
        )
    unfolding reserve_entry ensure_enough_space
    reserve_entry-enough h = let e : leb need log.cs.rest_size ≡ true = ground arith in rw e

    pub reserve_entry-full :
        log.cs.rest_size < need
        → new_areas.0 ≡ none
        → reserve_entry pp log aligned_size pool m ≡ (
          false,
          taken_log log log.cs.area_num log.cs.rest_size (head_size + aligned_size),
          new_areas.1,
          m,
        )
    unfolding reserve_entry ensure_enough_space prealloc_space link_taken
    reserve_entry-full h o =
        let e : leb need log.cs.rest_size ≡ false = ground arith in
        let f : link_taken log.cs m log.write_start new_areas ≡ (false, log.cs, new_areas.1, m) =
          ap (λ z. link_taken log.cs m log.write_start (z, new_areas.1)) o in
        rw (e, f)

    pub reserve_entry-linked :
        (areas : List ℕ)
        → log.cs.rest_size < need
        → new_areas.0 ≡ some areas
        → reserve_entry pp log aligned_size pool m ≡ (
          true,
          taken_log log
              (add64 log.cs.area_num (length areas))
              (add64 log.cs.rest_size (length areas * area_size))
              (head_size + aligned_size),
          new_areas.1,
          link_from m (current_area_of_addr log.write_start) areas,
        )
    unfolding reserve_entry ensure_enough_space prealloc_space link_taken link_areas
    reserve_entry-linked areas h o =
        let e : leb need log.cs.rest_size ≡ false = ground arith in
        let f = ap (λ z. link_taken log.cs m log.write_start (z, new_areas.1)) o in rw (e, f)
