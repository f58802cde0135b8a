-- ===== src/ContinousSpace.antt =====
-- src/fs/ContinousSpace.c: a sequence of bytes over 4 KB pages, each of which begins with the address
-- of the next one.
pub mod Bytes
pub mod Read
pub mod Write
pub mod Spot
pub mod Link
use nvmfs.Prelude.{
  ℕ, zero, suc, ◌+◌, ◌-◌, ◌*◌, ◌/◌, ◌%◌, Bool, Option, none, some, ◌>>=◌, List, [], ◌∷◌, ◌++◌,
  length, take, drop, reverse, ltb, leb, ◌==◌, if◌then◌else◌, add64, sub64, u64_mod,
}
use nvmfs.Types.{invalid_nvm_addr, align_up}
use nvmfs.Memory.{Memory, load, store, load64, to_bytes}

abbrev pub page_size : ℕ
page_size = 4096

-- The size of the address at the start of a page.
abbrev pub addr_size : ℕ
addr_size = 8

abbrev pub area_size : ℕ
area_size = 4088

pub record ContinousSpace : Type 0 where
  pub first_area : ℕ
  pub rest_size : ℕ
  pub area_num : ℕ

-- What the space uses of the page pool; no address: there is no page left.
pub record PageAllocator {ℓ} (Pool : Type ℓ) : Type ℓ where
  pub alloc : Pool → Option (ℕ × Pool)
  pub alloc_with_hint : Pool → ℕ → Option (ℕ × Pool)
  pub free : Pool → ℕ → Pool

abbrev pub rest_size_of_current_area : ℕ → ℕ
rest_size_of_current_area addr = page_size - addr % page_size

abbrev pub current_area_of_addr : ℕ → ℕ
current_area_of_addr addr = addr - addr % page_size

-- Where the data of the next page starts.
unfoldable pub next_start : Memory → ℕ → ℕ
next_start m addr = add64 (load64 m (current_area_of_addr addr)) addr_size

-- The loops take fuel, one more than the bytes that are left.
unfoldable pub write_from : ℕ → Memory → List ℕ → ℕ → Option Memory
write_from zero m bytes addr = none
write_from (suc fuel) m bytes addr =
    let rest = rest_size_of_current_area addr in
    let size = if leb (length bytes) rest then length bytes else rest in
    let m' = store m addr (take size bytes) in
    let more = write_from fuel m' (drop size bytes) (next_start m' addr) in
    if length bytes - size == 0 then some m' else more

unfoldable pub space_write : Memory → List ℕ → ℕ → Option Memory
space_write m bytes addr = write_from (suc (length bytes)) m bytes addr

unfoldable pub read_from : ℕ → Memory → ℕ → ℕ → Option (List ℕ)
read_from zero m size start = none
read_from (suc fuel) m size start =
    let rest = rest_size_of_current_area start in
    let read_size = if leb size rest then size else rest in
    let first = load m start read_size in
    let more =
      read_from fuel m (size - read_size) (next_start m start) >>= λ bytes. some (first ++ bytes) in
    if size - read_size == 0 then some first else more

unfoldable pub space_read : Memory → ℕ → ℕ → Option (List ℕ)
space_read m size start = read_from (suc size) m size start

unfoldable pub next_addr_from : ℕ → Memory → ℕ → ℕ → Option ℕ
next_addr_from zero m start size = none
next_addr_from (suc fuel) m start size =
    let rest = rest_size_of_current_area start in
    let more = next_addr_from fuel m (next_start m start) (size - rest) in
    if ltb size rest then some (add64 start size) else more

unfoldable pub calculate_next_addr : Memory → ℕ → ℕ → Option ℕ
calculate_next_addr m start size = next_addr_from (suc size) m start size

unfoldable pub space_start : ContinousSpace → ℕ
space_start cs = add64 cs.first_area addr_size

unfoldable pub total_size : ContinousSpace → ℕ
total_size cs = cs.area_num * page_size % u64_mod

unfoldable pub notify_used_space : ContinousSpace → ℕ → ContinousSpace
notify_used_space cs size = record cs { rest_size = sub64 cs.rest_size size }

-- The links from the area of `last` on.
abbrev pub link_from : Memory → ℕ → List ℕ → Memory
link_from m last [] = m
link_from m last (a ∷ areas) = link_from (store m last (to_bytes addr_size a)) a areas

unfoldable pub link_areas : ContinousSpace → List ℕ → Memory → ℕ → ContinousSpace × Memory
link_areas cs areas m start = (
  record cs {
    area_num = add64 cs.area_num (length areas);
    rest_size = add64 cs.rest_size (length areas * area_size);
  },
  link_from m (current_area_of_addr start) areas,
)

-- The addresses of `n` pages from area `cur` on, each read from the one before.
abbrev pub areas_from : Memory → ℕ → ℕ → List ℕ
areas_from m zero cur = []
areas_from m (suc n) cur = cur ∷ areas_from m n (load64 m cur)

unfoldable pub recovery_pages : ℕ → Memory → ℕ → ℕ → Option (List ℕ)
recovery_pages zero m cur last = none
recovery_pages (suc fuel) m cur last =
    let more = recovery_pages fuel m (load64 m cur) last >>= λ areas. some (cur ∷ areas) in
    if cur == last then some (cur ∷ []) else more

-- The pages that ContinousSpaceRecovery notifies as busy, in order; fuel bounds their number.
unfoldable pub space_recovery : ℕ → ContinousSpace → Memory → ℕ → Option (List ℕ)
space_recovery fuel cs m last_addr =
    recovery_pages fuel m cs.first_area (current_area_of_addr last_addr)

unfoldable pub rebuild_end : ℕ → ContinousSpace → Memory → ℕ → Option ContinousSpace
unfolding recovery_pages
rebuild_end fuel cs m last_addr =
    recovery_pages fuel m cs.first_area (current_area_of_addr last_addr) >>= λ areas.
    some (record cs { area_num = length areas; rest_size = rest_size_of_current_area last_addr })

-- The end of ContinousSpacePreallocSpace, behind AllocAreas.
unfoldable pub link_taken {ℓ} :
    {Pool : Type ℓ}
    → ContinousSpace
    → Memory
    → ℕ
    → Option (List ℕ) × Pool
    → Bool × ContinousSpace × Pool × Memory
link_taken cs m start (none, pool) = (Bool.false, cs, pool, m)
link_taken cs m start (some areas, pool) =
    let (cs', m') = link_areas cs areas m start in (Bool.true, cs', pool, m')

module _ {ℓ} {Pool : Type ℓ} (pp : PageAllocator Pool) where
  -- `none`: -ENOSPC.
  unfoldable pub space_format : Pool → Option (ContinousSpace × Pool)
  space_format pool = pp.alloc pool >>= λ (addr, pool').
      some (record { first_area = addr; rest_size = area_size; area_num = 1 }, pool')

  -- The pages that AllocAreas took, the last one first, and whether it took all.
  abbrev pub take_areas : ℕ → Pool → ℕ → List ℕ → Bool × List ℕ × Pool
  take_areas zero pool last taken = (Bool.true, taken, pool)
  take_areas (suc n) pool last taken = elim (pp.alloc_with_hint pool last) [
    | none ↦ (Bool.false, taken, pool)
    | some (addr, pool') ↦ take_areas n pool' addr (addr ∷ taken)
  ]

  abbrev pub free_all : Pool → List ℕ → Pool
  free_all pool [] = pool
  free_all pool (a ∷ areas) = free_all (pp.free pool a) areas

  -- The pages in the order of the array, or none if the pool ran out: then those taken are freed.
  unfoldable pub alloc_areas : Pool → ℕ → ℕ → Option (List ℕ) × Pool
  alloc_areas pool page_num cur =
      let (complete, taken, pool') = take_areas page_num pool cur [] in
      if complete then (some (reverse taken), pool') else (none, free_all pool' taken)

  -- Whether it succeeded, and all that it changes.
  unfoldable pub prealloc_space :
      ContinousSpace → ℕ → Pool → Memory → ℕ → Bool × ContinousSpace × Pool × Memory
  unfolding link_taken
  prealloc_space cs size pool m start =
      link_taken cs m start
        (alloc_areas pool (align_up size area_size / area_size) (current_area_of_addr start))

  unfoldable pub ensure_enough_space :
      ContinousSpace → ℕ → ℕ → Pool → Memory → Bool × ContinousSpace × Pool × Memory
  ensure_enough_space cs addr size pool m =
      if leb size cs.rest_size
      then (Bool.true, cs, pool, m)
      else prealloc_space cs (size - cs.rest_size) pool m addr

  -- The pages go back to the pool, in order.
  unfoldable pub space_destroy : ContinousSpace → Memory → Pool → ContinousSpace × Pool
  space_destroy cs m pool =
      (record cs { area_num = 0 }, free_all pool (areas_from m cs.area_num cs.first_area))
