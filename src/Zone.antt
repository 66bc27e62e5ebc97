-- ===== src/Zone.antt =====
-- vmill/Util/ZoneAllocator.h and ZoneAllocator.cpp: an allocator that keeps what is freed, by size,
-- and takes memory from an area when nothing fits.
pub mod Serving
mod Tests
use vmill.Prelude.{
  ℕ, ◌+◌, ◌-◌, Bool, true, false, Option, none, some, List, [], ◌∷◌, ltb, leb, ◌==◌, if◌then◌else◌,
  Outcome, done, check_failed, ◌>>=◌, ◌>>◌, check, page_size,
}
use vmill.Area.{AreaAllocationPerms, AreaAllocator, HostMemory, filled, new_area, allocate}

pub record ZoneAllocation : Type 0 where
  pub base : ℕ
  pub size : ℕ

-- ZoneAllocation::Reset.
abbrev pub reset : ZoneAllocation
reset = record { base = 0; size = 0 }

-- The std::map from sizes to vectors, in the order of the sizes; a vector has its last element
-- first.
abbrev pub FreeList : Type 0
FreeList = List (ℕ × List ℕ)

pub record ZoneAllocator : Type 0 where
  pub allocator : AreaAllocator
  pub free_list : FreeList

abbrev pub new_zone : AreaAllocationPerms → ℕ → ℕ → ZoneAllocator
new_zone perms preferred_base page_bytes = record {
  allocator = new_area perms preferred_base page_bytes;
  free_list = [];
}

-- `free_list[size].push_back(base)`, which makes the entry if there is none.
unfoldable pub push_free : ℕ → ℕ → FreeList → FreeList
push_free size base [] = (size, base ∷ []) ∷ []
push_free size base ((k, bases) ∷ rest) =
    let later = push_free size base rest in
    if size == k
    then (k, base ∷ bases) ∷ rest
    else if ltb size k
    then (size, base ∷ []) ∷ (k, bases) ∷ rest
    else (k, bases) ∷ later

-- The zone after Free, and the allocation that it has reset.
abbrev pub free : ZoneAllocator → ZoneAllocation → ZoneAllocator × ZoneAllocation
free z alloc =
    if alloc.base == 0
    then (z, alloc)
    else (record z { free_list = push_free alloc.size alloc.base z.free_list }, reset)

-- `free_list.lower_bound(size)`, whose vector gives its last element: nothing if there is no such
-- size, or if the vector is empty.
unfoldable pub take_free : ℕ → FreeList → Option (ZoneAllocation × FreeList)
take_free size [] = none
take_free size ((k, bases) ∷ rest) =
    let later = take_free size rest in
    if ltb k size
    then elim later [ none ↦ none | some (alloc, rest') ↦ some (alloc, (k, bases) ∷ rest') ]
    else elim bases [
      | [] ↦ none
      | base ∷ bases' ↦ some (record { base = base; size = k }, (k, bases') ∷ rest)
    ]

-- What becomes of a freed allocation that is taken for `size` bytes: its upper end, if more than
-- a page is left over.
unfoldable pub split_free :
    ZoneAllocator → ZoneAllocation → ℕ → Outcome (ZoneAllocation × ZoneAllocator)
split_free z alloc size = if alloc.size == size then done (alloc, z) else do
  check (leb size alloc.size)
  let diff = alloc.size - size
  done (
      if ltb page_size diff
      then (
        record { base = alloc.base + diff; size = size },
        (free z (record { base = alloc.base; size = diff })).0,
      )
      else (alloc, z))

module _ (mmap : ℕ → ℕ → Bool → Option ℕ) (code : List ℕ) where
  -- The two branches of Allocate.
  unfoldable pub take_or_grow :
      ZoneAllocator
      → ℕ
      → HostMemory
      → Option (ZoneAllocation × FreeList)
      → Outcome (ZoneAllocation × ZoneAllocator × HostMemory)
  take_or_grow z size mem none = do
    more ← allocate mmap code z.allocator size 64 mem
    done (record { base = more.0; size = size }, record z { allocator = more.1 }, more.2)
  take_or_grow z size mem (some found) = do
    split ← split_free (record z { free_list = found.1 }) found.0 size
    done (split.0, split.1, mem)

  unfoldable pub zone_allocate :
      ZoneAllocator → ℕ → HostMemory → Outcome (ZoneAllocation × ZoneAllocator × HostMemory)
  zone_allocate z size mem = do
    taken ← take_or_grow z size mem (take_free size z.free_list)
    let base = (taken.0).base
    done (taken.0, taken.1, filled base (base + size) 0 taken.2)
