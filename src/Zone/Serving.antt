-- ===== src/Zone/Serving.antt =====
-- ZoneAllocator::Allocate: it serves a request from what was freed, or from the area.
use vmill.Prelude.{
  ℕ, ◌+◌, ◌-◌, ◌≤◌, ◌<◌, ◌≡◌, ◌⊎◌, inl, inr, refl, ap, Bool, false, Bool-cases, Option, none, some,
  Option-cases, List, [], ◌∷◌, ltb, leb, ◌==◌, ◌&&◌, if◌then◌else◌, arith, done, page_size,
}
use vmill.Area.{HostMemory, filled, allocate}
use vmill.Area.Success.{HasMemory, allocate_succeeds}
use vmill.Zone.{
  ZoneAllocation, FreeList, ZoneAllocator, free, take_free, split_free, take_or_grow, zone_allocate,
}

-- What is taken is large enough.
take_free_bound :
    (size : ℕ) (fl : FreeList) (x : ZoneAllocation × FreeList)
    → take_free size fl ≡ some x
    → size ≤ (x.0).size
unfolding take_free
take_free_bound size [] x h = ground arith
take_free_bound size ((k, bases) ∷ rest) x h = elim (Bool-cases (ltb k size)) [
  | inl small ↦ elim (Option-cases (take_free size rest)) [
    | inl nothing ↦ ground arith
    | inr (y, found) ↦
        let bound = take_free_bound size rest y found in
        let same : y.0 ≡ x.0 = ground arith in omega (arith, ap (λ a. a.size) same)
  ]
  | inr large ↦ here_bound bases large (ground arith)
]
  where
    here_bound :
        (bs : List ℕ)
        → ltb k size ≡ false
        → (elim bs [
          | [] ↦ none
          | base ∷ bases' ↦ some (record { base = base; size = k }, (k, bases') ∷ rest)
        ])
          ≡ some x
        → size ≤ (x.0).size
    here_bound [] large e = cc
    here_bound (b ∷ bs) large e =
        let same : record { base = b; size = k } ≡ x.0 = ground arith in
        ground (arith, ap (λ a. a.size) same)

-- The allocation is all of `taken`, or its upper `size` bytes; the lower rest, of more than a page,
-- is freed then.
abbrev pub IsSplit : ZoneAllocator → ZoneAllocation → ℕ → ZoneAllocation → ZoneAllocator → Type 0
IsSplit z taken size alloc z' =
    ((alloc ≡ taken) × (z' ≡ z))
    ⊎ ((rest : ℕ) × (page_size < rest)
        × (rest + size ≡ taken.size)
        × (alloc ≡ record { base = taken.base + rest; size = size })
        × (z' ≡ (free z (record { base = taken.base; size = rest })).0))

split_free_lem :
    (z : ZoneAllocator) (taken : ZoneAllocation) (size : ℕ)
    → size ≤ taken.size
    → (x : ZoneAllocation × ZoneAllocator) × (split_free z taken size ≡ done x)
      × IsSplit z taken size x.0 x.1
      × (size ≤ (x.0).size)
unfolding split_free
split_free_lem z taken size le = elim (Bool-cases (taken.size == size)) [
  | inl same ↦ ((taken, z), ground arith, inl (refl, refl), le)
  | inr other ↦ elim (Bool-cases (ltb page_size (taken.size - size))) [
    | inl much ↦ (
      (
        record { base = taken.base + (taken.size - size); size = size },
        (free z (record { base = taken.base; size = taken.size - size })).0,
      ),
      ground arith,
      inr (taken.size - size, ground arith, omega arith, refl, refl),
      omega arith,
    )
    | inr little ↦ ((taken, z), ground arith, inl (refl, refl), le)
  ]
]

module _ (mmap : ℕ → ℕ → Bool → Option ℕ) (code : List ℕ) where
  -- The allocation is taken from the free list, and split if much is left over; or, if the free
  -- list has nothing at the first size that is large enough, it comes from the area.
  abbrev pub IsServed :
      ZoneAllocator → ℕ → HostMemory → ZoneAllocation → ZoneAllocator → HostMemory → Type 0
  IsServed z size mem alloc z' mem' =
      ((taken : ZoneAllocation) × (left : FreeList) × (take_free size z.free_list
          ≡ some (taken, left))
        × IsSplit (record z { free_list = left }) taken size alloc z'
        × (mem' ≡ mem))
      ⊎ ((take_free size z.free_list ≡ none)
          × (allocate mmap code z.allocator size 64 mem ≡ done (alloc.base, z'.allocator, mem'))
          × (alloc.size ≡ size)
          × (z'.free_list ≡ z.free_list))

  take_or_grow_lem :
      (z : ZoneAllocator) (size : ℕ) (mem : HostMemory)
      → HasMemory mmap
      → (x : ZoneAllocation × ZoneAllocator × HostMemory) × (take_or_grow mmap code z size mem
            (take_free size z.free_list)
          ≡ done x)
        × (size ≤ (x.0).size)
        × IsServed z size mem x.0 x.1 x.2
  unfolding take_or_grow
  take_or_grow_lem z size mem host = elim (Option-cases (take_free size z.free_list)) [
    | inl nothing ↦
        let (more, e) = allocate_succeeds mmap code host z.allocator size 64 mem in
        (
          (record { base = more.0; size = size }, record z { allocator = more.1 }, more.2),
          rw (nothing, e),
          omega arith,
          inr (nothing, e, refl, refl),
        )
    | inr ((taken, left), found) ↦
        let bound = take_free_bound size z.free_list (taken, left) found in
        let (split, e, how, enough) =
          split_free_lem (record z { free_list = left }) taken size bound in
        ((split.0, split.1, mem), rw (found, e), enough, inl (taken, left, found, how, refl))
  ]

  -- On a host that has memory, Allocate of the zone succeeds. The allocation has at least the size
  -- that was asked for; it is a freed one or its upper end, of which the rest is freed again if it is
  -- more than a page, or it comes from the area; and of the memory only the first `size` bytes of
  -- the allocation change from there, to zeroes.
  pub zone_allocate-IsServed :
      (z : ZoneAllocator) (size : ℕ) (mem : HostMemory)
      → HasMemory mmap
      → (alloc : ZoneAllocation) × (z' : ZoneAllocator) × (mem0 : HostMemory) × (mem' : HostMemory)
        × (zone_allocate mmap code z size mem ≡ done (alloc, z', mem'))
        × (size ≤ alloc.size)
        × IsServed z size mem alloc z' mem0
        × ((a : ℕ) → mem' a ≡ (if leb alloc.base a && ltb a (alloc.base + size) then 0 else mem0 a))
  unfolding zone_allocate
  zone_allocate-IsServed z size mem host =
      let (x, e, enough, served) = take_or_grow_lem z size mem host in
      (x.0, x.1, x.2, filled (x.0).base ((x.0).base + size) 0 x.2, rw e, enough, served, λ a. refl)
