-- ===== src/Zone/Tests.antt =====
-- The theorem about the zone allocator at a concrete host and zone.
use vmill.Prelude.{ℕ, ◌+◌, ◌≤◌, ◌≡◌, [], ◌∷◌, ltb, leb, ◌&&◌, if◌then◌else◌, done}
use vmill.Area.{HostMemory, area_rw, new_area}
use vmill.Area.Tests.{host_mmap, host_mmap-HasMemory}
use vmill.Zone.{ZoneAllocation, ZoneAllocator, zone_allocate}
use vmill.Zone.Serving.{IsServed, zone_allocate-IsServed}

-- A zone in which 16384 bytes at 65536 are free.
abbrev zone : ZoneAllocator
zone = record { allocator = new_area area_rw 0 4096; free_list = (16384, 65536 ∷ []) ∷ [] }

zone_allocate-IsServed_example :
    (alloc : ZoneAllocation) × (z' : ZoneAllocator) × (mem0 : HostMemory) × (mem' : HostMemory)
    × (zone_allocate host_mmap [] zone 4096 (λ _. 7) ≡ done (alloc, z', mem'))
    × (4096 ≤ alloc.size)
    × IsServed host_mmap [] zone 4096 (λ _. 7) alloc z' mem0
    × ((a : ℕ) → mem' a ≡ (if leb alloc.base a && ltb a (alloc.base + 4096) then 0 else mem0 a))
zone_allocate-IsServed_example =
    zone_allocate-IsServed host_mmap [] zone 4096 (λ _. 7) host_mmap-HasMemory
