-- ===== src/Area/Tests.antt =====
-- The theorems about the area allocator at a concrete host and area.
use vmill.Prelude.{
  ℕ, ◌≡◌, ◌≢◌, refl, Bool, false, Option, some, [], ◌∷◌, ltb, leb, ◌&&◌, if◌then◌else◌, arith, done,
}
use vmill.Area.{AreaAllocator, HostMemory, initial, grow, allocate, fill_with_break_points}
use vmill.Area.Filling.{fill_with_break_points_lem}
use vmill.Area.Allocating.{IsInOrder, IsAllocated, allocate-IsAllocated}
use vmill.Area.Success.{HasMemory}

-- A host that maps memory where it is asked to, and at 65536 without an address.
abbrev pub host_mmap : ℕ → ℕ → Bool → Option ℕ
host_mmap at n fixed = some (if fixed then at else 65536)

pub host_mmap-HasMemory : HasMemory host_mmap
host_mmap-HasMemory = record { anywhere = λ n. (65536, refl); fixed = λ at n. refl }

two_filled :
    fill_with_break_points (204 ∷ []) 10 12 (λ _. 0) 11
    ≡ (if leb 10 11 && ltb 11 12 then 204 else 0)
two_filled = fill_with_break_points_lem 204 10 12 11 (λ _. 0)

-- An area of a page with 4000 bytes in use.
abbrev area : AreaAllocator
area = record {
  page_bytes = 4096;
  preferred_base = 0;
  is_executable = false;
  base = 65536;
  limit = 69632;
  bump = 69536;
}

abbrev area_after : AreaAllocator
area_after = record area { limit = 73728; bump = 69668 }

area_allocated :
    allocate host_mmap [] area 100 64 (λ _. 7)
    ≡ done (69568, area_after, λ a. if leb 69632 a && ltb a 73728 then 0 else 7)
unfolding allocate initial grow
area_allocated = refl

allocate-IsAllocated_example :
    (started : AreaAllocator) × (mem0 : HostMemory) × (initial host_mmap [] area 100 (λ _. 7)
      ≡ done (started, mem0))
    × IsInOrder host_mmap [] started
    × (area.base ≢ 0 → (started ≡ area) × (mem0 ≡ (λ _. 7)))
    × IsAllocated host_mmap [] started 100 64 mem0 69568 area_after
        (λ a. if leb 69632 a && ltb a 73728 then 0 else 7)
allocate-IsAllocated_example =
    allocate-IsAllocated host_mmap [] area 100 64 (λ _. 7) 69568 area_after
      (λ a. if leb 69632 a && ltb a 73728 then 0 else 7) (omega arith) (omega arith, omega arith)
      area_allocated
