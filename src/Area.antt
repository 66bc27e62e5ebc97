-- ===== src/Area.antt =====
-- vmill/Util/AreaAllocator.h and AreaAllocator.cpp: the bump allocator over a mapped area that grows
-- at its end.
pub mod Filling
pub mod Allocating
pub mod Success
pub mod Tests
use vmill.Prelude.{
  ℕ, zero, suc, ◌+◌, ◌-◌, ◌*◌, ◌/◌, ◌%◌, ◌^◌, Bool, true, false, ◌&&◌, Option, none, some, List, [],
  ◌∷◌, length, ltb, leb, ◌==◌, if◌then◌else◌, update, Outcome, done, check_failed, ◌>>=◌, ◌>>◌,
  check,
}

-- kAreaRW and kAreaRWX.
pub data AreaAllocationPerms : Type 0 where
  area_rw area_rwx : AreaAllocationPerms

-- AreaPreferences, with kAreaBase of systems other than macOS, and k2MiB, the default page size.
pub data AreaPreferences : Type 0 where
  area_base area_code_cache_code area_code_cache_data area_code_cache_index : AreaPreferences
  area_address_space area_coroutine_stacks area_runtime_heap two_mib : AreaPreferences

abbrev pub area_value : AreaPreferences → ℕ
area_value area_base = 0
area_value area_code_cache_code = 2 ^ 31
area_value area_code_cache_data = 3 * 2 ^ 30
area_value area_code_cache_index = 2 ^ 40
area_value area_address_space = 2 * 2 ^ 40
area_value area_coroutine_stacks = 3 * 2 ^ 40
area_value area_runtime_heap = 4 * 2 ^ 40
area_value two_mib = 2097152

-- The pointers are addresses, 0 for nullptr. The protection and the flags of the mappings follow
-- from `is_executable` and `preferred_base`.
pub record AreaAllocator : Type 0 where
  pub page_bytes : ℕ
  pub preferred_base : ℕ
  pub is_executable : Bool
  pub base : ℕ
  pub limit : ℕ
  pub bump : ℕ

-- The bytes of the host's memory.
abbrev pub HostMemory : Type 0
HostMemory = ℕ → ℕ

-- A library call that makes each byte of [lo, hi) the same: a new anonymous mapping, and bzero.
abbrev pub filled : ℕ → ℕ → ℕ → HostMemory → HostMemory
filled lo hi v mem a = if leb lo a && ltb a hi then v else mem a

unfoldable pub new_area : AreaAllocationPerms → ℕ → ℕ → AreaAllocator
new_area perms preferred_base page_bytes = record {
  page_bytes = page_bytes;
  preferred_base = preferred_base;
  is_executable = elim perms [ area_rw ↦ false | area_rwx ↦ true ];
  base = 0;
  limit = 0;
  bump = 0;
}

abbrev pub area_contains : AreaAllocator → ℕ → Bool
area_contains a addr = leb a.base addr && ltb addr a.bump

abbrev pub free_all : AreaAllocator → AreaAllocator
free_all a = record a { bump = a.base }

-- kBreakPointBytes of AMD64 and of AArch64.
abbrev pub break_point_bytes : Bool → List ℕ
break_point_bytes is_aarch64 = if is_aarch64 then 0 ∷ 0 ∷ 32 ∷ 212 ∷ [] else 204 ∷ []

unfoldable pub store_break_point : List ℕ → ℕ → HostMemory → HostMemory
store_break_point [] a mem = mem
store_break_point (b ∷ bs) a mem = store_break_point bs (a + 1) (update mem a b)

-- The loop `while (base < limit)`; `limit - base` rounds are enough.
unfoldable pub fill_rounds : List ℕ → ℕ → ℕ → ℕ → HostMemory → HostMemory
fill_rounds code zero base limit mem = mem
fill_rounds code (suc n) base limit mem =
    let rest = fill_rounds code n (base + length code) limit (store_break_point code base mem) in
    if ltb base limit then rest else mem

abbrev pub fill_with_break_points : List ℕ → ℕ → ℕ → HostMemory → HostMemory
fill_with_break_points code base limit mem = fill_rounds code (limit - base) base limit mem

-- `(size + (page_size - 1)) & ~(page_size - 1)`, for a page size that is a power of two.
abbrev pub round_up : ℕ → ℕ → ℕ
round_up page_bytes size = page_bytes * ((size + (page_bytes - 1)) / page_bytes)

abbrev pub aligned_bump : ℕ → ℕ → ℕ
aligned_bump bump align =
    let align_missing = if align == 0 then 0 else bump % align in
    if align_missing == 0 then bump else bump + (align - align_missing)

-- By how much the area grows for `size` more bytes.
abbrev pub growth : AreaAllocator → ℕ → ℕ
growth a size =
    let rounded = round_up a.page_bytes (a.bump + size - a.limit) in
    if rounded == 0 then a.page_bytes else rounded

-- `mmap address size fixed` is where the host maps memory, if it does; `code` is the break point.
module _ (mmap : ℕ → ℕ → Bool → Option ℕ) (code : List ℕ) where
  -- Memory that is new from `base` to `limit`.
  abbrev pub fresh : AreaAllocator → ℕ → ℕ → HostMemory → HostMemory
  fresh a base limit mem =
      if a.is_executable
      then fill_with_break_points code base limit (filled base limit 0 mem)
      else filled base limit 0 mem

  unfoldable pub initial : AreaAllocator → ℕ → HostMemory → Outcome (AreaAllocator × HostMemory)
  unfolding fill_rounds
  initial a size mem = elim (a.base == 0) [
    | false ↦ done (a, mem)
    | true ↦
        let alloc_size =
          if ltb a.page_bytes size then round_up a.page_bytes size else a.page_bytes in
        elim (mmap a.preferred_base alloc_size (ltb 0 a.preferred_base)) [
          | none ↦ check_failed
          | some ret ↦ done (
            record a { base = ret; bump = ret; limit = ret + alloc_size },
            fresh a ret (ret + alloc_size) mem,
          )
        ]
  ]

  -- The area grows when the allocation would reach its end.
  unfoldable pub grow : AreaAllocator → ℕ → HostMemory → Outcome (AreaAllocator × HostMemory)
  unfolding fill_rounds
  grow a size mem = elim (leb a.limit (a.bump + size)) [
    | false ↦ done (a, mem)
    | true ↦
        let alloc_size = growth a size in
        elim (mmap a.limit alloc_size true) [
          | none ↦ check_failed
          | some ret ↦ do
            check (ret == a.limit)
            done (record a { limit = a.limit + alloc_size }, fresh a ret (ret + alloc_size) mem)
        ]
  ]

  unfoldable pub allocate :
      AreaAllocator → ℕ → ℕ → HostMemory → Outcome (ℕ × AreaAllocator × HostMemory)
  allocate a size align mem = do
    started ← initial a size mem
    let at = record (started.0) { bump = aligned_bump (started.0).bump align }
    grown ← grow at size started.1
    done ((grown.0).bump, record (grown.0) { bump = (grown.0).bump + size }, grown.1)
