-- ===== src/Area/Success.antt =====
-- AreaAllocator::Allocate on a host that has memory: it does not fail.
use vmill.Prelude.{
  ℕ, ◌+◌, ◌≡◌, inl, inr, Bool, true, false, Bool-cases, Option, some, List, ltb, leb, ◌==◌,
  if◌then◌else◌, arith, done,
}
use vmill.Area.{
  AreaAllocator, HostMemory, initial, grow, aligned_bump, allocate, growth, round_up, fresh,
}

-- The host maps memory somewhere when it is asked without an address, and at the address that it is
-- asked for with MAP_FIXED.
pub record HasMemory (mmap : ℕ → ℕ → Bool → Option ℕ) : Type 0 where
  pub anywhere : (n : ℕ) → (at : ℕ) × (mmap 0 n false ≡ some at)
  pub fixed : (at n : ℕ) → mmap at n true ≡ some at

module _ (mmap : ℕ → ℕ → Bool → Option ℕ) (code : List ℕ) (host : HasMemory mmap) where
  maps : (at n : ℕ) → (ret : ℕ) × (mmap at n (ltb 0 at) ≡ some ret)
  maps at n = elim (Bool-cases (ltb 0 at)) [
    | inl preferred ↦ (at, ground (arith, host.fixed at n))
    | inr none' ↦ let (ret, e) = host.anywhere n in (ret, ground arith)
  ]

  initial_succeeds :
      (a : AreaAllocator) (size : ℕ) (mem : HostMemory)
      → (x : AreaAllocator × HostMemory) × (initial mmap code a size mem ≡ done x)
  unfolding initial
  initial_succeeds a size mem =
      let alloc_size = if ltb a.page_bytes size then round_up a.page_bytes size else a.page_bytes in
      let (ret, e) = maps a.preferred_base alloc_size in
      elim (Bool-cases (a.base == 0)) [
        | inr started ↦ ((a, mem), ground arith)
        | inl not_yet ↦ (
          (
            record a { base = ret; bump = ret; limit = ret + alloc_size },
            fresh mmap code a ret (ret + alloc_size) mem,
          ),
          ground arith,
        )
      ]

  grow_succeeds :
      (a : AreaAllocator) (size : ℕ) (mem : HostMemory)
      → (x : AreaAllocator × HostMemory) × (grow mmap code a size mem ≡ done x)
  unfolding grow
  grow_succeeds a size mem = elim (Bool-cases (leb a.limit (a.bump + size))) [
    | inr fits ↦ ((a, mem), ground arith)
    | inl reaches ↦ (
      (
        record a { limit = a.limit + growth a size },
        fresh mmap code a a.limit (a.limit + growth a size) mem,
      ),
      ground (arith, host.fixed a.limit (growth a size)),
    )
  ]

  -- On a host that has memory, Allocate succeeds.
  pub allocate_succeeds :
      (a : AreaAllocator) (size align : ℕ) (mem : HostMemory)
      → (x : ℕ × AreaAllocator × HostMemory) × (allocate mmap code a size align mem ≡ done x)
  unfolding allocate
  allocate_succeeds a size align mem =
      let (first, f) = initial_succeeds a size mem in
      let at = record (first.0) { bump = aligned_bump (first.0).bump align } in
      let (grown, g) = grow_succeeds at size first.1 in
      (((grown.0).bump, record (grown.0) { bump = (grown.0).bump + size }, grown.1), rw (f, g))
