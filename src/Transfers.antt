-- ===== src/Transfers.antt =====
-- vmill/Runtime/Generic/Memory.cpp: the copies between guest memory and the host, and the atomic
-- operations; and vmill/Executor/Memory.cpp: the pages of the runtime's heap.
pub mod RoundTrip
pub mod Accessing
mod Tests
use vmill.Prelude.{
  ℕ, zero, suc, ◌+◌, ◌*◌, ◌/◌, ◌%◌, Bool, true, false, Option, none, some, length, List, [], ◌∷◌,
  ltb, ◌==◌, if◌then◌else◌, sub64, align_down_to_page, Outcome, done, ◌>>=◌,
}
use vmill.Area.{HostMemory, area_rw, area_runtime_heap, area_value}
use vmill.Zone.{ZoneAllocator, new_zone, free, zone_allocate}

-- The loop of NumReadableBytes and NumWritableBytes: `can` is the test of an address, and `width`
-- the number of addresses.
unfoldable pub accessible_bytes_from : (ℕ → Bool) → ℕ → ℕ → ℕ → ℕ → ℕ → ℕ
accessible_bytes_from can width addr size zero i = if ltb size i then size else i
accessible_bytes_from can width addr size (suc n) i =
    let rest = accessible_bytes_from can width addr size n (i + 4096) in
    let at = (addr + i) % width in
    if can at then rest else if i == 0 then 0 else sub64 (align_down_to_page at) addr

abbrev pub num_accessible_bytes : (ℕ → Bool) → ℕ → ℕ → ℕ → ℕ
num_accessible_bytes can width addr size =
    accessible_bytes_from can width addr size ((size + 4095) / 4096) 0

-- CanReadMemory and CanWriteMemory of Intrinsics.h.
abbrev pub can_access_memory : (ℕ → Bool) → ℕ → ℕ → ℕ → Bool
can_access_memory can width addr size = size == num_accessible_bytes can width addr size

-- The number whose bytes these are, the lowest first.
abbrev pub word_of : List ℕ → ℕ
word_of [] = 0
word_of (b ∷ bs) = b + 256 * word_of bs

abbrev pub bytes_of : ℕ → ℕ → List ℕ
bytes_of zero w = []
bytes_of (suc n) w = w % 256 ∷ bytes_of n (w / 256)

-- `read` and `write` are the intrinsics of remill for one value, over the memory's state.
module _ {M : Type 0} (read : M → ℕ → ℕ) (write : M → ℕ → ℕ → M) (width : ℕ) where
  unfoldable pub copy_to_memory : M → ℕ → List ℕ → M
  copy_to_memory m addr [] = m
  copy_to_memory m addr (v ∷ vs) = copy_to_memory (write m addr v) ((addr + 1) % width) vs

  unfoldable pub copy_from_memory : M → ℕ → ℕ → List ℕ
  copy_from_memory m addr zero = []
  copy_from_memory m addr (suc n) = read m addr ∷ copy_from_memory m ((addr + 1) % width) n

  -- The bytes that are put into the buffer, with a terminator, and the length without it.
  unfoldable pub string_from : M → ℕ → ℕ → List ℕ × ℕ
  string_from m addr zero = ([], 0)
  string_from m addr (suc n) =
      let rest = string_from m ((addr + 1) % width) n in
      if read m addr == 0 then (0 ∷ [], 0) else (read m addr ∷ rest.0, suc rest.1)

  abbrev pub copy_string_from_memory : (ℕ → Bool) → M → ℕ → ℕ → List ℕ × ℕ
  copy_string_from_memory can_read m addr max_len =
      string_from m addr (num_accessible_bytes can_read width addr max_len)

  -- `val` is the host's string, by index.
  unfoldable pub string_to : M → ℕ → (ℕ → ℕ) → ℕ → ℕ → M × ℕ
  string_to m addr val zero i = (m, i)
  string_to m addr val (suc n) i =
      let m' = write m ((addr + i) % width) (val i) in
      let rest = string_to m' addr val n (i + 1) in if val i == 0 then (m', i) else rest

  abbrev pub copy_string_to_memory : (ℕ → Bool) → M → ℕ → (ℕ → ℕ) → ℕ → M × ℕ
  copy_string_to_memory can_write m addr val len =
      string_to m addr val (num_accessible_bytes can_write width addr len) 0

  -- MAKE_CMPXCHG: the memory, and `expected` after it.
  unfoldable pub compare_exchange_memory : M → ℕ → ℕ → ℕ → M × ℕ
  compare_exchange_memory m addr expected desired =
      let old_val = read m addr in
      if old_val == expected
      then (write m addr desired, expected)
      else (write m addr old_val, old_val)

  -- MAKE_RMW for values below `modulus`: the memory, and `value` after it.
  unfoldable pub fetch_and : (ℕ → ℕ → ℕ) → ℕ → M → ℕ → ℕ → M × ℕ
  fetch_and op modulus m addr value =
      let old_val = read m addr in (write m addr (op old_val value % modulus), old_val)

  -- TryReadMemory and TryWriteMemory of Intrinsics.h: nothing happens where not all bytes
  -- are accessible.
  abbrev pub try_read_memory : (ℕ → Bool) → M → ℕ → ℕ → Option (List ℕ)
  try_read_memory can_read m addr size =
      if can_access_memory can_read width addr size
      then some (copy_from_memory m addr size)
      else none

  abbrev pub try_write_memory : (ℕ → Bool) → M → ℕ → List ℕ → Bool × M
  try_write_memory can_write m addr bytes =
      if can_access_memory can_write width addr (length bytes)
      then (true, copy_to_memory m addr bytes)
      else (false, m)

-- gRuntimeHeap.
abbrev pub runtime_heap : ZoneAllocator
runtime_heap = new_zone area_rw (area_value area_runtime_heap) 4096

-- liballoc_alloc and liballoc_free, over a zone such as the runtime's heap.
module _ (mmap : ℕ → ℕ → Bool → Option ℕ) (code : List ℕ) where
  unfoldable pub liballoc_alloc :
      ZoneAllocator → ℕ → HostMemory → Outcome (ℕ × ZoneAllocator × HostMemory)
  liballoc_alloc heap num_pages mem = do
    alloc ← zone_allocate mmap code heap (num_pages * 4096) mem
    done ((alloc.0).base, alloc.1, alloc.2)

abbrev pub liballoc_free : ZoneAllocator → ℕ → ℕ → ZoneAllocator
liballoc_free heap base num_pages = (free heap (record { base = base; size = num_pages * 4096 })).0
