-- ===== src/Shadow.antt =====
-- vmill/Program/ShadowMemory.h and ShadowMemory.cpp: memory that has an element for each address of the
-- program, and whose pages are mapped when a first access to them faults.
pub mod Divisor
pub mod Pages
pub mod Flags
mod Tests
use vmill.Prelude.{
  ℕ, zero, suc, ◌+◌, ◌-◌, ◌*◌, ◌/◌, ◌%◌, ◌^◌, Bool, true, false, not, ◌&&◌, ◌||◌, Option, none,
  some, List, [], ◌∷◌, ◌++◌, ltb, leb, ◌==◌, if◌then◌else◌, update, Outcome, done, check_failed,
  undefined, ◌>>=◌, ◌>>◌, check, word_mod, sub64,
}
use vmill.Area.{AreaAllocator, HostMemory, area_rw, new_area, filled, allocate}

-- The bytes of the shadow are those of the host's memory. `out_of_range` has addresses of the host.
pub record ShadowMemory : Type 0 where
  pub shadow_granularity : ℕ
  pub shadow_base : ℕ
  pub page_granularity : ℕ
  pub last_shadow_address : ℕ
  pub last_shadow_elem_size_bits : ℕ
  pub last_shadow_page_size : ℕ
  pub shadow_pages : List ℕ
  pub out_of_range : ℕ → Option ℕ
  pub out_of_range_allocator : AreaAllocator

unfoldable pub new_shadow_memory : ℕ → ℕ → ℕ → ShadowMemory
new_shadow_memory shadow_granularity page_granularity shadow_base = record {
  shadow_granularity = shadow_granularity;
  shadow_base = shadow_base;
  page_granularity = page_granularity;
  last_shadow_address = 0;
  last_shadow_elem_size_bits = 0;
  last_shadow_page_size = 0;
  shadow_pages = [];
  out_of_range = λ k. none;
  out_of_range_allocator = new_area area_rw 0 4096;
}

-- The loop of GreatestCommonDivisor, on fuel.
unfoldable pub greatest_common_divisor : ℕ → ℕ → ℕ → Option ℕ
greatest_common_divisor zero k m = none
greatest_common_divisor (suc n) k m =
    let above = greatest_common_divisor n (k - m) m in
    let below = greatest_common_divisor n k (m - k) in
    if k == m then some k else if ltb m k then above else below

abbrev pub divided : ℕ → Option ℕ → Outcome ℕ
divided product none = undefined
divided product (some d) = done (product / d)

-- `k + m` rounds are enough; a loop without an end and without effects is undefined.
abbrev pub least_common_multiple : ℕ → ℕ → Outcome ℕ
least_common_multiple k m = divided (k * m % word_mod) (greatest_common_divisor (k + m) k m)

unfoldable pub shadow_page_size : ShadowMemory → Outcome ℕ
shadow_page_size sm =
    let page_size = 2 ^ sm.page_granularity in
    let bits = page_size / 2 ^ sm.shadow_granularity * sm.last_shadow_elem_size_bits % word_mod in
    least_common_multiple (bits / 8) 4096

-- Whether an address is in a page that is mapped.
unfoldable pub in_pages : ℕ → List ℕ → ℕ → Bool
in_pages size [] addr = false
in_pages size (p ∷ ps) addr = leb p addr && ltb addr (p + size) || in_pages size ps addr

abbrev pub is_there : ShadowMemory → ℕ → Bool
is_there sm addr = in_pages sm.last_shadow_page_size sm.shadow_pages addr

abbrev pub shadow_address : ShadowMemory → ℕ → ℕ
shadow_address sm addr = addr / 2 ^ sm.shadow_granularity + sm.shadow_base

-- `mmap address size` is where the host maps fixed memory.
module _ (mmap : ℕ → ℕ → Option ℕ) where
  -- The end of AddPageForAddress, with the size of a page.
  abbrev mapped_at :
      ℕ → ℕ → ShadowMemory → HostMemory → Option ℕ → Outcome (Bool × ShadowMemory × HostMemory)
  mapped_at size page sm mem none = check_failed
  mapped_at size page sm mem (some alloc_base) =
      check (page == alloc_base)
      >> done (
        true,
        record sm { shadow_pages = sm.shadow_pages ++ alloc_base ∷ [] },
        filled page (page + size) 0 mem,
      )

  abbrev pub add_page :
      ℕ → ShadowMemory → HostMemory → ℕ → Outcome (Bool × ShadowMemory × HostMemory)
  add_page size sm mem addr =
      let page = sub64 addr sm.shadow_base / size * size + sm.shadow_base in
      let sized = record sm { last_shadow_page_size = size } in
      check (sm.last_shadow_page_size == 0 || sm.last_shadow_page_size == size)
      >> check (leb page addr && ltb addr (page + size))
      >> mapped_at size page sized mem (mmap page size)

  unfoldable pub add_page_for_address :
      ShadowMemory → HostMemory → ℕ → Outcome (Bool × ShadowMemory × HostMemory)
  add_page_for_address sm mem addr =
      if not (addr == sm.last_shadow_address)
      then done (false, sm, mem)
      else (shadow_page_size sm >>= λ size. add_page size sm mem addr)

  -- CatchFault, where no other handler was installed before; then the access is made again.
  abbrev handled : Bool × ShadowMemory × HostMemory → Outcome (ShadowMemory × HostMemory)
  handled (true, sm, mem) = done (sm, mem)
  handled (false, sm, mem) = check_failed

  unfoldable pub forced : ShadowMemory → HostMemory → ℕ → Outcome (ShadowMemory × HostMemory)
  forced sm mem addr =
      if is_there sm addr then done (sm, mem) else (add_page_for_address sm mem addr >>= handled)

  -- At of an address below shadow_base, for elements of so many bits: where the element is.
  unfoldable pub at_in_range :
      ShadowMemory → HostMemory → ℕ → ℕ → Outcome (ℕ × ShadowMemory × HostMemory)
  at_in_range sm mem bits addr =
      let at = shadow_address sm addr in
      let asked = record sm { last_shadow_address = at; last_shadow_elem_size_bits = bits } in
      forced asked mem at >>= λ r. done (at, r.0, r.1)

-- Elsewhere the elements are allocated one by one, and zero at first; `mmap` is that of the allocator.
unfoldable pub at_out_of_range :
    (ℕ → ℕ → Bool → Option ℕ)
    → ShadowMemory
    → HostMemory
    → ℕ
    → ℕ
    → ℕ
    → Outcome (ℕ × ShadowMemory × HostMemory)
at_out_of_range mmap sm mem size align addr =
    let k = addr / 2 ^ sm.shadow_granularity in
    elim (sm.out_of_range k) [
      | some at ↦ done (at, sm, mem)
      | none ↦ do
        (at, allocator, mem') ← allocate mmap [] sm.out_of_range_allocator size align mem
        done (
          at,
          record sm {
            out_of_range = update sm.out_of_range k (some at);
            out_of_range_allocator = allocator;
          },
          filled at (at + size) 0 mem',
        )
    ]

-- BoolRef: the byte, the weight of the bit, which is one of the eight lowest, and the value that was read.
pub record BoolRef : Type 0 where
  pub byte_ptr : ℕ
  pub test_mask : ℕ
  pub cache : Bool

abbrev pub has_bit : ℕ → ℕ → Bool
has_bit byte mask = byte / mask % 2 == 1

unfoldable pub bool_ref : HostMemory → ℕ → ℕ → BoolRef
bool_ref mem at bit_offset = record {
  byte_ptr = at;
  test_mask = 2 ^ bit_offset;
  cache = has_bit (mem at) (2 ^ bit_offset);
}

-- `|=` and `^=` of a byte with a mask of one bit.
abbrev pub with_bit : ℕ → ℕ → ℕ
with_bit byte mask = if has_bit byte mask then byte else byte + mask

abbrev pub flipped : ℕ → ℕ → ℕ
flipped byte mask = if has_bit byte mask then byte - mask else byte + mask

unfoldable pub assign : BoolRef → Bool → HostMemory → BoolRef × HostMemory
assign ref true mem = if ref.cache then (ref, mem) else (
  record ref { cache = true },
  update mem ref.byte_ptr (with_bit (mem ref.byte_ptr) ref.test_mask),
)
assign ref false mem =
    if ref.cache
    then (
      record ref { cache = false },
      update mem ref.byte_ptr (flipped (mem ref.byte_ptr) ref.test_mask),
    )
    else (ref, mem)

-- At of a type of `size` bytes, and of bool.
module _ (shadow_mmap : ℕ → ℕ → Option ℕ) (area_mmap : ℕ → ℕ → Bool → Option ℕ) where
  unfoldable pub at_type :
      ShadowMemory → HostMemory → ℕ → ℕ → ℕ → Outcome (ℕ × ShadowMemory × HostMemory)
  at_type sm mem size align addr =
      if ltb addr sm.shadow_base
      then at_in_range shadow_mmap sm mem (size * 8) addr
      else at_out_of_range area_mmap sm mem size align addr

  unfoldable pub at_bool :
      ShadowMemory → HostMemory → ℕ → Outcome (BoolRef × ShadowMemory × HostMemory)
  at_bool sm mem addr =
      if ltb addr sm.shadow_base
      then (at_in_range shadow_mmap sm mem 1 addr >>= λ r.
          done (bool_ref r.2 r.0 (r.0 % 8), r.1, r.2))
      else (at_out_of_range area_mmap sm mem 1 0 addr >>= λ r. done (bool_ref r.2 r.0 0, r.1, r.2))
