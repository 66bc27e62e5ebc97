-- ===== src/Space.antt =====
-- vmill/Program/AddressSpace.h and AddressSpace.cpp: the state of an address space, its page
-- indexes, the cached lookup of a range, permissions, and mapping and unmapping.
-- The ranges are keys of the store of `Range`, which several spaces share.
pub mod Mapping
pub mod Permissions
pub mod Sorting
pub mod Index
pub mod Caching
pub mod Lookup
pub mod Hole
pub mod Fork
mod Tests
use vmill.Prelude.{
  ℕ, zero, suc, ◌+◌, ◌-◌, ◌/◌, ◌%◌, ◌^◌, Bool, true, false, not, ◌&&◌, ◌||◌, Option, none, some,
  List, [], ◌∷◌, ◌++◌, map, leb, ltb, ◌==◌, if◌then◌else◌, update, page_size, word_mod, add64,
  sub64, align_down_to_page, round_up_to_page, Outcome, done, ◌>>=◌, ◌>>◌, check,
}
use vmill.Range.{MappedRange, Store, fetch, contains, create, create_invalid, is_valid}
use vmill.Range.Duplicates.{clone}
use vmill.Removal.{remove_range}

pub record AddressSpace : Type 0 where
  pub maps : List ℕ
  pub page_to_map : ℕ → Option ℕ
  pub wnx_page_to_map : ℕ → Option ℕ
  pub min_addr : ℕ
  pub addr_mask : ℕ
  pub invalid_map : ℕ
  pub last_map_cache : ℕ → Option ℕ
  pub wnx_last_map_cache : ℕ → Option ℕ
  pub page_is_readable : ℕ → Bool
  pub page_is_writable : ℕ → Bool
  pub page_is_executable : ℕ → Bool
  pub trace_heads : ℕ → Bool
  pub is_dead : Bool

abbrev pub min : ℕ → ℕ → ℕ
min a b = if ltb b a then b else a

-- `addr & addr_mask`, for a mask that is a power of two less one.
abbrev pub masked : AddressSpace → ℕ → ℕ
masked sp a = a % suc sp.addr_mask

-- GetAddressMask, from the address size of the target architecture.
abbrev pub get_address_mask : ℕ → ℕ
get_address_mask address_size = if address_size == 32 then 2 ^ 32 - 1 else word_mod - 1

-- `for (addr = base; addr < limit; addr += kPageSize)`, for a limit that is at least a page below
-- 2 ^ 64, so that the sum does not wrap.
unfoldable pub pages_from : ℕ → ℕ → List ℕ
pages_from a zero = []
pages_from a (suc n) = a ∷ pages_from (a + page_size) n

abbrev pub page_addrs : ℕ → ℕ → List ℕ
page_addrs base limit = pages_from base ((limit - base + 4095) / page_size)

-- IsDead.
abbrev pub is_dead_space : AddressSpace → Bool
is_dead_space sp = sp.is_dead

abbrev pub can_read_aligned : AddressSpace → ℕ → Bool
can_read_aligned sp a = sp.page_is_readable a

abbrev pub can_write_aligned : AddressSpace → ℕ → Bool
can_write_aligned sp a = sp.page_is_writable a

abbrev pub can_execute_aligned : AddressSpace → ℕ → Bool
can_execute_aligned sp a = sp.page_is_executable a

abbrev pub can_read : AddressSpace → ℕ → Bool
can_read sp a = can_read_aligned sp (align_down_to_page (masked sp a))

abbrev pub can_write : AddressSpace → ℕ → Bool
can_write sp a = can_write_aligned sp (align_down_to_page (masked sp a))

abbrev pub can_execute : AddressSpace → ℕ → Bool
can_execute sp a = can_execute_aligned sp (align_down_to_page (masked sp a))

-- The loops of CreatePageToRangeMap, over one page, one range and all ranges.
unfoldable pub index_page : ℕ → ℕ → AddressSpace → AddressSpace
index_page p a sp = record sp {
  page_to_map =
      if can_read_aligned sp a || (can_write_aligned sp a || can_execute_aligned sp a)
      then update sp.page_to_map a (some p)
      else sp.page_to_map;
  wnx_page_to_map =
      if can_write_aligned sp a && not (can_execute_aligned sp a)
      then update sp.wnx_page_to_map a (some p)
      else sp.wnx_page_to_map;
}

unfoldable pub index_pages : ℕ → List ℕ → AddressSpace → AddressSpace
index_pages p [] sp = sp
index_pages p (a ∷ as') sp = index_pages p as' (index_page p a sp)

unfoldable pub index_maps : Store → List (ℕ × MappedRange) → AddressSpace → Outcome AddressSpace
index_maps s [] sp = done sp
index_maps s ((p, r) ∷ rest) sp = do
  valid ← is_valid s p
  let indexed = index_pages p (page_addrs r.base_address r.limit_address)
  index_maps s rest
      (if valid then indexed (record sp { min_addr = min sp.min_addr r.base_address }) else sp)

unfoldable pub fetch_all : Store → List ℕ → Outcome (List (ℕ × MappedRange))
fetch_all s [] = done []
fetch_all s (p ∷ ps) = do r ← fetch s p; rest ← fetch_all s ps; done ((p, r) ∷ rest)

-- std::sort by base address; ranges with equal bases keep their order here.
unfoldable pub insert_by_base : ℕ × MappedRange → List (ℕ × MappedRange) → List (ℕ × MappedRange)
insert_by_base e [] = e ∷ []
insert_by_base e (f ∷ fs) =
    if leb (e.1).base_address (f.1).base_address then e ∷ f ∷ fs else f ∷ insert_by_base e fs

unfoldable pub sort_by_base : List (ℕ × MappedRange) → List (ℕ × MappedRange)
sort_by_base [] = []
sort_by_base (e ∷ es) = insert_by_base e (sort_by_base es)

abbrev pub cleared : AddressSpace → List ℕ → AddressSpace
cleared sp maps = record sp {
  maps = maps;
  page_to_map = λ _. none;
  wnx_page_to_map = λ _. none;
  last_map_cache = λ _. none;
  wnx_last_map_cache = λ _. none;
  min_addr = word_mod - 1;
}

unfoldable pub create_page_to_range_map : Store → AddressSpace → Outcome AddressSpace
create_page_to_range_map s sp = do
  entries ← fetch_all s sp.maps
  let sorted = sort_by_base entries
  index_maps s sorted (cleared sp (map (λ e. e.0) sorted))
