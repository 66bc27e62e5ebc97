-- ===== src/Writes.antt =====
-- vmill/Program/AddressSpace.cpp: the writes to guest memory, TryWrite, and the virtual addresses
-- of guest memory. A value of several bytes is the list of its bytes in memory order.
pub mod Killed
mod Tests
use vmill.Prelude.{
  ℕ, zero, suc, ◌+◌, ◌-◌, Bool, true, false, not, ◌&&◌, Option, none, some, List, [], ◌∷◌, length,
  add64, page_size, align_down_to_page, Outcome, done, undefined, ◌>>=◌,
}
use vmill.Range.{
  Store, Pointer, byte_of, fetch, write, store_byte, to_read_only_virtual_address,
  to_read_write_virtual_address,
}
use vmill.Range.Duplicates.{invalidate_code_version}
use vmill.Space.{AddressSpace, min, masked, page_addrs, can_write_aligned, can_execute_aligned}
use vmill.Space.Lookup.{find_range_aligned, find_range, find_wnx_range}
use vmill.Reads.{on_one_page, is_null}

-- The inner loop: the bytes that are left, `n` of them from `a` on.
unfoldable pub write_run : Store → ℕ → ℕ → List ℕ → ℕ → Outcome (Option (List ℕ) × Store)
write_run s p zero vs a = done (some vs, s)
write_run s p (suc n) [] a = undefined
write_run s p (suc n) (v ∷ vs) a = do
  written ← write s p a v
  elim written.0 [ false ↦ done (none, written.1) | true ↦ write_run written.1 p n vs (a + 1) ]

-- The answer of a write, with the store and the space after it.
abbrev pub Written : Type 0
Written = Bool × Store × AddressSpace

-- Under the flag `version_code`, a write to an executable page makes the code version of its range
-- invalid and forgets the trace heads.
unfoldable pub forget_code : Bool → Store → AddressSpace → ℕ → ℕ → Outcome (Store × AddressSpace)
forget_code version_code s sp p page = elim (version_code && can_execute_aligned sp page) [
  | false ↦ done (s, sp)
  | true ↦ do s' ← invalidate_code_version s p; done (s', record sp { trace_heads = λ _. false })
]

-- The outer loop, over the pages. What was written before a failure stays written.
unfoldable pub write_pages : Bool → Store → AddressSpace → List ℕ → List ℕ → ℕ → ℕ → Outcome Written
write_pages version_code s sp [] vs a end = done (true, s, sp)
write_pages version_code s sp (page ∷ pages) vs a end = elim (can_write_aligned sp page) [
  | false ↦ done (false, s, sp)
  | true ↦ do
    found ← find_range_aligned s sp page
    forgot ← forget_code version_code s found.1 found.0 page
    let next_end = min end (add64 page page_size)
    run ← write_run forgot.0 found.0 (next_end - a) vs a
    elim run.0 [
      | none ↦ done (false, run.1, forgot.1)
      | some rest ↦ write_pages version_code run.1 forgot.1 pages rest next_end end
    ]
]

unfoldable pub try_write : Bool → Store → AddressSpace → ℕ → List ℕ → Outcome Written
try_write version_code s sp addr vs =
    let a = masked sp addr in
    let end = add64 a (length vs) in
    write_pages version_code s sp (page_addrs (align_down_to_page a) end) vs a end

-- TryWrite(uint64_t, uint8_t).
unfoldable pub try_write_byte : Bool → Store → AddressSpace → ℕ → ℕ → Outcome Written
try_write_byte version_code s sp addr v = do
  let a = masked sp addr
  found ← find_wnx_range s sp a
  written ← write s found.0 a v
  elim written.0 [
    | true ↦ done (true, written.1, found.1)
    | false ↦ try_write version_code written.1 found.1 a (v ∷ [])
  ]

-- `*ptr = val` for the bytes of a value.
unfoldable pub store_bytes : Store → Pointer → List ℕ → Outcome Store
store_bytes s (byte_of p i) [] = done s
store_bytes s (byte_of p i) (v ∷ vs) = do
  s' ← store_byte s (byte_of p i) v
  store_bytes s' (byte_of p (i + 1)) vs
store_bytes s ptr vs = undefined

-- MAKE_TRY_WRITE, for a type whose value is the bytes `vs`.
unfoldable pub try_write_word : Bool → Store → AddressSpace → ℕ → List ℕ → Outcome Written
try_write_word version_code s sp addr vs = do
  let a = masked sp addr
  found ← find_wnx_range s sp a
  r ← fetch s found.0
  target ← to_read_write_virtual_address s found.0 a
  let one_page = on_one_page r.base_address r.limit_address a (add64 a (length vs - 1))
  elim (not (is_null target.0) && one_page) [
    | true ↦ do s' ← store_bytes target.1 target.0 vs; done (true, s', found.1)
    | false ↦ try_write version_code target.1 found.1 a vs
  ]

-- ToReadWriteVirtualAddress and ToReadOnlyVirtualAddress of the address space.
unfoldable pub to_read_write_address :
    Store → AddressSpace → ℕ → Outcome (Pointer × Store × AddressSpace)
to_read_write_address s sp addr = do
  found ← find_range s sp (masked sp addr)
  target ← to_read_write_virtual_address s found.0 (masked sp addr)
  done (target.0, target.1, found.1)

unfoldable pub to_read_only_address : Store → AddressSpace → ℕ → Outcome (Pointer × AddressSpace)
to_read_only_address s sp addr = do
  found ← find_range s sp (masked sp addr)
  ptr ← to_read_only_virtual_address s found.0 (masked sp addr)
  done (ptr, found.1)
