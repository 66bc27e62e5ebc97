-- ===== src/Reads.antt =====
-- vmill/Program/AddressSpace.cpp: the reads of guest memory, TryRead and
-- TryReadExecutable. A value of several bytes is the list of its bytes in
-- memory order, which is also the order in which the host loads and stores them.
use vmill.Prelude.{
  ℕ, zero, suc, ◌+◌, ◌-◌, Bool, true, false, ◌&&◌, Option, none, some, List, [], ◌∷◌, ◌++◌, leb,
  ltb, ◌==◌, add64, page_size, align_down_to_page, Outcome, done, undefined, ◌>>=◌,
}
use vmill.Range.{
  Store, Pointer, null, zeroes, byte_of, fetch, read, in_array, array, to_read_only_virtual_address,
}
use vmill.Space.{AddressSpace, min, masked, page_addrs, can_execute_aligned}
use vmill.Space.Lookup.{find_range_aligned, find_range}

-- The inner loop of TryRead: `n` bytes from `a` on, or `none` where a read returns false.
unfoldable pub read_run : Store → ℕ → ℕ → ℕ → Outcome (Option (List ℕ))
read_run s p zero a = done (some [])
read_run s p (suc n) a = do
  byte ← read s p a
  elim byte.0 [
    | false ↦ done none
    | true ↦ do
      rest ← read_run s p n (a + 1)
      done (elim rest [ none ↦ none | some vs ↦ some (byte.1 ∷ vs) ])
  ]

-- The outer loop of TryRead, over the pages. The caches change also where the read fails.
unfoldable pub read_pages :
    Store → AddressSpace → List ℕ → ℕ → ℕ → Outcome (Option (List ℕ) × AddressSpace)
read_pages s sp [] a end = done (some [], sp)
read_pages s sp (page ∷ pages) a end = do
  found ← find_range_aligned s sp page
  let next_end = min end (add64 page page_size)
  run ← read_run s found.0 (next_end - a) a
  elim run [
    | none ↦ done (none, found.1)
    | some vs ↦ do
      rest ← read_pages s found.1 pages next_end end
      done (elim rest.0 [ none ↦ none | some ws ↦ some (vs ++ ws) ], rest.1)
  ]

unfoldable pub try_read : Store → AddressSpace → ℕ → ℕ → Outcome (Option (List ℕ) × AddressSpace)
try_read s sp addr size =
    let a = masked sp addr in
    let end = add64 a size in read_pages s sp (page_addrs (align_down_to_page a) end) a end

-- TryRead(uint64_t, uint8_t *). The byte is put into `*val_out` also where the read fails.
unfoldable pub try_read_byte : Store → AddressSpace → ℕ → Outcome ((Bool × ℕ) × AddressSpace)
try_read_byte s sp addr = do
  found ← find_range s sp (masked sp addr)
  byte ← read s found.0 (masked sp addr)
  done (byte, found.1)

-- `*ptr` for a type of `n` bytes. kZeroes has 64 bytes, more than any of the types.
unfoldable pub load : Store → Pointer → ℕ → Outcome (List ℕ)
load s null n = undefined
load s zeroes zero = done []
load s zeroes (suc n) = do rest ← load s zeroes n; done (0 ∷ rest)
load s (byte_of p i) zero = done []
load s (byte_of p i) (suc n) = do
  r ← fetch s p
  v ← elim r.body [ array bytes ↦ in_array r i (bytes i) | _ ↦ undefined ]
  rest ← load s (byte_of p (i + 1)) n
  done (v ∷ rest)

-- The test of the fast paths: all bytes lie in the range and on one page.
abbrev pub on_one_page : ℕ → ℕ → ℕ → ℕ → Bool
on_one_page base limit a end =
    (leb base a && ltb end limit) && (align_down_to_page a == align_down_to_page end)

abbrev pub is_null : Pointer → Bool
is_null null = true
is_null zeroes = false
is_null (byte_of p i) = false

-- MAKE_TRY_READ, for a type of `n` bytes.
unfoldable pub try_read_word :
    Store → AddressSpace → ℕ → ℕ → Outcome (Option (List ℕ) × AddressSpace)
try_read_word s sp addr n = do
  let a = masked sp addr
  found ← find_range s sp a
  r ← fetch s found.0
  ptr ← to_read_only_virtual_address s found.0 a
  let slow = try_read s found.1 a n
  elim (is_null ptr) [
    | true ↦ done (none, found.1)
    | false ↦ elim (on_one_page r.base_address r.limit_address a (add64 a (n - 1))) [
      | false ↦ slow
      | true ↦ do vs ← load s ptr n; done (some vs, found.1)
    ]
  ]

-- Of an instruction byte: the range must give it, and its page must be executable.
unfoldable pub try_read_executable : Store → AddressSpace → ℕ → Outcome ((Bool × ℕ) × AddressSpace)
try_read_executable s sp pc = do
  let page = align_down_to_page (masked sp pc)
  found ← find_range_aligned s sp page
  byte ← read s found.0 (masked sp pc)
  done ((byte.0 && can_execute_aligned sp page, byte.1), found.1)
