-- ===== src/Space/Lookup.antt =====
-- AddressSpace.cpp: FindRange, FindRangeAligned, FindWNXRange and FindWNXRangeAligned, with their
-- caches of raw pointers, and ComputeCodeVersion.
use vmill.Prelude.{
  ℕ, ◌/◌, ◌%◌, Bool, true, false, Option, none, some, List, if◌then◌else◌, update,
  align_down_to_page, Outcome, done, ◌>>=◌,
}
use vmill.Range.{Store, fetch, contains}
use vmill.Range.Duplicates.{compute_code_version}
use vmill.Space.{AddressSpace, masked}

-- kRangeCacheSize; the slot of that index holds the range that was found last.
abbrev pub range_cache_size : ℕ
range_cache_size = 256

-- `(page_addr >> 12) & kRangeCacheMask`
abbrev pub cache_index : ℕ → ℕ
cache_index page_addr = page_addr / 4096 % 256

-- `last_range && last_range->Contains(page_addr)`
unfoldable pub cached : Store → Option ℕ → ℕ → Outcome (Option ℕ)
cached s none page_addr = done none
cached s (some p) page_addr = do r ← fetch s p; done (if contains r page_addr then some p else none)

-- The two functions differ in the table and in the cache that they use.
unfoldable pub find_cached :
    Store → (ℕ → Option ℕ) → ℕ → (ℕ → Option ℕ) → ℕ → Outcome (ℕ × (ℕ → Option ℕ))
find_cached s table invalid cache page_addr = do
  last ← cached s (cache range_cache_size) page_addr
  elim last [
    | some p ↦ done (p, cache)
    | none ↦ do
      slot ← cached s (cache (cache_index page_addr)) page_addr
      elim slot [
        | some p ↦ done (p, update cache range_cache_size (some p))
        | none ↦ elim (table page_addr) [
          | some p ↦
              done (
                p,
                update (update cache range_cache_size (some p)) (cache_index page_addr) (some p),
              )
          | none ↦ done (invalid, cache)
        ]
      ]
  ]

unfoldable pub find_range_aligned : Store → AddressSpace → ℕ → Outcome (ℕ × AddressSpace)
find_range_aligned s sp page_addr = do
  found ← find_cached s sp.page_to_map sp.invalid_map sp.last_map_cache page_addr
  done (found.0, record sp { last_map_cache = found.1 })

abbrev pub find_range : Store → AddressSpace → ℕ → Outcome (ℕ × AddressSpace)
find_range s sp a = find_range_aligned s sp (align_down_to_page a)

unfoldable pub find_wnx_range_aligned : Store → AddressSpace → ℕ → Outcome (ℕ × AddressSpace)
find_wnx_range_aligned s sp page_addr = do
  found ← find_cached s sp.wnx_page_to_map sp.invalid_map sp.wnx_last_map_cache page_addr
  done (found.0, record sp { wnx_last_map_cache = found.1 })

abbrev pub find_wnx_range : Store → AddressSpace → ℕ → Outcome (ℕ × AddressSpace)
find_wnx_range s sp a = find_wnx_range_aligned s sp (align_down_to_page a)

-- The code version is the constant 0 unless the flag `version_code` is set.
unfoldable pub code_version_of :
    (List ℕ → ℕ) → Bool → Store → AddressSpace → ℕ → Outcome (ℕ × Store × AddressSpace)
code_version_of hash version_code s sp pc = elim version_code [
  | false ↦ done (0, s, sp)
  | true ↦ do
    found ← find_range s sp (masked sp pc)
    version ← compute_code_version hash s found.0
    done (version.0, version.1, found.1)
]
