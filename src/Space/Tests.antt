-- ===== src/Space/Tests.antt =====
-- The theorems about address spaces at a concrete one.
use vmill.Prelude.{
  ℕ, ◌≡◌, refl, true, false, Option, none, some, List, [], ◌∷◌, map, leb, ltb, ◌&&◌, if◌then◌else◌,
  update, arith, done,
}
use mathlib.Core.List.{Perm}
use vmill.Range.{MappedRange, Store, is_valid, invalid, empty, new_range}
use vmill.Space.{
  AddressSpace, fetch_all, create_page_to_range_map, sort_by_base, insert_by_base, index_maps,
  index_pages, index_page, pages_from,
}
use vmill.Space.Mapping.{set_permissions, set_pages}
use vmill.Space.Sorting.{IsSorted}
use vmill.Space.Index.{accessible, wnx, owner, create_page_to_range_map_lem}
use vmill.Space.Permissions.{set_permissions_lem}
use vmill.Space.Hole.{extents, find_hole}
use vmill.Space.Hole.Search.{Found}
use vmill.Space.Hole.Result.{find_hole-Found}
use vmill.Space.Caching.{IsFull, IsCoherent, find_cached_lem, find_wnx_range_stale}
use vmill.Space.Lookup.{find_cached, find_wnx_range_aligned}

-- Range 0 is invalid, range 1 has two pages of zeroes behind it.
abbrev unmapped : MappedRange
unmapped = new_range 0 8192 (some []) 0 invalid

abbrev two_pages : MappedRange
two_pages = new_range 8192 16384 (some []) 0 empty

abbrev store : Store
store = record {
  object = update (update (λ _. none) 0 (some unmapped)) 1 (some two_pages);
  next = 2;
}

-- The first page of range 1 may be read and written, the second one only read.
abbrev space : AddressSpace
space = record {
  maps = 1 ∷ 0 ∷ [];
  page_to_map = update (update (λ _. none) 12288 (some 1)) 8192 (some 1);
  wnx_page_to_map = update (λ _. none) 8192 (some 1);
  min_addr = 8192;
  addr_mask = 4294967295;
  invalid_map = 0;
  last_map_cache = λ _. none;
  wnx_last_map_cache = λ _. none;
  page_is_readable = update (update (λ _. false) 12288 true) 8192 true;
  page_is_writable = update (λ _. false) 8192 true;
  page_is_executable = λ _. false;
  trace_heads = λ _. false;
  is_dead = false;
}

-- What CreatePageToRangeMap makes of it, and SetPermissions for the second page.
abbrev indexed : AddressSpace
indexed = record space {
  maps = 0 ∷ 1 ∷ [];
  page_to_map = update (update (λ _. none) 8192 (some 1)) 12288 (some 1);
}

abbrev writable : AddressSpace
writable = record indexed {
  wnx_page_to_map = update (update (λ _. none) 8192 (some 1)) 12288 (some 1);
  page_is_readable = update space.page_is_readable 12288 true;
  page_is_writable = update space.page_is_writable 12288 true;
  page_is_executable = update space.page_is_executable 12288 false;
}

space-indexed : create_page_to_range_map store space ≡ done indexed
unfolding create_page_to_range_map fetch_all sort_by_base insert_by_base index_maps index_pages
    index_page pages_from is_valid
space-indexed = refl

space_writable : set_permissions store space 12300 1 true true false ≡ done writable
unfolding set_permissions set_pages create_page_to_range_map fetch_all sort_by_base insert_by_base
    index_maps index_pages index_page pages_from is_valid
space_writable = refl

create_page_to_range_map_lem_example :
    (entries : List (ℕ × MappedRange)) × (sorted : List (ℕ × MappedRange)) × (fetch_all store
        (1 ∷ 0 ∷ [])
      ≡ done entries)
    × Perm sorted entries
    × IsSorted sorted
    × (0 ∷ 1 ∷ [] ≡ map (λ e. e.0) sorted)
    × ((a : ℕ)
        → (indexed.page_to_map a ≡ (if accessible space a then owner store sorted a none else none))
          × (indexed.wnx_page_to_map a ≡ (if wnx space a then owner store sorted a none else none)))
    × ((i : ℕ) → (indexed.last_map_cache i ≡ none) × (indexed.wnx_last_map_cache i ≡ none))
create_page_to_range_map_lem_example =
    create_page_to_range_map_lem store space indexed space-indexed

set_permissions_lem_example :
    let within = leb 12288 12288 && ltb 12288 16384 in
    (writable.page_is_readable 12288 ≡ (if within then true else space.page_is_readable 12288))
    × (writable.page_is_writable 12288 ≡ (if within then true else space.page_is_writable 12288))
    × (writable.page_is_executable 12288
        ≡ (if within then false else space.page_is_executable 12288))
set_permissions_lem_example =
    set_permissions_lem store space writable 12300 1 12288 true true false (omega arith)
      (omega arith) refl space_writable

find_wnx_range_stale_example :
    (find_wnx_range_aligned store space 12288 ≡ done (0, space))
    × ((sp' : AddressSpace) × (find_wnx_range_aligned store space 8192 ≡ done (1, sp'))
        × (find_wnx_range_aligned store sp' 12288 ≡ done (1, sp')))
find_wnx_range_stale_example =
    find_wnx_range_stale store space 1 8192 12288 two_pages (λ i. refl) refl refl refl refl refl

two_pages-IsFull : (a p : ℕ) → space.page_to_map a ≡ some p → IsFull store space.page_to_map p
two_pages-IsFull a p h = record {
  range = two_pages;
  present = ground arith;
  pages = λ page aligned inside. ground arith;
}

find_cached_lem_example :
    (cache : ℕ → Option ℕ) × (find_cached store space.page_to_map 0 (λ _. none) 12288
      ≡ done (1, cache))
    × IsCoherent store space.page_to_map cache
find_cached_lem_example =
    find_cached_lem store space.page_to_map (λ _. none) 12288 0 refl (λ i p h. cc) two_pages-IsFull

space_extents :
    extents store (0 ∷ 1 ∷ [])
    ≡ done (
        record { base = 0; limit = 8192; valid = false }
        ∷ record { base = 8192; limit = 16384; valid = true }
        ∷ [])
unfolding extents is_valid
space_extents = refl

find_hole-Found_example :
    (o : Option ℕ) × (find_hole store (record space { maps = 0 ∷ 1 ∷ [] }) 0 20000 5000 ≡ done o)
    × Found
        (record { base = 8192; limit = 16384; valid = true }
          ∷ record { base = 0; limit = 8192; valid = false }
          ∷ [])
        0
        16384
        8192
        o
find_hole-Found_example =
    find_hole-Found store (record space { maps = 0 ∷ 1 ∷ [] }) 0 20000 5000
      (record { base = 0; limit = 8192; valid = false }
        ∷ record { base = 8192; limit = 16384; valid = true }
        ∷ [])
      (omega arith) (omega arith) space_extents
      (omega arith, (omega arith, tt), (omega arith, tt, tt))
