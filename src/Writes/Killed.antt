-- ===== src/Writes/Killed.antt =====
-- A write of a byte after Kill.
use vmill.Prelude.{ℕ, ◌≡◌, refl, Bool, true, false, some, update, arith, done, align_down_to_page}
use vmill.Range.{Store, write}
use vmill.Space.{AddressSpace, masked}
use vmill.Space.Mapping.{kill, is_mapped}
use vmill.Space.Lookup.{find_wnx_range_aligned, find_cached, cached, range_cache_size, cache_index}
use vmill.Writes.{try_write_byte}

abbrev found_last : AddressSpace → ℕ → ℕ → AddressSpace
found_last sp page p = record (kill sp) {
  wnx_last_map_cache =
      update (update (kill sp).wnx_last_map_cache range_cache_size (some p)) (cache_index page)
        (some p);
}

find_wnx_range_aligned-kill :
    (s : Store) (sp : AddressSpace) (page p : ℕ)
    → sp.wnx_page_to_map page ≡ some p
    → find_wnx_range_aligned s (kill sp) page ≡ done (p, found_last sp page p)
unfolding find_wnx_range_aligned find_cached cached kill
find_wnx_range_aligned-kill s sp page p there = ground arith

is_mapped-kill : (s : Store) (sp : AddressSpace) (a : ℕ) → is_mapped s (kill sp) a ≡ done false
unfolding is_mapped kill
is_mapped-kill s sp a = refl

masked-kill : (sp : AddressSpace) (a : ℕ) → masked (kill sp) a ≡ masked sp a
unfolding kill
masked-kill sp a = refl

-- After Kill, no address is mapped; but if the page of the address was in wnx_page_to_map before,
-- TryWrite of a byte there still writes to the range that the table had, when the range takes the
-- byte, and answers true.
pub try_write_byte-kill :
    (version_code : Bool) (s s' : Store) (sp : AddressSpace) (a x p : ℕ)
    → sp.wnx_page_to_map (align_down_to_page (masked sp a)) ≡ some p
    → write s p (masked sp a) x ≡ done (true, s')
    → (is_mapped s (kill sp) a ≡ done false)
      × ((sp' : AddressSpace) × (try_write_byte version_code s (kill sp) a x
            ≡ done (true, s', sp')))
unfolding try_write_byte
try_write_byte-kill version_code s s' sp a x p there written =
    let page = align_down_to_page (masked sp a) in
    let found = find_wnx_range_aligned-kill s sp page p there in
    (is_mapped-kill s sp a, (found_last sp page p, rw (masked-kill sp a, found, written)))
