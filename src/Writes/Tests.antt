-- ===== src/Writes/Tests.antt =====
-- The theorem about a write after Kill at a concrete address space.
use vmill.Prelude.{◌≡◌, refl, true, false, none, some, [], ◌∷◌, update, done}
use vmill.Range.{
  array, MappedRange, Store, new_range, write, to_read_write_virtual_address, store_byte,
}
use vmill.Space.{AddressSpace}
use vmill.Space.Mapping.{kill, is_mapped}
use vmill.Writes.{try_write_byte}
use vmill.Writes.Killed.{try_write_byte-kill}

abbrev one_page : MappedRange
one_page = new_range 4096 8192 (some []) 0 (array (λ i. i))

abbrev page_store : Store
page_store = record { object = update (λ _. none) 0 (some one_page); next = 1 }

abbrev written_store : Store
written_store = record {
  object =
      update page_store.object 0 (some (record one_page { body = array (update (λ i. i) 4 9) }));
  next = 1;
}

abbrev page_space : AddressSpace
page_space = record {
  maps = 0 ∷ [];
  page_to_map = update (λ _. none) 4096 (some 0);
  wnx_page_to_map = update (λ _. none) 4096 (some 0);
  min_addr = 4096;
  addr_mask = 4294967295;
  invalid_map = 0;
  last_map_cache = λ _. none;
  wnx_last_map_cache = λ _. none;
  page_is_readable = update (λ _. false) 4096 true;
  page_is_writable = update (λ _. false) 4096 true;
  page_is_executable = λ _. false;
  trace_heads = λ _. false;
  is_dead = false;
}

page_written : write page_store 0 4100 9 ≡ done (true, written_store)
unfolding write to_read_write_virtual_address store_byte
page_written = refl

killed_write :
    (is_mapped page_store (kill page_space) 4100 ≡ done false)
    × ((sp' : AddressSpace) × (try_write_byte false page_store (kill page_space) 4100 9
          ≡ done (true, written_store, sp')))
killed_write =
    try_write_byte-kill false page_store written_store page_space 4100 9 0 refl page_written
