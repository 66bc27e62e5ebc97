-- ===== src/Mapped/Tests.antt =====
-- The theorems about the memory system calls at a concrete address space.
use vmill.Prelude.{
  suc, inr, List, ◌⊎◌, Option, length, if◌then◌else◌, ◌==◌, ℕ, ◌≡◌, refl, ◌+◌, ◌%◌, ◌≤◌, ◌<◌, true,
  false, some, none, [], ◌∷◌, inl, arith, Outcome, done, update, page_size,
}
use vmill.Range.{Store, new_range, invalid, is_valid, create, create_invalid}
use vmill.Range.Duplicates.{copy, copy_contained}
use vmill.Removal.{remove_range, carve, overlap}
use vmill.Replies.{Reply, returns, fails, einval}
use vmill.Space.{
  AddressSpace, create_page_to_range_map, fetch_all, sort_by_base, insert_by_base, index_maps,
  index_pages, index_page, pages_from,
}
use vmill.Space.Mapping.{add_map, remove_map, replace_maps, set_permissions, set_pages}
use vmill.Mapped.{
  Mapper, MmapArgs, HostFiles, addr_mod, max_addr, mmap_min_addr, fixed_address, check_file,
  check_flags,
}
use vmill.Mapped.Mmap.{
  load_file, run_memory_call, munmap, map_anonymously, sys_mmap, sys_munmap, place, choose_address,
  map_chosen, protect_new,
}
use vmill.Mapped.Placement.{sys_mmap_bounds}
use vmill.Mapped.Refusals.{run_memory_call_fails, sys_mmap_wraps, fixed_anonymous}
use vmill.Mapped.Permissions.{HasPermissions}
use vmill.Mapped.Loading.{load_file_ends}
use vmill.Mapped.Effects.{sys_munmap-HasPermissions, sys_mmap-HasPermissions}
use vmill.Mapped.Spaces.{FindsWithin, space_mapper}

-- Guest memory that only counts what is allocated, and always finds the address 1048576 free.
abbrev counter : Mapper ℕ
counter = record {
  allocate_memory = λ m base size name offset. done (m + size);
  free_memory = λ m base size. done m;
  protect_memory = λ m base size r w x. done m;
  find_unmapped_address = λ m lo hi size. done 0;
  write_byte = λ m a v. done m;
}

abbrev no_files : HostFiles ℕ
no_files = record {
  seek_current = λ h fd. (inl 29, h);
  seek_set = λ h fd offset. (inl 29, h);
  read_file = λ h fd count. (inl 5, h);
  base_path = λ h fd. none;
}

counter-FindsWithin : FindsWithin counter
counter-FindsWithin m lo hi size at h found = absurd (ground arith)

-- A page at a fixed address.
abbrev one_page : MmapArgs
one_page = fixed_anonymous 1048576 4000 3

maps_one_page :
    sys_mmap counter no_files true 1 0 7 (some one_page) ≡ done (returns 1048576, 4096, 7)
unfolding sys_mmap place choose_address fixed_address check_file check_flags map_chosen
    map_anonymously protect_new
maps_one_page = refl

sys_mmap_bounds_example :
    (0 < 4096)
    × (4096 % page_size ≡ 0)
    × (mmap_min_addr ≤ 1048576)
    × (1048576 < addr_mod true)
    × ((1048576 + 4096) % addr_mod true ≤ max_addr true 50)
    × (true ≡ false → 1048576 + 4096 ≤ max_addr true 50)
sys_mmap_bounds_example =
    sys_mmap_bounds counter no_files true 1 0 7 one_page 1048576 4096 7 counter-FindsWithin
      (omega arith) maps_one_page

refuses_unaligned :
    run_memory_call counter no_files true (munmap (some (5, 4096))) 0 7 ≡ done (fails einval, 0, 7)
unfolding run_memory_call sys_munmap
refuses_unaligned = refl

run_memory_call_fails_example : (◌≡◌ {A = ℕ} 0 0) × (◌≡◌ {A = ℕ} 7 7)
run_memory_call_fails_example =
    run_memory_call_fails counter no_files true (munmap (some (5, 4096))) 0 7 einval 0 7 refl
      refuses_unaligned

end_wraps :
    sys_mmap counter no_files true 1 0 7 (some (fixed_anonymous 18446744073709547520 8192 3))
    ≡ map_anonymously counter no_files true 0 7
        (fixed_anonymous 18446744073709547520 8192 3)
        8192
        18446744073709547520
end_wraps =
    sys_mmap_wraps counter no_files 0 7 1 18446744073709547520 8192 3 (omega arith) (omega arith)
      (omega arith) (omega arith) (omega arith) (omega arith) (omega arith)

-- An address space of 32 bits with one invalid range over all of it.
abbrev nothing_mapped : Store
nothing_mapped = record {
  object = update (λ _. none) 0 (some (new_range 0 4294967295 (some []) 0 invalid));
  next = 1;
}

abbrev bare_space : AddressSpace
bare_space = record {
  maps = 0 ∷ [];
  page_to_map = λ _. none;
  wnx_page_to_map = λ _. none;
  min_addr = 0;
  addr_mask = 4294967295;
  invalid_map = 0;
  last_map_cache = λ _. none;
  wnx_last_map_cache = λ _. none;
  page_is_readable = λ _. false;
  page_is_writable = λ _. false;
  page_is_executable = λ _. false;
  trace_heads = λ _. false;
  is_dead = false;
}

abbrev state_after : {A : Type 0} → A → Outcome (Reply × A) → A
state_after d (done x) = x.1
state_after d _ = d

abbrev unmapped_page : Store × AddressSpace
unmapped_page =
    state_after (nothing_mapped, bare_space)
      (sys_munmap (space_mapper false) no_files false (nothing_mapped, bare_space)
        (some (65536, 100)))

unmaps :
    sys_munmap (space_mapper false) no_files false (nothing_mapped, bare_space) (some (65536, 100))
    ≡ done (returns 0, unmapped_page)
unfolding sys_munmap remove_map replace_maps remove_range carve copy copy_contained set_permissions
    set_pages create_page_to_range_map fetch_all sort_by_base insert_by_base index_maps index_pages
    index_page pages_from is_valid create_invalid overlap
unmaps = refl

sys_munmap-HasPermissions_example :
    HasPermissions bare_space 65536 4096 false false false unmapped_page.1
sys_munmap-HasPermissions_example =
    sys_munmap-HasPermissions no_files false false nothing_mapped unmapped_page.0 bare_space
      unmapped_page.1 65536 100 0 refl (omega arith) (omega arith) unmaps

-- A page that may only be read.
abbrev read_only_page : MmapArgs
read_only_page = fixed_anonymous 65536 100 1

abbrev state_of_triple : {A : Type 0} → A → Outcome (Reply × A × ℕ) → A
state_of_triple d (done x) = x.1
state_of_triple d _ = d

abbrev mapped_page : Store × AddressSpace
mapped_page =
    state_of_triple (nothing_mapped, bare_space)
      (sys_mmap (space_mapper false) no_files false 1 (nothing_mapped, bare_space) 7
        (some read_only_page))

maps :
    sys_mmap
      (space_mapper false)
      no_files
      false
      1
      (nothing_mapped, bare_space)
      7
      (some read_only_page)
    ≡ done (returns 65536, mapped_page, 7)
unfolding sys_mmap place choose_address fixed_address check_file check_flags map_chosen
    map_anonymously protect_new add_map replace_maps remove_range carve overlap copy copy_contained
    set_permissions set_pages create_page_to_range_map fetch_all sort_by_base insert_by_base
    index_maps index_pages index_page pages_from is_valid create
maps = refl

sys_mmap-HasPermissions_example :
    HasPermissions bare_space 65536 4096 true false false mapped_page.1
sys_mmap-HasPermissions_example =
    sys_mmap-HasPermissions no_files false false nothing_mapped mapped_page.0 bare_space
      mapped_page.1 1 7 7 read_only_page 65536 refl refl (omega arith) (omega arith) (omega arith)
      maps

-- A file of sevens, which is read a byte at a time.
abbrev seven : ℕ → ℕ ⊎ List ℕ
seven count = if count == 0 then inr [] else inr (7 ∷ [])

abbrev sevens : HostFiles ℕ
sevens = record no_files { read_file = λ h fd count. (seven count, suc h) }

sevens_fit : (count : ℕ) (bytes : List ℕ) → seven count ≡ inr bytes → length bytes ≤ count
sevens_fit count bytes e = ground arith

sevens_loaded :
    (r : Option ℕ × ℕ × ℕ) × (load_file counter sevens true 4096 0 7 3 65536 0 4096 ≡ done r)
sevens_loaded =
    load_file_ends counter sevens true (λ m a v. (m, refl))
      (λ h fd count bytes e. sevens_fit count bytes e) 4096 0 7 3 65536 0 4096 (omega arith)
