-- ===== src/Space/Fork/Tests.antt =====
-- The theorem about cloning an address space, at a concrete one.
use vmill.Prelude.{ℕ, ◌≡◌, refl, true, false, some, none, [], ◌∷◌, update, arith, done}
use vmill.Range.{array, invalid, MappedRange, Store, new_range}
use vmill.Range.Frame.{IsValid, IsNoParent}
use vmill.Space.{AddressSpace, create_page_to_range_map}
use vmill.Space.Mapping.{clone_space}
use vmill.Space.Fork.Views.{IsFork, clone_space-IsFork}

-- Range 0 is invalid, range 1 is an array of a page.
abbrev unmapped : MappedRange
unmapped = new_range 0 4096 (some []) 0 invalid

abbrev mapped : MappedRange
mapped = new_range 4096 8192 (some []) 0 (array (λ i. i))

abbrev store : Store
store = record { object = update (update (λ _. none) 0 (some unmapped)) 1 (some mapped); next = 2 }

abbrev space : AddressSpace
space = record {
  maps = 1 ∷ 0 ∷ [];
  page_to_map = λ _. none;
  wnx_page_to_map = λ _. none;
  min_addr = 4096;
  addr_mask = 4294967295;
  invalid_map = 0;
  last_map_cache = λ _. none;
  wnx_last_map_cache = λ _. none;
  page_is_readable = update (λ _. false) 4096 true;
  page_is_writable = update (λ _. false) 4096 true;
  page_is_executable = λ _. false;
  trace_heads = λ _. false;
  is_dead = false;
}

store-IsValid : IsValid store
store-IsValid = record {
  fresh = λ p le. ground arith;
  parents = λ p r q e b. absurd (ground arith);
}

store-IsNoParent : (p : ℕ) → IsNoParent store p
store-IsNoParent p k r e b = ground arith

clone_space-IsFork_example :
    (sp0 : AddressSpace) × (s' : Store) × (child : AddressSpace) × (create_page_to_range_map store
        space
      ≡ done sp0)
    × (clone_space store space ≡ done (s', child))
    × IsFork store sp0 s' child
clone_space-IsFork_example =
    clone_space-IsFork store space store-IsValid
      ((mapped, refl, store-IsNoParent 1), ((unmapped, refl, store-IsNoParent 0), tt))
