-- ===== src/Space/Mapping.antt =====
-- AddressSpace.cpp: construction, cloning, killing, SetPermissions, AddMap, RemoveMap, IsMapped and
-- the trace heads.
use vmill.Prelude.{
  ℕ, ◌-◌, Bool, true, false, not, Option, none, some, List, [], ◌∷◌, ◌++◌, ◌==◌, if◌then◌else◌,
  update, word_mod, add64, sub64, align_down_to_page, round_up_to_page, Outcome, done, ◌>>=◌, ◌>>◌,
  check,
}
use vmill.Range.{Store, create, create_invalid, is_valid}
use vmill.Range.Duplicates.{clone}
use vmill.Removal.{remove_range}
use vmill.Space.{AddressSpace, min, masked, get_address_mask, page_addrs, create_page_to_range_map}

abbrev no_maps : Store → ℕ → ℕ → AddressSpace
no_maps s mask invalid = record {
  maps = [];
  page_to_map = λ _. none;
  wnx_page_to_map = λ _. none;
  min_addr = word_mod - 1;
  addr_mask = mask;
  invalid_map = invalid;
  last_map_cache = λ _. none;
  wnx_last_map_cache = λ _. none;
  page_is_readable = λ _. false;
  page_is_writable = λ _. false;
  page_is_executable = λ _. false;
  trace_heads = λ _. false;
  is_dead = false;
}

-- AddressSpace(): one invalid range over all addresses.
unfoldable pub new_space : Store → ℕ → Outcome (Store × AddressSpace)
new_space s address_size = do
  let mask = get_address_mask address_size
  let made = create_invalid s 0 mask
  let sp = record (no_maps made.1 mask made.0) { maps = made.0 ∷ [] }
  sp' ← create_page_to_range_map made.1 sp
  done (made.1, sp')

unfoldable pub clone_maps : Store → List ℕ → Outcome (List ℕ × Store)
clone_maps s [] = done ([], s)
clone_maps s (p ∷ ps) = do
  valid ← is_valid s p
  twin ← if valid then clone s p else done (p, s)
  rest ← clone_maps twin.1 ps
  done (twin.0 ∷ rest.0, rest.1)

-- AddressSpace(const AddressSpace &). The parent's record does not change; its ranges may.
unfoldable pub clone_space : Store → AddressSpace → Outcome (Store × AddressSpace)
clone_space s parent = do
  twins ← clone_maps s parent.maps
  child ← create_page_to_range_map twins.1 (record parent { maps = twins.0 })
  done (twins.1, child)

-- The table wnx_page_to_map is left as it is.
unfoldable pub kill : AddressSpace → AddressSpace
kill sp = record sp {
  maps = [];
  page_to_map = λ _. none;
  is_dead = true;
  last_map_cache = λ _. none;
  wnx_last_map_cache = λ _. none;
}

unfoldable pub mark_as_trace_head : AddressSpace → ℕ → AddressSpace
mark_as_trace_head sp pc = record sp { trace_heads = update sp.trace_heads pc true }

abbrev pub is_marked_trace_head : AddressSpace → ℕ → Bool
is_marked_trace_head sp pc = sp.trace_heads pc

abbrev pub set_page_permissions : Bool → Bool → Bool → ℕ → AddressSpace → AddressSpace
set_page_permissions can_read can_write can_exec a sp = record sp {
  page_is_readable = update sp.page_is_readable a can_read;
  page_is_writable = update sp.page_is_writable a can_write;
  page_is_executable = update sp.page_is_executable a can_exec;
}

-- The loop of SetPermissions, over the pages of the range.
unfoldable pub set_pages : Bool → Bool → Bool → List ℕ → AddressSpace → AddressSpace
set_pages can_read can_write can_exec [] sp = sp
set_pages can_read can_write can_exec (a ∷ rest) sp =
    set_pages can_read can_write can_exec rest
      (set_page_permissions can_read can_write can_exec a sp)

unfoldable pub set_permissions :
    Store → AddressSpace → ℕ → ℕ → Bool → Bool → Bool → Outcome AddressSpace
set_permissions s sp base_ size can_read can_write can_exec =
    let base = align_down_to_page base_ in
    let limit = add64 base (round_up_to_page size) in
    create_page_to_range_map s (set_pages can_read can_write can_exec (page_addrs base limit) sp)

abbrev pub is_empty {ℓ} : {A : Type ℓ} → List A → Bool
is_empty [] = true
is_empty (x ∷ xs) = false

-- What AddMap and RemoveMap compute first: the page-aligned base, and the limit.
abbrev pub map_limit : AddressSpace → ℕ → ℕ → ℕ
map_limit sp base size = min (add64 base (round_up_to_page size)) sp.addr_mask

-- Put the new range `p` in place of what lies in [base, limit).
unfoldable pub replace_maps : Store → AddressSpace → ℕ → ℕ → ℕ → Outcome (Store × AddressSpace)
replace_maps s sp p base limit = do
  check (not (is_empty sp.maps))
  kept ← remove_range s sp.maps base limit
  done (kept.1, record sp { maps = kept.0 ++ p ∷ [] })

unfoldable pub add_map :
    Store → AddressSpace → ℕ → ℕ → Option (List ℕ) → ℕ → Outcome (Store × AddressSpace)
add_map s sp base_ size name offset =
    let base = align_down_to_page base_ in
    let limit = map_limit sp base size in
    if sp.is_dead then done (s, sp) else do
      check (masked sp base == base)
      let made = create s base limit name offset
      replaced ← replace_maps made.1 sp made.0 base limit
      sp' ← set_permissions replaced.0 replaced.1 base (sub64 limit base) true true false
      done (replaced.0, sp')

unfoldable pub remove_map : Store → AddressSpace → ℕ → ℕ → Outcome (Store × AddressSpace)
remove_map s sp base_ size =
    let base = align_down_to_page base_ in
    let limit = map_limit sp base size in
    if sp.is_dead then done (s, sp) else do
      check (masked sp base == base)
      let made = create_invalid s base limit
      replaced ← replace_maps made.1 sp made.0 base limit
      sp' ← set_permissions replaced.0 replaced.1 base (sub64 limit base) false false false
      done (replaced.0, sp')

unfoldable pub is_mapped : Store → AddressSpace → ℕ → Outcome Bool
is_mapped s sp find =
    if sp.is_dead then done false else elim (sp.page_to_map (align_down_to_page find)) [
      | none ↦ done false
      | some p ↦ is_valid s p
    ]
