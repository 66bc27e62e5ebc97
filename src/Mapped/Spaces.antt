-- ===== src/Mapped/Spaces.antt =====
-- The intrinsics __vmill_*_memory of vmill/Executor/Runtime.cpp over address spaces, and what the
-- search for unmapped memory promises.
use vmill.Prelude.{
  ℕ, ◌≡◌, ◌≢◌, sym, subst, ◌+◌, ◌≤◌, ◌-◌, Bool, ◌||◌, Bool-cases, inl, inr, Option, none, some,
  List, [], ◌∷◌, reverse, ltb, leb, ◌==◌, arith, align_down_to_page, round_up_to_page, done, ◌>>=◌,
  >>=-eq-done, done-injective,
}
use vmill.Range.{Store}
use vmill.Space.{AddressSpace}
use vmill.Space.Mapping.{add_map, remove_map, set_permissions}
use vmill.Space.Hole.{Extent, extents, search_hole, find_hole}
use vmill.Writes.{try_write_byte}
use vmill.Mapped.{Mapper}

abbrev pub address_or_null : Option ℕ → ℕ
address_or_null none = 0
address_or_null (some hole) = hole

-- A byte that cannot be written is a fault of the task, and leaves the memory as TryWrite does.
abbrev pub space_mapper : Bool → Mapper (Store × AddressSpace)
space_mapper version_code = record {
  allocate_memory = λ m base size name offset. add_map m.0 m.1 base size name offset;
  free_memory = λ m base size. remove_map m.0 m.1 base size;
  protect_memory = λ m base size r w x.
      set_permissions m.0 m.1 base size r w x >>= λ (sp : AddressSpace). done (m.0, sp);
  find_unmapped_address =
      λ m lo hi size. find_hole m.0 m.1 lo hi size >>= λ (o : Option ℕ). done (address_or_null o);
  write_byte = λ m a v.
      try_write_byte version_code m.0 m.1 a v >>= λ (w : Bool × Store × AddressSpace).
      done (w.1, w.2);
}

-- What a mapping call relies on: unmapped memory that is found lies within the bounds of the search.
abbrev pub FindsWithin : {M : Type 0} → Mapper M → Type 0
FindsWithin {M} g =
    (m : M) (lo hi size at : ℕ)
    → g.find_unmapped_address m lo hi size ≡ done at
    → at ≢ 0
    → (align_down_to_page lo ≤ at) × (at + round_up_to_page size ≤ align_down_to_page hi)

search_hole_within :
    (es : List Extent) (lo hi size hole : ℕ)
    → search_hole es lo hi size ≡ done (some hole)
    → (lo ≤ hole) × (hole + size ≤ hi)
unfolding search_hole
search_hole_within [] lo hi size hole h = absurd (ground arith)
search_hole_within (high ∷ lower) lo hi size hole h =
    ground (arith, search_hole_within lower lo hi size hole)

pub find_hole_within :
    (s : Store) (sp : AddressSpace) (lo hi size hole : ℕ)
    → find_hole s sp lo hi size ≡ done (some hole)
    → (align_down_to_page lo ≤ hole) × (hole + round_up_to_page size ≤ align_down_to_page hi)
unfolding find_hole
find_hole_within s sp lo hi size hole h =
    let lo' = align_down_to_page lo in
    let hi' = align_down_to_page hi in
    let size' = round_up_to_page size in
    elim (Bool-cases (size == 0 || (leb hi' lo' || ltb (hi' - lo') size'))) [
      | inl narrow ↦ absurd (ground arith)
      | inr wide ↦
          let (es, e, f) = >>=-eq-done (extents s sp.maps) _ (rw wide at h) in
          search_hole_within (reverse es) lo' hi' size' hole f
    ]

pub space_mapper-FindsWithin : (version_code : Bool) → FindsWithin (space_mapper version_code)
space_mapper-FindsWithin version_code (s, sp) lo hi size at h found =
    let (o, e, f) = >>=-eq-done (find_hole s sp lo hi size) _ h in
    located o e (done-injective (address_or_null o) at f)
  where
    located :
        (o : Option ℕ)
        → find_hole s sp lo hi size ≡ done o
        → address_or_null o ≡ at
        → (align_down_to_page lo ≤ at) × (at + round_up_to_page size ≤ align_down_to_page hi)
    located none e same = absurd (found (sym same))
    located (some hole) e same =
        subst
          (λ (x : ℕ).
            (align_down_to_page lo ≤ x) × (x + round_up_to_page size ≤ align_down_to_page hi))
          same (find_hole_within s sp lo hi size hole e)
