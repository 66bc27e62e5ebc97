-- ===== src/Space/Fork/Views.antt =====
-- The copy constructor of AddressSpace: the clone and its parent see the same memory.
use vmill.Prelude.{
  ℕ, ◌≡◌, refl, sym, ◌∙◌, Bool, true, false, none, some, List, [], ◌∷◌, All, map, if◌then◌else◌,
  done,
}
use vmill.Range.{MappedRange, Store}
use vmill.Range.Frame.{IsValid}
use vmill.Range.Clone.Shape.{is_valid_body, is_valid_lem}
use vmill.Space.{
  AddressSpace, fetch_all, sort_by_base, index_maps, cleared, create_page_to_range_map,
}
use vmill.Space.Mapping.{clone_space}
use vmill.Space.Index.{owner, accessible, wnx, index_maps_lem}
use vmill.Space.Permissions.{index_one, SamePermissions, create-SamePermissions}
use vmill.Space.Fork.{Stays, IsCloneable, clone_maps-Twins}
use vmill.Space.Fork.Tables.{TwinEntries, SameOwner, fetch_all-Twins, sort_twins, owner_twins}

-- The entries are the ranges of the store.
abbrev AreThere : Store → List (ℕ × MappedRange) → Type 0
AreThere s = All (λ (e : ℕ × MappedRange). s.object e.0 ≡ some e.1)

index_maps_succeeds :
    (s : Store) (es : List (ℕ × MappedRange)) (sp : AddressSpace)
    → IsValid s
    → AreThere s es
    → (sp' : AddressSpace) × (index_maps s es sp ≡ done sp')
unfolding index_maps
index_maps_succeeds s [] sp v there = (sp, refl)
index_maps_succeeds s ((p, r) ∷ es) sp v (e, there) =
    let valid = is_valid_lem s p r v e in
    let (sp', made) = index_maps_succeeds s es (index_one (is_valid_body r.body) p r sp) v there in
    (sp', rw valid made)

create_succeeds :
    (s : Store) (sp : AddressSpace) (es : List (ℕ × MappedRange))
    → IsValid s
    → fetch_all s sp.maps ≡ done es
    → AreThere s (sort_by_base es)
    → (sp' : AddressSpace) × (create_page_to_range_map s sp ≡ done sp')
unfolding create_page_to_range_map
create_succeeds s sp es v fetched there =
    let (sp', made) =
      index_maps_succeeds s (sort_by_base es)
        (cleared sp (map (λ (e : ℕ × MappedRange). e.0) (sort_by_base es))) v there in
    (sp', rw fetched made)

module _ (s s' : Store) (v : IsValid s) (v' : IsValid s') where
  old_there : (es fs : List (ℕ × MappedRange)) → TwinEntries s s' v v' es fs → AreThere s es
  old_there [] [] w = tt
  old_there [] (f ∷ fs) w = tt
  old_there (e ∷ es) [] w = absurd w
  old_there (e ∷ es) (f ∷ fs) (w, ws) = (w.old_there, old_there es fs ws)

  new_there : (es fs : List (ℕ × MappedRange)) → TwinEntries s s' v v' es fs → AreThere s' fs
  new_there [] [] w = tt
  new_there [] (f ∷ fs) w = absurd w
  new_there (e ∷ es) [] w = tt
  new_there (e ∷ es) (f ∷ fs) (w, ws) = (w.new_there, new_there es fs ws)

  same_if :
      (b : Bool) (es fs : List (ℕ × MappedRange))
      → TwinEntries s s' v v' es fs
      → (a : ℕ)
      → SameOwner s s'
          (if b then owner s es a none else none)
          (if b then owner s' fs a none else none)
  same_if true es fs w a = owner_twins s s' v v' es fs a none none w tt
  same_if false es fs w a = tt

create_tables :
    (s : Store) (sp sp' : AddressSpace) (es : List (ℕ × MappedRange))
    → fetch_all s sp.maps ≡ done es
    → create_page_to_range_map s sp ≡ done sp'
    → (a : ℕ)
    → (sp'.page_to_map a ≡ (if accessible sp a then owner s (sort_by_base es) a none else none))
      × (sp'.wnx_page_to_map a ≡ (if wnx sp a then owner s (sort_by_base es) a none else none))
unfolding create_page_to_range_map
create_tables s sp sp' es fetched made a =
    index_maps_lem s (sort_by_base es)
      (cleared sp (map (λ (e : ℕ × MappedRange). e.0) (sort_by_base es))) sp' a
      (sym (rw fetched refl) ∙ made)

-- The tables of the clone have twins of the ranges that the tables of its parent have, page by page.
pub record IsFork (s : Store) (sp : AddressSpace) (s' : Store) (child : AddressSpace) : Type 0 where
  pub stays : Stays s s'
  pub permissions : SamePermissions sp child
  pub pages : (a : ℕ) → SameOwner s s' (sp.page_to_map a) (child.page_to_map a)
  pub wnx_pages : (a : ℕ) → SameOwner s s' (sp.wnx_page_to_map a) (child.wnx_page_to_map a)

-- In a valid store, take an address space whose ranges are there and are no parents of copy-on-write
-- ranges. Building its page tables succeeds, and the copy constructor then succeeds too: the clone
-- has the same permissions, and for each page, in both tables, nothing where its parent has nothing,
-- and otherwise a range that gives at each address the read that the parent's range gave before, and
-- that is a new one if it is valid. All ranges of the store keep their bounds and their reads.
pub clone_space-IsFork :
    (s : Store) (sp : AddressSpace)
    → IsValid s
    → All (IsCloneable s) sp.maps
    → (sp0 : AddressSpace) × (s' : Store) × (child : AddressSpace) × (create_page_to_range_map s sp
        ≡ done sp0)
      × (clone_space s sp ≡ done (s', child))
      × IsFork s sp0 s' child
unfolding clone_space
clone_space-IsFork s sp v good =
    let (qs, s', made, twins, stays) = clone_maps-Twins s sp.maps v good in
    let v' = stays.still_valid in
    let (es, fs, fetched, fetched', entries) = fetch_all-Twins s s' v v' sp.maps qs twins in
    let sorted = sort_twins s s' v v' es fs entries in
    let (sp0, made0) = create_succeeds s sp es v fetched (old_there s s' v v' _ _ sorted) in
    let start = record sp { maps = qs } in
    let (child, made1) = create_succeeds s' start fs v' fetched' (new_there s s' v v' _ _ sorted) in
    let h0 = create-SamePermissions s sp sp0 made0 in
    let h1 = create-SamePermissions s' start child made1 in
    let tables = create_tables s sp sp0 es fetched made0 in
    let tables' = create_tables s' start child fs fetched' made1 in
    (
      sp0,
      s',
      child,
      made0,
      rw (made, made1) refl,
      record {
        stays = stays;
        permissions = record {
          readable = λ a. h1.readable a ∙ sym (h0.readable a);
          writable = λ a. h1.writable a ∙ sym (h0.writable a);
          executable = λ a. h1.executable a ∙ sym (h0.executable a);
        };
        pages = λ a.
            rw ((tables a).0, (tables' a).0) (same_if s s' v v' (accessible sp a) _ _ sorted a);
        wnx_pages =
            λ a. rw ((tables a).1, (tables' a).1) (same_if s s' v v' (wnx sp a) _ _ sorted a);
      },
    )
