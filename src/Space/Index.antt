-- ===== src/Space/Index.antt =====
-- CreatePageToRangeMap against a reference: the owner of a page is the last valid range, by base
-- address, that has the page.
use vmill.Prelude.{
  ℕ, ◌≡◌, ◌∙◌, refl, sym, ap, Bool, true, false, not, Option, none, some, List, [], ◌∷◌, elem, map,
  if◌then◌else◌, arith, ◌||◌, ◌&&◌, Outcome, done, subst, >>=-eq-done, done-injective,
}
use mathlib.Core.List.{Perm}
use vmill.Range.{MappedRange, Store, is_valid}
use vmill.Space.{
  AddressSpace, min, page_addrs, index_page, index_pages, index_maps, fetch_all, sort_by_base,
  create_page_to_range_map,
}
use vmill.Space.Sorting.{IsSorted, sort_by_base-Perm, sort_by_base-IsSorted}
use vmill.Space.Permissions.{index_one, index_one-SamePermissions}

-- A page that may be accessed in some way; one that may be written and not executed.
abbrev pub accessible : AddressSpace → ℕ → Bool
accessible sp a = sp.page_is_readable a || (sp.page_is_writable a || sp.page_is_executable a)

abbrev pub wnx : AddressSpace → ℕ → Bool
wnx sp a = sp.page_is_writable a && not (sp.page_is_executable a)

abbrev pub said_valid : Outcome Bool → Bool
said_valid (done b) = b
said_valid _ = false

-- The range has the page.
abbrev pub has_page : Store → ℕ × MappedRange → ℕ → Bool
has_page s (p, r) a =
    said_valid (is_valid s p) && elem a (page_addrs r.base_address r.limit_address)

unfoldable pub owner : Store → List (ℕ × MappedRange) → ℕ → Option ℕ → Option ℕ
owner s [] a d = d
owner s (e ∷ es) a d = owner s es a (if has_page s e a then some e.0 else d)

index_pages_lem :
    (p : ℕ) (pages : List ℕ) (sp : AddressSpace) (a : ℕ)
    → let sp' = index_pages p pages sp in
      (sp'.page_to_map a ≡ (if elem a pages && accessible sp a then some p else sp.page_to_map a))
      × (sp'.wnx_page_to_map a
          ≡ (if elem a pages && wnx sp a then some p else sp.wnx_page_to_map a))
unfolding index_pages index_page
index_pages_lem p [] sp a = (refl, refl)
index_pages_lem p (b ∷ bs) sp a =
    let rest = index_pages_lem p bs (index_page p b sp) a in
    (ground (arith, rest.0), ground (arith, rest.1))

index_one_lem :
    (valid : Bool) (p : ℕ) (r : MappedRange) (sp : AddressSpace) (a : ℕ)
    → let sp' = index_one valid p r sp in
      let here = valid && elem a (page_addrs r.base_address r.limit_address) in
      (sp'.page_to_map a ≡ (if here && accessible sp a then some p else sp.page_to_map a))
      × (sp'.wnx_page_to_map a ≡ (if here && wnx sp a then some p else sp.wnx_page_to_map a))
index_one_lem true p r sp a = index_pages_lem p (page_addrs r.base_address r.limit_address) _ a
index_one_lem false p r sp a = (refl, refl)

-- One table at one page: the range that is indexed, then the ranges after it.
one_round :
    (p : ℕ) (may may' here here' : Bool) (t t' out : Option ℕ) (later : Option ℕ → Option ℕ)
    → may' ≡ may
    → here' ≡ here
    → t' ≡ (if here && may then some p else t)
    → out ≡ (if may' then later t' else t')
    → out ≡ (if may then later (if here' then some p else t) else t)
one_round p may may' here here' t t' out later h1 h2 h3 h4 = ground arith

pub index_maps_lem :
    (s : Store) (es : List (ℕ × MappedRange)) (sp sp' : AddressSpace) (a : ℕ)
    → index_maps s es sp ≡ done sp'
    → (sp'.page_to_map a
        ≡ (if accessible sp a then owner s es a (sp.page_to_map a) else sp.page_to_map a))
      × (sp'.wnx_page_to_map a
          ≡ (if wnx sp a then owner s es a (sp.wnx_page_to_map a) else sp.wnx_page_to_map a))
unfolding index_maps owner
index_maps_lem s [] sp sp' a h =
    let same = done-injective sp sp' h in
    (
      ap (λ x. x.page_to_map a) (sym same) ∙ ground arith,
      ap (λ x. x.wnx_page_to_map a) (sym same) ∙ ground arith,
    )
index_maps_lem s ((p, r) ∷ es) sp sp' a h =
    let (valid, f, g) = >>=-eq-done (is_valid s p) _ h in
    let rest = index_maps_lem s es (index_one valid p r sp) sp' a g in
    let one = index_one_lem valid p r sp a in
    let same = index_one-SamePermissions valid p r sp in
    let here = valid && elem a (page_addrs r.base_address r.limit_address) in
    let found : has_page s (p, r) a ≡ here =
      ap (λ b. said_valid b && elem a (page_addrs r.base_address r.limit_address)) f in
    (
      one_round p (accessible sp a) (accessible (index_one valid p r sp) a) here
          (has_page s (p, r) a) (sp.page_to_map a) ((index_one valid p r sp).page_to_map a)
          (sp'.page_to_map a) (owner s es a)
          (rw (same.readable a, same.writable a, same.executable a)) found one.0 rest.0,
      one_round p (wnx sp a) (wnx (index_one valid p r sp) a) here (has_page s (p, r) a)
          (sp.wnx_page_to_map a) ((index_one valid p r sp).wnx_page_to_map a)
          (sp'.wnx_page_to_map a) (owner s es a) (rw (same.writable a, same.executable a)) found
          one.1 rest.1,
    )

-- Indexing changes neither the list of ranges nor the caches.
record IsKept (sp sp' : AddressSpace) : Type 0 where
  maps : sp'.maps ≡ sp.maps
  cache : (i : ℕ) → sp'.last_map_cache i ≡ sp.last_map_cache i
  wnx_cache : (i : ℕ) → sp'.wnx_last_map_cache i ≡ sp.wnx_last_map_cache i

IsKept-trans : (a b c : AddressSpace) → IsKept a b → IsKept b c → IsKept a c
IsKept-trans a b c h k = record {
  maps = k.maps ∙ h.maps;
  cache = λ i. k.cache i ∙ h.cache i;
  wnx_cache = λ i. k.wnx_cache i ∙ h.wnx_cache i;
}

index_pages-IsKept :
    (p : ℕ) (pages : List ℕ) (sp : AddressSpace) → IsKept sp (index_pages p pages sp)
unfolding index_pages index_page
index_pages-IsKept p [] sp = record { maps = refl; cache = λ i. refl; wnx_cache = λ i. refl }
index_pages-IsKept p (b ∷ bs) sp =
    let rest = index_pages-IsKept p bs (index_page p b sp) in
    record { maps = rest.maps; cache = rest.cache; wnx_cache = rest.wnx_cache }

index_one-IsKept :
    (valid : Bool) (p : ℕ) (r : MappedRange) (sp : AddressSpace)
    → IsKept sp (index_one valid p r sp)
index_one-IsKept true p r sp =
    let rest =
      index_pages-IsKept p (page_addrs r.base_address r.limit_address)
        (record sp { min_addr = min sp.min_addr r.base_address }) in
    record { maps = rest.maps; cache = rest.cache; wnx_cache = rest.wnx_cache }
index_one-IsKept false p r sp = record { maps = refl; cache = λ i. refl; wnx_cache = λ i. refl }

index_maps-IsKept :
    (s : Store) (es : List (ℕ × MappedRange)) (sp sp' : AddressSpace)
    → index_maps s es sp ≡ done sp'
    → IsKept sp sp'
unfolding index_maps
index_maps-IsKept s [] sp sp' h =
    subst (IsKept sp) (done-injective sp sp' h)
      (record { maps = refl; cache = λ i. refl; wnx_cache = λ i. refl })
index_maps-IsKept s ((p, r) ∷ es) sp sp' h =
    let (valid, f, g) = >>=-eq-done (is_valid s p) _ h in
    IsKept-trans sp (index_one valid p r sp) sp' (index_one-IsKept valid p r sp)
      (index_maps-IsKept s es (index_one valid p r sp) sp' g)

-- When CreatePageToRangeMap succeeds, the ranges of the space are in order of their base addresses,
-- and each table has for every page the last of the ranges, in that order, that is valid and has
-- the page: page_to_map for the pages with some permission, wnx_page_to_map for those that are
-- writable and not executable, and nothing for the others. The caches are empty.
pub create_page_to_range_map_lem :
    (s : Store) (sp sp' : AddressSpace)
    → create_page_to_range_map s sp ≡ done sp'
    → (entries : List (ℕ × MappedRange)) × (sorted : List (ℕ × MappedRange)) × (fetch_all s sp.maps
        ≡ done entries)
      × Perm sorted entries
      × IsSorted sorted
      × (sp'.maps ≡ map (λ e. e.0) sorted)
      × ((a : ℕ)
          → (sp'.page_to_map a ≡ (if accessible sp a then owner s sorted a none else none))
            × (sp'.wnx_page_to_map a ≡ (if wnx sp a then owner s sorted a none else none)))
      × ((i : ℕ) → (sp'.last_map_cache i ≡ none) × (sp'.wnx_last_map_cache i ≡ none))
unfolding create_page_to_range_map
create_page_to_range_map_lem s sp sp' h =
    let (entries, f, g) = >>=-eq-done (fetch_all s sp.maps) _ h in
    let kept = index_maps-IsKept s (sort_by_base entries) _ sp' g in
    (
      entries,
      sort_by_base entries,
      f,
      sort_by_base-Perm entries,
      sort_by_base-IsSorted entries,
      kept.maps,
      λ a. index_maps_lem s (sort_by_base entries) _ sp' a g,
      λ i. (kept.cache i, kept.wnx_cache i),
    )
