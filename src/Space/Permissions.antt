-- ===== src/Space/Permissions.antt =====
-- SetPermissions sets the permissions of the pages of the range, and of no others.
use vmill.Prelude.{
  ℕ, zero, suc, ◌+◌, ◌-◌, ◌*◌, ◌/◌, ◌%◌, ◌<◌, ◌≡◌, ◌∙◌, refl, sym, ap, Bool, true, false, List, [],
  ◌∷◌, elem, add64, if◌then◌else◌, arith, ◌&&◌, page_size, word_mod, align_down_to_page,
  round_up_to_page, done, >>=-eq-done, done-injective, leb, ltb,
}
use vmill.Range.{MappedRange, Store, is_valid}
use vmill.Space.{
  AddressSpace, min, pages_from, page_addrs, index_page, index_pages, index_maps, fetch_all,
  sort_by_base, create_page_to_range_map,
}
use vmill.Space.Mapping.{set_page_permissions, set_pages, set_permissions}

-- The three permission tables are the same.
pub record SamePermissions (sp sp' : AddressSpace) : Type 0 where
  pub readable : (a : ℕ) → sp'.page_is_readable a ≡ sp.page_is_readable a
  pub writable : (a : ℕ) → sp'.page_is_writable a ≡ sp.page_is_writable a
  pub executable : (a : ℕ) → sp'.page_is_executable a ≡ sp.page_is_executable a

pub index_pages-SamePermissions :
    (p : ℕ) (pages : List ℕ) (sp : AddressSpace) → SamePermissions sp (index_pages p pages sp)
unfolding index_pages index_page
index_pages-SamePermissions p [] sp = record {
  readable = λ a. refl;
  writable = λ a. refl;
  executable = λ a. refl;
}
index_pages-SamePermissions p (b ∷ bs) sp =
    let rest = index_pages-SamePermissions p bs (index_page p b sp) in
    record {
      readable = λ a. rest.readable a;
      writable = λ a. rest.writable a;
      executable = λ a. rest.executable a;
    }

SamePermissions-trans :
    (a b c : AddressSpace) → SamePermissions a b → SamePermissions b c → SamePermissions a c
SamePermissions-trans a b c h k = record {
  readable = λ p. k.readable p ∙ h.readable p;
  writable = λ p. k.writable p ∙ h.writable p;
  executable = λ p. k.executable p ∙ h.executable p;
}

-- One round of the loop over the ranges.
abbrev pub index_one : Bool → ℕ → MappedRange → AddressSpace → AddressSpace
index_one valid p r sp =
    if valid
    then index_pages p (page_addrs r.base_address r.limit_address)
        (record sp { min_addr = min sp.min_addr r.base_address })
    else sp

pub index_one-SamePermissions :
    (valid : Bool) (p : ℕ) (r : MappedRange) (sp : AddressSpace)
    → SamePermissions sp (index_one valid p r sp)
index_one-SamePermissions true p r sp =
    let same =
      index_pages-SamePermissions p (page_addrs r.base_address r.limit_address)
        (record sp { min_addr = min sp.min_addr r.base_address }) in
    record { readable = same.readable; writable = same.writable; executable = same.executable }
index_one-SamePermissions false p r sp = record {
  readable = λ a. refl;
  writable = λ a. refl;
  executable = λ a. refl;
}

pub index_maps-SamePermissions :
    (s : Store) (es : List (ℕ × MappedRange)) (sp sp' : AddressSpace)
    → index_maps s es sp ≡ done sp'
    → SamePermissions sp sp'
unfolding index_maps
index_maps-SamePermissions s [] sp sp' h =
    let same = done-injective sp sp' h in
    record {
      readable = λ a. ap (λ x. x.page_is_readable a) (sym same);
      writable = λ a. ap (λ x. x.page_is_writable a) (sym same);
      executable = λ a. ap (λ x. x.page_is_executable a) (sym same);
    }
index_maps-SamePermissions s ((p, r) ∷ es) sp sp' h =
    let (valid, f, g) = >>=-eq-done (is_valid s p) _ h in
    SamePermissions-trans sp (index_one valid p r sp) sp' (index_one-SamePermissions valid p r sp)
      (index_maps-SamePermissions s es (index_one valid p r sp) sp' g)

pub create-SamePermissions :
    (s : Store) (sp sp' : AddressSpace)
    → create_page_to_range_map s sp ≡ done sp'
    → SamePermissions sp sp'
unfolding create_page_to_range_map
create-SamePermissions s sp sp' h =
    let (entries, f, g) = >>=-eq-done (fetch_all s sp.maps) _ h in
    let same = index_maps-SamePermissions s (sort_by_base entries) _ sp' g in
    record { readable = same.readable; writable = same.writable; executable = same.executable }

-- The loop over the pages, in each table.
pub set_pages_lem :
    (r w x : Bool) (pages : List ℕ) (sp : AddressSpace) (a : ℕ)
    → let sp' = set_pages r w x pages sp in
      (sp'.page_is_readable a ≡ (if elem a pages then r else sp.page_is_readable a))
      × (sp'.page_is_writable a ≡ (if elem a pages then w else sp.page_is_writable a))
      × (sp'.page_is_executable a ≡ (if elem a pages then x else sp.page_is_executable a))
unfolding set_pages
set_pages_lem r w x [] sp a = (refl, refl, refl)
set_pages_lem r w x (b ∷ bs) sp a =
    let rest = set_pages_lem r w x bs (set_page_permissions r w x b sp) a in
    (ground (arith, rest.0), ground (arith, rest.1), ground (arith, rest.2))

-- The pages of the loop are the aligned addresses of the range.
pub elem-pages_from :
    (n b a : ℕ)
    → b % page_size ≡ 0
    → a % page_size ≡ 0
    → elem a (pages_from b n) ≡ (leb b a && ltb a (b + page_size * n))
unfolding pages_from
elem-pages_from zero b a hb ha = ground arith
elem-pages_from (suc n) b a hb ha =
    ground (arith, elem-pages_from n (b + page_size) a (omega arith) ha)

pub elem-page_addrs :
    (b l a : ℕ)
    → b % page_size ≡ 0
    → a % page_size ≡ 0
    → elem a (page_addrs b l) ≡ (leb b a && ltb a l)
elem-page_addrs b l a hb ha = elem-pages_from ((l - b + 4095) / page_size) b a hb ha ∙ ground arith

-- When SetPermissions succeeds on a range that ends below 2 ^ 64, each page of the range, from the
-- page of `base` on for the rounded size, has the three permissions that were asked for, and each
-- other page those that it had.
pub set_permissions_lem :
    (s : Store) (sp sp' : AddressSpace) (base size a : ℕ) (r w x : Bool)
    → size + 4095 < word_mod
    → align_down_to_page base + round_up_to_page size < word_mod
    → a % page_size ≡ 0
    → set_permissions s sp base size r w x ≡ done sp'
    → let within =
        leb (align_down_to_page base) a
        && ltb a (align_down_to_page base + round_up_to_page size) in
      (sp'.page_is_readable a ≡ (if within then r else sp.page_is_readable a))
      × (sp'.page_is_writable a ≡ (if within then w else sp.page_is_writable a))
      × (sp'.page_is_executable a ≡ (if within then x else sp.page_is_executable a))
unfolding set_permissions
set_permissions_lem s sp sp' base size a r w x small fits aligned h =
    let lo = align_down_to_page base in
    let limit = add64 lo (round_up_to_page size) in
    let set = set_pages_lem r w x (page_addrs lo limit) sp a in
    let same = create-SamePermissions s (set_pages r w x (page_addrs lo limit) sp) sp' h in
    let no_wrap : limit ≡ lo + round_up_to_page size = omega arith in
    let pages : elem a (page_addrs lo limit) ≡ (leb lo a && ltb a (lo + round_up_to_page size)) =
      elem-page_addrs lo limit a (omega arith) aligned ∙ ap (λ l. leb lo a && ltb a l) no_wrap in
    (
      same.readable a ∙ set.0 ∙ ap (λ b. if b then r else sp.page_is_readable a) pages,
      same.writable a ∙ set.1 ∙ ap (λ b. if b then w else sp.page_is_writable a) pages,
      same.executable a ∙ set.2 ∙ ap (λ b. if b then x else sp.page_is_executable a) pages,
    )
