-- ===== src/Mapped/Placement.antt =====
-- Where SysMmap puts a mapping.
use vmill.Prelude.{
  ℕ, ◌≡◌, ◌≢◌, ◌⊎◌, refl, sym, ap, ◌∙◌, ◌+◌, ◌*◌, ◌%◌, ◌^◌, ◌≤◌, ◌<◌, Bool, true, false, Bool-cases,
  inl, inr, some, arith, align_down_to_page, round_up_to_page, done, done-injective, >>=-eq-done,
  word_mod, page_size, round_up_to_page_bounds,
}
use vmill.Replies.{Errno, Reply, returns, enomem}
use vmill.Mapped.{
  Mapper, HostFiles, MmapArgs, addr_mod, align_to_next_page, has, map_fixed, max_addr,
  fixed_address, mmap_min_addr, is_negative_int,
}
use vmill.Mapped.Mmap.{
  sys_mmap, map_chosen, place, choose_address, map_anonymously, map_file, size_or_refuse,
}
use vmill.Mapped.Spaces.{FindsWithin}

fixed_address_bounds :
    (wide : Bool) (flags addr size at : ℕ)
    → addr < addr_mod wide
    → fixed_address wide flags addr size ≡ inr at
    → (mmap_min_addr ≤ at)
      × (at < addr_mod wide)
      × ((at + size) % addr_mod wide ≤ max_addr wide flags)
unfolding fixed_address
fixed_address_bounds true flags addr size at small h = ground arith
fixed_address_bounds false flags addr size at small h = ground arith

found_lem : (size at : ℕ) → size_or_refuse enomem size ≡ inr at → (size ≢ 0) × (size ≡ at)
found_lem size at h = (λ z. ground arith, ground arith)

within :
    (wide : Bool) (flags size at0 at : ℕ)
    → size + 4095 < word_mod
    → at0 % addr_mod wide ≡ at
    → align_down_to_page mmap_min_addr ≤ at0
    → at0 + round_up_to_page size ≤ align_down_to_page (max_addr wide flags)
    → (mmap_min_addr ≤ at)
      × (at < addr_mod wide)
      × ((at + size) % addr_mod wide ≤ max_addr wide flags)
      × (has flags map_fixed ≡ false → at + size ≤ max_addr wide flags)
within true flags size at0 at fits same lo hi =
    let bounds = round_up_to_page_bounds size fits in
    let top : max_addr true flags ≤ 140737488355328 = ground arith in
    (
      omega (arith, bounds.0),
      omega (arith, bounds.0),
      omega (arith, bounds.0),
      λ free. omega (arith, bounds.0),
    )
within false flags size at0 at fits same lo hi =
    let bounds = round_up_to_page_bounds size fits in
    (
      omega (arith, bounds.0),
      omega (arith, bounds.0),
      omega (arith, bounds.0),
      λ free. omega (arith, bounds.0),
    )

zero_mod : (wide : Bool) → 0 % addr_mod wide ≡ 0
zero_mod true = refl
zero_mod false = refl

pub align_to_next_page_whole :
    (wide : Bool) (size : ℕ) → align_to_next_page wide size % page_size ≡ 0
align_to_next_page_whole wide size = omega arith

size_fits : (wide : Bool) (size : ℕ) → align_to_next_page wide size + 4095 < word_mod
size_fits true size = omega arith
size_fits false size = omega arith

module _ {M H : Type 0} (g : Mapper M) (f : HostFiles H) (wide : Bool) where
  place-choose :
      (m : M) (a : MmapArgs) (size at : ℕ)
      → place g f wide m a size ≡ done (inr at)
      → (size ≢ 0) × (choose_address g f wide m a.flags a.addr size ≡ done (inr at))
  unfolding place
  place-choose m a size at h = ground arith

  choose_address_bounds :
      (m : M) (flags addr size at : ℕ)
      → FindsWithin g
      → addr < addr_mod wide
      → size + 4095 < word_mod
      → choose_address g f wide m flags addr size ≡ done (inr at)
      → (mmap_min_addr ≤ at)
        × (at < addr_mod wide)
        × ((at + size) % addr_mod wide ≤ max_addr wide flags)
        × (has flags map_fixed ≡ false → at + size ≤ max_addr wide flags)
  unfolding choose_address
  choose_address_bounds m flags addr size at law small fits h =
      elim (Bool-cases (has flags map_fixed)) [
        | inl fixed ↦
            let (lo, hi, top) =
              fixed_address_bounds wide flags addr size at small
                (done-injective _ _ (rw fixed at h)) in
            (lo, hi, top, λ free. absurd (ground arith))
        | inr free ↦
            let (at0, e, k) =
              >>=-eq-done (g.find_unmapped_address m mmap_min_addr (max_addr wide flags) size) _
                (rw free at h) in
            let (some_place, same) = found_lem (at0 % addr_mod wide) at (done-injective _ _ k) in
            let (lo, hi) =
              law m mmap_min_addr (max_addr wide flags) size at0 e
                (λ z. some_place (rw z (zero_mod wide))) in
            within wide flags size at0 at fits same lo hi
      ]

  map_file_returns :
      (m : M) (h : H) (a : MmapArgs) (size addr : ℕ) (r : Reply) (m' : M) (h' : H)
      → map_file g f wide m h a size addr ≡ done (r, m', h')
      → (at : ℕ) → r ≡ returns at
      → at ≡ addr
  unfolding map_file
  map_file_returns m h a size addr r m' h' made at e = ground arith

  map_anonymously_returns :
      (m : M) (h : H) (a : MmapArgs) (size addr at : ℕ) (m' : M) (h' : H)
      → map_anonymously g f wide m h a size addr ≡ done (returns at, m', h')
      → at ≡ addr
  unfolding map_anonymously
  map_anonymously_returns m h a size addr at m' h' made = ground arith

  chosen_lem :
      (m : M) (h : H) (a : MmapArgs) (size : ℕ) (chosen : Errno ⊎ ℕ) (at : ℕ) (m' : M) (h' : H)
      → map_chosen g f wide m h a size chosen ≡ done (returns at, m', h')
      → chosen ≡ inr at
  unfolding map_chosen
  chosen_lem m h a size (inl e) at m' h' k = absurd (ground arith)
  chosen_lem m h a size (inr addr) at m' h' k = elim (Bool-cases (is_negative_int a.fd)) [
    | inl anonymous ↦
        ap inr (sym (map_anonymously_returns m h a size addr at m' h' (rw anonymous at k)))
    | inr file ↦
        ap inr (sym (map_file_returns m h a size addr (returns at) m' h' (rw file at k) at refl))
  ]

  -- A call that returns an address has gone through the tests with it.
  pub sys_mmap-place :
      (scale : ℕ) (m : M) (h : H) (given : MmapArgs) (at : ℕ) (m' : M) (h' : H)
      → sys_mmap g f wide scale m h (some given) ≡ done (returns at, m', h')
      → place g f wide m
          (record given { offset = given.offset * scale % 2 ^ 64 })
          (align_to_next_page wide given.size)
        ≡ done (inr at)
  unfolding sys_mmap
  sys_mmap-place scale m h given at m' h' made =
      let size = align_to_next_page wide given.size in
      let a = record given { offset = given.offset * scale % 2 ^ 64 } in
      let (chosen, e, k) = >>=-eq-done (place g f wide m a size) _ made in
      e ∙ ap done (chosen_lem m h a size chosen at m' h' k)

  -- When mmap returns an address, over guest memory whose search for unmapped memory keeps to its
  -- bounds and for a hint below the number of addresses, the mapped size is positive and a multiple of
  -- the page size, the address is at least 65536 and below the number of addresses, and the end of the
  -- mapping, with the wrap-around of addresses, is at most the highest address that the flags allow; if
  -- the address was not given as a fixed one, the end does not wrap around.
  pub sys_mmap_bounds :
      (scale : ℕ) (m : M) (h : H) (given : MmapArgs) (at : ℕ) (m' : M) (h' : H)
      → FindsWithin g
      → given.addr < addr_mod wide
      → sys_mmap g f wide scale m h (some given) ≡ done (returns at, m', h')
      → let size = align_to_next_page wide given.size in
        (0 < size)
        × (size % page_size ≡ 0)
        × (mmap_min_addr ≤ at)
        × (at < addr_mod wide)
        × ((at + size) % addr_mod wide ≤ max_addr wide given.flags)
        × (has given.flags map_fixed ≡ false → at + size ≤ max_addr wide given.flags)
  sys_mmap_bounds scale m h given at m' h' law small made =
      let size = align_to_next_page wide given.size in
      let (positive, chosen) =
        place-choose m _ size at (sys_mmap-place scale m h given at m' h' made) in
      let bounds =
        choose_address_bounds m given.flags given.addr size at law small (size_fits wide given.size)
          chosen in
      (
        omega arith,
        align_to_next_page_whole wide given.size,
        bounds.0,
        bounds.1,
        bounds.2,
        bounds.3,
      )
