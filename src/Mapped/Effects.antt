-- ===== src/Mapped/Effects.antt =====
-- What munmap and an anonymous mmap do to the permissions of the pages of an address space.
use vmill.Prelude.{
  ℕ, ◌≡◌, refl, subst, ◌+◌, ◌%◌, ◌≤◌, ◌<◌, Bool, true, false, not, ◌||◌, Bool-cases, inl, inr, none,
  some, ◌==◌, arith, align_down_to_page, done, done-injective, >>=-eq-done, word_mod, page_size,
}
use vmill.Range.{Store}
use vmill.Space.{AddressSpace}
use vmill.Space.Mapping.{add_map, remove_map, set_permissions}
use vmill.Replies.{Reply, returns}
use vmill.Mapped.{MmapArgs, HostFiles, align_to_next_page, is_negative_int}
use vmill.Mapped.Mmap.{
  sys_mmap, sys_munmap, map_chosen, map_anonymously, protect_new, can_read_bit, can_write_bit,
  can_exec_bit, name_of,
}
use vmill.Mapped.Spaces.{space_mapper}
use vmill.Mapped.Placement.{sys_mmap-place, align_to_next_page_whole}
use vmill.Mapped.Permissions.{
  HasPermissions, set_permissions-HasPermissions, remove_map-HasPermissions, add_map-HasPermissions,
}

-- When munmap returns on a living address space, for a range within its addresses, the pages of the
-- range, rounded up to whole pages, may not be read, written or executed, and the permissions of all
-- other pages are as before.
pub sys_munmap-HasPermissions :
    {H : Type 0} (f : HostFiles H) (version_code wide : Bool) (s s' : Store) (sp sp' : AddressSpace)
    (addr size n : ℕ)
    → sp.is_dead ≡ false
    → addr + align_to_next_page wide size ≤ sp.addr_mask
    → sp.addr_mask < word_mod
    → sys_munmap (space_mapper version_code) f wide (s, sp) (some (addr, size))
      ≡ done (returns n, (s', sp'))
    → HasPermissions sp addr (align_to_next_page wide size) false false false sp'
unfolding sys_munmap
sys_munmap-HasPermissions f version_code wide s s' sp sp' addr size n alive fits mask h =
    let whole = align_to_next_page wide size in
    elim (Bool-cases (not (addr == align_down_to_page addr) || whole == 0)) [
      | inl refused ↦ absurd (ground arith)
      | inr accepted ↦
          let (m, removed, same) = >>=-eq-done (remove_map s sp addr whole) _ (rw accepted at h) in
          let cleared =
            remove_map-HasPermissions s m.0 sp m.1 addr whole alive (ground arith)
              (align_to_next_page_whole wide size) fits mask removed in
          subst
            (λ (x : Reply × (Store × AddressSpace)).
              HasPermissions sp addr whole false false false (x.1).1)
            (done-injective _ _ same) cleared
    ]

HasPermissions-trans :
    (sp sp1 sp2 : AddressSpace) (base size : ℕ) (r w x r' w' x' : Bool)
    → HasPermissions sp base size r w x sp1
    → HasPermissions sp1 base size r' w' x' sp2
    → HasPermissions sp base size r' w' x' sp2
HasPermissions-trans sp sp1 sp2 base size r w x r' w' x' h k = record {
  readable = λ a p. ground (arith, h.readable a p, k.readable a p);
  writable = λ a p. ground (arith, h.writable a p, k.writable a p);
  executable = λ a p. ground (arith, h.executable a p, k.executable a p);
}

default_lem : (r w x : Bool) → x || (not r || not w) ≡ false → (r ≡ true) × (w ≡ true) × (x ≡ false)
default_lem true true false h = (refl, refl, refl)
default_lem true true true h = absurd (cc)
default_lem true false x h = absurd (ground arith)
default_lem false w x h = absurd (ground arith)

protect_new-HasPermissions :
    {H : Type 0} (f : HostFiles H) (version_code wide : Bool) (s s' : Store)
    (sp sp1 sp' : AddressSpace) (base size prot : ℕ)
    → base % page_size ≡ 0
    → size % page_size ≡ 0
    → base + size < word_mod
    → HasPermissions sp base size true true false sp1
    → protect_new (space_mapper version_code) f wide (s, sp1) base size prot ≡ done (s', sp')
    → HasPermissions sp base size (can_read_bit prot) (can_write_bit prot) (can_exec_bit prot) sp'
unfolding protect_new
protect_new-HasPermissions f version_code wide s s' sp sp1 sp' base size prot aligned whole fits set
      h =
    let r = can_read_bit prot in
    let w = can_write_bit prot in
    let x = can_exec_bit prot in
    elim (Bool-cases (x || (not r || not w))) [
      | inl special ↦
          let (sp2, made, same) =
            >>=-eq-done (set_permissions s sp1 base size r w x) _ (rw special at h) in
          let after =
            set_permissions-HasPermissions s sp1 sp2 base size r w x whole aligned fits made in
          subst (λ (y : Store × AddressSpace). HasPermissions sp base size r w x y.1)
            (done-injective _ _ same)
            (HasPermissions-trans sp sp1 sp2 base size true true false r w x set after)
      | inr default ↦
          let (er, ew, ex) = default_lem r w x default in
          let kept = done-injective _ _ (rw default at h) in
          subst (λ (y : Store × AddressSpace). HasPermissions sp base size r w x y.1) kept
            (rw (er, ew, ex) set)
    ]

-- When mmap without a file returns an address on a page boundary, on a living address space and for
-- a mapping within its addresses, the pages of the mapping have the permissions that were asked for,
-- and the permissions of all other pages are as before.
pub sys_mmap-HasPermissions :
    {H : Type 0} (f : HostFiles H) (version_code wide : Bool) (s s' : Store) (sp sp' : AddressSpace)
    (scale : ℕ) (h h' : H) (given : MmapArgs) (at : ℕ)
    → is_negative_int given.fd ≡ true
    → sp.is_dead ≡ false
    → at % page_size ≡ 0
    → at + align_to_next_page wide given.size ≤ sp.addr_mask
    → sp.addr_mask < word_mod
    → sys_mmap (space_mapper version_code) f wide scale (s, sp) h (some given)
      ≡ done (returns at, (s', sp'), h')
    → HasPermissions sp at
        (align_to_next_page wide given.size)
        (can_read_bit given.prot)
        (can_write_bit given.prot)
        (can_exec_bit given.prot)
        sp'
unfolding sys_mmap map_chosen map_anonymously
sys_mmap-HasPermissions {H} f version_code wide s s' sp sp' scale h h' given at anonymous alive
      aligned fits mask k =
    let g = space_mapper version_code in
    let size = align_to_next_page wide given.size in
    let whole = align_to_next_page_whole wide given.size in
    let placed = sys_mmap-place g f wide scale (s, sp) h given at (s', sp') h' k in
    let (m1, allocated, k1) =
      >>=-eq-done (add_map s sp at size (name_of g f wide given.flags none) 0) _
        (rw (placed, anonymous) at k) in
    let (m2, protected, k2) = >>=-eq-done (protect_new g f wide m1 at size given.prot) _ k1 in
    let set =
      add_map-HasPermissions s m1.0 sp m1.1 at size alive aligned whole fits mask
        (name_of g f wide given.flags none) 0 allocated in
    let after =
      protect_new-HasPermissions f version_code wide m1.0 m2.0 sp m1.1 m2.1 at size given.prot
        aligned whole (omega arith) set protected in
    subst
      (λ (x : Reply × (Store × AddressSpace) × H).
        HasPermissions sp at size (can_read_bit given.prot) (can_write_bit given.prot)
          (can_exec_bit given.prot) (x.1).1)
      (done-injective _ _ k2) after
