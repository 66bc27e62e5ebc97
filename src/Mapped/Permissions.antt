-- ===== src/Mapped/Permissions.antt =====
-- The memory system calls on an address space: the permissions of its pages after a call.
use vmill.Prelude.{
  ℕ, ◌≡◌, sym, subst, ◌+◌, ◌%◌, ◌≤◌, ◌<◌, Bool, true, false, not, ◌&&◌, Option, List, ltb, leb,
  ◌==◌, if◌then◌else◌, arith, add64, sub64, align_down_to_page, round_up_to_page, Outcome, done,
  done-injective, ◌>>=◌, check, >>=-eq-done, word_mod, page_size,
}
use vmill.Range.{Store, create, create_invalid}
use vmill.Space.{AddressSpace, masked}
use vmill.Space.Mapping.{map_limit, replace_maps, is_empty, add_map, remove_map, set_permissions}
use vmill.Space.Permissions.{set_permissions_lem}
use vmill.Removal.{remove_range}

-- The pages of [base, base + size) have these permissions in `sp'`, the others those that they have in
-- `sp`.
pub record HasPermissions (sp : AddressSpace) (base size : ℕ) (r w x : Bool) (sp' : AddressSpace)
    : Type 0 where
  pub readable :
      (a : ℕ)
      → a % page_size ≡ 0
      → sp'.page_is_readable a
        ≡ (if leb base a && ltb a (base + size) then r else sp.page_is_readable a)
  pub writable :
      (a : ℕ)
      → a % page_size ≡ 0
      → sp'.page_is_writable a
        ≡ (if leb base a && ltb a (base + size) then w else sp.page_is_writable a)
  pub executable :
      (a : ℕ)
      → a % page_size ≡ 0
      → sp'.page_is_executable a
        ≡ (if leb base a && ltb a (base + size) then x else sp.page_is_executable a)

pub set_permissions-HasPermissions :
    (s : Store) (sp sp' : AddressSpace) (base size : ℕ) (r w x : Bool)
    → size % page_size ≡ 0
    → base % page_size ≡ 0
    → base + size < word_mod
    → set_permissions s sp base size r w x ≡ done sp'
    → HasPermissions sp base size r w x sp'
set_permissions-HasPermissions s sp sp' base size r w x whole aligned fits h =
    let same_base : align_down_to_page base ≡ base = omega arith in
    let same_size : round_up_to_page size ≡ size = omega arith in
    let small : size + 4095 < word_mod = omega arith in
    let all = λ (a : ℕ) (p : a % page_size ≡ 0).
      rw (same_base, same_size) at
        (set_permissions_lem s sp sp' base size a r w x small (rw (same_base, same_size) fits) p
          h) in
    record {
      readable = λ a p. (all a p).0;
      writable = λ a p. (all a p).1;
      executable = λ a p. (all a p).2;
    }

limit_lem :
    (sp : AddressSpace) (base size : ℕ)
    → base % page_size ≡ 0
    → size % page_size ≡ 0
    → base + size ≤ sp.addr_mask
    → sp.addr_mask < word_mod
    → (map_limit sp base size ≡ base + size) × (sub64 (base + size) base ≡ size)
limit_lem sp base size aligned whole fits mask =
    let sum : add64 base (round_up_to_page size) ≡ base + size = omega arith in
    (ground (arith, sum), omega arith)

-- The end of AddMap and of RemoveMap.
replace-HasPermissions :
    (s s' : Store) (sp sp' : AddressSpace) (p base size : ℕ) (r w x : Bool)
    → base % page_size ≡ 0
    → size % page_size ≡ 0
    → base + size ≤ sp.addr_mask
    → sp.addr_mask < word_mod
    → ◌≡◌ {A = Outcome (Store × AddressSpace)}
        (replace_maps s sp p base (base + size) >>= λ (m : Store × AddressSpace).
          set_permissions m.0 m.1 base size r w x >>= λ (sp1 : AddressSpace). done (m.0, sp1))
        (done (s', sp'))
    → HasPermissions sp base size r w x sp'
unfolding replace_maps
replace-HasPermissions s s' sp sp' p base size r w x aligned whole fits mask h =
    let (m, e, k) = >>=-eq-done (replace_maps s sp p base (base + size)) _ h in
    let (sp1, set, same) = >>=-eq-done (set_permissions m.0 m.1 base size r w x) _ k in
    let (_, checked, e1) = >>=-eq-done (check (not (is_empty sp.maps))) _ e in
    let (kept, removed, e2) = >>=-eq-done (remove_range s sp.maps base (base + size)) _ e1 in
    let inner =
      set_permissions-HasPermissions m.0 m.1 sp1 base size r w x whole aligned (omega arith) set in
    let start =
      subst (λ (z : Store × AddressSpace). HasPermissions z.1 base size r w x sp1)
        (sym (done-injective _ _ e2)) inner in
    subst (λ (z : Store × AddressSpace). HasPermissions sp base size r w x z.1)
      (done-injective _ _ same)
      (record {
        readable = start.readable;
        writable = start.writable;
        executable = start.executable;
      })

if_false : {A : Type 0} (b : Bool) (x y z : A) → b ≡ false → (if b then x else y) ≡ z → y ≡ z
if_false true x y z e h = absurd (cc)
if_false false x y z e h = h

module _ (s s' : Store) (sp sp' : AddressSpace) (base size : ℕ) (alive : sp.is_dead ≡ false)
    (aligned : base % page_size ≡ 0) (whole : size % page_size ≡ 0)
    (fits : base + size ≤ sp.addr_mask) (mask : sp.addr_mask < word_mod) where
  pub remove_map-HasPermissions :
      remove_map s sp base size ≡ done (s', sp') → HasPermissions sp base size false false false sp'
  unfolding remove_map
  remove_map-HasPermissions h =
      let same_base : align_down_to_page base ≡ base = omega arith in
      let (limit, back) = limit_lem sp base size aligned whole fits mask in
      let (_, checked, made) =
        >>=-eq-done (check (masked sp base == base)) _
          (rw (same_base, limit, back) at (if_false sp.is_dead _ _ (done (s', sp')) alive h)) in
      let r = create_invalid s base (base + size) in
      replace-HasPermissions r.1 s' sp sp' r.0 base size false false false aligned whole fits mask
        made

  pub add_map-HasPermissions :
      (name : Option (List ℕ)) (offset : ℕ)
      → add_map s sp base size name offset ≡ done (s', sp')
      → HasPermissions sp base size true true false sp'
  unfolding add_map
  add_map-HasPermissions name offset h =
      let same_base : align_down_to_page base ≡ base = omega arith in
      let (limit, back) = limit_lem sp base size aligned whole fits mask in
      let (_, checked, made) =
        >>=-eq-done (check (masked sp base == base)) _
          (rw (same_base, limit, back) at (if_false sp.is_dead _ _ (done (s', sp')) alive h)) in
      let r = create s base (base + size) name offset in
      replace-HasPermissions r.1 s' sp sp' r.0 base size true true false aligned whole fits mask
        made
