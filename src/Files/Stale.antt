-- ===== src/Files/Stale.antt =====
-- What mkdir of vmill/Runtime/Linux/FS.cpp takes for a path that it cannot read, after a call of open of IO.cpp.
use vmill.Prelude.{
  ℕ, zero, suc, ◌+◌, ◌%◌, ◌<◌, ◌≡◌, refl, sym, ap, subst, ◌∙◌, Bool, true, false, not, Option, none,
  some, take, update, update_ne, List, [], ◌∷◌, ◌==◌, leb, if◌then◌else◌, arith,
}
use vmill.Replies.{Errno, efault, enametoolong, Reply, fails}
use vmill.Transfers.{num_accessible_bytes, accessible_bytes_from, string_from}
use vmill.Futex.Operators.{Guest}
use vmill.Files.{
  check_path, copy_path, int_of, number_reply, overlay, path_buffer, path_max, path_string,
  status_reply, Host, sys_open,
}
use vmill.Files.Paths.{Names, c_string, sys_make_directory}

-- A string and its length, before which a byte is read.
abbrev preceded : Bool → ℕ → List ℕ × ℕ → List ℕ × ℕ
preceded ends v rest = if ends then (0 ∷ [], 0) else (v ∷ rest.0, suc rest.1)

-- A buffer has the bytes of a string, and ends where the string does.
abbrev HasString : (ℕ → ℕ) → (ℕ → ℕ) → List ℕ × ℕ → Type 0
HasString base f s = ((j : ℕ) → j < s.1 → f j ≡ overlay s.0 base j) × (f s.1 ≡ 0)

c_string_step :
    (ends : Bool) (v : ℕ) (rest : List ℕ × ℕ) (fuel : ℕ) (base f : ℕ → ℕ)
    → (v == 0) ≡ ends
    → ((base f : ℕ → ℕ)
        → rest.1 < fuel
        → HasString base f rest
        → c_string fuel f ≡ take rest.1 rest.0)
    → (preceded ends v rest).1 < suc fuel
    → HasString base f (preceded ends v rest)
    → c_string (suc fuel) f ≡ take (preceded ends v rest).1 (preceded ends v rest).0
unfolding c_string
c_string_step true v rest fuel base f e later small (same, ends) = rw ends refl
c_string_step false v rest fuel base f e later small (same, ends) =
    let first : f 0 ≡ v = same 0 (omega arith) in
    let tail =
      later (λ i. base (suc i)) (λ i. f (suc i)) (omega (arith, small))
        ((λ j h. same (suc j) (omega (arith, h))), ends) in
    rw (ap (λ u. u == 0) first ∙ e, first, tail) refl

-- The tests of a path, for the length that is read and the byte at the path's end.
path_tests :
    (len last : ℕ)
    → ◌≡◌ {A = Option Errno}
        (if leb path_max len
          then some enametoolong
          else if not (last == 0)
          then some efault
          else none)
        none
    → (len < path_max) × (last ≡ 0)
path_tests len last h = ground arith

module _ {M : Type 0} (g : Guest M) where
  abbrev copied : M → ℕ → ℕ → List ℕ × ℕ
  copied m addr n = string_from g.read g.write g.width m addr n

  c_string-copied :
      (n fuel : ℕ) (m : M) (addr : ℕ) (base f : ℕ → ℕ)
      → (copied m addr n).1 < fuel
      → HasString base f (copied m addr n)
      → c_string fuel f ≡ take (copied m addr n).1 (copied m addr n).0
  unfolding c_string string_from
  c_string-copied zero zero m addr base f small is = absurd (omega (arith, small))
  c_string-copied zero (suc fuel) m addr base f small (same, ends) = rw ends refl
  c_string-copied (suc n) zero m addr base f small is = absurd (omega (arith, small))
  c_string-copied (suc n) (suc fuel) m addr base f small is =
      c_string_step (g.read m addr == 0) (g.read m addr) (copied m ((addr + 1) % g.width) n) fuel
        base f refl (λ base f. c_string-copied n fuel m ((addr + 1) % g.width) base f) small is

  accepts :
      (m : M) (path : ℕ → ℕ) (addr : ℕ)
      → check_path g m path addr ≡ none
      → ((copy_path g m addr).1 < path_max) × (path_buffer g m path addr (copy_path g m addr).1 ≡ 0)
  unfolding check_path
  accepts m path addr h =
      path_tests (copy_path g m addr).1 (path_buffer g m path addr (copy_path g m addr).1) h

  buffer-HasString :
      (m : M) (path : ℕ → ℕ) (addr : ℕ)
      → check_path g m path addr ≡ none
      → HasString path (path_buffer g m path addr) (copy_path g m addr)
  buffer-HasString m path addr h =
      let (small, ends) = accepts m path addr h in
      (
        (λ j below.
            update_ne (overlay (copy_path g m addr).0 path) path_max 0 j
              (omega (arith, small, below))),
        ends,
      )

  -- The host reads from the buffer exactly the path that was accepted.
  c_string-path_buffer :
      (m : M) (path : ℕ → ℕ) (addr : ℕ)
      → check_path g m path addr ≡ none
      → c_string path_max (path_buffer g m path addr) ≡ path_string g m addr
  c_string-path_buffer m path addr h =
      let (small, ends) = accepts m path addr h in
      c_string-copied (num_accessible_bytes (g.can_read m) g.width addr path_max) path_max m addr
        path (path_buffer g m path addr) small (buffer-HasString m path addr h)

  nothing_copied :
      (m : M) (addr : ℕ) → g.can_read m (addr % g.width) ≡ false → copy_path g m addr ≡ ([], 0)
  unfolding string_from accessible_bytes_from
  nothing_copied m addr unreadable =
      let same : addr + 0 ≡ addr = omega arith in
      let none_read : num_accessible_bytes (g.can_read m) g.width addr path_max ≡ 0 =
        rw (same, unreadable) refl in
      ap (copied m addr) none_read

  -- Where nothing can be read, the buffer keeps what an earlier call left.
  left_over :
      (m : M) (path : ℕ → ℕ) (before : ℕ)
      → check_path g m path before ≡ none
      → c_string path_max (update (path_buffer g m path before) path_max 0) ≡ path_string g m before
  left_over m path before accepted =
      let (small, ends) = accepts m path before accepted in
      let (same, _) = buffer-HasString m path before accepted in
      let first = path_buffer g m path before in
      c_string-copied (num_accessible_bytes (g.can_read m) g.width before path_max) path_max m
        before path (update first path_max 0) small
        (
          (λ j below. update_ne first path_max 0 j (omega (arith, small, below)) ∙ same j below),
          update_ne first path_max 0 (copy_path g m before).1 (omega (arith, small)) ∙ ends,
        )

module _ {M H : Type 0} (g : Guest M) (names : Names H) where
  abbrev unless_failed : Option Errno → H → (ℕ → ℕ) → Reply × H × (ℕ → ℕ) → Reply × H × (ℕ → ℕ)
  unless_failed e h buffer after = elim e [
    | some e ↦ (fails e, h, buffer)
    | none ↦ (after.0, after.1, buffer)
  ]

  abbrev opened : Host H → M → H → (ℕ → ℕ) → ℕ → ℕ → ℕ → Reply × H × (ℕ → ℕ)
  opened host m h path addr oflag mode =
      let call = host.open_path h (path_string g m addr) (int_of oflag) (int_of mode) in
      (number_reply call.0, call.1, path_buffer g m path addr)

  sys_open_lem :
      (host : Host H) (word_size : ℕ) (m : M) (h : H) (path : ℕ → ℕ) (addr oflag mode : ℕ)
      → check_path g m path addr ≡ none
      → sys_open g host word_size m h path (some (addr ∷ oflag ∷ mode ∷ []))
        ≡ opened host m h path addr oflag mode
  unfolding sys_open
  sys_open_lem host word_size m h path addr oflag mode accepted =
      ap (λ e. unless_failed e h (path_buffer g m path addr) (opened host m h path addr oflag mode))
        accepted

  -- After open of a path that passes its tests, gPath holds just this path; and mkdir of an address
  -- that cannot be read then makes a directory with the path of the open.
  pub sys_make_directory-sys_open :
      (host : Host H) (word_size : ℕ) (m : M) (h : H) (path : ℕ → ℕ)
      (before oflag mode addr mode' : ℕ)
      → check_path g m path before ≡ none
      → g.can_read m (addr % g.width) ≡ false
      → (let opened = sys_open g host word_size m h path (some (before ∷ oflag ∷ mode ∷ [])) in
          let call = names.make_directory opened.1 (path_string g m before) (int_of mode') in
          (c_string path_max opened.2 ≡ path_string g m before)
          × ((sys_make_directory g names m opened.1 opened.2 (some (addr ∷ mode' ∷ []))).0
              ≡ status_reply call.0))
  unfolding sys_make_directory
  sys_make_directory-sys_open host word_size m h path before oflag mode addr mode' accepted
        no_read =
      let kept = path_buffer g m path before in
      let same =
        ap (λ (c : List ℕ × ℕ). c_string path_max (update (overlay c.0 kept) path_max 0))
          (nothing_copied g m addr no_read)
        ∙ left_over g m path before accepted in
      let after = opened host m h path before oflag mode in
      subst
        (λ (o : Reply × H × (ℕ → ℕ)).
          (c_string path_max o.2 ≡ path_string g m before)
          × ((sys_make_directory g names m o.1 o.2 (some (addr ∷ mode' ∷ []))).0
              ≡ status_reply (names.make_directory o.1 (path_string g m before) (int_of mode')).0))
        (sym (sys_open_lem host word_size m h path before oflag mode accepted))
        (
          c_string-path_buffer g m path before accepted,
          ap (λ name. status_reply (names.make_directory after.1 name (int_of mode')).0) same,
        )
