-- ===== src/Files/Paths.antt =====
-- vmill/Runtime/Linux/FS.cpp: access, faccessat, lseek, getcwd, mkdir, mkdirat, rmdir, dup and eventfd,
-- and the path of a file that is given relative to a directory (GetPathAt).
use vmill.Prelude.{
  ℕ, zero, suc, ◌+◌, Option, none, some, length, List, [], ◌∷◌, ◌++◌, ◌==◌, leb, if◌then◌else◌, ◌⊎◌,
  inl, inr,
}
use vmill.Replies.{efault, einval, erange, of_host, Reply, returns, fails}
use vmill.Transfers.{copy_string_to_memory}
use vmill.Futex.Operators.{Guest}
use vmill.Calls.{arg_or}
use vmill.Files.{int_of, number_reply, overlay, path_buffer, path_max, status_reply, with_path}

-- The host's calls on names.
pub record Names (H : Type 0) : Type 1 where
  pub access : H → List ℕ → ℕ → Option ℕ × H
  pub access_at : H → ℕ → List ℕ → ℕ → ℕ → Option ℕ × H
  pub seek : H → ℕ → ℕ → ℕ → (ℕ ⊎ ℕ) × H
  pub make_directory : H → List ℕ → ℕ → Option ℕ × H
  pub make_directory_at : H → ℕ → List ℕ → ℕ → Option ℕ × H
  pub remove_directory : H → List ℕ → Option ℕ × H
  pub dup : H → ℕ → (ℕ ⊎ ℕ) × H
  pub event_fd : H → ℕ → ℕ → (ℕ ⊎ ℕ) × H
  pub working_directory : H → ℕ → ℕ ⊎ List ℕ

-- The string that the host reads from a buffer: at most `n` bytes.
unfoldable pub c_string : ℕ → (ℕ → ℕ) → List ℕ
c_string zero f = []
c_string (suc n) f = let rest = c_string n (λ i. f (suc i)) in if f 0 == 0 then [] else f 0 ∷ rest

module _ {M H : Type 0} (g : Guest M) (names : Names H) where
  -- A call with the path at `addr`, which is not tested: what the host reads is what gPath has then.
  abbrev with_buffer : M → (ℕ → ℕ) → ℕ → (List ℕ → Option ℕ × H) → Reply × H × (ℕ → ℕ)
  with_buffer m path addr f =
      let buffer = path_buffer g m path addr in
      let call = f (c_string path_max buffer) in (status_reply call.0, call.1, buffer)

  unfoldable pub sys_make_directory : M → H → (ℕ → ℕ) → Option (List ℕ) → Reply × H × (ℕ → ℕ)
  sys_make_directory m h path none = (fails efault, h, path)
  sys_make_directory m h path (some args) =
      with_buffer m path (arg_or 0 args 0)
        λ name. names.make_directory h name (int_of (arg_or 0 args 1))

  unfoldable pub sys_make_directory_at : M → H → (ℕ → ℕ) → Option (List ℕ) → Reply × H × (ℕ → ℕ)
  sys_make_directory_at m h path none = (fails efault, h, path)
  sys_make_directory_at m h path (some args) =
      with_buffer m path (arg_or 0 args 1)
        λ name. names.make_directory_at h (int_of (arg_or 0 args 0)) name (int_of (arg_or 0 args 2))

  unfoldable pub sys_remove_directory : M → H → (ℕ → ℕ) → Option (List ℕ) → Reply × H × (ℕ → ℕ)
  sys_remove_directory m h path none = (fails efault, h, path)
  sys_remove_directory m h path (some args) =
      with_buffer m path (arg_or 0 args 0) λ name. names.remove_directory h name

  unfoldable pub sys_access : M → H → (ℕ → ℕ) → Option (List ℕ) → Reply × H × (ℕ → ℕ)
  sys_access m h path none = (fails efault, h, path)
  sys_access m h path (some args) =
      with_path g m h path (arg_or 0 args 0)
        λ name. let r = names.access h name (int_of (arg_or 0 args 1)) in (status_reply r.0, r.1)

  unfoldable pub sys_access_at : M → H → (ℕ → ℕ) → Option (List ℕ) → Reply × H × (ℕ → ℕ)
  sys_access_at m h path none = (fails efault, h, path)
  sys_access_at m h path (some args) = with_path g m h path (arg_or 0 args 1) λ name.
      let dirfd = int_of (arg_or 0 args 0) in
      let r = names.access_at h dirfd name (int_of (arg_or 0 args 2)) (int_of (arg_or 0 args 3)) in
      (status_reply r.0, r.1)

  unfoldable pub sys_seek : H → Option (List ℕ) → Reply × H
  sys_seek h none = (fails efault, h)
  sys_seek h (some args) =
      let r =
        names.seek h (int_of (arg_or 0 args 0)) (arg_or 0 args 1) (int_of (arg_or 0 args 2)) in
      (number_reply r.0, r.1)

  unfoldable pub sys_dup : H → Option (List ℕ) → Reply × H
  sys_dup h none = (fails efault, h)
  sys_dup h (some args) = let r = names.dup h (int_of (arg_or 0 args 0)) in (number_reply r.0, r.1)

  unfoldable pub sys_event_fd : H → Option (List ℕ) → Reply × H
  sys_event_fd h none = (fails efault, h)
  sys_event_fd h (some args) =
      let r = names.event_fd h (int_of (arg_or 0 args 0)) 0 in (number_reply r.0, r.1)

  unfoldable pub sys_event_fd2 : H → Option (List ℕ) → Reply × H
  sys_event_fd2 h none = (fails efault, h)
  sys_event_fd2 h (some args) =
      let r = names.event_fd h (int_of (arg_or 0 args 0)) (int_of (arg_or 0 args 1)) in
      (number_reply r.0, r.1)

  -- The copy of the directory's name into guest memory, and the result.
  abbrev named : M → ℕ → List ℕ → Reply × M
  named m buf cwd =
      let name = overlay (cwd ++ 0 ∷ []) (λ i. 0) in
      let (m', copied_len) =
        copy_string_to_memory g.read g.write g.width (g.can_write m) m buf name (length cwd + 1) in
      ((if copied_len == length cwd then returns (length cwd + 1) else fails efault), m')

  -- getcwd puts the name into gPath, unless the size is so large that the host allocates.
  abbrev working : M → (ℕ → ℕ) → ℕ → ℕ → ℕ ⊎ List ℕ → Reply × M × (ℕ → ℕ)
  working m path buf size (inl e) = (fails (of_host e), m, path)
  working m path buf size (inr cwd) =
      let path' = if leb path_max size then path else overlay (cwd ++ 0 ∷ []) path in
      let result = named m buf cwd in
      if leb size (length cwd) then (fails erange, m, path') else (result.0, result.1, path')

  unfoldable pub sys_get_current_working_directory :
      M → H → (ℕ → ℕ) → Option (List ℕ) → Reply × M × (ℕ → ℕ)
  sys_get_current_working_directory m h path none = (fails efault, m, path)
  sys_get_current_working_directory m h path (some args) =
      let buf = arg_or 0 args 0 in
      let size = arg_or 0 args 1 in
      if buf == 0
      then (fails einval, m, path)
      else working m path buf size (names.working_directory h size)
