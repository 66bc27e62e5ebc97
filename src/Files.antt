-- ===== src/Files.antt =====
-- vmill/Runtime/Linux/IO.cpp: the system calls read, write, readv, writev, open, openat, close and poll,
-- between guest memory and the host's files. The host is a record of operations over its
-- state; of a call that fails it gives the error's number.
pub mod Gathering
pub mod Paths
pub mod Stale
mod Tests
use vmill.Prelude.{
  ℕ, zero, suc, ◌+◌, ◌*◌, ◌%◌, ◌^◌, Bool, true, false, not, Option, none, some, length, take, drop,
  update, List, [], ◌∷◌, ◌==◌, leb, if◌then◌else◌, ◌⊎◌, inl, inr,
}
use vmill.Replies.{Errno, efault, enomem, enametoolong, of_host, Reply, returns, fails}
use vmill.Transfers.{can_access_memory, copy_string_from_memory, copy_to_memory, word_of}
use vmill.Futex.Operators.{Guest}
use vmill.Calls.{arg_or, read_bytes, try_read_bytes}

pub record Host (H : Type 0) : Type 1 where
  pub read : H → ℕ → ℕ → (ℕ ⊎ List ℕ) × H
  pub write : H → ℕ → List ℕ → (ℕ ⊎ ℕ) × H
  pub open_path : H → List ℕ → ℕ → ℕ → (ℕ ⊎ ℕ) × H
  pub open_at : H → ℕ → List ℕ → ℕ → ℕ → (ℕ ⊎ ℕ) × H
  pub close : H → ℕ → Option ℕ × H
  pub poll : H → List ℕ → ℕ → ℕ → (ℕ ⊎ (ℕ × List ℕ)) × H
  pub max_files : H → ℕ

-- PATH_MAX, and the sizes of int and of struct pollfd.
abbrev pub path_max : ℕ
path_max = 4096

abbrev pub int_of : ℕ → ℕ
int_of v = v % 2 ^ 32

abbrev pollfd_size : ℕ
pollfd_size = 8

module _ {M : Type 0} (g : Guest M) where
  abbrev pub can_read_bytes : M → ℕ → ℕ → Bool
  can_read_bytes m addr size = can_access_memory (g.can_read m) g.width addr size

  abbrev pub can_write_bytes : M → ℕ → ℕ → Bool
  can_write_bytes m addr size = can_access_memory (g.can_write m) g.width addr size

  -- An element of a vector: its base and its length, for addresses of `word_size` bytes.
  abbrev pub try_read_vec : ℕ → M → ℕ → ℕ → Option (ℕ × ℕ)
  try_read_vec word_size m iov i =
      elim (try_read_bytes g m ((iov + 2 * word_size * i) % g.width) (2 * word_size)) [
        | none ↦ none
        | some bytes ↦ some (word_of (take word_size bytes), word_of (drop word_size bytes))
      ]

-- gPath and what is copied over its start.
abbrev pub overlay : List ℕ → (ℕ → ℕ) → ℕ → ℕ
overlay [] f j = f j
overlay (b ∷ bs) f zero = b
overlay (b ∷ bs) f (suc j) = overlay bs (λ i. f (suc i)) j

-- Reading a path into gPath: its length, or an error; and gPath after it.
module _ {M : Type 0} (g : Guest M) where
  abbrev pub copy_path : M → ℕ → List ℕ × ℕ
  copy_path m addr = copy_string_from_memory g.read g.write g.width (g.can_read m) m addr path_max

  abbrev pub path_buffer : M → (ℕ → ℕ) → ℕ → ℕ → ℕ
  path_buffer m path addr = update (overlay (copy_path m addr).0 path) path_max 0

  unfoldable pub check_path : M → (ℕ → ℕ) → ℕ → Option Errno
  check_path m path addr =
      let len = (copy_path m addr).1 in
      if leb path_max len
      then some enametoolong
      else if not (path_buffer m path addr len == 0)
      then some efault
      else none

  abbrev pub path_string : M → ℕ → List ℕ
  path_string m addr = let copied = copy_path m addr in take copied.1 copied.0

-- What a call of the host's that gives a number returns.
abbrev pub number_reply : ℕ ⊎ ℕ → Reply
number_reply (inl e) = fails (of_host e)
number_reply (inr n) = returns n

abbrev pub status_reply : Option ℕ → Reply
status_reply none = returns 0
status_reply (some e) = fails (of_host e)

module _ {M H : Type 0} (g : Guest M) where
  -- A call with a path at `addr`: the error of the path, or what the host says.
  abbrev pub with_path : M → H → (ℕ → ℕ) → ℕ → (List ℕ → Reply × H) → Reply × H × (ℕ → ℕ)
  with_path m h path addr f =
      let buffer = path_buffer g m path addr in
      let call = f (path_string g m addr) in
      elim (check_path g m path addr) [
        | some e ↦ (fails e, h, buffer)
        | none ↦ (call.0, call.1, buffer)
      ]

module _ {M H : Type 0} (g : Guest M) (host : Host H) (word_size : ℕ) where
  -- DoRead and DoWrite, which add to a count.
  abbrev received : M → ℕ → ℕ → (ℕ ⊎ List ℕ) × H → Option Errno × ℕ × M × H
  received m buf count (inl e, h) = (some (of_host e), count, m, h)
  received m buf count (inr bytes, h) =
      (none, count + length bytes, copy_to_memory g.read g.write g.width m buf bytes, h)

  unfoldable pub do_read : M → H → ℕ → ℕ → ℕ → ℕ → Option Errno × ℕ × M × H
  do_read m h fd buf size count =
      if not (can_write_bytes g m buf size)
      then (some efault, count, m, h)
      else received m buf count (host.read h fd size)

  abbrev pub sent : ℕ → (ℕ ⊎ ℕ) × H → Option Errno × ℕ × H
  sent count (inl e, h) = (some (of_host e), count, h)
  sent count (inr n, h) = (none, count + n, h)

  unfoldable pub do_write : M → H → ℕ → ℕ → ℕ → ℕ → Option Errno × ℕ × H
  do_write m h fd buf size count =
      if not (can_read_bytes g m buf size)
      then (some efault, count, h)
      else sent count (host.write h fd (read_bytes g m buf size))

  -- The end of the calls: the error, or the number of bytes.
  abbrev pub bytes_reply : Option Errno → ℕ → Reply
  bytes_reply none count = returns count
  bytes_reply (some e) count = fails e

  -- The system calls, for what TryGetArgs gives.
  unfoldable pub sys_read : M → H → Option (List ℕ) → Reply × M × H
  sys_read m h none = (fails efault, m, h)
  sys_read m h (some args) =
      let r = do_read m h (int_of (arg_or 0 args 0)) (arg_or 0 args 1) (arg_or 0 args 2) 0 in
      (bytes_reply r.0 r.1, r.2, r.3)

  unfoldable pub sys_write : M → H → Option (List ℕ) → Reply × M × H
  sys_write m h none = (fails efault, m, h)
  sys_write m h (some args) =
      let r = do_write m h (int_of (arg_or 0 args 0)) (arg_or 0 args 1) (arg_or 0 args 2) 0 in
      (bytes_reply r.0 r.1, m, r.2)

  -- The loops of SysReadV and SysWriteV over `n` elements from `i` on.
  unfoldable pub read_vectors : ℕ → M → H → ℕ → ℕ → ℕ → ℕ → Reply × M × H
  read_vectors zero m h fd iov i count = (returns count, m, h)
  read_vectors (suc n) m h fd iov i count = elim (try_read_vec g word_size m iov i) [
    | none ↦ (fails efault, m, h)
    | some vec ↦
        let r = do_read m h fd vec.0 vec.1 count in
        let rest = read_vectors n r.2 r.3 fd iov (i + 1) r.1 in
        elim r.0 [ none ↦ rest | some e ↦ (fails efault, r.2, r.3) ]
  ]

  unfoldable pub write_vectors : ℕ → M → H → ℕ → ℕ → ℕ → ℕ → Reply × H
  write_vectors zero m h fd iov i count = (returns count, h)
  write_vectors (suc n) m h fd iov i count = elim (try_read_vec g word_size m iov i) [
    | none ↦ (fails efault, h)
    | some vec ↦
        let r = do_write m h fd vec.0 vec.1 count in
        let rest = write_vectors n m r.2 fd iov (i + 1) r.1 in
        elim r.0 [ none ↦ rest | some e ↦ (fails efault, r.2) ]
  ]

  unfoldable pub sys_readv : M → H → Option (List ℕ) → Reply × M × H
  sys_readv m h none = (fails efault, m, h)
  sys_readv m h (some args) =
      read_vectors (arg_or 0 args 2) m h (int_of (arg_or 0 args 0)) (arg_or 0 args 1) 0 0

  unfoldable pub sys_writev : M → H → Option (List ℕ) → Reply × M × H
  sys_writev m h none = (fails efault, m, h)
  sys_writev m h (some args) =
      let r =
        write_vectors (arg_or 0 args 2) m h (int_of (arg_or 0 args 0)) (arg_or 0 args 1) 0 0 in
      (r.0, m, r.1)

  unfoldable pub sys_open : M → H → (ℕ → ℕ) → Option (List ℕ) → Reply × H × (ℕ → ℕ)
  sys_open m h path none = (fails efault, h, path)
  sys_open m h path (some args) = with_path g m h path (arg_or 0 args 0) λ name.
      let r = host.open_path h name (int_of (arg_or 0 args 1)) (int_of (arg_or 0 args 2)) in
      (number_reply r.0, r.1)

  unfoldable pub sys_open_at : M → H → (ℕ → ℕ) → Option (List ℕ) → Reply × H × (ℕ → ℕ)
  sys_open_at m h path none = (fails efault, h, path)
  sys_open_at m h path (some args) = with_path g m h path (arg_or 0 args 1) λ name.
      let dirfd = int_of (arg_or 0 args 0) in
      let r = host.open_at h dirfd name (int_of (arg_or 0 args 2)) (int_of (arg_or 0 args 3)) in
      (number_reply r.0, r.1)

  unfoldable pub sys_close : H → Option (List ℕ) → Reply × H
  sys_close h none = (fails efault, h)
  sys_close h (some args) =
      let r = host.close h (int_of (arg_or 0 args 0)) in (status_reply r.0, r.1)

  -- The end of SysPoll.
  abbrev polled : M → ℕ → ℕ → (ℕ ⊎ (ℕ × List ℕ)) × H → Reply × M × H
  polled m fds size (inl e, h) = (fails (of_host e), m, h)
  polled m fds size (inr (ret, bytes), h) =
      if not (can_write_bytes g m fds size)
      then (fails efault, m, h)
      else (returns ret, copy_to_memory g.read g.write g.width m fds bytes, h)

  unfoldable pub sys_poll : M → H → Option (List ℕ) → Reply × M × H
  sys_poll m h none = (fails efault, m, h)
  sys_poll m h (some args) =
      let fds = arg_or 0 args 0 in
      let nfds = int_of (arg_or 0 args 1) in
      let size = nfds * pollfd_size in
      if leb (host.max_files h) nfds
      then (fails enomem, m, h)
      else if not (can_read_bytes g m fds size)
      then (fails efault, m, h)
      else polled m fds size (host.poll h (read_bytes g m fds size) nfds (int_of (arg_or 0 args 2)))
