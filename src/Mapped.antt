-- ===== src/Mapped.antt =====
-- vmill/Runtime/Linux/MM.cpp: the system calls brk, mmap, munmap and mprotect. They work on an
-- address space through the intrinsics __vmill_*_memory of vmill/Executor/Runtime.cpp, which are the
-- record Mapper here, and on files of the host through lseek and read.
pub mod Mmap
pub mod Placement
pub mod Spaces
pub mod Refusals
pub mod Loading
pub mod Permissions
pub mod Effects
mod Tests
use Prim.Native.Nat.{bit_and}
use vmill.Prelude.{
  ℕ, zero, suc, ◌+◌, ◌-◌, ◌*◌, ◌%◌, ◌^◌, Bool, true, false, not, ◌&&◌, ◌||◌, Option, none, some,
  length, List, ltb, leb, ◌==◌, if◌then◌else◌, ◌⊎◌, inl, inr, align_down_to_page, Outcome, done,
  undefined, ◌>>=◌,
}
use vmill.Space.{min}
use vmill.Transfers.{copy_to_memory}
use vmill.Replies.{
  Errno, efault, einval, enomem, eacces, ebadfd, eoverflow, of_host, Reply, returns, fails,
}

-- The number of addresses of the emulated program: of 64 bits if `wide`, and of 32 bits if not.
abbrev pub addr_mod : Bool → ℕ
addr_mod wide = if wide then 2 ^ 64 else 2 ^ 32

abbrev pub align_to_next_page : Bool → ℕ → ℕ
align_to_next_page wide a = align_down_to_page ((a + 4095) % addr_mod wide)

-- kMmapMinAddr, k4GiB and kAllocMax.
abbrev pub mmap_min_addr : ℕ
mmap_min_addr = 65536

abbrev pub four_gib : ℕ
four_gib = 4294967296

abbrev pub alloc_max : Bool → ℕ
alloc_max wide = if wide then 2 ^ 47 else 4143972352

-- The bits of <sys/mman.h>; MAP_GROWSUP has none.
abbrev pub has : ℕ → ℕ → Bool
has flags bit = not (bit_and flags bit == 0)

abbrev pub map_shared : ℕ
map_shared = 1

abbrev pub map_private : ℕ
map_private = 2

abbrev pub map_fixed : ℕ
map_fixed = 16

abbrev pub map_anonymous : ℕ
map_anonymous = 32

abbrev pub map_32bit : ℕ
map_32bit = 64

abbrev pub map_growsdown : ℕ
map_growsdown = 256

abbrev pub map_stack : ℕ
map_stack = 131072

-- An int is a number below 2 ^ 32, and an off_t one below 2 ^ 64, in two's complement.
abbrev pub no_fd : ℕ
no_fd = 4294967295

abbrev pub is_negative_int : ℕ → Bool
is_negative_int n = leb (2 ^ 31) n

abbrev pub is_negative_off : ℕ → Bool
is_negative_off n = leb (2 ^ 63) n

pub record MmapArgs : Type 0 where
  pub addr : ℕ
  pub size : ℕ
  pub prot : ℕ
  pub flags : ℕ
  pub fd : ℕ
  pub offset : ℕ

-- `offset > offset + static_cast<ssize_t>(size)`, for an offset that is not negative. A sum that does
-- not fit is signed overflow.
unfoldable pub offset_overflows : Bool → ℕ → ℕ → Outcome Bool
offset_overflows wide offset size =
    if leb (if wide then 2 ^ 63 else 2 ^ 31) size
    then done true
    else if leb (2 ^ 63) (offset + size)
    then undefined
    else done false

-- The tests of the file, if there is one.
unfoldable pub check_file : Bool → ℕ → ℕ → ℕ → Outcome (Option Errno)
check_file wide fd offset size =
    let overflows = do
      over ← offset_overflows wide offset size
      done (if over then some eoverflow else none)
    in if fd == no_fd
      then done none
      else if leb fd 2
      then done (some eacces)
      else if is_negative_int fd
      then done (some ebadfd)
      else if is_negative_off offset || not (offset % 4096 == 0)
      then done (some einval)
      else overflows

-- The tests of the flags; a shared mapping is made a private one.
unfoldable pub check_flags : ℕ → ℕ → Option Errno
check_flags fd flags =
    if has flags map_growsdown
      || (not (has flags map_shared || has flags map_private)
          || (not (is_negative_int fd) && has flags map_anonymous))
    then some einval
    else none

-- The highest address, and the hinted address in view of it.
abbrev pub max_addr : Bool → ℕ → ℕ
max_addr wide flags = if wide && has flags map_32bit then four_gib else alloc_max wide

abbrev pub hinted : Bool → ℕ → ℕ → ℕ
hinted wide flags addr = if wide && has flags map_32bit && leb four_gib addr then 0 else addr

-- What a call that asks for a fixed address gets.
unfoldable pub fixed_address : Bool → ℕ → ℕ → ℕ → Errno ⊎ ℕ
fixed_address wide flags addr size =
    let page = align_down_to_page (hinted wide flags addr) in
    let at = if ltb page mmap_min_addr then mmap_min_addr else page in
    if page == 0
    then inl einval
    else if ltb (max_addr wide flags) ((at + size) % addr_mod wide)
    then inl enomem
    else inr at

-- __vmill_allocate_memory, __vmill_free_memory, __vmill_protect_memory and
-- __vmill_find_unmapped_address, and writing a byte.
pub record Mapper (M : Type 0) : Type 1 where
  pub allocate_memory : M → ℕ → ℕ → Option (List ℕ) → ℕ → Outcome M
  pub free_memory : M → ℕ → ℕ → Outcome M
  pub protect_memory : M → ℕ → ℕ → Bool → Bool → Bool → Outcome M
  pub find_unmapped_address : M → ℕ → ℕ → ℕ → Outcome ℕ
  pub write_byte : M → ℕ → ℕ → Outcome M

-- The files of the host: a call gives its result or errno, and the state of the files after it.
pub record HostFiles (H : Type 0) : Type 1 where
  pub seek_current : H → ℕ → (ℕ ⊎ ℕ) × H
  pub seek_set : H → ℕ → ℕ → (ℕ ⊎ ℕ) × H
  pub read_file : H → ℕ → ℕ → (ℕ ⊎ List ℕ) × H
  pub base_path : H → ℕ → Option (List ℕ)
