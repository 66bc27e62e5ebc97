-- ===== src/Calls.antt =====
-- vmill/Runtime/Generic/SystemCallABI.h and the classes of vmill/Runtime/Linux/X86.cpp that implement
-- it: where a system call has its arguments, and where its result and its return address go. The
-- registers are those of remill's State that this code uses.
pub mod Arguments
mod Tests
use vmill.Prelude.{
  ℕ, zero, suc, ◌+◌, ◌-◌, ◌%◌, Bool, true, false, Option, none, some, List, [], ◌∷◌, leb, ltb, ◌==◌,
  if◌then◌else◌,
}
use vmill.Replies.{
  Errno, efault, einval, erange, eagain, etimedout, enosys, enomem, eacces, ebadfd, eoverflow,
  eperm, esrch, enametoolong, of_host, Reply, returns, fails,
}
use vmill.Transfers.{can_access_memory, copy_from_memory, try_read_memory, word_of}
use vmill.Futex.Operators.{Guest}

pub data Segment : Type 0 where
  ss es gs fs ds cs : Segment

-- `segment` and `base` are the fields `seg.*.index` and `addr.*_base`; the others are `gpr.*.aword`.
pub record State : Type 0 where
  pub rax : ℕ
  pub rbx : ℕ
  pub rcx : ℕ
  pub rdx : ℕ
  pub rsi : ℕ
  pub rdi : ℕ
  pub rbp : ℕ
  pub rsp : ℕ
  pub rip : ℕ
  pub r8 : ℕ
  pub r9 : ℕ
  pub r10 : ℕ
  pub segment : Segment → ℕ
  pub base : Segment → ℕ

-- X86Int0x80SystemCall, X86SysEnter32SystemCall and Amd64SyscallSystemCall.
pub data SystemCallAbi : Type 0 where
  int0x80 sys_enter32 amd64_syscall : SystemCallAbi

-- The numbers of <errno.h> on Linux.
abbrev pub errno_number : Errno → ℕ
errno_number efault = 14
errno_number einval = 22
errno_number erange = 34
errno_number eagain = 11
errno_number etimedout = 110
errno_number enosys = 38
errno_number enomem = 12
errno_number eacces = 13
errno_number ebadfd = 77
errno_number eoverflow = 75
errno_number eperm = 1
errno_number esrch = 3
errno_number enametoolong = 36
errno_number (of_host n) = n

-- The value of SetReturn, for addresses below `width`.
abbrev pub reply_value : ℕ → Reply → ℕ
reply_value width (returns v) = v % width
reply_value width (fails e) = (width - errno_number e % width) % width

-- DoSetReturn. All three ABIs return in the same register.
unfoldable pub set_return : ℕ → Reply → State → State
set_return width r st = record st { rax = reply_value width r }

abbrev pub get_pc : State → ℕ
get_pc st = st.rip

abbrev pub set_pc : ℕ → State → State
set_pc pc st = record st { rip = pc }

abbrev pub set_sp : ℕ → State → State
set_sp sp st = record st { rsp = sp }

abbrev pub get_system_call_num : State → ℕ
get_system_call_num st = st.rax

-- The registers of the arguments; the sixth one of sysenter is in memory.
abbrev pub register_args : SystemCallAbi → State → List ℕ
register_args int0x80 st = st.rbx ∷ st.rcx ∷ st.rdx ∷ st.rsi ∷ st.rdi ∷ st.rbp ∷ []
register_args sys_enter32 st = st.rbx ∷ st.rcx ∷ st.rdx ∷ st.rsi ∷ st.rdi ∷ []
register_args amd64_syscall st = st.rdi ∷ st.rsi ∷ st.rdx ∷ st.r10 ∷ st.r8 ∷ st.r9 ∷ []

abbrev pub arg_or : ℕ → List ℕ → ℕ → ℕ
arg_or v [] i = v
arg_or v (a ∷ as') zero = a
arg_or v (a ∷ as') (suc i) = arg_or v as' i

-- The byte at which a `sysenter` is resumed: after NOPs, and after an `int N`.
abbrev pub nop_byte : ℕ
nop_byte = 144

abbrev pub int_byte : ℕ
int_byte = 205

module _ {M : Type 0} (g : Guest M) where
  abbrev pub read_bytes : M → ℕ → ℕ → List ℕ
  read_bytes m addr size = copy_from_memory g.read g.write g.width m addr size

  abbrev pub try_read_bytes : M → ℕ → ℕ → Option (List ℕ)
  try_read_bytes m addr size = try_read_memory g.read g.write g.width (g.can_read m) m addr size

  -- `word_size` is sizeof(addr_t).
  abbrev pub get_arg : ℕ → SystemCallAbi → M → State → ℕ → ℕ
  get_arg word_size int0x80 m st i = arg_or 0 (register_args int0x80 st) i
  get_arg word_size amd64_syscall m st i = arg_or 0 (register_args amd64_syscall st) i
  get_arg word_size sys_enter32 m st i =
      let sixth = word_of (read_bytes m st.rbp word_size) in
      if i == 5 then sixth else arg_or 0 (register_args sys_enter32 st) i

  abbrev pub can_read_args : ℕ → SystemCallAbi → M → State → ℕ → Bool
  can_read_args word_size int0x80 m st num_args = leb num_args 6
  can_read_args word_size amd64_syscall m st num_args = leb num_args 6
  can_read_args word_size sys_enter32 m st num_args =
      if num_args == 6
      then can_access_memory (g.can_read m) g.width st.rbp word_size
      else ltb num_args 6

  -- The loop of X86SysEnter32SystemCall::GetReturnAddress.
  unfoldable pub skip_nops : M → ℕ → ℕ → ℕ → ℕ
  skip_nops m addr zero i = addr
  skip_nops m addr (suc n) i =
      let at = (addr + i) % g.width in
      let rest = skip_nops m addr n (i + 1) in
      elim (try_read_bytes m at 1) [
        | none ↦ rest
        | some bytes ↦
            if word_of bytes == nop_byte
            then rest
            else if word_of bytes == int_byte
            then (addr + i + 2) % g.width
            else at
      ]

  abbrev pub get_return_address : SystemCallAbi → M → ℕ → ℕ
  get_return_address int0x80 m ret_addr = ret_addr
  get_return_address amd64_syscall m ret_addr = ret_addr
  get_return_address sys_enter32 m ret_addr = skip_nops m ret_addr 15 0
