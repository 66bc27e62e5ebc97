-- ===== src/Calls/Arguments.antt =====
-- TryGetArgs of vmill/Runtime/Generic/SystemCallABI.h.
use vmill.Prelude.{
  ℕ, suc, zero, ◌≡◌, ◌≤◌, refl, true, Option, none, some, take, List, [], ◌∷◌, ◌==◌, if◌then◌else◌,
  arith,
}
use vmill.Transfers.{word_of}
use vmill.Futex.Operators.{Guest}
use vmill.Calls.{
  State, SystemCallAbi, int0x80, sys_enter32, amd64_syscall, get_arg, can_read_args, read_bytes,
  register_args,
}

-- The number that the overload for `n` arguments gives to CanReadArgs.
abbrev pub args_tested : ℕ → ℕ
args_tested n = if n == 1 then 1 else 2

up_to_six : (P : ℕ → Type 0) → P 0 → P 1 → P 2 → P 3 → P 4 → P 5 → P 6 → (n : ℕ) → n ≤ 6 → P n
up_to_six P a b c d e f g zero h = a
up_to_six P a b c d e f g (suc zero) h = b
up_to_six P a b c d e f g (suc (suc zero)) h = c
up_to_six P a b c d e f g (suc (suc (suc zero))) h = d
up_to_six P a b c d e f g (suc (suc (suc (suc zero)))) h = e
up_to_six P a b c d e f g (suc (suc (suc (suc (suc zero))))) h = f
up_to_six P a b c d e f g (suc (suc (suc (suc (suc (suc zero)))))) h = g
up_to_six P a b c d e f g (suc (suc (suc (suc (suc (suc (suc n))))))) h = absurd (omega arith)

module _ {M : Type 0} (g : Guest M) (word_size : ℕ) where
  -- Arguments `i` and the next ones, `n` in all.
  abbrev pub args_from : SystemCallAbi → M → State → ℕ → ℕ → List ℕ
  args_from abi m st i zero = []
  args_from abi m st i (suc n) = get_arg g word_size abi m st i ∷ args_from abi m st (suc i) n

  unfoldable pub try_get_args : SystemCallAbi → M → State → ℕ → Option (List ℕ)
  try_get_args abi m st n =
      if can_read_args g word_size abi m st (args_tested n)
      then some (args_from abi m st 0 n)
      else none

  -- The arguments of a call under each ABI: five or six registers, and the bytes that ReadMemory
  -- finds.
  abbrev pub all_args : SystemCallAbi → M → State → List ℕ
  all_args int0x80 m st = register_args int0x80 st
  all_args amd64_syscall m st = register_args amd64_syscall st
  all_args sys_enter32 m st =
      st.rbx ∷ st.rcx ∷ st.rdx ∷ st.rsi ∷ st.rdi ∷ word_of (read_bytes g m st.rbp word_size) ∷ []

  tested :
      (abi : SystemCallAbi) (m : M) (st : State) (n : ℕ)
      → can_read_args g word_size abi m st (args_tested n) ≡ true
  tested int0x80 m st n = ground arith
  tested sys_enter32 m st n = ground arith
  tested amd64_syscall m st n = ground arith

  read_up_to :
      (abi : SystemCallAbi) (m : M) (st : State) (n : ℕ)
      → n ≤ 6
      → args_from abi m st 0 n ≡ take n (all_args abi m st)
  read_up_to int0x80 m st =
      up_to_six (λ n. args_from int0x80 m st 0 n ≡ take n (all_args int0x80 m st)) refl refl refl
        refl refl refl refl
  read_up_to sys_enter32 m st =
      up_to_six (λ n. args_from sys_enter32 m st 0 n ≡ take n (all_args sys_enter32 m st)) refl refl
        refl refl refl refl refl
  read_up_to amd64_syscall m st =
      up_to_six (λ n. args_from amd64_syscall m st 0 n ≡ take n (all_args amd64_syscall m st)) refl
        refl refl refl refl refl refl

  -- Under each ABI, TryGetArgs of at most six arguments gets them, the sixth one of sysenter from
  -- memory also where CanReadArgs of six arguments is false.
  pub try_get_args_lem :
      (abi : SystemCallAbi) (m : M) (st : State) (n : ℕ)
      → n ≤ 6
      → try_get_args abi m st n ≡ some (take n (all_args abi m st))
  unfolding try_get_args
  try_get_args_lem abi m st n h = rw (tested abi m st n, read_up_to abi m st n h) refl
