-- ===== src/Calls/Tests.antt =====
-- The theorem about arguments of system calls at concrete registers.
use vmill.Prelude.{ℕ, ◌^◌, ◌≡◌, refl, false, some, take, arith, update}
use vmill.Transfers.{accessible_bytes_from}
use vmill.Futex.Operators.{Guest}
use vmill.Calls.{State, sys_enter32, can_read_args}
use vmill.Calls.Arguments.{all_args, try_get_args, try_get_args_lem}

-- No address can be accessed.
abbrev closed_guest : Guest (ℕ → ℕ)
closed_guest = record {
  read = λ m a. m a;
  write = update;
  can_read = λ _ _. false;
  can_write = λ _ _. false;
  width = 2 ^ 32;
}

abbrev some_state : State
some_state = record {
  rax = 240;
  rbx = 1;
  rcx = 2;
  rdx = 3;
  rsi = 4;
  rdi = 5;
  rbp = 64;
  rsp = 7000;
  rip = 4100;
  r8 = 0;
  r9 = 0;
  r10 = 0;
  segment = λ _. 0;
  base = λ _. 0;
}

sixth_unreadable : can_read_args closed_guest 4 sys_enter32 (λ _. 9) some_state 6 ≡ false
unfolding accessible_bytes_from
sixth_unreadable = refl

sysenter_args :
    try_get_args closed_guest 4 sys_enter32 (λ _. 9) some_state 6
    ≡ some (take 6 (all_args closed_guest 4 sys_enter32 (λ _. 9) some_state))
sysenter_args = try_get_args_lem closed_guest 4 sys_enter32 (λ _. 9) some_state 6 (omega arith)
