-- ===== src/Threads/HyperCalls.antt =====
-- __remill_async_hyper_call of vmill/Runtime/Linux/X86.cpp, which runs a system call, and the part of
-- __remill_sync_hyper_call there that loads a segment register.
use vmill.Prelude.{
  ℕ, ◌-◌, Bool, true, false, ◌&&◌, leb, ◌==◌, if◌then◌else◌, update, Outcome, done, ◌>>=◌,
}
use vmill.Futex.Operators.{Guest}
use vmill.Tasks.{
  TaskStopLocation, fetch_task, put_task, stopped_after_hyper_call,
  stopped_before_unhandled_hyper_call,
}
use vmill.Tasks.Faults.{set_location}
use vmill.Calls.{
  Segment, fs, gs, State, SystemCallAbi, int0x80, sys_enter32, amd64_syscall, get_return_address,
}
use vmill.Threads.{Machine, min_index, max_index, with_dword}

-- The values of `state.hyper_call` that are told apart, with the vector of `int N`.
pub data AsyncHyperCall : Type 0 where
  x86_sys_enter x86_sys_call : AsyncHyperCall
  x86_int_n : ℕ → AsyncHyperCall
  other_hyper_call : AsyncHyperCall

-- What else a return changes: sysenter restores the stack pointer, and syscall has the address in RCX.
abbrev returned : SystemCallAbi → ℕ → ℕ → State → State
returned int0x80 ret_addr user_stack st = record st { rip = ret_addr }
returned sys_enter32 ret_addr user_stack st = record st { rip = ret_addr; rsp = user_stack }
returned amd64_syscall ret_addr user_stack st = record st { rip = ret_addr; rcx = ret_addr }

module _ {M : Type 0} (g : Guest M)
    (system_call : SystemCallAbi → ℕ → Machine M → Outcome (Machine M)) where
  abbrev locate : ℕ → ℕ → TaskStopLocation → Machine M → Outcome (Machine M)
  locate self pc loc mc = do
    t ← fetch_task mc.system self
    done (record mc { system = put_task mc.system self (set_location pc loc t) })

  -- A system call of the task `self`: X86SystemCall or AMD64SystemCall, and the return.
  unfoldable pub run_system_call : SystemCallAbi → ℕ → ℕ → Machine M → Outcome (Machine M)
  run_system_call abi self ret_addr mc = do
    let user_stack = (mc.state self).rsp
    mc' ← system_call abi self (record mc { completed = false })
    let at = get_return_address g abi mc'.memory ret_addr
    let back =
        locate self at stopped_after_hyper_call (record mc' {
          state = update mc'.state self (returned abi at user_stack (mc'.state self));
        })
    if mc'.completed then back else done mc'

  unfoldable pub async_hyper_call : Bool → AsyncHyperCall → ℕ → ℕ → Machine M → Outcome (Machine M)
  async_hyper_call true x86_sys_call self ret_addr mc =
      run_system_call amd64_syscall self ret_addr mc
  async_hyper_call false x86_sys_enter self ret_addr mc =
      run_system_call sys_enter32 self ret_addr mc
  async_hyper_call false (x86_int_n vector) self ret_addr mc =
      let call = run_system_call int0x80 self ret_addr mc in if vector == 128 then call else done mc
  async_hyper_call wide call self ret_addr mc =
      locate self ret_addr stopped_before_unhandled_hyper_call mc

-- kX86SetSegmentGS and kX86SetSegmentFS: the base that comes with the index.
unfoldable pub set_segment : {M : Type 0} → Segment → ℕ → Machine M → Machine M
set_segment s self mc =
    let st = mc.state self in
    let index = st.segment s in
    let loaded = record st {
      base = load s (st.base) (mc.tls_slots self (index - min_index)).base_addr;
    } in
    if leb min_index index && leb index max_index
    then record mc { state = update mc.state self loaded }
    else mc
  where
    load : Segment → (Segment → ℕ) → ℕ → Segment → ℕ
    load gs base v gs = with_dword (base gs) v
    load fs base v fs = with_dword (base fs) v
    load s base v other = base other
