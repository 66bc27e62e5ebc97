-- ===== src/Threads/SystemCalls.antt =====
-- The system calls of vmill/Runtime/Linux/Thread.cpp and Process.cpp.
use vmill.Prelude.{
  ℕ, ◌-◌, ◌%◌, ◌^◌, Bool, not, ◌||◌, Option, none, some, List, ◌==◌, if◌then◌else◌, update, Outcome,
  done, ◌>>=◌,
}
use vmill.Replies.{returns, fails, efault, einval, eperm, of_host}
use vmill.Transfers.{bytes_of, try_write_memory}
use vmill.Futex.Operators.{Guest}
use vmill.Tasks.{fetch_task, process_id, put_task, stopped_at_exit}
use vmill.Tasks.Faults.{set_location}
use vmill.Futex.{do_wake}
use vmill.Calls.{Segment, fs, gs, SystemCallAbi, arg_or}
use vmill.Calls.Arguments.{try_get_args}
use vmill.Threads.{Machine, reply, do_set_thread_area}
use vmill.Threads.Clone.{CloneArgs, do_clone, fs_base, gs_base}

-- kParentProcessId and kParentProcessGroupId.
abbrev parent_process_id : ℕ
parent_process_id = 1

abbrev parent_process_group_id : ℕ
parent_process_group_id = 0

-- SysCloneA and SysCloneB take the arguments in different orders.
abbrev pub clone_args_a : List ℕ → CloneArgs
clone_args_a args = record {
  child_stack = arg_or 0 args 1;
  flags = arg_or 0 args 0;
  ptid = arg_or 0 args 2;
  newtls = arg_or 0 args 4;
  ctid = arg_or 0 args 3;
}

abbrev pub clone_args_b : List ℕ → CloneArgs
clone_args_b args = record {
  child_stack = arg_or 0 args 1;
  flags = arg_or 0 args 0;
  ptid = arg_or 0 args 2;
  newtls = arg_or 0 args 3;
  ctid = arg_or 0 args 4;
}

abbrev arch_set_gs : ℕ
arch_set_gs = 4097

abbrev arch_set_fs : ℕ
arch_set_fs = 4098

abbrev arch_get_fs : ℕ
arch_get_fs = 4099

abbrev arch_get_gs : ℕ
arch_get_gs = 4100

module _ {M : Type 0} (g : Guest M) (wide : Bool) (abi : SystemCallAbi) where
  -- A call of the task `self` with `n` arguments.
  abbrev pub with_args : ℕ → Machine M → ℕ → (List ℕ → Outcome (Machine M)) → Outcome (Machine M)
  with_args self mc n f =
      elim (try_get_args g (if wide then 8 else 4) abi mc.memory (mc.state self) n) [
        | none ↦ done (reply g self (fails efault) mc)
        | some args ↦ f args
      ]

  unfoldable pub sys_clone_a : ℕ → Machine M → Outcome (Machine M)
  sys_clone_a self mc = with_args self mc 5 λ args. do_clone g wide abi self mc (clone_args_a args)

  unfoldable pub sys_clone_b : ℕ → Machine M → Outcome (Machine M)
  sys_clone_b self mc = with_args self mc 5 λ args. do_clone g wide abi self mc (clone_args_b args)

  unfoldable pub sys_set_thread_area : ℕ → Machine M → Outcome (Machine M)
  sys_set_thread_area self mc =
      with_args self mc 1 λ args. done (do_set_thread_area g self self (arg_or 0 args 0) mc)

  unfoldable pub sys_set_thread_id_address : ℕ → Machine M → Outcome (Machine M)
  sys_set_thread_id_address self mc = with_args self mc 1 λ args. do
    t ← fetch_task mc.system self
    let t' = record t { clear_child_tid = arg_or 0 args 0 }
    done (reply g self (returns t.tid) (record mc { system = put_task mc.system self t' }))

  -- The branches of SysArchPrctl, which is in the 64-bit runtime only.
  abbrev set_base : ℕ → (ℕ → (Segment → ℕ) → Segment → ℕ) → ℕ → Machine M → Machine M
  set_base self at addr mc =
      let st = mc.state self in
      if not (g.can_read mc.memory addr)
      then reply g self (fails eperm) mc
      else reply g self (returns 0)
          (record mc { state = update mc.state self (record st { base = at addr st.base }) })

  abbrev get_base : ℕ → Segment → ℕ → Machine M → Machine M
  get_base self s addr mc =
      let base = (mc.state self).base s in
      let wrote =
        try_write_memory g.read g.write g.width (g.can_write mc.memory) mc.memory addr
          (bytes_of 8 base) in
      if not wrote.0
      then reply g self (fails efault) mc
      else reply g self (returns 0) (record mc { memory = wrote.1 })

  abbrev arch_prctl : ℕ → ℕ → ℕ → Machine M → Machine M
  arch_prctl self code addr mc =
      if code == arch_set_fs
      then set_base self fs_base addr mc
      else if code == arch_set_gs
      then set_base self gs_base addr mc
      else if code == arch_get_fs
      then get_base self fs addr mc
      else if code == arch_get_gs
      then get_base self gs addr mc
      else reply g self (fails einval) mc

  unfoldable pub sys_arch_prctl : ℕ → Machine M → Outcome (Machine M)
  sys_arch_prctl self mc =
      with_args self mc 2
        λ args. done (arch_prctl self (arg_or 0 args 0 % 2 ^ 32) (arg_or 0 args 1) mc)

  abbrev pub sys_get_process_id : ℕ → Machine M → Machine M
  sys_get_process_id self mc = reply g self (returns process_id) mc

  abbrev pub sys_get_parent_process_id : ℕ → Machine M → Machine M
  sys_get_parent_process_id self mc = reply g self (returns parent_process_id) mc

  abbrev pub sys_get_process_group_id : ℕ → Machine M → Machine M
  sys_get_process_group_id self mc = reply g self (returns parent_process_group_id) mc

  unfoldable pub sys_get_thread_id : ℕ → Machine M → Outcome (Machine M)
  sys_get_thread_id self mc = do
    t ← fetch_task mc.system self
    done (reply g self (returns t.tid) mc)

  -- SysKill; `kill` is the host's: nothing, or the error's number.
  unfoldable pub sys_kill : (ℕ → ℕ → Option ℕ) → ℕ → Machine M → Outcome (Machine M)
  sys_kill kill self mc = with_args self mc 2 λ args.
      let pid = arg_or 0 args 0 % 2 ^ 32 in
      let signum = arg_or 0 args 1 % 2 ^ 32 in
      if pid == 2 ^ 32 - 1 || (pid == 0 || pid == process_id)
      then done (reply g self (returns 0) mc)
      else elim (kill pid signum) [
        | none ↦ done (reply g self (returns 0) mc)
        | some e ↦ done (reply g self (fails (of_host e)) mc)
      ]

  -- SysExit of Sys.cpp. `rounds` is fuel for DoWake.
  unfoldable pub sys_exit : ℕ → ℕ → Machine M → Outcome (Machine M)
  sys_exit rounds self mc = do
    answered ← with_args self mc 1 λ args. done mc
    t ← fetch_task answered.system self
    let wake = do_wake rounds self t.clear_child_tid (2 ^ 32 - 1) 1 answered.system
    woken ← if t.clear_child_tid == 0 then done (0, answered.system) else wake
    t' ← fetch_task woken.1 self
    let stopped = put_task woken.1 self (set_location (t'.pc % g.width) stopped_at_exit t')
    done (record answered { system = stopped })
