-- ===== src/Threads/Clone.antt =====
-- vmill/Runtime/Linux/Thread.cpp: DoClone and the system calls around it.
use Prim.Native.Nat.{bit_and}
use vmill.Prelude.{
  ℕ, Bool, not, ◌&&◌, Option, none, some, ◌==◌, if◌then◌else◌, update, Outcome, done, ◌>>=◌,
}
use vmill.Replies.{Errno, returns, fails, efault, einval}
use vmill.Futex.Operators.{Guest, can_write_word}
use vmill.Tasks.{
  LinuxTask, System, create_task, fetch_task, put_task, stopped_at_exit, stopped_after_hyper_call,
  status_runnable,
}
use vmill.Tasks.Faults.{set_location}
use vmill.Calls.{fs, gs, Segment, State, SystemCallAbi, get_pc, get_return_address, set_pc, set_sp}
use vmill.Threads.{Machine, zero_desc, reply, do_set_thread_area, try_write_word}

-- The bits of <sched.h>.
abbrev pub clone_vm : ℕ
clone_vm = 256

abbrev pub clone_sighand : ℕ
clone_sighand = 2048

abbrev pub clone_thread : ℕ
clone_thread = 65536

abbrev pub clone_settls : ℕ
clone_settls = 524288

abbrev pub clone_parent_settid : ℕ
clone_parent_settid = 1048576

abbrev pub clone_child_cleartid : ℕ
clone_child_cleartid = 2097152

abbrev pub clone_child_settid : ℕ
clone_child_settid = 16777216

-- CLONE_FILES, CLONE_FS, CLONE_IO and CLONE_VM.
abbrev pub thread_flags : ℕ
thread_flags = 2147485440

-- CLONE_NEWCGROUP, _NEWIPC, _NEWNET, _NEWNS, _NEWPID, _NEWUSER, _NEWUTS and CLONE_PARENT.
abbrev pub not_thread_flags : ℕ
not_thread_flags = 2114093056

pub record CloneArgs : Type 0 where
  pub child_stack : ℕ
  pub flags : ℕ
  pub ptid : ℕ
  pub newtls : ℕ
  pub ctid : ℕ

abbrev pub asks : CloneArgs → ℕ → Bool
asks a bit = not (bit_and a.flags bit == 0)

abbrev pub is_process : CloneArgs → Bool
is_process a = not (bit_and thread_flags a.flags == thread_flags) && asks a not_thread_flags

-- `task->pc = ...` and the like, of the new task.
abbrev pub started : CloneArgs → LinuxTask → LinuxTask → LinuxTask
started a parent child = record child {
  last_pc = parent.last_pc;
  status = status_runnable;
  location = stopped_after_hyper_call;
  set_child_tid = if asks a clone_child_settid then a.ctid else child.set_child_tid;
  clear_child_tid = if asks a clone_child_cleartid then a.ctid else child.clear_child_tid;
}

abbrev pub resumed : ℕ → CloneArgs → State → State
resumed ret_addr a st =
    if a.child_stack == 0 then set_pc ret_addr st else set_sp a.child_stack (set_pc ret_addr st)

-- The bases with that of FS or of GS set.
abbrev pub fs_base : ℕ → (Segment → ℕ) → Segment → ℕ
fs_base v base fs = v
fs_base v base s = base s

abbrev pub gs_base : ℕ → (Segment → ℕ) → Segment → ℕ
gs_base v base gs = v
gs_base v base s = base s

module _ {M : Type 0} (g : Guest M) (wide : Bool) (abi : SystemCallAbi) where
  -- The tests after that for a process.
  unfoldable pub refuses : M → CloneArgs → Option Errno
  refuses m a =
      if asks a clone_thread && not (asks a clone_sighand)
      then some einval
      else if asks a clone_sighand && not (asks a clone_vm)
      then some einval
      else if asks a clone_parent_settid && not (can_write_word g m a.ptid)
      then some efault
      else if asks a clone_child_settid && not (can_write_word g m a.ctid)
      then some efault
      else none

  -- The words that get the new task's number.
  abbrev pub announce : M → CloneArgs → ℕ → M
  announce m a tid =
      let m' = if asks a clone_parent_settid then (try_write_word g m a.ptid tid).1 else m in
      if asks a clone_child_settid then (try_write_word g m' a.ctid tid).1 else m'

  -- CLONE_SETTLS, for the new task `k`.
  unfoldable pub set_tls : ℕ → ℕ → CloneArgs → Machine M → Machine M
  set_tls self k a mc =
      if not (asks a clone_settls)
      then mc
      else if wide
      then record mc {
        state =
            update mc.state k (record (mc.state k) { base = fs_base a.newtls (mc.state k).base });
      }
      else do_set_thread_area g self k a.newtls mc

  -- The machine with the new task `k` in it, and with the results for it and for `self`.
  abbrev pub with_child : ℕ → Machine M → CloneArgs → LinuxTask → ℕ × System → LinuxTask → Machine M
  with_child self mc a parent made child =
      let ret_addr = get_return_address g abi mc.memory (get_pc (mc.state self)) in
      record mc {
        memory = announce mc.memory a child.tid;
        system = put_task made.1 made.0 (started a parent child);
        state = update mc.state made.0 (resumed ret_addr a (mc.state self));
        tls_slots = update mc.tls_slots made.0 (λ _. zero_desc);
      }

  abbrev pub answer : ℕ → ℕ → ℕ → Machine M → Machine M
  answer self k tid mc = reply g self (returns tid) (reply g k (returns 0) mc)

  -- DoClone after the tests, by the task `self`.
  unfoldable pub make_thread : ℕ → Machine M → CloneArgs → Outcome (Machine M)
  make_thread self mc a = do
    parent ← fetch_task mc.system self
    let ret_addr = get_return_address g abi mc.memory (get_pc (mc.state self))
    made ← create_task mc.system ret_addr parent.memory
    child ← fetch_task made.1 made.0
    let born = with_child self mc a parent made child
    done (set_tls self made.0 a (answer self made.0 child.tid born))

  unfoldable pub do_clone : ℕ → Machine M → CloneArgs → Outcome (Machine M)
  do_clone self mc a =
      let made = make_thread self mc a in
      let stop = do
        t ← fetch_task mc.system self
        done (record mc { system = put_task mc.system self (set_location 0 stopped_at_exit t) })
      in if is_process a
        then stop
        else elim (refuses mc.memory a) [ some e ↦ done (reply g self (fails e) mc) | none ↦ made ]
