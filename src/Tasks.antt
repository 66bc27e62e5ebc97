-- ===== src/Tasks.antt =====
-- vmill/Runtime/Task.h and vmill/Runtime/Linux/Run.h, Run.cpp: the tasks of the emulated Linux, their
-- list and ring, creating one, and the loop that runs them; and vmill/Executor/Runtime.cpp: faults
-- and stop locations of the running task.
pub mod Ring
pub mod Links
pub mod Running
pub mod Passes
pub mod Faults
mod Tests
use vmill.Prelude.{
  ℕ, zero, suc, ◌+◌, ◌-◌, ◌^◌, Bool, true, false, Option, none, some, List, [], ◌∷◌, ◌==◌, ltb,
  if◌then◌else◌, update, Outcome, done, undefined, ◌>>=◌,
}

pub data TaskStatus : Type 0 where
  status_runnable status_resumable status_error status_exited : TaskStatus

pub data TaskStopLocation : Type 0 where
  not_yet_started stopped_at_snapshot_entry_point stopped_at_jump_target : TaskStopLocation
  stopped_at_call_target stopped_at_return_target stopped_at_error : TaskStopLocation
  stopped_after_hyper_call stopped_before_unhandled_hyper_call : TaskStopLocation
  stopped_at_unsupported_instruction stopped_at_exit : TaskStopLocation

pub data MemoryAccessFaultKind : Type 0 where
  no_fault fault_on_read fault_on_write fault_on_execute : MemoryAccessFaultKind

pub data MemoryValueType : Type 0 where
  value_invalid value_integer value_floating_point value_instruction : MemoryValueType

pub record MemAccessFault : Type 0 where
  pub address : ℕ
  pub access_size : ℕ
  pub kind : MemoryAccessFaultKind
  pub value_type : MemoryValueType

-- vmill::Task and linux_task, without the register state, the coroutine and the TLS slots. The
-- pointers are keys of `System`.
pub record LinuxTask : Type 0 where
  pub pc : ℕ
  pub memory : ℕ
  pub status : TaskStatus
  pub status_on_resume : TaskStatus
  pub location : TaskStopLocation
  pub last_pc : ℕ
  pub mem_access_fault : MemAccessFault
  pub next : Option ℕ
  pub next_circular : Option ℕ
  pub blocked_count : ℕ
  pub wake_count : ℕ
  pub futex_bitset : ℕ
  pub futex_uaddr : ℕ
  pub tid : ℕ
  pub clear_child_tid : ℕ
  pub set_child_tid : ℕ

-- The tasks by key with the next free key, and gTaskList, gLastTask and gNextTid.
pub record System : Type 0 where
  pub task : ℕ → Option LinuxTask
  pub next_key : ℕ
  pub task_list : Option ℕ
  pub last_task : Option ℕ
  pub next_tid : ℕ

-- kProcessId.
abbrev pub process_id : ℕ
process_id = 2

-- __vmill_init.
abbrev pub init_system : System → System
init_system s = record s { next_tid = process_id; task_list = none; last_task = none }

abbrev pub task_or_undefined : Option LinuxTask → Outcome LinuxTask
task_or_undefined none = undefined
task_or_undefined (some t) = done t

abbrev pub fetch_task : System → ℕ → Outcome LinuxTask
fetch_task s k = task_or_undefined (s.task k)

abbrev pub put_task : System → ℕ → LinuxTask → System
put_task s k t = record s { task = update s.task k (some t) }

-- `p->...` of a pointer that may be null.
abbrev pub deref : Option ℕ → Outcome ℕ
deref none = undefined
deref (some k) = done k

-- `bzero`, then __vmill_init_task.
abbrev pub init_task : ℕ → ℕ → LinuxTask
init_task pc memory = record {
  pc = pc;
  memory = memory;
  status = status_runnable;
  status_on_resume = status_runnable;
  location = not_yet_started;
  last_pc = 0;
  mem_access_fault = record {
    address = 0;
    access_size = 0;
    kind = no_fault;
    value_type = value_invalid;
  };
  next = none;
  next_circular = none;
  blocked_count = 0;
  wake_count = 0;
  futex_bitset = 0;
  futex_uaddr = 0;
  tid = 0;
  clear_child_tid = 0;
  set_child_tid = 0;
}

-- __vmill_create_task: the key of the new task, and the system with it.
unfoldable pub create_task : System → ℕ → ℕ → Outcome (ℕ × System)
create_task s pc memory =
    let k = s.next_key in
    let t = record (init_task pc memory) { tid = s.next_tid; next = s.task_list } in
    let s' = record s { next_key = suc k; next_tid = s.next_tid + 1; task_list = some k } in
    elim s.task_list [
      | some head ↦ do
        last ← deref s.last_task
        l ← fetch_task s last
        let linked = put_task s' last (record l { next_circular = some k })
        done (k, put_task linked k (record t { next_circular = some head }))
      | none ↦
          done
            (k, put_task (record s' { last_task = some k }) k (record t { next_circular = some k }))
    ]

abbrev pub may_run : TaskStatus → Bool
may_run status_runnable = true
may_run status_resumable = true
may_run status_error = false
may_run status_exited = false

-- One pass of the loop of __vmill_resume from the task `o` on: whether it progressed, and the system
-- after it. `run` is __vmill_run, which runs a task until it yields.
module _ (run : System → ℕ → System) where
  abbrev pub run_task : System → ℕ → LinuxTask → System
  run_task s k t =
      if t.blocked_count == 0
      then run s k
      else put_task s k (record t { blocked_count = t.blocked_count - 1 })

  unfoldable pub visit : System → ℕ → LinuxTask → System
  visit s k t = if may_run t.status then run_task s k t else s

  unfoldable pub resume_pass : ℕ → System → Option ℕ → Bool → Outcome (Bool × System)
  resume_pass n s none progressed = done (progressed, s)
  resume_pass zero s (some k) progressed = undefined
  resume_pass (suc n) s (some k) progressed = do
    t ← fetch_task s k
    let s' = visit s k t
    t' ← fetch_task s' k
    resume_pass n s' t'.next (if may_run t.status then true else progressed)
