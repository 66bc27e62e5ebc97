-- ===== src/Tasks/Running.antt =====
-- Running a task: __vmill_execute and __vmill_run of vmill/Executor/Runtime.cpp, Pause and Resume of
-- vmill/Executor/Coroutine.cpp, and the loop of __vmill_resume of vmill/Runtime/Linux/Run.cpp.
use vmill.Prelude.{
  ℕ, zero, suc, ◌≡◌, refl, Bool, true, false, Option, none, some, Outcome, done, undefined, ◌>>=◌,
  if◌then◌else◌,
}
use vmill.Tasks.{
  LinuxTask, System, TaskStatus, status_runnable, status_resumable, status_error, TaskStopLocation,
  stopped_at_error, stopped_before_unhandled_hyper_call, no_fault, put_task, may_run, visit,
  resume_pass,
}
use vmill.Tasks.Faults.{is_no_fault}

-- The switch at the end of __vmill_execute.
abbrev pub status_after : TaskStopLocation → TaskStatus
status_after stopped_at_error = status_error
status_after stopped_before_unhandled_hyper_call = status_error
status_after _ = status_runnable

-- The end of __vmill_execute, for the program counter from which the lifted code ran.
unfoldable pub executed : ℕ → LinuxTask → LinuxTask
executed pc t = record t {
  last_pc = pc;
  status = if is_no_fault (t.mem_access_fault).kind then status_after t.location else status_error;
}

-- Coroutine::Pause and Coroutine::Resume.
abbrev paused_status : TaskStatus → TaskStatus
paused_status status_runnable = status_resumable
paused_status s = s

unfoldable pub pause : LinuxTask → LinuxTask
pause t = record t { status_on_resume = t.status; status = paused_status t.status }

unfoldable pub resume : LinuxTask → LinuxTask
resume t = record t { status = t.status_on_resume }

abbrev is_resumable : TaskStatus → Bool
is_resumable status_resumable = true
is_resumable _ = false

-- What lifted code does from the start of a trace, or from where it was paused: whether it returned or
-- paused again, the program counter at which it started, and the task and the system after it.
pub record Ran : Type 0 where
  pub returned : Bool
  pub started_at : ℕ
  pub task : LinuxTask
  pub system : System

module _ (lifted : System → ℕ → LinuxTask → Ran) where
  abbrev run_lifted : System → ℕ → LinuxTask → System
  run_lifted s k t =
      let ran = lifted s k t in
      if ran.returned
      then put_task ran.system k (executed ran.started_at ran.task)
      else put_task ran.system k (pause ran.task)

  abbrev run_fetched : System → ℕ → Option LinuxTask → System
  run_fetched s k none = s
  run_fetched s k (some t) =
      if is_resumable t.status then run_lifted s k (resume t) else run_lifted s k t

  -- __vmill_run.
  unfoldable pub vmill_run : System → ℕ → System
  vmill_run s k = run_fetched s k (s.task k)

-- __vmill_resume: passes until one makes no progress. `rounds` is fuel for the tasks of a pass.
module _ (run : System → ℕ → System) (rounds : ℕ) where
  unfoldable pub vmill_resume : ℕ → System → Outcome System
  vmill_resume zero s = undefined
  vmill_resume (suc fuel) s = do
    pass ← resume_pass run rounds s s.task_list false
    let again = vmill_resume fuel pass.1
    if pass.0 then again else done pass.1

-- One task that is ready to run and has no fault.
pub record IsAlone (k : ℕ) (s : System) : Type 0 where
  pub task : LinuxTask
  pub present : s.task k ≡ some task
  pub first : s.task_list ≡ some k
  pub last : task.next ≡ none
  pub ready : task.status ≡ status_runnable
  pub not_blocked : task.blocked_count ≡ 0
  pub clean : (task.mem_access_fault).kind ≡ no_fault

-- A task of a pass, after which its `next` is that of `t'`.
pub pass_step :
    (run : System → ℕ → System) (rounds : ℕ) (s : System) (k : ℕ) (t t' : LinuxTask)
    (progressed : Bool)
    → s.task k ≡ some t
    → (visit run s k t).task k ≡ some t'
    → resume_pass run (suc rounds) s (some k) progressed
      ≡ resume_pass run rounds
          (visit run s k t)
          t'.next
          (if may_run t.status then true else progressed)
unfolding resume_pass
pass_step run rounds s k t t' progressed present after = rw (resume_pass, present, after) refl
