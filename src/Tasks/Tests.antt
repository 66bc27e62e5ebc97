-- ===== src/Tasks/Tests.antt =====
-- The theorems about tasks at a concrete system.
use vmill.Prelude.{
  ℕ, ◌+◌, true, false, ◌≡◌, refl, none, some, [], ◌∷◌, arith, done, update, Outcome, List, Bool,
  Option, ltb, if◌then◌else◌, ◌>>=◌,
}
use vmill.Tasks.{
  resume_pass, visit, stopped_at_exit, LinuxTask, System, create_task, init_task, value_integer,
}
use vmill.Tasks.Ring.{HasTasks, create_task-HasTasks}
use vmill.Tasks.Running.{Ran}
use vmill.Tasks.Passes.{visit_all, resume_pass-visit_all}
use vmill.Tasks.Faults.{
  set_location, Access, reads, writes, accesses, first_failed, after_first, accesses-first_failed,
}

-- Tasks 0 and 1, of which 1 is the newer one.
abbrev two_tasks : System
two_tasks = record {
  task =
      update
        (update (λ _. none) 0
          (some (record (init_task 4096 7) { tid = 2; next_circular = some 1 })))
        1 (some (record (init_task 8192 7) { tid = 3; next = some 0; next_circular = some 0 }));
  next_key = 2;
  task_list = some 1;
  last_task = some 0;
  next_tid = 4;
}

two_tasks-HasTasks : HasTasks two_tasks (1 ∷ 0 ∷ [])
two_tasks-HasTasks = record {
  run = (refl, (omega arith, tt), (_, refl, refl, (refl, tt, (_, refl, refl, refl))));
  last = refl;
  free = (omega arith, (omega arith, tt));
}

create_task-HasTasks_example :
    (s' : System) × (create_task two_tasks 100 7 ≡ done (2, s')) × HasTasks s' (2 ∷ 1 ∷ 0 ∷ [])
create_task-HasTasks_example = create_task-HasTasks two_tasks (1 ∷ 0 ∷ []) 100 7 two_tasks-HasTasks

-- Memory in which the addresses from 64 on cannot be accessed; it counts the accesses.
abbrev try_low : ℕ → ℕ → Outcome (Option ℕ × ℕ)
try_low n a = done (if ltb a 64 then some 7 else none, n + 1)

abbrev put_low : ℕ → ℕ → ℕ → Outcome (Bool × ℕ)
put_low n a v = done (ltb a 64, n + 1)

abbrev some_accesses : List Access
some_accesses =
    reads value_integer 1 8
    ∷ writes value_integer 8 96 5
    ∷ writes value_integer 1 9 5
    ∷ reads value_integer 4 64
    ∷ []

accesses-first_failed_example :
    accesses try_low put_low some_accesses 0 (some (init_task 4096 7)) ≡ (
      first_failed try_low put_low some_accesses 0 >>= λ r.
      done (r.0, some (after_first r.1 (init_task 4096 7))))
accesses-first_failed_example =
    accesses-first_failed try_low put_low some_accesses 0 (init_task 4096 7) refl

write_failed_first :
    first_failed try_low put_low some_accesses 0 ≡ done (4, some (writes value_integer 8 96 5))
unfolding first_failed
write_failed_first = refl

-- A run that only counts up a number.
abbrev counting_run : System → ℕ → System
counting_run s k = record s { next_tid = s.next_tid + 1 }

resume_pass-visit_all_example :
    resume_pass counting_run 2 two_tasks (some 1) false
    ≡ done (visit_all counting_run (1 ∷ 0 ∷ []) two_tasks)
resume_pass-visit_all_example =
    resume_pass-visit_all counting_run (λ s k j t e. (t, e, refl)) (1 ∷ 0 ∷ []) two_tasks
      two_tasks-HasTasks

both_visited : ((visit_all counting_run (1 ∷ 0 ∷ []) two_tasks).1).next_tid ≡ 6
unfolding visit_all visit
both_visited = refl

abbrev lone_system : System
lone_system = record {
  task =
      update (λ _. none) 0 (some (record (init_task 4096 7) { tid = 2; next_circular = some 0 }));
  next_key = 1;
  task_list = some 0;
  last_task = some 0;
  next_tid = 3;
}

abbrev exit_at_once : System → ℕ → LinuxTask → Ran
exit_at_once s k t = record {
  returned = true;
  started_at = t.pc;
  task = set_location t.pc stopped_at_exit t;
  system = s;
}
