-- ===== src/Futex/Tests.antt =====
-- The theorems about futexes at concrete tasks.
use vmill.Prelude.{ℕ, ◌≡◌, ◌≤◌, refl, true, none, some, [], ◌∷◌, length, arith, done, update}
use vmill.Tasks.{LinuxTask, System, init_task}
use vmill.Tasks.Ring.{HasTasks}
use vmill.Futex.{wait_round, do_wake, returns, futex_blocked_for_a_bit, do_futex_wait_bit_set}
use vmill.Futex.Waking.{waits, chosen, wake_task}
use vmill.Futex.Round.{do_wake-chosen}
use vmill.Futex.Waiting.{Waits, begins, IsPatient, Waits-IsPatient, ticked, Waits-end}

abbrev waiting_task : LinuxTask
waiting_task = record (init_task 4096 7) {
  blocked_count = 100;
  futex_bitset = 255;
  futex_uaddr = 64;
}

-- Task 1 runs; tasks 2 and 0 wait at the address 64.
abbrev three_tasks : System
three_tasks = record {
  task =
      update
        (update (update (λ _. none) 0 (some (record waiting_task { next_circular = some 2 }))) 1
          (some (record (init_task 8192 7) { next = some 0; next_circular = some 0 })))
        2 (some (record waiting_task { next = some 1; next_circular = some 1 }));
  next_key = 3;
  task_list = some 2;
  last_task = some 0;
  next_tid = 5;
}

three_tasks-HasTasks : HasTasks three_tasks (2 ∷ 1 ∷ 0 ∷ [])
three_tasks-HasTasks = record {
  run = (
    refl,
    (omega arith, (omega arith, tt)),
    (_, refl, refl, (refl, (omega arith, tt), (_, refl, refl, (refl, tt, (_, refl, refl, refl))))),
  );
  last = refl;
  free = (omega arith, (omega arith, (omega arith, tt)));
}

do_wake-chosen_example :
    (s' : System) × (do_wake 3 1 64 15 5 three_tasks
      ≡ done (length (chosen (waits three_tasks 7 64 15) 5 (0 ∷ 2 ∷ [])), s'))
    × ((j : ℕ)
        → s'.task j
          ≡ wake_task (chosen (waits three_tasks 7 64 15) 5 (0 ∷ 2 ∷ [])) three_tasks.task j)
do_wake-chosen_example =
    do_wake-chosen three_tasks (2 ∷ []) (0 ∷ []) 1 3 64 15 5
      (record (init_task 8192 7) { next = some 0; next_circular = some 0 }) three_tasks-HasTasks
      refl (omega arith)

both_woken : chosen (waits three_tasks 7 64 15) 5 (0 ∷ 2 ∷ []) ≡ 0 ∷ 2 ∷ []
unfolding chosen
both_woken = refl

waiting_begun :
    do_futex_wait_bit_set 64 9 true 255 (some 9) true (init_task 4096 7) ≡ done (none, waiting_task)
unfolding do_futex_wait_bit_set wait_round
waiting_begun = refl

it-Waits : Waits 64 9 255 waiting_task none
it-Waits = begins (init_task 4096 7) (some 9) true refl refl waiting_begun

Waits-IsPatient_example : IsPatient 64 waiting_task none
Waits-IsPatient_example = Waits-IsPatient it-Waits

Waits-end_example :
    (n : ℕ) × (t' : LinuxTask) × (n ≤ futex_blocked_for_a_bit)
    × Waits 64 9 255 (ticked n waiting_task) none
    × (wait_round 64 9 true 255 (some 9) true (ticked n waiting_task) ≡ done (some (returns 0), t'))
    × Waits 64 9 255 t' (some (returns 0))
Waits-end_example = Waits-end waiting_task (λ e. cc) it-Waits
