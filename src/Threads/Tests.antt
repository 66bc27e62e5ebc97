-- ===== src/Threads/Tests.antt =====
-- The theorems about threads at a concrete machine.
use vmill.Prelude.{
  ℕ, ◌^◌, ◌≡◌, ◌≢◌, ◌≤◌, refl, true, false, inl, none, some, List, [], ◌∷◌, arith, done, update,
}
use vmill.Futex.Operators.{Guest, can_write_word}
use vmill.Tasks.{LinuxTask, init_task}
use vmill.Transfers.{copy_from_memory, accessible_bytes_from}
use vmill.Tasks.Ring.{HasTasks}
use vmill.Calls.{State, amd64_syscall, int0x80, try_read_bytes}
use vmill.Threads.{
  Machine, zero_desc, desc_of, do_set_thread_area, try_write_word, min_index, max_index,
}
use vmill.Threads.Segments.{IsInstalled, do_set_thread_area-IsInstalled}
use vmill.Threads.Clone.{CloneArgs, do_clone, refuses}
use vmill.Threads.Children.{IsThread, do_clone-IsThread}
use vmill.Threads.Slots.{do_clone_tls}

-- Memory as a function from addresses to bytes, all of them accessible.
abbrev bytes_guest : Guest (ℕ → ℕ)
bytes_guest = record {
  read = λ m a. m a;
  write = update;
  can_read = λ _ _. true;
  can_write = λ _ _. true;
  width = 2 ^ 32;
}

abbrev one_state : State
one_state = record {
  rax = 0;
  rbx = 0;
  rcx = 0;
  rdx = 0;
  rsi = 0;
  rdi = 0;
  rbp = 0;
  rsp = 7000;
  rip = 4100;
  r8 = 0;
  r9 = 0;
  r10 = 0;
  segment = λ _. 12;
  base = λ _. 0;
}

-- A descriptor at the address 64: its index at 64, the base 512 and a 32-bit segment.
abbrev desc_bytes : ℕ → ℕ → ℕ
desc_bytes index = update (update (update (λ _. 0) 64 index) 69 2) 76 1

abbrev any_bytes : ℕ → ℕ
any_bytes = update (update (update (desc_bytes 255) 65 255) 66 255) 67 255

abbrev one_task : LinuxTask
one_task = record (init_task 4096 7) { tid = 2; next_circular = some 0 }

abbrev one_machine : (ℕ → ℕ) → Machine (ℕ → ℕ)
one_machine memory = record {
  memory = memory;
  system = record {
    task = update (λ _. none) 0 (some one_task);
    next_key = 1;
    task_list = some 0;
    last_task = some 0;
    next_tid = 3;
  };
  state = λ _. one_state;
  tls_slots = λ _ _. zero_desc;
  completed = false;
}

one_task-HasTasks : (memory : ℕ → ℕ) → HasTasks (one_machine memory).system (0 ∷ [])
one_task-HasTasks memory = record {
  run = (refl, tt, (_, refl, refl, refl));
  last = refl;
  free = (omega arith, tt);
}

-- What fork gives: only SIGCHLD, no flag.
abbrev fork_args : CloneArgs
fork_args = record { child_stack = 0; flags = 17; ptid = 0; newtls = 0; ctid = 0 }

abbrev tls_args : CloneArgs
tls_args = record { child_stack = 0; flags = 524288; ptid = 0; newtls = 64; ctid = 0 }

none_refused : refuses bytes_guest true amd64_syscall (desc_bytes 13) fork_args ≡ none
unfolding refuses
none_refused = refl

tls_not_refused : refuses bytes_guest false int0x80 (desc_bytes 13) tls_args ≡ none
unfolding refuses
tls_not_refused = refl

do_clone-IsThread_example :
    (mc' : Machine (ℕ → ℕ)) × (do_clone bytes_guest true amd64_syscall 0
        (one_machine (desc_bytes 13))
        fork_args
      ≡ done mc')
    × HasTasks mc'.system (1 ∷ 0 ∷ [])
    × IsThread bytes_guest true amd64_syscall 0 fork_args one_task (one_machine (desc_bytes 13)) mc'
do_clone-IsThread_example =
    do_clone-IsThread bytes_guest true amd64_syscall 0 fork_args (one_machine (desc_bytes 13))
      (0 ∷ []) one_task (one_task-HasTasks (desc_bytes 13)) (omega arith) refl refl none_refused
      (inl refl)

abbrev any_list : List ℕ
any_list = 255 ∷ 255 ∷ 255 ∷ 255 ∷ 0 ∷ 2 ∷ 0 ∷ 0 ∷ 0 ∷ 0 ∷ 0 ∷ 0 ∷ 1 ∷ 0 ∷ 0 ∷ 0 ∷ []

abbrev desc_list : List ℕ
desc_list = 13 ∷ 0 ∷ 0 ∷ 0 ∷ 0 ∷ 2 ∷ 0 ∷ 0 ∷ 0 ∷ 0 ∷ 0 ∷ 0 ∷ 1 ∷ 0 ∷ 0 ∷ 0 ∷ []

word_there : can_write_word bytes_guest any_bytes 64 ≡ true
unfolding accessible_bytes_from
word_there = refl

read_any : try_read_bytes bytes_guest any_bytes 64 16 ≡ some any_list
unfolding copy_from_memory accessible_bytes_from
read_any = refl

read_13 : try_read_bytes bytes_guest (desc_bytes 13) 64 16 ≡ some desc_list
unfolding copy_from_memory accessible_bytes_from
read_13 = refl

do_set_thread_area-IsInstalled_example :
    (i : ℕ) × (min_index ≤ i)
    × (i ≤ max_index)
    × (12 ≢ i)
    × (12 ≢ i)
    × ((do_set_thread_area bytes_guest 0 0 64 (one_machine any_bytes)).memory
        ≡ (try_write_word bytes_guest any_bytes 64 i).1)
    × IsInstalled bytes_guest 0 0
        (record (desc_of any_list) { entry_number = i })
        (one_machine any_bytes)
        (do_set_thread_area bytes_guest 0 0 64 (one_machine any_bytes))
do_set_thread_area-IsInstalled_example =
    do_set_thread_area-IsInstalled bytes_guest 0 0 64 any_list (one_machine any_bytes) read_any refl
      refl word_there

parent_slot :
    (mc' : Machine (ℕ → ℕ)) × (do_clone bytes_guest false int0x80 0
        (one_machine (desc_bytes 13))
        tls_args
      ≡ done mc')
    × (mc'.tls_slots 0 1 ≡ desc_of desc_list)
    × (mc'.tls_slots 1 ≡ (λ _. zero_desc))
parent_slot =
    do_clone_tls bytes_guest int0x80 0 tls_args (one_machine (desc_bytes 13)) (0 ∷ []) one_task
      desc_list (one_task-HasTasks (desc_bytes 13)) (omega arith) refl refl tls_not_refused refl
      read_13 refl (omega arith) (omega arith)
