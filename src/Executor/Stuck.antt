-- ===== src/Executor/Stuck.antt =====
-- A search of vmill/Executor/Executor.cpp for code that changed.
use vmill.Prelude.{ℕ, zero, suc, [], ◌≡◌, refl, Bool, true, none, List, done}
use vmill.Tasks.{LinuxTask}
use vmill.Decoder.{DecodedTrace, Decoder, Instruction, decode_traces, trace_loop}
use vmill.Executor.{
  CacheIndexEntry, CodeMemory, Executor, decode_traces_from_task, find_lifted_function_for_task,
  lift_traces, take_lifted,
}

empty_list :
    (decode : ℕ → Bool × Instruction) (version : ℕ → ℕ) (digest : ℕ → List (List ℕ) → ℕ)
    (rounds fuel : ℕ) (marked : ℕ → Bool)
    → (let s : Decoder = record { trace_list = []; work_list = []; marked = marked; traces = [] } in
        trace_loop decode version digest rounds fuel s ≡ done s)
unfolding trace_loop
empty_list decode version digest rounds zero marked = refl
empty_list decode version digest rounds (suc fuel) marked = refl

marked_head :
    (decode : ℕ → Bool × Instruction) (version : ℕ → ℕ) (digest : ℕ → List (List ℕ) → ℕ)
    (rounds fuel : ℕ) (marked : ℕ → Bool) (pc : ℕ)
    → marked pc ≡ true
    → decode_traces decode version digest rounds (suc fuel) marked pc
      ≡ done (record { trace_list = []; work_list = []; marked = marked; traces = [] })
unfolding trace_loop
marked_head decode version digest rounds fuel marked pc h =
    rw h (empty_list decode version digest rounds fuel marked)

module _ (compile : List DecodedTrace → List CacheIndexEntry) (contains : ℕ → Bool)
    (digest : ℕ → List (List ℕ) → ℕ) (error_intrinsic rounds fuel : ℕ) where
  nothing_decoded :
      (ex : Executor) (m : CodeMemory) (t : LinuxTask)
      → m.marked t.pc ≡ true
      → decode_traces_from_task compile contains digest error_intrinsic rounds (suc fuel) ex m t
        ≡ done (ex, m)
  unfolding decode_traces_from_task take_lifted lift_traces
  nothing_decoded ex m t marked =
      rw (marked_head m.decode m.code_version digest rounds fuel m.marked t.pc marked) refl

  -- Where the program counter of a task is marked as the head of a trace, and may be executed, but has no
  -- live trace for its code version, the executor finds the function for errors, and nothing
  -- changes, so that it does so each time.
  pub find_lifted_function_for_task-marked :
      (ex : Executor) (m : CodeMemory) (t : LinuxTask)
      → m.marked t.pc ≡ true
      → m.executable t.pc ≡ true
      → ex.live_traces t.pc (m.code_version t.pc) ≡ none
      → find_lifted_function_for_task compile contains digest error_intrinsic rounds
          (suc fuel)
          ex
          m
          t
        ≡ done (record { function = error_intrinsic; executor = ex; memory = m; task = t })
  unfolding find_lifted_function_for_task
  find_lifted_function_for_task-marked ex m t marked may missing =
      rw (find_lifted_function_for_task, missing, may, nothing_decoded ex m t marked, missing) refl
