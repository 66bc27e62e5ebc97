-- ===== src/Executor/Tests.antt =====
-- The theorems about the executor at a concrete program.
use vmill.Prelude.{
  ℕ, ◌≡◌, ◌==◌, ◌+◌, refl, true, false, none, List, [], ◌∷◌, arith, done, map, Bool,
}
use vmill.Tasks.{init_task}
use vmill.Decoder.{DecodedTrace, Instruction, category_function_return}
use vmill.Executor.{CacheIndexEntry, CodeMemory, Executor, Found, find_lifted_function_for_task}
use vmill.Executor.Caching.{IsCached}
use vmill.Executor.Live.{IsFound, find_lifted_function_for_task-IsFound}
use vmill.Executor.Stuck.{find_lifted_function_for_task-marked}

-- Each trace is compiled to the function at 1000 and its program counter.
abbrev compile_all : List DecodedTrace → List CacheIndexEntry
compile_all = map (λ (t : DecodedTrace). record {
  trace_id = record { pc = t.pc; hash = t.hash };
  lifted_function = 1000 + t.pc;
})

abbrev empty_executor : Executor
empty_executor = record {
  lifted_functions = λ pc hash. 0;
  live_traces = λ pc version. none;
  index = [];
}

-- Every instruction returns.
abbrev return_inst : Instruction
return_inst = record {
  category = category_function_return;
  next_pc = 0;
  branch_taken_pc = 0;
  bytes = 195 ∷ [];
}

abbrev returns_only : (ℕ → Bool) → CodeMemory
returns_only marked = record {
  decode = λ pc. (true, return_inst);
  code_version = λ pc. 7;
  executable = λ pc. true;
  marked = marked;
}

empty_executor-IsCached : IsCached empty_executor
unfolding IsCached
empty_executor-IsCached pc version f e = absurd cc

find_lifted_function_for_task-IsFound_example :
    (fuel : ℕ) × (r : Found) × (find_lifted_function_for_task compile_all
        (λ f. true)
        (λ seed bytes. seed)
        1
        12
        fuel
        empty_executor
        (returns_only (λ pc. false))
        (init_task 2 7)
      ≡ done r)
    × IsFound compile_all
        (λ f. true)
        (λ seed bytes. seed)
        1
        12
        empty_executor
        (returns_only (λ pc. false))
        (init_task 2 7)
        r
find_lifted_function_for_task-IsFound_example =
    find_lifted_function_for_task-IsFound compile_all (λ f. true) (λ seed bytes. seed) 1 12 4
      (returns_only (λ pc. false)) empty_executor (init_task 2 7) (λ pc. (omega arith, omega arith))
      (omega arith) (omega arith) empty_executor-IsCached

-- The same program where 2 is marked already.
marked_head :
    find_lifted_function_for_task compile_all
      (λ f. true)
      (λ seed bytes. seed)
      1
      12
      4
      empty_executor
      (returns_only (λ pc. pc == 2))
      (init_task 2 7)
    ≡ done (record {
      function = 1;
      executor = empty_executor;
      memory = returns_only (λ pc. pc == 2);
      task = init_task 2 7;
    })
marked_head =
    find_lifted_function_for_task-marked compile_all (λ f. true) (λ seed bytes. seed) 1 12 3
      empty_executor (returns_only (λ pc. pc == 2)) (init_task 2 7) refl refl refl
