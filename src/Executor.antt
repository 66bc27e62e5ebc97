-- ===== src/Executor.antt =====
-- vmill/Executor/Executor.cpp: finding the lifted code for a task; and of
-- vmill/Executor/CodeCache.cpp the map of the lifted functions. Lifting and compiling traces is a
-- parameter, which gives the index of the new object file; the other tasks that run while it is waited
-- for are not modelled. A function is its address, and 0 the null pointer.
pub mod Caching
pub mod Live
pub mod Stuck
mod Tests
use vmill.Prelude.{
  ℕ, Bool, true, false, not, ◌&&◌, Option, none, some, List, [], ◌∷◌, ◌++◌, reverse, ◌==◌,
  if◌then◌else◌, Outcome, done, ◌>>=◌,
}
use vmill.Tasks.{
  LinuxTask, status_error, fault_on_execute, value_instruction, stopped_at_jump_target,
  stopped_at_call_target,
}
use vmill.Decoder.{DecodedTrace, Decoder, Instruction, decode_traces}

-- A map from pairs of numbers, changed at one pair.
abbrev pub update_pair : {A : Type 0} → (ℕ → ℕ → A) → ℕ → ℕ → A → ℕ → ℕ → A
update_pair f a b v x y = if (x == a) && (y == b) then v else f x y

pub record TraceId : Type 0 where
  pub pc : ℕ
  pub hash : ℕ

pub record LiveTraceId : Type 0 where
  pub pc : ℕ
  pub code_version : ℕ

pub record CacheIndexEntry : Type 0 where
  pub trace_id : TraceId
  pub lifted_function : ℕ

pub record IndexEntry : Type 0 where
  pub trace_id : TraceId
  pub live_trace_id : LiveTraceId

-- LoadIndex, over `lifted_functions`; `contains` is the test of the code allocator.
unfoldable pub load_index : (ℕ → Bool) → List CacheIndexEntry → (ℕ → ℕ → ℕ) → Bool × (ℕ → ℕ → ℕ)
load_index contains [] lifted = (true, lifted)
load_index contains (e ∷ es) lifted =
    let id = e.trace_id in
    let skipped = load_index contains es lifted in
    let loaded = load_index contains es (update_pair lifted id.pc id.hash e.lifted_function) in
    if id.pc == 0
    then skipped
    else if not (contains e.lifted_function)
    then (false, skipped.1)
    else if lifted id.pc id.hash == 0
    then loaded
    else skipped

-- The code cache's map, the live traces by program counter and code version, and the index.
pub record Executor : Type 0 where
  pub lifted_functions : ℕ → ℕ → ℕ
  pub live_traces : ℕ → ℕ → Option ℕ
  pub index : List IndexEntry

abbrev pub lookup : Executor → ℕ → ℕ → ℕ
lookup ex pc hash = ex.lifted_functions pc hash

abbrev pub make_live : ℕ → ℕ → ℕ → Executor → Executor
make_live pc version func ex = record ex {
  live_traces = update_pair ex.live_traces pc version (some func);
}

-- The constructor's loop over the index.
unfoldable pub load_live : List IndexEntry → Executor → Executor
load_live [] ex = ex
load_live (e ∷ es) ex =
    let func = lookup ex (e.trace_id).pc (e.trace_id).hash in
    let live = make_live (e.live_trace_id).pc (e.live_trace_id).code_version func ex in
    load_live es (if func == 0 then ex else live)

-- The first loop of DecodeTracesFromTask: the traces that are left to be lifted.
unfoldable pub take_lifted : List DecodedTrace → Executor → List DecodedTrace × Executor
take_lifted [] ex = ([], ex)
take_lifted (t ∷ ts) ex =
    let func = lookup ex t.pc t.hash in
    let entry : IndexEntry = record {
      trace_id = record { pc = t.pc; hash = t.hash };
      live_trace_id = record { pc = t.pc; code_version = t.code_version };
    } in
    let found =
      make_live t.pc t.code_version func (record ex { index = ex.index ++ (entry ∷ []) }) in
    let already = take_lifted ts ex in
    let now = take_lifted ts found in
    elim (ex.live_traces t.pc t.code_version) [
      | some f ↦ already
      | none ↦ if func == 0 then (t ∷ already.0, already.1) else now
    ]

-- The last loop.
unfoldable pub add_lifted : List DecodedTrace → Executor → Executor
add_lifted [] ex = ex
add_lifted (t ∷ ts) ex =
    let func = lookup ex t.pc t.hash in
    let live = make_live t.pc t.code_version func ex in
    add_lifted ts (if func == 0 then ex else live)

-- What the lifter and the compiler make of traces: the index of the object file.
module _ (compile : List DecodedTrace → List CacheIndexEntry) (contains : ℕ → Bool) where
  -- AddModuleToCache; there is no module for no traces.
  unfoldable pub lift_traces : List DecodedTrace → Executor → Executor
  lift_traces [] ex = ex
  lift_traces (t ∷ ts) ex = add_lifted (t ∷ ts) (record ex {
    lifted_functions = (load_index contains (compile (t ∷ ts)) ex.lifted_functions).1;
  })

-- Memory as the executor uses it: what DecodeTraces takes of it, what may be executed, and the trace
-- heads that are marked.
pub record CodeMemory : Type 0 where
  pub decode : ℕ → Bool × Instruction
  pub code_version : ℕ → ℕ
  pub executable : ℕ → Bool
  pub marked : ℕ → Bool

-- What a search changes, and the function that it finds.
pub record Found : Type 0 where
  pub function : ℕ
  pub executor : Executor
  pub memory : CodeMemory
  pub task : LinuxTask

abbrev pub execute_fault : LinuxTask → LinuxTask
execute_fault t = record t {
  status = status_error;
  mem_access_fault = record {
    kind = fault_on_execute;
    value_type = value_instruction;
    access_size = 1;
    address = t.pc;
  };
}

abbrev pub function_or : ℕ → Option ℕ → ℕ
function_or error_intrinsic none = error_intrinsic
function_or error_intrinsic (some f) = f

module _ (compile : List DecodedTrace → List CacheIndexEntry) (contains : ℕ → Bool) where
  -- Of what DecodeTraces gives, in the order in which it found the traces.
  abbrev pub lift_decoded : Executor → CodeMemory → Decoder → Executor × CodeMemory
  lift_decoded ex m d =
      let taken = take_lifted (reverse d.traces) ex in
      (lift_traces compile contains taken.0 taken.1, record m { marked = d.marked })

module _ (compile : List DecodedTrace → List CacheIndexEntry) (contains : ℕ → Bool)
    (digest : ℕ → List (List ℕ) → ℕ) (error_intrinsic rounds fuel : ℕ) where
  unfoldable pub decode_traces_from_task :
      Executor → CodeMemory → LinuxTask → Outcome (Executor × CodeMemory)
  decode_traces_from_task ex m t =
      decode_traces m.decode m.code_version digest rounds fuel m.marked t.pc >>= λ (d : Decoder).
      done (lift_decoded compile contains ex m d)

  -- FindLiftedFunctionForTask.
  unfoldable pub find_lifted_function_for_task : Executor → CodeMemory → LinuxTask → Outcome Found
  find_lifted_function_for_task ex m t =
      let version = m.code_version t.pc in
      let missed = do
        after ← decode_traces_from_task ex m t
        done (record {
          function = function_or error_intrinsic ((after.0).live_traces t.pc version);
          executor = after.0;
          memory = after.1;
          task = t;
        })
      in let refused : Found = record {
        function = error_intrinsic;
        executor = ex;
        memory = m;
        task = execute_fault t;
      } in
        elim (ex.live_traces t.pc version) [
          | some f ↦ done (record { function = f; executor = ex; memory = m; task = t })
          | none ↦ if not (m.executable t.pc) then done refused else missed
        ]
