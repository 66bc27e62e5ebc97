-- ===== src/Executor/Live.antt =====
-- What FindLiftedFunctionForTask of vmill/Executor/Executor.cpp finds.
use vmill.Prelude.{
  ℕ, ◌*◌, ◌≡◌, ◌≤◌, ◌<◌, ◌⊎◌, inl, inr, refl, subst, Bool, Bool-cases, true, false, none,
  Option-cases, List, reverse, done,
}
use vmill.Tasks.{LinuxTask}
use vmill.Decoder.{DecodedTrace, Decoder, decode_traces}
use vmill.Decoder.Rounds.{IsWithin}
use vmill.Decoder.Traces.{decode_traces_ends}
use vmill.Executor.{
  CacheIndexEntry, CodeMemory, Executor, Found, decode_traces_from_task, execute_fault,
  find_lifted_function_for_task, function_or, lift_decoded, lift_traces, take_lifted,
}
use vmill.Executor.Caching.{Keeps, IsOf, IsCached, take_lifted-IsKept, lift_traces-IsCached}

module _ (compile : List DecodedTrace → List CacheIndexEntry) (contains : ℕ → Bool)
    (digest : ℕ → List (List ℕ) → ℕ) (error_intrinsic rounds : ℕ) where
  -- The result of a search for a task, from a state of the executor.
  pub record IsFound (ex : Executor) (m : CodeMemory) (t : LinuxTask) (r : Found) : Type 0 where
    pub cached : IsCached r.executor
    pub keeps : Keeps ex.lifted_functions (r.executor).lifted_functions
    pub finds : (r.function ≡ error_intrinsic) ⊎ IsOf r.executor t.pc r.function
    pub faults : (r.task ≡ t) ⊎ ((m.executable t.pc ≡ false) × (r.task ≡ execute_fault t))

  live-IsOf :
      (ex : Executor) (pc version : ℕ)
      → IsCached ex
      → (function_or error_intrinsic (ex.live_traces pc version) ≡ error_intrinsic)
        ⊎ IsOf ex pc (function_or error_intrinsic (ex.live_traces pc version))
  unfolding IsCached
  live-IsOf ex pc version ok = elim (Option-cases (ex.live_traces pc version)) [
    | inl missing ↦ rw missing (inl refl)
    | inr (f, live) ↦ rw live (inr (ok pc version f live))
  ]

  decoded-IsFound :
      (ex : Executor) (m : CodeMemory) (t : LinuxTask) (d : Decoder)
      → IsCached ex
      → (let after = lift_decoded compile contains ex m d in
          IsFound ex m t (record {
            function =
                function_or error_intrinsic ((after.0).live_traces t.pc (m.code_version t.pc));
            executor = after.0;
            memory = after.1;
            task = t;
          }))
  decoded-IsFound ex m t d ok =
      let taken = take_lifted (reverse d.traces) ex in
      let (ok1, same) = take_lifted-IsKept (reverse d.traces) ex ok in
      let (ok2, keeps) = lift_traces-IsCached compile contains taken.0 taken.1 ok1 in
      record {
        cached = ok2;
        keeps =
            subst (λ f. Keeps f (lift_traces compile contains taken.0 taken.1).lifted_functions)
              same keeps;
        finds =
            live-IsOf (lift_traces compile contains taken.0 taken.1) t.pc (m.code_version t.pc) ok2;
        faults = inl refl;
      }

  decodes :
      (fuel : ℕ) (ex : Executor) (m : CodeMemory) (t : LinuxTask) (d : Decoder)
      → ex.live_traces t.pc (m.code_version t.pc) ≡ none
      → m.executable t.pc ≡ true
      → decode_traces m.decode m.code_version digest rounds fuel m.marked t.pc ≡ done d
      → (let after = lift_decoded compile contains ex m d in
          find_lifted_function_for_task compile contains digest error_intrinsic rounds fuel ex m t
          ≡ done (record {
            function =
                function_or error_intrinsic ((after.0).live_traces t.pc (m.code_version t.pc));
            executor = after.0;
            memory = after.1;
            task = t;
          }))
  unfolding find_lifted_function_for_task decode_traces_from_task
  decodes fuel ex m t d missing may ends =
      rw (find_lifted_function_for_task, missing, may, decode_traces_from_task, ends) refl

  -- For a task below a number `n`, an instruction decoder that leads to program counters below `n`,
  -- and at least `3 * n` rounds for the loop over the work list: if each live trace has a function
  -- that the code cache has for its program counter, there is a number of rounds of the outer loop of
  -- DecodeTraces with which FindLiftedFunctionForTask returns. Then the live traces are still of this
  -- kind, and the functions of the code cache have stayed. The result is the function for errors, or
  -- one that the code cache has for the task's program counter; and the task is as before, or
  -- has an execute fault and may not execute there.
  pub find_lifted_function_for_task-IsFound :
      (n : ℕ) (m : CodeMemory) (ex : Executor) (t : LinuxTask)
      → ((pc : ℕ) → IsWithin n (m.decode pc).1)
      → 3 * n ≤ rounds
      → t.pc < n
      → IsCached ex
      → (fuel : ℕ) × (r : Found) × (find_lifted_function_for_task compile contains digest
            error_intrinsic rounds fuel ex m t
          ≡ done r)
        × IsFound ex m t r
  unfolding find_lifted_function_for_task decode_traces_from_task IsCached
  find_lifted_function_for_task-IsFound n m ex t within enough small ok =
      let (fuel, d, ends, empty, traces) =
        decode_traces_ends n m.decode within m.code_version digest rounds enough m.marked t.pc
          small in
      let after = lift_decoded compile contains ex m d in
      elim (Option-cases (ex.live_traces t.pc (m.code_version t.pc))) [
        | inr (f, live) ↦ (
          fuel,
          record { function = f; executor = ex; memory = m; task = t },
          rw (find_lifted_function_for_task, live) refl,
          record {
            cached = ok;
            keeps = λ pc hash h. refl;
            finds = inr (ok t.pc (m.code_version t.pc) f live);
            faults = inl refl;
          },
        )
        | inl missing ↦ elim (Bool-cases (m.executable t.pc)) [
          | inr refused ↦ (
            fuel,
            record {
              function = error_intrinsic;
              executor = ex;
              memory = m;
              task = execute_fault t;
            },
            rw (find_lifted_function_for_task, missing, refused) refl,
            record {
              cached = ok;
              keeps = λ pc hash h. refl;
              finds = inl refl;
              faults = inr (refused, refl);
            },
          )
          | inl may ↦ (fuel, _, decodes fuel ex m t d missing may ends, decoded-IsFound ex m t d ok)
        ]
      ]
