-- ===== src/Decoder.antt =====
-- vmill/Arch/Decoder.cpp: decoding the machine code from a program counter on into traces. The
-- decoder of instructions, the bytes that may be executed, the code versions and the digest are
-- parameters.
pub mod Lists
pub mod Rounds
pub mod Closure
pub mod Traces
pub mod Leftover
mod Tests
use vmill.Prelude.{
  ℕ, zero, suc, ◌+◌, ◌*◌, ◌%◌, ◌^◌, Bool, true, false, not, Option, none, some, length, List, [],
  ◌∷◌, ◌++◌, map, ltb, ◌==◌, if◌then◌else◌, update, word_mod, Outcome, done, undefined, ◌>>=◌,
}

-- The categories of remill::Instruction.
pub data Category : Type 0 where
  category_invalid category_error category_indirect_jump category_function_return
        category_async_hyper_call category_indirect_function_call category_direct_function_call
        category_normal category_no_op category_conditional_async_hyper_call category_direct_jump
        category_conditional_branch :
      Category

pub record Instruction : Type 0 where
  pub category : Category
  pub next_pc : ℕ
  pub branch_taken_pc : ℕ
  pub bytes : List ℕ

-- A std::set, lowest first, and a std::map from program counters.
unfoldable pub insert_pc : ℕ → List ℕ → List ℕ
insert_pc p [] = p ∷ []
insert_pc p (q ∷ qs) =
    let rest = insert_pc p qs in if p == q then q ∷ qs else if ltb p q then p ∷ q ∷ qs else q ∷ rest

unfoldable pub find_inst : List (ℕ × Instruction) → ℕ → Option Instruction
find_inst [] pc = none
find_inst ((p, i) ∷ rest) pc = let later = find_inst rest pc in if pc == p then some i else later

unfoldable pub insert_inst : ℕ → Instruction → List (ℕ × Instruction) → List (ℕ × Instruction)
insert_inst pc inst [] = (pc, inst) ∷ []
insert_inst pc inst ((p, i) ∷ rest) =
    let later = insert_inst pc inst rest in
    if ltb pc p then (pc, inst) ∷ (p, i) ∷ rest else (p, i) ∷ later

-- ReadInstructionBytes: `executable` is TryReadExecutable, and `n` is what MaxInstructionSize leaves.
unfoldable pub read_instruction_bytes : (ℕ → Option ℕ) → ℕ → ℕ → List ℕ
read_instruction_bytes executable zero pc = []
read_instruction_bytes executable (suc n) pc =
    let rest = read_instruction_bytes executable n ((pc + 1) % word_mod) in
    elim (executable pc) [ none ↦ [] | some b ↦ b ∷ rest ]

-- The instruction at a program counter, if it can be decoded; `lazy_decode` is LazyDecodeInstruction of
-- the architecture.
abbrev pub decode_at :
    (ℕ → List ℕ → Bool × Instruction) → (ℕ → Option ℕ) → ℕ → ℕ → Bool × Instruction
decode_at lazy_decode executable max_size pc =
    lazy_decode pc (read_instruction_bytes executable max_size pc)

-- The switch of AddSuccessorsToWorkList: what is inserted, in order.
abbrev pub direct_successors : Category → ℕ → ℕ → List ℕ
direct_successors category_invalid next taken = []
direct_successors category_error next taken = []
direct_successors category_indirect_jump next taken = []
direct_successors category_function_return next taken = []
direct_successors category_async_hyper_call next taken = []
direct_successors category_indirect_function_call next taken = next ∷ []
direct_successors category_direct_function_call next taken = next ∷ []
direct_successors category_normal next taken = next ∷ []
direct_successors category_no_op next taken = next ∷ []
direct_successors category_conditional_async_hyper_call next taken = next ∷ []
direct_successors category_direct_jump next taken = taken ∷ []
direct_successors category_conditional_branch next taken = taken ∷ next ∷ []

unfoldable pub insert_all : List ℕ → List ℕ → List ℕ
insert_all [] work = work
insert_all (p ∷ ps) work = insert_all ps (insert_pc p work)

abbrev pub successors : Instruction → List ℕ
successors i = direct_successors i.category i.next_pc i.branch_taken_pc

-- AddSuccessorsToWorkList.
abbrev pub add_successors : Instruction → List ℕ → List ℕ
add_successors i work = insert_all (successors i) work

-- AddSuccessorsToTraceList.
abbrev pub is_direct_call : Category → Bool
is_direct_call category_direct_function_call = true
is_direct_call _ = false

unfoldable pub add_called : Instruction → List ℕ → List ℕ
add_called inst traces =
    if is_direct_call inst.category
    then if inst.branch_taken_pc == inst.next_pc
      then traces
      else insert_pc inst.branch_taken_pc traces
    else traces

-- A trace that is being decoded: what is left to decode for it, its instructions, and the traces to
-- decode later.
pub record Decoding : Type 0 where
  pub work : List ℕ
  pub instructions : List (ℕ × Instruction)
  pub later : List ℕ

abbrev pub is_there : {A : Type 0} → Option A → Bool
is_there none = false
is_there (some a) = true

abbrev pub is_known : List (ℕ × Instruction) → ℕ → Bool
is_known insts pc = is_there (find_inst insts pc)

-- `decode` is the instruction at a program counter, as `decode_at` gives it.
module _ (decode : ℕ → Bool × Instruction) where
  -- An instruction that is not known yet: if the loop breaks off, and the state after it.
  unfoldable pub decode_new : ℕ → Decoding → Bool × Decoding
  decode_new pc d =
      let (decoded, inst) = decode pc in
      let insts = insert_inst pc inst d.instructions in
      if decoded
      then (
        false,
        record {
          work = add_successors inst d.work;
          instructions = insts;
          later = add_called inst d.later;
        },
      )
      else (true, record d { instructions = insts })

  abbrev pub decode_one : ℕ → Decoding → Bool × Decoding
  decode_one pc d = if is_known d.instructions pc then (false, d) else decode_new pc d

  -- The loop over the work list, which decodes one trace.
  unfoldable pub decode_loop : ℕ → Decoding → Outcome Decoding
  decode_loop zero d = elim d.work [ [] ↦ done d | _ ∷ _ ↦ undefined ]
  decode_loop (suc fuel) d = elim d.work [
    | [] ↦ done d
    | pc ∷ rest ↦
        let round = decode_one pc (record d { work = rest }) in
        let onward = decode_loop fuel round.1 in if round.0 then done round.1 else onward
  ]

-- DecodedTrace; its id is the program counter and the hash.
pub record DecodedTrace : Type 0 where
  pub pc : ℕ
  pub code_version : ℕ
  pub hash : ℕ
  pub instructions : List (ℕ × Instruction)

-- DecodeTraces between two rounds of its outer loop: the two sets, the trace heads that the address
-- space has marked, and the traces, the last one first.
pub record Decoder : Type 0 where
  pub trace_list : List ℕ
  pub work_list : List ℕ
  pub marked : ℕ → Bool
  pub traces : List DecodedTrace

abbrev pub first_pc : List (ℕ × Instruction) → ℕ
first_pc [] = 1
first_pc (e ∷ es) = e.0

abbrev pub last_pc : List (ℕ × Instruction) → ℕ
last_pc [] = 1
last_pc (e ∷ []) = e.0
last_pc (e ∷ f ∷ es) = last_pc (f ∷ es)

-- `code_version` is ComputeCodeVersion of the address space, and `digest` the hash of the bytes of a
-- list of instructions from a seed.
module _ (decode : ℕ → Bool × Instruction) (code_version : ℕ → ℕ)
    (digest : ℕ → List (List ℕ) → ℕ) where
  -- HashTraceInstructions.
  unfoldable pub hash_trace_instructions : List (ℕ × Instruction) → ℕ
  hash_trace_instructions insts =
      digest (first_pc insts * last_pc insts * length insts % word_mod)
        (map (λ (e : ℕ × Instruction). (e.1).bytes) insts)

  -- A trace whose head is not marked. `rounds` is fuel for the loop over the work list.
  unfoldable pub decode_trace : ℕ → ℕ → Decoder → Outcome Decoder
  decode_trace rounds pc s = do
    d ←
        decode_loop decode rounds
          (record { work = insert_pc pc s.work_list; instructions = []; later = s.trace_list })
    let trace : DecodedTrace = record {
      pc = pc;
      code_version = code_version pc;
      hash = hash_trace_instructions d.instructions;
      instructions = d.instructions;
    }
    done (record {
      trace_list = d.later;
      work_list = d.work;
      marked = update s.marked pc true;
      traces = trace ∷ s.traces;
    })

  -- The outer loop.
  unfoldable pub trace_loop : ℕ → ℕ → Decoder → Outcome Decoder
  trace_loop rounds zero s = elim s.trace_list [ [] ↦ done s | _ ∷ _ ↦ undefined ]
  trace_loop rounds (suc fuel) s = elim s.trace_list [
    | [] ↦ done s
    | pc ∷ rest ↦
        let taken : Decoder = record s { trace_list = rest } in
        let skipped = trace_loop rounds fuel taken in
        let decoded =
          decode_trace rounds pc taken >>= λ (s' : Decoder). trace_loop rounds fuel s' in
        if s.marked pc then skipped else decoded
  ]

  -- DecodeTraces, with the trace heads that are marked.
  abbrev pub decode_traces : ℕ → ℕ → (ℕ → Bool) → ℕ → Outcome Decoder
  decode_traces rounds fuel marked start_pc =
      trace_loop rounds fuel
        (record { trace_list = start_pc ∷ []; work_list = []; marked = marked; traces = [] })
